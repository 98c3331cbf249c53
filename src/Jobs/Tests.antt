-- ===== src/Jobs/Tests.antt =====
-- Runs of typedhandler_job_sql.go, and instances of its theorems.
use allino.Base.{
  ℕ, ◌≡◌, refl, true, false, [], ◌∷◌, List, Option, none, some, inl, map, suc, length, ◌++◌,
}
use allino.Base.Bytes.{Bytes, codes, bytes_eq}
use allino.Base.Int.{ℤ, pos}
use allino.Jobs.Table.{JobMeta, Status, queued, leased, Db, Row, find_row, insert_row}
use allino.Jobs.Queue.{new_row, JobTask, enqueue, dequeue, reaping}
use allino.Jobs.Outcome.{wait}
use allino.Jobs.Listing.{list}
use allino.Jobs.Pages.{IsNewestFirst, count, count_rows, list-pages}
use allino.Jobs.Finish.{done_async}
use allino.Jobs.Steps.{Call, enqueues, dequeues, step, run, empty_db}
use allino.Jobs.Sound.{IsSound, step-IsSound, run-empty_db-IsSound}
use allino.Jobs.Accept.{Accepted, enqueue_free}
use allino.Jobs.Reaped.{reaped, reaping-reaped}
use allino.Jobs.Dispatch.{Dispatched, dequeue-Dispatched}
use allino.Jobs.Totals.{total, total_of, rows_in, total-rows_in}
use allino.Jobs.Results.{wait-first_finished, first_finished}

abbrev mail : Bytes
mail = codes "mail"

abbrev meta_of : Status → Option ℕ → JobMeta
meta_of st ttl = record {
  version = codes "1.0";
  status = st;
  parent_id = [];
  root_id = codes "r";
  ttl = ttl;
  priority = pos 0;
}

-- Two queued mails, and one job that runs as soon as it is stored.
abbrev history : List (ℕ × Call)
history =
    (10, enqueues mail (meta_of queued none) (codes "a") none 0)
    ∷ (11, enqueues mail (meta_of queued (some 90)) (codes "b") none 0)
    ∷ (12, enqueues mail (meta_of leased none) (codes "c") none 0)
    ∷ []

abbrev jobs : Db
jobs = run history empty_db

-- After one job is leased.
abbrev busy : Db
busy = step 20 (dequeues (mail ∷ []) 5) jobs

step-IsSound_example : IsSound (step 20 (dequeues (mail ∷ []) 5) jobs)
step-IsSound_example = step-IsSound 20 (dequeues (mail ∷ []) 5) jobs (run-empty_db-IsSound history)

dequeue-Dispatched_example :
    Dispatched 20
      (mail ∷ [])
      5
      (run history empty_db)
      (dequeue 20 (mail ∷ []) 5 (run history empty_db))
dequeue-Dispatched_example =
    dequeue-Dispatched 20 (mail ∷ []) 5 (run history empty_db) (run-empty_db-IsSound history)

abbrev leased_task : Option (JobTask × ℤ × Db) → JobTask × ℤ × Db
leased_task none =
    (record { key = []; handler = []; meta = meta_of queued none; input = none }, pos 0, empty_db)
leased_task (some t) = t

abbrev first_lease : JobTask × ℤ × Db
first_lease = leased_task (dequeue 20 (mail ∷ []) 5 (run history empty_db))

abbrev second_lease : JobTask × ℤ × Db
second_lease = leased_task (dequeue 21 (mail ∷ []) 5 first_lease.2)

abbrev letter : JobMeta
letter = meta_of queued none

enqueue_free_example :
    let (answer, db') = enqueue 30 mail letter (codes "d") none 7 empty_db in
    (answer ≡ true)
    × ((r : Row) × (find_row (codes "d") db'.executions ≡ some r)
        × Accepted 30 mail letter (codes "d") none r)
    × ((j : Bytes)
        → bytes_eq (codes "d") j ≡ false
        → find_row j db'.executions ≡ find_row j empty_db.executions)
unfolding empty_db find_row
enqueue_free_example = enqueue_free 30 mail letter (codes "d") none 7 empty_db (inl refl)

abbrev full : Db
full = run history empty_db

abbrev row_a : Row
row_a = record (new_row 10 mail letter (codes "a") none) { id = 1 }

reaping-reaped_example :
    find_row (codes "a") (reaping 50 3 busy).executions
    ≡ elim (find_row (codes "a") busy.executions) [ none ↦ none | some r ↦ reaped 50 3 r ]
reaping-reaped_example =
    reaping-reaped 50 3 (codes "a") busy
      (step-IsSound 20 (dequeues (mail ∷ []) 5) jobs (run-empty_db-IsSound history)).keyed

abbrev row_c : Row
row_c = record (new_row 12 mail (meta_of leased none) (codes "c") none) { id = 3 }

abbrev firings : List (ℕ × Db)
firings =
    (50, full)
    ∷ (999, full)
    ∷ (1000, done_async 40 mail letter (codes "a") none (some (codes "ok")) none full)
    ∷ []

wait-first_finished_example :
    wait 40 5 (codes "a") false firings ≡ first_finished (codes "a") false (map (λ f. f.1) firings)
wait-first_finished_example = wait-first_finished 40 5 (codes "a") false firings

total-rows_in_example :
    total_of queued (total (codes "r" ∷ []) full) ≡ rows_in (codes "r" ∷ []) queued full.executions
unfolding run step enqueue empty_db insert_row new_row find_row
total-rows_in_example =
    total-rows_in (codes "r" ∷ []) queued full (run-empty_db-IsSound history) refl
      (refl, (refl, (refl, tt)))

list-pages_example :
    IsNewestFirst (list (0 ∷ 1 ∷ []) (pos 2) (pos 1) full)
    × (list (0 ∷ 1 ∷ []) (pos 2) (pos 1) full ++ list (0 ∷ 1 ∷ []) (pos 1) (pos 3) full
        ≡ list (0 ∷ 1 ∷ []) (pos 3) (pos 1) full)
    × (count
          (λ j. bytes_eq j.job_id (codes "a"))
          (list (0 ∷ 1 ∷ []) (pos (suc (length full.executions))) (pos 0) full)
        ≡ count_rows (0 ∷ 1 ∷ []) (λ j. bytes_eq j.job_id (codes "a")) full.executions)
list-pages_example = list-pages (0 ∷ 1 ∷ []) 1 0 1 (λ j. bytes_eq j.job_id (codes "a")) full
