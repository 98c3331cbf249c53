-- ===== src/Calls/Exclusive.antt =====
-- Calls of a function with `Dedupe` in typedhandler_job.go: one run at a time for a key.
use allino.Base.{
  ℕ, ◌≡◌, refl, ◌∙◌, true, false, ◌&&◌, List, [], ◌∷◌, Option, none, some, Bool-cases, inl, inr,
}
use allino.Base.Bytes.{Bytes, bytes_eq}
use allino.Jobs.Table.{leased, JobMeta, Row, Db, delete_rows, keep_rows, find_row}
use allino.Jobs.Queue.{enqueue, free, has_key}
use allino.Jobs.Steps.{Call, enqueues, step, run}
use allino.Jobs.Sound.{IsSound, step-IsSound}
use allino.Jobs.Leased.{IsLeased}
use allino.Jobs.Locked.{AllSpare, keyed_rest, run-IsLeased}
use allino.Jobs.Accept.{IsFree, IsBusy, enqueue_free, enqueue_busy}
use allino.Calls.Options.{JobContext, job_meta, wants_requeue}
use allino.Calls.Lookup.{Function, duplicated, own_error}
use allino.Calls.Call.{
  Ran, Called, call_refused, settle, run_body, call_dedupe, call_uncached, call_keyed,
}

-- The mode of a plain lock: calls are neither queued nor cached.
pub record IsLocking {U E : Type 0} (f : Function U E) (c : JobContext) : Type 0 where
  pub uncached : f.job.cache ≡ false
  pub synchronous : (c.fromcall && f.job.async) ≡ false
  pub dedupes : f.job.dedupe ≡ true

keyless : (key : Bytes) (rs : List Row) → find_row key (keep_rows (has_key key) rs) ≡ none
unfolding find_row keep_rows
keyless key [] = refl
keyless key (r ∷ rs) = elim (Bool-cases (bytes_eq r.key key)) [
  | inl e ↦ rw e (keyless key rs)
  | inr e ↦ rw (e, e) (keyless key rs)
]

pub free_lem : (key : Bytes) (db : Db) → find_row key (free key db).executions ≡ none
unfolding free delete_rows
free_lem key db = keyless key db.executions

-- The run has put the key back.
abbrev pub Released : {U E : Type 0} → Bytes → Ran U E → Called U E → Type 0
Released key x r =
    (r.answer ≡ some (x.output, own_error x.err))
    × (r.ran ≡ true)
    × (find_row key r.db.executions ≡ none)
    × ((j : Bytes)
        → bytes_eq key j ≡ false
        → find_row j r.db.executions ≡ find_row j x.db.executions)

-- The key can be locked, and the database with the lock.
module _ {U E : Type 0} (f : Function U E) (now : ℕ) (key injson : Bytes) (db : Db) where
  abbrev pub locked_db : Db
  locked_db =
      (enqueue now f.name (job_meta now f.version f.job key leased) key (some injson) 0 db).1

  abbrev pub CanLock : Type 0
  CanLock = IsFree now f.name (job_meta now f.version f.job key leased) key (some injson) 0 db

  locked-IsLeased : CanLock → IsLeased key locked_db
  unfolding job_meta
  locked-IsLeased can =
      let (_, (r, e, a), _) =
        enqueue_free now f.name (job_meta now f.version f.job key leased) key (some injson) 0 db
          can in
      (r, e, a.3)

  locked_db-IsSound : IsSound db → IsSound locked_db
  locked_db-IsSound s =
      unfold step in
      step-IsSound now
        (enqueues f.name (job_meta now f.version f.job key leased) key (some injson) 0) db s

leased-IsBusy :
    (key : Bytes) (db : Db) (now : ℕ) (handler : Bytes) (meta : JobMeta) (injson : Option Bytes)
    → IsLeased key db
    → IsBusy now handler meta key injson 0 db
leased-IsBusy key db now handler meta injson (r, e, st) = (r, e, rw st refl)

module _ {U E : Type 0} (f : Function U E) (now interval wait_timeout : ℕ) (c : JobContext)
    (key injson : Bytes) (body : Db → Ran U E) (firings : List (ℕ × Db)) (db : Db) where
  abbrev pub dedupe_call : Called U E
  dedupe_call = call_dedupe f now interval wait_timeout c key injson body firings db

  pub keyed_locking :
      IsLocking f c
      → call_keyed f now interval wait_timeout c key injson body firings db ≡ dedupe_call
  unfolding call_keyed call_uncached
  keyed_locking h = rw (h.uncached) (rw (h.synchronous) (rw (h.dedupes)))

  pub dedupe_acquired :
      IsFree now f.name (job_meta now f.version f.job key leased) key (some injson) 0 db
      → dedupe_call ≡ run_body f interval c key injson (body (locked_db f now key injson db))
  unfolding call_dedupe
  dedupe_acquired h = rw (
      (enqueue_free now f.name (job_meta now f.version f.job key leased) key (some injson) 0 db
        h).0)

  pub dedupe_refused :
      IsBusy now f.name (job_meta now f.version f.job key leased) key (some injson) 0 db
      → dedupe_call ≡ call_refused f now wait_timeout key firings db
  unfolding call_dedupe
  dedupe_refused h =
      rw
        (enqueue_busy now f.name (job_meta now f.version f.job key leased) key (some injson) 0 db h)

  run-Released :
      (x : Ran U E)
      → IsLocking f c
      → wants_requeue x.abort ≡ false
      → Released key x (run_body f interval c key injson x)
  unfolding run_body settle free delete_rows
  run-Released x h w = rw w (
      rw (h.uncached) (
        rw (h.dedupes)
          (refl, refl, keyless key x.db.executions, λ j ne. keyed_rest key j x.db.executions ne)))

  -- A call of a function that is locked and not cached, of a free key, whose run does not ask
  -- to be queued again, runs the body on the database with the lock and answers its output and
  -- error; the key has no row afterwards and every other key has the row that the body left.
  pub call_keyed-Released :
      IsLocking f c
      → CanLock f now key injson db
      → wants_requeue (body (locked_db f now key injson db)).abort ≡ false
      → Released key
          (body (locked_db f now key injson db))
          (call_keyed f now interval wait_timeout c key injson body firings db)
  call_keyed-Released h can w =
      rw (keyed_locking h, dedupe_acquired can)
        (run-Released (body (locked_db f now key injson db)) h w)

-- From the moment at which a call of a function that is locked and not cached has taken a free
-- key of sound tables, through any further calls of the queue that do not end the lease of the
-- key (any Enqueue, Dequeue, LeaseUpdate and Done, any Free, requeue and doneAsync of another
-- key, and any Reaping while the lease lasts), every other such call of the key, at any time
-- and with any input and body, answers ErrJobDuplicated, does not run and changes nothing.
pub call_keyed-exclusive :
    {U E : Type 0} (f : Function U E) (now now' interval wait_timeout : ℕ) (c : JobContext)
    (key injson injson' : Bytes) (body' : Db → Ran U E) (firings : List (ℕ × Db)) (db : Db)
    (meanwhile : List (ℕ × Call))
    → IsSound db
    → CanLock f now key injson db
    → AllSpare key meanwhile (locked_db f now key injson db)
    → IsLocking f c
    → call_keyed f now' interval wait_timeout c key injson' body' firings
        (run meanwhile (locked_db f now key injson db))
      ≡ record {
        answer = some (f.zero_output, some duplicated);
        ran = false;
        db = run meanwhile (locked_db f now key injson db);
      }
unfolding call_refused
call_keyed-exclusive f now now' interval wait_timeout c key injson injson' body' firings db cs s can
      spared h =
    let later = run cs (locked_db f now key injson db) in
    let held =
      run-IsLeased key cs (locked_db f now key injson db) (locked_db-IsSound f now key injson db s)
        spared (locked-IsLeased f now key injson db can) in
    keyed_locking f now' interval wait_timeout c key injson' body' firings later h
    ∙ dedupe_refused f now' interval wait_timeout c key injson' body' firings later (
        leased-IsBusy key later now' f.name (job_meta now' f.version f.job key leased)
          (some injson') held)
    ∙ rw (h.uncached)
