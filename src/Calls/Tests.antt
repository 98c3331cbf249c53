-- ===== src/Calls/Tests.antt =====
-- Runs of the job calls, and instances of their theorems.
use allino.Base.{ℕ, ◌≡◌, refl, true, false, List, [], ◌∷◌, Option, none, some, inl}
use allino.Base.Bytes.{Bytes, codes}
use allino.Base.Int.{pos}
use allino.JobIds.{
  has_major_or_minor_version_diff, handler_version, parse_major_minor, parse_parts, atoi, number,
  digits,
}
use allino.JobSet.{new_jobset, add, member}
use allino.Jobs.Table.{
  leased, insert_row, update_rows, JobMeta, queued, Row, Db, find_row, find_result, ResultRow, done,
}
use allino.Jobs.Queue.{new_row, enqueue, lease_update, JobTask, eligible}
use allino.Jobs.Outcome.{job_not_found, hit}
use allino.Jobs.Steps.{run, step, enqueues, renews, reaps, frees, empty_db, Call}
use allino.Jobs.Sound.{run-empty_db-IsSound}
use allino.Calls.Options.{
  JobOption, JobContext, job_meta, proceed, requeue, apply_mode, call_sql_init, new_server,
}
use allino.Calls.Lookup.{
  Function, duplicated, pending, strategy, marshal_output_set, unmarshalfn, is_stale, on_hit,
  unmarshal_output_set,
}
use allino.Calls.Call.{Ran, call_keyed, run_body}
use allino.Calls.Worker.{Manager, Invoked, take_job, put_away, job_input, panics}
use allino.Calls.Exclusive.{Released, locked_db, call_keyed-Released, call_keyed-exclusive}
use allino.Calls.Async.{call_keyed-async}
use allino.Calls.Cached.{run_body-recalled}
use allino.Calls.Dispatched.{put_away-recalled}
use allino.Calls.Outdated.{IsOutdated, call_keyed-IsOutdated}
use allino.Calls.Turns.{Taken, take_job-Taken}

abbrev plain : JobOption
plain = record {
  async = false;
  cache = false;
  cache_err_on_hit = false;
  dedupe = false;
  priority = pos 0;
  cache_expire = 0;
  interval = 0;
}

abbrev first_code : Bytes → Option ℕ
first_code [] = none
first_code (c ∷ s) = some c

-- A function whose outputs and errors are single codes.
abbrev doubling : JobOption → Function ℕ ℕ
doubling o = record {
  name = codes "double";
  version = codes "1.2";
  job = o;
  on_output_upgrade = none;
  zero_output = 0;
  encode_output = λ n. some (n ∷ []);
  decode_output = first_code;
  encode_error = λ n. some (n ∷ []);
  decode_error = first_code;
}

abbrev locking : Function ℕ ℕ
locking = doubling (record plain { dedupe = true })

abbrev remembering : Function ℕ ℕ
remembering = doubling (record plain { cache = true; dedupe = true })

abbrev caching : Function ℕ ℕ
caching = doubling (record plain { cache = true })

abbrev dispatching : Function ℕ ℕ
dispatching = doubling (record plain { async = true; cache = true })

abbrev context : JobContext
context = record {
  fromcall = true;
  injson = some (codes "3");
  idempotency_key = [];
  request_id = [];
}

abbrev key : Bytes
key = codes "job:v1:double:k"

abbrev six : Db → Ran ℕ ℕ
six db = record { output = 6; err = none; abort = proceed; ended = 20; db = db }

abbrev again : Ran ℕ ℕ
again = record { output = 0; err = some 7; abort = requeue; ended = 20; db = empty_db }

call_keyed-Released_example :
    Released key
      (six (locked_db locking 10 key (codes "3") empty_db))
      (call_keyed locking 10 60 60 context key (codes "3") six [] empty_db)
unfolding empty_db find_row
call_keyed-Released_example =
    call_keyed-Released locking 10 60 60 context key (codes "3") six [] empty_db
      (record { uncached = refl; synchronous = refl; dedupes = refl }) (inl refl) refl

-- The lease is renewed, and a Reaping comes while it lasts.
abbrev meanwhile : List (ℕ × Call)
meanwhile = (11, renews key 50) ∷ (12, reaps 3) ∷ (12, frees (codes "other")) ∷ []

call_keyed-exclusive_example :
    call_keyed locking 12 60 60 context key
      (codes "4")
      six
      []
      (run meanwhile (locked_db locking 10 key (codes "3") empty_db))
    ≡ record {
      answer = some (0, some duplicated);
      ran = false;
      db = run meanwhile (locked_db locking 10 key (codes "3") empty_db);
    }
unfolding empty_db find_row run step lease_update update_rows enqueue insert_row new_row job_meta
call_keyed-exclusive_example =
    call_keyed-exclusive locking 10 12 60 60 context key (codes "3") (codes "4") six [] empty_db
      meanwhile (run-empty_db-IsSound []) (inl refl) (tt, (refl, (refl, tt)))
      (record { uncached = refl; synchronous = refl; dedupes = refl })

call_keyed-async_example :
    let r = call_keyed dispatching 10 60 60 context key (codes "3") six [] empty_db in
    (r.answer ≡ some (0, some (pending key true)))
    × (r.ran ≡ false)
    × ((row : Row) × (find_row key r.db.executions ≡ some row)
        × (eligible 10 (codes "double" ∷ []) row ≡ true))
unfolding empty_db find_row unmarshalfn hit is_stale on_hit unmarshal_output_set find_result
    has_major_or_minor_version_diff
call_keyed-async_example =
    call_keyed-async dispatching 10 60 60 context key (codes "3") six [] empty_db refl
      (λ _. (strategy job_not_found, refl)) (inl refl)

run_body-recalled_example :
    let first = run_body remembering 60 context key (codes "3") (six empty_db) in
    (first.answer ≡ some (6, none))
    × (call_keyed remembering 90 60 60 context key (codes "3") six [] first.db
        ≡ record { answer = some (6, none); ran = false; db = first.db })
unfolding empty_db find_result
run_body-recalled_example =
    run_body-recalled remembering 90 60 60 context context key (codes "3") (codes "3")
      (six empty_db) six [] (record { caches = refl; forever = refl }) refl refl
      (6 ∷ [], refl, refl)

-- The result of version 1.1.
abbrev old_result : ResultRow
old_result = record {
  key = key;
  handler = codes "double";
  version = codes "1.1";
  status = done;
  parent_id = key;
  root_id = key;
  ttl = none;
  input = some (codes "3");
  output = some (5 ∷ []);
  err = none;
  created_at = 1;
  updated_at = 1;
}

abbrev old_db : Db
old_db = record {
  executions = [];
  results = old_result ∷ [];
  counts = [];
  next_id = 1;
  last_dequeued = none;
}

old_db-IsOutdated : IsOutdated caching key old_db
unfolding find_result has_major_or_minor_version_diff parse_major_minor parse_parts atoi number
    digits handler_version
old_db-IsOutdated = (old_result, refl, refl)

call_keyed-IsOutdated_example :
    let r = call_keyed caching 10 60 60 context key (codes "3") six [] old_db in
    (r.ran ≡ true) × IsOutdated caching key r.db
call_keyed-IsOutdated_example =
    call_keyed-IsOutdated caching 10 60 60 context key (codes "3") six [] old_db
      (record {
        kept = record { caches = refl; forever = refl };
        synchronous = refl;
        unlocked = refl;
        upgrades = refl;
      })
      refl old_db-IsOutdated old_db-IsOutdated

abbrev mail : Bytes
mail = codes "mail"

abbrev letter : JobMeta
letter = record {
  version = codes "1.0";
  status = queued;
  parent_id = [];
  root_id = [];
  ttl = none;
  priority = pos 0;
}

abbrev history : List (ℕ × Call)
history = (10, enqueues mail letter (codes "a") none 0) ∷ []

-- Every handler has an interval.
abbrev paced : Bytes → JobOption
paced h = record plain { interval = 5 }

abbrev manager : Manager
manager = record {
  handlers = record { names = mail ∷ [] };
  locked = new_jobset;
  resource_locked = new_jobset;
  active = 0;
  attempt = 0;
  last_run = [];
}

take_job-Taken_example :
    Taken paced 20 5 manager
      (run history empty_db)
      (take_job paced 20 5 manager (run history empty_db))
take_job-Taken_example =
    take_job-Taken paced 20 5 manager (run history empty_db) (run-empty_db-IsSound history)

abbrev row_a : Row
row_a = record (new_row 10 mail letter (codes "a") none) { id = 1 }

abbrev task_a : JobTask
task_a = record { key = codes "a"; handler = mail; meta = letter; input = none }

abbrev later_please : Invoked
later_please = record { documents = some (none, none); abort = requeue; ended = 30 }

-- A mode that the SQL queue serves registers its handler, twice just once.
twice_registered :
    let (o, s) = call_sql_init (codes "once") mail plain new_server in
    let (o', s') = call_sql_init (codes "once") mail plain s in
    (o' ≡ record plain { dedupe = true; cache = true; cache_err_on_hit = true })
    × (s' ≡ record { handlers = record { names = mail ∷ [] }; started = 1 })
unfolding call_sql_init apply_mode add member new_jobset
twice_registered = (refl, refl)

-- A job of an older version makes a worker panic where `OnInputUpgrade` is not set.
old_input : job_input 0 first_code (codes "1.2") none (codes "1.1") (7 ∷ []) ≡ panics
unfolding job_input has_major_or_minor_version_diff parse_major_minor parse_parts atoi number digits
    handler_version
old_input = refl

-- A job of the function that a worker has taken and run.
abbrev double_task : JobTask
double_task = record {
  key = key;
  handler = codes "double";
  meta = record {
    version = codes "1.2";
    status = leased;
    parent_id = key;
    root_id = key;
    ttl = none;
    priority = pos 0;
  };
  input = some (codes "3");
}

abbrev doubled : Invoked
doubled = record { documents = some (some (6 ∷ []), none); abort = proceed; ended = 30 }

put_away-recalled_example :
    let db' = put_away 60 dispatching.job double_task doubled empty_db in
    call_keyed dispatching 90 60 60 context key (codes "3") six [] db'
    ≡ record { answer = some (6, none); ran = false; db = db' }
unfolding handler_version marshal_output_set empty_db find_result
put_away-recalled_example =
    put_away-recalled dispatching 60 90 60 double_task doubled 6 none context (codes "3") six []
      empty_db (record { caches = refl; forever = refl })
      (record { current = refl; untimed = refl }) refl refl (6 ∷ [], refl, refl) refl
