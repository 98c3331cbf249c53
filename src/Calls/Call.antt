-- ===== src/Calls/Call.antt =====
-- `call_job` and `JobResult` of typedhandler_job.go. The function's body is an argument, which gives
-- the database that it leaves: with what it does itself, with what others do meanwhile, and with
-- the lease of its own row extended by the time wheel.
use allino.Base.{
  ℕ, ◌==◌, Bool, true, false, not, ◌&&◌, List, [], ◌∷◌, Option, none, some, if◌then◌else◌,
}
use allino.Base.Bytes.{Bytes, bytes_eq}
use allino.JobIds.{IdError, failed, decoded, decode_job_id}
use allino.Jobs.Table.{queued, leased, done, Db}
use allino.Jobs.Queue.{enqueue, free}
use allino.Jobs.Outcome.{job_pending, Reply, result, hit, poll}
use allino.Jobs.Finish.{store_done}
use allino.Calls.Options.{
  JobOption, JobContext, job_id, job_meta, enqueue_status, Abort, is_set, wants_requeue,
  requeue_delay,
}
use allino.Calls.Lookup.{
  Function, LookupError, strategy, CallError, duplicated, pending, backend, input_encode_failed,
  own_error, Lookup, missed, found, marshal_output_set, unmarshalfn,
}

-- How a run of the body ended.
pub record Ran (U E : Type 0) : Type 0 where
  pub output : U
  pub err : Option E
  pub abort : Abort
  pub ended : ℕ
  pub db : Db

-- What a call comes to: its output and error (`none` waits still), whether the body ran, and the
-- database.
pub record Called (U E : Type 0) : Type 0 where
  pub answer : Option (U × Option (CallError E))
  pub ran : Bool
  pub db : Db

-- `Wait` with the time and the database of the firing that answers.
unfoldable pub wait_at : ℕ → ℕ → Bytes → Bool → List (ℕ × Db) → Option (Reply × ℕ × Db)
wait_at start wait_timeout key volatile [] = none
wait_at start wait_timeout key volatile ((later, db) ∷ rest) =
    elim (poll start wait_timeout later (result key volatile db)) [
      | some r ↦ some (r, later, db)
      | none ↦ wait_at start wait_timeout key volatile rest
    ]

-- The results of jobs with a TTL are in the rows of the queue.
abbrev pub is_volatile : JobOption → Bool
is_volatile o = not (o.cache_expire == 0)

abbrev pub pending_id : LookupError → Option Bytes
pending_id (strategy (job_pending id)) = some id
pending_id _ = none

-- The errors of `JobResult`.
pub data ResultError (E : Type 0) : Type 0 where
  bad_id : IdError → ResultError E
  handler_mismatch : ResultError E
  lookup_failed : LookupError → ResultError E
  call_failed : CallError E → ResultError E

module _ {U E : Type 0} (f : Function U E) where
  abbrev answers : U → Option (CallError E) → Db → Called U E
  answers output e db = record { answer = some (output, e); ran = false; db = db }

  abbrev declines : CallError E → Db → Called U E
  declines e db = answers f.zero_output (some e) db

  abbrev waits : Db → Called U E
  waits db = record { answer = none; ran = false; db = db }

  -- The wait for the job of another call.
  unfoldable pub await_other : ℕ → ℕ → Bytes → List (ℕ × Db) → Db → Called U E
  unfolding wait_at
  await_other now wait_timeout id firings db =
      elim (wait_at now wait_timeout id (is_volatile f.job) firings) [
        | none ↦ waits db
        | some (r, later, db') ↦
            let (l, db'') = unmarshalfn later f r db' in
            elim l [ missed e ↦ declines (backend e) db'' | found output e ↦ answers output e db'' ]
      ]

  -- What is read of the job that holds the key.
  unfoldable pub look_again : ℕ → ℕ → List (ℕ × Db) → Lookup U E × Db → Called U E
  unfolding await_other
  look_again now wait_timeout firings (found output e, db) = answers output e db
  look_again now wait_timeout firings (missed e, db) = elim (pending_id e) [
    | none ↦ declines (backend e) db
    | some id ↦ await_other now wait_timeout id firings db
  ]

  abbrev pub lookup_hit : ℕ → Bytes → Db → Lookup U E × Db
  lookup_hit now key db = unmarshalfn now f (hit key (is_volatile f.job) db) db

  -- The key is taken.
  unfoldable pub call_refused : ℕ → ℕ → Bytes → List (ℕ × Db) → Db → Called U E
  unfolding look_again
  call_refused now wait_timeout key firings db =
      if f.job.cache
      then look_again now wait_timeout firings (lookup_hit now key db)
      else declines duplicated db

  -- The branch `asyncExec`.
  unfoldable pub call_async : ℕ → Bytes → Bytes → Db → Called U E
  call_async now key injson db =
      let (enqueued, db') =
        enqueue now f.name (job_meta now f.version f.job key queued) key (some injson) 0 db in
      declines (pending key enqueued) db'

  -- What is stored after a run. A failing `Done` is only logged.
  unfoldable pub settle : Bytes → Bytes → Ran U E → Db
  settle key injson x =
      if f.job.cache
      then (if is_set x.abort then x.db else elim (marshal_output_set f x.output x.err) [
        | none ↦ x.db
        | some (outjson, errjson) ↦
            let meta = job_meta x.ended f.version f.job key done in
            elim (store_done x.ended f.name meta key (some injson) outjson errjson x.db) [
              | none ↦ x.db
              | some db' ↦ db'
            ]
      ])
      else if f.job.dedupe
      then free key x.db
      else x.db

  -- The run with its tail. The error of the requeueing `Enqueue`, which is nil here, takes the
  -- place of the body's.
  unfoldable pub run_body : ℕ → JobContext → Bytes → Bytes → Ran U E → Called U E
  unfolding settle
  run_body interval c key injson x =
      let db' = settle key injson x in
      let meta = job_meta x.ended f.version f.job key (enqueue_status c.fromcall f.job) in
      let delay = requeue_delay interval x.abort in
      if wants_requeue x.abort
      then record {
        answer = some (x.output, none);
        ran = true;
        db = (enqueue x.ended f.name meta key (some injson) delay db').1;
      }
      else record { answer = some (x.output, own_error x.err); ran = true; db = db' }

  -- The branch `dedupeExec`.
  unfoldable pub call_dedupe :
      ℕ → ℕ → ℕ → JobContext → Bytes → Bytes → (Db → Ran U E) → List (ℕ × Db) → Db → Called U E
  unfolding call_refused run_body
  call_dedupe now interval wait_timeout c key injson body firings db =
      let (acquired, db') =
        enqueue now f.name (job_meta now f.version f.job key leased) key (some injson) 0 db in
      if acquired
      then run_body interval c key injson (body db')
      else call_refused now wait_timeout key firings db'

  -- What follows where the cache gives no answer.
  unfoldable pub call_uncached :
      ℕ → ℕ → ℕ → JobContext → Bytes → Bytes → (Db → Ran U E) → List (ℕ × Db) → Db → Called U E
  unfolding call_async call_dedupe run_body
  call_uncached now interval wait_timeout c key injson body firings db =
      if c.fromcall && f.job.async
      then call_async now key injson db
      else if f.job.dedupe
      then call_dedupe now interval wait_timeout c key injson body firings db
      else run_body interval c key injson (body db)

  -- After the first read of the cache.
  unfoldable pub call_looked :
      ℕ
      → ℕ
      → ℕ
      → JobContext
      → Bytes
      → Bytes
      → (Db → Ran U E)
      → List (ℕ × Db)
      → Lookup U E × Db
      → Called U E
  unfolding call_uncached
  call_looked now interval wait_timeout c key injson body firings (found output e, db) =
      answers output e db
  call_looked now interval wait_timeout c key injson body firings (missed _, db) =
      call_uncached now interval wait_timeout c key injson body firings db

  -- `call_job` of an input whose JSON is `injson`, under its job id.
  unfoldable pub call_keyed :
      ℕ → ℕ → ℕ → JobContext → Bytes → Bytes → (Db → Ran U E) → List (ℕ × Db) → Db → Called U E
  unfolding call_uncached call_looked
  call_keyed now interval wait_timeout c key injson body firings db =
      if f.job.cache
      then call_looked now interval wait_timeout c key injson body firings (lookup_hit now key db)
      else call_uncached now interval wait_timeout c key injson body firings db

  -- `hash` is the SHA-256 of a string. The clock stands still until the body ends.
  unfoldable pub call_job :
      (Bytes → Bytes) → ℕ → ℕ → ℕ → JobContext → (Db → Ran U E) → List (ℕ × Db) → Db → Called U E
  unfolding call_keyed
  call_job hash now interval wait_timeout c body firings db = elim c.injson [
    | none ↦ declines input_encode_failed db
    | some injson ↦
        call_keyed now interval wait_timeout c (job_id hash f.name f.job c injson) injson body
          firings db
  ]

  abbrev result_of : Lookup U E → (U × Option (ResultError E))
  result_of (missed e) = (f.zero_output, some (lookup_failed e))
  result_of (found output none) = (output, none)
  result_of (found output (some e)) = (output, some (call_failed e))

  unfoldable pub job_result : ℕ → Bytes → Db → (U × Option (ResultError E)) × Db
  job_result now id db = elim (decode_job_id id) [
    | failed e ↦ ((f.zero_output, some (bad_id e)), db)
    | decoded jid ↦
        if not (bytes_eq jid.handler f.name)
        then ((f.zero_output, some handler_mismatch), db)
        else let (l, db') = unmarshalfn now f (result id (is_volatile f.job) db) db in
          (result_of l, db')
  ]
