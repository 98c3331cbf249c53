-- ===== src/Calls/Dispatched.antt =====
-- From a worker to a caller, in typedhandler_job_manager.go and typedhandler_job.go: what a call
-- reads of a job that a worker has run.
use allino.Base.{ℕ, ◌≡◌, refl, ap, ◌∙◌, false, List, Option, none, some}
use allino.Base.Bytes.{Bytes}
use allino.JobIds.{handler_version}
use allino.Jobs.Table.{JobMeta, Db, find_result, update_rows}
use allino.Jobs.Queue.{JobTask}
use allino.Jobs.Finish.{upsert_result, result_row, done_async}
use allino.Calls.Options.{JobContext, is_set}
use allino.Calls.Lookup.{Function, marshal_output_set, on_hit}
use allino.Calls.Call.{Ran, call_looked, call_keyed}
use allino.Calls.Worker.{Invoked, put_away, with_ttl}
use allino.Calls.Cached.{
  IsKept, IsReadable, readable, recalled, lookup_fresh, looked_up, keyed_cached, upserted_new,
}

done_results :
    (now : ℕ) (handler : Bytes) (meta : JobMeta) (key : Bytes) (injson o e : Option Bytes) (db : Db)
    → meta.ttl ≡ none
    → (done_async now handler meta key injson o e db).results
      ≡ upsert_result
          (result_row now handler (record meta { ttl = none }) key injson o e)
          db.results
unfolding done_async update_rows
done_results now handler meta key injson o e db h = rw h refl

module _ {U E : Type 0} (f : Function U E) where
  -- A job of the function, as a worker takes it, of its present version.
  pub record IsJob (task : JobTask) : Type 0 where
    pub current : task.meta.version ≡ handler_version f.version
    pub untimed : task.meta.ttl ≡ none

  put_done :
      (interval : ℕ) (task : JobTask) (x : Invoked) (o e : Option Bytes) (db : Db)
      → IsKept f
      → is_set x.abort ≡ false
      → x.documents ≡ some (o, e)
      → put_away interval f.job task x db
        ≡ done_async x.ended task.handler task.meta task.key task.input o e db
  unfolding put_away with_ttl
  put_done interval task x o e db k p d =
      rw (put_away, d) (rw p (rw (k.caches) (rw (with_ttl, k.forever))))

  put_results :
      (interval : ℕ) (task : JobTask) (x : Invoked) (o e : Option Bytes) (db : Db)
      → IsKept f
      → IsJob task
      → is_set x.abort ≡ false
      → x.documents ≡ some (o, e)
      → (put_away interval f.job task x db).results
        ≡ upsert_result
            (result_row x.ended task.handler
              (record (task.meta) { ttl = none })
              task.key
              task.input
              o
              e)
            db.results
  put_results interval task x o e db k j p d =
      ap (λ (y : Db). y.results) (put_done interval task x o e db k p d)
      ∙ done_results x.ended task.handler task.meta task.key task.input o e db j.untimed

  -- For a function whose results are cached without a TTL, after a worker has run a job of its
  -- present version, whose key has no stored result, and put it away with the output or error
  -- that JSON gives back, without an abort, every call of the key, at any later time and with
  -- any body, answers with that output or error, or with ErrJobDuplicated where a hit is an
  -- error, without running, and leaves the database as it is.
  pub put_away-recalled :
      (interval later wait_timeout : ℕ) (task : JobTask) (x : Invoked) (output : U) (err : Option E)
      (c : JobContext) (injson : Bytes) (body : Db → Ran U E) (firings : List (ℕ × Db)) (db : Db)
      → IsKept f
      → IsJob task
      → is_set x.abort ≡ false
      → x.documents ≡ marshal_output_set f output err
      → IsReadable f output err
      → find_result task.key db.results ≡ none
      → let db' = put_away interval f.job task x db in
        call_keyed f later interval wait_timeout c task.key injson body firings db'
        ≡ record { answer = some (recalled f output err); ran = false; db = db' }
  unfolding result_row
  put_away-recalled interval later wait_timeout task x output err c injson body firings db k j p d r
        new =
      let db' = put_away interval f.job task x db in
      let (o, e, m, u) = readable f output err r in
      let n =
        result_row x.ended task.handler (record (task.meta) { ttl = none }) task.key task.input o
          e in
      let stored =
        ap (find_result task.key) (put_results interval task x o e db k j p (d ∙ m))
        ∙ upserted_new n db.results new in
      keyed_cached f later interval wait_timeout c task.key injson body firings db' k
      ∙ ap (call_looked f later interval wait_timeout c task.key injson body firings) (
          lookup_fresh f later task.key n o e db' k stored j.current refl refl refl refl
          ∙ ap (λ l. (on_hit f l, db')) u)
      ∙ looked_up f later interval wait_timeout c task.key injson body firings db' output err
