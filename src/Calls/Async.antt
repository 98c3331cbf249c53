-- ===== src/Calls/Async.antt =====
-- Asynchronous calls of typedhandler_job.go: the job is put into the queue and not run.
use allino.Base.{
  ℕ, ◌≡◌, refl, ap, ◌∙◌, true, false, ◌&&◌, List, [], ◌∷◌, some, if◌then◌else◌, Bool-cases, inl,
  inr,
}
use allino.Base.Bytes.{Bytes}
use allino.Jobs.Table.{queued, Row, Db, find_row}
use allino.Jobs.Queue.{eligible}
use allino.Jobs.Accept.{IsFree, enqueue_free, enqueue_due}
use allino.Calls.Options.{JobContext, job_meta}
use allino.Calls.Lookup.{Function, LookupError, pending, missed}
use allino.Calls.Call.{Ran, lookup_hit, call_async, call_looked, call_uncached, call_keyed}

module _ {U E : Type 0} (f : Function U E) (now interval wait_timeout : ℕ) (c : JobContext)
    (key injson : Bytes) (body : Db → Ran U E) (firings : List (ℕ × Db)) (db : Db) where
  -- There is no cached result to answer with: none is kept, or the read gives an error.
  abbrev pub IsMissing : Type 0
  IsMissing = f.job.cache ≡ true → (e : LookupError) × (lookup_hit f now key db ≡ (missed e, db))

  uncached_async :
      (c.fromcall && f.job.async) ≡ true
      → call_uncached f now interval wait_timeout c key injson body firings db
        ≡ call_async f now key injson db
  unfolding call_uncached
  uncached_async a = simp a

  looked_async :
      (e : LookupError)
      → (c.fromcall && f.job.async) ≡ true
      → call_looked f now interval wait_timeout c key injson body firings (missed e, db)
        ≡ call_async f now key injson db
  unfolding call_looked
  looked_async e a = uncached_async a

  keyed_async :
      (c.fromcall && f.job.async) ≡ true
      → IsMissing
      → call_keyed f now interval wait_timeout c key injson body firings db
        ≡ call_async f now key injson db
  unfolding call_keyed
  keyed_async a m = elim (Bool-cases (f.job.cache)) [
    | inl k ↦
        let (e, l) = m k in
        ap
          (λ b.
            if b
            then call_looked f now interval wait_timeout c key injson body firings
                (lookup_hit f now key db)
            else call_uncached f now interval wait_timeout c key injson body firings db)
          k
        ∙ ap (call_looked f now interval wait_timeout c key injson body firings) l
        ∙ looked_async e a
    | inr k ↦
        ap
          (λ b.
            if b
            then call_looked f now interval wait_timeout c key injson body firings
                (lookup_hit f now key db)
            else call_uncached f now interval wait_timeout c key injson body firings db)
          k
        ∙ uncached_async a
  ]

  async_accepted :
      IsFree now f.name (job_meta now f.version f.job key queued) key (some injson) 0 db
      → let r = call_async f now key injson db in
        (r.answer ≡ some (f.zero_output, some (pending key true)))
        × (r.ran ≡ false)
        × ((row : Row) × (find_row key r.db.executions ≡ some row)
            × (eligible now (f.name ∷ []) row ≡ true))
  unfolding call_async job_meta
  async_accepted free =
      let meta = job_meta now f.version f.job key queued in
      let (accepted, _, _) = enqueue_free now f.name meta key (some injson) 0 db free in
      (
        ap (λ b. some (f.zero_output, some (pending key b))) accepted,
        refl,
        enqueue_due now f.name meta key (some injson) 0 db free refl,
      )

  -- An asynchronous call whose result is not cached and whose key is free does not run: it
  -- answers that the job is accepted, and the key has a row that a Dequeue of the function may
  -- take at once.
  pub call_keyed-async :
      (c.fromcall && f.job.async) ≡ true
      → IsMissing
      → IsFree now f.name (job_meta now f.version f.job key queued) key (some injson) 0 db
      → let r = call_keyed f now interval wait_timeout c key injson body firings db in
        (r.answer ≡ some (f.zero_output, some (pending key true)))
        × (r.ran ≡ false)
        × ((row : Row) × (find_row key r.db.executions ≡ some row)
            × (eligible now (f.name ∷ []) row ≡ true))
  call_keyed-async a m free = rw (keyed_async a m) (async_accepted free)
