-- ===== src/Calls/Requeued.antt =====
-- What `call_job` of typedhandler_job.go makes of a run that asks to be queued again.
use allino.Base.{
  ℕ, arith, ◌≡◌, refl, ◌∙◌, subst, Bool, true, false, ◌&&◌, List, Option, none, some, Bool-cases,
  Option-cases, inl, inr, ◌⊎◌,
}
use allino.Base.Bytes.{Bytes}
use allino.Jobs.Table.{leased, JobMeta, Row, Db, find_row}
use allino.Jobs.Queue.{enqueue, eligible, reusable}
use allino.Jobs.Accept.{IsFree, IsBusy, enqueue_free, enqueue_busy}
use allino.Calls.Options.{JobContext, job_meta, wants_requeue, requeue_delay, enqueue_status}
use allino.Calls.Lookup.{Function}
use allino.Calls.Call.{Ran, settle, run_body}

module _ (now : ℕ) (handler : Bytes) (meta : JobMeta) (key : Bytes) (injson : Option Bytes)
    (delay : ℕ) (db : Db) where
  IsFree-or-IsBusy :
      IsFree now handler meta key injson delay db ⊎ IsBusy now handler meta key injson delay db
  IsFree-or-IsBusy = elim (Option-cases (find_row key db.executions)) [
    | inl e ↦ inl (inl e)
    | inr (r, e) ↦ elim (Bool-cases (reusable now r)) [
      | inl t ↦ inl (inr (r, e, t))
      | inr t ↦ inr (r, e, t)
    ]
  ]

  leased_ineligible :
      (later : ℕ) (handlers : List Bytes) (r : Row)
      → r.status ≡ leased
      → eligible later handlers r ≡ true
      → ⊥
  unfolding eligible
  leased_ineligible later handlers r st h = ground arith

  -- A job that is enqueued as leased gives no job to take.
  enqueue_leased :
      meta.status ≡ leased
      → (later : ℕ) (handlers : List Bytes) (r : Row)
      → find_row key (enqueue now handler meta key injson delay db).1.executions ≡ some r
      → eligible later handlers r ≡ true
      → find_row key db.executions ≡ some r
  enqueue_leased st later handlers r h ok = elim IsFree-or-IsBusy [
    | inl free ↦
        let (_, (s, e, a), _) = enqueue_free now handler meta key injson delay db free in
        absurd (leased_ineligible later handlers s (a.3 ∙ st) cc)
    | inr busy ↦
        subst (λ (p : Bool × Db). find_row key p.1.executions ≡ some r)
          (enqueue_busy now handler meta key injson delay db busy) h
  ]

module _ {U E : Type 0} (f : Function U E) where
  -- A run, by a call that is not asynchronous, that asks to be queued again answers its output
  -- without its error; every row of the key that a Dequeue could take afterwards was there
  -- before.
  pub run_body-requeue :
      (interval : ℕ) (c : JobContext) (key injson : Bytes) (x : Ran U E)
      → (c.fromcall && f.job.async) ≡ false
      → wants_requeue x.abort ≡ true
      → let r = run_body f interval c key injson x in
        (r.answer ≡ some (x.output, none))
        × ((later : ℕ) (handlers : List Bytes) (row : Row)
            → find_row key r.db.executions ≡ some row
            → eligible later handlers row ≡ true
            → find_row key (settle f key injson x).executions ≡ some row)
  unfolding run_body job_meta enqueue_status
  run_body-requeue interval c key injson x s w = rw w (
    refl,
    enqueue_leased x.ended f.name
        (job_meta x.ended f.version f.job key (enqueue_status c.fromcall f.job)) key (some injson)
        (requeue_delay interval x.abort) (settle f key injson x) (simp s),
  )
