-- ===== src/Calls/Turns.antt =====
-- The turns of a worker of typedhandler_job_manager.go: which job it takes, and what becomes of it.
use allino.Base.{
  ℕ, ◌+◌, ◌*◌, ◌==◌, ◌≡◌, refl, ap, sym, ◌∙◌, subst, true, false, not, ◌&&◌, ◌||◌, List, [], ◌∷◌,
  Option, none, some, if◌then◌else◌, Bool-cases, Option-cases, inl, inr, arith,
}
use allino.Base.Bytes.{Bytes, bytes_eq}
use allino.JobSet.{diff, add, contains, member, in_any}
use allino.JobSet.Laws.{member-diff, contains-add}
use allino.Jobs.Table.{queued, leased, JobMeta, Row, Db, find_row}
use allino.Jobs.Queue.{JobTask, dequeue, requeue, free, second, eligible, count_or_zero}
use allino.Jobs.Dispatch.{Dispatched, dequeue-Dispatched}
use allino.Jobs.Sound.{IsSound}
use allino.Jobs.Rows.{Holds}
use allino.Jobs.Queue
use allino.Jobs.Finish.{outcome, done_async}
use allino.Jobs.Results.{found_after}
use allino.Calls.Exclusive.{free_lem}
use allino.Calls.Options.{JobOption, is_set, requeue_delay}
use allino.Calls.Worker.{Manager, Invoked, take_job, put_away, rooted, with_ttl}

listed : (h : Bytes) (hs : List Bytes) → Queue.contains hs h ≡ member h hs
unfolding member
listed h [] = refl
listed h (x ∷ hs) = ap (λ b. bytes_eq x h || b) (listed h hs)

eligible_handler :
    (now : ℕ) (handlers : List Bytes) (r : Row)
    → eligible now handlers r ≡ true
    → Queue.contains handlers r.handler ≡ true
unfolding eligible
eligible_handler now handlers r h = ground arith

module _ (options : Bytes → JobOption) (now lease_dur : ℕ) (m : Manager) (db : Db) where
  abbrev askable : List Bytes
  askable = diff m.handlers (m.locked ∷ m.resource_locked ∷ [])

  -- What a turn may take: a job of a registered handler that nothing locks, which it leases, and
  -- whose handler it locks where that has an interval. Where it takes nothing there is nothing that
  -- it could take.
  abbrev pub Taken : Option (JobTask × Db) × Manager → Type 0
  Taken (none, m') =
      (m'.locked ≡ m.locked)
      × (m'.attempt ≡ m.attempt + 1)
      × ((s : Row) → Holds s db.executions → eligible now askable s ≡ false)
  Taken (some (task, db'), m') =
      (contains task.handler m.handlers ≡ true)
      × (contains task.handler m.locked ≡ false)
      × (contains task.handler m.resource_locked ≡ false)
      × ((h : Bytes)
          → contains h m'.locked
            ≡ contains h m.locked
              || (not ((options task.handler).interval == 0) && bytes_eq task.handler h))
      × ((r : Row) × (find_row task.key db'.executions ≡ some r)
          × (r.status ≡ leased)
          × (r.leased_until ≡ some (now + lease_dur)))

  askable_parts :
      (h : Bytes)
      → member h askable ≡ true
      → (contains h m.handlers ≡ true)
        × (contains h m.locked ≡ false)
        × (contains h m.resource_locked ≡ false)
  unfolding in_any
  askable_parts h k =
      let e = sym (member-diff h m.handlers (m.locked ∷ m.resource_locked ∷ [])) ∙ k in ground arith

  locks :
      (handler h : Bytes)
      → contains h (if (options handler).interval == 0 then m.locked else add handler m.locked)
        ≡ contains h m.locked || (not ((options handler).interval == 0) && bytes_eq handler h)
  locks handler h = elim (Bool-cases ((options handler).interval == 0)) [
    | inl e ↦ rw e (ground arith)
    | inr e ↦ rw e (contains-add h handler m.locked)
  ]

  -- On sound tables, a turn of a worker takes a job only of a registered handler that neither
  -- set of locked handlers contains, leases its row until the end of the lease, and locks the
  -- handler where it has an interval and no other; where it takes nothing, no row is queued,
  -- due and of a handler that it may take, and the count of failed attempts grows by one.
  pub take_job-Taken : IsSound db → Taken (take_job options now lease_dur m db)
  unfolding take_job rooted
  take_job-Taken sound =
      elim (dequeue now askable lease_dur db)
          as (λ o.
            Dispatched now askable lease_dur db o
            → Taken (elim o [
              | none ↦ (none, record m { attempt = m.attempt + 1 })
              | some (task, _, db') ↦ (
                some (rooted task, db'),
                record m {
                  locked =
                      if (options task.handler).interval == 0
                      then m.locked
                      else add task.handler m.locked;
                  attempt = 0;
                },
              )
            ])) [
              | none ↦ λ d. (refl, refl, d)
              | some (task, gap, db') ↦ λ (r, h, ok, _, key, handler, input, held, _).
                  let (a, b, c) = askable_parts task.handler (
                    sym (listed task.handler askable)
                    ∙ subst (λ k. Queue.contains askable k ≡ true) (sym handler)
                        (eligible_handler now askable r ok)) in
                  (a, b, c, locks task.handler, (_, held, refl, refl))
            ]
        (dequeue-Dispatched now askable lease_dur db sound)

-- What becomes of the row of a job that was run: it is gone, it waits for its next run, or it holds
-- the result.
abbrev pub PutAway : ℕ → JobOption → Invoked → Row → Option Row → Type 0
PutAway interval o x r after = elim x.documents [
  | none ↦ after ≡ none
  | some (outjson, errjson) ↦
      if is_set x.abort
      then after
        ≡ some (record r {
          status = queued;
          run_at = x.ended + requeue_delay interval x.abort * second;
          leased_until = none;
          updated_at = x.ended;
          retry_count = some (count_or_zero r.retry_count + 1);
        })
      else if o.cache
      then ((s : Row) × (after ≡ some s) × (s.status ≡ outcome errjson))
      else after ≡ none
]

requeue_row :
    (now delay : ℕ) (db : Db) (r : Row) (key : Bytes)
    → find_row key db.executions ≡ some r
    → find_row key (requeue now key delay db).executions
      ≡ some (record r {
        status = queued;
        run_at = now + delay * second;
        leased_until = none;
        updated_at = now;
        retry_count = some (count_or_zero r.retry_count + 1);
      })
unfolding requeue
requeue_row now delay db r key h = found_after key _ db r (λ q. (refl, refl)) h

done_row :
    (now : ℕ) (handler : Bytes) (meta : JobMeta) (key : Bytes) (injson o e : Option Bytes) (db : Db)
    (r : Row)
    → find_row key db.executions ≡ some r
    → (s : Row) × (find_row key (done_async now handler meta key injson o e db).executions ≡ some s)
      × (s.status ≡ outcome e)
unfolding done_async
done_row now handler meta key injson o e db r h = elim (Option-cases meta.ttl) [
  | inl t ↦ rw t (_, found_after key _ db r (λ q. (refl, refl)) h, refl)
  | inr (n, t) ↦ rw t (_, found_after key _ db r (λ q. (refl, refl)) h, refl)
]

-- A job with a row that was run is put away so: after a system error, or without a cache, the
-- row is gone; after an abort it is queued, without a lease and with one retry more, for the
-- end of the run plus the delay; else it is there with the status of its outcome.
pub put_away-PutAway :
    (interval : ℕ) (o : JobOption) (task : JobTask) (x : Invoked) (db : Db) (r : Row)
    → find_row task.key db.executions ≡ some r
    → PutAway interval o x r (find_row task.key (put_away interval o task x db).executions)
unfolding put_away with_ttl
put_away-PutAway interval o task x db r h = elim (Option-cases x.documents) [
  | inl e ↦ rw e (free_lem task.key db)
  | inr ((out, err), e) ↦ rw e (elim (Bool-cases (is_set x.abort)) [
    | inl a ↦ rw a (requeue_row x.ended (requeue_delay interval x.abort) db r task.key h)
    | inr a ↦ rw a (elim (Bool-cases (o.cache)) [
      | inl c ↦ rw c (
          done_row x.ended task.handler (with_ttl x.ended o task.meta) task.key task.input out err
            db r h)
      | inr c ↦ rw c (free_lem task.key db)
    ])
  ])
]
