-- ===== src/Jobs/Locked.antt =====
-- How long a lease stands in typedhandler_job_sql.go: what leaves a leased job leased.
use allino.Base.{
  ℕ, ◌+◌, ◌≡◌, refl, sym, ap, ◌∙◌, subst, false, List, [], ◌∷◌, Option, none, some, if◌then◌else◌,
  Bool-cases, Option-cases, inl, inr, arith,
}
use allino.Base.Bytes.{Bytes, bytes_eq, bytes_eq_comm, eq_of_bytes_eq}
use allino.Jobs.Table.{
  JobMeta, Row, Db, leased, change, update_rows, delete_rows, find_row, keep_rows, before,
}
use allino.Jobs.Keys.{AreKeyed}
use allino.Jobs.Queue.{has_key, reaping, lease_update, free, requeue}
use allino.Jobs.Finish.{outcome, done_async, insert_checked, store_done}
use allino.Jobs.Steps.{
  Call, enqueues, dequeues, reaps, renews, frees, requeues, finishes, stores, step, run,
}
use allino.Jobs.Sound.{IsSound, step-IsSound}
use allino.Jobs.Reaped.{reaped, is_lease_over, is_ttl_over, reaping-reaped}
use allino.Jobs.Leased.{IsLeased, updated, updated_other, enqueue-IsLeased, dequeue-IsLeased}

-- A lease without an end lasts, and one with an end until then.
abbrev pub Lasts : ℕ → Option Row → Type 0
Lasts now none = Unit
Lasts now (some r) = before r.leased_until now ≡ false

-- A call that does not end the lease of a key: it ends that of another key, or it reaps while the lease
-- lasts, or it is one of the others, for any key.
abbrev pub Spares : Bytes → ℕ → Call → Db → Type 0
Spares key now (enqueues handler meta k injson delay) db = Unit
Spares key now (dequeues handlers lease_dur) db = Unit
Spares key now (reaps maxretry) db = Lasts now (find_row key db.executions)
Spares key now (renews k lease_dur) db = Unit
Spares key now (frees k) db = bytes_eq key k ≡ false
Spares key now (requeues k delay) db = bytes_eq key k ≡ false
Spares key now (finishes handler meta k injson outjson errjson) db = bytes_eq key k ≡ false
Spares key now (stores handler meta k injson outjson errjson) db = Unit

abbrev pub AllSpare : Bytes → List (ℕ × Call) → Db → Type 0
AllSpare key [] db = Unit
AllSpare key ((now, c) ∷ cs) db = Spares key now c db × AllSpare key cs (step now c db)

module _ (key : Bytes) (db : Db) where
  lasting :
      (now : ℕ) (until : Option ℕ)
      → before until now ≡ false
      → is_lease_over now leased until ≡ false
  lasting now none h = refl
  lasting now (some t) h = h

  reaped_leased :
      (now maxretry : ℕ) (r : Row)
      → r.status ≡ leased
      → before r.leased_until now ≡ false
      → reaped now maxretry r ≡ some r
  reaped_leased now maxretry r st lasts =
      let over : is_lease_over now r.status r.leased_until ≡ false =
        ap (λ s. is_lease_over now s r.leased_until) st ∙ lasting now r.leased_until lasts in
      let unfinished : is_ttl_over now r.status r.ttl ≡ false =
        ap (λ s. is_ttl_over now s r.ttl) st in
      rw (over, unfinished) refl

  reaping-IsLeased :
      (now maxretry : ℕ)
      → AreKeyed db.executions
      → Lasts now (find_row key db.executions)
      → IsLeased key db
      → IsLeased key (reaping now maxretry db)
  reaping-IsLeased now maxretry keyed lasts (r, e, st) =
      let lasts_here : before r.leased_until now ≡ false = subst (Lasts now) e lasts in
      (
        r,
        reaping-reaped now maxretry key db keyed
            ∙ ap (λ o. elim o [ none ↦ none | some q ↦ reaped now maxretry q ]) e
            ∙ reaped_leased now maxretry r st lasts_here,
        st,
      )

renewed :
    (now lease_dur : ℕ) (k : Bytes) (r : Row)
    → r.status ≡ leased
    → (change
        (has_key k)
        (λ (s : Row). record s { leased_until = some (now + lease_dur); updated_at = now })
        r).status
      ≡ leased
renewed now lease_dur k r st = elim (Bool-cases (has_key k r)) [ inl e ↦ rw e st | inr e ↦ rw e st ]

pub keyed_rest :
    (key j : Bytes) (rs : List Row)
    → bytes_eq key j ≡ false
    → find_row j (keep_rows (has_key key) rs) ≡ find_row j rs
unfolding find_row keep_rows
keyed_rest key j [] ne = refl
keyed_rest key j (r ∷ rs) ne = elim (Bool-cases (bytes_eq r.key key)) [
  | inl e ↦ rw (e, ap (λ k. bytes_eq k j) (eq_of_bytes_eq r.key key e), ne) (keyed_rest key j rs ne)
  | inr e ↦ rw e (ap (λ o. if bytes_eq r.key j then some r else o) (keyed_rest key j rs ne))
]

module _ (key : Bytes) (now : ℕ) (handler : Bytes) (meta : JobMeta) (k : Bytes)
    (injson outjson errjson : Option Bytes) (db : Db) where
  finished_ttl :
      (t : ℕ)
      → meta.ttl ≡ some t
      → done_async now handler meta k injson outjson errjson db
        ≡ update_rows
            (has_key k)
            (λ (r : Row). record r {
              status = outcome errjson;
              ttl = some t;
              output = outjson;
              err = errjson;
              updated_at = now;
            })
            db
  unfolding done_async
  finished_ttl t e = rw (e, done_async)

  finished_results :
      meta.ttl ≡ none
      → (done_async now handler meta k injson outjson errjson db).executions
        ≡ (update_rows
            (has_key k)
            (λ (r : Row). record r { status = outcome errjson; ttl = none; updated_at = now })
            db).executions
  unfolding done_async
  finished_results e = rw (e, done_async)

  finished-IsLeased :
      bytes_eq key k ≡ false
      → IsLeased key db
      → IsLeased key (done_async now handler meta k injson outjson errjson db)
  finished-IsLeased other h = elim (Option-cases meta.ttl) [
    | inr (t, e) ↦
        subst (IsLeased key) (sym (finished_ttl t e))
          (updated_other key db k _ (λ q. (refl, refl)) other h)
    | inl e ↦
        let (r, found, st) =
          updated_other key db k
            (λ (r : Row). record r { status = outcome errjson; ttl = none; updated_at = now })
            (λ q. (refl, refl)) other h in
        (r, ap (find_row key) (finished_results e) ∙ found, st)
  ]

  stored_rows :
      (step now (stores handler meta k injson outjson errjson) db).executions ≡ db.executions
  unfolding step store_done insert_checked
  stored_rows = elim (Option-cases meta.ttl) [ inr (t, e) ↦ ground arith | inl e ↦ ground arith ]

step-IsLeased :
    (key : Bytes) (now : ℕ) (c : Call) (db : Db)
    → IsSound db
    → Spares key now c db
    → IsLeased key db
    → IsLeased key (step now c db)
unfolding step lease_update free requeue delete_rows
step-IsLeased key now (enqueues handler meta k injson delay) db s spared h =
    enqueue-IsLeased key db now handler meta k injson delay h
step-IsLeased key now (dequeues handlers lease_dur) db s spared h =
    dequeue-IsLeased key db now handlers lease_dur h
step-IsLeased key now (reaps maxretry) db s spared h =
    reaping-IsLeased key db now maxretry s.keyed spared h
step-IsLeased key now (renews k lease_dur) db s spared (r, e, st) =
    updated key db (has_key k) _ r (λ q. (refl, refl)) e (renewed now lease_dur k r st)
step-IsLeased key now (frees k) db s spared (r, e, st) =
    (r, keyed_rest k key db.executions (bytes_eq_comm k key ∙ spared) ∙ e, st)
step-IsLeased key now (requeues k delay) db s spared h =
    updated_other key db k _ (λ q. (refl, refl)) spared h
step-IsLeased key now (finishes handler meta k injson outjson errjson) db s spared h =
    finished-IsLeased key now handler meta k injson outjson errjson db spared h
step-IsLeased key now (stores handler meta k injson outjson errjson) db s spared (r, e, st) =
    (r, ap (find_row key) (stored_rows key now handler meta k injson outjson errjson db) ∙ e, st)

pub run-IsLeased :
    (key : Bytes) (cs : List (ℕ × Call)) (db : Db)
    → IsSound db
    → AllSpare key cs db
    → IsLeased key db
    → IsLeased key (run cs db)
unfolding run
run-IsLeased key [] db s spared h = h
run-IsLeased key ((now, c) ∷ cs) db s (spared, later) h =
    run-IsLeased key cs (step now c db) (step-IsSound now c db s) later
      (step-IsLeased key now c db s spared h)
