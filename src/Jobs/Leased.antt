-- ===== src/Jobs/Leased.antt =====
-- What leaves a leased job leased in typedhandler_job_sql.go: an update of other rows, Enqueue and
-- Dequeue.
use allino.Base.{
  ℕ, ◌==◌, ◌≡◌, refl, sym, ap, ◌∙◌, subst, Bool, ◌&&◌, true, false, List, Option, none, some,
  if◌then◌else◌, Bool-cases, Option-cases, inl, inr,
}
use allino.Base.Bytes.{Bytes, bytes_eq, eq_of_bytes_eq}
use allino.Jobs.Table.{
  JobMeta, Row, Db, leased, done, status_eq, change, update_rows, insert_row, find_row, before,
}
use allino.Jobs.Keys.{KeepsKey, find_row-map, find_row-append_some}
use allino.Jobs.Rows.{Holds-find_row}
use allino.Jobs.Queue.{has_key, reusable, new_row, overwrite, enqueue, select_next, lease, dequeue}
use allino.Jobs.Steps.{dequeues, step}
use allino.Jobs.Accept.{enqueue_busy}

-- The job of a key is leased.
abbrev pub IsLeased : Bytes → Db → Type 0
IsLeased key db = (r : Row) × (find_row key db.executions ≡ some r) × (r.status ≡ leased)

module _ (key : Bytes) (db : Db) where
  pub updated :
      (p : Row → Bool) (f : Row → Row) (r : Row)
      → KeepsKey f
      → find_row key db.executions ≡ some r
      → (change p f r).status ≡ leased
      → IsLeased key (update_rows p f db)
  unfolding update_rows
  updated p f r keeps e st =
      (change p f r, rw (find_row-map p f key db.executions keeps, e) refl, st)

  -- An update of the rows of another key.
  pub updated_other :
      (k : Bytes) (f : Row → Row)
      → KeepsKey f
      → bytes_eq key k ≡ false
      → IsLeased key db
      → IsLeased key (update_rows (has_key k) f db)
  updated_other k f keeps other (r, e, st) =
      let named : r.key ≡ key = (Holds-find_row key db.executions r e).1 in
      let missed : has_key k r ≡ false = ap (λ j. bytes_eq j k) named ∙ other in
      updated (has_key k) f r keeps e (ap (λ b. (if b then f r else r).status) missed ∙ st)

  enqueued_new :
      (now : ℕ) (handler : Bytes) (meta : JobMeta) (k : Bytes) (injson : Option Bytes) (delay : ℕ)
      → find_row k db.executions ≡ none
      → enqueue now handler meta k injson delay db
        ≡ (true, insert_row (new_row now handler meta k injson) db)
  unfolding enqueue
  enqueued_new now handler meta k injson delay n = rw (n, enqueue)

  enqueued_again :
      (now : ℕ) (handler : Bytes) (meta : JobMeta) (k : Bytes) (injson : Option Bytes) (delay : ℕ)
      (q : Row)
      → find_row k db.executions ≡ some q
      → reusable now q ≡ true
      → enqueue now handler meta k injson delay db
        ≡ (true, update_rows (has_key k) (overwrite now handler meta injson) db)
  unfolding enqueue
  enqueued_again now handler meta k injson delay q f over = rw (f, enqueue) (rw over)

  -- The row of the key is the leased one, which is not reusable.
  not_over :
      (now : ℕ) (k : Bytes) (q : Row)
      → IsLeased key db
      → find_row k db.executions ≡ some q
      → reusable now q ≡ true
      → bytes_eq key k ≡ false
  not_over now k q (r, e, st) f over = elim (Bool-cases (bytes_eq key k)) [
    | inr other ↦ other
    | inl same ↦
        let named = ap (λ j. find_row j db.executions) (eq_of_bytes_eq key k same) in
        let pairs : some q ≡ some r = sym f ∙ sym named ∙ e in
        let is : q ≡ r = ap (λ o. elim o [ none ↦ r | some x ↦ x ]) pairs in
        let bad =
          ap (λ s. status_eq s done && before r.ttl now) (sym st)
          ∙ ap (λ x. reusable now x) (sym is)
          ∙ over in
        cc (bad)
  ]

  pub enqueue-IsLeased :
      (now : ℕ) (handler : Bytes) (meta : JobMeta) (k : Bytes) (injson : Option Bytes) (delay : ℕ)
      → IsLeased key db
      → IsLeased key ((enqueue now handler meta k injson delay db).1)
  unfolding insert_row
  enqueue-IsLeased now handler meta k injson delay (r, e, st) =
      elim (Option-cases (find_row k db.executions)) [
        | inl n ↦
            subst (λ y. IsLeased key (y.1)) (sym (enqueued_new now handler meta k injson delay n))
              (r, find_row-append_some key db.executions _ r e, st)
        | inr (q, f) ↦ elim (Bool-cases (reusable now q)) [
          | inr kept ↦
              subst (λ y. IsLeased key (y.1))
                (sym (enqueue_busy now handler meta k injson delay db (q, f, kept))) (r, e, st)
          | inl over ↦
              subst (λ y. IsLeased key (y.1))
                (sym (enqueued_again now handler meta k injson delay q f over))
                (updated_other k (overwrite now handler meta injson)
                  (unfold overwrite in λ s. (refl, refl)) (not_over now k q (r, e, st) f over)
                  (r, e, st))
        ]
      ]

  -- A row that Dequeue takes is leased too.
  taken_or_not :
      (p : Row → Bool) (now lease_dur : ℕ) (r : Row)
      → r.status ≡ leased
      → (change p (lease now lease_dur) r).status ≡ leased
  unfolding lease
  taken_or_not p now lease_dur r st = elim (Bool-cases (p r)) [
    | inl e ↦ rw e refl
    | inr e ↦ rw e st
  ]

  dequeued-IsLeased :
      (now lease_dur : ℕ) (p : Row → Bool)
      → IsLeased key db
      → IsLeased key (update_rows p (lease now lease_dur) db)
  dequeued-IsLeased now lease_dur p (r, e, st) =
      updated p (lease now lease_dur) r (unfold lease in λ s. (refl, refl)) e
        (taken_or_not p now lease_dur r st)

  dequeued_none :
      (now : ℕ) (handlers : List Bytes) (lease_dur : ℕ)
      → select_next now handlers db.executions ≡ none
      → step now (dequeues handlers lease_dur) db ≡ db
  unfolding step dequeue
  dequeued_none now handlers lease_dur n = rw (n, dequeue, step)

  dequeued_some :
      (now : ℕ) (handlers : List Bytes) (lease_dur : ℕ) (s : Row)
      → select_next now handlers db.executions ≡ some s
      → step now (dequeues handlers lease_dur) db
        ≡ record (update_rows (λ q. q.id == s.id) (lease now lease_dur) db) {
          last_dequeued = some s.id;
        }
  unfolding step dequeue
  dequeued_some now handlers lease_dur s e = rw (e, dequeue, step)

  pub dequeue-IsLeased :
      (now : ℕ) (handlers : List Bytes) (lease_dur : ℕ)
      → IsLeased key db
      → IsLeased key (step now (dequeues handlers lease_dur) db)
  dequeue-IsLeased now handlers lease_dur h =
      elim (Option-cases (select_next now handlers db.executions)) [
        | inl n ↦ subst (IsLeased key) (sym (dequeued_none now handlers lease_dur n)) h
        | inr (s, e) ↦
            subst (IsLeased key) (sym (dequeued_some now handlers lease_dur s e))
              (dequeued-IsLeased now lease_dur (λ q. q.id == s.id) h)
      ]
