-- ===== src/Jobs/Accept.antt =====
-- `Enqueue` of typedhandler_job_sql.go: one job for a key, and what the call's delay does.
use allino.Base.{
  ℕ, ◌≡◌, ◌≢◌, refl, ◌∙◌, true, false, ◌&&◌, [], ◌∷◌, Option, none, some, arith, Option-cases, inl,
  inr, ◌⊎◌,
}
use allino.Base.Bytes.{Bytes, bytes_eq, bytes_eq_refl, bytes_eq_comm}
use allino.Jobs.Table.{
  JobMeta, Row, Db, Status, update_rows, insert_row, find_row, done, queued, status_eq, before,
}
use allino.Jobs.Keys.{find_row-map, find_row-append, find_row-append_some}
use allino.Jobs.Rows.{Holds-find_row}
use allino.Jobs.Queue.{new_row, overwrite, reusable, has_key, enqueue, eligible}

-- The row of an accepted job, apart from its id and what a former job left.
abbrev pub Accepted : ℕ → Bytes → JobMeta → Bytes → Option Bytes → Row → Type 0
Accepted now handler meta key injson r =
    (r.key ≡ key)
    × (r.handler ≡ handler)
    × (r.version ≡ meta.version)
    × (r.status ≡ meta.status)
    × (r.root_id ≡ meta.root_id)
    × (r.input ≡ injson)
    × (r.priority ≡ meta.priority)
    × (r.ttl ≡ meta.ttl)
    × (r.run_at ≡ now)

module _ (now : ℕ) (handler : Bytes) (meta : JobMeta) (key : Bytes) (injson : Option Bytes)
    (delay_sec : ℕ) (db : Db) where
  inserted_self :
      find_row key db.executions ≡ none
      → find_row key (insert_row (new_row now handler meta key injson) db).executions
        ≡ some (record (new_row now handler meta key injson) { id = db.next_id })
  unfolding insert_row new_row
  inserted_self e = rw (find_row-append key db.executions _ e, bytes_eq_refl key)

  inserted_other :
      (j : Bytes)
      → bytes_eq key j ≡ false
      → find_row j (insert_row (new_row now handler meta key injson) db).executions
        ≡ find_row j db.executions
  unfolding insert_row new_row
  inserted_other j ne = elim (Option-cases (find_row j db.executions)) [
    | inl e ↦ rw (find_row-append j db.executions _ e, ne, e)
    | inr (r, e) ↦ rw (find_row-append_some j db.executions _ r e, e)
  ]

  overwritten_self :
      (r : Row)
      → find_row key db.executions ≡ some r
      → find_row key (update_rows (has_key key) (overwrite now handler meta injson) db).executions
        ≡ some (overwrite now handler meta injson r)
  unfolding update_rows
  overwritten_self r e = rw (
    find_row-map (has_key key) (overwrite now handler meta injson) key db.executions
        (unfold overwrite in λ q. (refl, refl)),
    e,
    (Holds-find_row key db.executions r e).1,
    bytes_eq_refl key,
  )

  overwritten_other :
      (j : Bytes)
      → bytes_eq key j ≡ false
      → find_row j (update_rows (has_key key) (overwrite now handler meta injson) db).executions
        ≡ find_row j db.executions
  unfolding update_rows
  overwritten_other j ne =
      find_row-map (has_key key) (overwrite now handler meta injson) j db.executions
        (unfold overwrite in λ q. (refl, refl))
      ∙ elim (Option-cases (find_row j db.executions)) [
        | inl n ↦ rw n
        | inr (q, f) ↦ rw (f, (Holds-find_row j db.executions q f).1, bytes_eq_comm j key, ne)
      ]

  -- Whether the key can be taken: it is not there, or its job is done and has outlived its TTL.
  abbrev pub IsFree : Type 0
  IsFree =
      (find_row key db.executions ≡ none)
      ⊎ ((r : Row) × (find_row key db.executions ≡ some r) × (reusable now r ≡ true))

  abbrev pub IsBusy : Type 0
  IsBusy = (r : Row) × (find_row key db.executions ≡ some r) × (reusable now r ≡ false)

  -- Enqueue of a key that is not in the table, or whose job is done and has outlived its TTL,
  -- answers true, puts the new job (its handler, version, status, root, input, priority, TTL
  -- and the time of the call) under the key, and leaves every other key as it was.
  pub enqueue_free :
      IsFree
      → let (answer, db') = enqueue now handler meta key injson delay_sec db in
        (answer ≡ true)
        × ((r : Row) × (find_row key db'.executions ≡ some r)
            × Accepted now handler meta key injson r)
        × ((j : Bytes)
            → bytes_eq key j ≡ false
            → find_row j db'.executions ≡ find_row j db.executions)
  unfolding enqueue
  enqueue_free (inl e) =
      rw (e, enqueue)
        (
          refl,
          (
            record (new_row now handler meta key injson) { id = db.next_id },
            inserted_self e,
            unfold new_row in (refl, refl, refl, refl, refl, refl, refl, refl, refl),
          ),
          inserted_other,
        )
  enqueue_free (inr (r, e, t)) =
      rw (e, enqueue)
        (rw t (
          refl,
          (
            overwrite now handler meta injson r,
            overwritten_self r e,
            unfold overwrite in
                (
                  (Holds-find_row key db.executions r e).1,
                  refl,
                  refl,
                  refl,
                  refl,
                  refl,
                  refl,
                  refl,
                  refl,
                ),
          ),
          overwritten_other,
        ))

  -- Enqueue of a key whose job is not done, or has not outlived its TTL, answers false and
  -- changes nothing.
  pub enqueue_busy : IsBusy → enqueue now handler meta key injson delay_sec db ≡ (false, db)
  unfolding enqueue
  enqueue_busy (r, e, t) = rw (e, enqueue) (rw t)

  due_row :
      (r : Row)
      → r.status ≡ queued
      → r.run_at ≡ now
      → r.handler ≡ handler
      → eligible now (handler ∷ []) r ≡ true
  unfolding eligible
  due_row r st t h = rw (st, t, h, bytes_eq_refl handler) (ground arith)

  -- A job that is queued under a free key, with whatever delay, may be taken by a Dequeue of
  -- its handler at the time of the call.
  pub enqueue_due :
      IsFree
      → meta.status ≡ queued
      → (r : Row) × (find_row key (enqueue now handler meta key injson delay_sec db).1.executions
          ≡ some r)
        × (eligible now (handler ∷ []) r ≡ true)
  enqueue_due f q = let (_, (r, e, a), _) = enqueue_free f in (r, e, due_row r (a.3 ∙ q) a.8 a.1)

-- After an accepted Enqueue of a job whose status is not done, every further Enqueue of the key
-- on the same tables, at any time and with any job, is refused and changes nothing.
pub enqueue_locks :
    (now now' : ℕ) (handler handler' : Bytes) (meta meta' : JobMeta) (key : Bytes)
    (injson injson' : Option Bytes) (delay delay' : ℕ) (db : Db)
    → IsFree now handler meta key injson delay db
    → meta.status ≢ done
    → let db' = (enqueue now handler meta key injson delay db).1 in
      enqueue now' handler' meta' key injson' delay' db' ≡ (false, db')
enqueue_locks now now' handler handler' meta meta' key injson injson' delay delay' db f ne =
    let (_, (r, e, a), _) = enqueue_free now handler meta key injson delay db f in
    enqueue_busy now' handler' meta' key injson' delay' _ (r, e, rw a.3 (not_done meta.status r ne))
  where
    not_done :
        (st : Status) (r : Row) → st ≢ done → (status_eq st done && before r.ttl now') ≡ false
    not_done st r h = ground arith
