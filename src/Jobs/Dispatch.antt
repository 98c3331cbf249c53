-- ===== src/Jobs/Dispatch.antt =====
-- `Dequeue` of typedhandler_job_sql.go: which job is leased, and that it is leased once.
use allino.Base.{
  ◌+◌, ℕ, ◌==◌, ==_refl, ==_ne, ◌≡◌, ◌≢◌, refl, ap, ◌∙◌, true, false, List, Option, none, some,
  if◌then◌else◌, Option-cases, inl, inr, subst,
}
use allino.Base.Bytes.{Bytes, bytes_eq, bytes_eq_refl}
use allino.Base.Int.{ℤ}
use allino.Jobs.Table.{leased, Row, Db, update_rows, find_row}
use allino.Jobs.Keys.{find_row-map}
use allino.Jobs.Queue.{eligible, select_next, lease, dequeue, JobTask}
use allino.Jobs.Sound.{IsSound, after_dequeue}
use allino.Jobs.Rows.{Holds, find_row-Holds, Holds-find_row, row_of_id}
use allino.Jobs.Select.{Leads, Selects, select_next-Selects}

-- What `Dequeue` hands out: a job that is queued, due and of a listed handler, which no other such
-- job precedes in the order of priority, age and id. It is leased until the end of the lease, and
-- the rest of the table is as before. `none` means that there was no such job.
abbrev pub Dispatched : ℕ → List Bytes → ℕ → Db → Option (JobTask × ℤ × Db) → Type 0
Dispatched now handlers lease_dur db none =
    (s : Row) → Holds s db.executions → eligible now handlers s ≡ false
Dispatched now handlers lease_dur db (some (task, gap, db')) =
    (r : Row) × Holds r db.executions
    × (eligible now handlers r ≡ true)
    × Leads now handlers r db.executions
    × (task.key ≡ r.key)
    × (task.handler ≡ r.handler)
    × (task.input ≡ r.input)
    × (find_row task.key db'.executions
        ≡ some
            (record r { status = leased; leased_until = some (now + lease_dur); updated_at = now }))
    × ((key : Bytes)
        → bytes_eq task.key key ≡ false
        → find_row key db'.executions ≡ find_row key db.executions)

leased_self :
    (now lease_dur : ℕ) (r : Row) (db : Db)
    → IsSound db
    → Holds r db.executions
    → find_row r.key (update_rows (λ s. s.id == r.id) (lease now lease_dur) db).executions
      ≡ some (record r { status = leased; leased_until = some (now + lease_dur); updated_at = now })
unfolding update_rows lease
leased_self now lease_dur r db sound h = rw (
  find_row-map (λ s. s.id == r.id) (lease now lease_dur) r.key db.executions
      (unfold lease in λ q. (refl, refl)),
  find_row-Holds r db.executions sound.keyed h,
  ==_refl r.id,
)

leased_other :
    (now lease_dur : ℕ) (r : Row) (db : Db) (key : Bytes)
    → IsSound db
    → Holds r db.executions
    → bytes_eq r.key key ≡ false
    → find_row key (update_rows (λ s. s.id == r.id) (lease now lease_dur) db).executions
      ≡ find_row key db.executions
unfolding update_rows
leased_other now lease_dur r db key sound h e =
    find_row-map (λ s. s.id == r.id) (lease now lease_dur) key db.executions
      (unfold lease in λ q. (refl, refl))
    ∙ elim (Option-cases (find_row key db.executions)) [
      | inl n ↦ rw n
      | inr (q, f) ↦ rw f (ap (λ b. some (if b then lease now lease_dur q else q)) (distinct q f))
    ]
  where
    distinct : (q : Row) → find_row key db.executions ≡ some q → (q.id == r.id) ≡ false
    distinct q f =
        let (held, of_key) = Holds-find_row key db.executions q f in
        ==_ne q.id r.id λ same.
          let one = row_of_id 0 db.next_id q r db.executions sound.numbered held h same in
          cc (bytes_eq_refl key, ap (λ (t : Row). t.key) one, of_key)

-- On sound tables, Dequeue hands out a row of the table that is queued, due and of a listed
-- handler and that no other such row precedes in the order of priority, age and id; the row is
-- leased until the end of the lease and every other key has the row it had; where it answers
-- that there is no job, no row is queued, due and of a listed handler.
pub dequeue-Dispatched :
    (now : ℕ) (handlers : List Bytes) (lease_dur : ℕ) (db : Db)
    → IsSound db
    → Dispatched now handlers lease_dur db (dequeue now handlers lease_dur db)
unfolding dequeue
dequeue-Dispatched now handlers lease_dur db sound =
    elim (Option-cases (select_next now handlers db.executions)) [
      | inl e ↦ rw (e, dequeue) (selected none e)
      | inr (r, e) ↦
          let (h, ok, first) = selected (some r) e in
          rw (e, dequeue)
            (
              r,
              h,
              ok,
              first,
              refl,
              refl,
              refl,
              leased_self now lease_dur r db sound h,
              λ key ne. leased_other now lease_dur r db key sound h ne,
            )
    ]
  where
    selected :
        (o : Option Row)
        → select_next now handlers db.executions ≡ o
        → Selects now handlers db.executions o
    selected o e =
        subst (Selects now handlers db.executions) e
          (select_next-Selects now handlers db.executions)

not_eligible_leased :
    (now now' : ℕ) (handlers : List Bytes) (lease_dur : ℕ) (r : Row)
    → eligible now' handlers
        (record r { status = leased; leased_until = some (now + lease_dur); updated_at = now })
      ≡ false
unfolding eligible
not_eligible_leased now now' handlers lease_dur r = refl

-- On sound tables, a Dequeue that directly follows another one, at any time and for any
-- handlers, never gives the same job key.
pub dequeue_twice :
    (now now' : ℕ) (handlers handlers' : List Bytes) (dur dur' : ℕ) (db db' db'' : Db)
    (first second : JobTask) (gap gap' : ℤ)
    → IsSound db
    → dequeue now handlers dur db ≡ some (first, gap, db')
    → dequeue now' handlers' dur' db' ≡ some (second, gap', db'')
    → second.key ≢ first.key
dequeue_twice now now' handlers handlers' dur dur' db db' db'' first second gap gap' sound e e' q =
    let (r, _, _, _, _, _, _, held, _) =
      subst (Dispatched now handlers dur db) e (dequeue-Dispatched now handlers dur db sound) in
    let (s, h, ok, _, task, _, _, _, _) =
      subst (Dispatched now' handlers' dur' db') e'
        (dequeue-Dispatched now' handlers' dur' db' sound') in
    let again = find_row-Holds s db'.executions sound'.keyed h in
    cc (task, again, held, ok, not_eligible_leased now now' handlers' dur r)
  where
    sound' : IsSound db'
    sound' = after_dequeue now handlers dur db first gap db' e sound
