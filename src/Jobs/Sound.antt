-- ===== src/Jobs/Sound.antt =====
-- The invariant of the tables of typedhandler_job_sql.go, kept by every call.
use allino.Base.{
  ℕ, ◌==◌, ◌≡◌, refl, List, [], ◌∷◌, Option, none, some, arith, Bool, Bool-cases, Option-cases,
  subst, inl, inr,
}
use allino.Base.Bytes.{Bytes}
use allino.Base.Int.{ℤ}
use allino.Jobs.Table.{JobMeta, Row, Db, update_rows, delete_rows, insert_row, find_row}
use allino.Jobs.Slots.{count_of}
use allino.Jobs.Counts.{
  IsCounted, insert_row-IsCounted, update_rows-IsCounted, delete_rows-IsCounted,
}
use allino.Jobs.Keys.{
  KeepsKey, AreKeyed, AreNumbered, map-AreKeyed, keep_rows-AreKeyed, append-AreKeyed,
  map-AreNumbered, keep_rows-AreNumbered, append-AreNumbered,
}
use allino.Jobs.Queue.{
  new_row, overwrite, reusable, has_key, enqueue, select_next, lease, dequeue, fail_row, JobTask,
  release_row, reaping, lease_update, free, requeue,
}
use allino.Jobs.Finish.{done_async, insert_checked, store_done}
use allino.Jobs.Steps.{
  Call, enqueues, dequeues, reaps, renews, frees, requeues, finishes, stores, step, run, empty_db,
}

-- Keys are unique, ids rise below the next one, and the counts are those of the rows.
pub record IsSound (db : Db) : Type 0 where
  pub keyed : AreKeyed db.executions
  pub numbered : AreNumbered 0 db.next_id db.executions
  pub counted : IsCounted db

update_rows-IsSound :
    (p : Row → Bool) (f : Row → Row) (db : Db)
    → KeepsKey f
    → IsSound db
    → IsSound (update_rows p f db)
update_rows-IsSound p f db h s = record {
  keyed = unfold update_rows in map-AreKeyed p f db.executions h s.keyed;
  numbered = unfold update_rows in map-AreNumbered p f 0 db.next_id db.executions h s.numbered;
  counted = update_rows-IsCounted p f db s.counted;
}

delete_rows-IsSound : (p : Row → Bool) (db : Db) → IsSound db → IsSound (delete_rows p db)
delete_rows-IsSound p db s = record {
  keyed = unfold delete_rows in keep_rows-AreKeyed p db.executions s.keyed;
  numbered = unfold delete_rows in keep_rows-AreNumbered p 0 db.next_id db.executions s.numbered;
  counted = delete_rows-IsCounted p db s.counted;
}

insert_row-IsSound :
    (r : Row) (db : Db)
    → find_row r.key db.executions ≡ none
    → IsSound db
    → IsSound (insert_row r db)
insert_row-IsSound r db h s = record {
  keyed =
      unfold insert_row in append-AreKeyed db.executions (record r { id = db.next_id }) h s.keyed;
  numbered =
      unfold insert_row in
      append-AreNumbered 0 db.next_id db.executions (record r { id = db.next_id }) refl s.numbered;
  counted = insert_row-IsCounted r db s.counted;
}

-- The tables and fields that the invariant does not read.
elsewhere-IsSound :
    {db db' : Db}
    → db'.executions ≡ db.executions
    → db'.next_id ≡ db.next_id
    → db'.counts ≡ db.counts
    → IsSound db
    → IsSound db'
elsewhere-IsSound e n c s = record {
  keyed = rw e s.keyed;
  numbered = rw (e, n) s.numbered;
  counted = λ root st. rw (e, c) (s.counted root st);
}

enqueue-IsSound :
    (now : ℕ) (handler : Bytes) (meta : JobMeta) (key : Bytes) (injson : Option Bytes) (delay : ℕ)
    (db : Db)
    → IsSound db
    → IsSound (enqueue now handler meta key injson delay db).1
unfolding enqueue
enqueue-IsSound now handler meta key injson delay db s =
    elim (Option-cases (find_row key db.executions)) [
      | inl e ↦
          rw (e, enqueue)
            (insert_row-IsSound (new_row now handler meta key injson) db (unfold new_row in e) s)
      | inr (r, e) ↦
          rw (e, enqueue)
            (elim (Bool-cases (reusable now r)) [
              | inl t ↦ rw t (
                  update_rows-IsSound (has_key key) (overwrite now handler meta injson) db
                    (unfold overwrite in λ q. (refl, refl)) s)
              | inr t ↦ rw t s
            ])
    ]

dequeue-IsSound :
    (now : ℕ) (handlers : List Bytes) (lease_dur : ℕ) (db : Db)
    → IsSound db
    → IsSound (step now (dequeues handlers lease_dur) db)
unfolding step dequeue
dequeue-IsSound now handlers lease_dur db s =
    elim (Option-cases (select_next now handlers db.executions)) [
      | inl e ↦ rw (e, step, dequeue) s
      | inr (r, e) ↦
          rw (e, step, dequeue)
            (elsewhere-IsSound refl refl refl (
              update_rows-IsSound (λ q. q.id == r.id) (lease now lease_dur) db
                (unfold lease in λ q. (refl, refl)) s))
    ]

pub after_dequeue :
    (now : ℕ) (handlers : List Bytes) (lease_dur : ℕ) (db : Db) (task : JobTask) (gap : ℤ)
    (db' : Db)
    → dequeue now handlers lease_dur db ≡ some (task, gap, db')
    → IsSound db
    → IsSound db'
unfolding step
after_dequeue now handlers lease_dur db task gap db' e sound =
    subst IsSound (stepped e) (dequeue-IsSound now handlers lease_dur db sound)
  where
    stepped :
        dequeue now handlers lease_dur db ≡ some (task, gap, db')
        → step now (dequeues handlers lease_dur) db ≡ db'
    stepped e = rw (e, step)

reaping-IsSound : (now maxretry : ℕ) (db : Db) → IsSound db → IsSound (reaping now maxretry db)
unfolding reaping fail_row release_row
reaping-IsSound now maxretry db s = delete_rows-IsSound _ _ (
    update_rows-IsSound _ _ _ (λ q. (refl, refl))
      (update_rows-IsSound _ _ db (λ q. (refl, refl)) s))

done_async-IsSound :
    (now : ℕ) (handler : Bytes) (meta : JobMeta) (key : Bytes)
    (injson outjson errjson : Option Bytes) (db : Db)
    → IsSound db
    → IsSound (done_async now handler meta key injson outjson errjson db)
unfolding done_async
done_async-IsSound now handler meta key injson outjson errjson db s = elim (Option-cases meta.ttl) [
  | inl e ↦
      rw (e, done_async)
        (elsewhere-IsSound refl refl refl
          (update_rows-IsSound (has_key key) _ db (λ q. (refl, refl)) s))
  | inr (t, e) ↦ rw (e, done_async) (update_rows-IsSound (has_key key) _ db (λ q. (refl, refl)) s)
]

store_done-IsSound :
    (now : ℕ) (handler : Bytes) (meta : JobMeta) (key : Bytes)
    (injson outjson errjson : Option Bytes) (db : Db)
    → IsSound db
    → IsSound (step now (stores handler meta key injson outjson errjson) db)
unfolding step store_done insert_checked
store_done-IsSound now handler meta key injson outjson errjson db s = elim (Option-cases meta.ttl) [
  | inl e ↦ rw (e, step, store_done) (elsewhere-IsSound refl refl refl s)
  | inr (t, e) ↦ rw (e, step, store_done) s
]

-- Every call of the SQL strategy, at any time and with any arguments, keeps the tables sound:
-- keys are unique, ids rise below the next one, and for every root and status the count that
-- the triggers keep is the number of rows.
pub step-IsSound : (now : ℕ) (c : Call) (db : Db) → IsSound db → IsSound (step now c db)
unfolding step lease_update free requeue
step-IsSound now (enqueues handler meta key injson delay) db s =
    enqueue-IsSound now handler meta key injson delay db s
step-IsSound now (dequeues handlers lease_dur) db s = dequeue-IsSound now handlers lease_dur db s
step-IsSound now (reaps maxretry) db s = reaping-IsSound now maxretry db s
step-IsSound now (renews key lease_dur) db s =
    update_rows-IsSound (has_key key) _ db (λ q. (refl, refl)) s
step-IsSound now (frees key) db s = delete_rows-IsSound (has_key key) db s
step-IsSound now (requeues key delay) db s =
    update_rows-IsSound (has_key key) _ db (λ q. (refl, refl)) s
step-IsSound now (finishes handler meta key injson outjson errjson) db s =
    done_async-IsSound now handler meta key injson outjson errjson db s
step-IsSound now (stores handler meta key injson outjson errjson) db s =
    store_done-IsSound now handler meta key injson outjson errjson db s

pub run-IsSound : (cs : List (ℕ × Call)) (db : Db) → IsSound db → IsSound (run cs db)
unfolding run
run-IsSound [] db s = s
run-IsSound ((now, c) ∷ cs) db s = run-IsSound cs (step now c db) (step-IsSound now c db s)

empty_db-IsSound : IsSound empty_db
unfolding empty_db
empty_db-IsSound = record {
  keyed = tt;
  numbered = omega arith;
  counted = λ root st. unfold count_of in refl;
}

-- The tables are sound after any history of calls on the tables that Init creates.
pub run-empty_db-IsSound : (cs : List (ℕ × Call)) → IsSound (run cs empty_db)
run-empty_db-IsSound cs = run-IsSound cs empty_db empty_db-IsSound
