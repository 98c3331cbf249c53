-- ===== src/Jobs/Counts.antt =====
-- The triggers of typedhandler_job_sql.go: `execution_counts` agrees with `executions`.
use allino.Base.{
  ℕ, ◌+◌, ◌-◌, ◌≤◌, ◌≡◌, refl, ap, Bool, true, List, [], ◌∷◌, ◌++◌, map, arith, Bool-cases, inl,
  inr,
}
use allino.Base.Bytes.{Bytes, bytes_eq, eq_of_bytes_eq}
use allino.Jobs.Table.{
  Status, status_eq, Row, Count, Db, star, bump, unbump, after_insert, after_update, after_delete,
  change, update_counts, keep_rows, delete_counts, update_rows, delete_rows, insert_row,
}
use allino.Jobs.Slots.{count_of, same, unit_if, status_eq→eq, count_of-bump, count_of-unbump}

-- What one row adds to a slot: the row counts under its root, and under '*' whatever its root.
abbrev pub weight : Bytes → Status → Row → ℕ
weight root st r = unit_if (same star r.status root st) + unit_if (same r.root_id r.status root st)

abbrev pub tally : Bytes → Status → List Row → ℕ
tally root st [] = 0
tally root st (r ∷ rs) = weight root st r + tally root st rs

-- Each count is the number of rows with its status: all of them for '*', else those of its root.
abbrev pub IsCounted : Db → Type 0
IsCounted db =
    (root : Bytes) (st : Status) → count_of root st db.counts ≡ tally root st db.executions

module _ (root : Bytes) (st : Status) where
  after_insert_count :
      (r : Row) (cs : List Count)
      → count_of root st (after_insert r cs) ≡ count_of root st cs + weight root st r
  unfolding after_insert
  after_insert_count r cs =
      rw (count_of-bump root st r.root_id r.status, count_of-bump root st star r.status)
        (omega arith)

  after_delete_count :
      (r : Row) (cs : List Count)
      → count_of root st (after_delete r cs) ≡ count_of root st cs - weight root st r
  unfolding after_delete
  after_delete_count r cs =
      rw (count_of-unbump root st r.root_id r.status, count_of-unbump root st star r.status)
        (omega arith)

  weight_kept :
      (old new : Row)
      → status_eq old.status new.status ≡ true
      → bytes_eq old.root_id new.root_id ≡ true
      → weight root st old ≡ weight root st new
  weight_kept old new h k =
      rw (status_eq→eq old.status new.status h, eq_of_bytes_eq old.root_id new.root_id k)

  moved_count :
      (old new : Row) (cs : List Count)
      → weight root st old ≤ count_of root st cs
      → count_of root st (
            bump new.root_id new.status
              (bump star new.status (unbump old.root_id old.status (unbump star old.status cs))))
          + weight root st old
        ≡ count_of root st cs + weight root st new
  moved_count old new cs h =
      rw
        (
          count_of-bump root st new.root_id new.status,
          count_of-bump root st star new.status,
          count_of-unbump root st old.root_id old.status,
          count_of-unbump root st star old.status,
        )
        (omega arith)

  after_update_count :
      (old new : Row) (cs : List Count)
      → weight root st old ≤ count_of root st cs
      → count_of root st (after_update old new cs) + weight root st old
        ≡ count_of root st cs + weight root st new
  unfolding after_update
  after_update_count old new cs h = elim (Bool-cases (status_eq old.status new.status)) [
    | inr e ↦ rw e (moved_count old new cs h)
    | inl e ↦ elim (Bool-cases (bytes_eq old.root_id new.root_id)) [
      | inr k ↦ rw (e, k) (moved_count old new cs h)
      | inl k ↦ rw (e, k) (ap (◌+◌ (count_of root st cs)) (weight_kept old new e k))
    ]
  ]

  update_counts_lem :
      (p : Row → Bool) (f : Row → Row) (rs : List Row) (cs : List Count)
      → tally root st rs ≤ count_of root st cs
      → count_of root st (update_counts p f rs cs) + tally root st rs
        ≡ count_of root st cs + tally root st (map (change p f) rs)
  unfolding update_counts
  update_counts_lem p f [] cs h = refl
  update_counts_lem p f (r ∷ rs) cs h = elim (Bool-cases (p r)) [
    | inl e ↦ rw e (
        omega (
          arith,
          after_update_count r (f r) cs (omega arith),
          update_counts_lem p f rs (after_update r (f r) cs),
        ))
    | inr e ↦ rw e (omega (arith, update_counts_lem p f rs cs (omega arith)))
  ]

  delete_counts_lem :
      (p : Row → Bool) (rs : List Row) (cs : List Count)
      → tally root st rs ≤ count_of root st cs
      → count_of root st (delete_counts p rs cs) + tally root st rs
        ≡ count_of root st cs + tally root st (keep_rows p rs)
  unfolding delete_counts keep_rows
  delete_counts_lem p [] cs h = refl
  delete_counts_lem p (r ∷ rs) cs h = elim (Bool-cases (p r)) [
    | inl e ↦
        rw e (omega (arith, after_delete_count r cs, delete_counts_lem p rs (after_delete r cs)))
    | inr e ↦ rw e (omega (arith, delete_counts_lem p rs cs (omega arith)))
  ]

  tally-append : (rs qs : List Row) → tally root st (rs ++ qs) ≡ tally root st rs + tally root st qs
  tally-append [] qs = omega arith
  tally-append (r ∷ rs) qs = omega (arith, tally-append rs qs)

pub insert_row-IsCounted : (r : Row) (db : Db) → IsCounted db → IsCounted (insert_row r db)
unfolding insert_row
insert_row-IsCounted r db h root st = omega (
  arith,
  h root st,
  after_insert_count root st r db.counts,
  tally-append root st db.executions (record r { id = db.next_id } ∷ []),
)

pub update_rows-IsCounted :
    (p : Row → Bool) (f : Row → Row) (db : Db) → IsCounted db → IsCounted (update_rows p f db)
unfolding update_rows
update_rows-IsCounted p f db h root st = omega (
  arith,
  h root st,
  update_counts_lem root st p f db.executions db.counts (omega (arith, h root st)),
)

pub delete_rows-IsCounted : (p : Row → Bool) (db : Db) → IsCounted db → IsCounted (delete_rows p db)
unfolding delete_rows
delete_rows-IsCounted p db h root st = omega (
  arith,
  h root st,
  delete_counts_lem root st p db.executions db.counts (omega (arith, h root st)),
)
