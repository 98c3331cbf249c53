-- ===== src/Jobs/Slots.antt =====
-- The rows of `execution_counts` in typedhandler_job_sql.go as a map from a root and a status.
use allino.Base.{
  ℕ, ◌+◌, ◌-◌, ◌≡◌, Bool, true, false, ◌&&◌, List, [], ◌∷◌, if◌then◌else◌, arith, Bool-cases, inl,
  inr,
}
use allino.Base.Bytes.{Bytes, bytes_eq, eq_of_bytes_eq, bytes_eq_comm}
use allino.Jobs.Table.{Status, status_eq, Count, bump, unbump}

-- The stored count, 0 where there is no row.
unfoldable pub count_of : Bytes → Status → List Count → ℕ
count_of root st [] = 0
count_of root st (c ∷ cs) =
    if bytes_eq c.root_id root && status_eq c.status st then c.count else count_of root st cs

abbrev pub same : Bytes → Status → Bytes → Status → Bool
same root st root' st' = bytes_eq root root' && status_eq st st'

abbrev pub unit_if : Bool → ℕ
unit_if true = 1
unit_if false = 0

pub status_eq→eq : (a b : Status) → status_eq a b ≡ true → a ≡ b
status_eq→eq a b h = ground arith

-- The two parts of a slot's test.
slot_parts :
    (root root' : Bytes) (st st' : Status)
    → same root st root' st' ≡ true
    → (root ≡ root') × (st ≡ st')
slot_parts root root' st st' h =
    (eq_of_bytes_eq root root' (ground arith), status_eq→eq st st' (ground arith))

same_comm : (root root' : Bytes) (st st' : Status) → same root st root' st' ≡ same root' st' root st
same_comm root root' st st' = ground (arith, bytes_eq_comm root root')

miss_slot :
    (root root' : Bytes) (st st' : Status) (c : Count)
    → same c.root_id c.status root' st' ≡ false
    → same c.root_id c.status root st ≡ true
    → same root' st' root st ≡ false
miss_slot root root' st st' c e h =
    let (p, q) = slot_parts c.root_id root c.status st h in cc (same_comm root' root st' st, p, q)

pub count_of-bump :
    (root : Bytes) (st : Status) (root' : Bytes) (st' : Status) (cs : List Count)
    → count_of root st (bump root' st' cs) ≡ count_of root st cs + unit_if (same root' st' root st)
unfolding count_of bump
count_of-bump root st root' st' [] = ground arith
count_of-bump root st root' st' (c ∷ cs) = elim (Bool-cases (same c.root_id c.status root' st')) [
  | inl e ↦
      let (p, q) = slot_parts c.root_id root' c.status st' e in rw e (rw (← p, ← q) (ground arith))
  | inr e ↦ rw e (elim (Bool-cases (same c.root_id c.status root st)) [
    | inl h ↦ rw (h, miss_slot root root' st st' c e h) (omega arith)
    | inr h ↦ rw h (count_of-bump root st root' st' cs)
  ])
]

pub count_of-unbump :
    (root : Bytes) (st : Status) (root' : Bytes) (st' : Status) (cs : List Count)
    → count_of root st (unbump root' st' cs)
      ≡ count_of root st cs - unit_if (same root' st' root st)
unfolding count_of unbump
count_of-unbump root st root' st' [] = ground arith
count_of-unbump root st root' st' (c ∷ cs) = elim (Bool-cases (same c.root_id c.status root' st')) [
  | inl e ↦
      let (p, q) = slot_parts c.root_id root' c.status st' e in rw e (rw (← p, ← q) (ground arith))
  | inr e ↦ rw e (elim (Bool-cases (same c.root_id c.status root st)) [
    | inl h ↦ rw (h, miss_slot root root' st st' c e h) (omega arith)
    | inr h ↦ rw h (count_of-unbump root st root' st' cs)
  ])
]
