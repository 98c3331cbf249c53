-- ===== src/Jobs/Rows.antt =====
-- Rows of `executions` (typedhandler_job_sql.go) found by key and by id.
use allino.Base.{
  ℕ, suc, ◌≤◌, ◌≡◌, ap, sym, ◌∙◌, false, List, [], ◌∷◌, some, arith, Bool-cases, inl, inr, ◌⊎◌,
}
use allino.Base.Bytes.{Bytes, bytes_eq, bytes_eq_refl, eq_of_bytes_eq}
use allino.Jobs.Table.{Row, find_row}
use allino.Jobs.Keys.{AreKeyed, AreNumbered}

-- The row stands in the table.
abbrev pub Holds : Row → List Row → Type 0
Holds r [] = ⊥
Holds r (s ∷ rs) = (r ≡ s) ⊎ Holds r rs

pub find_row_skip :
    (key : Bytes) (s : Row) (rs : List Row)
    → bytes_eq s.key key ≡ false
    → find_row key (s ∷ rs) ≡ find_row key rs
unfolding find_row
find_row_skip key s rs e = rw e

pub find_row-Holds :
    (r : Row) (rs : List Row) → AreKeyed rs → Holds r rs → find_row r.key rs ≡ some r
find_row-Holds r [] k h = absurd h
find_row-Holds r (s ∷ rs) k (inl e) = unfold find_row in rw (e, bytes_eq_refl s.key)
find_row-Holds r (s ∷ rs) k (inr h) =
    let found = find_row-Holds r rs k.1 h in
    elim (Bool-cases (bytes_eq s.key r.key)) [
      | inl e ↦ cc (eq_of_bytes_eq s.key r.key e)
      | inr e ↦ find_row_skip r.key s rs e ∙ found
    ]

pub Holds-find_row :
    (key : Bytes) (rs : List Row) (r : Row) → find_row key rs ≡ some r → Holds r rs × (r.key ≡ key)
unfolding find_row
Holds-find_row key [] r e = cc
Holds-find_row key (s ∷ rs) r e = elim (Bool-cases (bytes_eq s.key key)) [
  | inl q ↦
      let same : s ≡ r = ground arith in
      (inl (sym same), ap (λ (t : Row). t.key) (sym same) ∙ eq_of_bytes_eq s.key key q)
  | inr q ↦ let rest = Holds-find_row key rs r (ground arith) in (inr rest.0, rest.1)
]

pub id_above : (lo hi : ℕ) (r : Row) (rs : List Row) → AreNumbered lo hi rs → Holds r rs → lo ≤ r.id
id_above lo hi r [] n h = absurd h
id_above lo hi r (s ∷ rs) n (inl e) = rw e n.0
id_above lo hi r (s ∷ rs) n (inr h) = omega (arith, id_above (suc s.id) hi r rs n.1 h)

pub row_of_id :
    (lo hi : ℕ) (q r : Row) (rs : List Row)
    → AreNumbered lo hi rs
    → Holds q rs
    → Holds r rs
    → q.id ≡ r.id
    → q ≡ r
row_of_id lo hi q r [] n h k e = absurd h
row_of_id lo hi q r (s ∷ rs) n (inl h) (inl k) e = h ∙ sym k
row_of_id lo hi q r (s ∷ rs) n (inl h) (inr k) e =
    absurd (omega (arith, id_above (suc s.id) hi r rs n.1 k, ap (λ (t : Row). t.id) h))
row_of_id lo hi q r (s ∷ rs) n (inr h) (inl k) e =
    absurd (omega (arith, id_above (suc s.id) hi q rs n.1 h, ap (λ (t : Row). t.id) k))
row_of_id lo hi q r (s ∷ rs) n (inr h) (inr k) e = row_of_id (suc s.id) hi q r rs n.1 h k e
