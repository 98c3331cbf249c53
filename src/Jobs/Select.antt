-- ===== src/Jobs/Select.antt =====
-- The `SELECT … LIMIT 1` of `Dequeue` in typedhandler_job_sql.go: the first eligible row.
use allino.Base.{
  ℕ, ◌≡◌, refl, sym, true, false, List, [], ◌∷◌, Option, none, some, arith, Bool-cases, inl, inr,
  subst,
}
use allino.Base.Bytes.{Bytes}
use allino.Jobs.Table.{Row}
use allino.Jobs.Queue.{eligible, precedes, better, select_next}
use allino.Jobs.Rows.{Holds}

precedes_asym : (a b : Row) → precedes a b ≡ true → precedes b a ≡ false
unfolding precedes
precedes_asym a b h = ground arith

not_precedes_trans :
    (a b c : Row) → precedes a b ≡ false → precedes b c ≡ false → precedes a c ≡ false
unfolding precedes
not_precedes_trans a b c h k = ground arith

-- No eligible row is served before the chosen one.
abbrev pub Leads : ℕ → List Bytes → Row → List Row → Type 0
Leads now handlers r rs =
    (s : Row) → Holds s rs → eligible now handlers s ≡ true → precedes s r ≡ false

-- What `SELECT … LIMIT 1` finds.
abbrev pub Selects : ℕ → List Bytes → List Row → Option Row → Type 0
Selects now handlers rs none = (s : Row) → Holds s rs → eligible now handlers s ≡ false
Selects now handlers rs (some r) =
    Holds r rs × (eligible now handlers r ≡ true) × Leads now handlers r rs

better_rest : (r t : Row) → precedes t r ≡ true → better r (some t) ≡ t
better_rest r t p = rw p

better_head : (r t : Row) → precedes t r ≡ false → better r (some t) ≡ r
better_head r t p = rw p

module _ (now : ℕ) (handlers : List Bytes) where
  skip_row :
      (r : Row) (rs : List Row) (o : Option Row)
      → eligible now handlers r ≡ false
      → Selects now handlers rs o
      → Selects now handlers (r ∷ rs) o
  skip_row r rs none e h = λ s. elim [ inl q ↦ rw q e | inr m ↦ h s m ]
  skip_row r rs (some t) e (m, k, l) = (inr m, k, lead)
    where
      lead : Leads now handlers t (r ∷ rs)
      lead s (inl q) k = cc
      lead s (inr n) k = l s n k

  take_row :
      (r : Row) (rs : List Row) (o : Option Row)
      → eligible now handlers r ≡ true
      → Selects now handlers rs o
      → Selects now handlers (r ∷ rs) (some (better r o))
  take_row r rs none e h = (inl refl, e, lead)
    where
      lead : Leads now handlers r (r ∷ rs)
      lead s (inl q) k =
          rw q (elim (Bool-cases (precedes r r)) [ inl p ↦ precedes_asym r r p | inr p ↦ p ])
      lead s (inr n) k = cc (h s n)
  take_row r rs (some t) e (m, k, l) = elim (Bool-cases (precedes t r)) [
    | inl p ↦
        subst (λ q. Selects now handlers (r ∷ rs) (some q)) (sym (better_rest r t p))
          (inr m, k, first p)
    | inr p ↦
        subst (λ q. Selects now handlers (r ∷ rs) (some q)) (sym (better_head r t p))
          (inl refl, e, second p)
  ]
    where
      first : precedes t r ≡ true → Leads now handlers t (r ∷ rs)
      first p s (inl q) k = rw q (precedes_asym t r p)
      first p s (inr n) k = l s n k

      second : precedes t r ≡ false → Leads now handlers r (r ∷ rs)
      second p s (inl q) k =
          rw q (elim (Bool-cases (precedes r r)) [ inl p ↦ precedes_asym r r p | inr p ↦ p ])
      second p s (inr n) k = not_precedes_trans s t r (l s n k) p

  pub select_next-Selects : (rs : List Row) → Selects now handlers rs (select_next now handlers rs)
  unfolding select_next
  select_next-Selects [] = λ s h. absurd h
  select_next-Selects (r ∷ rs) = elim (Bool-cases (eligible now handlers r)) [
    | inl e ↦ rw e (take_row r rs (select_next now handlers rs) e (select_next-Selects rs))
    | inr e ↦ rw e (skip_row r rs (select_next now handlers rs) e (select_next-Selects rs))
  ]
