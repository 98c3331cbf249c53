-- ===== src/Cron/Ranges.antt =====
-- The values that randcron.go puts into a field.
use allino.Base.{
  ℕ, ◌+◌, ◌-◌, ◌==◌, ◌≤◌, ◌<◌, ◌≡◌, refl, sym, subst, true, false, List, [], ◌∷◌, Option, none,
  some, if◌then◌else◌, ltb, ltb→lt, Bool-cases, Option-cases, inl, inr, ◌⊎◌, arith,
}
use native.Mathlib.Nat.{mod-lt}
use allino.Base.Bytes.{Bytes, bytes_eq, eq_of_bytes_eq}
use allino.Base.Split.{split, cons_first}
use allino.Base.Int.{pos}
use allino.JobIds.{number, atoi}
use allino.Cron.{
  question, dash, itoa, random_in_range, has_question, trim_question, expand_between, expand_range,
  expand_field,
}
use allino.Cron.Decimal.{number-itoa}

-- A decimal number in a range.
abbrev pub Between : ℕ → ℕ → Bytes → Type 0
Between lo hi out = (n : ℕ) × (number out ≡ some n) × (lo ≤ n) × (n ≤ hi)

-- The ends of a range that have numbers in the wrong order, or none: no other range is refused.
abbrev pub IsNoRange : List Bytes → Type 0
IsNoRange [] = Unit
IsNoRange (a ∷ []) = Unit
IsNoRange (a ∷ b ∷ []) =
    (atoi a ≡ none)
    ⊎ (atoi b ≡ none)
    ⊎ ((start : ℕ) × (end : ℕ) × (atoi a ≡ some (pos start))
        × (atoi b ≡ some (pos end))
        × (end < start))
IsNoRange (a ∷ b ∷ c ∷ parts) = Unit

-- How a field is filled: it has no question mark and stays, it is one and takes a value of the full
-- range, or it is a range with one and takes a value of that. A field with a question mark is refused
-- where it is no question mark alone and is not a range that ends in one.
abbrev pub Fills : ℕ → ℕ → Bytes → Option Bytes → Type 0
Fills min max field none =
    (has_question field ≡ true)
    × (bytes_eq field (question ∷ []) ≡ false)
    × ((trim_question field ≡ none)
        ⊎ ((base : Bytes) × (trim_question field ≡ some base) × IsNoRange (split dash base)))
Fills min max field (some out) =
    ((has_question field ≡ false) × (out ≡ field))
    ⊎ ((field ≡ question ∷ []) × Between min max out)
    ⊎ ((base : Bytes) × (trim_question field ≡ some base)
        × ((a : Bytes) × (b : Bytes) × (start : ℕ) × (end : ℕ) × (split dash base ≡ a ∷ b ∷ [])
            × (atoi a ≡ some (pos start))
            × (atoi b ≡ some (pos end))
            × Between start end out))

-- A text that does not begin with a dash.
abbrev IsUndashed : Bytes → Type 0
IsUndashed [] = Unit
IsUndashed (c ∷ s) = (c == dash) ≡ false

abbrev AreUndashed : List Bytes → Type 0
AreUndashed [] = Unit
AreUndashed (p ∷ ps) = IsUndashed p × AreUndashed ps

cons_first-AreUndashed :
    (c : ℕ) (ps : List Bytes) → (c == dash) ≡ false → AreUndashed ps → AreUndashed (cons_first c ps)
cons_first-AreUndashed c [] h k = (h, tt)
cons_first-AreUndashed c (p ∷ ps) h (k, ks) = (h, ks)

split-AreUndashed : (s : Bytes) → AreUndashed (split dash s)
split-AreUndashed [] = (tt, tt)
split-AreUndashed (c ∷ s) = elim (Bool-cases (c == dash)) [
  | inl e ↦ rw e (tt, split-AreUndashed s)
  | inr e ↦ rw e (cons_first-AreUndashed c (split dash s) e (split-AreUndashed s))
]

-- Atoi reads no negative number from such a text.
atoi-undashed : (s : Bytes) → IsUndashed s → (atoi s ≡ none) ⊎ ((n : ℕ) × (atoi s ≡ some (pos n)))
unfolding atoi
atoi-undashed [] h = inl refl
atoi-undashed (c ∷ s) h = elim (Option-cases (number (if c == 43 then s else c ∷ s))) [
  | inl e ↦ inl (ground arith)
  | inr (n, e) ↦ elim (Bool-cases (ltb 9_223_372_036_854_775_807 n)) [
    | inl big ↦ inl (ground arith)
    | inr small ↦ inr (n, ground arith)
  ]
]

module _ (hash : Bytes → ℕ → ℕ) (seed : Bytes) (at : ℕ) where
  random-Between : (lo hi : ℕ) → lo ≤ hi → Between lo hi (itoa (random_in_range hash seed at lo hi))
  unfolding random_in_range
  random-Between lo hi h = (
    random_in_range hash seed at lo hi,
    number-itoa (random_in_range hash seed at lo hi),
    omega arith,
    omega (arith, h, mod-lt (hash seed at) {m = hi - lo + 1} (omega arith)),
  )

  abbrev Ranged : List Bytes → Option Bytes → Type 0
  Ranged parts none = IsNoRange parts
  Ranged parts (some out) =
      (a : Bytes) × (b : Bytes) × (start : ℕ) × (end : ℕ) × (parts ≡ a ∷ b ∷ [])
      × (atoi a ≡ some (pos start))
      × (atoi b ≡ some (pos end))
      × Between start end out

  ends-Ranged :
      (a b : Bytes) (start end : ℕ)
      → atoi a ≡ some (pos start)
      → atoi b ≡ some (pos end)
      → Ranged (a ∷ b ∷ []) (expand_between hash seed at (some (pos start)) (some (pos end)))
  unfolding expand_between
  ends-Ranged a b start end p q = elim (Bool-cases (ltb end start)) [
    | inl e ↦ rw e (inr (inr (start, end, p, q, ltb→lt end start e)))
    | inr e ↦ rw e (a, b, start, end, refl, p, q, random-Between start end (ordered e))
  ]
    where
      ordered : ltb end start ≡ false → start ≤ end
      ordered e = ground arith

  between-Ranged :
      (a b : Bytes)
      → IsUndashed a
      → IsUndashed b
      → Ranged (a ∷ b ∷ []) (expand_between hash seed at (atoi a) (atoi b))
  unfolding expand_between
  between-Ranged a b h k = elim (atoi-undashed a h) [
    | inl p ↦ rw p (inl p)
    | inr (start, p) ↦ elim (atoi-undashed b k) [
      | inl q ↦ rw (p, q) (inr (inl q))
      | inr (end, q) ↦
          subst (λ x. Ranged (a ∷ b ∷ []) (expand_between hash seed at x (atoi b))) (sym p)
            (subst (λ y. Ranged (a ∷ b ∷ []) (expand_between hash seed at (some (pos start)) y))
              (sym q) (ends-Ranged a b start end p q))
    ]
  ]

  range-Ranged :
      (parts : List Bytes) → AreUndashed parts → Ranged parts (expand_range hash seed at parts)
  unfolding expand_range
  range-Ranged [] h = tt
  range-Ranged (a ∷ []) h = tt
  range-Ranged (a ∷ b ∷ []) (h, (k, l)) = between-Ranged a b h k
  range-Ranged (a ∷ b ∷ c ∷ parts) h = tt

  filled :
      (min max : ℕ) (field base : Bytes) (out : Option Bytes)
      → has_question field ≡ true
      → bytes_eq field (question ∷ []) ≡ false
      → trim_question field ≡ some base
      → Ranged (split dash base) out
      → Fills min max field out
  filled min max field base none q l t r = (q, l, inr (base, t, r))
  filled min max field base (some out) q l t r = inr (inr (base, t, r))

  -- A cron field without a question mark stays as it is; a lone question mark becomes a decimal
  -- number of the full range of the field, which is not empty; a range that ends in a question
  -- mark, both of whose ends Atoi reads as numbers that are not negative, becomes a decimal
  -- number of that range, where they are in order; every other field with a question mark is
  -- refused, and no field else.
  pub expand_field-Fills :
      (min max : ℕ) (field : Bytes)
      → min ≤ max
      → Fills min max field (expand_field hash seed at min max field)
  unfolding expand_field
  expand_field-Fills min max field h = elim (Bool-cases (has_question field)) [
    | inr q ↦ rw q (inl (q, refl))
    | inl q ↦ rw q (elim (Bool-cases (bytes_eq field (question ∷ []))) [
      | inl e ↦ rw e (inr (inl (eq_of_bytes_eq field (question ∷ []) e, random-Between min max h)))
      | inr e ↦ rw e (elim (Option-cases (trim_question field)) [
        | inl t ↦ rw t (q, e, inl t)
        | inr (base, t) ↦ rw t (
            filled min max field base (expand_range hash seed at (split dash base)) q e t
              (range-Ranged (split dash base) (split-AreUndashed base)))
      ])
    ])
  ]
