-- ===== src/Binding/Integers.antt =====
-- The integers that setByReflect of serve_request.go stores.
use allino.Base.{
  ℕ, zero, suc, ◌+◌, ◌-◌, ◌*◌, ◌/◌, ◌%◌, ◌^◌, ◌≤◌, ◌<◌, ◌≡◌, refl, ap, ◌∙◌, [], ◌∷◌, ◌++◌, some,
  ltb, Bool-cases, inl, inr, arith,
}
use native.Mathlib.Nat.{mod-lt, mod-eq_of_lt, two-pow-succ, one-le-pow, mod-add-div}
use allino.Base.Bytes.{Bytes}
use allino.Base.Int.{ℤ, pos, negsuc, pos_part, neg_part}
use allino.JobIds.{digits, number, atoi}
use allino.Cron.{itoa, digits_of}
use allino.Cron.Decimal.{digits-itoa}
use allino.Binding.Values.{
  int_type, int_value, Slot, Readers, signed, wrap_int, set_int, set_by_reflect,
}

-- The integers of some bits.
abbrev pub InRange : ℕ → ℤ → Type 0
InRange w (pos n) = n < 2 ^ (w - 1)
InRange w (negsuc n) = n < 2 ^ (w - 1)

-- How an integer is written.
abbrev pub decimal : ℤ → Bytes
decimal (pos n) = itoa n
decimal (negsuc n) = 45 ∷ itoa (suc n)

abbrev IsDigit : ℕ → Type 0
IsDigit c = (48 ≤ c) × (c ≤ 57)

-- A text begins with a digit.
abbrev StartsDigit : Bytes → Type 0
StartsDigit [] = ⊥
StartsDigit (c ∷ s) = IsDigit c

starts-append : (s t : Bytes) → StartsDigit s → StartsDigit (s ++ t)
starts-append [] t h = elim h [ ]
starts-append (c ∷ s) t h = h

digits_of-StartsDigit : (fuel n : ℕ) → StartsDigit (digits_of fuel n)
unfolding digits_of
digits_of-StartsDigit zero n = (omega arith, omega (arith, mod-lt n {m = 10} (omega arith)))
digits_of-StartsDigit (suc fuel) n = elim (Bool-cases (ltb n 10)) [
  | inl e ↦ rw e (omega arith, ground arith)
  | inr e ↦ rw e (
      starts-append (digits_of fuel (n / 10)) ((48 + n % 10) ∷ [])
        (digits_of-StartsDigit fuel (n / 10)))
]

atoi-digits :
    (s : Bytes) (n : ℕ)
    → StartsDigit s
    → digits 0 s ≡ some n
    → n < 9_223_372_036_854_775_808
    → atoi s ≡ some (pos n)
unfolding atoi number
atoi-digits [] n h e small = elim h [ ]
atoi-digits (c ∷ s) n (h, k) e small = ground arith

atoi-minus :
    (s : Bytes) (n : ℕ)
    → StartsDigit s
    → digits 0 s ≡ some (suc n)
    → n < 9_223_372_036_854_775_808
    → atoi (45 ∷ s) ≡ some (negsuc n)
unfolding atoi number
atoi-minus [] n h e small = elim h [ ]
atoi-minus (c ∷ s) n h e small = ground arith

atoi-decimal : (z : ℤ) → InRange 64 z → atoi (decimal z) ≡ some z
unfolding itoa
atoi-decimal (pos n) h =
    atoi-digits (itoa n) n (digits_of-StartsDigit n n) (digits-itoa n) (omega (arith, h))
atoi-decimal (negsuc n) h =
    atoi-minus (itoa (suc n)) n (digits_of-StartsDigit (suc n) (suc n)) (digits-itoa (suc n))
      (omega (arith, h))

double : (w : ℕ) → 0 < w → 2 ^ w ≡ 2 ^ (w - 1) + 2 ^ (w - 1)
double zero h = omega (arith, h)
double (suc w) h = two-pow-succ w ∙ ap (λ k. 2 ^ k + 2 ^ k) {x = w} {y = suc w - 1} (omega arith)

signed-InRange : (w u : ℕ) → 0 < w → u < 2 ^ w → InRange w (signed w u)
signed-InRange w u h small = elim (Bool-cases (ltb u (2 ^ (w - 1)))) [
  | inl e ↦ rw e (ground arith)
  | inr e ↦ rw e (ground (arith, double w h))
]

wrap_int-InRange : (w : ℕ) (z : ℤ) → 0 < w → InRange w (wrap_int w z)
unfolding wrap_int
wrap_int-InRange w (pos n) h =
    signed-InRange w (n % 2 ^ w) h (mod-lt n {m = 2 ^ w} (one-le-pow w 2 (omega arith)))
wrap_int-InRange w (negsuc n) h =
    signed-InRange w (2 ^ w - n % 2 ^ w - 1) h (omega (arith, one-le-pow w 2 (omega arith)))

signed-negative : (w n : ℕ) → 0 < w → n < 2 ^ (w - 1) → signed w (2 ^ w - n - 1) ≡ negsuc n
signed-negative w n h small = ground (arith, double w h)

wrap_int_small : (w : ℕ) (z : ℤ) → 0 < w → InRange w z → wrap_int w z ≡ z
unfolding wrap_int
wrap_int_small w (pos n) h small =
    ap (signed w) (mod-eq_of_lt {n = n} {m = 2 ^ w} (omega (arith, double w h, small)))
    ∙ ground arith
wrap_int_small w (negsuc n) h small =
    ap (λ k. signed w (2 ^ w - k - 1))
      (mod-eq_of_lt {n = n} {m = 2 ^ w} (omega (arith, double w h, small)))
    ∙ signed-negative w n h small

-- Two integers differ by a multiple of a number.
abbrev pub Congruent : ℕ → ℤ → ℤ → Type 0
Congruent m y z =
    (a : ℕ) × (b : ℕ) × (pos_part y + neg_part z + m * a ≡ pos_part z + neg_part y + m * b)

multiple : (m q : ℕ) → m * (q + 1) ≡ m * q + m
multiple m q = grind arith

pos-Congruent : (w n : ℕ) → 0 < w → Congruent (2 ^ w) (signed w (n % 2 ^ w)) (pos n)
pos-Congruent w n h = elim (Bool-cases (ltb (n % 2 ^ w) (2 ^ (w - 1)))) [
  | inl e ↦ rw e (n / 2 ^ w, 0, omega (arith, mod-add-div n (2 ^ w)))
  | inr e ↦ rw e (
    n / 2 ^ w + 1,
    0,
    omega (
      arith,
      mod-add-div n (2 ^ w),
      multiple (2 ^ w) (n / 2 ^ w),
      mod-lt n {m = 2 ^ w} (one-le-pow w 2 (omega arith)),
    ),
  )
]

negsuc-Congruent :
    (w n : ℕ) → 0 < w → Congruent (2 ^ w) (signed w (2 ^ w - n % 2 ^ w - 1)) (negsuc n)
negsuc-Congruent w n h = elim (Bool-cases (ltb (2 ^ w - n % 2 ^ w - 1) (2 ^ (w - 1)))) [
  | inl e ↦ rw e (
    0,
    n / 2 ^ w + 1,
    omega (
      arith,
      mod-add-div n (2 ^ w),
      multiple (2 ^ w) (n / 2 ^ w),
      mod-lt n {m = 2 ^ w} (one-le-pow w 2 (omega arith)),
    ),
  )
  | inr e ↦ rw e (
    0,
    n / 2 ^ w,
    omega (arith, mod-add-div n (2 ^ w), mod-lt n {m = 2 ^ w} (one-le-pow w 2 (omega arith))),
  )
]

wrap_int-Congruent : (w : ℕ) (z : ℤ) → 0 < w → Congruent (2 ^ w) (wrap_int w z) z
unfolding wrap_int
wrap_int-Congruent w (pos n) h = pos-Congruent w n h
wrap_int-Congruent w (negsuc n) h = negsuc-Congruent w n h

module _ {X : Type 0} (r : Readers X) where
  -- A field of a signed type of any positive number of bits that gets the decimal text of an
  -- integer of 64 bits holds an integer of that type that differs from the one of the text by a
  -- multiple of 2 to that number of bits, and is the very one where that is in the range of the
  -- type.
  pub set_by_reflect-integer :
      (w : ℕ) (z : ℤ) (v : Slot X)
      → 0 < w
      → InRange 64 z
      → (m : ℤ) × (set_by_reflect r (decimal z) (int_type w) v ≡ some (int_value m))
        × InRange w m
        × Congruent (2 ^ w) m z
        × (InRange w z → m ≡ z)
  unfolding set_by_reflect set_int
  set_by_reflect-integer w z v h z64 = (
    wrap_int w z,
    rw (atoi-decimal z z64) refl,
    wrap_int-InRange w z h,
    wrap_int-Congruent w z h,
    wrap_int_small w z h,
  )
