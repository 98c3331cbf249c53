-- ===== src/Cron/Decimal.antt =====
-- Decimal numbers, written by randcron.go and read back.
use allino.Base.{
  ℕ, zero, suc, ◌+◌, ◌-◌, ◌*◌, ◌/◌, ◌%◌, ◌≤◌, ◌<◌, ◌≡◌, refl, ap, ◌∙◌, true, ◌&&◌, [], ◌∷◌, ◌++◌,
  Option, none, some, if◌then◌else◌, ltb, leb, ltb→lt, Bool-cases, inl, inr, arith,
}
use allino.Base.Bytes.{Bytes}
use allino.JobIds.{digits, number}
use allino.Cron.{digits_of, itoa}

-- One digit more.
abbrev and_digit : Option ℕ → ℕ → Option ℕ
and_digit none c = none
and_digit (some m) c = if leb 48 c && leb c 57 then some (m * 10 + (c - 48)) else none

digits-snoc : (n : ℕ) (s : Bytes) (c : ℕ) → digits n (s ++ c ∷ []) ≡ and_digit (digits n s) c
unfolding digits
digits-snoc n [] c = refl
digits-snoc n (d ∷ s) c = elim (Bool-cases (leb 48 d && leb d 57)) [
  | inl e ↦ rw e (digits-snoc (n * 10 + (d - 48)) s c)
  | inr e ↦ rw e refl
]

digit_in : (n : ℕ) → n < 10 → (leb 48 (48 + n) && leb (48 + n) 57) ≡ true
digit_in n h = ground arith

last_digit : (n m : ℕ) → m < 10 → and_digit (some n) (48 + m) ≡ some (n * 10 + m)
last_digit n m h = rw (digit_in m h) (ap some (omega arith))

digits-digits_of : (fuel n : ℕ) → n ≤ fuel → digits 0 (digits_of fuel n) ≡ some n
unfolding digits digits_of
digits-digits_of zero n h = rw (digit_in (n % 10) (omega arith)) (ap some (omega (arith, h)))
digits-digits_of (suc fuel) n h = elim (Bool-cases (ltb n 10)) [
  | inl e ↦ rw e (rw (digit_in n (ltb→lt n 10 e)) (ap some (omega arith)))
  | inr e ↦ rw e (
      digits-snoc 0 (digits_of fuel (n / 10)) (48 + n % 10)
      ∙ ap (λ o. and_digit o (48 + n % 10)) (digits-digits_of fuel (n / 10) (omega (arith, h)))
      ∙ last_digit (n / 10) (n % 10) (omega arith)
      ∙ ap some (omega arith))
]

pub digits-itoa : (n : ℕ) → digits 0 (itoa n) ≡ some n
unfolding itoa
digits-itoa n = digits-digits_of n n (omega arith)

snoc_written : (s : Bytes) (c : ℕ) → number (s ++ c ∷ []) ≡ digits 0 (s ++ c ∷ [])
unfolding number
snoc_written [] c = refl
snoc_written (d ∷ s) c = refl

digits_of_written : (fuel n : ℕ) → number (digits_of fuel n) ≡ digits 0 (digits_of fuel n)
unfolding digits_of
digits_of_written zero n = snoc_written [] (48 + n % 10)
digits_of_written (suc fuel) n = elim (Bool-cases (ltb n 10)) [
  | inl e ↦ rw e (snoc_written [] (48 + n))
  | inr e ↦ rw e (snoc_written (digits_of fuel (n / 10)) (48 + n % 10))
]

pub number-itoa : (n : ℕ) → number (itoa n) ≡ some n
unfolding itoa
number-itoa n = digits_of_written n n ∙ digits-digits_of n n (omega arith)
