-- ===== src/TimeWheel/Cyclic.antt =====
-- Slots of internal/timewheel/timewheel.go counted around the wheel.
use allino.Base.{
  ℕ, zero, suc, ◌+◌, ◌-◌, ◌*◌, ◌/◌, ◌%◌, ◌<◌, ◌≤◌, ◌≡◌, ◌≢◌, refl, ap, sym, ◌∙◌, ◌⊎◌, inl, inr,
  arith, List, [], ◌∷◌, length, get_or, set, dec_lt,
}
use native.Mathlib.Nat.{
  mod-lt, mod-eq_of_lt, suc-mod, mod_self, add-mod_right, mod-add-mod, add-mod-mod, mod-add-div',
  div-eq_of_lt-le, add-mul-div_right,
}

-- One tick more is one round more exactly where the wheel has come round.
pub suc-div :
    (k n : ℕ)
    → 0 < n
    → ((suc k % n ≡ 0) × (suc k / n ≡ suc (k / n))) ⊎ ((suc k % n ≢ 0) × (suc k / n ≡ k / n))
suc-div k n p = elim (dec_lt (suc (k % n)) n) [
  | yes l ↦
      let within : suc k / n ≡ k / n =
        div-eq_of_lt-le n (ground (arith, whole)) (ground (arith, whole)) in
      let left : suc k % n ≡ suc (k % n) = suc-mod k n ∙ mod-eq_of_lt l in
      inr (λ z. ground (arith, left), within)
  | no l ↦
      let last : suc (k % n) ≡ n = omega (arith, mod-lt k p) in
      let next : suc k / n ≡ suc (k / n) =
        div-eq_of_lt-le n (ground (arith, whole)) (ground (arith, whole)) in
      inl (suc-mod k n ∙ ap (λ r. r % n) last ∙ mod_self n, next)
]
  where
    whole : k % n + k / n * n ≡ k
    whole = mod-add-div' k n

-- From slot `c`, `m` steps lead back to it exactly where `m` is a number of rounds.
pub around : (c m n : ℕ) → c < n → (c + m) % n ≡ c → m % n ≡ 0
around c m n p e = elim (dec_lt (c + m % n) n) [
  | yes l ↦ omega (arith, sym (mod-eq_of_lt l) ∙ add-mod-mod c m n ∙ e)
  | no l ↦
      let back : c + m % n ≡ (c + m % n - n) + n = omega arith in
      let less : c + m % n - n < n = omega (arith, wrap) in
      let cut : c + m % n - n ≡ c =
        sym (mod-eq_of_lt less)
        ∙ sym (add-mod_right (c + m % n - n) n)
        ∙ ap (λ r. r % n) (sym back)
        ∙ add-mod-mod c m n
        ∙ e in
      absurd (omega (arith, wrap))
]
  where
    wrap : m % n < n
    wrap = mod-lt m (omega arith)

pub same_slot : (c j k n : ℕ) → 0 < n → j ≤ k → (c + j) % n ≡ (c + k) % n → j / n ≡ k / n → j ≡ k
same_slot c j k n p l e d =
    let m = k - j in
    let split : k ≡ j + m = omega arith in
    let rounds : m % n ≡ 0 =
      around ((c + j) % n) m n (mod-lt (c + j) p)
        (mod-add-mod (c + j) n m ∙ ap (λ r. r % n) (omega arith) ∙ sym e) in
    let whole : m / n * n ≡ m = omega (arith, mod-add-div' m n) in
    let more : k / n ≡ j / n + m / n =
      ap (λ r. r / n) (omega (arith, whole)) ∙ add-mul-div_right j (m / n) p in
    omega (arith, whole, ap (λ r. r * n) (none_more more))
  where
    none_more : k / n ≡ j / n + (k - j) / n → (k - j) / n ≡ 0
    none_more h = omega arith

module _ {ℓ} {A : Type ℓ} where
  pub get_or-set : (xs : List A) (i : ℕ) (v d : A) → i < length xs → get_or (set xs i v) i d ≡ v
  get_or-set [] i v d l = absurd (omega (arith, l))
  get_or-set (x ∷ xs) zero v d l = refl
  get_or-set (x ∷ xs) (suc i) v d l = get_or-set xs i v d (omega (arith, l))

  pub get_or-set_other :
      (xs : List A) (i j : ℕ) (v d : A) → i ≢ j → get_or (set xs i v) j d ≡ get_or xs j d
  get_or-set_other [] i j v d ne = refl
  get_or-set_other (x ∷ xs) zero zero v d ne = absurd (ne refl)
  get_or-set_other (x ∷ xs) zero (suc j) v d ne = refl
  get_or-set_other (x ∷ xs) (suc i) zero v d ne = refl
  get_or-set_other (x ∷ xs) (suc i) (suc j) v d ne =
      get_or-set_other xs i j v d (λ e. ne (ap suc e))
