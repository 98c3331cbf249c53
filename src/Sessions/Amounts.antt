-- ===== src/Sessions/Amounts.antt =====
-- The counts of resources of session_manager.go as functions of the resource.
use allino.Base.{
  ℕ, ◌+◌, ◌-◌, ◌*◌, ◌≤◌, ◌≡◌, refl, ap, sym, ◌∙◌, Bool, true, false, [], ◌∷◌, if◌then◌else◌, ltb,
  Bool-cases, inl, inr, arith,
}
use allino.Base.Bytes.{Bytes, bytes_eq, bytes_eq_refl, apart, eq_of_bytes_eq}
use allino.Sessions.Store.{
  Amounts, amount, set_amount, Consumed, consume_full, consume_overflow, is_overflow, check_uses,
  add_uses, entry_free, entry_consume,
}

pub amount-set :
    (k j : Bytes) (n : ℕ) (m : Amounts)
    → amount k (set_amount j n m) ≡ (if bytes_eq j k then n else amount k m)
unfolding amount set_amount
amount-set k j n [] = refl
amount-set k j n ((i, o) ∷ m) = elim (Bool-cases (bytes_eq i j)) [
  | inl e ↦ rw e (rw (eq_of_bytes_eq i j e) (ground arith))
  | inr e ↦ rw e (elim (Bool-cases (bytes_eq i k)) [
    | inl f ↦ rw (f, apart i j k e f)
    | inr f ↦ rw (f) (amount-set k j n m)
  ])
]

-- What an entry uses of a resource.
unfoldable pub use_of : Bytes → Amounts → ℕ
use_of k [] = 0
use_of k ((j, n) ∷ us) = (if bytes_eq j k then n else 0) + use_of k us

pub amount-add :
    (k : Bytes) (uses m : Amounts) → amount k (add_uses uses m) ≡ amount k m + use_of k uses
unfolding add_uses use_of
amount-add k [] m = omega arith
amount-add k ((j, n) ∷ us) m = elim (Bool-cases (bytes_eq j k)) [
  | inl e ↦
      rw
        (
          amount-add k us (set_amount j (amount j m + n) m),
          amount-set k j (amount j m + n) m,
          e,
          eq_of_bytes_eq j k e,
        )
        (omega arith)
  | inr e ↦
      rw (amount-add k us (set_amount j (amount j m + n) m), amount-set k j (amount j m + n) m, e)
        (omega arith)
]

pub amount-free :
    (k : Bytes) (uses m : Amounts) → amount k (entry_free uses m) ≡ amount k m - use_of k uses
unfolding entry_free use_of
amount-free k [] m = omega arith
amount-free k ((j, n) ∷ us) m = elim (Bool-cases (bytes_eq j k)) [
  | inl e ↦
      rw
        (
          amount-free k us (set_amount j (amount j m - n) m),
          amount-set k j (amount j m - n) m,
          e,
          eq_of_bytes_eq j k e,
        )
        (omega arith)
  | inr e ↦
      rw (amount-free k us (set_amount j (amount j m - n) m), amount-set k j (amount j m - n) m, e)
        (omega arith)
]

-- Every resource once, as in a Go map.
abbrev pub has_resource : Bytes → Amounts → Bool
has_resource k [] = false
has_resource k ((j, n) ∷ us) = if bytes_eq j k then true else has_resource k us

abbrev pub IsMap : Amounts → Type 0
IsMap [] = Unit
IsMap ((k, n) ∷ us) = (has_resource k us ≡ false) × IsMap us

use_of-absent : (k : Bytes) (us : Amounts) → has_resource k us ≡ false → use_of k us ≡ 0
unfolding use_of
use_of-absent k [] h = refl
use_of-absent k ((j, n) ∷ us) h = ground (arith, use_of-absent k us)

-- A resource of a check that does not overflow, and the rest of the check.
check_parts :
    (b c : Bool) (r : Consumed)
    → is_overflow (
        if b
        then consume_overflow
        else if is_overflow r
        then consume_overflow
        else if c
        then consume_full
        else r)
      ≡ false
    → (b ≡ false) × (is_overflow r ≡ false)
check_parts b c r h = ground arith

-- Uses that do not overflow fit under the maximum.
pub check_uses-fits :
    (max consumed : Amounts) (uses : Amounts) (k : Bytes)
    → IsMap uses
    → is_overflow (check_uses max consumed uses) ≡ false
    → amount k consumed ≤ amount k max
    → amount k consumed + use_of k uses ≤ amount k max
unfolding check_uses use_of
check_uses-fits max consumed [] k m h le = omega arith
check_uses-fits max consumed ((j, n) ∷ us) k (new, m) h le =
    let (fits, rest) =
      check_parts (ltb (amount j max) (amount j consumed + n))
        (ltb (amount j max) (amount j consumed + n * 2)) (check_uses max consumed us) h in
    elim (Bool-cases (bytes_eq j k)) [
      | inl e ↦
          let same = eq_of_bytes_eq j k e in
          rw (e, use_of-absent k us (ap (λ t. has_resource t us) (sym same) ∙ new))
            (room k (ap (λ t. ltb (amount t max) (amount t consumed + n)) (sym same) ∙ fits))
      | inr e ↦ rw e (omega (arith, check_uses-fits max consumed us k m rest le))
    ]
  where
    room :
        (t : Bytes)
        → ltb (amount t max) (amount t consumed + n) ≡ false
        → amount t consumed + (n + 0) ≤ amount t max
    room t f = ground arith

abbrev pub is_full : Consumed → Bool
is_full consume_full = true
is_full _ = false

-- One resource of a second check against that of the first: `n` more are in use.
second_parts :
    (used n most : ℕ) (r r' : Consumed)
    → is_overflow (
        if ltb most (used + n)
        then consume_overflow
        else if is_overflow r
        then consume_overflow
        else if ltb most (used + n * 2)
        then consume_full
        else r)
      ≡ false
    → is_overflow r' ≡ is_full r
    → is_overflow (
        if ltb most (used + n + n)
        then consume_overflow
        else if is_overflow r'
        then consume_overflow
        else if ltb most (used + n + n * 2)
        then consume_full
        else r')
      ≡ is_full (
          if ltb most (used + n)
          then consume_overflow
          else if is_overflow r
          then consume_overflow
          else if ltb most (used + n * 2)
          then consume_full
          else r)
second_parts used n most r r' h k = ground arith

use_of-tail :
    (j k : Bytes) (n : ℕ) (us : Amounts)
    → has_resource j us ≡ false
    → has_resource k us ≡ true
    → bytes_eq j k ≡ false
use_of-tail j k n us h t = elim (Bool-cases (bytes_eq j k)) [
  | inl e ↦ cc (ap (λ i. has_resource i us) (eq_of_bytes_eq j k e))
  | inr e ↦ e
]

use_of-head :
    (j : Bytes) (n : ℕ) (us : Amounts) → has_resource j us ≡ false → use_of j ((j, n) ∷ us) ≡ n
unfolding use_of
use_of-head j n us h = rw (bytes_eq_refl j, use_of-absent j us h) (omega arith)

use_of-rest :
    (j k : Bytes) (n : ℕ) (us : Amounts)
    → bytes_eq j k ≡ false
    → use_of k ((j, n) ∷ us) ≡ use_of k us
unfolding use_of
use_of-rest j k n us h = rw h (omega arith)

has_head : (j : Bytes) (n : ℕ) (us : Amounts) → has_resource j ((j, n) ∷ us) ≡ true
has_head j n us = rw (bytes_eq_refl j)

has_rest :
    (j k : Bytes) (n : ℕ) (us : Amounts)
    → has_resource k us ≡ true
    → has_resource k ((j, n) ∷ us) ≡ true
has_rest j k n us h = ground arith

-- A check that says full is one whose uses, once consumed, do not fit again.
pub check_uses-again :
    (max c c' uses : Amounts)
    → IsMap uses
    → ((k : Bytes) → has_resource k uses ≡ true → amount k c' ≡ amount k c + use_of k uses)
    → is_overflow (check_uses max c uses) ≡ false
    → is_overflow (check_uses max c' uses) ≡ is_full (check_uses max c uses)
unfolding check_uses use_of
check_uses-again max c c' [] m used h = refl
check_uses-again max c c' ((j, n) ∷ us) (new, m) used h =
    let (_, rest) =
      check_parts (ltb (amount j max) (amount j c + n)) (ltb (amount j max) (amount j c + n * 2))
        (check_uses max c us) h in
    rw (head) (
      second_parts (amount j c) n (amount j max) (check_uses max c us) (check_uses max c' us) h
        (check_uses-again max c c' us m tail rest))
  where
    head : amount j c' ≡ amount j c + n
    head = used j (has_head j n us) ∙ ap (λ i. amount j c + i) (use_of-head j n us new)

    tail : (k : Bytes) → has_resource k us ≡ true → amount k c' ≡ amount k c + use_of k us
    tail k t =
        used k (has_rest j k n us t)
        ∙ ap (λ i. amount k c + i) (use_of-rest j k n us (use_of-tail j k n us new t))

pub consume_fits :
    (max uses c : Amounts) (r : Consumed)
    → check_uses max c uses ≡ r
    → is_overflow r ≡ false
    → entry_consume max uses c ≡ (r, add_uses uses c)
unfolding entry_consume
consume_fits max uses c r e o = rw (e, o)

pub consume_overflows :
    (max uses c : Amounts)
    → check_uses max c uses ≡ consume_overflow
    → entry_consume max uses c ≡ (consume_overflow, c)
unfolding entry_consume
consume_overflows max uses c e = rw e

consume-verdict : (max uses c : Amounts) → (entry_consume max uses c).0 ≡ check_uses max c uses
unfolding entry_consume
consume-verdict max uses c = elim (Bool-cases (is_overflow (check_uses max c uses))) [
  | inl e ↦ rw e
  | inr e ↦ rw e
]

-- Where the uses of an entry, each resource once, fit, entry_consume says full exactly where
-- the same uses would then not fit again.
pub entry_consume-again :
    (max uses c : Amounts)
    → IsMap uses
    → is_overflow (entry_consume max uses c).0 ≡ false
    → let (r, c') = entry_consume max uses c in
      is_overflow (entry_consume max uses c').0 ≡ is_full r
entry_consume-again max uses c m o =
    let fits = ap is_overflow (sym (consume-verdict max uses c)) ∙ o in
    ap (λ (p : Consumed × Amounts). is_overflow (entry_consume max uses p.1).0)
      (consume_fits max uses c (check_uses max c uses) refl fits)
    ∙ ap is_overflow (consume-verdict max uses (add_uses uses c))
    ∙ check_uses-again max c (add_uses uses c) uses m (λ k h. amount-add k uses c) fits
    ∙ ap is_full (sym (consume-verdict max uses c))
