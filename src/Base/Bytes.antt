-- ===== src/Base/Bytes.antt =====
-- Go strings as lists of bytes: equality and prefixes.
use Prim.Native.Char.{code}
use Prim.Native.String.{String}
use Prim.Native.Nat.{ℕ}
use mathlib.Core.Path.{◌≡◌, refl, ap, sym, ◌∙◌}
use mathlib.Core.Logic.{◌↔◌}
use mathlib.Core.Bool.{Bool, true, false, ◌&&◌}
use mathlib.Core.List.{List, [], ◌∷◌, ◌++◌, append_assoc}
use mathlib.Core.Option.{Option, none, some}
use native.Mathlib.Omega.{arith}
use allino.Base.Tests.{◌==◌, ==_refl, if◌then◌else◌}

abbrev pub Bytes : Type 0
Bytes = List ℕ

-- The bytes of a literal in ASCII.
abbrev pub codes : String → Bytes
codes String.[] = []
codes (String.◌∷◌ c s) = code c ∷ codes s

abbrev pub bytes_eq : Bytes → Bytes → Bool
bytes_eq [] [] = true
bytes_eq [] (y ∷ b) = false
bytes_eq (x ∷ a) [] = false
bytes_eq (x ∷ a) (y ∷ b) = (x == y) && bytes_eq a b

pub bytes_eq_refl : (a : Bytes) → bytes_eq a a ≡ true
bytes_eq_refl [] = refl
bytes_eq_refl (x ∷ a) = rw (==_refl x) (bytes_eq_refl a)

pub eq_of_bytes_eq : (a b : Bytes) → bytes_eq a b ≡ true → a ≡ b
eq_of_bytes_eq [] [] h = refl
eq_of_bytes_eq [] (y ∷ b) h = cc
eq_of_bytes_eq (x ∷ a) [] h = cc
eq_of_bytes_eq (x ∷ a) (y ∷ b) h = ground (arith, eq_of_bytes_eq a b)

pub bytes_eq_comm : (a b : Bytes) → bytes_eq a b ≡ bytes_eq b a
bytes_eq_comm [] [] = refl
bytes_eq_comm [] (y ∷ b) = refl
bytes_eq_comm (x ∷ a) [] = refl
bytes_eq_comm (x ∷ a) (y ∷ b) = ground (arith, bytes_eq_comm a b)

pub bytes_eq_iff : (a b : Bytes) → (bytes_eq a b ≡ true) ↔ (a ≡ b)
bytes_eq_iff a b = (eq_of_bytes_eq a b, λ e. rw e (bytes_eq_refl b))

-- What is left of a text behind a prefix.
abbrev pub strip : Bytes → Bytes → Option Bytes
strip [] s = some s
strip (x ∷ p) [] = none
strip (x ∷ p) (y ∷ s) = if x == y then strip p s else none

pub strip-append : (p r : Bytes) → strip p (p ++ r) ≡ some r
strip-append [] r = refl
strip-append (x ∷ p) r = rw (==_refl x) (strip-append p r)

pub strip_self : (p : Bytes) → strip p p ≡ some []
strip_self [] = refl
strip_self (x ∷ p) = rw (==_refl x) (strip_self p)

pub eq_of_strip : (p s r : Bytes) → strip p s ≡ some r → s ≡ p ++ r
eq_of_strip [] s r h = ground arith
eq_of_strip (x ∷ p) [] r h = cc
eq_of_strip (x ∷ p) (y ∷ s) r h = ground (arith, eq_of_strip p s r)

-- A case split on what `strip` leaves.
abbrev pub under {ℓ} : {A : Type ℓ} → Option Bytes → A → (Bytes → A) → A
under none a f = a
under (some r) a f = f r

pub strip-under : (c b j : Bytes) → strip (c ++ b) j ≡ under (strip c j) none (strip b)
strip-under [] b j = refl
strip-under (x ∷ c) b [] = refl
strip-under (x ∷ c) b (y ∷ j) = ground (arith, strip-under c b j)

pub bytes_eq-under :
    (c a j : Bytes) → bytes_eq j (c ++ a) ≡ under (strip c j) false (λ r. bytes_eq r a)
bytes_eq-under [] a j = refl
bytes_eq-under (x ∷ c) a [] = refl
bytes_eq-under (x ∷ c) a (y ∷ j) = ground (arith, bytes_eq-under c a j)

pub bytes_eq-under_self :
    (c j : Bytes) → bytes_eq j c ≡ under (strip c j) false (λ r. bytes_eq r [])
bytes_eq-under_self [] j = refl
bytes_eq-under_self (x ∷ c) [] = refl
bytes_eq-under_self (x ∷ c) (y ∷ j) = ground (arith, bytes_eq-under_self c j)

pub strip_extend : (p j r q : Bytes) → strip p j ≡ some q → strip p (j ++ r) ≡ some (q ++ r)
strip_extend p j r q e = rw (eq_of_strip p j q e, append_assoc p q r) (strip-append p (q ++ r))

-- A text that differs from one of two equal texts differs from the other.
pub apart : (i j k : Bytes) → bytes_eq i j ≡ false → bytes_eq i k ≡ true → bytes_eq j k ≡ false
apart i j k e f = ap (bytes_eq j) (sym (eq_of_bytes_eq i k f)) ∙ bytes_eq_comm j i ∙ e
