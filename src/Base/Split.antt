-- ===== src/Base/Split.antt =====
-- Go's `strings.Split` and `strings.Join` with a separator of one byte.
use Prim.Native.Nat.{ℕ, suc, ◌+◌}
use mathlib.Core.Path.{◌≡◌, refl}
use mathlib.Core.List.{List, [], ◌∷◌, ◌++◌}
use native.Mathlib.Omega.{arith}
use allino.Base.Tests.{◌==◌, ==_refl, if◌then◌else◌}
use allino.Base.Lists.{length}
use allino.Base.Bytes.{Bytes}

abbrev pub cons_first : ℕ → List Bytes → List Bytes
cons_first c [] = (c ∷ []) ∷ []
cons_first c (p ∷ ps) = (c ∷ p) ∷ ps

abbrev pub split : ℕ → Bytes → List Bytes
split sep [] = [] ∷ []
split sep (c ∷ s) = let rest = split sep s in if c == sep then [] ∷ rest else cons_first c rest

abbrev pub join : ℕ → List Bytes → Bytes
join sep [] = []
join sep (p ∷ []) = p
join sep (p ∷ q ∷ ps) = p ++ sep ∷ join sep (q ∷ ps)

-- How often a byte stands in a string.
abbrev pub count_byte : ℕ → Bytes → ℕ
count_byte b [] = 0
count_byte b (c ∷ s) = let rest = count_byte b s in if c == b then suc rest else rest

pub count_byte-append :
    (b : ℕ) (xs ys : Bytes) → count_byte b (xs ++ ys) ≡ count_byte b xs + count_byte b ys
count_byte-append b [] ys = omega arith
count_byte-append b (x ∷ xs) ys = ground (arith, count_byte-append b xs ys)

length-cons_first :
    (c : ℕ) (ps : List Bytes) (n : ℕ) → length ps ≡ suc n → length (cons_first c ps) ≡ suc n
length-cons_first c [] n h = absurd (omega (arith, h))
length-cons_first c (p ∷ ps) n h = h

pub split-append :
    (sep : ℕ) (p s : Bytes) → count_byte sep p ≡ 0 → split sep (p ++ sep ∷ s) ≡ p ∷ split sep s
split-append sep [] s h = rw (==_refl sep) refl
split-append sep (c ∷ p) s h = ground (arith, split-append sep p s)

pub split_whole : (sep : ℕ) (p : Bytes) → count_byte sep p ≡ 0 → split sep p ≡ p ∷ []
split_whole sep [] h = refl
split_whole sep (c ∷ p) h = ground (arith, split_whole sep p)

pub length-split : (sep : ℕ) (s : Bytes) → length (split sep s) ≡ suc (count_byte sep s)
length-split sep [] = refl
length-split sep (c ∷ s) = ground (
  arith,
  length-split sep s,
  length-cons_first c (split sep s) (count_byte sep s) (length-split sep s),
)
