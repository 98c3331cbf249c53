-- ===== src/Trie/Lookup.antt =====
-- The trie as a map from keys to values, and what `insert` of internal/trie/trie.go does to it.
use mathlib.Core.List.{cons-ne-nil}
use allino.Base.{
  ℕ, ◌≡◌, ◌≢◌, refl, inl, inr, [], ◌∷◌, ◌++◌, Option, none, some, if◌then◌else◌, arith,
  Option-cases,
}
use allino.Base.Bytes.{
  Bytes, bytes_eq, strip, strip-append, strip_self, eq_of_strip, strip-under, bytes_eq-under,
  bytes_eq-under_self, under,
}
use allino.Trie.{Trie, Forest, nil, child, TrieError}
use allino.Trie.Inserts.{
  Avoids, IsRadix, Inserts, leaf, skip, taken, fill, descend, split_at, split_off,
}

module _ {ℓ} {T : Type ℓ} where
  abbrev pub pick : Bytes → Option T → Option T → Option T
  pick [] here below = here
  pick (x ∷ r) here below = below

  -- The value stored under a non-empty key.
  unfoldable pub lookup_in : Bytes → Forest T → Option T
  lookup_in j nil = none
  lookup_in j (child p old kids rest) =
      under (strip p j) (lookup_in j rest) (λ r. pick r old (lookup_in r kids))

  pub lookup_in-child :
      (j p : Bytes) (old : Option T) (kids rest : Forest T)
      → lookup_in j (child p old kids rest)
        ≡ under (strip p j) (lookup_in j rest) (λ r. pick r old (lookup_in r kids))
  unfolding lookup_in
  lookup_in-child j p old kids rest = refl

  pub lookup_in-nil : (j : Bytes) → lookup_in j nil ≡ none
  unfolding lookup_in
  lookup_in-nil j = refl

  unfoldable pub lookup : Bytes → Trie T → Option T
  lookup j t = pick j t.value (lookup_in j t.children)

  pub lookup_in_skip :
      (x y : ℕ) (j p : Bytes) (old : Option T) (kids rest : Forest T)
      → x ≢ y
      → lookup_in (x ∷ j) (child (y ∷ p) old kids rest) ≡ lookup_in (x ∷ j) rest
  unfolding lookup_in
  lookup_in_skip x y j p old kids rest ne = ground arith

  pub lookup_in_self :
      (p : Bytes) (old : Option T) (kids rest : Forest T)
      → lookup_in p (child p old kids rest) ≡ old
  lookup_in_self p old kids rest = rw (lookup_in-child p p, strip_self p)

  pub lookup_in_below :
      (p a : Bytes) (y : ℕ) (old : Option T) (kids rest : Forest T)
      → lookup_in (p ++ y ∷ a) (child p old kids rest) ≡ lookup_in (y ∷ a) kids
  lookup_in_below p a y old kids rest = rw (lookup_in-child (p ++ y ∷ a) p, strip-append p (y ∷ a))

  pub lookup_in-Avoids :
      (x : ℕ) (j : Bytes) (f : Forest T) → Avoids x f → lookup_in (x ∷ j) f ≡ none
  unfolding lookup_in
  lookup_in-Avoids x j nil a = refl
  lookup_in-Avoids x j (child [] old kids rest) a = absurd a
  lookup_in-Avoids x j (child (y ∷ p) old kids rest) a =
      ground (arith, lookup_in-Avoids x j rest a.1)

  abbrev pub Writes : T → Bytes → Forest T → Forest T → Bytes → Type ℓ
  Writes v key f f' j = lookup_in j f' ≡ (if bytes_eq j key then some v else lookup_in j f)

  leaf-Writes : (v : T) (key j : Bytes) → Writes v key nil (child key (some v) nil nil) j
  leaf-Writes v key j = elim (Option-cases (strip key j)) [
    | inl e ↦ rw (lookup_in-child j key, lookup_in-nil, bytes_eq-under_self key j, e)
    | inr ([], e) ↦ rw (lookup_in-child j key, lookup_in-nil, bytes_eq-under_self key j, e)
    | inr (x ∷ r, e) ↦
        rw (lookup_in-child j key, lookup_in-nil j, bytes_eq-under_self key j, e)
          (lookup_in-nil (x ∷ r))
  ]

  skip-Writes :
      (v : T) (x y : ℕ) (key p : Bytes) (old : Option T) (kids rest rest' : Forest T) (j : Bytes)
      → x ≢ y
      → Writes v (x ∷ key) rest rest' j
      → Writes v (x ∷ key) (child (y ∷ p) old kids rest) (child (y ∷ p) old kids rest') j
  unfolding lookup_in
  skip-Writes v x y key p old kids rest rest' [] ne h = h
  skip-Writes v x y key p old kids rest rest' (z ∷ j) ne h = ground arith

  fill-Writes :
      (v : T) (p : Bytes) (kids rest : Forest T) (j : Bytes)
      → Writes v p (child p none kids rest) (child p (some v) kids rest) j
  fill-Writes v p kids rest j = elim (Option-cases (strip p j)) [
    | inl e ↦ simp (lookup_in-child j p, bytes_eq-under_self p j, e)
    | inr ([], e) ↦ simp (lookup_in-child j p, bytes_eq-under_self p j, e)
    | inr (x ∷ r, e) ↦ simp (lookup_in-child j p, bytes_eq-under_self p j, e)
  ]

  descend-Writes :
      (v : T) (p a : Bytes) (y : ℕ) (old : Option T) (kids kids' rest : Forest T) (j : Bytes)
      → ((r : Bytes) → Writes v (y ∷ a) kids kids' r)
      → Writes v (p ++ y ∷ a) (child p old kids rest) (child p old kids' rest) j
  descend-Writes v p a y old kids kids' rest j h = elim (Option-cases (strip p j)) [
    | inl e ↦ simp (lookup_in-child j p, bytes_eq-under p (y ∷ a) j, e)
    | inr ([], e) ↦ simp (lookup_in-child j p, bytes_eq-under p (y ∷ a) j, e)
    | inr (x ∷ r, e) ↦ simp (lookup_in-child j p, bytes_eq-under p (y ∷ a) j, e) (h (x ∷ r))
  ]

  -- Below a prefix that siblings avoid, a key that the child does not hold is nowhere.
  pub missing :
      (x : ℕ) (c r j : Bytes) (rest : Forest T)
      → Avoids x rest
      → strip (x ∷ c) j ≡ some r
      → lookup_in j rest ≡ none
  missing x c r j rest a e = rw (eq_of_strip (x ∷ c) j r e) (lookup_in-Avoids x (c ++ r) rest a)

  -- The two children of a split.
  fork :
      (v : T) (y z w : ℕ) (a b r : Bytes) (old : Option T) (kids : Forest T)
      → y ≢ z
      → lookup_in (w ∷ r) (child (z ∷ b) old kids (child (y ∷ a) (some v) nil nil)) ≡ (
          if bytes_eq (w ∷ r) (y ∷ a)
          then some v
          else under (strip (z ∷ b) (w ∷ r)) none (λ q. pick q old (lookup_in q kids)))
  fork v y z w a b r old kids ne =
      rw (lookup_in-child (w ∷ r) (z ∷ b), leaf-Writes v (y ∷ a) (w ∷ r), lookup_in-nil (w ∷ r))
        (ground arith)

  split_at-Writes :
      (v : T) (x z : ℕ) (c b : Bytes) (old : Option T) (kids rest : Forest T) (j : Bytes)
      → Avoids x rest
      → Writes v
          (x ∷ c)
          (child (x ∷ c ++ z ∷ b) old kids rest)
          (child (x ∷ c) (some v) (child (z ∷ b) old kids nil) rest)
          j
  split_at-Writes v x z c b old kids rest j a = elim (Option-cases (strip (x ∷ c) j)) [
    | inl e ↦ rw (
      lookup_in-child j (x ∷ c),
      lookup_in-child j (x ∷ c ++ z ∷ b),
      e,
      strip-under (x ∷ c) (z ∷ b) j,
      bytes_eq-under_self (x ∷ c) j,
      e,
    )
    | inr ([], e) ↦ rw (
      lookup_in-child j (x ∷ c),
      lookup_in-child j (x ∷ c ++ z ∷ b),
      e,
      strip-under (x ∷ c) (z ∷ b) j,
      bytes_eq-under_self (x ∷ c) j,
      e,
    )
    | inr (y ∷ r, e) ↦
        rw
          (
            lookup_in-child j (x ∷ c),
            lookup_in-child j (x ∷ c ++ z ∷ b),
            e,
            strip-under (x ∷ c) (z ∷ b) j,
            bytes_eq-under_self (x ∷ c) j,
            e,
          )
          (rw (
            missing x c (y ∷ r) j rest a e,
            lookup_in-child (y ∷ r) (z ∷ b),
            lookup_in-nil (y ∷ r),
          ))
  ]

  split_off-Writes :
      (v : T) (x y z : ℕ) (c a b : Bytes) (old : Option T) (kids rest : Forest T) (j : Bytes)
      → y ≢ z
      → Avoids x rest
      → Writes v
          (x ∷ c ++ y ∷ a)
          (child (x ∷ c ++ z ∷ b) old kids rest)
          (child (x ∷ c) none (child (z ∷ b) old kids (child (y ∷ a) (some v) nil nil)) rest)
          j
  split_off-Writes v x y z c a b old kids rest j ne av = elim (Option-cases (strip (x ∷ c) j)) [
    | inl e ↦ rw (
      lookup_in-child j (x ∷ c),
      lookup_in-child j (x ∷ c ++ z ∷ b),
      strip-under (x ∷ c) (z ∷ b) j,
      bytes_eq-under (x ∷ c) (y ∷ a) j,
      e,
    )
    | inr ([], e) ↦
        rw
          (
            lookup_in-child j (x ∷ c),
            lookup_in-child j (x ∷ c ++ z ∷ b),
            strip-under (x ∷ c) (z ∷ b) j,
            bytes_eq-under (x ∷ c) (y ∷ a) j,
            e,
          )
          (rw (missing x c [] j rest av e))
    | inr (w ∷ r, e) ↦
        rw
          (
            lookup_in-child j (x ∷ c),
            lookup_in-child j (x ∷ c ++ z ∷ b),
            strip-under (x ∷ c) (z ∷ b) j,
            bytes_eq-under (x ∷ c) (y ∷ a) j,
            e,
          )
          (rw (missing x c (w ∷ r) j rest av e) (fork v y z w a b r old kids ne))
  ]

  pub IsRadix-kids :
      (p : Bytes) (old : Option T) (kids rest : Forest T)
      → IsRadix (child p old kids rest)
      → IsRadix kids
  IsRadix-kids [] old kids rest w = absurd w
  IsRadix-kids (x ∷ p) old kids rest w = w.1

  split_at_key :
      (v : T) (key b : Bytes) (z : ℕ) (old : Option T) (kids rest : Forest T) (j : Bytes)
      → key ≢ []
      → IsRadix (child (key ++ z ∷ b) old kids rest)
      → Writes v key
          (child (key ++ z ∷ b) old kids rest)
          (child key (some v) (child (z ∷ b) old kids nil) rest)
          j
  split_at_key v [] b z old kids rest j h w = absurd (h refl)
  split_at_key v (x ∷ c) b z old kids rest j h w = split_at-Writes v x z c b old kids rest j w.0

  pub Inserts-Writes :
      (v : T) {key : Bytes} {f f' : Forest T} {e : Option TrieError}
      → Inserts v key f f' e
      → IsRadix f
      → key ≢ []
      → e ≡ none
      → (j : Bytes) → Writes v key f f' j
  Inserts-Writes v (leaf {key}) w h ok j = leaf-Writes v key j
  Inserts-Writes v (skip {x} {y} {key} {p} {old} {kids} {rest} {rest'} ne i) w h ok j =
      skip-Writes v x y key p old kids rest rest' j ne (Inserts-Writes v i w.2 h ok j)
  Inserts-Writes v (taken eq) w h ok j = cc
  Inserts-Writes v (fill {key} {p} {kids} {rest} eq) w h ok j = rw eq (fill-Writes v p kids rest j)
  Inserts-Writes v (descend {key} {p} {a} {y} {old} {kids} {kids'} {rest} eq i) w h ok j = rw eq (
      descend-Writes v p a y old kids kids' rest j
        (λ r. Inserts-Writes v i (IsRadix-kids p old kids rest w) (cons-ne-nil y a) ok r))
  Inserts-Writes v (split_at {key} {p} {b} {z} {old} {kids} {rest} eq) w h ok j =
      rw eq (split_at_key v key b z old kids rest j h (rw eq at w))
  Inserts-Writes v (split_off {key} {p} {c} {a} {b} {x} {y} {z} {old} {kids} {rest} eq eq' ne) w h
        ok j =
      rw (eq, eq')
        (split_off-Writes v x y z c a b old kids rest j ne
          (let w' : IsRadix (child (x ∷ c ++ z ∷ b) old kids rest) = rw eq' at w in w'.0))
