-- ===== src/Trie/Inserts.antt =====
-- `insert` of internal/trie/trie.go as a relation: one constructor for each way it goes.
use allino.Base.{
  ℕ, suc, ◌≡◌, ◌≢◌, refl, [], ◌∷◌, ◌++◌, Option, none, some, length, arith, length-append,
  take-append, drop-append, append-nil,
}
use mathlib.Core.List.{cons-ne-nil}
use allino.Base.Bytes.{Bytes}
use allino.Trie.{
  Forest, nil, child, TrieError, duplicate, insert_in, set_value, split_node, longest_common_prefix,
}
use allino.Trie.Prefix.{
  Diverge, Common, split-Common, longest_common_prefix-append, longest_common_prefix_self,
  drop-length, longest_common_prefix-whole,
}

module _ {ℓ} {T : Type ℓ} where
  -- No entry begins with the byte.
  abbrev pub Avoids : ℕ → Forest T → Type 0
  Avoids x nil = Unit
  Avoids x (child [] old kids rest) = ⊥
  Avoids x (child (y ∷ p) old kids rest) = (x ≢ y) × Avoids x rest

  -- Every prefix below the root is non-empty, and siblings begin with different bytes.
  abbrev pub IsRadix : Forest T → Type 0
  IsRadix nil = Unit
  IsRadix (child [] old kids rest) = ⊥
  IsRadix (child (x ∷ p) old kids rest) = Avoids x rest × IsRadix kids × IsRadix rest

  pub data Inserts (v : T) : Bytes → Forest T → Forest T → Option TrieError → Type ℓ where
    leaf : {key : Bytes} → Inserts v key nil (child key (some v) nil nil) none
    skip :
        {x y : ℕ} {key p : Bytes} {old : Option T} {kids rest rest' : Forest T}
        {e : Option TrieError}
        → x ≢ y
        → Inserts v (x ∷ key) rest rest' e
        → Inserts v (x ∷ key) (child (y ∷ p) old kids rest) (child (y ∷ p) old kids rest') e
    taken :
        {key p : Bytes} {w : T} {kids rest : Forest T}
        → key ≡ p
        → Inserts v key (child p (some w) kids rest) (child p (some w) kids rest) (some duplicate)
    fill :
        {key p : Bytes} {kids rest : Forest T}
        → key ≡ p
        → Inserts v key (child p none kids rest) (child p (some v) kids rest) none
    descend :
        {key p a : Bytes} {y : ℕ} {old : Option T} {kids kids' rest : Forest T}
        {e : Option TrieError}
        → key ≡ p ++ y ∷ a
        → Inserts v (y ∷ a) kids kids' e
        → Inserts v key (child p old kids rest) (child p old kids' rest) e
    split_at :
        {key p b : Bytes} {z : ℕ} {old : Option T} {kids rest : Forest T}
        → p ≡ key ++ z ∷ b
        → Inserts v key
            (child p old kids rest)
            (child key (some v) (child (z ∷ b) old kids nil) rest)
            none
    split_off :
        {key p c a b : Bytes} {x y z : ℕ} {old : Option T} {kids rest : Forest T}
        → key ≡ x ∷ c ++ y ∷ a
        → p ≡ x ∷ c ++ z ∷ b
        → y ≢ z
        → Inserts v key
            (child p old kids rest)
            (child (x ∷ c) none (child (z ∷ b) old kids (child (y ∷ a) (some v) nil nil)) rest)
            none

  abbrev Result : T → Bytes → Forest T → Forest T × Option TrieError → Type ℓ
  Result v key f r = Inserts v key f r.0 r.1

  set_value-Inserts :
      (v : T) (p : Bytes) (old : Option T) (kids rest : Forest T)
      → Result v p (child p old kids rest) (set_value v p old kids rest)
  unfolding set_value
  set_value-Inserts v p (some w) kids rest = taken refl
  set_value-Inserts v p none kids rest = fill refl

  skip_step :
      (v : T) (x y : ℕ) (key p : Bytes) (old : Option T) (kids rest : Forest T)
      → x ≢ y
      → insert_in (x ∷ key) v (child (y ∷ p) old kids rest)
        ≡ (child (y ∷ p) old kids (insert_in (x ∷ key) v rest).0, (insert_in (x ∷ key) v rest).1)
  unfolding insert_in longest_common_prefix
  skip_step v x y key p old kids rest h = ground arith

  exact_step :
      (v : T) (x : ℕ) (c : Bytes) (old : Option T) (kids rest : Forest T)
      → insert_in (x ∷ c) v (child (x ∷ c) old kids rest) ≡ set_value v (x ∷ c) old kids rest
  unfolding insert_in longest_common_prefix
  exact_step v x c old kids rest = rw (longest_common_prefix_self (x ∷ c)) (ground arith)

  descend_step :
      (v : T) (x y : ℕ) (c a : Bytes) (old : Option T) (kids rest : Forest T)
      → insert_in (x ∷ c ++ y ∷ a) v (child (x ∷ c) old kids rest)
        ≡ (child (x ∷ c) old (insert_in (y ∷ a) v kids).0 rest, (insert_in (y ∷ a) v kids).1)
  unfolding insert_in
  descend_step v x y c a old kids rest =
      rw (longest_common_prefix-whole (x ∷ c) (y ∷ a), drop-append c (y ∷ a))
        (ground (arith, length-append c (y ∷ a)))

  split_step :
      (v : T) (x z : ℕ) (c a b : Bytes) (old : Option T) (kids rest : Forest T)
      → Diverge a (z ∷ b)
      → insert_in (x ∷ c ++ a) v (child (x ∷ c ++ z ∷ b) old kids rest)
        ≡ (split_node (suc (length c)) (x ∷ c ++ a) v (x ∷ c ++ z ∷ b) old kids rest, none)
  unfolding insert_in
  split_step v x z c a b old kids rest d =
      rw (longest_common_prefix-append (x ∷ c) a (z ∷ b) d)
        (ground (arith, length-append c (z ∷ b)))

  split_node-Inserts :
      (v : T) (x z : ℕ) (c a b : Bytes) (old : Option T) (kids rest : Forest T)
      → Diverge a (z ∷ b)
      → Inserts v
          (x ∷ c ++ a)
          (child (x ∷ c ++ z ∷ b) old kids rest)
          (split_node (suc (length c)) (x ∷ c ++ a) v (x ∷ c ++ z ∷ b) old kids rest)
          none
  unfolding split_node
  split_node-Inserts v x z c [] b old kids rest d =
      rw (append-nil c, take-append c (z ∷ b), drop-append c (z ∷ b))
        (rw (drop-length c) (split_at refl))
  split_node-Inserts v x z c (y ∷ a) b old kids rest d =
      rw (take-append c (z ∷ b), drop-append c (z ∷ b), drop-append c (y ∷ a))
        (split_off refl refl d)

  by_parts :
      (v : T) (c a b : Bytes) (old : Option T) (kids rest : Forest T)
      → Diverge a b
      → c ++ a ≢ []
      → c ++ b ≢ []
      → ((a : Bytes) (z : ℕ) → Result v (z ∷ a) kids (insert_in (z ∷ a) v kids))
      → Result v (c ++ a) rest (insert_in (c ++ a) v rest)
      → Result v
          (c ++ a)
          (child (c ++ b) old kids rest)
          (insert_in (c ++ a) v (child (c ++ b) old kids rest))
  by_parts v [] [] b old kids rest d ha hb below next = absurd (ha refl)
  by_parts v [] (x ∷ a) [] old kids rest d ha hb below next = absurd (hb refl)
  by_parts v [] (x ∷ a) (y ∷ b) old kids rest d ha hb below next =
      rw (skip_step v x y a b old kids rest d) (skip d next)
  by_parts v (x ∷ c) [] [] old kids rest d ha hb below next =
      rw (append-nil c, exact_step v x c old kids rest) (set_value-Inserts v (x ∷ c) old kids rest)
  by_parts v (x ∷ c) (y ∷ a) [] old kids rest d ha hb below next =
      rw (append-nil c, descend_step v x y c a old kids rest) (descend refl (below a y))
  by_parts v (x ∷ c) a (z ∷ b) old kids rest d ha hb below next =
      rw (split_step v x z c a b old kids rest d) (split_node-Inserts v x z c a b old kids rest d)

  insert_child-Inserts :
      (v : T) (key p : Bytes) (old : Option T) (kids rest : Forest T)
      → key ≢ []
      → p ≢ []
      → ((a : Bytes) (z : ℕ) → Result v (z ∷ a) kids (insert_in (z ∷ a) v kids))
      → Result v key rest (insert_in key v rest)
      → Common key p
      → Result v key (child p old kids rest) (insert_in key v (child p old kids rest))
  insert_child-Inserts v key p old kids rest hk hp below next c =
      rw (c.key_eq, c.p_eq)
        (by_parts v c.common c.key_rest c.p_rest old kids rest c.diverge (rw c.key_eq at hk)
          (rw c.p_eq at hp) below (rw c.key_eq at next))

  -- The code goes one of the ways of the relation.
  pub insert_in-Inserts :
      (v : T) (x : ℕ) (key : Bytes) (f : Forest T)
      → IsRadix f
      → Inserts v (x ∷ key) f (insert_in (x ∷ key) v f).0 (insert_in (x ∷ key) v f).1
  insert_in-Inserts v x key nil w = unfold insert_in in leaf
  insert_in-Inserts v x key (child [] old kids rest) w = absurd w
  insert_in-Inserts v x key (child (y ∷ p) old kids rest) w =
      insert_child-Inserts v (x ∷ key) (y ∷ p) old kids rest (cons-ne-nil x key) (cons-ne-nil y p)
        (λ a z. insert_in-Inserts v z a kids w.1) (insert_in-Inserts v x key rest w.2)
        (split-Common (x ∷ key) (y ∷ p))
