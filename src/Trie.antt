-- ===== src/Trie.antt =====
-- internal/trie/trie.go: a radix tree over byte strings. A node's children are a `Forest`: each
-- entry is a child (its prefix, its value if it has one, its own children) and the entries behind
-- it. `hasValue` and `value` are one option. A result of `insert` carries the mutated nodes beside
-- the error. The lock only serialises the calls. The proofs are in the child modules.
pub mod Match
pub mod Prefix
pub mod Insert
pub mod Inserts
pub mod Lookup
pub mod Shortest
mod Tests
use allino.Base.{
  ℕ, ◌+◌, ◌==◌, Bool, true, false, ◌&&◌, [], ◌∷◌, ◌++◌, Option, none, some, if◌then◌else◌, ltb,
  length, take, drop,
}
use allino.Base.Bytes.{Bytes, bytes_eq}

pub data TrieError : Type 0 where
  empty_key not_found duplicate : TrieError

pub data Forest {ℓ} (T : Type ℓ) : Type ℓ where
  nil : Forest T
  child : Bytes → Option T → Forest T → Forest T → Forest T

-- The root has an empty prefix; nothing ever reads it.
pub record Trie {ℓ} (T : Type ℓ) : Type ℓ where
  pub value : Option T
  pub children : Forest T

unfoldable pub longest_common_prefix : Bytes → Bytes → ℕ
longest_common_prefix [] b = 0
longest_common_prefix (x ∷ a) [] = 0
longest_common_prefix (x ∷ a) (y ∷ b) = if x == y then 1 + longest_common_prefix a b else 0

unfoldable pub has_prefix : Bytes → Bytes → Bool
has_prefix s p = if ltb (length s) (length p) then false else bytes_eq (take (length p) s) p

module _ {ℓ} {T : Type ℓ} where
  unfoldable pub new_trie : Trie T
  new_trie = record { value = none; children = nil }

  -- The child that replaces one whose prefix the key leaves after `common` bytes.
  unfoldable pub split_node : ℕ → Bytes → T → Bytes → Option T → Forest T → Forest T → Forest T
  split_node common key v p old kids rest =
      let split = child (drop common p) old kids in
      if bytes_eq (drop common key) []
      then child (take common p) (some v) (split nil) rest
      else child (take common p) none (split (child (drop common key) (some v) nil nil)) rest

  -- An exact match.
  unfoldable pub set_value :
      T → Bytes → Option T → Forest T → Forest T → Forest T × Option TrieError
  set_value v p (some w) kids rest = (child p (some w) kids rest, some duplicate)
  set_value v p none kids rest = (child p (some v) kids rest, none)

  unfoldable pub insert_in : Bytes → T → Forest T → Forest T × Option TrieError
  unfolding set_value split_node
  insert_in key v nil = (child key (some v) nil nil, none)
  insert_in key v (child p old kids rest) =
      let common = longest_common_prefix key p in
      let next = insert_in key v rest in
      let below = insert_in (drop common key) v kids in
      if common == 0
      then (child p old kids next.0, next.1)
      else if common == length p && common == length key
      then set_value v p old kids rest
      else if common == length p
      then (child p old below.0 rest, below.1)
      else (split_node common key v p old kids rest, none)

  unfoldable pub insert : Bytes → T → Trie T → Trie T × Option TrieError
  insert key v t =
      if bytes_eq key []
      then (t, some empty_key)
      else let r = insert_in key v t.children in (record t { children = r.0 }, r.1)

  -- The callback of `MatchAll` takes and returns the variables that it writes.
  abbrev pub visit {κ} : {S : Type κ} → (T → Bytes → S → Bool × S) → Option T → Bytes → S → Bool × S
  visit fn none matched s = (false, s)
  visit fn (some v) matched s = fn v matched s

  -- The loop over the children of the node reached: `left` is left, `matched` is behind.
  unfoldable pub walk {κ} :
      {S : Type κ} → (T → Bytes → S → Bool × S) → Forest T → Bytes → Bytes → S → Bool × S
  walk fn nil left matched s = (false, s)
  walk fn (child p old kids rest) left matched s = elim (has_prefix left p) [
    | true ↦
        let (stop, s') = visit fn old (matched ++ p) s in
        elim stop [
          | true ↦ (true, s')
          | false ↦ walk fn kids (drop (length p) left) (matched ++ p) s'
        ]
    | false ↦ walk fn rest left matched s
  ]

  unfoldable pub match_all {κ} :
      {S : Type κ} → (T → Bytes → S → Bool × S) → Trie T → Bytes → S → Bool × S
  match_all fn t s st =
      let (stop, st') = visit fn t.value [] st in
      elim stop [ true ↦ (true, st') | false ↦ walk fn t.children s [] st' ]

  unfoldable pub shortest_in : Forest T → Bytes → Bytes → Option (T × Bytes)
  shortest_in nil left matched = none
  shortest_in (child p old kids rest) left matched = elim (has_prefix left p) [
    | true ↦ elim old [
      | some v ↦ some (v, matched ++ p)
      | none ↦ shortest_in kids (drop (length p) left) (matched ++ p)
    ]
    | false ↦ shortest_in rest left matched
  ]

  unfoldable pub shortest_match : Trie T → Bytes → Option (T × Bytes)
  shortest_match t s = elim t.value [ some v ↦ some (v, []) | none ↦ shortest_in t.children s [] ]
