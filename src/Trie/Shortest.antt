-- ===== src/Trie/Shortest.antt =====
-- `ShortestMatch` of internal/trie/trie.go against the stored keys.
use allino.Base.{
  ℕ, ◌≡◌, refl, ap, sym, ◌∙◌, inl, inr, List, [], ◌∷◌, ◌++◌, Option, none, some, length, drop,
}
use allino.Base.Bytes.{Bytes}
use allino.Trie.{Trie, Forest, nil, child, shortest_in, shortest_match}
use allino.Trie.Prefix.{has_prefix-cases}
use allino.Trie.Inserts.{IsRadix}
use allino.Trie.Insert.{IsValid}
use allino.Trie.Lookup.{lookup_in, lookup, lookup_in-nil}
use allino.Trie.Match.{attach, held, entries, held_child, held_beside, held-none, held_ext}

-- The first entry of a list.
abbrev pub first {ℓ} : {A : Type ℓ} → List A → Option A
first [] = none
first (x ∷ l) = some x

module _ {ℓ} {T : Type ℓ} where
  value_or_below :
      (old : Option T) (k r : Bytes) (kids : Forest T) (l : List (T × Bytes))
      → shortest_in kids r k ≡ first l
      → (elim old [ some v ↦ some (v, k) | none ↦ shortest_in kids r k ]) ≡ first (attach old k l)
  value_or_below none k r kids l h = h
  value_or_below (some v) k r kids l h = refl

  shortest_child :
      (x : ℕ) (p : Bytes) (old : Option T) (kids rest : Forest T) (s m : Bytes)
      → IsRadix (child (x ∷ p) old kids rest)
      → ((r k : Bytes) → shortest_in kids r k ≡ first (held (λ j. lookup_in j kids) k r))
      → shortest_in rest s m ≡ first (held (λ j. lookup_in j rest) m s)
      → shortest_in (child (x ∷ p) old kids rest) s m
        ≡ first (held (λ j. lookup_in j (child (x ∷ p) old kids rest)) m s)
  unfolding shortest_in
  shortest_child x p old kids rest s m w below beside = elim (has_prefix-cases (x ∷ p) s) [
    | inl (r, e, t, d) ↦
        rw (t, shortest_in)
          (rw (held_child m x p s r old kids rest w e d) (
            value_or_below old (m ++ x ∷ p) (drop (length (x ∷ p)) s) kids
              (held (λ j. lookup_in j kids) (m ++ x ∷ p) (drop (length (x ∷ p)) s))
              (below (drop (length (x ∷ p)) s) (m ++ x ∷ p))))
    | inr (e, t) ↦ rw (t, shortest_in) (rw (held_beside m (x ∷ p) s old kids rest e) beside)
  ]

  shortest_nil : (s m : Bytes) → shortest_in {T = T} nil s m ≡ none
  unfolding shortest_in
  shortest_nil s m = refl

  shortest_in-held :
      (f : Forest T) (s m : Bytes)
      → IsRadix f
      → shortest_in f s m ≡ first (held (λ j. lookup_in j f) m s)
  shortest_in-held nil s m w =
      shortest_nil s m
      ∙ sym (ap first (held-none (λ j. lookup_in j nil) m s (λ c j. lookup_in-nil (c ∷ j))))
  shortest_in-held (child [] old kids rest) s m w = absurd w
  shortest_in-held (child (x ∷ p) old kids rest) s m w =
      shortest_child x p old kids rest s m w (λ r k. shortest_in-held kids r k w.1)
        (shortest_in-held rest s m w.2)

  -- ShortestMatch on a valid trie answers the first of the stored prefixes of the string,
  -- shortest first.
  pub shortest_match-entries :
      (t : Trie T) (s : Bytes) → IsValid t → shortest_match t s ≡ first (entries t s)
  unfolding shortest_match entries lookup
  shortest_match-entries t s w =
      value_or_below t.value [] s t.children (held (λ k. lookup k t) [] s)
        (shortest_in-held t.children s [] w.radix ∙ ap first (held_ext _ _ [] s (λ j c r e. refl)))
