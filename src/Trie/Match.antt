-- ===== src/Trie/Match.antt =====
-- `MatchAll` and `ShortestMatch` of internal/trie/trie.go against the stored keys.
use mathlib.Core.List.{cons-ne-nil}
use allino.Base.{
  ℕ, ◌≡◌, refl, ap, sym, ◌∙◌, inl, inr, Bool, true, false, List, [], ◌∷◌, ◌++◌, Option, none, some,
  subst, append_assoc, length, drop, Option-cases, Bool-cases,
}
use allino.Base.Bytes.{Bytes, strip, eq_of_strip, strip_extend}
use allino.Trie.{Trie, Forest, nil, child, visit, walk, match_all}
use allino.Trie.Prefix.{has_prefix-cases}
use allino.Trie.Inserts.{IsRadix}
use allino.Trie.Insert.{IsValid, free_above}
use allino.Trie.Lookup.{
  lookup_in, lookup, lookup_in-child, lookup_in-nil, lookup_in_self, lookup_in_below,
}

module _ {ℓ} {T : Type ℓ} where
  abbrev pub attach : Option T → Bytes → List (T × Bytes) → List (T × Bytes)
  attach none k l = l
  attach (some v) k l = (v, k) ∷ l

  -- The entries under the non-empty prefixes of a text, shortest first; `m` is put before each key.
  unfoldable pub held : (Bytes → Option T) → Bytes → Bytes → List (T × Bytes)
  held look m [] = []
  held look m (c ∷ s) =
      attach (look (c ∷ [])) (m ++ c ∷ []) (held (λ j. look (c ∷ j)) (m ++ c ∷ []) s)

  -- The stored entries whose key is a prefix of the text, shortest first.
  unfoldable pub entries : Trie T → Bytes → List (T × Bytes)
  entries t s = attach t.value [] (held (λ k. lookup k t) [] s)

  -- The callback is called on each entry in turn, until it answers true.
  unfoldable pub run_until {κ} :
      {S : Type κ} → (T → Bytes → S → Bool × S) → List (T × Bytes) → S → Bool × S
  run_until fn [] s = (false, s)
  run_until fn ((v, k) ∷ l) s =
      let (stop, s') = fn v k s in elim stop [ true ↦ (true, s') | false ↦ run_until fn l s' ]

  pub held_ext :
      (look look' : Bytes → Option T) (m s : Bytes)
      → ((j : Bytes) (c : ℕ) (r : Bytes) → s ≡ (c ∷ j) ++ r → look (c ∷ j) ≡ look' (c ∷ j))
      → held look m s ≡ held look' m s
  unfolding held
  held_ext look look' m [] h = refl
  held_ext look look' m (c ∷ s) h = rw (
    h [] c s refl,
    held_ext (λ j. look (c ∷ j)) (λ j. look' (c ∷ j)) (m ++ c ∷ []) s
        (λ j d r e. h (d ∷ j) c r (ap (◌∷◌ c) e)),
  )

  held_skip :
      (look : Bytes → Option T) (m : Bytes) (x : ℕ) (b r : Bytes)
      → ((j : Bytes) (c y : ℕ) (k : Bytes) → x ∷ b ≡ (c ∷ j) ++ y ∷ k → look (c ∷ j) ≡ none)
      → held look m (x ∷ b ++ r)
        ≡ attach (look (x ∷ b)) (m ++ x ∷ b) (held (λ j. look (x ∷ b ++ j)) (m ++ x ∷ b) r)
  unfolding held
  held_skip look m x [] r h = refl
  held_skip look m x (y ∷ b) r h = rw (
    h [] x y b refl,
    held_skip (λ j. look (x ∷ j)) (m ++ x ∷ []) y b r (λ j c z k e. h (c ∷ j) x z k (ap (◌∷◌ x) e)),
    append_assoc,
  )

  -- The keys below one child, and the rest where the child does not lead on.
  held_below :
      (m : Bytes) (x : ℕ) (p r : Bytes) (old : Option T) (kids rest : Forest T)
      → IsRadix (child (x ∷ p) old kids rest)
      → held (λ j. lookup_in j (child (x ∷ p) old kids rest)) m (x ∷ p ++ r)
        ≡ attach old (m ++ x ∷ p) (held (λ j. lookup_in j kids) (m ++ x ∷ p) r)
  held_below m x p r old kids rest w =
      held_skip (λ j. lookup_in j (child (x ∷ p) old kids rest)) m x p r
        (λ j c y k e. rw e (
          free_above (c ∷ j) k y old kids rest (cons-ne-nil c j)
            (subst (λ q. IsRadix (child q old kids rest)) e w)))
      ∙ rw (lookup_in_self (x ∷ p) old kids rest) (
          ap (attach old (m ++ x ∷ p))
            (held_ext _ _ (m ++ x ∷ p) r (λ j c q e. lookup_in_below (x ∷ p) j c old kids rest)))

  pub held_child :
      (m : Bytes) (x : ℕ) (p s r : Bytes) (old : Option T) (kids rest : Forest T)
      → IsRadix (child (x ∷ p) old kids rest)
      → strip (x ∷ p) s ≡ some r
      → drop (length (x ∷ p)) s ≡ r
      → held (λ j. lookup_in j (child (x ∷ p) old kids rest)) m s
        ≡ attach old
            (m ++ x ∷ p)
            (held (λ j. lookup_in j kids) (m ++ x ∷ p) (drop (length (x ∷ p)) s))
  held_child m x p s r old kids rest w e d =
      rw (d, eq_of_strip (x ∷ p) s r e) (held_below m x p r old kids rest w)

  pub held_beside :
      (m p s : Bytes) (old : Option T) (kids rest : Forest T)
      → strip p s ≡ none
      → held (λ j. lookup_in j (child p old kids rest)) m s ≡ held (λ j. lookup_in j rest) m s
  held_beside m p s old kids rest e = held_ext _ _ m s (λ j c r q.
      elim (Option-cases (strip p (c ∷ j))) [
        | inl e' ↦ rw (lookup_in-child (c ∷ j) p, e')
        | inr (t, e') ↦ cc (strip_extend p (c ∷ j) r t e')
      ])

  pub held-none :
      (look : Bytes → Option T) (m s : Bytes)
      → ((c : ℕ) (j : Bytes) → look (c ∷ j) ≡ none)
      → held look m s ≡ []
  unfolding held
  held-none look m [] h = refl
  held-none look m (c ∷ s) h =
      rw (h c [], held-none (λ j. look (c ∷ j)) (m ++ c ∷ []) s (λ d j. h c (d ∷ j)))

module _ {ℓ κ} {T : Type ℓ} {S : Type κ} (fn : T → Bytes → S → Bool × S) where
  visit_then :
      (old : Option T) (k r : Bytes) (kids : Forest T) (l : List (T × Bytes)) (st : S)
      → ((s : S) → walk fn kids r k s ≡ run_until fn l s)
      → (let (stop, s') = visit fn old k st in
          elim stop [ true ↦ (true, s') | false ↦ walk fn kids r k s' ])
        ≡ run_until fn (attach old k l) st
  unfolding run_until
  visit_then none k r kids l st h = h st
  visit_then (some v) k r kids l st h = elim (Bool-cases (fn v k st).0) [
    | inl e ↦ rw e
    | inr e ↦ rw e (h (fn v k st).1)
  ]

  walk_nil : (s m : Bytes) (st : S) → walk fn nil s m st ≡ (false, st)
  unfolding walk
  walk_nil s m st = refl

  run_nil : (st : S) → run_until fn [] st ≡ (false, st)
  unfolding run_until
  run_nil st = refl

  walk_child :
      (x : ℕ) (p : Bytes) (old : Option T) (kids rest : Forest T) (s m : Bytes) (st : S)
      → IsRadix (child (x ∷ p) old kids rest)
      → ((r k : Bytes) (s' : S)
          → walk fn kids r k s' ≡ run_until fn (held (λ j. lookup_in j kids) k r) s')
      → walk fn rest s m st ≡ run_until fn (held (λ j. lookup_in j rest) m s) st
      → walk fn (child (x ∷ p) old kids rest) s m st
        ≡ run_until fn (held (λ j. lookup_in j (child (x ∷ p) old kids rest)) m s) st
  unfolding walk
  walk_child x p old kids rest s m st w below beside = elim (has_prefix-cases (x ∷ p) s) [
    | inl (r, e, t, d) ↦
        rw (t, walk)
          (rw (held_child m x p s r old kids rest w e d) (
            visit_then old (m ++ x ∷ p) (drop (length (x ∷ p)) s) kids
              (held (λ j. lookup_in j kids) (m ++ x ∷ p) (drop (length (x ∷ p)) s)) st
              (below (drop (length (x ∷ p)) s) (m ++ x ∷ p))))
    | inr (e, t) ↦ rw (t, walk) (rw (held_beside m (x ∷ p) s old kids rest e) beside)
  ]

  walk-held :
      (f : Forest T) (s m : Bytes) (st : S)
      → IsRadix f
      → walk fn f s m st ≡ run_until fn (held (λ j. lookup_in j f) m s) st
  walk-held nil s m st w =
      walk_nil s m st
      ∙ rw (held-none (λ j. lookup_in j nil) m s (λ c j. lookup_in-nil (c ∷ j))) (sym (run_nil st))
  walk-held (child [] old kids rest) s m st w = absurd w
  walk-held (child (x ∷ p) old kids rest) s m st w =
      walk_child x p old kids rest s m st w (λ r k s'. walk-held kids r k s' w.1)
        (walk-held rest s m st w.2)

  -- MatchAll on a valid trie calls its callback with exactly the stored prefixes of the string
  -- and their values, shortest first, until the callback answers true.
  pub match_all-entries :
      (t : Trie T) (s : Bytes) (st : S)
      → IsValid t
      → match_all fn t s st ≡ run_until fn (entries t s) st
  unfolding match_all entries lookup
  match_all-entries t s st w = rw w.bare_root (
      walk-held t.children s [] st w.radix
      ∙ ap (λ l. run_until fn l st) (held_ext _ _ [] s (λ j c r e. refl)))
