-- ===== src/Trie/Insert.antt =====
-- `Insert` of internal/trie/trie.go: the shape it keeps, and what it does to the stored keys.
use mathlib.Core.List.{cons-ne-nil}
use allino.Base.{
  ℕ, ◌≡◌, ◌≢◌, refl, ap, sym, ◌⊎◌, inl, inr, [], ◌∷◌, ◌++◌, Option, none, some, if◌then◌else◌,
  arith, ◌∙◌,
}
use allino.Base.Bytes.{Bytes, bytes_eq, strip-append, strip_self, strip-under}
use allino.Trie.{Trie, Forest, nil, child, TrieError, duplicate, insert_in, insert, new_trie}
use allino.Trie.Inserts.{
  Avoids, IsRadix, Inserts, leaf, skip, taken, fill, descend, split_at, split_off,
  insert_in-Inserts,
}
use allino.Trie.Lookup.{
  lookup_in, lookup, pick, lookup_in-child, lookup_in-nil, lookup_in-Avoids, Inserts-Writes,
  IsRadix-kids, lookup_in_skip, lookup_in_self, lookup_in_below,
}

module _ {ℓ} {T : Type ℓ} where
  -- What `NewTrie` builds and `Insert` keeps.
  pub record IsValid (t : Trie T) : Type ℓ where
    pub bare_root : t.value ≡ none
    pub radix : IsRadix t.children

  Avoids-swap :
      (z : ℕ) (p : Bytes) (old new : Option T) (kids kids' rest : Forest T)
      → Avoids z (child p old kids rest)
      → Avoids z (child p new kids' rest)
  Avoids-swap z [] old new kids kids' rest a = absurd a
  Avoids-swap z (y ∷ p) old new kids kids' rest a = a

  Inserts-Avoids :
      (v : T) (z : ℕ) {x : ℕ} {k key : Bytes} {f f' : Forest T} {e : Option TrieError}
      → Inserts v key f f' e
      → key ≡ x ∷ k
      → z ≢ x
      → Avoids z f
      → Avoids z f'
  Inserts-Avoids v z (leaf {key}) eq ne a = rw eq (ne, tt)
  Inserts-Avoids v z (skip xy i) eq ne a = (a.0, Inserts-Avoids v z i eq ne a.1)
  Inserts-Avoids v z (taken q) eq ne a = a
  Inserts-Avoids v z (fill {key} {p} q) eq ne a = Avoids-swap z p _ _ _ _ _ a
  Inserts-Avoids v z (descend {key} {p} q i) eq ne a = Avoids-swap z p _ _ _ _ _ a
  Inserts-Avoids v z (split_at {key} {p} q) eq ne a = rw eq (rw (q, eq) at a)
  Inserts-Avoids v z (split_off {key} {p} q q' yz) eq ne a = rw q' at a

  IsRadix-swap :
      (p : Bytes) (old new : Option T) (kids kids' rest : Forest T)
      → IsRadix (child p old kids rest)
      → IsRadix kids'
      → IsRadix (child p new kids' rest)
  IsRadix-swap [] old new kids kids' rest w w' = absurd w
  IsRadix-swap (x ∷ p) old new kids kids' rest w w' = (w.0, w', w.2)

  IsRadix-leaf : (key : Bytes) (v : T) → key ≢ [] → IsRadix (child key (some v) nil nil)
  IsRadix-leaf [] v h = absurd (h refl)
  IsRadix-leaf (x ∷ key) v h = (tt, tt, tt)

  IsRadix-split :
      (key b : Bytes) (z : ℕ) (v : T) (old : Option T) (kids rest : Forest T)
      → key ≢ []
      → IsRadix (child (key ++ z ∷ b) old kids rest)
      → IsRadix (child key (some v) (child (z ∷ b) old kids nil) rest)
  IsRadix-split [] b z v old kids rest h w = absurd (h refl)
  IsRadix-split (x ∷ key) b z v old kids rest h w = (w.0, (tt, w.1, tt), w.2)

  IsRadix-fork :
      (x y z : ℕ) (c a b : Bytes) (v : T) (old : Option T) (kids rest : Forest T)
      → y ≢ z
      → IsRadix (child (x ∷ c ++ z ∷ b) old kids rest)
      → IsRadix (child (x ∷ c) none (child (z ∷ b) old kids (child (y ∷ a) (some v) nil nil)) rest)
  IsRadix-fork x y z c a b v old kids rest ne w =
      (w.0, ((λ e. ne (sym e), tt), w.1, (tt, tt, tt)), w.2)

  pub Inserts-IsRadix :
      (v : T) {key : Bytes} {f f' : Forest T} {e : Option TrieError}
      → Inserts v key f f' e
      → key ≢ []
      → IsRadix f
      → IsRadix f'
  Inserts-IsRadix v (leaf {key}) h w = IsRadix-leaf key v h
  Inserts-IsRadix v (skip xy i) h w =
      (Inserts-Avoids v _ i refl (λ e. xy (sym e)) w.0, w.1, Inserts-IsRadix v i h w.2)
  Inserts-IsRadix v (taken q) h w = w
  Inserts-IsRadix v (fill {key} {p} {kids} {rest} q) h w =
      IsRadix-swap p none (some v) kids kids rest w (IsRadix-kids p none kids rest w)
  Inserts-IsRadix v (descend {key} {p} {a} {y} {old} {kids} {kids'} {rest} q i) h w =
      IsRadix-swap p old old kids kids' rest w
        (Inserts-IsRadix v i (cons-ne-nil y a) (IsRadix-kids p old kids rest w))
  Inserts-IsRadix v (split_at {key} {p} {b} {z} {old} {kids} {rest} q) h w =
      IsRadix-split key b z v old kids rest h (rw q at w)
  Inserts-IsRadix v (split_off {key} {p} {c} {a} {b} {x} {y} {z} {old} {kids} {rest} q q' yz) h w =
      IsRadix-fork x y z c a b v old kids rest yz (rw q' at w)

  -- An error is a duplicate, which changes nothing; otherwise the key was free.
  abbrev Status : Bytes → Forest T → Forest T → Option TrieError → Type ℓ
  Status key f f' e =
      ((e ≡ none) × (lookup_in key f ≡ none))
      ⊎ ((w : T) × (e ≡ some duplicate) × (f' ≡ f) × (lookup_in key f ≡ some w))

  Status_inside :
      (key key' : Bytes) {f f' : Forest T} {e : Option TrieError} (around : Forest T → Forest T)
      → lookup_in key' (around f) ≡ lookup_in key f
      → Status key f f' e
      → Status key' (around f) (around f') e
  Status_inside key key' around same (inl (ok, free)) = inl (ok, same ∙ free)
  Status_inside key key' around same (inr (w, dup, kept, held)) =
      inr (w, dup, ap around kept, same ∙ held)

  pub free_above :
      (key b : Bytes) (z : ℕ) (old : Option T) (kids rest : Forest T)
      → key ≢ []
      → IsRadix (child (key ++ z ∷ b) old kids rest)
      → lookup_in key (child (key ++ z ∷ b) old kids rest) ≡ none
  free_above [] b z old kids rest h w = absurd (h refl)
  free_above (x ∷ key) b z old kids rest h w =
      rw
        (
          lookup_in-child (x ∷ key) (x ∷ key ++ z ∷ b),
          strip-under (x ∷ key) (z ∷ b) (x ∷ key),
          strip_self (x ∷ key),
        )
        (lookup_in-Avoids x key rest w.0)

  free_beside :
      (x y z : ℕ) (c a b : Bytes) (old : Option T) (kids rest : Forest T)
      → y ≢ z
      → IsRadix (child (x ∷ c ++ z ∷ b) old kids rest)
      → lookup_in (x ∷ c ++ y ∷ a) (child (x ∷ c ++ z ∷ b) old kids rest) ≡ none
  free_beside x y z c a b old kids rest ne w =
      rw
        (
          lookup_in-child (x ∷ c ++ y ∷ a) (x ∷ c ++ z ∷ b),
          strip-under (x ∷ c) (z ∷ b) (x ∷ c ++ y ∷ a),
          strip-append (x ∷ c) (y ∷ a),
        )
        (ground (arith, lookup_in-Avoids x (c ++ y ∷ a) rest w.0))

  pub Inserts-Status :
      (v : T) {key : Bytes} {f f' : Forest T} {e : Option TrieError}
      → Inserts v key f f' e
      → key ≢ []
      → IsRadix f
      → Status key f f' e
  Inserts-Status v (leaf {key}) h w = inl (refl, lookup_in-nil key)
  Inserts-Status v (skip {x} {y} {key} {p} {old} {kids} {rest} xy i) h w =
      Status_inside (x ∷ key) (x ∷ key) (child (y ∷ p) old kids)
        (lookup_in_skip x y key p old kids rest xy) (Inserts-Status v i h w.2)
  Inserts-Status v (taken {key} {p} {w} {kids} {rest} q) h r =
      inr (w, refl, refl, rw q (lookup_in_self p (some w) kids rest))
  Inserts-Status v (fill {key} {p} {kids} {rest} q) h w =
      inl (refl, rw q (lookup_in_self p none kids rest))
  Inserts-Status v (descend {key} {p} {a} {y} {old} {kids} {kids'} {rest} q i) h w =
      Status_inside (y ∷ a) key (λ k. child p old k rest)
        (rw q (lookup_in_below p a y old kids rest))
        (Inserts-Status v i (cons-ne-nil y a) (IsRadix-kids p old kids rest w))
  Inserts-Status v (split_at {key} {p} {b} {z} {old} {kids} {rest} q) h w =
      inl (refl, rw q (free_above key b z old kids rest h (rw q at w)))
  Inserts-Status v (split_off {key} {p} {c} {a} {b} {x} {y} {z} {old} {kids} {rest} q q' yz) h w =
      inl (refl, rw (q, q') (free_beside x y z c a b old kids rest yz (rw q' at w)))

  -- Insert keeps a trie valid, whatever the key and the outcome.
  pub insert-IsValid : (key : Bytes) (v : T) (t : Trie T) → IsValid t → IsValid (insert key v t).0
  unfolding insert
  insert-IsValid [] v t w = w
  insert-IsValid (x ∷ key) v t w = record {
    bare_root = w.bare_root;
    radix =
        Inserts-IsRadix v (insert_in-Inserts v x key t.children w.radix) (cons-ne-nil x key)
          w.radix;
  }

  pub new_trie-IsValid : IsValid (new_trie {T = T})
  unfolding new_trie
  new_trie-IsValid = record { bare_root = refl; radix = tt }

  -- Inserting a key that is not empty and not stored into a valid trie gives no error, stores
  -- the value under the key and leaves every other key as it was.
  pub insert-lookup :
      (key : Bytes) (v : T) (t : Trie T)
      → IsValid t
      → key ≢ []
      → lookup key t ≡ none
      → ((insert key v t).1 ≡ none)
        × ((j : Bytes)
            → lookup j (insert key v t).0 ≡ (if bytes_eq j key then some v else lookup j t))
  unfolding insert lookup
  insert-lookup [] v t w h free = absurd (h refl)
  insert-lookup (x ∷ key) v t w h free = (ok, λ j. stored j)
    where
      went :
          Inserts v
            (x ∷ key)
            t.children
            (insert_in (x ∷ key) v t.children).0
            (insert_in (x ∷ key) v t.children).1
      went = insert_in-Inserts v x key t.children w.radix

      ok : (insert_in (x ∷ key) v t.children).1 ≡ none
      ok = elim (Inserts-Status v went h w.radix) [ inl (e, _) ↦ e | inr (u, _, _, held) ↦ cc ]

      stored :
          (j : Bytes)
          → pick j t.value (lookup_in j (insert_in (x ∷ key) v t.children).0)
            ≡ (if bytes_eq j (x ∷ key) then some v else pick j t.value (lookup_in j t.children))
      stored [] = refl
      stored (y ∷ j) = Inserts-Writes v went w.radix h ok (y ∷ j)

  -- Insert of a key that is not empty and is stored already, into a valid trie, answers the
  -- duplicate error and changes nothing.
  pub insert_refused :
      (key : Bytes) (v w : T) (t : Trie T)
      → IsValid t
      → key ≢ []
      → lookup key t ≡ some w
      → insert key v t ≡ (t, some duplicate)
  unfolding insert lookup
  insert_refused [] v w t valid h held = absurd (h refl)
  insert_refused (x ∷ key) v w t valid h held =
      elim (Inserts-Status v (insert_in-Inserts v x key t.children valid.radix) h valid.radix) [
        | inl (_, free) ↦ cc
        | inr (u, dup, kept, _) ↦ rw (kept, dup)
      ]
