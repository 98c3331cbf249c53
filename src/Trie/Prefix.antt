-- ===== src/Trie/Prefix.antt =====
-- The prefix tests of internal/trie/trie.go against decompositions of the texts.
use allino.Base.{
  ◌≡◌, ◌≢◌, refl, ap, ◌⊎◌, inl, inr, Bool, true, false, [], ◌∷◌, ◌++◌, Option, none, some, length,
  drop, arith, length-append, take-append, drop-append, Option-cases, dec_eq,
}
use allino.Base.Bytes.{Bytes, bytes_eq_refl, strip, eq_of_strip}
use allino.Trie.{longest_common_prefix, has_prefix}

-- Neither text is empty and they begin alike: that is excluded.
abbrev pub Diverge : Bytes → Bytes → Type 0
Diverge (x ∷ a) (y ∷ b) = x ≢ y
Diverge _ _ = Unit

pub record Common (key p : Bytes) : Type 0 where
  pub common : Bytes
  pub key_rest : Bytes
  pub p_rest : Bytes
  pub key_eq : key ≡ common ++ key_rest
  pub p_eq : p ≡ common ++ p_rest
  pub diverge : Diverge key_rest p_rest

pub split-Common : (key p : Bytes) → Common key p
split-Common [] p = record {
  common = [];
  key_rest = [];
  p_rest = p;
  key_eq = refl;
  p_eq = refl;
  diverge = tt;
}
split-Common (x ∷ key) [] = record {
  common = [];
  key_rest = x ∷ key;
  p_rest = [];
  key_eq = refl;
  p_eq = refl;
  diverge = tt;
}
split-Common (x ∷ key) (y ∷ p) = elim (dec_eq x y) [
  | yes e ↦
      let c = split-Common key p in
      record {
        common = x ∷ c.common;
        key_rest = c.key_rest;
        p_rest = c.p_rest;
        key_eq = ap (◌∷◌ x) c.key_eq;
        p_eq = cc (c.p_eq);
        diverge = c.diverge;
      }
  | no ne ↦ record {
    common = [];
    key_rest = x ∷ key;
    p_rest = y ∷ p;
    key_eq = refl;
    p_eq = refl;
    diverge = ne;
  }
]

longest_common_prefix-Diverge : (a b : Bytes) → Diverge a b → longest_common_prefix a b ≡ 0
unfolding longest_common_prefix
longest_common_prefix-Diverge [] b d = refl
longest_common_prefix-Diverge (x ∷ a) [] d = refl
longest_common_prefix-Diverge (x ∷ a) (y ∷ b) d = ground arith

pub longest_common_prefix-append :
    (c a b : Bytes) → Diverge a b → longest_common_prefix (c ++ a) (c ++ b) ≡ length c
unfolding longest_common_prefix
longest_common_prefix-append [] a b d = longest_common_prefix-Diverge a b d
longest_common_prefix-append (x ∷ c) a b d = ground (arith, longest_common_prefix-append c a b d)

pub longest_common_prefix-whole : (c a : Bytes) → longest_common_prefix (c ++ a) c ≡ length c
unfolding longest_common_prefix
longest_common_prefix-whole [] [] = refl
longest_common_prefix-whole [] (y ∷ a) = refl
longest_common_prefix-whole (x ∷ c) a = ground (arith, longest_common_prefix-whole c a)

pub longest_common_prefix_self : (c : Bytes) → longest_common_prefix c c ≡ length c
unfolding longest_common_prefix
longest_common_prefix_self [] = refl
longest_common_prefix_self (x ∷ c) = ground (arith, longest_common_prefix_self c)

pub drop-length : (c : Bytes) → drop (length c) c ≡ []
drop-length [] = refl
drop-length (x ∷ c) = drop-length c

has_prefix-append : (p r : Bytes) → has_prefix (p ++ r) p ≡ true
unfolding has_prefix
has_prefix-append p r = rw (take-append p r, bytes_eq_refl p) (ground (arith, length-append p r))

pub is_some {ℓ} : {A : Type ℓ} → Option A → Bool
is_some none = false
is_some (some _) = true

pub has_prefix-strip : (p s : Bytes) → has_prefix s p ≡ is_some (strip p s)
unfolding has_prefix is_some
has_prefix-strip [] s = ground arith
has_prefix-strip (x ∷ p) [] = ground arith
has_prefix-strip (x ∷ p) (y ∷ s) = unfold has_prefix is_some in ground (arith, has_prefix-strip p s)

-- The test of the code, with what it leaves.
pub has_prefix-cases :
    (p s : Bytes)
    → ((r : Bytes) × (strip p s ≡ some r) × (has_prefix s p ≡ true) × (drop (length p) s ≡ r))
      ⊎ ((strip p s ≡ none) × (has_prefix s p ≡ false))
unfolding is_some
has_prefix-cases p s = elim (Option-cases (strip p s)) [
  | inl e ↦ inr (e, rw (has_prefix-strip p s, e))
  | inr (r, e) ↦
      inl (r, e, rw (has_prefix-strip p s, e), rw (eq_of_strip p s r e) (drop-append p r))
]
