-- ===== src/Revoker/Verdict.antt =====
-- The answer of `IsRevoked` (ext/revoker/revoker.go) as a search through the revocations stored.
use allino.Base.{
  ℕ, ◌≡◌, refl, ap, sym, ◌∙◌, inl, inr, arith, Bool, true, false, List, [], ◌∷◌, ◌++◌, map, none,
  some, if◌then◌else◌, Bool-cases, Option-cases,
}
use allino.Base.Bytes.{Bytes}
use allino.Trie.Insert.{IsValid}
use allino.Trie.Match.{entries, run_until, match_all-entries}
use allino.Revoker.{
  RevokeSet, RevokeMap, RevokeBucket, Revoker, get, covers, is_revoked_exact, check,
  is_revoked_prefix, is_revoked,
}

-- Every bucket's trie is valid.
abbrev pub AreValid : List RevokeBucket → Type 0
AreValid [] = Unit
AreValid (b ∷ bs) = IsValid b.trie × AreValid bs

abbrev pub values : List (RevokeSet × Bytes) → List RevokeSet
values l = map (λ e. e.0) l

-- The revocations that concern a scope: of the scope itself, newest map first, then of its prefixes,
-- newest bucket first and shortest prefix first.
unfoldable pub exact_candidates : Bytes → List RevokeMap → List RevokeSet
exact_candidates scope [] = []
exact_candidates scope (m ∷ ms) = elim (get scope m.kvs) [
  | none ↦ exact_candidates scope ms
  | some v ↦ v ∷ exact_candidates scope ms
]

unfoldable pub prefix_candidates : Bytes → List RevokeBucket → List RevokeSet
prefix_candidates scope [] = []
prefix_candidates scope (b ∷ bs) = values (entries b.trie scope) ++ prefix_candidates scope bs

unfoldable pub candidates : Bytes → Revoker → List RevokeSet
unfolding exact_candidates prefix_candidates
candidates scope r = exact_candidates scope r.maps ++ prefix_candidates scope r.buckets

-- The first revocation that is not older than the token decides.
unfoldable pub verdict : ℕ → List RevokeSet → Bool × Bytes
verdict issued [] = (false, [])
verdict issued (v ∷ vs) =
    let rest = verdict issued vs in if covers issued v then (true, v.reason) else rest

-- A search through two lists.
verdict-append :
    (issued : ℕ) (xs ys : List RevokeSet)
    → verdict issued (xs ++ ys)
      ≡ elim (verdict issued xs).0 [ true ↦ verdict issued xs | false ↦ verdict issued ys ]
unfolding verdict
verdict-append issued [] ys = refl
verdict-append issued (v ∷ vs) ys = ground (arith, verdict-append issued vs ys)

exact-verdict :
    (scope : Bytes) (issued : ℕ) (ms : List RevokeMap)
    → is_revoked_exact scope issued ms ≡ verdict issued (exact_candidates scope ms)
unfolding is_revoked_exact verdict exact_candidates
exact-verdict scope issued [] = refl
exact-verdict scope issued (m ∷ ms) = elim (Option-cases (get scope m.kvs)) [
  | inl e ↦ rw (is_revoked_exact, exact_candidates, e) (exact-verdict scope issued ms)
  | inr (v, e) ↦
      rw (is_revoked_exact, exact_candidates, e) (rw (exact-verdict scope issued ms) refl)
]

run_until-step :
    (issued : ℕ) (v : RevokeSet) (k : Bytes) (l : List (RevokeSet × Bytes)) (s : Bool × Bytes)
    → run_until (check issued) ((v, k) ∷ l) s
      ≡ (if covers issued v then (true, (true, v.reason)) else run_until (check issued) l s)
unfolding run_until check
run_until-step issued v k l s = by_test (covers issued v)
  where
    by_test :
        (b : Bool)
        → (let r : Bool × (Bool × Bytes) = if b then (true, (true, v.reason)) else (false, s) in
            elim r.0 [ true ↦ (true, r.1) | false ↦ run_until (check issued) l r.1 ])
          ≡ (if b then (true, (true, v.reason)) else run_until (check issued) l s)
    by_test true = refl
    by_test false = refl

-- The callback over a list of entries: it stops at the first that covers the token.
run_until-check :
    (issued : ℕ) (l : List (RevokeSet × Bytes)) (s : Bool × Bytes)
    → run_until (check issued) l s ≡ (
      (verdict issued (values l)).0,
      if (verdict issued (values l)).0 then verdict issued (values l) else s,
    )
unfolding run_until verdict
run_until-check issued [] s = refl
run_until-check issued ((v, k) ∷ l) s = elim (Bool-cases (covers issued v)) [
  | inl e ↦ run_until-step issued v k l s ∙ rw e refl
  | inr e ↦ run_until-step issued v k l s ∙ rw e (run_until-check issued l s)
]

prefix-verdict :
    (scope : Bytes) (issued : ℕ) (bs : List RevokeBucket)
    → AreValid bs
    → is_revoked_prefix scope issued bs (false, []) ≡ verdict issued (prefix_candidates scope bs)
unfolding is_revoked_prefix prefix_candidates
prefix-verdict scope issued [] h = unfold verdict in refl
prefix-verdict scope issued (b ∷ bs) h =
    let matched =
      match_all-entries (check issued) b.trie scope (false, []) h.0
      ∙ run_until-check issued (entries b.trie scope) (false, []) in
    let joined =
      verdict-append issued (values (entries b.trie scope)) (prefix_candidates scope bs) in
    elim (Bool-cases (verdict issued (values (entries b.trie scope))).0) [
      | inl e ↦ rw (is_revoked_prefix, joined, matched, e) (rw (matched, e) refl)
      | inr e ↦
          rw (is_revoked_prefix, joined, matched, e)
            (rw (matched, e) (prefix-verdict scope issued bs h.1))
    ]

-- The first answer where it says revoked, else the second.
abbrev decide : Bool × Bytes → Bool × Bytes → Bool × Bytes
decide a b = elim a.0 [ true ↦ (true, a.1) | false ↦ b ]

decide_first : (a b : Bool × Bytes) → decide a b ≡ elim a.0 [ true ↦ a | false ↦ b ]
decide_first (true, x) b = refl
decide_first (false, x) b = refl

-- With valid tries, IsRevoked answers the first revocation that is not older than the token
-- among those of the scope itself, map by map, and then those of its prefixes, newest bucket
-- first and shortest prefix first.
pub is_revoked-verdict :
    (scope : Bytes) (issued : ℕ) (r : Revoker)
    → AreValid r.buckets
    → is_revoked scope issued r ≡ verdict issued (candidates scope r)
unfolding is_revoked candidates
is_revoked-verdict scope issued r h =
    let exact = exact_candidates scope r.maps in
    let prefixes = prefix_candidates scope r.buckets in
    ap (λ a. decide a (is_revoked_prefix scope issued r.buckets (false, [])))
      (exact-verdict scope issued r.maps)
    ∙ ap (decide (verdict issued exact)) (prefix-verdict scope issued r.buckets h)
    ∙ decide_first (verdict issued exact) (verdict issued prefixes)
    ∙ sym (verdict-append issued exact prefixes)
