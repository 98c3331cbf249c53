-- ===== src/Revoker/Effects.antt =====
-- What a revocation (ext/revoker/revoker.go) does to the later answers of `IsRevoked`.
use mathlib.Core.List.{cons-ne-nil}
use allino.Base.{
  ℕ, ◌*◌, ◌/◌, ◌≤◌, ◌≡◌, refl, ap, sym, ◌∙◌, ◌⊎◌, inl, inr, arith, true, false, List, [], ◌∷◌, ◌++◌,
  Option, none, some, if◌then◌else◌, length, Bool-cases, subst,
}
use allino.Base.Bytes.{Bytes, bytes_eq, bytes_eq_refl, bytes_eq_comm, eq_of_bytes_eq}
use allino.Trie.{Trie, insert}
use allino.Trie.Lookup.{lookup}
use allino.Trie.Insert.{IsValid, insert-IsValid, insert-lookup, insert_refused}
use allino.Trie.Match.{entries, attach, held}
use allino.Revoker.{
  second, RevokeSet, RevokeMap, RevokeBucket, Revoker, put, get, revoke_set, insert_exact,
  insert_prefix, covers, is_revoked,
}
use allino.Revoker.Verdict.{
  AreValid, values, exact_candidates, prefix_candidates, candidates, verdict, is_revoked-verdict,
}
use allino.Revoker.Rotation.{IsRevoker}

covers_issued :
    (t issued : ℕ) (reason : Bytes)
    → issued ≤ t / second * second
    → covers issued (revoke_set t reason) ≡ true
unfolding covers
covers_issued t issued reason l = ground (arith, l)

get-put :
    (key j : Bytes) (v : RevokeSet) (kvs : List (Bytes × RevokeSet))
    → get j (put key v kvs) ≡ (if bytes_eq key j then some v else get j kvs)
unfolding get put
get-put key j v [] = refl
get-put key j v ((k, w) ∷ kvs) = elim (Bool-cases (bytes_eq k key)) [
  | inl e ↦ rw (e, put, get) (rw (eq_of_bytes_eq k key e) (ground arith))
  | inr e ↦ elim (Bool-cases (bytes_eq k j)) [
    | inl f ↦
        let ne : bytes_eq key j ≡ false =
          ap (bytes_eq key) (sym (eq_of_bytes_eq k j f)) ∙ bytes_eq_comm key k ∙ e in
        rw e (rw (f, ne) refl)
    | inr f ↦ rw e (rw f (get-put key j v kvs))
  ]
]

-- The revocation stands in the list.
abbrev In : RevokeSet → List RevokeSet → Type 0
In v [] = ⊥
In v (w ∷ ws) = (v ≡ w) ⊎ In v ws

verdict_found :
    (issued : ℕ) (v : RevokeSet) (vs : List RevokeSet)
    → covers issued v ≡ true
    → In v vs
    → (verdict issued vs).0 ≡ true
unfolding verdict
verdict_found issued v [] c h = absurd h
verdict_found issued v (w ∷ ws) c (inl e) = rw (sym e, c)
verdict_found issued v (w ∷ ws) c (inr h) = ground (arith, verdict_found issued v ws c h)

In-attach :
    (v : RevokeSet) (o : Option RevokeSet) (k : Bytes) (l : List (RevokeSet × Bytes))
    → In v (values l)
    → In v (values (attach o k l))
In-attach v none k l h = h
In-attach v (some w) k l h = inr h

-- A key that is stored stands among the entries of every text that it begins.
held-In :
    (look : Bytes → Option RevokeSet) (m : Bytes) (c : ℕ) (j rest : Bytes) (v : RevokeSet)
    → look (c ∷ j) ≡ some v
    → In v (values (held look m (c ∷ j ++ rest)))
unfolding held
held-In look m c [] rest v e = rw e (inl refl)
held-In look m c (d ∷ j) rest v e =
    In-attach v (look (c ∷ [])) (m ++ c ∷ []) _
      (held-In (λ k. look (c ∷ k)) (m ++ c ∷ []) d j rest v e)

In-append : (v : RevokeSet) (xs ys : List RevokeSet) → In v xs → In v (xs ++ ys)
In-append v [] ys h = absurd h
In-append v (x ∷ xs) ys (inl e) = inl e
In-append v (x ∷ xs) ys (inr h) = inr (In-append v xs ys h)

In-append_right : (v : RevokeSet) (xs ys : List RevokeSet) → In v ys → In v (xs ++ ys)
In-append_right v [] ys h = h
In-append_right v (x ∷ xs) ys h = inr (In-append_right v xs ys h)

entries-In :
    (trie : Trie RevokeSet) (c : ℕ) (j rest : Bytes) (v : RevokeSet)
    → lookup (c ∷ j) trie ≡ some v
    → In v (values (entries trie (c ∷ j ++ rest)))
unfolding entries
entries-In trie c j rest v e =
    In-attach v trie.value [] _ (held-In (λ k. lookup k trie) [] c j rest v e)

-- The verdict over a newly found revocation of the scope itself.
exact-put :
    (scope : Bytes) (v : RevokeSet) (m : RevokeMap) (ms : List RevokeMap)
    → exact_candidates scope (record m { kvs = put scope v m.kvs } ∷ ms)
      ≡ v ∷ exact_candidates scope ms
unfolding exact_candidates
exact-put scope v m ms =
    rw (exact_candidates, get-put scope scope v m.kvs, bytes_eq_refl scope) refl

exact-put_other :
    (scope j : Bytes) (v : RevokeSet) (m : RevokeMap) (ms : List RevokeMap)
    → bytes_eq scope j ≡ false
    → exact_candidates j (record m { kvs = put scope v m.kvs } ∷ ms) ≡ exact_candidates j (m ∷ ms)
unfolding exact_candidates
exact-put_other scope j v m ms e = rw (exact_candidates, get-put scope j v m.kvs, e) refl

module _ (scope : Bytes) (t : ℕ) (reason : Bytes) (r : Revoker) where
  -- The scope is revoked with the reason, for tokens up to the second of `t`, and no other scope.
  abbrev pub RevokesExactly : Revoker → Type 0
  RevokesExactly r' =
      ((issued : ℕ) → issued ≤ t / second * second → is_revoked scope issued r' ≡ (true, reason))
      × ((j : Bytes) (issued : ℕ)
          → bytes_eq scope j ≡ false
          → is_revoked j issued r' ≡ is_revoked j issued r)

  revoked_in :
      (ms : List RevokeMap)
      → r.maps ≡ ms
      → IsRevoker r
      → (r' : Revoker) × (insert_exact scope t reason r ≡ some r') × RevokesExactly r'
  unfolding insert_exact candidates verdict
  revoked_in [] e h = absurd (omega (arith, h.current_map, ap length e))
  revoked_in (m ∷ ms) e h =
      let new_map : RevokeMap = record m { kvs = put scope (revoke_set t reason) m.kvs } in
      let r' : Revoker = record r { maps = new_map ∷ ms } in
      (
        r',
        rw (insert_exact, e) refl,
        (
          λ issued l.
              is_revoked-verdict scope issued r' h.valid
              ∙ rw (exact-put scope (revoke_set t reason) m ms, covers_issued t issued reason l)
                  refl,
          λ j issued ne.
              is_revoked-verdict j issued r' h.valid
              ∙ ap (λ vs. verdict issued (vs ++ prefix_candidates j r.buckets))
                  (exact-put_other scope j (revoke_set t reason) m ms ne
                    ∙ ap (exact_candidates j) (sym e))
              ∙ sym (is_revoked-verdict j issued r h.valid),
        ),
      )

  -- Insert on a sound revoker does not panic; then IsRevoked answers its reason for the scope
  -- and every token issued up to the second of the time given, and for every other scope what
  -- it answered before.
  pub insert_exact-is_revoked :
      IsRevoker r → (r' : Revoker) × (insert_exact scope t reason r ≡ some r') × RevokesExactly r'
  insert_exact-is_revoked h = revoked_in r.maps refl h

-- The current bucket of a revoker.
abbrev pub Current : RevokeBucket → Revoker → Type 0
Current b r = (bs : List RevokeBucket) × (r.buckets ≡ b ∷ bs)

-- InsertPrefix of a prefix that is not empty and not in the current bucket, on a sound revoker,
-- does not panic; then every scope that begins with the prefix is revoked for tokens issued up
-- to the second of the time given.
pub insert_prefix-is_revoked :
    (c : ℕ) (j : Bytes) (t : ℕ) (reason : Bytes) (b : RevokeBucket) (r : Revoker)
    → IsRevoker r
    → Current b r
    → lookup (c ∷ j) b.trie ≡ none
    → (r' : Revoker) × (insert_prefix (c ∷ j) t reason r ≡ some r')
      × ((rest : Bytes) (issued : ℕ)
          → issued ≤ t / second * second
          → (is_revoked (c ∷ j ++ rest) issued r').0 ≡ true)
unfolding insert_prefix candidates prefix_candidates
insert_prefix-is_revoked c j t reason b r h (bs, e) free =
    let v = revoke_set t reason in
    let valid : AreValid (b ∷ bs) = subst AreValid e h.valid in
    let (_, stored) = insert-lookup (c ∷ j) v b.trie valid.0 (cons-ne-nil c j) free in
    let trie = (insert (c ∷ j) v b.trie).0 in
    let r' = record r { buckets = record b { trie = trie } ∷ bs } in
    let found : lookup (c ∷ j) trie ≡ some v = stored (c ∷ j) ∙ rw (bytes_eq_refl (c ∷ j)) refl in
    (
      r',
      rw (insert_prefix, e) refl,
      λ rest issued l.
          ap (λ a. a.0)
            (is_revoked-verdict (c ∷ j ++ rest) issued r'
              (insert-IsValid (c ∷ j) v b.trie valid.0, valid.1))
          ∙ verdict_found issued v _ (covers_issued t issued reason l) (
              In-append_right v (exact_candidates (c ∷ j ++ rest) r.maps) _ (
                In-append v (values (entries trie (c ∷ j ++ rest))) _
                  (entries-In trie c j rest v found))),
    )

insert-unchanged :
    (p : Bytes) (v : RevokeSet) (trie : Trie RevokeSet)
    → IsValid trie
    → (p ≡ []) ⊎ ((w : RevokeSet) × (lookup p trie ≡ some w))
    → (insert p v trie).0 ≡ trie
unfolding insert
insert-unchanged [] v trie valid h = refl
insert-unchanged (c ∷ j) v trie valid (inl e) = absurd (cons-ne-nil c j e)
insert-unchanged (c ∷ j) v trie valid (inr (w, f)) =
    ap (λ a. a.0) (insert_refused (c ∷ j) v w trie valid (cons-ne-nil c j) f)

-- InsertPrefix on a sound revoker of an empty prefix, or of one that the current bucket holds
-- already, changes nothing: the later time and reason are lost.
pub insert_prefix-dropped :
    (p : Bytes) (t : ℕ) (reason : Bytes) (b : RevokeBucket) (r : Revoker)
    → IsRevoker r
    → Current b r
    → (p ≡ []) ⊎ ((w : RevokeSet) × (lookup p b.trie ≡ some w))
    → insert_prefix p t reason r ≡ some r
unfolding insert_prefix
insert_prefix-dropped p t reason b r h (bs, e) q =
    let valid : AreValid (b ∷ bs) = subst AreValid e h.valid in
    let same = insert-unchanged p (revoke_set t reason) b.trie valid.0 q in
    rw (insert_prefix, e)
      (ap (λ (trie : Trie RevokeSet). some (record r { buckets = record b { trie = trie } ∷ bs }))
        same)
