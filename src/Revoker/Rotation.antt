-- ===== src/Revoker/Rotation.antt =====
-- How revocations (ext/revoker/revoker.go) enter the current bucket and how rotation keeps them.
use allino.Base.{
  ℕ, suc, ◌+◌, ◌≤◌, ◌<◌, ◌≡◌, refl, ap, sym, ◌∙◌, inl, inr, arith, false, List, [], ◌∷◌, some,
  if◌then◌else◌, ltb, length, length-take, take, zero, Bool-cases, subst,
}
use allino.Base.Bytes.{Bytes}
use allino.Trie.{new_trie, insert}
use allino.Trie.Lookup.{lookup, lookup_in-nil}
use allino.Trie.Insert.{IsValid, insert-IsValid, new_trie-IsValid}
use allino.Trie.Match.{entries, held-none}
use allino.Revoker.{
  RevokeSet, RevokeMap, RevokeBucket, Revoker, RevokeCall, whole, prefix, handle, new_revoker,
  rotate, put, revoke_set, insert_exact, insert_prefix, is_revoked,
}
use allino.Revoker.Verdict.{AreValid, prefix_candidates, candidates, verdict, is_revoked-verdict}

-- There is a current map and a current bucket, no more buckets than are kept, and valid tries.
pub record IsRevoker (r : Revoker) : Type 0 where
  pub valid : AreValid r.buckets
  pub current_bucket : 0 < length r.buckets
  pub current_map : 0 < length r.maps
  pub bounded : length r.buckets ≤ r.keep_buckets

pub new_revoker-IsRevoker : (now : ℕ) → IsRevoker (new_revoker now)
unfolding new_revoker
new_revoker-IsRevoker now = record {
  valid = (new_trie-IsValid, tt);
  current_bucket = omega arith;
  current_map = omega arith;
  bounded = omega arith;
}

take-AreValid : (n : ℕ) (bs : List RevokeBucket) → AreValid bs → AreValid (take n bs)
take-AreValid zero bs h = tt
take-AreValid (suc n) [] h = tt
take-AreValid (suc n) (b ∷ bs) h = (h.0, take-AreValid n bs h.1)

-- The part of `IsRevoker` about the buckets.
abbrev Fits : ℕ → List RevokeBucket → Type 0
Fits n bs = AreValid bs × (0 < length bs) × (length bs ≤ n)

rotated-Fits :
    (n : ℕ) (b : RevokeBucket) (bs : List RevokeBucket)
    → IsValid b.trie
    → Fits n bs
    → Fits n (if ltb n (suc (length bs)) then take n (b ∷ bs) else b ∷ bs)
rotated-Fits n b bs v (h, p, l) = elim (Bool-cases (ltb n (suc (length bs)))) [
  | inl e ↦
      let short : length (take n (b ∷ bs)) ≡ n = length-take n (b ∷ bs) ∙ ground (arith, l) in
      rw e (take-AreValid n (b ∷ bs) (v, h), omega (arith, short, p, l), omega (arith, short))
  | inr e ↦ rw e ((v, h), omega arith, ground arith)
]

-- A rotation leaves a sound revoker sound: valid tries, a current bucket and map, and no more
-- buckets than are kept.
pub rotate-IsRevoker : (now : ℕ) (r : Revoker) → IsRevoker r → IsRevoker (rotate now r)
unfolding rotate
rotate-IsRevoker now r h =
    let (v, p, l) =
      rotated-Fits r.keep_buckets (record { since = now; trie = new_trie }) r.buckets
        new_trie-IsValid (h.valid, h.current_bucket, h.bounded) in
    record { valid = v; current_bucket = p; current_map = h.current_map; bounded = l }

handled_whole :
    (scope : Bytes) (t : ℕ) (reason : Bytes) (r : Revoker) (ms : List RevokeMap)
    → r.maps ≡ ms
    → IsRevoker r
    → (r' : Revoker) × (insert_exact scope t reason r ≡ some r') × IsRevoker r'
unfolding insert_exact
handled_whole scope t reason r [] e h = absurd (omega (arith, h.current_map, ap length e))
handled_whole scope t reason r (m ∷ ms) e h = (
  record r { maps = record m { kvs = put scope (revoke_set t reason) m.kvs } ∷ ms },
  rw (insert_exact, e) refl,
  record {
    valid = h.valid;
    current_bucket = h.current_bucket;
    current_map = omega arith;
    bounded = h.bounded;
  },
)

handled_prefix :
    (p : Bytes) (t : ℕ) (reason : Bytes) (r : Revoker) (bs : List RevokeBucket)
    → r.buckets ≡ bs
    → IsRevoker r
    → (r' : Revoker) × (insert_prefix p t reason r ≡ some r') × IsRevoker r'
unfolding insert_prefix
handled_prefix p t reason r [] e h = absurd (omega (arith, h.current_bucket, ap length e))
handled_prefix p t reason r (b ∷ bs) e h =
    let valid : AreValid (b ∷ bs) = subst AreValid e h.valid in
    (
      record r { buckets = record b { trie = (insert p (revoke_set t reason) b.trie).0 } ∷ bs },
      rw (insert_prefix, e) refl,
      record {
        valid = (insert-IsValid p (revoke_set t reason) b.trie valid.0, valid.1);
        current_bucket = omega arith;
        current_map = h.current_map;
        bounded = omega (arith, h.bounded, ap length e);
      },
    )

-- Both revocation handlers, called with any scope, time and reason on a sound revoker, return
-- without a panic and leave it sound.
pub handle-IsRevoker :
    (c : RevokeCall) (t : ℕ) (reason : Bytes) (r : Revoker)
    → IsRevoker r
    → (r' : Revoker) × (handle c t reason r ≡ some r') × IsRevoker r'
unfolding handle
handle-IsRevoker (whole scope) t reason r h = handled_whole scope t reason r r.maps refl h
handle-IsRevoker (prefix p) t reason r h = handled_prefix p t reason r r.buckets refl h

-- A new bucket holds nothing.
entries-new_trie : (scope : Bytes) → entries {T = RevokeSet} new_trie scope ≡ []
unfolding entries new_trie lookup
entries-new_trie scope = held-none _ [] scope (λ c j. lookup_in-nil (c ∷ j))

rotate-candidates :
    (now : ℕ) (scope : Bytes) (r : Revoker)
    → length r.buckets < r.keep_buckets
    → candidates scope (rotate now r) ≡ candidates scope r
unfolding candidates rotate prefix_candidates
rotate-candidates now scope r l =
    let room : ltb r.keep_buckets (suc (length r.buckets)) ≡ false = ground (arith, l) in
    rw (room, prefix_candidates, entries-new_trie scope) refl

-- Rotations at the times given.
unfoldable pub rotations : List ℕ → Revoker → Revoker
unfolding rotate
rotations [] r = r
rotations (now ∷ nows) r = rotations nows (rotate now r)

rotate-length :
    (now : ℕ) (r : Revoker)
    → length r.buckets < r.keep_buckets
    → (length (rotate now r).buckets ≡ suc (length r.buckets))
      × ((rotate now r).keep_buckets ≡ r.keep_buckets)
unfolding rotate
rotate-length now r l = (ground (arith, l), refl)

-- Rotations leave every answer of IsRevoked as it was, for every scope and time of issue, as
-- long as the buckets with the new ones are no more than are kept.
pub rotations-is_revoked :
    (nows : List ℕ) (scope : Bytes) (issued : ℕ) (r : Revoker)
    → IsRevoker r
    → length r.buckets + length nows ≤ r.keep_buckets
    → is_revoked scope issued (rotations nows r) ≡ is_revoked scope issued r
unfolding rotations
rotations-is_revoked [] scope issued r h l = refl
rotations-is_revoked (now ∷ nows) scope issued r h l =
    let room : length r.buckets < r.keep_buckets = omega (arith, l) in
    let (longer, same) = rotate-length now r room in
    rotations-is_revoked nows scope issued (rotate now r) (rotate-IsRevoker now r h)
      (rw (longer, same) (omega (arith, l)))
    ∙ is_revoked-verdict scope issued (rotate now r) (rotate-IsRevoker now r h).valid
    ∙ ap (verdict issued) (rotate-candidates now scope r room)
    ∙ sym (is_revoked-verdict scope issued r h.valid)
