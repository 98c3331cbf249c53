-- ===== src/Revoker.antt =====
-- ext/revoker/revoker.go: revocations of login tokens, by the whole subject in a map and by a prefix
-- of it in tries that a ticker rotates. The maps stand in the order of the Go slices, the current one
-- first; an index into an empty slice is a panic, `none`. Times are nanoseconds since the epoch.
pub mod Verdict
pub mod Rotation
pub mod Effects
mod Tests
use allino.Base.{
  ℕ, ◌+◌, ◌*◌, ◌/◌, ◌==◌, Bool, true, false, not, List, [], ◌∷◌, map, Option, none, some,
  if◌then◌else◌, ltb, length, take,
}
use allino.Base.Bytes.{Bytes, bytes_eq}
use allino.Trie.{Trie, new_trie, insert, match_all}

-- Nanoseconds in a second.
abbrev pub second : ℕ
second = 1_000_000_000

pub record RevokeSet : Type 0 where
  pub when : ℕ
  pub reason : Bytes

pub record RevokeMap : Type 0 where
  pub since : ℕ
  pub kvs : List (Bytes × RevokeSet)

pub record RevokeBucket : Type 0 where
  pub since : ℕ
  pub trie : Trie RevokeSet

pub record Revoker : Type 0 where
  pub keep_buckets : ℕ
  pub buckets : List RevokeBucket
  pub maps : List RevokeMap

unfoldable pub new_revoker : ℕ → Revoker
new_revoker now = record {
  keep_buckets = 24;
  buckets = record { since = now; trie = new_trie } ∷ [];
  maps = record { since = now; kvs = [] } ∷ [];
}

-- A case of the ticker in `revokeRotator`.
unfoldable pub rotate : ℕ → Revoker → Revoker
rotate now r =
    let next : List RevokeBucket = record { since = now; trie = new_trie } ∷ r.buckets in
    record r {
      buckets = if ltb r.keep_buckets (length next) then take r.keep_buckets next else next;
    }

-- A Go map: `put` is an assignment, `get` a read.
unfoldable pub put : Bytes → RevokeSet → List (Bytes × RevokeSet) → List (Bytes × RevokeSet)
put key v [] = (key, v) ∷ []
put key v ((k, w) ∷ kvs) =
    let rest = put key v kvs in if bytes_eq k key then (key, v) ∷ kvs else (k, w) ∷ rest

unfoldable pub get : Bytes → List (Bytes × RevokeSet) → Option RevokeSet
get key [] = none
get key ((k, w) ∷ kvs) = let rest = get key kvs in if bytes_eq k key then some w else rest

-- `t.Unix()` is in whole seconds.
abbrev pub revoke_set : ℕ → Bytes → RevokeSet
revoke_set t reason = record { when = t / second; reason = reason }

unfoldable pub insert_exact : Bytes → ℕ → Bytes → Revoker → Option Revoker
unfolding put
insert_exact scope t reason r = elim r.maps [
  | [] ↦ none
  | m ∷ ms ↦
      some (record r { maps = record m { kvs = put scope (revoke_set t reason) m.kvs } ∷ ms })
]

-- The error of the trie's `Insert` is not looked at.
unfoldable pub insert_prefix : Bytes → ℕ → Bytes → Revoker → Option Revoker
insert_prefix scope t reason r = elim r.buckets [
  | [] ↦ none
  | b ∷ bs ↦ some (record r {
    buckets = record b { trie = (insert scope (revoke_set t reason) b.trie).0 } ∷ bs;
  })
]

-- `!issuedAt.After(time.Unix(v.when, 0))`.
unfoldable pub covers : ℕ → RevokeSet → Bool
covers issued v = not (ltb (v.when * second) issued)

unfoldable pub is_revoked_exact : Bytes → ℕ → List RevokeMap → Bool × Bytes
unfolding get covers
is_revoked_exact scope issued [] = (false, [])
is_revoked_exact scope issued (m ∷ ms) =
    let rest = is_revoked_exact scope issued ms in
    elim (get scope m.kvs) [
      | none ↦ rest
      | some v ↦ if covers issued v then (true, v.reason) else rest
    ]

-- The callback of `MatchAll`, which writes the two results.
unfoldable pub check : ℕ → RevokeSet → Bytes → Bool × Bytes → Bool × (Bool × Bytes)
unfolding covers
check issued v matched s = if covers issued v then (true, (true, v.reason)) else (false, s)

unfoldable pub is_revoked_prefix : Bytes → ℕ → List RevokeBucket → Bool × Bytes → Bool × Bytes
unfolding check
is_revoked_prefix scope issued [] s = s
is_revoked_prefix scope issued (b ∷ bs) s =
    let (stop, s') = match_all (check issued) b.trie scope s in
    elim stop [ true ↦ s' | false ↦ is_revoked_prefix scope issued bs s' ]

unfoldable pub is_revoked : Bytes → ℕ → Revoker → Bool × Bytes
is_revoked scope issued r =
    let (revoked, reason) = is_revoked_exact scope issued r.maps in
    elim revoked [
      | true ↦ (true, reason)
      | false ↦ is_revoked_prefix scope issued r.buckets (false, [])
    ]

-- The call that `Revoke` makes: of `RevokeHandler`, or of `RevokePrefixHandler` with the part of the
-- scope before its first '*'.
pub data RevokeCall : Type 0 where
  whole : Bytes → RevokeCall
  prefix : Bytes → RevokeCall

unfoldable pub before_star : Bytes → Option Bytes
before_star [] = none
before_star (c ∷ s) =
    let rest = before_star s in
    if c == 42 then some [] else elim rest [ none ↦ none | some p ↦ some (c ∷ p) ]

unfoldable pub revoke : Bytes → RevokeCall
revoke scope = elim (before_star scope) [ none ↦ whole scope | some p ↦ prefix p ]

-- The handlers, on one server.
unfoldable pub handle : RevokeCall → ℕ → Bytes → Revoker → Option Revoker
handle (whole scope) t reason r = insert_exact scope t reason r
handle (prefix p) t reason r = insert_prefix p t reason r
