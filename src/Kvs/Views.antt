-- ===== src/Kvs/Views.antt =====
-- The store of kvs.go as a map whose entries end.
use allino.Base.{
  ℕ, ◌≤◌, ◌≡◌, refl, ap, sym, ◌∙◌, true, [], ◌∷◌, Option, none, some, if◌then◌else◌, Bool-cases,
  Option-cases, inl, inr, arith,
}
use allino.Base.Bytes.{Bytes, bytes_eq, eq_of_bytes_eq, apart}
use allino.Kvs.{
  Pair, Table, select_pair, delete_key, upsert_pair, is_over, get, expiry, set, delete,
}

-- A pair as a reader sees it at a time.
abbrev pub seen : ℕ → Option Pair → Option Bytes
seen now none = none
seen now (some p) = if is_over now p.expires_at then none else some p.value

-- The abstract store: the value of a key at a time.
unfoldable pub view : ℕ → Bytes → Table → Option Bytes
view now key t = seen now (select_pair key t)

select-delete :
    (key j : Bytes) (t : Table)
    → select_pair j (delete_key key t) ≡ (if bytes_eq key j then none else select_pair j t)
unfolding select_pair delete_key
select-delete key j [] = ground arith
select-delete key j (p ∷ ps) = elim (Bool-cases (bytes_eq p.key key)) [
  | inl e ↦ rw (e, select-delete key j ps, eq_of_bytes_eq p.key key e) (ground arith)
  | inr e ↦ rw e (elim (Bool-cases (bytes_eq p.key j)) [
    | inl f ↦ rw (f, apart p.key key j e f)
    | inr f ↦ rw f (select-delete key j ps)
  ])
]

pub view-delete :
    (now : ℕ) (key j : Bytes) (t : Table)
    → view now j (delete key t) ≡ (if bytes_eq key j then none else view now j t)
unfolding view delete
view-delete now key j t =
    ap (seen now) (select-delete key j t)
    ∙ elim (Bool-cases (bytes_eq key j)) [ inl e ↦ rw e refl | inr e ↦ rw e refl ]

view-upsert :
    (now : ℕ) (n : Pair) (j : Bytes) (t : Table)
    → seen now (select_pair j (upsert_pair n t))
      ≡ (if bytes_eq n.key j then seen now (some n) else seen now (select_pair j t))
unfolding select_pair upsert_pair
view-upsert now n j [] = elim (Bool-cases (bytes_eq n.key j)) [
  | inl e ↦ rw e refl
  | inr e ↦ rw e refl
]
view-upsert now n j (p ∷ ps) = elim (Bool-cases (bytes_eq p.key n.key)) [
  | inl e ↦ rw e (elim (Bool-cases (bytes_eq p.key j)) [
    | inl f ↦ rw (f, ap (λ k. bytes_eq k j) (sym (eq_of_bytes_eq p.key n.key e)) ∙ f) refl
    | inr f ↦ rw (f, ap (λ k. bytes_eq k j) (sym (eq_of_bytes_eq p.key n.key e)) ∙ f) refl
  ])
  | inr e ↦ rw e (elim (Bool-cases (bytes_eq p.key j)) [
    | inl f ↦ rw (f, apart p.key n.key j e f) refl
    | inr f ↦ rw f (view-upsert now n j ps)
  ])
]

-- After Set a key has the new value at every time up to the end of the TTL, or always where
-- there is none, and no value after that; every other key has what it had.
pub view-set :
    (now later : ℕ) (key j value : Bytes) (ttl : Option ℕ) (t : Table)
    → view later j (set now key value ttl t) ≡ (
        if bytes_eq key j
        then (if is_over later (expiry now ttl) then none else some value)
        else view later j t)
unfolding view set
view-set now later key j value ttl t =
    view-upsert later (record { key = key; value = value; expires_at = expiry now ttl }) j t

over_later :
    (now later : ℕ) (e : Option ℕ) → now ≤ later → is_over now e ≡ true → is_over later e ≡ true
over_later now later none le h = h
over_later now later (some t) le h = ground arith

over_view :
    (later : ℕ) (key : Bytes) (p : Pair) (t : Table)
    → select_pair key t ≡ some p
    → is_over later p.expires_at ≡ true
    → view later key t ≡ none
unfolding view
over_view later key p t e o = rw (e, o)

-- Get of the key-value store answers the value that the key has at the time, and, though it
-- deletes an expired pair, leaves the value of every key at every later time as it was.
pub get-view :
    (now : ℕ) (key : Bytes) (t : Table)
    → ((get now key t).0 ≡ view now key t)
      × ((later : ℕ) (j : Bytes) → now ≤ later → view later j (get now key t).1 ≡ view later j t)
unfolding get view delete
get-view now key t = elim (Option-cases (select_pair key t)) [
  | inl e ↦ rw (get, e) (refl, λ later j le. refl)
  | inr (p, e) ↦ elim (Bool-cases (is_over now p.expires_at)) [
    | inl o ↦ rw (get, e, o) (refl, λ later j le. unseen p e o later j le)
    | inr o ↦ rw (get, e, o) (refl, λ later j le. refl)
  ]
]
  where
    unseen :
        (p : Pair)
        → select_pair key t ≡ some p
        → is_over now p.expires_at ≡ true
        → (later : ℕ) (j : Bytes) → now ≤ later
        → view later j (delete key t) ≡ view later j t
    unseen p e o later j le = view-delete later key j t ∙ elim (Bool-cases (bytes_eq key j)) [
      | inl f ↦ rw f (
          sym (
            ap (λ k. view later k t) (sym (eq_of_bytes_eq key j f))
            ∙ over_view later key p t e (over_later now later p.expires_at le o)))
      | inr f ↦ rw f refl
    ]
