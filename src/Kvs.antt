-- ===== src/Kvs.antt =====
-- kvs.go: the key-value store on a SQL table. Values are bytes; JSON and its failures are the
-- caller's part. A failing database is not modelled.
pub mod Views
mod Tests
use allino.Base.{ℕ, ◌+◌, Bool, true, false, List, [], ◌∷◌, Option, none, some, if◌then◌else◌, ltb}
use allino.Base.Bytes.{Bytes, bytes_eq}

-- A row of the table; `expires_at` is in nanoseconds, NULL is `none`.
pub record Pair : Type 0 where
  pub key : Bytes
  pub value : Bytes
  pub expires_at : Option ℕ

abbrev pub Table : Type 0
Table = List Pair

unfoldable pub select_pair : Bytes → Table → Option Pair
select_pair key [] = none
select_pair key (p ∷ ps) = if bytes_eq p.key key then some p else select_pair key ps

unfoldable pub delete_key : Bytes → Table → Table
delete_key key [] = []
delete_key key (p ∷ ps) =
    let rest = delete_key key ps in if bytes_eq p.key key then rest else p ∷ rest

-- `INSERT … ON CONFLICT(key) DO UPDATE SET value, expires_at`.
unfoldable pub upsert_pair : Pair → Table → Table
upsert_pair n [] = n ∷ []
upsert_pair n (p ∷ ps) =
    if bytes_eq p.key n.key
    then record p { value = n.value; expires_at = n.expires_at } ∷ ps
    else p ∷ upsert_pair n ps

-- `now.After(expires_at)` of a column that may be NULL.
abbrev pub is_over : ℕ → Option ℕ → Bool
is_over now none = false
is_over now (some t) = ltb t now

-- `none` is `sql.ErrNoRows`. An expired row is deleted.
unfoldable pub get : ℕ → Bytes → Table → Option Bytes × Table
get now key t = elim (select_pair key t) [
  | none ↦ (none, t)
  | some p ↦ if is_over now p.expires_at then (none, delete_key key t) else (some p.value, t)
]

abbrev pub expiry : ℕ → Option ℕ → Option ℕ
expiry now none = none
expiry now (some ttl) = some (now + ttl)

unfoldable pub set : ℕ → Bytes → Bytes → Option ℕ → Table → Table
set now key value ttl t =
    upsert_pair (record { key = key; value = value; expires_at = expiry now ttl }) t

unfoldable pub delete : Bytes → Table → Table
delete key t = delete_key key t

-- What the typed store above makes of a read: `panics` is the use of a nil pool.
pub data Got (T : Type 0) : Type 0 where
  missing malformed panics : Got T
  got : T → Got T

-- `GenericKVS`, with how its pool decodes a value where it has one.
pub record GenericKvs (T : Type 0) : Type 0 where
  pub pool : Option (Bytes → Option T)
  pub table : Table

-- `NewSQLKVS` sets the backend only.
unfoldable pub new_sql_kvs : {T : Type 0} → Table → GenericKvs T
new_sql_kvs t = record { pool = none; table = t }

unfoldable pub generic_get : {T : Type 0} → ℕ → Bytes → GenericKvs T → Got T × GenericKvs T
unfolding get
generic_get now key g =
    let (found, t) = get now key g.table in
    (
      elim found [
        | none ↦ missing
        | some buf ↦ elim g.pool [
          | none ↦ panics
          | some decode ↦ elim (decode buf) [ none ↦ malformed | some v ↦ got v ]
        ]
      ],
      record g { table = t },
    )
