-- ===== src/Sessions/Store.antt =====
-- The session manager: `entry_consume`, `entry_free`, the handler that creates sessions, and the
-- collection of those that expired. The mutex makes each of them one step.
use allino.Base.{
  ℕ, ◌+◌, ◌-◌, ◌*◌, Bool, true, false, ◌||◌, List, [], ◌∷◌, ◌++◌, Option, none, some, if◌then◌else◌,
  ltb,
}
use allino.Base.Bytes.{Bytes, bytes_eq, codes}
use allino.JobSet.{Jobset, add, remove}

-- A Go `map[string]int`; a missing key reads as 0.
abbrev pub Amounts : Type 0
Amounts = List (Bytes × ℕ)

unfoldable pub amount : Bytes → Amounts → ℕ
amount k [] = 0
amount k ((j, n) ∷ m) = if bytes_eq j k then n else amount k m

unfoldable pub set_amount : Bytes → ℕ → Amounts → Amounts
set_amount k n [] = (k, n) ∷ []
set_amount k n ((j, o) ∷ m) = if bytes_eq j k then (j, n) ∷ m else (j, o) ∷ set_amount k n m

-- `stickySessionEntry`, with the session's value once there is one.
pub record Entry (V : Type 0) : Type 0 where
  pub sid : Bytes
  pub name : Bytes
  pub uses : Amounts
  pub value : Option V
  pub expire_at : ℕ

-- `sessionManager`, with the handlers that `resourcelockedHandlers` of the job manager holds.
pub record Manager (V : Type 0) : Type 0 where
  pub groups : List Bytes
  pub store : List (Entry V)
  pub consumed : Amounts
  pub resource_locked : Jobset

pub data Consumed : Type 0 where
  consume_ok consume_full consume_overflow : Consumed

abbrev pub is_overflow : Consumed → Bool
is_overflow consume_overflow = true
is_overflow _ = false

-- The first loop of `entry_consume`: whether the amounts fit once, and twice.
unfoldable pub check_uses : Amounts → Amounts → Amounts → Consumed
check_uses max consumed [] = consume_ok
check_uses max consumed ((k, n) ∷ rest) =
    let r = check_uses max consumed rest in
    if ltb (amount k max) (amount k consumed + n)
    then consume_overflow
    else if is_overflow r
    then consume_overflow
    else if ltb (amount k max) (amount k consumed + n * 2)
    then consume_full
    else r

unfoldable pub add_uses : Amounts → Amounts → Amounts
add_uses [] consumed = consumed
add_uses ((k, n) ∷ rest) consumed = add_uses rest (set_amount k (amount k consumed + n) consumed)

unfoldable pub entry_consume : Amounts → Amounts → Amounts → Consumed × Amounts
unfolding check_uses add_uses
entry_consume max uses consumed =
    let r = check_uses max consumed uses in
    if is_overflow r then (r, consumed) else (r, add_uses uses consumed)

-- A count that would fall below 0 is 0.
unfoldable pub entry_free : Amounts → Amounts → Amounts
entry_free [] consumed = consumed
entry_free ((k, n) ∷ rest) consumed =
    entry_free rest (set_amount k (amount k consumed - n) consumed)

abbrev pub session_handler : Bytes → Bytes
session_handler name = codes "allino_create_session_" ++ name

unfoldable pub has_group : Bytes → List Bytes → Bool
has_group name [] = false
has_group name (g ∷ gs) = bytes_eq g name || has_group name gs

module _ {V : Type 0} where
  unfoldable pub find_entry : Bytes → List (Entry V) → Option (Entry V)
  find_entry sid [] = none
  find_entry sid (e ∷ es) = if bytes_eq e.sid sid then some e else find_entry sid es

  -- `sessionStore[entry.sid] = entry`.
  unfoldable pub put_entry : Entry V → List (Entry V) → List (Entry V)
  put_entry n [] = n ∷ []
  put_entry n (e ∷ es) = if bytes_eq e.sid n.sid then n ∷ es else e ∷ put_entry n es

  -- `addSessionGroup`.
  unfoldable pub add_session_group : Bytes → Manager V → Manager V
  unfolding has_group
  add_session_group name m =
      if has_group name m.groups then m else record m { groups = name ∷ m.groups }

  -- What becomes of a new entry, by the answer of `entry_consume`.
  unfoldable pub keep_session : Entry V → Manager V → Consumed × Amounts → Bool × Manager V
  keep_session entry m (consume_overflow, consumed) = (false, m)
  keep_session entry m (consume_full, consumed) = (
    true,
    record m {
      store = put_entry entry m.store;
      consumed = consumed;
      resource_locked = add (session_handler entry.name) m.resource_locked;
    },
  )
  keep_session entry m (consume_ok, consumed) =
      (true, record m { store = put_entry entry m.store; consumed = consumed })

  -- The body of the handler that `addSessionGroup` registers: whether there is a session, after
  -- which it makes the token.
  unfoldable pub create_session :
      ℕ → ℕ → Amounts → Bytes → Bytes → Amounts → Manager V → Bool × Manager V
  unfolding keep_session
  create_session now expire max name sid uses m =
      let entry : Entry V = record {
        sid = sid;
        name = name;
        uses = uses;
        value = none;
        expire_at = now + expire;
      } in
      keep_session entry m (entry_consume max uses m.consumed)

  -- Whether the session's value asks to be kept.
  abbrev pub keeps : (V → Bool) → Option V → Bool
  keeps keep_alive none = false
  keeps keep_alive (some v) = keep_alive v

  -- The range of `startSessionGC` with `mayDeleteSession`: the entries that stay, the amounts, and
  -- the locked handlers.
  unfoldable pub sweep :
      ℕ → ℕ → (V → Bool) → List (Entry V) → Amounts → Jobset → List (Entry V) × Amounts × Jobset
  sweep now expire keep_alive [] consumed locked = ([], consumed, locked)
  sweep now expire keep_alive (e ∷ es) consumed locked =
      if ltb e.expire_at now
      then (if keeps keep_alive e.value
          then (let r = sweep now expire keep_alive es consumed locked in
              (record e { expire_at = now + expire } ∷ r.0, r.1, r.2))
          else sweep now expire keep_alive es (entry_free e.uses consumed)
              (remove (session_handler e.name) locked))
      else (let r = sweep now expire keep_alive es consumed locked in (e ∷ r.0, r.1, r.2))

  unfoldable pub session_gc : ℕ → ℕ → (V → Bool) → Manager V → Manager V
  unfolding sweep
  session_gc now expire keep_alive m =
      let (store, consumed, locked) =
        sweep now expire keep_alive m.store m.consumed m.resource_locked in
      record m { store = store; consumed = consumed; resource_locked = locked }
