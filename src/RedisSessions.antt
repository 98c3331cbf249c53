-- ===== src/RedisSessions.antt =====
-- session_redis.go, and the choice of a session in session.go: sessions that Redis holds as hashes.
-- The JSON of a session value is an argument; that Redis answers is taken for granted. Go leaves the
-- order of a range over a map open; here it is the order of the list.
pub mod Recalled
pub mod Keys
mod Tests
use allino.Base.{
  Bool, true, false, not, ◌||◌, List, [], ◌∷◌, ◌++◌, Option, none, some, if◌then◌else◌,
}
use allino.Base.Bytes.{Bytes, bytes_eq, codes}
use allino.Login.{is_empty}

abbrev pub Hash : Type 0
Hash = List (Bytes × Bytes)

-- The hashes by their keys; a key without a hash has the empty one, as `HGETALL` answers.
abbrev pub Redis : Type 0
Redis = Bytes → Hash

unfoldable pub find : {V : Type 0} → Bytes → List (Bytes × V) → Option V
find k [] = none
find k ((j, v) ∷ kvs) = let rest = find k kvs in if bytes_eq j k then some v else rest

unfoldable pub put_value : {V : Type 0} → Bytes → V → List (Bytes × V) → List (Bytes × V)
put_value k v [] = (k, v) ∷ []
put_value k v ((j, w) ∷ kvs) =
    let rest = put_value k v kvs in if bytes_eq j k then (j, v) ∷ kvs else (j, w) ∷ rest

-- The pairs of a map are put one by one; the keys of a map differ, so the order is of no account.
unfoldable pub put_values : Hash → Hash → Hash
unfolding put_value
put_values [] hash = hash
put_values ((k, v) ∷ kvs) hash = put_value k v (put_values kvs hash)

unfoldable pub h_set : Bytes → Hash → Redis → Redis
h_set key fields redis k = if bytes_eq k key then put_values fields (redis k) else redis k

-- `json.Marshal` of a session value, and `json.Unmarshal` into a new one: what it leaves there, and
-- whether there was no error.
pub record Json (S : Type 0) : Type 0 where
  pub zero : S
  pub marshal : S → Option Bytes
  pub unmarshal : Bytes → S × Bool

-- A function of `checkfns`, with the value that the code of the function works on.
pub data Check (S : Type 0) : Type 0 where
  always : Check S
  compares : Bytes → S → Check S

pub record RedisSession (S : Type 0) : Type 0 where
  pub key : Bytes
  pub value : Hash
  pub created : Bool
  pub checkfns : List (Bytes × Check S)

-- `User` of a request.
pub data User : Type 0 where
  not_logged_in login_failed : User
  logged_in : Bytes → User

abbrev pub is_nil : Hash → Bool
is_nil [] = true
is_nil (kv ∷ kvs) = false

abbrev pub stored : Option Bytes → Bytes
stored none = []
stored (some text) = text

module _ {S : Type 0} where
  -- The session of a request is read once, whatever the key of a later call.
  unfoldable pub get_redis_session : Redis → Bytes → Option (RedisSession S) → RedisSession S
  get_redis_session redis sid (some sess) = sess
  get_redis_session redis sid none = record {
    key = sid;
    value = redis sid;
    created = is_nil (redis sid);
    checkfns = [];
  }

  module _ (json : Json S) where
    -- The text that a value is compared with: that of the session, or of a new value where it is empty.
    abbrev pub entry_text : Option Bytes → Bytes
    entry_text found =
        if is_empty (stored found) then stored (json.marshal json.zero) else stored found

    abbrev pub is_new : Option Bytes → Bool
    is_new none = true
    is_new (some text) = is_empty (entry_text (some text))

    -- A value is read from its text, and made where there is none; `none` is an error. `session` is
    -- the name of the session of the request.
    unfoldable pub open_entry : Bytes → Bytes → RedisSession S → Option (S × Bool) × RedisSession S
    unfolding find put_value
    open_entry session name sess =
        let found = find session sess.value in
        let text = entry_text found in
        if is_new found
        then (
          some (json.zero, sess.created),
          record sess { checkfns = put_value name (compares text json.zero) sess.checkfns },
        )
        else let (s, ok) = json.unmarshal text in
          (
            if ok then some (s, sess.created) else none,
            record sess { checkfns = put_value name (compares text s) sess.checkfns },
          )

    unfoldable pub get_redis_session_entry :
        Redis → Bytes → Bytes → Bytes → Option (RedisSession S) → Option (S × Bool) × RedisSession S
    unfolding open_entry get_redis_session
    get_redis_session_entry redis session sid name cache =
        open_entry session name (get_redis_session redis sid cache)

    -- What the code of the function makes of the value.
    unfoldable pub assign : Bytes → S → RedisSession S → RedisSession S
    unfolding find put_value
    assign name s sess = elim (find name sess.checkfns) [
      | some (compares text old) ↦ record sess {
        checkfns = put_value name (compares text s) sess.checkfns;
      }
      | _ ↦ sess
    ]

    -- The values that changed are put into the session; `none` is an error of `json.Marshal`.
    unfoldable pub run_checks : List (Bytes × Check S) → Hash × Bool → Option (Hash × Bool)
    unfolding put_value
    run_checks [] (value, changed) = some (value, changed)
    run_checks ((name, always) ∷ checks) (value, changed) = run_checks checks (value, true)
    run_checks ((name, compares text s) ∷ checks) (value, changed) = elim (json.marshal s) [
      | none ↦ none
      | some end ↦
          run_checks checks
            (if bytes_eq text end then (value, changed) else (put_value name end value, true))
    ]

    -- What is deferred to the end of a request.
    unfoldable pub flush : RedisSession S → Redis → Redis
    unfolding run_checks h_set
    flush sess redis = elim (run_checks sess.checkfns (sess.value, false)) [
      | none ↦ redis
      | some (value, changed) ↦ if changed then h_set sess.key value redis else redis
    ]

    abbrev pub uid_key : Bytes → Bytes → Bytes
    uid_key prefix uid = prefix ++ codes ":uid:" ++ uid

    abbrev pub sid_key : Bytes → Bytes → Bytes
    sid_key prefix sid = prefix ++ codes ":sid:" ++ sid

    abbrev pub value_of : Option (S × Bool) × RedisSession S → Option S × RedisSession S
    value_of (none, sess) = (none, sess)
    value_of (some (s, created), sess) = (some s, sess)

    -- The session of the user takes what that of the session id has.
    unfoldable pub merge_session : RedisSession S → RedisSession S → RedisSession S
    unfolding put_value put_values
    merge_session of_sid sess = record sess {
      value = put_values of_sid.value sess.value;
      checkfns = put_value (codes "*") always sess.checkfns;
    }

    -- What becomes of the session under the uid.
    unfoldable pub after_uid :
        Redis
        → Bytes
        → Bytes
        → Bytes
        → Option (S × Bool) × RedisSession S
        → Option S × Option (RedisSession S)
    unfolding get_redis_session_entry get_redis_session merge_session
    after_uid redis prefix sid session (none, sess) = (none, some sess)
    after_uid redis prefix sid session (some (s, created), sess) =
        let of_sid = get_redis_session redis (sid_key prefix sid) (some sess) in
        if not created || of_sid.created
        then (some s, some of_sid)
        else let of_uid = get_redis_session redis (uid_key prefix []) (some of_sid) in
          let (again, last) = value_of (
            get_redis_session_entry redis session (sid_key prefix sid) session
              (some (merge_session of_sid of_uid))) in
          (again, some last)

    -- A user that is not logged in has no uid.
    unfoldable pub get_redis_session_entry_multi :
        Redis
        → Bytes
        → User
        → Bytes
        → Bytes
        → Option (RedisSession S)
        → Option S × Option (RedisSession S)
    unfolding get_redis_session_entry after_uid
    get_redis_session_entry_multi redis prefix login_failed sid session cache = (none, cache)
    get_redis_session_entry_multi redis prefix (logged_in uid) sid session cache =
        let (s, sess) =
          value_of (get_redis_session_entry redis session (sid_key prefix sid) session cache) in
        (s, some sess)
    get_redis_session_entry_multi redis prefix not_logged_in sid session cache =
        after_uid redis prefix sid session
          (get_redis_session_entry redis session (uid_key prefix []) session cache)
