-- ===== src/RedisSessions/Keys.antt =====
-- Which hash a request's session is read from, for session.go.
use allino.Base.{
  ◌≡◌, refl, Bool, true, not, ◌||◌, [], Option, none, some, Bool-cases, inl, inr, arith,
}
use allino.Base.Bytes.{Bytes}
use allino.RedisSessions.{
  Redis, Json, RedisSession, User, not_logged_in, login_failed, logged_in, find, entry_text, is_new,
  get_redis_session, open_entry, get_redis_session_entry, uid_key, sid_key, value_of, after_uid,
  get_redis_session_entry_multi,
}

passes : (a b : Bool) → a ≡ b → (not a || b) ≡ true
passes a b h = ground arith

module _ {S : Type 0} (json : Json S) where
  -- The session of one hash.
  abbrev pub session_under : Redis → Bytes → Bytes → Option S × Option (RedisSession S)
  session_under redis session key =
      let (s, sess) = value_of json (get_redis_session_entry json redis session key session none) in
      (s, some sess)

  -- The hash by the login: the session id of a user, the empty uid of any other.
  abbrev pub by_login : Redis → Bytes → User → Bytes → Bytes → Option S × Option (RedisSession S)
  by_login redis prefix login_failed sid session = (none, none)
  by_login redis prefix not_logged_in sid session =
      session_under redis session (uid_key json prefix [])
  by_login redis prefix (logged_in uid) sid session =
      session_under redis session (sid_key json prefix sid)

  -- An opened value says of its session whether it is new.
  abbrev Says : Option (S × Bool) × RedisSession S → Type 0
  Says (none, sess) = Unit
  Says (some (s, created), sess) = created ≡ sess.created

  open_entry-Says :
      (session name : Bytes) (sess : RedisSession S) → Says (open_entry json session name sess)
  unfolding open_entry
  open_entry-Says session name sess = elim (Bool-cases (is_new json (find session sess.value))) [
    | inl e ↦ rw e refl
    | inr e ↦ elim (Bool-cases ((json.unmarshal (entry_text json (find session sess.value))).1)) [
      | inl f ↦ rw (e, f) refl
      | inr f ↦ rw (e, f) tt
    ]
  ]

  after_uid-only :
      (redis : Redis) (prefix sid session : Bytes) (x : Option (S × Bool) × RedisSession S)
      → Says x
      → after_uid json redis prefix sid session x
        ≡ ((value_of json x).0, some ((value_of json x).1))
  unfolding after_uid get_redis_session
  after_uid-only redis prefix sid session (none, sess) h = refl
  after_uid-only redis prefix sid session (some (s, created), sess) h =
      rw (passes created sess.created h) refl

  -- A request that has not read a session yet reads that of its session id where it is logged
  -- in, and that of the uid key with the empty uid, one for all, where it is not; it never
  -- takes over one session into the other, and has none where its login failed otherwise.
  pub get_redis_session_entry_multi-key :
      (redis : Redis) (prefix : Bytes) (user : User) (sid session : Bytes)
      → get_redis_session_entry_multi json redis prefix user sid session none
        ≡ by_login redis prefix user sid session
  unfolding get_redis_session_entry_multi get_redis_session_entry
  get_redis_session_entry_multi-key redis prefix login_failed sid session = refl
  get_redis_session_entry_multi-key redis prefix (logged_in uid) sid session = refl
  get_redis_session_entry_multi-key redis prefix not_logged_in sid session =
      after_uid-only redis prefix sid session
        (get_redis_session_entry json redis session (uid_key json prefix []) session none)
        (open_entry-Says session session (get_redis_session redis (uid_key json prefix []) none))
