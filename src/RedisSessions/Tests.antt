-- ===== src/RedisSessions/Tests.antt =====
-- Two requests of one session, and a guest, for session_redis.go and session.go.
use allino.Base.{ℕ, ◌≡◌, refl, Bool, true, false, [], ◌∷◌, none, some}
use allino.Base.Bytes.{Bytes, codes}
use allino.RedisSessions.{
  Redis, Json, not_logged_in, find, put_value, put_values, h_set, get_redis_session, open_entry,
  get_redis_session_entry, assign, run_checks, flush, after_uid, merge_session,
  get_redis_session_entry_multi,
}
use allino.RedisSessions.Recalled.{served, Recalls, Writes, served-Recalls}
use allino.RedisSessions.Keys.{by_login, get_redis_session_entry_multi-key}

-- A number is the byte.
abbrev number_of : Bytes → ℕ × Bool
number_of (n ∷ []) = (n, true)
number_of _ = (0, false)

abbrev json : Json ℕ
json = record { zero = 0; marshal = λ n. some (n ∷ []); unmarshal = number_of }

json-Writes : Writes json
json-Writes s = (s ∷ [], refl, refl, refl)

abbrev hashes : Redis
hashes k = (codes "cart", 7 ∷ []) ∷ (codes "seen", 1 ∷ []) ∷ []

abbrev edit : ℕ → ℕ
edit n = 8

cart :
    (get_redis_session_entry json hashes (codes "cart") (codes "s1") (codes "cart") none).0
    ≡ some (7, false)
unfolding get_redis_session_entry open_entry get_redis_session find put_value
cart = refl

cart_written :
    served json hashes (codes "s1") (codes "cart") edit (codes "s1")
    ≡ (codes "cart", 8 ∷ []) ∷ (codes "seen", 1 ∷ []) ∷ []
unfolding get_redis_session_entry open_entry get_redis_session find put_value assign flush
    run_checks h_set put_values
cart_written = refl

served-Recalls_example :
    Recalls json hashes
      (served json hashes (codes "s1") (codes "cart") edit)
      (codes "s1")
      (codes "cart")
      8
served-Recalls_example =
    served-Recalls json json-Writes hashes (codes "s1") (codes "cart") 7 false edit cart

-- Two guests read one hash.
guests :
    get_redis_session_entry_multi json hashes
      (codes "p")
      not_logged_in
      (codes "a")
      (codes "cart")
      none
    ≡ get_redis_session_entry_multi json hashes
        (codes "p")
        not_logged_in
        (codes "b")
        (codes "cart")
        none
unfolding get_redis_session_entry_multi get_redis_session_entry open_entry get_redis_session find
    put_value after_uid merge_session
guests = refl

get_redis_session_entry_multi-key_example :
    get_redis_session_entry_multi json hashes
      (codes "p")
      not_logged_in
      (codes "a")
      (codes "cart")
      none
    ≡ by_login json hashes (codes "p") not_logged_in (codes "a") (codes "cart")
get_redis_session_entry_multi-key_example =
    get_redis_session_entry_multi-key json hashes (codes "p") not_logged_in (codes "a")
      (codes "cart")
