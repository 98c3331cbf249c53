-- ===== src/Login/Tests.antt =====
-- Requests for serve_login.go, with tokens that hold the length of the subject, the subject and the
-- audience.
use allino.Base.{
  ◌≡◌, refl, true, false, [], ◌∷◌, ◌++◌, Option, none, some, length, take, drop, take-append,
  drop-append, ◌⊎◌, if◌then◌else◌, arith,
}
use allino.Base.Bytes.{Bytes, bytes_eq, codes}
use allino.Login.{
  Jwt, LoginConfig, Request, is_empty, found, LoginCache, new_cache, Login, user, user_with_jwt,
  accepted, access_token, csrf_token, cookie_writable, by_cookie, authorize, run_on_authz,
}
use allino.Login.Vouched.{Granted, user_with_jwt-Granted}
use allino.Login.Guests.{issue_login_cookie, issue_csrf_token}
use allino.Login.Issued.{SignsTokens, is_for, user-issue_login_cookie}

abbrev sign : Jwt → Option Bytes
sign j = some (length j.subject ∷ j.subject ++ j.audience)

abbrev verify : Bytes → Option Jwt
verify [] = none
verify (n ∷ t) = some (record { subject = take n t; name = []; audience = drop n t; raw_body = t })

abbrev basic : Bytes → Jwt
basic uid = record { subject = uid; name = []; audience = []; raw_body = [] }

signs_lem :
    (j : Jwt) (t : Bytes)
    → sign j ≡ some t
    → (v : Jwt) × (verify t ≡ some v) × (v.subject ≡ j.subject) × (v.audience ≡ j.audience)
signs_lem j [] e = absurd (ground arith)
signs_lem j (n ∷ t) e = (
  record { subject = take n t; name = []; audience = drop n t; raw_body = t },
  refl,
  ground (arith, take-append j.subject j.audience),
  ground (arith, drop-append j.subject j.audience),
)

signs : SignsTokens verify sign basic
signs = record { verifies = signs_lem; given = λ j t e. ground arith; basic_subject = λ uid. refl }

abbrev config : LoginConfig
config = record {
  debug = false;
  has_public_key = true;
  oauth = record {
    query_key = [];
    form_key = [];
    auth_bearer = true;
    jwt_audience = codes "access_token";
  };
  csrf_token = record { query_key = []; form_key = []; jwt_audience = codes "csrf_token" };
  login_cookie = record { name = codes "login"; jwt_audience = codes "cookie" };
  guest_cookie = record { name = codes "guest"; jwt_audience = codes "guest" };
}

abbrev bob : Bytes
bob = codes "bob"

abbrev cookie_of : Bytes → Bytes
cookie_of audience = 3 ∷ bob ++ audience

-- Bob's cookies, with a token against forgery where one is sent.
abbrev request : Bytes → Request
request csrf = record {
  query = λ k. [];
  form_value = λ k. [];
  header = λ k. if bytes_eq k (codes "X-CSRF-Token") then csrf else [];
  cookies = λ k.
      if bytes_eq k (codes "login")
      then cookie_of (codes "cookie")
      else if bytes_eq k (codes "guest")
      then cookie_of (codes "guest")
      else [];
}

abbrev bob_jwt : Jwt
bob_jwt = record {
  subject = bob;
  name = [];
  audience = codes "cookie";
  raw_body = bob ++ codes "cookie";
}

abbrev bob_login : Login
bob_login = record {
  uid = bob;
  name = [];
  writable = false;
  jwt_body = some (bob ++ codes "cookie");
  err = none;
}

abbrev bob_cache : LoginCache
bob_cache = record {
  cached_login = true;
  uid = bob;
  name = [];
  writable = false;
  jwt_body = some (bob ++ codes "cookie");
  err = none;
  authorized_by = codes "cookie";
}

bob_logs_in : user_with_jwt verify config [] (request []) new_cache ≡ some (bob_login, bob_cache)
unfolding user_with_jwt authorize run_on_authz user accepted access_token csrf_token cookie_writable
    by_cookie
bob_logs_in = refl

user_with_jwt-Granted_example :
    ((config.debug ≡ true) × (is_empty bob ≡ false) × (bob ≡ []) × (bob_login.jwt_body ≡ none))
    ⊎ Granted verify config [] (request []) bob_login
user_with_jwt-Granted_example =
    user_with_jwt-Granted verify config [] (request []) new_cache bob_login bob_cache refl
      bob_logs_in refl

abbrev csrf_of_bob : Bytes
csrf_of_bob = cookie_of (codes "csrf_token")

user-issue_login_cookie_example :
    (v : Jwt) × (by : Bytes) × (user verify config (request csrf_of_bob)
      ≡ found v (is_for bob (some bob)) by)
    × (v.subject ≡ bob)
unfolding issue_login_cookie issue_csrf_token access_token csrf_token
user-issue_login_cookie_example =
    user-issue_login_cookie verify sign basic config signs bob []
      (record { name = codes "login"; value = cookie_of (codes "cookie") }) (request csrf_of_bob)
      (some bob) refl refl refl refl (csrf_of_bob, refl, refl)
