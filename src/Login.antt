-- ===== src/Login.antt =====
-- serve_login.go: who a request comes from. What the HTTP library reads of a request is a record of
-- functions, which give the empty text where a value is missing; `verify` is the verification of a
-- signed token by the configured key.
pub mod Guests
pub mod Vouched
pub mod Cached
pub mod Issued
mod Tests
use allino.Base.{
  ℕ, ◌==◌, Bool, true, false, not, ◌&&◌, ◌||◌, List, [], ◌∷◌, ◌++◌, Option, none, some,
  if◌then◌else◌, leb,
}
use allino.Base.Bytes.{Bytes, bytes_eq, codes, strip}

-- A verified `cryptino.JSONWebToken`: fields of its body, and the body as it was signed.
pub record Jwt : Type 0 where
  pub subject : Bytes
  pub name : Bytes
  pub audience : Bytes
  pub raw_body : Bytes

-- `CookieConfig`, `OAuthConfig` and `CSRFTokenConfig`, as far as a login reads them.
pub record CookieConfig : Type 0 where
  pub name : Bytes
  pub jwt_audience : Bytes

pub record OAuthConfig : Type 0 where
  pub query_key : Bytes
  pub form_key : Bytes
  pub auth_bearer : Bool
  pub jwt_audience : Bytes

pub record CsrfTokenConfig : Type 0 where
  pub query_key : Bytes
  pub form_key : Bytes
  pub jwt_audience : Bytes

-- `LoginConfig` with whether there is a public key, and `Debug` of the configuration.
pub record LoginConfig : Type 0 where
  pub debug : Bool
  pub has_public_key : Bool
  pub oauth : OAuthConfig
  pub csrf_token : CsrfTokenConfig
  pub login_cookie : CookieConfig
  pub guest_cookie : CookieConfig

-- `fiber.Ctx`: Query, FormValue, Get and Cookies.
pub record Request : Type 0 where
  pub query : Bytes → Bytes
  pub form_value : Bytes → Bytes
  pub header : Bytes → Bytes
  pub cookies : Bytes → Bytes

pub data LoginError : Type 0 where
  no_public_key not_logged_in : LoginError
  refused : ℕ → LoginError

abbrev pub is_empty : Bytes → Bool
is_empty [] = true
is_empty (_ ∷ _) = false

-- A value that is only read where its key is configured.
abbrev pub keyed : (Bytes → Bytes) → Bytes → Bytes
keyed read key = if is_empty key then [] else read key

-- White space in ASCII.
abbrev pub is_space : ℕ → Bool
is_space c = c == 32 || (leb 9 c && leb c 13)

unfoldable pub trim_left : Bytes → Bytes
trim_left [] = []
trim_left (c ∷ s) = if is_space c then trim_left s else c ∷ s

unfoldable pub trim_right : Bytes → Bytes
trim_right [] = []
trim_right (c ∷ s) = let rest = trim_right s in if is_space c && is_empty rest then [] else c ∷ rest

-- The token of an `Authorization` header.
unfoldable pub bearer : Bytes → Bytes
unfolding trim_left trim_right
bearer h = elim (strip (codes "Bearer ") h) [ none ↦ [] | some t ↦ trim_right (trim_left t) ]

unfoldable pub access_token : OAuthConfig → Request → Bytes
unfolding bearer
access_token o r =
    let queried = keyed r.query o.query_key in
    let given = if is_empty queried then keyed r.form_value o.form_key else queried in
    if is_empty given && o.auth_bearer then bearer (r.header (codes "Authorization")) else given

unfoldable pub csrf_token : CsrfTokenConfig → Request → Bytes
csrf_token c r =
    let sent = r.header (codes "X-CSRF-Token") in
    let given = if is_empty sent then keyed r.form_value c.form_key else sent in
    if is_empty given then keyed r.query c.query_key else given

-- What `user` answers, with `authorizedBy` where it is set.
pub data Found : Type 0 where
  failed : LoginError → Found
  found : Jwt → Bool → Bytes → Found

module _ (verify : Bytes → Option Jwt) (c : LoginConfig) where
  -- The token where it is given, verifies, and is for the audience.
  unfoldable pub accepted : Bytes → Bytes → Option Jwt
  accepted audience token = if is_empty token then none else elim (verify token) [
    | none ↦ none
    | some jwt ↦ if bytes_eq jwt.audience audience then some jwt else none
  ]

  -- A cookie is writable with a token against forgery for the same subject.
  unfoldable pub cookie_writable : Request → Jwt → Bool
  cookie_writable r jwt = elim (accepted c.csrf_token.jwt_audience (csrf_token c.csrf_token r)) [
    | none ↦ false
    | some csrf ↦ bytes_eq jwt.subject csrf.subject
  ]

  unfoldable pub by_cookie : Request → Found
  by_cookie r = elim (accepted c.login_cookie.jwt_audience (r.cookies c.login_cookie.name)) [
    | none ↦ failed not_logged_in
    | some jwt ↦
        if cookie_writable r jwt
        then found jwt true c.csrf_token.jwt_audience
        else found jwt false c.login_cookie.jwt_audience
  ]

  unfoldable pub user : Request → Found
  user r =
      if not c.has_public_key
      then failed no_public_key
      else elim (accepted c.oauth.jwt_audience (access_token c.oauth r)) [
        | some jwt ↦ found jwt true c.oauth.jwt_audience
        | none ↦ by_cookie r
      ]

-- What an extension's `OnAuthZ` answers: an error, or a token, which may be nil.
pub data AuthZ : Type 0 where
  denied : ℕ → AuthZ
  passed : Option Jwt → AuthZ

unfoldable pub run_on_authz : List (Option Jwt → AuthZ) → Option Jwt → AuthZ
run_on_authz [] jwt = passed jwt
run_on_authz (f ∷ fs) jwt = elim (f jwt) [
  | denied e ↦ denied e
  | passed jwt' ↦ run_on_authz fs jwt'
]

-- The part of `requestCache` that a login fills.
pub record LoginCache : Type 0 where
  pub cached_login : Bool
  pub uid : Bytes
  pub name : Bytes
  pub writable : Bool
  pub jwt_body : Option Bytes
  pub err : Option LoginError
  pub authorized_by : Bytes

abbrev pub new_cache : LoginCache
new_cache = record {
  cached_login = false;
  uid = [];
  name = [];
  writable = false;
  jwt_body = none;
  err = none;
  authorized_by = [];
}

-- The results of `userWithJWT`.
pub record Login : Type 0 where
  pub uid : Bytes
  pub name : Bytes
  pub writable : Bool
  pub jwt_body : Option Bytes
  pub err : Option LoginError

abbrev pub refuse : LoginError → LoginCache → Option (Login × LoginCache)
refuse e k = some (
  record { uid = []; name = []; writable = false; jwt_body = none; err = some e },
  record k { cached_login = true; err = some e },
)

abbrev pub cached : LoginCache → Login
cached k = record {
  uid = k.uid;
  name = k.name;
  writable = k.writable;
  jwt_body = k.jwt_body;
  err = k.err;
}

-- `none` is the panic at a nil token.
unfoldable pub authorize :
    List (Option Jwt → AuthZ) → Found → LoginCache → Option (Login × LoginCache)
authorize exts (failed e) k = refuse e k
authorize exts (found jwt writable by) k = elim (run_on_authz exts (some jwt)) [
  | denied e ↦ refuse (refused e) (record k { authorized_by = by })
  | passed none ↦ none
  | passed (some j) ↦
      let k' : LoginCache = record k {
        cached_login = true;
        uid = j.subject;
        name = j.name;
        writable = writable;
        jwt_body = some j.raw_body;
        authorized_by = by;
      } in
      some (cached k', k')
]

abbrev pub debug_user : Bytes → Login
debug_user du = record { uid = du; name = du; writable = true; jwt_body = none; err = none }

module _ (verify : Bytes → Option Jwt) (c : LoginConfig) (exts : List (Option Jwt → AuthZ)) where
  unfoldable pub user_with_jwt : Request → LoginCache → Option (Login × LoginCache)
  user_with_jwt r k =
      let du = r.query (codes ".user") in
      if c.debug && not (is_empty du)
      then some (debug_user du, record k { authorized_by = codes "debug" })
      else if k.cached_login
      then some (cached k, k)
      else authorize exts (user verify c r) k

-- `AssumeUser`.
unfoldable pub assume_user : Bytes → Bytes → Bool → LoginCache → LoginCache
assume_user uid displayname writable k = record k {
  cached_login = true;
  uid = uid;
  name = displayname;
  writable = writable;
  authorized_by = codes "simulate";
}
