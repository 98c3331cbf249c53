-- ===== src/Login/Vouched.antt =====
-- Which tokens stand behind a login of serve_login.go.
use allino.Base.{
  ℕ, ◌≡◌, refl, sym, subst, Bool, true, false, not, ◌&&◌, ◌⊎◌, inl, inr, List, Option, none, some,
  Bool-cases, Option-cases, arith,
}
use allino.Base.Bytes.{Bytes, bytes_eq, codes, eq_of_bytes_eq}
use allino.Login.{
  Jwt, LoginConfig, Request, is_empty, access_token, csrf_token, Found, failed, found, accepted,
  cookie_writable, by_cookie, user, AuthZ, denied, passed, run_on_authz, LoginCache, Login,
  authorize, user_with_jwt,
}

pub AuthZ-cases :
    (a : AuthZ)
    → ((e : ℕ) × (a ≡ denied e)) ⊎ (a ≡ passed none) ⊎ ((j : Jwt) × (a ≡ passed (some j)))
AuthZ-cases (denied e) = inl (e, refl)
AuthZ-cases (passed none) = inr (inl refl)
AuthZ-cases (passed (some j)) = inr (inr (j, refl))

module _ (verify : Bytes → Option Jwt) (c : LoginConfig) where
  -- A token that is given verifies, for an audience.
  abbrev pub Verifies : Bytes → Bytes → Jwt → Type 0
  Verifies audience token jwt =
      (is_empty token ≡ false) × (verify token ≡ some jwt) × (jwt.audience ≡ audience)

  -- The login cookie is the token, and it is writable only with a token against forgery of its
  -- subject.
  pub record CookieVouched (r : Request) (jwt : Jwt) (writable : Bool) : Type 0 where
    pub cookie : Verifies c.login_cookie.jwt_audience (r.cookies c.login_cookie.name) jwt
    pub csrf :
        (writable ≡ false)
        ⊎ ((csrf : Jwt) × Verifies c.csrf_token.jwt_audience (csrf_token c.csrf_token r) csrf
            × (jwt.subject ≡ csrf.subject))

  -- The token of a login: a key is configured, and it is an access token or the login cookie.
  abbrev pub Vouched : Request → Jwt → Bool → Type 0
  Vouched r jwt writable =
      (c.has_public_key ≡ true)
      × (Verifies c.oauth.jwt_audience (access_token c.oauth r) jwt ⊎ CookieVouched r jwt writable)

  accepted-Verifies :
      (audience token : Bytes) (jwt : Jwt)
      → accepted verify c audience token ≡ some jwt
      → Verifies audience token jwt
  unfolding accepted
  accepted-Verifies audience token jwt e = ground (arith, eq_of_bytes_eq jwt.audience audience)

  by_cookie-found :
      (r : Request) (jwt : Jwt) (w : Bool) (by : Bytes)
      → by_cookie verify c r ≡ found jwt w by
      → (accepted verify c c.login_cookie.jwt_audience (r.cookies c.login_cookie.name) ≡ some jwt)
        × (w ≡ cookie_writable verify c r jwt)
  unfolding by_cookie
  by_cookie-found r jwt w by e = ground arith

  cookie_writable-vouched :
      (r : Request) (jwt : Jwt)
      → (cookie_writable verify c r jwt ≡ false)
        ⊎ ((csrf : Jwt) × Verifies c.csrf_token.jwt_audience (csrf_token c.csrf_token r) csrf
            × (jwt.subject ≡ csrf.subject))
  unfolding cookie_writable
  cookie_writable-vouched r jwt =
      elim (Option-cases
        (accepted verify c c.csrf_token.jwt_audience (csrf_token c.csrf_token r))) [
          | inl nothing ↦ inl (ground arith)
          | inr (csrf, e) ↦ elim (Bool-cases (bytes_eq jwt.subject csrf.subject)) [
            | inl same ↦ inr (
              csrf,
              accepted-Verifies c.csrf_token.jwt_audience (csrf_token c.csrf_token r) csrf e,
              eq_of_bytes_eq jwt.subject csrf.subject same,
            )
            | inr other ↦ inl (ground arith)
          ]
        ]

  by_cookie-CookieVouched :
      (r : Request) (jwt : Jwt) (w : Bool) (by : Bytes)
      → by_cookie verify c r ≡ found jwt w by
      → CookieVouched r jwt w
  by_cookie-CookieVouched r jwt w by e =
      let (is_found, is_w) = by_cookie-found r jwt w by e in
      record {
        cookie =
            accepted-Verifies c.login_cookie.jwt_audience (r.cookies c.login_cookie.name) jwt
              is_found;
        csrf = rw is_w (cookie_writable-vouched r jwt);
      }

  user-Vouched :
      (r : Request) (jwt : Jwt) (w : Bool) (by : Bytes)
      → user verify c r ≡ found jwt w by
      → Vouched r jwt w
  unfolding user
  user-Vouched r jwt w by e = elim (Bool-cases c.has_public_key) [
    | inr none_there ↦ absurd (ground arith)
    | inl there ↦ (
      there,
      elim (Option-cases (accepted verify c c.oauth.jwt_audience (access_token c.oauth r))) [
        | inl nothing ↦ inr (by_cookie-CookieVouched r jwt w by (ground arith))
        | inr (j, is_found) ↦
            inl (accepted-Verifies c.oauth.jwt_audience (access_token c.oauth r) jwt (ground arith))
      ],
    )
  ]

  -- The answer of a login without an error: the debug user, the token that the extensions make of
  -- one that is vouched for, or what was cached.
  pub record Granted (exts : List (Option Jwt → AuthZ)) (r : Request) (l : Login) : Type 0 where
    pub token : Jwt
    pub vouched : Vouched r token l.writable
    pub final : Jwt
    pub extended : run_on_authz exts (some token) ≡ passed (some final)
    pub subject : l.uid ≡ final.subject
    pub body : l.jwt_body ≡ some final.raw_body

  authorize-passed :
      (exts : List (Option Jwt → AuthZ)) (jwt : Jwt) (w : Bool) (by : Bytes) (k : LoginCache)
      (l : Login) (k' : LoginCache)
      → authorize exts (found jwt w by) k ≡ some (l, k')
      → l.err ≡ none
      → (j : Jwt) × (run_on_authz exts (some jwt) ≡ passed (some j))
        × (l.uid ≡ j.subject)
        × (l.writable ≡ w)
        × (l.jwt_body ≡ some j.raw_body)
  unfolding authorize
  authorize-passed exts jwt w by k l k' e ok = elim (AuthZ-cases (run_on_authz exts (some jwt))) [
    | inl (x, is) ↦ absurd (ground arith)
    | inr (inl is) ↦ absurd (ground arith)
    | inr (inr (j, is)) ↦ (j, is, ground arith, ground arith, ground arith)
  ]

  authorize-Granted :
      (exts : List (Option Jwt → AuthZ)) (r : Request) (k : LoginCache) (l : Login)
      (k' : LoginCache)
      → authorize exts (user verify c r) k ≡ some (l, k')
      → l.err ≡ none
      → Granted exts r l
  authorize-Granted exts r k l k' e ok = go (user verify c r) refl e
    where
      go : (f : Found) → user verify c r ≡ f → authorize exts f k ≡ some (l, k') → Granted exts r l
      go (failed x) is e' = absurd (unfold authorize in ground arith)
      go (found jwt w by) is e' =
          let (j, run, uid, same, body) = authorize-passed exts jwt w by k l k' e' ok in
          record {
            token = jwt;
            vouched = subst (Vouched r jwt) (sym same) (user-Vouched r jwt w by is);
            final = j;
            extended = run;
            subject = uid;
            body = body;
          }

  -- The first login of a request that ends without an error, where it does not panic, is of the
  -- user in .user of a debug server, or is of the token that the extensions make of one that
  -- verifies by a configured key: an access token, or the login cookie, each for its audience;
  -- a login by cookie is writable only with a token against forgery that verifies, for its
  -- audience and for the same subject.
  pub user_with_jwt-Granted :
      (exts : List (Option Jwt → AuthZ)) (r : Request) (k : LoginCache) (l : Login)
      (k' : LoginCache)
      → k.cached_login ≡ false
      → user_with_jwt verify c exts r k ≡ some (l, k')
      → l.err ≡ none
      → ((c.debug ≡ true)
          × (is_empty l.uid ≡ false)
          × (l.uid ≡ r.query (codes ".user"))
          × (l.jwt_body ≡ none))
        ⊎ Granted exts r l
  unfolding user_with_jwt
  user_with_jwt-Granted exts r k l k' fresh e ok =
      elim (Bool-cases (c.debug && not (is_empty (r.query (codes ".user"))))) [
        | inl debugged ↦ inl (ground arith)
        | inr usual ↦ inr (authorize-Granted exts r k l k' (ground arith) ok)
      ]
