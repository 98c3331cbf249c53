-- ===== src/Login/Issued.antt =====
-- Requests with the tokens that serve_login.go issues.
use allino.Base.{
  ◌≡◌, refl, Bool, true, false, [], Option, none, some, if◌then◌else◌, Option-cases, ◌∙◌, ap, inl,
  inr, arith,
}
use allino.Base.Bytes.{Bytes, bytes_eq, bytes_eq_refl}
use allino.Login.{
  Jwt, LoginConfig, Request, is_empty, access_token, csrf_token, found, accepted, cookie_writable,
  by_cookie, user,
}
use allino.Login.Guests.{
  Cookie, session_id, token_for, issue_csrf_token, issue_login_cookie, issue_guest_cookie,
}

-- What the code relies on of the library of tokens: a signed token is not empty and verifies with the
-- subject and the audience that were signed, and a new token has the subject given.
pub record SignsTokens (verify : Bytes → Option Jwt) (sign : Jwt → Option Bytes)
    (basic : Bytes → Jwt) : Type 0 where
  pub verifies :
      (j : Jwt) (t : Bytes)
      → sign j ≡ some t
      → (v : Jwt) × (verify t ≡ some v) × (v.subject ≡ j.subject) × (v.audience ≡ j.audience)
  pub given : (j : Jwt) (t : Bytes) → sign j ≡ some t → is_empty t ≡ false
  pub basic_subject : (uid : Bytes) → (basic uid).subject ≡ uid

-- Whether a token against forgery is sent, and is for the user.
abbrev pub is_for : Bytes → Option Bytes → Bool
is_for uid none = false
is_for uid (some other) = bytes_eq uid other

module _ (verify : Bytes → Option Jwt) (sign : Jwt → Option Bytes) (basic : Bytes → Jwt)
    (c : LoginConfig) (library : SignsTokens verify sign basic) where
  -- A token that is signed for a subject and an audience is accepted for them.
  signed_accepted :
      (j : Jwt) (t : Bytes)
      → sign j ≡ some t
      → (v : Jwt) × (accepted verify c j.audience t ≡ some v) × (v.subject ≡ j.subject)
  unfolding accepted
  signed_accepted j t e =
      let (v, ok, subject, audience) = library.verifies j t e in
      (v, rw (library.given j t e, ok, audience, bytes_eq_refl j.audience), subject)

  -- What a request sends against forgery: nothing, or a token issued to a user.
  abbrev pub Sends : Request → Option Bytes → Type 0
  Sends r none = csrf_token c.csrf_token r ≡ []
  Sends r (some uid) =
      (t : Bytes) × (sign (record (basic uid) { audience = c.csrf_token.jwt_audience }) ≡ some t)
      × (csrf_token c.csrf_token r ≡ issue_csrf_token sign basic c uid)

  not_given : (audience : Bytes) → accepted verify c audience [] ≡ none
  unfolding accepted
  not_given audience = refl

  issued_csrf :
      (r : Request) (uid : Bytes)
      → Sends r (some uid)
      → (v : Jwt) × (accepted verify c c.csrf_token.jwt_audience (csrf_token c.csrf_token r)
          ≡ some v)
        × (v.subject ≡ uid)
  unfolding issue_csrf_token
  issued_csrf r uid (t, signed, e) =
      let (v, ok, subject) =
        signed_accepted (record (basic uid) { audience = c.csrf_token.jwt_audience }) t signed in
      (v, rw (e, signed) ok, subject ∙ library.basic_subject uid)

  cookie_writable-is_for :
      (r : Request) (v : Jwt) (sent : Option Bytes)
      → Sends r sent
      → cookie_writable verify c r v ≡ is_for v.subject sent
  unfolding cookie_writable
  cookie_writable-is_for r v none e =
      let missing : accepted verify c c.csrf_token.jwt_audience (csrf_token c.csrf_token r) ≡ none =
        rw e (not_given c.csrf_token.jwt_audience) in
      ground arith
  cookie_writable-is_for r v (some uid) e =
      let (csrf, ok, subject) = issued_csrf r uid e in
      let same : bytes_eq v.subject csrf.subject ≡ bytes_eq v.subject uid =
        ap (bytes_eq v.subject) subject in
      ground arith

  issued_login :
      (uid name : Bytes) (cookie : Cookie) (r : Request)
      → issue_login_cookie sign basic c uid name ≡ some cookie
      → r.cookies cookie.name ≡ cookie.value
      → (v : Jwt) × (accepted verify c c.login_cookie.jwt_audience (r.cookies c.login_cookie.name)
          ≡ some v)
        × (v.subject ≡ uid)
  unfolding issue_login_cookie
  issued_login uid name cookie r issued held =
      elim (Option-cases (sign (token_for basic uid name c.login_cookie.jwt_audience))) [
        | inl failing ↦ absurd (ground arith)
        | inr (t, signed) ↦
            let (v, ok, subject) =
              signed_accepted (token_for basic uid name c.login_cookie.jwt_audience) t signed in
            let value : r.cookies c.login_cookie.name ≡ t = ground arith in
            (v, rw value ok, subject ∙ library.basic_subject uid)
      ]

  -- A request with an issued login cookie and no access token is a login of the user that the
  -- cookie was issued to, writable exactly where it sends a token against forgery that was
  -- issued to the same user, where it sends none or an issued one.
  pub user-issue_login_cookie :
      (uid name : Bytes) (cookie : Cookie) (r : Request) (sent : Option Bytes)
      → c.has_public_key ≡ true
      → issue_login_cookie sign basic c uid name ≡ some cookie
      → r.cookies cookie.name ≡ cookie.value
      → access_token c.oauth r ≡ []
      → Sends r sent
      → (v : Jwt) × (by : Bytes) × (user verify c r ≡ found v (is_for uid sent) by)
        × (v.subject ≡ uid)
  unfolding user by_cookie
  user-issue_login_cookie uid name cookie r sent key issued held none_sent sends =
      let (v, ok, subject) = issued_login uid name cookie r issued held in
      let missing : accepted verify c c.oauth.jwt_audience (access_token c.oauth r) ≡ none =
        rw none_sent (not_given c.oauth.jwt_audience) in
      let writable : cookie_writable verify c r v ≡ is_for uid sent =
        cookie_writable-is_for r v sent sends ∙ ap (λ s. is_for s sent) subject in
      (
        v,
        if is_for uid sent then c.csrf_token.jwt_audience else c.login_cookie.jwt_audience,
        ground arith,
        subject,
      )

  -- A request with the guest cookie that was issued for a session id that is not empty has that
  -- session id.
  pub session_id-issue_guest_cookie :
      (sid fresh : Bytes) (cookie : Cookie) (r : Request)
      → c.has_public_key ≡ true
      → is_empty sid ≡ false
      → issue_guest_cookie sign basic c sid ≡ some cookie
      → r.cookies cookie.name ≡ cookie.value
      → session_id verify c fresh r [] ≡ sid
  unfolding issue_guest_cookie session_id
  session_id-issue_guest_cookie sid fresh cookie r key given issued held =
      elim (Option-cases (sign (record (basic sid) { audience = c.guest_cookie.jwt_audience }))) [
        | inl failing ↦ absurd (ground arith)
        | inr (t, signed) ↦
            let (v, ok, subject) =
              signed_accepted (record (basic sid) { audience = c.guest_cookie.jwt_audience }) t
                signed in
            let value : r.cookies c.guest_cookie.name ≡ t = ground arith in
            let same = subject ∙ library.basic_subject sid in
            let is_accepted : accepted verify c c.guest_cookie.jwt_audience
                  (r.cookies c.guest_cookie.name)
                ≡ some v =
              rw value ok in
            let not_empty : is_empty v.subject ≡ false = rw same given in ground arith
      ]
