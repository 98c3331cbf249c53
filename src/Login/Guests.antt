-- ===== src/Login/Guests.antt =====
-- The session id of a guest and the tokens that the server issues, for serve_login.go. `sign` is the
-- signature of a token by the private key, `none` is its error; the fields of a token that the
-- library sets itself are in `basic`.
use allino.Base.{[], Option, none, some, if◌then◌else◌}
use allino.Base.Bytes.{Bytes}
use allino.Login.{Jwt, LoginConfig, CookieConfig, Request, is_empty, accepted}

-- A cookie by its name and value; the other attributes are those of the configuration.
pub record Cookie : Type 0 where
  pub name : Bytes
  pub value : Bytes

-- `ToFiberCookie`.
abbrev pub to_fiber_cookie : CookieConfig → Bytes → Cookie
to_fiber_cookie c value = record { name = c.name; value = value }

-- `SessionID`, without the cookie that it may set: `fresh` is the new UUID, `sid` the cached id.
unfoldable pub session_id : (Bytes → Option Jwt) → LoginConfig → Bytes → Request → Bytes → Bytes
session_id verify c fresh r sid =
    if is_empty sid
    then (if c.has_public_key
        then elim (accepted verify c c.guest_cookie.jwt_audience (r.cookies c.guest_cookie.name)) [
          | none ↦ fresh
          | some jwt ↦ if is_empty jwt.subject then fresh else jwt.subject
        ]
        else fresh)
    else sid

-- The token of a subject for an audience.
abbrev pub token_for : (Bytes → Jwt) → Bytes → Bytes → Bytes → Jwt
token_for basic subject name audience = record (basic subject) { name = name; audience = audience }

module _ (sign : Jwt → Option Bytes) (basic : Bytes → Jwt) (c : LoginConfig) where
  abbrev or_empty : Option Bytes → Bytes
  or_empty none = []
  or_empty (some t) = t

  unfoldable pub issue_csrf_token : Bytes → Bytes
  issue_csrf_token uid =
      or_empty (sign (record (basic uid) { audience = c.csrf_token.jwt_audience }))

  unfoldable pub issue_access_token : Bytes → Bytes → Bytes
  issue_access_token uid name = or_empty (sign (token_for basic uid name c.oauth.jwt_audience))

  unfoldable pub issue_login_cookie : Bytes → Bytes → Option Cookie
  issue_login_cookie uid name = elim (sign (token_for basic uid name c.login_cookie.jwt_audience)) [
    | none ↦ none
    | some t ↦ some (to_fiber_cookie c.login_cookie t)
  ]

  -- The session id is known by then.
  unfoldable pub issue_guest_cookie : Bytes → Option Cookie
  issue_guest_cookie sid =
      elim (sign (record (basic sid) { audience = c.guest_cookie.jwt_audience })) [
        | none ↦ none
        | some t ↦ some (to_fiber_cookie c.guest_cookie t)
      ]
