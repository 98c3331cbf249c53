-- ===== src/Login/Cached.antt =====
-- What a request keeps of its login, for serve_login.go.
use allino.Base.{◌≡◌, Bool, true, false, not, ◌&&◌, List, Option, some, Bool-cases, inl, inr, arith}
use allino.Base.Bytes.{Bytes, codes}
use allino.Login.{
  Jwt, LoginConfig, Request, is_empty, Found, failed, found, user, AuthZ, LoginCache, new_cache,
  Login, cached, authorize, user_with_jwt, assume_user, run_on_authz,
}
use allino.Login.Vouched.{AuthZ-cases}

module _ (verify : Bytes → Option Jwt) (c : LoginConfig) (exts : List (Option Jwt → AuthZ)) where
  authorize-cached :
      (f : Found) (l : Login) (k' : LoginCache)
      → authorize exts f new_cache ≡ some (l, k')
      → (k'.cached_login ≡ true) × (cached k' ≡ l)
  unfolding authorize
  authorize-cached (failed x) l k' e = ground arith
  authorize-cached (found jwt w by) l k' e = elim (AuthZ-cases (run_on_authz exts (some jwt))) [
    | inl (x, is) ↦ ground arith
    | inr (inl is) ↦ absurd (ground arith)
    | inr (inr (j, is)) ↦ ground arith
  ]

  -- Once.
  pub user_with_jwt-again :
      (r : Request) (l : Login) (k' : LoginCache)
      → user_with_jwt verify c exts r new_cache ≡ some (l, k')
      → user_with_jwt verify c exts r k' ≡ some (l, k')
  unfolding user_with_jwt
  user_with_jwt-again r l k' e =
      elim (Bool-cases (c.debug && not (is_empty (r.query (codes ".user"))))) [
        | inl debugged ↦ ground arith
        | inr usual ↦
            let (is_cached, same) = authorize-cached (user verify c r) l k' (ground arith) in
            ground arith
      ]

  -- On a server without debugging, a login after AssumeUser has the user, name and right to
  -- write that were given, but the token body and the error that the request had cached before.
  pub user_with_jwt-assume_user :
      (uid name : Bytes) (w : Bool) (r : Request) (k : LoginCache)
      → c.debug ≡ false
      → user_with_jwt verify c exts r (assume_user uid name w k)
        ≡ some (
          record { uid = uid; name = name; writable = w; jwt_body = k.jwt_body; err = k.err },
          assume_user uid name w k,
        )
  unfolding user_with_jwt assume_user
  user_with_jwt-assume_user uid name w r k off = rw off
