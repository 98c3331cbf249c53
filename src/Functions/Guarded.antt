-- ===== src/Functions/Guarded.antt =====
-- What stands behind a call that passes the guard, for typedhandler.go with serve_casbin.go and
-- serve_login.go.
use allino.Base.{
  ◌≡◌, ◌≢◌, refl, ap, sym, ◌∙◌, subst, Bool, true, false, [], Option, none, some, ◌⊎◌, inl, inr,
  if◌then◌else◌, Bool-cases, Option-cases, arith,
}
use allino.Base.Bytes.{Bytes, bytes_eq, codes}
use allino.Acl.{
  Vars, lookup_var, Verdict, allowed, forbidden, not_configured, variable_missing, other_error,
  expand_acl_template, AclCall,
}
use allino.Acl.Templates.{Granted as AclGranted, enforce_acl-Granted}
use allino.Calls.Options.{Abort}
use allino.Login.{Request, LoginCache, new_cache, Login, user_with_jwt}
use allino.Login.Vouched.{Granted, user_with_jwt-Granted}
use allino.Login.Cached.{user_with_jwt-again}
use allino.Functions.{
  Server, FunctionOption, claim_of, user_of, guard_login, guard, Way, refused, call_internal,
}

-- The engine allows a user of a tenant the expanded action on the expanded resource. The user and the
-- tenant are those of a token that stands behind the request.
pub record Entitled (s : Server) (o : FunctionOption) (vars : Vars) (r : Request) : Type 0 where
  pub login : Login
  pub granted : Granted s.verify s.login s.on_authz r login
  pub claims : Vars
  pub claimed : s.claims granted.final.raw_body ≡ some claims
  pub tenant : Bytes
  pub of_tenant : lookup_var s.tenant_claim claims ≡ some tenant
  pub not_empty : bytes_eq tenant [] ≡ false
  pub resource : Bytes
  pub action : Bytes
  pub is_resource : expand_acl_template o.acl_resource vars ≡ some resource
  pub is_action : expand_acl_template o.acl_action vars ≡ some action
  pub enforce : Bytes → Bytes → Bytes → Bytes → Option Bool
  pub is_enforcer : s.enforcer ≡ some enforce
  pub allows :
      enforce tenant login.uid resource (if bytes_eq action [] then codes "access" else action)
      ≡ some true

-- A user without an error, and the tenant of a token's body.
user_of-some : (l : Login) (uid : Bytes) → user_of l ≡ some uid → (l.err ≡ none) × (l.uid ≡ uid)
user_of-some l uid e = ground arith

claim_of-some :
    (s : Server) (l : Login) (tenant : Bytes)
    → claim_of s l ≡ some tenant
    → (body : Bytes) × (m : Vars) × (l.jwt_body ≡ some body)
      × (s.claims body ≡ some m)
      × (lookup_var s.tenant_claim m ≡ some tenant)
claim_of-some s l tenant e = elim (Option-cases l.jwt_body) [
  | inl none_there ↦ absurd (ground arith)
  | inr (body, is_body) ↦ elim (Option-cases (s.claims body)) [
    | inl no_json ↦ absurd (ground arith)
    | inr (m, is_m) ↦ (body, m, is_body, is_m, ground arith)
  ]
]

guard-login :
    (s : Server) (o : FunctionOption) (vars : Vars) (r : Request) (v : Verdict)
    → bytes_eq o.acl_resource [] ≡ false
    → guard s o vars r ≡ some v
    → v ≡ allowed
    → (l : Login) × (k : LoginCache) × (user_with_jwt s.verify s.login s.on_authz r new_cache
        ≡ some (l, k))
      × (guard_login s o vars l l ≡ v)
unfolding guard
guard-login s o vars r v asks e ok =
    elim (Option-cases (user_with_jwt s.verify s.login s.on_authz r new_cache)) [
      | inl panic ↦ absurd (elim (Option-cases s.enforcer) [
        | inl nothing ↦ ground arith
        | inr (f, some_there) ↦ ground arith
      ])
      | inr ((l, k), is) ↦
          let again = user_with_jwt-again s.verify s.login s.on_authz r l k is in
          (
            l,
            k,
            is,
            elim (Option-cases s.enforcer) [
              | inl nothing ↦ absurd (ground arith)
              | inr (f, some_there) ↦ ground arith
            ],
          )
    ]

Entitled-inr :
    (s : Server) (o : FunctionOption) (vars : Vars) (r : Request) (l : Login) (k : LoginCache)
    (enforce : Bytes → Bytes → Bytes → Bytes → Option Bool) (uid tenant resource action : Bytes)
    → user_with_jwt s.verify s.login s.on_authz r new_cache ≡ some (l, k)
    → s.enforcer ≡ some enforce
    → user_of l ≡ some uid
    → claim_of s l ≡ some tenant
    → bytes_eq tenant [] ≡ false
    → expand_acl_template o.acl_resource vars ≡ some resource
    → expand_acl_template o.acl_action vars ≡ some action
    → enforce tenant uid resource (if bytes_eq action [] then codes "access" else action)
      ≡ some true
    → Entitled s o vars r
Entitled-inr s o vars r l k enforce uid tenant resource action is en us cl ne res act ok =
    let (no_error, same) = user_of-some l uid us in
    let (body, m, is_body, is_m, is_tenant) = claim_of-some s l tenant cl in
    elim (user_with_jwt-Granted s.verify s.login s.on_authz r new_cache l k refl is no_error) [
      | inl (debug, given, is_query, no_body) ↦ absurd (ground arith)
      | inr g ↦ record {
        login = l;
        granted = g;
        claims = m;
        claimed = subst (λ b. s.claims b ≡ some m) (ground (arith, g.body)) is_m;
        tenant = tenant;
        of_tenant = is_tenant;
        not_empty = ne;
        resource = resource;
        action = action;
        is_resource = res;
        is_action = act;
        enforce = enforce;
        is_enforcer = en;
        allows =
            ap
              (λ u.
                enforce tenant u resource (if bytes_eq action [] then codes "access" else action))
              same
            ∙ ok;
      }
    ]

call_internal-allowed :
    (v : Verdict) (streams : Bool) (o : FunctionOption) (fromcall : Bool) (ctrl : Abort) (way : Way)
    → call_internal v streams o fromcall ctrl ≡ way
    → way ≢ refused v
    → v ≡ allowed
unfolding call_internal
call_internal-allowed allowed streams o fromcall ctrl way is taken = refl
call_internal-allowed forbidden streams o fromcall ctrl way is taken = absurd (taken (sym is))
call_internal-allowed not_configured streams o fromcall ctrl way is taken = absurd (taken (sym is))
call_internal-allowed variable_missing streams o fromcall ctrl way is taken =
    absurd (taken (sym is))
call_internal-allowed other_error streams o fromcall ctrl way is taken = absurd (taken (sym is))

guard_login-Entitled :
    (s : Server) (o : FunctionOption) (vars : Vars) (r : Request) (l : Login) (k : LoginCache)
    → bytes_eq o.acl_resource [] ≡ false
    → user_with_jwt s.verify s.login s.on_authz r new_cache ≡ some (l, k)
    → guard_login s o vars l l ≡ allowed
    → Entitled s o vars r
unfolding guard_login
guard_login-Entitled s o vars r l k asks is ok =
    let c : AclCall = record {
      resource = o.acl_resource;
      action = o.acl_action;
      enforcer = s.enforcer;
      user = user_of l;
      tenant = claim_of s l;
      vars = vars;
    } in
    elim (subst (AclGranted c) ok (enforce_acl-Granted c)) [
      | inl free ↦ absurd (ground arith)
      | inr (enforce, uid, tenant, resource, action, en, us, cl, ne, res, act, allows) ↦
          Entitled-inr s o vars r l k enforce uid tenant resource action is en us cl ne res act
            allows
    ]

-- A call of a function with an ACL resource, in a request without a login before, goes any way
-- but that of a refusal only where a verified token stands behind the request, the claims of
-- its body name a tenant that is not empty, and the policy engine allows the user of that
-- token, in that tenant, the expanded action on the expanded resource.
pub call_internal-Entitled :
    (s : Server) (o : FunctionOption) (vars : Vars) (r : Request) (v : Verdict) (streams : Bool)
    (fromcall : Bool) (ctrl : Abort) (way : Way)
    → guard s o vars r ≡ some v
    → call_internal v streams o fromcall ctrl ≡ way
    → way ≢ refused v
    → (bytes_eq o.acl_resource [] ≡ true) ⊎ Entitled s o vars r
call_internal-Entitled s o vars r v streams fromcall ctrl way e is taken =
    let ok = call_internal-allowed v streams o fromcall ctrl way is taken in
    elim (Bool-cases (bytes_eq o.acl_resource [])) [
      | inl free ↦ inl free
      | inr asks ↦
          let (l, k, logged_in, guarded) = guard-login s o vars r v asks e ok in
          inr (guard_login-Entitled s o vars r l k asks logged_in (guarded ∙ ok))
    ]
