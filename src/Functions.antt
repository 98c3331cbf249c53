-- ===== src/Functions.antt =====
-- typedhandler.go: how a request to a typed function is handled, and how a call finds its way. The
-- handlers of the options and of the extensions are arguments, and so are the ways of a call.
pub mod Guarded
pub mod Requests
pub mod Paths
mod Tests
use allino.Base.{
  ℕ, ◌+◌, Bool, true, false, not, ◌&&◌, ◌||◌, List, [], ◌∷◌, Option, none, some, if◌then◌else◌,
}
use allino.Base.Bytes.{Bytes, bytes_eq, codes}
use allino.Acl.{Vars, lookup_var, Verdict, allowed, not_configured, enforce_acl}
use allino.Calls.Options.{JobOption, Abort, is_set}
use allino.Streams.{is_target}
use allino.Login.{Jwt, LoginConfig, Request, AuthZ, LoginCache, new_cache, Login, user_with_jwt}

-- What the guard of a call reads of the server: the verification of tokens, the login, the
-- extensions, the claims of a token's body as texts (`none` is no JSON), the name of the claim of the
-- tenant, and the policy engine.
pub record Server : Type 0 where
  pub verify : Bytes → Option Jwt
  pub login : LoginConfig
  pub on_authz : List (Option Jwt → AuthZ)
  pub claims : Bytes → Option Vars
  pub tenant_claim : Bytes
  pub enforcer : Option (Bytes → Bytes → Bytes → Bytes → Option Bool)

-- `Option` of a function, as far as a call reads it.
pub record FunctionOption : Type 0 where
  pub acl_resource : Bytes
  pub acl_action : Bytes
  pub session_type : Bytes
  pub job_mode : Bytes
  pub job : JobOption

-- `Claim`, of a login: a nil body is no JSON.
abbrev pub claim_of : Server → Login → Option Bytes
claim_of s l = elim l.err [
  | some _ ↦ none
  | none ↦ elim l.jwt_body [
    | none ↦ none
    | some body ↦ elim (s.claims body) [ none ↦ none | some m ↦ lookup_var s.tenant_claim m ]
  ]
]

abbrev pub user_of : Login → Option Bytes
user_of l = elim l.err [ some _ ↦ none | none ↦ some l.uid ]

-- The guard with a user and a claim of a login.
unfoldable pub guard_login : Server → FunctionOption → Vars → Login → Login → Verdict
guard_login s o vars l l' = enforce_acl (record {
  resource = o.acl_resource;
  action = o.acl_action;
  enforcer = s.enforcer;
  user = user_of l;
  tenant = claim_of s l';
  vars = vars;
})

-- `enforceACL` with `User` and `Claim`, in a request without a login before; `none` is a panic.
unfoldable pub guard : Server → FunctionOption → Vars → Request → Option Verdict
guard s o vars r = if bytes_eq o.acl_resource [] then some allowed else elim s.enforcer [
  | none ↦ some not_configured
  | some _ ↦ elim (user_with_jwt s.verify s.login s.on_authz r new_cache) [
    | none ↦ none
    | some (l, k) ↦ elim (user_with_jwt s.verify s.login s.on_authz r k) [
      | none ↦ none
      | some (l', k') ↦ some (guard_login s o vars l l')
    ]
  ]
]

-- The ways of a call.
pub data Way : Type 0 where
  refused : Verdict → Way
  over_session over_stream over_job directly : Way

abbrev pub is_allowed : Verdict → Bool
is_allowed allowed = true
is_allowed _ = false

-- `call_internal`: `streams` is whether there is a strategy for streams.
unfoldable pub call_internal : Verdict → Bool → FunctionOption → Bool → Abort → Way
call_internal v streams o fromcall ctrl =
    if not (is_allowed v)
    then refused v
    else if not (bytes_eq o.session_type [])
    then over_session
    else if streams && is_target o.job_mode
    then over_stream
    else if (fromcall && o.job.async) || o.job.dedupe || o.job.cache || is_set ctrl
    then over_job
    else directly

-- `call_session` of a call: sessions are not for calls of functions.
pub data SessionWay : Type 0 where
  not_with_call invalid_type sticky : SessionWay

unfoldable pub call_session : FunctionOption → Bool → SessionWay
call_session o fromcall =
    if fromcall
    then not_with_call
    else if bytes_eq o.session_type (codes "sticky")
    then sticky
    else invalid_type

-- `handlefunc`: a panic of the function is a server error.
pub data Returned (U E : Type 0) : Type 0 where
  returned : U → Option E → Returned U E
  panicked : Returned U E

unfoldable pub handlefunc : {U E : Type 0} → U → E → Returned U E → U × Option E
handlefunc zero_output server_error (returned output err) = (output, err)
handlefunc zero_output server_error panicked = (zero_output, some server_error)

-- A handler of requests: whether it consumed the request, and its error.
abbrev pub RequestHandler : Type 0 → Type 0
RequestHandler E = Bool × Option E

module _ {E : Type 0} where
  -- The loop over the extensions, with `consumed` and `err` so far.
  unfoldable pub run_request_handlers :
      List (RequestHandler E) → RequestHandler E → RequestHandler E
  run_request_handlers [] (consumed, err) = (consumed, err)
  run_request_handlers (h ∷ hs) (consumed, some e) = run_request_handlers hs (consumed, some e)
  run_request_handlers (h ∷ hs) (true, none) = run_request_handlers hs (true, none)
  run_request_handlers (h ∷ hs) (false, none) = run_request_handlers hs h

  abbrev pub first_handler : Option (RequestHandler E) → RequestHandler E
  first_handler none = (false, none)
  first_handler (some h) = h

-- Who answers a request.
pub data Responder : Type 0 where
  extension : ℕ → Responder
  option_handler by_content_type by_html nobody : Responder

-- The first extension that answers, by its place.
unfoldable pub first_answer : ℕ → List Bool → Option ℕ
first_answer i [] = none
first_answer i (b ∷ bs) = let rest = first_answer (i + 1) bs in if b then some i else rest

-- What the handlers of replies answer: those of the extensions, that of the options where there is
-- one, and whether there are handlers for the content type and for HTML.
pub record Replies : Type 0 where
  pub extensions : List Bool
  pub option : Option Bool
  pub content_type : Bool
  pub html : Bool

abbrev pub answers : Option Bool → Bool
answers none = false
answers (some b) = b

unfoldable pub respond : Replies → Responder
unfolding first_answer
respond h = elim (first_answer 0 h.extensions) [
  | some i ↦ extension i
  | none ↦
      if answers h.option
      then option_handler
      else if h.content_type
      then by_content_type
      else if h.html
      then by_html
      else nobody
]

-- How a request ends: whether the function was called, the output and the error, and who answers.
pub record Handled (U E : Type 0) : Type 0 where
  pub ran : Bool
  pub result : U × Option E
  pub responder : Responder

module _ {U E : Type 0} (zero_output : U) (on_error : E → Replies) (on_response : U → Replies) where
  unfoldable pub reply : Bool → U × Option E → Handled U E
  unfolding respond
  reply ran (output, some e) = record {
    ran = ran;
    result = (output, some e);
    responder = respond (on_error e);
  }
  reply ran (output, none) = record {
    ran = ran;
    result = (output, none);
    responder = respond (on_response output);
  }

  -- What follows the handlers of requests.
  unfoldable pub after_handlers : RequestHandler E → U × Option E → Handled U E
  unfolding reply
  after_handlers (consumed, some e) called = reply false (zero_output, some e)
  after_handlers (true, none) called = reply false (zero_output, none)
  after_handlers (false, none) called = reply true called

  -- The `handler` of a function: `param_err` is the error of `getAll`, `called` what `call_internal`
  -- would answer.
  unfoldable pub handle :
      Option E → Option (RequestHandler E) → List (RequestHandler E) → U × Option E → Handled U E
  unfolding run_request_handlers after_handlers reply
  handle (some e) own exts called = reply false (zero_output, some e)
  handle none own exts called =
      after_handlers (run_request_handlers exts (first_handler own)) called
