-- ===== src/Functions/Tests.antt =====
-- Requests, calls and paths for typedhandler.go.
use allino.Base.{
  ℕ, ◌≡◌, refl, ◌↔◌, true, false, not, ◌&&◌, ◌||◌, List, [], ◌∷◌, ◌++◌, Option, none, some, ◌⊎◌,
  if◌then◌else◌, take, drop,
}
use allino.Base.Bytes.{Bytes, bytes_eq, codes}
use allino.Base.Int.{pos}
use allino.Acl.{
  allowed, enforce_acl, expand_acl_template, expand_braces, expand_colons, lookup_var, replaced,
}
use allino.Calls.Options.{JobOption, proceed}
use allino.Login.{
  Jwt, Request, user_with_jwt, authorize, run_on_authz, user, accepted, access_token,
}
use allino.Streams.{is_target, stream_mode}
use allino.Functions.{
  Server, FunctionOption, guard, guard_login, directly, call_internal, RequestHandler, Replies,
  handle,
}
use allino.Functions.Guarded.{Entitled, call_internal-Entitled}
use allino.Functions.Requests.{in_order, AllPass, Stops, Replied, handle-Replied}
use allino.Functions.Paths.{priorities, compare_paths, compare_paths-order}

-- A token is the length of its subject, the subject, and the audience.
abbrev verify : Bytes → Option Jwt
verify [] = none
verify (n ∷ t) =
    some (record { subject = take n t; name = []; audience = drop n t; raw_body = codes "{}" })

abbrev server : Server
server = record {
  verify = verify;
  login = record {
    debug = false;
    has_public_key = true;
    oauth = record {
      query_key = codes "token";
      form_key = [];
      auth_bearer = false;
      jwt_audience = codes "api";
    };
    csrf_token = record { query_key = []; form_key = []; jwt_audience = codes "csrf" };
    login_cookie = record { name = codes "login"; jwt_audience = codes "cookie" };
    guest_cookie = record { name = codes "guest"; jwt_audience = codes "guest" };
  };
  on_authz = [];
  claims = λ body. some ((codes "org", codes "acme") ∷ []);
  tenant_claim = codes "org";
  enforcer = some (λ tenant uid resource action. some (bytes_eq uid (codes "bob")));
}

abbrev no_job : JobOption
no_job = record {
  async = false;
  cache = false;
  cache_err_on_hit = false;
  dedupe = false;
  priority = pos 0;
  cache_expire = 0;
  interval = 0;
}

abbrev docs : FunctionOption
docs = record {
  acl_resource = codes "doc";
  acl_action = codes "read";
  session_type = [];
  job_mode = [];
  job = no_job;
}

abbrev request : Request
request = record {
  query = λ k. if bytes_eq k (codes "token") then 3 ∷ codes "bob" ++ codes "api" else [];
  form_value = λ k. [];
  header = λ k. [];
  cookies = λ k. [];
}

bob_passes : guard server docs [] request ≡ some allowed
unfolding guard guard_login enforce_acl expand_acl_template expand_braces expand_colons
    user_with_jwt authorize run_on_authz user accepted access_token lookup_var replaced
bob_passes = refl

directly_called : call_internal allowed true docs false proceed ≡ directly
unfolding call_internal is_target stream_mode
directly_called = refl

call_internal-Entitled_example :
    (bytes_eq (codes "doc") [] ≡ true) ⊎ Entitled server docs [] request
call_internal-Entitled_example =
    call_internal-Entitled server docs [] request allowed true false proceed directly bob_passes
      directly_called (λ e. cc)

abbrev json_only : ℕ → Replies
json_only n = record { extensions = false ∷ []; option = none; content_type = true; html = true }

-- The second extension consumes the request.
handle-Replied_example :
    (AllPass (in_order {E = ℕ} none ((false, none) ∷ (true, none) ∷ []))
      × Replied 0 json_only json_only
          (handle 0 json_only json_only none none ((false, none) ∷ (true, none) ∷ []) (7, none))
          true
          (7, none))
    ⊎ ((before : List (RequestHandler ℕ)) × (g : RequestHandler ℕ) × (after : List
          (RequestHandler ℕ))
        × (in_order none ((false, none) ∷ (true, none) ∷ []) ≡ before ++ g ∷ after)
        × AllPass before
        × Stops g
        × Replied 0 json_only json_only
            (handle 0 json_only json_only none none ((false, none) ∷ (true, none) ∷ []) (7, none))
            false
            (0, g.1))
handle-Replied_example =
    handle-Replied 0 json_only json_only none ((false, none) ∷ (true, none) ∷ []) (7, none)

abbrev static_path : Bytes
static_path = codes "/a/b"

abbrev parameter_path : Bytes
parameter_path = codes "/a/:id"

abbrev star_path : Bytes
star_path = codes "/*"

compare_paths-order_example :
    ((not (compare_paths static_path parameter_path && compare_paths parameter_path star_path)
        || compare_paths static_path star_path)
      ≡ true)
    × (compare_paths static_path static_path ≡ false)
    × ((not (compare_paths static_path parameter_path)
            && not (compare_paths parameter_path static_path)
          ≡ true)
        ↔ (priorities static_path ≡ priorities parameter_path))
compare_paths-order_example = compare_paths-order static_path parameter_path star_path
