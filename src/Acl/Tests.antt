-- ===== src/Acl/Tests.antt =====
-- Runs of policy templates, and instances of their theorems.
use allino.Base.{◌≡◌, refl, [], ◌∷◌, List, some}
use allino.Base.Bytes.{codes, bytes_eq}
use allino.Acl.{
  Vars, lookup_var, AclCall, allowed, enforce_acl, expand_acl_template, expand_braces,
  expand_colons, replaced,
}
use allino.Acl.Templates.{Part, text, braced}

abbrev vars : Vars
vars = (codes "id", codes "42") ∷ (codes "tenant", codes "acme") ∷ []

abbrev parts : List Part
parts = text (codes "doc/") ∷ braced (codes "id") ∷ []

-- A value with a colon is expanded again: the caller of `{id}` names the tenant's variable.
expanded_twice :
    expand_acl_template (codes "doc/{id}") ((codes "id", codes ":tenant") ∷ vars)
    ≡ some (codes "doc/acme")
unfolding expand_acl_template expand_braces expand_colons replaced lookup_var
expanded_twice = refl

abbrev request : AclCall
request = record {
  resource = codes "doc/{id}";
  action = [];
  enforcer = some (λ t u r a. some (bytes_eq a (codes "access")));
  user = some (codes "ann");
  tenant = some (codes "acme");
  vars = vars;
}

passes : enforce_acl request ≡ allowed
unfolding enforce_acl expand_acl_template expand_braces expand_colons replaced lookup_var
passes = refl
