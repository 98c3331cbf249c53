-- ===== src/Acl.antt =====
-- serve_casbin.go: the expansion of policy templates, and the guard of a call. The two regular
-- expressions are modelled as scanners; what the policy engine answers is an argument.
pub mod Templates
mod Tests
use allino.Base.{
  ℕ, ◌==◌, Bool, true, false, not, ◌&&◌, ◌||◌, List, [], ◌∷◌, ◌++◌, Option, none, some,
  if◌then◌else◌, leb,
}
use allino.Base.Bytes.{Bytes, bytes_eq, codes}

-- The variables of a call by name.
abbrev pub Vars : Type 0
Vars = List (Bytes × Bytes)

unfoldable pub lookup_var : Bytes → Vars → Option Bytes
lookup_var k [] = none
lookup_var k ((j, v) ∷ vars) = if bytes_eq j k then some v else lookup_var k vars

abbrev pub is_letter : ℕ → Bool
is_letter c = (leb 65 c && leb c 90) || (leb 97 c && leb c 122) || c == 95

abbrev pub is_digit : ℕ → Bool
is_digit c = leb 48 c && leb c 57

-- Whether a name may go on with a character.
abbrev pub continues : Bytes → ℕ → Bool
continues [] c = is_letter c
continues (_ ∷ _) c = is_letter c || is_digit c

abbrev pub is_empty : Bytes → Bool
is_empty [] = true
is_empty (_ ∷ _) = false

abbrev pub colon : ℕ
colon = 58

abbrev pub open_brace : ℕ
open_brace = 123

abbrev pub close_brace : ℕ
close_brace = 125

-- A text with whether a variable was missing.
abbrev pub Expanded : Type 0
Expanded = Bytes × Bool

abbrev pub prepend : Bytes → Expanded → Expanded
prepend s (out, missing) = (s ++ out, missing)

-- What a match of a variable becomes: its value, or the match where there is none.
unfoldable pub replaced : Vars → Bytes → Bytes → Expanded → Expanded
replaced vars name match (out, missing) = elim (lookup_var name vars) [
  | some v ↦ (v ++ out, missing)
  | none ↦ (match ++ out, true)
]

-- `\{([A-Za-z_][A-Za-z0-9_]*)\}`. `none` is outside of a brace, `some name` behind one.
unfoldable pub expand_braces : Vars → Option Bytes → Bytes → Expanded
unfolding replaced
expand_braces vars none [] = ([], false)
expand_braces vars (some name) [] = (open_brace ∷ name, false)
expand_braces vars none (c ∷ s) =
    let inside = expand_braces vars (some []) s in
    let outside = expand_braces vars none s in
    if c == open_brace then inside else prepend (c ∷ []) outside
expand_braces vars (some name) (c ∷ s) =
    let going = expand_braces vars (some (name ++ c ∷ [])) s in
    let again = expand_braces vars (some []) s in
    let outside = expand_braces vars none s in
    if continues name c
    then going
    else if c == close_brace && not (is_empty name)
    then replaced vars name (open_brace ∷ name ++ close_brace ∷ []) outside
    else if c == open_brace
    then prepend (open_brace ∷ name) again
    else prepend (open_brace ∷ name ++ c ∷ []) outside

-- What stands behind a colon is a variable where it is not empty.
abbrev pub ended : Vars → Bytes → Expanded → Expanded
ended vars name rest =
    if is_empty name then prepend (colon ∷ []) rest else replaced vars name (colon ∷ name) rest

-- `:([A-Za-z_][A-Za-z0-9_]*)`.
unfoldable pub expand_colons : Vars → Option Bytes → Bytes → Expanded
unfolding replaced
expand_colons vars none [] = ([], false)
expand_colons vars (some name) [] = ended vars name ([], false)
expand_colons vars none (c ∷ s) =
    let inside = expand_colons vars (some []) s in
    let outside = expand_colons vars none s in
    if c == colon then inside else prepend (c ∷ []) outside
expand_colons vars (some name) (c ∷ s) =
    let going = expand_colons vars (some (name ++ c ∷ [])) s in
    let again = expand_colons vars (some []) s in
    let outside = expand_colons vars none s in
    if continues name c
    then going
    else if c == colon
    then ended vars name again
    else ended vars name (prepend (c ∷ []) outside)

-- `expandACLTemplate`; `none` is `ErrACLVariableMissing`.
unfoldable pub expand_acl_template : Bytes → Vars → Option Bytes
unfolding expand_braces expand_colons
expand_acl_template tmpl vars =
    let (braced, missing) = expand_braces vars none tmpl in
    let (out, missing') = expand_colons vars none braced in
    if missing || missing' then none else some out

-- The ends of `enforceACL`: the other errors are those of the login, of the claim and of the engine.
pub data Verdict : Type 0 where
  allowed forbidden not_configured variable_missing other_error : Verdict

-- The function's resource and action, the engine where there is one (`none` is its error), the user
-- and the tenant where the request has them.
pub record AclCall : Type 0 where
  pub resource : Bytes
  pub action : Bytes
  pub enforcer : Option (Bytes → Bytes → Bytes → Bytes → Option Bool)
  pub user : Option Bytes
  pub tenant : Option Bytes
  pub vars : Vars

abbrev pub verdict_of : Option Bool → Verdict
verdict_of none = other_error
verdict_of (some true) = allowed
verdict_of (some false) = forbidden

unfoldable pub enforce_acl : AclCall → Verdict
unfolding expand_acl_template
enforce_acl c = if bytes_eq c.resource [] then allowed else elim c.enforcer [
  | none ↦ not_configured
  | some enforce ↦ elim c.user [
    | none ↦ other_error
    | some uid ↦ elim c.tenant [
      | none ↦ other_error
      | some tenant ↦
          if bytes_eq tenant [] then forbidden else elim (expand_acl_template c.resource c.vars) [
            | none ↦ variable_missing
            | some resource ↦ elim (expand_acl_template c.action c.vars) [
              | none ↦ variable_missing
              | some action ↦ verdict_of (
                  enforce tenant uid resource
                    (if bytes_eq action [] then codes "access" else action))
            ]
          ]
    ]
  ]
]
