-- ===== src/Routes.antt =====
-- typedhandler_route_utils.go: how a route lists its parameters.
mod Tests
use allino.Base.{
  ℕ, ◌+◌, ◌==◌, Bool, true, false, not, ◌||◌, List, [], ◌∷◌, ◌++◌, Option, none, some,
  if◌then◌else◌,
}
use allino.Base.Bytes.{Bytes, bytes_eq, codes}
use allino.Base.Split.{split}

-- A struct field with the tags that the code reads; a tag that is not there is empty. `sample` is the
-- JSON that the schema library gives for its type, `none` its error, and `file` says that the type
-- is a file.
pub record Field : Type 0 where
  pub post : Bytes
  pub path : Bytes
  pub query : Bytes
  pub form : Bytes
  pub validate : Bytes
  pub default : Bytes
  pub typ : Bytes
  pub sample : Option Bytes
  pub file : Bool

abbrev pub any_rule : List Bytes → Bool
any_rule [] = false
any_rule (r ∷ rs) = bytes_eq r (codes "required") || any_rule rs

unfoldable pub is_required : Field → Bool
is_required f = if bytes_eq f.validate [] then false else any_rule (split 44 f.validate)

unfoldable pub format_param : Field → Bytes → Bytes
unfolding is_required
format_param f name =
    let n = if is_required f then name ++ codes "*" else name in
    if not (bytes_eq f.default [])
    then n ++ codes "=" ++ f.typ ++ codes "(default=" ++ f.default ++ codes ")"
    else n ++ codes "=" ++ f.typ

pub record Listing : Type 0 where
  pub params : Bytes
  pub form_schema : Bytes
  pub uses_multipart : Bool

abbrev pub separator : ℕ → Bytes
separator i = if i == 0 then [] else codes "&"

-- One turn of the loop at the index `i`.
unfoldable pub list_field : ℕ → Field → Listing → Listing
unfolding format_param
list_field i f l =
    if not (bytes_eq f.post [])
    then elim f.sample [ none ↦ l | some doc ↦ record l { form_schema = doc } ]
    else if not (bytes_eq f.path [])
    then l
    else if not (bytes_eq f.query [])
    then record l { params = l.params ++ separator i ++ format_param f f.query }
    else if not (bytes_eq f.form [])
    then record l {
      form_schema = l.form_schema ++ separator i ++ format_param f f.form;
      uses_multipart = l.uses_multipart || f.file;
    }
    else l

unfoldable pub list_fields : ℕ → List Field → Listing → Listing
unfolding list_field
list_fields i [] l = l
list_fields i (f ∷ fs) l = list_fields (i + 1) fs (list_field i f l)

unfoldable pub parse_parameters : List Field → Listing
unfolding list_fields
parse_parameters fs =
    list_fields 0 fs (record { params = []; form_schema = []; uses_multipart = false })
