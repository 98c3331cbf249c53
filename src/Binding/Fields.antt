-- ===== src/Binding/Fields.antt =====
-- buildPlan of reflectplan.go and getByStructField of serve_request.go: what of a request a field is
-- filled with. Reflection gives the fields of a structure.
use allino.Base.{
  ◌+◌, Bool, true, false, not, ◌&&◌, ◌||◌, List, [], ◌∷◌, Option, none, some, if◌then◌else◌, leb,
}
use allino.Base.Bytes.{Bytes, bytes_eq, codes, strip}
use allino.Acl.{lookup_var}
use allino.Login.{Request, is_empty}
use allino.Binding.Values.{BaseType, bytes_type, time_type, Value, bytes_value, Slot}

-- A `reflect.StructField` and the kind of its type.
pub record StructField : Type 0 where
  pub name : Bytes
  pub is_exported : Bool
  pub is_anonymous : Bool
  pub is_pointer : Bool
  pub is_struct : Bool
  pub base_type : BaseType
  pub tag : Bytes → Option Bytes

-- A field with its tags; `is_embedded` is the test of getAll for an embedded structure.
pub record FieldPlan : Type 0 where
  pub is_pointer : Bool
  pub is_embedded : Bool
  pub base_type : BaseType
  pub path : Option Bytes
  pub query : Option Bytes
  pub form : Option Bytes
  pub post : Option Bytes
  pub jwt : Option Bytes
  pub cookie : Option Bytes
  pub header : Option Bytes
  pub regex : Option Bytes
  pub cli : Option Bytes
  pub resource : Option Bytes

abbrev is_time : BaseType → Bool
is_time time_type = true
is_time _ = false

-- An empty tag stands for the name of the field.
unfoldable pub tag_of : StructField → Bytes → Option Bytes
tag_of f key = elim (f.tag key) [ none ↦ none | some v ↦ some (if is_empty v then f.name else v) ]

-- A field that is neither exported nor embedded has no plan.
unfoldable pub plan_field : StructField → Option FieldPlan
unfolding tag_of
plan_field f =
    if not f.is_exported && not f.is_anonymous
    then none
    else some (record {
      is_pointer = f.is_pointer;
      is_embedded = f.is_struct && not f.is_pointer && f.is_anonymous && not (is_time f.base_type);
      base_type = f.base_type;
      path = tag_of f (codes "path");
      query = tag_of f (codes "query");
      form = tag_of f (codes "form");
      post = tag_of f (codes "post");
      jwt = tag_of f (codes "jwt");
      cookie = tag_of f (codes "cookie");
      header = tag_of f (codes "header");
      regex = tag_of f (codes "regex");
      cli = tag_of f (codes "cli");
      resource = tag_of f (codes "resource");
    })

-- Lower case in ASCII.
abbrev pub to_lower : Bytes → Bytes
to_lower [] = []
to_lower (c ∷ s) = (if leb 65 c && leb c 90 then c + 32 else c) ∷ to_lower s

abbrev pub starts : Bytes → Bytes → Bool
starts s prefix = elim (strip prefix s) [ none ↦ false | some rest ↦ true ]

-- What a request has for its fields: `params` and `cli` give the empty text where they have nothing,
-- `jwt_body` is `none` where there is no login, and `claims` reads the members of a token's body.
-- `json_into` and `xml_into` decode a text into a value and say what went wrong, `zero` is a new value
-- of a field's base type.
pub record Source (X : Type 0) : Type 0 where
  pub request : Request
  pub params : Bytes → Bytes
  pub cli : Bytes → Bytes
  pub body : Bytes
  pub jwt_body : Option Bytes
  pub claims : Bytes → Option (List (Bytes × Bytes))
  pub zero : FieldPlan → Value X
  pub json_into : Bytes → Value X → Value X × Option Bytes
  pub xml_into : Bytes → Value X → Value X × Option Bytes

-- What a field is to be set to: a text, nothing more, or the reason why the body is refused.
pub data Fetched : Type 0 where
  given : Bytes → Fetched
  nothing : Fetched
  json_failed : Bytes → Fetched
  xml_failed : Bytes → Fetched

abbrev pub unless_empty : Bytes → Fetched
unless_empty s = if is_empty s then nothing else given s

module _ {X : Type 0} (s : Source X) (p : FieldPlan) where
  abbrev pub content_type : Bytes
  content_type = to_lower (s.request.header (codes "Content-Type"))

  -- The value behind a pointer, which is made where it is nil.
  abbrev pub allocated : Slot X → Value X
  allocated none = s.zero p
  allocated (some v) = v

  unfoldable pub by_cli : Fetched
  by_cli = elim p.cli [ none ↦ nothing | some k ↦ unless_empty (s.cli k) ]

  unfoldable pub by_header : Fetched
  unfolding by_cli
  by_header = elim p.header [ none ↦ by_cli | some k ↦ unless_empty (s.request.header k) ]

  unfoldable pub by_cookie_tag : Fetched
  unfolding by_header
  by_cookie_tag = elim p.cookie [ none ↦ by_header | some k ↦ unless_empty (s.request.cookies k) ]

  -- A member of the token's body; an error of the decoder is dropped.
  unfoldable pub by_claim : Bytes → List (Bytes × Bytes) → Slot X → Slot X
  by_claim k claims v = elim (lookup_var k claims) [
    | none ↦ v
    | some text ↦ some ((s.json_into text (allocated v)).0)
  ]

  unfoldable pub by_jwt : Slot X → Slot X × Fetched
  unfolding by_claim by_cookie_tag
  by_jwt v = elim p.jwt [
    | none ↦ (v, by_cookie_tag)
    | some k ↦ elim s.jwt_body [
      | none ↦ (v, nothing)
      | some jwt_body ↦ elim (s.claims jwt_body) [
        | none ↦ (v, by_cookie_tag)
        | some claims ↦ (by_claim k claims v, nothing)
      ]
    ]
  ]

  abbrev decoded : (Bytes → Fetched) → Value X × Option Bytes → Slot X × Fetched
  decoded failed (v, none) = (some v, nothing)
  decoded failed (v, some err) = (some v, failed err)

  abbrev is_raw : Bool
  is_raw = elim p.base_type [ bytes_type ↦ not p.is_pointer | _ ↦ false ]

  unfoldable pub by_body : Bytes → Value X → Slot X × Fetched
  unfolding by_jwt
  by_body how v =
      if bytes_eq how (codes "json")
      then if not (starts content_type (codes "application/json"))
          && not (starts content_type (codes "text/"))
        then (some v, nothing)
        else decoded json_failed (s.json_into s.body v)
      else if bytes_eq how (codes "xml")
      then if not (starts content_type (codes "application/xml"))
          && not (starts content_type (codes "text/"))
        then (some v, nothing)
        else decoded xml_failed (s.xml_into s.body v)
      else if bytes_eq how (codes "raw") && is_raw
      then (some (bytes_value s.body), nothing)
      else by_jwt (some v)

  unfoldable pub by_post : Slot X → Slot X × Fetched
  unfolding by_body by_jwt
  by_post v = elim p.post [
    | none ↦ by_jwt v
    | some how ↦ if is_empty s.body then by_jwt v else by_body how (allocated v)
  ]

  abbrev pub of_form : Bytes → Fetched
  of_form k =
      if starts content_type (codes "application/x-www-form-urlencoded")
        || starts content_type (codes "multipart/form-data")
      then given (s.request.form_value k)
      else nothing

  unfoldable pub get_by_struct_field : Slot X → Slot X × Fetched
  unfolding by_post
  get_by_struct_field v = elim p.path [
    | some k ↦ (v, unless_empty (s.params k))
    | none ↦ elim p.query [
      | some k ↦ (v, unless_empty (s.request.query k))
      | none ↦ elim p.form [ some k ↦ (v, of_form k) | none ↦ by_post v ]
    ]
  ]
