-- ===== src/Binding/Tests.antt =====
-- A request with a path, a query and a JSON body for serve_request.go.
use allino.Base.{
  ℕ, ◌^◌, ◌≡◌, refl, true, false, List, [], ◌∷◌, none, some, ◌⊎◌, inl, length, leb, arith,
}
use allino.Base.Bytes.{Bytes, codes}
use allino.Base.Int.{ℤ, pos, negsuc}
use allino.JobIds.{digits, number, atoi}
use allino.Binding.Values.{
  int_type, string_type, other_type, int_value, string_value, other_value, Slot, Readers, wrap_int,
  set_int, set_by_reflect,
}
use allino.Binding.Fields.{
  FieldPlan, Source, by_cli, by_header, by_cookie_tag, by_jwt, by_body, by_post,
  get_by_struct_field,
}
use allino.Binding.Walk.{
  Binder, regex_mismatch, extension_action, at_colon, refusal, set_text, bind_fetched, bind_field,
  bind_fields, inject, get_all,
}
use allino.Binding.Accepted.{AllFilled, get_all-Filled}
use allino.Binding.Precedence.{first_tag, readings, get_by_struct_field-first}
use allino.Binding.Integers.{InRange, Congruent, decimal, set_by_reflect-integer}

abbrev no_tags : FieldPlan
no_tags = record {
  is_pointer = false;
  is_embedded = false;
  base_type = string_type;
  path = none;
  query = none;
  form = none;
  post = none;
  jwt = none;
  cookie = none;
  header = none;
  regex = none;
  cli = none;
  resource = none;
}

abbrev age : FieldPlan
age = record no_tags { base_type = int_type 8; path = some (codes "age") }

abbrev nick : FieldPlan
nick = record no_tags {
  is_pointer = true;
  query = some (codes "nick");
  header = some (codes "X-Nick");
  regex = some (codes "short");
}

abbrev item : FieldPlan
item = record no_tags { base_type = other_type; post = some (codes "json") }

abbrev readers : Readers ℕ
readers = record { parse_time = λ s. none; parse_duration = λ s. none; parse_float = λ w s. none }

-- A decoder that counts the bytes.
abbrev source : Bytes → Source ℕ
source asked = record {
  request = record {
    query = λ k. asked;
    form_value = λ k. [];
    header = λ k. codes "Application/JSON";
    cookies = λ k. [];
  };
  params = λ k. codes "300";
  cli = λ k. [];
  body = codes "{}";
  jwt_body = none;
  claims = λ body. none;
  zero = λ p. other_value 0;
  json_into = λ text v. (other_value (length text), none);
  xml_into = λ text v. (v, some (codes "no XML"));
}

abbrev binder : Bytes → Binder ℕ ℕ
binder asked = record {
  source = source asked;
  readers = readers;
  compile = λ rx. some (λ s. leb (length s) 4);
  form_file = λ k. none;
  form_files = λ k. none;
  disable_validator = false;
  is_valid = λ slots. true;
  extensions = [];
}

abbrev fields : List (FieldPlan × Slot ℕ)
fields = (age, some (int_value (pos 0))) ∷ (nick, none) ∷ (item, some (other_value 0)) ∷ []

-- The age of 300 keeps its lowest eight bits.
bob_binds : get_all (binder (codes "bob")) fields ≡ (
  some (int_value (pos 44)) ∷ some (string_value (codes "bob")) ∷ some (other_value 2) ∷ [],
  none,
)
unfolding get_all bind_fields bind_field bind_fetched refusal set_text get_by_struct_field by_post
    by_body by_jwt by_cookie_tag by_header by_cli set_by_reflect set_int wrap_int atoi number digits
    inject
bob_binds = refl

too_long :
    get_all (binder (codes "alice")) fields
    ≡ (some (int_value (pos 44)) ∷ none ∷ some (other_value 0) ∷ [], some regex_mismatch)
unfolding get_all bind_fields bind_field bind_fetched refusal set_text get_by_struct_field by_post
    by_body by_jwt by_cookie_tag by_header by_cli set_by_reflect set_int wrap_int atoi number digits
    inject
too_long = refl

named : extension_action (codes "pg:row") ≡ (codes "pg", codes "row")
unfolding extension_action at_colon
named = refl

get_all-Filled_example :
    (ws : List (Slot ℕ)) × AllFilled (binder (codes "bob")) fields ws
    × ((false ≡ true) ⊎ (true ≡ true))
    × (get_all (binder (codes "bob")) fields
        ≡ inject (binder (codes "bob")) (bind_fields (binder (codes "bob")) 0 fields).targets [] ws)
get_all-Filled_example = get_all-Filled (binder (codes "bob")) fields (rw bob_binds refl)

get_by_struct_field-first_example :
    get_by_struct_field (source (codes "bob")) nick none
    ≡ (none, first_tag (readings (source (codes "bob")) nick))
get_by_struct_field-first_example =
    get_by_struct_field-first (source (codes "bob")) nick none (inl refl) (inl refl)

set_by_reflect-integer_example :
    (m : ℤ) × (set_by_reflect readers (decimal (negsuc 6)) (int_type 8) none ≡ some (int_value m))
    × InRange 8 m
    × Congruent (2 ^ 8) m (negsuc 6)
    × (InRange 8 (negsuc 6) → m ≡ negsuc 6)
set_by_reflect-integer_example =
    set_by_reflect-integer readers 8 (negsuc 6) none (omega arith) (omega arith)
