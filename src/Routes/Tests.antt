-- ===== src/Routes/Tests.antt =====
-- Runs of the listing of a route's parameters.
use allino.Base.{◌≡◌, refl, false, [], ◌∷◌, none}
use allino.Base.Bytes.{codes}
use allino.Routes.{Field, parse_parameters, list_fields, list_field, format_param, is_required}

abbrev plain : Field
plain = record {
  post = [];
  path = [];
  query = [];
  form = [];
  validate = [];
  default = [];
  typ = codes "int";
  sample = none;
  file = false;
}

two_queries :
    (parse_parameters (
      record plain { query = codes "page"; default = codes "1" }
      ∷ record plain { query = codes "size"; validate = codes "min=1,required" }
      ∷ [])).params
    ≡ codes "page=int(default=1)&size*=int"
unfolding parse_parameters list_fields list_field format_param is_required
two_queries = refl

-- A query parameter behind a path parameter begins with a separator.
led_by_separator :
    (parse_parameters
      (record plain { path = codes "id" } ∷ record plain { query = codes "page" } ∷ [])).params
    ≡ codes "&page=int"
unfolding parse_parameters list_fields list_field format_param is_required
led_by_separator = refl
