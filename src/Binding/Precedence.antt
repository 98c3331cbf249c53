-- ===== src/Binding/Precedence.antt =====
-- Which tag of a field decides in getByStructField of serve_request.go.
use allino.Base.{◌≡◌, true, List, [], ◌∷◌, Option, none, some, ◌⊎◌, inl, inr, Option-cases, arith}
use allino.Base.Bytes.{Bytes}
use allino.Login.{is_empty}
use allino.Binding.Values.{Slot}
use allino.Binding.Fields.{
  FieldPlan, Source, Fetched, nothing, unless_empty, of_form, by_cli, by_header, by_cookie_tag,
  by_jwt, by_post, get_by_struct_field,
}

-- The first tag that a field has decides, whether the request has a value for it or not.
abbrev pub first_tag : List (Option Bytes × (Bytes → Fetched)) → Fetched
first_tag [] = nothing
first_tag ((none, read) ∷ readings) = first_tag readings
first_tag ((some k, read) ∷ readings) = read k

module _ {X : Type 0} (s : Source X) (p : FieldPlan) where
  -- The tags for texts in their order.
  abbrev pub readings : List (Option Bytes × (Bytes → Fetched))
  readings =
      (p.path, λ k. unless_empty (s.params k))
      ∷ (p.query, λ k. unless_empty (s.request.query k))
      ∷ (p.form, of_form s p)
      ∷ (p.cookie, λ k. unless_empty (s.request.cookies k))
      ∷ (p.header, λ k. unless_empty (s.request.header k))
      ∷ (p.cli, λ k. unless_empty (s.cli k))
      ∷ []

  -- The body is not asked, or is empty.
  abbrev pub PassesPost : Type 0
  PassesPost = (p.post ≡ none) ⊎ (is_empty s.body ≡ true)

  -- The token is not asked, or has a body that is no JSON.
  abbrev pub PassesJwt : Type 0
  PassesJwt =
      (p.jwt ≡ none)
      ⊎ ((k : Bytes) × (jwt_body : Bytes) × (p.jwt ≡ some k)
          × (s.jwt_body ≡ some jwt_body)
          × (s.claims jwt_body ≡ none))

  by_jwt-passes : (v : Slot X) → PassesJwt → by_jwt s p v ≡ (v, by_cookie_tag s p)
  unfolding by_jwt
  by_jwt-passes v (inl e) = ground arith
  by_jwt-passes v (inr (k, jwt_body, e, is, bad)) = ground arith

  by_post-passes : (v : Slot X) → PassesPost → by_post s p v ≡ by_jwt s p v
  unfolding by_post
  by_post-passes v (inl e) = ground arith
  by_post-passes v (inr e) = elim (Option-cases p.post) [
    | inl h ↦ ground arith
    | inr (how, h) ↦ ground arith
  ]

  by_cookie_tag-first :
      by_cookie_tag s p
      ≡ first_tag (
          (p.cookie, λ k. unless_empty (s.request.cookies k))
          ∷ (p.header, λ k. unless_empty (s.request.header k))
          ∷ (p.cli, λ k. unless_empty (s.cli k))
          ∷ [])
  unfolding by_cookie_tag by_header by_cli
  by_cookie_tag-first = elim (Option-cases p.cookie) [
    | inr (k, e) ↦ ground arith
    | inl e ↦ elim (Option-cases p.header) [
      | inr (k, f) ↦ ground arith
      | inl f ↦ elim (Option-cases p.cli) [ inr (k, g) ↦ ground arith | inl g ↦ ground arith ]
    ]
  ]

  -- Where the body is empty or not asked for, and the token is not asked for or has a body that
  -- is no JSON, a field gets the value of the first of the tags path, query, form, cookie,
  -- header and cli that it has, and none where the request has no value for that tag, whatever
  -- the later tags would give.
  pub get_by_struct_field-first :
      (v : Slot X) → PassesPost → PassesJwt → get_by_struct_field s p v ≡ (v, first_tag readings)
  unfolding get_by_struct_field
  get_by_struct_field-first v post jwt = elim (Option-cases p.path) [
    | inr (k, e) ↦ ground arith
    | inl e ↦ elim (Option-cases p.query) [
      | inr (k, f) ↦ ground arith
      | inl f ↦ elim (Option-cases p.form) [
        | inr (k, g) ↦ ground arith
        | inl g ↦ ground (arith, by_post-passes v post, by_jwt-passes v jwt, by_cookie_tag-first)
      ]
    ]
  ]
