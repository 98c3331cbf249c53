-- ===== src/Binding/Accepted.antt =====
-- What the fields hold once getAll of serve_request.go has answered no error.
use allino.Base.{
  ℕ, suc, ◌≡◌, refl, sym, ap, ◌∙◌, subst, Bool, true, false, not, ◌&&◌, List, [], ◌∷◌, none, some,
  Bool-cases, Option-cases, inl, inr, ◌⊎◌, arith,
}
use allino.Base.Bytes.{Bytes}
use allino.Binding.Values.{Slot, set_by_reflect}
use allino.Binding.Fields.{
  FieldPlan, Fetched, given, nothing, json_failed, xml_failed, allocated, get_by_struct_field,
}
use allino.Binding.Walk.{
  Binder, Outcome, done, stopped, injects, Bound, refusal, is_file, is_files, filed, set_text,
  bind_fetched, bind_field, after_field, bind_fields, inject, get_all,
}

module _ {X E : Type 0} (b : Binder X E) where
  -- A text fits the pattern of a field, where it has one.
  abbrev pub Fits : FieldPlan → Bytes → Type 0
  Fits p text =
      (p.regex ≡ none)
      ⊎ ((rx : Bytes) × (matches : (Bytes → Bool)) × (p.regex ≡ some rx)
          × (b.compile rx ≡ some matches)
          × (matches text ≡ true))

  -- What a field holds after what was fetched for it: the text that fits and that was read as the
  -- type, unless an extension is to set it.
  abbrev pub FilledBy : FieldPlan → Slot X × Fetched → Slot X → Type 0
  FilledBy p (v, json_failed err) w = ⊥
  FilledBy p (v, xml_failed err) w = ⊥
  FilledBy p (v, nothing) w = w ≡ v
  FilledBy p (v, given text) w =
      ((p.is_embedded ≡ true) × (w ≡ v))
      ⊎ ((p.is_embedded ≡ false)
          × Fits p text
          × (((p.resource ≡ none) × (w ≡ set_by_reflect b.readers text p.base_type v))
              ⊎ ((tag : Bytes) × (p.resource ≡ some tag) × (w ≡ some (allocated b.source p v)))))

  abbrev pub Filled : FieldPlan → Slot X → Slot X → Type 0
  Filled p v w =
      ((is_file p ≡ true) × (w ≡ filed b b.form_file p.form v))
      ⊎ ((is_files p ≡ true) × (w ≡ filed b b.form_files p.form v))
      ⊎ FilledBy p (get_by_struct_field b.source p v) w

  abbrev pub AllFilled : List (FieldPlan × Slot X) → List (Slot X) → Type 0
  AllFilled [] [] = Unit
  AllFilled [] (w ∷ ws) = ⊥
  AllFilled (f ∷ fs) [] = ⊥
  AllFilled ((p, v) ∷ fs) (w ∷ ws) = Filled p v w × AllFilled fs ws

  refusal-Fits : (p : FieldPlan) (text : Bytes) → refusal b p text ≡ none → Fits p text
  unfolding refusal
  refusal-Fits p text h = elim (Option-cases p.regex) [
    | inl e ↦ inl e
    | inr (rx, e) ↦ elim (Option-cases (b.compile rx)) [
      | inl bad ↦ absurd (ground arith)
      | inr (matches, ok) ↦ inr (rx, matches, e, ok, ground arith)
    ]
  ]

  -- An outcome that does not stop the request.
  abbrev Goes : Outcome E → Type 0
  Goes done = Unit
  Goes (stopped err) = ⊥
  Goes (injects t) = Unit

  set_text-sets :
      (i : ℕ) (p : FieldPlan) (text : Bytes) (v : Slot X)
      → ((p.resource ≡ none)
          × ((set_text b i p text v).0 ≡ set_by_reflect b.readers text p.base_type v))
        ⊎ ((tag : Bytes) × (p.resource ≡ some tag)
            × ((set_text b i p text v).0 ≡ some (allocated b.source p v)))
  unfolding set_text
  set_text-sets i p text v = elim (Option-cases p.resource) [
    | inl r ↦ inl (r, ground arith)
    | inr (tag, r) ↦ inr (tag, r, ground arith)
  ]

  given-FilledBy :
      (i : ℕ) (p : FieldPlan) (text : Bytes) (v : Slot X) (x : Slot X × Outcome E)
      → bind_fetched b i p (v, given text) ≡ x
      → Goes (x.1)
      → FilledBy p (v, given text) (x.0)
  unfolding bind_fetched
  given-FilledBy i p text v x is goes = elim (Bool-cases p.is_embedded) [
    | inl e ↦ inl (e, ground arith)
    | inr e ↦ elim (Option-cases (refusal b p text)) [
      | inr (err, bad) ↦
          let same : (v, stopped err) ≡ x = ground arith in
          absurd (subst (λ y. Goes (y.1)) (sym same) goes)
      | inl ok ↦
          let same : set_text b i p text v ≡ x = ground arith in
          elim (set_text-sets i p text v) [
            | inl (r, set) ↦
                inr (e, refusal-Fits p text ok, inl (r, ap (λ y. y.0) (sym same) ∙ set))
            | inr (tag, r, set) ↦
                inr (e, refusal-Fits p text ok, inr (tag, r, ap (λ y. y.0) (sym same) ∙ set))
          ]
    ]
  ]

  fetched-FilledBy :
      (i : ℕ) (p : FieldPlan) (x : Slot X × Fetched)
      → Goes ((bind_fetched b i p x).1)
      → FilledBy p x ((bind_fetched b i p x).0)
  unfolding bind_fetched
  fetched-FilledBy i p (v, json_failed err) h = h
  fetched-FilledBy i p (v, xml_failed err) h = h
  fetched-FilledBy i p (v, nothing) h = refl
  fetched-FilledBy i p (v, given text) h =
      given-FilledBy i p text v (bind_fetched b i p (v, given text)) refl h

  field-Filled :
      (i : ℕ) (p : FieldPlan) (v : Slot X)
      → Goes ((bind_field b i p v).1)
      → Filled p v ((bind_field b i p v).0)
  unfolding bind_field
  field-Filled i p v goes = elim (Bool-cases (is_file p)) [
    | inl e ↦ inl (e, ground arith)
    | inr e ↦ elim (Bool-cases (is_files p)) [
      | inl fs ↦ inr (inl (fs, ground arith))
      | inr others ↦
          let same : bind_field b i p v ≡ bind_fetched b i p (get_by_struct_field b.source p v) =
            ground arith in
          inr (
            inr (
              subst (λ y. FilledBy p (get_by_struct_field b.source p v) (y.0)) (sym same)
                (fetched-FilledBy i p (get_by_struct_field b.source p v)
                  (subst (λ y. Goes (y.1)) same goes))))
    ]
  ]

  after-Filled :
      (p : FieldPlan) (v : Slot X) (later : List (FieldPlan × Slot X)) (x : Slot X × Outcome E)
      (rest : Bound X E)
      → (Goes (x.1) → Filled p v (x.0))
      → (rest.error ≡ none → AllFilled later rest.slots)
      → (after_field b later x rest).error ≡ none
      → AllFilled ((p, v) ∷ later) (after_field b later x rest).slots
  after-Filled p v later (w, done) rest field others h = (field tt, others h)
  after-Filled p v later (w, stopped err) rest field others h = cc
  after-Filled p v later (w, injects t) rest field others h = (field tt, others h)

  bind_fields-Filled :
      (i : ℕ) (fs : List (FieldPlan × Slot X))
      → (bind_fields b i fs).error ≡ none
      → AllFilled fs (bind_fields b i fs).slots
  unfolding bind_fields
  bind_fields-Filled i [] h = tt
  bind_fields-Filled i ((p, v) ∷ later) h =
      after-Filled p v later (bind_field b i p v) (bind_fields b (suc i) later) (field-Filled i p v)
        (bind_fields-Filled (suc i) later) h

  -- Where getAll answers no error, every field holds what it is to be filled with: the file or
  -- files of the form, or what was fetched for it, a text being read as the type of the field
  -- after it has fitted the pattern of the field, where there is one, unless an extension is to
  -- set the field or it is an embedded structure; no body was refused by its decoder, the
  -- validator has accepted these values, unless it is switched off, and the result is what the
  -- extensions make of them.
  pub get_all-Filled :
      (fs : List (FieldPlan × Slot X))
      → (get_all b fs).1 ≡ none
      → (ws : List (Slot X)) × AllFilled fs ws
        × ((b.disable_validator ≡ true) ⊎ (b.is_valid ws ≡ true))
        × (get_all b fs ≡ inject b (bind_fields b 0 fs).targets b.extensions ws)
  unfolding get_all
  get_all-Filled fs h = elim (Option-cases (bind_fields b 0 fs).error) [
    | inr (err, e) ↦ absurd (ground arith)
    | inl e ↦
        let ws = (bind_fields b 0 fs).slots in
        elim (Bool-cases (not b.disable_validator && not (b.is_valid ws))) [
          | inl bad ↦ absurd (ground arith)
          | inr ok ↦ (ws, bind_fields-Filled 0 fs e, ground arith, ground arith)
        ]
  ]
