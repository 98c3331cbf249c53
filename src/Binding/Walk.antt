-- ===== src/Binding/Walk.antt =====
-- getAll of serve_request.go: the fields of a structure in their order, the validator, and the
-- extensions. A field stands with its plan; a field without a plan is none of the list. The call for an
-- embedded structure with a tag of its own is left out: it gets a copy that reflection cannot set, so
-- it fills nothing, or panics.
use allino.Base.{
  ℕ, suc, ◌==◌, Bool, true, false, not, ◌&&◌, List, [], ◌∷◌, map, Option, none, some, if◌then◌else◌,
}
use allino.Base.Bytes.{Bytes, bytes_eq}
use allino.Login.{is_empty}
use allino.Binding.Values.{file_type, files_type, other_value, Slot, Readers, set_by_reflect}
use allino.Binding.Fields.{
  FieldPlan, Source, Fetched, given, nothing, json_failed, xml_failed, allocated,
  get_by_struct_field,
}

-- `InjectionTarget`; the reference is to the field at a position.
pub record InjectionTarget : Type 0 where
  pub input : Bytes
  pub extension : Bytes
  pub action : Bytes
  pub reference : ℕ

pub data BindError (E : Type 0) : Type 0 where
  bad_json : Bytes → BindError E
  bad_xml : Bytes → BindError E
  regex_compile_failed : BindError E
  regex_mismatch : BindError E
  validation_failed : BindError E
  extension_failed : E → BindError E

-- An extension with the fields that it sets, for those that have the hook.
pub record Extension (X E : Type 0) : Type 0 where
  pub name : Bytes
  pub on_injection : List InjectionTarget → List (Slot X) → List (Slot X) × Option E

-- The server, with `regexp.Compile`, the validator, and the files of a form: one under a key, and the
-- slice of all of them, where there are any.
pub record Binder (X E : Type 0) : Type 0 where
  pub source : Source X
  pub readers : Readers X
  pub compile : Bytes → Option (Bytes → Bool)
  pub form_file : Bytes → Option X
  pub form_files : Bytes → Option X
  pub disable_validator : Bool
  pub is_valid : List (Slot X) → Bool
  pub extensions : List (Extension X E)

-- The texts on the two sides of the first colon.
unfoldable pub at_colon : Bytes → Option (Bytes × Bytes)
at_colon [] = none
at_colon (c ∷ s) =
    let rest = at_colon s in
    if c == 58
    then some ([], s)
    else elim rest [ none ↦ none | some (front, back) ↦ some (c ∷ front, back) ]

-- The extension and the action of a tag; a tag that begins with a colon has no action.
unfoldable pub extension_action : Bytes → Bytes × Bytes
unfolding at_colon
extension_action tag = elim (at_colon tag) [
  | none ↦ (tag, [])
  | some (front, back) ↦ if is_empty front then (tag, []) else (front, back)
]

-- What becomes of a field: it is done, it stops the request, or an extension is to set it.
pub data Outcome (E : Type 0) : Type 0 where
  done : Outcome E
  stopped : BindError E → Outcome E
  injects : InjectionTarget → Outcome E

pub record Bound (X E : Type 0) : Type 0 where
  pub slots : List (Slot X)
  pub targets : List InjectionTarget
  pub error : Option (BindError E)

abbrev pub is_file : FieldPlan → Bool
is_file p = elim p.base_type [ file_type ↦ p.is_pointer | _ ↦ false ]

abbrev pub is_files : FieldPlan → Bool
is_files p = elim p.base_type [ files_type ↦ true | _ ↦ false ]

module _ {X E : Type 0} (b : Binder X E) where
  unfoldable pub refusal : FieldPlan → Bytes → Option (BindError E)
  refusal p text = elim p.regex [
    | none ↦ none
    | some rx ↦ elim (b.compile rx) [
      | none ↦ some regex_compile_failed
      | some matches ↦ if matches text then none else some regex_mismatch
    ]
  ]

  -- A field with a file or files, which keeps what it holds where the form has none.
  abbrev pub filed : (Bytes → Option X) → Option Bytes → Slot X → Slot X
  filed form none v = v
  filed form (some k) v = elim (form k) [ none ↦ v | some x ↦ some (other_value x) ]

  unfoldable pub set_text : ℕ → FieldPlan → Bytes → Slot X → Slot X × Outcome E
  unfolding extension_action
  set_text i p text v = elim p.resource [
    | some tag ↦ (
      some (allocated b.source p v),
      injects (record {
        input = text;
        extension = (extension_action tag).0;
        action = (extension_action tag).1;
        reference = i;
      }),
    )
    | none ↦ (set_by_reflect b.readers text p.base_type v, done)
  ]

  unfoldable pub bind_fetched : ℕ → FieldPlan → Slot X × Fetched → Slot X × Outcome E
  unfolding refusal set_text
  bind_fetched i p (v, json_failed err) = (v, stopped (bad_json err))
  bind_fetched i p (v, xml_failed err) = (v, stopped (bad_xml err))
  bind_fetched i p (v, nothing) = (v, done)
  bind_fetched i p (v, given text) =
      if p.is_embedded
      then (v, done)
      else elim (refusal p text) [ some err ↦ (v, stopped err) | none ↦ set_text i p text v ]

  unfoldable pub bind_field : ℕ → FieldPlan → Slot X → Slot X × Outcome E
  unfolding bind_fetched
  bind_field i p v =
      if is_file p
      then (filed b.form_file p.form v, done)
      else if is_files p
      then (filed b.form_files p.form v, done)
      else bind_fetched i p (get_by_struct_field b.source p v)

  -- The slot of a field with what the later fields come to.
  abbrev pub after_field : List (FieldPlan × Slot X) → Slot X × Outcome E → Bound X E → Bound X E
  after_field later (v, done) rest = record rest { slots = v ∷ rest.slots }
  after_field later (v, stopped err) rest = record {
    slots = v ∷ map (λ f. f.1) later;
    targets = [];
    error = some err;
  }
  after_field later (v, injects t) rest = record rest {
    slots = v ∷ rest.slots;
    targets = t ∷ rest.targets;
  }

  unfoldable pub bind_fields : ℕ → List (FieldPlan × Slot X) → Bound X E
  unfolding bind_field
  bind_fields i [] = record { slots = []; targets = []; error = none }
  bind_fields i ((p, v) ∷ later) = after_field later (bind_field i p v) (bind_fields (suc i) later)

  abbrev pub of_extension : Bytes → List InjectionTarget → List InjectionTarget
  of_extension name [] = []
  of_extension name (t ∷ ts) =
      let rest = of_extension name ts in if bytes_eq t.extension name then t ∷ rest else rest

  -- Each extension gets the targets that name it, where there are any; the first error ends it.
  unfoldable pub inject :
      List InjectionTarget
      → List (Extension X E)
      → List (Slot X)
      → List (Slot X) × Option (BindError E)
  inject targets [] slots = (slots, none)
  inject targets (x ∷ later) slots = elim (of_extension x.name targets) [
    | [] ↦ inject targets later slots
    | t ∷ ts ↦
        let (set, failed) = x.on_injection (t ∷ ts) slots in
        elim failed [
          | some err ↦ (set, some (extension_failed err))
          | none ↦ inject targets later set
        ]
  ]

  unfoldable pub get_all : List (FieldPlan × Slot X) → List (Slot X) × Option (BindError E)
  unfolding bind_fields inject
  get_all fields =
      let bound = bind_fields 0 fields in
      elim bound.error [
        | some err ↦ (bound.slots, some err)
        | none ↦
            if not b.disable_validator && not (b.is_valid bound.slots)
            then (bound.slots, some validation_failed)
            else inject bound.targets b.extensions bound.slots
      ]
