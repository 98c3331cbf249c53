-- ===== src/Merge.antt =====
-- merge.go: a configuration merged over another, field by field, and the last value that is set.
-- Both have one Go type, whose shape is a `Kind`. A field that is no structure and no pointer holds
-- a value of `V`, and `is_zero` is the comparison with the zero value of its type.
mod Layers
mod Tests
use allino.Base.{Bool, true, false, List, [], ◌∷◌, Option, none, some, if◌then◌else◌}

mutual
  pub data Kind : Type 0 where
    plain : Kind
    struct : Layout → Kind
    ptr : Kind → Kind

  -- The fields of a structure, each with the answer of `CanSet`.
  pub data Layout : Type 0 where
    end : Layout
    field : Bool → Kind → Layout → Layout

pub data NoFields : Type 0 where
  no_fields : NoFields

module _ (V : Type 0) where
  unfoldable mutual
    pub Value : Kind → Type 0
    Value plain = V
    Value (struct l) = Fields l
    Value (ptr k) = Option (Value k)

    pub Fields : Layout → Type 0
    Fields end = NoFields
    Fields (field settable k l) = Value k × Fields l

module _ {V : Type 0} (is_zero : V → Bool) where
  -- `mergeValue`, with the switch over the kind of a field. Two pointers that are not nil are merged
  -- only where they point to structures.
  unfoldable mutual
    unfolding Value Fields

    pub merge_field : (k : Kind) → Value V k → Value V k → Value V k
    merge_field plain dst src = if is_zero src then dst else src
    merge_field (struct l) dst src = merge_value l dst src
    merge_field (ptr k) none src = src
    merge_field (ptr k) (some dst) none = some dst
    merge_field (ptr plain) (some dst) (some src) = some dst
    merge_field (ptr (struct l)) (some dst) (some src) = some (merge_value l dst src)
    merge_field (ptr (ptr k)) (some dst) (some src) = some dst

    pub merge_value : (l : Layout) → Fields V l → Fields V l → Fields V l
    merge_value end dst src = dst
    merge_value (field true k l) (dst, dsts) (src, srcs) =
        (merge_field k dst src, merge_value l dsts srcs)
    merge_value (field false k l) (dst, dsts) (src, srcs) = (dst, merge_value l dsts srcs)

  -- A nil `src` changes nothing.
  unfoldable pub merge_struct : (l : Layout) → Fields V l → Option (Fields V l) → Fields V l
  unfolding merge_value
  merge_struct l dst none = dst
  merge_struct l dst (some src) = merge_value l dst src

  -- `mergeSingle` looks from the end.
  unfoldable pub merge_single : V → List V → V
  merge_single zero [] = zero
  merge_single zero (x ∷ xs) =
      let rest = merge_single zero xs in
      if is_zero rest then (if is_zero x then rest else x) else rest
