-- ===== src/Merge/Layers.antt =====
-- Configurations merged over one another, for merge.go.
use allino.Base.{◌≡◌, refl, ap, Bool, true, false, ◌⊎◌, inl, inr, none, some, if◌then◌else◌, arith}
use allino.Merge.{
  Kind, plain, struct, ptr, Layout, end, field, Value, Fields, merge_field, merge_value,
  merge_struct,
}

-- Nothing is set in a configuration: every plain field has the zero value and every pointer is nil.
module _ {V : Type 0} (is_zero : V → Bool) where
  unfoldable mutual
    unfolding Value Fields

    pub IsUnsetField : (k : Kind) → Value V k → Type 0
    IsUnsetField plain v = is_zero v ≡ true
    IsUnsetField (struct l) v = IsUnset l v
    IsUnsetField (ptr k) none = Unit
    IsUnsetField (ptr k) (some v) = ⊥

    pub IsUnset : (l : Layout) → Fields V l → Type 0
    IsUnset end v = Unit
    IsUnset (field settable k l) (v, vs) = IsUnsetField k v × IsUnset l vs

-- The places of the plain fields that can be set, in structures but not behind pointers.
unfoldable mutual
  pub Place : Kind → Type 0
  Place plain = Unit
  Place (struct l) = Spot l
  Place (ptr k) = ⊥

  pub Spot : Layout → Type 0
  Spot end = ⊥
  Spot (field true k l) = Place k ⊎ Spot l
  Spot (field false k l) = Spot l

module _ {V : Type 0} where
  unfoldable mutual
    unfolding Value Fields Place Spot

    pub read_place : (k : Kind) → Place k → Value V k → V
    read_place plain p v = v
    read_place (struct l) p v = read l p v
    read_place (ptr k) p v = absurd p

    pub read : (l : Layout) → Spot l → Fields V l → V
    read end p v = absurd p
    read (field true k l) (inl p) (v, vs) = read_place k p v
    read (field true k l) (inr p) (v, vs) = read l p vs
    read (field false k l) p (v, vs) = read l p vs

module _ {V : Type 0} (is_zero : V → Bool) where
  mutual
    unfolding Value Fields merge_field merge_value IsUnsetField IsUnset

    field_again :
        (k : Kind) (dst src : Value V k)
        → merge_field is_zero k (merge_field is_zero k dst src) src ≡ merge_field is_zero k dst src
    field_again plain dst src = ground arith
    field_again (struct l) dst src = value_again l dst src
    field_again (ptr plain) none none = refl
    field_again (ptr plain) none (some src) = refl
    field_again (ptr plain) (some dst) none = refl
    field_again (ptr plain) (some dst) (some src) = refl
    field_again (ptr (struct l)) none none = refl
    field_again (ptr (struct l)) none (some src) = ap some (value_self l src)
    field_again (ptr (struct l)) (some dst) none = refl
    field_again (ptr (struct l)) (some dst) (some src) = ap some (value_again l dst src)
    field_again (ptr (ptr k)) none none = refl
    field_again (ptr (ptr k)) none (some src) = refl
    field_again (ptr (ptr k)) (some dst) none = refl
    field_again (ptr (ptr k)) (some dst) (some src) = refl

    value_again :
        (l : Layout) (dst src : Fields V l)
        → merge_value is_zero l (merge_value is_zero l dst src) src ≡ merge_value is_zero l dst src
    value_again end dst src = refl
    value_again (field true k l) (dst, dsts) (src, srcs) =
        simp (field_again k dst src, value_again l dsts srcs)
    value_again (field false k l) (dst, dsts) (src, srcs) = simp (value_again l dsts srcs)

    field_self : (k : Kind) (v : Value V k) → merge_field is_zero k v v ≡ v
    field_self plain v = ground arith
    field_self (struct l) v = value_self l v
    field_self (ptr k) none = refl
    field_self (ptr plain) (some v) = refl
    field_self (ptr (struct l)) (some v) = ap some (value_self l v)
    field_self (ptr (ptr k)) (some v) = refl

    value_self : (l : Layout) (v : Fields V l) → merge_value is_zero l v v ≡ v
    value_self end v = refl
    value_self (field true k l) (v, vs) = simp (field_self k v, value_self l vs)
    value_self (field false k l) (v, vs) = simp (value_self l vs)

    field_assoc :
        (k : Kind) (a b c : Value V k)
        → merge_field is_zero k (merge_field is_zero k a b) c
          ≡ merge_field is_zero k a (merge_field is_zero k b c)
    field_assoc plain a b c = ground arith
    field_assoc (struct l) a b c = value_assoc l a b c
    field_assoc (ptr k) none b c = refl
    field_assoc (ptr k) (some a) none c = refl
    field_assoc (ptr plain) (some a) (some b) none = refl
    field_assoc (ptr plain) (some a) (some b) (some c) = refl
    field_assoc (ptr (struct l)) (some a) (some b) none = refl
    field_assoc (ptr (struct l)) (some a) (some b) (some c) = ap some (value_assoc l a b c)
    field_assoc (ptr (ptr k)) (some a) (some b) none = refl
    field_assoc (ptr (ptr k)) (some a) (some b) (some c) = refl

    value_assoc :
        (l : Layout) (a b c : Fields V l)
        → merge_value is_zero l (merge_value is_zero l a b) c
          ≡ merge_value is_zero l a (merge_value is_zero l b c)
    value_assoc end a b c = refl
    value_assoc (field true k l) (a, xs) (b, ys) (c, zs) =
        simp (field_assoc k a b c, value_assoc l xs ys zs)
    value_assoc (field false k l) (a, xs) (b, ys) (c, zs) = simp (value_assoc l xs ys zs)

    field_unset :
        (k : Kind) (dst src : Value V k)
        → IsUnsetField is_zero k src
        → merge_field is_zero k dst src ≡ dst
    field_unset plain dst src u = simp (u)
    field_unset (struct l) dst src u = value_unset l dst src u
    field_unset (ptr k) none none u = refl
    field_unset (ptr k) (some dst) none u = refl
    field_unset (ptr k) dst (some src) u = absurd u

    value_unset :
        (l : Layout) (dst src : Fields V l)
        → IsUnset is_zero l src
        → merge_value is_zero l dst src ≡ dst
    value_unset end dst src u = refl
    value_unset (field true k l) (dst, dsts) (src, srcs) (u, us) =
        simp (field_unset k dst src u, value_unset l dsts srcs us)
    value_unset (field false k l) (dst, dsts) (src, srcs) (u, us) =
        simp (value_unset l dsts srcs us)

  mutual
    unfolding Value Fields Place Spot read_place read merge_field merge_value

    read_place-merge :
        (k : Kind) (p : Place k) (dst src : Value V k)
        → read_place k p (merge_field is_zero k dst src)
          ≡ (if is_zero (read_place k p src) then read_place k p dst else read_place k p src)
    read_place-merge plain p dst src = refl
    read_place-merge (struct l) p dst src = read-merge l p dst src
    read_place-merge (ptr k) p dst src = absurd p

    read-merge :
        (l : Layout) (p : Spot l) (dst src : Fields V l)
        → read l p (merge_value is_zero l dst src)
          ≡ (if is_zero (read l p src) then read l p dst else read l p src)
    read-merge end p dst src = absurd p
    read-merge (field true k l) (inl p) (dst, dsts) (src, srcs) = read_place-merge k p dst src
    read-merge (field true k l) (inr p) (dst, dsts) (src, srcs) = read-merge l p dsts srcs
    read-merge (field false k l) p (dst, dsts) (src, srcs) = read-merge l p dsts srcs

  -- A plain field that can be set, in structures but not behind pointers, has the value of the
  -- configuration merged in, or its own where that is zero; configurations of one type may be
  -- merged in groups: a with b and then with c is a with the merge of b and c; the same
  -- configuration merged a second time changes nothing, and neither does one in which no plain
  -- field and no pointer is set.
  pub merge_struct-layers :
      (l : Layout) (p : Spot l) (a b c u : Fields V l)
      → IsUnset is_zero l u
      → (read l p (merge_struct is_zero l a (some b))
          ≡ (if is_zero (read l p b) then read l p a else read l p b))
        × (merge_struct is_zero l (merge_struct is_zero l a (some b)) (some c)
            ≡ merge_struct is_zero l a (some (merge_struct is_zero l b (some c))))
        × (merge_struct is_zero l (merge_struct is_zero l a (some b)) (some b)
            ≡ merge_struct is_zero l a (some b))
        × (merge_struct is_zero l a (some u) ≡ a)
  unfolding merge_struct
  merge_struct-layers l p a b c u unset =
      (read-merge l p a b, value_assoc l a b c, value_again l a b, value_unset l a u unset)
