-- ===== src/Binding/Values.antt =====
-- setByReflect of serve_request.go: a text becomes the value of a field. `X` has the values whose
-- reading is left to libraries: floating point numbers, times, and what a decoder makes.
use allino.Base.{
  ℕ, ◌-◌, ◌%◌, ◌^◌, Bool, true, false, ◌||◌, List, [], ◌∷◌, Option, none, some, if◌then◌else◌, ltb,
}
use allino.Base.Bytes.{Bytes, bytes_eq, codes}
use allino.Base.Int.{ℤ, pos, negsuc}
use allino.JobIds.{number, atoi}

-- The base type of a field, without its pointer; numbers have their width in bits.
pub data BaseType : Type 0 where
  bool_type time_type duration_type bytes_type string_type file_type files_type other_type :
      BaseType
  int_type : ℕ → BaseType
  uint_type : ℕ → BaseType
  float_type : ℕ → BaseType

pub data Value (X : Type 0) : Type 0 where
  bool_value : Bool → Value X
  int_value : ℤ → Value X
  uint_value : ℕ → Value X
  string_value : Bytes → Value X
  bytes_value : Bytes → Value X
  other_value : X → Value X

-- What a field holds, a nil pointer being `none`.
abbrev pub Slot : Type 0 → Type 0
Slot X = Option (Value X)

-- What the code reads by libraries: `parseTimeSafe`, `time.ParseDuration` in nanoseconds, and
-- `strconv.ParseFloat` with the store into a field of some bits.
pub record Readers (X : Type 0) : Type 0 where
  pub parse_time : Bytes → Option X
  pub parse_duration : Bytes → Option ℤ
  pub parse_float : ℕ → Bytes → Option X

abbrev one_of : List Bytes → Bytes → Bool
one_of [] s = false
one_of (w ∷ ws) s = bytes_eq s w || one_of ws s

-- `strconv.ParseBool`.
unfoldable pub parse_bool : Bytes → Option Bool
parse_bool s =
    if one_of (codes "1" ∷ codes "t" ∷ codes "T" ∷ codes "TRUE" ∷ codes "true" ∷ codes "True" ∷ [])
      s
    then some true
    else if one_of
        (codes "0" ∷ codes "f" ∷ codes "F" ∷ codes "FALSE" ∷ codes "false" ∷ codes "False" ∷ []) s
    then some false
    else none

-- `strconv.ParseUint` of base 10 and 64 bits.
unfoldable pub parse_uint : Bytes → Option ℕ
parse_uint s = elim (number s) [
  | none ↦ none
  | some n ↦ if ltb 18_446_744_073_709_551_615 n then none else some n
]

-- The number of a bit pattern in two's complement.
abbrev pub signed : ℕ → ℕ → ℤ
signed w u = if ltb u (2 ^ (w - 1)) then pos u else negsuc (2 ^ w - u - 1)

-- `SetInt` into a field of `w` bits keeps the lowest bits.
unfoldable pub wrap_int : ℕ → ℤ → ℤ
wrap_int w (pos n) = signed w (n % 2 ^ w)
wrap_int w (negsuc n) = signed w (2 ^ w - n % 2 ^ w - 1)

module _ {X : Type 0} where
  -- A value that was read is stored; else the field stays.
  abbrev pub stored {ℓ} : {A : Type ℓ} → Option A → (A → Value X) → Slot X → Slot X
  stored none make v = v
  stored (some a) make v = some (make a)

  unfoldable pub set_int : ℕ → Bytes → Slot X → Slot X
  set_int w text v = stored (atoi text) (λ n. int_value (wrap_int w n)) v

  unfoldable pub set_uint : ℕ → Bytes → Slot X → Slot X
  set_uint w text v = stored (parse_uint text) (λ n. uint_value (n % 2 ^ w)) v

  -- A duration is also an integer of 64 bits, so the code goes on to read it as such.
  unfoldable pub set_by_reflect : Readers X → Bytes → BaseType → Slot X → Slot X
  unfolding set_int set_uint
  set_by_reflect r text time_type v = stored (r.parse_time text) other_value v
  set_by_reflect r text duration_type v = elim (r.parse_duration text) [
    | none ↦ v
    | some d ↦ set_int 64 text (some (int_value d))
  ]
  set_by_reflect r text bool_type v = stored (parse_bool text) bool_value v
  set_by_reflect r text (float_type w) v = stored (r.parse_float w text) other_value v
  set_by_reflect r text (int_type w) v = set_int w text v
  set_by_reflect r text (uint_type w) v = set_uint w text v
  set_by_reflect r text bytes_type v = some (bytes_value text)
  set_by_reflect r text string_type v = some (string_value text)
  set_by_reflect r text file_type v = v
  set_by_reflect r text files_type v = v
  set_by_reflect r text other_type v = v
