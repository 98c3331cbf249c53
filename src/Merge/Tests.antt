-- ===== src/Merge/Tests.antt =====
-- Tests of merge.go, with numbers for the values.
use allino.Base.{ℕ, ◌==◌, ◌≡◌, refl, Bool, true, false, inl, [], ◌∷◌, Option, none, some}
use allino.Merge.{
  plain, struct, ptr, Layout, end, field, no_fields, Value, Fields, merge_field, merge_value,
  merge_struct, merge_single,
}
use allino.Merge.Layers.{IsUnsetField, IsUnset, Place, Spot, read_place, read, merge_struct-layers}

abbrev is_zero : ℕ → Bool
is_zero n = n == 0

-- A port, an unexported counter, a pointer to a limit, and a pointer to a structure with a size.
abbrev config : Layout
config = field true plain (
    field false plain
      (field true (ptr plain) (field true (ptr (struct (field true plain end))) end)))

abbrev make : ℕ → ℕ → Option ℕ → Option ℕ → Fields ℕ config
unfolding Value Fields
make port counter limit none = (port, (counter, (limit, (none, no_fields))))
make port counter limit (some size) =
    (port, (counter, (limit, (some (size, no_fields), no_fields))))

-- A limit that is there stays, unlike a port.
limit_stays :
    merge_struct is_zero config (make 80 1 (some 5) (some 7)) (some (make 8080 2 (some 6) (some 9)))
    ≡ make 8080 1 (some 5) (some 9)
unfolding Value Fields merge_field merge_value merge_struct
limit_stays = refl

last_set : merge_single is_zero 0 (1 ∷ 2 ∷ 0 ∷ []) ≡ 2
unfolding merge_single
last_set = refl

nothing_set : IsUnset is_zero config (make 0 0 none none)
unfolding Value Fields IsUnsetField IsUnset
nothing_set = (refl, (refl, (tt, (tt, tt))))

abbrev defaults : Fields ℕ config
defaults = make 80 1 none (some 7)

abbrev given : Fields ℕ config
given = make 0 2 (some 6) none

abbrev last : Fields ℕ config
last = make 8080 3 (some 5) (some 9)

abbrev port_spot : Spot config
unfolding Place Spot
port_spot = inl tt

merge_struct-layers_example :
    (read config port_spot (merge_struct is_zero config defaults (some last)) ≡ 8080)
    × (merge_struct is_zero config (merge_struct is_zero config defaults (some last)) (some given)
        ≡ merge_struct is_zero config defaults
            (some (merge_struct is_zero config last (some given))))
    × (merge_struct is_zero config (merge_struct is_zero config defaults (some last)) (some last)
        ≡ merge_struct is_zero config defaults (some last))
    × (merge_struct is_zero config defaults (some (make 0 0 none none)) ≡ defaults)
unfolding Place Spot read_place read Value Fields
merge_struct-layers_example =
    merge_struct-layers is_zero config port_spot defaults last given (make 0 0 none none)
      nothing_set
