-- ===== src/Cron.antt =====
-- internal/randcron/randcron.go: cron expressions whose fields ask for a random value. The hash of a
-- seed is an argument; `strings` and `strconv` are modelled for what the code uses of them.
pub mod Decimal
pub mod Ranges
mod Tests
use allino.Base.{
  ℕ, zero, suc, ◌+◌, ◌-◌, ◌*◌, ◌/◌, ◌%◌, ◌==◌, Bool, true, false, not, ◌&&◌, ◌||◌, List, [], ◌∷◌,
  ◌++◌, Option, none, some, if◌then◌else◌, ltb, leb, length,
}
use allino.Base.Bytes.{Bytes, bytes_eq}
use allino.Base.Split.{split, join}
use allino.Base.Int.{ℤ, pos, negsuc}
use allino.JobIds.{atoi}

abbrev question : ℕ
question = 63

abbrev dash : ℕ
dash = 45

abbrev space : ℕ
space = 32

-- The white space of `strings.Fields` in ASCII.
abbrev pub is_space : ℕ → Bool
is_space c = c == 32 || (leb 9 c && leb c 13)

-- The fields of a text, after the part `word` of a field.
unfoldable pub fields_from : Bytes → Bytes → List Bytes
fields_from word [] = if bytes_eq word [] then [] else word ∷ []
fields_from word (c ∷ s) =
    let ended = fields_from [] s in
    let going = fields_from (word ++ c ∷ []) s in
    if is_space c then (if bytes_eq word [] then ended else word ∷ ended) else going

-- `strconv.Itoa` of a number that is not negative; the fuel is the number.
unfoldable pub digits_of : ℕ → ℕ → Bytes
digits_of zero n = (48 + n % 10) ∷ []
digits_of (suc fuel) n =
    let front = digits_of fuel (n / 10) in
    if ltb n 10 then (48 + n) ∷ [] else front ++ (48 + n % 10) ∷ []

unfoldable pub itoa : ℕ → Bytes
unfolding digits_of
itoa n = digits_of n n

-- `hash` is the FNV sum of the seed and the position, below 2 ^ 32. At the widest range the code's
-- `max - min + 1` wraps around, and the remainder is the sum, as here.
unfoldable pub random_in_range : (Bytes → ℕ → ℕ) → Bytes → ℕ → ℕ → ℕ → ℕ
random_in_range hash seed at min max = min + hash seed at % (max - min + 1)

-- What `expandField` answers; `none` is an error.
abbrev pub Field : Type 0
Field = Option Bytes

unfoldable pub has_question : Bytes → Bool
has_question [] = false
has_question (c ∷ s) = c == question || has_question s

-- The part before a last question mark.
unfoldable pub trim_question : Bytes → Option Bytes
trim_question [] = none
trim_question (c ∷ []) = if c == question then some [] else none
trim_question (c ∷ d ∷ s) = elim (trim_question (d ∷ s)) [ none ↦ none | some p ↦ some (c ∷ p) ]

-- The end of a range, with the test of its order. The parts have no minus sign, so `Atoi` gives no
-- negative number of them; the branches are those of the comparison.
unfoldable pub expand_between : (Bytes → ℕ → ℕ) → Bytes → ℕ → Option ℤ → Option ℤ → Field
unfolding random_in_range itoa
expand_between hash seed at (some (pos start)) (some (pos end)) =
    if ltb end start then none else some (itoa (random_in_range hash seed at start end))
expand_between hash seed at _ _ = none

unfoldable pub expand_range : (Bytes → ℕ → ℕ) → Bytes → ℕ → List Bytes → Field
unfolding expand_between
expand_range hash seed at (start ∷ end ∷ []) = expand_between hash seed at (atoi start) (atoi end)
expand_range hash seed at _ = none

unfoldable pub expand_field : (Bytes → ℕ → ℕ) → Bytes → ℕ → ℕ → ℕ → Bytes → Field
unfolding has_question trim_question expand_range random_in_range itoa
expand_field hash seed at min max field =
    if not (has_question field)
    then some field
    else if bytes_eq field (question ∷ [])
    then some (itoa (random_in_range hash seed at min max))
    else elim (trim_question field) [
      | none ↦ none
      | some base ↦ expand_range hash seed at (split dash base)
    ]

-- Minute, hour, day of the month, month, day of the week.
abbrev pub ranges : List (ℕ × ℕ)
ranges = (0, 59) ∷ (0, 23) ∷ (1, 31) ∷ (1, 12) ∷ (0, 6) ∷ []

unfoldable pub expand_fields :
    (Bytes → ℕ → ℕ) → Bytes → ℕ → List (ℕ × ℕ) → List Bytes → Option (List Bytes)
unfolding expand_field
expand_fields hash seed at ((min, max) ∷ rs) (f ∷ fs) = elim (expand_field hash seed at min max f) [
  | none ↦ none
  | some g ↦ elim (expand_fields hash seed (at + 1) rs fs) [ none ↦ none | some gs ↦ some (g ∷ gs) ]
]
expand_fields hash seed at _ _ = some []

unfoldable pub expand : (Bytes → ℕ → ℕ) → Bytes → Bytes → Option Bytes
unfolding expand_fields fields_from
expand hash expr seed =
    let fields = fields_from [] expr in
    if not (length fields == 5) then none else elim (expand_fields hash seed 0 ranges fields) [
      | none ↦ none
      | some gs ↦ some (join space gs)
    ]
