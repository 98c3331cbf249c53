-- ===== src/Cron/Tests.antt =====
-- Runs of random cron expressions, and an instance of their theorem.
use allino.Base.{ℕ, ◌+◌, ◌≡◌, refl, arith, some}
use allino.Base.Bytes.{Bytes, codes}
use allino.JobIds.{atoi, number, digits}
use allino.Cron.{
  expand_field, expand_fields, expand, fields_from, has_question, trim_question, expand_range,
  expand_between, random_in_range, itoa, digits_of,
}
use allino.Cron.Ranges.{Fills, expand_field-Fills}

abbrev hash : Bytes → ℕ → ℕ
hash seed at = 137 + at

expand_field-Fills_example :
    Fills 0 59 (codes "10-20?") (expand_field hash (codes "s") 0 0 59 (codes "10-20?"))
expand_field-Fills_example =
    expand_field-Fills hash (codes "s") 0 0 59 (codes "10-20?") (omega arith)

expanded : expand hash (codes "10-20?  ? * 1 *") (codes "s") ≡ some (codes "15 18 * 1 *")
unfolding expand expand_fields expand_field fields_from has_question trim_question expand_range
    expand_between random_in_range itoa digits_of atoi number digits
expanded = refl
