-- ===== src/JobStore.antt =====
-- typedhandler_job_store.go: job statuses by name and by code, and the totals under their names. An
-- error is `none`.
pub mod Names
mod Tests
use allino.Base.{
  ℕ, ◌+◌, ◌==◌, Bool, true, false, List, [], ◌∷◌, Option, none, some, if◌then◌else◌, ltb, get_elem?,
}
use allino.Base.Bytes.{Bytes, bytes_eq, codes}
use allino.Base.Int.{ℤ, pos, negsuc}
use allino.JobIds.{atoi}

-- `sqlStatusCodeStrings`.
abbrev pub sql_status_code_strings : List Bytes
sql_status_code_strings = codes "queued" ∷ codes "leased" ∷ codes "done" ∷ codes "error" ∷ []

-- A code in the range of the names.
unfoldable pub known_code : Option ℤ → Option ℕ
known_code none = none
known_code (some (pos n)) = if ltb n 4 then some n else none
known_code (some (negsuc n)) = none

unfoldable pub job_status_code : Bytes → Option ℕ
unfolding known_code
job_status_code status =
    if bytes_eq status (codes "queued")
    then some 0
    else if bytes_eq status (codes "leased")
    then some 1
    else if bytes_eq status (codes "done")
    then some 2
    else if bytes_eq status (codes "error")
    then some 3
    else known_code (atoi status)

unfoldable pub job_status_codes : List Bytes → Option (List ℕ)
unfolding job_status_code
job_status_codes [] = some []
job_status_codes (s ∷ ss) =
    let rest = job_status_codes ss in
    elim (job_status_code s) [
      | none ↦ none
      | some c ↦ elim rest [ none ↦ none | some cs ↦ some (c ∷ cs) ]
    ]

unfoldable pub name_of : Bytes → Option ℕ → Bytes
name_of status none = status
name_of status (some n) = elim (get_elem? sql_status_code_strings n) [ none ↦ status | some x ↦ x ]

unfoldable pub job_status_name : Bytes → Bytes
unfolding known_code name_of
job_status_name status = name_of status (known_code (atoi status))

-- `out[name] += count`.
unfoldable pub add_count : Bytes → ℕ → List (Bytes × ℕ) → List (Bytes × ℕ)
add_count name n [] = (name, n) ∷ []
add_count name n ((k, m) ∷ out) =
    let rest = add_count name n out in if bytes_eq k name then (k, m + n) ∷ out else (k, m) ∷ rest

-- The loop over the map of the strategy, in any order: here from the last entry to the first.
unfoldable pub store_total : List (Bytes × ℕ) → List (Bytes × ℕ)
unfolding add_count job_status_name
store_total [] = []
store_total ((status, n) ∷ raw) = add_count (job_status_name status) n (store_total raw)

unfoldable pub count_at : Bytes → List (Bytes × ℕ) → ℕ
count_at name [] = 0
count_at name ((k, m) ∷ out) = let rest = count_at name out in if bytes_eq k name then m else rest
