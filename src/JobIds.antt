-- ===== src/JobIds.antt =====
-- typedhandler_job_utils.go: job ids, and the versions of handlers that tell whether a cached result
-- still fits. `strings` and `strconv` are modelled for what the code uses of them; the hash is an
-- argument.
pub mod Codec
pub mod Versions
mod Tests
use allino.Base.{
  ℕ, suc, ◌+◌, ◌-◌, ◌*◌, ◌==◌, Bool, true, false, not, ◌&&◌, ◌||◌, List, [], ◌∷◌, ◌++◌, Option,
  none, some, if◌then◌else◌, ltb, leb, length,
}
use allino.Base.Bytes.{Bytes, bytes_eq, codes}
use allino.Base.Split.{split, join}
use allino.Base.Int.{ℤ, pos, negsuc}
use allino.Trie.{has_prefix}

-- `jobIDSep`.
abbrev pub colon : ℕ
colon = 58

abbrev pub dot : ℕ
dot = 46

pub record JobId : Type 0 where
  pub version : Bytes
  pub backend : Bytes
  pub handler : Bytes
  pub id : Bytes

pub data IdError : Type 0 where
  invalid_format invalid_prefix unsupported_version : IdError

pub data Decoded : Type 0 where
  failed : IdError → Decoded
  decoded : JobId → Decoded

-- `hash` is the SHA-256 of a string, in hexadecimal digits.
unfoldable pub encode_job_key : (Bytes → Bytes) → Bytes → Bytes → Bytes
encode_job_key hash handler injson = hash (handler ++ injson)

-- The last part of a job id; `idempotency_key` is empty where the input has none.
unfoldable pub id_part : (Bytes → Bytes) → Bytes → Bytes → Bytes → Bytes → Bytes
unfolding encode_job_key
id_part hash handler idempotency_key injson marker =
    let suffix = if bytes_eq marker [] then [] else dot ∷ marker in
    (if bytes_eq idempotency_key [] then encode_job_key hash handler injson else idempotency_key)
    ++ suffix

unfoldable pub encode_job_id : (Bytes → Bytes) → Bytes → Bytes → Bytes → Bytes → Bytes
unfolding id_part
encode_job_id hash handler idempotency_key injson marker =
    join colon
      (codes "job" ∷ codes "v1" ∷ handler ∷ id_part hash handler idempotency_key injson marker ∷ [])

unfoldable pub decode_parts : List Bytes → Decoded
decode_parts (prefix ∷ version ∷ handler ∷ id ∷ []) =
    if not (bytes_eq prefix (codes "job"))
    then failed invalid_prefix
    else if not (has_prefix version (codes "v1"))
    then failed unsupported_version
    else decoded (record { version = version; backend = []; handler = handler; id = id })
decode_parts _ = failed invalid_format

unfoldable pub decode_job_id : Bytes → Decoded
unfolding decode_parts
decode_job_id s = decode_parts (split colon s)

unfoldable pub handler_version : Bytes → Bytes
handler_version version = if bytes_eq version [] then codes "0.0.1" else version

-- The value of decimal digits, where there are no others.
unfoldable pub digits : ℕ → Bytes → Option ℕ
digits n [] = some n
digits n (c ∷ s) =
    let rest = digits (n * 10 + (c - 48)) s in if leb 48 c && leb c 57 then rest else none

-- There is at least one digit.
unfoldable pub number : Bytes → Option ℕ
unfolding digits
number [] = none
number (c ∷ s) = digits 0 (c ∷ s)

-- `strconv.Atoi` of 64 bits.
unfoldable pub atoi : Bytes → Option ℤ
unfolding number
atoi [] = none
atoi (c ∷ s) =
    if c == 45
    then elim (number s) [
      | none ↦ none
      | some n ↦
          if ltb 9_223_372_036_854_775_808 n
          then none
          else if n == 0
          then some (pos 0)
          else some (negsuc (n - 1))
    ]
    else elim (number (if c == 43 then s else c ∷ s)) [
      | none ↦ none
      | some n ↦ if ltb 9_223_372_036_854_775_807 n then none else some (pos n)
    ]

unfoldable pub parse_parts : List Bytes → Option (ℤ × ℤ)
parse_parts (major ∷ minor ∷ rest) = elim (atoi major) [
  | none ↦ none
  | some a ↦ elim (atoi minor) [ none ↦ none | some b ↦ some (a, b) ]
]
parse_parts _ = none

unfoldable pub parse_major_minor : Bytes → Option (ℤ × ℤ)
unfolding parse_parts
parse_major_minor v = parse_parts (split dot v)

abbrev pub eq_ℤ : ℤ → ℤ → Bool
eq_ℤ (pos a) (pos b) = a == b
eq_ℤ (negsuc a) (negsuc b) = a == b
eq_ℤ (pos a) (negsuc b) = false
eq_ℤ (negsuc a) (pos b) = false

unfoldable pub has_major_or_minor_version_diff : Bytes → Bytes → Bool
unfolding parse_major_minor
has_major_or_minor_version_diff a b = elim (parse_major_minor a) [
  | none ↦ false
  | some (ma, mi) ↦ elim (parse_major_minor b) [
    | none ↦ false
    | some (mb, mj) ↦ not (eq_ℤ ma mb) || not (eq_ℤ mi mj)
  ]
]
