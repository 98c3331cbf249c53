-- ===== src/Mcp/Names.antt =====
-- The names that mcpFunctionName of typedhandler_mcp.go makes.
use allino.Base.{
  ℕ, ◌==◌, ◌≡◌, refl, Bool, true, false, ◌&&◌, [], ◌∷◌, Bool-cases, ◌⊎◌, inl, inr, if◌then◌else◌,
  arith,
}
use allino.Base.Bytes.{Bytes}
use allino.Login.{is_empty}
use allino.Mcp.{
  McpOption, is_name_byte, replace_runs, trim_start, trim_end, trim, mcp_function_name,
}

-- Letters, digits, underscores and dashes.
abbrev pub IsName : Bytes → Type 0
IsName [] = Unit
IsName (c ∷ s) = (is_name_byte c ≡ true) × IsName s

run-IsName : (within : Bool) (run : Bytes) → IsName run → IsName (if within then run else 95 ∷ run)
run-IsName true run h = h
run-IsName false run h = (refl, h)

unless-IsName : (b : Bool) (s : Bytes) → IsName s → IsName (if b then [] else s)
unless-IsName true s h = tt
unless-IsName false s h = h

replace_runs-IsName : (within : Bool) (s : Bytes) → IsName (replace_runs within s)
unfolding replace_runs
replace_runs-IsName within [] = tt
replace_runs-IsName within (c ∷ s) = elim (Bool-cases (is_name_byte c)) [
  | inl e ↦ rw e (e, replace_runs-IsName false s)
  | inr e ↦ rw e (run-IsName within (replace_runs true s) (replace_runs-IsName true s))
]

trim_start-IsName : (b : ℕ) (s : Bytes) → IsName s → IsName (trim_start b s)
unfolding trim_start
trim_start-IsName b [] h = tt
trim_start-IsName b (c ∷ s) (h, hs) = elim (Bool-cases (c == b)) [
  | inl e ↦ rw e (trim_start-IsName b s hs)
  | inr e ↦ rw e (h, hs)
]

trim_end-IsName : (b : ℕ) (s : Bytes) → IsName s → IsName (trim_end b s)
unfolding trim_end
trim_end-IsName b [] h = tt
trim_end-IsName b (c ∷ s) (h, hs) = elim (Bool-cases (c == b && is_empty (trim_end b s))) [
  | inl e ↦ rw e tt
  | inr e ↦ rw e (h, trim_end-IsName b s hs)
]

trim-IsName : (b : ℕ) (s : Bytes) → IsName s → IsName (trim b s)
trim-IsName b s h = trim_end-IsName b (trim_start b s) (trim_start-IsName b s h)

pub mcp_function_name-IsName : (o : McpOption) → IsName (mcp_function_name o)
unfolding mcp_function_name
mcp_function_name-IsName o =
    let given = if is_empty o.name then trim 47 o.path else o.name in
    unless-IsName (is_empty given) (trim 95 (replace_runs false given))
      (trim-IsName 95 (replace_runs false given) (replace_runs-IsName false given))

-- A text with a slash is no name.
abbrev pub HasSlash : Bytes → Type 0
HasSlash [] = ⊥
HasSlash (c ∷ s) = (c ≡ 47) ⊎ HasSlash s

pub slash_no_name : (s : Bytes) → HasSlash s → IsName s → ⊥
slash_no_name [] h k = elim h [ ]
slash_no_name (c ∷ s) (inl e) (h, hs) = absurd (ground arith)
slash_no_name (c ∷ s) (inr later) (h, hs) = slash_no_name s later hs
