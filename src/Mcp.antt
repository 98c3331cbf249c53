-- ===== src/Mcp.antt =====
-- typedhandler_mcp.go: the functions and files that a server offers to MCP clients as resources, and
-- how one is found. What a walk over the directories meets, and the URI that the library `url` makes
-- of a file, are given; logging and the JSON of answers are left out.
pub mod Names
pub mod Listed
pub mod Prompts
mod Tests
use allino.Base.{
  ℕ, ◌+◌, ◌==◌, Bool, true, false, not, ◌&&◌, ◌||◌, List, [], ◌∷◌, ◌++◌, map, Option, none, some,
  if◌then◌else◌, ltb, leb,
}
use allino.Base.Bytes.{Bytes, bytes_eq, codes, strip}
use allino.Login.{is_empty}
use allino.Binding.Fields.{to_lower}

-- An `Option` of a function, as far as MCP reads it.
pub record McpOption : Type 0 where
  pub name : Bytes
  pub path : Bytes
  pub mcp : Bytes
  pub has_invoker : Bool
  pub description : Bytes
  pub content_type : Bytes

pub record McpLocalResource : Type 0 where
  pub uri : Bytes
  pub name : Bytes
  pub description : Bytes
  pub mime_type : Bytes
  pub path : Bytes

-- `MCPResourceInfo`, which is also what resources/list answers.
pub record McpResourceInfo : Type 0 where
  pub uri : Bytes
  pub name : Bytes
  pub description : Bytes
  pub mime_type : Bytes

-- The characters that `mcpNameRe` leaves.
abbrev pub is_name_byte : ℕ → Bool
is_name_byte c =
    (leb 97 c && leb c 122)
    || (leb 65 c && leb c 90)
    || (leb 48 c && leb c 57)
    || c == 95
    || c == 45

-- Every longest run of other characters becomes one underscore; the flag is set within a run.
unfoldable pub replace_runs : Bool → Bytes → Bytes
replace_runs within [] = []
replace_runs within (c ∷ s) =
    let kept = replace_runs false s in
    let run = replace_runs true s in
    if is_name_byte c then c ∷ kept else if within then run else 95 ∷ run

-- `strings.Trim` of one byte.
unfoldable pub trim_start : ℕ → Bytes → Bytes
trim_start b [] = []
trim_start b (c ∷ s) = let rest = trim_start b s in if c == b then rest else c ∷ s

unfoldable pub trim_end : ℕ → Bytes → Bytes
trim_end b [] = []
trim_end b (c ∷ s) = let rest = trim_end b s in if c == b && is_empty rest then [] else c ∷ rest

abbrev pub trim : ℕ → Bytes → Bytes
trim b s = trim_end b (trim_start b s)

unfoldable pub mcp_function_name : McpOption → Bytes
unfolding trim_start trim_end replace_runs
mcp_function_name o =
    let given = if is_empty o.name then trim 47 o.path else o.name in
    if is_empty given then [] else trim 95 (replace_runs false given)

-- `strings.EqualFold` in ASCII.
abbrev pub equal_fold : Bytes → Bytes → Bool
equal_fold a b = bytes_eq (to_lower a) (to_lower b)

-- The functions of a kind among all of a server, those with a path first.
unfoldable pub mcp_options : Bytes → List McpOption → List McpOption
mcp_options kind [] = []
mcp_options kind (o ∷ os) =
    let rest = mcp_options kind os in
    if o.has_invoker && equal_fold o.mcp kind && not (is_empty (mcp_function_name o))
    then o ∷ rest
    else rest

unfoldable pub first_named : Bytes → List McpOption → Option McpOption
first_named name [] = none
first_named name (o ∷ os) =
    let rest = first_named name os in if bytes_eq (mcp_function_name o) name then some o else rest

unfoldable pub find_mcp_option : Bytes → Bytes → List McpOption → Option McpOption
unfolding first_named mcp_options
find_mcp_option kind name os = first_named name (mcp_options kind os)

-- The order of texts.
abbrev pub bytes_less : Bytes → Bytes → Bool
bytes_less [] [] = false
bytes_less [] (y ∷ b) = true
bytes_less (x ∷ a) [] = false
bytes_less (x ∷ a) (y ∷ b) = if x == y then bytes_less a b else ltb x y

-- `sort.Slice` by a text; the order of equal ones is open in Go.
module _ {A : Type 0} (key : A → Bytes) where
  unfoldable pub place_by : A → List A → List A
  place_by x [] = x ∷ []
  place_by x (y ∷ ys) =
      let rest = place_by x ys in if bytes_less (key y) (key x) then y ∷ rest else x ∷ y ∷ ys

  unfoldable pub sort_by : List A → List A
  unfolding place_by
  sort_by [] = []
  sort_by (x ∷ xs) = place_by x (sort_by xs)

abbrev pub scheme : Bytes
scheme = codes "allino://"

abbrev pub function_info : McpOption → McpResourceInfo
function_info o = record {
  uri = scheme ++ mcp_function_name o;
  name = mcp_function_name o;
  description = o.description;
  mime_type = o.content_type;
}

abbrev pub local_info : McpLocalResource → McpResourceInfo
local_info l = record {
  uri = l.uri;
  name = l.name;
  description = l.description;
  mime_type = l.mime_type;
}

abbrev pub is_seen : Bytes → List Bytes → Bool
is_seen uri [] = false
is_seen uri (s ∷ seen) = bytes_eq s uri || is_seen uri seen

-- The files with URIs that were not seen before.
unfoldable pub unseen : List Bytes → List McpLocalResource → List McpResourceInfo
unseen seen [] = []
unseen seen (l ∷ ls) =
    let skipped = unseen seen ls in
    let taken = unseen (l.uri ∷ seen) ls in
    if is_seen l.uri seen then skipped else local_info l ∷ taken

-- The files in the order of their URIs.
unfoldable pub load_local_resources : List McpLocalResource → List McpLocalResource
unfolding sort_by
load_local_resources files = sort_by (λ l. l.uri) files

unfoldable pub mcp_resources_list : List McpOption → List McpLocalResource → List McpResourceInfo
unfolding sort_by mcp_options unseen load_local_resources
mcp_resources_list os files =
    let functions = map function_info (mcp_options (codes "resource") os) in
    sort_by (λ e. e.uri)
      (functions ++ unseen (map (λ e. e.uri) functions) (load_local_resources files))

unfoldable pub find_local_resource : Bytes → List McpLocalResource → Option McpLocalResource
find_local_resource uri [] = none
find_local_resource uri (l ∷ ls) =
    let rest = find_local_resource uri ls in if bytes_eq l.uri uri then some l else rest

-- What a client reads under a URI.
pub data McpFound : Type 0 where
  by_function : McpOption → McpFound
  by_file : McpLocalResource → McpFound
  not_found : McpFound

abbrev pub trim_scheme : Bytes → Bytes
trim_scheme uri = elim (strip scheme uri) [ none ↦ uri | some rest ↦ rest ]

unfoldable pub mcp_resource_read : List McpOption → List McpLocalResource → Bytes → McpFound
unfolding find_mcp_option find_local_resource load_local_resources
mcp_resource_read os files uri = elim (find_mcp_option (codes "resource") (trim_scheme uri) os) [
  | some o ↦ by_function o
  | none ↦ elim (find_local_resource uri (load_local_resources files)) [
    | none ↦ not_found
    | some l ↦ by_file l
  ]
]
