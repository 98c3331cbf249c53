-- ===== src/Mcp/Listed.antt =====
-- What is listed can be read, for the resources of typedhandler_mcp.go.
use allino.Base.{
  ◌≡◌, refl, sym, ap, subst, List, [], ◌∷◌, ◌++◌, map, none, some, Bool-cases, ◌⊎◌, inl, inr,
  if◌then◌else◌, arith,
}
use allino.Base.Bytes.{Bytes, bytes_eq, bytes_eq_refl, eq_of_bytes_eq, codes}
use allino.Mcp.{
  McpOption, McpLocalResource, McpResourceInfo, mcp_function_name, mcp_options, first_named,
  find_mcp_option, bytes_less, place_by, sort_by, scheme, function_info, local_info, is_seen,
  unseen, load_local_resources, mcp_resources_list, find_local_resource, McpFound, by_function,
  by_file, not_found, trim_scheme, mcp_resource_read,
}
use allino.Mcp.Names.{IsName, HasSlash, mcp_function_name-IsName, slash_no_name}

abbrev pub Among : {A : Type 0} → A → List A → Type 0
Among x [] = ⊥
Among x (y ∷ ys) = (x ≡ y) ⊎ Among x ys

module _ {A : Type 0} (key : A → Bytes) where
  place_by-Among : (x z : A) (ys : List A) → Among z (place_by key x ys) → Among z (x ∷ ys)
  unfolding place_by
  place_by-Among x z [] h = h
  place_by-Among x z (y ∷ ys) h = elim (Bool-cases (bytes_less (key y) (key x))) [
    | inr e ↦ subst (λ b. Among z (if b then y ∷ place_by key x ys else x ∷ y ∷ ys)) e h
    | inl e ↦ elim (subst (λ b. Among z (if b then y ∷ place_by key x ys else x ∷ y ∷ ys)) e h) [
      | inl is ↦ inr (inl is)
      | inr later ↦ elim (place_by-Among x z ys later) [
        | inl is ↦ inl is
        | inr deep ↦ inr (inr deep)
      ]
    ]
  ]

  sort_by-Among : (z : A) (xs : List A) → Among z (sort_by key xs) → Among z xs
  unfolding sort_by
  sort_by-Among z [] h = h
  sort_by-Among z (x ∷ xs) h = elim (place_by-Among x z (sort_by key xs) h) [
    | inl is ↦ inl is
    | inr later ↦ inr (sort_by-Among z xs later)
  ]

append-Among : {A : Type 0} (z : A) (xs ys : List A) → Among z (xs ++ ys) → Among z xs ⊎ Among z ys
append-Among z [] ys h = inr h
append-Among z (x ∷ xs) ys (inl is) = inl (inl is)
append-Among z (x ∷ xs) ys (inr h) = elim (append-Among z xs ys h) [
  | inl here ↦ inl (inr here)
  | inr there ↦ inr there
]

map-Among :
    (e : McpResourceInfo) (os : List McpOption)
    → Among e (map function_info os)
    → (o : McpOption) × Among o os × (e ≡ function_info o)
map-Among e [] h = elim h [ ]
map-Among e (o ∷ os) (inl is) = (o, inl refl, is)
map-Among e (o ∷ os) (inr h) = let (p, among, is) = map-Among e os h in (p, inr among, is)

unseen-Among :
    (e : McpResourceInfo) (seen : List Bytes) (ls : List McpLocalResource)
    → Among e (unseen seen ls)
    → (l : McpLocalResource) × Among l ls × (e ≡ local_info l)
unfolding unseen
unseen-Among e seen [] h = elim h [ ]
unseen-Among e seen (l ∷ ls) h = elim (Bool-cases (is_seen l.uri seen)) [
  | inl s ↦
      let rest =
        subst (λ b. Among e (if b then unseen seen ls else local_info l ∷ unseen (l.uri ∷ seen) ls))
          s h in
      let (m, among, is) = unseen-Among e seen ls rest in (m, inr among, is)
  | inr s ↦
      elim (subst
        (λ b. Among e (if b then unseen seen ls else local_info l ∷ unseen (l.uri ∷ seen) ls)) s
        h) [
          | inl is ↦ (l, inl refl, is)
          | inr rest ↦
              let (m, among, is) = unseen-Among e (l.uri ∷ seen) ls rest in (m, inr among, is)
        ]
]

first_named-some :
    (o : McpOption) (os : List McpOption)
    → Among o os
    → (p : McpOption) × (first_named (mcp_function_name o) os ≡ some p)
      × (mcp_function_name p ≡ mcp_function_name o)
unfolding first_named
first_named-some o [] h = elim h [ ]
first_named-some o (q ∷ os) h =
    elim (Bool-cases (bytes_eq (mcp_function_name q) (mcp_function_name o))) [
      | inl e ↦ (q, rw e refl, eq_of_bytes_eq (mcp_function_name q) (mcp_function_name o) e)
      | inr e ↦ elim h [
        | inl is ↦ absurd (ground (arith, bytes_eq_refl (mcp_function_name o)))
        | inr later ↦ let (p, found, same) = first_named-some o os later in (p, rw e found, same)
      ]
    ]

first_named-none : (name : Bytes) (os : List McpOption) → HasSlash name → first_named name os ≡ none
unfolding first_named
first_named-none name [] h = refl
first_named-none name (o ∷ os) h = elim (Bool-cases (bytes_eq (mcp_function_name o) name)) [
  | inr e ↦ rw e (first_named-none name os h)
  | inl e ↦ absurd (
      slash_no_name name h
        (subst IsName (eq_of_bytes_eq (mcp_function_name o) name e) (mcp_function_name-IsName o)))
]

find_local_resource-some :
    (l : McpLocalResource) (ls : List McpLocalResource)
    → Among l ls
    → (m : McpLocalResource) × (find_local_resource l.uri ls ≡ some m) × (m.uri ≡ l.uri)
unfolding find_local_resource
find_local_resource-some l [] h = elim h [ ]
find_local_resource-some l (m ∷ ls) h = elim (Bool-cases (bytes_eq m.uri l.uri)) [
  | inl e ↦ (m, rw e refl, eq_of_bytes_eq m.uri l.uri e)
  | inr e ↦ elim h [
    | inl is ↦ absurd (ground (arith, bytes_eq_refl l.uri))
    | inr later ↦
        let (n, found, same) = find_local_resource-some l ls later in (n, rw e found, same)
  ]
]

-- The URIs of files have a slash that is not of the scheme of functions.
abbrev pub AllSlashed : List McpLocalResource → Type 0
AllSlashed ls = (l : McpLocalResource) → Among l ls → HasSlash (trim_scheme l.uri)

-- What is read is what an entry of the list says.
abbrev pub ReadsAs : McpResourceInfo → McpFound → Type 0
ReadsAs e (by_function o) = (e.uri ≡ scheme ++ mcp_function_name o) × (e.name ≡ mcp_function_name o)
ReadsAs e (by_file l) = e.uri ≡ l.uri
ReadsAs e not_found = ⊥

module _ (os : List McpOption) (files : List McpLocalResource) where
  read_function :
      (uri name : Bytes) (p : McpOption)
      → trim_scheme uri ≡ name
      → first_named name (mcp_options (codes "resource") os) ≡ some p
      → mcp_resource_read os files uri ≡ by_function p
  unfolding mcp_resource_read find_mcp_option
  read_function uri name p trimmed found = ground arith

  function-ReadsAs :
      (o : McpOption)
      → Among o (mcp_options (codes "resource") os)
      → ReadsAs (function_info o) (mcp_resource_read os files (scheme ++ mcp_function_name o))
  function-ReadsAs o h =
      let (p, found, same) = first_named-some o (mcp_options (codes "resource") os) h in
      subst (ReadsAs (function_info o))
        (sym (read_function (scheme ++ mcp_function_name o) (mcp_function_name o) p refl found))
        (ap (λ n. scheme ++ n) (sym same), sym same)

  read_file :
      (l m : McpLocalResource)
      → HasSlash (trim_scheme l.uri)
      → find_local_resource l.uri (load_local_resources files) ≡ some m
      → mcp_resource_read os files l.uri ≡ by_file m
  unfolding mcp_resource_read find_mcp_option
  read_file l m slashed found =
      let none_named =
        first_named-none (trim_scheme l.uri) (mcp_options (codes "resource") os) slashed in
      ground (arith, none_named, found)

  file-ReadsAs :
      (l : McpLocalResource)
      → Among l (load_local_resources files)
      → HasSlash (trim_scheme l.uri)
      → ReadsAs (local_info l) (mcp_resource_read os files l.uri)
  file-ReadsAs l h slashed =
      let (m, found, same) = find_local_resource-some l (load_local_resources files) h in
      subst (ReadsAs (local_info l)) (sym (read_file l m slashed found)) (sym same)

  -- Where the URI of every file has a slash behind the scheme of functions: reading the URI of
  -- any resource that is listed finds a function with the listed name, or a file with the
  -- listed URI.
  pub mcp_resources_list-ReadsAs :
      (e : McpResourceInfo)
      → AllSlashed files
      → Among e (mcp_resources_list os files)
      → ReadsAs e (mcp_resource_read os files e.uri)
  unfolding mcp_resources_list load_local_resources
  mcp_resources_list-ReadsAs e slashed h =
      let functions = map function_info (mcp_options (codes "resource") os) in
      let fresh = unseen (map (λ i. i.uri) functions) (load_local_resources files) in
      let all = sort_by-Among (λ i. i.uri) e (functions ++ fresh) h in
      elim (append-Among e functions fresh all) [
        | inl listed ↦
            let (o, among, is) = map-Among e (mcp_options (codes "resource") os) listed in
            subst (λ i. ReadsAs i (mcp_resource_read os files i.uri)) (sym is)
              (function-ReadsAs o among)
        | inr listed ↦
            let (l, among, is) =
              unseen-Among e (map (λ i. i.uri) functions) (load_local_resources files) listed in
            subst (λ i. ReadsAs i (mcp_resource_read os files i.uri)) (sym is)
              (file-ReadsAs l among (slashed l (sort_by-Among (λ f. f.uri) l files among)))
      ]
