-- ===== src/Mcp/Prompts.antt =====
-- mcpParseMarkdownPrompt of typedhandler_mcp.go: the front matter of a prompt. `M` is the metadata, and
-- its YAML an argument.
use allino.Base.{
  ℕ, ◌==◌, ◌≡◌, refl, ap, ◌∙◌, Bool, false, ◌&&◌, [], ◌∷◌, ◌++◌, Option, none, some, Bool-cases,
  Option-cases, inl, inr, if◌then◌else◌, arith,
}
use allino.Base.Bytes.{Bytes, codes, strip}
use allino.Login.{is_empty, trim_left}

abbrev pub starts_newline : Bytes → Bool
starts_newline [] = false
starts_newline (c ∷ s) = c == 10

-- `strings.ReplaceAll` of a line end of two bytes by one.
unfoldable pub unix_lines : Bytes → Bytes
unix_lines [] = []
unix_lines (c ∷ s) =
    let rest = unix_lines s in if c == 13 && starts_newline s then rest else c ∷ rest

abbrev pub dashes : Bytes
dashes = codes "---"

-- The texts on the two sides of the first line that begins with three dashes, after the first line.
abbrev pub cut_here : Option Bytes → ℕ → Option (Bytes × Bytes) → Option (Bytes × Bytes)
cut_here (some body) c later = some ([], body)
cut_here none c none = none
cut_here none c (some (yaml, body)) = some (c ∷ yaml, body)

unfoldable pub cut_mark : Bytes → Option (Bytes × Bytes)
cut_mark [] = none
cut_mark (c ∷ s) = cut_here (strip (10 ∷ dashes) (c ∷ s)) c (cut_mark s)

-- `strings.TrimPrefix` of a newline.
abbrev pub trim_newline : Bytes → Bytes
trim_newline [] = []
trim_newline (c ∷ s) = if c == 10 then s else c ∷ s

pub data Prompt (M : Type 0) : Type 0 where
  parsed : M → Bytes → Prompt M
  unterminated bad_yaml : Prompt M

module _ {M : Type 0} (no_matter : M) (yaml_unmarshal : Bytes → Option M) where
  unfoldable pub parse_matter : Bytes → Bytes → Prompt M
  unfolding trim_left
  parse_matter yaml body =
      if is_empty (trim_left yaml)
      then parsed no_matter body
      else elim (yaml_unmarshal yaml) [ none ↦ bad_yaml | some matter ↦ parsed matter body ]

  unfoldable pub mcp_parse_markdown_prompt : Bytes → Prompt M
  unfolding unix_lines cut_mark parse_matter
  mcp_parse_markdown_prompt buf =
      let text = unix_lines buf in
      elim (strip (dashes ++ 10 ∷ []) text) [
        | none ↦ parsed no_matter text
        | some rest ↦ elim (cut_mark rest) [
          | none ↦ unterminated
          | some (yaml, body) ↦ parse_matter yaml (trim_newline body)
        ]
      ]

-- No byte of a text is another.
abbrev pub Lacks : ℕ → Bytes → Type 0
Lacks b [] = Unit
Lacks b (c ∷ s) = ((c == b) ≡ false) × Lacks b s

pub unix_lines-Lacks : (s : Bytes) → Lacks 13 s → unix_lines s ≡ s
unfolding unix_lines
unix_lines-Lacks [] h = refl
unix_lines-Lacks (c ∷ s) (h, hs) = rw h (ap (◌∷◌ c) (unix_lines-Lacks s hs))

strip-none : (m s r : Bytes) → Lacks 10 m → strip m s ≡ none → strip m (s ++ (10 ∷ r)) ≡ none
strip-none [] s r lacks h = cc
strip-none (x ∷ m) [] r (no_newline, lacks) h = rw no_newline refl
strip-none (x ∷ m) (y ∷ s) r (no_newline, lacks) h = elim (Bool-cases (x == y)) [
  | inl e ↦ ground (arith, strip-none m s r lacks)
  | inr e ↦ rw e refl
]

mark_none :
    (c : ℕ) (s r : Bytes)
    → strip (10 ∷ dashes) (c ∷ s) ≡ none
    → strip (10 ∷ dashes) (c ∷ (s ++ (10 ∷ r))) ≡ none
mark_none c s r h = elim (Bool-cases (10 == c)) [
  | inl e ↦ ground (arith, strip-none dashes s r (refl, (refl, (refl, tt))))
  | inr e ↦ rw e refl
]

-- A text without the mark is cut at a mark that follows it.
pub cut_mark-append :
    (yaml body : Bytes)
    → cut_mark yaml ≡ none
    → cut_mark (yaml ++ (10 ∷ (dashes ++ body))) ≡ some (yaml, body)
unfolding cut_mark
cut_mark-append [] body h = refl
cut_mark-append (c ∷ yaml) body h = elim (Option-cases (strip (10 ∷ dashes) (c ∷ yaml))) [
  | inr (rest, e) ↦ absurd (ground arith)
  | inl e ↦ elim (Option-cases (cut_mark yaml)) [
    | inr (parts, f) ↦ absurd (ground arith)
    | inl f ↦
        ap (λ o. cut_here o c (cut_mark (yaml ++ (10 ∷ (dashes ++ body)))))
          (mark_none c yaml (dashes ++ body) e)
        ∙ ap (cut_here none c) (cut_mark-append yaml body f)
  ]
]

-- A file with front matter.
abbrev pub with_matter : Bytes → Bytes → Bytes
with_matter yaml body = dashes ++ (10 ∷ (yaml ++ (10 ∷ (dashes ++ (10 ∷ body)))))

module _ {M : Type 0} (no_matter : M) (yaml_unmarshal : Bytes → Option M) where
  parse_matter_full :
      (yaml body : Bytes) (matter : M)
      → is_empty (trim_left yaml) ≡ false
      → yaml_unmarshal yaml ≡ some matter
      → parse_matter no_matter yaml_unmarshal yaml body ≡ parsed matter body
  unfolding parse_matter
  parse_matter_full yaml body matter full read = rw (full, read) refl

  parse_text :
      (buf yaml body : Bytes)
      → unix_lines buf ≡ with_matter yaml body
      → cut_mark yaml ≡ none
      → mcp_parse_markdown_prompt no_matter yaml_unmarshal buf
        ≡ parse_matter no_matter yaml_unmarshal yaml body
  unfolding mcp_parse_markdown_prompt
  parse_text buf yaml body same unmarked = ground (arith, cut_mark-append yaml (10 ∷ body) unmarked)

  -- A file of front matter and a body, without a carriage return, whose front matter is not
  -- blank, has no line behind its first that begins with three dashes, and is read by the YAML
  -- library, is parsed to that metadata and that very body.
  pub mcp_parse_markdown_prompt-parsed :
      (yaml body : Bytes) (matter : M)
      → cut_mark yaml ≡ none
      → is_empty (trim_left yaml) ≡ false
      → yaml_unmarshal yaml ≡ some matter
      → Lacks 13 (with_matter yaml body)
      → mcp_parse_markdown_prompt no_matter yaml_unmarshal (with_matter yaml body)
        ≡ parsed matter body
  mcp_parse_markdown_prompt-parsed yaml body matter unmarked full read lacks =
      parse_text (with_matter yaml body) yaml body (unix_lines-Lacks (with_matter yaml body) lacks)
        unmarked
      ∙ parse_matter_full yaml body matter full read
