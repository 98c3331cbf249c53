-- ===== src/Mcp/Tests.antt =====
-- Two functions, a file and a prompt for typedhandler_mcp.go.
use allino.Base.{◌≡◌, refl, sym, subst, true, false, List, [], ◌∷◌, ◌++◌, none, some, inl, inr}
use allino.Base.Bytes.{codes}
use allino.Login.{is_empty, trim_left}
use allino.Mcp.{
  McpOption, McpLocalResource, replace_runs, trim_start, trim_end, mcp_function_name, mcp_options,
  place_by, sort_by, function_info, local_info, unseen, load_local_resources, mcp_resources_list,
  trim_scheme, mcp_resource_read,
}
use allino.Mcp.Names.{HasSlash}
use allino.Mcp.Listed.{AllSlashed, ReadsAs, mcp_resources_list-ReadsAs}
use allino.Mcp.Prompts.{
  unix_lines, cut_mark, parsed, unterminated, mcp_parse_markdown_prompt, with_matter,
  mcp_parse_markdown_prompt-parsed,
}

abbrev weather : McpOption
weather = record {
  name = codes "get weather!";
  path = codes "/w";
  mcp = codes "Resource";
  has_invoker = true;
  description = codes "w";
  content_type = codes "text/plain";
}

abbrev tool : McpOption
tool = record weather { name = []; mcp = codes "tool" }

abbrev readme : McpLocalResource
readme = record {
  uri = codes "file://local/README.md";
  name = codes "README.md";
  description = [];
  mime_type = [];
  path = codes "/srv/README.md";
}

abbrev options : List McpOption
options = tool ∷ weather ∷ []

abbrev files : List McpLocalResource
files = readme ∷ []

weather_name : mcp_function_name weather ≡ codes "get_weather"
unfolding mcp_function_name replace_runs trim_start trim_end
weather_name = refl

tool_name : mcp_function_name tool ≡ codes "w"
unfolding mcp_function_name replace_runs trim_start trim_end
tool_name = refl

listed : mcp_resources_list options files ≡ function_info weather ∷ local_info readme ∷ []
unfolding mcp_resources_list mcp_options mcp_function_name replace_runs trim_start trim_end sort_by
    place_by unseen load_local_resources
listed = refl

files_slashed : AllSlashed files
files_slashed l (inr h) = elim h [ ]
files_slashed l (inl is) =
    subst (λ f. HasSlash (trim_scheme f.uri)) (sym is) (inr (inr (inr (inr (inr (inl refl))))))

mcp_resources_list-ReadsAs_example :
    ReadsAs (local_info readme) (mcp_resource_read options files readme.uri)
mcp_resources_list-ReadsAs_example =
    mcp_resources_list-ReadsAs options files (local_info readme) files_slashed
      (rw listed (inr (inl refl)))

-- Empty front matter has no end.
empty_matter :
    mcp_parse_markdown_prompt []
      (λ yaml. some yaml)
      (codes "---" ++ (10 ∷ (codes "---" ++ (10 ∷ []))))
    ≡ unterminated
unfolding mcp_parse_markdown_prompt unix_lines cut_mark
empty_matter = refl

no_mark : cut_mark (codes "name: hi") ≡ none
unfolding cut_mark
no_mark = refl

filled : is_empty (trim_left (codes "name: hi")) ≡ false
unfolding trim_left
filled = refl

mcp_parse_markdown_prompt-parsed_example :
    mcp_parse_markdown_prompt []
      (λ yaml. some yaml)
      (with_matter (codes "name: hi") (codes "Say hi"))
    ≡ parsed (codes "name: hi") (codes "Say hi")
mcp_parse_markdown_prompt-parsed_example =
    mcp_parse_markdown_prompt-parsed [] (λ yaml. some yaml) (codes "name: hi") (codes "Say hi")
      (codes "name: hi") no_mark filled refl
      (
        refl,
        (
          refl,
          (
            refl,
            (
              refl,
              (
                refl,
                (
                  refl,
                  (
                    refl,
                    (
                      refl,
                      (
                        refl,
                        (
                          refl,
                          (
                            refl,
                            (
                              refl,
                              (
                                refl,
                                (
                                  refl,
                                  (
                                    refl,
                                    (
                                      refl,
                                      (refl, (refl, (refl, (refl, (refl, (refl, (refl, tt))))))),
                                    ),
                                  ),
                                ),
                              ),
                            ),
                          ),
                        ),
                      ),
                    ),
                  ),
                ),
              ),
            ),
          ),
        ),
      )
