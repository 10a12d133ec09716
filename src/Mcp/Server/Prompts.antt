-- ===== src/Mcp/Server/Prompts.antt =====
-- app/mcp/server.py: which prompts a caller can get.
use mcp_agent_gateway.Base.{
  String, string_eq, ◌<>◌, contains, or_else, true, false, Option, List, ◌≡◌, ◌⊎◌, inl, inr,
  Bool-cases, arith,
}
use mcp_agent_gateway.Base.Dict.{Dict, lookup, insert}
use mcp_agent_gateway.Base.Result.{ok, raise}
use mcp_agent_gateway.Mcp.Server.{
  prompt_groups, prompt_scope_from, prompt_handlers, update, add_tools, scope_ok, visible_prompts,
  get_prompt, render_drive_find_document,
}

-- A prompt that is listed to the caller is rendered; any other name, be it of a prompt that exists or
-- not, gives the error for an unknown prompt.
get_prompt-visible :
    (scopes : List String) (n : String) (arguments : Option (Dict String String))
    → ((contains (visible_prompts prompt_groups scopes) n ≡ false)
        × (get_prompt scopes n arguments ≡ raise ("Unknown prompt: " <> n)))
      ⊎ ((n ≡ "drive-find-document")
          × (contains (visible_prompts prompt_groups scopes) n ≡ true)
          × (get_prompt scopes n arguments ≡ ok (render_drive_find_document arguments)))
unfolding get_prompt or_else scope_ok prompt_scope_from prompt_handlers update add_tools insert
    lookup visible_prompts contains
get_prompt-visible scopes n arguments = elim (string_eq.dec n "drive-find-document") [
  | no differ ↦ inl (ground arith, ground arith)
  | yes same ↦ elim (Bool-cases (contains scopes "mcp:google:read")) [
    | inl allowed ↦ inr (same, ground arith, ground arith)
    | inr denied ↦ inl (ground arith, ground arith)
  ]
]
