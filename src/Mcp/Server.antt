-- ===== src/Mcp/Server.antt =====
-- app/mcp/server.py: which tools and prompts a caller sees and may use. A tool or a prompt stands for
-- its name, the only field that the server reads.
pub mod Scopes
pub mod Visible
pub mod Prompts
use mcp_agent_gateway.Base.{
  String, string_eq, ◌<>◌, truthy, contains, or_else, Bool, true, false, ◌||◌, not, Option, none,
  some, List, [], ◌∷◌, ◌++◌, if◌then◌else◌,
}
use mcp_agent_gateway.Base.Dict.{Dict, lookup, insert}
use mcp_agent_gateway.Base.Result.{Result, ok, raise}

-- an entry of `_GROUPS`: the tools and the scope that they require
pub record Group : Type 0 where
  pub tools : List String
  pub required : Option String

-- DRIVE_TOOLS of app/integrations/google/tools.py, JOB_TOOLS of its job_tools.py, SLACK_TOOLS of
-- app/integrations/slack/tools.py
abbrev pub drive_tools : List String
drive_tools = "drive-search-files" ∷ "drive-get-file-content" ∷ "drive-list-recent" ∷ []

abbrev pub job_tools : List String
job_tools = "drive-export-large-file" ∷ "wait-for-job" ∷ []

abbrev pub slack_tools : List String
slack_tools = "slack-send-message" ∷ "slack-search-messages" ∷ []

abbrev pub groups : List Group
groups =
    record { tools = drive_tools; required = some "mcp:google:read" }
    ∷ record { tools = job_tools; required = some "mcp:google:read" }
    ∷ record { tools = slack_tools; required = some "mcp:slack:read" }
    ∷ []

-- the inner loop of the comprehension for TOOL_SCOPE
unfoldable pub add_tools :
    Option String → List String → Dict String (Option String) → Dict String (Option String)
add_tools required [] scope = scope
add_tools required (tool ∷ tools) scope = add_tools required tools (insert tool required scope)

-- the outer loop
unfoldable pub add_groups : List Group → Dict String (Option String) → Dict String (Option String)
add_groups [] scope = scope
add_groups (g ∷ gs) scope = add_groups gs (add_tools g.required g.tools scope)

-- TOOL_SCOPE
unfoldable pub tool_scope : List Group → Dict String (Option String)
tool_scope gs = add_groups gs []

unfoldable pub scope_ok : Option String → List String → Bool
scope_ok none scopes = true
scope_ok (some required) scopes = contains scopes required

unfoldable pub visible_tools : List Group → List String → List String
visible_tools [] scopes = []
visible_tools (g ∷ gs) scopes =
    let rest = visible_tools gs scopes in
    if scope_ok g.required scopes then g.tools ++ rest else rest

-- A handler answers, or raises the error of the given message, and may change the world `W`.
abbrev pub Handler : Type 0 → Type 0 → Type 0 → Type 0
Handler A R W = A → W → Result String R × W

module _ {A R W : Type 0} (gs : List Group) (registry : Dict String (Handler A R W)) where
  unfoldable pub unknown_tool : String → W → Result String R × W
  unknown_tool name w = (raise ("Unknown tool: " <> name), w)

  -- `TOOL_SCOPE.get(name)` is None for a tool that is absent and for one without a scope
  unfoldable pub call : List String → String → A → W → Result String R × W
  unfolding unknown_tool
  call scopes name arguments w = elim (lookup name registry) [
    | none ↦ unknown_tool name w
    | some handler ↦
        if scope_ok (or_else (lookup name (tool_scope gs)) none) scopes
        then handler arguments w
        else unknown_tool name w
  ]

-- what build_drive_registry, build_job_registry and build_slack_registry wrap
pub record Handlers (A R W : Type 0) : Type 0 where
  pub drive_search_files : Handler A R W
  pub drive_get_file_content : Handler A R W
  pub drive_list_recent : Handler A R W
  pub drive_export_large_file : Handler A R W
  pub wait_for_job : Handler A R W
  pub slack_send_message : Handler A R W
  pub slack_search_messages : Handler A R W

-- `_build_registry`: the handlers under the names of the three registries
unfoldable pub build_registry : {A R W : Type 0} → Handlers A R W → Dict String (Handler A R W)
build_registry h =
    ("drive-search-files", h.drive_search_files)
    ∷ ("drive-get-file-content", h.drive_get_file_content)
    ∷ ("drive-list-recent", h.drive_list_recent)
    ∷ ("drive-export-large-file", h.drive_export_large_file)
    ∷ ("wait-for-job", h.wait_for_job)
    ∷ ("slack-send-message", h.slack_send_message)
    ∷ ("slack-search-messages", h.slack_search_messages)
    ∷ []

-- app/integrations/google/prompts.py
unfoldable pub client_hint : Option String → String
client_hint none = ""
client_hint (some client_name) =
    if truthy client_name then " The document likely mentions '" <> client_name <> "'." else ""

unfoldable pub render_drive_find_document : Option (Dict String String) → String
unfolding client_hint or_else
render_drive_find_document arguments =
    let given = or_else arguments [] in
    "Find a document in Google Drive: "
    <> or_else (lookup "description" given) ""
    <> "."
    <> client_hint (lookup "client_name" given)
    <> "\n\nUse the `drive-search-files` tool with structured filters (full_text, name_contains, mime_type, in_folder, modified_after). Do not write raw Drive query syntax."

abbrev pub Prompt : Type 0
Prompt = Option (Dict String String) → String

-- an entry of `_PROMPT_GROUPS`
pub record PromptGroup : Type 0 where
  pub prompts : List String
  pub handlers : Dict String Prompt
  pub scope : Option String

abbrev pub prompt_groups : List PromptGroup
prompt_groups =
    record {
      prompts = "drive-find-document" ∷ [];
      handlers = ("drive-find-document", render_drive_find_document) ∷ [];
      scope = some "mcp:google:read";
    }
    ∷ []

-- PROMPT_SCOPE and `_PROMPT_REGISTRY`, whose comprehensions add to what they have
unfoldable pub prompt_scope_from :
    List PromptGroup → Dict String (Option String) → Dict String (Option String)
prompt_scope_from [] scope = scope
prompt_scope_from (g ∷ gs) scope = prompt_scope_from gs (add_tools g.scope g.prompts scope)

unfoldable pub update : Dict String Prompt → Dict String Prompt → Dict String Prompt
update registry [] = registry
update registry ((name, handler) ∷ more) = update (insert name handler registry) more

unfoldable pub prompt_handlers : List PromptGroup → Dict String Prompt → Dict String Prompt
prompt_handlers [] registry = registry
prompt_handlers (g ∷ gs) registry = prompt_handlers gs (update registry g.handlers)

unfoldable pub visible_prompts : List PromptGroup → List String → List String
visible_prompts [] scopes = []
visible_prompts (g ∷ gs) scopes =
    let rest = visible_prompts gs scopes in
    if scope_ok g.scope scopes then g.prompts ++ rest else rest

unfoldable pub get_prompt :
    List String → String → Option (Dict String String) → Result String String
get_prompt scopes name arguments = elim (lookup name (prompt_handlers prompt_groups [])) [
  | none ↦ raise ("Unknown prompt: " <> name)
  | some handler ↦
      if scope_ok (or_else (lookup name (prompt_scope_from prompt_groups [])) none) scopes
      then ok (handler arguments)
      else raise ("Unknown prompt: " <> name)
]
