-- ===== src/Mcp/App.antt =====
-- app/mcp/app.py and app/mcp/health.py. A session manager of the SDK is an argument, by what it does
-- with a request.
use mcp_agent_gateway.Base.{String, Option, none, some, [], ◌∷◌}
use mcp_agent_gateway.Base.Dict.{Dict}
use mcp_agent_gateway.Base.Result.{Result, raise}

pub record McpApp (Manager : Type 0) : Type 0 where
  pub manager : Option Manager

abbrev pub mcp_app : {Manager : Type 0} → McpApp Manager
mcp_app = record { manager = none }

module _ {Manager Request Answer : Type 0} where
  -- `__call__`
  unfoldable pub call :
      (Manager → Request → Result String Answer) → McpApp Manager → Request → Result String Answer
  call handle_request app request = elim app.manager [
    | none ↦ raise "mcp_app: session manager not initialized"
    | some manager ↦ handle_request manager request
  ]

unfoldable pub set_manager : {Manager : Type 0} → McpApp Manager → Manager → McpApp Manager
set_manager app manager = record { manager = some manager }

abbrev pub health_check : Dict String String
health_check = ("status", "ok") ∷ []
