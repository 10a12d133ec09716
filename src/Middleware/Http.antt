-- ===== src/Middleware/Http.antt =====
-- Requests, responses and applications, as far as the middleware reads them.
use mcp_agent_gateway.Base.{ℕ, String, Option, List}
use mcp_agent_gateway.Base.Dict.{Dict}
use mcp_agent_gateway.Base.Result.{Result}
use mcp_agent_gateway.Identity.TokenValidator.{Claims}

-- `request.state.user`; the scopes are a set, given by its elements
pub record User : Type 0 where
  pub id : String
  pub scopes : List String
  pub token : Claims

-- app/shared/context.py: the two context variables, `none` and the empty set before they are set
pub record Context : Type 0 where
  pub current_user_id : Option String
  pub current_user_scopes : List String

pub record Request : Type 0 where
  pub method : String
  pub path : String
  pub authorization : Option String
  pub origin : Option String
  pub request_id : Option String
  pub user : Option User
  pub context : Context

pub record Response : Type 0 where
  pub status_code : ℕ
  pub content : Dict String String
  pub headers : Dict String String

-- An application answers, or raises the exception of the given name, and may change the world `W`.
abbrev pub App : Type 0 → Type 0
App W = Request → W → Result String Response × W
