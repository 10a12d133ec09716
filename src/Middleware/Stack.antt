-- ===== src/Middleware/Stack.antt =====
-- app/main.py: the middleware around the routes, the last one added on the outside. The CORS
-- middleware comes with Starlette: an argument, with what it promises as `IsCors`.
pub mod Guarded
pub mod Secured
use mcp_agent_gateway.Base.{ℕ, String, string_eq, Option, none, some, List, [], ◌∷◌, ◌≡◌, ◌⊎◌, ◌++◌}
use mcp_agent_gateway.Base.Dict.{Dict, insert}
use mcp_agent_gateway.Base.Result.{Result, ok, raise}
use mcp_agent_gateway.Redis.Counters.{Counters}
use mcp_agent_gateway.Identity.TokenValidator.{Claims, ValidateError}
use mcp_agent_gateway.Middleware.Http.{Request, Response, App}
use mcp_agent_gateway.Middleware.AccessGuard
use mcp_agent_gateway.Middleware.OriginGuard
use mcp_agent_gateway.Middleware.RateLimiter
use mcp_agent_gateway.Middleware.RequestLogger
use mcp_agent_gateway.Middleware.SecurityHeaders

-- what the middleware is constructed with
pub record Config : Type 0 where
  pub allowed_origins : List String
  pub expected_audience : String
  pub limits : RateLimiter.Limits
  pub validate : String → Result ValidateError Claims

-- the headers that the CORS middleware adds to an answer
abbrev pub add_headers : Dict String String → Response → Response
add_headers extra response = record response { headers = extra ++ response.headers }

abbrev pub relabel : Dict String String → Result String Response → Result String Response
relabel extra (raise e) = raise e
relabel extra (ok response) = ok (add_headers extra response)

-- A preflight request is answered at once; any other goes on, and its answer gets more headers.
abbrev pub IsCors : (W : Type 0) → (App W → App W) → Type 0
IsCors W cors =
    (next : App W) (request : Request) (w : W)
    → ((response : Response) × (cors next request w ≡ (ok response, w)))
      ⊎ ((extra : Dict String String) × (cors next request w
            ≡ (relabel extra (next request w).0, (next request w).1)))

module _ (C : Counters) (V : Type 0) where
  -- what a request may change: the log, the counters, and what the routes work on
  abbrev pub World : Type 0
  World = List RequestLogger.LogEntry × (C.State × V)

  abbrev pub Inner : Type 0
  Inner = C.State × (List RequestLogger.LogEntry × V)

  -- the logger has the log in front, the limiter the counters
  unfoldable pub under_log : App Inner → App World
  under_log app request w =
      let r = app request (w.1.0, (w.0, w.1.1)) in (r.0, (r.1.1.0, (r.1.0, r.1.1.1)))

  module _ (config : Config) (cors : App World → App World) (facts : RequestLogger.Facts)
      (now : ℕ) where
    -- from the logger inwards
    unfoldable pub logged : App Inner → App World
    logged routes = RequestLogger.dispatch facts (
        OriginGuard.dispatch config.allowed_origins (
          AccessGuard.dispatch config.expected_audience config.validate
            (under_log (RateLimiter.dispatch C config.limits now routes))))

    unfoldable pub app : App Inner → App World
    app routes = SecurityHeaders.dispatch (cors (logged routes))
