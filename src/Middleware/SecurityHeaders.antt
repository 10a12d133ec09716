-- ===== src/Middleware/SecurityHeaders.antt =====
-- app/middleware/security_headers.py
use mcp_agent_gateway.Base.{string_eq}
use mcp_agent_gateway.Base.Dict.{insert}
use mcp_agent_gateway.Base.Result.{ok, raise}
use mcp_agent_gateway.Middleware.Http.{Response, App}

unfoldable pub secured : Response → Response
secured response = record response {
  headers =
      insert "Strict-Transport-Security" "max-age=31536000; includeSubDomains"
        (insert "X-Content-Type-Options" "nosniff" response.headers);
}

unfoldable pub dispatch : {W : Type 0} → App W → App W
unfolding secured
dispatch call_next request w =
    let (result, w') = call_next request w in
    (elim result [ ok response ↦ ok (secured response) | raise e ↦ raise e ], w')
