-- ===== src/Middleware/Stack/Secured.antt =====
-- app/main.py: what an answer carries that the middleware lets out.
use mcp_agent_gateway.Base.{ℕ, string_eq, some, ◌≡◌, arith, ◌∙◌, sym, inl, inr}
use mcp_agent_gateway.Base.Dict.{lookup, insert, lookup-insert}
use mcp_agent_gateway.Base.Result.{ok, Result-cases}
use mcp_agent_gateway.Redis.Counters.{Counters}
use mcp_agent_gateway.Middleware.Http.{Request, Response, App}
use mcp_agent_gateway.Middleware.SecurityHeaders
use mcp_agent_gateway.Middleware.RequestLogger
use mcp_agent_gateway.Middleware.Stack.{Config, World, Inner, logged, app}

secured_headers :
    (response : Response)
    → (lookup "X-Content-Type-Options" (SecurityHeaders.secured response).headers ≡ some "nosniff")
      × (lookup "Strict-Transport-Security" (SecurityHeaders.secured response).headers
          ≡ some "max-age=31536000; includeSubDomains")
unfolding SecurityHeaders.secured string_eq
secured_headers response = (
  lookup-insert "X-Content-Type-Options" "Strict-Transport-Security"
        "max-age=31536000; includeSubDomains"
        (insert "X-Content-Type-Options" "nosniff" response.headers)
      ∙ lookup-insert "X-Content-Type-Options" "X-Content-Type-Options" "nosniff" response.headers,
  lookup-insert "Strict-Transport-Security" "Strict-Transport-Security"
      "max-age=31536000; includeSubDomains"
      (insert "X-Content-Type-Options" "nosniff" response.headers),
)

module _ (C : Counters) (V : Type 0) (config : Config) (cors : App (World C V) → App (World C V))
    (facts : RequestLogger.Facts) (now : ℕ) (routes : App (Inner C V)) where
  -- An answer that comes out of the middleware, whichever part of it or route gives it, tells browsers
  -- not to guess its type and to use only TLS from then on.
  pub app-secured :
      (request : Request) (w w' : World C V) (response : Response)
      → app C V config cors facts now routes request w ≡ (ok response, w')
      → (lookup "X-Content-Type-Options" response.headers ≡ some "nosniff")
        × (lookup "Strict-Transport-Security" response.headers
            ≡ some "max-age=31536000; includeSubDomains")
  unfolding app SecurityHeaders.dispatch
  app-secured request w w' response h =
      elim (Result-cases (cors (logged C V config cors facts now routes) request w).0) [
        | inl (inner, e) ↦
            let same : SecurityHeaders.secured inner ≡ response = ground arith in
            rw (sym same) (secured_headers inner)
        | inr (name, e) ↦ ground arith
      ]
