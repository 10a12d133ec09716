-- ===== src/Middleware/Stack/Guarded.antt =====
-- What stands between a request for `/mcp` and the routes.
use mcp_agent_gateway.Base.{
  ℕ, drop_chars, lower_starts_with, String, starts_with, true, false, some, ◌≡◌, refl, ap, ◌∙◌, ◌⊎◌,
  inl, inr, Bool-cases,
}
use mcp_agent_gateway.Base.Result.{ok}
use mcp_agent_gateway.Redis.Counters.{Counters}
use mcp_agent_gateway.Identity.TokenValidator.{Claims}
use mcp_agent_gateway.Middleware.Http.{Request, App}
use mcp_agent_gateway.Middleware.AccessGuard
use mcp_agent_gateway.Middleware.OriginGuard
use mcp_agent_gateway.Middleware.RateLimiter
use mcp_agent_gateway.Middleware.RequestLogger
use mcp_agent_gateway.Middleware.SecurityHeaders
use mcp_agent_gateway.Middleware.AccessGuard.Bypass.{is_bypass_path-mcp}
use mcp_agent_gateway.Middleware.AccessGuard.Admission.{dispatch_admission}
use mcp_agent_gateway.Middleware.RateLimiter.Decision.{dispatch_cases}
use mcp_agent_gateway.Middleware.Stack.{Config, IsCors, World, Inner, under_log, logged, app}

module _ (C : Counters) (V : Type 0) (config : Config) (cors : App (World C V) → App (World C V))
    (facts : RequestLogger.Facts) (now : ℕ) (routes : App (Inner C V)) where
  abbrev pub Passes : Request → (World C V) → V → Type 0
  Passes request w v =
      (header : String) × (claims : Claims) × (s : C.State) × (OriginGuard.is_foreign
          config.allowed_origins request.origin
        ≡ false)
      × (request.authorization ≡ some header)
      × (lower_starts_with header "bearer " ≡ true)
      × (config.validate (drop_chars 7 header) ≡ ok claims)
      × (v ≡ (routes (AccessGuard.with_user claims request) (s, (w.0, w.1.1))).1.1.1)

  under_log_cases :
      (request : Request) (w : World C V)
      → ((under_log C V (RateLimiter.dispatch C config.limits now routes) request w).1.1.1 ≡ w.1.1)
        ⊎ ((s : C.State) × ((under_log C V
                (RateLimiter.dispatch C config.limits now routes)
                request
                w).1.1.1
              ≡ (routes request (s, (w.0, w.1.1))).1.1.1))
  unfolding under_log
  under_log_cases request w =
      elim (dispatch_cases C config.limits now routes request w.1.0 (w.0, w.1.1)) [
        | inl (seconds, s, e) ↦ inl (ap (λ r. r.1.1.1) e)
        | inr (s, e) ↦ inr (s, ap (λ r. r.1.1.1) e)
      ]

  abbrev guarded : App (World C V)
  guarded =
      AccessGuard.dispatch config.expected_audience config.validate
        (under_log C V (RateLimiter.dispatch C config.limits now routes))

  guarded_cases :
      (request : Request) (w : World C V)
      → starts_with request.path "/mcp" ≡ true
      → OriginGuard.is_foreign config.allowed_origins request.origin ≡ false
      → ((guarded request w).1.1.1 ≡ w.1.1) ⊎ Passes request w (guarded request w).1.1.1
  guarded_cases request w h o =
      elim (dispatch_admission config.expected_audience config.validate
        (under_log C V (RateLimiter.dispatch C config.limits now routes)) request w
        (is_bypass_path-mcp request.path h)) [
          | inl refused ↦ inl (ap (λ r. r.1.1.1) refused)
          | inr (inr (header, e, a, v, raised)) ↦ inl (ap (λ r. r.1.1.1) raised)
          | inr (inl (header, claims, a, b, v, run)) ↦
              elim (under_log_cases (AccessGuard.with_user claims request) w) [
                | inl same ↦ inl (ap (λ r. r.1.1.1) run ∙ same)
                | inr (s, e) ↦ inr (header, claims, s, o, a, b, v, ap (λ r. r.1.1.1) run ∙ e)
              ]
        ]

  logged_cases :
      (request : Request) (w : World C V)
      → starts_with request.path "/mcp" ≡ true
      → ((logged C V config cors facts now routes request w).1.1.1 ≡ w.1.1)
        ⊎ Passes request w (logged C V config cors facts now routes request w).1.1.1
  unfolding logged RequestLogger.dispatch OriginGuard.dispatch
  logged_cases request w h =
      elim (Bool-cases (OriginGuard.is_foreign config.allowed_origins request.origin)) [
        | inl foreign ↦ inl (rw (h, foreign) refl)
        | inr local ↦ elim (guarded_cases request w h local) [
          | inl same ↦ inl (rw (h, local) same)
          | inr (header, claims, s, o, a, b, v, run) ↦
              inr (header, claims, s, o, a, b, v, rw (h, local) run)
        ]
      ]

  -- With a CORS middleware that keeps `IsCors`, a request for a path under `/mcp` changes what the
  -- routes work on only if the routes themselves do so; and then its origin is an allowed one or
  -- not given, it has a bearer header whose token is valid, and the routes have run on the request
  -- with the user and the scopes of that token's claims.
  pub app-Passes :
      (request : Request) (w : World C V)
      → IsCors (World C V) cors
      → starts_with request.path "/mcp" ≡ true
      → ((app C V config cors facts now routes request w).1.1.1 ≡ w.1.1)
        ⊎ Passes request w (app C V config cors facts now routes request w).1.1.1
  unfolding app SecurityHeaders.dispatch
  app-Passes request w law h = elim (law (logged C V config cors facts now routes) request w) [
    | inl (preflight, e) ↦ inl (ap (λ r. r.1.1.1) e)
    | inr (extra, e) ↦ elim (logged_cases request w h) [
      | inl same ↦ inl (ap (λ r. r.1.1.1) e ∙ same)
      | inr (header, claims, s, o, a, b, v, run) ↦
          inr (header, claims, s, o, a, b, v, ap (λ r. r.1.1.1) e ∙ run)
    ]
  ]
