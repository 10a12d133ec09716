-- ===== src/Middleware/RateLimiter/Decision.antt =====
-- What the middleware does with a request: it goes on, or it is answered 429.
use mcp_agent_gateway.Base.{
  ℕ, String, ◌<>◌, starts_with, ◌≡◌, refl, ◌⊎◌, inl, inr, Bool-cases, Option-cases, arith,
}
use mcp_agent_gateway.Base.Result.{Result, ok, raise}
use mcp_agent_gateway.Redis.Counters.{Counters}
use mcp_agent_gateway.Middleware.Http.{Request, App}
use mcp_agent_gateway.Middleware.RateLimiter.{
  RateLimitResult, Limits, check_rate_limit, too_many, decide, limited, dispatch,
}

module _ (C : Counters) {V : Type 0} (limits : Limits) (now : ℕ) (next : App (C.State × V)) where
  decide_cases :
      (r : Result String RateLimitResult) (request : Request) (w : C.State × V)
      → ((seconds : ℕ) × (decide C limits now next r request w ≡ (ok (too_many seconds), w)))
        ⊎ (decide C limits now next r request w ≡ next request w)
  unfolding decide
  decide_cases (raise e) request w = inr refl
  decide_cases (ok result) request w = elim (Bool-cases result.allowed) [
    | inl under ↦ inr (ground arith)
    | inr over ↦ inl (result.retry_after_seconds, ground arith)
  ]

  -- A request is answered 429 or it goes on, at once or after it has been counted; what lies beside
  -- the counters is not touched before.
  pub dispatch_cases :
      (request : Request) (s : C.State) (v : V)
      → ((seconds : ℕ) × (s' : C.State) × (dispatch C limits now next request (s, v)
            ≡ (ok (too_many seconds), (s', v))))
        ⊎ ((s' : C.State) × (dispatch C limits now next request (s, v) ≡ next request (s', v)))
  unfolding dispatch limited
  dispatch_cases request s v = elim (Bool-cases limits.enabled) [
    | inr off ↦ inr (s, ground arith)
    | inl on ↦ elim (Bool-cases (starts_with request.path "/mcp")) [
      | inr elsewhere ↦ inr (s, ground arith)
      | inl mcp ↦ elim (Option-cases request.user) [
        | inl missing ↦ inr (s, ground arith)
        | inr (user, p) ↦
            let r =
              check_rate_limit C s now ("ratelimit:" <> user.id) limits.max_requests
                limits.window_seconds in
            elim (decide_cases r.0 request (r.1, v)) [
              | inl (seconds, e) ↦ inl (seconds, r.1, ground arith)
              | inr e ↦ inr (r.1, ground arith)
            ]
      ]
    ]
  ]
