-- ===== src/Middleware/RateLimiter.antt =====
-- app/middleware/rate_limiter.py
pub mod Window
pub mod Decision
use mcp_agent_gateway.Base.{
  decimal, ℕ, ◌+◌, ◌*◌, ◌/◌, leb, nat_eq, String, ◌<>◌, starts_with, Bool, true, false, Option,
  none, some, List, [], ◌∷◌, if◌then◌else◌,
}
use mcp_agent_gateway.Base.Result.{Result, ok, raise}
use mcp_agent_gateway.Redis.Counters.{Counters}
use mcp_agent_gateway.Middleware.Http.{Request, Response, App}

pub record RateLimitResult : Type 0 where
  pub allowed : Bool
  pub retry_after_seconds : ℕ

-- RATE_LIMIT_ENABLED, RATE_LIMIT_MAX_REQUESTS, RATE_LIMIT_WINDOW_SECONDS
pub record Limits : Type 0 where
  pub enabled : Bool
  pub max_requests : ℕ
  pub window_seconds : ℕ

-- `math.ceil(ttl_ms / 1000) if ttl_ms and ttl_ms > 0 else 0`
unfoldable pub retry_after : Option ℕ → ℕ
retry_after none = 0
retry_after (some ttl_ms) = (ttl_ms + 999) / 1000

unfoldable pub too_many : ℕ → Response
too_many seconds = record {
  status_code = 429;
  content = ("detail", "Rate limit exceeded") ∷ [];
  headers = ("Retry-After", decimal seconds) ∷ [];
}

module _ (C : Counters) where
  -- the Lua script: the server runs it at one instant, with nothing in between
  unfoldable pub expire_first : ℕ → C.State → ℕ → String → ℕ → C.State
  expire_first n s now key window = if nat_eq n 1 then C.pexpire s now key (window * 1000) else s

  unfoldable pub script : C.State → ℕ → String → ℕ → ℕ → Bool × Option ℕ × C.State
  unfolding expire_first
  script s now key limit window =
      let (n, s₁) = C.incr s now key in
      let s₂ = expire_first n s₁ now key window in (leb n limit, C.pttl s₂ now key, s₂)

  unfoldable pub check_rate_limit :
      C.State → ℕ → String → ℕ → ℕ → Result String RateLimitResult × C.State
  unfolding script retry_after
  check_rate_limit s now key limit window =
      if C.available s
      then (let (allowed, ttl_ms, s') = script s now key limit window in
          (ok (record { allowed = allowed; retry_after_seconds = retry_after ttl_ms }), s'))
      else (raise "ConnectionError", s)

  module _ {V : Type 0} (limits : Limits) (now : ℕ) (call_next : App (C.State × V)) where
    -- after the check: an exception lets the request through
    unfoldable pub decide : Result String RateLimitResult → App (C.State × V)
    unfolding too_many
    decide (raise e) request w = call_next request w
    decide (ok result) request w =
        if result.allowed
        then call_next request w
        else (ok (too_many result.retry_after_seconds), w)

    unfoldable pub limited : String → App (C.State × V)
    unfolding decide check_rate_limit
    limited user_id request (s, v) =
        let (result, s') =
          check_rate_limit s now ("ratelimit:" <> user_id) limits.max_requests
            limits.window_seconds in
        decide result request (s', v)

    unfoldable pub dispatch : App (C.State × V)
    unfolding limited
    dispatch request w =
        if limits.enabled
        then if starts_with request.path "/mcp"
          then elim request.user [
            | none ↦ call_next request w
            | some user ↦ limited user.id request w
          ]
          else call_next request w
        else call_next request w
