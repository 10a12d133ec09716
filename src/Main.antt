-- ===== src/Main.antt =====
-- `lifespan` of app/main.py. What a step does beside opening a resource is not seen here; whether it
-- raises is an argument, by the text of the exception.
pub mod Opened
pub mod Shutdown
pub mod Failures
use mcp_agent_gateway.Base.{
  String, truthy, Bool, true, false, Option, none, some, List, [], ◌∷◌, ◌++◌, if◌then◌else◌,
}
use mcp_agent_gateway.Base.Result.{Result, ok, raise}

-- what is closed at the end
pub data Resource : Type 0 where
  redis : Resource
  http_client : Resource
  drive_client : Resource
  slack_client : Resource
  jobs_redis : Resource

pub data Event : Type 0 where
  opened : Resource → Event
  worker_started : Event
  worker_cancelled : Event
  closed : Resource → Event

-- the steps of the `try` that may raise; `serve` is the rest, from the entry into `mcp_lifespan` to
-- the end of the application
pub data Step : Type 0 where
  opening : Resource → Step
  google_fernet : Step
  slack_fernet : Step
  seed_google_token : Step
  seed_slack_tokens : Step
  start_worker : Step
  serve : Step

pub record Environment : Type 0 where
  pub redis_url : String
  -- what a step of the `try` raises
  pub fails : Step → Option String
  -- what `await worker_task` raises that is not suppressed, after the task was cancelled
  pub worker_error : Option String
  -- what a close raises
  pub close_error : Resource → Option String

-- the local variables that are `None` at first, and what has happened
pub record Process : Type 0 where
  pub http_client_open : Bool
  pub drive_client_open : Bool
  pub slack_client_open : Bool
  pub jobs_redis_open : Bool
  pub worker_running : Bool
  pub events : List Event

infixl 10 ◌>>>◌
abbrev pub ◌>>>◌ :
    Result String (Unit {0}) × Process
    → (Process → Result String (Unit {0}) × Process)
    → Result String (Unit {0}) × Process
(ok _, p) >>> f = f p
(raise e, p) >>> f = (raise e, p)

unfoldable pub record_open : Resource → Process → Process
record_open redis p = record p { events = p.events ++ opened redis ∷ [] }
record_open http_client p = record p {
  http_client_open = true;
  events = p.events ++ opened http_client ∷ [];
}
record_open drive_client p = record p {
  drive_client_open = true;
  events = p.events ++ opened drive_client ∷ [];
}
record_open slack_client p = record p {
  slack_client_open = true;
  events = p.events ++ opened slack_client ∷ [];
}
record_open jobs_redis p = record p {
  jobs_redis_open = true;
  events = p.events ++ opened jobs_redis ∷ [];
}

unfoldable pub record_worker : Process → Process
record_worker p = record p { worker_running = true; events = p.events ++ worker_started ∷ [] }

unfoldable pub after_connect : Process
after_connect = record {
  http_client_open = false;
  drive_client_open = false;
  slack_client_open = false;
  jobs_redis_open = false;
  worker_running = false;
  events = opened redis ∷ [];
}

module _ (env : Environment) where
  -- a step, and what it changes when it does not raise
  unfoldable pub step : Step → (Process → Process) → Process → Result String (Unit {0}) × Process
  step s change p = elim (env.fails s) [ none ↦ (ok tt, change p) | some e ↦ (raise e, p) ]

  -- the body of the `try`
  unfoldable pub try_body : Process → Result String (Unit {0}) × Process
  unfolding step record_open record_worker
  try_body p =
      step (opening http_client) (record_open http_client) p
      >>> step (opening drive_client) (record_open drive_client)
      >>> step (opening slack_client) (record_open slack_client)
      >>> step google_fernet (λ p. p)
      >>> step slack_fernet (λ p. p)
      >>> step seed_google_token (λ p. p)
      >>> step seed_slack_tokens (λ p. p)
      >>> step (opening jobs_redis) (record_open jobs_redis)
      >>> step start_worker record_worker
      >>> step serve (λ p. p)

  unfoldable pub cancel_worker : Process → Result String (Unit {0}) × Process
  cancel_worker p =
      if p.worker_running
      then (
        elim env.worker_error [ none ↦ ok tt | some e ↦ raise e ],
        record p { events = p.events ++ worker_cancelled ∷ [] },
      )
      else (ok tt, p)

  -- `if client is not None: await client.close()`
  unfoldable pub close_if :
      (Process → Bool) → Resource → Process → Result String (Unit {0}) × Process
  close_if is_open r p =
      if is_open p
      then (
        elim (env.close_error r) [ none ↦ ok tt | some e ↦ raise e ],
        record p { events = p.events ++ closed r ∷ [] },
      )
      else (ok tt, p)

  unfoldable pub finally : Process → Result String (Unit {0}) × Process
  unfolding cancel_worker close_if
  finally p =
      cancel_worker p
      >>> close_if (λ p. p.jobs_redis_open) jobs_redis
      >>> close_if (λ p. p.drive_client_open) drive_client
      >>> close_if (λ p. p.slack_client_open) slack_client
      >>> close_if (λ p. p.http_client_open) http_client
      >>> close_if (λ p. true) redis

  -- an exception of the `finally` takes the place of the one before
  unfoldable pub finish : Result String (Unit {0}) × Process → Result String (Unit {0}) × List Event
  unfolding finally
  finish (tried, p) =
      let (closed_, q) = finally p in (elim closed_ [ ok _ ↦ tried | raise e ↦ raise e ], q.events)

  unfoldable pub lifespan : Result String (Unit {0}) × List Event
  unfolding try_body finish after_connect
  lifespan =
      if truthy env.redis_url
      then elim (env.fails (opening redis)) [
        | some e ↦ (raise e, [])
        | none ↦ finish (try_body after_connect)
      ]
      else (raise "REDIS_URL is required", [])
