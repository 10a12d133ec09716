-- ===== src/Tests/Lifespan.antt =====
-- The startup and the shutdown at concrete data.
use mathlib.Core.Bool.{false≢true}
use mcp_agent_gateway.Base.{
  truthy, sym, ap, String, true, Option, none, some, [], ◌∷◌, ◌++◌, ◌≡◌, ◌≢◌, refl, ◌⊎◌,
}
use mcp_agent_gateway.Base.Result.{raise}
use mcp_agent_gateway.Main.{
  Resource, redis, http_client, drive_client, slack_client, jobs_redis, opened, worker_started,
  worker_cancelled, closed, Step, opening, seed_slack_tokens, Environment, Process, after_connect,
  step, record_open, record_worker, try_body, cancel_worker, close_if, finally, finish, lifespan,
}
use mcp_agent_gateway.Main.Failures.{until, due, lifespan-until}
use mcp_agent_gateway.Main.Opened.{has_opened, has_worker, held}
use mcp_agent_gateway.Main.Shutdown.{closings, lifespan-closes}

-- a Slack token that does not decrypt, say
abbrev fails_early : Step → Option String
fails_early seed_slack_tokens = some "InvalidToken"
fails_early _ = none

abbrev stopped : Environment
stopped = record {
  redis_url = "redis://r";
  fails = fails_early;
  worker_error = none;
  close_error = λ r. none;
}

lifespan-closes_example :
    ((stopped.redis_url ≡ "") × (lifespan stopped ≡ (raise "REDIS_URL is required", [])))
    ⊎ ((e : String) × (stopped.redis_url ≢ "")
        × (stopped.fails (opening redis) ≡ some e)
        × (lifespan stopped ≡ (raise e, [])))
    ⊎ ((p : Process) × (stopped.redis_url ≢ "")
        × (stopped.fails (opening redis) ≡ none)
        × (try_body stopped after_connect ≡ ((lifespan stopped).0, p))
        × ((lifespan stopped).1 ≡ p.events ++ closings p)
        × ((r : Resource) → has_opened r p.events ≡ held p r)
        × (has_worker p.events ≡ p.worker_running))
lifespan-closes_example = lifespan-closes stopped refl (λ r. refl)

lifespan-stopped : lifespan stopped ≡ (
  raise "InvalidToken",
  opened redis
      ∷ opened http_client
      ∷ opened drive_client
      ∷ opened slack_client
      ∷ closed drive_client
      ∷ closed slack_client
      ∷ closed http_client
      ∷ closed redis
      ∷ [],
)
unfolding lifespan try_body step record_open after_connect finish finally cancel_worker close_if
lifespan-stopped = refl

-- the group of the workers could not be made
abbrev broken : Environment
broken = record {
  redis_url = "redis://r";
  fails = λ s. none;
  worker_error = some "ConnectionError";
  close_error = λ r. none;
}

abbrev running : Process
running = record {
  http_client_open = true;
  drive_client_open = true;
  slack_client_open = true;
  jobs_redis_open = true;
  worker_running = true;
  events =
      opened redis
      ∷ opened http_client
      ∷ opened drive_client
      ∷ opened slack_client
      ∷ opened jobs_redis
      ∷ worker_started
      ∷ [];
}

broken_given : broken.redis_url ≢ ""
broken_given e = false≢true (sym (ap truthy e))

lifespan-broken :
    lifespan broken ≡ (raise "ConnectionError", running.events ++ worker_cancelled ∷ [])
unfolding lifespan try_body step record_open record_worker after_connect finish finally
    cancel_worker
lifespan-broken = refl

lifespan-until_example : lifespan broken ≡ (
  (until (try_body broken after_connect).0 (due broken (try_body broken after_connect).1)).0,
  (try_body broken after_connect).1.events
      ++ (until (try_body broken after_connect).0 (due broken (try_body broken after_connect).1)).1,
)
lifespan-until_example = lifespan-until broken broken_given refl
