-- ===== src/Main/Shutdown.antt =====
-- app/main.py: what the shutdown closes.
use mathlib.Core.List.{append-nil, append_assoc}
use mathlib.Core.Bool.{false≢true}
use mcp_agent_gateway.Base.{
  ◌≢◌, String, truthy, Bool, true, false, none, some, List, [], ◌∷◌, ◌++◌, ◌≡◌, refl, sym, ap, ◌∙◌,
  ◌⊎◌, inl, inr, Bool-cases, Option-cases, arith,
}
use mcp_agent_gateway.Base.Result.{ok, raise}
use mcp_agent_gateway.Main.{
  Resource, redis, http_client, drive_client, slack_client, jobs_redis, Event, worker_cancelled,
  closed, opening, Environment, Process, after_connect, try_body, cancel_worker, close_if, finally,
  finish, lifespan,
}
use mcp_agent_gateway.Main.Opened.{
  has_opened, has_worker, held, after_connect-IsTrue, try_body-Goes,
}

empty_of_falsy : (s : String) → truthy s ≡ false → s ≡ ""
empty_of_falsy String.[] h = refl
empty_of_falsy (String.◌∷◌ c s) h = absurd (false≢true (sym h))

-- an event, if a condition holds
abbrev pub when : Bool → Event → List Event
when true e = e ∷ []
when false e = []

-- what the shutdown does, in this order
abbrev pub closings : Process → List Event
closings p =
    when p.worker_running worker_cancelled
    ++ when p.jobs_redis_open (closed jobs_redis)
    ++ when p.drive_client_open (closed drive_client)
    ++ when p.slack_client_open (closed slack_client)
    ++ when p.http_client_open (closed http_client)
    ++ closed redis ∷ []

abbrev add : Process → List Event → Process
add p es = record p { events = p.events ++ es }

close_if-add :
    (env : Environment) (is_open : Process → Bool) (r : Resource) (p : Process)
    → env.close_error r ≡ none
    → close_if env is_open r p ≡ (ok tt, add p (when (is_open p) (closed r)))
unfolding close_if
close_if-add env is_open r p h = elim (Bool-cases (is_open p)) [
  | inl yes_ ↦ rw (yes_, h) refl
  | inr no_ ↦ rw no_ (ap (λ es. (ok tt, record p { events = es })) (sym (append-nil p.events)))
]

cancel_worker-add :
    (env : Environment) (p : Process)
    → env.worker_error ≡ none
    → cancel_worker env p ≡ (ok tt, add p (when p.worker_running worker_cancelled))
unfolding cancel_worker
cancel_worker-add env p h = elim (Bool-cases p.worker_running) [
  | inl yes_ ↦ rw (yes_, h) refl
  | inr no_ ↦
      let idle : cancel_worker env p ≡ (ok tt, p) = ground arith in
      idle
      ∙ ap (λ es. (ok tt, record p { events = es })) (sym (append-nil p.events))
      ∙ ap (λ b. (ok tt, add p (when b worker_cancelled))) (sym no_)
]

finally-add :
    (env : Environment) (p : Process)
    → env.worker_error ≡ none
    → ((r : Resource) → env.close_error r ≡ none)
    → finally env p ≡ (ok tt, add p (closings p))
unfolding finally
finally-add env p w h =
    rw
      (
        cancel_worker-add env p w,
        close_if-add env _ jobs_redis _ (h jobs_redis),
        close_if-add env _ drive_client _ (h drive_client),
        close_if-add env _ slack_client _ (h slack_client),
        close_if-add env _ http_client _ (h http_client),
        close_if-add env _ redis _ (h redis),
      )
      (simp append_assoc refl)

-- When neither the cancelled worker nor a close raises: without REDIS_URL the lifespan raises for
-- that, and when the first connection fails it raises what the connection has raised; nothing is
-- opened in either case. Otherwise the shutdown cancels the worker if it has been started, closes
-- exactly the resources that have been opened, wherever the startup has stopped, the connection of
-- the jobs first and the other connection to Redis last, and an exception of the startup or of the
-- application goes on.
pub lifespan-closes :
    (env : Environment)
    → env.worker_error ≡ none
    → ((r : Resource) → env.close_error r ≡ none)
    → ((env.redis_url ≡ "") × (lifespan env ≡ (raise "REDIS_URL is required", [])))
      ⊎ ((e : String) × (env.redis_url ≢ "")
          × (env.fails (opening redis) ≡ some e)
          × (lifespan env ≡ (raise e, [])))
      ⊎ ((p : Process) × (env.redis_url ≢ "")
          × (env.fails (opening redis) ≡ none)
          × (try_body env after_connect ≡ ((lifespan env).0, p))
          × ((lifespan env).1 ≡ p.events ++ closings p)
          × ((r : Resource) → has_opened r p.events ≡ held p r)
          × (has_worker p.events ≡ p.worker_running))
unfolding lifespan finish
lifespan-closes env w h = elim (Bool-cases (truthy env.redis_url)) [
  | inr missing ↦ inl (empty_of_falsy env.redis_url missing, rw missing refl)
  | inl given ↦
      let there : env.redis_url ≢ "" = λ e. false≢true (rw e at given) in
      elim (Option-cases (env.fails (opening redis))) [
        | inr (e, failed) ↦ inr (inl (e, there, failed, rw (given, failed) refl))
        | inl connected ↦
            let t = (try_body-Goes env after_connect after_connect-IsTrue).true_after in
            let p = (try_body env after_connect).1 in
            let f = finally-add env p w h in
            inr (
              inr (
                p,
                there,
                connected,
                rw (given, connected, finish, f) refl,
                rw (given, connected, finish, f) refl,
                t.holds,
                t.runs,
              ))
      ]
]
