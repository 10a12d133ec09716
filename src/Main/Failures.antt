-- ===== src/Main/Failures.antt =====
-- app/main.py: the shutdown when a step of it raises.
use mathlib.Core.List.{append-nil, append_assoc}
use mcp_agent_gateway.Base.{
  String, truthy, Bool, true, false, Option, none, some, List, [], ◌∷◌, ◌++◌, ◌≡◌, ◌≢◌, refl, sym,
  ap, ◌∙◌, inl, inr, fun_ext, arith, Bool-cases, Option-cases,
}
use mcp_agent_gateway.Base.Result.{Result, ok, raise}
use mcp_agent_gateway.Main.{
  Resource, redis, http_client, drive_client, slack_client, jobs_redis, Event, worker_cancelled,
  closed, opening, Environment, Process, ◌>>>◌, after_connect, try_body, cancel_worker, close_if,
  finally, finish, lifespan,
}

-- a step of the shutdown, and what it raises
abbrev pub Due : Type 0
Due = Event × Option String

abbrev when : Bool → Due → List Due
when true d = d ∷ []
when false d = []

-- the steps that are due, in their order: of what is open
abbrev pub due : Environment → Process → List Due
due env p =
    when p.worker_running (worker_cancelled, env.worker_error)
    ++ when p.jobs_redis_open (closed jobs_redis, env.close_error jobs_redis)
    ++ when p.drive_client_open (closed drive_client, env.close_error drive_client)
    ++ when p.slack_client_open (closed slack_client, env.close_error slack_client)
    ++ when p.http_client_open (closed http_client, env.close_error http_client)
    ++ (closed redis, env.close_error redis) ∷ []

-- the steps up to the first that raises, and its exception in place of the result before
abbrev pub until : Result String (Unit {0}) → List Due → Result String (Unit {0}) × List Event
until before [] = (before, [])
until before ((e, none) ∷ ds) = let (r, es) = until before ds in (r, e ∷ es)
until before ((e, some x) ∷ ds) = (raise x, e ∷ [])

abbrev add : Process → Event → Process
add p e = record p { events = p.events ++ e ∷ [] }

-- the steps on the state of the process
unfoldable go : List Due → Process → Result String (Unit {0}) × Process
go [] p = (ok tt, p)
go ((e, none) ∷ ds) p = go ds (add p e)
go ((e, some x) ∷ ds) p = (raise x, add p e)

go_then :
    (ds : List Due) (more : Process → List Due) (p : Process)
    → ((q : Process) (e : Event) → more (add q e) ≡ more q)
    → (go ds p >>> λ q. go (more q) q) ≡ go (ds ++ more p) p
unfolding go
go_then [] more p same = refl
go_then ((e, none) ∷ ds) more p same =
    go_then ds more (add p e) same ∙ ap (λ m. go (ds ++ m) (add p e)) (same p e)
go_then ((e, some x) ∷ ds) more p same = refl

close_if-go :
    (env : Environment) (is_open : Process → Bool) (r : Resource) (p : Process)
    → close_if env is_open r p ≡ go (when (is_open p) (closed r, env.close_error r)) p
unfolding close_if go
close_if-go env is_open r p = elim (Bool-cases (is_open p)) [
  | inr shut ↦ rw (shut, close_if) refl
  | inl open_ ↦ elim (Option-cases (env.close_error r)) [
    | inl fine ↦ rw (open_, fine, close_if) refl
    | inr (e, raised) ↦ rw (open_, raised, close_if) refl
  ]
]

cancel_worker_of :
    (env : Environment) (p : Process) (running : Bool)
    → p.worker_running ≡ running
    → cancel_worker env p ≡ go (when running (worker_cancelled, env.worker_error)) p
unfolding cancel_worker go
cancel_worker_of env p true h = elim (Option-cases env.worker_error) [
  | inl fine ↦ rw (h, fine, cancel_worker) refl
  | inr (e, raised) ↦ rw (h, raised, cancel_worker) refl
]
cancel_worker_of env p false h = ground arith

cancel_worker-go :
    (env : Environment) (p : Process)
    → cancel_worker env p ≡ go (when p.worker_running (worker_cancelled, env.worker_error)) p
cancel_worker-go env p = cancel_worker_of env p p.worker_running refl

seq_go :
    (x : Result String (Unit {0}) × Process) (ds : List Due) (p : Process)
    (f : Process → Result String (Unit {0}) × Process) (more : Process → List Due)
    → x ≡ go ds p
    → ((q : Process) → f q ≡ go (more q) q)
    → ((q : Process) (e : Event) → more (add q e) ≡ more q)
    → (x >>> f) ≡ go (ds ++ more p) p
seq_go x ds p f more e each same =
    ap (λ y. y >>> f) e ∙ ap (λ g. go ds p >>> g) (fun_ext each) ∙ go_then ds more p same

finally-go : (env : Environment) (p : Process) → finally env p ≡ go (due env p) p
unfolding finally
finally-go env p =
    let closing : (Process → Bool) → Resource → Process → List Due =
      λ is_open r q. when (is_open q) (closed r, env.close_error r) in
    seq_go _ _ p _ (closing (λ p. true) redis)
      (seq_go _ _ p _ (closing (λ p. p.http_client_open) http_client)
        (seq_go _ _ p _ (closing (λ p. p.slack_client_open) slack_client)
          (seq_go _ _ p _ (closing (λ p. p.drive_client_open) drive_client)
            (seq_go _ _ p _ (closing (λ p. p.jobs_redis_open) jobs_redis) (cancel_worker-go env p)
              (close_if-go env (λ p. p.jobs_redis_open) jobs_redis) (λ q e. refl))
            (close_if-go env (λ p. p.drive_client_open) drive_client) (λ q e. refl))
          (close_if-go env (λ p. p.slack_client_open) slack_client) (λ q e. refl))
        (close_if-go env (λ p. p.http_client_open) http_client) (λ q e. refl))
      (close_if-go env (λ p. true) redis) (λ q e. refl)

-- the result and the events of the steps
go-until :
    (ds : List Due) (before : Result String (Unit {0})) (p : Process)
    → ((elim (go ds p).0 [ ok _ ↦ before | raise e ↦ raise e ] ≡ (until before ds).0)
        × ((go ds p).1.events ≡ p.events ++ (until before ds).1))
unfolding go
go-until [] before p = (refl, sym (append-nil p.events))
go-until ((e, none) ∷ ds) before p =
    let (r, es) = go-until ds before (add p e) in
    (r, es ∙ append_assoc p.events (e ∷ []) (until before ds).1)
go-until ((e, some x) ∷ ds) before p = (refl, refl)

truthy_of_given : (s : String) → s ≢ "" → truthy s ≡ true
truthy_of_given String.[] h = absurd (h refl)
truthy_of_given (String.◌∷◌ c s) h = refl

-- With a REDIS_URL and a first connection, whatever the startup, the application, the cancelled worker
-- and the closes raise: the shutdown goes, in this order, through the worker if it has been started,
-- the connection of the jobs, the Drive client, the Slack client and the HTTP client as far as they
-- are open, and the first connection, until one raises; its exception takes the place of an earlier
-- one, and what comes after it is not closed. If none raises, the result is that of the startup and
-- the application.
pub lifespan-until :
    (env : Environment)
    → env.redis_url ≢ ""
    → env.fails (opening redis) ≡ none
    → let (tried, p) = try_body env after_connect in
      let (result, events) = until tried (due env p) in lifespan env ≡ (result, p.events ++ events)
unfolding lifespan finish
lifespan-until env given connected =
    let tried = try_body env after_connect in
    let (result, events) = go-until (due env tried.1) tried.0 tried.1 in
    rw (truthy_of_given env.redis_url given, connected, finish, finally-go env tried.1)
      (ap (λ r. (r, (go (due env tried.1) tried.1).1.events)) result
        ∙ ap (λ es. ((until tried.0 (due env tried.1)).0, es)) events)
