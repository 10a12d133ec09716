-- ===== src/Main/Opened.antt =====
-- app/main.py: what the startup has opened.
use mcp_agent_gateway.Base.{
  ℕ, nat_eq, String, Bool, true, false, ◌||◌, List, [], ◌∷◌, ◌++◌, ◌≡◌, refl, inl, inr,
  Option-cases, arith,
}
use mcp_agent_gateway.Base.Result.{Result, ok, raise}
use mcp_agent_gateway.Main.{
  Resource, redis, http_client, drive_client, slack_client, jobs_redis, Event, opened,
  worker_started, Step, opening, google_fernet, slack_fernet, seed_google_token, seed_slack_tokens,
  start_worker, serve, Environment, Process, ◌>>>◌, record_open, record_worker, after_connect, step,
  try_body,
}

abbrev number : Resource → ℕ
number redis = 0
number http_client = 1
number drive_client = 2
number slack_client = 3
number jobs_redis = 4

abbrev is_opening : Resource → Event → Bool
is_opening r (opened q) = nat_eq (number r) (number q)
is_opening r _ = false

-- whether a resource has been opened
unfoldable pub has_opened : Resource → List Event → Bool
has_opened r [] = false
has_opened r (e ∷ events) = is_opening r e || has_opened r events

abbrev is_start : Event → Bool
is_start worker_started = true
is_start _ = false

unfoldable pub has_worker : List Event → Bool
has_worker [] = false
has_worker (e ∷ events) = is_start e || has_worker events

-- what the local variables say to be open
abbrev pub held : Process → Resource → Bool
held p redis = true
held p http_client = p.http_client_open
held p drive_client = p.drive_client_open
held p slack_client = p.slack_client_open
held p jobs_redis = p.jobs_redis_open

-- the local variables are those of what has happened
pub record IsTrue (p : Process) : Type 0 where
  pub holds : (r : Resource) → has_opened r p.events ≡ held p r
  pub runs : has_worker p.events ≡ p.worker_running

has_opened-append :
    (r : Resource) (xs : List Event) (e : Event)
    → has_opened r (xs ++ e ∷ []) ≡ (has_opened r xs || is_opening r e)
unfolding has_opened
has_opened-append r [] e = ground arith
has_opened-append r (x ∷ xs) e = ground (arith, has_opened-append r xs e)

has_worker-append :
    (xs : List Event) (e : Event) → has_worker (xs ++ e ∷ []) ≡ (has_worker xs || is_start e)
unfolding has_worker
has_worker-append [] e = ground arith
has_worker-append (x ∷ xs) e = ground (arith, has_worker-append xs e)

events-record_open :
    (q : Resource) (p : Process) → (record_open q p).events ≡ p.events ++ opened q ∷ []
unfolding record_open
events-record_open redis p = refl
events-record_open http_client p = refl
events-record_open drive_client p = refl
events-record_open slack_client p = refl
events-record_open jobs_redis p = refl

held-record_open :
    (q r : Resource) (p : Process)
    → held (record_open q p) r ≡ (held p r || is_opening r (opened q))
unfolding record_open
held-record_open q r p = ground arith

worker-record_open :
    (q : Resource) (p : Process) → (record_open q p).worker_running ≡ p.worker_running
unfolding record_open
worker-record_open q p = ground arith

record_open-IsTrue : (q : Resource) (p : Process) → IsTrue p → IsTrue (record_open q p)
record_open-IsTrue q p t = record {
  holds = λ r.
      rw (events-record_open q p) (
        ground (arith, has_opened-append r p.events (opened q), held-record_open q r p, t.holds r));
  runs =
      rw (events-record_open q p)
        (ground (arith, has_worker-append p.events (opened q), worker-record_open q p));
}

held-record_worker : (r : Resource) (p : Process) → held (record_worker p) r ≡ held p r
unfolding record_worker
held-record_worker r p = ground arith

record_worker-IsTrue : (p : Process) → IsTrue p → IsTrue (record_worker p)
unfolding record_worker
record_worker-IsTrue p t = record {
  holds = λ r.
      ground
        (arith, has_opened-append r p.events worker_started, held-record_worker r p, t.holds r);
  runs = ground (arith, has_worker-append p.events worker_started);
}

-- so they are after a step or several
pub record Goes (x : Result String (Unit {0}) × Process) : Type 0 where
  pub true_after : IsTrue x.1

step-Goes :
    (env : Environment) (s : Step) (change : Process → Process)
    → ((p : Process) → IsTrue p → IsTrue (change p))
    → (p : Process) → IsTrue p
    → Goes (step env s change p)
unfolding step
step-Goes env s change keep p t = elim (Option-cases (env.fails s)) [
  | inl none_ ↦ rw (none_, step) (record { true_after = keep p t })
  | inr (e, some_) ↦ rw (some_, step) (record { true_after = t })
]

then-Goes :
    (x : Result String (Unit {0}) × Process) (f : Process → Result String (Unit {0}) × Process)
    → Goes x
    → ((p : Process) → IsTrue p → Goes (f p))
    → Goes (x >>> f)
then-Goes (ok tt, p) f g keep = keep p g.true_after
then-Goes (raise e, p) f g keep = record { true_after = g.true_after }

pub after_connect-IsTrue : IsTrue after_connect
unfolding after_connect has_opened has_worker
after_connect-IsTrue = record { holds = λ r. ground arith; runs = refl }

pub try_body-Goes : (env : Environment) (p : Process) → IsTrue p → Goes (try_body env p)
unfolding try_body
try_body-Goes env p t =
    let idle : (p : Process) → IsTrue p → IsTrue p = λ p t. t in
    then-Goes _ _
      (then-Goes _ _
        (then-Goes _ _
          (then-Goes _ _
            (then-Goes _ _
              (then-Goes _ _
                (then-Goes _ _
                  (then-Goes _ _
                    (then-Goes _ _
                      (step-Goes env (opening http_client) _ (record_open-IsTrue http_client) p t)
                      (step-Goes env (opening drive_client) _ (record_open-IsTrue drive_client)))
                    (step-Goes env (opening slack_client) _ (record_open-IsTrue slack_client)))
                  (step-Goes env google_fernet _ idle))
                (step-Goes env slack_fernet _ idle))
              (step-Goes env seed_google_token _ idle))
            (step-Goes env seed_slack_tokens _ idle))
          (step-Goes env (opening jobs_redis) _ (record_open-IsTrue jobs_redis)))
        (step-Goes env start_worker _ record_worker-IsTrue))
      (step-Goes env serve _ idle)
