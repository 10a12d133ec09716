-- ===== src/Tests/Web.antt =====
-- The middleware, the identity of callers and the web hook at concrete data.
use mcp_agent_gateway.Base.{
  ℕ, ◌+◌, leb, String, string_eq, char_eq, starts_with, lower_starts_with, drop_chars, split,
  or_else, contains, true, Option, none, some, [], ◌∷◌, ◌++◌, ◌<>◌, ◌≡◌, ◌↔◌, refl, ◌∙◌, inr, ◌⊎◌,
  arith, length,
}
use mcp_agent_gateway.Base.Dict.{Dict, lookup, insert}
use mcp_agent_gateway.Base.Result.{Result, ok, raise}
use mcp_agent_gateway.Redis.{Redis}
use mcp_agent_gateway.Redis.Memory.{memory, memory-IsLawful}
use mcp_agent_gateway.Redis.Counters as C
use mcp_agent_gateway.Identity.TokenValidator.{
  Claims, KeyError, DecodeError, ValidateError, uncaught, Jwt, validate,
}
use mcp_agent_gateway.Identity.TokenValidator.Accepts.{IsGood, validate-eq-ok_iff}
use mcp_agent_gateway.Middleware.Http.{Request, Response, App}
use mcp_agent_gateway.Middleware.AccessGuard
use mcp_agent_gateway.Middleware.AccessGuard.Bypass.{is_bypass_path-mcp}
use mcp_agent_gateway.Middleware.AccessGuard.Scopes.{FromRole, contains-granted_scopes}
use mcp_agent_gateway.Middleware.AccessGuard.Admission.{dispatch_admission}
use mcp_agent_gateway.Middleware.RateLimiter
use mcp_agent_gateway.Middleware.RateLimiter.Window.{
  decisions, firsts, after, decisions-eq-firsts, retry_after-reopens,
}
use mcp_agent_gateway.Middleware.Stack.{Config, World, Inner, relabel, app}
use mcp_agent_gateway.Middleware.Stack.Guarded.{Passes, app-Passes}
use mcp_agent_gateway.Middleware.Stack.Secured.{app-secured}
use mcp_agent_gateway.Middleware.RequestLogger
use mcp_agent_gateway.Middleware.SecurityHeaders
use mcp_agent_gateway.Integrations.Slack.Signature.{
  pos, is_near, is_timestamp_fresh, is_ascii, compare_digest, verify_slack_signature,
}
use mcp_agent_gateway.Api.Webhooks.{
  Raised, accepted, duplicate, Delivery, dict, Calls, events_stream, event_fields, check_signature,
  check_request, parse_body, slack_webhook,
}
use mcp_agent_gateway.Api.Webhooks.Authentic.{IsSigned, IsRefusal, slack_webhook-IsSigned}
use mcp_agent_gateway.Api.Webhooks.Once.{slack_webhook_once}

-- tokens are `good`, `bad` and anything else
abbrev alice : Claims
alice = record {
  sub = "alice";
  nbf = some 10;
  scope = some "openid mcp:google:read";
  resource_access = some (("mcp-gateway", some ("slack-user" ∷ "other" ∷ [])) ∷ []);
}

abbrev keys_for : String → Result KeyError ℕ
keys_for token = ok 1

abbrev decoded : String → ℕ → Result DecodeError Claims
decoded token key = ok alice

abbrev jwt : Jwt
jwt = record { Key = ℕ; get_signing_key_from_jwt = keys_for; decode = decoded }

validate-eq-ok_iff_example : (validate jwt 10000 "t" ≡ ok alice) ↔ IsGood jwt 10000 "t" alice
validate-eq-ok_iff_example = validate-eq-ok_iff jwt 10000 "t" alice

contains-granted_scopes_example :
    (contains (AccessGuard.granted_scopes alice) "mcp:slack:read" ≡ true) ↔ (
      (contains (split (or_else alice.scope "")) "mcp:slack:read" ≡ true)
      ⊎ FromRole (AccessGuard.client_roles alice) "mcp:slack:read")
contains-granted_scopes_example = contains-granted_scopes alice "mcp:slack:read"

abbrev request_for : String → Option String → Request
request_for path authorization = record {
  method = "GET";
  path = path;
  authorization = authorization;
  origin = none;
  request_id = none;
  user = none;
  context = record { current_user_id = none; current_user_scopes = [] };
}

abbrev checked : String → Result ValidateError Claims
checked token = validate jwt 10000 token

-- an application that counts its requests
abbrev count_requests : App ℕ
count_requests request n = (ok (record { status_code = 200; content = []; headers = [] }), n + 1)

abbrev with_token : Request
with_token = request_for "/mcp/" (some "Bearer t")

abbrev counted : App (C.memory.State × ℕ)
counted request (s, n) = (ok (record { status_code = 200; content = []; headers = [] }), (s, n + 1))

abbrev with_user : Request
with_user = AccessGuard.with_user alice with_token

dispatch_admission_example :
    (AccessGuard.dispatch "https://g/mcp" checked count_requests with_token 0
      ≡ (ok (AccessGuard.unauthorized "https://g/mcp"), 0))
    ⊎ (((header : String) × (claims : Claims) × (◌≡◌ {A = Option String}
            (some "Bearer t")
            (some header))
          × (lower_starts_with header "bearer " ≡ true)
          × (checked (drop_chars 7 header) ≡ ok claims)
          × (AccessGuard.dispatch "https://g/mcp" checked count_requests with_token 0
              ≡ count_requests (AccessGuard.with_user claims with_token) 0))
        ⊎ ((header : String) × (e : String) × (◌≡◌ {A = Option String}
              (some "Bearer t")
              (some header))
            × (checked (drop_chars 7 header) ≡ raise (uncaught e))
            × (AccessGuard.dispatch "https://g/mcp" checked count_requests with_token 0
                ≡ (raise e, 0))))
dispatch_admission_example =
    dispatch_admission "https://g/mcp" checked count_requests with_token 0
      (is_bypass_path-mcp "/mcp/" (unfold starts_with char_eq in refl))

abbrev limits : RateLimiter.Limits
limits = record { enabled = true; max_requests = 2; window_seconds = 60 }

decisions-eq-firsts_example :
    decisions C.memory C.memory-IsLawful "k" 2 60 [] (100 ∷ 200 ∷ 300 ∷ 400 ∷ [])
    ≡ firsts 2 (length {A = ℕ} (100 ∷ 200 ∷ 300 ∷ 400 ∷ []))
decisions-eq-firsts_example =
    decisions-eq-firsts C.memory C.memory-IsLawful "k" 2 60 [] 100 (200 ∷ 300 ∷ 400 ∷ [])
      (omega arith) (C.counter_in_memory [] 100 "k" ∙ (unfold lookup in refl))
      ((omega arith, omega arith, (omega arith, omega arith, (omega arith, omega arith, tt))))

-- one request counted at 100, which opens the window to 60100
abbrev one_counted : C.memory.State
one_counted = ("k", record { value = 1; deadline = some 60100 }) ∷ []

retry_after-reopens_example :
    (C.memory-IsLawful.counter (after C.memory C.memory-IsLawful "k" 1 60 one_counted 200) 60200 "k"
      ≡ none)
    × ((RateLimiter.script C.memory
          (after C.memory C.memory-IsLawful "k" 1 60 one_counted 200)
          60200
          "k"
          1
          60).0
        ≡ leb 1 1)
retry_after-reopens_example =
    retry_after-reopens C.memory C.memory-IsLawful "k" 1 60 one_counted 200 1 60100 60200
      (omega arith) (omega arith)
      (λ u h. C.counter_in_memory one_counted u "k" ∙ (unfold lookup string_eq in refl))
      (unfold RateLimiter.script RateLimiter.retry_after lookup insert string_eq in omega arith)

abbrev config : Config
config = record {
  allowed_origins = "https://app" ∷ [];
  expected_audience = "https://g/mcp";
  limits = limits;
  validate = checked;
}

-- a CORS middleware that adds one header
abbrev cors : App (World C.memory ℕ) → App (World C.memory ℕ)
cors next request w = (relabel (("Vary", "Origin") ∷ []) (next request w).0, (next request w).1)

abbrev routes : App (Inner C.memory ℕ)
routes request (s, (log, n)) =
    (ok (record { status_code = 200; content = []; headers = [] }), (s, (log, n + 1)))

abbrev start : World C.memory ℕ
start = ([], ([], 0))

abbrev facts : RequestLogger.Facts
facts = record { fresh_id = "id"; start = 1000; stop = 1256000; span_context = some (2748, 31) }

duration_runs : RequestLogger.duration_of 1000 1256000 ≡ 126
unfolding RequestLogger.duration_of
duration_runs = refl

span_runs : RequestLogger.span_id_of facts.span_context ≡ some "000000000000001f"
unfolding RequestLogger.span_id_of RequestLogger.hex RequestLogger.char_at
span_runs = refl

app-Passes_example :
    ((app C.memory ℕ config cors facts 100 routes with_token start).1.1.1 ≡ 0)
    ⊎ Passes C.memory ℕ config cors facts 100 routes with_token start
        (app C.memory ℕ config cors facts 100 routes with_token start).1.1.1
app-Passes_example =
    app-Passes C.memory ℕ config cors facts 100 routes with_token start
      (λ next request w. inr (("Vary", "Origin") ∷ [], refl)) (unfold starts_with char_eq in refl)

abbrev no_content : Response
no_content = record { status_code = 204; content = []; headers = [] }

-- a CORS middleware that answers every request itself
abbrev preflight : App (World C.memory ℕ) → App (World C.memory ℕ)
preflight next request w = (ok no_content, w)

app-secured_example :
    (lookup "X-Content-Type-Options" (SecurityHeaders.secured no_content).headers ≡ some "nosniff")
    × (lookup "Strict-Transport-Security" (SecurityHeaders.secured no_content).headers
        ≡ some "max-age=31536000; includeSubDomains")
app-secured_example =
    app-secured C.memory ℕ config preflight facts 100 routes with_token start start
      (SecurityHeaders.secured no_content) (unfold app SecurityHeaders.dispatch in refl)

-- the hook with a secret, and a keyed hash that joins its arguments
abbrev hook : Calls
hook = record {
  float = λ timestamp. some (pos 1000000);
  hmac_sha256 = λ key text. key <> "|" <> text;
  loads = λ raw. some (dict (("event_id", raw) ∷ ("type", "event_callback") ∷ []));
  signing_secret = "secret";
}

abbrev delivery : Delivery
delivery = record { raw = "Ev1"; timestamp = some "1000"; signature = some "v0=secret|v0:1000:Ev1" }

abbrev body : Dict String String
body = ("event_id", "Ev1") ∷ ("type", "event_callback") ∷ []

slack_webhook-IsSigned_example :
    ((e : Raised) × (slack_webhook hook memory [] 1000500 delivery ≡ (raise e, []))
      × IsRefusal hook delivery e)
    ⊎ IsSigned hook 1000500 delivery
slack_webhook-IsSigned_example = slack_webhook-IsSigned hook memory [] 1000500 delivery

passes : check_request hook 1000500 delivery ≡ ok tt
unfolding check_request check_signature is_timestamp_fresh is_near verify_slack_signature
    compare_digest is_ascii string_eq or_else
passes = refl

passes_again : check_request hook 1002500 delivery ≡ ok tt
unfolding check_request check_signature is_timestamp_fresh is_near verify_slack_signature
    compare_digest is_ascii string_eq or_else
passes_again = refl

slack_webhook_once_example :
    ((slack_webhook hook memory [] 1000500 delivery).0 ≡ ok accepted)
    × (Redis.xrange memory (slack_webhook hook memory [] 1000500 delivery).1 1000500 events_stream
        ≡ Redis.xrange memory [] 1000500 events_stream ++ (event_fields delivery body ∷ []))
    × (slack_webhook hook memory (slack_webhook hook memory [] 1000500 delivery).1 1002500 delivery
        ≡ (ok duplicate, (slack_webhook hook memory [] 1000500 delivery).1))
slack_webhook_once_example =
    slack_webhook_once hook memory memory-IsLawful [] 1000500 1002500 delivery delivery body body
      "Ev1"
      (
        passes,
        (unfold parse_body in refl),
        (unfold lookup string_eq in refl),
        refl,
        (unfold lookup string_eq or_else in refl),
      )
      (
        passes_again,
        (unfold parse_body in refl),
        (unfold lookup string_eq in refl),
        refl,
        (unfold lookup string_eq or_else in refl),
      )
      refl (omega arith) (omega arith)
