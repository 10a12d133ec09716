-- ===== src/Api/Webhooks.antt =====
-- app/api/webhooks_router.py. The body is a text, and `json.loads` an argument.
pub mod Authentic
pub mod Once
use mcp_agent_gateway.Base.{
  ℕ, ◌*◌, String, string_eq, truthy, ◌<>◌, ◌==◌, or_else, Bool, true, false, ◌||◌, not, Option,
  none, some, List, [], ◌∷◌, if◌then◌else◌,
}
use mcp_agent_gateway.Base.Dict.{Dict, lookup}
use mcp_agent_gateway.Base.Result.{Result, ok, raise, ◌>>=◌, ◌>>◌, guard}
use mcp_agent_gateway.Redis.{Fields, Redis}
use mcp_agent_gateway.Integrations.Slack.Signature.{
  Float, is_timestamp_fresh, verify_slack_signature,
}

abbrev pub max_age_seconds : ℕ
max_age_seconds = 300

abbrev pub dedup_ttl_seconds : ℕ
dedup_ttl_seconds = 3600

abbrev pub events_stream : String
events_stream = "events:slack"

abbrev pub dedup_key : String → String
dedup_key event_id = "webhook:slack:" <> event_id

-- HTTPException
pub record HttpError : Type 0 where
  pub status_code : ℕ
  pub detail : String

-- what the handler raises: an answer with a status, or another exception by its name
pub data Raised : Type 0 where
  http_exception : HttpError → Raised
  other_exception : String → Raised

-- the dict that is returned
pub data Answer : Type 0 where
  challenge : String → Answer
  duplicate : Answer
  accepted : Answer

pub record Delivery : Type 0 where
  pub raw : String
  pub timestamp : Option String
  pub signature : Option String

-- a JSON text that is a dict, whose values that the handler reads are texts, or anything else
pub data Json : Type 0 where
  dict : Dict String String → Json
  other : Json

-- what the handler calls, and its secret
pub record Calls : Type 0 where
  pub float : String → Option Float
  pub hmac_sha256 : String → String → String
  pub loads : String → Option Json
  pub signing_secret : String

unfoldable pub bad_json : Raised
bad_json = http_exception (record { status_code = 400; detail = "invalid JSON" })

abbrev pub refusal : ℕ → String → Raised
refusal status_code detail = http_exception (record { status_code = status_code; detail = detail })

-- `if not verify_slack_signature(...)`
unfoldable pub check_signature : Result String Bool → Result Raised (Unit {0})
check_signature (ok verified) = guard verified (refusal 401 "invalid signature")
check_signature (raise name) = raise (other_exception name)

unfoldable pub event_fields : Delivery → Dict String String → Fields
unfolding or_else
event_fields d body =
    ("event_id", or_else (lookup "event_id" body) "")
    ∷ ("type", or_else (lookup "type" body) "")
    ∷ ("ts", or_else d.timestamp "")
    ∷ ("payload", d.raw)
    ∷ []

module _ (R : Redis) where
  unfoldable pub publish_event : R.State → ℕ → Delivery → Dict String String → R.State
  unfolding event_fields
  publish_event s now d body = R.xadd s now events_stream (event_fields d body)

  -- an event with an identifier goes on once
  unfoldable pub dedup :
      R.State → ℕ → Delivery → Dict String String → String → Result Raised Answer × R.State
  unfolding publish_event
  dedup s now d body event_id =
      let (created, s') =
        R.set_nx s now (dedup_key event_id) "1" (some (dedup_ttl_seconds * 1000)) in
      if created then (ok accepted, publish_event s' now d body) else (ok duplicate, s')

  unfoldable pub handle_body :
      R.State → ℕ → Delivery → Dict String String → Result Raised Answer × R.State
  unfolding dedup publish_event or_else
  handle_body s now d body =
      if or_else (lookup "type" body) "" == "url_verification"
      then (ok (challenge (or_else (lookup "challenge" body) "")), s)
      else if truthy (or_else (lookup "event_id" body) "")
      then dedup s now d body (or_else (lookup "event_id" body) "")
      else (ok accepted, publish_event s now d body)

  unfoldable pub handle_request :
      R.State → ℕ → Delivery → Result Raised (Dict String String) → Result Raised Answer × R.State
  unfolding handle_body
  handle_request s now d (raise e) = (raise e, s)
  handle_request s now d (ok body) = handle_body s now d body

module _ (c : Calls) where
  -- the checks that come before the body is read, in their order
  unfoldable pub check_request : ℕ → Delivery → Result Raised (Unit {0})
  unfolding or_else check_signature
  check_request now d =
      let timestamp = or_else d.timestamp "" in
      let signature = or_else d.signature "" in
      guard (truthy c.signing_secret) (refusal 503 "webhook not configured")
      >> guard (not (not (truthy timestamp) || not (truthy signature)))
          (refusal 401 "missing signature headers")
      >> guard (is_timestamp_fresh c.float timestamp max_age_seconds now)
          (refusal 401 "stale timestamp")
      >> check_signature
          (verify_slack_signature c.hmac_sha256 c.signing_secret timestamp d.raw signature)

  unfoldable pub parse_body : String → Result Raised (Dict String String)
  parse_body raw = elim (c.loads raw) [
    | none ↦ raise bad_json
    | some (dict body) ↦ ok body
    | some other ↦ raise bad_json
  ]

  unfoldable pub slack_webhook :
      (R : Redis) → R.State → ℕ → Delivery → Result Raised Answer × R.State
  unfolding handle_request check_request parse_body
  slack_webhook R s now d = handle_request R s now d (check_request now d >> parse_body d.raw)
