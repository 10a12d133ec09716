-- ===== src/Integrations/Slack/Signature.antt =====
-- app/integrations/slack/signature.py. `hmac.new(...).hexdigest()` and `float` are arguments; an
-- instant is in milliseconds.
use mcp_agent_gateway.Base.{
  ℕ, ◌+◌, ◌*◌, leb, ltb, code, true, String, string_eq, truthy, ◌<>◌, ◌==◌, Bool, false, ◌&&◌, not,
  Option, none, some, ◌||◌, if◌then◌else◌,
}
use mcp_agent_gateway.Base.Result.{Result, ok, raise}

-- a number of milliseconds from the epoch, or one before it, or none that is finite
pub data Float : Type 0 where
  pos : ℕ → Float
  negsuc : ℕ → Float
  not_finite : Float

-- `abs(current - ts) <= max_age_seconds`
unfoldable pub is_near : ℕ → ℕ → Float → Bool
is_near current max_age_seconds (pos ts) =
    leb ts (current + max_age_seconds * 1000) && leb current (ts + max_age_seconds * 1000)
is_near current max_age_seconds (negsuc n) = leb (current + n + 1) (max_age_seconds * 1000)
is_near current max_age_seconds not_finite = false

-- `float(timestamp)` is `none` where it raises
unfoldable pub is_timestamp_fresh : (String → Option Float) → String → ℕ → ℕ → Bool
unfolding is_near
is_timestamp_fresh float timestamp max_age_seconds current = elim (float timestamp) [
  | none ↦ false
  | some ts ↦ is_near current max_age_seconds ts
]

-- `str.isascii`
unfoldable pub is_ascii : String → Bool
is_ascii String.[] = true
is_ascii (String.◌∷◌ c s) = ltb (code c) 128 && is_ascii s

-- `hmac.compare_digest` of two texts, which raises for a character that is not ASCII
unfoldable pub compare_digest : String → String → Result String Bool
unfolding is_ascii
compare_digest a b = if is_ascii a && is_ascii b then ok (a == b) else raise "TypeError"

-- `hmac_sha256` takes the key and the text
unfoldable pub verify_slack_signature :
    (String → String → String) → String → String → String → String → Result String Bool
unfolding compare_digest
verify_slack_signature hmac_sha256 signing_secret timestamp raw_body signature_header =
    if not (truthy signing_secret) || not (truthy signature_header)
    then ok false
    else compare_digest
        ("v0=" <> hmac_sha256 signing_secret ("v0:" <> timestamp <> ":" <> raw_body))
        signature_header
