-- ===== src/Integrations/Slack/SlackClient.antt =====
-- app/integrations/slack/slack_client.py
pub mod Attempts
use mcp_agent_gateway.Base.{
  ℕ, nat_eq, decimal, String, ◌<>◌, Bool, true, false, ◌||◌, not, Option, none, some, [], ◌∷◌,
  if◌then◌else◌,
}
use mcp_agent_gateway.Base.Json.{Json, Members, text, object, get_member, json_truthy}
use mcp_agent_gateway.Base.Result.{Result, ok, raise, ◌>>=◌, ◌>>◌, guard}
use mcp_agent_gateway.Integrations.Http.{
  ClientError, http_status_error, slack_api_error, other_error, Method, get, post, Request, Reply,
  Send, ◌>>>◌, now, json_object, item_of, send_ok,
}
use mcp_agent_gateway.Integrations.Retrying.{Retrying}

unfoldable pub is_retryable : ClientError → Bool
is_retryable (http_status_error c) = nat_eq c 429 || nat_eq c 500 || nat_eq c 502 || nat_eq c 503
is_retryable (slack_api_error m) = false
is_retryable (other_error name) = false

unfoldable pub auth : String → String
auth token = "Bearer " <> token

-- `if not body.get("ok"): raise SlackAPIError(body.get("error", "unknown_error"))`
unfoldable pub is_ok : Members → Bool
is_ok body = elim (get_member "ok" body) [ none ↦ false | some v ↦ json_truthy v ]

unfoldable pub error_of : Members → Json
error_of body = elim (get_member "error" body) [ none ↦ text "unknown_error" | some v ↦ v ]

unfoldable pub check_ok : Members → Result ClientError Members
unfolding is_ok error_of
check_ok body = if is_ok body then ok body else raise (slack_api_error (error_of body))

-- what `post_message` returns, beside `"ok": True`
pub record Posted : Type 0 where
  pub channel : Json
  pub ts : Json

unfoldable pub posted_of : Members → Result ClientError Posted
posted_of body = item_of "channel" body >>= λ channel.
    item_of "ts" body >>= λ ts. ok (record { channel = channel; ts = ts })

-- `body["messages"]["matches"]`
unfoldable pub matches_of : Members → Result ClientError Json
matches_of body = item_of "messages" body >>= λ messages. elim messages [
  | object fields ↦ item_of "matches" fields
  | _ ↦ raise (other_error "TypeError")
]

module _ {W : Type 0} (T : Retrying W ClientError) (send : Send W) (max_retries : ℕ) where
  -- one attempt
  unfoldable pub try_post : String → String → String → W → Result ClientError Posted × W
  unfolding auth check_ok posted_of
  try_post bot_token channel message w =
      send_ok send
        (record {
          method = post;
          path = "/chat.postMessage";
          authorization = auth bot_token;
          fields = ("channel", channel) ∷ ("text", message) ∷ [];
        })
        w
      >>> λ resp. now (json_object "AttributeError" resp >>= check_ok >>= posted_of)

  unfoldable pub post_message : String → String → String → W → Result ClientError Posted × W
  unfolding is_retryable try_post
  post_message bot_token channel message =
      T.run is_retryable max_retries 1 (try_post bot_token channel message)

  unfoldable pub try_search : String → String → ℕ → W → Result ClientError Json × W
  unfolding auth check_ok matches_of
  try_search user_token query count w =
      send_ok send
        (record {
          method = get;
          path = "/search.messages";
          authorization = auth user_token;
          fields = ("query", query) ∷ ("count", decimal count) ∷ [];
        })
        w
      >>> λ resp. now (json_object "AttributeError" resp >>= check_ok >>= matches_of)

  unfoldable pub search_messages : String → String → ℕ → W → Result ClientError Json × W
  unfolding is_retryable try_search
  search_messages user_token query count =
      T.run is_retryable max_retries 1 (try_search user_token query count)
