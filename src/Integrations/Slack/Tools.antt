-- ===== src/Integrations/Slack/Tools.antt =====
-- app/integrations/slack/tools.py. Pydantic's validation and the calls of the Slack API are
-- arguments. An exception that no handler catches is given by its name.
pub mod Tokens
use mcp_agent_gateway.Base.{
  ℕ, String, string_eq, ◌<>◌, ◌==◌, or_else, Bool, true, false, Option, none, some, List, [], ◌∷◌,
  if◌then◌else◌,
}
use mathlib.Core.List.{map}
use mcp_agent_gateway.Base.Result.{Result, ok, raise, ◌>>=◌}
use mcp_agent_gateway.Shared.Store.{Store}
use mcp_agent_gateway.Integrations.Slack.TokenStore.{
  SlackError, slack_token_not_found_error, other_error, Codec, slack_shared_user,
  get_valid_slack_token,
}

pub record SlackSendInput : Type 0 where
  pub channel : String
  pub text : String

pub record SlackSearchInput : Type 0 where
  pub query : String
  pub count : ℕ

pub record SlackSendResult : Type 0 where
  pub ok_ : Bool
  pub channel : String
  pub ts : String

pub record SlackSearchMatch : Type 0 where
  pub text : String
  pub channel : String
  pub user : String
  pub ts : String
  pub permalink : String

-- the `channel` of a match: a dict, or another value as the text that `str` makes of it
pub data Channel : Type 0 where
  dict : Option String → Option String → Channel
  other : String → Channel

-- a match of the API; a key that is not in it is `none`
pub record ApiMatch : Type 0 where
  pub text : Option String
  pub channel : Option Channel
  pub user : Option String
  pub ts : Option String
  pub permalink : Option String

unfoldable pub channel_name : Option Channel → String
unfolding or_else
channel_name none = ""
channel_name (some (dict name id)) = or_else name (or_else id "")
channel_name (some (other text)) = text

unfoldable pub to_match : ApiMatch → SlackSearchMatch
unfolding or_else channel_name
to_match m = record {
  text = or_else m.text "";
  channel = channel_name m.channel;
  user = or_else m.user "";
  ts = or_else m.ts "";
  permalink = or_else m.permalink "";
}

-- what the client raises
pub data ClientError : Type 0 where
  slack_api_error : String → ClientError
  other_client_error : String → ClientError

-- a result of a tool
pub data Answer (A : Type 0) : Type 0 where
  failure : String → Answer A
  success : A → Answer A

abbrev pub not_authorized : String
not_authorized =
    "Slack is not authorized. Provision SLACK_SHARED_BOT_TOKEN / SLACK_SHARED_USER_TOKEN (see README)."

-- `except SlackAPIError`
unfoldable pub answered : {A : Type 0} → Result ClientError A → Result String (Answer A)
answered (ok result) = ok (success result)
answered (raise (slack_api_error e)) = ok (failure ("Slack error: " <> e))
answered (raise (other_client_error e)) = raise e

-- `_get_slack_token` and what follows it, with a call that takes the token
unfoldable pub with_token :
    {A : Type 0}
    → Result SlackError String
    → (String → Result ClientError A)
    → Result String (Answer A)
unfolding answered
with_token (ok token) call = answered (call token)
with_token (raise (slack_token_not_found_error e)) call = ok (failure not_authorized)
with_token (raise (other_error e)) call = raise e

-- `[_to_match(m) for m in matches]`
unfoldable pub matches :
    Result ClientError (List ApiMatch) → Result ClientError (List SlackSearchMatch)
unfolding to_match
matches (ok found) = ok (map to_match found)
matches (raise e) = raise e

module _ (S : Store) (c : Codec) where
  unfoldable pub handle_slack_send_message :
      (String → String → String → Result ClientError SlackSendResult)
      → S.State
      → ℕ
      → Result String SlackSendInput
      → Result String (Answer SlackSendResult) × S.State
  unfolding with_token
  handle_slack_send_message post_message s now (raise e) =
      (ok (failure ("Invalid input: " <> e)), s)
  handle_slack_send_message post_message s now (ok args) =
      let (token, s') = get_valid_slack_token c S s now slack_shared_user "bot" in
      (with_token token (λ t. post_message t args.channel args.text), s')

  unfoldable pub handle_slack_search_messages :
      (String → String → ℕ → Result ClientError (List ApiMatch))
      → S.State
      → ℕ
      → Result String SlackSearchInput
      → Result String (Answer (List SlackSearchMatch)) × S.State
  unfolding with_token matches
  handle_slack_search_messages search_messages s now (raise e) =
      (ok (failure ("Invalid input: " <> e)), s)
  handle_slack_search_messages search_messages s now (ok args) =
      let (token, s') = get_valid_slack_token c S s now slack_shared_user "user" in
      (with_token token (λ t. matches (search_messages t args.query args.count)), s')
