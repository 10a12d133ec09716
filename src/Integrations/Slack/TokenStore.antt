-- ===== src/Integrations/Slack/TokenStore.antt =====
-- app/integrations/slack/token_store.py, over any store. `cryptography` and `json` are arguments.
pub mod Seeded
use mcp_agent_gateway.Base.{
  ℕ, String, string_eq, truthy, ◌<>◌, ◌==◌, or_else, Bool, true, false, ◌&&◌, not, Option, none,
  some, ◌≡◌, if◌then◌else◌,
}
use mcp_agent_gateway.Base.Result.{Result, ok, raise, ◌>>=◌}
use mcp_agent_gateway.Shared.Store.{Store}

abbrev pub slack_shared_user : String
slack_shared_user = "shared"

-- the exceptions: the one that the tools catch, with its text, and the others by their names
pub data SlackError : Type 0 where
  slack_token_not_found_error : String → SlackError
  other_error : String → SlackError

-- what the JSON text holds; a key that is not in it is `none`
pub record TokenData : Type 0 where
  pub team_id : String
  pub bot_token_enc : Option String
  pub user_token_enc : Option String

-- `json.dumps` and `json.loads`, `Fernet.encrypt` and `Fernet.decrypt`
pub record Codec : Type 0 where
  pub dumps : TokenData → String
  pub loads : String → Result SlackError TokenData
  pub encrypt : String → String
  pub decrypt : String → Result SlackError String

pub record IsLawful (c : Codec) : Type 0 where
  pub loads-dumps : (data_ : TokenData) → c.loads (c.dumps data_) ≡ ok data_
  pub decrypt-encrypt : (text : String) → c.decrypt (c.encrypt text) ≡ ok text

-- the encrypted token under the key of the type, `none` if the key is not in the data
unfoldable pub token_of : String → TokenData → Result SlackError (Option String)
token_of token_type data_ =
    if token_type == "bot"
    then ok data_.bot_token_enc
    else if token_type == "user"
    then ok data_.user_token_enc
    else raise (other_error "ValueError")

module _ (c : Codec) where
  unfoldable pub decrypted : String → Option String → Result SlackError String
  decrypted token_type none =
      raise (slack_token_not_found_error ("Slack " <> token_type <> " token not provisioned"))
  decrypted token_type (some token_enc) = c.decrypt token_enc

  -- from the text that is stored on
  unfoldable pub read_token : String → Option String → Result SlackError String
  unfolding token_of decrypted
  read_token token_type none = raise (slack_token_not_found_error "User has not authorized Slack")
  read_token token_type (some raw) = c.loads raw >>= token_of token_type >>= decrypted token_type

  unfoldable pub get_valid_slack_token :
      (S : Store) → S.State → ℕ → String → String → Result SlackError String × S.State
  unfolding read_token
  get_valid_slack_token S s now user_id token_type =
      let (raw, s') = S.get s now user_id in (read_token token_type raw, s')

  -- `if token: data[key] = encrypt(token)`
  unfoldable pub encrypted : Option String → Option String
  encrypted none = none
  encrypted (some token) = if truthy token then some (c.encrypt token) else none

  unfoldable pub seed_data : Option String → Option String → TokenData
  unfolding encrypted
  seed_data bot_token user_token = record {
    team_id = "";
    bot_token_enc = encrypted bot_token;
    user_token_enc = encrypted user_token;
  }

  unfoldable pub seed_shared_slack_tokens_if_absent :
      (S : Store) → S.State → ℕ → Option String → Option String → S.State
  unfolding or_else seed_data
  seed_shared_slack_tokens_if_absent S s now bot_token user_token =
      if not (truthy (or_else bot_token "")) && not (truthy (or_else user_token ""))
      then s
      else let (present, s') = S.get s now slack_shared_user in
        elim present [
          | none ↦ S.set s' now slack_shared_user (c.dumps (seed_data bot_token user_token)) none
          | some _ ↦ s'
        ]
