-- ===== src/Tests/Slack.antt =====
-- The integration with Slack at concrete data.
use mcp_agent_gateway.Base.{
  ℕ, String, string_eq, false, Option, none, some, List, [], ◌<>◌, ◌≡◌, refl, ap, ◌∙◌, or_else,
  arith,
}
use mcp_agent_gateway.Base.Result.{Result, ok, raise}
use mcp_agent_gateway.Shared.Store.InMemory.{
  InMemoryStore, clear, in_memory_store, in_memory_store-Contract,
}
use mcp_agent_gateway.Integrations.Google.DriveQuery.{escape}
use mcp_agent_gateway.Integrations.Google.DriveQuery.Literal.{read_literal, read_literal-escape}
use mcp_agent_gateway.Integrations.Slack.TokenStore.{
  SlackError, other_error, TokenData, Codec, IsLawful, slack_shared_user,
  seed_shared_slack_tokens_if_absent,
}
use mcp_agent_gateway.Integrations.Slack.TokenStore.Seeded.{provisioned}
use mcp_agent_gateway.Integrations.Slack.Tools.{
  SlackSendInput, SlackSearchInput, SlackSendResult, ApiMatch, ClientError, matches, with_token,
  handle_slack_send_message, handle_slack_search_messages,
}
use mcp_agent_gateway.Integrations.Slack.Tools.Tokens.{tools-provisioned}

-- a text for the data: three quoted texts, of which the last two say with a mark that they are there
abbrev marked : Option String → String
marked none = ""
marked (some text) = "#" <> text

abbrev unmarked : String → Option String
unmarked String.[] = none
unmarked (String.◌∷◌ c text) = some text

abbrev third_of : String → String → Option (String × String) → Result SlackError TokenData
third_of t b none = raise (other_error "ValueError")
third_of t b (some (u, rest)) =
    ok (record { team_id = t; bot_token_enc = unmarked b; user_token_enc = unmarked u })

abbrev second_of : String → Option (String × String) → Result SlackError TokenData
second_of t none = raise (other_error "ValueError")
second_of t (some (b, rest)) = third_of t b (read_literal false rest)

abbrev first_of : Option (String × String) → Result SlackError TokenData
first_of none = raise (other_error "ValueError")
first_of (some (t, rest)) = second_of t (read_literal false rest)

abbrev rest_of : String → Result SlackError String
rest_of String.[] = raise (other_error "InvalidToken")
rest_of (String.◌∷◌ c s) = ok s

abbrev codec : Codec
codec = record {
  dumps = λ d.
      escape d.team_id
      <> ("'"
          <> (escape (marked d.bot_token_enc)
              <> ("'" <> (escape (marked d.user_token_enc) <> ("'" <> "")))));
  loads = λ text. first_of (read_literal false text);
  encrypt = λ text. "#" <> text;
  decrypt = rest_of;
}

unmarked-marked : (o : Option String) → unmarked (marked o) ≡ o
unmarked-marked none = refl
unmarked-marked (some text) = refl

data_path :
    (t : String) {b b' u u' : Option String}
    → b ≡ b'
    → u ≡ u'
    → ◌≡◌ {A = TokenData}
        (record { team_id = t; bot_token_enc = b; user_token_enc = u })
        (record { team_id = t; bot_token_enc = b'; user_token_enc = u' })
data_path t p q = rw (p, q) refl

loads-dumps : (d : TokenData) → codec.loads (codec.dumps d) ≡ ok d
loads-dumps d =
    ap first_of (
      read_literal-escape d.team_id (
        escape (marked d.bot_token_enc)
        <> ("'" <> (escape (marked d.user_token_enc) <> ("'" <> "")))))
    ∙ ap (second_of d.team_id) (
        read_literal-escape (marked d.bot_token_enc)
          (escape (marked d.user_token_enc) <> ("'" <> "")))
    ∙ ap (third_of d.team_id (marked d.bot_token_enc))
        (read_literal-escape (marked d.user_token_enc) "")
    ∙ ap ok
        (data_path d.team_id (unmarked-marked d.bot_token_enc) (unmarked-marked d.user_token_enc))

codec-IsLawful : IsLawful codec
codec-IsLawful = record { loads-dumps = loads-dumps; decrypt-encrypt = λ text. refl }

abbrev no_tokens : InMemoryStore
no_tokens = record { entries = [] }

abbrev seeded : InMemoryStore
seeded = seed_shared_slack_tokens_if_absent codec in_memory_store no_tokens 5 (some "xoxb") none

tools-provisioned_example :
    ((post : String → String → String → Result ClientError SlackSendResult) (args : SlackSendInput)
      → (handle_slack_send_message in_memory_store codec post seeded 9 (ok args)).0
        ≡ with_token (provisioned "bot" (some "xoxb")) (λ t. post t args.channel args.text))
    × ((search_messages : String → String → ℕ → Result ClientError (List ApiMatch))
          (args : SlackSearchInput)
        → (handle_slack_search_messages in_memory_store codec search_messages seeded 9 (ok args)).0
          ≡ with_token
              (provisioned "user" none)
              (λ t. matches (search_messages t args.query args.count)))
tools-provisioned_example =
    tools-provisioned in_memory_store in_memory_store-Contract codec codec-IsLawful no_tokens 5 9
      (some "xoxb") none
      (unfold clear in
        in_memory_store-Contract.view-clear no_tokens 5 5 slack_shared_user (omega arith))
      (unfold or_else in refl) (omega arith)
