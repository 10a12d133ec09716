-- ===== src/Integrations/Slack/Tools/Tokens.antt =====
-- Which token each tool takes.
use mcp_agent_gateway.Base.{
  ℕ, ◌≤◌, String, string_eq, truthy, or_else, false, ◌&&◌, not, Option, none, List, ◌≡◌, ap,
}
use mcp_agent_gateway.Base.Result.{Result, ok}
use mcp_agent_gateway.Shared.Store.{Store, Contract}
use mcp_agent_gateway.Integrations.Slack.TokenStore.{
  Codec, IsLawful, slack_shared_user, seed_shared_slack_tokens_if_absent,
}
use mcp_agent_gateway.Integrations.Slack.TokenStore.Seeded.{provisioned, seeded-provisioned}
use mcp_agent_gateway.Integrations.Slack.Tools.{
  SlackSendInput, SlackSearchInput, SlackSendResult, ApiMatch, ClientError, matches, with_token,
  handle_slack_send_message, handle_slack_search_messages,
}

module _ (S : Store) (K : Contract S) (c : Codec) (law : IsLawful c) where
  -- In a store that keeps the contract, with a lawful codec, after a start with one of the two
  -- tokens at least, on a store with none: a message is posted with the bot's token and a search
  -- made with the user's token, never the other way around; and a tool whose token was not given
  -- makes no call.
  pub tools-provisioned :
      (s : S.State) (now u : ℕ) (bot_token user_token : Option String)
      → K.view s now slack_shared_user ≡ none
      → (not (truthy (or_else bot_token "")) && not (truthy (or_else user_token ""))) ≡ false
      → now ≤ u
      → ((post : String → String → String → Result ClientError SlackSendResult)
            (args : SlackSendInput)
          → (handle_slack_send_message S c post
              (seed_shared_slack_tokens_if_absent c S s now bot_token user_token)
              u
              (ok args)).0
            ≡ with_token (provisioned "bot" bot_token) (λ t. post t args.channel args.text))
        × ((search_messages : String → String → ℕ → Result ClientError (List ApiMatch))
              (args : SlackSearchInput)
            → (handle_slack_search_messages S c search_messages
                (seed_shared_slack_tokens_if_absent c S s now bot_token user_token)
                u
                (ok args)).0
              ≡ with_token
                  (provisioned "user" user_token)
                  (λ t. matches (search_messages t args.query args.count)))
  unfolding handle_slack_send_message handle_slack_search_messages
  tools-provisioned s now u bot_token user_token absent given h =
      let (b, p) = seeded-provisioned S K c law s now u bot_token user_token absent given h in
      (
        λ post args. ap (λ r. with_token r (λ t. post t args.channel args.text)) b,
        λ search_messages args.
            ap (λ r. with_token r (λ t. matches (search_messages t args.query args.count))) p,
      )
