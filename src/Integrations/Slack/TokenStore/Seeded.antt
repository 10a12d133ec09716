-- ===== src/Integrations/Slack/TokenStore/Seeded.antt =====
-- The shared tokens at the start of the gateway, and what a later call finds.
use mcp_agent_gateway.Base.{
  ℕ, ◌≤◌, String, string_eq, truthy, ◌<>◌, or_else, false, ◌&&◌, not, Option, none, some, ◌≡◌, refl,
  ap, ◌∙◌, inl, inr, Bool-cases, arith, if◌then◌else◌,
}
use mcp_agent_gateway.Base.Result.{Result, ok, raise}
use mcp_agent_gateway.Shared.Store.{Store, Contract}
use mcp_agent_gateway.Integrations.Slack.TokenStore.{
  SlackError, slack_token_not_found_error, Codec, IsLawful, slack_shared_user, token_of, decrypted,
  read_token, encrypted, seed_data, get_valid_slack_token, seed_shared_slack_tokens_if_absent,
}

-- what a call answers for a token that was or was not given at the start
abbrev pub provisioned : String → Option String → Result SlackError String
provisioned token_type token =
    if truthy (or_else token "")
    then ok (or_else token "")
    else raise (slack_token_not_found_error ("Slack " <> token_type <> " token not provisioned"))

module _ (S : Store) (K : Contract S) (c : Codec) (law : IsLawful c) where
  decrypted-encrypted :
      (token_type : String) (token : Option String)
      → decrypted c token_type (encrypted c token) ≡ provisioned token_type token
  unfolding decrypted encrypted or_else
  decrypted-encrypted token_type none = refl
  decrypted-encrypted token_type (some token) = elim (Bool-cases (truthy token)) [
    | inl given ↦ rw given (law.decrypt-encrypt token)
    | inr empty ↦ rw empty refl
  ]

  read_token-seed_data :
      (bot_token user_token : Option String)
      → (read_token c "bot" (some (c.dumps (seed_data c bot_token user_token)))
          ≡ provisioned "bot" bot_token)
        × (read_token c "user" (some (c.dumps (seed_data c bot_token user_token)))
            ≡ provisioned "user" user_token)
  unfolding read_token
  read_token-seed_data bot_token user_token = (
    rw (law.loads-dumps (seed_data c bot_token user_token))
        (unfold token_of string_eq seed_data in decrypted-encrypted "bot" bot_token),
    rw (law.loads-dumps (seed_data c bot_token user_token))
        (unfold token_of string_eq seed_data in decrypted-encrypted "user" user_token),
  )

  seeded_view :
      (s : S.State) (now u : ℕ) (bot_token user_token : Option String)
      → K.view s now slack_shared_user ≡ none
      → (not (truthy (or_else bot_token "")) && not (truthy (or_else user_token ""))) ≡ false
      → now ≤ u
      → K.view
          (seed_shared_slack_tokens_if_absent c S s now bot_token user_token)
          u
          slack_shared_user
        ≡ some (c.dumps (seed_data c bot_token user_token))
  unfolding seed_shared_slack_tokens_if_absent
  seeded_view s now u bot_token user_token absent given h = ground (
    arith,
    K.get_result s now slack_shared_user,
    K.view-set_forever (S.get s now slack_shared_user).1 now u slack_shared_user
        (c.dumps (seed_data c bot_token user_token)) h,
  )

  valid_token :
      (s : S.State) (u : ℕ) (token_type : String)
      → (get_valid_slack_token c S s u slack_shared_user token_type).0
        ≡ read_token c token_type (K.view s u slack_shared_user)
  unfolding get_valid_slack_token
  valid_token s u token_type = ap (read_token c token_type) (K.get_result s u slack_shared_user)

  -- In a store that keeps the contract, with a lawful codec, when one of the two tokens at least is
  -- given and none is stored, then at every later instant the call for each type answers exactly
  -- the token that was given for it, and says that it is not provisioned if it was not given.
  pub seeded-provisioned :
      (s : S.State) (now u : ℕ) (bot_token user_token : Option String)
      → K.view s now slack_shared_user ≡ none
      → (not (truthy (or_else bot_token "")) && not (truthy (or_else user_token ""))) ≡ false
      → now ≤ u
      → ((get_valid_slack_token c S
            (seed_shared_slack_tokens_if_absent c S s now bot_token user_token)
            u
            slack_shared_user
            "bot").0
          ≡ provisioned "bot" bot_token)
        × ((get_valid_slack_token c S
              (seed_shared_slack_tokens_if_absent c S s now bot_token user_token)
              u
              slack_shared_user
              "user").0
            ≡ provisioned "user" user_token)
  seeded-provisioned s now u bot_token user_token absent given h =
      let s' = seed_shared_slack_tokens_if_absent c S s now bot_token user_token in
      let found = seeded_view s now u bot_token user_token absent given h in
      let (b, p) = read_token-seed_data bot_token user_token in
      (
        valid_token s' u "bot" ∙ ap (read_token c "bot") found ∙ b,
        valid_token s' u "user" ∙ ap (read_token c "user") found ∙ p,
      )
