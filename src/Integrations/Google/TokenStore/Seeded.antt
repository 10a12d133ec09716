-- ===== src/Integrations/Google/TokenStore/Seeded.antt =====
-- The shared token at the start of the gateway.
use mcp_agent_gateway.Base.{
  ℕ, ◌≤◌, String, string_eq, truthy, true, none, some, ◌≡◌, refl, ap, ◌∙◌, arith,
}
use mcp_agent_gateway.Base.Result.{Result, ok, raise, ◌>>=◌}
use mcp_agent_gateway.Shared.Store.{Store, Contract}
use mcp_agent_gateway.Integrations.Google.TokenStore.{
  GoogleError, TokenData, Codec, IsLawful, Post, refreshed, keep, get_valid_google_token,
  google_shared_user, seed_refresh_token, seed_shared_token_if_absent,
}
use mcp_agent_gateway.Integrations.Google.TokenStore.Cached.{stale_token}

module _ (S : Store) (K : Contract S) (c : Codec) (law : IsLawful c) where
  -- the data that a refresh token is stored with
  abbrev pub seed : String → TokenData
  seed refresh_token = record {
    access_token = "";
    refresh_token_enc = c.encrypt refresh_token;
    expires_at = 0;
  }

  keep_result :
      (s : S.State) (now : ℕ) (user_id : String) (m : Result GoogleError TokenData)
      → (keep S c s now user_id m).0 ≡ (m >>= λ d. ok d.access_token)
  unfolding keep
  keep_result s now user_id (ok d) = refl
  keep_result s now user_id (raise e) = refl

  seeded_view :
      (s : S.State) (now u : ℕ) (refresh_token : String)
      → now ≤ u
      → K.view (seed_refresh_token S c s now refresh_token) u google_shared_user
        ≡ some (c.dumps (seed refresh_token))
  unfolding seed_refresh_token
  seeded_view s now u refresh_token h =
      K.view-set_forever s now u google_shared_user (c.dumps (seed refresh_token)) h

  -- In a store that keeps the contract, with a lawful codec, seeding a token that is not empty
  -- leaves a token that is there as it is. If none is there, the next call for the shared user, at
  -- any later instant, asks Google for a token with the refresh token that was given.
  pub seed_shared_token_if_absent_lem :
      (s : S.State) (now : ℕ) (refresh_token : String)
      → truthy refresh_token ≡ true
      → ((v : String) (u : ℕ) (j : String)
          → K.view s now google_shared_user ≡ some v
          → now ≤ u
          → K.view (seed_shared_token_if_absent S c s now (some refresh_token)) u j ≡ K.view s u j)
        × ((post : Post) (u : ℕ)
            → K.view s now google_shared_user ≡ none
            → now ≤ u
            → (get_valid_google_token S c post
                (seed_shared_token_if_absent S c s now (some refresh_token))
                u
                google_shared_user).0
              ≡ (post refresh_token >>= refreshed u (seed refresh_token) >>= λ d.
                  ok d.access_token))
  unfolding seed_shared_token_if_absent
  seed_shared_token_if_absent_lem s now refresh_token t = (
    λ v u j there h.
        let same : seed_shared_token_if_absent S c s now (some refresh_token)
            ≡ (S.get s now google_shared_user).1 =
          ground (arith, K.get_result s now google_shared_user) in
        ap (λ s'. K.view s' u j) same ∙ K.view-get s now u google_shared_user j h,
    λ post u absent h.
        let s' : S.State =
          seed_refresh_token S c (S.get s now google_shared_user).1 now refresh_token in
        let seeded : seed_shared_token_if_absent S c s now (some refresh_token) ≡ s' =
          ground (arith, K.get_result s now google_shared_user) in
        ap (λ x. (get_valid_google_token S c post x u google_shared_user).0) seeded
        ∙ ap (λ x. x.0)
            (stale_token S K c law post s' u google_shared_user (seed refresh_token)
              (seeded_view (S.get s now google_shared_user).1 now u refresh_token h) (omega arith))
        ∙ keep_result (S.get s' u google_shared_user).1 u google_shared_user (
            c.decrypt (c.encrypt refresh_token) >>= λ r.
            post r >>= refreshed u (seed refresh_token))
        ∙ rw law.decrypt-encrypt refl,
  )
