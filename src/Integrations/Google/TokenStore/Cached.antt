-- ===== src/Integrations/Google/TokenStore/Cached.antt =====
-- What a call leaves in the store, and what the next call makes of it.
use mcp_agent_gateway.Base.{
  ℕ, ◌+◌, ◌*◌, ◌≤◌, ◌<◌, ltb, String, string_eq, none, some, ◌≡◌, ◌≢◌, refl, ap, ◌∙◌, inl, inr,
  Bool-cases, Option-cases, arith,
}
use mcp_agent_gateway.Base.Result.{Result, ok, raise, ◌>>=◌}
use mcp_agent_gateway.Shared.Store.{Store, Contract}
use mcp_agent_gateway.Integrations.Google.TokenStore.{
  GoogleError, TokenData, Reply, Codec, IsLawful, Post, refreshed, keep, use_data,
  get_valid_google_token,
}

module _ (S : Store) (K : Contract S) (c : Codec) (law : IsLawful c) where
  -- a token that is good for another minute is answered as it is
  good_token :
      (post : Post) (s : S.State) (now : ℕ) (user_id : String) (d : TokenData)
      → K.view s now user_id ≡ some (c.dumps d)
      → now + 60 * 1000 < d.expires_at
      → get_valid_google_token S c post s now user_id ≡ (ok d.access_token, (S.get s now user_id).1)
  unfolding get_valid_google_token use_data
  good_token post s now user_id d h l =
      ground (arith, K.get_result s now user_id, law.loads-dumps d)

  -- a token that is not is refreshed
  pub stale_token :
      (post : Post) (s : S.State) (now : ℕ) (user_id : String) (d : TokenData)
      → K.view s now user_id ≡ some (c.dumps d)
      → d.expires_at ≤ now + 60 * 1000
      → get_valid_google_token S c post s now user_id
        ≡ keep S c
            (S.get s now user_id).1
            now
            user_id
            (c.decrypt d.refresh_token_enc >>= λ r. post r >>= refreshed now d)
  unfolding get_valid_google_token use_data
  stale_token post s now user_id d h l =
      ground (arith, K.get_result s now user_id, law.loads-dumps d)

  -- In a store that keeps the contract, with a lawful codec, a token that has at most a minute left
  -- is refreshed, with the refresh token that is stored; and if the answer makes new data, then
  -- every later call answers the new token, without another request, until a minute before it
  -- expires.
  pub refreshed-kept :
      (post : Post) (s : S.State) (now : ℕ) (user_id r : String) (d d' : TokenData) (reply : Reply)
      → K.view s now user_id ≡ some (c.dumps d)
      → d.expires_at ≤ now + 60 * 1000
      → c.decrypt d.refresh_token_enc ≡ ok r
      → post r ≡ ok reply
      → refreshed now d reply ≡ ok d'
      → ((get_valid_google_token S c post s now user_id).0 ≡ ok d'.access_token)
        × ((any_post : Post) (u : ℕ)
            → now ≤ u
            → u + 60 * 1000 < d'.expires_at
            → (get_valid_google_token S c any_post
                (get_valid_google_token S c post s now user_id).1
                u
                user_id).0
              ≡ ok d'.access_token)
  unfolding keep
  refreshed-kept post s now user_id r d d' reply h l dec answered made =
      let e : get_valid_google_token S c post s now user_id
          ≡ keep S c (S.get s now user_id).1 now user_id (ok d') =
        stale_token post s now user_id d h l ∙ rw (dec, answered, made) refl in
      (
        ap (λ x. x.0) e,
        λ any_post u later l'. rw e (
            ap (λ x. x.0)
              (good_token any_post (S.set (S.get s now user_id).1 now user_id (c.dumps d') none) u
                user_id d'
                (K.view-set_forever (S.get s now user_id).1 now u user_id (c.dumps d') later) l')),
      )

  -- the state after the data has been read
  abbrev After : S.State → ℕ → String → Result GoogleError String × S.State → Type 0
  After s now user_id r =
      (u : ℕ) (j : String)
      → now ≤ u
      → ((j ≢ user_id) → K.view r.1 u j ≡ K.view s u j)
        × ((e : GoogleError) → r.0 ≡ raise e → K.view r.1 u j ≡ K.view s u j)

  keep-After :
      (s : S.State) (now : ℕ) (user_id : String) (m : Result GoogleError TokenData)
      → After s now user_id (keep S c s now user_id m)
  unfolding keep
  keep-After s now user_id (raise e) u j h = (λ n. refl, λ e' p. refl)
  keep-After s now user_id (ok d) u j h =
      (λ n. K.view-set_ne s now u user_id (c.dumps d) none j h n, λ e p. ground arith)

  use_data-After :
      (post : Post) (s : S.State) (now : ℕ) (user_id : String) (m : Result GoogleError TokenData)
      → After s now user_id (use_data S c post s now user_id m)
  unfolding use_data
  use_data-After post s now user_id (raise e) u j h = (λ n. refl, λ e' p. refl)
  use_data-After post s now user_id (ok d) u j h =
      elim (Bool-cases (ltb (now + 60 * 1000) d.expires_at)) [
        | inl good ↦ rw good (λ n. refl, λ e' p. refl)
        | inr stale ↦ rw stale (
            keep-After s now user_id
              (c.decrypt d.refresh_token_enc >>= λ r. post r >>= refreshed now d) u j h)
      ]

  -- In a store that keeps the contract, a call changes what is stored for its own user only, and
  -- nothing at all when it raises.
  pub get_valid_google_token-After :
      (post : Post) (s : S.State) (now : ℕ) (user_id : String) (u : ℕ) (j : String)
      → now ≤ u
      → ((j ≢ user_id)
          → K.view (get_valid_google_token S c post s now user_id).1 u j ≡ K.view s u j)
        × ((e : GoogleError)
            → (get_valid_google_token S c post s now user_id).0 ≡ raise e
            → K.view (get_valid_google_token S c post s now user_id).1 u j ≡ K.view s u j)
  unfolding get_valid_google_token
  get_valid_google_token-After post s now user_id u j h =
      let read = K.view-get s now u user_id j h in
      elim (Option-cases (S.get s now user_id).0) [
        | inl missing ↦ rw (missing, get_valid_google_token) (λ n. read, λ e p. read)
        | inr (text, found) ↦
            let (a, b) =
              use_data-After post (S.get s now user_id).1 now user_id (c.loads text) u j h in
            rw (found, get_valid_google_token) (λ n. a n ∙ read, λ e p. b e p ∙ read)
      ]
