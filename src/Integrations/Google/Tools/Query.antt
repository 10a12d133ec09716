-- ===== src/Integrations/Google/Tools/Query.antt =====
-- Which queries reach Drive.
use mcp_agent_gateway.Base.{ℕ, String, true, List, [], ◌<>◌, ◌≡◌, refl, ◌⊎◌, inl, inr, Bool-cases}
use mcp_agent_gateway.Base.Result.{Result, ok, raise}
use mcp_agent_gateway.Shared.Store.{Store}
use mcp_agent_gateway.Integrations.Google.DriveQuery.{build_drive_query}
use mcp_agent_gateway.Integrations.Google.DriveQuery.Tokens.{
  Token, Reads, filter_tokens, join_tokens, build_drive_query-Reads,
}
use mcp_agent_gateway.Integrations.Google.TokenStore.{
  GoogleError, oauth_token_not_found_error, oauth_refresh_error, other_error, message, Codec, Post,
  google_shared_user, get_valid_google_token,
}
use mcp_agent_gateway.Integrations.Google.Tools.{
  DriveSearchInput, DriveFile, ApiFile, Invalid, ClientError, Answer, failure, not_authorized,
  place, has_filter, require_filter, drive_token, with_token, with_drive, searched, search_valid,
  handle_drive_search_files,
}

-- a function of the Drive API
abbrev pub Search : Type 0 → Type 0
Search W = String → String → ℕ → W → Result ClientError (List ApiFile) × W

-- the token is there, or there is an answer or an exception in its place
pub drive_token-cases :
    {A : Type 0} (token : Result GoogleError String)
    → ((r : Result String (Answer A)) × (drive_token token ≡ raise r))
      ⊎ ((t : String) × (token ≡ ok t) × (drive_token {A = A} token ≡ ok t))
unfolding drive_token
drive_token-cases (ok t) = inr (t, refl, refl)
drive_token-cases (raise oauth_token_not_found_error) = inl (ok (failure not_authorized), refl)
drive_token-cases (raise oauth_refresh_error) = inl (raise (message oauth_refresh_error), refl)
drive_token-cases (raise (other_error e)) = inl (raise e, refl)

-- the answer of the tool, and what the outside is then
abbrev pub Gives : {A T W : Type 0} → Result String A × (T × W) → Result String A → W → Type 0
Gives x answer w = (x.0 ≡ answer) × (x.1.1 ≡ w)

module _ (S : Store) (c : Codec) (post : Post) (W : Type 0) (s : S.State) (now : ℕ) where
  -- A call of the client with the shared token, or none.
  pub with_drive_cases :
      {A : Type 0}
      → ((r : Result String (Answer A)) × ((call : String → W → Result String (Answer A) × W)
              (w : W)
            → Gives (with_drive S c post s now call w) r w))
        ⊎ ((t : String) × ((get_valid_google_token S c post s now google_shared_user).0 ≡ ok t)
            × ((call : String → W → Result String (Answer A) × W) (w : W)
                → Gives (with_drive S c post s now call w) (call t w).0 (call t w).1))
  unfolding with_drive with_token
  with_drive_cases {A = A} =
      elim (drive_token-cases {A = A}
        (get_valid_google_token S c post s now google_shared_user).0) [
          | inl (r, e) ↦ inl (
            r,
            λ call w. (rw (e, with_drive, with_token) refl, rw (e, with_drive, with_token) refl),
          )
          | inr (t, got, e) ↦ inr (
            t,
            got,
            λ call w. (rw (e, with_drive, with_token) refl, rw (e, with_drive, with_token) refl),
          )
        ]

  -- The call that is made: with the shared token, valid arguments with a filter, and a query that
  -- Drive reads as the clauses of the filters and in no other way.
  abbrev pub SearchCalls : Result Invalid DriveSearchInput → Type 0
  SearchCalls fields =
      (args : DriveSearchInput) × (token q : String) × (fields ≡ ok args)
      × (has_filter args.filters ≡ true)
      × ((get_valid_google_token S c post s now google_shared_user).0 ≡ ok token)
      × Reads q (join_tokens (filter_tokens args.filters))
      × ((ts : List Token) → Reads q ts → ts ≡ join_tokens (filter_tokens args.filters))
      × ((search_files : Search W) (w : W)
          → Gives (handle_drive_search_files S c post search_files s now w fields)
              (searched (search_files token q args.max_results w).0)
              (search_files token q args.max_results w).1)

  -- A search either makes no call, whatever is in the way being answered or raised, or it makes one
  -- call, with the shared token and with a query that Drive reads as the clauses of the filters, at
  -- least one of which is given, and in no other way.
  pub handle_drive_search_files-SearchCalls :
      (fields : Result Invalid DriveSearchInput)
      → ((r : Result String (Answer (List DriveFile))) × ((search_files : Search W) (w : W)
            → Gives (handle_drive_search_files S c post search_files s now w fields) r w))
        ⊎ SearchCalls fields
  unfolding handle_drive_search_files search_valid require_filter
  handle_drive_search_files-SearchCalls (raise e) = inl (_, λ search_files w. (refl, refl))
  handle_drive_search_files-SearchCalls (ok args) = elim (Bool-cases (has_filter args.filters)) [
    | inr without ↦ inl (
      ok (
          failure (
            "Invalid input: " <> place [] <> " — Value error, provide at least one search filter")),
      λ search_files w. (rw without refl, rw without refl),
    )
    | inl given ↦
        let q = build_drive_query args.filters in
        let call : Search W → String → W → Result String (Answer (List DriveFile)) × W =
          λ search_files t w.
            let found = search_files t q args.max_results w in (searched found.0, found.1) in
        elim (with_drive_cases {A = List DriveFile}) [
          | inl (r, e) ↦ inl (r, λ search_files w. rw given (e (call search_files) w))
          | inr (token, got, e) ↦
              let (reads, only) = build_drive_query-Reads args.filters in
              inr (
                args,
                token,
                q,
                refl,
                given,
                got,
                reads,
                only,
                λ search_files w. rw given (e (call search_files) w),
              )
        ]
  ]
