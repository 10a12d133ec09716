-- ===== src/Authorization/Authorize/Redirects.antt =====
-- Where `authorize` sends a user, and as which client.
use mcp_agent_gateway.Base.{
  ℕ, String, string_eq, or_else, contains, Bool, true, false, Option, none, some, List, [], ◌≡◌,
  refl, sym, ◌∙◌, ap, ◌⊎◌, inl, inr, Bool-cases, arith,
}
use mcp_agent_gateway.Base.Dict.{Dict, lookup, insert}
use mcp_agent_gateway.Base.Result.{Result, ok, raise, Result-cases}
use mcp_agent_gateway.Shared.Store.{Store}
use mcp_agent_gateway.Config.{Settings}
use mcp_agent_gateway.Identity.ClientRegistration.{
  RegistrationError, ClientMetadata, RegisteredClient, Value, Libraries, Outside, Call,
}
use mcp_agent_gateway.Identity.ClientRegistration.Metadata.{fetch_client_metadata}
use mcp_agent_gateway.Identity.ClientRegistration.Registrar.{
  payload_of, read_registration, registered_client, enroll_mcp_client,
}
use mcp_agent_gateway.Identity.ClientRegistration.Repository as Repository
use mcp_agent_gateway.Authorization.{authorize_params_valid}
use mcp_agent_gateway.Authorization.Authorize.{
  Refused, oauth_error, escaped, redirect, error_response, keycloak_authorize, query_dict, is_url,
  enrolled, fetched, with_cached, redirected, admitted, authorize,
}

-- A client that the registration endpoint returns has the redirect URIs of the document.
registered_client-redirect_uris :
    (metadata : ClientMetadata) (fields : Dict String Value) (client : RegisteredClient)
    → registered_client metadata fields ≡ ok client
    → client.redirect_uris ≡ metadata.redirect_uris
unfolding registered_client
registered_client-redirect_uris metadata fields client h = ground arith

module _ (S : Store) (c : Repository.Codec) (settings : Settings) (lib : Libraries)
    (outside : Outside) where
  abbrev pub registration : ClientMetadata → Result RegistrationError RegisteredClient × List Call
  registration =
      enroll_mcp_client outside settings.dcr_registration_endpoint settings.dcr_initial_access_token

  -- the client of a URL: the registry has it, or it was registered with the document at the URL
  pub data Known (s : S.State) (now : ℕ) (url : String) (client : RegisteredClient) : Type 0 where
    cached : (Repository.get S c s now url).0 ≡ some client → Known s now url client
    fresh :
        (metadata : ClientMetadata)
        → (fetch_client_metadata lib outside settings.debug url).0 ≡ ok metadata
        → client.redirect_uris ≡ metadata.redirect_uris
        → (registration metadata).0 ≡ ok client
        → Known s now url client

  enroll_mcp_client-redirect_uris :
      (endpoint token : String) (metadata : ClientMetadata) (client : RegisteredClient)
      → (enroll_mcp_client outside endpoint token metadata).0 ≡ ok client
      → client.redirect_uris ≡ metadata.redirect_uris
  unfolding enroll_mcp_client
  enroll_mcp_client-redirect_uris endpoint token metadata client h =
      elim (Result-cases (read_registration (outside.post (payload_of metadata)))) [
        | inr (e, refused) ↦ absurd (ground arith)
        | inl (fields, e) ↦ registered_client-redirect_uris metadata fields client (ground arith)
      ]

  enrolled-answer :
      (s : S.State) (later : ℕ) (url : String) (calls : List Call)
      (answer : Result RegistrationError RegisteredClient × List Call) (client : RegisteredClient)
      → (enrolled S c settings s later url calls answer).answer ≡ ok client
      → answer.0 ≡ ok client
  unfolding enrolled
  enrolled-answer s later url calls (raise e, posts) client h = absurd (cc)
  enrolled-answer s later url calls (ok registered, posts) client h = ground arith

  fetched-answer :
      (s : S.State) (later : ℕ) (url uri : String)
      (answer : Result RegistrationError ClientMetadata × List Call) (client : RegisteredClient)
      → (fetched S c settings outside s later url uri answer).answer ≡ ok client
      → (metadata : ClientMetadata) × (answer.0 ≡ ok metadata)
        × (contains metadata.redirect_uris uri ≡ true)
        × ((registration metadata).0 ≡ ok client)
  unfolding fetched
  fetched-answer s later url uri (raise e, calls) client h = absurd (cc)
  fetched-answer s later url uri (ok metadata, calls) client h =
      elim (Bool-cases (contains metadata.redirect_uris uri)) [
        | inr refused ↦ absurd (ground arith)
        | inl allowed ↦
            let h' : (enrolled S c settings s later url calls (registration metadata)).answer
                ≡ ok client =
              ground arith in
            (metadata, refl, allowed, enrolled-answer s later url calls _ client h')
      ]

  -- the client is known, and the redirect URI is one of its own
  abbrev pub IsRegistered : S.State → ℕ → String → String → RegisteredClient → Type 0
  IsRegistered s now url uri client =
      Known s now url client × (contains client.redirect_uris uri ≡ true)

  pub with_cached-IsRegistered :
      (s : S.State) (now later : ℕ) (url uri : String) (found : Option RegisteredClient × S.State)
      (client : RegisteredClient)
      → found ≡ Repository.get S c s now url
      → (with_cached S c settings lib outside later url uri found).answer ≡ ok client
      → IsRegistered s now url uri client
  unfolding with_cached
  with_cached-IsRegistered s now later url uri (some known, s') client e h =
      elim (Bool-cases (contains known.redirect_uris uri)) [
        | inr refused ↦ absurd (ground arith)
        | inl allowed ↦ (cached (ap (λ p. p.0) (sym e) ∙ ground arith), ground arith)
      ]
  with_cached-IsRegistered s now later url uri (none, s') client e h =
      let (metadata, f, allowed, r) = fetched-answer s' later url uri _ client h in
      let same = enroll_mcp_client-redirect_uris _ _ metadata client r in
      (fresh metadata f same r, rw same allowed)

  -- what a redirection carries: the request's parameters, with the registered client's id in place
  -- of a URL
  abbrev pub IsSent : S.State → ℕ → Dict String String → Dict String String → Option Bool → Type 0
  IsSent s now params sent test =
      ((test ≡ some false) × (sent ≡ params))
      ⊎ ((test ≡ some true)
          × ((client : RegisteredClient) × IsRegistered s now
                (or_else (lookup "client_id" params) "") (or_else (lookup "redirect_uri" params) "")
                client
              × (sent ≡ insert "client_id" client.client_id params)))

  pub redirected-eq-redirect :
      (params sent : Dict String String) (target : String) (r : Result Refused RegisteredClient)
      → redirected S c settings params r ≡ redirect target sent
      → (client : RegisteredClient) × (r ≡ ok client)
        × (target ≡ keycloak_authorize settings)
        × (sent ≡ insert "client_id" client.client_id params)
  unfolding redirected error_response
  redirected-eq-redirect params sent target (raise (escaped name)) h = absurd (cc)
  redirected-eq-redirect params sent target (raise (oauth_error error description)) h =
      absurd (ground arith)
  redirected-eq-redirect params sent target (ok client) h =
      (client, refl, ground arith, ground arith)

  admitted-IsSent :
      (s : S.State) (now later : ℕ) (params sent : Dict String String) (target : String)
      (test : Option Bool)
      → (admitted S c settings lib outside s now later params
          (or_else (lookup "client_id" params) "")
          (or_else (lookup "redirect_uri" params) "")
          test).answer
        ≡ redirect target sent
      → (target ≡ keycloak_authorize settings) × IsSent s now params sent test
  unfolding admitted
  admitted-IsSent s now later params sent target none h = absurd (cc)
  admitted-IsSent s now later params sent target (some false) h =
      (ground arith, inl (refl, ground arith))
  admitted-IsSent s now later params sent target (some true) h =
      let (client, e, t, p) = redirected-eq-redirect params sent target _ h in
      (t, inr (refl, (client, with_cached-IsRegistered s now later _ _ _ client refl e, p)))

  -- A redirection of `authorize` goes to Keycloak's authorization endpoint, for a request whose
  -- parameters have passed the check. A `client_id` that is no URL is sent on with all parameters
  -- as they are. For one that is a URL, a client is known, from the registry or by a registration
  -- with the document at the URL, the request's `redirect_uri` is one of that client's, and the
  -- parameters sent are the request's with the client's id as `client_id`.
  pub authorize-IsSent :
      (decodes : String → Bool) (s : S.State) (now later : ℕ) (query : List (String × String))
      (target : String) (sent : Dict String String)
      → (authorize S c settings decodes lib outside s now later query).answer ≡ redirect target sent
      → let params = query_dict query [] in
        (target ≡ keycloak_authorize settings)
        × ((authorize_params_valid decodes params).0 ≡ true)
        × IsSent s now params sent (is_url lib (or_else (lookup "client_id" params) ""))
  unfolding authorize error_response
  authorize-IsSent decodes s now later query target sent h =
      elim (Bool-cases (authorize_params_valid decodes (query_dict query [])).0) [
        | inr bad ↦ absurd (ground arith)
        | inl passed ↦
            let (t, p) = admitted-IsSent s now later _ sent target _ (ground arith) in
            (t, passed, p)
      ]
