-- ===== src/Authorization/Authorize/Guarded.antt =====
-- Which requests of its own `authorize` makes on behalf of a caller.
use mcp_agent_gateway.Base.{
  ℕ, String, string_eq, or_else, contains, Bool, true, false, Option, none, some, List, [], All,
  All-append, All-mono, ◌≡◌, refl, sym, inl, inr, Bool-cases,
}
use mcp_agent_gateway.Base.Dict.{Dict, lookup}
use mcp_agent_gateway.Base.Result.{Result, ok, raise}
use mcp_agent_gateway.Shared.Store.{Store}
use mcp_agent_gateway.Config.{Settings}
use mcp_agent_gateway.Identity.ClientRegistration.{
  RegistrationError, ClientMetadata, RegisteredClient, Libraries, Outside, Call, got, looked_up,
  posted,
}
use mcp_agent_gateway.Identity.ClientRegistration.Metadata.{fetch_client_metadata}
use mcp_agent_gateway.Identity.ClientRegistration.Registrar.{payload_of, enroll_mcp_client}
use mcp_agent_gateway.Identity.ClientRegistration.Repository as Repository
use mcp_agent_gateway.Identity.ClientRegistration.Guarded.{
  IsSafe, IsGuarded, fetch_client_metadata-IsGuarded,
}
use mcp_agent_gateway.Authorization.{authorize_params_valid}
use mcp_agent_gateway.Authorization.Authorize.{
  query_dict, enrolled, fetched, with_cached, admitted, authorize,
}

module _ (S : Store) (c : Repository.Codec) (settings : Settings) (lib : Libraries)
    (outside : Outside) where
  -- A GET is a safe one of the URL. A POST goes to the registration endpoint, with the fields of the
  -- document at the URL, among whose redirect URIs is the one of the request.
  abbrev pub IsAllowed : String → String → Call → Type 0
  IsAllowed url uri (got target) = (target ≡ url) × IsSafe lib outside url
  IsAllowed url uri (looked_up host) = Unit
  IsAllowed url uri (posted endpoint payload authorization) =
      (metadata : ClientMetadata) × ((fetch_client_metadata lib outside settings.debug url).0
        ≡ ok metadata)
      × (contains metadata.redirect_uris uri ≡ true)
      × (endpoint ≡ settings.dcr_registration_endpoint)
      × (payload ≡ payload_of metadata)

  IsAllowed-IsGuarded :
      (url uri : String) (call : Call) → IsGuarded lib outside url call → IsAllowed url uri call
  IsAllowed-IsGuarded url uri (got target) h = h
  IsAllowed-IsGuarded url uri (looked_up host) h = tt
  IsAllowed-IsGuarded url uri (posted endpoint payload authorization) h = absurd h

  enrolled-IsAllowed :
      (s : S.State) (later : ℕ) (url uri : String) (calls : List Call)
      (answer : Result RegistrationError RegisteredClient × List Call)
      → All (IsAllowed url uri) calls
      → All (IsAllowed url uri) answer.1
      → All (IsAllowed url uri) (enrolled S c settings s later url calls answer).calls
  unfolding enrolled
  enrolled-IsAllowed s later url uri calls (raise e, posts) before after =
      All-append (IsAllowed url uri) calls posts before after
  enrolled-IsAllowed s later url uri calls (ok client, posts) before after =
      All-append (IsAllowed url uri) calls posts before after

  fetched-IsAllowed :
      (s : S.State) (later : ℕ) (url uri : String)
      (answer : Result RegistrationError ClientMetadata × List Call)
      → answer.0 ≡ (fetch_client_metadata lib outside settings.debug url).0
      → All (IsAllowed url uri) answer.1
      → All (IsAllowed url uri) (fetched S c settings outside s later url uri answer).calls
  unfolding fetched enroll_mcp_client
  fetched-IsAllowed s later url uri (raise e, calls) same before = before
  fetched-IsAllowed s later url uri (ok metadata, calls) same before =
      elim (Bool-cases (contains metadata.redirect_uris uri)) [
        | inl allowed ↦ rw allowed (
            enrolled-IsAllowed s later url uri calls _ before
              ((metadata, sym same, allowed, refl, refl), tt))
        | inr no_member ↦ rw no_member before
      ]

  with_cached-IsAllowed :
      (later : ℕ) (url uri : String) (cached : Option RegisteredClient × S.State)
      → settings.debug ≡ false
      → All (IsAllowed url uri) (with_cached S c settings lib outside later url uri cached).calls
  unfolding with_cached
  with_cached-IsAllowed later url uri (some client, s) h = tt
  with_cached-IsAllowed later url uri (none, s) h =
      let answer = fetch_client_metadata lib outside settings.debug url in
      fetched-IsAllowed s later url uri answer refl (
        All-mono (IsGuarded lib outside url) (IsAllowed url uri) answer.1
          (IsAllowed-IsGuarded url uri) (rw h (fetch_client_metadata-IsGuarded lib outside url)))

  admitted-IsAllowed :
      (s : S.State) (now later : ℕ) (params : Dict String String) (url uri : String)
      (test : Option Bool)
      → settings.debug ≡ false
      → All
          (IsAllowed url uri)
          (admitted S c settings lib outside s now later params url uri test).calls
  unfolding admitted
  admitted-IsAllowed s now later params url uri none h = tt
  admitted-IsAllowed s now later params url uri (some false) h = tt
  admitted-IsAllowed s now later params url uri (some true) h =
      with_cached-IsAllowed later url uri (Repository.get S c s now url) h

  -- Outside of debug mode, every GET that `authorize` makes goes to the URL that is the request's
  -- `client_id`, which then has the scheme https and a host that resolves to at least one address,
  -- all of them public. Every POST goes to the registration endpoint of the settings, with the
  -- fields of the document at that URL, and only if the request's `redirect_uri` is one of the
  -- document's.
  pub authorize-IsAllowed :
      (decodes : String → Bool) (s : S.State) (now later : ℕ) (query : List (String × String))
      → settings.debug ≡ false
      → let params = query_dict query [] in
        All
          (IsAllowed
            (or_else (lookup "client_id" params) "")
            (or_else (lookup "redirect_uri" params) ""))
          (authorize S c settings decodes lib outside s now later query).calls
  unfolding authorize
  authorize-IsAllowed decodes s now later query h =
      elim (Bool-cases (authorize_params_valid decodes (query_dict query [])).0) [
        | inr failed ↦ rw failed tt
        | inl passed ↦ rw passed (admitted-IsAllowed s now later _ _ _ _ h)
      ]
