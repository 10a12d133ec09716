-- ===== src/Authorization/Authorize/Repeated.antt =====
-- What a second authorization request finds after the first has registered the client.
use mcp_agent_gateway.Base.{
  ℕ, ◌+◌, ◌*◌, ◌≤◌, ◌<◌, String, string_eq, or_else, contains, Bool, true, Option, none, some, List,
  [], ◌≡◌, refl, sym, ◌∙◌, ap, inl, inr, Bool-cases, arith,
}
use mcp_agent_gateway.Base.Dict.{Dict, lookup}
use mcp_agent_gateway.Base.Result.{Result, ok, raise}
use mcp_agent_gateway.Shared.Store.{Store, Contract}
use mcp_agent_gateway.Config.{Settings}
use mcp_agent_gateway.Identity.ClientRegistration.{
  RegistrationError, ClientMetadata, RegisteredClient, Libraries, Outside, Call,
}
use mcp_agent_gateway.Identity.ClientRegistration.Repository as Repository
use mcp_agent_gateway.Identity.ClientRegistration.Repository.{ttl_or}
use mcp_agent_gateway.Authorization.{authorize_params_valid}
use mcp_agent_gateway.Authorization.Authorize.{
  redirect, error_response, query_dict, is_url, enrolled, fetched, with_cached, redirected,
  admitted, authorize,
}
use mcp_agent_gateway.Authorization.Authorize.Redirects.{
  redirected-eq-redirect, with_cached-IsRegistered,
}

module _ (S : Store) (c : Repository.Codec) (settings : Settings) where
  -- the registration is kept, until its time to live is over
  abbrev pub Kept : S.State → ℕ → String → RegisteredClient → S.State → Type 0
  Kept s later url client s' =
      s' ≡ Repository.set S c s later settings.client_registry_ttl url client none

  enrolled-Kept :
      (s : S.State) (later : ℕ) (url : String) (calls : List Call)
      (answer : Result RegistrationError RegisteredClient × List Call) (client : RegisteredClient)
      → (enrolled S c settings s later url calls answer).answer ≡ ok client
      → Kept s later url client (enrolled S c settings s later url calls answer).store
  unfolding enrolled
  enrolled-Kept s later url calls (raise e, posts) client h = absurd (cc)
  enrolled-Kept s later url calls (ok registered, posts) client h =
      let same : registered ≡ client = ground arith in rw same refl

  fetched-Kept :
      (outside : Outside) (s : S.State) (later : ℕ) (url uri : String)
      (answer : Result RegistrationError ClientMetadata × List Call) (client : RegisteredClient)
      → (fetched S c settings outside s later url uri answer).answer ≡ ok client
      → Kept s later url client (fetched S c settings outside s later url uri answer).store
  unfolding fetched
  fetched-Kept outside s later url uri (raise e, calls) client h = absurd (cc)
  fetched-Kept outside s later url uri (ok metadata, calls) client h =
      elim (Bool-cases (contains metadata.redirect_uris uri)) [
        | inr no_member ↦ absurd (ground arith)
        | inl allowed ↦
            let h' = rw allowed at h in rw allowed (enrolled-Kept s later url calls _ client h')
      ]

  with_cached-Kept :
      (lib : Libraries) (outside : Outside) (later : ℕ) (url uri : String)
      (found : Option RegisteredClient × S.State) (client : RegisteredClient)
      → found.0 ≡ none
      → (with_cached S c settings lib outside later url uri found).answer ≡ ok client
      → Kept found.1 later url client
          (with_cached S c settings lib outside later url uri found).store
  unfolding with_cached
  with_cached-Kept lib outside later url uri (some known, s) client n h = absurd (cc)
  with_cached-Kept lib outside later url uri (none, s) client n h =
      fetched-Kept outside s later url uri _ client h

  module _ (C : Contract S) (law : Repository.IsLawful c) where
    get-set :
        (s : S.State) (later again : ℕ) (url : String) (client : RegisteredClient)
        → later ≤ again
        → again < later + settings.client_registry_ttl * 1000
        → (Repository.get S c
            (Repository.set S c s later settings.client_registry_ttl url client none)
            again
            url).0
          ≡ some client
    unfolding Repository.get Repository.set ttl_or
    get-set s later again url client h l =
        rw
          (
            C.get_result (S.set s later url (c.dumps client) (some settings.client_registry_ttl))
                again url,
            C.view-set_fresh s later again url (c.dumps client) settings.client_registry_ttl h l,
          )
          (law.loads-dumps client)

    with_cached-known :
        (lib : Libraries) (outside : Outside) (later : ℕ) (url uri : String)
        (found : Option RegisteredClient × S.State) (client : RegisteredClient)
        → found.0 ≡ some client
        → contains client.redirect_uris uri ≡ true
        → ((with_cached S c settings lib outside later url uri found).answer ≡ ok client)
          × ((with_cached S c settings lib outside later url uri found).calls ≡ [])
    unfolding with_cached
    with_cached-known lib outside later url uri (none, s) client e allowed = absurd (cc)
    with_cached-known lib outside later url uri (some known, s) client e allowed =
        let same : known ≡ client = ground arith in (rw (same, allowed) refl, refl)

    -- the second look into the registry, after the first has registered the client
    with_cached_again :
        (lib : Libraries) (first second : Outside) (s : S.State) (now later again last : ℕ)
        (url uri : String) (client : RegisteredClient)
        → (Repository.get S c s now url).0 ≡ none
        → later ≤ again
        → again < later + settings.client_registry_ttl * 1000
        → let run =
            with_cached S c settings lib first later url uri (Repository.get S c s now url) in
          let next =
            with_cached S c settings lib second last url uri
              (Repository.get S c run.store again url) in
          run.answer ≡ ok client → (next.answer ≡ ok client) × (next.calls ≡ [])
    with_cached_again lib first second s now later again last url uri client n h l e =
        let (known, allowed) =
          with_cached-IsRegistered S c settings lib first s now later url uri _ client refl e in
        with_cached-known lib second last url uri _ client
          (rw (with_cached-Kept lib first later url uri _ client n e)
            (get-set (Repository.get S c s now url).1 later again url client h l))
          allowed

    -- On a store that keeps its contract and with a codec that reads back what it wrote: when the
    -- registry has no registration of the URL that is the request's `client_id` and `authorize`
    -- redirects, then the same request, made again before the time to live of the registration is
    -- over, gets the same redirection and nothing is asked of the outside, whatever that would
    -- answer by then.
    pub authorize_again :
        (decodes : String → Bool) (lib : Libraries) (first second : Outside) (s : S.State)
        (now later again last : ℕ) (query : List (String × String)) (target : String)
        (sent : Dict String String)
        → let params = query_dict query [] in
          let url = or_else (lookup "client_id" params) "" in
          let run = authorize S c settings decodes lib first s now later query in
          let next = authorize S c settings decodes lib second run.store again last query in
          is_url lib url ≡ some true
          → (Repository.get S c s now url).0 ≡ none
          → later ≤ again
          → again < later + settings.client_registry_ttl * 1000
          → run.answer ≡ redirect target sent
          → (next.answer ≡ redirect target sent) × (next.calls ≡ [])
    unfolding authorize admitted error_response
    authorize_again decodes lib first second s now later again last query target sent u n h l e =
        let params = query_dict query [] in
        let url = or_else (lookup "client_id" params) "" in
        let uri = or_else (lookup "redirect_uri" params) "" in
        elim (Bool-cases (authorize_params_valid decodes params).0) [
          | inr bad ↦ absurd (ground arith)
          | inl passed ↦
              let e' : redirected S c settings params
                    (with_cached S c settings lib first later url uri
                      (Repository.get S c s now url)).answer
                  ≡ redirect target sent =
                (let r = rw (passed, u) at e in r) in
              let (client, k, _, _) =
                redirected-eq-redirect S c settings lib first params sent target _ e' in
              let (same, silent) =
                with_cached_again lib first second s now later again last url uri client n h l k in
              rw (passed, u) (ap (redirected S c settings params) (same ∙ sym k) ∙ e', silent)
        ]
