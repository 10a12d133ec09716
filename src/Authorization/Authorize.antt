-- ===== src/Authorization/Authorize.antt =====
-- app/authorization/router.py: the routes. An answer of `authorize` comes with the state of the
-- client registry and what was asked of the outside. The registry is read at the instant `now` and
-- written at the instant `later`.
pub mod Redirects
pub mod Guarded
pub mod Repeated
use mcp_agent_gateway.Base.{
  ℕ, String, string_eq, truthy, ◌<>◌, ◌==◌, ◌&&◌, ◌||◌, or_else, has_text, contains, Bool, true,
  false, Option, none, some, List, [], ◌∷◌, ◌++◌, if◌then◌else◌,
}
use mcp_agent_gateway.Base.Dict.{Dict, lookup, insert}
use mcp_agent_gateway.Base.Result.{Result, ok, raise}
use mcp_agent_gateway.Config.{Settings}
use mcp_agent_gateway.Shared.Store.{Store}
use mcp_agent_gateway.Identity.ClientRegistration.{
  RegistrationError, validation_error, fetch_error, dcr_registration_error, unexpected,
  ClientMetadata, RegisteredClient, Value, text, texts, Libraries, Url, Outside, Call,
}
use mcp_agent_gateway.Identity.ClientRegistration.Metadata.{fetch_client_metadata}
use mcp_agent_gateway.Identity.ClientRegistration.Registrar.{enroll_mcp_client}
use mcp_agent_gateway.Identity.ClientRegistration.Repository as Repository
use mcp_agent_gateway.Authorization.{authorize_params_valid}

-- a redirection with status 302 to a URL with these query parameters, a JSON answer, or an
-- exception that leaves the handler
pub data Answer : Type 0 where
  redirect : String → Dict String String → Answer
  json_response : ℕ → Dict String String → Answer
  uncaught : String → Answer

pub record Handled {ℓ} (State A : Type ℓ) : Type ℓ where
  pub answer : A
  pub store : State
  pub calls : List Call

-- `dict(request.query_params)`: of a repeated parameter the last value counts
unfoldable pub query_dict : List (String × String) → Dict String String → Dict String String
query_dict [] params = params
query_dict ((key, value) ∷ query) params = query_dict query (insert key value params)

unfoldable pub error_response : String → Option String → Answer
error_response error none = json_response 400 (("error", error) ∷ [])
error_response error (some description) =
    if truthy description
    then json_response 400 (("error", error) ∷ ("error_description", description) ∷ [])
    else json_response 400 (("error", error) ∷ [])

-- what ends the handler early: an error answer with its description, or another exception
pub data Refused : Type 0 where
  oauth_error : String → String → Refused
  escaped : String → Refused

-- the `except` clauses of `authorize`
unfoldable pub refusal : RegistrationError → Refused
unfolding has_text
refusal (fetch_error m) = oauth_error "invalid_client" "metadata_fetch_failed"
refusal (validation_error m) =
    oauth_error "invalid_client"
      (if has_text "https_required" m then "https_required" else "invalid_metadata")
refusal (dcr_registration_error m) = oauth_error "server_error" "registration_failed"
refusal (unexpected name) = escaped name

unfoldable pub not_in_metadata : Refused
not_in_metadata = oauth_error "invalid_request" "redirect_uri_not_in_metadata"

unfoldable pub is_url : Libraries → String → Option Bool
is_url lib value = elim (lib.urlparse value) [
  | none ↦ none
  | some parsed ↦
      some ((parsed.scheme == "http" || parsed.scheme == "https") && truthy parsed.netloc)
]

unfoldable pub keycloak_authorize : Settings → String
keycloak_authorize settings = settings.oauth_issuer_url <> "/protocol/openid-connect/auth"

module _ (S : Store) (c : Repository.Codec) (settings : Settings) where
  -- after the POST: the registration is kept
  unfoldable pub enrolled :
      S.State
      → ℕ
      → String
      → List Call
      → Result RegistrationError RegisteredClient × List Call
      → Handled S.State (Result Refused RegisteredClient)
  unfolding refusal
  enrolled s later client_id calls (raise e, posts) = record {
    answer = raise (refusal e);
    store = s;
    calls = calls ++ posts;
  }
  enrolled s later client_id calls (ok registered, posts) = record {
    answer = ok registered;
    store = Repository.set S c s later settings.client_registry_ttl client_id registered none;
    calls = calls ++ posts;
  }

  -- after the GET: only a redirect URI of the document goes on
  unfoldable pub fetched :
      Outside
      → S.State
      → ℕ
      → String
      → String
      → Result RegistrationError ClientMetadata × List Call
      → Handled S.State (Result Refused RegisteredClient)
  unfolding refusal not_in_metadata enrolled contains
  fetched outside s later client_id redirect_uri (raise e, calls) = record {
    answer = raise (refusal e);
    store = s;
    calls = calls;
  }
  fetched outside s later client_id redirect_uri (ok metadata, calls) =
      if contains metadata.redirect_uris redirect_uri
      then enrolled s later client_id calls (
          enroll_mcp_client outside settings.dcr_registration_endpoint
            settings.dcr_initial_access_token metadata)
      else record { answer = raise not_in_metadata; store = s; calls = calls }

  -- after the look into the registry
  unfoldable pub with_cached :
      Libraries
      → Outside
      → ℕ
      → String
      → String
      → Option RegisteredClient × S.State
      → Handled S.State (Result Refused RegisteredClient)
  unfolding not_in_metadata fetched contains
  with_cached lib outside later client_id redirect_uri (some client, s) = record {
    answer =
        if contains client.redirect_uris redirect_uri then ok client else raise not_in_metadata;
    store = s;
    calls = [];
  }
  with_cached lib outside later client_id redirect_uri (none, s) =
      fetched outside s later client_id redirect_uri
        (fetch_client_metadata lib outside settings.debug client_id)

  unfoldable pub redirected : Dict String String → Result Refused RegisteredClient → Answer
  unfolding keycloak_authorize error_response
  redirected params (raise (oauth_error error description)) =
      error_response error (some description)
  redirected params (raise (escaped name)) = uncaught name
  redirected params (ok client) =
      redirect (keycloak_authorize settings) (insert "client_id" client.client_id params)

  -- what follows the check of the parameters
  unfoldable pub admitted :
      Libraries
      → Outside
      → S.State
      → ℕ
      → ℕ
      → Dict String String
      → String
      → String
      → Option Bool
      → Handled S.State Answer
  unfolding with_cached redirected keycloak_authorize
  admitted lib outside s now later params client_id redirect_uri none = record {
    answer = uncaught "ValueError";
    store = s;
    calls = [];
  }
  admitted lib outside s now later params client_id redirect_uri (some false) = record {
    answer = redirect (keycloak_authorize settings) params;
    store = s;
    calls = [];
  }
  admitted lib outside s now later params client_id redirect_uri (some true) =
      let run =
        with_cached lib outside later client_id redirect_uri (Repository.get S c s now client_id) in
      record { answer = redirected params run.answer; store = run.store; calls = run.calls }

  unfoldable pub authorize :
      (String → Bool)
      → Libraries
      → Outside
      → S.State
      → ℕ
      → ℕ
      → List (String × String)
      → Handled S.State Answer
  unfolding query_dict error_response is_url admitted or_else
  authorize decodes lib outside s now later query =
      let params = query_dict query [] in
      let client_id = or_else (lookup "client_id" params) "" in
      let (valid, description) = authorize_params_valid decodes params in
      if valid
      then admitted lib outside s now later params client_id
          (or_else (lookup "redirect_uri" params) "") (is_url lib client_id)
      else record {
        answer = error_response "invalid_request" (some description);
        store = s;
        calls = [];
      }

-- the body of /.well-known/oauth-authorization-server
unfoldable pub oauth_authorization_server_metadata : Settings → Dict String Value
oauth_authorization_server_metadata settings =
    ("issuer", text settings.gateway_base_url)
    ∷ ("authorization_endpoint", text (settings.gateway_base_url <> "/oauth/authorize"))
    ∷ ("token_endpoint", text (settings.oauth_issuer_url <> "/protocol/openid-connect/token"))
    ∷ ("jwks_uri", text (settings.oauth_issuer_url <> "/protocol/openid-connect/certs"))
    ∷ ("response_types_supported", texts ("code" ∷ []))
    ∷ ("grant_types_supported", texts ("authorization_code" ∷ "client_credentials" ∷ []))
    ∷ ("code_challenge_methods_supported", texts ("S256" ∷ []))
    ∷ (
      "token_endpoint_auth_methods_supported",
      texts ("client_secret_basic" ∷ "client_secret_post" ∷ []),
    )
    ∷ []
