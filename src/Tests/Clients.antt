-- ===== src/Tests/Clients.antt =====
-- The registration of clients and the authorization route at concrete data.
use mcp_agent_gateway.Base.{
  ℕ, zero, suc, decimal, int_of, int_of-decimal, String, string_eq, char_eq, or_else, ◌<>◌,
  contains, starts_with, has_text, Bool, true, false, Option, none, some, List, [], ◌∷◌, All,
  length, ◌≡◌, refl, ap, ◌∙◌, arith,
}
use mcp_agent_gateway.Base.Dict.{Dict, lookup, insert}
use mcp_agent_gateway.Base.Result.{ok}
use mcp_agent_gateway.Shared.Store.InMemory.{
  get, InMemoryStore, in_memory_store, in_memory_store-Contract,
}
use mcp_agent_gateway.Integrations.Google.DriveQuery.{escape}
use mcp_agent_gateway.Integrations.Google.DriveQuery.Literal.{read_literal, read_literal-escape}
use mcp_agent_gateway.Config.{Settings, defaults}
use mcp_agent_gateway.Identity.ClientRegistration.{
  ClientMetadata, RegisteredClient, text, texts, object, answered, timed_out, addresses, Address,
  Libraries, Outside,
}
use mcp_agent_gateway.Identity.ClientRegistration.Metadata.{
  is_blocked, is_success, has_field, check_addresses, assert_public_host, check_url, parse_url,
  read_outcome, read_object, validated, read_metadata, admit_host, fetch_admitted,
  fetch_client_metadata,
}
use mcp_agent_gateway.Identity.ClientRegistration.Registrar.{
  payload_of, read_registration, item, as_text, registered_client, enroll_mcp_client,
}
use mcp_agent_gateway.Identity.ClientRegistration.Repository as Repository
use mcp_agent_gateway.Identity.ClientRegistration.Repository.{Codec, IsLawful}
use mcp_agent_gateway.Authorization.{
  is_url_safe, fullmatch, is_s256, is_text, validate_pkce_params, check_params,
  authorize_params_valid,
}
use mcp_agent_gateway.Authorization.Authorize.{
  error_response, refusal, redirect, query_dict, is_url, keycloak_authorize, enrolled, fetched,
  with_cached, redirected, admitted, authorize,
}
use mcp_agent_gateway.Authorization.Authorize.Guarded.{IsAllowed, authorize-IsAllowed}
use mcp_agent_gateway.Authorization.Authorize.Redirects.{IsSent, authorize-IsSent}
use mcp_agent_gateway.Authorization.Authorize.Repeated.{authorize_again}

-- a text for a registration: quoted texts, the redirect URIs behind their number
abbrev quoted : String → String → String
quoted s rest = escape s <> ("'" <> rest)

abbrev all_quoted : List String → String
all_quoted [] = ""
all_quoted (s ∷ rest) = quoted s (all_quoted rest)

abbrev dumps : RegisteredClient → String
dumps client = quoted client.client_id (
    quoted client.client_secret
      (quoted (decimal (length client.redirect_uris)) (all_quoted client.redirect_uris)))

abbrev cons_of : String → Option (List String) → Option (List String)
cons_of s none = none
cons_of s (some rest) = some (s ∷ rest)

abbrev next :
    (String → String → Option (List String)) → Option (String × String) → Option (List String)
next read none = none
next read (some (s, rest)) = read s rest

abbrev read_all : ℕ → String → Option (List String)
read_all zero s = some []
read_all (suc n) s = next (λ first rest. cons_of first (read_all n rest)) (read_literal false s)

abbrev client_of : String → String → Option (List String) → Option RegisteredClient
client_of id secret none = none
client_of id secret (some uris) =
    some (record { client_id = id; client_secret = secret; redirect_uris = uris })

abbrev uris_of : String → Option ℕ → Option (List String)
uris_of rest none = none
uris_of rest (some n) = read_all n rest

abbrev fourth_of : String → String → Option (String × String) → Option RegisteredClient
fourth_of id secret none = none
fourth_of id secret (some (n, rest)) = client_of id secret (uris_of rest (int_of n))

abbrev third_of : String → Option (String × String) → Option RegisteredClient
third_of id none = none
third_of id (some (secret, rest)) = fourth_of id secret (read_literal false rest)

abbrev second_of : Option (String × String) → Option RegisteredClient
second_of none = none
second_of (some (id, rest)) = third_of id (read_literal false rest)

abbrev codec : Codec
codec = record { dumps = dumps; loads = λ s. second_of (read_literal false s) }

read_all-all_quoted : (l : List String) → read_all (length l) (all_quoted l) ≡ some l
read_all-all_quoted [] = refl
read_all-all_quoted (s ∷ l) =
    ap (next (λ first rest. cons_of first (read_all (length l) rest)))
      (read_literal-escape s (all_quoted l))
    ∙ ap (cons_of s) (read_all-all_quoted l)

loads-dumps : (client : RegisteredClient) → codec.loads (codec.dumps client) ≡ some client
loads-dumps client =
    let uris = client.redirect_uris in
    let counted = quoted (decimal (length uris)) (all_quoted uris) in
    ap second_of (read_literal-escape client.client_id (quoted client.client_secret counted))
    ∙ ap (third_of client.client_id) (read_literal-escape client.client_secret counted)
    ∙ ap (fourth_of client.client_id client.client_secret)
        (read_literal-escape (decimal (length uris)) (all_quoted uris))
    ∙ ap (λ n. client_of client.client_id client.client_secret (uris_of (all_quoted uris) n))
        (int_of-decimal (length uris))
    ∙ ap (client_of client.client_id client.client_secret) (read_all-all_quoted uris)

codec-IsLawful : IsLawful codec
codec-IsLawful = record { loads-dumps = loads-dumps }

abbrev settings : Settings
settings = record (defaults "/tmp") {
  oauth_issuer_url = "https://kc/realms/g";
  gateway_base_url = "https://gw";
  dcr_registration_endpoint = "https://kc/dcr";
  dcr_initial_access_token = "t";
}

abbrev metadata : ClientMetadata
metadata = record {
  redirect_uris = "https://a/cb" ∷ [];
  client_name = "Agent";
  scope = none;
  grant_types = none;
  token_endpoint_auth_method = none;
  logo_uri = none;
  contacts = none;
}

abbrev public_address : Address
public_address = record {
  is_private = false;
  is_loopback = false;
  is_link_local = false;
  is_reserved = false;
  is_multicast = false;
  is_unspecified = false;
}

abbrev lib : Libraries
lib = record {
  urlparse = λ value. some (record { scheme = "https"; netloc = "a"; hostname = some "a" });
  ip_address = λ ip. some public_address;
  repr = λ s. s;
  model_validate = λ fields. ok metadata;
}

-- the document is there, and the endpoint registers the client
abbrev reachable : Outside
reachable = record {
  resolve = λ host. addresses ("93.184.215.14" ∷ []);
  get = λ url. answered (record {
    status_code = 200;
    content_type = some "application/json";
    body =
        object
          (("redirect_uris", texts ("https://a/cb" ∷ [])) ∷ ("client_name", text "Agent") ∷ []);
  });
  post = λ payload. answered (record {
    status_code = 201;
    content_type = some "application/json";
    body = object (("client_id", text "c1") ∷ ("client_secret", text "s1") ∷ []);
  });
}

abbrev unreachable : Outside
unreachable = record {
  resolve = λ host. addresses [];
  get = λ url. timed_out;
  post = λ payload. timed_out;
}

abbrev decodes : String → Bool
decodes s = true

abbrev query : List (String × String)
query =
    ("client_id", "https://a/client")
    ∷ ("response_type", "code")
    ∷ ("redirect_uri", "https://a/cb")
    ∷ ("state", "xyz")
    ∷ ("code_challenge", "E9Melhoa2OwvFrEMTJguCHaoeK1t8URWbuGJSstw-cM")
    ∷ ("code_challenge_method", "S256")
    ∷ []

abbrev nothing : InMemoryStore
nothing = record { entries = [] }

authorize-IsAllowed_example :
    All
      (IsAllowed in_memory_store codec settings lib reachable
        (or_else (lookup "client_id" (query_dict query [])) "")
        (or_else (lookup "redirect_uri" (query_dict query [])) ""))
      (authorize in_memory_store codec settings decodes lib reachable nothing 5 6 query).calls
authorize-IsAllowed_example =
    authorize-IsAllowed in_memory_store codec settings lib reachable decodes nothing 5 6 query refl

abbrev sent : Dict String String
sent = insert "client_id" "c1" (query_dict query [])

authorize_runs :
    (authorize in_memory_store codec settings decodes lib reachable nothing 5 6 query).answer
    ≡ redirect (keycloak_authorize settings) sent
unfolding authorize query_dict authorize_params_valid check_params validate_pkce_params is_text
    is_s256 fullmatch is_url_safe is_url admitted with_cached fetched enrolled redirected get lookup
    insert string_eq char_eq or_else contains fetch_client_metadata parse_url check_url admit_host
    assert_public_host check_addresses is_blocked fetch_admitted read_outcome is_success
    read_metadata read_object has_field validated has_text starts_with enroll_mcp_client payload_of
    read_registration registered_client item as_text Repository.get
authorize_runs = refl

authorize-IsSent_example :
    (keycloak_authorize settings ≡ keycloak_authorize settings)
    × ((authorize_params_valid decodes (query_dict query [])).0 ≡ true)
    × IsSent in_memory_store codec settings lib reachable nothing 5
        (query_dict query [])
        sent
        (is_url lib (or_else (lookup "client_id" (query_dict query [])) ""))
authorize-IsSent_example =
    authorize-IsSent in_memory_store codec settings lib reachable decodes nothing 5 6 query
      (keycloak_authorize settings) sent authorize_runs

is_url_runs : is_url lib (or_else (lookup "client_id" (query_dict query [])) "") ≡ some true
unfolding is_url string_eq
is_url_runs = refl

-- a day less a second later, with the outside out of reach
authorize_again_example :
    let run = authorize in_memory_store codec settings decodes lib reachable nothing 5 6 query in
    let next =
      authorize in_memory_store codec settings decodes lib unreachable run.store 86399000 86399001
        query in
    (next.answer ≡ redirect (keycloak_authorize settings) sent) × (next.calls ≡ [])
authorize_again_example =
    authorize_again in_memory_store codec settings in_memory_store-Contract codec-IsLawful decodes
      lib reachable unreachable nothing 5 6 86399000 86399001 query (keycloak_authorize settings)
      sent is_url_runs (unfold Repository.get get lookup in refl) (omega arith) (omega arith)
      authorize_runs

-- with the outside out of reach nobody is redirected
authorize-unreachable :
    (authorize in_memory_store codec settings decodes lib unreachable nothing 5 6 query).answer
    ≡ error_response "invalid_client" (some "invalid_metadata")
unfolding authorize query_dict authorize_params_valid check_params validate_pkce_params is_text
    is_s256 fullmatch is_url_safe is_url admitted with_cached fetched redirected get lookup insert
    string_eq char_eq or_else fetch_client_metadata parse_url check_url admit_host
    assert_public_host fetch_admitted refusal has_text starts_with Repository.get
authorize-unreachable = refl
