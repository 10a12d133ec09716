-- ===== src/Identity/ClientRegistration/Registrar.antt =====
-- app/identity/client_registration/registrar.py: the registration at the DCR endpoint.
use mcp_agent_gateway.Base.{
  String, string_eq, truthy, ◌<>◌, decimal, Option, none, some, List, [], ◌∷◌, ◌++◌, if◌then◌else◌,
}
use mcp_agent_gateway.Base.Dict.{Dict, lookup}
use mcp_agent_gateway.Base.Result.{Result, ok, raise, ◌>>=◌}
use mcp_agent_gateway.Identity.ClientRegistration.{
  RegistrationError, dcr_registration_error, unexpected, ClientMetadata, RegisteredClient, Value,
  text, texts, object, not_object, not_json, Outcome, answered, timed_out, http_error, failed,
  Outside, Call, posted,
}
use mcp_agent_gateway.Identity.ClientRegistration.Metadata.{is_success}

-- `if value: payload[key] = value` for a text and for a list
unfoldable pub text_field : String → Option String → Dict String Value
text_field key none = []
text_field key (some s) = if truthy s then (key, text s) ∷ [] else []

unfoldable pub texts_field : String → Option (List String) → Dict String Value
texts_field key none = []
texts_field key (some []) = []
texts_field key (some (s ∷ rest)) = (key, texts (s ∷ rest)) ∷ []

unfoldable pub payload_of : ClientMetadata → Dict String Value
unfolding text_field texts_field
payload_of metadata =
    ("redirect_uris", texts metadata.redirect_uris)
    ∷ ("client_name", text metadata.client_name)
    ∷ (texts_field "grant_types" metadata.grant_types
        ++ (text_field "scope" metadata.scope
            ++ text_field "token_endpoint_auth_method" metadata.token_endpoint_auth_method))

unfoldable pub read_registration : Outcome → Result RegistrationError (Dict String Value)
unfolding is_success
read_registration timed_out = raise (dcr_registration_error "DCR request error: timeout")
read_registration (http_error m) = raise (dcr_registration_error ("DCR request error: " <> m))
read_registration (failed name) = raise (unexpected name)
read_registration (answered resp) =
    if is_success resp.status_code
    then elim resp.body [
      | not_json ↦ raise (unexpected "JSONDecodeError")
      | not_object ↦ raise (unexpected "TypeError")
      | object fields ↦ ok fields
    ]
    else raise
        (dcr_registration_error ("DCR registration failed with HTTP " <> decimal resp.status_code))

-- `data[key]`
unfoldable pub item : String → Dict String Value → Result RegistrationError Value
item key fields = elim (lookup key fields) [ none ↦ raise (unexpected "KeyError") | some v ↦ ok v ]

-- `RegisteredClient` takes only a text
unfoldable pub as_text : Value → Result RegistrationError String
as_text (text s) = ok s
as_text v = raise (unexpected "ValidationError")

unfoldable pub registered_client :
    ClientMetadata → Dict String Value → Result RegistrationError RegisteredClient
unfolding item as_text
registered_client metadata fields = item "client_id" fields >>= λ id_value.
    item "client_secret" fields >>= λ secret_value. as_text id_value >>= λ client_id.
    as_text secret_value >>= λ client_secret. ok (record {
      client_id = client_id;
      client_secret = client_secret;
      redirect_uris = metadata.redirect_uris;
    })

-- The endpoint and the access token are the settings' DCR_REGISTRATION_ENDPOINT and
-- DCR_INITIAL_ACCESS_TOKEN.
unfoldable pub enroll_mcp_client :
    Outside
    → String
    → String
    → ClientMetadata
    → Result RegistrationError RegisteredClient × List Call
unfolding payload_of read_registration registered_client
enroll_mcp_client outside endpoint access_token metadata =
    let payload = payload_of metadata in
    (
      read_registration (outside.post payload) >>= registered_client metadata,
      posted endpoint payload ("Bearer " <> access_token) ∷ [],
    )
