-- ===== src/Identity/ClientRegistration.antt =====
-- app/identity/client_registration: what its three files share. The HTTP client, the resolver and
-- pydantic are arguments: what they answer is data here, and `Outside` holds the answers that one
-- request of ours gets.
pub mod Metadata
pub mod Registrar
pub mod Repository
pub mod Guarded
use mcp_agent_gateway.Base.{ℕ, String, truthy, Bool, true, false, Option, none, some, List, [], ◌∷◌}
use mcp_agent_gateway.Base.Dict.{Dict}
use mcp_agent_gateway.Base.Result.{Result}

-- `ClientMetadataValidationError`, `ClientMetadataFetchError` and `DcrRegistrationError`, and any
-- other exception by its name
pub data RegistrationError : Type 0 where
  validation_error : String → RegistrationError
  fetch_error : String → RegistrationError
  dcr_registration_error : String → RegistrationError
  unexpected : String → RegistrationError

pub record ClientMetadata : Type 0 where
  pub redirect_uris : List String
  pub client_name : String
  pub scope : Option String
  pub grant_types : Option (List String)
  pub token_endpoint_auth_method : Option String
  pub logo_uri : Option String
  pub contacts : Option (List String)

pub record RegisteredClient : Type 0 where
  pub client_id : String
  pub client_secret : String
  pub redirect_uris : List String

-- a value of a JSON object; of one that no code looks into, its truth value
pub data Value : Type 0 where
  null : Value
  text : String → Value
  texts : List String → Value
  other : Bool → Value

abbrev pub value_truthy : Value → Bool
value_truthy null = false
value_truthy (text s) = truthy s
value_truthy (texts []) = false
value_truthy (texts (s ∷ rest)) = true
value_truthy (other b) = b

-- `resp.json()`, where `not_json` raises
pub data Body : Type 0 where
  object : Dict String Value → Body
  not_object : Body
  not_json : Body

pub record Response : Type 0 where
  pub status_code : ℕ
  pub content_type : Option String
  pub body : Body

-- a request of httpx: an answer, a timeout, another `httpx.HTTPError`, or another exception
pub data Outcome : Type 0 where
  answered : Response → Outcome
  timed_out : Outcome
  http_error : String → Outcome
  failed : String → Outcome

-- `socket.getaddrinfo`
pub data Lookup : Type 0 where
  addresses : List String → Lookup
  os_error : Lookup
  lookup_failed : String → Lookup

-- `ipaddress.ip_address(ip)`
pub record Address : Type 0 where
  pub is_private : Bool
  pub is_loopback : Bool
  pub is_link_local : Bool
  pub is_reserved : Bool
  pub is_multicast : Bool
  pub is_unspecified : Bool

-- `urlparse(value)`
pub record Url : Type 0 where
  pub scheme : String
  pub netloc : String
  pub hostname : Option String

-- the pure library functions; `none` where one raises `ValueError`
pub record Libraries : Type 0 where
  pub urlparse : String → Option Url
  pub ip_address : String → Option Address
  pub repr : String → String
  pub model_validate : Dict String Value → Result String ClientMetadata

pub record Outside : Type 0 where
  pub resolve : String → Lookup
  pub get : String → Outcome
  pub post : Dict String Value → Outcome

-- what the code asks of the outside
pub data Call : Type 0 where
  looked_up : String → Call
  got : String → Call
  -- with the body and the `Authorization` header
  posted : String → Dict String Value → String → Call
