-- ===== src/Identity/ClientRegistration/Metadata.antt =====
-- app/identity/client_registration/models.py: the fetch of a client's metadata document.
use mcp_agent_gateway.Base.{
  ℕ, leb, ltb, String, string_eq, truthy, ◌<>◌, ◌==◌, or_else, has_text, decimal, Bool, false, ◌&&◌,
  ◌||◌, not, none, some, List, [], ◌∷◌, ◌++◌, if◌then◌else◌,
}
use mcp_agent_gateway.Base.Dict.{Dict, lookup}
use mcp_agent_gateway.Base.Result.{Result, ok, raise, ◌>>=◌, ◌>>◌, guard}
use mcp_agent_gateway.Identity.ClientRegistration.{
  RegistrationError, validation_error, fetch_error, unexpected, ClientMetadata, Value, value_truthy,
  object, not_object, not_json, Response, Outcome, answered, timed_out, http_error, failed, Lookup,
  addresses, os_error, lookup_failed, Address, Url, Libraries, Outside, Call, looked_up, got,
}

-- one of the six tests of `_assert_public_host`
unfoldable pub is_blocked : Address → Bool
is_blocked addr =
    addr.is_private || addr.is_loopback || addr.is_link_local || addr.is_reserved
    || addr.is_multicast || addr.is_unspecified

-- `resp.raise_for_status()`: an answer that is not 2xx raises
unfoldable pub is_success : ℕ → Bool
is_success status_code = leb 200 status_code && ltb status_code 300

-- `not data.get(key)`, negated
unfoldable pub has_field : String → Dict String Value → Bool
has_field key fields = elim (lookup key fields) [ none ↦ false | some v ↦ value_truthy v ]

-- the tests on the parsed URL, up to the host name
unfoldable pub check_url : Bool → Url → Result RegistrationError String
unfolding or_else
check_url allow_http parsed =
    guard (not (parsed.scheme == "http" && not allow_http)) (validation_error "https_required")
    >> guard (parsed.scheme == "http" || parsed.scheme == "https")
        (validation_error "URL must use http or https scheme")
    >> guard (truthy (or_else parsed.hostname "")) (validation_error "URL must include a host")
    >> ok (or_else parsed.hostname "")

-- the answer to the GET, or what its exception becomes
unfoldable pub read_outcome : String → Outcome → Result RegistrationError Response
unfolding is_success
read_outcome url timed_out = raise (fetch_error ("Timeout fetching " <> url))
read_outcome url (http_error m) = raise (fetch_error ("Error fetching " <> (url <> (": " <> m))))
read_outcome url (failed name) = raise (unexpected name)
read_outcome url (answered resp) =
    if is_success resp.status_code
    then ok resp
    else raise (fetch_error ("HTTP " <> (decimal resp.status_code <> (" fetching " <> url))))

unfoldable pub read_object : Response → Result RegistrationError (Dict String Value)
read_object resp = elim resp.body [
  | not_json ↦ raise (validation_error "Invalid JSON in metadata document")
  | not_object ↦ raise (unexpected "AttributeError")
  | object fields ↦ ok fields
]

module _ (lib : Libraries) where
  unfoldable pub check_addresses : List String → Result RegistrationError (Unit {0})
  unfolding is_blocked
  check_addresses [] = ok tt
  check_addresses (ip ∷ ips) =
      let rest = check_addresses ips in
      elim (lib.ip_address ip) [
        | none ↦ raise (unexpected "ValueError")
        | some addr ↦
            guard (not (is_blocked addr)) (validation_error "host resolves to a non-public address")
            >> rest
      ]

  unfoldable pub assert_public_host : String → Lookup → Result RegistrationError (Unit {0})
  unfolding check_addresses
  assert_public_host host os_error =
      raise (validation_error ("cannot resolve host " <> lib.repr host))
  assert_public_host host (lookup_failed name) = raise (unexpected name)
  assert_public_host host (addresses []) =
      raise (validation_error ("cannot resolve host " <> lib.repr host))
  assert_public_host host (addresses (ip ∷ ips)) = check_addresses (ip ∷ ips)

  unfoldable pub parse_url : Bool → String → Result RegistrationError String
  unfolding check_url
  parse_url allow_http url = elim (lib.urlparse url) [
    | none ↦ raise (unexpected "ValueError")
    | some parsed ↦ check_url allow_http parsed
  ]

  unfoldable pub validated : Dict String Value → Result RegistrationError ClientMetadata
  validated fields = elim (lib.model_validate fields) [
    | ok metadata ↦ ok metadata
    | raise m ↦ raise (validation_error ("Invalid metadata document: " <> m))
  ]

  unfoldable pub read_metadata : Response → Result RegistrationError ClientMetadata
  unfolding has_field or_else has_text read_object validated
  read_metadata resp =
      guard (has_text "application/json" (or_else resp.content_type "")) (
        validation_error (
          "Expected content-type application/json, got "
          <> lib.repr (or_else resp.content_type "")))
      >> (read_object resp >>= λ fields.
          guard (has_field "redirect_uris" fields)
            (validation_error "redirect_uris is required and must be non-empty")
          >> guard (has_field "client_name" fields) (validation_error "client_name is required")
          >> validated fields)

  -- The guard against a host that is not public, which `allow_http` drops.
  unfoldable pub admit_host :
      Outside → Bool → String → Result RegistrationError (Unit {0}) × List Call
  unfolding assert_public_host
  admit_host outside allow_http host =
      if allow_http
      then (ok tt, [])
      else (assert_public_host host (outside.resolve host), looked_up host ∷ [])

  unfoldable pub fetch_admitted :
      Outside
      → String
      → Result RegistrationError (Unit {0}) × List Call
      → Result RegistrationError ClientMetadata × List Call
  unfolding read_outcome read_metadata
  fetch_admitted outside url (raise e, calls) = (raise e, calls)
  fetch_admitted outside url (ok _, calls) =
      (read_outcome url (outside.get url) >>= read_metadata, calls ++ got url ∷ [])

  unfoldable pub fetch_client_metadata :
      Outside → Bool → String → Result RegistrationError ClientMetadata × List Call
  unfolding parse_url admit_host fetch_admitted
  fetch_client_metadata outside allow_http url = elim (parse_url allow_http url) [
    | raise e ↦ (raise e, [])
    | ok host ↦ fetch_admitted outside url (admit_host outside allow_http host)
  ]
