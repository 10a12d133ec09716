-- ===== src/Identity/ClientRegistration/Guarded.antt =====
-- Which requests the fetch of a metadata document makes.
use mathlib.Core.Bool.{false≢true}
use mcp_agent_gateway.Base.{
  String, string_eq, truthy, or_else, true, false, Option, none, some, List, [], ◌∷◌, All,
  All-append, ◌≡◌, ◌≢◌, refl, ◌∙◌, inl, inr, Bool-cases, Option-cases, arith,
}
use mcp_agent_gateway.Base.Result.{Result, ok, raise, Result-cases}
use mcp_agent_gateway.Identity.ClientRegistration.{
  RegistrationError, Lookup, addresses, os_error, lookup_failed, Address, Url, Libraries, Outside,
  Call, looked_up, got, posted,
}
use mcp_agent_gateway.Identity.ClientRegistration.Metadata.{
  is_blocked, check_addresses, assert_public_host, check_url, parse_url, admit_host, fetch_admitted,
  fetch_client_metadata,
}

-- An address that none of the six tests blocks.
abbrev pub IsPublic : Libraries → String → Type 0
IsPublic lib ip = (addr : Address) × (lib.ip_address ip ≡ some addr) × (is_blocked addr ≡ false)

-- What the resolver answers for a host: some addresses, each of them public.
abbrev pub IsPublicHost : Libraries → Lookup → Type 0
IsPublicHost lib answer =
    (ips : List String) × (answer ≡ addresses ips) × (ips ≢ []) × All (IsPublic lib) ips

-- A URL with TLS whose host has only public addresses.
abbrev pub IsSafe : Libraries → Outside → String → Type 0
IsSafe lib outside url =
    (parsed : Url) × (host : String) × (lib.urlparse url ≡ some parsed)
    × (parsed.scheme ≡ "https")
    × (parsed.hostname ≡ some host)
    × IsPublicHost lib (outside.resolve host)

check_addresses-IsPublic :
    (lib : Libraries) (ips : List String) → check_addresses lib ips ≡ ok tt → All (IsPublic lib) ips
unfolding check_addresses
check_addresses-IsPublic lib [] h = tt
check_addresses-IsPublic lib (ip ∷ ips) h = elim (Option-cases (lib.ip_address ip)) [
  | inl bad ↦ absurd (ground arith)
  | inr (addr, e) ↦ elim (Bool-cases (is_blocked addr)) [
    | inl blocked ↦ absurd (ground arith)
    | inr free ↦ ((addr, e, free), check_addresses-IsPublic lib ips (ground arith))
  ]
]

assert_public_host-IsPublicHost :
    (lib : Libraries) (host : String) (answer : Lookup)
    → assert_public_host lib host answer ≡ ok tt
    → IsPublicHost lib answer
unfolding assert_public_host
assert_public_host-IsPublicHost lib host os_error h = absurd (cc)
assert_public_host-IsPublicHost lib host (lookup_failed name) h = absurd (cc)
assert_public_host-IsPublicHost lib host (addresses []) h = absurd (cc)
assert_public_host-IsPublicHost lib host (addresses (ip ∷ ips)) h =
    (ip ∷ ips, refl, λ e. cc, check_addresses-IsPublic lib (ip ∷ ips) h)

check_url-https :
    (parsed : Url) (host : String)
    → check_url false parsed ≡ ok host
    → (parsed.scheme ≡ "https") × (parsed.hostname ≡ some host)
unfolding check_url or_else
check_url-https parsed host h = elim (Bool-cases (truthy (or_else parsed.hostname ""))) [
  | inr missing ↦ absurd (ground arith)
  | inl given ↦ (ground arith, named parsed.hostname given ∙ ground arith)
]
  where
    named : (o : Option String) → truthy (or_else o "") ≡ true → o ≡ some (or_else o "")
    named none g = absurd (false≢true g)
    named (some name) g = refl

parse_url-https :
    (lib : Libraries) (url host : String)
    → parse_url lib false url ≡ ok host
    → (parsed : Url) × (lib.urlparse url ≡ some parsed)
      × (parsed.scheme ≡ "https")
      × (parsed.hostname ≡ some host)
unfolding parse_url
parse_url-https lib url host h = elim (Option-cases (lib.urlparse url)) [
  | inl bad ↦ absurd (ground arith)
  | inr (parsed, e) ↦ let (s, n) = check_url-https parsed host (ground arith) in (parsed, e, s, n)
]

-- Each GET is one of the URL, and a safe one, and there is no POST.
abbrev pub IsGuarded : Libraries → Outside → String → Call → Type 0
IsGuarded lib outside url (got target) = (target ≡ url) × IsSafe lib outside url
IsGuarded lib outside url (looked_up host) = Unit
IsGuarded lib outside url (posted endpoint payload authorization) = ⊥

fetch_admitted-IsGuarded :
    (lib : Libraries) (outside : Outside) (url : String)
    (admission : Result RegistrationError (Unit {0}) × List Call)
    → (admission.0 ≡ ok tt → IsSafe lib outside url)
    → All (IsGuarded lib outside url) admission.1
    → All (IsGuarded lib outside url) (fetch_admitted lib outside url admission).1
unfolding fetch_admitted
fetch_admitted-IsGuarded lib outside url (raise e, calls) safe before = before
fetch_admitted-IsGuarded lib outside url (ok tt, calls) safe before =
    All-append (IsGuarded lib outside url) calls (got url ∷ []) before ((refl, safe refl), tt)

admit_host-IsSafe :
    (lib : Libraries) (outside : Outside) (url host : String)
    → parse_url lib false url ≡ ok host
    → (admit_host lib outside false host).0 ≡ ok tt
    → IsSafe lib outside url
unfolding admit_host
admit_host-IsSafe lib outside url host h passed =
    let (parsed, p, s, n) = parse_url-https lib url host h in
    (parsed, host, p, s, n, assert_public_host-IsPublicHost lib host (outside.resolve host) passed)

pub fetch_client_metadata-IsGuarded :
    (lib : Libraries) (outside : Outside) (url : String)
    → All (IsGuarded lib outside url) (fetch_client_metadata lib outside false url).1
unfolding fetch_client_metadata admit_host
fetch_client_metadata-IsGuarded lib outside url = elim (Result-cases (parse_url lib false url)) [
  | inr (e, bad) ↦ rw (bad, fetch_client_metadata) tt
  | inl (host, good) ↦
      rw (good, fetch_client_metadata)
        (fetch_admitted-IsGuarded lib outside url (admit_host lib outside false host)
          (admit_host-IsSafe lib outside url host good) (tt, tt))
]
