-- ===== src/Middleware/AccessGuard.antt =====
-- app/middleware/access_guard.py
pub mod Bypass
pub mod Scopes
pub mod Admission
use mcp_agent_gateway.Base.{
  split, lower_starts_with, drop_chars, rstrip, rsplit_head, or_else, String, string_eq, ◌<>◌,
  starts_with, ◌==◌, contains, Bool, true, false, ◌&&◌, ◌||◌, Option, none, some, List, [], ◌∷◌,
  ◌++◌, if◌then◌else◌,
}
use mcp_agent_gateway.Base.Dict.{Dict, lookup}
use mcp_agent_gateway.Base.Result.{Result, ok, raise}
use mcp_agent_gateway.Identity.TokenValidator.{Claims, ValidateError, value_error, uncaught}
use mcp_agent_gateway.Middleware.Http.{Request, Response, App}

abbrev pub scopes_supported : String
scopes_supported = "mcp:google:read mcp:slack:read mcp:admin:read"

abbrev pub client_id : String
client_id = "mcp-gateway"

abbrev pub role_scope_map : Dict String String
role_scope_map =
    ("drive-user", "mcp:google:read")
    ∷ ("slack-user", "mcp:slack:read")
    ∷ ("admin-user", "mcp:admin:read")
    ∷ []

abbrev pub auth_bypass_exact : List String
auth_bypass_exact = "/openapi.json" ∷ "/oauth/authorize" ∷ []

abbrev pub auth_bypass_prefixes : List String
auth_bypass_prefixes = "/health" ∷ "/.well-known" ∷ "/docs" ∷ "/webhooks" ∷ []

-- the `any(...)` over the prefixes
unfoldable pub under_any : String → List String → Bool
under_any path [] = false
under_any path (p ∷ ps) = (path == p || starts_with path (p <> "/")) || under_any path ps

unfoldable pub is_bypass_path : String → Bool
is_bypass_path path = contains auth_bypass_exact path || under_any path auth_bypass_prefixes

unfoldable pub unauthorized : String → Response
unfolding rstrip rsplit_head
unauthorized expected_audience = record {
  status_code = 401;
  content = ("detail", "Unauthorized") ∷ [];
  headers =
      (
        "WWW-Authenticate",
        "Bearer resource_metadata=\""
            <> rsplit_head "/" (rstrip "/" expected_audience)
            <> "/.well-known/oauth-protected-resource\", scope=\""
            <> scopes_supported
            <> "\"",
      )
      ∷ [];
}

-- `claims.get("resource_access", {}).get(_CLIENT_ID, {}).get("roles", [])`
unfoldable pub client_roles : Claims → List String
unfolding or_else
client_roles claims =
    or_else (or_else (lookup client_id (or_else claims.resource_access [])) none) []

-- `{_ROLE_SCOPE_MAP[r] for r in client_roles if r in _ROLE_SCOPE_MAP}`
unfoldable pub mapped_roles : List String → List String
mapped_roles [] = []
mapped_roles (r ∷ rs) =
    let rest = mapped_roles rs in
    elim (lookup r role_scope_map) [ none ↦ rest | some scope ↦ scope ∷ rest ]

-- the set `scopes`
unfoldable pub granted_scopes : Claims → List String
granted_scopes claims = split (or_else claims.scope "") ++ mapped_roles (client_roles claims)

-- the request that goes on, with its user and its context
unfoldable pub with_user : Claims → Request → Request
with_user claims request = record request {
  user = some (record { id = claims.sub; scopes = granted_scopes claims; token = claims });
  context = record {
    current_user_id = some claims.sub;
    current_user_scopes = granted_scopes claims;
  };
}

module _ {W : Type 0} (expected_audience : String) (validate : String → Result ValidateError Claims)
    (call_next : App W) where
  -- from the validation on
  unfoldable pub admit : Result ValidateError Claims → App W
  admit (raise (value_error m)) request w = (ok (unauthorized expected_audience), w)
  admit (raise (uncaught e)) request w = (raise e, w)
  admit (ok claims) request w = call_next (with_user claims request) w

  unfoldable pub dispatch : App W
  unfolding admit or_else
  dispatch request w =
      if is_bypass_path request.path
      then call_next request w
      else if lower_starts_with (or_else request.authorization "") "bearer "
      then admit (validate (drop_chars 7 (or_else request.authorization ""))) request w
      else (ok (unauthorized expected_audience), w)
