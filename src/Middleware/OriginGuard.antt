-- ===== src/Middleware/OriginGuard.antt =====
-- app/middleware/origin_guard.py
use mcp_agent_gateway.Base.{
  String, string_eq, starts_with, contains, Bool, false, Option, none, some, List, [], ◌∷◌, not,
  if◌then◌else◌,
}
use mcp_agent_gateway.Base.Result.{ok}
use mcp_agent_gateway.Middleware.Http.{Response, App}

abbrev pub origin_not_allowed : Response
origin_not_allowed = record {
  status_code = 403;
  content = ("detail", "Origin not allowed") ∷ [];
  headers = [];
}

-- `origin is not None and origin not in self._allowed`
unfoldable pub is_foreign : List String → Option String → Bool
is_foreign allowed none = false
is_foreign allowed (some origin) = not (contains allowed origin)

unfoldable pub dispatch : {W : Type 0} → List String → App W → App W
unfolding is_foreign
dispatch allowed call_next request w =
    if starts_with request.path "/mcp"
    then if is_foreign allowed request.origin
      then (ok origin_not_allowed, w)
      else call_next request w
    else call_next request w
