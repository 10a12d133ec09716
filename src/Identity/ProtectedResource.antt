-- ===== src/Identity/ProtectedResource.antt =====
-- app/identity/protected_resource.py: the metadata of the gateway as a protected resource.
use mcp_agent_gateway.Base.{String, [], ◌∷◌}
use mcp_agent_gateway.Base.Dict.{Dict}
use mcp_agent_gateway.Config.{Settings}
use mcp_agent_gateway.Identity.ClientRegistration.{Value, text, texts}

unfoldable pub oauth_protected_resource_metadata : Settings → Dict String Value
oauth_protected_resource_metadata settings =
    ("resource", text settings.oauth_expected_audience)
    ∷ ("authorization_servers", texts (settings.gateway_base_url ∷ []))
    ∷ ("scopes_supported", texts ("mcp:google:read" ∷ "mcp:slack:read" ∷ "mcp:admin:read" ∷ []))
    ∷ []
