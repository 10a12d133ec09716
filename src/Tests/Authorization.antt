-- ===== src/Tests/Authorization.antt =====
-- The check of an authorization request at concrete data.
use mcp_agent_gateway.Base.{
  String, string_eq, or_else, Bool, true, false, some, [], ◌∷◌, ◌≡◌, refl, ◌⊎◌,
}
use mcp_agent_gateway.Base.Dict.{Dict, lookup}
use mcp_agent_gateway.Base.Result.{raise}
use mcp_agent_gateway.Authorization.{
  is_url_safe, fullmatch, is_s256, is_text, validate_pkce_params, check_params,
  authorize_params_valid,
}
use mcp_agent_gateway.Authorization.Valid.{Given, IsPkce, authorize_params_valid_cases}

abbrev decodes : String → Bool
decodes text = true

abbrev params : Dict String String
params =
    ("client_id", "agent")
    ∷ ("response_type", "code")
    ∷ ("redirect_uri", "https://a/cb")
    ∷ ("state", "xyz")
    ∷ ("code_challenge", "E9Melhoa2OwvFrEMTJguCHaoeK1t8URWbuGJSstw-cM")
    ∷ ("code_challenge_method", "S256")
    ∷ []

authorize_params_valid_cases_example :
    ((reason : String) × (authorize_params_valid decodes params ≡ (false, reason)))
    ⊎ ((authorize_params_valid decodes params ≡ (true, ""))
        × Given params "client_id"
        × (lookup "response_type" params ≡ some "code")
        × Given params "redirect_uri"
        × Given params "state"
        × IsPkce decodes (lookup "code_challenge" params) (lookup "code_challenge_method" params))
authorize_params_valid_cases_example = authorize_params_valid_cases decodes params

accepted : authorize_params_valid decodes params ≡ (true, "")
unfolding authorize_params_valid check_params validate_pkce_params lookup string_eq or_else is_text
    is_s256 fullmatch is_url_safe
accepted = refl

plain_refused :
    validate_pkce_params decodes (some "E9Melhoa2OwvFrEMTJguCHaoeK1t8URWbuGJSstw-cM") (some "plain")
    ≡ raise "only S256 is supported"
unfolding validate_pkce_params string_eq or_else is_s256
plain_refused = refl
