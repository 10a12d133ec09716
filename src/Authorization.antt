-- ===== src/Authorization.antt =====
-- app/authorization/pkce.py, and the check of the parameters of app/authorization/router.py. Base64 is
-- an argument: whether a text decodes.
pub mod Valid
pub mod Authorize
use Prim.Native.Char.{code}
use Prim.Native.String
use mcp_agent_gateway.Base.{
  ℕ, zero, suc, leb, nat_eq, String, string_eq, truthy, ◌<>◌, ◌==◌, or_else, Bool, true, false,
  ◌&&◌, ◌||◌, Option, none, some, if◌then◌else◌,
}
use mcp_agent_gateway.Base.Dict.{Dict, lookup}
use mcp_agent_gateway.Base.Result.{Result, ok, raise, ◌>>=◌, ◌>>◌, guard}

-- `[A-Za-z0-9_-]`, by the code point
unfoldable pub is_url_safe : ℕ → Bool
is_url_safe c =
    (leb 65 c && leb c 90)
    || (leb 97 c && leb c 122)
    || (leb 48 c && leb c 57)
    || nat_eq c 95
    || nat_eq c 45

-- `re.fullmatch(r"[A-Za-z0-9_-]{n}", text)`
unfoldable pub fullmatch : ℕ → String → Bool
unfolding is_url_safe
fullmatch zero String.[] = true
fullmatch zero (String.◌∷◌ c text) = false
fullmatch (suc n) String.[] = false
fullmatch (suc n) (String.◌∷◌ c text) = is_url_safe (code c) && fullmatch n text

-- `code_challenge_method.upper() == "S256"`; the long s has the same capital
unfoldable pub is_s256 : String → Bool
is_s256 method = method == "S256" || (method == "s256" || method == "ſ256")

-- `params.get(key) == value`
unfoldable pub is_text : Option String → String → Bool
is_text none value = false
is_text (some given) value = given == value

module _ (decodes : String → Bool) where
  unfoldable pub validate_pkce_params : Option String → Option String → Result String (Unit {0})
  unfolding fullmatch is_s256 or_else
  validate_pkce_params code_challenge code_challenge_method =
      guard (truthy (or_else code_challenge "")) "code_challenge is required"
      >> guard (truthy (or_else code_challenge_method "")) "code_challenge_method is required"
      >> guard (is_s256 (or_else code_challenge_method "")) "only S256 is supported"
      >> guard (fullmatch 43 (or_else code_challenge "")) "code_challenge must be URL-safe base64"
      >> guard (decodes (or_else code_challenge "" <> "=")) "code_challenge must be URL-safe base64"

  unfoldable pub check_params : Dict String String → Result String (Unit {0})
  unfolding is_text or_else validate_pkce_params
  check_params params =
      guard (truthy (or_else (lookup "client_id" params) "")) "client_id is required"
      >> guard (is_text (lookup "response_type" params) "code") "response_type must be code"
      >> guard (truthy (or_else (lookup "redirect_uri" params) "")) "redirect_uri is required"
      >> guard (truthy (or_else (lookup "state" params) "")) "state is required"
      >> validate_pkce_params (lookup "code_challenge" params)
          (lookup "code_challenge_method" params)

  unfoldable pub authorize_params_valid : Dict String String → Bool × String
  unfolding check_params
  authorize_params_valid params = elim (check_params params) [
    | ok _ ↦ (true, "")
    | raise e ↦ (false, e)
  ]
