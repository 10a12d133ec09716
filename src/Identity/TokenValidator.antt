-- ===== src/Identity/TokenValidator.antt =====
-- app/identity/token_validator.py. The key client (app/identity/jwks_client.py wraps PyJWT's) and
-- `jwt.decode` are libraries, and arguments here.
pub mod Accepts
use mcp_agent_gateway.Base.{ℕ, ◌*◌, ◌<◌, ltb, String, ◌<>◌, Option, none, some, List, if◌then◌else◌}
use mcp_agent_gateway.Base.Dict.{Dict}
use mcp_agent_gateway.Base.Result.{Result, ok, raise}

-- The claims that the gateway reads. `jwt.decode` is told to require `sub`. A missing key is `none`.
pub record Claims : Type 0 where
  pub sub : String
  pub nbf : Option ℕ
  pub scope : Option String
  -- for each client its roles
  pub resource_access : Option (Dict String (Option (List String)))

-- What the key client raises: the two kinds that `validate` catches, and any other.
pub data KeyError : Type 0 where
  jwk_client http other_key_error : String → KeyError

-- What `jwt.decode` raises: subclasses of `PyJWTError`, and any other exception.
pub data DecodeError : Type 0 where
  expired_signature invalid_audience invalid_issuer : DecodeError
  other_jwt_error other_decode_error : String → DecodeError

-- What `validate` raises.
pub data ValidateError : Type 0 where
  value_error : String → ValidateError
  uncaught : String → ValidateError

pub record Jwt : Type 1 where
  pub Key : Type 0
  pub get_signing_key_from_jwt : String → Result KeyError Key
  -- with the algorithm, the issuer, the audience and the required claims of the settings
  pub decode : String → Key → Result DecodeError Claims

unfoldable pub key_failure : KeyError → ValidateError
key_failure (jwk_client m) = value_error ("JWKS fetch failed: " <> m)
key_failure (http m) = value_error ("JWKS fetch failed: " <> m)
key_failure (other_key_error m) = uncaught m

unfoldable pub decode_failure : DecodeError → ValidateError
decode_failure expired_signature = value_error "Token expired"
decode_failure invalid_audience = value_error "Invalid audience"
decode_failure invalid_issuer = value_error "Invalid issuer"
decode_failure (other_jwt_error m) = value_error ("Token invalid: " <> m)
decode_failure (other_decode_error m) = uncaught m

-- `nbf` counts seconds and the clock milliseconds.
unfoldable pub check_nbf : ℕ → Claims → Result ValidateError Claims
check_nbf now claims = elim claims.nbf [
  | none ↦ ok claims
  | some nbf ↦
      if ltb now (nbf * 1000) then raise (value_error "Token not yet valid (nbf)") else ok claims
]

unfoldable pub validate : Jwt → ℕ → String → Result ValidateError Claims
unfolding key_failure decode_failure
validate J now token = elim (J.get_signing_key_from_jwt token) [
  | raise e ↦ raise (key_failure e)
  | ok signing_key ↦ elim (J.decode token signing_key) [
    | raise e ↦ raise (decode_failure e)
    | ok claims ↦ check_nbf now claims
  ]
]
