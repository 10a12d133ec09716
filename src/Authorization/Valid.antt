-- ===== src/Authorization/Valid.antt =====
-- What an authorization request has that passes the check.
use mathlib.Core.Bool.{false≢true}
use mcp_agent_gateway.Base.{
  String, string_eq, truthy, ◌<>◌, or_else, Bool, true, false, Option, none, some, ◌≡◌, ◌≢◌, ◌⊎◌,
  inl, inr, Bool-cases, Option-cases, arith,
}
use mcp_agent_gateway.Base.Dict.{Dict, lookup}
use mcp_agent_gateway.Base.Result.{ok, Result-cases}
use mcp_agent_gateway.Authorization.{
  fullmatch, is_s256, is_text, validate_pkce_params, check_params, authorize_params_valid,
}

-- A parameter that is given and not empty.
abbrev pub Given : Dict String String → String → Type 0
Given params key = (v : String) × (lookup key params ≡ some v) × (v ≢ "")

truthy-Given :
    (params : Dict String String) (key : String)
    → truthy (or_else (lookup key params) "") ≡ true
    → Given params key
unfolding or_else
truthy-Given params key h = elim (Option-cases (lookup key params)) [
  | inl missing ↦ absurd (false≢true (rw missing at h))
  | inr (v, found) ↦ (v, found, λ e. false≢true (rw (found, e) at h))
]

is_text-some : (o : Option String) (v : String) → is_text o v ≡ true → o ≡ some v
unfolding is_text
is_text-some none v h = absurd (false≢true h)
is_text-some (some given) v h = ground arith

module _ (decodes : String → Bool) where
  -- with PKCE: a challenge of 43 characters of the alphabet, which decodes, and the method S256
  abbrev pub IsPkce : Option String → Option String → Type 0
  IsPkce challenge method =
      (fullmatch 43 (or_else challenge "") ≡ true)
      × (decodes (or_else challenge "" <> "=") ≡ true)
      × (is_s256 (or_else method "") ≡ true)

  validate_pkce_params-IsPkce :
      (challenge method : Option String)
      → validate_pkce_params decodes challenge method ≡ ok tt
      → IsPkce challenge method
  unfolding validate_pkce_params
  validate_pkce_params-IsPkce challenge method h =
      elim (Bool-cases (truthy (or_else challenge ""))) [
        | inr a ↦ absurd (ground arith)
        | inl a ↦ elim (Bool-cases (truthy (or_else method ""))) [
          | inr b ↦ absurd (ground arith)
          | inl b ↦ elim (Bool-cases (is_s256 (or_else method ""))) [
            | inr m ↦ absurd (ground arith)
            | inl m ↦ elim (Bool-cases (fullmatch 43 (or_else challenge ""))) [
              | inr l ↦ absurd (ground arith)
              | inl l ↦ elim (Bool-cases (decodes (or_else challenge "" <> "="))) [
                | inr d ↦ absurd (ground arith)
                | inl d ↦ (l, d, m)
              ]
            ]
          ]
        ]
      ]

  -- An authorization request that passes the check has a client, a redirect URI and a state that are
  -- not empty, asks for a code, and has PKCE with the method S256 and a challenge of 43 characters of
  -- the URL-safe alphabet that decodes; one that does not pass has a reason.
  pub authorize_params_valid_cases :
      (params : Dict String String)
      → ((reason : String) × (authorize_params_valid decodes params ≡ (false, reason)))
        ⊎ ((authorize_params_valid decodes params ≡ (true, ""))
            × Given params "client_id"
            × (lookup "response_type" params ≡ some "code")
            × Given params "redirect_uri"
            × Given params "state"
            × IsPkce (lookup "code_challenge" params) (lookup "code_challenge_method" params))
  unfolding authorize_params_valid check_params
  authorize_params_valid_cases params =
      let pkce =
        validate_pkce_params decodes (lookup "code_challenge" params)
          (lookup "code_challenge_method" params) in
      elim (Bool-cases (truthy (or_else (lookup "client_id" params) ""))) [
        | inr a ↦ inl ("client_id is required", ground arith)
        | inl a ↦ elim (Bool-cases (is_text (lookup "response_type" params) "code")) [
          | inr b ↦ inl ("response_type must be code", ground arith)
          | inl b ↦ elim (Bool-cases (truthy (or_else (lookup "redirect_uri" params) ""))) [
            | inr d ↦ inl ("redirect_uri is required", ground arith)
            | inl d ↦ elim (Bool-cases (truthy (or_else (lookup "state" params) ""))) [
              | inr e ↦ inl ("state is required", ground arith)
              | inl e ↦ elim (Result-cases pkce) [
                | inr (reason, refused) ↦ inl (reason, ground arith)
                | inl (u, passed) ↦ inr (
                  ground arith,
                  truthy-Given params "client_id" a,
                  is_text-some (lookup "response_type" params) "code" b,
                  truthy-Given params "redirect_uri" d,
                  truthy-Given params "state" e,
                  validate_pkce_params-IsPkce (lookup "code_challenge" params)
                      (lookup "code_challenge_method" params) passed,
                )
              ]
            ]
          ]
        ]
      ]
