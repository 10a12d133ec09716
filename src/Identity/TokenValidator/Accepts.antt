-- ===== src/Identity/TokenValidator/Accepts.antt =====
-- Which tokens `validate` accepts, and how it fails.
use mcp_agent_gateway.Base.{
  ℕ, ◌*◌, ◌≤◌, String, Option, none, some, Option-cases, inl, inr, ◌≡◌, ◌↔◌, arith, ◌∙◌, ap,
}
use mcp_agent_gateway.Base.Result.{ok, Result-cases}
use mcp_agent_gateway.Identity.TokenValidator.{Claims, Jwt, check_nbf, validate}

-- The token may be used at the instant.
abbrev pub IsBegun : ℕ → Option ℕ → Type 0
IsBegun now none = Unit
IsBegun now (some nbf) = nbf * 1000 ≤ now

check_nbf_returns :
    (now : ℕ) (c claims : Claims) → check_nbf now c ≡ ok claims → (c ≡ claims) × IsBegun now c.nbf
unfolding check_nbf
check_nbf_returns now c claims h = elim (Option-cases c.nbf) [
  | inl missing ↦ (ground arith, rw missing tt)
  | inr (n, given) ↦ (ground arith, rw given (ground arith))
]

check_nbf_begun : (now : ℕ) (c : Claims) → IsBegun now c.nbf → check_nbf now c ≡ ok c
unfolding check_nbf
check_nbf_begun now c b = elim (Option-cases c.nbf) [
  | inl missing ↦ ground arith
  | inr (n, given) ↦ let late : n * 1000 ≤ now = rw given at b in ground arith
]

module _ (J : Jwt) (now : ℕ) (token : String) (claims : Claims) where
  -- What the validation of a token rests on: a key for it, its decoding with that key, its begin.
  abbrev pub IsGood : Type 0
  IsGood =
      (key : J.Key) × (J.get_signing_key_from_jwt token ≡ ok key)
      × (J.decode token key ≡ ok claims)
      × IsBegun now claims.nbf

  -- `validate` returns the claims exactly when a key is found for the token, the token decodes with
  -- it to those claims, and `nbf`, if present, is not later than the clock.
  pub validate-eq-ok_iff : (validate J now token ≡ ok claims) ↔ IsGood
  unfolding validate
  validate-eq-ok_iff = (
    there,
    λ (key, got, decoded, begun). ground (arith, got, decoded, check_nbf_begun now claims begun),
  )
    where
      there : validate J now token ≡ ok claims → IsGood
      there h = elim (Result-cases (J.get_signing_key_from_jwt token)) [
        | inr (e, p) ↦ absurd (ground arith)
        | inl (key, p) ↦ elim (Result-cases (J.decode token key)) [
          | inr (e, q) ↦ absurd (ground arith)
          | inl (c, q) ↦
              let (same, begun) = check_nbf_returns now c claims (ground arith) in
              (key, p, q ∙ ap ok same, rw same at begun)
        ]
      ]
