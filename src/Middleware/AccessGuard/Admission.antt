-- ===== src/Middleware/AccessGuard/Admission.antt =====
-- Who reaches the application behind the guard.
use mcp_agent_gateway.Base.{
  String, drop_chars, lower_starts_with, true, false, some, ◌≡◌, refl, ◌⊎◌, inl, inr, Bool-cases,
  Option-cases, arith,
}
use mcp_agent_gateway.Base.Result.{Result, ok, raise}
use mcp_agent_gateway.Identity.TokenValidator.{Claims, ValidateError, value_error, uncaught}
use mcp_agent_gateway.Middleware.Http.{Request, App}
use mcp_agent_gateway.Middleware.AccessGuard.{
  is_bypass_path, unauthorized, with_user, admit, dispatch,
}

no_bearer : lower_starts_with "" "bearer " ≡ false
unfolding lower_starts_with
no_bearer = refl

module _ {W : Type 0} (aud : String) (validate : String → Result ValidateError Claims)
    (next : App W) where
  admit_cases :
      (r : Result ValidateError Claims) (request : Request) (w : W)
      → (admit aud validate next r request w ≡ (ok (unauthorized aud), w))
        ⊎ (((claims : Claims) × (r ≡ ok claims)
              × (admit aud validate next r request w ≡ next (with_user claims request) w))
            ⊎ ((e : String) × (r ≡ raise (uncaught e))
                × (admit aud validate next r request w ≡ (raise e, w))))
  unfolding admit
  admit_cases (ok claims) request w = inr (inl (claims, refl, refl))
  admit_cases (raise (value_error m)) request w = inl refl
  admit_cases (raise (uncaught e)) request w = inr (inr (e, refl, refl))

  -- A request for a path that needs a token ends in one of three ways. It is answered 401 and nothing
  -- happens; or its header is a bearer header whose token is valid, and the application runs with the
  -- user and the scopes of that token's claims; or the validation raised something else than a
  -- `ValueError`, which goes on as it is.
  pub dispatch_admission :
      (request : Request) (w : W)
      → is_bypass_path request.path ≡ false
      → (dispatch aud validate next request w ≡ (ok (unauthorized aud), w))
        ⊎ (((header : String) × (claims : Claims) × (request.authorization ≡ some header)
              × (lower_starts_with header "bearer " ≡ true)
              × (validate (drop_chars 7 header) ≡ ok claims)
              × (dispatch aud validate next request w ≡ next (with_user claims request) w))
            ⊎ ((header : String) × (e : String) × (request.authorization ≡ some header)
                × (validate (drop_chars 7 header) ≡ raise (uncaught e))
                × (dispatch aud validate next request w ≡ (raise e, w))))
  unfolding dispatch
  dispatch_admission request w h = elim (Option-cases request.authorization) [
    | inl missing ↦ inl (ground (arith, no_bearer))
    | inr (header, p) ↦ elim (Bool-cases (lower_starts_with header "bearer ")) [
      | inr other ↦ inl (ground arith)
      | inl bearer ↦ elim (admit_cases (validate (drop_chars 7 header)) request w) [
        | inl e ↦ inl (ground arith)
        | inr (inl (claims, good, run)) ↦ inr (inl (header, claims, p, bearer, good, ground arith))
        | inr (inr (e, bad, run)) ↦ inr (inr (header, e, p, bad, ground arith))
      ]
    ]
  ]
