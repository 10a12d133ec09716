-- ===== src/Middleware/AccessGuard/Scopes.antt =====
-- The scopes that a token grants.
use mcp_agent_gateway.Base.{
  String, string_eq, split, or_else, contains, contains-append, true, ◌||◌, some, List, [], ◌∷◌,
  ◌≡◌, ◌↔◌, ◌⊎◌, inl, inr, Bool-cases, Option-cases, arith,
}
use mcp_agent_gateway.Base.Dict.{lookup}
use mcp_agent_gateway.Identity.TokenValidator.{Claims}
use mcp_agent_gateway.Middleware.AccessGuard.{
  role_scope_map, client_roles, mapped_roles, granted_scopes,
}

-- The scope is mapped from a role of the list.
abbrev pub FromRole : List String → String → Type 0
FromRole roles s = (r : String) × (contains roles r ≡ true) × (lookup r role_scope_map ≡ some s)

mapped_roles_sound :
    (roles : List String) (s : String) → contains (mapped_roles roles) s ≡ true → FromRole roles s
unfolding mapped_roles contains
mapped_roles_sound [] s h = absurd (cc)
mapped_roles_sound (r ∷ rs) s h = elim (Option-cases (lookup r role_scope_map)) [
  | inl unmapped ↦ later (mapped_roles_sound rs s (ground arith))
  | inr (scope, found) ↦ elim (string_eq.dec s scope) [
    | yes p ↦ (r, ground arith, ground arith)
    | no n ↦ later (mapped_roles_sound rs s (ground arith))
  ]
]
  where
    later : FromRole rs s → FromRole (r ∷ rs) s
    later (q, m, e) = (q, ground arith, e)

mapped_roles_complete :
    (roles : List String) (r s : String)
    → contains roles r ≡ true
    → lookup r role_scope_map ≡ some s
    → contains (mapped_roles roles) s ≡ true
unfolding mapped_roles contains
mapped_roles_complete [] r s m e = absurd (cc)
mapped_roles_complete (q ∷ rs) r s m e = ground (arith, mapped_roles_complete rs r s)

-- A token grants a scope exactly when its `scope` claim has the scope as a word, or one of its roles
-- of the gateway's client is mapped to the scope.
pub contains-granted_scopes :
    (claims : Claims) (s : String)
    → (contains (granted_scopes claims) s ≡ true)
      ↔ ((contains (split (or_else claims.scope "")) s ≡ true) ⊎ FromRole (client_roles claims) s)
unfolding granted_scopes
contains-granted_scopes claims s = (there, back)
  where
    both : contains (granted_scopes claims) s ≡ (
        contains (split (or_else claims.scope "")) s
        || contains (mapped_roles (client_roles claims)) s)
    both = contains-append (split (or_else claims.scope "")) (mapped_roles (client_roles claims)) s

    there :
        contains (granted_scopes claims) s ≡ true
        → (contains (split (or_else claims.scope "")) s ≡ true) ⊎ FromRole (client_roles claims) s
    there h = elim (Bool-cases (contains (split (or_else claims.scope "")) s)) [
      | inl e ↦ inl e
      | inr n ↦ inr (mapped_roles_sound (client_roles claims) s (ground (arith, both)))
    ]

    back :
        (contains (split (or_else claims.scope "")) s ≡ true) ⊎ FromRole (client_roles claims) s
        → contains (granted_scopes claims) s ≡ true
    back (inl e) = ground (arith, both)
    back (inr (r, m, e)) = ground (arith, both, mapped_roles_complete (client_roles claims) r s m e)
