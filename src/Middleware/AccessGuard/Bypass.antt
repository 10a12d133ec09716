-- ===== src/Middleware/AccessGuard/Bypass.antt =====
-- The paths that need no token.
use mathlib.Core.Bool.{false≢true}
use mcp_agent_gateway.Base.{
  String, string_eq, char_eq, ◌<>◌, starts_with, starts_with-append, rest_of_starts_with,
  starts_with_comparable, ◌==◌, contains, true, false, ◌||◌, List, [], ◌∷◌, ◌≡◌, refl, sym, ◌∙◌,
  ◌↔◌, ◌⊎◌, inl, inr, Bool-cases, arith, ==_refl,
}
use mcp_agent_gateway.Middleware.AccessGuard.{
  auth_bypass_exact, auth_bypass_prefixes, under_any, is_bypass_path,
}

-- The path is `p`, or lies below it.
abbrev pub Below : String → String → Type 0
Below p path = (path ≡ p) ⊎ ((r : String) × (path ≡ (p <> "/") <> r))

Below-of_test : (p path : String) → (path == p || starts_with path (p <> "/")) ≡ true → Below p path
Below-of_test p path h = elim (Bool-cases (starts_with path (p <> "/"))) [
  | inl t ↦ inr (rest_of_starts_with path (p <> "/") t)
  | inr f ↦ inl (ground arith)
]

test_of-Below : (p path : String) → Below p path → (path == p || starts_with path (p <> "/")) ≡ true
test_of-Below p path (inl e) = ground arith
test_of-Below p path (inr (r, e)) = rw e (ground (arith, starts_with-append (p <> "/") r))

under_any_sound :
    (path : String) (ps : List String)
    → under_any path ps ≡ true
    → (p : String) × (contains ps p ≡ true) × Below p path
unfolding under_any contains
under_any_sound path [] h = absurd (cc)
under_any_sound path (p ∷ ps) h = elim (Bool-cases (path == p || starts_with path (p <> "/"))) [
  | inl t ↦ (p, ground (arith, ==_refl p), Below-of_test p path t)
  | inr f ↦ let (q, m, b) = under_any_sound path ps (ground arith) in (q, ground arith, b)
]

under_any_complete :
    (path p : String) (ps : List String)
    → contains ps p ≡ true
    → Below p path
    → under_any path ps ≡ true
unfolding under_any contains
under_any_complete path p [] m b = absurd (cc)
under_any_complete path p (q ∷ ps) m b =
    ground (arith, under_any_complete path p ps, test_of-Below p path b)

-- A path is let through without a token exactly when it is one of the two exact paths, or one of the
-- four prefixes, or lies below one of them behind a slash.
pub is_bypass_path_iff :
    (path : String)
    → (is_bypass_path path ≡ true) ↔ (
        (contains auth_bypass_exact path ≡ true)
        ⊎ ((p : String) × (contains auth_bypass_prefixes p ≡ true) × Below p path))
unfolding is_bypass_path
is_bypass_path_iff path = (there, back)
  where
    there :
        (contains auth_bypass_exact path || under_any path auth_bypass_prefixes) ≡ true
        → (contains auth_bypass_exact path ≡ true)
          ⊎ ((p : String) × (contains auth_bypass_prefixes p ≡ true) × Below p path)
    there h = elim (Bool-cases (contains auth_bypass_exact path)) [
      | inl e ↦ inl e
      | inr n ↦ inr (under_any_sound path auth_bypass_prefixes (ground arith))
    ]

    back :
        (contains auth_bypass_exact path ≡ true)
          ⊎ ((p : String) × (contains auth_bypass_prefixes p ≡ true) × Below p path)
        → (contains auth_bypass_exact path || under_any path auth_bypass_prefixes) ≡ true
    back (inl e) = ground arith
    back (inr (p, m, b)) = ground (arith, under_any_complete path p auth_bypass_prefixes m b)

not_exact :
    (x path : String)
    → starts_with path "/mcp" ≡ true
    → starts_with x "/mcp" ≡ false
    → (path == x) ≡ false
not_exact x path h n = elim (string_eq.dec path x) [
  | yes p ↦ absurd (false≢true (sym n ∙ (rw p at h)))
  | no q ↦ ground arith
]

not_below :
    (p path : String)
    → starts_with path "/mcp" ≡ true
    → (starts_with "/mcp" p || starts_with p "/mcp") ≡ false
    → starts_with path p ≡ false
not_below p path h n = elim (Bool-cases (starts_with path p)) [
  | inr f ↦ f
  | inl t ↦
      let (r, e) = rest_of_starts_with path "/mcp" h in
      let (r', e') = rest_of_starts_with path p t in
      absurd (false≢true (sym n ∙ starts_with_comparable "/mcp" p r r' (sym e ∙ e')))
]

-- No path that begins with `/mcp` is let through without a token.
pub is_bypass_path-mcp :
    (path : String) → starts_with path "/mcp" ≡ true → is_bypass_path path ≡ false
unfolding is_bypass_path under_any contains
is_bypass_path-mcp path h = ground (
  arith,
  not_exact "/openapi.json" path h (unfold starts_with char_eq in refl),
  not_exact "/oauth/authorize" path h (unfold starts_with char_eq in refl),
  not_exact "/health" path h (unfold starts_with char_eq in refl),
  not_exact "/.well-known" path h (unfold starts_with char_eq in refl),
  not_exact "/docs" path h (unfold starts_with char_eq in refl),
  not_exact "/webhooks" path h (unfold starts_with char_eq in refl),
  not_below "/health/" path h (unfold starts_with char_eq in refl),
  not_below "/.well-known/" path h (unfold starts_with char_eq in refl),
  not_below "/docs/" path h (unfold starts_with char_eq in refl),
  not_below "/webhooks/" path h (unfold starts_with char_eq in refl),
)
