-- ===== src/Base/Text.antt =====
-- Python's `str` as the native text: the functions that walk it, by clauses on its characters.
use Prim.Native.Char.{Char, code}
use Prim.Native.String.{String, [], ◌∷◌}
use mathlib.Core.Path.{◌≡◌, refl, ap}
use mathlib.Core.Logic.{dite}
use mathlib.Core.Bool.{Bool, true, false, ◌&&◌, ◌||◌}
use mathlib.Core.List.{List}
use native.Mathlib.Decide.{ℕ_discrete}
use native.Mathlib.Omega.{arith}
use text.Mathlib.TextEquality.{Char-path}
use text.Mathlib.TextLemmas.{cons-eq-cons}
use mcp_agent_gateway.Base.Equality.{Eq, ◌==◌, if◌then◌else◌}

-- Shut in proofs, as the one for texts is.
instance unfoldable pub char_eq : Eq Char
unfolding ℕ_discrete
char_eq = record {
  dec = λ c d.
      dite (ℕ_discrete (code c) (code d)) (λ p. yes (Char-path c d p))
        (λ n. no (λ p. n (ap code p)));
}

-- the truth value of a `str`
abbrev pub truthy : String → Bool
truthy [] = false
truthy (c ∷ s) = true

infixr 65 ◌<>◌
abbrev pub ◌<>◌ : String → String → String
[] <> t = t
(c ∷ s) <> t = c ∷ (s <> t)

pub append_nil : (s : String) → s <> [] ≡ s
append_nil [] = refl
append_nil (c ∷ s) = ap (◌∷◌ c) (append_nil s)

pub append_text_assoc : (s t u : String) → (s <> t) <> u ≡ s <> (t <> u)
append_text_assoc [] t u = refl
append_text_assoc (c ∷ s) t u = ap (◌∷◌ c) (append_text_assoc s t u)

pub append_text_cancel : (s t u : String) → s <> t ≡ s <> u → t ≡ u
append_text_cancel [] t u p = p
append_text_cancel (c ∷ s) t u p = append_text_cancel s t u (cons-eq-cons.0 p).1

-- `s.startswith(p)`
unfoldable pub starts_with : String → String → Bool
starts_with s [] = true
starts_with [] (d ∷ p) = false
starts_with (c ∷ s) (d ∷ p) = c == d && starts_with s p

pub starts_with-append : (p s : String) → starts_with (p <> s) p ≡ true
unfolding starts_with
starts_with-append [] s = refl
starts_with-append (c ∷ p) s = ground (arith, starts_with-append p s)

-- The prefix test passes exactly when the text is the prefix and a rest.
pub rest_of_starts_with : (s p : String) → starts_with s p ≡ true → (r : String) × (s ≡ p <> r)
unfolding starts_with
rest_of_starts_with s [] h = (s, refl)
rest_of_starts_with [] (d ∷ p) h = absurd (cc)
rest_of_starts_with (c ∷ s) (d ∷ p) h =
    let (r, e) = rest_of_starts_with s p (ground arith) in (r, ground arith)

-- Two beginnings of one text are comparable.
pub starts_with_comparable :
    (p q s t : String) → p <> s ≡ q <> t → (starts_with p q || starts_with q p) ≡ true
unfolding starts_with
starts_with_comparable [] [] s t e = refl
starts_with_comparable [] (d ∷ q) s t e = refl
starts_with_comparable (c ∷ p) [] s t e = refl
starts_with_comparable (c ∷ p) (d ∷ q) s t e =
    ground (arith, starts_with_comparable p q s t (cons-eq-cons.0 e).1, (cons-eq-cons.0 e).0)

-- `needle in text`
unfoldable pub has_text : String → String → Bool
unfolding starts_with
has_text needle [] = starts_with [] needle
has_text needle (c ∷ s) = starts_with (c ∷ s) needle || has_text needle s

-- `s.replace(c, r)` for one character `c`
unfoldable pub replace_char : Char → String → String → String
replace_char c r [] = []
replace_char c r (d ∷ s) = let rest = replace_char c r s in if d == c then r <> rest else d ∷ rest

-- `sep.join(parts)`
unfoldable pub join : String → List String → String
join sep List.[] = []
join sep (List.◌∷◌ s List.[]) = s
join sep (List.◌∷◌ s (List.◌∷◌ t rest)) = s <> (sep <> join sep (List.◌∷◌ t rest))
