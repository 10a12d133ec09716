-- ===== src/Integrations/Google/DriveQuery/Literal.antt =====
-- How Drive reads a query: text in quotes, with `\` before a quote or a backslash, is one literal.
-- This reading is the specification of `_escape` and `build_drive_query`.
use Prim.Native.String.{[], ◌∷◌}
use mcp_agent_gateway.Base.{
  String, Char, ◌<>◌, ◌==◌, char_eq, Bool, true, false, not, ◌&&◌, Option, none, some, ◌≡◌, refl,
  arith, if◌then◌else◌, replace_char,
}
use mcp_agent_gateway.Integrations.Google.DriveQuery.{escape}

abbrev pub prepend : Char → Option (String × String) → Option (String × String)
prepend c none = none
prepend c (some (s, rest)) = some (c ∷ s, rest)

-- Reads a literal after its opening quote, up to the closing one; the flag is set after a `\`.
unfoldable pub read_literal : Bool → String → Option (String × String)
read_literal escaped [] = none
read_literal true (c ∷ s) = prepend c (read_literal false s)
read_literal false (c ∷ s) =
    let plain = prepend c (read_literal false s) in
    let after = read_literal true s in
    if c == "'" then some ("", s) else if c == "\\" then after else plain

quote-backslash : (◌==◌ {A = Char} "\\" "'") ≡ false
unfolding char_eq
quote-backslash = refl

-- the two passes of `escape` at one character
escape-cons :
    (c : Char) (s : String)
    → escape (c ∷ s) ≡ (
        if c == "\\"
        then "\\\\" <> escape s
        else if c == "'"
        then "\\'" <> escape s
        else c ∷ escape s)
unfolding escape replace_char
escape-cons c s = ground (arith, quote-backslash)

escape-nil : escape [] ≡ []
unfolding escape replace_char
escape-nil = refl

-- A closing quote put behind an escaped text ends the literal there, and the literal is the text.
pub read_literal-escape :
    (s rest : String) → read_literal false (escape s <> ("'" <> rest)) ≡ some (s, rest)
unfolding read_literal
read_literal-escape [] rest = rw escape-nil (unfold char_eq in refl)
read_literal-escape (c ∷ s) rest =
    rw escape-cons (ground (arith, read_literal-escape s rest, quote-backslash))

prepend-some :
    (c : Char) (t : String) (o o' : Option (String × String)) {v rest : String}
    → prepend c o ≡ some (v, rest)
    → ((w r : String) → o ≡ some (w, r) → o' ≡ some (w, r <> t))
    → prepend c o' ≡ some (v, rest <> t)
prepend-some c t none o' h k = absurd (cc)
prepend-some c t (some (w, r)) o' h k = rw (k w r refl) (ground arith)

pub read_literal-append :
    (escaped : Bool) (s t : String) {v rest : String}
    → read_literal escaped s ≡ some (v, rest)
    → read_literal escaped (s <> t) ≡ some (v, rest <> t)
unfolding read_literal
read_literal-append true [] t h = absurd (cc)
read_literal-append false [] t h = absurd (cc)
read_literal-append true (c ∷ s) t h =
    prepend-some c t _ _ h (λ w r e. read_literal-append false s t e)
read_literal-append false (c ∷ s) t {v} {rest} h =
    let plain : prepend c (read_literal false s) ≡ some (v, rest)
        → prepend c (read_literal false (s <> t)) ≡ some (v, rest <> t) =
      λ k. prepend-some c t _ _ k (λ w r e. read_literal-append false s t e) in
    ground (arith, plain, read_literal-append true s t {v = v} {rest = rest})

-- A text with no quote and no backslash.
abbrev pub is_clean : String → Bool
is_clean [] = true
is_clean (c ∷ s) = not (c == "'") && (not (c == "\\") && is_clean s)

pub escape_of_clean : (s : String) → is_clean s ≡ true → escape s ≡ s
escape_of_clean [] h = escape-nil
escape_of_clean (c ∷ s) h = rw escape-cons (ground (arith, escape_of_clean s))

pub is_clean-append :
    (s t : String) → is_clean s ≡ true → is_clean t ≡ true → is_clean (s <> t) ≡ true
is_clean-append [] t h k = k
is_clean-append (c ∷ s) t h k = ground (arith, is_clean-append s t)
