-- ===== src/Base/Words.antt =====
-- Python's `str` methods that split, strip and compare.
use Prim.Native.Char.{Char, code}
use Prim.Native.Nat.{ℕ, zero, suc, ◌+◌}
use Prim.Native.String.{String}
use mathlib.Core.Bool.{Bool, true, false, ◌&&◌, ◌||◌}
use mathlib.Core.Option.{Option, none, some}
use mathlib.Core.List.{List, [], ◌∷◌}
use mcp_agent_gateway.Base.Tests.{leb, nat_eq}
use mcp_agent_gateway.Base.Equality.{◌==◌, if◌then◌else◌}
use mcp_agent_gateway.Base.Text.{char_eq, truthy, ◌<>◌}

-- `str.isspace` of one character, by its code point
unfoldable pub is_space : ℕ → Bool
is_space c =
    (leb 9 c && leb c 13)
    || (leb 28 c && leb c 32)
    || nat_eq c 133
    || nat_eq c 160
    || nat_eq c 5760
    || (leb 8192 c && leb c 8202)
    || nat_eq c 8232
    || nat_eq c 8233
    || nat_eq c 8239
    || nat_eq c 8287
    || nat_eq c 12288

-- `s.split()`, with the word that is being read
unfoldable pub split_from : String → String → List String
unfolding is_space
split_from word String.[] = if truthy word then word ∷ [] else []
split_from word (String.◌∷◌ c s) =
    let rest = split_from "" s in
    let more = split_from (word <> String.◌∷◌ c "") s in
    if is_space (code c) then (if truthy word then word ∷ rest else rest) else more

unfoldable pub split : String → List String
unfolding split_from
split s = split_from "" s

-- `header.lower().startswith(p)` for a lower-case ASCII `p`. Header values are Latin-1, where
-- lowering makes an ASCII letter of nothing but an ASCII capital.
unfoldable pub lower_code : ℕ → ℕ
lower_code c = if leb 65 c && leb c 90 then c + 32 else c

unfoldable pub lower_starts_with : String → String → Bool
unfolding lower_code
lower_starts_with s String.[] = true
lower_starts_with String.[] (String.◌∷◌ d p) = false
lower_starts_with (String.◌∷◌ c s) (String.◌∷◌ d p) =
    nat_eq (lower_code (code c)) (code d) && lower_starts_with s p

-- `s[n:]`
unfoldable pub drop_chars : ℕ → String → String
drop_chars zero s = s
drop_chars (suc n) String.[] = ""
drop_chars (suc n) (String.◌∷◌ c s) = drop_chars n s

-- `s.rstrip(c)`
unfoldable pub rstrip : Char → String → String
rstrip c String.[] = ""
rstrip c (String.◌∷◌ d s) =
    let rest = rstrip c s in
    if truthy rest then String.◌∷◌ d rest else if d == c then "" else String.◌∷◌ d ""

-- what stands before the last `c`, if there is one
unfoldable pub before_last : Char → String → Option String
before_last c String.[] = none
before_last c (String.◌∷◌ d s) = elim (before_last c s) [
  | some r ↦ some (String.◌∷◌ d r)
  | none ↦ if d == c then some "" else none
]

-- `s.rsplit(c, 1)[0]`
unfoldable pub rsplit_head : Char → String → String
unfolding before_last
rsplit_head c s = elim (before_last c s) [ some r ↦ r | none ↦ s ]

-- a value, or a default
unfoldable pub or_else {ℓ} : {A : Type ℓ} → Option A → A → A
or_else none d = d
or_else (some a) d = a
