-- ===== src/Logging.antt =====
-- app/logging.py: the filter that masks secrets in a message. The table of the letters, digits and
-- underscores of `\w` is an argument. A match is given by its length, and no match by 0.
pub mod Clean
pub mod Masked
use Prim.Native.Char.{Char, code}
use Prim.Native.String
use mcp_agent_gateway.Base.{
  ℕ, zero, suc, ◌+◌, String, char_eq, ◌<>◌, ◌==◌, is_space, Bool, true, false, ◌&&◌, ◌||◌, not,
  List, [], ◌∷◌, if◌then◌else◌,
}

-- a character of a class `[…]`
unfoldable pub is_among : String → Char → Bool
is_among String.[] c = false
is_among (String.◌∷◌ x xs) c = c == x || is_among xs c

-- `\s` and `\S`
unfoldable pub is_blank : Char → Bool
is_blank c = is_space (code c)

unfoldable pub is_visible : Char → Bool
unfolding is_blank
is_visible c = not (is_blank c)

-- the greedy `+` of a class
unfoldable pub run_length : (Char → Bool) → String → ℕ
run_length in_class String.[] = 0
run_length in_class (String.◌∷◌ c s) =
    let rest = run_length in_class s in if in_class c then suc rest else 0

-- one character after the other, and then what `body` matches
unfoldable pub match_length : List String → (String → ℕ) → String → ℕ
unfolding is_among
match_length [] body s = body s
match_length (class ∷ classes) body String.[] = 0
match_length (class ∷ classes) body (String.◌∷◌ c s) = elim (match_length classes body s) [
  | zero ↦ 0
  | suc n ↦ if is_among class c then suc (suc n) else 0
]

-- `\s+\S+`
unfoldable pub blank_length : String → ℕ
unfolding is_blank is_visible run_length
blank_length String.[] = 0
blank_length (String.◌∷◌ c s) =
    if is_blank c
    then elim (blank_length s) [
      | zero ↦ elim (run_length is_visible s) [ zero ↦ 0 | suc n ↦ suc (suc n) ]
      | suc n ↦ suc (suc n)
    ]
    else 0

unfoldable pub bearer_length : String → ℕ
unfolding match_length blank_length
bearer_length = match_length ("bB" ∷ "eE" ∷ "aA" ∷ "rR" ∷ "eE" ∷ "rR" ∷ []) blank_length

unfoldable pub slack_length : String → ℕ
unfolding match_length run_length is_visible
slack_length = match_length ("x" ∷ "o" ∷ "x" ∷ "abpr" ∷ "-" ∷ []) (run_length is_visible)

unfoldable pub google_length : (Char → Bool) → String → ℕ
unfolding match_length run_length is_among
google_length is_word =
    match_length ("1" ∷ "/" ∷ "/" ∷ []) (run_length (λ c. is_word c || is_among ".-" c))

-- `pattern.sub(replacement, text)`, from left to right; the number is of the characters that the
-- last match still covers
unfoldable pub sub : (String → ℕ) → String → ℕ → String → String
sub length_at replacement skip String.[] = String.[]
sub length_at replacement (suc skip) (String.◌∷◌ c s) = sub length_at replacement skip s
sub length_at replacement zero (String.◌∷◌ c s) = elim (length_at (String.◌∷◌ c s)) [
  | zero ↦ String.◌∷◌ c (sub length_at replacement 0 s)
  | suc n ↦ replacement <> sub length_at replacement n s
]

unfoldable pub mask_bearer : String → String
unfolding sub bearer_length
mask_bearer = sub bearer_length "Bearer ***" 0

unfoldable pub mask_slack : String → String
unfolding sub slack_length
mask_slack = sub slack_length "xox*-***" 0

unfoldable pub mask_google : (Char → Bool) → String → String
unfolding sub google_length
mask_google is_word = sub (google_length is_word) "1//***" 0

-- the filter, on a message that is a text
unfoldable pub filter_message : (Char → Bool) → String → String
unfolding mask_bearer mask_slack mask_google
filter_message is_word msg = mask_google is_word (mask_slack (mask_bearer msg))
