-- ===== src/Base/Decimal.antt =====
-- Python's `str` of a number that is not negative, and `int` of a text of decimal digits.
use Prim.Native.Nat.{ℕ, zero, suc, ◌+◌, ◌-◌, ◌*◌, ◌/◌, ◌%◌, ◌<◌}
use Prim.Native.Char.{Char, code}
use Prim.Native.String.{String, [], ◌∷◌}
use mathlib.Core.Path.{◌≡◌, refl, ◌∙◌, ap}
use mathlib.Core.Bool.{Bool, ◌&&◌}
use mathlib.Core.Option.{Option, none, some}
use mathlib.Core.Logic.{inl, inr}
use native.Mathlib.Omega.{arith}
use mcp_agent_gateway.Base.Tests.{leb, ltb, Bool-cases}
use mcp_agent_gateway.Base.Equality.{if◌then◌else◌}

-- the character of a decimal digit
unfoldable pub digit : ℕ → Char
digit zero = "0"
digit (suc zero) = "1"
digit (suc (suc zero)) = "2"
digit (suc (suc (suc zero))) = "3"
digit (suc (suc (suc (suc zero)))) = "4"
digit (suc (suc (suc (suc (suc zero))))) = "5"
digit (suc (suc (suc (suc (suc (suc zero)))))) = "6"
digit (suc (suc (suc (suc (suc (suc (suc zero))))))) = "7"
digit (suc (suc (suc (suc (suc (suc (suc (suc zero)))))))) = "8"
digit _ = "9"

-- the digits of `n` in front of `rest`, with fuel above `n`
unfoldable pub digits_before : ℕ → ℕ → String → String
digits_before zero n rest = rest
digits_before (suc fuel) n rest =
    let more = digits_before fuel (n / 10) (digit (n % 10) ∷ rest) in
    if ltb n 10 then digit n ∷ rest else more

unfoldable pub decimal : ℕ → String
decimal n = digits_before (suc n) n ""

unfoldable pub is_digit : ℕ → Bool
is_digit c = leb 48 c && leb c 57

unfoldable pub read_digits : ℕ → String → Option ℕ
unfolding is_digit
read_digits n [] = some n
read_digits n (c ∷ s) =
    let rest = read_digits (n * 10 + (code c - 48)) s in if is_digit (code c) then rest else none

-- `int` raises on a text that is no number.
unfoldable pub int_of : String → Option ℕ
unfolding read_digits
int_of [] = none
int_of (c ∷ s) = read_digits 0 (c ∷ s)

code-digit : (d : ℕ) → d < 10 → code (digit d) ≡ 48 + d
unfolding digit
code-digit zero h = refl
code-digit (suc zero) h = refl
code-digit (suc (suc zero)) h = refl
code-digit (suc (suc (suc zero))) h = refl
code-digit (suc (suc (suc (suc zero)))) h = refl
code-digit (suc (suc (suc (suc (suc zero))))) h = refl
code-digit (suc (suc (suc (suc (suc (suc zero)))))) h = refl
code-digit (suc (suc (suc (suc (suc (suc (suc zero))))))) h = refl
code-digit (suc (suc (suc (suc (suc (suc (suc (suc zero)))))))) h = refl
code-digit (suc (suc (suc (suc (suc (suc (suc (suc (suc zero))))))))) h = refl
code-digit (suc (suc (suc (suc (suc (suc (suc (suc (suc (suc n)))))))))) h = absurd (omega arith)

read_digit :
    (n d : ℕ) (s : String) → d < 10 → read_digits n (digit d ∷ s) ≡ read_digits (n * 10 + d) s
unfolding read_digits
read_digit n d s h =
    let e : 48 + d - 48 ≡ d = omega arith in rw (code-digit d h) (rw e (ground arith))

read_digits-digits_before :
    (fuel n : ℕ) (rest : String)
    → n < fuel
    → read_digits 0 (digits_before fuel n rest) ≡ read_digits n rest
unfolding digits_before
read_digits-digits_before zero n rest h = elim h [ ]
read_digits-digits_before (suc f) n rest h = elim (Bool-cases (ltb n 10)) [
  | inl small ↦ rw small (read_digit 0 n rest (ground arith) ∙ ground arith)
  | inr large ↦ rw large (
      read_digits-digits_before f (n / 10) _ (ground arith)
      ∙ (read_digit (n / 10) (n % 10) rest (omega arith)
          ∙ ap (λ (m : ℕ). read_digits m rest) (omega arith)))
]

int_of-digits_before :
    (fuel n : ℕ) (c : Char) (s : String)
    → int_of (digits_before fuel n (c ∷ s)) ≡ read_digits 0 (digits_before fuel n (c ∷ s))
unfolding digits_before int_of
int_of-digits_before zero n c s = refl
int_of-digits_before (suc f) n c s =
    ground (arith, int_of-digits_before f (n / 10) (digit (n % 10)) (c ∷ s))

int_of-digits :
    (f n : ℕ) → int_of (digits_before (suc f) n "") ≡ read_digits 0 (digits_before (suc f) n "")
unfolding digits_before int_of
int_of-digits f n = ground (arith, int_of-digits_before f (n / 10) (digit (n % 10)) "")

-- `int(str(n)) == n`
pub int_of-decimal : (n : ℕ) → int_of (decimal n) ≡ some n
unfolding decimal
int_of-decimal n =
    int_of-digits n n
    ∙ (read_digits-digits_before (suc n) n "" (omega arith) ∙ (unfold read_digits in refl))
