-- ===== src/Logging/Clean.antt =====
-- Which texts have no Slack token, and which masks leave a text so.
use Prim.Native.Char.{Char}
use mcp_agent_gateway.Base.{
  ℕ, zero, suc, ◌<◌, String, char_eq, ◌<>◌, ◌&&◌, Bool, true, false, List, [], ◌∷◌, ◌≡◌, refl,
  subst, ◌⊎◌, inl, inr, arith,
}
use mcp_agent_gateway.Logging.{is_among, is_visible, run_length, match_length, slack_length, sub}

-- no token begins anywhere in the text
abbrev pub IsClean : String → Type 0
IsClean String.[] = Unit
IsClean (String.◌∷◌ c s) = (slack_length (String.◌∷◌ c s) ≡ 0) × IsClean s

abbrev pub matches : List String → String → ℕ
matches classes = match_length classes (run_length is_visible)

pub match_length-cons :
    (class : String) (classes : List String) (body : String → ℕ) (c : Char) (s : String)
    → 0 < match_length (class ∷ classes) body (String.◌∷◌ c s)
    → (is_among class c ≡ true) × (0 < match_length classes body s)
unfolding match_length
match_length-cons class classes body c s h = ground arith

cons-match_length :
    (class : String) (classes : List String) (body : String → ℕ) (c : Char) (s : String)
    → is_among class c ≡ true
    → 0 < match_length classes body s
    → 0 < match_length (class ∷ classes) body (String.◌∷◌ c s)
unfolding match_length
cons-match_length class classes body c s a h = ground arith

-- the classes of the pattern from the second character on
abbrev pub from_kind : List String
from_kind = "abpr" ∷ "-" ∷ []

abbrev pub from_x : List String
from_x = "x" ∷ from_kind

abbrev pub from_o : List String
from_o = "o" ∷ from_x

ℕ-cases : (n : ℕ) → (n ≡ 0) ⊎ ((m : ℕ) × (n ≡ suc m))
ℕ-cases zero = inl refl
ℕ-cases (suc m) = inr (m, refl)

run-cons :
    (p : Char → Bool) (c : Char) (s : String)
    → (p c ≡ true → 0 < run_length p (String.◌∷◌ c s))
      × (0 < run_length p (String.◌∷◌ c s) → p c ≡ true)
unfolding run_length
run-cons p c s = ground arith

unfoldable pub all_visible : String → Bool
all_visible String.[] = true
all_visible (String.◌∷◌ x xs) = is_visible x && all_visible xs

pub is_among-visible :
    (class : String) (c : Char)
    → all_visible class ≡ true
    → is_among class c ≡ true
    → is_visible c ≡ true
unfolding is_among all_visible
is_among-visible String.[] c v h = absurd (cc)
is_among-visible (String.◌∷◌ x xs) c v h = ground (arith, is_among-visible xs c)

pub not_among :
    (class : String) (classes : List String) (c : Char) (t : String)
    → is_among class c ≡ false
    → matches (class ∷ classes) (String.◌∷◌ c t) ≡ 0
unfolding match_length
not_among class classes c t h = ground arith

pub not_after :
    (class : String) (classes : List String) (c : Char) (t : String)
    → matches classes t ≡ 0
    → matches (class ∷ classes) (String.◌∷◌ c t) ≡ 0
unfolding match_length
not_after class classes c t h = ground arith

-- What a mask has to do: a match of it begins with a character that is not blank, the mask takes no
-- part in a token, is clean in front of what is clean, and where it matches nothing in a text that
-- meets `Q`, no token begins.
pub record IsMask (length_at : String → ℕ) (mask : String) (Q : String → Type 0) : Type 0 where
  pub visible : (c : Char) (s : String) → 0 < length_at (String.◌∷◌ c s) → is_visible c ≡ true
  pub tail : (c : Char) (s : String) → Q (String.◌∷◌ c s) → Q s
  pub kept :
      (c : Char) (s : String)
      → length_at (String.◌∷◌ c s) ≡ 0
      → Q (String.◌∷◌ c s)
      → slack_length (String.◌∷◌ c s) ≡ 0
  pub no_dash : (t : String) → matches ("-" ∷ []) (mask <> t) ≡ 0
  pub no_kind : (t : String) → matches from_kind (mask <> t) ≡ 0
  pub no_x : (t : String) → matches from_x (mask <> t) ≡ 0
  pub no_o : (t : String) → matches from_o (mask <> t) ≡ 0
  pub clean : (t : String) → IsClean t → IsClean (mask <> t)

module _ (length_at : String → ℕ) (mask : String) where
  abbrev masked : String → String
  masked = sub length_at mask 0

  masked_char :
      (c : Char) (s : String)
      → length_at (String.◌∷◌ c s) ≡ 0
      → masked (String.◌∷◌ c s) ≡ String.◌∷◌ c (masked s)
  unfolding sub
  masked_char c s e = rw (e, sub) refl

  masked_token :
      (c : Char) (s : String) (n : ℕ)
      → length_at (String.◌∷◌ c s) ≡ suc n
      → masked (String.◌∷◌ c s) ≡ mask <> sub length_at mask n s
  unfolding sub
  masked_token c s n e = rw (e, sub) refl

  -- One character further, a match in the masked text comes from one in the text.
  further :
      (class : String) (classes : List String)
      → ((t : String) → matches (class ∷ classes) (mask <> t) ≡ 0)
      → ((s : String) → 0 < matches classes (masked s) → 0 < matches classes s)
      → (s : String) → 0 < matches (class ∷ classes) (masked s)
      → 0 < matches (class ∷ classes) s
  further class classes apart next String.[] h = unfold sub in h
  further class classes apart next (String.◌∷◌ c s) h =
      elim (ℕ-cases (length_at (String.◌∷◌ c s))) [
        | inl none_ ↦
            let h' = subst (λ t. 0 < matches (class ∷ classes) t) (masked_char c s none_) h in
            let (a, m) = match_length-cons class classes (run_length is_visible) c (masked s) h' in
            cons-match_length class classes (run_length is_visible) c s a (next s m)
        | inr (n, some_) ↦
            let h' = subst (λ t. 0 < matches (class ∷ classes) t) (masked_token c s n some_) h in
            absurd (omega (arith, apart (sub length_at mask n s)))
      ]

  module _ (Q : String → Type 0) (M : IsMask length_at mask Q) where
    at_body : (s : String) → 0 < matches [] (masked s) → 0 < matches [] s
    unfolding match_length
    at_body String.[] h = unfold sub in h
    at_body (String.◌∷◌ c s) h = elim (ℕ-cases (length_at (String.◌∷◌ c s))) [
      | inl none_ ↦
          let h' = subst (λ t. 0 < run_length is_visible t) (masked_char c s none_) h in
          (run-cons is_visible c s).0 ((run-cons is_visible c (masked s)).1 h')
      | inr (n, some_) ↦ (run-cons is_visible c s).0 (M.visible c s (omega arith))
    ]

    at_dash : (s : String) → 0 < matches ("-" ∷ []) (masked s) → 0 < matches ("-" ∷ []) s
    at_dash = further "-" [] M.no_dash at_body

    at_kind : (s : String) → 0 < matches from_kind (masked s) → 0 < matches from_kind s
    at_kind = further "abpr" ("-" ∷ []) M.no_kind at_dash

    at_x : (s : String) → 0 < matches from_x (masked s) → 0 < matches from_x s
    at_x = further "x" from_kind M.no_x at_kind

    at_o : (s : String) → 0 < matches from_o (masked s) → 0 < matches from_o s
    at_o = further "o" from_x M.no_o at_x

    -- A character at which no token begins stays so in front of the masked rest.
    char-masked :
        (c : Char) (s : String)
        → slack_length (String.◌∷◌ c s) ≡ 0
        → slack_length (String.◌∷◌ c (masked s)) ≡ 0
    unfolding slack_length
    char-masked c s e = elim (ℕ-cases (slack_length (String.◌∷◌ c (masked s)))) [
      | inl none_ ↦ none_
      | inr (n, some_) ↦
          let (a, m) =
            match_length-cons "x" from_o (run_length is_visible) c (masked s) (omega arith) in
          let found = cons-match_length "x" from_o (run_length is_visible) c s a (at_o s m) in
          absurd (omega arith)
    ]

    pub sub-IsClean : (skip : ℕ) (s : String) → Q s → IsClean (sub length_at mask skip s)
    unfolding sub
    sub-IsClean skip String.[] q = tt
    sub-IsClean (suc skip) (String.◌∷◌ c s) q = sub-IsClean skip s (M.tail c s q)
    sub-IsClean zero (String.◌∷◌ c s) q = elim (ℕ-cases (length_at (String.◌∷◌ c s))) [
      | inl none_ ↦
          rw (masked_char c s none_)
            (char-masked c s (M.kept c s none_ q), sub-IsClean 0 s (M.tail c s q))
      | inr (n, some_) ↦
          rw (masked_token c s n some_)
            (M.clean (sub length_at mask n s) (sub-IsClean n s (M.tail c s q)))
    ]
