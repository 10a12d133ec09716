-- ===== src/Redis/Memory.antt =====
-- A server in memory, which meets the assumptions.
use mathlib.Core.Bool.{◌&&◌}
use mcp_agent_gateway.Base.{
  ℕ, ◌+◌, ◌≤◌, ltb, String, ◌<>◌, starts_with, ◌==◌, contains, string_eq, char_eq, Bool, true,
  false, Option, none, some, List, [], ◌∷◌, ◌++◌, ◌≡◌, ◌≢◌, refl, if◌then◌else◌, arith, not,
  ==_refl,
}
use mcp_agent_gateway.Redis.{Fields, live, is_life, Redis, IsLawful}

abbrev pub Value : Type 0
Value = record { text : String; made : ℕ; life : Option ℕ }

-- Writes are recorded newest first, deletions too.
pub data Write : Type 0 where
  put : String → String → ℕ → Option ℕ → Write
  drop : String → Write
  append : String → ℕ → Fields → Write
  expires : String → ℕ → ℕ → Write

abbrev pub Log : Type 0
Log = List Write

abbrev pub read : Log → ℕ → String → Option String
read [] u j = none
read (put k v now ms ∷ l) u j = if j == k then live ms now u v else read l u j
read (drop k ∷ l) u j = if j == k then none else read l u j
read (append k t f ∷ l) u j = read l u j
read (expires k t ms ∷ l) u j =
    if j == k then elim (read l t k) [ none ↦ none | some v ↦ live (some ms) t u v ] else read l u j

abbrev is_empty {ℓ} : {A : Type ℓ} → List A → Bool
is_empty [] = true
is_empty (_ ∷ _) = false

-- An entry goes with the stream that it was added to.
abbrev grown : List Fields → List Fields → Fields → List Fields
grown then_ now_ f = if is_empty now_ && not (is_empty then_) then [] else now_ ++ (f ∷ [])

abbrev pub stream : Log → ℕ → String → List Fields
stream [] u j = []
stream (append k t f ∷ l) u j =
    if j == k then grown (stream l t j) (stream l u j) f else stream l u j
stream (expires k t ms ∷ l) u j =
    if j == k then (if ltb u (t + ms) then stream l t k else []) else stream l u j
stream (_ ∷ l) u j = stream l u j

abbrev drops : Log → List String → Log
drops l [] = l
drops l (k ∷ ks) = drop k ∷ drops l ks

abbrev is_some {ℓ} : {A : Type ℓ} → Option A → Bool
is_some none = false
is_some (some a) = true

-- the text without its last character, which is the star of the pattern
abbrev without_star : String → String
without_star String.[] = ""
without_star (String.◌∷◌ c String.[]) = ""
without_star (String.◌∷◌ c (String.◌∷◌ d s)) = String.◌∷◌ c (without_star (String.◌∷◌ d s))

without_star-append : (p : String) → without_star (p <> "*") ≡ p
without_star-append String.[] = refl
without_star-append (String.◌∷◌ c String.[]) = refl
without_star-append (String.◌∷◌ c (String.◌∷◌ d s)) = rw (without_star-append (String.◌∷◌ d s))

-- the keys written, live at `now`, with the prefix
abbrev scan : Log → Log → ℕ → String → List String
scan all [] now p = []
scan all (put k v t ms ∷ l) now p =
    let rest = scan all l now p in
    if starts_with k p && is_some (read all now k) then k ∷ rest else rest
scan all (_ ∷ l) now p = scan all l now p

abbrev pub memory : Redis
memory = record {
  State = Log;
  get = read;
  set = λ l now k v ms. if is_life ms then put k v now ms ∷ l else l;
  set_nx = λ l now k v ms. elim (read l now k) [
    | none ↦ (true, if is_life ms then put k v now ms ∷ l else l)
    | some _ ↦ (false, l)
  ];
  getdel = λ l now k. (read l now k, drop k ∷ l);
  delete = drops;
  scan_iter = λ l now pattern. scan l l now (without_star pattern);
  xadd = λ l now k f. append k now f ∷ l;
  xrange = stream;
  expire = λ l now k ms. expires k now ms ∷ l;
  xack = λ l stream group entry. l;
}

read-drops :
    (l : Log) (u : ℕ) (ks : List String) (j : String)
    → read (drops l ks) u j ≡ (if contains ks j then none else read l u j)
unfolding contains
read-drops l u [] j = refl
read-drops l u (k ∷ ks) j = ground (arith, read-drops l u ks j)

read_gone : (l : Log) (now u : ℕ) (j : String) → now ≤ u → read l now j ≡ none → read l u j ≡ none
read_gone [] now u j h e = refl
read_gone (put k v t ms ∷ l) now u j h e = ground (arith, read_gone l now u j h)
read_gone (drop k ∷ l) now u j h e = ground (arith, read_gone l now u j h)
read_gone (append k t f ∷ l) now u j h e = read_gone l now u j h e
read_gone (expires k t ms ∷ l) now u j h e = ground (arith, read_gone l now u j h)

-- what is listed has the prefix and is live
scan_sound :
    (all l : Log) (now : ℕ) (p j : String)
    → contains (scan all l now p) j ≡ true
    → (starts_with j p ≡ true) × (read all now j ≢ none)
unfolding contains
scan_sound all [] now p j h = absurd (cc)
scan_sound all (put k v t ms ∷ l) now p j h = ground (arith, scan_sound all l now p j)
scan_sound all (drop k ∷ l) now p j h = scan_sound all l now p j h
scan_sound all (append k t f ∷ l) now p j h = scan_sound all l now p j h
scan_sound all (expires k t ms ∷ l) now p j h = scan_sound all l now p j h

-- a live key was written, and is listed if it has the prefix
scan_complete :
    (all l : Log) (now u : ℕ) (p j : String)
    → starts_with j p ≡ true
    → read all now j ≢ none
    → read l u j ≢ none
    → contains (scan all l now p) j ≡ true
unfolding contains
scan_complete all [] now u p j h a b = absurd (b refl)
scan_complete all (put k v t ms ∷ l) now u p j h a b =
    ground (arith, scan_complete all l now u p j h a)
scan_complete all (drop k ∷ l) now u p j h a b = ground (arith, scan_complete all l now u p j h a)
scan_complete all (append k t f ∷ l) now u p j h a b = scan_complete all l now u p j h a b
scan_complete all (expires k t ms ∷ l) now u p j h a b = elim (string_eq.dec j k) [
  | yes same ↦ scan_complete all l now t p j h a (ground arith)
  | no differ ↦ scan_complete all l now u p j h a (ground arith)
]

grown_same : (fs : List Fields) (f : Fields) → grown fs fs f ≡ fs ++ (f ∷ [])
grown_same [] f = refl
grown_same (g ∷ gs) f = refl

pub memory-IsLawful : IsLawful memory
memory-IsLawful = record {
  get-set = λ s now u k v j ms h. ground arith;
  set_nx_lem = λ s now k v ms h. refl;
  getdel_result = λ s now k. refl;
  get-getdel = λ s now u k j h. refl;
  get-delete = read-drops;
  contains-scan_iter = λ s now p j plain.
      rw without_star-append
        (scan_sound s s now p j, λ h. scan_complete s s now now p j h.0 h.1 h.1);
  get_gone = read_gone;
  xrange-xadd_now = λ s now k f. rw ==_refl (grown_same (stream s now k) f);
  xrange-xadd_ne = λ s now u k j f h. ground arith;
  xrange-xadd_later = λ s now u k f h. rw (==_refl, h) (grown_same (stream s now k) f);
  get-expire = λ s now u k ms j h. refl;
  xrange-expire = λ s now u k ms j h. refl;
  get-xadd = λ s now u k j f. refl;
  xrange-set = λ s now u k v j ms. ground arith;
  get-xack = λ s u stream group entry j. refl;
  xrange-xack = λ s u stream group entry j. refl;
}
