-- ===== src/Redis.antt =====
-- What the gateway uses of a Redis server: an interface, since the server is not part of the
-- repository. Instants and spans are milliseconds; each command runs at an instant `now`.
-- `IsLawful` states the documented behaviour of the commands that the gateway relies on.
pub mod Memory
pub mod Counters
pub mod Commands
use mcp_agent_gateway.Base.{
  ℕ, ◌+◌, ◌≤◌, ltb, nat_eq, code, not, ◌&&◌, ◌||◌, String, ◌<>◌, starts_with, ◌==◌, contains,
  string_eq, Bool, true, false, Option, none, some, List, [], ◌∷◌, ◌++◌, ◌≡◌, ◌≢◌, ◌↔◌,
  if◌then◌else◌,
}

-- The fields of a stream entry.
abbrev pub Fields : Type 0
Fields = List (String × String)

-- A value that was written at `now`, as it reads at `u`: with a life of `ms` it is gone from
-- `now + ms` on.
abbrev pub live {ℓ} : {A : Type ℓ} → Option ℕ → ℕ → ℕ → A → Option A
live none now u v = some v
live (some ms) now u v = if ltb u (now + ms) then some v else none

-- A life of 0 is an error of the server, and nothing is written.
abbrev pub is_life : Option ℕ → Bool
is_life none = true
is_life (some ms) = not (nat_eq ms 0)

-- a text without the characters that have a meaning in a pattern of SCAN: `*`, `?`, `[` and `\`
unfoldable pub is_plain : String → Bool
is_plain String.[] = true
is_plain (String.◌∷◌ c s) =
    not (nat_eq (code c) 42 || nat_eq (code c) 63 || nat_eq (code c) 91 || nat_eq (code c) 92)
    && is_plain s

pub record Redis : Type 1 where
  pub State : Type 0
  -- GET
  pub get : State → ℕ → String → Option String
  -- SET, with PX for a life; the state is the one that the server is left in
  pub set : State → ℕ → String → String → Option ℕ → State
  -- SET with NX: whether the key was absent and has been written
  pub set_nx : State → ℕ → String → String → Option ℕ → Bool × State
  -- GETDEL
  pub getdel : State → ℕ → String → Option String × State
  -- DEL of several keys
  pub delete : State → List String → State
  -- SCAN with a MATCH pattern, to its end
  pub scan_iter : State → ℕ → String → List String
  -- XADD with an identifier of the server's choice
  pub xadd : State → ℕ → String → Fields → State
  -- XRANGE over a whole stream
  pub xrange : State → ℕ → String → List Fields
  -- EXPIRE, for a value or a stream
  pub expire : State → ℕ → String → ℕ → State
  -- XACK of an entry: stream, group, entry
  pub xack : State → String → String → String → State

pub record IsLawful (R : Redis) : Type 0 where
  pub get-set :
      (s : R.State) (now u : ℕ) (k v j : String) (ms : Option ℕ)
      → now ≤ u
      → R.get (R.set s now k v ms) u j
        ≡ (if j == k && is_life ms then live ms now u v else R.get s u j)
  pub set_nx_lem :
      (s : R.State) (now : ℕ) (k v : String) (ms : Option ℕ)
      → is_life ms ≡ true
      → R.set_nx s now k v ms
        ≡ elim (R.get s now k) [ none ↦ (true, R.set s now k v ms) | some _ ↦ (false, s) ]
  pub getdel_result : (s : R.State) (now : ℕ) (k : String) → (R.getdel s now k).0 ≡ R.get s now k
  pub get-getdel :
      (s : R.State) (now u : ℕ) (k j : String)
      → now ≤ u
      → R.get (R.getdel s now k).1 u j ≡ (if j == k then none else R.get s u j)
  pub get-delete :
      (s : R.State) (u : ℕ) (ks : List String) (j : String)
      → R.get (R.delete s ks) u j ≡ (if contains ks j then none else R.get s u j)
  -- a pattern that is a plain text and a star lists the live keys with that prefix
  pub contains-scan_iter :
      (s : R.State) (now : ℕ) (p j : String)
      → is_plain p ≡ true
      → (contains (R.scan_iter s now (p <> "*")) j ≡ true)
        ↔ ((starts_with j p ≡ true) × (R.get s now j ≢ none))
  -- what has expired does not come back by itself
  pub get_gone :
      (s : R.State) (now u : ℕ) (j : String) → now ≤ u → R.get s now j ≡ none → R.get s u j ≡ none
  -- what a command on streams does at once, to other streams, and to a stream that will not expire
  pub xrange-xadd_now :
      (s : R.State) (now : ℕ) (k : String) (f : Fields)
      → R.xrange (R.xadd s now k f) now k ≡ R.xrange s now k ++ (f ∷ [])
  pub xrange-xadd_ne :
      (s : R.State) (now u : ℕ) (k j : String) (f : Fields)
      → j ≢ k
      → R.xrange (R.xadd s now k f) u j ≡ R.xrange s u j
  pub xrange-xadd_later :
      (s : R.State) (now u : ℕ) (k : String) (f : Fields)
      → R.xrange s u k ≡ R.xrange s now k
      → R.xrange (R.xadd s now k f) u k ≡ R.xrange s now k ++ (f ∷ [])
  -- the life of a value that is there begins anew
  pub get-expire :
      (s : R.State) (now u : ℕ) (k : String) (ms : ℕ) (j : String)
      → now ≤ u
      → R.get (R.expire s now k ms) u j ≡ (
          if j == k
          then elim (R.get s now k) [ none ↦ none | some v ↦ live (some ms) now u v ]
          else R.get s u j)
  pub xrange-expire :
      (s : R.State) (now u : ℕ) (k : String) (ms : ℕ) (j : String)
      → now ≤ u
      → R.xrange (R.expire s now k ms) u j
        ≡ (if j == k then (if ltb u (now + ms) then R.xrange s now k else []) else R.xrange s u j)
  -- the commands on one kind of value leave the values of the other kind alone
  pub get-xadd :
      (s : R.State) (now u : ℕ) (k j : String) (f : Fields)
      → R.get (R.xadd s now k f) u j ≡ R.get s u j
  pub xrange-set :
      (s : R.State) (now u : ℕ) (k v j : String) (ms : Option ℕ)
      → R.xrange (R.set s now k v ms) u j ≡ R.xrange s u j
  -- an acknowledgement changes only what is pending
  pub get-xack :
      (s : R.State) (u : ℕ) (stream group entry j : String)
      → R.get (R.xack s stream group entry) u j ≡ R.get s u j
  pub xrange-xack :
      (s : R.State) (u : ℕ) (stream group entry j : String)
      → R.xrange (R.xack s stream group entry) u j ≡ R.xrange s u j
