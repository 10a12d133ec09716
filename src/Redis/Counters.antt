-- ===== src/Redis/Counters.antt =====
-- The counter commands of a Redis server, which the rate limiter's script runs: an interface.
-- A counter has a value and perhaps a deadline, from which on it is gone.
use mcp_agent_gateway.Base.{
  ℕ, ◌+◌, ◌-◌, ◌≤◌, ltb, String, string_eq, ◌==◌, Bool, true, Option, none, some, ◌≡◌, refl, inl,
  inr, Option-cases, arith, if◌then◌else◌,
}
use mcp_agent_gateway.Base.Dict.{Dict, lookup, insert, lookup-insert}

abbrev pub Counter : Type 0
Counter = record { value : ℕ; deadline : Option ℕ }

abbrev pub live_counter : ℕ → Option Counter → Option Counter
live_counter u none = none
live_counter u (some c) = elim c.deadline [
  | none ↦ some c
  | some d ↦ if ltb u d then some c else none
]

abbrev pub bumped : Option Counter → Counter
bumped none = record { value = 1; deadline = none }
bumped (some c) = record { value = c.value + 1; deadline = c.deadline }

abbrev pub due : ℕ → Option Counter → Option Counter
due d none = none
due d (some c) = some (record { value = c.value; deadline = some d })

-- PTTL answers a negative number, `none` here, for no counter and for no deadline.
abbrev pub remaining : ℕ → Option Counter → Option ℕ
remaining now none = none
remaining now (some c) = elim c.deadline [ none ↦ none | some d ↦ some (d - now) ]

pub record Counters : Type 1 where
  pub State : Type 0
  -- whether the server answers; a command raises otherwise
  pub available : State → Bool
  -- INCR: the new value
  pub incr : State → ℕ → String → ℕ × State
  -- PEXPIRE
  pub pexpire : State → ℕ → String → ℕ → State
  -- PTTL
  pub pttl : State → ℕ → String → Option ℕ

pub record IsLawful (C : Counters) : Type 0 where
  -- the counter under a key at an instant
  pub counter : C.State → ℕ → String → Option Counter
  pub counter_later :
      (s : C.State) (now u : ℕ) (k : String)
      → now ≤ u
      → counter s u k ≡ live_counter u (counter s now k)
  pub incr_result :
      (s : C.State) (now : ℕ) (k : String) → (C.incr s now k).0 ≡ (bumped (counter s now k)).value
  pub counter-incr :
      (s : C.State) (now u : ℕ) (k j : String)
      → now ≤ u
      → counter (C.incr s now k).1 u j
        ≡ (if j == k then live_counter u (some (bumped (counter s now k))) else counter s u j)
  pub counter-pexpire :
      (s : C.State) (now u : ℕ) (k : String) (ms : ℕ) (j : String)
      → now ≤ u
      → counter (C.pexpire s now k ms) u j
        ≡ (if j == k then live_counter u (due (now + ms) (counter s now k)) else counter s u j)
  pub pttl_lem :
      (s : C.State) (now : ℕ) (k : String) → C.pttl s now k ≡ remaining now (counter s now k)
  -- the commands do not stop the server
  pub available-incr :
      (s : C.State) (now : ℕ) (k : String) → C.available (C.incr s now k).1 ≡ C.available s
  pub available-pexpire :
      (s : C.State) (now : ℕ) (k : String) (ms : ℕ)
      → C.available (C.pexpire s now k ms) ≡ C.available s

-- A server in memory, which meets the assumptions.
abbrev Table : Type 0
Table = Dict String Counter

abbrev at : Table → ℕ → String → Option Counter
at t u k = live_counter u (lookup k t)

abbrev expire_in : Table → ℕ → String → ℕ → Option Counter → Table
expire_in t now k ms none = t
expire_in t now k ms (some c) = insert k (record { value = c.value; deadline = some (now + ms) }) t

abbrev pub memory : Counters
memory = record {
  State = Table;
  available = λ t. true;
  incr = λ t now k. let c = bumped (at t now k) in (c.value, insert k c t);
  pexpire = λ t now k ms. expire_in t now k ms (at t now k);
  pttl = λ t now k. remaining now (at t now k);
}

gone_later : (t : Table) (now u : ℕ) (k : String) → now ≤ u → at t now k ≡ none → at t u k ≡ none
gone_later t now u k h e = ground arith

at-expire_in :
    (t : Table) (now u : ℕ) (k : String) (ms : ℕ) (j : String)
    → now ≤ u
    → at (expire_in t now k ms (at t now k)) u j
      ≡ (if j == k then live_counter u (due (now + ms) (at t now k)) else at t u j)
at-expire_in t now u k ms j h = elim (Option-cases (at t now k)) [
  | inl gone ↦ rw gone (ground (arith, gone_later t now u k h gone))
  | inr (c, here) ↦
      rw (here, lookup-insert j k (record { value = c.value; deadline = some (now + ms) }) t)
        (ground arith)
]

pub memory-IsLawful : IsLawful memory
memory-IsLawful = record {
  counter = at;
  counter_later = λ t now u k h. ground arith;
  incr_result = λ t now k. refl;
  counter-incr = λ t now u k j h. rw lookup-insert (ground arith);
  counter-pexpire = at-expire_in;
  pttl_lem = λ t now k. refl;
  available-incr = λ t now k. refl;
  available-pexpire = λ t now k ms. refl;
}

pub counter_in_memory :
    (t : Dict String Counter) (u : ℕ) (k : String)
    → memory-IsLawful.counter t u k ≡ live_counter u (lookup k t)
unfolding memory-IsLawful
counter_in_memory t u k = refl
