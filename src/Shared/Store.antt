-- ===== src/Shared/Store.antt =====
-- app/shared/store.py: the `Store` protocol, with `RedisStore` and `InMemoryStore` below.
-- A time to live is in seconds, an instant in milliseconds.
pub mod InMemory
pub mod Redis
use mcp_agent_gateway.Base.{ℕ, ◌+◌, ◌*◌, ◌≤◌, ◌<◌, String, Bool, Option, none, some, ◌≡◌, ◌≢◌}

-- The four methods, each at an instant.
pub record Store : Type 1 where
  pub State : Type 0
  -- the times to live that `set` accepts; with another one it raises
  pub accepts : Option ℕ → Type 0
  pub set : State → ℕ → String → String → Option ℕ → State
  pub get : State → ℕ → String → Option String × State
  pub pop : State → ℕ → String → Option String × State
  pub clear : State → ℕ → State

-- The contract: some `view` of the state, what a reader at an instant finds under a key, explains
-- every method. At the instant of expiry itself an implementation may go either way.
pub record Contract (S : Store) : Type 0 where
  pub view : S.State → ℕ → String → Option String
  pub get_result : (s : S.State) (now : ℕ) (k : String) → (S.get s now k).0 ≡ view s now k
  pub view-get :
      (s : S.State) (now u : ℕ) (k j : String) → now ≤ u → view (S.get s now k).1 u j ≡ view s u j
  pub view-set_forever :
      (s : S.State) (now u : ℕ) (k v : String) → now ≤ u → view (S.set s now k v none) u k ≡ some v
  pub view-set_fresh :
      (s : S.State) (now u : ℕ) (k v : String) (ttl : ℕ)
      → now ≤ u
      → u < now + ttl * 1000
      → view (S.set s now k v (some ttl)) u k ≡ some v
  pub view-set_stale :
      (s : S.State) (now u : ℕ) (k v : String) (ttl : ℕ)
      → S.accepts (some ttl)
      → now + ttl * 1000 < u
      → view (S.set s now k v (some ttl)) u k ≡ none
  pub view-set_ne :
      (s : S.State) (now u : ℕ) (k v : String) (ttl : Option ℕ) (j : String)
      → now ≤ u
      → j ≢ k
      → view (S.set s now k v ttl) u j ≡ view s u j
  pub pop_result : (s : S.State) (now : ℕ) (k : String) → (S.pop s now k).0 ≡ view s now k
  pub view-pop_self :
      (s : S.State) (now u : ℕ) (k : String) → now ≤ u → view (S.pop s now k).1 u k ≡ none
  pub view-pop_ne :
      (s : S.State) (now u : ℕ) (k j : String)
      → now ≤ u
      → j ≢ k
      → view (S.pop s now k).1 u j ≡ view s u j
  pub view-clear :
      (s : S.State) (now u : ℕ) (k : String) → now ≤ u → view (S.clear s now) u k ≡ none
