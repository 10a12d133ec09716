-- ===== src/Redis/Commands.antt =====
-- The commands of a Redis server as a coroutine sees them: any of them may raise, and leaves the server
-- in some state then too; a cancellation of the task may arrive in any of them.
use mcp_agent_gateway.Base.{ℕ, String, Option}
use mcp_agent_gateway.Base.Result.{Result, ok, raise}
use mcp_agent_gateway.Redis.{Fields, Redis}

-- `asyncio.CancelledError`, which is no `Exception`, and an exception by its text
pub data Raised : Type 0 where
  cancelled : Raised
  exception : String → Raised

pub record Commands (S : Type 0) : Type 0 where
  pub set : S → ℕ → String → String → Option ℕ → Result Raised (Unit {0}) × S
  pub xadd : S → ℕ → String → Fields → Result Raised (Unit {0}) × S
  pub expire : S → ℕ → String → ℕ → Result Raised (Unit {0}) × S
  pub xack : S → String → String → String → Result Raised (Unit {0}) × S

-- a server that always answers
abbrev pub answering : (R : Redis) → Commands R.State
answering R = record {
  set = λ s now k v ms. (ok tt, R.set s now k v ms);
  xadd = λ s now k f. (ok tt, R.xadd s now k f);
  expire = λ s now k ms. (ok tt, R.expire s now k ms);
  xack = λ s stream group entry. (ok tt, R.xack s stream group entry);
}

-- `await first` and then the rest, on the state that it has left
infixl 10 ◌>>>◌
abbrev pub ◌>>>◌ :
    {S : Type 0}
    → Result Raised (Unit {0}) × S
    → (S → Result Raised (Unit {0}) × S)
    → Result Raised (Unit {0}) × S
(ok _, s) >>> f = f s
(raise e, s) >>> f = (raise e, s)
