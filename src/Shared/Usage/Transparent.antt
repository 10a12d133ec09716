-- ===== src/Shared/Usage/Transparent.antt =====
-- app/shared/usage.py: what the tracking of a tool's use changes.
use mcp_agent_gateway.Base.{
  ℕ, String, string_eq, truthy, Bool, false, Option, List, ◌≡◌, ◌⊎◌, or_else,
}
use mcp_agent_gateway.Base.Result.{Result, ok, raise}
use mcp_agent_gateway.Shared.Usage.{result_text, Xadd}

module _ {S A B : Type 0} (xadd : Xadd S) (count_tokens : String → Result String ℕ)
    (dumps : A → Result String String) (content : B → List (Option String)) (ts tool : String) where
  -- the texts of a call and their tokens
  abbrev pub Counted : A → B → ℕ → ℕ → Type 0
  Counted arguments result i o =
      (text : String) × (dumps arguments ≡ ok text)
      × (count_tokens text ≡ ok i)
      × (count_tokens (result_text (content result)) ≡ ok o)

  -- an exception on the way to the two numbers
  abbrev pub Uncounted : A → B → Type 0
  Uncounted arguments result =
      ((e : String) × (dumps arguments ≡ raise e))
      ⊎ ((text e : String) × (dumps arguments ≡ ok text) × (count_tokens text ≡ raise e))
      ⊎ ((e : String) × (count_tokens (result_text (content result)) ≡ raise e))

  -- why nothing is recorded of a call: it has raised, there is no server or no user, or its tokens
  -- cannot be counted
  abbrev pub Unrecorded : Bool → Option String → A → Result String B → Type 0
  Unrecorded has_redis current_user_id arguments answer =
      ((e : String) × (answer ≡ raise e))
      ⊎ (has_redis ≡ false)
      ⊎ (truthy (or_else current_user_id "") ≡ false)
      ⊎ ((result : B) × (answer ≡ ok result) × Uncounted arguments result)
