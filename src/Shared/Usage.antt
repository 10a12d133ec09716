-- ===== src/Shared/Usage.antt =====
-- app/shared/usage.py. The encoding of tiktoken, `json.dumps` and XADD are arguments, and may raise.
-- `str(time.time())` is an argument too.
pub mod Transparent
use mcp_agent_gateway.Base.{
  ℕ, decimal, String, truthy, ◌<>◌, Bool, true, false, Option, none, some, List, [], ◌∷◌, or_else,
  if◌then◌else◌,
}
use mcp_agent_gateway.Base.Result.{Result, ok, raise, ◌>>=◌}
use mcp_agent_gateway.Redis.{Fields}

abbrev pub usage_key : String → String
usage_key user_id = "usage:" <> user_id

unfoldable pub usage_fields : String → String → ℕ → ℕ → Fields
usage_fields ts tool in_tokens out_tokens =
    ("ts", ts)
    ∷ ("tool", tool)
    ∷ ("in_tokens", decimal in_tokens)
    ∷ ("out_tokens", decimal out_tokens)
    ∷ []

-- `_result_text`: the texts of the blocks of a result's content, `none` for a block without
unfoldable pub result_text : List (Option String) → String
result_text [] = ""
result_text (none ∷ blocks) = result_text blocks
result_text (some text ∷ blocks) = text <> result_text blocks

-- XADD, which may raise: on a state, at an instant, to a stream
abbrev pub Xadd : Type 0 → Type 0
Xadd S = S → ℕ → String → Fields → Result String (Unit {0}) × S

-- a handler of a tool, which may use the server too
abbrev pub Handler : Type 0 → Type 0 → Type 0 → Type 0
Handler S A B = A → S → Result String B × S

module _ {S : Type 0} (xadd : Xadd S) where
  unfoldable pub record_usage :
      S → ℕ → String → String → String → ℕ → ℕ → Result String (Unit {0}) × S
  unfolding usage_fields
  record_usage s now ts user_id tool in_tokens out_tokens =
      xadd s now (usage_key user_id) (usage_fields ts tool in_tokens out_tokens)

  module _ {A B : Type 0} (count_tokens : String → Result String ℕ)
      (dumps : A → Result String String) (content : B → List (Option String)) (ts : String) where
    -- `count_tokens(json.dumps(arguments, default=str))`, and then that of the result
    unfoldable pub counts : A → B → Result String (ℕ × ℕ)
    counts arguments result = dumps arguments >>= count_tokens >>= λ in_tokens.
        count_tokens (result_text (content result)) >>= λ out_tokens. ok (in_tokens, out_tokens)

    -- the body of the second `if`
    unfoldable pub record_call : String → ℕ → String → A → B → S → Result String (Unit {0}) × S
    unfolding counts record_usage
    record_call tool now user_id arguments result s = elim (counts arguments result) [
      | raise e ↦ (raise e, s)
      | ok (in_tokens, out_tokens) ↦ record_usage s now ts user_id tool in_tokens out_tokens
    ]

    -- the `try` after the handler; its exception is logged, and what it has done stays
    unfoldable pub recorded : String → Bool → Option String → ℕ → A → Result String B → S → S
    unfolding record_call or_else
    recorded tool has_redis current_user_id now arguments (raise e) s = s
    recorded tool has_redis current_user_id now arguments (ok result) s =
        if has_redis
        then (if truthy (or_else current_user_id "")
            then (record_call tool now (or_else current_user_id "") arguments result s).1
            else s)
        else s

    -- `track_usage(tool_name, redis)(handler)`
    unfoldable pub track_usage : String → Bool → Option String → ℕ → Handler S A B → Handler S A B
    unfolding recorded
    track_usage tool has_redis current_user_id now handler arguments s =
        let (result, s') = handler arguments s in
        (result, recorded tool has_redis current_user_id now arguments result s')
