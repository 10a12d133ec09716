-- ===== src/Tests/Masks.antt =====
-- The filter of the messages at concrete data.
use Prim.Native.Char.{Char}
use mcp_agent_gateway.Base.{char_eq, is_space, Bool, ◌≡◌, refl}
use mcp_agent_gateway.Logging.{
  is_among, is_blank, is_visible, run_length, match_length, blank_length, bearer_length,
  slack_length, google_length, sub, mask_bearer, mask_slack, mask_google, filter_message,
}
use mcp_agent_gateway.Logging.Clean.{IsClean}
use mcp_agent_gateway.Logging.Masked.{filter_message-IsClean}

-- the letters of the example
abbrev is_word : Char → Bool
is_word = is_among "abcxyz_0123"

filter_message-IsClean_example : IsClean (filter_message is_word "post xoxb-1-a 1//0ab-c")
filter_message-IsClean_example = filter_message-IsClean is_word "post xoxb-1-a 1//0ab-c"

filter_runs :
    filter_message is_word "BEARER  a.b: xoxb-1-a 1//0ab-c." ≡ "Bearer *** xox*-*** 1//***"
unfolding filter_message mask_bearer mask_slack mask_google sub bearer_length slack_length
    google_length match_length blank_length run_length is_blank is_visible is_among is_space char_eq
filter_runs = refl
