-- ===== src/Logging/Masked.antt =====
-- What is left of Slack tokens in a message that has been through the filter.
use Prim.Native.Char.{Char}
use mcp_agent_gateway.Base.{
  ◌<◌, String, char_eq, is_space, ◌<>◌, Bool, true, false, [], ◌∷◌, ◌≡◌, refl,
}
use mcp_agent_gateway.Logging.{
  is_among, is_visible, run_length, slack_length, google_length, mask_slack, mask_google,
  mask_bearer, filter_message,
}
use mcp_agent_gateway.Logging.Clean.{
  IsClean, matches, from_kind, from_x, from_o, match_length-cons, all_visible, is_among-visible,
  not_among, not_after, IsMask, sub-IsClean,
}

abbrev mask : String
mask = "xox*-***"

slack_visible : (c : Char) (s : String) → 0 < slack_length (String.◌∷◌ c s) → is_visible c ≡ true
unfolding slack_length
slack_visible c s h =
    is_among-visible "x" c (unfold all_visible is_visible is_space in refl)
      (match_length-cons "x" from_o (run_length is_visible) c s h).0

-- The mask is clean in front of what is clean.
mask-IsClean : (t : String) → IsClean t → IsClean (mask <> t)
unfolding slack_length is_among char_eq
mask-IsClean t h =
    let none_ : (c : Char) (s : String)
        → is_among "x" c ≡ false
        → slack_length (String.◌∷◌ c s) ≡ 0 =
      not_among "x" from_o in
    let after_star : (s : String) → matches from_kind (String.◌∷◌ "*" s) ≡ 0 =
      λ s. not_among "abpr" ("-" ∷ []) "*" s refl in
    let xox : matches from_o ("ox*-***" <> t) ≡ 0 =
      not_after "o" from_x "o" ("x*-***" <> t)
        (not_after "x" from_kind "x" ("*-***" <> t) (after_star ("-***" <> t))) in
    (
      not_after "x" from_o "x" ("ox*-***" <> t) xox,
      (
        none_ "o" ("x*-***" <> t) refl,
        (
          not_after "x" from_o "x" ("*-***" <> t) (not_among "o" from_x "*" ("-***" <> t) refl),
          (
            none_ "*" ("-***" <> t) refl,
            (
              none_ "-" ("***" <> t) refl,
              (none_ "*" ("**" <> t) refl, (none_ "*" ("*" <> t) refl, (none_ "*" t refl, h))),
            ),
          ),
        ),
      ),
    )

slack-IsMask : IsMask slack_length mask (λ s. Unit {0})
unfolding is_among char_eq
slack-IsMask = record {
  visible = slack_visible;
  tail = λ c s q. tt;
  kept = λ c s e q. e;
  no_dash = λ t. not_among "-" [] "x" ("ox*-***" <> t) refl;
  no_kind = λ t. not_among "abpr" ("-" ∷ []) "x" ("ox*-***" <> t) refl;
  no_x = λ t.
      not_after "x" from_kind "x" ("ox*-***" <> t)
        (not_among "abpr" ("-" ∷ []) "o" ("x*-***" <> t) refl);
  no_o = λ t. not_among "o" from_x "x" ("ox*-***" <> t) refl;
  clean = mask-IsClean;
}

abbrev google_mask : String
google_mask = "1//***"

google_visible :
    (is_word : Char → Bool) (c : Char) (s : String)
    → 0 < google_length is_word (String.◌∷◌ c s)
    → is_visible c ≡ true
unfolding google_length
google_visible is_word c s h =
    is_among-visible "1" c (unfold all_visible is_visible is_space in refl)
      (match_length-cons "1" ("/" ∷ "/" ∷ []) _ c s h).0

google_mask-IsClean : (t : String) → IsClean t → IsClean (google_mask <> t)
unfolding slack_length is_among char_eq
google_mask-IsClean t h =
    let none_ : (c : Char) (s : String)
        → is_among "x" c ≡ false
        → slack_length (String.◌∷◌ c s) ≡ 0 =
      not_among "x" from_o in
    (
      none_ "1" ("//***" <> t) refl,
      (
        none_ "/" ("/***" <> t) refl,
        (
          none_ "/" ("***" <> t) refl,
          (none_ "*" ("**" <> t) refl, (none_ "*" ("*" <> t) refl, (none_ "*" t refl, h))),
        ),
      ),
    )

google-IsMask : (is_word : Char → Bool) → IsMask (google_length is_word) google_mask IsClean
unfolding is_among char_eq
google-IsMask is_word = record {
  visible = google_visible is_word;
  tail = λ c s q. q.1;
  kept = λ c s e q. q.0;
  no_dash = λ t. not_among "-" [] "1" ("//***" <> t) refl;
  no_kind = λ t. not_among "abpr" ("-" ∷ []) "1" ("//***" <> t) refl;
  no_x = λ t. not_among "x" from_kind "1" ("//***" <> t) refl;
  no_o = λ t. not_among "o" from_x "1" ("//***" <> t) refl;
  clean = google_mask-IsClean;
}

-- In a message that has been through the filter no Slack token begins anywhere: nowhere stands
-- `xoxa-`, `xoxb-`, `xoxp-` or `xoxr-` with a character that is not blank behind it, neither from
-- the message nor put together by the masks.
pub filter_message-IsClean :
    (is_word : Char → Bool) (msg : String) → IsClean (filter_message is_word msg)
unfolding filter_message mask_slack mask_google
filter_message-IsClean is_word msg =
    sub-IsClean (google_length is_word) google_mask IsClean (google-IsMask is_word) 0
      (mask_slack (mask_bearer msg))
      (sub-IsClean slack_length mask (λ s. Unit {0}) slack-IsMask 0 (mask_bearer msg) tt)
