-- ===== src/Tests/Server.antt =====
-- The MCP server and its store of events at concrete data.
use mcp_agent_gateway.Base.{
  sym, ℕ, String, string_eq, char_eq, contains, or_else, true, false, ◌&&◌, none, some, List, [],
  ◌∷◌, ◌++◌, ◌≡◌, ◌≢◌, refl, ap, starts_with, ◌⊎◌, arith,
}
use mcp_agent_gateway.Base.Dict.{lookup, insert}
use mcp_agent_gateway.Base.Result.{Result, ok, raise}
use mcp_agent_gateway.Mcp.EventStore.{
  EventEntry, EventStore, empty, make_stream, create_stream, drop_oldest, push, append_bounded,
  replay_loop, store_event, replay_events_after,
}
use mcp_agent_gateway.Mcp.EventStore.Consistent.{IsConsistent, empty-IsConsistent}
use mcp_agent_gateway.Mcp.EventStore.Stored.{Stored, store_event-Stored, Stored-store_event}
use mcp_agent_gateway.Mcp.EventStore.Reachable.{store_all, store_all-empty}
use mcp_agent_gateway.Mcp.EventStore.Replay.{sent_in_addition, replay_events_after-store_event}
use mcp_agent_gateway.Mcp.Server.{
  groups, tool_scope, add_groups, add_tools, scope_ok, visible_tools, Handlers, build_registry,
  unknown_tool, call,
}
use mcp_agent_gateway.Mcp.Server.Scopes.{all_tools, contains-visible_tools}
use mcp_agent_gateway.Mcp.Server.Visible.{groups-Disjoint, call-visible}

abbrev slack_scopes : List String
slack_scopes = "mcp:slack:read" ∷ []

contains-visible_tools_example : contains (visible_tools groups slack_scopes) "wait-for-job" ≡ (
    contains (all_tools groups) "wait-for-job"
    && scope_ok (or_else (lookup "wait-for-job" (tool_scope groups)) none) slack_scopes)
contains-visible_tools_example =
    contains-visible_tools groups slack_scopes "wait-for-job" groups-Disjoint

abbrev handler : String → ℕ → List String → Result String String × List String
handler name argument log = (ok name, name ∷ log)

abbrev handlers : Handlers ℕ String (List String)
handlers = record {
  drive_search_files = handler "search";
  drive_get_file_content = handler "get";
  drive_list_recent = handler "recent";
  drive_export_large_file = handler "export";
  wait_for_job = handler "wait";
  slack_send_message = handler "send";
  slack_search_messages = handler "find";
}

call-visible_example :
    ((contains (visible_tools groups slack_scopes) "slack-send-message" ≡ false)
      × (call groups (build_registry handlers) slack_scopes "slack-send-message" 7 []
          ≡ unknown_tool groups (build_registry handlers) "slack-send-message" []))
    ⊎ ((h : ℕ → List String → Result String String × List String) × (contains
            (visible_tools groups slack_scopes)
            "slack-send-message"
          ≡ true)
        × (lookup "slack-send-message" (build_registry handlers) ≡ some h)
        × (call groups (build_registry handlers) slack_scopes "slack-send-message" 7 [] ≡ h 7 []))
call-visible_example = call-visible handlers slack_scopes "slack-send-message" 7 []

-- the caller has the scope for Slack, not the one for Drive
sent :
    call groups (build_registry handlers) slack_scopes "slack-send-message" 7 []
    ≡ (ok "send", "send" ∷ [])
unfolding call lookup insert build_registry tool_scope add_groups add_tools string_eq contains
    scope_ok or_else
sent = refl

denied :
    call groups (build_registry handlers) slack_scopes "wait-for-job" 7 []
    ≡ (raise "Unknown tool: wait-for-job", [])
unfolding call lookup insert build_registry tool_scope add_groups add_tools string_eq contains
    scope_ok or_else
denied = refl

abbrev event : String → String → ℕ → EventEntry ℕ
event event_id stream_id message = record {
  event_id = event_id;
  stream_id = stream_id;
  message = some message;
}

store_event-Stored_example :
    (s' : EventStore ℕ) × (store_event 3 "e1" "s" (some 1) (empty 2) ≡ ok ("e1", s'))
    × Stored 3 (event "e1" "s" 1) (empty 2) s'
store_event-Stored_example =
    store_event-Stored (empty 2) (event "e1" "s" 1) (empty-IsConsistent 3 2) (omega arith)
      (omega arith) (unfold lookup in refl)

-- the stores after one event and after two

abbrev after_one : EventStore ℕ
after_one = record {
  max_events_per_stream = 2;
  streams = ("s", event "e1" "s" 1 ∷ []) ∷ [];
  event_index = ("e1", event "e1" "s" 1) ∷ [];
}

abbrev after_two : EventStore ℕ
after_two = record {
  max_events_per_stream = 2;
  streams = ("s", event "e1" "s" 1 ∷ event "e2" "s" 2 ∷ []) ∷ [];
  event_index = ("e1", event "e1" "s" 1) ∷ ("e2", event "e2" "s" 2) ∷ [];
}

stored_one : store_event 3 "e1" "s" (some 1) (empty {M = ℕ} 2) ≡ ok ("e1", after_one)
unfolding store_event make_stream create_stream drop_oldest push append_bounded lookup insert
    string_eq
stored_one = refl

stored_two : store_event 3 "e2" "s" (some 2) after_one ≡ ok ("e2", after_two)
unfolding store_event make_stream create_stream drop_oldest push append_bounded lookup insert
    string_eq
stored_two = refl

e1_ne_e2 : ◌≢◌ {A = String} "e1" "e2"
e1_ne_e2 e =
    let a : starts_with "e1" "e1" ≡ true = unfold starts_with char_eq in refl in
    let b : starts_with "e2" "e1" ≡ false = unfold starts_with char_eq in refl in
    cc (ap (λ s. starts_with s "e1") e)

replay_events_after-store_event_example : replay_events_after "e1" after_two ≡ (
  some "s",
  (replay_events_after "e1" after_one).1 ++ sent_in_addition (event "e1" "s" 1) (event "e2" "s" 2),
)
replay_events_after-store_event_example =
    replay_events_after-store_event 3 after_one after_two (event "e2" "s" 2) (event "e1" "s" 1) "e1"
      (Stored-store_event (empty 2) after_one (event "e1" "s" 1) (empty-IsConsistent 3 2)
        (omega arith) (omega arith) (unfold lookup in refl) stored_one).consistent
      (omega arith) (omega arith) (unfold lookup string_eq in refl) stored_two e1_ne_e2
      (unfold lookup string_eq in refl)

replayed : replay_events_after "e1" after_two ≡ (some "s", (2, "e2") ∷ [])
unfolding replay_events_after replay_loop lookup string_eq
replayed = refl

abbrev two_events : List (EventEntry ℕ)
two_events = event "e1" "s" 1 ∷ event "e2" "s" 2 ∷ []

store_all-empty_example :
    (s' : EventStore ℕ) × (store_all 3 two_events (empty 1) ≡ ok s') × IsConsistent 3 s'
store_all-empty_example =
    store_all-empty 3 1 two_events (omega arith) (omega arith)
      (((λ e. e1_ne_e2 (sym e)), tt), (tt, tt))
