-- ===== src/Mcp/EventStore/Replay.antt =====
-- Replay after a store: what a client that resumes behind an event is sent.
use mathlib.Core.List.{append-nil}
use mcp_agent_gateway.Base.{
  ℕ, ◌<◌, String, string_eq, ◌==◌, contains, true, false, none, some, List, [], ◌∷◌, ◌++◌, ◌≡◌,
  refl, ◌∙◌, ap, ◌≢◌, arith, if◌then◌else◌, inl, inr,
}
use mcp_agent_gateway.Base.Dict.{lookup}
use mcp_agent_gateway.Base.Result.{ok}
use mcp_agent_gateway.Mcp.EventStore.{
  EventEntry, EventStore, Sent, events, send, replay_loop, replay_events_after, store_event,
}
use mcp_agent_gateway.Mcp.EventStore.Entries.{ids, NodupIds, contains-ids-append, contains-ids-snoc}
use mcp_agent_gateway.Mcp.EventStore.Consistent.{IsConsistent}
use mcp_agent_gateway.Mcp.EventStore.Stored.{Stored, Stored-store_event}

module _ {M : Type 0} where
  -- once the event is found, all that follows is sent
  loop_true-append :
      (id : String) (l k : List (EventEntry M))
      → replay_loop id true (l ++ k) ≡ replay_loop id true l ++ replay_loop id true k
  unfolding replay_loop
  loop_true-append id [] k = refl
  loop_true-append id (e ∷ l) k = ground (arith, loop_true-append id l k)

  loop_false-append :
      (id : String) (l k : List (EventEntry M))
      → contains (ids l) id ≡ true
      → replay_loop id false (l ++ k) ≡ replay_loop id false l ++ replay_loop id true k
  unfolding replay_loop contains
  loop_false-append id [] k h = absurd (cc)
  loop_false-append id (e ∷ l) k h =
      ground (arith, loop_true-append id l k, loop_false-append id l k)

  -- events before the one that is looked for are passed over
  loop_skip :
      (id : String) (l k : List (EventEntry M))
      → contains (ids l) id ≡ false
      → replay_loop id false (l ++ k) ≡ replay_loop id false k
  unfolding replay_loop contains
  loop_skip id [] k h = refl
  loop_skip id (e ∷ l) k h = ground (arith, loop_skip id l k)

  lost_apart :
      (id : String) (l k : List (EventEntry M))
      → NodupIds (l ++ k)
      → contains (ids k) id ≡ true
      → contains (ids l) id ≡ false
  unfolding contains
  lost_apart id [] k d h = refl
  lost_apart id (e ∷ l) k d h =
      ground (arith, lost_apart id l k, contains-ids-append l k e.event_id)

  -- what a later replay sends in addition
  abbrev pub sent_in_addition : EventEntry M → EventEntry M → Sent M
  sent_in_addition last e = if last.stream_id == e.stream_id then send e [] else []

  -- the events of a stream that a replay walks, before and after a store
  loop-Stored :
      {max_streams : ℕ} (s s' : EventStore M) (e last : EventEntry M) (id : String)
      → IsConsistent max_streams s
      → Stored max_streams e s s'
      → id ≢ e.event_id
      → lookup id s'.event_index ≡ some last
      → replay_loop id false (events s' last.stream_id)
        ≡ replay_loop id false (events s last.stream_id) ++ sent_in_addition last e
  loop-Stored s s' e last id c t n h = elim (string_eq.dec last.stream_id e.stream_id) [
    | yes p ↦
        let held : contains (ids t.kept) id ≡ true = ground (
          arith,
          contains-ids-snoc t.kept e id,
          (t.consistent.indexed id last h).1,
          ap (events s') p,
          t.newest,
        ) in
        rw
          (
            ap (events s') p ∙ t.newest,
            ap (events s) p ∙ t.split,
            loop_false-append id t.kept (e ∷ []) held,
            loop_skip id t.lost t.kept
                (lost_apart id t.lost t.kept (rw t.split at (c.nodup e.stream_id)) held),
          )
          (unfold replay_loop in ground arith)
    | no q ↦ elim (t.others last.stream_id q) [
      | inl same ↦
          rw same (ground (arith, append-nil (replay_loop id false (events s last.stream_id))))
      | inr gone ↦
          absurd (unfold contains in ground (arith, (t.consistent.indexed id last h).1, gone))
    ]
  ]

  -- In a consistent store with room, storing an event with a new identifier adds to a replay behind
  -- an older event, that is still held, the new message if the older event is of the same stream,
  -- and nothing otherwise.
  pub replay_events_after-store_event :
      (max_streams : ℕ) (s s' : EventStore M) (e last : EventEntry M) (id : String)
      → IsConsistent max_streams s
      → 0 < max_streams
      → 0 < s.max_events_per_stream
      → lookup e.event_id s.event_index ≡ none
      → store_event max_streams e.event_id e.stream_id e.message s ≡ ok (e.event_id, s')
      → id ≢ e.event_id
      → lookup id s'.event_index ≡ some last
      → replay_events_after id s'
        ≡ (some last.stream_id, (replay_events_after id s).1 ++ sent_in_addition last e)
  unfolding replay_events_after
  replay_events_after-store_event max_streams s s' e last id c pos some_room fresh run n h =
      let t = Stored-store_event s s' e c pos some_room fresh run in
      ground (arith, loop-Stored s s' e last id c t n h, t.index id n)
