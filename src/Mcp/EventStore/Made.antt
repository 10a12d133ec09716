-- ===== src/Mcp/EventStore/Made.antt =====
-- app/mcp/event_store.py: the first `if` of `store_event`.
use mcp_agent_gateway.Base.{
  ℕ, ◌<◌, leb, String, string_eq, true, none, some, List, [], ◌∷◌, length, ◌≡◌, refl, ◌⊎◌, arith,
  Option-cases, Bool-cases, inl, inr,
}
use mcp_agent_gateway.Base.Dict.{Dict, lookup, lookup-insert}
use mcp_agent_gateway.Base.Result.{ok}
use mcp_agent_gateway.Mcp.EventStore.{
  EventEntry, EventStore, forget, events, create_stream, make_stream,
}
use mcp_agent_gateway.Mcp.EventStore.Entries.{lookup-forget}
use mcp_agent_gateway.Mcp.EventStore.Consistent.{IsConsistent}
use mcp_agent_gateway.Mcp.EventStore.Evict.{
  IsConsistent-without_first, without_first, IsConsistent-create_stream,
}

module _ {M : Type 0} where
  -- What the first `if` leaves: the stream is there, other streams are as before or gone, and the
  -- index has lost nothing but events of a stream that is gone.
  pub record Made (max_streams : ℕ) (sid : String) (s s' : EventStore M) : Type 0 where
    pub consistent : IsConsistent max_streams s'
    pub limit : s'.max_events_per_stream ≡ s.max_events_per_stream
    pub here : (l : List (EventEntry M)) × (lookup sid s'.streams ≡ some l)
    pub same : events s' sid ≡ events s sid
    pub others : (j : String) → (events s' j ≡ events s j) ⊎ (events s' j ≡ [])
    pub index :
        (id : String)
        → (lookup id s'.event_index ≡ lookup id s.event_index) ⊎ (lookup id s'.event_index ≡ none)

  module _ {max_streams : ℕ} where
    create_Made :
        (sid : String) (s : EventStore M)
        → IsConsistent max_streams s
        → length s.streams < max_streams
        → lookup sid s.streams ≡ none
        → Made max_streams sid s (create_stream sid s)
    unfolding create_stream
    create_Made sid s c room new = record {
      consistent = IsConsistent-create_stream sid s c room new;
      limit = refl;
      here = ([], ground (arith, lookup-insert sid sid [] s.streams));
      same = ground (arith, lookup-insert sid sid [] s.streams);
      others = λ j. inl (ground (arith, lookup-insert j sid [] s.streams));
      index = λ id. inl refl;
    }

    evict_Made :
        (max : ℕ) (sid k : String) (d : List (EventEntry M))
        (rest : Dict String (List (EventEntry M))) (index : Dict String (EventEntry M))
        → (c : IsConsistent max_streams
            (record { max_events_per_stream = max; streams = (k, d) ∷ rest; event_index = index }))
        → lookup sid ((k, d) ∷ rest) ≡ none
        → Made max_streams sid
            (record { max_events_per_stream = max; streams = (k, d) ∷ rest; event_index = index })
            (create_stream sid (record {
              max_events_per_stream = max;
              streams = rest;
              event_index = forget d index;
            }))
    unfolding lookup create_stream
    evict_Made max sid k d rest index c new =
        let i = IsConsistent-without_first max k d rest index c in
        let m =
          create_Made sid (without_first max k d rest index c) i (ground (arith, c.few))
            (ground arith) in
        record {
          consistent = m.consistent;
          limit = refl;
          here = m.here;
          same = ground (arith, m.same);
          others = λ j. ground (arith, m.others j, c.distinct);
          index = λ id. ground (arith, lookup-forget d index id);
        }

    -- with the streams as a list, for the case where all places are taken
    full_Made :
        (max : ℕ) (sid : String) (streams : Dict String (List (EventEntry M)))
        (index : Dict String (EventEntry M))
        → 0 < max_streams
        → IsConsistent max_streams
            (record { max_events_per_stream = max; streams = streams; event_index = index })
        → lookup sid streams ≡ none
        → leb max_streams (length streams) ≡ true
        → (s' : EventStore M) × (make_stream max_streams sid none
              (record { max_events_per_stream = max; streams = streams; event_index = index })
            ≡ ok s')
          × Made max_streams sid
              (record { max_events_per_stream = max; streams = streams; event_index = index })
              s'
    unfolding make_stream
    full_Made max sid [] index pos c new full = absurd (ground arith)
    full_Made max sid ((k, d) ∷ rest) index pos c new full = (
      create_stream sid
          (record { max_events_per_stream = max; streams = rest; event_index = forget d index }),
      rw full,
      evict_Made max sid k d rest index c new,
    )

    pub make_stream-Made :
        (sid : String) (s : EventStore M)
        → IsConsistent max_streams s
        → 0 < max_streams
        → (s' : EventStore M) × (make_stream max_streams sid (lookup sid s.streams) s ≡ ok s')
          × Made max_streams sid s s'
    unfolding make_stream
    make_stream-Made sid s c pos = elim (Option-cases (lookup sid s.streams)) [
      | inr (l, found) ↦ (
        s,
        rw found,
        record {
          consistent = c;
          limit = refl;
          here = (l, found);
          same = refl;
          others = λ j. inl refl;
          index = λ id. inl refl;
        },
      )
      | inl new ↦ elim (Bool-cases (leb max_streams (length s.streams))) [
        | inl full ↦
            rw new (full_Made s.max_events_per_stream sid s.streams s.event_index pos c new full)
        | inr room ↦ (create_stream sid s, rw (new, room), create_Made sid s c (ground arith) new)
      ]
    ]
