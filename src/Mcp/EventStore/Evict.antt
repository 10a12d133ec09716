-- ===== src/Mcp/EventStore/Evict.antt =====
-- app/mcp/event_store.py: the steps that make room for a new stream.
use mcp_agent_gateway.Base.{
  ℕ, ◌<◌, String, string_eq, contains, true, none, some, List, [], ◌∷◌, length, ◌≡◌, ◌≢◌, arith,
}
use mcp_agent_gateway.Base.Dict.{Dict, lookup, lookup-insert, insert-NodupKeys, length-insert}
use mcp_agent_gateway.Mcp.EventStore.{EventEntry, EventStore, forget, events, create_stream}
use mcp_agent_gateway.Mcp.EventStore.Entries.{ids, lookup-forget}
use mcp_agent_gateway.Mcp.EventStore.Consistent.{IsIndexed, IsConsistent, All-map, apart}

module _ {M : Type 0} where
  module _ {max_streams : ℕ} where
    module _ (max : ℕ) (k : String) (d : List (EventEntry M))
        (rest : Dict String (List (EventEntry M))) (index : Dict String (EventEntry M))
        (c : IsConsistent max_streams (record {
          max_events_per_stream = max;
          streams = (k, d) ∷ rest;
          event_index = index;
        })) where
      abbrev pub without_first : EventStore M
      without_first = record {
        max_events_per_stream = max;
        streams = rest;
        event_index = forget d index;
      }

      abbrev pub with_first : EventStore M
      with_first = record {
        max_events_per_stream = max;
        streams = (k, d) ∷ rest;
        event_index = index;
      }

      first_gone : events without_first k ≡ []
      unfolding lookup
      first_gone = ground (arith, c.distinct)

      others_same : (j : String) → j ≢ k → events without_first j ≡ events with_first j
      unfolding lookup
      others_same j n = ground arith

      first_entries : events with_first k ≡ d
      unfolding lookup
      first_entries = ground arith

      keep-IsIndexed :
          (j : String)
          → j ≢ k
          → (e : EventEntry M) → contains (ids (events with_first j)) e.event_id ≡ true
          → IsIndexed index j e
          → IsIndexed (forget d index) j e
      keep-IsIndexed j n e m i = record {
        in_stream = i.in_stream;
        found = ground (
          arith,
          lookup-forget d index e.event_id,
          apart index j k (events with_first j) d e.event_id n (c.listed j)
              (rw first_entries at (c.listed k)) m,
          i.found,
        );
      }

      still_indexed :
          (id : String) (e : EventEntry M)
          → lookup id (forget d index) ≡ some e
          → (e.event_id ≡ id) × (contains (ids (events without_first e.stream_id)) id ≡ true)
      still_indexed id e h = elim (string_eq.dec e.stream_id k) [
        | yes p ↦ ground (arith, lookup-forget d index id, c.indexed id e, first_entries)
        | no n ↦ ground (arith, lookup-forget d index id, c.indexed id e, others_same e.stream_id n)
      ]

      pub IsConsistent-without_first : IsConsistent max_streams without_first
      IsConsistent-without_first = record {
        few = omega (arith, c.few);
        distinct = c.distinct.1;
        short = λ j. elim (string_eq.dec j k) [
          | yes p ↦ rw (p, first_gone) (omega arith)
          | no n ↦ rw (others_same j n) (c.short j)
        ];
        listed = λ j. elim (string_eq.dec j k) [
          | yes p ↦ rw (p, first_gone) tt
          | no n ↦ rw (others_same j n) (All-map _ (keep-IsIndexed j n) (c.listed j))
        ];
        nodup = λ j. elim (string_eq.dec j k) [
          | yes p ↦ rw (p, first_gone) tt
          | no n ↦ rw (others_same j n) (c.nodup j)
        ];
        indexed = still_indexed;
      }

    pub IsConsistent-create_stream :
        (sid : String) (s : EventStore M)
        → IsConsistent max_streams s
        → length s.streams < max_streams
        → lookup sid s.streams ≡ none
        → IsConsistent max_streams (create_stream sid s)
    unfolding create_stream
    IsConsistent-create_stream sid s c room new = record {
      few = ground (arith, length-insert sid [] s.streams, c.few);
      distinct = insert-NodupKeys sid [] s.streams c.distinct;
      short = λ j. rw same (c.short j);
      listed = λ j. rw same (c.listed j);
      nodup = λ j. rw same (c.nodup j);
      indexed = λ id e h. rw same (c.indexed id e h);
    }
      where
        same : (j : String) → events (create_stream sid s) j ≡ events s j
        same j = ground (arith, lookup-insert j sid [] s.streams)
