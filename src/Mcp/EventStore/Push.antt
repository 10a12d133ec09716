-- ===== src/Mcp/EventStore/Push.antt =====
-- A new event at the end of a stream that has room for it.
use mcp_agent_gateway.Base.{
  ℕ, ◌<◌, String, string_eq, ◌==◌, contains, true, false, none, some, List, [], ◌∷◌, ◌++◌, length,
  All-append, ◌≡◌, refl, ◌≢◌, arith, if◌then◌else◌, length-append, Bool-cases, inl, inr, ==_refl,
}
use mcp_agent_gateway.Base.Dict.{lookup, insert, lookup-insert, insert-NodupKeys, length-insert}
use mcp_agent_gateway.Mcp.EventStore.{EventEntry, EventStore, events}
use mcp_agent_gateway.Mcp.EventStore.Entries.{ids, NodupIds-snoc, contains-ids-snoc, entry_of_id}
use mcp_agent_gateway.Mcp.EventStore.Consistent.{IsIndexed, IsConsistent, All-map}

module _ {M : Type 0} where
  module _ {max_streams : ℕ} where
    module _ (s : EventStore M) (c : IsConsistent max_streams s) (e : EventEntry M)
        (l : List (EventEntry M)) (here : lookup e.stream_id s.streams ≡ some l)
        (room : length l < s.max_events_per_stream)
        (fresh : lookup e.event_id s.event_index ≡ none) where
      abbrev pub pushed : EventStore M
      pushed = record s {
        streams = insert e.stream_id (l ++ e ∷ []) s.streams;
        event_index = insert e.event_id e s.event_index;
      }

      old_stream : events s e.stream_id ≡ l
      old_stream = rw here

      pub events-pushed :
          (j : String) → events pushed j ≡ (if j == e.stream_id then l ++ e ∷ [] else events s j)
      events-pushed j = ground (arith, lookup-insert j e.stream_id (l ++ e ∷ []) s.streams)

      pushed_ne : (j : String) → j ≢ e.stream_id → events pushed j ≡ events s j
      pushed_ne j n = rw events-pushed (ground arith)

      keep-IsIndexed :
          (j : String) (x : EventEntry M)
          → IsIndexed s.event_index j x
          → IsIndexed (insert e.event_id e s.event_index) j x
      keep-IsIndexed j x i = record {
        in_stream = i.in_stream;
        found = ground (arith, lookup-insert x.event_id e.event_id e s.event_index, i.found, fresh);
      }

      new-IsIndexed : IsIndexed (insert e.event_id e s.event_index) e.stream_id e
      new-IsIndexed = record {
        in_stream = refl;
        found = ground (arith, lookup-insert e.event_id e.event_id e s.event_index);
      }

      -- an identifier that the index does not know is in no stream
      not_listed : contains (ids l) e.event_id ≡ false
      not_listed = elim (Bool-cases (contains (ids l) e.event_id)) [
        | inr no_id ↦ no_id
        | inl known ↦
            let (x, i, p) =
              entry_of_id (IsIndexed s.event_index e.stream_id) l e.event_id
                (rw old_stream at (c.listed e.stream_id)) known in
            absurd (ground (arith, i.found, fresh))
      ]

      indexed-pushed :
          (id : String) (x : EventEntry M)
          → lookup id pushed.event_index ≡ some x
          → (x.event_id ≡ id) × (contains (ids (events pushed x.stream_id)) id ≡ true)
      unfolding contains
      indexed-pushed id x h = rw events-pushed (
          ground (
            arith,
            lookup-insert id e.event_id e s.event_index,
            c.indexed id x,
            old_stream,
            contains-ids-snoc l e id,
          ))

      pub IsConsistent-pushed : IsConsistent max_streams pushed
      IsConsistent-pushed = record {
        few = ground (arith, length-insert e.stream_id (l ++ e ∷ []) s.streams, c.few);
        distinct = insert-NodupKeys e.stream_id (l ++ e ∷ []) s.streams c.distinct;
        short = λ j. rw events-pushed (ground (arith, c.short j, length-append l (e ∷ [])));
        listed = λ j. elim (string_eq.dec j e.stream_id) [
          | yes p ↦
              rw (events-pushed, p, ==_refl e.stream_id)
                (All-append _ l (e ∷ [])
                  (All-map l (λ x m. keep-IsIndexed e.stream_id x)
                    (rw old_stream at (c.listed e.stream_id)))
                  (new-IsIndexed, tt))
          | no n ↦
              rw (pushed_ne j n) (All-map (events s j) (λ x m. keep-IsIndexed j x) (c.listed j))
        ];
        nodup = λ j. elim (string_eq.dec j e.stream_id) [
          | yes p ↦
              rw (events-pushed, p, ==_refl e.stream_id)
                (NodupIds-snoc l e (rw old_stream at (c.nodup e.stream_id)) not_listed)
          | no n ↦ rw (pushed_ne j n) (c.nodup j)
        ];
        indexed = indexed-pushed;
      }
