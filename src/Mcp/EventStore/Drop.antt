-- ===== src/Mcp/EventStore/Drop.antt =====
-- app/mcp/event_store.py: the loss of the oldest event of a full stream.
use mcp_agent_gateway.Base.{
  ℕ, ◌≤◌, ◌<◌, String, string_eq, ◌==◌, contains, true, false, some, List, ◌∷◌, length, All, ◌≡◌,
  ◌≢◌, arith, if◌then◌else◌, ==_refl,
}
use mcp_agent_gateway.Base.Dict.{
  lookup, insert, erase, lookup-insert, lookup-erase, insert-NodupKeys, length-insert,
}
use mcp_agent_gateway.Mcp.EventStore.{EventEntry, EventStore, events}
use mcp_agent_gateway.Mcp.EventStore.Entries.{ids, NodupIds}
use mcp_agent_gateway.Mcp.EventStore.Consistent.{IsIndexed, IsConsistent, All-map, apart}

module _ {M : Type 0} where
  module _ {max_streams : ℕ} where
    module _ (s : EventStore M) (c : IsConsistent max_streams s) (sid : String) where
      -- a full stream, without its oldest event
      module _ (x : EventEntry M) (t : List (EventEntry M))
          (l : lookup sid s.streams ≡ some (x ∷ t)) where
        abbrev pub dropped : EventStore M
        dropped = record s {
          streams = insert sid t s.streams;
          event_index = erase x.event_id s.event_index;
        }

        old_stream : events s sid ≡ x ∷ t
        old_stream = rw l

        pub old_facts :
            IsIndexed s.event_index sid x
            × All (IsIndexed s.event_index sid) t
            × (contains (ids t) x.event_id ≡ false)
            × NodupIds t
            × (length t < s.max_events_per_stream)
        old_facts =
            let a : All (IsIndexed s.event_index sid) (x ∷ t) = rw old_stream at (c.listed sid) in
            let n : NodupIds (x ∷ t) = rw old_stream at (c.nodup sid) in
            let m : length (x ∷ t) ≤ s.max_events_per_stream = rw old_stream at (c.short sid) in
            (a.0, a.1, n.0, n.1, m)

        pub events-dropped : (j : String) → events dropped j ≡ (if j == sid then t else events s j)
        events-dropped j = ground (arith, lookup-insert j sid t s.streams)

        keep_without :
            (j : String) (e : EventEntry M)
            → (e.event_id == x.event_id) ≡ false
            → IsIndexed s.event_index j e
            → IsIndexed (erase x.event_id s.event_index) j e
        keep_without j e n i = record {
          in_stream = i.in_stream;
          found = ground (arith, lookup-erase e.event_id x.event_id s.event_index, i.found);
        }

        ne_oldest :
            (j : String)
            → j ≢ sid
            → (e : EventEntry M) → contains (ids (events s j)) e.event_id ≡ true
            → (e.event_id == x.event_id) ≡ false
        unfolding contains
        ne_oldest j n e m = ground (
          arith,
          apart s.event_index j sid (events s j) (x ∷ t) e.event_id n (c.listed j)
              (rw old_stream at (c.listed sid)) m,
        )

        dropped_ne : (j : String) → j ≢ sid → events dropped j ≡ events s j
        dropped_ne j n = rw events-dropped (ground arith)

        indexed-dropped :
            (id : String) (e : EventEntry M)
            → lookup id dropped.event_index ≡ some e
            → (e.event_id ≡ id) × (contains (ids (events dropped e.stream_id)) id ≡ true)
        unfolding contains
        indexed-dropped id e h =
            rw events-dropped
              (ground (arith, lookup-erase id x.event_id s.event_index, c.indexed id e, old_stream))

        pub IsConsistent-dropped : IsConsistent max_streams dropped
        IsConsistent-dropped = record {
          few = ground (arith, length-insert sid t s.streams, c.few);
          distinct = insert-NodupKeys sid t s.streams c.distinct;
          short = λ j. rw events-dropped (ground (arith, c.short j, old_facts));
          listed = λ j. elim (string_eq.dec j sid) [
            | yes p ↦
                rw (events-dropped, p, ==_refl sid)
                  (All-map t (λ e m. keep_without sid e (ground (arith, old_facts))) old_facts.1)
            | no n ↦
                rw (dropped_ne j n)
                  (All-map (events s j) (λ e m. keep_without j e (ne_oldest j n e m)) (c.listed j))
          ];
          nodup = λ j. rw events-dropped (ground (arith, c.nodup j, old_facts));
          indexed = indexed-dropped;
        }
