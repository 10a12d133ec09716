-- ===== src/Mcp/EventStore/Stored.antt =====
-- app/mcp/event_store.py: `store_event` as a whole.
use mcp_agent_gateway.Base.{
  ℕ, ltb→lt, ◌≤◌, ◌<◌, ltb, String, string_eq, none, some, List, [], ◌∷◌, ◌++◌, length, ◌≡◌, refl,
  sym, ◌∙◌, ap, ◌≢◌, ◌⊎◌, arith, Bool-cases, inl, inr, subst,
}
use mcp_agent_gateway.Base.Dict.{
  Dict, lookup, insert, erase, lookup-insert, lookup-erase, insert-insert,
}
use mcp_agent_gateway.Base.Result.{ok}
use mcp_agent_gateway.Mcp.EventStore.{
  EventEntry, EventStore, events, make_stream, drop_oldest, push, store_event,
}
use mcp_agent_gateway.Mcp.EventStore.Entries.{append_bounded-room, append_bounded-full}
use mcp_agent_gateway.Mcp.EventStore.Consistent.{IsConsistent}
use mcp_agent_gateway.Mcp.EventStore.Drop.{IsConsistent-dropped, dropped}
use mcp_agent_gateway.Mcp.EventStore.Push.{IsConsistent-pushed, pushed, events-pushed}
use mcp_agent_gateway.Mcp.EventStore.Made.{make_stream-Made}

module _ {M : Type 0} where
  -- What `store_event` leaves: the stream is a part at the end of the old one, and the new event.
  pub record Stored (max_streams : ℕ) (e : EventEntry M) (s s' : EventStore M) : Type 0 where
    pub consistent : IsConsistent max_streams s'
    pub limit : s'.max_events_per_stream ≡ s.max_events_per_stream
    pub lost : List (EventEntry M)
    pub kept : List (EventEntry M)
    pub split : events s e.stream_id ≡ lost ++ kept
    pub newest : events s' e.stream_id ≡ kept ++ e ∷ []
    pub others : (j : String) → j ≢ e.stream_id → (events s' j ≡ events s j) ⊎ (events s' j ≡ [])
    pub found : lookup e.event_id s'.event_index ≡ some e
    pub index :
        (id : String)
        → id ≢ e.event_id
        → (lookup id s'.event_index ≡ lookup id s.event_index) ⊎ (lookup id s'.event_index ≡ none)

  run_store_event :
      (max_streams : ℕ) (s s₁ s₂ : EventStore M) (e : EventEntry M)
      → make_stream max_streams e.stream_id (lookup e.stream_id s.streams) s ≡ ok s₁
      → drop_oldest (events s₁ e.stream_id) s₁ ≡ ok s₂
      → store_event max_streams e.event_id e.stream_id e.message s ≡ ok (e.event_id, push e s₂)
  unfolding store_event
  run_store_event max_streams s s₁ s₂ e made dropped_ok =
      rw (made, store_event) (rw (dropped_ok, store_event))

  module _ {max_streams : ℕ} where
    pushed-Stored :
        (s : EventStore M) (c : IsConsistent max_streams s) (e : EventEntry M)
        (l : List (EventEntry M)) (here : lookup e.stream_id s.streams ≡ some l)
        (room : length l < s.max_events_per_stream) (fresh : lookup e.event_id s.event_index ≡ none)
        → Stored max_streams e s (pushed s c e l here room fresh)
    pushed-Stored s c e l here room fresh = record {
      consistent = IsConsistent-pushed s c e l here room fresh;
      limit = refl;
      lost = [];
      kept = l;
      split = rw here;
      newest = rw (events-pushed s c e l here room fresh) (ground arith);
      others = λ j n. inl (rw (events-pushed s c e l here room fresh) (ground arith));
      found = ground (arith, lookup-insert e.event_id e.event_id e s.event_index);
      index = λ id n. inl (ground (arith, lookup-insert id e.event_id e s.event_index));
    }

    -- the last statements, where the stream has room and where it is full
    push_room :
        (s : EventStore M) (c : IsConsistent max_streams s) (e : EventEntry M)
        (l : List (EventEntry M))
        → (here : lookup e.stream_id s.streams ≡ some l)
        → (room : length l < s.max_events_per_stream)
        → (fresh : lookup e.event_id s.event_index ≡ none)
        → (drop_oldest (events s e.stream_id) s ≡ ok s)
          × (push e s ≡ pushed s c e l here room fresh)
    unfolding drop_oldest push
    push_room s c e l here room fresh = (
      rw here (drops_nothing l room),
      ap
          (λ (q : List (EventEntry M)). record s {
            streams = insert e.stream_id q s.streams;
            event_index = insert e.event_id e s.event_index;
          })
          (rw here (append_bounded-room s.max_events_per_stream l e room)),
    )
      where
        drops_nothing :
            (k : List (EventEntry M)) → length k < s.max_events_per_stream → drop_oldest k s ≡ ok s
        drops_nothing [] r = ground arith
        drops_nothing (x ∷ k) r = ground arith

    push_full :
        (s : EventStore M) (c : IsConsistent max_streams s) (e x : EventEntry M)
        (l : List (EventEntry M))
        → (here : lookup e.stream_id s.streams ≡ some (x ∷ l))
        → length (x ∷ l) ≡ s.max_events_per_stream
        → lookup e.event_id s.event_index ≡ none
        → (s₂ : EventStore M) × (drop_oldest (events s e.stream_id) s ≡ ok s₂)
          × Stored max_streams e s (push e s₂)
    unfolding drop_oldest push
    push_full s c e x l here full fresh = (
      record s { event_index = erase x.event_id s.event_index },
      rw here (ground arith),
      subst (Stored max_streams e s) same (stored_over (pushed-Stored d i e l here' room' fresh')),
    )
      where
        d : EventStore M
        d = dropped s c e.stream_id x l here

        i : IsConsistent max_streams d
        i = IsConsistent-dropped s c e.stream_id x l here

        here' : lookup e.stream_id d.streams ≡ some l
        here' = ground (arith, lookup-insert e.stream_id e.stream_id l s.streams)

        room' : length l < d.max_events_per_stream
        room' = omega arith

        fresh' : lookup e.event_id d.event_index ≡ none
        fresh' = ground (arith, lookup-erase e.event_id x.event_id s.event_index)

        same :
            pushed d i e l here' room' fresh'
            ≡ push e (record s { event_index = erase x.event_id s.event_index })
        same =
            ap
              (λ (q : Dict String (List (EventEntry M))). record s {
                streams = q;
                event_index = insert e.event_id e (erase x.event_id s.event_index);
              })
              (insert-insert e.stream_id l (l ++ e ∷ []) s.streams
                ∙ sym (rw here (rw (append_bounded-full s.max_events_per_stream x l e full))))

        stored_over : {s' : EventStore M} → Stored max_streams e d s' → Stored max_streams e s s'
        stored_over t = record {
          consistent = t.consistent;
          limit = t.limit;
          lost = x ∷ t.lost;
          kept = t.kept;
          split = ground (arith, t.split, here');
          newest = t.newest;
          others = λ j n. ground (arith, t.others j n, lookup-insert j e.stream_id l s.streams);
          found = t.found;
          index = λ id n. ground (arith, t.index id n, lookup-erase id x.event_id s.event_index);
        }

    finish_Stored :
        (s : EventStore M) (c : IsConsistent max_streams s) (e : EventEntry M)
        (l : List (EventEntry M))
        → lookup e.stream_id s.streams ≡ some l
        → 0 < s.max_events_per_stream
        → lookup e.event_id s.event_index ≡ none
        → (s₂ : EventStore M) × (drop_oldest (events s e.stream_id) s ≡ ok s₂)
          × Stored max_streams e s (push e s₂)
    finish_Stored s c e l here some_room fresh =
        elim (Bool-cases (ltb (length l) s.max_events_per_stream)) [
          | inl room ↦
              let r = ltb→lt _ _ room in
              let (stays, same) = push_room s c e l here r fresh in
              (s, stays, rw same (pushed-Stored s c e l here r fresh))
          | inr full ↦ full_case l here (ground (arith, short l here)) some_room
        ]
      where
        short :
            (k : List (EventEntry M))
            → lookup e.stream_id s.streams ≡ some k
            → length k ≤ s.max_events_per_stream
        short k h = rw (h, events) at (c.short e.stream_id)

        full_case :
            (k : List (EventEntry M))
            → lookup e.stream_id s.streams ≡ some k
            → length k ≡ s.max_events_per_stream
            → 0 < s.max_events_per_stream
            → (s₂ : EventStore M) × (drop_oldest (events s e.stream_id) s ≡ ok s₂)
              × Stored max_streams e s (push e s₂)
        full_case [] h f r = absurd (omega arith)
        full_case (x ∷ k) h f r = push_full s c e x k h f fresh

    -- From a consistent store with room for at least one stream and one event, an event with a new
    -- identifier is stored: nothing is raised, the identifier is returned, the store is consistent
    -- again, and the event is the newest of its stream.
    pub store_event-Stored :
        (s : EventStore M) (e : EventEntry M)
        → IsConsistent max_streams s
        → 0 < max_streams
        → 0 < s.max_events_per_stream
        → lookup e.event_id s.event_index ≡ none
        → (s' : EventStore M) × (store_event max_streams e.event_id e.stream_id e.message s
            ≡ ok (e.event_id, s'))
          × Stored max_streams e s s'
    store_event-Stored s e c pos some_room fresh =
        let (s₁, made, m) = make_stream-Made e.stream_id s c pos in
        let (l, here) = m.here in
        let (s₂, dropped_ok, t) =
          finish_Stored s₁ m.consistent e l here (rw m.limit some_room)
            (ground (arith, m.index e.event_id)) in
        (
          push e s₂,
          run_store_event max_streams s s₁ s₂ e made dropped_ok,
          record {
            consistent = t.consistent;
            limit = t.limit ∙ m.limit;
            lost = t.lost;
            kept = t.kept;
            split = sym m.same ∙ t.split;
            newest = t.newest;
            others = λ j n. ground (arith, t.others j n, m.others j);
            found = t.found;
            index = λ id n. ground (arith, t.index id n, m.index id);
          },
        )

    -- The same of a call that is known to have returned.
    pub Stored-store_event :
        (s s' : EventStore M) (e : EventEntry M)
        → IsConsistent max_streams s
        → 0 < max_streams
        → 0 < s.max_events_per_stream
        → lookup e.event_id s.event_index ≡ none
        → store_event max_streams e.event_id e.stream_id e.message s ≡ ok (e.event_id, s')
        → Stored max_streams e s s'
    Stored-store_event s s' e c pos some_room fresh h =
        let (s₂, run, t) = store_event-Stored s e c pos some_room fresh in
        subst (Stored max_streams e s) (cc) t
