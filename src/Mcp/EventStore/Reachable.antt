-- ===== src/Mcp/EventStore/Reachable.antt =====
-- The stores that a run of the server reaches.
use mcp_agent_gateway.Base.{
  ℕ, ◌<◌, string_eq, none, List, [], ◌∷◌, All, ◌≡◌, ◌≢◌, refl, ◌∙◌, inl, inr,
}
use mcp_agent_gateway.Base.Dict.{lookup}
use mcp_agent_gateway.Base.Result.{Result, ok, raise}
use mcp_agent_gateway.Mcp.EventStore.{EventEntry, EventStore, Error, empty, store_event}
use mcp_agent_gateway.Mcp.EventStore.Consistent.{IsConsistent, empty-IsConsistent}
use mcp_agent_gateway.Mcp.EventStore.Stored.{Stored, store_event-Stored}

module _ {M : Type 0} where
  -- one event after the other
  abbrev pub store_all : ℕ → List (EventEntry M) → EventStore M → Result Error (EventStore M)
  store_all max_streams [] s = ok s
  store_all max_streams (e ∷ es) s =
      elim (store_event max_streams e.event_id e.stream_id e.message s) [
        | raise x ↦ raise x
        | ok (_, s') ↦ store_all max_streams es s'
      ]

  -- No two events have the same identifier.
  abbrev pub Distinct : List (EventEntry M) → Type 0
  Distinct [] = Unit
  Distinct (e ∷ es) = All (λ x. x.event_id ≢ e.event_id) es × Distinct es

  abbrev pub Fresh : EventStore M → List (EventEntry M) → Type 0
  Fresh s es = All (λ e. lookup e.event_id s.event_index ≡ none) es

  still-Fresh :
      (max_streams : ℕ) (s s' : EventStore M) (e : EventEntry M) (es : List (EventEntry M))
      → Stored max_streams e s s'
      → All (λ x. x.event_id ≢ e.event_id) es
      → Fresh s es
      → Fresh s' es
  still-Fresh max_streams s s' e [] st d f = tt
  still-Fresh max_streams s s' e (x ∷ es) st (n, d) (h, f) = (
    elim (st.index x.event_id n) [ inl same ↦ same ∙ h | inr gone ↦ gone ],
    still-Fresh max_streams s s' e es st d f,
  )

  empty-Fresh : (max_events : ℕ) (es : List (EventEntry M)) → Fresh (empty max_events) es
  unfolding lookup
  empty-Fresh max_events [] = tt
  empty-Fresh max_events (e ∷ es) = (refl, empty-Fresh max_events es)

  store_all-IsConsistent :
      (max_streams : ℕ) (s : EventStore M) (es : List (EventEntry M))
      → IsConsistent max_streams s
      → 0 < max_streams
      → 0 < s.max_events_per_stream
      → Distinct es
      → Fresh s es
      → (s' : EventStore M) × (store_all max_streams es s ≡ ok s') × IsConsistent max_streams s'
  store_all-IsConsistent max_streams s [] c p q d f = (s, refl, c)
  store_all-IsConsistent max_streams s (e ∷ es) c p q (d, ds) (h, f) =
      let (s₁, ran, st) = store_event-Stored {max_streams = max_streams} s e c p q h in
      let (s', rest, c') =
        store_all-IsConsistent max_streams s₁ es st.consistent p (rw (st.limit) q) ds
          (still-Fresh max_streams s s₁ e es st d f) in
      (s', rw (ran, store_all) rest, c')

  -- From an empty store with room for at least one stream and one event, any sequence of events with
  -- distinct identifiers is stored without anything raised, and the store that is reached is
  -- consistent: its streams are not more and not longer than allowed, and its index holds exactly
  -- the events of its streams.
  pub store_all-empty :
      (max_streams max_events : ℕ) (es : List (EventEntry M))
      → 0 < max_streams
      → 0 < max_events
      → Distinct es
      → (s' : EventStore M) × (store_all max_streams es (empty max_events) ≡ ok s')
        × IsConsistent max_streams s'
  store_all-empty max_streams max_events es p q d =
      store_all-IsConsistent max_streams (empty max_events) es
        (empty-IsConsistent max_streams max_events) p q d (empty-Fresh max_events es)
