-- ===== src/Mcp/EventStore/Consistent.antt =====
-- The invariant that ties the streams to the index.
use mcp_agent_gateway.Base.{
  ℕ, ◌≤◌, String, string_eq, contains, true, false, some, List, [], ◌∷◌, length, All, ◌≡◌, ◌≢◌,
  arith, Bool-cases, inl, inr,
}
use mcp_agent_gateway.Base.Dict.{Dict, lookup, NodupKeys}
use mcp_agent_gateway.Mcp.EventStore.{EventEntry, EventStore, empty, events}
use mcp_agent_gateway.Mcp.EventStore.Entries.{ids, NodupIds, entry_of_id}

module _ {M : Type 0} where
  -- An entry of the stream `sid`, found in the index under its identifier.
  pub record IsIndexed (index : Dict String (EventEntry M)) (sid : String) (e : EventEntry M)
      : Type 0 where
    pub in_stream : e.stream_id ≡ sid
    pub found : lookup e.event_id index ≡ some e

  pub record IsConsistent (max_streams : ℕ) (s : EventStore M) : Type 0 where
    -- no more streams than are allowed, each under one key
    pub few : length s.streams ≤ max_streams
    pub distinct : NodupKeys s.streams
    -- no stream is longer than allowed, its entries are in the index, each with its own identifier
    pub short : (sid : String) → length (events s sid) ≤ s.max_events_per_stream
    pub listed : (sid : String) → All (IsIndexed s.event_index sid) (events s sid)
    pub nodup : (sid : String) → NodupIds (events s sid)
    -- and the index holds nothing but the entries of streams
    pub indexed :
        (id : String) (e : EventEntry M)
        → lookup id s.event_index ≡ some e
        → (e.event_id ≡ id) × (contains (ids (events s e.stream_id)) id ≡ true)

  pub empty-IsConsistent :
      (max_streams max_events : ℕ) → IsConsistent max_streams (empty max_events)
  unfolding lookup
  empty-IsConsistent max_streams max_events = record {
    few = omega arith;
    distinct = tt;
    short = λ sid. omega arith;
    listed = λ sid. tt;
    nodup = λ sid. tt;
    indexed = λ id e h. absurd (cc);
  }

  pub All-map {κ} :
      {P Q : EventEntry M → Type κ} (l : List (EventEntry M))
      → ((e : EventEntry M) → contains (ids l) e.event_id ≡ true → P e → Q e)
      → All P l
      → All Q l
  unfolding contains
  All-map [] f a = tt
  All-map (e ∷ l) f a = (f e (ground arith) a.0, All-map l (λ x h. f x (ground arith)) a.1)

  -- two streams share no identifier
  pub apart :
      (index : Dict String (EventEntry M)) (sid sid' : String) (l l' : List (EventEntry M))
      (id : String)
      → sid ≢ sid'
      → All (IsIndexed index sid) l
      → All (IsIndexed index sid') l'
      → contains (ids l) id ≡ true
      → contains (ids l') id ≡ false
  apart index sid sid' l l' id n a a' h = elim (Bool-cases (contains (ids l') id)) [
    | inr no_id ↦ no_id
    | inl both ↦
        let (e, p, q) = entry_of_id (IsIndexed index sid) l id a h in
        let (e', p', q') = entry_of_id (IsIndexed index sid') l' id a' both in
        absurd (n (ground (arith, p.in_stream, p.found, p'.in_stream, p'.found)))
  ]
