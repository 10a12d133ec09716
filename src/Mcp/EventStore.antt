-- ===== src/Mcp/EventStore.antt =====
-- app/mcp/event_store.py: `InMemoryEventStore`. The messages are of any type; `uuid4` gives the
-- identifier of a new event, and is an argument.
pub mod Entries
pub mod Consistent
pub mod Evict
pub mod Drop
pub mod Push
pub mod Made
pub mod Stored
pub mod Replay
pub mod Reachable
use mcp_agent_gateway.Base.{
  ℕ, zero, suc, ltb, leb, nat_eq, String, string_eq, ◌==◌, Bool, true, false, Option, none, some,
  List, [], ◌∷◌, ◌++◌, length, if◌then◌else◌,
}
use mcp_agent_gateway.Base.Dict.{Dict, lookup, insert, erase}
use mcp_agent_gateway.Base.Result.{Result, ok, raise}

pub record EventEntry (M : Type 0) : Type 0 where
  pub event_id : String
  pub stream_id : String
  pub message : Option M

-- the module's `_MAX_STREAMS`
abbrev pub max_streams_default : ℕ
max_streams_default = 10000

pub record EventStore (M : Type 0) : Type 0 where
  pub max_events_per_stream : ℕ
  pub streams : Dict String (List (EventEntry M))
  pub event_index : Dict String (EventEntry M)

-- `popitem` on an empty dict, `[0]` on an empty deque
pub data Error : Type 0 where
  key_error index_error : Error

-- The `EventMessage(event.message, event.event_id)` that a callback was called with, in order.
abbrev pub Sent : Type 0 → Type 0
Sent M = List (M × String)

module _ {M : Type 0} where
  abbrev pub empty : ℕ → EventStore M
  empty max_events = record { max_events_per_stream = max_events; streams = []; event_index = [] }

  -- `self.event_index.pop(entry.event_id, None)` for each entry
  unfoldable pub forget :
      List (EventEntry M) → Dict String (EventEntry M) → Dict String (EventEntry M)
  forget [] index = index
  forget (e ∷ l) index = forget l (erase e.event_id index)

  -- `append` on a deque with `maxlen`: a full one loses its first element
  unfoldable pub append_bounded : ℕ → List (EventEntry M) → EventEntry M → List (EventEntry M)
  append_bounded max [] e = if ltb max 1 then [] else e ∷ []
  append_bounded max (x ∷ l) e =
      if ltb max (length (x ∷ l ++ e ∷ [])) then l ++ e ∷ [] else x ∷ (l ++ e ∷ [])

  -- `self.streams.get(stream_id, deque())`
  abbrev pub or_empty : Option (List (EventEntry M)) → List (EventEntry M)
  or_empty none = []
  or_empty (some l) = l

  abbrev pub events : EventStore M → String → List (EventEntry M)
  events s stream_id = or_empty (lookup stream_id s.streams)

  -- `popitem(last=False)`, and the index without its events
  unfoldable pub evict :
      EventStore M → Dict String (List (EventEntry M)) → Result Error (EventStore M)
  evict s [] = raise key_error
  evict s ((_, evicted) ∷ rest) =
      ok (record s { streams = rest; event_index = forget evicted s.event_index })

  unfoldable pub create_stream : String → EventStore M → EventStore M
  create_stream stream_id s = record s { streams = insert stream_id [] s.streams }

  -- the first `if`: a new stream gets a deque, in the place of the oldest stream if all are taken
  unfoldable pub make_stream :
      ℕ → String → Option (List (EventEntry M)) → EventStore M → Result Error (EventStore M)
  unfolding evict create_stream
  make_stream max_streams stream_id (some l) s = ok s
  make_stream max_streams stream_id none s =
      if leb max_streams (length s.streams)
      then elim (evict s s.streams) [ ok s' ↦ ok (create_stream stream_id s') | raise e ↦ raise e ]
      else ok (create_stream stream_id s)

  -- the second `if`: the index loses the event that a full deque is about to lose
  unfoldable pub drop_oldest : List (EventEntry M) → EventStore M → Result Error (EventStore M)
  drop_oldest [] s = if nat_eq 0 s.max_events_per_stream then raise index_error else ok s
  drop_oldest (oldest ∷ l) s = ok (
      if nat_eq (length (oldest ∷ l)) s.max_events_per_stream
      then record s { event_index = erase oldest.event_id s.event_index }
      else s)

  -- the last two statements
  unfoldable pub push : EventEntry M → EventStore M → EventStore M
  unfolding append_bounded
  push e s = record s {
    streams =
        insert e.stream_id (append_bounded s.max_events_per_stream (events s e.stream_id) e)
          s.streams;
    event_index = insert e.event_id e s.event_index;
  }

  unfoldable pub store_event :
      ℕ → String → String → Option M → EventStore M → Result Error (String × EventStore M)
  unfolding make_stream drop_oldest push
  store_event max_streams event_id stream_id message s =
      elim (make_stream max_streams stream_id (lookup stream_id s.streams) s) [
        | raise e ↦ raise e
        | ok s₁ ↦ elim (drop_oldest (events s₁ stream_id) s₁) [
          | raise e ↦ raise e
          | ok s₂ ↦ ok (
            event_id,
            push (record { event_id = event_id; stream_id = stream_id; message = message }) s₂,
          )
        ]
      ]

  abbrev pub send : EventEntry M → Sent M → Sent M
  send e rest = elim e.message [ none ↦ rest | some m ↦ (m, e.event_id) ∷ rest ]

  -- the loop, with its flag `found_last`
  unfoldable pub replay_loop : String → Bool → List (EventEntry M) → Sent M
  replay_loop last_event_id found_last [] = []
  replay_loop last_event_id true (e ∷ l) = send e (replay_loop last_event_id true l)
  replay_loop last_event_id false (e ∷ l) =
      replay_loop last_event_id (e.event_id == last_event_id) l

  unfoldable pub replay_events_after : String → EventStore M → Option String × Sent M
  unfolding replay_loop
  replay_events_after last_event_id s = elim (lookup last_event_id s.event_index) [
    | none ↦ (none, [])
    | some last_event ↦
        (some last_event.stream_id, replay_loop last_event_id false (events s last_event.stream_id))
  ]
