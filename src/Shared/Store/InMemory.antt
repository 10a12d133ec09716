-- ===== src/Shared/Store/InMemory.antt =====
-- `InMemoryStore` of app/shared/store.py.
use mcp_agent_gateway.Base.{
  ℕ, ◌+◌, ◌*◌, ltb, String, Option, none, some, [], refl, string_eq, arith, Bool, false,
  if◌then◌else◌,
}
use mcp_agent_gateway.Base.Dict.{Dict, lookup, insert, erase, lookup-insert, lookup-erase}
use mcp_agent_gateway.Shared.Store.{Store, Contract}

-- `(value, expires_at)`
pub record Entry : Type 0 where
  pub value : String
  pub expires_at : Option ℕ

pub record InMemoryStore : Type 0 where
  pub entries : Dict String Entry

unfoldable pub expires : ℕ → Option ℕ → Option ℕ
expires now none = none
expires now (some ttl) = some (now + ttl * 1000)

unfoldable pub is_expired : ℕ → Option ℕ → Bool
is_expired now none = false
is_expired now (some t) = ltb t now

unfoldable pub set : InMemoryStore → ℕ → String → String → Option ℕ → InMemoryStore
unfolding expires
set s now key value ttl = record {
  entries = insert key (record { value = value; expires_at = expires now ttl }) s.entries;
}

-- The entry that was found, if any; an expired one is deleted.
get_entry : InMemoryStore → ℕ → String → Option Entry → Option String × InMemoryStore
get_entry s now key none = (none, s)
get_entry s now key (some e) =
    if is_expired now e.expires_at
    then (none, record { entries = erase key s.entries })
    else (some e.value, s)

unfoldable pub get : InMemoryStore → ℕ → String → Option String × InMemoryStore
unfolding get_entry is_expired
get s now key = get_entry s now key (lookup key s.entries)

pop_entry : ℕ → Option Entry → Option String
pop_entry now none = none
pop_entry now (some e) = if is_expired now e.expires_at then none else some e.value

unfoldable pub pop : InMemoryStore → ℕ → String → Option String × InMemoryStore
unfolding pop_entry is_expired
pop s now key = (pop_entry now (lookup key s.entries), record { entries = erase key s.entries })

unfoldable pub clear : InMemoryStore → ℕ → InMemoryStore
clear s now = record { entries = [] }

abbrev pub in_memory_store : Store
in_memory_store = record {
  State = InMemoryStore;
  accepts = λ ttl. Unit {0};
  set = set;
  get = get;
  pop = pop;
  clear = clear;
}

-- What a reader finds.
unfoldable pub view : InMemoryStore → ℕ → String → Option String
unfolding pop_entry is_expired
view s u k = pop_entry u (lookup k s.entries)

-- `InMemoryStore` keeps the contract of `Store`.
pub in_memory_store-Contract : Contract in_memory_store
unfolding set get pop clear view lookup
in_memory_store-Contract = record {
  view = view;
  get_result = λ s now k. ground arith;
  view-get = λ s now u k j h. ground (arith, lookup-erase j k s.entries);
  view-set_forever = λ s now u k v h. rw lookup-insert (ground arith);
  view-set_fresh = λ s now u k v ttl h l. rw lookup-insert (ground arith);
  view-set_stale = λ s now u k v ttl a l. rw lookup-insert (ground arith);
  view-set_ne = λ s now u k v ttl j h n. rw lookup-insert (ground arith);
  pop_result = λ s now k. refl;
  view-pop_self = λ s now u k h. rw lookup-erase (ground arith);
  view-pop_ne = λ s now u k j h n. rw lookup-erase (ground arith);
  view-clear = λ s now u k h. refl;
}
