-- ===== src/Tests/Stores.antt =====
-- app/shared/store.py and app/shared/usage.py over the server in memory.
use mcp_agent_gateway.Base.{
  Option, or_else, suc, decimal, int_of-decimal, contains, ℕ, String, string_eq, char_eq,
  starts_with, true, none, some, List, [], ◌∷◌, ◌<>◌, ◌≡◌, refl, arith, if◌then◌else◌,
}
use mcp_agent_gateway.Base.Result.{Result, ok, raise}
use mcp_agent_gateway.Redis.{is_plain, Redis}
use mcp_agent_gateway.Redis.Memory.{memory, memory-IsLawful}
use mcp_agent_gateway.Shared.Store.{Contract}
use mcp_agent_gateway.Shared.Store.Redis as RedisStore
use mcp_agent_gateway.Shared.Usage.{
  usage_fields, result_text, record_usage, Xadd, Handler, counts, record_call, recorded,
  track_usage,
}
use mcp_agent_gateway.Middleware.Http.{Request}
use mcp_agent_gateway.Api.Usage.{http_exception, Event, int, scopes_of, get_usage}
use mcp_agent_gateway.Api.Usage.Totals.{answering_xadd, record_all, get_usage-record_all}

redis_store-Contract_example : Contract (RedisStore.redis_store memory "google:")
redis_store-Contract_example =
    RedisStore.redis_store-Contract memory "google:" memory-IsLawful (unfold is_plain in refl)

stores_apart_example :
    (Redis.get memory (RedisStore.set memory "google:" [] 5 "a" "1" none) 9 ("slack:" <> "b")
      ≡ Redis.get memory [] 9 ("slack:" <> "b"))
    × (Redis.get memory (RedisStore.pop memory "google:" [] 5 "a").1 9 ("slack:" <> "b")
        ≡ Redis.get memory [] 9 ("slack:" <> "b"))
    × (Redis.get memory (RedisStore.clear memory "google:" [] 5) 9 ("slack:" <> "b")
        ≡ Redis.get memory [] 9 ("slack:" <> "b"))
stores_apart_example =
    RedisStore.stores_apart memory "google:" memory-IsLawful (unfold is_plain in refl) "slack:"
      (unfold starts_with char_eq in refl) (unfold starts_with char_eq in refl) [] 5 9 "a" "1" none
      "b" (omega arith)

-- a value with a life of two seconds, over the server
kept :
    (RedisStore.get memory "g:" (RedisStore.set memory "g:" [] 5 "a" "1" (some 2)) 2004 "a").0
    ≡ some "1"
unfolding RedisStore.set RedisStore.get string_eq
kept = refl

gone :
    (RedisStore.get memory "g:" (RedisStore.set memory "g:" [] 5 "a" "1" (some 2)) 2005 "a").0
    ≡ none
unfolding RedisStore.set RedisStore.get string_eq
gone = refl

abbrev calls : List Event
calls =
    record { ts = 1000; tool = "drive-list-recent"; in_tokens = 5; out_tokens = 90 }
    ∷ record { ts = 4000000; tool = "drive-search-files"; in_tokens = 12; out_tokens = 340 }
    ∷ record { ts = 4100000; tool = "wait-for-job"; in_tokens = 7; out_tokens = 20 }
    ∷ []

int-decimal : (t : ℕ) → int (decimal t) ≡ ok t
unfolding int
int-decimal t = ground (arith, int_of-decimal t)

abbrev asked_by : List String → Request
asked_by scopes = record {
  method = "GET";
  path = "/admin/usage/u";
  authorization = none;
  origin = none;
  request_id = none;
  user = some (record {
    id = "root";
    scopes = scopes;
    token = record { sub = "root"; nbf = none; scope = none; resource_access = none };
  });
  context = record { current_user_id = none; current_user_scopes = [] };
}

get_usage-record_all_example :
    get_usage int memory
      (record_all int decimal int-decimal memory memory-IsLawful "u" [] calls)
      4200000
      (asked_by ("mcp:admin:read" ∷ []))
      "u"
      1
    ≡ (if contains (scopes_of (asked_by ("mcp:admin:read" ∷ [])).user) "mcp:admin:read"
        then ok (record {
          user_id = "u";
          hours = 1;
          count = 2;
          total_in_tokens = 19;
          total_out_tokens = 360;
          events =
              record { ts = 4000000; tool = "drive-search-files"; in_tokens = 12; out_tokens = 340 }
              ∷ record { ts = 4100000; tool = "wait-for-job"; in_tokens = 7; out_tokens = 20 }
              ∷ [];
        })
        else raise (http_exception 403))
get_usage-record_all_example =
    get_usage-record_all int decimal int-decimal memory memory-IsLawful "u" [] calls 4200000 1
      (asked_by ("mcp:admin:read" ∷ [])) (λ u. refl)

abbrev text_length : String → ℕ
text_length String.[] = 0
text_length (String.◌∷◌ c s) = suc (text_length s)

-- a tool that answers one text, and a count of its letters
abbrev echo : Handler (Redis.State memory) String String
echo text s = (ok text, s)

abbrev count_letters : String → Result String ℕ
count_letters text = ok (text_length text)

abbrev texts : String → List (Option String)
texts text = some text ∷ []

abbrev xadd_down : Xadd (Redis.State memory)
xadd_down s now key fields = (raise "ConnectionError", s)

abbrev track_answer : Result String String
track_answer = ok "hello"

-- the call is recorded
track_usage_runs :
    track_usage
      (answering_xadd memory)
      count_letters
      (λ text. ok text)
      texts
      "7.0"
      "echo"
      true
      (some "u")
      7000
      echo
      "hello"
      []
    ≡ (ok "hello", Redis.xadd memory [] 7000 "usage:u" (usage_fields "7.0" "echo" 5 5))
unfolding track_usage recorded record_call counts record_usage result_text or_else
track_usage_runs = refl

-- and a server that does not answer leaves the answer as it is
track_usage_down :
    track_usage xadd_down count_letters
      (λ text. ok text)
      texts
      "7.0"
      "echo"
      true
      (some "u")
      7000
      echo
      "hello"
      []
    ≡ (ok "hello", [])
unfolding track_usage recorded record_call counts record_usage result_text or_else
track_usage_down = refl
