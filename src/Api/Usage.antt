-- ===== src/Api/Usage.antt =====
-- app/api/usage_router.py. `float` is an argument, to milliseconds; so is the check that `hours` is
-- from 1 to 168, which the framework makes.
pub mod Totals
use mcp_agent_gateway.Base.{
  ℕ, ◌+◌, ◌*◌, ltb, int_of, length, String, string_eq, contains, Bool, true, false, not, Option,
  none, some, List, [], ◌∷◌, ◌++◌, if◌then◌else◌,
}
use mcp_agent_gateway.Base.Dict.{lookup}
use mcp_agent_gateway.Base.Result.{Result, ok, raise, ◌>>=◌, ◌>>◌, guard}
use mcp_agent_gateway.Redis.{Fields, Redis}
use mcp_agent_gateway.Middleware.Http.{User, Request}
use mcp_agent_gateway.Shared.Usage.{usage_key}

abbrev pub admin_scope : String
admin_scope = "mcp:admin:read"

-- what may be raised: HTTPException with its status, or an exception by its name
pub data Error : Type 0 where
  http_exception : ℕ → Error
  other : String → Error

pub record Event : Type 0 where
  pub ts : ℕ
  pub tool : String
  pub in_tokens : ℕ
  pub out_tokens : ℕ

pub record Report : Type 0 where
  pub user_id : String
  pub hours : ℕ
  pub count : ℕ
  pub total_in_tokens : ℕ
  pub total_out_tokens : ℕ
  pub events : List Event

-- `(user or {}).get("scopes", [])`
unfoldable pub scopes_of : Option User → List String
scopes_of none = []
scopes_of (some user) = user.scopes

unfoldable pub require_admin_scope : Request → Result Error (Unit {0})
unfolding scopes_of
require_admin_scope request =
    guard (contains (scopes_of request.user) admin_scope) (http_exception 403)

unfoldable pub field : Fields → String → Result Error String
field fields key = elim (lookup key fields) [ none ↦ raise (other "KeyError") | some v ↦ ok v ]

unfoldable pub int : String → Result Error ℕ
int text = elim (int_of text) [ none ↦ raise (other "ValueError") | some n ↦ ok n ]

module _ (float : String → Result Error ℕ) where
  unfoldable pub event_of : ℕ → Fields → Result Error Event
  unfolding field int
  event_of ts fields = field fields "in_tokens" >>= int >>= λ in_tokens.
      field fields "out_tokens" >>= int >>= λ out_tokens. field fields "tool" >>= λ tool.
      ok (record { ts = ts; tool = tool; in_tokens = in_tokens; out_tokens = out_tokens })

  -- one turn of the loop: the event of an entry, if it is not before the cutoff
  unfoldable pub read_entry : ℕ → ℕ → Fields → Result Error (Option Event)
  unfolding event_of
  read_entry now hours fields = field fields "ts" >>= float >>= λ ts.
      if ltb (ts + hours * 3600 * 1000) now
      then ok none
      else event_of ts fields >>= λ event. ok (some event)

  unfoldable pub add_event : Report → Option Event → Report
  add_event report none = report
  add_event report (some event) = record report {
    count = report.count + 1;
    total_in_tokens = report.total_in_tokens + event.in_tokens;
    total_out_tokens = report.total_out_tokens + event.out_tokens;
    events = report.events ++ (event ∷ []);
  }

  unfoldable pub read_entries : ℕ → ℕ → Report → List Fields → Result Error Report
  unfolding read_entry add_event
  read_entries now hours report [] = ok report
  read_entries now hours report (fields ∷ entries) = read_entry now hours fields >>= λ event.
      read_entries now hours (add_event report event) entries

  unfoldable pub get_usage : (R : Redis) → R.State → ℕ → Request → String → ℕ → Result Error Report
  unfolding require_admin_scope
  get_usage R s now request user_id hours =
      require_admin_scope request
      >> read_entries now hours
          (record {
            user_id = user_id;
            hours = hours;
            count = 0;
            total_in_tokens = 0;
            total_out_tokens = 0;
            events = [];
          })
          (R.xrange s now (usage_key user_id))
