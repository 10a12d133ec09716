-- ===== src/Middleware/RequestLogger.antt =====
-- app/middleware/request_logger.py. The log is a list of entries beside the world. The clock of
-- `time.perf_counter` is in nanoseconds, and a duration in hundredths of a millisecond.
use mcp_agent_gateway.Base.{
  ℕ, zero, suc, ◌-◌, ◌/◌, ◌%◌, ◌+◌, ltb, nat_eq, String, string_eq, ◌<>◌, truthy, ◌||◌, ◌&&◌,
  Option, none, some, List, [], ◌∷◌, ◌++◌, if◌then◌else◌,
}
use mcp_agent_gateway.Base.Dict.{insert}
use mcp_agent_gateway.Base.Result.{Result, ok, raise}
use mcp_agent_gateway.Middleware.Http.{Request, Response, App}

-- what the middleware takes from elsewhere for a request: `uuid4().hex`, the clock before and after
-- it, and the identifiers of the trace and the span, if the context of the span is valid
pub record Facts : Type 0 where
  pub fresh_id : String
  pub start : ℕ
  pub stop : ℕ
  pub span_context : Option (ℕ × ℕ)

-- `extra`, with the event "request"
pub record LogEntry : Type 0 where
  pub method : String
  pub path : String
  pub status : ℕ
  pub duration_ms : ℕ
  pub request_id : String
  pub trace_id : Option String
  pub span_id : Option String

-- `request.headers.get("x-request-id") or uuid.uuid4().hex`
unfoldable pub request_id_of : String → Request → String
request_id_of fresh_id request = elim request.request_id [
  | none ↦ fresh_id
  | some given ↦ if truthy given then given else fresh_id
]

-- `round((stop - start) * 1000, 2)`, half to even
unfoldable pub duration_of : ℕ → ℕ → ℕ
duration_of start stop =
    let whole = (stop - start) / 10000 in
    let rest = (stop - start) % 10000 in
    if ltb 5000 rest || (nat_eq rest 5000 && nat_eq (whole % 2) 1) then whole + 1 else whole

unfoldable pub char_at : ℕ → String → String
char_at n String.[] = ""
char_at zero (String.◌∷◌ c s) = String.◌∷◌ c ""
char_at (suc n) (String.◌∷◌ c s) = char_at n s

-- `format(n, "0<width>x")` of a number that is not longer
unfoldable pub hex : ℕ → ℕ → String
unfolding char_at
hex zero n = ""
hex (suc width) n = hex width (n / 16) <> char_at (n % 16) "0123456789abcdef"

unfoldable pub trace_id_of : Option (ℕ × ℕ) → Option String
unfolding hex
trace_id_of none = none
trace_id_of (some (trace_id, span_id)) = some (hex 32 trace_id)

unfoldable pub span_id_of : Option (ℕ × ℕ) → Option String
unfolding hex
span_id_of none = none
span_id_of (some (trace_id, span_id)) = some (hex 16 span_id)

unfoldable pub identified : String → Response → Response
identified request_id response = record response {
  headers = insert "x-request-id" request_id response.headers;
}

-- what is logged of a request that was answered
unfoldable pub logged :
    Facts → Request → String → Result String Response → List LogEntry → List LogEntry
unfolding duration_of trace_id_of span_id_of
logged facts request request_id (raise e) log = log
logged facts request request_id (ok response) log =
    log
    ++ (record {
      method = request.method;
      path = request.path;
      status = response.status_code;
      duration_ms = duration_of facts.start facts.stop;
      request_id = request_id;
      trace_id = trace_id_of facts.span_context;
      span_id = span_id_of facts.span_context;
    })
      ∷ []

unfoldable pub dispatch : {V : Type 0} → Facts → App (List LogEntry × V) → App (List LogEntry × V)
unfolding request_id_of identified logged
dispatch facts call_next request w =
    let request_id = request_id_of facts.fresh_id request in
    let (result, w') = call_next request w in
    (
      elim result [ ok response ↦ ok (identified request_id response) | raise e ↦ raise e ],
      (logged facts request request_id result w'.0, w'.1),
    )
