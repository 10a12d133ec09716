-- ===== src/Integrations/Google/Jobs.antt =====
-- app/integrations/google/jobs.py. The job identifier, `uuid4().hex`, and the time of day as a text
-- are arguments.
pub mod Tools
pub mod Worker
pub mod Loop
pub mod Calm
pub mod Survives
pub mod Upstream
pub mod Records
pub mod Published
pub mod Answered
pub mod RoundTrip
pub mod Authorization
use mcp_agent_gateway.Base.{ℕ, ◌*◌, String, ◌<>◌, Option, none, some, List, [], ◌∷◌}
use mcp_agent_gateway.Base.Dict.{Dict}
use mcp_agent_gateway.Base.Result.{Result}
use mcp_agent_gateway.Redis.{Fields, Redis}
use mcp_agent_gateway.Redis.Commands.{Raised, Commands, ◌>>>◌}

abbrev pub jobs_stream : String
jobs_stream = "jobs:drive_export"

abbrev pub group : String
group = "exporters"

abbrev pub result_ttl_seconds : ℕ
result_ttl_seconds = 3600

abbrev pub owner_ttl_seconds : ℕ
owner_ttl_seconds = 3600

abbrev pub export_formats : Dict String (String × String)
export_formats =
    ("pdf", ("application/pdf", "pdf"))
    ∷ ("docx", ("application/vnd.openxmlformats-officedocument.wordprocessingml.document", "docx"))
    ∷ ("txt", ("text/plain", "txt"))
    ∷ []

abbrev pub owner_key : String → String
owner_key job_id = "job:owner:" <> job_id

abbrev pub results_key : String → String
results_key job_id = "results:" <> job_id

-- the entry of the stream
unfoldable pub job_fields : String → String → String → String → String → Fields
job_fields job_id user_id file_id fmt ts =
    ("job_id", job_id)
    ∷ ("user_id", user_id)
    ∷ ("file_id", file_id)
    ∷ ("format", fmt)
    ∷ ("ts", ts)
    ∷ []

unfoldable pub enqueue_export_job :
    {S : Type 0}
    → Commands S
    → String
    → String
    → S
    → ℕ
    → String
    → String
    → String
    → Result Raised (Unit {0}) × S
unfolding job_fields
enqueue_export_job r job_id ts s now user_id file_id fmt =
    r.set s now (owner_key job_id) user_id (some (owner_ttl_seconds * 1000)) >>> λ s.
    r.xadd s now jobs_stream (job_fields job_id user_id file_id fmt ts)

module _ (R : Redis) where
  unfoldable pub job_owner : R.State → ℕ → String → Option String
  job_owner s now job_id = R.get s now (owner_key job_id)

  -- XREAD from the start of the stream, in the state and at the instant in which it answers: the
  -- server holds the call until there is an entry or its time is over
  unfoldable pub read_result : R.State → ℕ → String → Option Fields
  read_result s now job_id = elim (R.xrange s now (results_key job_id)) [
    | [] ↦ none
    | fields ∷ entries ↦ some fields
  ]
