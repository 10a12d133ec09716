-- ===== src/Integrations/Google/Jobs/Tools.antt =====
-- app/integrations/google/job_tools.py. Pydantic's validation of the arguments is an argument: the
-- input, or the text that names the first error.
use mcp_agent_gateway.Base.{
  ℕ, String, string_eq, ◌<>◌, ◌==◌, Bool, true, not, Option, none, some, [], ◌∷◌, if◌then◌else◌,
}
use mcp_agent_gateway.Base.Dict.{lookup}
use mcp_agent_gateway.Base.Result.{Result, ok, raise, ◌>>=◌}
use mcp_agent_gateway.Redis.{Fields, Redis}
use mcp_agent_gateway.Redis.Commands.{Raised, cancelled, exception, Commands}
use mcp_agent_gateway.Integrations.Google.Jobs.{
  export_formats, enqueue_export_job, job_owner, read_result,
}

pub record ExportInput : Type 0 where
  pub file_id : String
  pub format : String

pub record WaitInput : Type 0 where
  pub job_id : String
  pub timeout_seconds : ℕ

-- a result of a tool: a text that is marked as an error, or the JSON text of a dict
pub data Answer : Type 0 where
  failure : String → Answer
  success : Fields → Answer

-- what the tool makes of the queueing: `except Exception` does not stop a cancellation
unfoldable pub queued : String → Result Raised (Unit {0}) → Result Raised Answer
queued job_id (ok _) = ok (success (("job_id", job_id) ∷ ("status", "queued") ∷ []))
queued job_id (raise cancelled) = raise cancelled
queued job_id (raise (exception m)) = ok (failure "Could not enqueue export job — try again later.")

module _ {S : Type 0} (r : Commands S) where
  -- from the check of the format on; without a user, `redis.set` raises before it sends anything
  unfoldable pub start_export :
      String → String → S → ℕ → Option String → ExportInput → Result Raised Answer × S
  unfolding queued
  start_export job_id ts s now none args = (queued job_id (raise (exception "DataError")), s)
  start_export job_id ts s now (some user_id) args =
      let (done, s') = enqueue_export_job r job_id ts s now user_id args.file_id args.format in
      (queued job_id done, s')

  unfoldable pub handle_drive_export_large_file :
      String → String → S → ℕ → Option String → Result String ExportInput → Result Raised Answer × S
  unfolding start_export
  handle_drive_export_large_file job_id ts s now current_user_id (raise e) =
      (ok (failure ("Invalid input: " <> e)), s)
  handle_drive_export_large_file job_id ts s now current_user_id (ok args) =
      elim (lookup args.format export_formats) [
        | none ↦ (
          ok (failure ("Unsupported format '" <> args.format <> "'. Supported: pdf, docx, txt")),
          s,
        )
        | some _ ↦ start_export job_id ts s now current_user_id args
      ]

module _ (R : Redis) where
  unfoldable pub result_or_pending : String → Option Fields → Answer
  result_or_pending job_id none = success (("job_id", job_id) ∷ ("status", "pending") ∷ [])
  result_or_pending job_id (some fields) = success fields

  -- `owner is None or owner != current_user_id.get()`: without a user, `get` raises
  unfoldable pub is_refused : Option String → Option String → Result String Bool
  is_refused none current_user_id = ok true
  is_refused (some owner) none = raise "LookupError"
  is_refused (some owner) (some user_id) = ok (not (owner == user_id))

  -- The owner is read in a state at an instant, and the result in a later state: others work on the
  -- server while the call waits.
  unfoldable pub handle_wait_for_job :
      R.State → ℕ → R.State → ℕ → Option String → Result String WaitInput → Result String Answer
  unfolding is_refused result_or_pending
  handle_wait_for_job s now s' now' current_user_id (raise e) =
      ok (failure ("Invalid input: " <> e))
  handle_wait_for_job s now s' now' current_user_id (ok args) =
      is_refused (job_owner R s now args.job_id) current_user_id >>= λ refused. ok (
        if refused
        then failure "job not found"
        else result_or_pending args.job_id (read_result R s' now' args.job_id))
