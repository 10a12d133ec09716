-- ===== src/Tests/Jobs.antt =====
-- The export jobs at concrete data.
use mcp_agent_gateway.Base.{
  ℕ, suc, nat_eq, String, string_eq, char_eq, has_text, starts_with, ◌==◌, true, false, some, List,
  [], ◌∷◌, ◌≡◌, ◌≢◌, ◌⊎◌, refl, ap, arith, if◌then◌else◌,
}
use mcp_agent_gateway.Base.Dict.{lookup}
use mcp_agent_gateway.Base.Result.{Result, ok, raise}
use mcp_agent_gateway.Redis.{Fields, Redis}
use mcp_agent_gateway.Redis.Commands.{Raised, exception, Commands, answering}
use mcp_agent_gateway.Redis.Memory.{memory, memory-IsLawful}
use mcp_agent_gateway.Shared.Store.InMemory.{clear, in_memory_store, in_memory_store-Contract}
use mcp_agent_gateway.Integrations.Google.TokenStore.{
  google_shared_user, seed_shared_token_if_absent,
}
use mcp_agent_gateway.Integrations.Google.Jobs.{jobs_stream, group, job_fields, enqueue_export_job}
use mcp_agent_gateway.Integrations.Google.Jobs.Tools.{
  WaitInput, failure, success, handle_wait_for_job,
}
use mcp_agent_gateway.Integrations.Google.Jobs.Worker.{
  Calls, field, export_format, export_, publish, process,
}
use mcp_agent_gateway.Integrations.Google.Jobs.Calm.{
  Uncancelled, UncancelledCommands, export_-IsCalm, export_format-IsCalm,
}
use mcp_agent_gateway.Integrations.Google.Jobs.Loop.{
  response_error, Group, Tick, group_made, ensure_group, prepare, set_up, run,
}
use mcp_agent_gateway.Integrations.Google.Jobs.Survives.{Undisturbed, AllRounds, run-AllRounds}
use mcp_agent_gateway.Integrations.Google.Jobs.Records.{Says}
use mcp_agent_gateway.Integrations.Google.Jobs.Published.{Published, process-Outcome}
use mcp_agent_gateway.Integrations.Google.Jobs.Answered.{Outcome}
use mcp_agent_gateway.Integrations.Google.Jobs.RoundTrip.{wait-process-enqueue}
use mcp_agent_gateway.Integrations.Google.Jobs.Authorization.{worker_calls, process-unauthorized}
use mcp_agent_gateway.Tests.Drive.{codec, post, no_tokens}

-- a worker whose calls all end well, on a list of the paths written
abbrev pub worker : Calls (Unit {0}) (List String)
worker = record {
  get_token = λ user_id t. (ok "ya29", t);
  export_file = λ token file_id mime files. (ok (37 ∷ 80 ∷ 68 ∷ 70 ∷ []), files);
  write_bytes = λ path bytes files. (ok tt, path ∷ files);
  chmod = λ path mode files. (ok tt, files);
  export_dir = "/exports";
}

worker-Uncancelled : Uncancelled worker
worker-Uncancelled = record {
  calm_token = λ user_id t h. cc;
  calm_export = λ token file_id mime files h. cc;
  calm_write = λ path bytes files h. cc;
  calm_chmod = λ path mode files h. cc;
}

abbrev pub job : Fields
job = job_fields "j1" "alice" "file" "pdf" "1.0"

job_of : lookup "job_id" job ≡ some "j1"
unfolding job_fields lookup string_eq
job_of = refl

user_of : lookup "user_id" job ≡ some "alice"
unfolding job_fields lookup string_eq
user_of = refl

-- a server whose first XADD does not get through; the state is the number of these
abbrev flaky : Commands ℕ
flaky = record {
  set = λ s now k v ms. (ok tt, s);
  xadd = λ s now k f. (if nat_eq s 0 then raise (exception "ConnectionError") else ok tt, suc s);
  expire = λ s now k ms. (ok tt, s);
  xack = λ s stream group_ entry. (ok tt, s);
}

process-Outcome_example :
    let exported = export_ worker "j1" job "2.0" tt [] (export_format job) in
    (done : Result Raised (Unit {0})) × (s' : ℕ) × Published worker flaky 0 5 "j1" "alice"
      exported.0 done s'
    × ((process worker flaky 0 5 "1-0" job "2.0" tt []).1
        ≡ ((flaky.xack s' jobs_stream group "1-0").1, exported.1))
    × ((((flaky.xack s' jobs_stream group "1-0").0 ≡ ok tt)
          × ((process worker flaky 0 5 "1-0" job "2.0" tt []).0 ≡ done))
        ⊎ ((e : Raised) × ((flaky.xack s' jobs_stream group "1-0").0 ≡ raise e)
            × ((process worker flaky 0 5 "1-0" job "2.0" tt []).0 ≡ raise e)))
process-Outcome_example =
    process-Outcome worker flaky 0 5 "1-0" job "2.0" tt [] "j1" "alice" job_of user_of

abbrev waiting : WaitInput
waiting = record { job_id = "j1"; timeout_seconds = 30 }

wait-process-enqueue_example :
    (r : Fields) × Outcome worker "alice"
      (export_ worker "j1" job "2.0" tt [] (export_format job)).0
      r
    × ((caller : String)
        → handle_wait_for_job memory
            (process worker
              (answering memory)
              (enqueue_export_job (answering memory) "j1" "1.0" [] 1000 "alice" "file" "pdf").1
              2000
              "1-0"
              job
              "2.0"
              tt
              []).1.0
            3000
            (process worker
              (answering memory)
              (enqueue_export_job (answering memory) "j1" "1.0" [] 1000 "alice" "file" "pdf").1
              2000
              "1-0"
              job
              "2.0"
              tt
              []).1.0
            3000
            (some caller)
            (ok waiting)
          ≡ ok (if "alice" == caller then success r else failure "job not found"))
wait-process-enqueue_example =
    wait-process-enqueue memory memory-IsLawful worker [] 1000 2000 3000 waiting "alice" "file"
      "pdf" "1.0" "1-0" "2.0" tt [] (omega arith) (omega arith) (omega arith) (omega arith) refl
      (export_-IsCalm worker "j1" job "2.0" tt [] (export_format job) worker-Uncancelled
        (export_format-IsCalm job))

alice_not_shared : "alice" ≢ google_shared_user
alice_not_shared e =
    let a : starts_with "alice" "alice" ≡ true = unfold starts_with char_eq in refl in
    let b : starts_with google_shared_user "alice" ≡ false = unfold starts_with char_eq in refl in
    cc (ap (λ s. starts_with s "alice") e)

process-unauthorized_example :
    (r : Fields) × ((process
        (worker_calls in_memory_store codec worker post 9)
        (answering memory)
        []
        9
        "1-0"
        job
        "2.0"
        (seed_shared_token_if_absent in_memory_store codec no_tokens 5 (some "1//x"))
        []).1.0
      ≡ Redis.xack memory (publish (answering memory) [] 9 "j1" r).1 jobs_stream group "1-0")
    × Says "failed" "alice" r
    × (lookup "error" r ≡ some "User has not authorized Google")
process-unauthorized_example =
    process-unauthorized in_memory_store codec worker post 9 in_memory_store-Contract memory []
      no_tokens 5 (some "1//x") [] "1-0" "2.0" "j1" "alice" job ("application/pdf", "pdf")
      (omega arith)
      (unfold clear in in_memory_store-Contract.view-clear no_tokens 5 9 "alice" (omega arith))
      alice_not_shared job_of user_of
      (unfold job_fields export_format field lookup string_eq in refl)

answering-Uncancelled : UncancelledCommands (answering memory)
answering-Uncancelled = record {
  calm_xadd = λ s now k f h. cc;
  calm_expire = λ s now k ms h. cc;
  calm_xack = λ s stream group_ entry h. cc;
}

-- the group is there already, a claim fails, and each read has a job and an entry without fields
abbrev readings : Group (Redis.State memory) (List String)
readings = record {
  xautoclaim = λ s now. (raise (exception "NOGROUP"), s);
  xreadgroup = λ s now. (ok (("1-0", job) ∷ ("2-0", []) ∷ []), s);
  xgroup_create = λ s. (raise (response_error "BUSYGROUP Consumer Group name already exists"), s);
  makedirs = λ files. (ok tt, files);
}

readings-Undisturbed : Undisturbed readings
readings-Undisturbed = record { calm_claim = λ s now h. cc; calm_read = λ s now h. cc }

abbrev ticks : List Tick
ticks = record { instant = 5; ts = "2.0" } ∷ record { instant = 6; ts = "3.0" } ∷ []

run-AllRounds_example :
    ((e : Raised) × ((set_up (answering memory) readings worker ([], (tt, []))).0 ≡ raise e)
      × ((run (answering memory) readings worker ticks ([], (tt, []))).0 ≡ raise e))
    ⊎ AllRounds
        (answering memory)
        answering-Uncancelled
        readings
        worker
        ticks
        (run (answering memory) readings worker ticks ([], (tt, []))).0
run-AllRounds_example =
    run-AllRounds (answering memory) answering-Uncancelled readings worker ticks ([], (tt, []))
      readings-Undisturbed worker-Uncancelled

set_up_runs : (set_up (answering memory) readings worker ([], (tt, []))).0 ≡ ok tt
unfolding set_up prepare ensure_group group_made has_text starts_with char_eq
set_up_runs = refl
