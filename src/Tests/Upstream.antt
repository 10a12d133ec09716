-- ===== src/Tests/Upstream.antt =====
-- The clients of the upstream APIs at concrete data.
use mcp_agent_gateway.Base.{
  String, List, ℕ, zero, suc, ◌+◌, ◌-◌, ◌*◌, ◌≤◌, ltb, decimal, string_eq, ◌<>◌, Bool, true, false,
  none, some, [], ◌≡◌, refl, ◌⊎◌, inl, inr, Bool-cases, arith, if◌then◌else◌,
}
use mcp_agent_gateway.Base.Json.{Json, text, bool, object, no_members, member}
use mcp_agent_gateway.Base.Result.{Result, ok, raise}
use mcp_agent_gateway.Integrations.Http.{Request, Reply, Send}
use mcp_agent_gateway.Integrations.Retrying as Retrying
use mcp_agent_gateway.Integrations.Retrying.{Retrying, IsLawful, IsFinal}
use mcp_agent_gateway.Integrations.Slack.SlackClient
use mcp_agent_gateway.Integrations.Slack.SlackClient.{Posted, try_post, post_message}
use mcp_agent_gateway.Integrations.Slack.SlackClient.Attempts.{
  Sent, message_request, read_posted, post_message-Sent,
}
use mcp_agent_gateway.Integrations.Google.DriveClient.{padded, date_text, FileContent}
use mcp_agent_gateway.Integrations.Http as Http
use mcp_agent_gateway.Shared.Store.InMemory.{in_memory_store}
use mcp_agent_gateway.Integrations.Google.Tools.{
  ClientError, other_client_error, ApiFile, DriveFileContent,
}
use mcp_agent_gateway.Integrations.Google.Tools.Upstream.{
  SharedReads, search, get_content, list_recent, drive_tools-SharedReads,
}
use mcp_agent_gateway.Tests.Drive.{codec, post, tokens, search_input}
use mcp_agent_gateway.Redis.Commands.{answering}
use mcp_agent_gateway.Redis.Memory.{memory}
use mcp_agent_gateway.Integrations.Google.Jobs.Worker.{Calls, process}
use mcp_agent_gateway.Integrations.Google.Jobs.Upstream.{calls, Fetches, process-Fetches}
use mcp_agent_gateway.Tests.Jobs.{worker, job}

date_text_runs :
    date_text (719468 + 20783) ≡ decimal 2026 <> ("-" <> (decimal 11 <> ("-" <> decimal 26)))
unfolding date_text padded
date_text_runs = refl

-- tenacity by recursion on the attempts that are left
abbrev attempts :
    {W E A : Type 0} → ℕ → (E → Bool) → (W → Result E A × W) → Result E A × W → Result E A × W
attempts zero retry f r = r
attempts (suc n) retry f (ok a, w) = (ok a, w)
attempts (suc n) retry f (raise e, w) = elim (retry e) [
  | true ↦ attempts n retry f (f w)
  | false ↦ (raise e, w)
]

abbrev tenacity : {W E : Type 0} → Retrying W E
tenacity = record { run = λ retry n k f w. attempts (n - k) retry f (f w) }

attempts-after :
    {W E A : Type 0} (retry : E → Bool) (n k j : ℕ) (f : W → Result E A × W) (r : Result E A × W)
    → n - k ≡ j
    → attempts j retry f r ≡ Retrying.after tenacity retry n k f r
unfolding Retrying.after
attempts-after retry n k zero f (ok a, w) h = refl
attempts-after retry n k (suc j) f (ok a, w) h = refl
attempts-after retry n k zero f (raise e, w) h =
    let stop : ltb k n ≡ false = ground arith in
    elim (Bool-cases (retry e)) [ inl y ↦ rw (y, stop) refl | inr z ↦ rw z refl ]
attempts-after retry n k (suc j) f (raise e, w) h =
    let more : ltb k n ≡ true = ground arith in
    let left : n - suc k ≡ j = omega arith in
    elim (Bool-cases (retry e)) [
      | inl y ↦ rw (y, attempts, more, left) refl
      | inr z ↦ rw (z, attempts) refl
    ]

tenacity-IsLawful : {W E : Type 0} → IsLawful (tenacity {W = W} {E = E})
tenacity-IsLawful = record {
  run_attempt = λ retry n k f w. attempts-after retry n k (n - k) f (f w) refl;
}

-- Slack is busy twice, and then takes the message; the world is the number of requests
abbrev busy_reply : Reply
busy_reply = record { status_code = 503; json = none; text = ""; content = [] }

abbrev posted_reply : Reply
posted_reply = record {
  status_code = 200;
  json = some (
      object (
        member "ok" (bool true)
          (member "channel" (text "C1") (member "ts" (text "1.2") no_members))));
  text = "";
  content = [];
}

abbrev send : Send ℕ
send request n = (ok (if ltb n 2 then busy_reply else posted_reply), suc n)

post_message-Sent_example :
    let r = post_message tenacity send 3 "xoxb" "C1" "hello" 0 in
    (m : ℕ) × Sent send (message_request "xoxb" "C1" "hello") read_posted m 0 r
    × ((m ≡ 1) ⊎ (m ≤ 3))
    × IsFinal SlackClient.is_retryable (try_post tenacity send 3 "xoxb" "C1" "hello") r.0 (3 ≤ m)
post_message-Sent_example =
    post_message-Sent tenacity send 3 "xoxb" "C1" "hello" 0 tenacity-IsLawful

abbrev read_files : Result Http.ClientError Json → Result ClientError (List ApiFile)
read_files (ok v) = ok []
read_files (raise e) = raise (other_client_error "upstream")

abbrev read_content : Result Http.ClientError FileContent → Result ClientError DriveFileContent
read_content (ok f) =
    ok (record { file_id = "f1"; name = "n"; content = f.content; mime_type = f.mime_type })
read_content (raise e) = raise (other_client_error "upstream")

abbrev clock : List Request × ℕ → ℕ
clock w = (719468 + 20783) * 86400

drive_tools-SharedReads_example :
    SharedReads in_memory_store codec post tenacity send 3 tokens 100000 1 [] (
      search in_memory_store codec post tenacity send 3 tokens 100000 tenacity-IsLawful read_files
        read_content
        ([], 0)
        (ok search_input))
    × SharedReads in_memory_store codec post tenacity send 3 tokens 100000 2 [] (
        get_content in_memory_store codec post tenacity send 3 tokens 100000 tenacity-IsLawful
          read_files read_content
          ([], 0)
          (ok "f1"))
    × SharedReads in_memory_store codec post tenacity send 3 tokens 100000 1 [] (
        list_recent in_memory_store codec post tenacity send 3 tokens 100000 tenacity-IsLawful
          read_files read_content clock
          ([], 0)
          (ok (record { days = 7; max_results = 20 })))
drive_tools-SharedReads_example =
    drive_tools-SharedReads in_memory_store codec post tenacity send 3 tokens 100000
      tenacity-IsLawful read_files read_content clock ([], 0) (ok search_input) (ok "f1")
      (ok (record { days = 7; max_results = 20 }))

abbrev calls_of_worker : Calls (Unit {0}) (List String × (List Request × ℕ))
calls_of_worker = calls worker (λ e. "upstream") tenacity send 3

process-Fetches_example :
    Fetches worker
      (λ e. "upstream")
      tenacity
      send
      3
      job
      tt
      []
      (process calls_of_worker (answering memory) [] 5 "1-0" job "2.0" tt ([], ([], 0))).1.1.1.1.0
process-Fetches_example =
    process-Fetches worker (λ e. "upstream") tenacity send 3 tenacity-IsLawful (answering memory) []
      5 "1-0" job "2.0" tt ([], ([], 0))
