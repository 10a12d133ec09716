-- ===== src/Integrations/Google/Jobs/Answered.antt =====
-- app/integrations/google/job_worker.py: one entry on a server that answers.
use mcp_agent_gateway.Base.{ℕ, String, string_eq, some, ◌≡◌, ◌≢◌, refl, ◌⊎◌, inl, inr}
use mcp_agent_gateway.Base.Dict.{lookup}
use mcp_agent_gateway.Base.Result.{Result, ok, raise}
use mcp_agent_gateway.Redis.{Fields, Redis}
use mcp_agent_gateway.Integrations.Google.Jobs.{jobs_stream, group}
use mcp_agent_gateway.Redis.Commands.{Raised, cancelled, exception, answering}
use mcp_agent_gateway.Integrations.Google.Jobs.Worker.{
  Calls, export_format, export_, publish, publish_record, publish_failed, acknowledge, process_job,
  process,
}
use mcp_agent_gateway.Integrations.Google.Jobs.Records.{
  Says, failed-Says, field_found, export_-Says,
}

module _ {T F : Type 0} (c : Calls T F) where
  -- on a server that answers: one record
  abbrev pub Outcome : String → Result Raised Fields → Fields → Type 0
  Outcome user_id exported r =
      ((exported ≡ ok r) × Says "completed" user_id r)
      ⊎ ((e : String) × (exported ≡ raise (exception e))
          × Says "failed" user_id r
          × (lookup "error" r ≡ some e))

  module _ (R : Redis) where
    -- what is left when the job is answered with the record `r`
    abbrev pub Answered : R.State → ℕ → String → Fields → String → T → F → String → Fields → Type 0
    Answered s now entry_id fields ts t f job_id r =
        process c (answering R) s now entry_id fields ts t f ≡ (
          ok tt,
          (
            R.xack (publish (answering R) s now job_id r).1 jobs_stream group entry_id,
            (export_ c job_id fields ts t f (export_format fields)).1,
          ),
        )

    handled-answering :
        (now : ℕ) (job_id user_id : String) (fields : Fields) (ts : String) (s : R.State)
        (exported : Result Raised Fields)
        → lookup "user_id" fields ≡ some user_id
        → exported ≢ raise cancelled
        → ((record_ : Fields) → exported ≡ ok record_ → Says "completed" user_id record_)
        → (record_ : Fields) × (publish_failed
              (answering R)
              now
              job_id
              fields
              ts
              (publish_record (answering R) s now job_id exported)
            ≡ (ok tt, (publish (answering R) s now job_id record_).1))
          × Outcome user_id exported record_
    unfolding publish_failed publish_record publish
    handled-answering now job_id user_id fields ts s (ok record_) u n says =
        (record_, refl, inl (refl, says record_ refl))
    handled-answering now job_id user_id fields ts s (raise cancelled) u n says = absurd (n refl)
    handled-answering now job_id user_id fields ts s (raise (exception e)) u n says =
        let (record_, made, fails, error) = failed-Says fields e ts user_id u in
        (record_, rw made refl, inr (e, refl, fails, error))

    pub process-Answered :
        (s : R.State) (now : ℕ) (entry_id : String) (fields : Fields) (ts : String) (t : T) (f : F)
        (job_id user_id : String)
        → lookup "job_id" fields ≡ some job_id
        → lookup "user_id" fields ≡ some user_id
        → (export_ c job_id fields ts t f (export_format fields)).0 ≢ raise cancelled
        → (r : Fields) × Answered s now entry_id fields ts t f job_id r
          × Outcome user_id (export_ c job_id fields ts t f (export_format fields)).0 r
    unfolding process process_job acknowledge
    process-Answered s now entry_id fields ts t f job_id user_id j u n =
        let exported = export_ c job_id fields ts t f (export_format fields) in
        let (r, made, outcome) =
          handled-answering now job_id user_id fields ts s exported.0 u n
            (λ r h. export_-Says c job_id fields ts t f (export_format fields) user_id r u h) in
        (r, rw (field_found fields "job_id" job_id j, process, made) refl, outcome)
