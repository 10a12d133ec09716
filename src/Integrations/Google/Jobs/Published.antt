-- ===== src/Integrations/Google/Jobs/Published.antt =====
-- app/integrations/google/job_worker.py: what the worker publishes for an entry.
use mcp_agent_gateway.Base.{ℕ, String, string_eq, some, ◌≡◌, ◌≢◌, refl, ap, ◌⊎◌, inl, inr}
use mcp_agent_gateway.Base.Dict.{lookup}
use mcp_agent_gateway.Base.Result.{Result, ok, raise, Result-cases}
use mcp_agent_gateway.Redis.{Fields}
use mcp_agent_gateway.Integrations.Google.Jobs.{jobs_stream, group}
use mcp_agent_gateway.Redis.Commands.{Raised, cancelled, exception, Commands}
use mcp_agent_gateway.Integrations.Google.Jobs.Worker.{
  Calls, export_format, export_, publish, publish_record, publish_failed, acknowledge, process_job,
  process,
}
use mcp_agent_gateway.Integrations.Google.Jobs.Records.{
  Says, failed-Says, field_found, export_-Says,
}

module _ {T F : Type 0} (c : Calls T F) where
  -- Of an entry whose export gives `exported`, in the state `s`: what is published, the exception or
  -- the return that it ends with, and the state that it leaves.
  pub data Published {S : Type 0} (r : Commands S) (s : S) (now : ℕ) (job_id user_id : String)
      (exported : Result Raised Fields) : Result Raised (Unit {0}) → S → Type 0 where
    -- nothing, since the export is cancelled
    stopped :
        exported ≡ raise cancelled → Published r s now job_id user_id exported (raise cancelled) s
    -- the record of an export that has ended well, without an exception but perhaps cancelled
    completed_record :
        {done : Result Raised (Unit {0})} {s' : S} (record_ : Fields)
        → exported ≡ ok record_
        → Says "completed" user_id record_
        → publish r s now job_id record_ ≡ (done, s')
        → ((m : String) → done ≢ raise (exception m))
        → Published r s now job_id user_id exported done s'
    -- a failure with the text of the export's exception
    failed_record :
        {done : Result Raised (Unit {0})} {s' : S} (e : String) (record_ : Fields)
        → exported ≡ raise (exception e)
        → Says "failed" user_id record_
        → lookup "error" record_ ≡ some e
        → publish r s now job_id record_ ≡ (done, s')
        → Published r s now job_id user_id exported done s'
    -- the record of an export that has ended well, whose publication raises, and then a failure with
    -- the text of that exception
    both_records :
        {done : Result Raised (Unit {0})} {s' : S} (record_ : Fields) (e : String) (s₁ : S)
        (second : Fields)
        → exported ≡ ok record_
        → Says "completed" user_id record_
        → publish r s now job_id record_ ≡ (raise (exception e), s₁)
        → Says "failed" user_id second
        → lookup "error" second ≡ some e
        → publish r s₁ now job_id second ≡ (done, s')
        → Published r s now job_id user_id exported done s'

  module _ {S : Type 0} (r : Commands S) where
    publish_failed-failed :
        (now : ℕ) (job_id user_id : String) (fields : Fields) (ts e : String) (s : S)
        → lookup "user_id" fields ≡ some user_id
        → (record_ : Fields) × (publish_failed r now job_id fields ts (raise (exception e), s)
            ≡ publish r s now job_id record_)
          × Says "failed" user_id record_
          × (lookup "error" record_ ≡ some e)
    unfolding publish_failed publish_record
    publish_failed-failed now job_id user_id fields ts e s u =
        let (record_, made, says, error) = failed-Says fields e ts user_id u in
        (record_, rw made refl, says, error)

    -- what comes of the first publication
    attempt-Published :
        (now : ℕ) (job_id user_id : String) (fields : Fields) (ts : String) (s : S)
        (record_ : Fields) (done : Result Raised (Unit {0})) (s' : S)
        → lookup "user_id" fields ≡ some user_id
        → Says "completed" user_id record_
        → publish r s now job_id record_ ≡ (done, s')
        → Published r s now job_id user_id
            (ok record_)
            (publish_failed r now job_id fields ts (done, s')).0
            (publish_failed r now job_id fields ts (done, s')).1
    unfolding publish_failed
    attempt-Published now job_id user_id fields ts s record_ (ok tt) s' u says e =
        completed_record record_ refl says e (λ m h. absurd (cc))
    attempt-Published now job_id user_id fields ts s record_ (raise cancelled) s' u says e =
        completed_record record_ refl says e (λ m h. absurd (cc))
    attempt-Published now job_id user_id fields ts s record_ (raise (exception m)) s' u says e =
        let (second, p, fails, error) = publish_failed-failed now job_id user_id fields ts m s' u in
        both_records record_ m s' second refl says e fails error (rw p refl)

    handled-Published :
        (now : ℕ) (job_id user_id : String) (fields : Fields) (ts : String) (s : S)
        (exported : Result Raised Fields)
        → lookup "user_id" fields ≡ some user_id
        → ((record_ : Fields) → exported ≡ ok record_ → Says "completed" user_id record_)
        → let handled =
            publish_failed r now job_id fields ts (publish_record r s now job_id exported) in
          Published r s now job_id user_id exported handled.0 handled.1
    unfolding publish_failed publish_record
    handled-Published now job_id user_id fields ts s (ok record_) u says =
        attempt-Published now job_id user_id fields ts s record_ (publish r s now job_id record_).0
          (publish r s now job_id record_).1 u (says record_ refl) refl
    handled-Published now job_id user_id fields ts s (raise cancelled) u says = stopped refl
    handled-Published now job_id user_id fields ts s (raise (exception e)) u says =
        let (record_, p, fails, error) = publish_failed-failed now job_id user_id fields ts e s u in
        failed_record e record_ refl fails error (rw p refl)

    acknowledge-cases :
        (entry_id : String) (done : Result Raised (Unit {0})) (s : S)
        → let acked = r.xack s jobs_stream group entry_id in
          ((acknowledge r entry_id (done, s)).1 ≡ acked.1)
          × (((acked.0 ≡ ok tt) × ((acknowledge r entry_id (done, s)).0 ≡ done))
              ⊎ ((e : Raised) × (acked.0 ≡ raise e)
                  × ((acknowledge r entry_id (done, s)).0 ≡ raise e)))
    unfolding acknowledge
    acknowledge-cases entry_id done s =
        elim (Result-cases (r.xack s jobs_stream group entry_id).0) [
          | inl (tt, e) ↦ (refl, inl (e, rw (e, acknowledge) refl))
          | inr (x, e) ↦ (refl, inr (x, e, rw (e, acknowledge) refl))
        ]

    -- Whatever the commands raise, the processing of an entry with a job and a user publishes what
    -- `Published` says: nothing if the export is cancelled; a failed record with the text of its
    -- exception if the export has failed; a completed record if it has ended well, and after that a
    -- failed record with the text of the exception exactly if the publication of the completed one has
    -- raised an exception; each record names the user. The last command is the acknowledgement of the
    -- entry in every case; the processing ends as the publication does, or with what the
    -- acknowledgement raises.
    pub process-Outcome :
        (s : S) (now : ℕ) (entry_id : String) (fields : Fields) (ts : String) (t : T) (f : F)
        (job_id user_id : String)
        → lookup "job_id" fields ≡ some job_id
        → lookup "user_id" fields ≡ some user_id
        → let exported = export_ c job_id fields ts t f (export_format fields) in
          (done : Result Raised (Unit {0})) × (s' : S) × Published r s now job_id user_id exported.0
            done s'
          × ((process c r s now entry_id fields ts t f).1
              ≡ ((r.xack s' jobs_stream group entry_id).1, exported.1))
          × ((((r.xack s' jobs_stream group entry_id).0 ≡ ok tt)
                × ((process c r s now entry_id fields ts t f).0 ≡ done))
              ⊎ ((e : Raised) × ((r.xack s' jobs_stream group entry_id).0 ≡ raise e)
                  × ((process c r s now entry_id fields ts t f).0 ≡ raise e)))
    unfolding process process_job
    process-Outcome s now entry_id fields ts t f job_id user_id j u =
        let exported = export_ c job_id fields ts t f (export_format fields) in
        let handled =
          publish_failed r now job_id fields ts (publish_record r s now job_id exported.0) in
        let (left, ends) = acknowledge-cases entry_id handled.0 handled.1 in
        (
          handled.0,
          handled.1,
          handled-Published now job_id user_id fields ts s exported.0 u (λ record_ h.
              export_-Says c job_id fields ts t f (export_format fields) user_id record_ u h),
          rw (field_found fields "job_id" job_id j, process) (ap (λ x. (x, exported.1)) left),
          rw (field_found fields "job_id" job_id j, process) ends,
        )
