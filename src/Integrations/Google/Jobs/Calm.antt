-- ===== src/Integrations/Google/Jobs/Calm.antt =====
-- app/integrations/google/job_worker.py: where a cancellation comes from.
use mcp_agent_gateway.Base.{ℕ, ◌*◌, String, ◌<>◌, ◌≢◌, refl, inl, inr, arith}
use mcp_agent_gateway.Base.Result.{Result, ok, raise, ◌>>=◌, Result-cases}
use mcp_agent_gateway.Redis.{Fields}
use mcp_agent_gateway.Redis.Commands.{Raised, cancelled, exception, Commands, ◌>>>◌}
use mcp_agent_gateway.Integrations.Google.Jobs.{
  jobs_stream, group, result_ttl_seconds, results_key, owner_key,
}
use mcp_agent_gateway.Integrations.Google.Jobs.Worker.{
  Bytes, Calls, path_join, field, export_format, completed, failed, save, save_export, export_with,
  fetch, export_, publish, publish_record, publish_failed, acknowledge, process_job, process,
}

-- a call that is not cancelled
abbrev pub IsCalm : {A : Type 0} → Result Raised A → Type 0
IsCalm r = r ≢ raise cancelled

-- no call of a job is cancelled
pub record Uncancelled {T F : Type 0} (c : Calls T F) : Type 0 where
  pub calm_token : (user_id : String) (t : T) → IsCalm (c.get_token user_id t).0
  pub calm_export :
      (token file_id mime : String) (f : F) → IsCalm (c.export_file token file_id mime f).0
  pub calm_write : (path : String) (d : Bytes) (f : F) → IsCalm (c.write_bytes path d f).0
  pub calm_chmod : (path : String) (mode : ℕ) (f : F) → IsCalm (c.chmod path mode f).0

ok-IsCalm : {A : Type 0} (a : A) → IsCalm {A = A} (ok a)
ok-IsCalm a h = absurd (cc)

exception-IsCalm : {A : Type 0} (m : String) → IsCalm {A = A} (raise (exception m))
exception-IsCalm m h = absurd (cc)

bind-IsCalm :
    {A B : Type 0} (r : Result Raised A) (f : A → Result Raised B)
    → IsCalm r
    → ((a : A) → IsCalm (f a))
    → IsCalm (r >>= f)
bind-IsCalm (ok a) f calm next = next a
bind-IsCalm (raise cancelled) f calm next = absurd (calm refl)
bind-IsCalm (raise (exception m)) f calm next = exception-IsCalm m

field-IsCalm : (fields : Fields) (key : String) → IsCalm (field fields key)
unfolding field
field-IsCalm fields key h = ground arith

pub export_format-IsCalm : (fields : Fields) → IsCalm (export_format fields)
unfolding export_format
export_format-IsCalm fields = bind-IsCalm _ _ (field-IsCalm fields "format") (λ fmt h. ground arith)

failed-IsCalm : (fields : Fields) (e ts : String) → IsCalm (failed fields e ts)
unfolding failed
failed-IsCalm fields e ts = bind-IsCalm _ _ (field-IsCalm fields "user_id") (λ user_id. ok-IsCalm _)

-- no command is cancelled
pub record UncancelledCommands {S : Type 0} (r : Commands S) : Type 0 where
  pub calm_xadd :
      (s : S) (now : ℕ) (key : String) (fields : Fields) → IsCalm (r.xadd s now key fields).0
  pub calm_expire : (s : S) (now : ℕ) (key : String) (ms : ℕ) → IsCalm (r.expire s now key ms).0
  pub calm_xack : (s : S) (stream group_ entry : String) → IsCalm (r.xack s stream group_ entry).0

module _ {S : Type 0} (r : Commands S) where
  command-IsCalm :
      (x : Result Raised (Unit {0}) × S) (f : S → Result Raised (Unit {0}) × S)
      → IsCalm x.0
      → ((s : S) → IsCalm (f s).0)
      → IsCalm (x >>> f).0
  command-IsCalm (ok tt, s) f calm next = next s
  command-IsCalm (raise e, s) f calm next = calm

  module _ (k : UncancelledCommands r) where
    publish-IsCalm :
        (s : S) (now : ℕ) (job_id : String) (fields : Fields)
        → IsCalm (publish r s now job_id fields).0
    unfolding publish
    publish-IsCalm s now job_id fields =
        command-IsCalm _ _
          (command-IsCalm _ _ (k.calm_xadd s now (results_key job_id) fields)
            (λ s. k.calm_expire s now (results_key job_id) (result_ttl_seconds * 1000)))
          (λ s. k.calm_expire s now (owner_key job_id) (result_ttl_seconds * 1000))

    publish_record-IsCalm :
        (s : S) (now : ℕ) (job_id : String) (record_ : Result Raised Fields)
        → IsCalm record_
        → IsCalm (publish_record r s now job_id record_).0
    unfolding publish_record
    publish_record-IsCalm s now job_id (ok fields) calm = publish-IsCalm s now job_id fields
    publish_record-IsCalm s now job_id (raise cancelled) calm = absurd (calm refl)
    publish_record-IsCalm s now job_id (raise (exception m)) calm = exception-IsCalm m

    publish_failed-IsCalm :
        (now : ℕ) (job_id : String) (fields : Fields) (ts : String)
        (x : Result Raised (Unit {0}) × S)
        → IsCalm x.0
        → IsCalm (publish_failed r now job_id fields ts x).0
    unfolding publish_failed
    publish_failed-IsCalm now job_id fields ts (ok tt, s) calm = ok-IsCalm tt
    publish_failed-IsCalm now job_id fields ts (raise cancelled, s) calm = absurd (calm refl)
    publish_failed-IsCalm now job_id fields ts (raise (exception e), s) calm =
        publish_record-IsCalm s now job_id (failed fields e ts) (failed-IsCalm fields e ts)

    acknowledge-IsCalm :
        (entry_id : String) (x : Result Raised (Unit {0}) × S)
        → IsCalm x.0
        → IsCalm (acknowledge r entry_id x).0
    unfolding acknowledge
    acknowledge-IsCalm entry_id (done, s) calm =
        elim (Result-cases (r.xack s jobs_stream group entry_id).0) [
          | inl (u, e) ↦ rw (e, acknowledge) calm
          | inr (cancelled, e) ↦ absurd (k.calm_xack s jobs_stream group entry_id e)
          | inr (exception m, e) ↦ rw (e, acknowledge) (exception-IsCalm m)
        ]

module _ {T F : Type 0} (c : Calls T F) where
  save-IsCalm : (path : String) (d : Bytes) (f : F) → Uncancelled c → IsCalm (save c path d f).0
  unfolding save
  save-IsCalm path d f k h =
      let written = k.calm_write path d f in
      let set = k.calm_chmod path 384 (c.write_bytes path d f).1 in ground arith

  save_export-IsCalm :
      (job_id mime ext : String) (fields : Fields) (ts : String) (t : T) (f : F)
      (d : Result Raised Bytes)
      → Uncancelled c
      → IsCalm d
      → IsCalm (save_export c job_id mime ext fields ts t f d).0
  unfolding save_export completed
  save_export-IsCalm job_id mime ext fields ts t f (ok d) k calm =
      bind-IsCalm _ _ (save-IsCalm (path_join c.export_dir (job_id <> "." <> ext)) d f k)
        (λ _. bind-IsCalm _ _ (field-IsCalm fields "user_id") (λ user_id. ok-IsCalm _))
  save_export-IsCalm job_id mime ext fields ts t f (raise cancelled) k calm = absurd (calm refl)
  save_export-IsCalm job_id mime ext fields ts t f (raise (exception m)) k calm = exception-IsCalm m

  export_with-IsCalm :
      (mime : String) (fields : Fields) (f : F) (token : Result Raised String)
      → Uncancelled c
      → IsCalm token
      → IsCalm (export_with c mime fields f token).0
  unfolding export_with
  export_with-IsCalm mime fields f (ok t) k calm = elim (Result-cases (field fields "file_id")) [
    | inl (file_id, e) ↦ rw (e, export_with) (k.calm_export t file_id mime f)
    | inr (cancelled, e) ↦ absurd (field-IsCalm fields "file_id" e)
    | inr (exception m, e) ↦ rw (e, export_with) (exception-IsCalm m)
  ]
  export_with-IsCalm mime fields f (raise cancelled) k calm = absurd (calm refl)
  export_with-IsCalm mime fields f (raise (exception m)) k calm = exception-IsCalm m

  fetch-IsCalm :
      (job_id : String) (fields : Fields) (ts : String) (t : T) (f : F) (format : String × String)
      (user : Result Raised String)
      → Uncancelled c
      → IsCalm user
      → IsCalm (fetch c job_id fields ts t f format user).0
  unfolding fetch
  fetch-IsCalm job_id fields ts t f format (ok user_id) k calm =
      let token = c.get_token user_id t in
      save_export-IsCalm job_id format.0 format.1 fields ts token.1
        (export_with c format.0 fields f token.0).1 _ k
        (export_with-IsCalm format.0 fields f token.0 k (k.calm_token user_id t))
  fetch-IsCalm job_id fields ts t f format (raise cancelled) k calm = absurd (calm refl)
  fetch-IsCalm job_id fields ts t f format (raise (exception m)) k calm = exception-IsCalm m

  pub export_-IsCalm :
      (job_id : String) (fields : Fields) (ts : String) (t : T) (f : F)
      (format : Result Raised (String × String))
      → Uncancelled c
      → IsCalm format
      → IsCalm (export_ c job_id fields ts t f format).0
  unfolding export_
  export_-IsCalm job_id fields ts t f (ok format) k calm =
      fetch-IsCalm job_id fields ts t f format _ k (field-IsCalm fields "user_id")
  export_-IsCalm job_id fields ts t f (raise cancelled) k calm = absurd (calm refl)
  export_-IsCalm job_id fields ts t f (raise (exception m)) k calm = exception-IsCalm m

  module _ {S : Type 0} (r : Commands S) (n : UncancelledCommands r) where
    process_job-IsCalm :
        (s : S) (now : ℕ) (entry_id job_id : String) (fields : Fields) (ts : String) (t : T) (f : F)
        → Uncancelled c
        → IsCalm (process_job c r s now entry_id job_id fields ts t f).0
    unfolding process_job
    process_job-IsCalm s now entry_id job_id fields ts t f k = acknowledge-IsCalm r n entry_id _ (
        publish_failed-IsCalm r n now job_id fields ts _ (
          publish_record-IsCalm r n s now job_id _ (
            export_-IsCalm job_id fields ts t f (export_format fields) k
              (export_format-IsCalm fields))))

    pub process-IsCalm :
        (s : S) (now : ℕ) (entry_id : String) (fields : Fields) (ts : String) (t : T) (f : F)
        → Uncancelled c
        → IsCalm (process c r s now entry_id fields ts t f).0
    unfolding process
    process-IsCalm s now entry_id fields ts t f k = elim (Result-cases (field fields "job_id")) [
      | inl (job_id, e) ↦ rw (e, process) (process_job-IsCalm s now entry_id job_id fields ts t f k)
      | inr (cancelled, e) ↦ absurd (field-IsCalm fields "job_id" e)
      | inr (exception m, e) ↦ rw (e, process) (exception-IsCalm m)
    ]
