-- ===== src/Integrations/Google/Jobs/Upstream.antt =====
-- The worker with the Drive client of the gateway: what the job of an entry sends to Drive.
use mcp_agent_gateway.Base.{ℕ, String, string_eq, ◌<>◌, List, some, ◌≡◌, refl, ◌⊎◌, inl, inr, arith}
use mcp_agent_gateway.Base.Dict.{lookup}
use mcp_agent_gateway.Base.Result.{Result, ok, raise, Result-cases}
use mcp_agent_gateway.Redis.{Fields}
use mcp_agent_gateway.Redis.Commands.{Raised, exception, Commands}
use mcp_agent_gateway.Integrations.Http.{ClientError, Request, Send}
use mcp_agent_gateway.Integrations.Retrying.{Retrying, IsLawful}
use mcp_agent_gateway.Integrations.Google.DriveClient.{export_file}
use mcp_agent_gateway.Integrations.Google.DriveClient.Requests.{
  logged, Reads, weaken, export_file-InAttempts,
}
use mcp_agent_gateway.Integrations.Google.Jobs.Worker.{
  Bytes, Calls, path_join, field, export_format, save, save_export, export_with, fetch, export_,
  process_job, process,
}

-- an exception of the client, by its text
unfoldable pub told : {A : Type 0} → (ClientError → String) → Result ClientError A → Result Raised A
told str (ok a) = ok a
told str (raise e) = raise (exception (str e))

-- the calls of the worker with this client, and the other calls as they are
unfoldable pub drive_calls :
    {T F W : Type 0}
    → Calls T F
    → (ClientError → String)
    → (String → String → String → W → Result ClientError Bytes × W)
    → Calls T (F × W)
unfolding told
drive_calls other str exports = record {
  get_token = other.get_token;
  export_file = λ token file_id mime (f, w).
      let (data_, w') = exports token file_id mime w in (told str data_, (f, w'));
  write_bytes =
      λ path data_ (f, w). let (written, f') = other.write_bytes path data_ f in (written, (f', w));
  chmod = λ path mode (f, w). let (set, f') = other.chmod path mode f in (set, (f', w));
  export_dir = other.export_dir;
}

field-found :
    (fields : Fields) (key v : String) → field fields key ≡ ok v → lookup key fields ≡ some v
unfolding field
field-found fields key v h = ground arith

module _ {T F W : Type 0} (other : Calls T F) (str : ClientError → String)
    (retrying : Retrying (List Request × W) ClientError) (send : Send W) (max_retries : ℕ) where
  abbrev pub calls : Calls T (F × (List Request × W))
  calls = drive_calls other str (export_file retrying (logged send) max_retries)

  -- Nothing is sent, or one attempt, or `max_retries` at most, all of them reads with the token that
  -- the worker has got for the user of the entry.
  abbrev pub Fetches : Fields → T → List Request → List Request → Type 0
  Fetches fields tokens log log' =
      (log' ≡ log)
      ⊎ ((user_id : String) × (token : String) × (lookup "user_id" fields ≡ some user_id)
          × ((other.get_token user_id tokens).0 ≡ ok token)
          × (Reads token 1 log log' ⊎ Reads token max_retries log log'))

  save-silent :
      (path : String) (d : Bytes) (f : F × (List Request × W)) → (save calls path d f).1.1 ≡ f.1
  unfolding save drive_calls
  save-silent path d (f, w) = elim (Result-cases (other.write_bytes path d f).0) [
    | inl (u, e) ↦ rw (e, save) refl
    | inr (x, e) ↦ rw (e, save) refl
  ]

  save_export-silent :
      (job_id mime ext : String) (fields : Fields) (ts : String) (t : T)
      (f : F × (List Request × W)) (d : Result Raised Bytes)
      → (save_export calls job_id mime ext fields ts t f d).1.1.1 ≡ f.1
  unfolding save_export drive_calls
  save_export-silent job_id mime ext fields ts t f (ok d) =
      save-silent (path_join other.export_dir (job_id <> "." <> ext)) d f
  save_export-silent job_id mime ext fields ts t f (raise e) = refl

  module _ (L : IsLawful retrying) where
    export_with-Fetches :
        (mime : String) (fields : Fields) (f : F × (List Request × W)) (user_id : String)
        (tokens : T) (token : Result Raised String)
        → lookup "user_id" fields ≡ some user_id
        → (other.get_token user_id tokens).0 ≡ token
        → Fetches fields tokens f.1.0 (export_with calls mime fields f token).1.1.0
    unfolding export_with drive_calls
    export_with-Fetches mime fields (f, w) user_id tokens (raise e) u known = inl refl
    export_with-Fetches mime fields (f, w) user_id tokens (ok token) u known =
        elim (Result-cases (field fields "file_id")) [
          | inr (e, missing) ↦ rw (missing, export_with) (inl refl)
          | inl (file_id, found) ↦
              rw (found, export_with)
                (inr (
                  user_id,
                  token,
                  u,
                  known,
                  elim (export_file-InAttempts retrying send max_retries token file_id mime w L) [
                    | inl one ↦ inl one
                    | inr more ↦ inr (weaken (omega arith) more)
                  ],
                ))
        ]

    fetch-Fetches :
        (job_id : String) (fields : Fields) (ts : String) (t : T) (f : F × (List Request × W))
        (format : String × String) (user : Result Raised String)
        → field fields "user_id" ≡ user
        → Fetches fields t f.1.0 (fetch calls job_id fields ts t f format user).1.1.1.0
    unfolding fetch drive_calls
    fetch-Fetches job_id fields ts t f format (raise e) h = inl refl
    fetch-Fetches job_id fields ts t f format (ok user_id) h =
        let token = other.get_token user_id t in
        let exported = export_with calls format.0 fields f token.0 in
        rw (save_export-silent job_id format.0 format.1 fields ts token.1 exported.1 exported.0) (
          export_with-Fetches format.0 fields f user_id t token.0
            (field-found fields "user_id" user_id h) refl)

    export_-Fetches :
        (job_id : String) (fields : Fields) (ts : String) (t : T) (f : F × (List Request × W))
        (format : Result Raised (String × String))
        → Fetches fields t f.1.0 (export_ calls job_id fields ts t f format).1.1.1.0
    unfolding export_
    export_-Fetches job_id fields ts t f (raise e) = inl refl
    export_-Fetches job_id fields ts t f (ok format) =
        fetch-Fetches job_id fields ts t f format (field fields "user_id") refl

    -- With tenacity as documented, whatever the entry, its processing sends nothing to Drive, or
    -- only GET requests with the token that the worker has got for the user whom the entry names,
    -- and at most `max_retries` of them, one with `max_retries` 0.
    pub process-Fetches :
        {S : Type 0} (r : Commands S) (s : S) (now : ℕ) (entry_id : String) (fields : Fields)
        (ts : String) (t : T) (f : F × (List Request × W))
        → Fetches fields t f.1.0 (process calls r s now entry_id fields ts t f).1.1.1.1.0
    unfolding process process_job
    process-Fetches r s now entry_id fields ts t f = elim (Result-cases (field fields "job_id")) [
      | inl (job_id, e) ↦
          rw (e, process) (export_-Fetches job_id fields ts t f (export_format fields))
      | inr (x, e) ↦ rw (e, process) (inl refl)
    ]
