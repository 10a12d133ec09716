-- ===== src/Integrations/Google/Jobs/Worker.antt =====
-- app/integrations/google/job_worker.py: the processing of one entry of the stream. The calls of the
-- file system and of the clients are arguments; an exception is its text, or the cancellation of the
-- task, which may arrive in any of the calls.
use mcp_agent_gateway.Base.{
  ℕ, ◌*◌, decimal, length, String, string_eq, char_eq, ◌<>◌, ◌==◌, ◌||◌, starts_with, Bool, false,
  none, some, List, [], ◌∷◌, if◌then◌else◌,
}
use mcp_agent_gateway.Base.Dict.{lookup}
use mcp_agent_gateway.Base.Result.{Result, ok, raise, ◌>>=◌}
use mcp_agent_gateway.Redis.{Fields}
use mcp_agent_gateway.Redis.Commands.{Raised, cancelled, exception, Commands, ◌>>>◌}
use mcp_agent_gateway.Integrations.Google.Jobs.{
  export_formats, jobs_stream, group, result_ttl_seconds, owner_key, results_key,
}

abbrev pub Bytes : Type 0
Bytes = List ℕ

-- `T` is what the tokens are kept in, `F` the file system and what lies outside of the gateway.
pub record Calls (T F : Type 0) : Type 0 where
  -- get_valid_google_token
  pub get_token : String → T → Result Raised String × T
  -- `drive_client.export_file`: token, file, MIME type
  pub export_file : String → String → String → F → Result Raised Bytes × F
  -- `Path.write_bytes` and `os.chmod`
  pub write_bytes : String → Bytes → F → Result Raised (Unit {0}) × F
  pub chmod : String → ℕ → F → Result Raised (Unit {0}) × F
  pub export_dir : String

unfoldable pub ends_with_slash : String → Bool
ends_with_slash String.[] = false
ends_with_slash (String.◌∷◌ c String.[]) = String.◌∷◌ c "" == "/"
ends_with_slash (String.◌∷◌ c (String.◌∷◌ d s)) = ends_with_slash (String.◌∷◌ d s)

-- `os.path.join` of two
unfoldable pub path_join : String → String → String
unfolding ends_with_slash
path_join a b =
    if starts_with b "/" then b else if a == "" || ends_with_slash a then a <> b else a <> "/" <> b

-- `fields[key]`, and `EXPORT_FORMATS[...]`
unfoldable pub field : Fields → String → Result Raised String
field fields key = elim (lookup key fields) [
  | none ↦ raise (exception ("'" <> key <> "'"))
  | some v ↦ ok v
]

unfoldable pub export_format : Fields → Result Raised (String × String)
unfolding field
export_format fields = field fields "format" >>= λ fmt. elim (lookup fmt export_formats) [
  | none ↦ raise (exception ("'" <> fmt <> "'"))
  | some f ↦ ok f
]

unfoldable pub completed : Fields → String → String → Bytes → String → Result Raised Fields
unfolding field
completed fields path mime data_ ts = field fields "user_id" >>= λ user_id. ok (
    ("status", "completed")
    ∷ ("path", path)
    ∷ ("size_bytes", decimal (length data_))
    ∷ ("mime", mime)
    ∷ ("user_id", user_id)
    ∷ ("ts", ts)
    ∷ [])

unfoldable pub failed : Fields → String → String → Result Raised Fields
unfolding field
failed fields error ts = field fields "user_id" >>= λ user_id.
    ok (("status", "failed") ∷ ("error", error) ∷ ("user_id", user_id) ∷ ("ts", ts) ∷ [])

module _ {S : Type 0} (r : Commands S) where
  -- `_publish`
  unfoldable pub publish : S → ℕ → String → Fields → Result Raised (Unit {0}) × S
  publish s now job_id fields =
      r.xadd s now (results_key job_id) fields
      >>> (λ s. r.expire s now (results_key job_id) (result_ttl_seconds * 1000))
      >>> (λ s. r.expire s now (owner_key job_id) (result_ttl_seconds * 1000))

  -- a record that is made, or the exception of its making, and then its publication
  unfoldable pub publish_record :
      S → ℕ → String → Result Raised Fields → Result Raised (Unit {0}) × S
  unfolding publish
  publish_record s now job_id (raise e) = (raise e, s)
  publish_record s now job_id (ok fields) = publish s now job_id fields

  -- `except Exception`, which may raise itself
  unfoldable pub publish_failed :
      ℕ → String → Fields → String → Result Raised (Unit {0}) × S → Result Raised (Unit {0}) × S
  unfolding publish_record failed
  publish_failed now job_id fields ts (ok _, s) = (ok tt, s)
  publish_failed now job_id fields ts (raise cancelled, s) = (raise cancelled, s)
  publish_failed now job_id fields ts (raise (exception e), s) =
      publish_record s now job_id (failed fields e ts)

  -- `finally`: an exception of XACK takes the place of the one before
  unfoldable pub acknowledge : String → Result Raised (Unit {0}) × S → Result Raised (Unit {0}) × S
  acknowledge entry_id (done, s) =
      let (acked, s') = r.xack s jobs_stream group entry_id in
      (elim acked [ ok _ ↦ done | raise e ↦ raise e ], s')

module _ {T F : Type 0} (c : Calls T F) where
  -- what a step leaves: the tokens and the files
  abbrev pub Step : Type 0 → Type 0
  Step A = Result Raised A × (T × F)

  -- the write of the file, and its mode 0o600
  unfoldable pub save : String → Bytes → F → Result Raised (Unit {0}) × F
  save path data_ files =
      let (written, files') = c.write_bytes path data_ files in
      elim written [ raise e ↦ (raise e, files') | ok _ ↦ c.chmod path 384 files' ]

  -- from the exported data on
  unfoldable pub save_export :
      String → String → String → Fields → String → T → F → Result Raised Bytes → Step Fields
  unfolding save completed
  save_export job_id mime ext fields ts tokens files (raise e) = (raise e, (tokens, files))
  save_export job_id mime ext fields ts tokens files (ok data_) =
      let path = path_join c.export_dir (job_id <> "." <> ext) in
      let (saved, files') = save path data_ files in
      (saved >>= λ _. completed fields path mime data_ ts, (tokens, files'))

  unfoldable pub export_with : String → Fields → F → Result Raised String → Result Raised Bytes × F
  unfolding field
  export_with mime fields files (raise e) = (raise e, files)
  export_with mime fields files (ok token) = elim (field fields "file_id") [
    | raise e ↦ (raise e, files)
    | ok file_id ↦ c.export_file token file_id mime files
  ]

  unfoldable pub fetch :
      String → Fields → String → T → F → String × String → Result Raised String → Step Fields
  unfolding export_with save_export
  fetch job_id fields ts tokens files format (raise e) = (raise e, (tokens, files))
  fetch job_id fields ts tokens files format (ok user_id) =
      let (token, tokens') = c.get_token user_id tokens in
      let (exported, files') = export_with format.0 fields files token in
      save_export job_id format.0 format.1 fields ts tokens' files' exported

  -- the body of the `try` up to its publication: the record to publish
  unfoldable pub export_ :
      String → Fields → String → T → F → Result Raised (String × String) → Step Fields
  unfolding fetch field
  export_ job_id fields ts tokens files (raise e) = (raise e, (tokens, files))
  export_ job_id fields ts tokens files (ok format) =
      fetch job_id fields ts tokens files format (field fields "user_id")

  module _ {S : Type 0} (r : Commands S) where
    -- the `try` with its publication, the `except` and the `finally`
    unfoldable pub process_job :
        S → ℕ → String → String → Fields → String → T → F → Result Raised (Unit {0}) × (S × (T × F))
    unfolding acknowledge publish_failed publish_record export_
    process_job s now entry_id job_id fields ts tokens files =
        let (exported, after) = export_ job_id fields ts tokens files (export_format fields) in
        let (done, s') =
          acknowledge r entry_id
            (publish_failed r now job_id fields ts (publish_record r s now job_id exported)) in
        (done, (s', after))

    -- `_process`
    unfoldable pub process :
        S → ℕ → String → Fields → String → T → F → Result Raised (Unit {0}) × (S × (T × F))
    unfolding process_job field
    process s now entry_id fields ts tokens files = elim (field fields "job_id") [
      | raise e ↦ (raise e, (s, (tokens, files)))
      | ok job_id ↦ process_job s now entry_id job_id fields ts tokens files
    ]
