-- ===== src/Integrations/Google/Jobs/Records.antt =====
-- app/integrations/google/job_worker.py: the records of an export.
use mcp_agent_gateway.Base.{
  String, string_eq, ◌<>◌, length, decimal, some, [], ◌∷◌, ◌≡◌, refl, sym, ap, ◌∙◌, arith,
}
use mcp_agent_gateway.Base.Dict.{lookup}
use mcp_agent_gateway.Base.Result.{Result, ok, raise, ◌>>=◌}
use mcp_agent_gateway.Redis.{Fields}
use mcp_agent_gateway.Redis.Commands.{Raised}
use mcp_agent_gateway.Integrations.Google.Jobs.Worker.{
  Bytes, Calls, path_join, field, completed, failed, save, save_export, export_with, fetch, export_,
}

-- a record of one of the two kinds, for a user
abbrev pub Says : String → String → Fields → Type 0
Says status user_id fields =
    (lookup "status" fields ≡ some status) × (lookup "user_id" fields ≡ some user_id)

bind_ok :
    {A : Type 0} (m : Result Raised A) (n : Result Raised Fields) (r : Fields)
    → (m >>= λ _. n) ≡ ok r
    → n ≡ ok r
bind_ok (ok a) n r h = h
bind_ok (raise e) n r h = absurd (cc)

abbrev done_record : String → String → Bytes → String → String → Fields
done_record path mime d ts user_id =
    ("status", "completed")
    ∷ ("path", path)
    ∷ ("size_bytes", decimal (length d))
    ∷ ("mime", mime)
    ∷ ("user_id", user_id)
    ∷ ("ts", ts)
    ∷ []

done_record-Says :
    (path mime : String) (d : Bytes) (ts user_id : String)
    → Says "completed" user_id (done_record path mime d ts user_id)
unfolding lookup string_eq
done_record-Says path mime d ts user_id = (refl, refl)

pub failed-Says :
    (fields : Fields) (e ts user_id : String)
    → lookup "user_id" fields ≡ some user_id
    → (r : Fields) × (failed fields e ts ≡ ok r)
      × Says "failed" user_id r
      × (lookup "error" r ≡ some e)
unfolding failed field
failed-Says fields e ts user_id u =
    let r : Fields = ("status", "failed") ∷ ("error", e) ∷ ("user_id", user_id) ∷ ("ts", ts) ∷ [] in
    (r, ground arith, unfold lookup string_eq in (refl, refl), unfold lookup string_eq in refl)

completed-Says :
    (fields : Fields) (path mime : String) (d : Bytes) (ts user_id : String) (r : Fields)
    → lookup "user_id" fields ≡ some user_id
    → completed fields path mime d ts ≡ ok r
    → Says "completed" user_id r
unfolding completed field
completed-Says fields path mime d ts user_id r u h =
    let same : done_record path mime d ts user_id ≡ r = ground arith in
    rw (sym same) (done_record-Says path mime d ts user_id)

pub field_found :
    (fields : Fields) (key v : String) → lookup key fields ≡ some v → field fields key ≡ ok v
unfolding field
field_found fields key v h = ground arith

module _ {T F : Type 0} (c : Calls T F) where
  save_export-Says :
      (job_id mime ext : String) (fields : Fields) (ts : String) (t : T) (f : F)
      (d : Result Raised Bytes) (user_id : String) (r : Fields)
      → lookup "user_id" fields ≡ some user_id
      → (save_export c job_id mime ext fields ts t f d).0 ≡ ok r
      → Says "completed" user_id r
  unfolding save_export
  save_export-Says job_id mime ext fields ts t f (raise e) user_id r u h = absurd (cc)
  save_export-Says job_id mime ext fields ts t f (ok d) user_id r u h =
      let path : String = path_join c.export_dir (job_id <> "." <> ext) in
      completed-Says fields path mime d ts user_id r u
        (bind_ok (save c path d f).0 (completed fields path mime d ts) r h)

  pub export_-Says :
      (job_id : String) (fields : Fields) (ts : String) (t : T) (f : F)
      (format : Result Raised (String × String)) (user_id : String) (r : Fields)
      → lookup "user_id" fields ≡ some user_id
      → (export_ c job_id fields ts t f format).0 ≡ ok r
      → Says "completed" user_id r
  unfolding export_ fetch field
  export_-Says job_id fields ts t f (raise e) user_id r u h = absurd (cc)
  export_-Says job_id fields ts t f (ok format) user_id r u h =
      let token = c.get_token user_id t in
      let exported = export_with c format.0 fields f token.0 in
      save_export-Says job_id format.0 format.1 fields ts token.1 exported.1 exported.0 user_id r u
        (ap (λ x. (fetch c job_id fields ts t f format x).0)
            (sym (field_found fields "user_id" user_id u))
          ∙ h)
