-- ===== src/Integrations/Google/Jobs/Authorization.antt =====
-- The worker with the token store of the gateway.
use mcp_agent_gateway.Base.{
  ℕ, ◌≤◌, String, string_eq, Option, none, some, ◌≡◌, ◌≢◌, refl, ap, ◌∙◌, inl, inr, arith,
}
use mcp_agent_gateway.Base.Dict.{lookup}
use mcp_agent_gateway.Base.Result.{Result, ok, raise}
use mcp_agent_gateway.Shared.Store.{Store, Contract}
use mcp_agent_gateway.Redis.{Fields, Redis}
use mcp_agent_gateway.Redis.Commands.{Raised, cancelled, exception, answering}
use mcp_agent_gateway.Integrations.Google.TokenStore.{
  GoogleError, message, Codec, Post, get_valid_google_token, google_shared_user, seed_refresh_token,
  seed_shared_token_if_absent,
}
use mcp_agent_gateway.Integrations.Google.Jobs.{jobs_stream, group}
use mcp_agent_gateway.Integrations.Google.Jobs.Worker.{
  Calls, export_format, export_with, save_export, fetch, export_, publish, process,
}
use mcp_agent_gateway.Integrations.Google.Jobs.Records.{Says, field_found}
use mcp_agent_gateway.Integrations.Google.Jobs.Answered.{process-Answered}

-- `str(exc)` for an exception of the token store
unfoldable pub as_text : Result GoogleError String → Result Raised String
as_text (ok token) = ok token
as_text (raise e) = raise (exception (message e))

ok≢raise : {A : Type 0} (x : Result Raised A) (a : A) (e : Raised) → x ≡ ok a → x ≡ raise e → ⊥
ok≢raise x a e p q = cc

exception_injective :
    {A : Type 0} (x : Result Raised A) (d e : String)
    → x ≡ raise (exception d)
    → x ≡ raise (exception e)
    → d ≡ e
exception_injective x d e p q = cc

not_cancelled :
    {A : Type 0} (x : Result Raised A) (e : String) → x ≡ raise (exception e) → x ≢ raise cancelled
not_cancelled x e p q = cc

module _ (S : Store) (k : Codec) {F : Type 0} (other : Calls (Unit {0}) F) (post : Post)
    (now : ℕ) where
  -- the calls of a worker with this token store, and the other calls as they are
  unfoldable pub worker_calls : Calls S.State F
  unfolding as_text
  worker_calls = record {
    get_token = λ user_id s.
        let (token, s') = get_valid_google_token S k post s now user_id in (as_text token, s');
    export_file = other.export_file;
    write_bytes = other.write_bytes;
    chmod = other.chmod;
    export_dir = other.export_dir;
  }

  module _ (K : Contract S) where
    unauthorized_token :
        (s : S.State) (user_id : String)
        → K.view s now user_id ≡ none
        → (worker_calls.get_token user_id s).0 ≡ raise (exception "User has not authorized Google")
    unfolding worker_calls as_text get_valid_google_token message
    unauthorized_token s user_id h = ground (arith, K.get_result s now user_id)

    export_-unauthorized :
        (job_id : String) (fields : Fields) (ts : String) (s : S.State) (f : F) (user_id : String)
        (format : String × String)
        → lookup "user_id" fields ≡ some user_id
        → K.view s now user_id ≡ none
        → (export_ worker_calls job_id fields ts s f (ok format)).0
          ≡ raise (exception "User has not authorized Google")
    unfolding export_ fetch export_with save_export
    export_-unauthorized job_id fields ts s f user_id format u h =
        rw (field_found fields "user_id" user_id u, unauthorized_token s user_id h) refl

    seeded_ne :
        (s : S.State) (start : ℕ) (refresh_token : Option String) (user_id : String)
        → start ≤ now
        → user_id ≢ google_shared_user
        → K.view (seed_shared_token_if_absent S k s start refresh_token) now user_id
          ≡ K.view s now user_id
    unfolding seed_shared_token_if_absent seed_refresh_token
    seeded_ne s start none user_id h n = refl
    seeded_ne s start (some refresh_token) user_id h n = ground (
      arith,
      K.view-get s start now google_shared_user user_id h,
      K.view-set_ne (S.get s start google_shared_user).1 start now google_shared_user
          (k.dumps (record {
            access_token = "";
            refresh_token_enc = k.encrypt refresh_token;
            expires_at = 0;
          }))
          none user_id h n,
    )

    -- With a token store that keeps the contract and a server that answers, the worker asks for the
    -- token of the user who has queued the job. When only the shared token has been stored, at the start of the gateway, the
    -- job of every other user fails: what is published is that the user has not authorized Google.
    pub process-unauthorized :
        (R : Redis) (s : R.State) (tokens : S.State) (start : ℕ) (refresh_token : Option String)
        (f : F) (entry_id ts job_id user_id : String) (fields : Fields) (format : String × String)
        → start ≤ now
        → K.view tokens now user_id ≡ none
        → user_id ≢ google_shared_user
        → lookup "job_id" fields ≡ some job_id
        → lookup "user_id" fields ≡ some user_id
        → export_format fields ≡ ok format
        → (r : Fields) × ((process worker_calls
              (answering R)
              s
              now
              entry_id
              fields
              ts
              (seed_shared_token_if_absent S k tokens start refresh_token)
              f).1.0
            ≡ R.xack (publish (answering R) s now job_id r).1 jobs_stream group entry_id)
          × Says "failed" user_id r
          × (lookup "error" r ≡ some "User has not authorized Google")
    process-unauthorized R s tokens start refresh_token f entry_id ts job_id user_id fields format h
          absent ne j u known =
        let t = seed_shared_token_if_absent S k tokens start refresh_token in
        let exported = (export_ worker_calls job_id fields ts t f (export_format fields)).0 in
        let e =
          ap (λ x. (export_ worker_calls job_id fields ts t f x).0) known
          ∙ export_-unauthorized job_id fields ts t f user_id format u
              (seeded_ne tokens start refresh_token user_id h ne ∙ absent) in
        let (r, ran, outcome) =
          process-Answered worker_calls R s now entry_id fields ts t f job_id user_id j u
            (not_cancelled exported "User has not authorized Google" e) in
        elim outcome [
          | inl (good, says) ↦
              absurd (ok≢raise exported r (exception "User has not authorized Google") good e)
          | inr (error, raised, says, told) ↦ (
            r,
            ap (λ x. x.1.0) ran,
            says,
            told
                ∙ ap some
                    (exception_injective exported error "User has not authorized Google" raised e),
          )
        ]
