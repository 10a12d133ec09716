-- ===== src/Integrations/Google/Jobs/RoundTrip.antt =====
-- From the request for an export to its result.
use mcp_agent_gateway.Base.{
  ℕ, ◌+◌, ◌*◌, ◌≤◌, ◌<◌, String, string_eq, char_eq, ◌==◌, ==_refl, starts_with, starts_with-append,
  true, false, some, [], ◌∷◌, ◌++◌, ◌≡◌, ◌≢◌, refl, ap, ◌∙◌, arith, if◌then◌else◌,
}
use mcp_agent_gateway.Base.Dict.{lookup}
use mcp_agent_gateway.Base.Result.{ok, raise}
use mcp_agent_gateway.Redis.{Fields, Redis, IsLawful}
use mcp_agent_gateway.Redis.Commands.{cancelled, answering}
use mcp_agent_gateway.Integrations.Google.Jobs.{
  enqueue_export_job, job_owner, read_result, owner_key, results_key, job_fields, jobs_stream,
  group,
}
use mcp_agent_gateway.Integrations.Google.Jobs.Tools.{
  WaitInput, failure, success, is_refused, result_or_pending, handle_wait_for_job,
}
use mcp_agent_gateway.Integrations.Google.Jobs.Worker.{
  Calls, export_format, export_, publish, process,
}
use mcp_agent_gateway.Integrations.Google.Jobs.Answered.{Outcome, process-Answered}

results_key_ne_stream : (job_id : String) → results_key job_id ≢ jobs_stream
unfolding starts_with char_eq
results_key_ne_stream job_id e =
    let a : starts_with (results_key job_id) "results:" ≡ true =
      starts_with-append "results:" job_id in
    let b : starts_with jobs_stream "results:" ≡ false = refl in
    cc (ap (λ k. starts_with k "results:") e)

results_key_ne_owner_key : (job_id id' : String) → results_key job_id ≢ owner_key id'
unfolding starts_with char_eq
results_key_ne_owner_key job_id id' e =
    let a : starts_with (results_key job_id) "results:" ≡ true =
      starts_with-append "results:" job_id in
    let b : starts_with (owner_key id') "results:" ≡ false = refl in
    cc (ap (λ k. starts_with k "results:") e)

module _ (R : Redis) (L : IsLawful R) where
  xrange-publish :
      (s : R.State) (now u : ℕ) (job_id : String) (r : Fields)
      → now ≤ u
      → u < now + 3600 * 1000
      → R.xrange (publish (answering R) s now job_id r).1 u (results_key job_id)
        ≡ R.xrange s now (results_key job_id) ++ (r ∷ [])
  unfolding publish
  xrange-publish s now u job_id r h l = ground (
    arith,
    L.xrange-expire
        (R.expire (R.xadd s now (results_key job_id) r) now (results_key job_id) 3600000) now u
        (owner_key job_id) 3600000 (results_key job_id),
    L.xrange-expire (R.xadd s now (results_key job_id) r) now u (results_key job_id) 3600000
        (results_key job_id),
    L.xrange-xadd_now s now (results_key job_id) r,
    results_key_ne_owner_key job_id job_id,
  )

  get-publish :
      (s : R.State) (now u : ℕ) (job_id : String) (r : Fields) (owner : String)
      → now ≤ u
      → u < now + 3600 * 1000
      → R.get s now (owner_key job_id) ≡ some owner
      → R.get (publish (answering R) s now job_id r).1 u (owner_key job_id) ≡ some owner
  unfolding publish
  get-publish s now u job_id r owner h l g = ground (
    arith,
    L.get-expire (R.expire (R.xadd s now (results_key job_id) r) now (results_key job_id) 3600000)
        now u (owner_key job_id) 3600000 (owner_key job_id),
    L.get-expire (R.xadd s now (results_key job_id) r) now now (results_key job_id) 3600000
        (owner_key job_id),
    L.get-xadd s now now (results_key job_id) (owner_key job_id) r,
    results_key_ne_owner_key job_id job_id,
  )

  owner-enqueue :
      (job_id ts : String) (s : R.State) (now u : ℕ) (user_id file_id fmt : String)
      → now ≤ u
      → u < now + 3600 * 1000
      → R.get
          (enqueue_export_job (answering R) job_id ts s now user_id file_id fmt).1
          u
          (owner_key job_id)
        ≡ some user_id
  unfolding enqueue_export_job
  owner-enqueue job_id ts s now u user_id file_id fmt h l = ground (
    arith,
    L.get-xadd (R.set s now (owner_key job_id) user_id (some 3600000)) now u jobs_stream
        (owner_key job_id) (job_fields job_id user_id file_id fmt ts),
    L.get-set s now u (owner_key job_id) user_id (owner_key job_id) (some 3600000),
    ==_refl (owner_key job_id),
  )

  results-enqueue :
      (job_id ts : String) (s : R.State) (now u : ℕ) (user_id file_id fmt : String)
      → R.xrange
          (enqueue_export_job (answering R) job_id ts s now user_id file_id fmt).1
          u
          (results_key job_id)
        ≡ R.xrange s u (results_key job_id)
  unfolding enqueue_export_job
  results-enqueue job_id ts s now u user_id file_id fmt =
      L.xrange-xadd_ne (R.set s now (owner_key job_id) user_id (some 3600000)) now u jobs_stream
        (results_key job_id) (job_fields job_id user_id file_id fmt ts)
        (results_key_ne_stream job_id)
      ∙ L.xrange-set s now u (owner_key job_id) user_id (results_key job_id) (some 3600000)

  wait_answer :
      (s : R.State) (now : ℕ) (args : WaitInput) (owner v : String) (r : Fields)
      → R.get s now (owner_key args.job_id) ≡ some owner
      → R.xrange s now (results_key args.job_id) ≡ r ∷ []
      → handle_wait_for_job R s now s now (some v) (ok args)
        ≡ ok (if owner == v then success r else failure "job not found")
  unfolding handle_wait_for_job is_refused result_or_pending job_owner read_result
  wait_answer s now args owner v r o x = ground arith

  module _ {T F : Type 0} (c : Calls T F) where
    -- On a lawful server that answers, an export that is queued with an unused identifier, then processed within
    -- the hour without a cancellation, and asked for within an hour after that: the user who has
    -- queued it gets the record that the worker has published, completed or failed as the export
    -- went, and any other user gets the answer for a job that does not exist.
    pub wait-process-enqueue :
        (s : R.State) (queued processed asked : ℕ) (args : WaitInput)
        (user_id file_id fmt ts entry_id ts' : String) (t : T) (f : F)
        → queued ≤ processed
        → processed < queued + 3600 * 1000
        → processed ≤ asked
        → asked < processed + 3600 * 1000
        → R.xrange s processed (results_key args.job_id) ≡ []
        → (export_ c args.job_id
            (job_fields args.job_id user_id file_id fmt ts)
            ts'
            t
            f
            (export_format (job_fields args.job_id user_id file_id fmt ts))).0
          ≢ raise cancelled
        → (r : Fields) × Outcome c user_id
            (export_ c args.job_id
              (job_fields args.job_id user_id file_id fmt ts)
              ts'
              t
              f
              (export_format (job_fields args.job_id user_id file_id fmt ts))).0
            r
          × ((caller : String)
              → handle_wait_for_job R
                  (process c
                    (answering R)
                    (enqueue_export_job (answering R) args.job_id ts s queued user_id file_id fmt).1
                    processed
                    entry_id
                    (job_fields args.job_id user_id file_id fmt ts)
                    ts'
                    t
                    f).1.0
                  asked
                  (process c
                    (answering R)
                    (enqueue_export_job (answering R) args.job_id ts s queued user_id file_id fmt).1
                    processed
                    entry_id
                    (job_fields args.job_id user_id file_id fmt ts)
                    ts'
                    t
                    f).1.0
                  asked
                  (some caller)
                  (ok args)
                ≡ ok (if user_id == caller then success r else failure "job not found"))
    wait-process-enqueue s queued processed asked args user_id file_id fmt ts entry_id ts' t f h l
          h' l' new calm =
        let fields : Fields = job_fields args.job_id user_id file_id fmt ts in
        let s₁ : R.State =
          (enqueue_export_job (answering R) args.job_id ts s queued user_id file_id fmt).1 in
        let (r, ran, outcome) =
          process-Answered c R s₁ processed entry_id fields ts' t f args.job_id user_id
            (unfold job_fields lookup string_eq in refl)
            (unfold job_fields lookup string_eq in refl) calm in
        let s₂ : R.State = (publish (answering R) s₁ processed args.job_id r).1 in
        let owned =
          L.get-xack s₂ asked jobs_stream group entry_id (owner_key args.job_id)
          ∙ get-publish s₁ processed asked args.job_id r user_id h' l'
              (owner-enqueue args.job_id ts s queued processed user_id file_id fmt h l) in
        let stored =
          L.xrange-xack s₂ asked jobs_stream group entry_id (results_key args.job_id)
          ∙ xrange-publish s₁ processed asked args.job_id r h' l'
          ∙ ap (λ x. x ++ (r ∷ []))
              (results-enqueue args.job_id ts s queued processed user_id file_id fmt ∙ new) in
        (
          r,
          outcome,
          λ caller. rw ran (
              wait_answer (R.xack s₂ jobs_stream group entry_id) asked args user_id caller r owned
                stored),
        )
