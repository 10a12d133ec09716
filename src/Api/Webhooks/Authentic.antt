-- ===== src/Api/Webhooks/Authentic.antt =====
-- app/api/webhooks_router.py: what reaches the stream of events.
use mcp_agent_gateway.Base.{
  ℕ, String, string_eq, truthy, ◌<>◌, ==_iff, ◌==◌, ◌&&◌, or_else, true, false, some, ◌≡◌, ◌≢◌,
  refl, sym, ◌⊎◌, inl, inr, Bool-cases, Option-cases,
}
use mathlib.Core.Bool.{false≢true}
use mcp_agent_gateway.Base.Result.{ok, raise}
use mcp_agent_gateway.Redis.{Redis}
use mcp_agent_gateway.Integrations.Slack.Signature.{
  is_timestamp_fresh, is_ascii, compare_digest, verify_slack_signature,
}
use mcp_agent_gateway.Api.Webhooks.{
  HttpError, Raised, http_exception, other_exception, Delivery, Calls, refusal, check_signature,
  check_request, handle_request, slack_webhook,
}

-- Signed with the secret that is configured, at a time that is given and at most five minutes away.
abbrev pub IsSigned : Calls → ℕ → Delivery → Type 0
IsSigned c now d =
    (timestamp : String) × (signature : String) × (d.timestamp ≡ some timestamp)
    × (d.signature ≡ some signature)
    × (c.signing_secret ≢ "")
    × (is_timestamp_fresh c.float timestamp 300 now ≡ true)
    × (signature ≡ "v0=" <> c.hmac_sha256 c.signing_secret ("v0:" <> timestamp <> ":" <> d.raw))

module _ (c : Calls) where
  -- the comparison of the signatures
  verify_cases :
      (timestamp raw signature : String)
      → truthy c.signing_secret ≡ true
      → truthy signature ≡ true
      → let expected = "v0=" <> c.hmac_sha256 c.signing_secret ("v0:" <> timestamp <> ":" <> raw) in
        let verified =
          verify_slack_signature c.hmac_sha256 c.signing_secret timestamp raw signature in
        ((verified ≡ raise "TypeError") × ((is_ascii expected && is_ascii signature) ≡ false))
        ⊎ (verified ≡ ok (expected == signature))
  unfolding verify_slack_signature compare_digest
  verify_cases timestamp raw signature secret there =
      let expected : String =
        "v0=" <> c.hmac_sha256 c.signing_secret ("v0:" <> timestamp <> ":" <> raw) in
      elim (Bool-cases (is_ascii expected && is_ascii signature)) [
        | inl plain ↦ inr (rw (secret, there, plain) refl)
        | inr odd ↦ inl (rw (secret, there, odd) refl, odd)
      ]

  IsSigned-headers :
      (now : ℕ) (d : Delivery)
      → truthy c.signing_secret ≡ true
      → truthy (or_else d.timestamp "") ≡ true
      → truthy (or_else d.signature "") ≡ true
      → is_timestamp_fresh c.float (or_else d.timestamp "") 300 now ≡ true
      → ("v0=" <> c.hmac_sha256 c.signing_secret ("v0:" <> or_else d.timestamp "" <> ":" <> d.raw)
          == or_else d.signature "")
        ≡ true
      → IsSigned c now d
  unfolding or_else
  IsSigned-headers now d secret t g fresh same = elim (Option-cases d.timestamp) [
    | inl missing ↦ absurd (false≢true (rw missing at t))
    | inr (timestamp, p) ↦ elim (Option-cases d.signature) [
      | inl missing ↦ absurd (false≢true (rw missing at g))
      | inr (signature, q) ↦ (
        timestamp,
        signature,
        p,
        q,
        λ e. false≢true (rw e at secret),
        rw p at fresh,
        sym (
            (==_iff ("v0=" <> c.hmac_sha256 c.signing_secret ("v0:" <> timestamp <> ":" <> d.raw))
                signature).0
              (rw (p, q) at same)),
      )
    ]
  ]

  -- how a delivery is refused: by 401 or 503, or by an exception for a signature, expected or given,
  -- that is not ASCII
  abbrev pub IsRefusal : Delivery → Raised → Type 0
  IsRefusal d e =
      ((h : HttpError) × (e ≡ http_exception h) × ((h.status_code ≡ 401) ⊎ (h.status_code ≡ 503)))
      ⊎ ((e ≡ other_exception "TypeError")
          × ((is_ascii (
                  "v0="
                  <> c.hmac_sha256 c.signing_secret
                      ("v0:" <> or_else d.timestamp "" <> ":" <> d.raw))
                && is_ascii (or_else d.signature ""))
              ≡ false))

  refused :
      (d : Delivery) (status : ℕ) (detail : String)
      → (status ≡ 401) ⊎ (status ≡ 503)
      → IsRefusal d (refusal status detail)
  refused d status detail h = inl (record { status_code = status; detail = detail }, refl, h)

  check_request_cases :
      (now : ℕ) (d : Delivery)
      → ((e : Raised) × (check_request c now d ≡ raise e) × IsRefusal d e) ⊎ IsSigned c now d
  unfolding check_request check_signature
  check_request_cases now d = elim (Bool-cases (truthy c.signing_secret)) [
    | inr p ↦ inl (_, rw p refl, refused d 503 "webhook not configured" (inr refl))
    | inl p ↦ elim (Bool-cases (truthy (or_else d.timestamp ""))) [
      | inr q ↦ inl (_, rw (p, q) refl, refused d 401 "missing signature headers" (inl refl))
      | inl q ↦ elim (Bool-cases (truthy (or_else d.signature ""))) [
        | inr r ↦ inl (_, rw (p, q, r) refl, refused d 401 "missing signature headers" (inl refl))
        | inl r ↦ elim (Bool-cases (is_timestamp_fresh c.float (or_else d.timestamp "") 300 now)) [
          | inr f ↦ inl (_, rw (p, q, r, f) refl, refused d 401 "stale timestamp" (inl refl))
          | inl f ↦
              elim (verify_cases (or_else d.timestamp "") d.raw (or_else d.signature "") p r) [
                | inl (e, odd) ↦
                    inl (other_exception "TypeError", rw (p, q, r, f, e) refl, inr (refl, odd))
                | inr e ↦
                    elim (Bool-cases (
                      "v0="
                        <> c.hmac_sha256 c.signing_secret
                            ("v0:" <> or_else d.timestamp "" <> ":" <> d.raw)
                      == or_else d.signature "")) [
                        | inr b ↦ inl (
                          _,
                          rw (p, q, r, f, e, b) refl,
                          refused d 401 "invalid signature" (inl refl),
                        )
                        | inl b ↦ inr (IsSigned-headers now d p q r f b)
                      ]
              ]
        ]
      ]
    ]
  ]

  -- A delivery either is refused, and changes nothing on the server, by 401, by 503, or by the
  -- exception of `compare_digest` when the signature given or the one expected is not ASCII; or it
  -- has a time that is at most five minutes away and the signature of that time and its body under
  -- the secret, which is not empty.
  pub slack_webhook-IsSigned :
      (R : Redis) (s : R.State) (now : ℕ) (d : Delivery)
      → ((e : Raised) × (slack_webhook c R s now d ≡ (raise e, s)) × IsRefusal d e)
        ⊎ IsSigned c now d
  unfolding slack_webhook
  slack_webhook-IsSigned R s now d = elim (check_request_cases now d) [
    | inr signed ↦ inr signed
    | inl (e, refused_, why) ↦ inl (e, rw (refused_, handle_request) refl, why)
  ]
