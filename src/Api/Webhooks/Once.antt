-- ===== src/Api/Webhooks/Once.antt =====
-- app/api/webhooks_router.py: an event that is delivered again.
use mcp_agent_gateway.Base.{
  ℕ, ◌+◌, ◌*◌, ◌≤◌, ◌<◌, String, string_eq, char_eq, truthy, ◌==◌, ==_refl, or_else, true, false,
  none, some, [], ◌∷◌, ◌++◌, ◌≡◌, refl, ap, ◌∙◌, arith,
}
use mcp_agent_gateway.Base.Dict.{Dict, lookup}
use mcp_agent_gateway.Base.Result.{ok}
use mcp_agent_gateway.Redis.{Redis, IsLawful}
use mcp_agent_gateway.Api.Webhooks.{
  accepted, duplicate, Delivery, Calls, dedup_key, events_stream, event_fields, publish_event,
  check_request, parse_body, dedup, handle_body, handle_request, slack_webhook,
}

-- a delivery that passes the checks, of an event with an identifier
abbrev pub IsEvent : Calls → ℕ → Delivery → Dict String String → String → Type 0
IsEvent c now d body event_id =
    (check_request c now d ≡ ok tt)
    × (parse_body c d.raw ≡ ok body)
    × (lookup "event_id" body ≡ some event_id)
    × (truthy event_id ≡ true)
    × ((or_else (lookup "type" body) "" == "url_verification") ≡ false)

module _ (c : Calls) (R : Redis) (L : IsLawful R) where
  to_dedup :
      (s : R.State) (now : ℕ) (d : Delivery) (body : Dict String String) (event_id : String)
      → IsEvent c now d body event_id
      → slack_webhook c R s now d ≡ dedup R s now d body event_id
  unfolding slack_webhook handle_request handle_body or_else
  to_dedup s now d body event_id (checked, parsed, known, there, event) = ground arith

  first_delivery :
      (s : R.State) (now : ℕ) (d : Delivery) (body : Dict String String) (event_id : String)
      → R.get s now (dedup_key event_id) ≡ none
      → dedup R s now d body event_id ≡ (
        ok accepted,
        publish_event R (R.set s now (dedup_key event_id) "1" (some 3600000)) now d body,
      )
  unfolding dedup
  first_delivery s now d body event_id new =
      ground (arith, L.set_nx_lem s now (dedup_key event_id) "1" (some 3600000) refl)

  later_delivery :
      (s : R.State) (now : ℕ) (d : Delivery) (body : Dict String String) (event_id v : String)
      → R.get s now (dedup_key event_id) ≡ some v
      → dedup R s now d body event_id ≡ (ok duplicate, s)
  unfolding dedup
  later_delivery s now d body event_id v seen =
      ground (arith, L.set_nx_lem s now (dedup_key event_id) "1" (some 3600000) refl)

  seen :
      (s : R.State) (now u : ℕ) (d : Delivery) (body : Dict String String) (event_id : String)
      → now ≤ u
      → u < now + 3600 * 1000
      → R.get
          (publish_event R (R.set s now (dedup_key event_id) "1" (some 3600000)) now d body)
          u
          (dedup_key event_id)
        ≡ some "1"
  unfolding publish_event
  seen s now u d body event_id h l = ground (
    arith,
    L.get-xadd (R.set s now (dedup_key event_id) "1" (some 3600000)) now u events_stream
        (dedup_key event_id) (event_fields d body),
    L.get-set s now u (dedup_key event_id) "1" (dedup_key event_id) (some 3600000),
    ==_refl (dedup_key event_id),
  )

  -- On a lawful server, of two deliveries of one event that pass the checks, the first one not seen
  -- in the hour before: the first is accepted and adds one entry with its body to the stream of
  -- events; the second, within the hour, is answered as a duplicate and changes nothing.
  pub slack_webhook_once :
      (s : R.State) (now u : ℕ) (d d' : Delivery) (body body' : Dict String String)
      (event_id : String)
      → IsEvent c now d body event_id
      → IsEvent c u d' body' event_id
      → R.get s now (dedup_key event_id) ≡ none
      → now ≤ u
      → u < now + 3600 * 1000
      → ((slack_webhook c R s now d).0 ≡ ok accepted)
        × (R.xrange (slack_webhook c R s now d).1 now events_stream
            ≡ R.xrange s now events_stream ++ (event_fields d body ∷ []))
        × (slack_webhook c R (slack_webhook c R s now d).1 u d'
            ≡ (ok duplicate, (slack_webhook c R s now d).1))
  slack_webhook_once s now u d d' body body' event_id e e' new h l =
      let first = to_dedup s now d body event_id e ∙ first_delivery s now d body event_id new in
      let s₁ : R.State = R.set s now (dedup_key event_id) "1" (some 3600000) in
      let s₂ : R.State = publish_event R s₁ now d body in
      (
        ap (λ r. r.0) first,
        rw first (
            unfold publish_event in
            (L.xrange-xadd_now s₁ now events_stream (event_fields d body)
              ∙ ap (λ x. x ++ (event_fields d body ∷ []))
                  (L.xrange-set s now now (dedup_key event_id) "1" events_stream (some 3600000)))),
        rw first (
            to_dedup s₂ u d' body' event_id e'
            ∙ later_delivery s₂ u d' body' event_id "1" (seen s now u d body event_id h l)),
      )
