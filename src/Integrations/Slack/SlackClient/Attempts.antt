-- ===== src/Integrations/Slack/SlackClient/Attempts.antt =====
-- How often a message is sent.
use mathlib.Core.Bool.{false≢true}
use mcp_agent_gateway.Base.{
  ℕ, suc, ◌≤◌, String, true, false, [], ◌∷◌, ◌≡◌, sym, ap, ◌∙◌, ◌⊎◌, inl, inr, arith,
}
use mcp_agent_gateway.Base.Json.{Members}
use mcp_agent_gateway.Base.Result.{Result, ok, raise, ◌>>=◌}
use mcp_agent_gateway.Integrations.Http.{
  ClientError, http_status_error, post, Request, Reply, Send, ◌>>>◌, now, raise_for_status,
  json_object, item_of, checked, send_ok,
}
use mcp_agent_gateway.Integrations.Retrying.{
  Retrying, IsLawful, Tries, once, again, IsFinal, retrying-IsBounded,
}
use mcp_agent_gateway.Integrations.Slack.SlackClient.{
  is_retryable, auth, check_ok, Posted, posted_of, try_post, post_message,
}

abbrev pub IsBusy : ℕ → Type 0
IsBusy c = (c ≡ 429) ⊎ (c ≡ 500) ⊎ (c ≡ 502) ⊎ (c ≡ 503)

-- An exception that is no HTTP status is not retried.
abbrev pub IsKept : {A : Type 0} → Result ClientError A → Type 0
IsKept r = (e : ClientError) → r ≡ raise e → is_retryable e ≡ false

IsKept-then :
    {A B : Type 0} (r : Result ClientError A) (f : A → Result ClientError B)
    → IsKept r
    → ((a : A) → IsKept (f a))
    → IsKept (r >>= f)
IsKept-then (ok a) f h g e p = g a e p
IsKept-then (raise x) f h g e p = h e (ground arith)

json_object-IsKept : (error : String) (resp : Reply) → IsKept (json_object error resp)
unfolding json_object is_retryable
json_object-IsKept error resp e p = ground arith

check_ok-IsKept : (body : Members) → IsKept (check_ok body)
unfolding check_ok is_retryable
check_ok-IsKept body e p = ground arith

posted_of-IsKept : (body : Members) → IsKept (posted_of body)
unfolding posted_of item_of is_retryable
posted_of-IsKept body e p = ground arith

-- the status codes that are retried
is_retryable-IsBusy : (c : ℕ) → is_retryable (http_status_error c) ≡ true → IsBusy c
unfolding is_retryable
is_retryable-IsBusy c h = ground arith

raise_for_status-cases :
    (resp : Reply)
    → (raise_for_status resp ≡ ok resp)
      ⊎ (raise_for_status resp ≡ raise (http_status_error resp.status_code))
unfolding raise_for_status
raise_for_status-cases resp = ground arith

-- A call whose answer is not looked into for a status is retried for the answer's own.
checked-IsBusy :
    {W A : Type 0} (g : Reply → Result ClientError A) (x : Result String Reply × W)
    (e : ClientError) (w : W)
    → ((resp : Reply) → IsKept (g resp))
    → (checked x >>> λ resp. now (g resp)) ≡ (raise e, w)
    → is_retryable e ≡ true
    → (resp : Reply) × (x ≡ (ok resp, w)) × IsBusy resp.status_code
unfolding checked is_retryable
checked-IsBusy g (raise name, w') e w k h r = absurd (ground arith)
checked-IsBusy g (ok resp, w') e w k h r = elim (raise_for_status-cases resp) [
  | inl good ↦ let h' = rw good at h in absurd (false≢true (sym (k resp e (ap (λ p. p.0) h')) ∙ r))
  | inr bad ↦
      let h' = rw bad at h in
      (resp, ground arith, is_retryable-IsBusy resp.status_code (ground arith))
]

module _ {W : Type 0} (send : Send W) (request : Request)
    (g : Reply → Result ClientError Posted) where
  -- `Sent m w r`: the request was sent `m` times; each time but the last the answer was one of the
  -- four statuses, and the last one gave `r`
  pub data Sent : ℕ → W → Result ClientError Posted × W → Type 0 where
    final :
        {w : W} {r : Result ClientError Posted × W}
        → (checked (send request w) >>> λ resp. now (g resp)) ≡ r
        → Sent 1 w r
    busy :
        {m : ℕ} {w w' : W} {r : Result ClientError Posted × W} (resp : Reply)
        → send request w ≡ (ok resp, w')
        → IsBusy resp.status_code
        → Sent m w' r
        → Sent (suc m) w r

  Tries-Sent :
      {m : ℕ} {w : W} {r : Result ClientError Posted × W}
      → ((resp : Reply) → IsKept (g resp))
      → Tries is_retryable (λ w. checked (send request w) >>> λ resp. now (g resp)) m w r
      → Sent m w r
  Tries-Sent k (once e) = final e
  Tries-Sent k (again x e wanted rest) =
      let (resp, s, b) = checked-IsBusy g (send request _) x _ k e wanted in
      busy resp s b (Tries-Sent k rest)

abbrev pub message_request : String → String → String → Request
message_request bot_token channel message = record {
  method = post;
  path = "/chat.postMessage";
  authorization = auth bot_token;
  fields = ("channel", channel) ∷ ("text", message) ∷ [];
}

-- the body of an answer that is 2xx
abbrev pub read_posted : Reply → Result ClientError Posted
read_posted resp = json_object "AttributeError" resp >>= check_ok >>= posted_of

read_posted-IsKept : (resp : Reply) → IsKept (read_posted resp)
read_posted-IsKept resp =
    IsKept-then (json_object "AttributeError" resp >>= check_ok) posted_of
      (IsKept-then (json_object "AttributeError" resp) check_ok
        (json_object-IsKept "AttributeError" resp) check_ok-IsKept)
      posted_of-IsKept

-- With tenacity as documented: `post_message` sends its request once at least, and `max_retries` times
-- at most, or once where that is 0. It sends it again only after an answer with the status 429, 500, 502 or 503, so never
-- after one that is 2xx or after an exception of the transport, and it gives up early only on what
-- is not retried.
pub post_message-Sent :
    {W : Type 0} (T : Retrying W ClientError) (send : Send W) (max_retries : ℕ)
    (bot_token channel message : String) (w : W)
    → IsLawful T
    → let r = post_message T send max_retries bot_token channel message w in
      (m : ℕ) × Sent send (message_request bot_token channel message) read_posted m w r
      × ((m ≡ 1) ⊎ (m ≤ max_retries))
      × IsFinal is_retryable
          (try_post T send max_retries bot_token channel message)
          r.0
          (max_retries ≤ m)
unfolding post_message try_post send_ok
post_message-Sent T send max_retries bot_token channel message w L =
    let f = try_post T send max_retries bot_token channel message in
    let (m, t, bound, last) = retrying-IsBounded is_retryable f T L max_retries w in
    (m, Tries-Sent send _ read_posted read_posted-IsKept t, bound, last)
