-- ===== src/Integrations/Google/DriveClient/Requests.antt =====
-- Which requests a method of the client sends, and how many.
use mathlib.Core.List.{append_assoc}
use mcp_agent_gateway.Base.{
  ℕ, zero, suc, ◌+◌, ◌*◌, ◌≤◌, String, ◌<>◌, List, [], ◌∷◌, ◌++◌, length, length-append, All,
  All-append, ◌≡◌, refl, sym, ap, ◌∙◌, ◌⊎◌, inl, inr, arith,
}
use mcp_agent_gateway.Base.Result.{Result, ok, raise, ◌>>=◌}
use mcp_agent_gateway.Integrations.Http.{
  ClientError, get, Request, Reply, Send, ◌>>>◌, now, checked, send_ok, json_object,
}
use mcp_agent_gateway.Integrations.Retrying.{
  Retrying, IsLawful, Tries, once, again, retrying-IsBounded,
}
use mcp_agent_gateway.Integrations.Google.DriveClient.{
  is_retryable, files_of, recent_request, content_request, content_of, since, try_search,
  search_files, try_content, get_file_content, try_export, export_file, try_recent, list_recent,
}

-- a world that keeps the requests, the last one first
abbrev pub logged : {W : Type 0} → Send W → Send (List Request × W)
logged send request (log, w) = ((send request w).0, (request ∷ log, (send request w).1))

-- a request that only reads, with the token
abbrev pub IsRead : String → Request → Type 0
IsRead token request = (request.method ≡ get) × (request.authorization ≡ "Bearer " <> token)

-- the requests sent from one log to a later one: at most `c`, each a read with the token
abbrev pub Reads : String → ℕ → List Request → List Request → Type 0
Reads token c log log' =
    (sent : List Request) × (log' ≡ sent ++ log) × All (IsRead token) sent × (length sent ≤ c)

none-Reads : (token : String) (log : List Request) → Reads token 0 log log
none-Reads token log = ([], refl, tt, omega arith)

more-Reads :
    {token : String} {c d : ℕ} {log log' log'' : List Request}
    → Reads token c log log'
    → Reads token d log' log''
    → Reads token (c + d) log log''
more-Reads {token = token} {log = log} (old, e, reads, few) (new, e', reads', few') = (
  new ++ old,
  e' ∙ ap (λ l. new ++ l) e ∙ sym (append_assoc new old log),
  All-append (IsRead token) new old reads' reads,
  omega (arith, length-append new old),
)

pub weaken :
    {token : String} {c d : ℕ} {log log' : List Request}
    → c ≤ d
    → Reads token c log log'
    → Reads token d log log'
weaken h (sent, e, reads, few) = (sent, e, reads, omega arith)

checked-log : {W : Type 0} (x : Result String Reply × (List Request × W)) → (checked x).1 ≡ x.1
unfolding checked
checked-log (ok resp, w) = refl
checked-log (raise name, w) = refl

send_ok-Reads :
    {W : Type 0} (send : Send W) (token : String) (request : Request) (w : List Request × W)
    → IsRead token request
    → Reads token 1 w.0 (send_ok (logged send) request w).1.0
unfolding send_ok
send_ok-Reads send token request (log, w) read = (
  request ∷ [],
  ap (λ p. p.0) (checked-log (logged send request (log, w))),
  (read, tt),
  omega arith,
)

content_request-IsRead :
    (token file_id mime : String) → IsRead token (content_request token file_id mime)
unfolding content_request
content_request-IsRead token file_id mime = (ground arith, ground arith)

mul_mono : (c m n : ℕ) → m ≤ n → c * m ≤ c * n
mul_mono zero m n h = omega arith
mul_mono (suc c) m n h = omega (arith, mul_mono c m n h)

module _ {W A : Type 0} (token : String) where
  then-Reads :
      {B : Type 0} (x : Result ClientError B × (List Request × W))
      (f : B → List Request × W → Result ClientError A × (List Request × W)) (log : List Request)
      (c d : ℕ)
      → Reads token c log x.1.0
      → ((b : B) (w : List Request × W) → Reads token d w.0 (f b w).1.0)
      → Reads token (c + d) log (x >>> f).1.0
  then-Reads (ok b, w) f log c d h g = more-Reads h (g b w)
  then-Reads (raise e, w) f log c d h g = weaken (omega arith) h

  Tries-Reads :
      (f : List Request × W → Result ClientError A × (List Request × W)) (c : ℕ) {m : ℕ}
      {w : List Request × W} {r : Result ClientError A × (List Request × W)}
      → ((w : List Request × W) → Reads token c w.0 (f w).1.0)
      → Tries is_retryable f m w r
      → Reads token (c * m) w.0 r.1.0
  Tries-Reads f c g (once {w} e) = rw (← e) (weaken (omega arith) (g w))
  Tries-Reads f c {m = suc m} {w} {r} g (again {w' = w'} x e wanted rest) =
      let same : (f w).1.0 ≡ w'.0 = ap (λ p. p.1.0) e in
      weaken (omega arith) (more-Reads {d = c * m} (g w) (rw same (Tries-Reads f c g rest)))

  -- since `log`: reads with the token, at most `c` in each of at most `max_retries` attempts
  abbrev pub InAttempts : ℕ → ℕ → List Request → Result ClientError A × (List Request × W) → Type 0
  InAttempts c max_retries log r = Reads token c log r.1.0 ⊎ Reads token (c * max_retries) log r.1.0

  run-InAttempts :
      (T : Retrying (List Request × W) ClientError)
      → IsLawful T
      → (f : List Request × W → Result ClientError A × (List Request × W)) (c max_retries : ℕ)
        (w : List Request × W)
      → ((w : List Request × W) → Reads token c w.0 (f w).1.0)
      → InAttempts c max_retries w.0 (T.run is_retryable max_retries 1 f w)
  run-InAttempts T L f c max_retries w g =
      let (m, t, bound, _) = retrying-IsBounded is_retryable f T L max_retries w in
      elim bound [
        | inl one ↦
            let mul : c * m ≡ c = rw one (omega arith) in
            inl (weaken (omega arith) (Tries-Reads f c g t))
        | inr some_more ↦ inr (weaken (mul_mono c m max_retries some_more) (Tries-Reads f c g t))
      ]

  -- a request, and a look at its answer
  one_request :
      (send : Send W) (request : Request) (g : Reply → Result ClientError A) (w : List Request × W)
      → IsRead token request
      → Reads token 1 w.0 (send_ok (logged send) request w >>> λ resp. now (g resp)).1.0
  one_request send request g w read =
      then-Reads (send_ok (logged send) request w) (λ resp. now (g resp)) w.0 1 0
        (send_ok-Reads send token request w read) (λ resp w. none-Reads token w.0)

module _ {W : Type 0} (T : Retrying (List Request × W) ClientError) (send : Send W)
    (max_retries : ℕ) where
  try_content-Reads :
      (token file_id : String) (w : List Request × W)
      → Reads token 2 w.0 (try_content T (logged send) max_retries token file_id w).1.0
  unfolding try_content
  try_content-Reads token file_id w =
      then-Reads token _ _ w.0 1 1 (one_request token send _ _ w (refl, refl)) (λ p w.
        one_request token send (content_request token file_id p.1) (content_of p.0 p.1) w
          (content_request-IsRead token file_id p.1))

  try_recent-Reads :
      (clock : List Request × W → ℕ) (token : String) (days max_results : ℕ) (w : List Request × W)
      → Reads token 1 w.0
          (try_recent T (logged send) max_retries clock token days max_results w).1.0
  unfolding try_recent
  try_recent-Reads clock token days max_results w =
      let request = recent_request token max_results in
      let day : Result ClientError String × (List Request × W) = (since (clock w) days, w) in
      then-Reads token (day >>> λ d. send_ok (logged send) (request d))
        (λ resp. now (json_object "AttributeError" resp >>= λ body. ok (files_of body))) w.0 1 0
        (then-Reads token day (λ d. send_ok (logged send) (request d)) w.0 0 1
          (none-Reads token w.0) (λ d w. send_ok-Reads send token (request d) w (refl, refl)))
        (λ resp w. none-Reads token w.0)

  pub export_file-InAttempts :
      (token file_id export_mime : String) (w : List Request × W)
      → IsLawful T
      → InAttempts token 1 max_retries w.0
          (export_file T (logged send) max_retries token file_id export_mime w)
  unfolding export_file try_export
  export_file-InAttempts token file_id export_mime w L =
      run-InAttempts token T L _ 1 max_retries w (λ w. one_request token send _ _ w (refl, refl))

  -- With tenacity as documented, all that a method of the client sends are GET requests with the
  -- token that it is called with: a search, an export and a list of the recent files send at most
  -- `max_retries`, and the reading of a file at most twice as many; with `max_retries` 0 they send
  -- one and two at most.
  pub DriveClient-InAttempts :
      (clock : List Request × W → ℕ) (token q file_id export_mime : String) (days max_results : ℕ)
      (w : List Request × W)
      → IsLawful T
      → InAttempts token 1 max_retries w.0
          (search_files T (logged send) max_retries token q max_results w)
        × InAttempts token 2 max_retries w.0
            (get_file_content T (logged send) max_retries token file_id w)
        × InAttempts token 1 max_retries w.0
            (export_file T (logged send) max_retries token file_id export_mime w)
        × InAttempts token 1 max_retries w.0
            (list_recent T (logged send) max_retries clock token days max_results w)
  unfolding search_files get_file_content list_recent try_search
  DriveClient-InAttempts clock token q file_id export_mime days max_results w L = (
    run-InAttempts token T L _ 1 max_retries w (λ w. one_request token send _ _ w (refl, refl)),
    run-InAttempts token T L _ 2 max_retries w (try_content-Reads token file_id),
    export_file-InAttempts token file_id export_mime w L,
    run-InAttempts token T L _ 1 max_retries w (try_recent-Reads clock token days max_results),
  )
