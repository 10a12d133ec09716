-- ===== src/Middleware/RateLimiter/Window.antt =====
-- The fixed window: how many requests the script admits, and what `Retry-After` promises.
use mcp_agent_gateway.Base.{
  sym, ℕ, zero, suc, ◌+◌, ◌-◌, ◌*◌, ◌≤◌, ◌<◌, leb, String, string_eq, Bool, true, false, none, some,
  List, [], ◌∷◌, length, ◌≡◌, refl, ap, arith, ltb, Bool-cases, inl, inr,
}
use mcp_agent_gateway.Redis.Counters.{Counters, IsLawful, live_counter}
use mcp_agent_gateway.Middleware.RateLimiter.{script, expire_first, retry_after}

module _ (C : Counters) (L : IsLawful C) (key : String) (limit window : ℕ) where
  -- the state behind a script that ran at `now`
  abbrev pub after : C.State → ℕ → C.State
  after s now = (script C s now key limit window).2

  abbrev pub admitted : C.State → ℕ → Bool
  admitted s now = (script C s now key limit window).0

  -- The counter has the value `n` and the deadline `d`, seen from `now` on.
  abbrev pub Counts : C.State → ℕ → ℕ → ℕ → Type 0
  Counts s now n d =
      (u : ℕ)
      → now ≤ u
      → L.counter s u key ≡ live_counter u (some (record { value = n; deadline = some d }))

  Counts-first :
      (s : C.State) (now : ℕ)
      → 0 < window
      → L.counter s now key ≡ none
      → (admitted s now ≡ leb 1 limit) × Counts (after s now) now 1 (now + window * 1000)
  unfolding script expire_first
  Counts-first s now w new = (
    ground (arith, L.incr_result s now key, new),
    λ u h. ground (
      arith,
      L.incr_result s now key,
      new,
      L.counter-incr s now now key key,
      L.counter-pexpire (C.incr s now key).1 now u key (window * 1000) key,
    ),
  )

  Counts-next :
      (s : C.State) (now n d : ℕ)
      → 0 < n
      → now < d
      → Counts s now n d
      → (admitted s now ≡ leb (n + 1) limit) × Counts (after s now) now (n + 1) d
  unfolding script expire_first
  Counts-next s now n d p l c = (
    ground (arith, L.incr_result s now key, c now),
    λ u h. ground (arith, L.incr_result s now key, c now, L.counter-incr s now u key key),
  )

  -- what the script decides at a sequence of instants
  abbrev pub decisions : C.State → List ℕ → List Bool
  decisions s [] = []
  decisions s (t ∷ ts) = admitted s t ∷ decisions (after s t) ts

-- The instants do not go back, and lie before `d`.
abbrev pub Within : ℕ → ℕ → List ℕ → Type 0
Within now d [] = Unit
Within now d (t ∷ ts) = (now ≤ t) × (t < d) × Within t d ts

-- `limit` admissions, and rejections from then on
abbrev pub firsts : ℕ → ℕ → List Bool
firsts limit zero = []
firsts zero (suc m) = false ∷ firsts zero m
firsts (suc limit) (suc m) = true ∷ firsts limit m

-- the same from a count that has been reached
abbrev quota : ℕ → ℕ → List ℕ → List Bool
quota limit n [] = []
quota limit n (t ∷ ts) = leb (n + 1) limit ∷ quota limit (n + 1) ts

quota-eq-firsts : (limit n : ℕ) (ts : List ℕ) → quota limit n ts ≡ firsts (limit - n) (length ts)
quota-eq-firsts limit n [] = refl
quota-eq-firsts limit n (t ∷ ts) = elim (Bool-cases (ltb n limit)) [
  | inl more ↦
      let e : limit - n ≡ suc (limit - (n + 1)) = ground arith in
      let admits : leb (n + 1) limit ≡ true = ground arith in
      rw (e, admits, quota-eq-firsts limit (n + 1) ts) refl
  | inr reached ↦
      let e : limit - n ≡ zero = ground arith in
      let e' : limit - (n + 1) ≡ zero = ground arith in
      let rejects : leb (n + 1) limit ≡ false = ground arith in
      rw (e, rejects, quota-eq-firsts limit (n + 1) ts, e') refl
]

retry_after-≤ : (now d u : ℕ) → now + retry_after (some (d - now)) * 1000 ≤ u → d ≤ u
unfolding retry_after
retry_after-≤ now d u h = omega arith

module _ (C : Counters) (L : IsLawful C) (key : String) (limit window : ℕ) where
  decisions-eq-quota :
      (ts : List ℕ) (s : C.State) (now n d : ℕ)
      → 0 < n
      → Counts C L key limit window s now n d
      → Within now d ts
      → decisions C L key limit window s ts ≡ quota limit n ts
  decisions-eq-quota [] s now n d p c w = refl
  decisions-eq-quota (t ∷ ts) s now n d p c (h, l, w) =
      let (a, c') = Counts-next C L key limit window s t n d p l (λ u k. c u (omega arith)) in
      cc (a, decisions-eq-quota ts (after C L key limit window s t) t (n + 1) d (omega arith) c' w)

  -- On a lawful server with a window that is not empty, of the requests of one window, the first at
  -- an instant where the key has no counter and the others before the window ends, the script
  -- admits the first `limit` and rejects all others.
  pub decisions-eq-firsts :
      (s : C.State) (t : ℕ) (ts : List ℕ)
      → 0 < window
      → L.counter s t key ≡ none
      → Within t (t + window * 1000) ts
      → decisions C L key limit window s (t ∷ ts) ≡ firsts limit (length (t ∷ ts))
  decisions-eq-firsts s t ts w new within =
      let (a, c) = Counts-first C L key limit window s t w new in
      let rest =
        decisions-eq-quota ts (after C L key limit window s t) t 1 (t + window * 1000) (omega arith)
          c within in
      let e : limit - 0 ≡ limit = omega arith in
      cc (a, rest, quota-eq-firsts limit 0 (t ∷ ts), ap (λ l. firsts l (length (t ∷ ts))) e)

  ttl_of_window :
      (s : C.State) (now n d : ℕ)
      → now < d
      → Counts C L key limit window (after C L key limit window s now) now n d
      → (script C s now key limit window).1 ≡ some (d - now)
  unfolding script
  ttl_of_window s now n d l c =
      ground (arith, L.pttl_lem (after C L key limit window s now) now key, c now (omega arith))

  first_admitted :
      (s : C.State) (u : ℕ)
      → L.counter s u key ≡ none
      → admitted C L key limit window s u ≡ leb 1 limit
  unfolding script
  first_admitted s u gone = ground (arith, L.incr_result s u key, gone)

  -- On a lawful server, after a request that finds `n` others, one at least, counted in a window
  -- that ends at `d`: once the seconds that its answer's `Retry-After` names have gone by, the
  -- counter is gone, and the next request is admitted whenever one request per window is allowed.
  pub retry_after-reopens :
      (s : C.State) (now n d u : ℕ)
      → 0 < n
      → now < d
      → Counts C L key limit window s now n d
      → now + retry_after (script C s now key limit window).1 * 1000 ≤ u
      → (L.counter (after C L key limit window s now) u key ≡ none)
        × (admitted C L key limit window (after C L key limit window s now) u ≡ leb 1 limit)
  retry_after-reopens s now n d u p l c h =
      let (a, c') = Counts-next C L key limit window s now n d p l c in
      let ttl = ttl_of_window s now (n + 1) d l c' in
      let ends : d ≤ u = retry_after-≤ now d u (rw (sym ttl) h) in
      let gone : L.counter (after C L key limit window s now) u key ≡ none =
        ground (arith, c' u (omega arith)) in
      let fresh = L.incr_result (after C L key limit window s now) u key in
      (gone, first_admitted (after C L key limit window s now) u gone)
