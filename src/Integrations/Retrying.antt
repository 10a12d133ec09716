-- ===== src/Integrations/Retrying.antt =====
-- tenacity's `AsyncRetrying(retry=…, stop=stop_after_attempt(n), reraise=True)`, an argument of the
-- two clients. The time between two attempts is the wait of tenacity and not seen here.
use mcp_agent_gateway.Base.{
  ℕ, zero, suc, ◌+◌, ◌≤◌, ◌<◌, ltb, ltb→lt, Bool, true, false, ◌&&◌, ◌≡◌, refl, subst, ◌⊎◌, inl,
  inr, Bool-cases, arith, if◌then◌else◌,
}
use mcp_agent_gateway.Base.Result.{Result, ok, raise}

-- `run retry n k f w`: the attempt number `k` and those after it, of at most `n`, each of which
-- calls `f` on the state the one before has left
pub record Retrying (W E : Type 0) : Type 1 where
  pub run : {A : Type 0} → (E → Bool) → ℕ → ℕ → (W → Result E A × W) → W → Result E A × W

-- what follows an attempt
unfoldable pub after :
    {W E A : Type 0}
    → Retrying W E
    → (E → Bool)
    → ℕ
    → ℕ
    → (W → Result E A × W)
    → Result E A × W
    → Result E A × W
after T retry n k f (ok a, w) = (ok a, w)
after T retry n k f (raise e, w) =
    if retry e && ltb k n then T.run retry n (suc k) f w else (raise e, w)

-- An attempt that returns, or raises what is not to be retried, is the last one, and so is the
-- attempt with the number `n`; the exception is raised as it is.
pub record IsLawful {W E : Type 0} (T : Retrying W E) : Type 1 where
  pub run_attempt :
      {A : Type 0} (retry : E → Bool) (n k : ℕ) (f : W → Result E A × W) (w : W)
      → T.run retry n k f w ≡ after T retry n k f (f w)

module _ {W E A : Type 0} (retry : E → Bool) (f : W → Result E A × W) where
  -- `Tries m w r`: of `m` attempts from the state `w` all but the last raised what is retried, and
  -- the last one gave `r`
  pub data Tries : ℕ → W → Result E A × W → Type 0 where
    once : {w : W} {r : Result E A × W} → f w ≡ r → Tries 1 w r
    again :
        {m : ℕ} {w w' : W} {r : Result E A × W} (e : E)
        → f w ≡ (raise e, w')
        → retry e ≡ true
        → Tries m w' r
        → Tries (suc m) w r

  -- the last attempt returned, or raised what is not retried, or there may be no more
  abbrev pub IsFinal : Result E A → Type 0 → Type 0
  IsFinal r exhausted =
      ((a : A) × (r ≡ ok a)) ⊎ ((e : E) × (r ≡ raise e) × ((retry e ≡ false) ⊎ exhausted))

  weaken : {r : Result E A} {P Q : Type 0} → IsFinal r P → (P → Q) → IsFinal r Q
  weaken (inl returned) f = inl returned
  weaken (inr (e, raised, inl kept)) f = inr (e, raised, inl kept)
  weaken (inr (e, raised, inr exhausted)) f = inr (e, raised, inr (f exhausted))

  -- the attempts from the number `k` on: one, or up to the number `n`
  abbrev pub IsBounded : ℕ → ℕ → W → Result E A × W → Type 0
  IsBounded n k w r = (m : ℕ) × Tries m w r × ((m ≡ 1) ⊎ (k + m ≤ suc n)) × IsFinal r.0 (n < k + m)

  module _ (T : Retrying W E) (L : IsLawful T) where
    after-IsBounded :
        (n k : ℕ) (w : W) (x : Result E A × W)
        → f w ≡ x
        → (k < n → (w' : W) → IsBounded n (suc k) w' (T.run retry n (suc k) f w'))
        → IsBounded n k w (after T retry n k f x)
    unfolding after
    after-IsBounded n k w (ok a, w') e ih = (1, once e, inl refl, inl (a, refl))
    after-IsBounded n k w (raise x, w') e ih = elim (Bool-cases (retry x)) [
      | inr kept ↦ rw kept (1, once e, inl refl, inr (x, refl, inl kept))
      | inl wanted ↦ elim (Bool-cases (ltb k n)) [
        | inr end ↦ rw (wanted, end) (1, once e, inl refl, inr (x, refl, inr (ground arith)))
        | inl more ↦
            let (m, t, b, last) = ih (ltb→lt k n more) w' in
            let moved : suc k + m ≡ k + suc m = omega arith in
            rw (wanted, more)
              (
                suc m,
                again x e wanted t,
                inr (ground arith),
                subst (λ p. IsFinal (T.run retry n (suc k) f w').0 (n < p)) moved last,
              )
      ]
    ]

    run-IsBounded :
        (rounds n k : ℕ) (w : W) → n ≤ k + rounds → IsBounded n k w (T.run retry n k f w)
    run-IsBounded zero n k w h =
        rw (L.run_attempt retry n k f w)
          (after-IsBounded n k w (f w) refl (λ l. absurd (omega arith)))
    run-IsBounded (suc rounds) n k w h =
        rw (L.run_attempt retry n k f w) (
          after-IsBounded n k w (f w) refl
            (λ l w'. run-IsBounded rounds n (suc k) w' (omega arith)))

    -- `max_retries` attempts are made at most, and one at least; all but the last raised what is
    -- retried, and the answer is that of the last, which returned, or raised what is not retried, or
    -- was the attempt number `max_retries` or a later one.
    pub retrying-IsBounded :
        (max_retries : ℕ) (w : W)
        → let r = T.run retry max_retries 1 f w in
          (m : ℕ) × Tries m w r × ((m ≡ 1) ⊎ (m ≤ max_retries)) × IsFinal r.0 (max_retries ≤ m)
    retrying-IsBounded max_retries w =
        let (m, t, b, last) = run-IsBounded max_retries max_retries 1 w (omega arith) in
        (m, t, ground arith, weaken last (λ l. omega arith))
