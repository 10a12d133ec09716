-- ===== src/Integrations/Google/Jobs/Survives.antt =====
-- What ends the worker.
use mcp_agent_gateway.Base.{ℕ, suc, length, List, [], ◌∷◌, ◌≡◌, refl, ap, ◌⊎◌, inl, inr, arith}
use mcp_agent_gateway.Base.Result.{Result, ok, raise, Result-cases}
use mcp_agent_gateway.Redis.Commands.{Raised, cancelled, exception, Commands}
use mcp_agent_gateway.Integrations.Google.Jobs.Worker.{Calls, process}
use mcp_agent_gateway.Integrations.Google.Jobs.Calm.{
  IsCalm, Uncancelled, UncancelledCommands, process-IsCalm,
}
use mcp_agent_gateway.Integrations.Google.Jobs.Loop.{
  Entry, Tick, Group, Pace, backed_off, reclaim, caught, World, ◌>>>◌, process_all, round, rounds,
  set_up, run,
}

-- no read of the stream is cancelled
pub record Undisturbed {S F : Type 0} (g : Group S F) : Type 0 where
  pub calm_claim : (s : S) (now : ℕ) → IsCalm (g.xautoclaim s now).0
  pub calm_read : (s : S) (now : ℕ) → IsCalm (g.xreadgroup s now).0

reclaim-IsCalm :
    {S F : Type 0} (g : Group S F) (s : S) (now : ℕ) → Undisturbed g → IsCalm (reclaim g s now).0
unfolding reclaim
reclaim-IsCalm g s now u h = elim (Result-cases (g.xautoclaim s now).0) [
  | inl (entries, e) ↦ absurd (ground arith)
  | inr (cancelled, e) ↦ u.calm_claim s now e
  | inr (exception m, e) ↦ absurd (ground arith)
]

caught-ok : (r : Result Raised Pace) → IsCalm r → (pace : Pace) × (caught r ≡ ok pace)
unfolding caught
caught-ok (ok pace) calm = (pace, refl)
caught-ok (raise cancelled) calm = absurd (calm refl)
caught-ok (raise (exception m)) calm = (backed_off m, refl)

module _ {T F S : Type 0} (r : Commands S) (n : UncancelledCommands r) (g : Group S F)
    (c : Calls T F) where
  then-IsCalm :
      {A B : Type 0} (x : Result Raised A × World r g c)
      (f : A → World r g c → Result Raised B × World r g c)
      → IsCalm x.0
      → ((a : A) (w : World r g c) → IsCalm (f a w).0)
      → IsCalm (◌>>>◌ r g c x f).0
  then-IsCalm (ok a, w) f calm next h = next a w h
  then-IsCalm (raise e, w) f calm next h = calm (ground arith)

  process_all-IsCalm :
      (tick : Tick) (entries : List Entry) (w : World r g c)
      → Uncancelled c
      → IsCalm (process_all r g c tick entries w).0
  unfolding process_all
  process_all-IsCalm tick [] w k h = absurd (cc)
  process_all-IsCalm tick ((entry_id, fields) ∷ entries) (s, (tokens, files)) k h =
      let (done, w) = process c r s tick.instant entry_id fields tick.ts tokens files in
      then-IsCalm (done, w) (λ _ w. process_all r g c tick entries w)
        (process-IsCalm c r n s tick.instant entry_id fields tick.ts tokens files k)
        (λ _ w. process_all-IsCalm tick entries w k) h

  round-IsCalm :
      (tick : Tick) (w : World r g c)
      → Undisturbed g
      → Uncancelled c
      → IsCalm (round r g c tick w).0
  unfolding round
  round-IsCalm tick (s, files) u k = then-IsCalm _ _ (reclaim-IsCalm g s tick.instant u) (λ old w.
      then-IsCalm _ _ (process_all-IsCalm tick old w k) (λ _ w.
        then-IsCalm _ _ (u.calm_read w.0 tick.instant)
          (λ new w. then-IsCalm _ _ (process_all-IsCalm tick new w k) (λ _ w h. absurd (cc)))))

  -- every round is gone through
  abbrev pub AllRounds : List Tick → Result Raised (List Pace) → Type 0
  AllRounds ticks r = (paces : List Pace) × (r ≡ ok paces) × (length paces ≡ length ticks)

  rounds-AllRounds :
      (ticks : List Tick) (w : World r g c)
      → Undisturbed g
      → Uncancelled c
      → AllRounds ticks (rounds r g c ticks w).0
  unfolding rounds
  rounds-AllRounds [] w u k = ([], refl, refl)
  rounds-AllRounds (tick ∷ ticks) w u k =
      let (pace, p) = caught-ok (round r g c tick w).0 (round-IsCalm tick w u k) in
      let (paces, e, l) = rounds-AllRounds ticks (round r g c tick w).1 u k in
      (pace ∷ paces, rw (p, e) refl, ap suc l)

  rounds_after :
      (x : Result Raised (Unit {0}) × World r g c) (ticks : List Tick)
      → Undisturbed g
      → Uncancelled c
      → ((e : Raised) × (x.0 ≡ raise e)
          × ((◌>>>◌ r g c x (λ _ w. rounds r g c ticks w)).0 ≡ raise e))
        ⊎ AllRounds ticks (◌>>>◌ r g c x (λ _ w. rounds r g c ticks w)).0
  rounds_after (ok tt, w) ticks u k = inr (rounds-AllRounds ticks w u k)
  rounds_after (raise e, w) ticks u k = inl (e, refl, refl)

  -- When neither the reads of the stream, nor the calls of a job, nor the commands are cancelled, the
  -- worker ends by itself only with what its set-up raises; otherwise it goes through every round,
  -- whatever entries it reads, and whatever exceptions a read, a job, the publication of a record and
  -- the acknowledgement of an entry raise.
  pub run-AllRounds :
      (ticks : List Tick) (w : World r g c)
      → Undisturbed g
      → Uncancelled c
      → ((e : Raised) × ((set_up r g c w).0 ≡ raise e) × ((run r g c ticks w).0 ≡ raise e))
        ⊎ AllRounds ticks (run r g c ticks w).0
  unfolding run
  run-AllRounds ticks w u k = rounds_after (set_up r g c w) ticks u k
