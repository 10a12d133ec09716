-- ===== src/Integrations/Google/Jobs/Loop.antt =====
-- app/integrations/google/job_worker.py: the loop around the processing of entries, and
-- `ensure_group` of jobs.py. The commands on consumer groups are arguments, and so is
-- `os.makedirs`. The loop is seen over a list of its rounds, each at an instant, with the time of
-- day as a text.
use mcp_agent_gateway.Base.{
  ℕ, String, char_eq, has_text, Bool, true, false, ◌&&◌, List, [], ◌∷◌, if◌then◌else◌,
}
use mcp_agent_gateway.Base.Result.{Result, ok, raise}
use mcp_agent_gateway.Redis.{Fields}
use mcp_agent_gateway.Redis.Commands.{Raised, cancelled, exception, Commands}
use mcp_agent_gateway.Integrations.Google.Jobs.Worker.{Calls, process}

-- what XGROUP CREATE raises: an answer of the server, or another exception
pub data GroupError : Type 0 where
  response_error : String → GroupError
  other_error : Raised → GroupError

abbrev pub Entry : Type 0
Entry = String × Fields

pub record Tick : Type 0 where
  pub instant : ℕ
  pub ts : String

-- XAUTOCLAIM, XREADGROUP with its answer's entries, and XGROUP CREATE, for this worker
pub record Group (S F : Type 0) : Type 0 where
  pub xautoclaim : S → ℕ → Result Raised (List Entry) × S
  pub xreadgroup : S → ℕ → Result Raised (List Entry) × S
  pub xgroup_create : S → Result GroupError (Unit {0}) × S
  -- `os.makedirs` of the export directory, with the mode 0o700
  pub makedirs : F → Result Raised (Unit {0}) × F

-- how a round ends: after work, after a sleep since there was none, after an exception
pub data Pace : Type 0 where
  busy : Pace
  idle : Pace
  backed_off : String → Pace

unfoldable pub group_made : Result GroupError (Unit {0}) → Result Raised (Unit {0})
unfolding has_text
group_made (ok _) = ok tt
group_made (raise (response_error m)) =
    if has_text "BUSYGROUP" m then ok tt else raise (exception m)
group_made (raise (other_error e)) = raise e

module _ {S F : Type 0} (g : Group S F) where
  unfoldable pub ensure_group : S → Result Raised (Unit {0}) × S
  unfolding group_made
  ensure_group s = let (made, s') = g.xgroup_create s in (group_made made, s')

  unfoldable pub reclaim : S → ℕ → Result Raised (List Entry) × S
  reclaim s now =
      let (claimed, s') = g.xautoclaim s now in
      (
        elim claimed [
          | ok entries ↦ ok entries
          | raise e ↦ elim e [ cancelled ↦ raise cancelled | exception m ↦ ok [] ]
        ],
        s',
      )

unfoldable pub is_empty : List Entry → Bool
is_empty [] = true
is_empty (e ∷ es) = false

-- the two `except` clauses of the loop
unfoldable pub caught : Result Raised Pace → Result Raised Pace
caught (ok pace) = ok pace
caught (raise cancelled) = raise cancelled
caught (raise (exception m)) = ok (backed_off m)

module _ {T F S : Type 0} (r : Commands S) (g : Group S F) (c : Calls T F) where
  abbrev pub World : Type 0
  World = S × (T × F)

  infixl 10 ◌>>>◌
  abbrev pub ◌>>>◌ :
      {A B : Type 0}
      → Result Raised A × World
      → (A → World → Result Raised B × World)
      → Result Raised B × World
  (ok a, w) >>> f = f a w
  (raise e, w) >>> f = (raise e, w)

  -- `for entry_id, fields in entries: await self._process(entry_id, fields)`
  unfoldable pub process_all : Tick → List Entry → World → Result Raised (Unit {0}) × World
  process_all tick [] w = (ok tt, w)
  process_all tick ((entry_id, fields) ∷ entries) (s, (tokens, files)) =
      let (done, w) = process c r s tick.instant entry_id fields tick.ts tokens files in
      (done, w) >>> λ _ w. process_all tick entries w

  -- the body of the `try`
  unfoldable pub round : Tick → World → Result Raised Pace × World
  unfolding reclaim process_all is_empty
  round tick (s, files) =
      (let (claimed, s') = reclaim g s tick.instant in (claimed, (s', files))) >>> (λ old w.
        process_all tick old w >>> λ _ w.
        (let (read, s') = g.xreadgroup w.0 tick.instant in (read, (s', w.1))) >>> λ new w.
        process_all tick new w >>> λ _ w.
        (ok (if is_empty old && is_empty new then idle else busy), w))

  -- some rounds, until one raises
  unfoldable pub rounds : List Tick → World → Result Raised (List Pace) × World
  unfolding round caught
  rounds [] w = (ok [], w)
  rounds (tick ∷ ticks) w = (let (paced, w') = round tick w in (caught paced, w')) >>> λ pace w.
      rounds ticks w >>> λ paces w. (ok (pace ∷ paces), w)

  -- `os.makedirs` and `os.chmod` of the directory
  unfoldable pub prepare : World → Result Raised (Unit {0}) × World
  prepare (s, (tokens, files)) =
      (let (made, files') = g.makedirs files in (made, (s, (tokens, files')))) >>> λ _ w.
      (let (set, files') = c.chmod c.export_dir 448 w.1.1 in (set, (w.0, (w.1.0, files'))))

  -- up to the loop
  unfoldable pub set_up : World → Result Raised (Unit {0}) × World
  unfolding prepare ensure_group
  set_up w = prepare w >>> λ _ w. let (made, s) = ensure_group g w.0 in (made, (s, w.1))

  unfoldable pub run : List Tick → World → Result Raised (List Pace) × World
  unfolding set_up rounds
  run ticks w = set_up w >>> λ _ w. rounds ticks w
