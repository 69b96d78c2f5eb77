-- ===== src/Shrink/Engine.antt =====
-- shrink_engine.py: the passes that need no model. `S` is the state of
-- the world that the calls of `verify_batch` and of the model change. The `while` loops run on fuel,
-- and `none` says that it did not suffice.
use agent_spec_kit.Common.{
  ℕ, zero, suc, ◌+◌, ◌-◌, String, Bool, false, Option, none, some, List, [], ◌∷◌, if◌then◌else◌,
  ◌==◌, length,
}
use agent_spec_kit.Common.Outcome.{Outcome, returned, ◌>>=◌}
use agent_spec_kit.Shrink.Turns.{Turns, Budget, take_budget, lightest, winners}

-- `model` is `str(params.get("model", ""))`.
pub record ShrinkPassSpec : Type 0 where
  pub kind : String
  pub model : String

pub record ShrinkConfig : Type 0 where
  pub passes : List ShrinkPassSpec
  pub max_attempts_per_shrink : Budget

abbrev pub spent : Budget → Bool
spent none = false
spent (some b) = b == 0

abbrev pub pay : Budget → ℕ → Budget
pay none n = none
pay (some b) n = some (b - n)

-- Where a pass stands: its turns, the candidates evaluated so far, and the world.
pub record Work (S : Type 0) : Type 0 where
  pub current : Turns
  pub evaluated : ℕ
  pub world : S

-- How one round of a pass ends.
pub data Round (S : Type 0) : Type 0 where
  finished : Work S → Round S
  again : Work S → Round S

abbrev pub Batch : Type 0 → Type 0
Batch S = List Turns → S → Outcome (List Bool × S)

module _ {S : Type 0} (verify_batch : Batch S) where
  -- The lightest of the candidates that reproduce, if there is one.
  unfoldable pub chosen : List Turns → Work S → ℕ → S → Round S
  chosen [] w n s =
      finished (record { current = w.current; evaluated = w.evaluated + n; world = s })
  chosen (c ∷ cs) w n s =
      again (record { current = lightest c cs; evaluated = w.evaluated + n; world = s })

  unfoldable pub verify_round : List Turns → Work S → Outcome (Round S)
  unfolding chosen
  verify_round [] w = returned (finished w)
  verify_round (c ∷ cs) w = do
    (results, s) ← verify_batch (c ∷ cs) w.world
    wins ← winners (c ∷ cs) results
    returned (chosen wins w (length (c ∷ cs)) s)

  -- The body of the `while changed` loops, with the limit that is left.
  unfoldable pub one_round : (Turns → List Turns) → Budget → Work S → Outcome (Round S)
  unfolding verify_round take_budget
  one_round candidates budget w =
      if spent budget
      then returned (finished w)
      else verify_round (take_budget (candidates w.current) budget) w

  -- `budget` is the limit at the start of the pass, so that `budget - evaluated` is left.
  unfoldable pub pass_loop : ℕ → (Turns → List Turns) → Budget → Work S → Outcome (Option (Work S))
  unfolding one_round
  pass_loop zero candidates budget w = returned none
  pass_loop (suc fuel) candidates budget w = do
    r ← one_round candidates (pay budget w.evaluated) w
    elim r [ finished w' ↦ returned (some w') | again w' ↦ pass_loop fuel candidates budget w' ]
