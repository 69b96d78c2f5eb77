-- ===== src/Generative/Probe.antt =====
-- isolated_generative.py: the messages that a probe generates ahead of the trials, from the steps that it
-- recorded on. The seeds that it lists beside them are left out.
use agent_spec_kit.Common.{
  ◌&&◌, some, none, Option, false, true, Bool, ℕ, zero, suc, String, List, [], ◌∷◌, if◌then◌else◌,
}
use agent_spec_kit.Common.Outcome.{Outcome, returned, raised}
use agent_spec_kit.Common.Action.{Action, ◌>>=◌, complete}
use agent_spec_kit.Match.Value.{Value}
use agent_spec_kit.Scenario.State.{simulate, Halt, FuzzConfig, Step, fuzz_conversation}
use agent_spec_kit.Generative.Trials.{
  Messages, Strategies, rng_offset, generate_fuzz_turns, validate_uniform_trials,
}

-- A step that fuzzes, with its index.
pub record FuzzStep : Type 0 where
  pub step_index : ℕ
  pub fuzz_config : FuzzConfig
  pub trials : ℕ
  pub max_user_turns : ℕ

unfoldable pub collect_fuzz_steps : {W : Type 0} → (i : ℕ) → List (Step W) → List FuzzStep
collect_fuzz_steps i [] = []
collect_fuzz_steps i (fuzz_conversation config n turns ∷ steps) =
    record { step_index = i; fuzz_config = config; trials = n; max_user_turns = turns }
    ∷ collect_fuzz_steps (suc i) steps
collect_fuzz_steps i (_ ∷ steps) = collect_fuzz_steps (suc i) steps

-- The number of trials: `fuzz_steps[0][1].trials if fuzz_steps else 1`.
unfoldable pub trials_total : List FuzzStep → ℕ
trials_total [] = 1
trials_total (fst ∷ rest) = fst.trials

unfoldable pub has_simulation : {W : Type 0} → List (Step W) → Bool
has_simulation [] = false
has_simulation (simulate max_turns stop on actor input ∷ steps) = true
has_simulation (_ ∷ steps) = has_simulation steps

pub data ProbeMode : Type 0 where
  fuzz simulate_only : ProbeMode

unfoldable pub mode_of : (want : Bool) → List FuzzStep → (simulates : Bool) → Option ProbeMode
mode_of want (fst ∷ rest) simulates = some fuzz
mode_of want [] simulates = if simulates && want then some simulate_only else none

-- How the probe ends: there is nothing to generate, the steps that fuzz ask for different numbers of
-- trials, or there are messages for each trial.
pub data Probed : Type 0 where
  not_applicable trials_mismatch : Probed
  with_messages : ProbeMode → List Messages → Probed

module _ {W : Type 0} (str_of : Value → String) (decimal : ℕ → String)
    (strategies : Strategies W) where
  -- The messages of one trial for the steps from segment `k` on: no turn is there yet.
  unfoldable pub trial_messages : (trial k : ℕ) → List FuzzStep → Action W Halt Messages
  unfolding generate_fuzz_turns
  trial_messages trial k [] = complete []
  trial_messages trial k (fst ∷ rest) =
      let later = trial_messages trial (suc k) rest in
      if strategies.eager fst.fuzz_config
      then (do
        generated ←
            generate_fuzz_turns str_of decimal strategies fst.fuzz_config fst.max_user_turns
              (rng_offset str_of decimal strategies trial k) k []
        messages ← later
        complete ((fst.step_index, generated) ∷ messages))
      else later

  -- The trials from `trial` on, as many as are left.
  unfoldable pub messages_by_trial :
      (left trial : ℕ) → List FuzzStep → Action W Halt (List Messages)
  unfolding trial_messages
  messages_by_trial zero trial steps = complete []
  messages_by_trial (suc left) trial steps = do
    messages ← trial_messages trial 0 steps
    rest ← messages_by_trial left (suc trial) steps
    complete (messages ∷ rest)

  unfoldable pub after_validation :
      List FuzzStep → Option ProbeMode → Outcome (Unit {0}) → Action W Halt Probed
  unfolding trials_total messages_by_trial
  after_validation fuzz_steps none valid = complete not_applicable
  after_validation fuzz_steps (some mode) (raised e) = complete trials_mismatch
  after_validation fuzz_steps (some mode) (returned u) = do
    all ← messages_by_trial (trials_total fuzz_steps) 0 fuzz_steps
    complete (with_messages mode all)

  -- What follows the recording of the steps: `want` is whether failures are to be shrunk or cases
  -- extracted.
  unfoldable pub probe_messages : (want : Bool) → List (Step W) → Action W Halt Probed
  unfolding collect_fuzz_steps mode_of has_simulation validate_uniform_trials after_validation
  probe_messages want steps =
      after_validation (collect_fuzz_steps 0 steps)
        (mode_of want (collect_fuzz_steps 0 steps) (has_simulation steps))
        (validate_uniform_trials steps)
