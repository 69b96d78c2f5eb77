-- ===== src/Scenario/Laws/Progress.antt =====
-- How far `materialise` comes.
use agent_spec_kit.Common.{
  ℕ, zero, suc, ◌+◌, ◌≤◌, ◌≡◌, refl, ◌∙◌, ap, sym, subst, String, false, Option, some, List, [],
  ◌∷◌, ◌++◌, length, drop, get_elem?, append-nil, append_assoc, length-append, arith, if◌then◌else◌,
}
use agent_spec_kit.Common.Outcome.{Exception}
use agent_spec_kit.Common.Action.{Ended, completed, halted, ended_as}
use agent_spec_kit.Match.Value.{Value}
use agent_spec_kit.Match.Types.{Text}
use agent_spec_kit.Match.Matcher.{Matcher}
use agent_spec_kit.Scenario.Events.{ConversationTurn}
use agent_spec_kit.Scenario.State.{Halt, Step, Scenario}
use agent_spec_kit.Scenario.Steps.{dispatch_step, run_steps, count_step, materialise}
use agent_spec_kit.Scenario.Laws.Frame.{Extends}
use agent_spec_kit.Scenario.Laws.Turns.{step_turns, dispatch_step-Adds}

-- `t` has the steps of `s`, its position is not before that of `s`, and it has the turns of `s` with
-- at most `n` more behind them.
pub record Continues {W : Type 0} (n : ℕ) (s t : Scenario W) : Type 0 where
  pub steps_kept : t.steps ≡ s.steps
  pub position_le : s.executed_until ≤ t.executed_until
  pub added : List ConversationTurn
  pub turns_kept : t.turn_results ≡ s.turn_results ++ added
  pub added_le : length added ≤ n

-- The turns that the steps add at most.
abbrev pub all_turns : {W : Type 0} → List (Step W) → ℕ
all_turns [] = 0
all_turns (step ∷ steps) = step_turns step + all_turns steps

module _ {W : Type 0} where
  Continues-refl : (s : Scenario W) → Continues 0 s s
  Continues-refl s = record {
    steps_kept = refl;
    position_le = omega arith;
    added = [];
    turns_kept = sym (append-nil s.turn_results);
    added_le = omega arith;
  }

  of_Extends : {n : ℕ} (m : ℕ) {s t : Scenario W} → Extends n s t → Continues (n + m) s t
  of_Extends m a = record {
    steps_kept = a.steps_kept;
    position_le = omega (arith, a.position_kept);
    added = a.added;
    turns_kept = a.turns_kept;
    added_le = omega (arith, a.added_le);
  }

  -- A step, counted, and what follows it.
  Continues-count_step :
      {n m : ℕ} {s t u : Scenario W}
      → Extends n s t
      → Continues m (count_step t) u
      → Continues (n + m) s u
  Continues-count_step {s} a b = record {
    steps_kept = b.steps_kept ∙ a.steps_kept;
    position_le = omega (arith, a.position_kept, b.position_le);
    added = a.added ++ b.added;
    turns_kept =
        b.turns_kept
        ∙ ap (λ l. l ++ b.added) a.turns_kept
        ∙ append_assoc s.turn_results a.added b.added;
    added_le = omega (arith, length-append a.added b.added, a.added_le, b.added_le);
  }

next_position : {n m : ℕ} → n ≡ m → n + 1 ≡ suc m
next_position e = omega arith

module _ {ℓ} {A : Type ℓ} where
  length-drop_nil : (n : ℕ) (xs : List A) → drop n xs ≡ [] → n ≤ length xs → n ≡ length xs
  length-drop_nil zero [] e le = refl
  length-drop_nil zero (x ∷ xs) e le = cc
  length-drop_nil (suc n) [] e le = omega arith
  length-drop_nil (suc n) (x ∷ xs) e le = omega (arith, length-drop_nil n xs e)

  drop-cons :
      (n : ℕ) (xs : List A) {y : A} {ys : List A}
      → drop n xs ≡ y ∷ ys
      → (get_elem? xs n ≡ some y) × (drop (suc n) xs ≡ ys) × (suc n ≤ length xs)
  drop-cons zero [] e = absurd (cc)
  drop-cons zero (x ∷ xs) e = (cc, cc, omega arith)
  drop-cons (suc n) [] e = absurd (cc)
  drop-cons (suc n) (x ∷ xs) e =
      let (found, rest, le) = drop-cons n xs e in (found, rest, omega (arith, le))

module _ {W : Type 0} (str_of : Value → String) (message : Exception → String)
    (decimal : ℕ → String) (loads : String → Option Value) (summary : Matcher → Text) where
  abbrev dispatched : Step W → Scenario W → Ended Halt (Unit {0}) × Scenario W
  dispatched = dispatch_step str_of message decimal loads summary

  abbrev ran : List (Step W) → Scenario W → Ended Halt (Unit {0}) × Scenario W
  ran = run_steps str_of message decimal loads summary

  -- Where a run over a queue ends: behind the last step if it completes; if it halts, at a step that
  -- halted in the same way, in a state with that queue and that position.
  abbrev pub Reached : List (Step W) → Ended Halt (Unit {0}) → Scenario W → Type 0
  Reached steps (completed _) t = t.executed_until ≡ length steps
  Reached steps (halted x) t =
      (step : Step W) × (before : Scenario W) × (get_elem? steps t.executed_until ≡ some step)
      × (before.steps ≡ steps)
      × (before.executed_until ≡ t.executed_until)
      × (dispatch_step str_of message decimal loads summary step before ≡ (halted x, t))

  abbrev OutcomeOf : ℕ → Scenario W → Ended Halt (Unit {0}) × Scenario W → Type 0
  OutcomeOf n s (r, t) = Continues n s t × Reached s.steps r t

  -- The statement for a rest of the queue.
  abbrev RunsOn : List (Step W) → Type 0
  RunsOn steps =
      (s : Scenario W)
      → drop s.executed_until s.steps ≡ steps
      → s.executed_until ≤ length s.steps
      → OutcomeOf (all_turns steps) s (ran steps s)

  after_step :
      (step : Step W) (steps : List (Step W)) (s : Scenario W)
      → RunsOn steps
      → drop s.executed_until s.steps ≡ step ∷ steps
      → (r : Ended Halt (Unit {0})) (t : Scenario W) → dispatched step s ≡ (r, t)
      → Extends (step_turns step) s t
      → OutcomeOf
          (step_turns step + all_turns steps)
          s
          (ended_as (λ _ u. ran steps (count_step u)) r t)
  after_step step steps s onward e (halted x) t d ext =
      let (found, rest, le) = drop-cons s.executed_until s.steps e in
      (
        of_Extends (all_turns steps) ext,
        (step, s, rw ext.position_kept found, refl, sym ext.position_kept, d),
      )
  after_step step steps s onward e (completed _) t d ext =
      let (found, rest, le) = drop-cons s.executed_until s.steps e in
      let at_next : drop (t.executed_until + 1) t.steps ≡ steps =
        ap (λ k. drop k t.steps) (next_position ext.position_kept)
        ∙ ap (λ l. drop (suc s.executed_until) l) ext.steps_kept
        ∙ rest in
      let (further, reached) =
        onward (count_step t) at_next
          (omega (arith, ap (λ l. length l) ext.steps_kept, ext.position_kept, le)) in
      (
        Continues-count_step ext further,
        subst (λ l. Reached l (ran steps (count_step t)).0 (ran steps (count_step t)).1)
            ext.steps_kept reached,
      )

  run_steps_lem : (steps : List (Step W)) → RunsOn steps
  unfolding run_steps
  run_steps_lem [] s e le = (Continues-refl s, length-drop_nil s.executed_until s.steps e le)
  run_steps_lem (step ∷ steps) s e le =
      after_step step steps s (run_steps_lem steps) e (dispatched step s).0 (dispatched step s).1
        refl ((dispatch_step-Adds str_of message decimal loads summary step).apply s)

  -- If a scenario does not record and its position is not behind its queue, `materialise` keeps the
  -- queue and the turns and adds at most as many turns as the steps that are left allow. If it
  -- completes, all steps have run; if it raises, it stands at a step that raised the same in a state
  -- with that queue and that position.
  pub materialise-Reached :
      (s : Scenario W)
      → s.recording ≡ false
      → s.executed_until ≤ length s.steps
      → let (r, t) = materialise str_of message decimal loads summary s in
        Continues (all_turns (drop s.executed_until s.steps)) s t × Reached s.steps r t
  unfolding materialise
  materialise-Reached s recording le =
      subst
        (λ b.
          OutcomeOf (all_turns (drop s.executed_until s.steps)) s
            (if b then (completed tt, s) else ran (drop s.executed_until s.steps) s))
        (sym recording) (run_steps_lem _ s refl le)
