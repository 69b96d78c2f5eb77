-- ===== src/Shrink/Laws/Limits.antt =====
-- No more candidates are reported than the limit of the configuration.
use agent_spec_kit.Common.{
  ℕ, zero, suc, ◌+◌, ◌-◌, ◌≤◌, String, Bool, Option, none, some, List, [], ◌∷◌, length, arith,
  str_eq,
}
use agent_spec_kit.Common.Outcome.{
  returned, Ensures, Ensures-any, Ensures-bind, Ensures-branch, Ensures-if,
}
use agent_spec_kit.Shrink.Turns.{
  Turns, candidates_remove_one, candidates_simplify_messages, take_budget, winners,
}
use agent_spec_kit.Shrink.Engine.{
  ShrinkPassSpec, spent, Work, Round, finished, again, Batch, chosen, verify_round, one_round,
  pass_loop,
}
use agent_spec_kit.Shrink.Passes.{
  Complete, apply_llm_semantic_simplify, cap_work, llm_pass, apply_pass, run_passes,
  shrink_user_turns,
}
use agent_spec_kit.Shrink.Laws.Winners.{length-take_budget}

module _ {S : Type 0} (b : ℕ) where
  abbrev Within : Work S → Type 0
  Within w = w.evaluated ≤ b

  abbrev RoundWithin : Round S → Type 0
  RoundWithin (finished w) = Within w
  RoundWithin (again w) = Within w

  abbrev pub WorkWithin : Option (Work S) → Type 0
  WorkWithin none = Unit
  WorkWithin (some w) = Within w

module _ {S : Type 0} (verify_batch : Batch S) where
  chosen-RoundWithin :
      (b : ℕ) (wins : List Turns) (w : Work S) (n : ℕ) (s : S)
      → w.evaluated + n ≤ b
      → RoundWithin b (chosen verify_batch wins w n s)
  unfolding chosen
  chosen-RoundWithin b [] w n s h = h
  chosen-RoundWithin b (c ∷ cs) w n s h = h

  verify_round-RoundWithin :
      (b : ℕ) (cands : List Turns) (w : Work S)
      → w.evaluated + length cands ≤ b
      → Ensures Unit (RoundWithin b) (verify_round verify_batch cands w)
  unfolding verify_round
  verify_round-RoundWithin b [] w h = omega arith
  verify_round-RoundWithin b (c ∷ cs) w h =
      Ensures-bind Unit (λ _. Unit {0}) (RoundWithin b) (verify_batch (c ∷ cs) w.world) _
        (Ensures-any Unit (verify_batch (c ∷ cs) w.world) tt)
        (λ a _.
          Ensures-bind Unit (λ _. Unit {0}) (RoundWithin b) (winners (c ∷ cs) a.0) _
            (Ensures-any Unit (winners (c ∷ cs) a.0) tt)
            (λ wins _. chosen-RoundWithin b wins w (length (c ∷ cs)) a.1 h))

  -- A pass evaluates no more candidates than its limit.
  pub pass_loop-WorkWithin :
      (fuel : ℕ) (candidates : Turns → List Turns) (b : ℕ) (w : Work S)
      → w.evaluated ≤ b
      → Ensures Unit (WorkWithin b) (pass_loop verify_batch fuel candidates (some b) w)
  unfolding pass_loop one_round
  pass_loop-WorkWithin zero candidates b w h = tt
  pass_loop-WorkWithin (suc fuel) candidates b w h =
      Ensures-bind Unit (RoundWithin b) (WorkWithin b)
        (one_round verify_batch candidates (some (b - w.evaluated)) w) _
        (Ensures-if Unit (RoundWithin b) (spent (some (b - w.evaluated))) _ _ h (
          verify_round-RoundWithin b _ w (
            fits (length (take_budget (candidates w.current) (some (b - w.evaluated))))
              (length-take_budget (candidates w.current) (b - w.evaluated)))))
        (λ r below. next r below (λ w' g. pass_loop-WorkWithin fuel candidates b w' g))
    where
      fits : (n : ℕ) → n ≤ b - w.evaluated → w.evaluated + n ≤ b
      fits n le = omega (arith, h)

      next :
          (r : Round S)
          → RoundWithin b r
          → ((w' : Work S)
              → w'.evaluated ≤ b
              → Ensures Unit (WorkWithin b) (pass_loop verify_batch fuel candidates (some b) w'))
          → Ensures Unit (WorkWithin b) (elim r [
            | finished w' ↦ returned (some w')
            | again w' ↦ pass_loop verify_batch fuel candidates (some b) w'
          ])
      next (finished w') below later = below
      next (again w') below later = later w' below

module _ {S : Type 0} (lower upper : String → String) (has_api_key : Bool) (verify_batch : Batch S)
    (complete : Complete S) (fuel : ℕ) where
  cap_work-WorkWithin : (b : ℕ) (o : Option (Work S)) → WorkWithin b (cap_work (some b) o)
  cap_work-WorkWithin b none = tt
  cap_work-WorkWithin b (some w) = omega arith

  llm_pass-WorkWithin :
      (spec : ShrinkPassSpec) (b : ℕ) (w : Work S)
      → w.evaluated ≤ b
      → Ensures Unit
          (WorkWithin b)
          (llm_pass lower upper has_api_key verify_batch complete fuel spec (some b) w)
  unfolding llm_pass
  llm_pass-WorkWithin spec b w h = Ensures-if Unit (WorkWithin b) (spent (some b)) _ _ h (
      Ensures-if Unit (WorkWithin b) has_api_key _ _
        (Ensures-bind Unit (λ _. Unit {0}) (WorkWithin b)
          (apply_llm_semantic_simplify verify_batch complete spec fuel w) _
          (Ensures-any Unit (apply_llm_semantic_simplify verify_batch complete spec fuel w) tt)
          (λ o _. cap_work-WorkWithin b o))
        h)

  apply_pass-WorkWithin :
      (spec : ShrinkPassSpec) (b : ℕ) (w : Work S)
      → w.evaluated ≤ b
      → Ensures Unit
          (WorkWithin b)
          (apply_pass lower upper has_api_key verify_batch complete fuel spec (some b) w)
  unfolding apply_pass
  apply_pass-WorkWithin spec b w h =
      Ensures-if Unit (WorkWithin b) (str_eq spec.kind "remove_user_turns") _ _
        (pass_loop-WorkWithin verify_batch fuel candidates_remove_one b w h)
        (Ensures-if Unit (WorkWithin b) (str_eq spec.kind "simplify_user_messages") _ _
          (pass_loop-WorkWithin verify_batch fuel (candidates_simplify_messages lower upper) b w h)
          (Ensures-if Unit (WorkWithin b) (str_eq spec.kind "llm_semantic_simplify") _ _
            (llm_pass-WorkWithin spec b w h) h))

  run_passes-WorkWithin :
      (specs : List ShrinkPassSpec) (b total : ℕ) (w : Work S)
      → w.evaluated + b ≤ total
      → Ensures Unit
          (WorkWithin total)
          (run_passes lower upper has_api_key verify_batch complete fuel specs (some b) w)
  unfolding run_passes
  run_passes-WorkWithin [] b total w h = omega arith
  run_passes-WorkWithin (spec ∷ specs) b total w h =
      Ensures-branch Unit (WorkWithin total) (spent (some b)) _ _ (omega arith) (
        Ensures-bind Unit (WorkWithin b) (WorkWithin total)
          (apply_pass lower upper has_api_key verify_batch complete fuel spec (some b)
            (record w { evaluated = 0 }))
          _ (apply_pass-WorkWithin spec b (record w { evaluated = 0 }) (omega arith))
          (λ o below. next o below (λ w' g.
            run_passes-WorkWithin specs (b - w'.evaluated) total
              (record w' { evaluated = w.evaluated + w'.evaluated }) (omega arith))))
    where
      next :
          (o : Option (Work S))
          → WorkWithin b o
          → ((w' : Work S)
              → w'.evaluated ≤ b
              → Ensures Unit (WorkWithin total) (
                  run_passes lower upper has_api_key verify_batch complete fuel specs
                    (some (b - w'.evaluated))
                    (record w' { evaluated = w.evaluated + w'.evaluated })))
          → Ensures Unit (WorkWithin total) (elim o [
            | none ↦ returned none
            | some w' ↦
                run_passes lower upper has_api_key verify_batch complete fuel specs
                  (some (b - w'.evaluated))
                  (record w' { evaluated = w.evaluated + w'.evaluated })
          ])
      next none below later = tt
      next (some w') below later = later w' below

  -- With a limit set, `shrink_user_turns` reports no more evaluated candidates than the limit, for
  -- all passes.
  pub shrink_user_turns-WorkWithin :
      (original : Turns) (passes : List ShrinkPassSpec) (limit : ℕ) (s : S)
      → Ensures Unit (WorkWithin limit) (
          shrink_user_turns lower upper has_api_key verify_batch complete fuel original
            (record { passes = passes; max_attempts_per_shrink = some limit })
            s)
  unfolding shrink_user_turns
  shrink_user_turns-WorkWithin original passes limit s =
      run_passes-WorkWithin passes limit limit
        (record { current = original; evaluated = 0; world = s }) (omega arith)
