-- ===== src/Generative/Laws/TrialCount.antt =====
-- The number of trials that a probe generates for.
use agent_spec_kit.Common.{
  ℕ, suc, ◌≡◌, ◌⊎◌, inl, inr, refl, sym, subst, true, List, [], ◌∷◌, ==-refl, Bool-cases, arith,
}
use agent_spec_kit.Common.Outcome.{returned}
use agent_spec_kit.Scenario.State.{
  Step, user_message, action, env_assert, output_assert, tool_calls_assert, forbid_tool_calls,
  simulate, fuzz_conversation,
}
use agent_spec_kit.Generative.Trials.{all_equal, fuzz_trials, validate_trials}
use agent_spec_kit.Generative.Probe.{collect_fuzz_steps, trials_total}

-- Every step that fuzzes asks for this number of trials.
abbrev pub AsksFor : {W : Type 0} → ℕ → List (Step W) → Type 0
AsksFor n [] = Unit
AsksFor n (fuzz_conversation config trials turns ∷ steps) = (trials ≡ n) × AsksFor n steps
AsksFor n (_ ∷ steps) = AsksFor n steps

abbrev pub FuzzesNot : {W : Type 0} → List (Step W) → Type 0
FuzzesNot [] = Unit
FuzzesNot (fuzz_conversation config trials turns ∷ steps) = ⊥
FuzzesNot (_ ∷ steps) = FuzzesNot steps

validated :
    (n : ℕ) (ns : List ℕ) → validate_trials (n ∷ ns) ≡ returned tt → all_equal n (n ∷ ns) ≡ true
unfolding validate_trials all_equal
validated n ns h = elim (Bool-cases (all_equal n ns)) [
  | inl y ↦ rw (==-refl n, y) refl
  | inr different ↦ absurd (cc (rw different at h))
]

all_equal-nil : (n : ℕ) → all_equal n [] ≡ true
unfolding all_equal
all_equal-nil n = refl

module _ {W : Type 0} where
  AsksFor-fuzz_trials :
      (n : ℕ) (steps : List (Step W)) → all_equal n (fuzz_trials steps) ≡ true → AsksFor n steps
  unfolding all_equal fuzz_trials
  AsksFor-fuzz_trials n [] h = tt
  AsksFor-fuzz_trials n (fuzz_conversation config trials turns ∷ steps) h =
      (ground arith, AsksFor-fuzz_trials n steps (ground arith))
  AsksFor-fuzz_trials n (user_message text ∷ steps) h = AsksFor-fuzz_trials n steps h
  AsksFor-fuzz_trials n (action fn ∷ steps) h = AsksFor-fuzz_trials n steps h
  AsksFor-fuzz_trials n (env_assert fn ∷ steps) h = AsksFor-fuzz_trials n steps h
  AsksFor-fuzz_trials n (output_assert spec turn actor ∷ steps) h = AsksFor-fuzz_trials n steps h
  AsksFor-fuzz_trials n (tool_calls_assert spec in_order extras turn actor ∷ steps) h =
      AsksFor-fuzz_trials n steps h
  AsksFor-fuzz_trials n (forbid_tool_calls spec in_order turn actor ∷ steps) h =
      AsksFor-fuzz_trials n steps h
  AsksFor-fuzz_trials n (simulate max_turns stop on actor input ∷ steps) h =
      AsksFor-fuzz_trials n steps h

  -- The number of trials is what each step that fuzzes asks for, and 1 if there is none.
  trials_total-lem :
      (i : ℕ) (steps : List (Step W))
      → ((fuzz_trials steps ≡ []) × (trials_total (collect_fuzz_steps i steps) ≡ 1))
        ⊎ ((ns : List ℕ) × (fuzz_trials steps ≡ trials_total (collect_fuzz_steps i steps) ∷ ns))
  unfolding fuzz_trials trials_total collect_fuzz_steps
  trials_total-lem i [] = inl (refl, refl)
  trials_total-lem i (fuzz_conversation config trials turns ∷ steps) = inr (fuzz_trials steps, refl)
  trials_total-lem i (user_message text ∷ steps) = trials_total-lem (suc i) steps
  trials_total-lem i (action fn ∷ steps) = trials_total-lem (suc i) steps
  trials_total-lem i (env_assert fn ∷ steps) = trials_total-lem (suc i) steps
  trials_total-lem i (output_assert spec turn actor ∷ steps) = trials_total-lem (suc i) steps
  trials_total-lem i (tool_calls_assert spec in_order extras turn actor ∷ steps) =
      trials_total-lem (suc i) steps
  trials_total-lem i (forbid_tool_calls spec in_order turn actor ∷ steps) =
      trials_total-lem (suc i) steps
  trials_total-lem i (simulate max_turns stop on actor input ∷ steps) =
      trials_total-lem (suc i) steps

  FuzzesNot-fuzz_trials : (steps : List (Step W)) → FuzzesNot steps → fuzz_trials steps ≡ []
  unfolding fuzz_trials
  FuzzesNot-fuzz_trials [] h = refl
  FuzzesNot-fuzz_trials (fuzz_conversation config trials turns ∷ steps) h = absurd h
  FuzzesNot-fuzz_trials (user_message text ∷ steps) h = FuzzesNot-fuzz_trials steps h
  FuzzesNot-fuzz_trials (action fn ∷ steps) h = FuzzesNot-fuzz_trials steps h
  FuzzesNot-fuzz_trials (env_assert fn ∷ steps) h = FuzzesNot-fuzz_trials steps h
  FuzzesNot-fuzz_trials (output_assert spec turn actor ∷ steps) h = FuzzesNot-fuzz_trials steps h
  FuzzesNot-fuzz_trials (tool_calls_assert spec in_order extras turn actor ∷ steps) h =
      FuzzesNot-fuzz_trials steps h
  FuzzesNot-fuzz_trials (forbid_tool_calls spec in_order turn actor ∷ steps) h =
      FuzzesNot-fuzz_trials steps h
  FuzzesNot-fuzz_trials (simulate max_turns stop on actor input ∷ steps) h =
      FuzzesNot-fuzz_trials steps h

  pub trials_total-AsksFor :
      (steps : List (Step W))
      → validate_trials (fuzz_trials steps) ≡ returned tt
      → AsksFor (trials_total (collect_fuzz_steps 0 steps)) steps
        × (FuzzesNot steps → trials_total (collect_fuzz_steps 0 steps) ≡ 1)
  trials_total-AsksFor steps h =
      let total = trials_total (collect_fuzz_steps 0 steps) in
      elim (trials_total-lem 0 steps) [
        | inl (empty, one) ↦ (
          AsksFor-fuzz_trials total steps
              (subst (λ ns. all_equal total ns ≡ true) (sym empty) (all_equal-nil total)),
          λ f. one,
        )
        | inr (ns, found) ↦ (
          AsksFor-fuzz_trials total steps (
              subst (λ ms. all_equal total ms ≡ true) (sym found)
                (validated total ns (subst (λ ms. validate_trials ms ≡ returned tt) found h))),
          λ f. absurd (cc (FuzzesNot-fuzz_trials steps f, found)),
        )
      ]
