-- ===== src/Shrink/Laws/Reproduction.antt =====
-- What the passes return reproduces the failure.
use agent_spec_kit.Common.{
  ℕ, zero, suc, ◌+◌, String, Bool, true, false, Option, none, some, List, [], ◌∷◌, ◌++◌, All,
  length, if◌then◌else◌, str_eq,
}
use agent_spec_kit.Common.Outcome.{
  Outcome, returned, Ensures, Ensures-bind, Ensures-any, Ensures-branch, Ensures-if, ◌>>=◌,
}
use agent_spec_kit.Match.Mapping.{strip}
use agent_spec_kit.Shrink.Turns.{
  Turns, Budget, candidates_remove_one, candidates_simplify_messages, lightest, winners, same_turns,
}
use agent_spec_kit.Shrink.Engine.{
  ShrinkPassSpec, ShrinkConfig, spent, pay, Work, Round, finished, again, Batch, chosen,
  verify_round, one_round, pass_loop,
}
use agent_spec_kit.Shrink.Passes.{
  Complete, improved, verify_variants, simplify_one, simplify_each, llm_loop,
  apply_llm_semantic_simplify, cap_work, llm_pass, apply_pass, run_passes, shrink_user_turns,
}
use agent_spec_kit.Shrink.Laws.Winners.{lightest-All}

-- Every candidate that the answers of `verify_batch` select is one of which `Good` holds.
abbrev pub IsSound : {S : Type 0} → (Turns → Type 0) → Batch S → Type 0
IsSound {S} Good verify_batch =
    (cands : List Turns) (s : S)
    → Ensures Unit (λ (a : List Bool × S). Ensures Unit (All Good) (winners cands a.0))
        (verify_batch cands s)

module _ {S : Type 0} (Good : Turns → Type 0) where
  abbrev GoodRound : Round S → Type 0
  GoodRound (finished w) = Good w.current
  GoodRound (again w) = Good w.current

  abbrev pub GoodWork : Option (Work S) → Type 0
  GoodWork none = Unit
  GoodWork (some w) = Good w.current

module _ {S : Type 0} (Good : Turns → Type 0) (verify_batch : Batch S)
    (sound : IsSound Good verify_batch) where
  -- What follows a round, by how it ended.
  round_cases :
      {B : Type 0} (P : B → Type 0) (f g : Work S → Outcome B) (r : Round S)
      → GoodRound Good r
      → ((w : Work S) → Good w.current → Ensures Unit P (f w))
      → ((w : Work S) → Good w.current → Ensures Unit P (g w))
      → Ensures Unit P (elim r [ finished w ↦ f w | again w ↦ g w ])
  round_cases P f g (finished w) good hf hg = hf w good
  round_cases P f g (again w) good hf hg = hg w good

  chosen-Good :
      (wins : List Turns) (w : Work S) (n : ℕ) (s : S)
      → All Good wins
      → Good w.current
      → GoodRound Good (chosen verify_batch wins w n s)
  unfolding chosen
  chosen-Good [] w n s h good = good
  chosen-Good (c ∷ cs) w n s h good = lightest-All Good c cs h.0 h.1

  -- Any use of the candidates that reproduce keeps the property, if their choice does.
  verified :
      (cands : List Turns) (s : S) (f : List Turns → S → Round S)
      → ((wins : List Turns) (s' : S) → All Good wins → GoodRound Good (f wins s'))
      → Ensures Unit (GoodRound Good) (do
        (results, s') ← verify_batch cands s
        wins ← winners cands results
        returned (f wins s'))
  verified cands s f h =
      Ensures-bind Unit (λ (a : List Bool × S). Ensures Unit (All Good) (winners cands a.0))
        (GoodRound Good) (verify_batch cands s) _ (sound cands s)
        (λ a good.
          Ensures-bind Unit (All Good) (GoodRound Good) (winners cands a.0) _ good
            (λ wins all. h wins a.1 all))

  verify_round-Good :
      (cands : List Turns) (w : Work S)
      → Good w.current
      → Ensures Unit (GoodRound Good) (verify_round verify_batch cands w)
  unfolding verify_round
  verify_round-Good [] w good = good
  verify_round-Good (c ∷ cs) w good =
      verified (c ∷ cs) w.world (λ wins s. chosen verify_batch wins w (length (c ∷ cs)) s)
        (λ wins s all. chosen-Good wins w (length (c ∷ cs)) s all good)

  pass_loop-Good :
      (fuel : ℕ) (candidates : Turns → List Turns) (budget : Budget) (w : Work S)
      → Good w.current
      → Ensures Unit (GoodWork Good) (pass_loop verify_batch fuel candidates budget w)
  unfolding pass_loop one_round
  pass_loop-Good zero candidates budget w good = tt
  pass_loop-Good (suc fuel) candidates budget w good =
      Ensures-bind Unit (GoodRound Good) (GoodWork Good)
        (one_round verify_batch candidates (pay budget w.evaluated) w) _
        (Ensures-if Unit (GoodRound Good) (spent (pay budget w.evaluated)) _ _ good
          (verify_round-Good _ w good))
        (λ r h.
          round_cases (GoodWork Good) _ _ r h (λ w' g. g)
            (λ w' g. pass_loop-Good fuel candidates budget w' g))

  module _ (complete : Complete S) (spec : ShrinkPassSpec) where
    improved-Good :
        (wins : List Turns) (current : Turns) (n : ℕ) (s : S)
        → All Good wins
        → Good current
        → GoodRound Good (improved verify_batch complete spec wins current n s)
    unfolding improved
    improved-Good [] current n s h good = good
    improved-Good (c ∷ cs) current n s h good = pick (same_turns (lightest c cs) current)
      where
        pick :
            (b : Bool)
            → GoodRound Good (
                if b
                then finished (record { current = current; evaluated = n; world = s })
                else again (record { current = lightest c cs; evaluated = n; world = s }))
        pick true = good
        pick false = lightest-All Good c cs h.0 h.1

    verify_variants-Good :
        (cands : List Turns) (w : Work S)
        → Good w.current
        → Ensures Unit (GoodRound Good) (verify_variants verify_batch complete spec cands w)
    unfolding verify_variants
    verify_variants-Good [] w good = good
    verify_variants-Good (c ∷ cs) w good =
        verified (c ∷ cs) w.world _
          (λ wins s all. improved-Good wins w.current (w.evaluated + length (c ∷ cs)) s all good)

    simplify_one-Good :
        (before : Turns) (msg : String) (behind : Turns) (w : Work S)
        → Good w.current
        → Ensures Unit
            (GoodRound Good)
            (simplify_one verify_batch complete spec before msg behind w)
    unfolding simplify_one
    simplify_one-Good before msg behind w good =
        Ensures-if Unit (GoodRound Good) (str_eq (strip msg) "") _ _ good (
          Ensures-bind Unit (λ _. Unit) (GoodRound Good) (complete spec msg w.world) _
            (Ensures-any Unit (complete spec msg w.world) tt)
            (λ a _. verify_variants-Good _ (record w { world = a.1 }) good))

    simplify_each-Good :
        (before behind : Turns) (w : Work S)
        → Good w.current
        → Ensures Unit (GoodRound Good) (simplify_each verify_batch complete spec before behind w)
    unfolding simplify_each
    simplify_each-Good before [] w good = good
    simplify_each-Good before (msg ∷ behind) w good =
        Ensures-bind Unit (GoodRound Good) (GoodRound Good)
          (simplify_one verify_batch complete spec before msg behind w) _
          (simplify_one-Good before msg behind w good)
          (λ r h.
            round_cases (GoodRound Good) _ _ r h
              (λ w' g. simplify_each-Good (before ++ msg ∷ []) behind w' g) (λ w' g. g))

    llm_loop-Good :
        (fuel : ℕ) (w : Work S)
        → Good w.current
        → Ensures Unit (GoodWork Good) (llm_loop verify_batch complete spec fuel w)
    unfolding llm_loop
    llm_loop-Good zero w good = tt
    llm_loop-Good (suc fuel) w good =
        Ensures-bind Unit (GoodRound Good) (GoodWork Good)
          (simplify_each verify_batch complete spec [] w.current w) _
          (simplify_each-Good [] w.current w good)
          (λ r h. round_cases (GoodWork Good) _ _ r h (λ w' g. g) (λ w' g. llm_loop-Good fuel w' g))

  module _ (lower upper : String → String) (has_api_key : Bool) (complete : Complete S)
      (fuel : ℕ) where
    cap_work-Good :
        (budget : Budget) (o : Option (Work S))
        → GoodWork Good o
        → GoodWork Good (cap_work budget o)
    cap_work-Good budget none h = tt
    cap_work-Good budget (some w) h = h

    llm_pass-Good :
        (spec : ShrinkPassSpec) (budget : Budget) (w : Work S)
        → Good w.current
        → Ensures Unit
            (GoodWork Good)
            (llm_pass lower upper has_api_key verify_batch complete fuel spec budget w)
    unfolding llm_pass apply_llm_semantic_simplify
    llm_pass-Good spec budget w good = Ensures-if Unit (GoodWork Good) (spent budget) _ _ good (
        Ensures-if Unit (GoodWork Good) has_api_key _ _
          (Ensures-bind Unit (GoodWork Good) (GoodWork Good)
            (apply_llm_semantic_simplify verify_batch complete spec fuel w) _
            (Ensures-if Unit (GoodWork Good) (str_eq (strip spec.model) "") _ _ good
              (llm_loop-Good complete spec fuel w good))
            (λ o h. cap_work-Good budget o h))
          good)

    apply_pass-Good :
        (spec : ShrinkPassSpec) (budget : Budget) (w : Work S)
        → Good w.current
        → Ensures Unit
            (GoodWork Good)
            (apply_pass lower upper has_api_key verify_batch complete fuel spec budget w)
    unfolding apply_pass
    apply_pass-Good spec budget w good =
        Ensures-if Unit (GoodWork Good) (str_eq spec.kind "remove_user_turns") _ _
          (pass_loop-Good fuel candidates_remove_one budget w good)
          (Ensures-if Unit (GoodWork Good) (str_eq spec.kind "simplify_user_messages") _ _
            (pass_loop-Good fuel (candidates_simplify_messages lower upper) budget w good)
            (Ensures-if Unit (GoodWork Good) (str_eq spec.kind "llm_semantic_simplify") _ _
              (llm_pass-Good spec budget w good) good))

    run_passes-Good :
        (specs : List ShrinkPassSpec) (budget : Budget) (w : Work S)
        → Good w.current
        → Ensures Unit
            (GoodWork Good)
            (run_passes lower upper has_api_key verify_batch complete fuel specs budget w)
    unfolding run_passes
    run_passes-Good [] budget w good = good
    run_passes-Good (spec ∷ specs) budget w good =
        Ensures-branch Unit (GoodWork Good) (spent budget) _ _ good (
          Ensures-bind Unit (GoodWork Good) (GoodWork Good)
            (apply_pass lower upper has_api_key verify_batch complete fuel spec budget
              (record w { evaluated = 0 }))
            _ (apply_pass-Good spec budget (record w { evaluated = 0 }) good)
            (λ o h. next o h (λ w' g.
              run_passes-Good specs (pay budget w'.evaluated)
                (record w' { evaluated = w.evaluated + w'.evaluated }) g)))
      where
        next :
            (o : Option (Work S))
            → GoodWork Good o
            → ((w' : Work S)
                → Good w'.current
                → Ensures Unit (GoodWork Good) (
                    run_passes lower upper has_api_key verify_batch complete fuel specs
                      (pay budget w'.evaluated)
                      (record w' { evaluated = w.evaluated + w'.evaluated })))
            → Ensures Unit (GoodWork Good) (elim o [
              | none ↦ returned none
              | some w' ↦
                  run_passes lower upper has_api_key verify_batch complete fuel specs
                    (pay budget w'.evaluated)
                    (record w' { evaluated = w.evaluated + w'.evaluated })
            ])
        next none h later = tt
        next (some w') h later = later w' h

    -- If `verify_batch` selects only candidates of which a property holds, and it holds of the
    -- original turns, it holds of the turns that `shrink_user_turns` returns, for all passes.
    pub shrink_user_turns-Good :
        (original : Turns) (shrinking : ShrinkConfig) (s : S)
        → Good original
        → Ensures Unit (GoodWork Good) (
            shrink_user_turns lower upper has_api_key verify_batch complete fuel original shrinking
              s)
    unfolding shrink_user_turns
    shrink_user_turns-Good original shrinking s good =
        run_passes-Good shrinking.passes shrinking.max_attempts_per_shrink _ good
