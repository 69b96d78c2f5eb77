-- ===== src/Shrink/Passes.antt =====
-- shrink/llm_simplify.py, and the sequence of the passes in shrink_engine.py.
use Prim.Native.String.{count}
use Prim.Native.Nat.{min}
use agent_spec_kit.Common.{
  ℕ, zero, suc, ◌+◌, String, Bool, true, false, Option, none, some, List, [], ◌∷◌, ◌++◌, map,
  str_eq, if◌then◌else◌, leb, length, ◌||◌,
}
use agent_spec_kit.Common.Outcome.{Outcome, returned, ◌>>=◌}
use agent_spec_kit.Match.Mapping.{strip}
use agent_spec_kit.Shrink.Turns.{
  Turns, Budget, candidates_remove_one, candidates_simplify_messages, lightest, winners, same_turns,
}
use agent_spec_kit.Shrink.Engine.{
  ShrinkPassSpec, ShrinkConfig, spent, pay, Work, Round, finished, again, Batch, pass_loop,
}

-- The variants that are of use: not empty, and strictly shorter than the message.
unfoldable pub shorter_variants : String → List String → List String
unfolding strip
shorter_variants msg [] = []
shorter_variants msg (variant ∷ vs) =
    let v = strip variant in
    let rest = shorter_variants msg vs in
    if str_eq v "" || str_eq v msg || leb (count msg) (count v) then rest else v ∷ rest

-- `complete` is the call of the model for one message: the variants that it proposes.
abbrev pub Complete : Type 0 → Type 0
Complete S = ShrinkPassSpec → String → S → Outcome (List String × S)

module _ {S : Type 0} (verify_batch : Batch S) (complete : Complete S) (spec : ShrinkPassSpec) where
  -- What is made of the candidates that reproduce: a new list of turns ends the round.
  unfoldable pub improved : List Turns → Turns → ℕ → S → Round S
  unfolding same_turns
  improved [] current n s = finished (record { current = current; evaluated = n; world = s })
  improved (c ∷ cs) current n s =
      let best = lightest c cs in
      if same_turns best current
      then finished (record { current = current; evaluated = n; world = s })
      else again (record { current = best; evaluated = n; world = s })

  unfoldable pub verify_variants : List Turns → Work S → Outcome (Round S)
  unfolding improved
  verify_variants [] w = returned (finished w)
  verify_variants (c ∷ cs) w = do
    (results, s) ← verify_batch (c ∷ cs) w.world
    wins ← winners (c ∷ cs) results
    returned (improved wins w.current (w.evaluated + length (c ∷ cs)) s)

  -- One message, between those `before` and `behind` it.
  unfoldable pub simplify_one : Turns → String → Turns → Work S → Outcome (Round S)
  unfolding verify_variants shorter_variants
  simplify_one before msg behind w = if str_eq (strip msg) "" then returned (finished w) else (do
    (variants, s) ← complete spec msg w.world
    verify_variants (map (λ v. before ++ v ∷ behind) (shorter_variants msg variants))
        (record w { world = s }))

  -- The `for` loop, which a new list of turns leaves.
  unfoldable pub simplify_each : Turns → Turns → Work S → Outcome (Round S)
  unfolding simplify_one
  simplify_each before [] w = returned (finished w)
  simplify_each before (msg ∷ behind) w = do
    r ← simplify_one before msg behind w
    elim r [
      | again w' ↦ returned (again w')
      | finished w' ↦ simplify_each (before ++ msg ∷ []) behind w'
    ]

  unfoldable pub llm_loop : ℕ → Work S → Outcome (Option (Work S))
  unfolding simplify_each
  llm_loop zero w = returned none
  llm_loop (suc fuel) w = do
    r ← simplify_each [] w.current w
    elim r [ finished w' ↦ returned (some w') | again w' ↦ llm_loop fuel w' ]

  unfoldable pub apply_llm_semantic_simplify : ℕ → Work S → Outcome (Option (Work S))
  unfolding llm_loop
  apply_llm_semantic_simplify fuel w =
      if str_eq (strip spec.model) "" then returned (some w) else llm_loop fuel w

abbrev pub capped : Budget → ℕ → ℕ
capped none n = n
capped (some b) n = min n b

abbrev pub cap_work : {S : Type 0} → Budget → Option (Work S) → Option (Work S)
cap_work budget none = none
cap_work budget (some w) = some (record w { evaluated = capped budget w.evaluated })

module _ {S : Type 0} (lower upper : String → String) (has_api_key : Bool) (verify_batch : Batch S)
    (complete : Complete S) (fuel : ℕ) where
  -- The pass that calls a model reports no more candidates than the limit, whatever it evaluated.
  unfoldable pub llm_pass : ShrinkPassSpec → Budget → Work S → Outcome (Option (Work S))
  unfolding apply_llm_semantic_simplify
  llm_pass spec budget w =
      if spent budget
      then returned (some w)
      else if has_api_key
      then (do
        o ← apply_llm_semantic_simplify verify_batch complete spec fuel w
        returned (cap_work budget o))
      else returned (some w)

  -- Called with `evaluated` at 0. The kind chooses the pass; an unknown one changes nothing.
  unfoldable pub apply_pass : ShrinkPassSpec → Budget → Work S → Outcome (Option (Work S))
  unfolding llm_pass
  apply_pass spec budget w =
      if str_eq spec.kind "remove_user_turns"
      then pass_loop verify_batch fuel candidates_remove_one budget w
      else if str_eq spec.kind "simplify_user_messages"
      then pass_loop verify_batch fuel (candidates_simplify_messages lower upper) budget w
      else if str_eq spec.kind "llm_semantic_simplify"
      then llm_pass spec budget w
      else returned (some w)

  -- The loop over the passes; `w.evaluated` is the total.
  unfoldable pub run_passes : List ShrinkPassSpec → Budget → Work S → Outcome (Option (Work S))
  unfolding apply_pass
  run_passes [] budget w = returned (some w)
  run_passes (spec ∷ specs) budget w = elim (spent budget) [
    | true ↦ returned (some w)
    | false ↦ do
      o ← apply_pass spec budget (record w { evaluated = 0 })
      elim o [
        | none ↦ returned none
        | some w' ↦
            run_passes specs (pay budget w'.evaluated)
              (record w' { evaluated = w.evaluated + w'.evaluated })
      ]
  ]

  unfoldable pub shrink_user_turns : Turns → ShrinkConfig → S → Outcome (Option (Work S))
  unfolding run_passes
  shrink_user_turns original shrinking s =
      run_passes shrinking.passes shrinking.max_attempts_per_shrink
        (record { current = original; evaluated = 0; world = s })
