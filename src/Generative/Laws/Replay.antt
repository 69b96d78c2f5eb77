-- ===== src/Generative/Laws/Replay.antt =====
-- The replay of a trial by user messages.
use agent_spec_kit.Common.{
  ℕ, suc, ◌+◌, ◌≡◌, refl, sym, ap, ◌∙◌, subst, String, true, false, Option, some, List, [], ◌∷◌,
  ◌++◌, map, set, if◌then◌else◌,
}
use agent_spec_kit.Common.Outcome.{Exception}
use agent_spec_kit.Common.Action.{
  Ended, completed, halted, ended_as, ◌>>=◌, complete, bind-completed,
}
use agent_spec_kit.Match.Value.{Value}
use agent_spec_kit.Match.Types.{Text}
use agent_spec_kit.Match.Matcher.{Matcher}
use agent_spec_kit.Scenario.State.{
  Halt, FuzzConfig, Step, user_message, action, env_assert, output_assert, tool_calls_assert,
  forbid_tool_calls, simulate, fuzz_conversation, Scenario, Run,
}
use agent_spec_kit.Scenario.Segments.{dispatch_user_message_text}
use agent_spec_kit.Scenario.Steps.{dispatch_step, count_step, run_steps, materialise}
use agent_spec_kit.Generative.Trials.{
  Messages, messages_at, Strategies, fuzz_messages, dispatch_messages, trial_step, trial_steps,
  replacement, merged_steps_from, merged_generative_steps,
}
use agent_spec_kit.Generative.Laws.Blind.{at, IsKept, Blind-dispatch_step}

-- From step `i` on, every step that fuzzes has a strategy that makes its messages at once, and given
-- messages; and no step simulates.
abbrev pub IsGiven : {W : Type 0} → Strategies W → Messages → ℕ → List (Step W) → Type 0
IsGiven st given i [] = Unit
IsGiven st given i (fuzz_conversation config trials turns ∷ steps) =
    ((ms : List String) × (messages_at i given ≡ some ms) × (st.eager config ≡ true))
    × IsGiven st given (suc i) steps
IsGiven st given i (simulate max_turns stop on actor input ∷ steps) = ⊥
IsGiven st given i (_ ∷ steps) = IsGiven st given (suc i) steps

module _ {W : Type 0} (str_of : Value → String) (decimal : ℕ → String) (strategies : Strategies W)
    (message : Exception → String) (loads : String → Option Value) (summary : Matcher → Text) where
  abbrev dispatched : Step W → Run W (Unit {0})
  dispatched = dispatch_step str_of message decimal loads summary

  abbrev ran : List (Step W) → Run W (Unit {0})
  ran = run_steps str_of message decimal loads summary

  -- One step that completes, in a replay.
  replay_step :
      (step : Step W) (steps : List (Step W)) (l : List (Step W)) (p : ℕ) (s t : Scenario W)
      → IsKept step
      → dispatched step s ≡ (completed tt, t)
      → ran (step ∷ steps) (at l p s) ≡ ran steps (at l (p + 1) t)
  unfolding run_steps
  replay_step step steps l p s t k e =
      ap
        (λ (r : Ended Halt (Unit {0}) × Scenario W).
          ended_as (λ _ u. ran steps (count_step u)) r.0 r.1)
        ((Blind-dispatch_step str_of decimal message loads summary step k).apply l p s tt t e)

  -- The position behind so many steps.
  position : {A : Type 0} → List A → ℕ → ℕ
  position [] p = p
  position (x ∷ xs) p = position xs (p + 1)

  replay_messages :
      (ms : List String) (steps l : List (Step W)) (p : ℕ) (s t : Scenario W)
      → dispatch_messages str_of decimal strategies ms s ≡ (completed tt, t)
      → ran (map user_message ms ++ steps) (at l p s) ≡ ran steps (at l (position ms p) t)
  unfolding dispatch_messages position dispatch_step dispatch_user_message_text
  replay_messages [] steps l p s t e =
      ap (λ (r : Ended Halt (Unit {0}) × Scenario W). ran steps (at l p r.1)) e
  replay_messages (m ∷ ms) steps l p s t e =
      let (_, u, first, rest) =
        bind-completed (dispatch_user_message_text str_of decimal m)
          (λ _. dispatch_messages str_of decimal strategies ms) s e in
      replay_step (user_message m) (map user_message ms ++ steps) l p s u tt first
      ∙ replay_messages ms steps l (p + 1) u t rest

  module _ (original : List (Step W)) (given : Messages) (trial : ℕ) where
    abbrev tried : ℕ → Step W → Run W (List String)
    tried = trial_step str_of decimal strategies message loads summary original given trial

    abbrev all_tried :
        ℕ
        → List (Step W)
        → List (List String)
        → Scenario W
        → Ended Halt (Unit {0}) × Scenario W × List (List String)
    all_tried = trial_steps str_of decimal strategies message loads summary original given trial

    -- The steps `front` do in a replay what the step `st` does, from index `i` on.
    abbrev Replays : ℕ → Step W → List (Step W) → Type 0
    Replays i st front =
        (s u : Scenario W) (ms : List String)
        → tried i st (record s { executed_until = i }) ≡ (completed ms, u)
        → (rest l : List (Step W)) (p : ℕ)
        → (q : ℕ) × (ran (front ++ rest) (at l p s) ≡ ran rest (at l q u))

    -- The statement for the steps from index `i` on.
    abbrev ReplaysAll : ℕ → List (Step W) → Type 0
    ReplaysAll i steps =
        (b b' : List (List String)) (s t : Scenario W)
        → all_tried i steps b s ≡ (completed tt, t, b')
        → (l : List (Step W)) (p : ℕ)
        → (q : ℕ) × (ran (merged_steps_from i given [] steps) (at l p s) ≡ (completed tt, at l q t))

    after_step :
        (i : ℕ) (st : Step W) (steps front : List (Step W)) (b b' : List (List String))
        (s t : Scenario W) (r : Ended Halt (List String)) (u : Scenario W)
        → Replays i st front
        → ReplaysAll (suc i) steps
        → tried i st (record s { executed_until = i }) ≡ (r, u)
        → ◌≡◌ {A = Ended Halt (Unit {0}) × Scenario W × List (List String)}
            (elim r [
              | completed messages ↦ all_tried (suc i) steps (set b i messages) u
              | halted x ↦ (halted x, u, b)
            ])
            (completed tt, t, b')
        → (l : List (Step W)) (p : ℕ)
        → (q : ℕ) × (ran (front ++ merged_steps_from (suc i) given [] steps) (at l p s)
            ≡ (completed tt, at l q t))
    after_step i st steps front b b' s t (halted x) u first rest d e l p = absurd (cc e)
    after_step i st steps front b b' s t (completed ms) u first rest d e l p =
        let (q, e1) = first s u ms d (merged_steps_from (suc i) given [] steps) l p in
        let (q', e2) = rest (set b i ms) b' u t e l q in (q', e1 ∙ e2)

    Replays-kept :
        (i : ℕ) (st : Step W) (messages : List String)
        → IsKept st
        → ((s : Scenario W) → tried i st s ≡ (dispatched st >>= λ _. complete messages) s)
        → Replays i st (st ∷ [])
    Replays-kept i st messages k same s u ms e rest l p =
        let s' : Scenario W = record s { executed_until = i } in
        let (_, v, first, last) =
          bind-completed (dispatched st) (λ _. complete messages) s' (sym (same s') ∙ e) in
        (
          p + 1,
          replay_step st rest l p s' v k first
              ∙ ap (λ (r : Ended Halt (List String) × Scenario W). ran rest (at l (p + 1) r.1))
                  last,
        )

    tried-given :
        (i : ℕ) (config : FuzzConfig) (trials turns : ℕ) (ms : List String) (s : Scenario W)
        → messages_at i given ≡ some ms
        → strategies.eager config ≡ true
        → tried i (fuzz_conversation config trials turns) s
          ≡ (dispatch_messages str_of decimal strategies ms >>= λ _. complete ms) s
    unfolding trial_step fuzz_messages
    tried-given i config trials turns ms s found eager = rw found (rw eager refl)

    replacement-given :
        (i : ℕ) (ms : List String)
        → messages_at i given ≡ some ms
        → replacement {W = W} i given [] ≡ map user_message ms
    unfolding replacement messages_at
    replacement-given i ms found = rw found refl

    Replays-given :
        (i : ℕ) (config : FuzzConfig) (trials turns : ℕ) (ms : List String)
        → messages_at i given ≡ some ms
        → strategies.eager config ≡ true
        → Replays i (fuzz_conversation config trials turns) (replacement i given [])
    Replays-given i config trials turns ms found eager s u ms' e rest l p =
        let s' : Scenario W = record s { executed_until = i } in
        let (_, v, first, last) =
          bind-completed (dispatch_messages str_of decimal strategies ms) (λ _. complete ms) s'
            (sym (tried-given i config trials turns ms s' found eager) ∙ e) in
        (
          position ms p,
          ap (λ front. ran (front ++ rest) (at l p s)) (replacement-given i ms found)
              ∙ replay_messages ms rest l p s' v first
              ∙ ap
                  (λ (r : Ended Halt (List String) × Scenario W).
                    ran rest (at l (position ms p) r.1))
                  last,
        )

    after_kept :
        (i : ℕ) (st : Step W) (steps : List (Step W)) (messages : List String)
        → IsKept st
        → ((s : Scenario W) → tried i st s ≡ (dispatched st >>= λ _. complete messages) s)
        → ReplaysAll (suc i) steps
        → (b b' : List (List String)) (s t : Scenario W)
        → ◌≡◌ {A = Ended Halt (Unit {0}) × Scenario W × List (List String)}
            (elim (tried i st (record s { executed_until = i })).0 [
              | completed ms ↦
                  all_tried
                    (suc i)
                    steps
                    (set b i ms)
                    (tried i st (record s { executed_until = i })).1
              | halted x ↦ (halted x, (tried i st (record s { executed_until = i })).1, b)
            ])
            (completed tt, t, b')
        → (l : List (Step W)) (p : ℕ)
        → (q : ℕ) × (ran (st ∷ merged_steps_from (suc i) given [] steps) (at l p s)
            ≡ (completed tt, at l q t))
    after_kept i st steps messages k same rest b b' s t e l p =
        after_step i st steps (st ∷ []) b b' s t (tried i st (record s { executed_until = i })).0
          (tried i st (record s { executed_until = i })).1 (Replays-kept i st messages k same) rest
          refl e l p

    trial_steps_replayed :
        (i : ℕ) (steps : List (Step W)) → IsGiven strategies given i steps → ReplaysAll i steps
    unfolding trial_steps merged_steps_from run_steps trial_step
    trial_steps_replayed i [] h b b' s t e l p = (
      p,
      ap
          (λ (r : Ended Halt (Unit {0}) × Scenario W × List (List String)).
            (completed tt, at l p r.1))
          e,
    )
    trial_steps_replayed i (fuzz_conversation config trials turns ∷ steps) ((ms, found, eager), h) b
          b' s t e l p =
        after_step i (fuzz_conversation config trials turns) steps (replacement i given []) b b' s t
          _ _ (Replays-given i config trials turns ms found eager)
          (trial_steps_replayed (suc i) steps h) refl e l p
    trial_steps_replayed i (simulate max_turns stop on actor input ∷ steps) h b b' s t e l p =
        absurd h
    trial_steps_replayed i (user_message text ∷ steps) h b b' s t e l p =
        after_kept i (user_message text) steps (text ∷ []) tt (λ s'. refl)
          (trial_steps_replayed (suc i) steps h) b b' s t e l p
    trial_steps_replayed i (action fn ∷ steps) h b b' s t e l p =
        after_kept i (action fn) steps [] tt (λ s'. refl) (trial_steps_replayed (suc i) steps h) b
          b' s t e l p
    trial_steps_replayed i (env_assert fn ∷ steps) h b b' s t e l p =
        after_kept i (env_assert fn) steps [] tt (λ s'. refl) (trial_steps_replayed (suc i) steps h)
          b b' s t e l p
    trial_steps_replayed i (output_assert spec turn actor ∷ steps) h b b' s t e l p =
        after_kept i (output_assert spec turn actor) steps [] tt (λ s'. refl)
          (trial_steps_replayed (suc i) steps h) b b' s t e l p
    trial_steps_replayed i (tool_calls_assert spec in_order extras turn actor ∷ steps) h b b' s t e
          l p =
        after_kept i (tool_calls_assert spec in_order extras turn actor) steps [] tt (λ s'. refl)
          (trial_steps_replayed (suc i) steps h) b b' s t e l p
    trial_steps_replayed i (forbid_tool_calls spec in_order turn actor ∷ steps) h b b' s t e l p =
        after_kept i (forbid_tool_calls spec in_order turn actor) steps [] tt (λ s'. refl)
          (trial_steps_replayed (suc i) steps h) b b' s t e l p

  -- If every step of a scenario that fuzzes has a strategy that makes its messages at once and is
  -- given messages, and no step simulates, then a trial that completes is replayed by the merged steps:
  -- in the same scenario with these steps, `materialise` completes, with the same turns and with the
  -- same effect on what agents and callables reach.
  pub trial-replayed :
      (original : List (Step W)) (given : Messages) (trial : ℕ) (b b' : List (List String))
      (s t : Scenario W)
      → IsGiven strategies given 0 original
      → s.recording ≡ false
      → trial_steps str_of decimal strategies message loads summary original given trial 0 original
          b s
        ≡ (completed tt, t, b')
      → (u : Scenario W) × (materialise str_of message decimal loads summary
            (record s { steps = merged_generative_steps original given []; executed_until = 0 })
          ≡ (completed tt, u))
        × (u.turn_results ≡ t.turn_results)
        × (u.world ≡ t.world)
  unfolding materialise merged_generative_steps
  trial-replayed original given trial b b' s t h recording e =
      let merged = merged_generative_steps original given [] in
      let (q, run) = trial_steps_replayed original given trial 0 original h b b' s t e merged 0 in
      (
        at merged q t,
        subst
            (λ r.
              (if r then (completed tt, at merged 0 s) else ran merged (at merged 0 s))
              ≡ (completed tt, at merged q t))
            (sym recording) run,
        refl,
        refl,
      )
