-- ===== src/Generative/Laws/Probe.antt =====
-- The messages that a probe generates: a trial finds its own for every step that fuzzes.
use agent_spec_kit.Common.{
  ℕ, zero, suc, ◌+◌, ◌*◌, ◌<◌, ◌≡◌, refl, sym, ap, ◌∙◌, subst, String, Bool, true, Option, none,
  some, List, [], ◌∷◌, length, ltb, ==-refl, arith,
}
use agent_spec_kit.Common.Outcome.{Outcome, returned, raised}
use agent_spec_kit.Common.Action.{
  Ended, completed, Action, complete, bind-completed, both-completed, completed_inj,
}
use agent_spec_kit.Match.Value.{Value}
use agent_spec_kit.Scenario.State.{
  Halt, FuzzConfig, Step, user_message, action, env_assert, output_assert, tool_calls_assert,
  forbid_tool_calls, simulate, fuzz_conversation,
}
use agent_spec_kit.Generative.Trials.{
  Messages, Strategies, messages_at, validate_uniform_trials, rng_offset, generate_fuzz_turns,
}
use agent_spec_kit.Generative.Probe.{
  FuzzStep, collect_fuzz_steps, trials_total, trial_messages, messages_by_trial, has_simulation,
  ProbeMode, mode_of, after_validation, with_messages, probe_messages,
}
use agent_spec_kit.Generative.Context.{
  FuzzSegmentContext, build_fuzz_segment_context, messages_of, tool_names_of_turns,
}
use agent_spec_kit.Generative.Laws.TrialCount.{AsksFor, FuzzesNot, trials_total-AsksFor}

-- Every strategy of a step that fuzzes makes its messages at once.
abbrev pub IsEager : {W : Type 0} → Strategies W → List (Step W) → Type 0
IsEager st [] = Unit
IsEager st (fuzz_conversation config trials turns ∷ steps) =
    (st.eager config ≡ true) × IsEager st steps
IsEager st (_ ∷ steps) = IsEager st steps

-- What a strategy is told where no turn is there yet: nothing in the first segment.
abbrev pub told_early : (segment : ℕ) → Option FuzzSegmentContext
told_early zero = none
told_early (suc k) = some (record {
  segment_index = suc k;
  prior_user_messages = [];
  prior_agent_messages = [];
  prior_tool_names = [];
})

-- From step `i` and segment `k` on, the messages of the trial have under the index of each step that
-- fuzzes what its strategy made for this trial and this segment.
abbrev pub IsOwn : {W : Type 0} → Strategies W → (trial k i : ℕ) → List (Step W) → Messages → Type 0
IsOwn st trial k i [] given = Unit
IsOwn {W} st trial k i (fuzz_conversation config trials turns ∷ steps) given =
    ((own : List String) × (u : W) × (u' : W) × (messages_at i given ≡ some own)
      × (st.generate config turns (trial * 100003 + k * 7919) (told_early k) u
          ≡ (completed own, u')))
    × IsOwn st trial (suc k) (suc i) steps given
IsOwn st trial k i (_ ∷ steps) given = IsOwn st trial k (suc i) steps given

-- The messages of the trials from `trial` on.
abbrev pub AllOwn :
    {W : Type 0} → Strategies W → (trial : ℕ) → List (Step W) → List Messages → Type 0
AllOwn st trial steps [] = Unit
AllOwn st trial steps (given ∷ all) =
    IsOwn st trial 0 0 steps given × AllOwn st (suc trial) steps all

messages_at-later :
    (j i : ℕ) (ms : List String) (given : Messages)
    → j < i
    → messages_at i ((j, ms) ∷ given) ≡ messages_at i given
unfolding messages_at
messages_at-later j i ms given h = ground arith

messages_at-here :
    (i : ℕ) (ms : List String) (given : Messages) → messages_at i ((i, ms) ∷ given) ≡ some ms
unfolding messages_at
messages_at-here i ms given = rw (==-refl i) refl

module _ {W : Type 0} (strategies : Strategies W) where
  -- Messages for an earlier step change nothing.
  IsOwn-later :
      (steps : List (Step W)) (trial k j i : ℕ) (ms : List String) (given : Messages)
      → j < i
      → IsOwn strategies trial k i steps given
      → IsOwn strategies trial k i steps ((j, ms) ∷ given)
  IsOwn-later [] trial k j i ms given l h = tt
  IsOwn-later (fuzz_conversation config trials turns ∷ steps) trial k j i ms given l
        ((own, u, u', found, made), h) =
      (
        (own, u, u', messages_at-later j i ms given l ∙ found, made),
        IsOwn-later steps trial (suc k) j (suc i) ms given (omega (arith, l)) h,
      )
  IsOwn-later (user_message text ∷ steps) trial k j i ms given l h =
      IsOwn-later steps trial k j (suc i) ms given (omega (arith, l)) h
  IsOwn-later (action fn ∷ steps) trial k j i ms given l h =
      IsOwn-later steps trial k j (suc i) ms given (omega (arith, l)) h
  IsOwn-later (env_assert fn ∷ steps) trial k j i ms given l h =
      IsOwn-later steps trial k j (suc i) ms given (omega (arith, l)) h
  IsOwn-later (output_assert spec turn actor ∷ steps) trial k j i ms given l h =
      IsOwn-later steps trial k j (suc i) ms given (omega (arith, l)) h
  IsOwn-later (tool_calls_assert spec in_order extras turn actor ∷ steps) trial k j i ms given l h =
      IsOwn-later steps trial k j (suc i) ms given (omega (arith, l)) h
  IsOwn-later (forbid_tool_calls spec in_order turn actor ∷ steps) trial k j i ms given l h =
      IsOwn-later steps trial k j (suc i) ms given (omega (arith, l)) h
  IsOwn-later (simulate max_turns stop on actor input ∷ steps) trial k j i ms given l h =
      IsOwn-later steps trial k j (suc i) ms given (omega (arith, l)) h

  module _ (str_of : Value → String) (decimal : ℕ → String) where
    told :
        (config : FuzzConfig) (turns offset k : ℕ)
        → strategies.eager config ≡ true
        → generate_fuzz_turns str_of decimal strategies config turns offset k []
          ≡ strategies.generate config turns offset (told_early k)
    unfolding generate_fuzz_turns build_fuzz_segment_context messages_of tool_names_of_turns
    told config turns offset zero eager = rw (eager, generate_fuzz_turns) refl
    told config turns offset (suc k) eager = rw (later k, generate_fuzz_turns) refl
      where
        later : (k : ℕ) → ltb 0 (suc k) ≡ true
        later k = ground arith

    trial_messages-cons :
        (st : FuzzStep) (rest : List FuzzStep) (trial k : ℕ) (w w' : W) (given : Messages)
        → strategies.eager st.fuzz_config ≡ true
        → trial_messages str_of decimal strategies trial k (st ∷ rest) w ≡ (completed given, w')
        → (own : List String) × (later : Messages) × (u : W) × ((st.step_index, own) ∷ later
            ≡ given)
          × (generate_fuzz_turns str_of decimal strategies st.fuzz_config st.max_user_turns
                (rng_offset str_of decimal strategies trial k)
                k
                []
                w
              ≡ (completed own, u))
          × (trial_messages str_of decimal strategies trial (suc k) rest u ≡ (completed later, w'))
    unfolding trial_messages
    trial_messages-cons st rest trial k w w' given eager e =
        both-completed
          (generate_fuzz_turns str_of decimal strategies st.fuzz_config st.max_user_turns
            (rng_offset str_of decimal strategies trial k) k [])
          (trial_messages str_of decimal strategies trial (suc k) rest)
          (λ own later. (st.step_index, own) ∷ later) w (rw eager at e)

    trial_messages-IsOwn :
        (steps : List (Step W)) (trial k i : ℕ) (w w' : W) (given : Messages)
        → IsEager strategies steps
        → trial_messages str_of decimal strategies trial k (collect_fuzz_steps i steps) w
          ≡ (completed given, w')
        → IsOwn strategies trial k i steps given
    unfolding trial_messages collect_fuzz_steps rng_offset
    trial_messages-IsOwn [] trial k i w w' given h e = tt
    trial_messages-IsOwn (fuzz_conversation config trials turns ∷ steps) trial k i w w' given
          (eager, h) e =
        let (own, rest, u, made, first, after) =
          trial_messages-cons
            (record {
              step_index = i;
              fuzz_config = config;
              trials = trials;
              max_user_turns = turns;
            })
            (collect_fuzz_steps (suc i) steps) trial k w w' given eager e in
        let h' = trial_messages-IsOwn steps trial (suc k) (suc i) u w' rest h after in
        let made_now =
          ap (λ (m : Action W Halt (List String)). m w)
            (sym (told config turns (trial * 100003 + k * 7919) k eager))
          ∙ first in
        subst (IsOwn strategies trial k i (fuzz_conversation config trials turns ∷ steps)) made (
          (own, w, u, messages_at-here i own rest, made_now),
          IsOwn-later steps trial (suc k) i (suc i) own rest (omega arith) h',
        )
    trial_messages-IsOwn (user_message text ∷ steps) trial k i w w' given h e =
        trial_messages-IsOwn steps trial k (suc i) w w' given h e
    trial_messages-IsOwn (action fn ∷ steps) trial k i w w' given h e =
        trial_messages-IsOwn steps trial k (suc i) w w' given h e
    trial_messages-IsOwn (env_assert fn ∷ steps) trial k i w w' given h e =
        trial_messages-IsOwn steps trial k (suc i) w w' given h e
    trial_messages-IsOwn (output_assert spec turn actor ∷ steps) trial k i w w' given h e =
        trial_messages-IsOwn steps trial k (suc i) w w' given h e
    trial_messages-IsOwn (tool_calls_assert spec in_order extras turn actor ∷ steps) trial k i w w'
          given h e =
        trial_messages-IsOwn steps trial k (suc i) w w' given h e
    trial_messages-IsOwn (forbid_tool_calls spec in_order turn actor ∷ steps) trial k i w w' given h
          e =
        trial_messages-IsOwn steps trial k (suc i) w w' given h e
    trial_messages-IsOwn (simulate max_turns stop on actor input ∷ steps) trial k i w w' given h e =
        trial_messages-IsOwn steps trial k (suc i) w w' given h e

    messages_by_trial-AllOwn :
        (steps : List (Step W)) (left trial : ℕ) (w w' : W) (all : List Messages)
        → IsEager strategies steps
        → messages_by_trial str_of decimal strategies left trial (collect_fuzz_steps 0 steps) w
          ≡ (completed all, w')
        → (length all ≡ left) × AllOwn strategies trial steps all
    unfolding messages_by_trial
    messages_by_trial-AllOwn steps zero trial w w' all h e =
        subst (λ l. (length l ≡ 0) × AllOwn strategies trial steps l)
          (completed_inj (ap (λ r. r.0) e)) (refl, tt)
    messages_by_trial-AllOwn steps (suc left) trial w w' all h e =
        let (own, rest, u, made, first, after) =
          both-completed
            (trial_messages str_of decimal strategies trial 0 (collect_fuzz_steps 0 steps))
            (messages_by_trial str_of decimal strategies left (suc trial)
              (collect_fuzz_steps 0 steps))
            (λ own rest. own ∷ rest) w e in
        let (count, others) = messages_by_trial-AllOwn steps left (suc trial) u w' rest h after in
        subst (λ l. (length l ≡ suc left) × AllOwn strategies trial steps l) made
          (ap suc count, (trial_messages-IsOwn steps trial 0 0 w u own h first, others))

  module _ (str_of : Value → String) (decimal : ℕ → String) where
    -- A probe that generates has passed its validation.
    generates :
        (steps : List (Step W)) (found : Option ProbeMode) (valid : Outcome (Unit {0}))
        (mode : ProbeMode) (w w' : W) (all : List Messages)
        → after_validation str_of decimal strategies (collect_fuzz_steps 0 steps) found valid w
          ≡ (completed (with_messages mode all), w')
        → (valid ≡ returned tt)
          × (messages_by_trial str_of decimal strategies
                (trials_total (collect_fuzz_steps 0 steps))
                0
                (collect_fuzz_steps 0 steps)
                w
              ≡ (completed all, w'))
    unfolding after_validation
    generates steps none valid mode w w' all e = absurd (cc (completed_inj (ap (λ r. r.0) e)))
    generates steps (some m) (raised x) mode w w' all e =
        absurd (cc (completed_inj (ap (λ r. r.0) e)))
    generates steps (some m) (returned u) mode w w' all e =
        let (l, v, first, last) =
          bind-completed
            (messages_by_trial str_of decimal strategies (trials_total (collect_fuzz_steps 0 steps))
              0 (collect_fuzz_steps 0 steps))
            (λ l. complete (with_messages m l)) w e in
        (
          refl,
          first ∙ pair_eq (same_messages (completed_inj (ap (λ r. r.0) last))) (ap (λ r. r.1) last),
        )
      where
        same_messages :
            {m' : ProbeMode} {l l' : List Messages}
            → with_messages m l ≡ with_messages m' l'
            → l ≡ l'
        same_messages q = cc

        pair_eq :
            {l l' : List Messages} {u u' : W}
            → l ≡ l'
            → u ≡ u'
            → ◌≡◌ {A = Ended Halt (List Messages) × W} (completed l, u) (completed l', u')
        pair_eq p q = cc

    -- If every strategy of a step that fuzzes makes its messages at once, a probe that generates has
    -- messages for as many trials as each step that fuzzes asks for, or for one if no step does; and
    -- those of a trial have, under the index of each such step, what its strategy made for this
    -- trial and this segment, told of no turns.
    pub probe_messages-AllOwn :
        (want : Bool) (steps : List (Step W)) (mode : ProbeMode) (w w' : W) (all : List Messages)
        → IsEager strategies steps
        → probe_messages str_of decimal strategies want steps w
          ≡ (completed (with_messages mode all), w')
        → AsksFor (length all) steps
          × (FuzzesNot steps → length all ≡ 1)
          × AllOwn strategies 0 steps all
    unfolding probe_messages validate_uniform_trials
    probe_messages-AllOwn want steps mode w w' all h e =
        let fuzz_steps = collect_fuzz_steps 0 steps in
        let (valid, made) =
          generates steps (mode_of want fuzz_steps (has_simulation steps))
            (validate_uniform_trials steps) mode w w' all e in
        let (count, own) =
          messages_by_trial-AllOwn str_of decimal steps (trials_total fuzz_steps) 0 w w' all h
            made in
        let (asked, alone) = trials_total-AsksFor steps valid in
        (subst (λ n. AsksFor n steps) (sym count) asked, λ f. count ∙ alone f, own)
