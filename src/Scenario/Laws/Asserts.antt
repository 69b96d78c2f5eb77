-- ===== src/Scenario/Laws/Asserts.antt =====
-- Steps that check the turns, against the checks of a body.
use agent_spec_kit.Common.{
  ℕ, ◌≡◌, ◌↔◌, subst, refl, sym, ◌∙◌, ap, String, Bool, true, Option, List, [], ◌∷◌, arith, inl,
  inr, false, length, drop, ◌++◌, str_eq, if◌then◌else◌, Bool-cases,
}
use agent_spec_kit.Common.Outcome.{
  Exception, Outcome, returned, raised, returned_inj, bind_assoc, ◌>>◌,
}
use agent_spec_kit.Common.Action.{Ended, completed, halted, ended_as, modify, complete, ◌>>=◌}
use agent_spec_kit.Match.Value.{Value}
use agent_spec_kit.Match.Types.{Text, MatchResult}
use agent_spec_kit.Match.Matcher.{Matcher}
use agent_spec_kit.Match.Spec.{Spec, match_async_check}
use agent_spec_kit.Scenario.Events.{ConversationTurn}
use agent_spec_kit.Scenario.State.{Halt, Step, output_assert, tool_calls_assert, Scenario, Run}
use agent_spec_kit.Scenario.Records.{raise_match_step}
use agent_spec_kit.Scenario.Segments.{attempt}
use agent_spec_kit.Scenario.Arguments.{conversation_for_assert, coerce_tool_calls_list_spec}
use agent_spec_kit.Scenario.Steps.{
  require_turns, assert_matches, assert_on, count_step, dispatch_step, run_steps, materialise,
}
use agent_spec_kit.Scenario.Checked.{output_to_assert, tool_calls_to_assert}
use agent_spec_kit.Scenario.Build.{
  queue, assert_output, assert_tool_calls, require_post_checks_ready, async_check_output,
  async_check_tool_calls,
}
use agent_spec_kit.Scenario.Laws.PostChecks.{Passes, post_check, post_check-returned}

drop-append {ℓ} : {A : Type ℓ} (xs ys : List A) → drop (length xs) (xs ++ ys) ≡ ys
drop-append [] ys = refl
drop-append (x ∷ xs) ys = drop-append xs ys

require_turns-returned :
    (turns found : List ConversationTurn) → require_turns turns ≡ returned found → turns ≡ found
unfolding require_turns
require_turns-returned [] found e = cc
require_turns-returned (ct ∷ cts) found e = cc

module _ {W : Type 0} where
  attempt-completed :
      {A B : Type 0} (o : Outcome A) (f : A → Run W B) (s : Scenario W) {b : B}
      → (((attempt o >>= f) s).0 ≡ completed b)
        ↔ ((a : A) × (o ≡ returned a) × ((f a s).0 ≡ completed b))
  attempt-completed (returned a) f s =
      (λ h. (a, refl, h), λ (a', e, h). subst (λ x. (f x s).0 ≡ _) (sym (returned_inj e)) h)
  attempt-completed (raised e) f s = (λ h. absurd (cc h), λ (a, e, h). absurd (cc e))

  raise_match_step-completed :
      (kind : String) (r : MatchResult) (spec : Spec) (v : Value) (s : Scenario W)
      → ((raise_match_step kind r spec v s).0 ≡ completed tt) ↔ (r.ok ≡ true)
  unfolding raise_match_step
  raise_match_step-completed kind r spec v s = (ground arith, ground arith)

module _ {W : Type 0} (loads : String → Option Value) (summary : Matcher → Text) (kind : String)
    (step_spec : Spec) (made : Outcome Spec) where
  abbrev by_result : Value → MatchResult → Run W (Unit {0})
  by_result v r = raise_match_step kind r step_spec v

  abbrev by_spec : Value → Spec → Run W (Unit {0})
  by_spec v spec = attempt (match_async_check loads summary spec v) >>= by_result v

  abbrev by_value : Value → Run W (Unit {0})
  by_value v = attempt made >>= by_spec v

  assert_on-completed :
      (checked : List ConversationTurn → Outcome Value) (s : Scenario W)
      → ((assert_on loads summary kind step_spec made checked s).0 ≡ completed tt) ↔ (
          (require_turns s.turn_results ≡ returned s.turn_results)
          × Passes loads summary made (checked s.turn_results))
  unfolding assert_on assert_matches
  assert_on-completed checked s =
      let by_turns : List ConversationTurn → Run W (Unit {0}) =
        λ turns. attempt (checked turns) >>= by_value in
      (
        λ h.
            let (turns, et, h1) =
              (attempt-completed (require_turns s.turn_results) by_turns s).0 h in
            let (v, ev, h2) = (attempt-completed (checked turns) by_value s).0 h1 in
            let (spec, es, h3) = (attempt-completed made (by_spec v) s).0 h2 in
            let (r, er, h4) =
              (attempt-completed (match_async_check loads summary spec v) (by_result v) s).0 h3 in
            let e = require_turns-returned s.turn_results turns et in
            (
              et ∙ ap returned (sym e),
              (
                v,
                ap checked e ∙ ev,
                spec,
                es,
                r,
                er,
                (raise_match_step-completed kind r step_spec v s).0 h4,
              ),
            ),
        λ (et, (v, ev, spec, es, r, er, ok)).
            (attempt-completed (require_turns s.turn_results) by_turns s).1 (
              s.turn_results,
              et,
              (attempt-completed (checked s.turn_results) by_value s).1 (
                v,
                ev,
                (attempt-completed made (by_spec v) s).1 (
                  spec,
                  es,
                  (attempt-completed (match_async_check loads summary spec v) (by_result v) s).1
                      (r, er, (raise_match_step-completed kind r step_spec v s).1 ok),
                ),
              ),
            ),
      )

module _ {W : Type 0} (str_of : Value → String) (message : Exception → String)
    (decimal : ℕ → String) (loads : String → Option Value) (summary : Matcher → Text) where
  abbrev materialised : Run W (Unit {0})
  materialised = materialise str_of message decimal loads summary

  -- Where no step is pending, a step that is queued is the one that `materialise` runs.
  materialise-queue :
      (s : Scenario W) (step : Step W)
      → s.executed_until ≡ length s.steps
      → s.recording ≡ false
      → ((materialised (queue step s)).0 ≡ completed tt) ↔ (
          (dispatch_step str_of message decimal loads summary step (queue step s)).0 ≡ completed tt)
  unfolding materialise queue run_steps
  materialise-queue s step done live =
      let q = queue step s in
      let left : drop s.executed_until q.steps ≡ step ∷ [] =
        ap (λ n. drop n q.steps) done ∙ drop-append s.steps (step ∷ []) in
      let run : materialised q ≡ run_steps str_of message decimal loads summary (step ∷ []) q =
        ap
          (λ b.
            if b
            then (completed tt, q)
            else run_steps str_of message decimal loads summary (drop q.executed_until q.steps) q)
          live
        ∙ ap (λ l. run_steps str_of message decimal loads summary l q) left in
      subst
        (λ (r : Ended Halt (Unit {0}) × Scenario W).
          (r.0 ≡ completed tt)
          ↔ ((dispatch_step str_of message decimal loads summary step q).0 ≡ completed tt))
        (sym run)
        (one_step (dispatch_step str_of message decimal loads summary step (queue step s)).0
          (dispatch_step str_of message decimal loads summary step (queue step s)).1)
    where
      one_step :
          (r : Ended Halt (Unit {0})) (t : Scenario W)
          → ((ended_as (λ _. modify count_step >>= λ _. complete tt) r t).0 ≡ completed tt)
            ↔ (r ≡ completed tt)
      one_step (completed u) t = (λ h. refl, λ h. refl)
      one_step (halted x) t = (λ h. absurd (cc h), λ h. absurd (cc h))

  -- What `async_check_output` does is what a step `assert_output` does with the same turns.
  async_check_output-parts :
      (s : Scenario W) (spec : Spec) (turn : String) (actor : Option String)
      → async_check_output str_of loads summary s spec turn actor
        ≡ post_check loads summary
            (returned spec)
            (output_to_assert str_of s.turn_results turn actor)
            s
  unfolding async_check_output output_to_assert
  async_check_output-parts s spec turn actor = elim (Bool-cases (str_eq turn "last")) [
    | inl y ↦ rw y (
        ap (λ o. require_post_checks_ready s >> o)
          (sym (
            bind_assoc (conversation_for_assert s.turn_results actor) (λ ct. returned ct.output)
              (match_async_check loads summary spec))))
    | inr n ↦ elim (Bool-cases (str_eq turn "up_to_now")) [
      | inl y' ↦ rw (n, y') refl
      | inr n' ↦ rw (n, n') refl
    ]
  ]

  -- Where no step is pending and the scenario does not only record, a queued `assert_output` makes
  -- `materialise` complete exactly if `async_check_output` with the same arguments, called instead,
  -- returns a result that is ok.
  pub assert_output-async_check_output :
      (s : Scenario W) (spec : Spec) (turn : String) (actor : Option String)
      → s.executed_until ≡ length s.steps
      → s.recording ≡ false
      → ((materialise str_of message decimal loads summary (assert_output spec turn actor s)).0
          ≡ completed tt)
        ↔ ((r : MatchResult) × (async_check_output str_of loads summary s spec turn actor
              ≡ returned r)
            × (r.ok ≡ true))
  unfolding assert_output queue dispatch_step
  assert_output-async_check_output s spec turn actor done live =
      let made : Outcome Spec = returned spec in
      let checked : List ConversationTurn → Outcome Value =
        λ turns. output_to_assert str_of turns turn actor in
      let step : Step W = output_assert spec turn actor in
      let run = materialise-queue s step done live in
      let branch =
        assert_on-completed loads summary "assert_output" spec made checked (queue step s) in
      let post = post_check-returned loads summary made (checked s.turn_results) s done in
      rw (async_check_output-parts s spec turn actor)
        (λ h. post.1 (branch.0 (run.0 h)), λ h. run.1 (branch.1 (post.0 h)))

  -- Where no step is pending and the scenario does not only record, a queued `assert_tool_calls` makes
  -- `materialise` complete exactly if `async_check_tool_calls` with the same arguments, called instead,
  -- returns a result that is ok.
  pub assert_tool_calls-async_check_tool_calls :
      (s : Scenario W) (spec : Spec) (in_order allow_extras : Bool) (turn : String)
      (actor : Option String)
      → s.executed_until ≡ length s.steps
      → s.recording ≡ false
      → ((materialise str_of message decimal loads summary
            (assert_tool_calls spec in_order allow_extras turn actor s)).0
          ≡ completed tt)
        ↔ ((r : MatchResult) × (async_check_tool_calls loads summary s spec in_order allow_extras
                turn actor
              ≡ returned r)
            × (r.ok ≡ true))
  unfolding assert_tool_calls queue dispatch_step async_check_tool_calls tool_calls_to_assert
  assert_tool_calls-async_check_tool_calls s spec in_order allow_extras turn actor done live =
      let made = coerce_tool_calls_list_spec spec in_order allow_extras in
      let checked : List ConversationTurn → Outcome Value =
        λ turns. tool_calls_to_assert turns turn actor in
      let step : Step W = tool_calls_assert spec in_order allow_extras turn actor in
      let run = materialise-queue s step done live in
      let branch =
        assert_on-completed loads summary "assert_tool_calls" spec made checked (queue step s) in
      let post = post_check-returned loads summary made (checked s.turn_results) s done in
      (λ h. post.1 (branch.0 (run.0 h)), λ h. run.1 (branch.1 (post.0 h)))
