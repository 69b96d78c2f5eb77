-- ===== src/Scenario/Laws/PostChecks.antt =====
-- The checks of a body, where no step is pending.
use agent_spec_kit.Common.{◌≡◌, ◌↔◌, String, true, Option, length, arith, test_of_eq}
use agent_spec_kit.Common.Outcome.{Outcome, returned, ◌>>=◌, ◌>>◌, bind-returned}
use agent_spec_kit.Match.Value.{Value}
use agent_spec_kit.Match.Types.{Text, MatchResult}
use agent_spec_kit.Match.Matcher.{Matcher}
use agent_spec_kit.Match.Spec.{Spec, match_async_check}
use agent_spec_kit.Scenario.State.{Scenario}
use agent_spec_kit.Scenario.Steps.{require_turns}
use agent_spec_kit.Scenario.Build.{require_post_checks_ready}

module _ {W : Type 0} where
  require_post_checks_ready-require_turns :
      (s : Scenario W)
      → s.executed_until ≡ length s.steps
      → (require_post_checks_ready s ≡ returned tt)
        ↔ (require_turns s.turn_results ≡ returned s.turn_results)
  unfolding require_post_checks_ready require_turns
  require_post_checks_ready-require_turns s done =
      let test = test_of_eq s.executed_until (length s.steps) done in
      (ground (arith, test), ground (arith, test))

-- That the spec that is made matches what is checked.
abbrev pub Passes :
    (String → Option Value) → (Matcher → Text) → Outcome Spec → Outcome Value → Type 0
Passes loads summary made checked =
    (v : Value) × (checked ≡ returned v)
    × (spec : Spec) × (made ≡ returned spec)
    × (r : MatchResult) × (match_async_check loads summary spec v ≡ returned r)
    × (r.ok ≡ true)

-- What a check of a body does, by the same parts.
abbrev pub post_check :
    {W : Type 0}
    → (String → Option Value)
    → (Matcher → Text)
    → Outcome Spec
    → Outcome Value
    → Scenario W
    → Outcome MatchResult
post_check loads summary made checked s =
    require_post_checks_ready s
    >> (checked >>= λ v. made >>= λ spec. match_async_check loads summary spec v)

pub post_check-returned :
    {W : Type 0} (loads : String → Option Value) (summary : Matcher → Text) (made : Outcome Spec)
    (checked : Outcome Value) (s : Scenario W)
    → s.executed_until ≡ length s.steps
    → ((r : MatchResult) × (post_check loads summary made checked s ≡ returned r) × (r.ok ≡ true))
      ↔ ((require_turns s.turn_results ≡ returned s.turn_results)
          × Passes loads summary made checked)
post_check-returned loads summary made checked s done =
    let by_value : Value → Outcome MatchResult =
      λ v. made >>= λ spec. match_async_check loads summary spec v in
    let ready : Outcome (Unit {0}) = require_post_checks_ready s in
    (
      λ (r, e, ok).
          let (u, er, e1) = (bind-returned ready (λ _. checked >>= by_value)).0 e in
          let (v, ev, e2) = (bind-returned checked by_value).0 e1 in
          let (spec, es, e3) =
            (bind-returned made (λ spec. match_async_check loads summary spec v)).0 e2 in
          ((require_post_checks_ready-require_turns s done).0 er, (v, ev, spec, es, r, e3, ok)),
      λ (et, (v, ev, spec, es, r, e, ok)). (
        r,
        (bind-returned ready (λ _. checked >>= by_value)).1 (
          tt,
          (require_post_checks_ready-require_turns s done).1 et,
          (bind-returned checked by_value).1 (
            v,
            ev,
            (bind-returned made (λ spec. match_async_check loads summary spec v)).1 (spec, es, e),
          ),
        ),
        ok,
      ),
    )
