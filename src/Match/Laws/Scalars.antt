-- ===== src/Match/Laws/Scalars.antt =====
-- The scalar matchers report as every matcher should.
use agent_spec_kit.Common.{Option, String}
use agent_spec_kit.Common.Outcome.{Ensures-any, Ensures-bind}
use agent_spec_kit.Match.Value.{Value, bool, int, float, str}
use agent_spec_kit.Match.Types.{FieldPath}
use agent_spec_kit.Match.Scalars.{
  Verdict, raises, Predicate, Pattern, StringSpec, NumberSpec, equality_check, predicate_outcome,
  predicate_check, any_value_check, string_check, to_float, outside, number_bounds, number_check,
  regex_check,
}
use agent_spec_kit.Match.Laws.Report.{
  IsReport, Reports, Honors, Reports-fails, Reports-if, report_rules,
}

module _ (E : Type 0) where
  pub equality-Honors : (v : Value) → Honors E (equality_check v)
  unfolding equality_check
  equality-Honors v actual p = search report_rules

  pub any_value-Honors : Honors E any_value_check
  unfolding any_value_check
  any_value-Honors actual p = search report_rules

  predicate_outcome-Reports :
      (message : Option String) (actual : Value) (p : FieldPath) (r : Verdict)
      → Reports E p (predicate_outcome message actual p r)
  unfolding predicate_outcome
  predicate_outcome-Reports message actual p (raises e) = search report_rules
  predicate_outcome-Reports message actual p _ = search report_rules

  pub predicate-Honors :
      (fn : Predicate) (message : Option String) → Honors E (predicate_check fn message)
  unfolding predicate_check
  predicate-Honors fn message actual p = predicate_outcome-Reports message actual p (fn actual)

  pub string-Honors : (spec : StringSpec) → Honors E (string_check spec)
  unfolding string_check
  string-Honors spec (str s) p = search report_rules
  string-Honors spec _ p = search report_rules

  pub regex-Honors : (pattern : Pattern) → Honors E (regex_check pattern)
  unfolding regex_check
  regex-Honors pattern (str s) p = search report_rules
  regex-Honors pattern _ p = search report_rules

-- A number check converts with `float`, which may raise.
module _ (E : Type 0) (allowed : E) where
  number_bounds-Honors : (spec : NumberSpec) → Honors E (number_bounds spec)
  unfolding number_bounds
  number_bounds-Honors spec actual p =
      Ensures-bind E (λ _. Unit) (IsReport p) (to_float actual) _
        (Ensures-any E (to_float actual) allowed)
        (λ n _.
          Ensures-bind E (λ _. Unit) (IsReport p) (outside spec.min _) _
            (Ensures-any E (outside spec.min _) allowed)
            (λ below _. Reports-if E p below _ _ (Reports-fails E p _ _ _ _) (
              Ensures-bind E (λ _. Unit) (IsReport p) (outside spec.max _) _
                (Ensures-any E (outside spec.max _) allowed) (λ above _. search report_rules))))

  pub number-Honors : (spec : NumberSpec) → Honors E (number_check spec)
  unfolding number_check
  number-Honors spec (bool b) p = search report_rules
  number-Honors spec (int n) p = number_bounds-Honors spec (int n) p
  number-Honors spec (float x) p = search (report_rules, number_bounds-Honors)
  number-Honors spec _ p = search report_rules
