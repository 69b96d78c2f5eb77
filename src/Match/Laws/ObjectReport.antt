-- ===== src/Match/Laws/ObjectReport.antt =====
-- `ObjectMatcher` reports as every matcher should.
use agent_spec_kit.Common.{
  inl, inr, Bool, true, false, Option, List, [], ◌∷◌, ◌++◌, Option-cases, All, All-append,
  if◌then◌else◌, String,
}
use agent_spec_kit.Common.Outcome.{Outcome, Ensures, Ensures-any, Ensures-bind}
use agent_spec_kit.Match.Value.{Value, Fields, end, field, get}
use agent_spec_kit.Match.Types.{FieldPath, key, MatchError, MatchResult}
use agent_spec_kit.Match.Protocol.{Check, BaseMatcher}
use agent_spec_kit.Match.Scalars.{Verdict, truthy, falsy, raises}
use agent_spec_kit.Match.Rules.{
  Condition, field_equals, field_not_equals, field_compare, evaluate, Rule, require_rule,
  forbid_rule,
}
use agent_spec_kit.Match.Mapping.{actual_as_mapping}
use agent_spec_kit.Match.Object.{
  ExtraPolicy, forbid, ignore, Props, ObjectSpec, at_key, is_declared, missing_key, extra_key,
  extra_errors, policy_errors, rule_errors, condition_of, rules_loop, hook_outcome, hook_errors,
  unless_errors, props_loop, fields_with, object_with,
}
use agent_spec_kit.Match.Laws.Report.{
  Extends, Extends-refl, Extends-child, AllBelow, AllBelow-parent, IsReport, IsReport-success,
  IsReport-failure, Reports, Honors, Reports-fails,
}
use agent_spec_kit.Match.Laws.Combinators.{AllBelow-gather}

extra_errors-below :
    (props : Props) (obj : Fields) (p : FieldPath) → AllBelow p (extra_errors props obj p)
unfolding extra_errors
extra_errors-below props end p = tt
extra_errors-below props (field k v fs) p =
    pick (is_declared k props) (extra_errors-below props fs p)
  where
    pick :
        (b : Bool)
        → AllBelow p (extra_errors props fs p)
        → AllBelow p
            (if b then extra_errors props fs p else extra_key p k v ∷ extra_errors props fs p)
    pick true h = h
    pick false h = (Extends-child p (key k), h)

policy_errors-below :
    (extra : ExtraPolicy) (props : Props) (obj : Fields) (p : FieldPath)
    → AllBelow p (policy_errors extra props obj p)
unfolding policy_errors
policy_errors-below forbid props obj p = extra_errors-below props obj p
policy_errors-below ignore props obj p = tt

rule_errors-below : (r : Rule) (obj : Fields) (p : FieldPath) → AllBelow p (rule_errors r obj p)
unfolding rule_errors
rule_errors-below (require_rule name c) obj p = elim (Option-cases (get name obj)) [
  | inl n ↦ rw (n, rule_errors) (Extends-child p (key name), tt)
  | inr (v, e) ↦ rw (e, rule_errors) tt
]
rule_errors-below (forbid_rule name c) obj p = elim (Option-cases (get name obj)) [
  | inl n ↦ rw (n, rule_errors) tt
  | inr (v, e) ↦ rw (e, rule_errors) (Extends-child p (key name), tt)
]

hook_outcome-below :
    (msg : String) (obj : Fields) (p : FieldPath) (r : Verdict)
    → AllBelow p (hook_outcome msg obj p r)
unfolding hook_outcome
hook_outcome-below msg obj p (raises e) = (Extends-refl p, tt)
hook_outcome-below msg obj p truthy = tt
hook_outcome-below msg obj p falsy = (Extends-refl p, tt)

hook_errors-below :
    (hs : List ((Fields → Verdict) × String)) (obj : Fields) (p : FieldPath)
    → AllBelow p (hook_errors hs obj p)
unfolding hook_errors
hook_errors-below [] obj p = tt
hook_errors-below ((fn, msg) ∷ hs) obj p =
    All-append (λ (e : MatchError). Extends p e.path) (hook_outcome msg obj p (fn obj))
      (hook_errors hs obj p) (hook_outcome-below msg obj p (fn obj)) (hook_errors-below hs obj p)

unless_errors-Reports :
    (E : Type 0) (p : FieldPath) (es : List MatchError) (rest : Outcome MatchResult)
    → AllBelow p es
    → Reports E p rest
    → Reports E p (unless_errors es rest)
unless_errors-Reports E p [] rest h hr = hr
unless_errors-Reports E p (e ∷ es) rest h hr = IsReport-failure p e es h

-- An order comparison may raise: `E` has to allow it.
abbrev pub ConditionCalm : Type 0 → Condition → Type 0
ConditionCalm E (field_compare name op v) = E
ConditionCalm E c = Unit

abbrev pub RuleCalm : Type 0 → Rule → Type 0
RuleCalm E (require_rule name c) = ConditionCalm E c
RuleCalm E (forbid_rule name c) = ConditionCalm E c

module _ (E : Type 0) where
  evaluate-calm :
      (c : Condition) (obj : Fields)
      → ConditionCalm E c
      → Ensures E (λ _. Unit {0}) (evaluate c obj)
  unfolding evaluate
  evaluate-calm (field_equals name v) obj h = tt
  evaluate-calm (field_not_equals name v) obj h = tt
  evaluate-calm (field_compare name op v) obj h = Ensures-any E _ h

  pub condition_of-calm :
      (r : Rule) (obj : Fields) → RuleCalm E r → Ensures E (λ _. Unit {0}) (condition_of r obj)
  condition_of-calm (require_rule name c) obj h = evaluate-calm c obj h
  condition_of-calm (forbid_rule name c) obj h = evaluate-calm c obj h

  rules_loop-below :
      (rs : List Rule) (obj : Fields) (p : FieldPath) (es : List MatchError)
      → All (RuleCalm E) rs
      → AllBelow p es
      → Ensures E (AllBelow p) (rules_loop rs obj p es)
  unfolding rules_loop
  rules_loop-below [] obj p es h hs = hs
  rules_loop-below (r ∷ rs) obj p es h hs =
      Ensures-bind E (λ _. Unit {0}) (AllBelow p) (condition_of r obj) _
        (condition_of-calm r obj h.0)
        (λ b _.
          rules_loop-below rs obj p (if b then es ++ rule_errors r obj p else es) h.1 (gather b))
    where
      gather : (b : Bool) → AllBelow p (if b then es ++ rule_errors r obj p else es)
      gather true =
          All-append (λ (e : MatchError). Extends p e.path) es (rule_errors r obj p) hs
            (rule_errors-below r obj p)
      gather false = hs

module _ (E : Type 0) (run : BaseMatcher → Check) where
  abbrev pub PropsHonor : Props → Type 0
  PropsHonor ps = All (λ (q : String × BaseMatcher). Honors E (run q.1)) ps

  props_loop-below :
      (ps : Props) (obj : Fields) (p : FieldPath) (es : List MatchError)
      → PropsHonor ps
      → AllBelow p es
      → Ensures E (AllBelow p) (props_loop run ps obj p es)
  unfolding props_loop
  props_loop-below [] obj p es h hs = hs
  props_loop-below ((k, m) ∷ ps) obj p es h hs = elim (Option-cases (get k obj)) [
    | inl n ↦
        rw (n, props_loop)
          (props_loop-below ps obj p (if m.is_optional then es else es ++ missing_key p k ∷ []) h.1
            (gather m.is_optional))
    | inr (v, e) ↦
        rw (e, props_loop)
          (Ensures-bind E (IsReport (at_key p k)) (AllBelow p) (run m v (at_key p k)) _
            (h.0 v (at_key p k))
            (λ r report.
              props_loop-below ps obj p (if r.ok then es else es ++ r.errors) h.1
                (AllBelow-gather p r es (AllBelow-parent p (key k) r.errors report.located) hs)))
  ]
    where
      gather : (b : Bool) → AllBelow p (if b then es else es ++ missing_key p k ∷ [])
      gather true = hs
      gather false =
          All-append (λ (e : MatchError). Extends p e.path) es (missing_key p k ∷ []) hs
            (Extends-child p (key k), tt)

  fields-Reports :
      (spec : ObjectSpec) (obj : Fields) (p : FieldPath)
      → PropsHonor spec.props
      → All (RuleCalm E) spec.rules
      → Reports E p (fields_with run spec obj p)
  unfolding fields_with
  fields-Reports spec obj p h calm =
      Ensures-bind E (AllBelow p) (IsReport p) (props_loop run spec.props obj p []) _
        (props_loop-below spec.props obj p [] h tt)
        (λ es below.
          unless_errors-Reports E p (es ++ policy_errors spec.extra spec.props obj p) _
            (All-append (λ (e : MatchError). Extends p e.path) es
              (policy_errors spec.extra spec.props obj p) below
              (policy_errors-below spec.extra spec.props obj p))
            (Ensures-bind E (AllBelow p) (IsReport p) (rules_loop spec.rules obj p []) _
              (rules_loop-below E spec.rules obj p [] calm tt)
              (λ broken located. unless_errors-Reports E p broken _ located (
                unless_errors-Reports E p (hook_errors spec.where_hooks obj p) _
                  (hook_errors-below spec.where_hooks obj p) (IsReport-success p)))))

  pub object-Honors :
      (ellipsis : String) (loads : String → Option Value) (spec : ObjectSpec)
      → PropsHonor spec.props
      → All (RuleCalm E) spec.rules
      → Honors E (object_with run ellipsis loads spec)
  unfolding object_with
  object-Honors ellipsis loads spec h calm v p = elim (Option-cases (actual_as_mapping loads v)) [
    | inl n ↦ rw (n, object_with) (Reports-fails E p _ _ _ _)
    | inr (obj, e) ↦ rw (e, object_with) (fields-Reports spec obj p h calm)
  ]
