-- ===== src/Match/Laws/ObjectVerdict.antt =====
-- What `ObjectMatcher` accepts.
use agent_spec_kit.Common.{
  ◌≡◌, ◌⊎◌, refl, ◌↔◌, inl, inr, Bool, true, false, Option, none, some, List, [], ◌∷◌, ◌++◌,
  Bool-cases, Option-cases, All, if◌then◌else◌, String,
}
use agent_spec_kit.Common.Outcome.{Outcome, returned, raised, Ensures}
use agent_spec_kit.Match.Value.{Value, Fields, end, field, get}
use agent_spec_kit.Match.Types.{FieldPath, MatchError, MatchResult, failure}
use agent_spec_kit.Match.Protocol.{Check, BaseMatcher}
use agent_spec_kit.Match.Scalars.{Verdict, truthy, falsy, raises}
use agent_spec_kit.Match.Rules.{evaluate, Rule, require_rule, forbid_rule}
use agent_spec_kit.Match.Object.{
  ExtraPolicy, forbid, ignore, Props, ObjectSpec, at_key, has_key, is_declared, missing_key,
  extra_errors, policy_errors, rule_errors, condition_of, rules_loop, hook_outcome, hook_errors,
  unless_errors, props_loop, fields_with,
}
use agent_spec_kit.Match.Laws.Assignment.{accepted}
use agent_spec_kit.Match.Laws.Verdicts.{Answers}
use agent_spec_kit.Match.Laws.ObjectReport.{RuleCalm, condition_of-calm, PropsHonor}
use agent_spec_kit.Match.Laws.Gathering.{
  returned-IsReport, gathered_iff, accepted-returned, accepts, Gathers,
}

append-empty : (es fs : List MatchError) → (es ++ fs ≡ []) ↔ ((es ≡ []) × (fs ≡ []))
append-empty [] fs = (λ e. (refl, e), λ h. h.1)
append-empty (x ∷ es) fs = (λ e. cc, λ h. cc)

-- Every key of the object is declared, or extra keys are ignored.
abbrev pub AllDeclared : Props → Fields → Type 0
AllDeclared props end = Unit
AllDeclared props (field k v fs) = (is_declared k props ≡ true) × AllDeclared props fs

abbrev pub ExtrasHold : ExtraPolicy → Props → Fields → Type 0
ExtrasHold forbid props obj = AllDeclared props obj
ExtrasHold ignore props obj = Unit

-- A rule says something of an object on which its condition holds.
abbrev pub RuleHolds : Fields → Rule → Type 0
RuleHolds obj (require_rule name c) = evaluate c obj ≡ returned true → has_key name obj ≡ true
RuleHolds obj (forbid_rule name c) = evaluate c obj ≡ returned true → has_key name obj ≡ false

abbrev pub HookHolds : Fields → (Fields → Verdict) × String → Type 0
HookHolds obj (fn, msg) = fn obj ≡ truthy

extra_errors_iff :
    (props : Props) (obj : Fields) (p : FieldPath)
    → (extra_errors props obj p ≡ []) ↔ AllDeclared props obj
unfolding extra_errors
extra_errors_iff props end p = (λ _. tt, λ _. refl)
extra_errors_iff props (field k v fs) p =
    let later = extra_errors_iff props fs p in
    elim (Bool-cases (is_declared k props)) [
      | inl y ↦ rw y (λ e. (refl, later.0 e), λ h. later.1 h.1)
      | inr n ↦ rw n (λ e. cc, λ h. cc)
    ]

policy_errors_iff :
    (extra : ExtraPolicy) (props : Props) (obj : Fields) (p : FieldPath)
    → (policy_errors extra props obj p ≡ []) ↔ ExtrasHold extra props obj
unfolding policy_errors
policy_errors_iff forbid props obj p = extra_errors_iff props obj p
policy_errors_iff ignore props obj p = (λ _. tt, λ _. refl)

rule_errors_iff :
    (r : Rule) (obj : Fields) (p : FieldPath) (b : Bool)
    → condition_of r obj ≡ returned b
    → ((if b then rule_errors r obj p else []) ≡ []) ↔ RuleHolds obj r
unfolding rule_errors has_key
rule_errors_iff (require_rule name c) obj p true e = elim (Option-cases (get name obj)) [
  | inl n ↦ rw (n, rule_errors, has_key) (λ x. cc, λ h. cc (h e))
  | inr (v, y) ↦ rw (y, rule_errors, has_key) (λ x h. refl, λ h. refl)
]
rule_errors_iff (forbid_rule name c) obj p true e = elim (Option-cases (get name obj)) [
  | inl n ↦ rw (n, rule_errors, has_key) (λ x h. refl, λ h. refl)
  | inr (v, y) ↦ rw (y, rule_errors, has_key) (λ x. cc, λ h. cc (h e))
]
rule_errors_iff (require_rule name c) obj p false e = (λ x h. cc, λ h. refl)
rule_errors_iff (forbid_rule name c) obj p false e = (λ x h. cc, λ h. refl)

hook_outcome_iff :
    (msg : String) (obj : Fields) (p : FieldPath) (r : Verdict)
    → (hook_outcome msg obj p r ≡ []) ↔ (r ≡ truthy)
unfolding hook_outcome
hook_outcome_iff msg obj p truthy = (λ _. refl, λ _. refl)
hook_outcome_iff msg obj p falsy = (λ e. cc, λ e. cc)
hook_outcome_iff msg obj p (raises x) = (λ e. cc, λ e. cc)

hook_errors_iff :
    (hs : List ((Fields → Verdict) × String)) (obj : Fields) (p : FieldPath)
    → (hook_errors hs obj p ≡ []) ↔ All (HookHolds obj) hs
unfolding hook_errors
hook_errors_iff [] obj p = (λ _. tt, λ _. refl)
hook_errors_iff ((fn, msg) ∷ hs) obj p =
    let both = append-empty (hook_outcome msg obj p (fn obj)) (hook_errors hs obj p) in
    let one = hook_outcome_iff msg obj p (fn obj) in
    let later = hook_errors_iff hs obj p in
    (λ e. let h = both.0 e in (one.0 h.0, later.0 h.1), λ h. both.1 (one.1 h.0, later.1 h.1))

returned_condition :
    (o : Outcome Bool) → Ensures ⊥ (λ _. Unit {0}) o → (b : Bool) × (o ≡ returned b)
returned_condition (returned b) h = (b, refl)
returned_condition (raised e) h = absurd h

rules_loop_iff :
    (rs : List Rule) (obj : Fields) (p : FieldPath) (es : List MatchError)
    → All (RuleCalm ⊥) rs
    → Gathers (rules_loop rs obj p es) ((es ≡ []) × All (RuleHolds obj) rs)
unfolding rules_loop
rules_loop_iff [] obj p es h = (es, refl, (λ e. (e, tt), λ e. e.0))
rules_loop_iff (r ∷ rs) obj p es h =
    let (b, e) = returned_condition (condition_of r obj) (condition_of-calm ⊥ r obj h.0) in
    let more = if b then es ++ rule_errors r obj p else es in
    let (es', e', later) = rules_loop_iff rs obj p more h.1 in
    let now = added b e in
    (
      es',
      rw (e, rules_loop) e',
      (
        λ done. let both = later.0 done in let old = now.0 both.0 in (old.0, (old.1, both.1)),
        λ both. later.1 (now.1 (both.0, both.1.0), both.1.1),
      ),
    )
  where
    added :
        (b : Bool)
        → condition_of r obj ≡ returned b
        → ((if b then es ++ rule_errors r obj p else es) ≡ []) ↔ ((es ≡ []) × RuleHolds obj r)
    added true e =
        let one = rule_errors_iff r obj p true e in
        let both = append-empty es (rule_errors r obj p) in
        (λ x. let h = both.0 x in (h.0, one.0 h.1), λ h. both.1 (h.0, one.1 h.1))
    added false e = let one = rule_errors_iff r obj p false e in (λ x. (x, one.0 refl), λ h. h.0)

unless_errors-iff :
    (es : List MatchError) (rest : Outcome MatchResult) (P Q : Type 0)
    → (es ≡ []) ↔ P
    → Answers rest Q
    → Answers (unless_errors es rest) (P × Q)
unfolding failure
unless_errors-iff [] rest P Q iff (r, e, verdict) =
    (r, e, (λ good. (iff.0 refl, verdict.0 good), λ h. verdict.1 h.1))
unless_errors-iff (x ∷ es) rest P Q iff answers =
    (failure (x ∷ es), refl, (λ good. cc, λ h. cc (iff.1 h.0)))

module _ (run : BaseMatcher → Check) where
  -- A property holds of its value, or it is optional and there is none.
  abbrev pub ValueHolds : BaseMatcher → FieldPath → Option Value → Type 0
  ValueHolds m p none = m.is_optional ≡ true
  ValueHolds m p (some v) = accepted (run m v p) ≡ true

  abbrev pub PropHolds : Fields → FieldPath → String × BaseMatcher → Type 0
  PropHolds obj p (k, m) = ValueHolds m (at_key p k) (get k obj)

  props_loop_iff :
      (ps : Props) (obj : Fields) (p : FieldPath) (es : List MatchError)
      → PropsHonor ⊥ run ps
      → Gathers (props_loop run ps obj p es) ((es ≡ []) × All (PropHolds obj p) ps)
  unfolding props_loop
  props_loop_iff [] obj p es h = (es, refl, (λ e. (e, tt), λ e. e.0))
  props_loop_iff ((k, m) ∷ ps) obj p es h = elim (Option-cases (get k obj)) [
    | inl n ↦
        let more = if m.is_optional then es else es ++ missing_key p k ∷ [] in
        let (es', e', later) = props_loop_iff ps obj p more h.1 in
        let now = skipped (Bool-cases m.is_optional) in
        (
          es',
          rw (n, props_loop) e',
          rw n (
            λ done. let both = later.0 done in let old = now.0 both.0 in (old.0, (old.1, both.1)),
            λ both. later.1 (now.1 (both.0, both.1.0), both.1.1),
          ),
        )
    | inr (v, y) ↦
        let (r, e, report) =
          returned-IsReport (at_key p k) (run m v (at_key p k)) (h.0 v (at_key p k)) in
        let (es', e', later) = props_loop_iff ps obj p (if r.ok then es else es ++ r.errors) h.1 in
        let now = gathered_iff (at_key p k) r es report in
        let same = accepted-returned (run m v (at_key p k)) r e in
        (
          es',
          rw (y, e, props_loop) e',
          rw y (
            λ done.
                let both = later.0 done in
                let old = now.0 both.0 in (old.0, (same.1 old.1, both.1)),
            λ both. later.1 (now.1 (both.0, same.0 both.1.0), both.1.1),
          ),
        )
  ]
    where
      skipped :
          ((m.is_optional ≡ true) ⊎ (m.is_optional ≡ false))
          → ((if m.is_optional then es else es ++ missing_key p k ∷ []) ≡ [])
            ↔ ((es ≡ []) × (m.is_optional ≡ true))
      skipped (inl y) = simp y (λ e. (e, refl), λ h. h.0)
      skipped (inr n) =
          simp n
            (λ e. let h = (append-empty es (missing_key p k ∷ [])).0 e in absurd (cc h.1), λ h. cc)

  -- If the properties' matchers keep the contract without raising and no rule compares
  -- by order, an object is answered with a result, which is a success exactly when every declared
  -- key is present and matched, or optional and absent; no key is undeclared where extras are
  -- forbidden; every rule holds; and every `where` hook returns a true value.
  pub fields_iff :
      (spec : ObjectSpec) (obj : Fields) (p : FieldPath)
      → PropsHonor ⊥ run spec.props
      → All (RuleCalm ⊥) spec.rules
      → Answers (fields_with run spec obj p) (
          (All (PropHolds obj p) spec.props × ExtrasHold spec.extra spec.props obj)
          × (All (RuleHolds obj) spec.rules × (All (HookHolds obj) spec.where_hooks × Unit)))
  unfolding fields_with
  fields_iff spec obj p h calm =
      let (es, e, props) = props_loop_iff spec.props obj p [] h in
      let (broken, e', rules) = rules_loop_iff spec.rules obj p [] calm in
      let extra = policy_errors_iff spec.extra spec.props obj p in
      let both = append-empty es (policy_errors spec.extra spec.props obj p) in
      let hooks = hook_errors_iff spec.where_hooks obj p in
      rw e (
        unless_errors-iff _ _ _ _
          (
            λ x. let h = both.0 x in ((props.0 h.0).1, extra.0 h.1),
            λ h. both.1 (props.1 (refl, h.0), extra.1 h.1),
          )
          (rw e' (
            unless_errors-iff broken _ _ _ (λ x. (rules.0 x).1, λ h. rules.1 (refl, h))
              (unless_errors-iff _ _ _ _ hooks (accepts _ _ refl tt)))))
