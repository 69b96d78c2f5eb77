-- ===== src/Match/Laws/Contract.antt =====
-- The contract that `BaseMatcher` states and that every matcher class of the package keeps, whatever
-- it is built of: both methods report an error exactly when there is no match, at or below the path
-- that they were called with.
use agent_spec_kit.Common.{◌≡◌, String, Option, All}
use agent_spec_kit.Match.Value.{Value}
use agent_spec_kit.Match.Types.{FieldPath, Text, MatchResult}
use agent_spec_kit.Match.Protocol.{BaseMatcher, sync_matcher, async_matcher}
use agent_spec_kit.Match.Combinators.{sync_run, async_run}
use agent_spec_kit.Match.Matcher.{
  Matcher, equality, predicate, any_value, string, number, regex, one_of, all_of, negation,
  optional, list_matcher, list_of, object, transform, forbidden, custom, Matchers, nil, cons,
  PropMatchers, end, prop, equality_base, optional_base, object_base, interpret, interpret_all,
  interpret_props,
}
use agent_spec_kit.Match.Laws.Report.{IsReport, Honors}
use agent_spec_kit.Match.Laws.Gathering.{returned-IsReport}
use agent_spec_kit.Common.Outcome.{returned}
use agent_spec_kit.Match.Laws.Scalars.{
  equality-Honors, any_value-Honors, predicate-Honors, string-Honors, number-Honors, regex-Honors,
}
use agent_spec_kit.Match.Laws.Combinators.{
  AllHonor, one_of-Honors, all_of-Honors, not-Honors, optional-Honors, transform-Honors,
}
use agent_spec_kit.Match.Laws.OrderedReport.{list_of-Honors}
use agent_spec_kit.Match.Laws.UnorderedReport.{list_matcher-Honors}
use agent_spec_kit.Match.Laws.ObjectReport.{RuleCalm, PropsHonor, object-Honors}
use agent_spec_kit.Match.Laws.ForbiddenReport.{forbidden-Honors}

-- Both methods of a matcher keep the contract.
abbrev pub HonorsBoth : Type 0 → BaseMatcher → Type 0
HonorsBoth E m = Honors E (sync_run m) × Honors E (async_run m)

-- What the matcher may do: where a check can raise (a number's bounds, an order comparison of a
-- rule) `E` has to allow it, and a user's own matcher has to keep the contract.
unfoldable mutual
  pub Allowed : Type 0 → Matcher → Type 0
  Allowed E (number spec) = E
  Allowed E (one_of ms) = AllAllowed E ms
  Allowed E (all_of ms) = AllAllowed E ms
  Allowed E (negation m) = Allowed E m
  Allowed E (optional m) = Allowed E m
  Allowed E (list_matcher ms mode extras) = AllAllowed E ms
  Allowed E (list_of m) = Allowed E m
  Allowed E (object ps extra rules hooks) = PropsAllowed E ps × All (RuleCalm E) rules
  Allowed E (transform fn m) = Allowed E m
  Allowed E (forbidden ms ordered) = AllAllowed E ms
  Allowed E (custom check async_check) = Honors E check × Honors E async_check
  Allowed E m = Unit

  pub AllAllowed : Type 0 → Matchers → Type 0
  AllAllowed E nil = Unit
  AllAllowed E (cons m ms) = Allowed E m × AllAllowed E ms

  pub PropsAllowed : Type 0 → PropMatchers → Type 0
  PropsAllowed E end = Unit
  PropsAllowed E (prop k m ps) = Allowed E m × PropsAllowed E ps

module _ (E : Type 0) (loads : String → Option Value) (summary : Matcher → Text) where
  abbrev AllHonorBoth : Matchers → Type 0
  AllHonorBoth ms =
      AllHonor E sync_run (interpret_all loads summary ms)
      × AllHonor E async_run (interpret_all loads summary ms)

  abbrev PropsHonorBoth : PropMatchers → Type 0
  PropsHonorBoth ps =
      PropsHonor E sync_run (interpret_props loads summary ps)
      × PropsHonor E async_run (interpret_props loads summary ps)

  mutual
    unfolding interpret interpret_all interpret_props Allowed AllAllowed PropsAllowed sync_matcher
        async_matcher equality_base optional_base object_base

    -- Both methods of any matcher keep the contract.
    pub interpret-Honors : (m : Matcher) → Allowed E m → HonorsBoth E (interpret loads summary m)
    interpret-Honors (equality v) a = (equality-Honors E v, equality-Honors E v)
    interpret-Honors (predicate fn message) a =
        (predicate-Honors E fn message, predicate-Honors E fn message)
    interpret-Honors any_value a = (any_value-Honors E, any_value-Honors E)
    interpret-Honors (string spec) a = (string-Honors E spec, string-Honors E spec)
    interpret-Honors (number spec) a = (number-Honors E a spec, number-Honors E a spec)
    interpret-Honors (regex p) a = (regex-Honors E p, regex-Honors E p)
    interpret-Honors (one_of ms) a =
        let (hs, ha) = interpret_all-Honors ms a in
        (one_of-Honors E sync_run _ hs, one_of-Honors E async_run _ ha)
    interpret-Honors (all_of ms) a =
        let (hs, ha) = interpret_all-Honors ms a in
        (all_of-Honors E sync_run _ hs, all_of-Honors E async_run _ ha)
    interpret-Honors (negation m) a =
        let (hs, ha) = interpret-Honors m a in
        (
          not-Honors E sync_run (interpret loads summary m) hs,
          not-Honors E async_run (interpret loads summary m) ha,
        )
    interpret-Honors (optional m) a =
        let (hs, ha) = interpret-Honors m a in
        (
          optional-Honors E sync_run (interpret loads summary m) hs,
          optional-Honors E async_run (interpret loads summary m) ha,
        )
    interpret-Honors (list_matcher ms mode extras) a =
        let (hs, ha) = interpret_all-Honors ms a in
        (
          list_matcher-Honors E sync_run _ mode extras hs,
          list_matcher-Honors E async_run _ mode extras ha,
        )
    interpret-Honors (list_of m) a =
        let (hs, ha) = interpret-Honors m a in
        (
          list_of-Honors E sync_run (interpret loads summary m) hs,
          list_of-Honors E async_run (interpret loads summary m) ha,
        )
    interpret-Honors (object ps extra rules hooks) a =
        let (hs, ha) = interpret_props-Honors ps a.0 in
        (object-Honors E sync_run _ loads _ hs a.1, object-Honors E async_run _ loads _ ha a.1)
    interpret-Honors (transform fn m) a =
        let (hs, ha) = interpret-Honors m a in
        (
          transform-Honors E sync_run fn (interpret loads summary m) hs,
          transform-Honors E async_run fn (interpret loads summary m) ha,
        )
    interpret-Honors (forbidden ms ordered) a =
        let (hs, ha) = interpret_all-Honors ms a in
        (forbidden-Honors E _ ordered hs, forbidden-Honors E _ ordered hs)
    interpret-Honors (custom check async_check) a = a

    interpret_all-Honors : (ms : Matchers) → AllAllowed E ms → AllHonorBoth ms
    interpret_all-Honors nil a = (tt, tt)
    interpret_all-Honors (cons m ms) a =
        let (hs, ha) = interpret-Honors m a.0 in
        let (ks, ka) = interpret_all-Honors ms a.1 in ((hs, ks), (ha, ka))

    interpret_props-Honors : (ps : PropMatchers) → PropsAllowed E ps → PropsHonorBoth ps
    interpret_props-Honors end a = (tt, tt)
    interpret_props-Honors (prop k m ps) a =
        let (hs, ha) = interpret-Honors m a.0 in
        let (ks, ka) = interpret_props-Honors ps a.1 in ((hs, ks), (ha, ka))

-- If a matcher holds no number matcher and no rule that compares by order, and the user-written
-- matchers in it keep the contract without raising, its `check` returns a result on every value
-- and at every path, which has an error exactly when it is no match, and errors only at or below the
-- path.
pub check-IsReport :
    (loads : String → Option Value) (summary : Matcher → Text) (m : Matcher) (v : Value)
    (path : FieldPath)
    → Allowed ⊥ m
    → (r : MatchResult) × ((interpret loads summary m).check v path ≡ returned r) × IsReport path r
check-IsReport loads summary m v path a =
    returned-IsReport path _ ((interpret-Honors ⊥ loads summary m a).0 v path)

-- If a matcher holds no number matcher and no rule that compares by order, and the user-written
-- matchers in it keep the contract without raising, its `async_check` returns a result on every value
-- and at every path, which has an error exactly when it is no match, and errors only at or below the
-- path.
pub async_check-IsReport :
    (loads : String → Option Value) (summary : Matcher → Text) (m : Matcher) (v : Value)
    (path : FieldPath)
    → Allowed ⊥ m
    → (r : MatchResult) × ((interpret loads summary m).async_check v path ≡ returned r)
      × IsReport path r
async_check-IsReport loads summary m v path a =
    returned-IsReport path _ ((interpret-Honors ⊥ loads summary m a).1 v path)

-- A result that either method of any matcher returns has an error exactly when it is no
-- match, and errors only at or below the path, if the user-written matchers in it keep to that.
pub matcher-HonorsBoth :
    (loads : String → Option Value) (summary : Matcher → Text) (m : Matcher)
    → Allowed Unit m
    → HonorsBoth Unit (interpret loads summary m)
matcher-HonorsBoth loads summary m a = interpret-Honors Unit loads summary m a
