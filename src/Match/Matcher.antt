-- ===== src/Match/Matcher.antt =====
-- The matcher classes as one data type, and what each of them does. `custom` is a user's subclass of
-- `BaseMatcher`, by its two methods; the judge-based class is one of these.
use agent_spec_kit.Common.{
  String, Bool, true, Option, none, some, List, [], ◌∷◌, str_eq, if◌then◌else◌,
}
use agent_spec_kit.Match.Value.{Value, str}
use agent_spec_kit.Match.Types.{Text}
use agent_spec_kit.Match.Protocol.{Check, BaseMatcher, sync_matcher, async_matcher}
use agent_spec_kit.Match.Scalars.{
  Verdict, Predicate, Pattern, StringSpec, NumberSpec, equality_check, predicate_check,
  any_value_check, string_check, number_check, regex_check,
}
use agent_spec_kit.Match.Combinators.{
  Transformed, one_of_with, all_of_with, not_with, optional_with, transform_with, sync_run,
  async_run,
}
use agent_spec_kit.Match.Lists.Ordered.{list_of_with}
use agent_spec_kit.Match.Lists.Class.{Mode, list_matcher_with}
use agent_spec_kit.Match.Value.{Fields}
use agent_spec_kit.Match.Rules.{Rule}
use agent_spec_kit.Match.Object.{ExtraPolicy, ObjectSpec, Props, object_with}
use agent_spec_kit.Match.Forbidden.{forbidden_check}

mutual
  pub data Matcher : Type 0 where
    equality : Value → Matcher
    predicate : Predicate → Option String → Matcher
    any_value : Matcher
    string : StringSpec → Matcher
    number : NumberSpec → Matcher
    regex : Pattern → Matcher
    one_of : Matchers → Matcher
    all_of : Matchers → Matcher
    negation : Matcher → Matcher
    optional : Matcher → Matcher
    list_matcher : Matchers → Mode → (allow_extras : Bool) → Matcher
    list_of : Matcher → Matcher
    object : PropMatchers → ExtraPolicy → List Rule → List ((Fields → Verdict) × String) → Matcher
    transform : (Value → Transformed) → Matcher → Matcher
    forbidden : Matchers → (ordered : Bool) → Matcher
    custom : (check async_check : Check) → Matcher

  pub data Matchers : Type 0 where
    nil : Matchers
    cons : Matcher → Matchers → Matchers

  pub data PropMatchers : Type 0 where
    end : PropMatchers
    prop : String → Matcher → PropMatchers → PropMatchers

string_of : Option Value → Option String
string_of (some (str s)) = some s
string_of v = none

-- The string that the property "name" is held to, if it is held to one.
unfoldable pub literal_name_of : Props → Option String
unfolding string_of
literal_name_of [] = none
literal_name_of ((k, m) ∷ ps) = if str_eq k "name" then string_of m.equals else literal_name_of ps

unfoldable pub equality_base : Text → Value → BaseMatcher
unfolding sync_matcher
equality_base summary v = record (sync_matcher summary (equality_check v)) { equals = some v }

unfoldable pub optional_base : Text → BaseMatcher → BaseMatcher
unfolding async_matcher
optional_base summary inner =
    record (async_matcher summary (optional_with sync_run inner) (optional_with async_run inner)) {
      is_optional = true;
    }

unfoldable pub object_base : (loads : String → Option Value) → Text → ObjectSpec → BaseMatcher
unfolding async_matcher literal_name_of
object_base loads summary spec =
    record (async_matcher summary (object_with sync_run "…" loads spec)
      (object_with async_run "..." loads spec)) { literal_name = literal_name_of spec.props }

-- `loads` is `json.loads`, and `summary` is `matcher_summary`, which only texts of errors show.
module _ (loads : String → Option Value) (summary : Matcher → Text) where
  unfoldable mutual
    unfolding sync_matcher async_matcher equality_base optional_base object_base

    pub interpret : Matcher → BaseMatcher
    interpret (equality v) = equality_base (summary (equality v)) v
    interpret (predicate fn message) =
        sync_matcher (summary (predicate fn message)) (predicate_check fn message)
    interpret any_value = sync_matcher (summary any_value) any_value_check
    interpret (string spec) = sync_matcher (summary (string spec)) (string_check spec)
    interpret (number spec) = sync_matcher (summary (number spec)) (number_check spec)
    interpret (regex p) = sync_matcher (summary (regex p)) (regex_check p)
    interpret (one_of ms) =
        async_matcher (summary (one_of ms)) (one_of_with sync_run (interpret_all ms))
          (one_of_with async_run (interpret_all ms))
    interpret (all_of ms) =
        async_matcher (summary (all_of ms)) (all_of_with sync_run (interpret_all ms))
          (all_of_with async_run (interpret_all ms))
    interpret (negation m) =
        async_matcher (summary (negation m)) (not_with sync_run (interpret m))
          (not_with async_run (interpret m))
    interpret (optional m) = optional_base (summary (optional m)) (interpret m)
    interpret (list_matcher ms mode extras) =
        async_matcher (summary (list_matcher ms mode extras))
          (list_matcher_with sync_run (interpret_all ms) mode extras)
          (list_matcher_with async_run (interpret_all ms) mode extras)
    interpret (list_of m) =
        async_matcher (summary (list_of m)) (list_of_with sync_run (interpret m))
          (list_of_with async_run (interpret m))
    interpret (object ps extra rules hooks) =
        object_base loads (summary (object ps extra rules hooks))
          (record { props = interpret_props ps; extra = extra; rules = rules; where_hooks = hooks })
    interpret (transform fn m) =
        async_matcher (summary (transform fn m)) (transform_with sync_run fn (interpret m))
          (transform_with async_run fn (interpret m))
    interpret (forbidden ms ordered) =
        sync_matcher (summary (forbidden ms ordered)) (forbidden_check (interpret_all ms) ordered)
    interpret (custom check async_check) =
        async_matcher (summary (custom check async_check)) check async_check

    pub interpret_all : Matchers → List BaseMatcher
    interpret_all nil = []
    interpret_all (cons m ms) = interpret m ∷ interpret_all ms

    pub interpret_props : PropMatchers → Props
    interpret_props end = []
    interpret_props (prop k m ps) = (k, interpret m) ∷ interpret_props ps
