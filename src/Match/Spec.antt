-- ===== src/Match/Spec.antt =====
-- match/protocol.py: `coerce_any`; the factories of match/lists.py, match/object.py and
-- match/forbidden.py that coerce what they are given; and match/api.py.
use agent_spec_kit.Common.{String, Bool, false, Option, none, some, List, []}
use agent_spec_kit.Common.Outcome.{type_error, Outcome, returned, raised, ◌>>=◌}
use agent_spec_kit.Match.Value.{Value, str, Fields}
use agent_spec_kit.Match.Types.{Text, MatchResult}
use agent_spec_kit.Match.Scalars.{Verdict, Predicate, Pattern}
use agent_spec_kit.Match.Lists.Class.{ordered}
use agent_spec_kit.Match.Rules.{Rule}
use agent_spec_kit.Match.Object.{ExtraPolicy, forbid, ignore}
use agent_spec_kit.Match.Matcher.{
  Matcher, equality, predicate, regex, list_matcher, object, forbidden, Matchers, nil, cons,
  PropMatchers, end, prop, interpret,
}

-- What a user may write for a matcher: a matcher; a str, an int, a float, a bool or None; a mapping;
-- a list or a tuple; a compiled pattern; a function, lambda, method or partial; or a value of
-- another type.
mutual
  pub data Spec : Type 0 where
    matcher : Matcher → Spec
    literal : Value → Spec
    mapping : SpecFields → Spec
    sequence : Specs → Spec
    pattern : Pattern → Spec
    callable : Predicate → Spec
    unsupported : (type : String) → Spec

  pub data Specs : Type 0 where
    no_specs : Specs
    and_spec : Spec → Specs → Specs

  pub data SpecFields : Type 0 where
    no_fields : SpecFields
    spec_field : String → Spec → SpecFields → SpecFields

unfoldable mutual
  pub coerce_any : Spec → Outcome Matcher
  coerce_any (matcher m) = returned m
  coerce_any (mapping fields) = do
    props ← coerce_fields fields
    returned (object props forbid [] [])
  coerce_any (sequence specs) = do
    elements ← coerce_each specs
    returned (list_matcher elements ordered false)
  coerce_any (literal v) = returned (equality v)
  coerce_any (pattern p) = returned (regex p)
  coerce_any (callable fn) = returned (predicate fn none)
  coerce_any (unsupported type) = raised type_error

  pub coerce_each : Specs → Outcome Matchers
  coerce_each no_specs = returned nil
  coerce_each (and_spec spec specs) = do
    m ← coerce_any spec
    ms ← coerce_each specs
    returned (cons m ms)

  pub coerce_fields : SpecFields → Outcome PropMatchers
  coerce_fields no_fields = returned end
  coerce_fields (spec_field k spec fields) = do
    m ← coerce_any spec
    ms ← coerce_fields fields
    returned (prop k m ms)

unfoldable pub object_matcher :
    SpecFields → ExtraPolicy → List Rule → List ((Fields → Verdict) × String) → Outcome Matcher
unfolding coerce_fields
object_matcher fields extra rules hooks = do
  props ← coerce_fields fields
  returned (object props extra rules hooks)

-- `list(spec) if isinstance(spec, (list, tuple)) else [spec]`
abbrev pub spec_elements : Spec → Specs
spec_elements (sequence specs) = specs
spec_elements spec = and_spec spec no_specs

unfoldable pub forbidden_tool_calls_matcher : Spec → (in_order : Bool) → Outcome Matcher
unfolding coerce_each
forbidden_tool_calls_matcher spec in_order = do
  elements ← coerce_each (spec_elements spec)
  returned (forbidden elements in_order)

-- The specs of `args` and `metadata` of a tool call.
unfoldable pub coerce_tool_call_object_field : Spec → Outcome Matcher
unfolding object_matcher coerce_any
coerce_tool_call_object_field (mapping fields) = object_matcher fields ignore [] []
coerce_tool_call_object_field spec = coerce_any spec

-- A keyword argument of `tool_call`, in front of those behind it.
unfoldable pub with_field :
    String → (Spec → Outcome Matcher) → Option Spec → Outcome PropMatchers → Outcome PropMatchers
with_field k coerce none rest = rest
with_field k coerce (some spec) rest = do m ← coerce spec; ms ← rest; returned (prop k m ms)

unfoldable pub tool_call :
    String → (args result error metadata children : Option Spec) → Outcome Matcher
unfolding with_field coerce_tool_call_object_field coerce_any
tool_call name args result error metadata children = do
  fields ← with_field "args" coerce_tool_call_object_field args (
      with_field "result" coerce_any result (
        with_field "error" coerce_any error (
          with_field "metadata" coerce_tool_call_object_field metadata
            (with_field "children" coerce_any children (returned end)))))
  returned (object (prop "name" (equality (str name)) fields) ignore [] [])

-- `check` and `async_check`, with the one value that they are to be given.
module _ (loads : String → Option Value) (summary : Matcher → Text) where
  unfoldable pub match_check : Spec → Value → Outcome MatchResult
  unfolding coerce_any interpret
  match_check spec v = do m ← coerce_any spec; (interpret loads summary m).check v []

  unfoldable pub match_async_check : Spec → Value → Outcome MatchResult
  unfolding coerce_any interpret
  match_async_check spec v = do m ← coerce_any spec; (interpret loads summary m).async_check v []
