-- ===== src/Match/Object.antt =====
-- match/object.py: `ObjectMatcher`.
use agent_spec_kit.Common.{
  String, Bool, true, false, Option, none, some, List, [], ◌∷◌, ◌++◌, str_eq, if◌then◌else◌,
}
use agent_spec_kit.Common.Outcome.{Outcome, returned, ◌>>=◌}
use agent_spec_kit.Match.Value.{Value, str, dict, Fields, end, field, get, type_name}
use agent_spec_kit.Match.Types.{
  FieldPath, key, lit, repr_of, text, shown, MatchError, MatchResult, success, failure,
}
use agent_spec_kit.Match.Protocol.{Check, BaseMatcher}
use agent_spec_kit.Match.Scalars.{Verdict, truthy, falsy, raises, plain_error, fails}
use agent_spec_kit.Match.Rules.{Rule, require_rule, forbid_rule, evaluate, describe}
use agent_spec_kit.Match.Mapping.{actual_as_mapping}

pub data ExtraPolicy : Type 0 where
  forbid ignore : ExtraPolicy

abbrev pub Props : Type 0
Props = List (String × BaseMatcher)

pub record ObjectSpec : Type 0 where
  pub props : Props
  pub extra : ExtraPolicy
  pub rules : List Rule
  pub where_hooks : List ((Fields → Verdict) × String)

abbrev pub at_key : FieldPath → String → FieldPath
at_key path k = path ++ key k ∷ []

unfoldable pub has_key : String → Fields → Bool
unfolding get
has_key k obj = elim (get k obj) [ none ↦ false | some v ↦ true ]

unfoldable pub is_declared : String → Props → Bool
is_declared k [] = false
is_declared k ((j, m) ∷ ps) = if str_eq j k then true else is_declared k ps

unfoldable pub missing_key : FieldPath → String → MatchError
missing_key path k =
    plain_error (at_key path k) "missing_key" (lit "missing required key " ∷ repr_of (str k) ∷ [])
      (lit "key " ∷ repr_of (str k) ∷ []) (text "(absent)")

unfoldable pub extra_key : FieldPath → String → Value → MatchError
extra_key path k v =
    plain_error (at_key path k) "extra_key" (lit "unexpected key " ∷ repr_of (str k) ∷ [])
      (text "no extra keys") (shown v)

unfoldable pub extra_errors : Props → Fields → FieldPath → List MatchError
unfolding extra_key
extra_errors props end path = []
extra_errors props (field k v fs) path =
    let rest = extra_errors props fs path in
    if is_declared k props then rest else extra_key path k v ∷ rest

unfoldable pub policy_errors : ExtraPolicy → Props → Fields → FieldPath → List MatchError
unfolding extra_errors
policy_errors forbid props obj path = extra_errors props obj path
policy_errors ignore props obj path = []

-- The error of one rule, whose condition holds.
unfoldable pub rule_errors : Rule → Fields → FieldPath → List MatchError
rule_errors (require_rule name c) obj path = elim (get name obj) [
  | some v ↦ []
  | none ↦
      plain_error (at_key path name) "conditional_rule" (describe (require_rule name c))
        (lit "key " ∷ repr_of (str name) ∷ lit " present" ∷ []) (text "(absent)")
      ∷ []
]
rule_errors (forbid_rule name c) obj path = elim (get name obj) [
  | none ↦ []
  | some v ↦
      plain_error (at_key path name) "conditional_rule" (describe (forbid_rule name c))
        (lit "key " ∷ repr_of (str name) ∷ lit " absent" ∷ []) (shown v)
      ∷ []
]

abbrev pub condition_of : Rule → Fields → Outcome Bool
condition_of (require_rule name c) obj = evaluate c obj
condition_of (forbid_rule name c) obj = evaluate c obj

unfoldable pub rules_loop :
    List Rule → Fields → FieldPath → List MatchError → Outcome (List MatchError)
unfolding rule_errors
rules_loop [] obj path errors = returned errors
rules_loop (r ∷ rs) obj path errors = do
  applies ← condition_of r obj
  rules_loop rs obj path (if applies then errors ++ rule_errors r obj path else errors)

unfoldable pub hook_outcome : String → Fields → FieldPath → Verdict → List MatchError
hook_outcome msg obj path (raises e) =
    plain_error path "where" (lit "where predicate raised: " ∷ lit e ∷ []) (text msg)
      (shown (dict obj))
    ∷ []
hook_outcome msg obj path truthy = []
hook_outcome msg obj path falsy =
    plain_error path "where" (text msg) (text msg) (shown (dict obj)) ∷ []

unfoldable pub hook_errors :
    List ((Fields → Verdict) × String) → Fields → FieldPath → List MatchError
unfolding hook_outcome
hook_errors [] obj path = []
hook_errors ((fn, msg) ∷ hs) obj path =
    hook_outcome msg obj path (fn obj) ++ hook_errors hs obj path

-- `if errors: return MatchResult(ok=False, errors=errors)`, else go on.
abbrev pub unless_errors : List MatchError → Outcome MatchResult → Outcome MatchResult
unless_errors [] rest = rest
unless_errors (e ∷ es) rest = returned (failure (e ∷ es))

module _ (run : BaseMatcher → Check) where
  unfoldable pub props_loop :
      Props → Fields → FieldPath → List MatchError → Outcome (List MatchError)
  unfolding missing_key
  props_loop [] obj path errors = returned errors
  props_loop ((k, m) ∷ ps) obj path errors = elim (get k obj) [
    | none ↦
        props_loop ps obj path (if m.is_optional then errors else errors ++ missing_key path k ∷ [])
    | some v ↦ do
      r ← run m v (at_key path k)
      props_loop ps obj path (if r.ok then errors else errors ++ r.errors)
  ]

  unfoldable pub fields_with : ObjectSpec → Fields → FieldPath → Outcome MatchResult
  unfolding props_loop policy_errors rules_loop hook_errors
  fields_with spec obj path = do
    errors ← props_loop spec.props obj path []
    unless_errors (errors ++ policy_errors spec.extra spec.props obj path) (do
      broken ← rules_loop spec.rules obj path []
      unless_errors broken
          (unless_errors (hook_errors spec.where_hooks obj path) (returned success)))

  -- The two versions differ in one character of a message, `ellipsis`.
  unfoldable pub object_with :
      (ellipsis : String) (loads : String → Option Value) → ObjectSpec → Check
  unfolding fields_with
  object_with ellipsis loads spec actual path = elim (actual_as_mapping loads actual) [
    | some obj ↦ fields_with spec obj path
    | none ↦
        fails path "object"
          (lit
              "expected a dict or mapping-like object (dict, dataclass, pydantic BaseModel, Mapping, "
            ∷ lit ellipsis
            ∷ lit ")"
            ∷ [])
          (text "dict-like") (text (type_name actual))
  ]
