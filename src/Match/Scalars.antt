-- ===== src/Match/Scalars.antt =====
-- match/scalars.py: equality, predicates, strings, numbers and regular expressions.
use Prim.Native.String.{count}
use agent_spec_kit.Common.{
  String, Bool, false, Option, none, some, [], ◌∷◌, not, str_eq, if◌then◌else◌,
}
use agent_spec_kit.Common.Int.{ℤ, pos, ltb_ℤ}
use agent_spec_kit.Common.Outcome.{type_error, Outcome, returned, raised, ◌>>=◌}
use agent_spec_kit.Match.Value.{Float, Value, null, bool, int, float, str, type_name}
use agent_spec_kit.Match.Numbers.{float_lt, int_to_float}
use agent_spec_kit.Match.Compare.{py_eq}
use agent_spec_kit.Match.Types.{
  FieldPath, lit, num, str_of, repr_of, Text, text, shown, MatchError, MatchResult, success,
  failure,
}
use agent_spec_kit.Match.Protocol.{Check}

abbrev pub plain_error : FieldPath → String → Text → Text → Text → MatchError
plain_error path code message expected actual = record {
  path = path;
  code = code;
  message = message;
  expected = expected;
  actual = actual;
  witness_json = none;
}

-- One error without a witness.
abbrev pub fails : FieldPath → String → Text → Text → Text → Outcome MatchResult
fails path code message expected actual =
    returned (failure (plain_error path code message expected actual ∷ []))

unfoldable pub equality_check : Value → Check
equality_check expected actual path =
    if py_eq actual expected
    then returned success
    else fails path "equality" (text "value does not equal expected") (shown expected)
        (shown actual)

-- A user's predicate: the truth value that it returns, or the text of the exception that it raises.
pub data Verdict : Type 0 where
  truthy falsy : Verdict
  raises : String → Verdict

abbrev pub Predicate : Type 0
Predicate = Value → Verdict

-- `self.message or default`: an empty message counts as none.
or_default : Option String → String → String
or_default none d = d
or_default (some m) d = if str_eq m "" then d else m

unfoldable pub predicate_outcome : Option String → Value → FieldPath → Verdict → Outcome MatchResult
unfolding or_default
predicate_outcome message actual path (raises e) =
    fails path "predicate" (lit "predicate raised: " ∷ lit e ∷ [])
      (text (or_default message "predicate must return truthy")) (shown actual)
predicate_outcome message actual path truthy = returned success
predicate_outcome message actual path falsy =
    let msg = or_default message "predicate failed" in
    fails path "predicate" (text msg) (text msg) (shown actual)

unfoldable pub predicate_check : Predicate → Option String → Check
unfolding predicate_outcome
predicate_check fn message actual path = predicate_outcome message actual path (fn actual)

unfoldable pub any_value_check : Check
any_value_check actual path = returned success

-- `re.Pattern`: its source, and whether a string matches it as a whole.
pub record Pattern : Type 0 where
  pub source : String
  pub fullmatch : String → Bool

pub record StringSpec : Type 0 where
  pub min_len : Option ℤ
  pub max_len : Option ℤ
  pub pattern : Option Pattern

-- `bound is not None and test(bound)`
abbrev pub given : {A : Type 0} → Option A → (A → Bool) → Bool
given none test = false
given (some a) test = test a

abbrev int_or_none : Option ℤ → Value
int_or_none none = null
int_or_none (some n) = int n

abbrev source_or_empty : Option Pattern → Text
source_or_empty none = []
source_or_empty (some p) = text p.source

unfoldable pub string_check : StringSpec → Check
string_check spec (str s) path =
    let size = pos (count s) in
    let too_short = given spec.min_len (λ m. ltb_ℤ size m) in
    let too_long = given spec.max_len (λ m. ltb_ℤ m size) in
    if too_short
    then fails path "string"
        (lit "string shorter than min_len=" ∷ str_of (int_or_none spec.min_len) ∷ [])
        (lit "len >= " ∷ str_of (int_or_none spec.min_len) ∷ []) (num (count s) ∷ [])
    else if too_long
    then fails path "string"
        (lit "string longer than max_len=" ∷ str_of (int_or_none spec.max_len) ∷ [])
        (lit "len <= " ∷ str_of (int_or_none spec.max_len) ∷ []) (num (count s) ∷ [])
    else if given spec.pattern (λ p. not (p.fullmatch s))
    then fails path "string" (text "string does not fully match pattern")
        (source_or_empty spec.pattern) (shown (str s))
    else returned success
string_check spec actual path =
    fails path "string" (text "expected a string") (text "str") (text (type_name actual))

-- `min` and `max` are ints or floats.
pub record NumberSpec : Type 0 where
  pub min : Option Value
  pub max : Option Value
  pub int_only : Bool

-- `float(v)` of a number.
unfoldable pub to_float : Value → Outcome Float
unfolding int_to_float
to_float (bool b) = int_to_float (pos (if b then 1 else 0))
to_float (int n) = int_to_float n
to_float (float x) = returned x
to_float _ = raised type_error

-- `bound is not None and test(float(bound))`
unfoldable pub outside : Option Value → (Float → Bool) → Outcome Bool
unfolding to_float
outside none test = returned false
outside (some b) test = do x ← to_float b; returned (test x)

abbrev value_or_none : Option Value → Value
value_or_none none = null
value_or_none (some v) = v

unfoldable pub number_bounds : NumberSpec → Check
unfolding outside
number_bounds spec actual path = do
  n ← to_float actual
  below ← outside spec.min (λ m. float_lt n m)
  if below
      then fails path "number" (lit "value below min=" ∷ str_of (value_or_none spec.min) ∷ [])
          (lit ">= " ∷ str_of (value_or_none spec.min) ∷ []) (shown actual)
      else (do
        above ← outside spec.max (λ m. float_lt m n)
        if above
            then fails path "number" (lit "value above max=" ∷ str_of (value_or_none spec.max) ∷ [])
                (lit "<= " ∷ str_of (value_or_none spec.max) ∷ []) (shown actual)
            else returned success)

unfoldable pub number_check : NumberSpec → Check
unfolding number_bounds
number_check spec (bool b) path =
    fails path "number" (text "expected a number, not bool") (text "int | float") (text "bool")
number_check spec (int n) path = number_bounds spec (int n) path
number_check spec (float x) path =
    if spec.int_only
    then fails path "number" (text "expected an int") (text "int") (text "float")
    else number_bounds spec (float x) path
number_check spec actual path =
    if spec.int_only
    then fails path "number" (text "expected an int") (text "int") (text (type_name actual))
    else fails path "number" (text "expected a number") (text "int | float")
        (text (type_name actual))

unfoldable pub regex_check : Pattern → Check
regex_check p (str s) path =
    if p.fullmatch s
    then returned success
    else fails path "regex" (text "string does not fully match pattern") (text p.source)
        (shown (str s))
regex_check p actual path =
    fails path "regex" (text "expected a string for regex match")
      (lit "str matching " ∷ repr_of (str p.source) ∷ []) (text (type_name actual))
