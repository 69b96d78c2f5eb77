-- ===== src/Match/Types.antt =====
-- match/types.py: paths, errors and results. An f-string is kept as the list of its parts.
use agent_spec_kit.Common.{
  ℕ, String, Bool, true, false, ◌&&◌, Option, List, [], ◌∷◌, ◌++◌, if◌then◌else◌,
}
use agent_spec_kit.Match.Value.{Value}

pub data PathPart : Type 0 where
  key : String → PathPart
  index : ℕ → PathPart

abbrev pub FieldPath : Type 0
FieldPath = List PathPart

-- A part of an f-string: a literal, a number, a list of numbers, or a value rendered by `str`, by
-- `repr`, by `repr` after `str`, or by `_short_repr` with its `max_len`. `tool_names` is the list of
-- the names of tool calls.
pub data Fragment : Type 0 where
  lit : String → Fragment
  num : ℕ → Fragment
  str_of : Value → Fragment
  repr_of : Value → Fragment
  short_repr : Value → ℕ → Fragment
  repr_of_str : Value → Fragment
  numbers : List ℕ → Fragment
  tool_names : List Value → Fragment

abbrev pub Text : Type 0
Text = List Fragment

abbrev pub text : String → Text
text s = lit s ∷ []

-- `_short_repr(value)` with the default bound.
abbrev pub shown : Value → Text
shown v = short_repr v 200 ∷ []

-- A witness before `json.dumps`.
mutual
  pub data Json : Type 0 where
    absent : Json
    number : ℕ → Json
    flag : Bool → Json
    written : Text → Json
    value : Value → Json
    items : Jsons → Json
    entries : Entries → Json

  pub data Jsons : Type 0 where
    done : Jsons
    item : Json → Jsons → Jsons

  pub data Entries : Type 0 where
    stop : Entries
    entry : String → Json → Entries → Entries

pub record MatchError : Type 0 where
  pub path : FieldPath
  pub code : String
  pub message : Text
  pub expected : Text
  pub actual : Text
  pub witness_json : Option Json

pub record MatchResult : Type 0 where
  pub ok : Bool
  pub errors : List MatchError

unfoldable pub success : MatchResult
success = record { ok = true; errors = [] }

unfoldable pub failure : List MatchError → MatchResult
failure es = record { ok = false; errors = es }

unfoldable pub merge : MatchResult → MatchResult → MatchResult
unfolding success
merge r s = if r.ok && s.ok then success else record {
  ok = false;
  errors = (if r.ok then [] else r.errors) ++ (if s.ok then [] else s.errors);
}

path_parts : FieldPath → Text
path_parts [] = []
path_parts (index i ∷ p) = lit "[" ∷ num i ∷ lit "]" ∷ path_parts p
path_parts (key k ∷ p) = lit "." ∷ lit k ∷ path_parts p

unfoldable pub path_to_str : FieldPath → Text
unfolding path_parts
path_to_str p = lit "$" ∷ path_parts p
