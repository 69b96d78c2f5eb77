-- ===== src/Params/Cases.antt =====
-- param_cases.py: the cases of a parameter. `V` is the type of their values.
use Prim.Native.Char.{code}
use Prim.Native.String.{String, [] as empty, ◌∷◌ as ◌&◌}
use agent_spec_kit.Common.{
  Bool, true, false, Option, none, List, [], ◌∷◌, map, str_eq, if◌then◌else◌, ◌==◌, ◌||◌,
}
use agent_spec_kit.Common.Outcome.{value_error, Outcome, returned, raised, ◌>>=◌}
use agent_spec_kit.Match.Value.{Fields, end}
use agent_spec_kit.Match.Mapping.{strip}

pub record Case (V : Type 0) : Type 0 where
  pub value : V
  pub id : String
  pub name : Option String
  pub meta : Fields

-- What `normalize_case` is given: a case; an object with an attribute `id`, with what `str` makes of
-- it and its other attributes; or any other value, with what `str` makes of it.
pub data CaseSource (V : Type 0) : Type 0 where
  made : Case V → CaseSource V
  identified : V → (id : String) → (name : Option String) → (meta : Fields) → CaseSource V
  plain : V → (shown : String) → CaseSource V

-- `replace(" ", "_")` and `replace("/", "_")`, at once.
underscored : String → String
underscored empty = ""
underscored (c & s) =
    let rest = underscored s in if code c == 32 || code c == 47 then "_" & rest else c & rest

unfoldable pub infer_case_id : String → String
unfolding strip underscored
infer_case_id shown = let s = underscored (strip shown) in if str_eq s "" then "case" else s

unfoldable pub normalize_case : {V : Type 0} → CaseSource V → Case V
unfolding infer_case_id
normalize_case (made c) = c
normalize_case (identified v i n m) = record { value = v; id = i; name = n; meta = m }
normalize_case (plain v shown) = record {
  value = v;
  id = infer_case_id shown;
  name = none;
  meta = end;
}

unfoldable pub is_seen : String → List String → Bool
is_seen s [] = false
is_seen s (t ∷ ts) = if str_eq t s then true else is_seen s ts

-- The loop over the cases, with the ids `seen` before.
unfoldable pub check_ids : {V : Type 0} → List (Case V) → List String → Outcome Bool
unfolding is_seen
check_ids [] seen = returned true
check_ids (c ∷ cs) seen =
    let rest = check_ids cs (c.id ∷ seen) in if is_seen c.id seen then raised value_error else rest

unfoldable pub normalize_cases : {V : Type 0} → List (CaseSource V) → Outcome (List (Case V))
unfolding normalize_case check_ids
normalize_cases values = do
  let out = map normalize_case values
  checked ← check_ids out []
  returned out
