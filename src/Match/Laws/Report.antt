-- ===== src/Match/Laws/Report.antt =====
-- What a result says: an error exactly when there is no match, and each error at or below the path
-- that was checked.
use agent_spec_kit.Common.{
  ◌≡◌, refl, sym, ◌∙◌, ◌≢◌, Bool, true, false, List, [], ◌∷◌, ◌++◌, append-nil, append_assoc, All,
  All-map, if◌then◌else◌, String,
}
use agent_spec_kit.Common.Outcome.{Outcome, returned, Ensures}
use agent_spec_kit.Match.Value.{Value}
use agent_spec_kit.Match.Types.{
  PathPart, FieldPath, Text, MatchError, MatchResult, success, failure,
}
use agent_spec_kit.Match.Protocol.{Check}
use agent_spec_kit.Match.Scalars.{plain_error, fails}

-- `q` is `p` or a path below it.
abbrev pub Extends : FieldPath → FieldPath → Type 0
Extends p q = (rest : FieldPath) × (q ≡ p ++ rest)

pub Extends-refl : (p : FieldPath) → Extends p p
Extends-refl p = ([], sym (append-nil p))

pub Extends-child : (p : FieldPath) (part : PathPart) → Extends p (p ++ part ∷ [])
Extends-child p part = (part ∷ [], refl)

pub Extends-parent :
    (p : FieldPath) (part : PathPart) (q : FieldPath) → Extends (p ++ part ∷ []) q → Extends p q
Extends-parent p part q (rest, e) = (part ∷ rest, e ∙ append_assoc p (part ∷ []) rest)

abbrev pub AllBelow : FieldPath → List MatchError → Type 0
AllBelow p es = All (λ e. Extends p e.path) es

pub AllBelow-parent :
    (p : FieldPath) (part : PathPart) (es : List MatchError)
    → AllBelow (p ++ part ∷ []) es
    → AllBelow p es
AllBelow-parent p part es h =
    All-map (λ (e : MatchError). Extends (p ++ part ∷ []) e.path)
      (λ (e : MatchError). Extends p e.path) (λ e b. Extends-parent p part e.path b) es h

pub record IsReport (p : FieldPath) (r : MatchResult) : Type 0 where
  pub silent : r.ok ≡ true → r.errors ≡ []
  pub vocal : r.ok ≡ false → r.errors ≢ []
  pub located : AllBelow p r.errors

pub IsReport-success : (p : FieldPath) → IsReport p success
unfolding success
IsReport-success p = record { silent = λ _. refl; vocal = λ e. cc; located = tt }

pub IsReport-failure :
    (p : FieldPath) (e : MatchError) (es : List MatchError)
    → AllBelow p (e ∷ es)
    → IsReport p (failure (e ∷ es))
unfolding failure
IsReport-failure p e es h = record { silent = λ y. cc; vocal = λ n none_. cc; located = h }

-- `E` is what an exception that leaves the check calls for.
abbrev pub Reports : Type 0 → FieldPath → Outcome MatchResult → Type 0
Reports E p o = Ensures E (IsReport p) o

abbrev pub Honors : Type 0 → Check → Type 0
Honors E check = (v : Value) (p : FieldPath) → Reports E p (check v p)

pub Reports-success : (E : Type 0) (p : FieldPath) → Reports E p (returned success)
Reports-success E p = IsReport-success p

pub Reports-fails :
    (E : Type 0) (p : FieldPath) (code : String) (message expected actual : Text)
    → Reports E p (fails p code message expected actual)
Reports-fails E p code message expected actual =
    IsReport-failure p (plain_error p code message expected actual) [] (Extends-refl p, tt)

pub Reports-if :
    (E : Type 0) (p : FieldPath) (b : Bool) (x y : Outcome MatchResult)
    → Reports E p x
    → Reports E p y
    → Reports E p (if b then x else y)
Reports-if E p true x y hx hy = hx
Reports-if E p false x y hx hy = hy

pub ruleset report_rules = (Reports-success, Reports-fails, Reports-if)
