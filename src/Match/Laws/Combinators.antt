-- ===== src/Match/Laws/Combinators.antt =====
-- The combinators report as every matcher should, if the matchers that they hold do.
use agent_spec_kit.Common.{
  ◌≡◌, ◌≢◌, ◌⊎◌, refl, inl, inr, Bool, true, false, Option, none, some, List, [], ◌∷◌, ◌++◌, map,
  Bool-cases, String, ltb, All, All-map_of, All-append, if◌then◌else◌,
}
use agent_spec_kit.Common.Outcome.{returned, Ensures, Ensures-bind, Ensures-branch}
use agent_spec_kit.Match.Value.{Value, null, bool}
use agent_spec_kit.Match.Types.{FieldPath, Text, MatchError, MatchResult, failure}
use agent_spec_kit.Match.Protocol.{
  Check, BaseMatcher, path_depth, deepest, pick_representative_error,
}
use agent_spec_kit.Match.Combinators.{
  combinator_failure, one_of_loop, one_of_with, all_of_loop, all_of_result, all_of_with, not_with,
  optional_with, Transformed, gives, throws, rewrapped, transform_outcome, transform_with,
}
use agent_spec_kit.Match.Laws.Report.{
  Extends, Extends-refl, AllBelow, IsReport, IsReport-success, IsReport-failure, Reports, Honors,
  Reports-success, Reports-fails, Reports-if,
}

deepest-All :
    (P : MatchError → Type 0) (best : MatchError) (es : List MatchError)
    → P best
    → All P es
    → P (deepest best es)
unfolding deepest
deepest-All P best [] h hs = h
deepest-All P best (e ∷ es) h hs =
    deepest-All P (if ltb (path_depth best) (path_depth e) then e else best) es
      (pick (ltb (path_depth best) (path_depth e))) hs.1
  where
    pick : (b : Bool) → P (if b then e else best)
    pick true = hs.0
    pick false = h

abbrev pub OptionAll : (MatchError → Type 0) → Option MatchError → Type 0
OptionAll P none = Unit
OptionAll P (some e) = P e

-- The representative error is one of the errors.
pub pick_representative_error-All :
    (P : MatchError → Type 0) (es : List MatchError)
    → All P es
    → OptionAll P (pick_representative_error es)
unfolding pick_representative_error
pick_representative_error-All P [] h = tt
pick_representative_error-All P (e ∷ es) h = deepest-All P e es h.0 h.1

IsReport-combinator :
    (p : FieldPath) (code : String) (summary : Text) (inner : Option MatchError)
    (expected actual : Text) (include : Bool) (extra : List MatchError)
    → OptionAll (λ e. Extends p e.path) inner
    → AllBelow p extra
    → IsReport p (combinator_failure p code summary inner expected actual include extra)
unfolding combinator_failure
IsReport-combinator p code summary none expected actual true extra h hs =
    IsReport-failure p _ _ (Extends-refl p, hs)
IsReport-combinator p code summary none expected actual false extra h hs =
    IsReport-failure p _ _ (Extends-refl p, hs)
IsReport-combinator p code summary (some e) expected actual true extra h hs =
    IsReport-failure p _ _ (Extends-refl p, (h, hs))
IsReport-combinator p code summary (some e) expected actual false extra h hs =
    IsReport-failure p _ _ (Extends-refl p, hs)

-- The errors that a loop gathers.
pub AllBelow-gather :
    (p : FieldPath) (r : MatchResult) (es : List MatchError)
    → AllBelow p r.errors
    → AllBelow p es
    → AllBelow p (if r.ok then es else es ++ r.errors)
AllBelow-gather p r es hr hs = elim (Bool-cases r.ok) [
  | inl y ↦ rw y hs
  | inr n ↦ rw n (All-append (λ (e : MatchError). Extends p e.path) es r.errors hs hr)
]

module _ (E : Type 0) (run : BaseMatcher → Check) where
  abbrev pub AllHonor : List BaseMatcher → Type 0
  AllHonor ms = All (λ m. Honors E (run m)) ms

  one_of_loop-below :
      (ms : List BaseMatcher) (errors : List MatchError) (v : Value) (p : FieldPath)
      → AllHonor ms
      → AllBelow p errors
      → Ensures E (λ (s : Bool × List MatchError). AllBelow p s.1) (one_of_loop run ms errors v p)
  unfolding one_of_loop
  one_of_loop-below [] errors v p h hs = hs
  one_of_loop-below (m ∷ ms) errors v p h hs =
      Ensures-bind E (IsReport p) (λ (s : Bool × List MatchError). AllBelow p s.1) (run m v p) _
        (h.0 v p)
        (λ r report.
          Ensures-branch E (λ (s : Bool × List MatchError). AllBelow p s.1) r.ok _ _ hs
            (one_of_loop-below ms (errors ++ r.errors) v p h.1 (
              All-append (λ (e : MatchError). Extends p e.path) errors r.errors hs report.located)))

  all_of_loop-below :
      (ms : List BaseMatcher) (errors : List MatchError) (v : Value) (p : FieldPath)
      → AllHonor ms
      → AllBelow p errors
      → Ensures E (AllBelow p) (all_of_loop run ms errors v p)
  unfolding all_of_loop
  all_of_loop-below [] errors v p h hs = hs
  all_of_loop-below (m ∷ ms) errors v p h hs =
      Ensures-bind E (IsReport p) (AllBelow p) (run m v p) _ (h.0 v p)
        (λ r report. all_of_loop-below ms _ v p h.1 (AllBelow-gather p r errors report.located hs))

  all_of_result-IsReport :
      (es : List MatchError) (v : Value) (p : FieldPath)
      → AllBelow p es
      → IsReport p (all_of_result run es v p)
  unfolding all_of_result
  all_of_result-IsReport [] v p h = IsReport-success p
  all_of_result-IsReport (e ∷ es) v p h =
      IsReport-combinator p _ _ _ _ _ false (e ∷ es)
        (pick_representative_error-All (λ (e : MatchError). Extends p e.path) (e ∷ es) h) h

  pub all_of-Honors : (ms : List BaseMatcher) → AllHonor ms → Honors E (all_of_with run ms)
  unfolding all_of_with
  all_of-Honors ms h v p =
      Ensures-bind E (AllBelow p) (IsReport p) (all_of_loop run ms [] v p) _
        (all_of_loop-below ms [] v p h tt) (λ es below. all_of_result-IsReport es v p below)

  pub one_of-Honors : (ms : List BaseMatcher) → AllHonor ms → Honors E (one_of_with run ms)
  unfolding one_of_with
  one_of-Honors ms h v p =
      Ensures-bind E (λ (s : Bool × List MatchError). AllBelow p s.1) (IsReport p)
        (one_of_loop run ms [] v p) _ (one_of_loop-below ms [] v p h tt)
        (λ s below. Reports-if E p s.0 _ _ (Reports-success E p) (
          IsReport-combinator p _ _ _ _ _ true []
            (pick_representative_error-All (λ (e : MatchError). Extends p e.path) s.1 below) tt))

  pub not-Honors : (m : BaseMatcher) → Honors E (run m) → Honors E (not_with run m)
  unfolding not_with
  not-Honors m h v p = Ensures-bind E (IsReport p) (IsReport p) (run m v p) _ (h v p) (λ r report.
      Reports-if E p r.ok _ _ (IsReport-combinator p _ _ none _ _ false [] tt tt)
        (Reports-success E p))

  pub optional-Honors : (m : BaseMatcher) → Honors E (run m) → Honors E (optional_with run m)
  unfolding optional_with
  optional-Honors m h null p = Reports-success E p
  optional-Honors m h (bool _) p = h _ p
  optional-Honors m h _ p = h _ p

  All-rewrapped :
      (p : FieldPath) (es : List MatchError) → AllBelow p es → AllBelow p (map rewrapped es)
  All-rewrapped p es h = All-map_of (λ (e : MatchError). Extends p e.path) rewrapped es h

  rewrapped-IsReport :
      (p : FieldPath) (r : MatchResult)
      → IsReport p r
      → r.ok ≡ false
      → IsReport p (failure (map rewrapped r.errors))
  rewrapped-IsReport p r report bad = nonempty r.errors (report.vocal bad) report.located
    where
      nonempty :
          (es : List MatchError) → es ≢ [] → AllBelow p es → IsReport p (failure (map rewrapped es))
      nonempty [] some_ h = absurd (some_ refl)
      nonempty (e ∷ es) some_ h = IsReport-failure p _ _ (All-rewrapped p (e ∷ es) h)

  transform_outcome-Reports :
      (m : BaseMatcher) (p : FieldPath) (v : Value) (r : Transformed)
      → Honors E (run m)
      → Reports E p (transform_outcome run m v p r)
  unfolding transform_outcome
  transform_outcome-Reports m p v (throws e) h = Reports-fails E p _ _ _ _
  transform_outcome-Reports m p v (gives w) h =
      Ensures-bind E (IsReport p) (IsReport p) (run m w p) _ (h w p)
        (λ r report. by_verdict r report (Bool-cases r.ok))
    where
      by_verdict :
          (r : MatchResult)
          → IsReport p r
          → (r.ok ≡ true) ⊎ (r.ok ≡ false)
          → Reports E p (if r.ok then returned r else returned (failure (map rewrapped r.errors)))
      by_verdict r report (inl y) = simp y report
      by_verdict r report (inr n) = simp n (rewrapped-IsReport p r report n)

  pub transform-Honors :
      (fn : Value → Transformed) (m : BaseMatcher)
      → Honors E (run m)
      → Honors E (transform_with run fn m)
  unfolding transform_with
  transform-Honors fn m h v p = transform_outcome-Reports m p v (fn v) h
