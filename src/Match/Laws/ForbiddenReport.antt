-- ===== src/Match/Laws/ForbiddenReport.antt =====
-- The matcher of forbidden calls reports as every matcher should.
use agent_spec_kit.Common.{
  ℕ, suc, Bool, not, Option, none, some, List, [], ◌∷◌, ◌++◌, length, ◌==◌, ◌||◌,
}
use agent_spec_kit.Common.Outcome.{returned, Ensures, Ensures-bind, Ensures-branch}
use agent_spec_kit.Match.Value.{Value, list, to_list}
use agent_spec_kit.Match.Types.{FieldPath, index, MatchError, failure}
use agent_spec_kit.Match.Protocol.{BaseMatcher}
use agent_spec_kit.Match.Combinators.{sync_run}
use agent_spec_kit.Match.Lists.Payload.{at_index}
use agent_spec_kit.Match.Forbidden.{
  sequence_result, forbidden_call_error, first_forbidden, match_any_forbidden, forbidden_loop,
  forbidden_sequence_error, match_forbidden_subsequence, forbidden_check,
}
use agent_spec_kit.Match.Laws.Report.{
  Extends, Extends-child, IsReport, IsReport-success, IsReport-failure, Reports, Honors,
  Reports-fails, Reports-if,
}
use agent_spec_kit.Match.Laws.Combinators.{OptionAll, AllHonor}

module _ (E : Type 0) where
  first_forbidden-below :
      (ms : List BaseMatcher) (i : ℕ) (tool : Value) (idx : ℕ) (p : FieldPath)
      → AllHonor E sync_run ms
      → Ensures E
          (OptionAll (λ (e : MatchError). Extends p e.path))
          (first_forbidden ms i tool idx p)
  unfolding first_forbidden
  first_forbidden-below [] i tool idx p h = tt
  first_forbidden-below (m ∷ ms) i tool idx p h =
      Ensures-bind E (IsReport (at_index p idx)) (OptionAll (λ (e : MatchError). Extends p e.path))
        (m.check tool (at_index p idx)) _ (h.0 tool (at_index p idx))
        (λ r report.
          Ensures-branch E (OptionAll (λ (e : MatchError). Extends p e.path)) r.ok _ _
            (unfold forbidden_call_error in Extends-child p (index idx))
            (first_forbidden-below ms (suc i) tool idx p h.1))

  match_any_forbidden-Reports :
      (ms : List BaseMatcher) (tools : List Value) (idx : ℕ) (p : FieldPath)
      → AllHonor E sync_run ms
      → Reports E p (match_any_forbidden ms tools idx p)
  unfolding match_any_forbidden
  match_any_forbidden-Reports ms [] idx p h = IsReport-success p
  match_any_forbidden-Reports ms (tool ∷ tools) idx p h =
      Ensures-bind E (OptionAll (λ (e : MatchError). Extends p e.path)) (IsReport p)
        (first_forbidden ms 0 tool idx p) _ (first_forbidden-below ms 0 tool idx p h)
        (λ o below. conclude o below (match_any_forbidden-Reports ms tools (suc idx) p h))
    where
      conclude :
          (o : Option MatchError)
          → OptionAll (λ (e : MatchError). Extends p e.path) o
          → Reports E p (match_any_forbidden ms tools (suc idx) p)
          → Reports E p (elim o [
            | some e ↦ returned (failure (e ∷ []))
            | none ↦ match_any_forbidden ms tools (suc idx) p
          ])
      conclude none below later = later
      conclude (some e) below later = IsReport-failure p e [] (below, tt)

  abbrev AnyState : List BaseMatcher × List (ℕ × Value) → Type 0
  AnyState s = Unit {0}

  forbidden_loop-calm :
      (ms : List BaseMatcher) (tools : List Value) (idx : ℕ) (p : FieldPath)
      (matched : List (ℕ × Value))
      → AllHonor E sync_run ms
      → Ensures E AnyState (forbidden_loop ms tools idx p matched)
  unfolding forbidden_loop
  forbidden_loop-calm [] tools idx p matched h = tt
  forbidden_loop-calm (m ∷ ms) [] idx p matched h = tt
  forbidden_loop-calm (m ∷ ms) (tool ∷ tools) idx p matched h =
      Ensures-bind E (IsReport (at_index p idx)) AnyState (m.check tool (at_index p idx)) _
        (h.0 tool (at_index p idx))
        (λ r report.
          Ensures-branch E AnyState r.ok _ _
            (forbidden_loop-calm ms tools (suc idx) p (matched ++ (idx, tool) ∷ []) h.1)
            (forbidden_loop-calm (m ∷ ms) tools (suc idx) p matched h))

  match_forbidden_subsequence-Reports :
      (ms : List BaseMatcher) (tools : List Value) (p : FieldPath)
      → AllHonor E sync_run ms
      → Reports E p (match_forbidden_subsequence ms tools p)
  unfolding match_forbidden_subsequence
  match_forbidden_subsequence-Reports ms tools p h =
      Ensures-bind E AnyState (IsReport p) (forbidden_loop ms tools 0 p []) _
        (forbidden_loop-calm ms tools 0 p [] h) (λ s _. conclude s.0 s.1)
    where
      conclude :
          (left : List BaseMatcher) (matched : List (ℕ × Value))
          → IsReport p (sequence_result p (left, matched))
      conclude [] matched =
          IsReport-failure p _ [] (unfold forbidden_sequence_error in Extends-child p _, tt)
      conclude (m ∷ ms) matched = IsReport-success p

  pub forbidden-Honors :
      (ms : List BaseMatcher) (ordered : Bool)
      → AllHonor E sync_run ms
      → Honors E (forbidden_check ms ordered)
  unfolding forbidden_check
  forbidden-Honors [] ordered h (list vs) p = IsReport-success p
  forbidden-Honors (m ∷ ms) ordered h (list vs) p =
      Reports-if E p (length (m ∷ ms) == 1 || not ordered) _ _
        (match_any_forbidden-Reports (m ∷ ms) (to_list vs) 0 p h)
        (match_forbidden_subsequence-Reports (m ∷ ms) (to_list vs) p h)
  forbidden-Honors ms ordered h _ p = Reports-fails E p _ _ _ _
