-- ===== src/Match/Laws/OrderedReport.antt =====
-- The ordered list matchers report as every matcher should, if their elements do.
use agent_spec_kit.Common.{
  ℕ, suc, ◌≡◌, inl, inr, Option, none, some, List, [], ◌∷◌, ◌++◌, arith, Bool-cases, Option-cases,
  eq_of_test, All-append, length, ◌==◌,
}
use agent_spec_kit.Common.Outcome.{returned, Ensures, Ensures-bind, Ensures-branch}
use agent_spec_kit.Match.Value.{Value, list, to_list}
use agent_spec_kit.Match.Types.{FieldPath, index, MatchError, MatchResult, success, failure}
use agent_spec_kit.Match.Protocol.{Check, BaseMatcher, pick_representative_error}
use agent_spec_kit.Match.Lists.Payload.{at_index, with_inner_error}
use agent_spec_kit.Match.Lists.Reports.{
  Scan, empty_scan, note, ScanTexts, scan_error, scan_result, length_error, missing_error,
}
use agent_spec_kit.Match.Lists.Ordered.{
  Sought, placed, missing, exact_loop, ordered_exact_with, seek, subsequence_loop,
  ordered_subsequence_with, list_of_loop, list_of_with,
}
use agent_spec_kit.Match.Laws.Report.{
  Extends, Extends-refl, Extends-child, AllBelow, AllBelow-parent, IsReport, IsReport-success,
  IsReport-failure, Reports, Honors, Reports-fails,
}
use agent_spec_kit.Match.Laws.Combinators.{OptionAll, pick_representative_error-All, AllHonor}

note-below :
    (p : FieldPath) (i : ℕ) (r : MatchResult) (s : Scan)
    → AllBelow p r.errors
    → AllBelow p s.errors
    → AllBelow p (note i r s).errors
unfolding note
note-below p i r s hr hs = elim (Bool-cases r.ok) [
  | inl y ↦ simp y hs
  | inr n ↦ simp n (All-append (λ (e : MatchError). Extends p e.path) s.errors r.errors hs hr)
]

scan_path-Extends :
    (t : ScanTexts) (actual : List Value) (p : FieldPath) (s : Scan)
    → Extends p (scan_error t actual p s).path
unfolding scan_error
scan_path-Extends t actual p s = elim (Option-cases s.first_failed) [
  | inl n ↦ simp n (Extends-refl p)
  | inr (f, e) ↦ simp e (Extends-child p (index f.0))
]

IsReport-scan :
    (t : ScanTexts) (actual : List Value) (p : FieldPath) (s : Scan)
    → AllBelow p s.errors
    → IsReport p (scan_result t actual p s)
unfolding scan_result
IsReport-scan t actual p s h = split s.errors h
  where
    split :
        (es : List MatchError)
        → AllBelow p es
        → IsReport p
            (elim es [ [] ↦ success | e ∷ es ↦ failure (scan_error t actual p s ∷ e ∷ es) ])
    split [] h = IsReport-success p
    split (e ∷ es) h = IsReport-failure p _ _ (scan_path-Extends t actual p s, h)

pub IsReport-inner :
    (p : FieldPath) (outer : MatchError) (inner : Option MatchError)
    → Extends p outer.path
    → OptionAll (λ (e : MatchError). Extends p e.path) inner
    → IsReport p (with_inner_error outer inner)
IsReport-inner p outer none h hi = IsReport-failure p outer [] (h, tt)
IsReport-inner p outer (some e) h hi =
    unfold failure in IsReport-failure p outer (e ∷ []) (h, (hi, tt))

module _ (E : Type 0) (run : BaseMatcher → Check) (p : FieldPath) where
  abbrev ScanBelow : Scan → Type 0
  ScanBelow s = AllBelow p s.errors

  exact_loop-below :
      (ms : List BaseMatcher) (vs : List Value) (i : ℕ) (s : Scan)
      → AllHonor E run ms
      → length vs ≡ length ms
      → ScanBelow s
      → Ensures E ScanBelow (exact_loop run ms vs i p s)
  unfolding exact_loop
  exact_loop-below [] [] i s h same hs = hs
  exact_loop-below [] (v ∷ vs) i s h same hs = absurd (omega arith)
  exact_loop-below (m ∷ ms) [] i s h same hs = absurd (omega arith)
  exact_loop-below (m ∷ ms) (v ∷ vs) i s h same hs =
      Ensures-bind E (IsReport (at_index p i)) ScanBelow (run m v (at_index p i)) _
        (h.0 v (at_index p i))
        (λ r report.
          exact_loop-below ms vs (suc i) (note i r s) h.1 (omega arith)
            (note-below p i r s (AllBelow-parent p (index i) r.errors report.located) hs))

  pub ordered_exact-Reports :
      (ms : List BaseMatcher) (vs : List Value)
      → AllHonor E run ms
      → Reports E p (ordered_exact_with run ms vs p)
  unfolding ordered_exact_with
  ordered_exact-Reports ms vs h = elim (Bool-cases (length vs == length ms)) [
    | inl same ↦ rw same (
        Ensures-bind E ScanBelow (IsReport p) (exact_loop run ms vs 0 p empty_scan) _
          (exact_loop-below ms vs 0 empty_scan h (eq_of_test _ _ same) (unfold empty_scan in tt))
          (λ s below. IsReport-scan _ vs p s below))
    | inr differ ↦ rw differ (IsReport-failure p _ [] (unfold length_error in Extends-refl p, tt))
  ]

  list_of_loop-below :
      (m : BaseMatcher) (vs : List Value) (i : ℕ) (s : Scan)
      → Honors E (run m)
      → ScanBelow s
      → Ensures E ScanBelow (list_of_loop run m vs i p s)
  unfolding list_of_loop
  list_of_loop-below m [] i s h hs = hs
  list_of_loop-below m (v ∷ vs) i s h hs =
      Ensures-bind E (IsReport (at_index p i)) ScanBelow (run m v (at_index p i)) _
        (h v (at_index p i))
        (λ r report.
          list_of_loop-below m vs (suc i) (note i r s) h
            (note-below p i r s (AllBelow-parent p (index i) r.errors report.located) hs))

  abbrev SoughtBelow : Sought → Type 0
  SoughtBelow (placed rest after) = Unit
  SoughtBelow (missing errors) = AllBelow p errors

  seek-below :
      (m : BaseMatcher) (vs : List Value) (ai : ℕ) (errors : List MatchError)
      → Honors E (run m)
      → AllBelow p errors
      → Ensures E SoughtBelow (seek run m vs ai p errors)
  unfolding seek
  seek-below m [] ai errors h hs = hs
  seek-below m (v ∷ vs) ai errors h hs =
      Ensures-bind E (IsReport (at_index p ai)) SoughtBelow (run m v (at_index p ai)) _
        (h v (at_index p ai))
        (λ r report. Ensures-branch E SoughtBelow r.ok _ _ tt (
          seek-below m vs (suc ai) (errors ++ r.errors) h (
            All-append (λ (e : MatchError). Extends p e.path) errors r.errors hs
              (AllBelow-parent p (index ai) r.errors report.located))))

  subsequence_loop-Reports :
      (ms : List BaseMatcher) (actual rest : List Value) (i ai : ℕ)
      → AllHonor E run ms
      → Reports E p (subsequence_loop run ms actual rest i ai p)
  unfolding subsequence_loop
  subsequence_loop-Reports [] actual rest i ai h = IsReport-success p
  subsequence_loop-Reports (m ∷ ms) actual rest i ai h =
      Ensures-bind E SoughtBelow (IsReport p) (seek run m rest ai p []) _
        (seek-below m rest ai [] h.0 tt)
        (λ s below.
          conclude s below
            (λ rest' after. subsequence_loop-Reports ms actual rest' (suc i) after h.1))
    where
      conclude :
          (s : Sought)
          → SoughtBelow s
          → ((rest' : List Value) (after : ℕ)
              → Reports E p (subsequence_loop run ms actual rest' (suc i) after p))
          → Reports E p (elim s [
            | placed rest' after ↦ subsequence_loop run ms actual rest' (suc i) after p
            | missing errors ↦
                let inner = pick_representative_error errors in
                returned (with_inner_error (missing_error actual p i ai (length rest) inner) inner)
          ])
      conclude (placed rest' after) below later = later rest' after
      conclude (missing errors) below later =
          IsReport-inner p _ (pick_representative_error errors)
            (unfold missing_error in Extends-child p (index i))
            (pick_representative_error-All (λ (e : MatchError). Extends p e.path) errors below)

  pub ordered_subsequence-Reports :
      (ms : List BaseMatcher) (actual : List Value)
      → AllHonor E run ms
      → Reports E p (ordered_subsequence_with run ms actual p)
  unfolding ordered_subsequence_with
  ordered_subsequence-Reports ms actual h = subsequence_loop-Reports ms actual actual 0 0 h

module _ (E : Type 0) (run : BaseMatcher → Check) where
  pub list_of-Honors : (m : BaseMatcher) → Honors E (run m) → Honors E (list_of_with run m)
  unfolding list_of_with
  list_of-Honors m h (list vs) p =
      Ensures-bind E (λ (s : Scan). AllBelow p s.errors) (IsReport p)
        (list_of_loop run m (to_list vs) 0 p empty_scan) _
        (list_of_loop-below E run p m (to_list vs) 0 empty_scan h (unfold empty_scan in tt))
        (λ s below. IsReport-scan _ (to_list vs) p s below)
  list_of-Honors m h _ p = Reports-fails E p _ _ _ _
