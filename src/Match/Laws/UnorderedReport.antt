-- ===== src/Match/Laws/UnorderedReport.antt =====
-- The unordered list matchers, and `ListMatcher`, report as every matcher should.
use agent_spec_kit.Common.{
  ℕ, suc, ◌<◌, ◌≡◌, inl, inr, Bool, true, false, Option, none, some, List, [], ◌∷◌, ◌++◌,
  Bool-cases, eq_of_test, All, All-map, All-append, if◌then◌else◌, length, ◌==◌, String, ltb, leb,
  replicate,
}
use agent_spec_kit.Common.Outcome.{Outcome, returned, Ensures, Ensures-bind, Ensures-branch}
use agent_spec_kit.Match.Value.{Value, list, to_list}
use agent_spec_kit.Match.Types.{FieldPath, index, Entries, MatchError, success}
use agent_spec_kit.Match.Protocol.{Check, BaseMatcher, path_depth, pick_representative_error}
use agent_spec_kit.Match.Lists.Payload.{at_index, not_list_error}
use agent_spec_kit.Match.Lists.Unordered.{
  ComparisonFailure, inner_of, better, best_of, pick_representative_comparison, unordered_failure,
  permutation_failure, injective_failure,
}
use agent_spec_kit.Match.Lists.Permutations.{permutations, positions}
use agent_spec_kit.Match.Lists.Search.{
  Progress, is_used, mark, log_failure, failed_comparison, try_permutation, permutation_loop,
  multiset_by_permutation_with, try_items, dfs, unordered_injective_dfs_with,
}
use agent_spec_kit.Match.Lists.Class.{
  Mode, ordered, unordered, unordered_length_error, too_short_error, unordered_exact_with,
  unordered_extras_with, list_items_with, list_matcher_with,
}
use agent_spec_kit.Match.Laws.Report.{
  Extends, Extends-refl, AllBelow, AllBelow-parent, IsReport, IsReport-success, IsReport-failure,
  Reports, Honors, Reports-success, Reports-fails, Reports-if,
}
use agent_spec_kit.Match.Laws.Combinators.{OptionAll, pick_representative_error-All, AllHonor}
use agent_spec_kit.Match.Laws.Exhaustive.{get_elem?-some, IsCandidate, candidates}
use agent_spec_kit.Match.Laws.OrderedReport.{
  IsReport-inner, ordered_exact-Reports, ordered_subsequence-Reports,
}

-- The errors of the failed comparisons.
abbrev FailuresBelow : FieldPath → List ComparisonFailure → Type 0
FailuresBelow p fs = All (λ (f : ComparisonFailure). AllBelow p f.errors) fs

abbrev BestBelow : FieldPath → Option (ComparisonFailure × MatchError) → Type 0
BestBelow p none = Unit
BestBelow p (some (f, e)) = Extends p e.path

better-below :
    (p : FieldPath) (best : Option (ComparisonFailure × MatchError)) (f : ComparisonFailure)
    (o : Option MatchError)
    → BestBelow p best
    → OptionAll (λ (e : MatchError). Extends p e.path) o
    → BestBelow p (better best f o)
unfolding better
better-below p best f none h ho = h
better-below p none f (some e) h ho = ho
better-below p (some (g, d)) f (some e) h ho = pick (ltb (path_depth d) (path_depth e))
  where
    pick : (b : Bool) → BestBelow p (if b then some (f, e) else some (g, d))
    pick true = ho
    pick false = h

best_of-below :
    (p : FieldPath) (best : Option (ComparisonFailure × MatchError)) (fs : List ComparisonFailure)
    → BestBelow p best
    → FailuresBelow p fs
    → BestBelow p (best_of best fs)
unfolding best_of
best_of-below p best [] h hs = h
best_of-below p best (f ∷ fs) h hs =
    best_of-below p (better best f (pick_representative_error f.errors)) fs
      (better-below p best f (pick_representative_error f.errors) h
        (pick_representative_error-All (λ (e : MatchError). Extends p e.path) f.errors hs.0))
      hs.1

IsReport-unordered :
    (message expected : String) (head : Entries → Entries) (actual : List Value) (p : FieldPath)
    (fs : List ComparisonFailure)
    → FailuresBelow p fs
    → IsReport p (unordered_failure message expected head actual p fs)
unfolding unordered_failure pick_representative_comparison
IsReport-unordered message expected head actual p fs h =
    IsReport-inner p _ _ (Extends-refl p)
      (inner_below (best_of none fs) (best_of-below p none fs tt h))
  where
    inner_below :
        (best : Option (ComparisonFailure × MatchError))
        → BestBelow p best
        → OptionAll (λ (e : MatchError). Extends p e.path) (inner_of best)
    inner_below none h = tt
    inner_below (some (f, e)) h = h

module _ (E : Type 0) (run : BaseMatcher → Check) (actual : List Value) (p : FieldPath) where
  abbrev TriedBelow : Option ComparisonFailure → Type 0
  TriedBelow none = Unit
  TriedBelow (some f) = AllBelow p f.errors

  try_permutation-below :
      (ms : List BaseMatcher) (js : List ℕ) (i : ℕ)
      → AllHonor E run ms
      → All (λ j. j < length actual) js
      → Ensures E TriedBelow (try_permutation run actual p ms js i)
  unfolding try_permutation
  try_permutation-below [] js i h within = tt
  try_permutation-below (m ∷ ms) [] i h within = tt
  try_permutation-below (m ∷ ms) (j ∷ js) i h within =
      let (v, at) = get_elem?-some actual j within.0 in
      rw (at, try_permutation)
        (Ensures-bind E (IsReport (at_index p j)) TriedBelow (run m v (at_index p j)) _
          (h.0 v (at_index p j))
          (λ r report.
            Ensures-branch E TriedBelow r.ok _ _ (try_permutation-below ms js (suc i) h.1 within.1)
              (AllBelow-parent p (index j) r.errors report.located)))

  permutation_loop-Reports :
      (ms : List BaseMatcher) (ps : List (List ℕ)) (fs : List ComparisonFailure)
      → AllHonor E run ms
      → All (λ js. All (λ j. j < length actual) js) ps
      → FailuresBelow p fs
      → Reports E p (permutation_loop run actual p ms ps fs)
  unfolding permutation_loop
  permutation_loop-Reports ms [] fs h within hs =
      unfold permutation_failure in IsReport-unordered _ _ _ actual p fs hs
  permutation_loop-Reports ms (js ∷ ps) fs h within hs =
      Ensures-bind E TriedBelow (IsReport p) (try_permutation run actual p ms js 0) _
        (try_permutation-below ms js 0 h within.0)
        (λ o below. conclude o below (λ f new.
          permutation_loop-Reports ms ps (fs ++ f ∷ []) h within.1
            (All-append (λ (f : ComparisonFailure). AllBelow p f.errors) fs (f ∷ []) hs (new, tt))))
    where
      conclude :
          (o : Option ComparisonFailure)
          → TriedBelow o
          → ((f : ComparisonFailure)
              → AllBelow p f.errors
              → Reports E p (permutation_loop run actual p ms ps (fs ++ f ∷ [])))
          → Reports E p (elim o [
            | none ↦ returned success
            | some f ↦ permutation_loop run actual p ms ps (fs ++ f ∷ [])
          ])
      conclude none below later = IsReport-success p
      conclude (some f) below later = later f below

  multiset_by_permutation-Reports :
      (ms : List BaseMatcher)
      → AllHonor E run ms
      → length actual ≡ length ms
      → Reports E p (multiset_by_permutation_with run actual p ms)
  unfolding multiset_by_permutation_with
  multiset_by_permutation-Reports ms h same =
      let ps = permutations (length ms) (positions 0 (length ms)) in
      permutation_loop-Reports ms ps [] h
        (All-map (IsCandidate run actual p ms) (λ js. All (λ j. j < length actual) js) (λ js c. c.0)
          ps (candidates run actual p ms same))
        tt

  abbrev ProgressBelow : Bool × Progress → Type 0
  ProgressBelow s = FailuresBelow p s.1.failures

  abbrev Keeps : (Progress → Outcome (Bool × Progress)) → Type 0
  Keeps f = (s : Progress) → FailuresBelow p s.failures → Ensures E ProgressBelow (f s)

  try_items-Keeps :
      (m : BaseMatcher) (i : ℕ) (deeper : Progress → Outcome (Bool × Progress)) (vs : List Value)
      (j : ℕ)
      → Honors E (run m)
      → Keeps deeper
      → Keeps (try_items run actual p m i deeper vs j)
  unfolding try_items
  try_items-Keeps m i deeper [] j h hd s hs = hs
  try_items-Keeps m i deeper (v ∷ vs) j h hd s hs =
      let later = try_items-Keeps m i deeper vs (suc j) h hd in
      Ensures-branch E ProgressBelow (is_used s.used j) _ _ (later s hs) (
        Ensures-bind E (IsReport (at_index p j)) ProgressBelow (run m v (at_index p j)) _
          (h v (at_index p j))
          (λ r report.
            Ensures-branch E ProgressBelow r.ok _ _
              (Ensures-bind E ProgressBelow ProgressBelow (deeper (mark j true s)) _
                (hd (mark j true s) hs)
                (λ s' below.
                  Ensures-branch E ProgressBelow s'.0 _ _ below (later (mark j false s'.1) below)))
              (later (log_failure (failed_comparison i j r) s) (
                All-append (λ (f : ComparisonFailure). AllBelow p f.errors) s.failures _ hs
                  (AllBelow-parent p (index j) r.errors report.located, tt)))))

  dfs-Keeps : (ms : List BaseMatcher) (i : ℕ) → AllHonor E run ms → Keeps (dfs run actual p ms i)
  unfolding dfs
  dfs-Keeps [] i h s hs = hs
  dfs-Keeps (m ∷ ms) i h s hs =
      try_items-Keeps m i (dfs run actual p ms (suc i)) actual 0 h.0 (dfs-Keeps ms (suc i) h.1) s hs

  unordered_injective_dfs-Reports :
      (extras : Bool) (ms : List BaseMatcher)
      → AllHonor E run ms
      → Reports E p (unordered_injective_dfs_with run actual p extras ms)
  unfolding unordered_injective_dfs_with
  unordered_injective_dfs-Reports extras ms h =
      let start : Progress = record { used = replicate (length actual) false; failures = [] } in
      Ensures-bind E ProgressBelow (IsReport p) (dfs run actual p ms 0 start) _
        (dfs-Keeps ms 0 h start tt)
        (λ s below.
          Ensures-branch E (IsReport p) s.0 _ _ (IsReport-success p)
            (unfold injective_failure in IsReport-unordered _ _ _ actual p s.1.failures below))

  unordered_exact-Reports :
      (ms : List BaseMatcher)
      → AllHonor E run ms
      → Reports E p (unordered_exact_with run ms actual p)
  unfolding unordered_exact_with
  unordered_exact-Reports ms h = elim (Bool-cases (length actual == length ms)) [
    | inr differ ↦
        rw differ (IsReport-failure p _ [] (unfold unordered_length_error in Extends-refl p, tt))
    | inl same ↦ rw same (
        Reports-if E p (length ms == 0) _ _ (Reports-success E p) (
          Reports-if E p (leb (length ms) 9) _ _
            (multiset_by_permutation-Reports ms h (eq_of_test _ _ same))
            (unordered_injective_dfs-Reports false ms h)))
  ]

  unordered_extras-Reports :
      (ms : List BaseMatcher)
      → AllHonor E run ms
      → Reports E p (unordered_extras_with run ms actual p)
  unfolding unordered_extras_with
  unordered_extras-Reports ms h =
      Reports-if E p (ltb (length actual) (length ms)) _ _
        (IsReport-failure p _ [] (unfold too_short_error in Extends-refl p, tt))
        (Reports-if E p (length ms == 0) _ _ (Reports-success E p)
          (unordered_injective_dfs-Reports true ms h))

  list_items-Reports :
      (ms : List BaseMatcher) (mode : Mode) (extras : Bool)
      → AllHonor E run ms
      → Reports E p (list_items_with run ms mode extras actual p)
  unfolding list_items_with
  list_items-Reports ms ordered false h = ordered_exact-Reports E run p ms actual h
  list_items-Reports ms ordered true h = ordered_subsequence-Reports E run p ms actual h
  list_items-Reports ms unordered false h = unordered_exact-Reports ms h
  list_items-Reports ms unordered true h = unordered_extras-Reports ms h

module _ (E : Type 0) (run : BaseMatcher → Check) where
  pub list_matcher-Honors :
      (ms : List BaseMatcher) (mode : Mode) (extras : Bool)
      → AllHonor E run ms
      → Honors E (list_matcher_with run ms mode extras)
  unfolding list_matcher_with not_list_error
  list_matcher-Honors ms mode extras h (list vs) p =
      list_items-Reports E run (to_list vs) p ms mode extras h
  list_matcher-Honors ms mode extras h _ p = Reports-fails E p _ _ _ _
