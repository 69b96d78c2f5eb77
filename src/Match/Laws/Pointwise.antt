-- ===== src/Match/Laws/Pointwise.antt =====
-- The verdicts of `ordered_exact` and `list_of`, which look at every position.
use agent_spec_kit.Common.{
  ℕ, suc, ◌≡◌, refl, ◌↔◌, inl, inr, true, List, [], ◌∷◌, arith, Bool-cases, List-cases, eq_of_test,
  ne_of_test, length, ◌==◌,
}
use agent_spec_kit.Common.Outcome.{Outcome, returned}
use agent_spec_kit.Match.Value.{Value, Values, list, to_list}
use agent_spec_kit.Match.Types.{FieldPath, MatchResult, success, failure}
use agent_spec_kit.Match.Protocol.{Check, BaseMatcher}
use agent_spec_kit.Match.Lists.Payload.{at_index}
use agent_spec_kit.Match.Lists.Reports.{
  Scan, ScanTexts, empty_scan, note, scan_result, exact_texts, list_of_texts,
}
use agent_spec_kit.Match.Lists.Ordered.{exact_loop, ordered_exact_with, list_of_loop, list_of_with}
use agent_spec_kit.Match.Laws.Assignment.{accepted}
use agent_spec_kit.Match.Laws.Verdicts.{Answers}
use agent_spec_kit.Match.Laws.Report.{IsReport, Honors}
use agent_spec_kit.Match.Laws.Combinators.{AllHonor}
use agent_spec_kit.Match.Laws.Gathering.{
  returned-IsReport, append-nonempty, accepted-returned, refuses,
}

note_iff :
    (p : FieldPath) (i : ℕ) (r : MatchResult) (s : Scan)
    → IsReport p r
    → ((note i r s).errors ≡ []) ↔ ((s.errors ≡ []) × (r.ok ≡ true))
unfolding note
note_iff p i r s report = elim (Bool-cases r.ok) [
  | inl y ↦ rw (y, note) (λ e. (e, refl), λ h. h.0)
  | inr n ↦
      rw (n, note) (λ e. absurd (append-nonempty s.errors r.errors (report.vocal n) e), λ h. cc)
]

scan_result_iff :
    (t : ScanTexts) (actual : List Value) (path : FieldPath) (s : Scan)
    → ((scan_result t actual path s).ok ≡ true) ↔ (s.errors ≡ [])
unfolding scan_result
scan_result_iff t actual path s = elim (List-cases s.errors) [
  | inl none_ ↦ rw (none_, scan_result) (λ _. refl, λ _. unfold success in refl)
  | inr (e, es, some_) ↦ rw (some_, scan_result) (λ good. unfold failure in cc, λ h. cc)
]

abbrev Scans : Outcome Scan → Type 0 → Type 0
Scans o P = (s : Scan) × (o ≡ returned s) × ((s.errors ≡ []) ↔ P)

module _ (run : BaseMatcher → Check) (path : FieldPath) where
  -- Each element matches the item at its own position.
  abbrev pub Pairwise : List BaseMatcher → List Value → ℕ → Type 0
  Pairwise (m ∷ ms) (v ∷ vs) i =
      (accepted (run m v (at_index path i)) ≡ true) × Pairwise ms vs (suc i)
  Pairwise ms vs i = Unit

  -- One element matches every item.
  abbrev pub Everywhere : BaseMatcher → List Value → ℕ → Type 0
  Everywhere m [] i = Unit
  Everywhere m (v ∷ vs) i = (accepted (run m v (at_index path i)) ≡ true) × Everywhere m vs (suc i)

  list_of_loop_iff :
      (m : BaseMatcher) (vs : List Value) (i : ℕ) (s : Scan)
      → Honors ⊥ (run m)
      → Scans (list_of_loop run m vs i path s) ((s.errors ≡ []) × Everywhere m vs i)
  unfolding list_of_loop
  list_of_loop_iff m [] i s h = (s, refl, (λ e. (e, tt), λ e. e.0))
  list_of_loop_iff m (v ∷ vs) i s h =
      let (r, e, report) =
        returned-IsReport (at_index path i) (run m v (at_index path i)) (h v (at_index path i)) in
      let (s', e', iff) = list_of_loop_iff m vs (suc i) (note i r s) h in
      let noted = note_iff (at_index path i) i r s report in
      let same = accepted-returned (run m v (at_index path i)) r e in
      (
        s',
        rw (e, list_of_loop) e',
        (
          λ done.
              let both = iff.0 done in let old = noted.0 both.0 in (old.0, (same.1 old.1, both.1)),
          λ both. iff.1 (noted.1 (both.0, same.0 both.1.0), both.1.1),
        ),
      )

  exact_loop_iff :
      (ms : List BaseMatcher) (vs : List Value) (i : ℕ) (s : Scan)
      → AllHonor ⊥ run ms
      → length vs ≡ length ms
      → Scans (exact_loop run ms vs i path s) ((s.errors ≡ []) × Pairwise ms vs i)
  unfolding exact_loop
  exact_loop_iff [] [] i s h same = (s, refl, (λ e. (e, tt), λ e. e.0))
  exact_loop_iff [] (v ∷ vs) i s h same = absurd (omega arith)
  exact_loop_iff (m ∷ ms) [] i s h same = absurd (omega arith)
  exact_loop_iff (m ∷ ms) (v ∷ vs) i s h sizes =
      let (r, e, report) =
        returned-IsReport (at_index path i) (run m v (at_index path i)) (h.0 v (at_index path i)) in
      let (s', e', iff) = exact_loop_iff ms vs (suc i) (note i r s) h.1 (omega arith) in
      let noted = note_iff (at_index path i) i r s report in
      let same = accepted-returned (run m v (at_index path i)) r e in
      (
        s',
        rw (e, exact_loop) e',
        (
          λ done.
              let both = iff.0 done in let old = noted.0 both.0 in (old.0, (same.1 old.1, both.1)),
          λ both. iff.1 (noted.1 (both.0, same.0 both.1.0), both.1.1),
        ),
      )

  -- If the elements keep the contract without raising, `mode="ordered"` without extras
  -- returns a result, which is a success exactly when there are as many items as elements and each
  -- element matches the item at its own position.
  pub ordered_exact_iff :
      (elements : List BaseMatcher) (actual : List Value)
      → AllHonor ⊥ run elements
      → Answers
          (ordered_exact_with run elements actual path)
          ((length actual ≡ length elements) × Pairwise elements actual 0)
  unfolding ordered_exact_with empty_scan
  ordered_exact_iff elements actual h = elim (Bool-cases (length actual == length elements)) [
    | inr differ ↦ rw differ (refuses _ _ _ refl (λ both. ne_of_test _ _ differ both.0))
    | inl same ↦
        let sizes = eq_of_test (length actual) (length elements) same in
        let (s, e, iff) = exact_loop_iff elements actual 0 empty_scan h sizes in
        let ok = scan_result_iff exact_texts actual path s in
        (
          scan_result exact_texts actual path s,
          rw (same, e) refl,
          (λ good. (sizes, (iff.0 (ok.0 good)).1), λ both. ok.1 (iff.1 (refl, both.1))),
        )
  ]

  -- If the inner matcher keeps the contract without raising, `list_of` returns a result
  -- on a list, which is a success exactly when the inner matcher matches every item.
  pub list_of_iff :
      (inner : BaseMatcher) (vs : Values)
      → Honors ⊥ (run inner)
      → Answers (list_of_with run inner (list vs) path) (Everywhere inner (to_list vs) 0)
  unfolding list_of_with empty_scan
  list_of_iff inner vs h =
      let (s, e, iff) = list_of_loop_iff inner (to_list vs) 0 empty_scan h in
      let ok = scan_result_iff list_of_texts (to_list vs) path s in
      (
        scan_result list_of_texts (to_list vs) path s,
        rw e refl,
        (λ good. (iff.0 (ok.0 good)).1, λ every. ok.1 (iff.1 (refl, every))),
      )
