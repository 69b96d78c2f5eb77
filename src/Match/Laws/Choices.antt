-- ===== src/Match/Laws/Choices.antt =====
-- The verdicts of `all_of`, `one_of` and `not_`.
use agent_spec_kit.Common.{
  ◌≡◌, refl, ap, ◌↔◌, inl, inr, Bool, true, false, List, [], ◌∷◌, ◌++◌, Bool-cases, All, Any,
  if◌then◌else◌,
}
use agent_spec_kit.Common.Outcome.{returned}
use agent_spec_kit.Match.Value.{Value}
use agent_spec_kit.Match.Types.{FieldPath, MatchError, success, failure}
use agent_spec_kit.Match.Protocol.{Check, BaseMatcher}
use agent_spec_kit.Match.Combinators.{
  combinator_failure, one_of_loop, one_of_with, all_of_loop, all_of_result, all_of_with, not_with,
}
use agent_spec_kit.Match.Laws.Assignment.{accepted, Returns}
use agent_spec_kit.Match.Laws.Verdicts.{Answers}
use agent_spec_kit.Match.Laws.Combinators.{AllHonor}
use agent_spec_kit.Match.Laws.Gathering.{
  returned-IsReport, gathered_iff, accepted-returned, refuses, accepts, Gathers,
}

module _ (run : BaseMatcher → Check) (v : Value) (path : FieldPath) where
  abbrev pub Accepts : BaseMatcher → Type 0
  Accepts m = accepted (run m v path) ≡ true

  all_of_loop_iff :
      (ms : List BaseMatcher) (es : List MatchError)
      → AllHonor ⊥ run ms
      → Gathers (all_of_loop run ms es v path) ((es ≡ []) × All Accepts ms)
  unfolding all_of_loop
  all_of_loop_iff [] es h = (es, refl, (λ e. (e, tt), λ e. e.0))
  all_of_loop_iff (m ∷ ms) es h =
      let (r, e, report) = returned-IsReport path (run m v path) (h.0 v path) in
      let (es', e', iff) = all_of_loop_iff ms (if r.ok then es else es ++ r.errors) h.1 in
      let more = gathered_iff path r es report in
      let same = accepted-returned (run m v path) r e in
      (
        es',
        rw (e, all_of_loop) e',
        (
          λ done.
              let both = iff.0 done in let old = more.0 both.0 in (old.0, (same.1 old.1, both.1)),
          λ both. iff.1 (more.1 (both.0, same.0 both.1.0), both.1.1),
        ),
      )

  all_of_result_iff : (es : List MatchError) → ((all_of_result run es v path).ok ≡ true) ↔ (es ≡ [])
  unfolding all_of_result combinator_failure
  all_of_result_iff [] = (λ _. refl, λ _. unfold success in refl)
  all_of_result_iff (e ∷ es) = (λ good. unfold failure in cc, λ h. cc)

  -- If the matchers keep the contract without raising, `all_of` returns a result, which
  -- is a success exactly when every matcher accepts the value.
  pub every_option_iff :
      (ms : List BaseMatcher)
      → AllHonor ⊥ run ms
      → Answers (all_of_with run ms v path) (All Accepts ms)
  unfolding all_of_with
  every_option_iff ms h =
      let (es, e, iff) = all_of_loop_iff ms [] h in
      let ok = all_of_result_iff es in
      (
        all_of_result run es v path,
        rw e refl,
        (λ good. (iff.0 (ok.0 good)).1, λ every. ok.1 (iff.1 (refl, every))),
      )

  one_of_loop_iff :
      (ms : List BaseMatcher) (es : List MatchError)
      → All (λ m. Returns (run m v path)) ms
      → (s : Bool × List MatchError) × (one_of_loop run ms es v path ≡ returned s)
        × ((s.0 ≡ true) ↔ Any Accepts ms)
  unfolding one_of_loop
  one_of_loop_iff [] es h = ((false, es), refl, (λ n. cc, λ a. absurd a))
  one_of_loop_iff (m ∷ ms) es ((r, e), h) = elim (Bool-cases r.ok) [
    | inl y ↦ ((true, es), rw (e, y, one_of_loop) refl, (λ _. inl (rw e y), λ _. refl))
    | inr n ↦
        let (s, e', iff) = one_of_loop_iff ms (es ++ r.errors) h in
        (
          s,
          rw (e, n, one_of_loop) e',
          (
            λ good. inr (iff.0 good),
            λ any. elim any [ inl now ↦ cc (ap accepted e) | inr later ↦ iff.1 later ],
          ),
        )
  ]

  -- If no matcher raises on the value, `one_of` returns a result, which is a success
  -- exactly when some matcher accepts the value.
  pub one_of_iff :
      (ms : List BaseMatcher)
      → All (λ m. Returns (run m v path)) ms
      → Answers (one_of_with run ms v path) (Any Accepts ms)
  unfolding one_of_with combinator_failure
  one_of_iff ms h =
      let (s, e, iff) = one_of_loop_iff ms [] h in
      elim (Bool-cases s.0) [
        | inl y ↦ accepts _ _ (rw (e, y) refl) (iff.0 y)
        | inr n ↦ rw (e, n) (refuses _ _ _ refl (λ any. cc (iff.1 any)))
      ]

  -- If the matcher does not raise on the value, `not_` returns a result, which is a
  -- success exactly when the matcher does not accept the value.
  pub not_iff :
      (m : BaseMatcher) → Returns (run m v path) → Answers (not_with run m v path) (¬ Accepts m)
  unfolding not_with combinator_failure
  not_iff m (r, e) = elim (Bool-cases r.ok) [
    | inl y ↦ rw (e, y) (refuses _ _ _ refl (λ n. n refl))
    | inr n ↦ accepts _ _ (rw (e, n) refl) (λ a. cc (ap accepted e))
  ]
