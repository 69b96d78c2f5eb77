-- ===== src/Match/Laws/Exhaustive.antt =====
-- The search through all permutations: it succeeds exactly when an assignment exists.
use agent_spec_kit.Common.{
  ℕ, zero, suc, ◌<◌, ◌≡◌, refl, ◌∙◌, ap, subst, ◌↔◌, inl, inr, true, false, Option, none, some,
  List, [], ◌∷◌, ◌++◌, arith, get_elem?, All, All-map, length, Bool-cases, Option-cases, Any, In,
  Any-at, Any-elim, All-at,
}
use agent_spec_kit.Common.Outcome.{Outcome, returned}
use agent_spec_kit.Match.Value.{Value}
use agent_spec_kit.Match.Types.{FieldPath, MatchResult, success}
use agent_spec_kit.Match.Protocol.{Check, BaseMatcher}
use agent_spec_kit.Match.Lists.Payload.{at_index}
use agent_spec_kit.Match.Lists.Unordered.{ComparisonFailure, permutation_failure}
use agent_spec_kit.Match.Lists.Permutations.{permutations, positions}
use agent_spec_kit.Match.Lists.Search.{
  failed_comparison, try_permutation, permutation_loop, multiset_by_permutation_with,
}
use agent_spec_kit.Match.Laws.Assignment.{accepted, Hits, Fits, Assignable}
use agent_spec_kit.Match.Laws.Unordered.{AllCalm, ok-permutation_failure}
use agent_spec_kit.Match.Laws.Permutations.{
  IsArrangement, permutations-IsArrangement, In-permutations, In-positions, lt_of_In-positions,
  Distinct-positions,
}

pub get_elem?-some {ℓ} :
    {A : Type ℓ} (xs : List A) (j : ℕ) → j < length xs → (v : A) × (get_elem? xs j ≡ some v)
get_elem?-some [] j h = elim h [ ]
get_elem?-some (x ∷ xs) zero h = (x, refl)
get_elem?-some (x ∷ xs) (suc j) h = get_elem?-some xs j (omega arith)

lt_of_get_elem? {ℓ} :
    {A : Type ℓ} (xs : List A) (j : ℕ) (v : A) → get_elem? xs j ≡ some v → j < length xs
lt_of_get_elem? [] j v h = cc
lt_of_get_elem? (x ∷ xs) zero v h = omega arith
lt_of_get_elem? (x ∷ xs) (suc j) v h = omega (arith, lt_of_get_elem? xs j v h)

module _ (run : BaseMatcher → Check) (actual : List Value) (path : FieldPath) where
  -- What the loop over one permutation answers.
  record Tries (specs : List BaseMatcher) (js : List ℕ) (o : Outcome (Option ComparisonFailure))
      : Type 0 where
    failed : Option ComparisonFailure
    returns : o ≡ returned failed
    fits : failed ≡ none → Fits run actual path specs js
    misfits : (f : ComparisonFailure) → failed ≡ some f → ¬ Fits run actual path specs js

  try_hit :
      (m : BaseMatcher) (ms : List BaseMatcher) (j : ℕ) (js : List ℕ) (i : ℕ) (v : Value)
      (r : MatchResult)
      → get_elem? actual j ≡ some v
      → run m v (at_index path j) ≡ returned r
      → r.ok ≡ true
      → try_permutation run actual path (m ∷ ms) (j ∷ js) i
        ≡ try_permutation run actual path ms js (suc i)
  unfolding try_permutation
  try_hit m ms j js i v r at e good = rw (at, e, good, try_permutation)

  try_miss :
      (m : BaseMatcher) (ms : List BaseMatcher) (j : ℕ) (js : List ℕ) (i : ℕ) (v : Value)
      (r : MatchResult)
      → get_elem? actual j ≡ some v
      → run m v (at_index path j) ≡ returned r
      → r.ok ≡ false
      → try_permutation run actual path (m ∷ ms) (j ∷ js) i
        ≡ returned (some (failed_comparison i j r))
  unfolding try_permutation
  try_miss m ms j js i v r at e bad = rw (at, e, bad, try_permutation)

  try_permutation-Tries :
      (specs : List BaseMatcher) (js : List ℕ) (i : ℕ)
      → AllCalm run actual path specs
      → All (λ j. j < length actual) js
      → length js ≡ length specs
      → Tries specs js (try_permutation run actual path specs js i)
  unfolding try_permutation
  try_permutation-Tries [] [] i calm within size = record {
    failed = none;
    returns = refl;
    fits = λ _. tt;
    misfits = λ f e. cc;
  }
  try_permutation-Tries [] (j ∷ js) i calm within size = absurd (omega arith)
  try_permutation-Tries (m ∷ ms) [] i calm within size = absurd (omega arith)
  try_permutation-Tries (m ∷ ms) (j ∷ js) i calm within size =
      let (v, at) = get_elem?-some actual j within.0 in
      let (r, e) = calm.0 v (at_index path j) in
      elim (Bool-cases r.ok) [
        | inl good ↦
            let t = try_permutation-Tries ms js (suc i) calm.1 within.1 (omega arith) in
            record {
              failed = t.failed;
              returns = try_hit m ms j js i v r at e good ∙ t.returns;
              fits = λ n. ((v, at, ap accepted e ∙ good), t.fits n);
              misfits = λ f s all. t.misfits f s all.1;
            }
        | inr bad ↦ record {
          failed = some (failed_comparison i j r);
          returns = try_miss m ms j js i v r at e bad;
          fits = λ n. cc;
          misfits = λ f s all. no_hit m j v r at e bad all.0;
        }
      ]
    where
      no_hit :
          (m : BaseMatcher) (j : ℕ) (v : Value) (r : MatchResult)
          → get_elem? actual j ≡ some v
          → run m v (at_index path j) ≡ returned r
          → r.ok ≡ false
          → ¬ Hits run actual path m j
      no_hit m j v r at e bad (w, at', hit) = cc

  -- What is known of the permutations that are tried.
  abbrev pub IsCandidate : List BaseMatcher → List ℕ → Type 0
  IsCandidate specs p = All (λ j. j < length actual) p × (length p ≡ length specs)

  permutation_loop_iff :
      (specs : List BaseMatcher) (ps : List (List ℕ)) (failures : List ComparisonFailure)
      → AllCalm run actual path specs
      → All (IsCandidate specs) ps
      → (r : MatchResult) × (permutation_loop run actual path specs ps failures ≡ returned r)
        × ((r.ok ≡ true) ↔ Any (Fits run actual path specs) ps)
  unfolding permutation_loop
  permutation_loop_iff specs [] failures calm h = (
    permutation_failure actual path failures,
    refl,
    (λ good. cc (ok-permutation_failure actual path failures), λ a. absurd a),
  )
  permutation_loop_iff specs (p ∷ ps) failures calm h =
      let t = try_permutation-Tries specs p 0 calm h.0.0 h.0.1 in
      elim (Option-cases t.failed) [
        | inl n ↦ (
          success,
          rw (t.returns, n, permutation_loop),
          (λ _. inl (t.fits n), λ _. unfold success in refl),
        )
        | inr (f, s) ↦
            let (r, e, verdict) = permutation_loop_iff specs ps (failures ++ f ∷ []) calm h.1 in
            (
              r,
              rw (t.returns, s, permutation_loop) e,
              (
                λ good. inr (verdict.0 good),
                λ any. elim any [
                  | inl here ↦ absurd (t.misfits f s here)
                  | inr later ↦ verdict.1 later
                ],
              ),
            )
      ]

  -- The positions of items that are matched stand in the list.
  pub Fits-within :
      (specs : List BaseMatcher) (js : List ℕ)
      → Fits run actual path specs js
      → All (λ j. j < length actual) js × (length js ≡ length specs)
  Fits-within [] [] fits = (tt, refl)
  Fits-within [] (j ∷ js) fits = absurd fits
  Fits-within (m ∷ ms) [] fits = absurd fits
  Fits-within (m ∷ ms) (j ∷ js) fits =
      let (within, size) = Fits-within ms js fits.1 in
      ((lt_of_get_elem? actual j fits.0.0 fits.0.1, within), ap suc size)

  pub candidates :
      (specs : List BaseMatcher)
      → length actual ≡ length specs
      → All (IsCandidate specs) (permutations (length specs) (positions 0 (length specs)))
  candidates specs same =
      let n = length specs in
      All-map (IsArrangement n (positions 0 n)) (IsCandidate specs)
        (λ p a. (
          All-map (λ z. In z (positions 0 n)) (λ j. j < length actual)
              (λ z m. omega (arith, lt_of_In-positions n z m)) p a.members,
          a.size,
        ))
        (permutations n (positions 0 n)) (permutations-IsArrangement n (positions 0 n))

  Assignable-of_Any :
      (specs : List BaseMatcher)
      → Any (Fits run actual path specs) (permutations (length specs) (positions 0 (length specs)))
      → Assignable run actual path specs
  Assignable-of_Any specs any =
      let n = length specs in
      let (js, member, fits) =
        Any-elim (Fits run actual path specs) (permutations n (positions 0 n)) any in
      let a =
        All-at (IsArrangement n (positions 0 n)) (permutations n (positions 0 n)) js
          (permutations-IsArrangement n (positions 0 n)) member in
      (js, fits, a.distinct (Distinct-positions 0 n))

  Any-of_Assignable :
      (specs : List BaseMatcher)
      → length actual ≡ length specs
      → Assignable run actual path specs
      → Any (Fits run actual path specs) (permutations (length specs) (positions 0 (length specs)))
  Any-of_Assignable specs same (js, fits, distinct) =
      let n = length specs in
      let (within, size) = Fits-within specs js fits in
      let members =
        All-map (λ j. j < length actual) (λ z. In z (positions 0 n))
          (λ z lt. In-positions 0 n z (omega arith) (omega arith)) js within in
      Any-at (Fits run actual path specs) (permutations n (positions 0 n)) js
        (subst (λ k. In js (permutations k (positions 0 n))) size
          (In-permutations js (positions 0 n) distinct members))
        fits

  -- If there are as many items as expected elements and no check of an element raises, the search
  -- returns a result, and this is a success exactly when the elements can be given different items
  -- that they match.
  pub multiset_by_permutation_iff :
      (specs : List BaseMatcher)
      → AllCalm run actual path specs
      → length actual ≡ length specs
      → (r : MatchResult) × (multiset_by_permutation_with run actual path specs ≡ returned r)
        × ((r.ok ≡ true) ↔ Assignable run actual path specs)
  unfolding multiset_by_permutation_with
  multiset_by_permutation_iff specs calm same =
      let ps = permutations (length specs) (positions 0 (length specs)) in
      let (r, e, verdict) = permutation_loop_iff specs ps [] calm (candidates specs same) in
      (
        r,
        e,
        (
          λ good. Assignable-of_Any specs (verdict.0 good),
          λ a. verdict.1 (Any-of_Assignable specs same a),
        ),
      )
