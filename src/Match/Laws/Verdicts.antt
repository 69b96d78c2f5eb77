-- ===== src/Match/Laws/Verdicts.antt =====
-- What the unordered list matchers accept.
use agent_spec_kit.Common.{
  ◌≤◌, ◌<◌, ◌≡◌, refl, ap, ◌↔◌, inl, inr, true, false, not, List, [], ◌∷◌, arith, All-map, length,
  Bool-cases, In, if◌then◌else◌, ◌==◌, ltb, leb, eq_of_test, ne_of_test, lt_of_test,
}
use agent_spec_kit.Common.Outcome.{Outcome, returned}
use agent_spec_kit.Match.Value.{Value}
use agent_spec_kit.Match.Types.{FieldPath, MatchResult, success, failure}
use agent_spec_kit.Match.Protocol.{Check, BaseMatcher}
use agent_spec_kit.Match.Lists.Permutations.{positions}
use agent_spec_kit.Match.Lists.Search.{multiset_by_permutation_with, unordered_injective_dfs_with}
use agent_spec_kit.Match.Lists.Class.{
  max_perm, unordered_length_error, too_short_error, unordered_exact_with, unordered_extras_with,
}
use agent_spec_kit.Match.Laws.Assignment.{accepted, Fits, Assignable}
use agent_spec_kit.Match.Laws.Unordered.{AllCalm, unordered_injective_dfs_iff}
use agent_spec_kit.Match.Laws.Permutations.{In-positions, pigeonhole, length-positions}
use agent_spec_kit.Match.Laws.Exhaustive.{Fits-within, multiset_by_permutation_iff}

-- The call returns a result, and this is a success exactly when `P` holds.
abbrev pub Answers : Outcome MatchResult → Type 0 → Type 0
Answers o P = (r : MatchResult) × (o ≡ returned r) × ((r.ok ≡ true) ↔ P)

accepted_unique :
    (a b : Outcome MatchResult) (P : Type 0) → Answers a P → Answers b P → accepted a ≡ accepted b
accepted_unique a b P (r, e, p) (s, f, q) = elim (Bool-cases r.ok) [
  | inl y ↦ cc (ap accepted e, ap accepted f, q.1 (p.0 y))
  | inr n ↦ elim (Bool-cases s.ok) [
    | inl y ↦ cc (p.1 (q.0 y))
    | inr n' ↦ cc (ap accepted e, ap accepted f)
  ]
]

pub accepted-not :
    (a b : Outcome MatchResult) (P : Type 0)
    → Answers a (¬ P)
    → Answers b P
    → accepted a ≡ not (accepted b)
accepted-not a b P (r, e, p) (s, f, q) = elim (Bool-cases s.ok) [
  | inl y ↦ elim (Bool-cases r.ok) [ inl y' ↦ absurd (p.0 y' (q.0 y)) | inr n' ↦ rw (e, f, y, n') ]
  | inr n ↦ rw (e, f, n) (p.1 (λ h. cc (q.1 h)))
]

Fits-nil :
    (run : BaseMatcher → Check) (actual : List Value) (path : FieldPath) (specs : List BaseMatcher)
    → length specs ≡ 0
    → Fits run actual path specs []
Fits-nil run actual path [] e = tt
Fits-nil run actual path (m ∷ ms) e = absurd (omega arith)

module _ (run : BaseMatcher → Check) (actual : List Value) (path : FieldPath)
    (specs : List BaseMatcher) (calm : AllCalm run actual path specs) where
  -- If no check of an element raises and there are as many items as elements, the exhaustive and the
  -- depth-first search accept the same lists, so the bound `_MAX_PERM` that chooses between them
  -- changes no verdict.
  pub searches_agree :
      length actual ≡ length specs
      → accepted (multiset_by_permutation_with run actual path specs)
        ≡ accepted (unordered_injective_dfs_with run actual path false specs)
  searches_agree same =
      accepted_unique _ _ (Assignable run actual path specs)
        (multiset_by_permutation_iff run actual path specs calm same)
        (unordered_injective_dfs_iff run actual path false specs calm)

  -- Different items for all elements need as many items.
  Assignable-le : Assignable run actual path specs → length specs ≤ length actual
  Assignable-le (js, fits, distinct) =
      let (within, size) = Fits-within run actual path specs js fits in
      let members =
        All-map (λ j. j < length actual) (λ z. In z (positions 0 (length actual)))
          (λ z lt. In-positions 0 (length actual) z (omega arith) (omega arith)) js within in
      omega (
        arith,
        pigeonhole js (positions 0 (length actual)) distinct members,
        length-positions 0 (length actual),
        size,
      )

  Assignable-nil : length specs ≡ 0 → Assignable run actual path specs
  Assignable-nil e = ([], Fits-nil run actual path specs e, tt)

  -- The branch of as many items as elements, by the number of elements.
  exact_search :
      length actual ≡ length specs
      → Answers
          (if leb (length specs) max_perm
            then multiset_by_permutation_with run actual path specs
            else unordered_injective_dfs_with run actual path false specs)
          (Assignable run actual path specs)
  exact_search same = elim (Bool-cases (leb (length specs) max_perm)) [
    | inl few ↦ rw few (multiset_by_permutation_iff run actual path specs calm same)
    | inr many ↦ rw many (unordered_injective_dfs_iff run actual path false specs calm)
  ]

  -- If no check of an element raises, `mode="unordered"` without extras returns a result, and accepts
  -- a list exactly when it has as many items as there are elements, and the elements can be given
  -- different items that they match.
  pub unordered_exact_iff :
      Answers
        (unordered_exact_with run specs actual path)
        ((length actual ≡ length specs) × Assignable run actual path specs)
  unfolding unordered_exact_with
  unordered_exact_iff = elim (Bool-cases (length actual == length specs)) [
    | inr differ ↦ (
      failure (unordered_length_error specs actual path ∷ []),
      rw differ,
      (λ good. unfold failure in cc, λ h. absurd (ne_of_test _ _ differ h.0)),
    )
    | inl same ↦
        let sizes = eq_of_test (length actual) (length specs) same in
        elim (Bool-cases (length specs == 0)) [
          | inl empty ↦ (
            success,
            rw (same, empty),
            (
              λ good. (sizes, Assignable-nil (eq_of_test (length specs) 0 empty)),
              λ h. unfold success in refl,
            ),
          )
          | inr more ↦
              let (r, e, verdict) = exact_search sizes in
              (r, rw (same, more) e, (λ good. (sizes, verdict.0 good), λ h. verdict.1 h.1))
        ]
  ]

  -- If no check of an element raises, `mode="unordered"` with extras returns a result, and accepts a
  -- list exactly when the elements can be given different items that they match.
  pub unordered_extras_iff :
      Answers (unordered_extras_with run specs actual path) (Assignable run actual path specs)
  unfolding unordered_extras_with
  unordered_extras_iff = elim (Bool-cases (ltb (length actual) (length specs))) [
    | inl short ↦
        let lt = lt_of_test (length actual) (length specs) short in
        (
          failure (too_short_error specs actual path ∷ []),
          rw short,
          (λ good. unfold failure in cc, λ h. absurd (omega (arith, Assignable-le h))),
        )
    | inr enough ↦ elim (Bool-cases (length specs == 0)) [
      | inl empty ↦ (
        success,
        rw (enough, empty),
        (λ good. Assignable-nil (eq_of_test (length specs) 0 empty), λ h. unfold success in refl),
      )
      | inr more ↦
          let (r, e, verdict) = unordered_injective_dfs_iff run actual path true specs calm in
          (r, rw (enough, more) e, verdict)
    ]
  ]
