-- ===== src/Match/Laws/Subsequence.antt =====
-- The greedy search of the ordered matcher with extras finds a subsequence whenever there is one.
use agent_spec_kit.Common.{
  ℕ, suc, ◌≤◌, ◌<◌, ◌≡◌, refl, sym, ◌∙◌, ap, subst, ◌↔◌, inl, inr, false, Option, some, List, [],
  ◌∷◌, ◌++◌, arith, get_elem?, length, Bool-cases, IsSuffix, IsSuffix-zero, IsSuffix-tail,
  IsSuffix-head, past_end,
}
use native.Mathlib.Decide.{ℕ_discrete, dec_lt}
use agent_spec_kit.Common.Outcome.{returned}
use agent_spec_kit.Match.Value.{Value}
use agent_spec_kit.Match.Types.{FieldPath, MatchError, MatchResult, success}
use agent_spec_kit.Match.Protocol.{Check, BaseMatcher, pick_representative_error}
use agent_spec_kit.Match.Lists.Payload.{at_index, with_inner_error}
use agent_spec_kit.Match.Lists.Reports.{missing_error}
use agent_spec_kit.Match.Lists.Ordered.{
  Sought, placed, missing, seek, subsequence_loop, ordered_subsequence_with,
}
use agent_spec_kit.Match.Laws.Assignment.{accepted, IsCalm, Hits, Fits}
use agent_spec_kit.Match.Laws.Unordered.{AllCalm, ok-with_inner_error}
use agent_spec_kit.Match.Laws.Verdicts.{Answers}

-- The positions rise, from `lo` on.
abbrev pub Climbs : ℕ → List ℕ → Type 0
Climbs lo [] = Unit {0}
Climbs lo (j ∷ js) = (lo ≤ j) × Climbs (suc j) js

pub Climbs-weaken : (lo lo' : ℕ) (js : List ℕ) → lo ≤ lo' → Climbs lo' js → Climbs lo js
Climbs-weaken lo lo' [] le h = tt
Climbs-weaken lo lo' (j ∷ js) le h = (omega arith, h.1)

module _ (run : BaseMatcher → Check) (actual : List Value) (path : FieldPath) where
  -- The elements match items in order, at or behind `lo`.
  abbrev pub Embeds : ℕ → List BaseMatcher → Type 0
  Embeds lo specs = (js : List ℕ) × Fits run actual path specs js × Climbs lo js

  -- No item from `lo` up to `hi` is matched.
  abbrev pub Misses : BaseMatcher → ℕ → ℕ → Type 0
  Misses m lo hi = (k : ℕ) → lo ≤ k → k < hi → ¬ Hits run actual path m k

  -- How `seek` ends: at the first item from `ai` on that is matched, or behind the last one.
  abbrev SeekEnd : BaseMatcher → ℕ → Sought → Type 0
  SeekEnd m ai (placed rest after) =
      (k : ℕ) × (after ≡ suc k)
      × (ai ≤ k)
      × Hits run actual path m k
      × Misses m ai k
      × IsSuffix actual (suc k) rest
  SeekEnd m ai (missing errors) = (k : ℕ) → ai ≤ k → ¬ Hits run actual path m k

  pub miss_at :
      (m : BaseMatcher) (j : ℕ) (v : Value) (r : MatchResult)
      → get_elem? actual j ≡ some v
      → run m v (at_index path j) ≡ returned r
      → r.ok ≡ false
      → ¬ Hits run actual path m j
  miss_at m j v r at e bad (w, at', hit) = cc

  SeekEnd-suc :
      (m : BaseMatcher) (ai : ℕ) (s : Sought)
      → ¬ Hits run actual path m ai
      → SeekEnd m (suc ai) s
      → SeekEnd m ai s
  SeekEnd-suc m ai (placed rest after) miss (k, e, le, hit, misses, suffix) = (
    k,
    e,
    omega arith,
    hit,
    λ n lo hi. elim (ℕ_discrete ai n) [
      | yes same ↦ subst (λ i. ¬ Hits run actual path m i) same miss
      | no ne ↦ misses n (omega arith) hi
    ],
    suffix,
  )
  SeekEnd-suc m ai (missing errors) miss none_ = λ n lo. elim (ℕ_discrete ai n) [
    | yes same ↦ subst (λ i. ¬ Hits run actual path m i) same miss
    | no ne ↦ none_ n (omega arith)
  ]

  seek-SeekEnd :
      (m : BaseMatcher) (vs : List Value) (ai : ℕ) (errors : List MatchError)
      → IsCalm (run m)
      → IsSuffix actual ai vs
      → (s : Sought) × (seek run m vs ai path errors ≡ returned s) × SeekEnd m ai s
  unfolding seek
  seek-SeekEnd m [] ai errors calm h =
      (missing errors, refl, λ k le hit. past_end actual ai h k le hit.1)
  seek-SeekEnd m (v ∷ vs) ai errors calm h =
      let (r, e) = calm v (at_index path ai) in
      let at = IsSuffix-head actual ai v vs h in
      let suffix = IsSuffix-tail actual ai v vs h in
      elim (Bool-cases r.ok) [
        | inl good ↦ (
          placed vs (suc ai),
          rw (e, good, seek),
          (ai, refl, omega arith, (v, at, ap accepted e ∙ good), λ k lo hi. omega arith, suffix),
        )
        | inr bad ↦
            let (s, e', end) = seek-SeekEnd m vs (suc ai) (errors ++ r.errors) calm suffix in
            (s, rw (e, bad, seek) e', SeekEnd-suc m ai s (miss_at m ai v r at e bad) end)
      ]

  -- If `k` is the first item for `m`, taking it loses no solution.
  pub Embeds-first :
      (m : BaseMatcher) (ms : List BaseMatcher) (ai k : ℕ)
      → ai ≤ k
      → Hits run actual path m k
      → Misses m ai k
      → Embeds ai (m ∷ ms) ↔ Embeds (suc k) ms
  Embeds-first m ms ai k le hit misses = (
    λ (js, fits, climbs). to_rest js fits climbs,
    λ (js, fits, climbs). (k ∷ js, (hit, fits), (le, climbs)),
  )
    where
      to_rest : (js : List ℕ) → Fits run actual path (m ∷ ms) js → Climbs ai js → Embeds (suc k) ms
      to_rest [] fits climbs = absurd fits
      to_rest (j ∷ js) fits climbs = elim (dec_lt j k) [
        | yes early ↦ absurd (misses j climbs.0 early fits.0)
        | no late ↦ (js, fits.1, Climbs-weaken (suc k) (suc j) js (omega arith) climbs.1)
      ]

  pub Embeds-none :
      (m : BaseMatcher) (ms : List BaseMatcher) (ai : ℕ)
      → ((k : ℕ) → ai ≤ k → ¬ Hits run actual path m k)
      → ¬ Embeds ai (m ∷ ms)
  Embeds-none m ms ai none_ ([], fits, climbs) = fits
  Embeds-none m ms ai none_ (j ∷ js, fits, climbs) = none_ j climbs.0 fits.0

  loop_missing :
      (m : BaseMatcher) (ms : List BaseMatcher) (rest : List Value) (i ai : ℕ)
      (errors : List MatchError)
      → seek run m rest ai path [] ≡ returned (missing errors)
      → (e : MatchError) × (inner : Option MatchError) × (subsequence_loop run
            (m ∷ ms)
            actual
            rest
            i
            ai
            path
          ≡ returned (with_inner_error e inner))
  unfolding subsequence_loop
  loop_missing m ms rest i ai errors e =
      let inner = pick_representative_error errors in
      (missing_error actual path i ai (length rest) inner, inner, rw (e, subsequence_loop))

  loop_placed :
      (m : BaseMatcher) (ms : List BaseMatcher) (rest rest' : List Value) (i ai after : ℕ)
      → seek run m rest ai path [] ≡ returned (placed rest' after)
      → subsequence_loop run (m ∷ ms) actual rest i ai path
        ≡ subsequence_loop run ms actual rest' (suc i) after path
  unfolding subsequence_loop
  loop_placed m ms rest rest' i ai after e = rw (e, subsequence_loop)

  -- One element of the outer loop, given what the loop does with the elements after it.
  subsequence_step_iff :
      (m : BaseMatcher) (ms : List BaseMatcher) (rest : List Value) (i ai : ℕ)
      → ((rest' : List Value) (after : ℕ)
          → IsSuffix actual after rest'
          → Answers (subsequence_loop run ms actual rest' (suc i) after path) (Embeds after ms))
      → (s : Sought) → seek run m rest ai path [] ≡ returned s
      → SeekEnd m ai s
      → Answers (subsequence_loop run (m ∷ ms) actual rest i ai path) (Embeds ai (m ∷ ms))
  subsequence_step_iff m ms rest i ai later (placed rest' after) e
        (k, at, le, hit, misses, suffix) =
      let (r, e', verdict) =
        later rest' after (subst (λ n. IsSuffix actual n rest') (sym at) suffix) in
      let first = Embeds-first m ms ai k le hit misses in
      (
        r,
        loop_placed m ms rest rest' i ai after e ∙ e',
        (
          λ good. first.1 (subst (λ n. Embeds n ms) at (verdict.0 good)),
          λ h. verdict.1 (subst (λ n. Embeds n ms) (sym at) (first.0 h)),
        ),
      )
  subsequence_step_iff m ms rest i ai later (missing errors) e none_ =
      let (err, inner, e') = loop_missing m ms rest i ai errors e in
      (
        with_inner_error err inner,
        e',
        (λ good. cc (ok-with_inner_error err inner), λ h. absurd (Embeds-none m ms ai none_ h)),
      )

  subsequence_loop_iff :
      (specs : List BaseMatcher) (rest : List Value) (i ai : ℕ)
      → AllCalm run actual path specs
      → IsSuffix actual ai rest
      → Answers (subsequence_loop run specs actual rest i ai path) (Embeds ai specs)
  unfolding subsequence_loop
  subsequence_loop_iff [] rest i ai calm suffix =
      (success, refl, (λ good. ([], tt, tt), λ h. unfold success in refl))
  subsequence_loop_iff (m ∷ ms) rest i ai calm suffix =
      let (s, e, end) = seek-SeekEnd m rest ai [] calm.0 suffix in
      subsequence_step_iff m ms rest i ai
        (λ rest' after h. subsequence_loop_iff ms rest' (suc i) after calm.1 h) s e end

  -- If no check of an element raises, `mode="ordered"` with extras returns a result, and accepts a
  -- list exactly when the elements match items at rising positions, though the code takes the first
  -- item for each element and never goes back.
  pub ordered_subsequence_iff :
      (specs : List BaseMatcher)
      → AllCalm run actual path specs
      → Answers (ordered_subsequence_with run specs actual path) (Embeds 0 specs)
  unfolding ordered_subsequence_with
  ordered_subsequence_iff specs calm =
      subsequence_loop_iff specs actual 0 0 calm (IsSuffix-zero actual)
