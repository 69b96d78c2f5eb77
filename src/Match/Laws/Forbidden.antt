-- ===== src/Match/Laws/Forbidden.antt =====
-- What the matcher of forbidden tool calls accepts.
use agent_spec_kit.Common.{
  ℕ, suc, ◌≤◌, ◌≡◌, refl, sym, ◌∙◌, ap, subst, ◌↔◌, inl, inr, Bool, true, false, not, Option, none,
  some, List, [], ◌∷◌, ◌++◌, arith, length, get_elem?, Bool-cases, Option-cases, ◌==◌, ◌||◌, In,
  IsSuffix, IsSuffix-zero, IsSuffix-tail, IsSuffix-head, past_end,
}
use native.Mathlib.Decide.{ℕ_discrete}
use agent_spec_kit.Common.Outcome.{Outcome, returned}
use agent_spec_kit.Match.Value.{Value, Values, list, to_list}
use agent_spec_kit.Match.Types.{FieldPath, MatchError, success, failure}
use agent_spec_kit.Match.Protocol.{BaseMatcher}
use agent_spec_kit.Match.Combinators.{sync_run}
use agent_spec_kit.Match.Lists.Payload.{at_index}
use agent_spec_kit.Match.Lists.Class.{ordered, list_matcher_with}
use agent_spec_kit.Match.Forbidden.{
  forbidden_call_error, first_forbidden, match_any_forbidden, forbidden_loop,
  forbidden_sequence_error, match_forbidden_subsequence, forbidden_check,
}
use agent_spec_kit.Match.Laws.Assignment.{accepted, Hits, Fits}
use agent_spec_kit.Match.Laws.Unordered.{AllCalm}
use agent_spec_kit.Match.Laws.Verdicts.{Answers, accepted-not}
use agent_spec_kit.Match.Laws.Subsequence.{
  Embeds, Embeds-first, Embeds-none, Climbs, Climbs-weaken, miss_at, ordered_subsequence_iff,
}

or_true : (b : Bool) → (b || true) ≡ true
or_true true = refl
or_true false = refl

module _ (actual : List Value) (path : FieldPath) where
  abbrev Found : ℕ → List BaseMatcher → Type 0
  Found lo patterns = Embeds sync_run actual path lo patterns

  Found-miss :
      (m : BaseMatcher) (ms : List BaseMatcher) (lo : ℕ)
      → ¬ Hits sync_run actual path m lo
      → Found (suc lo) (m ∷ ms) ↔ Found lo (m ∷ ms)
  Found-miss m ms lo miss = (
    λ (js, fits, climbs). (js, fits, Climbs-weaken lo (suc lo) js (omega arith) climbs),
    λ (js, fits, climbs). (js, fits, later js fits climbs),
  )
    where
      later :
          (js : List ℕ) → Fits sync_run actual path (m ∷ ms) js → Climbs lo js → Climbs (suc lo) js
      later [] fits climbs = tt
      later (j ∷ js) fits climbs = elim (ℕ_discrete lo j) [
        | yes same ↦ absurd (miss (subst (Hits sync_run actual path m) (sym same) fits.0))
        | no ne ↦ (omega arith, climbs.1)
      ]

  -- The outcome of the loop: patterns are left exactly when the sequence does not occur.
  abbrev LoopAnswers : Outcome (List BaseMatcher × List (ℕ × Value)) → Type 0 → Type 0
  LoopAnswers o P =
      (left : List BaseMatcher) × (matched : List (ℕ × Value)) × (o ≡ returned (left, matched))
      × ((left ≡ []) ↔ P)

  forbidden_loop_iff :
      (patterns : List BaseMatcher) (tools : List Value) (idx : ℕ) (matched : List (ℕ × Value))
      → AllCalm sync_run actual path patterns
      → IsSuffix actual idx tools
      → LoopAnswers (forbidden_loop patterns tools idx path matched) (Found idx patterns)
  unfolding forbidden_loop
  forbidden_loop_iff [] tools idx matched calm h =
      ([], matched, refl, (λ e. ([], tt, tt), λ found. refl))
  forbidden_loop_iff (m ∷ ms) [] idx matched calm h = (
    m ∷ ms,
    matched,
    refl,
    (
      λ e. cc,
      λ found. absurd (
          Embeds-none sync_run actual path m ms idx (λ k le hit. past_end actual idx h k le hit.1)
            found),
    ),
  )
  forbidden_loop_iff (m ∷ ms) (tool ∷ tools) idx matched calm h =
      let (r, e) = calm.0 tool (at_index path idx) in
      let at = IsSuffix-head actual idx tool tools h in
      let suffix = IsSuffix-tail actual idx tool tools h in
      elim (Bool-cases r.ok) [
        | inl good ↦
            let (left, matched', e', verdict) =
              forbidden_loop_iff ms tools (suc idx) (matched ++ (idx, tool) ∷ []) calm.1 suffix in
            let first =
              Embeds-first sync_run actual path m ms idx idx (omega arith)
                (tool, at, ap accepted e ∙ good) (λ k lo hi. omega arith) in
            (
              left,
              matched',
              rw (e, good, forbidden_loop) e',
              (λ none_. first.1 (verdict.0 none_), λ found. verdict.1 (first.0 found)),
            )
        | inr bad ↦
            let (left, matched', e', verdict) =
              forbidden_loop_iff (m ∷ ms) tools (suc idx) matched calm suffix in
            let same = Found-miss m ms idx (miss_at sync_run actual path m idx tool r at e bad) in
            (
              left,
              matched',
              rw (e, bad, forbidden_loop) e',
              (λ none_. same.0 (verdict.0 none_), λ found. verdict.1 (same.1 found)),
            )
      ]

  match_forbidden_subsequence_iff :
      (patterns : List BaseMatcher)
      → AllCalm sync_run actual path patterns
      → Answers (match_forbidden_subsequence patterns actual path) (¬ Found 0 patterns)
  unfolding match_forbidden_subsequence
  match_forbidden_subsequence_iff patterns calm =
      let (left, matched, e, verdict) =
        forbidden_loop_iff patterns actual 0 [] calm (IsSuffix-zero actual) in
      conclude left matched e verdict
    where
      conclude :
          (left : List BaseMatcher) (matched : List (ℕ × Value))
          → forbidden_loop patterns actual 0 path [] ≡ returned (left, matched)
          → (left ≡ []) ↔ Found 0 patterns
          → Answers (match_forbidden_subsequence patterns actual path) (¬ Found 0 patterns)
      conclude [] matched e verdict = (
        failure (forbidden_sequence_error path matched ∷ []),
        rw e,
        (λ good. unfold failure in cc, λ absent. absurd (absent (verdict.0 refl))),
      )
      conclude (m ∷ ms) matched e verdict =
          (success, rw e, (λ good found. cc (verdict.1 found), λ absent. unfold success in refl))

  -- The loop over calls and patterns: no pattern matches any call from `idx` on.
  abbrev NoneFrom : ℕ → List BaseMatcher → Type 0
  NoneFrom idx patterns =
      (m : BaseMatcher) → In m patterns → (k : ℕ) → idx ≤ k → ¬ Hits sync_run actual path m k

  first_forbidden_iff :
      (patterns : List BaseMatcher) (i idx : ℕ) (tool : Value)
      → AllCalm sync_run actual path patterns
      → get_elem? actual idx ≡ some tool
      → (o : Option MatchError) × (first_forbidden patterns i tool idx path ≡ returned o)
        × ((o ≡ none) ↔ ((m : BaseMatcher) → In m patterns → ¬ Hits sync_run actual path m idx))
  unfolding first_forbidden
  first_forbidden_iff [] i idx tool calm at = (none, refl, (λ _ m member. absurd member, λ h. refl))
  first_forbidden_iff (m ∷ ms) i idx tool calm at =
      let (r, e) = calm.0 tool (at_index path idx) in
      elim (Bool-cases r.ok) [
        | inl good ↦ (
          some (forbidden_call_error path m i tool idx),
          rw (e, good, first_forbidden),
          (λ n. cc, λ h. absurd (h m (inl refl) (tool, at, ap accepted e ∙ good))),
        )
        | inr bad ↦
            let (o, e', verdict) = first_forbidden_iff ms (suc i) idx tool calm.1 at in
            let miss = miss_at sync_run actual path m idx tool r at e bad in
            (
              o,
              rw (e, bad, first_forbidden) e',
              (
                λ n p member. elim member [
                  | inl same ↦ subst (λ q. ¬ Hits sync_run actual path q idx) same miss
                  | inr later ↦ verdict.0 n p later
                ],
                λ h. verdict.1 (λ p member. h p (inr member)),
              ),
            )
      ]

  NoneFrom-step :
      (patterns : List BaseMatcher) (idx : ℕ)
      → ((m : BaseMatcher) → In m patterns → ¬ Hits sync_run actual path m idx)
      → NoneFrom (suc idx) patterns
      → NoneFrom idx patterns
  NoneFrom-step patterns idx here later m member k le = elim (ℕ_discrete idx k) [
    | yes same ↦ subst (λ n. ¬ Hits sync_run actual path m n) same (here m member)
    | no ne ↦ later m member k (omega arith)
  ]

  match_any_forbidden_iff :
      (patterns : List BaseMatcher) (tools : List Value) (idx : ℕ)
      → AllCalm sync_run actual path patterns
      → IsSuffix actual idx tools
      → Answers (match_any_forbidden patterns tools idx path) (NoneFrom idx patterns)
  unfolding match_any_forbidden
  match_any_forbidden_iff patterns [] idx calm h = (
    success,
    refl,
    (λ good m member k le hit. past_end actual idx h k le hit.1, λ n. unfold success in refl),
  )
  match_any_forbidden_iff patterns (tool ∷ tools) idx calm h =
      let (o, e, verdict) =
        first_forbidden_iff patterns 0 idx tool calm (IsSuffix-head actual idx tool tools h) in
      elim (Option-cases o) [
        | inr (err, found) ↦ (
          failure (err ∷ []),
          rw (e, found, match_any_forbidden),
          (
            λ good. unfold failure in cc,
            λ absent. cc (verdict.1 (λ m member. absent m member idx (omega arith))),
          ),
        )
        | inl n ↦
            let (r, e', rest) =
              match_any_forbidden_iff patterns tools (suc idx) calm
                (IsSuffix-tail actual idx tool tools h) in
            (
              r,
              rw (e, n, match_any_forbidden) e',
              (
                λ good. NoneFrom-step patterns idx (verdict.0 n) (rest.0 good),
                λ absent. rest.1 (λ m member k le. absent m member k (omega arith)),
              ),
            )
      ]

at_least_two : (n : ℕ) → (suc (suc n) == 1) ≡ false
at_least_two n = ground arith

module _ (path : FieldPath) (vs : Values) where
  -- If no check of a pattern raises, two patterns or more with `ordered=True` return a result, and
  -- accept the calls exactly when the patterns do not match calls at rising positions.
  pub forbidden_sequence_iff :
      (m n : BaseMatcher) (ms : List BaseMatcher)
      → AllCalm sync_run (to_list vs) path (m ∷ n ∷ ms)
      → Answers
          (forbidden_check (m ∷ n ∷ ms) true (list vs) path)
          (¬ Embeds sync_run (to_list vs) path 0 (m ∷ n ∷ ms))
  unfolding forbidden_check
  forbidden_sequence_iff m n ms calm =
      rw (at_least_two (length ms))
        (match_forbidden_subsequence_iff (to_list vs) path (m ∷ n ∷ ms) calm)

  -- If no check of a pattern raises, patterns with `ordered=False` return a result, and accept the
  -- calls exactly when no pattern matches any of them.
  pub forbidden_any_iff :
      (patterns : List BaseMatcher)
      → AllCalm sync_run (to_list vs) path patterns
      → Answers (forbidden_check patterns false (list vs) path) (
          (m : BaseMatcher)
          → In m patterns
          → (k : ℕ) → 0 ≤ k
          → ¬ Hits sync_run (to_list vs) path m k)
  unfolding forbidden_check
  forbidden_any_iff [] calm =
      (success, refl, (λ good m member. absurd member, λ h. unfold success in refl))
  forbidden_any_iff (m ∷ ms) calm = rw (or_true (length (m ∷ ms) == 1)) (
      match_any_forbidden_iff (to_list vs) path (m ∷ ms) (to_list vs) 0 calm
        (IsSuffix-zero (to_list vs)))

  -- On two elements or more, the matcher of forbidden tool calls rejects exactly the lists that the
  -- ordered list matcher with extras accepts, if no check of an element raises.
  pub forbidden_dual :
      (m n : BaseMatcher) (ms : List BaseMatcher)
      → AllCalm sync_run (to_list vs) path (m ∷ n ∷ ms)
      → accepted (forbidden_check (m ∷ n ∷ ms) true (list vs) path)
        ≡ not (accepted (list_matcher_with sync_run (m ∷ n ∷ ms) ordered true (list vs) path))
  unfolding list_matcher_with
  forbidden_dual m n ms calm =
      accepted-not _ _ _ (forbidden_sequence_iff m n ms calm)
        (ordered_subsequence_iff sync_run (to_list vs) path (m ∷ n ∷ ms) calm)
