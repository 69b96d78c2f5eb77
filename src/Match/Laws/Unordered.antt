-- ===== src/Match/Laws/Unordered.antt =====
-- The depth-first search as a whole: it succeeds exactly when an assignment exists.
use agent_spec_kit.Common.{
  ℕ, zero, suc, ◌≡◌, refl, ◌↔◌, inl, inr, Bool, true, false, Option, some, List, [], ◌∷◌, arith,
  get_elem?, replicate, All, length, Bool-cases, IsSuffix-zero,
}
use agent_spec_kit.Common.Outcome.{Outcome, returned}
use agent_spec_kit.Match.Value.{Value}
use agent_spec_kit.Match.Types.{FieldPath, MatchError, MatchResult, success, failure}
use agent_spec_kit.Match.Protocol.{Check, BaseMatcher}
use agent_spec_kit.Match.Lists.Payload.{with_inner_error}
use agent_spec_kit.Match.Lists.Unordered.{
  ComparisonFailure, unordered_failure, injective_failure, permutation_failure,
}
use agent_spec_kit.Match.Lists.Search.{Progress, dfs, unordered_injective_dfs_with}
use agent_spec_kit.Match.Laws.Assignment.{
  IsCalm, IsFree, Fits, Assignable, AssignableIn, All-IsFree_of_set, All-IsFree-set,
}
use agent_spec_kit.Match.Laws.Search.{Decides, Startable, try_items-Decides}

pub ok-with_inner_error :
    (e : MatchError) (inner : Option MatchError) → (with_inner_error e inner).ok ≡ false
unfolding failure
ok-with_inner_error e inner = ground arith

pub ok-injective_failure :
    (extras : Bool) (actual : List Value) (path : FieldPath) (fs : List ComparisonFailure)
    → (injective_failure extras actual path fs).ok ≡ false
unfolding injective_failure unordered_failure
ok-injective_failure extras actual path fs = ok-with_inner_error _ _

pub ok-permutation_failure :
    (actual : List Value) (path : FieldPath) (fs : List ComparisonFailure)
    → (permutation_failure actual path fs).ok ≡ false
unfolding permutation_failure unordered_failure
ok-permutation_failure actual path fs = ok-with_inner_error _ _

-- At the start no item in the list is marked.
IsFree-at_start :
    (actual : List Value) (j : ℕ) {v : Value}
    → get_elem? actual j ≡ some v
    → IsFree (replicate (length actual) false) j
IsFree-at_start [] j at = cc
IsFree-at_start (x ∷ xs) zero at = refl
IsFree-at_start (x ∷ xs) (suc j) at = IsFree-at_start xs j at

module _ (run : BaseMatcher → Check) (actual : List Value) (path : FieldPath) where
  abbrev pub AllCalm : List BaseMatcher → Type 0
  AllCalm specs = All (λ m. IsCalm (run m)) specs

  Startable→AssignableIn :
      (m : BaseMatcher) (ms : List BaseMatcher) (i : ℕ)
      (deeper : Progress → Outcome (Bool × Progress)) (used : List Bool)
      → Startable run actual path m ms i deeper 0 used
      → AssignableIn run actual path (m ∷ ms) used
  Startable→AssignableIn m ms i deeper used (k, le, hit, free, rest) =
      let (js, fits, distinct, frees) = rest in
      let (nes, olds) = All-IsFree_of_set used k js free frees in
      (k ∷ js, (hit, fits), (nes, distinct), (free, olds))

  AssignableIn→Startable :
      (m : BaseMatcher) (ms : List BaseMatcher) (i : ℕ)
      (deeper : Progress → Outcome (Bool × Progress)) (used : List Bool)
      → AssignableIn run actual path (m ∷ ms) used
      → Startable run actual path m ms i deeper 0 used
  AssignableIn→Startable m ms i deeper used ([], fits, distinct, frees) = absurd fits
  AssignableIn→Startable m ms i deeper used (k ∷ js, fits, distinct, frees) = (
    k,
    omega arith,
    fits.0,
    frees.0,
    (js, fits.1, distinct.1, All-IsFree-set used k js distinct.0 frees.1),
  )

  pub dfs-Decides :
      (specs : List BaseMatcher)
      → AllCalm specs
      → (i : ℕ) (s : Progress)
      → Decides s.used (AssignableIn run actual path specs s.used) (dfs run actual path specs i s)
  unfolding dfs
  dfs-Decides [] calm i s = record {
    found = true;
    after = s;
    returns = refl;
    sound = λ _. ([], tt, tt, tt);
    complete = λ n. cc;
    restores = λ n. cc;
  }
  dfs-Decides (m ∷ ms) calm i s =
      let deeper = dfs run actual path ms (suc i) in
      let d =
        try_items-Decides run actual path m ms i deeper calm.0 (dfs-Decides ms calm.1 (suc i))
          actual 0 s (IsSuffix-zero actual) in
      record {
        found = d.found;
        after = d.after;
        returns = d.returns;
        sound = λ y. Startable→AssignableIn m ms i deeper s.used (d.sound y);
        complete = λ n a. d.complete n (AssignableIn→Startable m ms i deeper s.used a);
        restores = d.restores;
      }

  IsFree-of_Fits :
      (specs : List BaseMatcher) (js : List ℕ)
      → Fits run actual path specs js
      → All (IsFree (replicate (length actual) false)) js
  IsFree-of_Fits [] [] fits = tt
  IsFree-of_Fits [] (j ∷ js) fits = absurd fits
  IsFree-of_Fits (m ∷ ms) [] fits = absurd fits
  IsFree-of_Fits (m ∷ ms) (j ∷ js) fits =
      (IsFree-at_start actual j fits.0.1, IsFree-of_Fits ms js fits.1)

  -- If no check of an expected element raises, the search returns a result, and this is a success
  -- exactly when the elements can be given different items that they match.
  pub unordered_injective_dfs_iff :
      (extras : Bool) (specs : List BaseMatcher)
      → AllCalm specs
      → (r : MatchResult) × (unordered_injective_dfs_with run actual path extras specs ≡ returned r)
        × ((r.ok ≡ true) ↔ Assignable run actual path specs)
  unfolding unordered_injective_dfs_with
  unordered_injective_dfs_iff extras specs calm =
      let d =
        dfs-Decides specs calm 0
          (record { used = replicate (length actual) false; failures = [] }) in
      elim (Bool-cases d.found) [
        | inl y ↦ (
          success,
          rw (d.returns, y),
          (
            λ _. let (js, fits, distinct, frees) = d.sound y in (js, fits, distinct),
            λ a. unfold success in refl,
          ),
        )
        | inr n ↦ (
          injective_failure extras actual path d.after.failures,
          rw (d.returns, n),
          (
            λ good. cc (ok-injective_failure extras actual path d.after.failures),
            λ (js, fits, distinct).
                absurd (d.complete n (js, fits, distinct, IsFree-of_Fits specs js fits)),
          ),
        )
      ]
