-- ===== src/Shrink/Laws/Termination.antt =====
-- The loops of the passes end.
use agent_spec_kit.Common.{
  ℕ, zero, suc, ◌+◌, ◌-◌, ◌≤◌, ◌<◌, ◌≡◌, refl, inl, inr, Bool, Option, none, some, List, [], ◌∷◌,
  length, arith, Bool-cases, ne_of_test, All, All-of_In,
}
use agent_spec_kit.Common.Outcome.{Outcome, returned, raised, Ensures, Ensures-bind}
use agent_spec_kit.Shrink.Turns.{Turns, Budget, candidates_remove_one, lightest, winners}
use agent_spec_kit.Shrink.Engine.{
  spent, pay, Work, Round, finished, again, Batch, chosen, verify_round, one_round, pass_loop,
}
use agent_spec_kit.Shrink.Laws.Winners.{
  lightest-All, winners-All, All-take_budget, candidates_remove_one-length,
}

-- `verify_batch` returns an answer for every candidate.
abbrev pub AnswersAll : {S : Type 0} → Batch S → Type 0
AnswersAll {S} verify_batch =
    (cands : List Turns) (s : S)
    → Ensures ⊥ (λ (a : List Bool × S). length a.0 ≡ length cands) (verify_batch cands s)

module _ {S : Type 0} (verify_batch : Batch S) (total : AnswersAll verify_batch) where
  abbrev Descends : (Work S → ℕ) → ℕ → Round S → Type 0
  Descends measure n (finished w) = Unit
  Descends measure n (again w) = measure w < n

  abbrev Done : Option (Work S) → Type 0
  Done none = ⊥
  Done (some w) = Unit

  chosen-Descends :
      (P : Turns → Type 0) (measure : Work S → ℕ) (wins : List Turns) (w : Work S) (n bound : ℕ)
      (s : S)
      → All P wins
      → ((c : Turns)
          → P c
          → measure (record { current = c; evaluated = w.evaluated + n; world = s }) < bound)
      → Descends measure bound (chosen verify_batch wins w n s)
  unfolding chosen
  chosen-Descends P measure [] w n bound s h less = tt
  chosen-Descends P measure (c ∷ cs) w n bound s h less =
      less (lightest c cs) (lightest-All P c cs h.0 h.1)

  verify_round-Descends :
      (P : Turns → Type 0) (measure : Work S → ℕ) (cands : List Turns) (w : Work S) (bound : ℕ)
      → All P cands
      → ((c : Turns) (n : ℕ) (s : S)
          → P c
          → 1 ≤ n
          → measure (record { current = c; evaluated = w.evaluated + n; world = s }) < bound)
      → Ensures ⊥ (Descends measure bound) (verify_round verify_batch cands w)
  unfolding verify_round
  verify_round-Descends P measure [] w bound h less = tt
  verify_round-Descends P measure (c ∷ cs) w bound h less =
      Ensures-bind ⊥ (λ (a : List Bool × S). length a.0 ≡ length (c ∷ cs)) (Descends measure bound)
        (verify_batch (c ∷ cs) w.world) _ (total (c ∷ cs) w.world)
        (λ a same.
          Ensures-bind ⊥ (All P) (Descends measure bound) (winners (c ∷ cs) a.0) _
            (winners-All P (c ∷ cs) a.0 h same)
            (λ wins good.
              chosen-Descends P measure wins w (length (c ∷ cs)) bound a.1 good
                (λ d p. less d (length (c ∷ cs)) a.1 p (omega arith))))

  pass_loop-Done :
      (measure : Work S → ℕ) (candidates : Turns → List Turns) (budget : Budget)
      → ((w : Work S)
          → Ensures ⊥
              (Descends measure (measure w))
              (one_round verify_batch candidates (pay budget w.evaluated) w))
      → (fuel : ℕ) (w : Work S) → measure w < fuel
      → Ensures ⊥ Done (pass_loop verify_batch fuel candidates budget w)
  unfolding pass_loop
  pass_loop-Done measure candidates budget step zero w less = omega arith
  pass_loop-Done measure candidates budget step (suc fuel) w less =
      Ensures-bind ⊥ (Descends measure (measure w)) Done
        (one_round verify_batch candidates (pay budget w.evaluated) w) _ (step w)
        (λ r down.
          next r down
            (λ w' lt. pass_loop-Done measure candidates budget step fuel w' (omega arith)))
    where
      next :
          (r : Round S)
          → Descends measure (measure w) r
          → ((w' : Work S)
              → measure w' < measure w
              → Ensures ⊥ Done (pass_loop verify_batch fuel candidates budget w'))
          → Ensures ⊥ Done (elim r [
            | finished w' ↦ returned (some w')
            | again w' ↦ pass_loop verify_batch fuel candidates budget w'
          ])
      next (finished w') down later = tt
      next (again w') down later = later w' down

  Done-work :
      (o : Outcome (Option (Work S))) → Ensures ⊥ Done o → (w : Work S) × (o ≡ returned (some w))
  Done-work (returned none) h = absurd h
  Done-work (returned (some w)) h = (w, refl)
  Done-work (raised e) h = absurd h

  remove_round-Descends :
      (budget : Budget) (w : Work S)
      → Ensures ⊥
          (Descends (λ v. length v.current) (length w.current))
          (one_round verify_batch candidates_remove_one (pay budget w.evaluated) w)
  unfolding one_round
  remove_round-Descends budget w = elim (Bool-cases (spent (pay budget w.evaluated))) [
    | inl y ↦ rw y tt
    | inr n ↦ rw n (
        verify_round-Descends (λ c. (length c < length w.current) × (1 ≤ length c))
          (λ v. length v.current) _ w (length w.current)
          (All-take_budget (λ c. (length c < length w.current) × (1 ≤ length c))
            (candidates_remove_one w.current) (pay budget w.evaluated)
            (candidates_remove_one-length w.current))
          (λ c n s p le. p.0))
  ]

  limited_round-Descends :
      (candidates : Turns → List Turns) (limit : ℕ) (w : Work S)
      → Ensures ⊥
          (Descends (λ v. limit - v.evaluated) (limit - w.evaluated))
          (one_round verify_batch candidates (some (limit - w.evaluated)) w)
  unfolding one_round
  limited_round-Descends candidates limit w =
      elim (Bool-cases (spent (some (limit - w.evaluated)))) [
        | inl y ↦ rw y tt
        | inr n ↦
            let left = ne_of_test (limit - w.evaluated) 0 n in
            rw n (
              verify_round-Descends (λ c. Unit) (λ v. limit - v.evaluated) _ w (limit - w.evaluated)
                (All-of_In (λ c. Unit) _ (λ x m. tt)) (λ c n s p le. less w.evaluated n le left))
      ]
    where
      less : (done n : ℕ) → 1 ≤ n → ((limit - done ≡ 0) → ⊥) → limit - (done + n) < limit - done
      less done n le left = ground arith

  -- If `verify_batch` answers for every candidate, the pass that removes turns returns a result,
  -- under any limit, after at most as many rounds as there are turns, and one more.
  pub remove_user_turns_finishes :
      (fuel : ℕ) (budget : Budget) (w : Work S)
      → length w.current < fuel
      → (w' : Work S) × (pass_loop verify_batch fuel candidates_remove_one budget w
          ≡ returned (some w'))
  remove_user_turns_finishes fuel budget w less = Done-work _ (
      pass_loop-Done (λ v. length v.current) candidates_remove_one budget
        (remove_round-Descends budget) fuel w less)

  -- If `verify_batch` answers for every candidate, a loop over any candidates returns a result under
  -- a limit, after at most as many rounds as the limit leaves, and one more.
  pub limited_pass_finishes :
      (fuel : ℕ) (candidates : Turns → List Turns) (limit : ℕ) (w : Work S)
      → limit - w.evaluated < fuel
      → (w' : Work S) × (pass_loop verify_batch fuel candidates (some limit) w ≡ returned (some w'))
  limited_pass_finishes fuel candidates limit w less = Done-work _ (
      pass_loop-Done (λ v. limit - v.evaluated) candidates (some limit)
        (limited_round-Descends candidates limit) fuel w less)
