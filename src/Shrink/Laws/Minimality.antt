-- ===== src/Shrink/Laws/Minimality.antt =====
-- Where a pass ends without a limit.
use agent_spec_kit.Common.{
  ℕ, zero, suc, ◌<◌, ◌≡◌, ◌≢◌, ◌⊎◌, refl, String, ◌++◌, leb, arith, In, In-map, All-at,
  length-append, inl, inr, Bool, true, false, Option, none, some, List, [], ◌∷◌, length, map, All,
  Bool-cases, if◌then◌else◌, subst, sym,
}
use agent_spec_kit.Common.Outcome.{returned, Ensures, Ensures-bind}
use agent_spec_kit.Shrink.Turns.{Turns, removals, candidates_remove_one, take_budget, winners}
use agent_spec_kit.Shrink.Engine.{
  Work, Round, finished, again, Batch, chosen, verify_round, one_round, pass_loop,
}
use agent_spec_kit.Shrink.Laws.Reproduction.{IsSound}
use agent_spec_kit.Shrink.Laws.Termination.{AnswersAll, remove_user_turns_finishes}

-- `verify_batch` by one test of a candidate, which nothing changes.
abbrev pub judged : {S : Type 0} → (Turns → Bool) → Batch S
judged reproduces cands s = returned (map reproduces cands, s)

length-map : (f : Turns → Bool) (cs : List Turns) → length (map f cs) ≡ length cs
length-map f [] = refl
length-map f (c ∷ cs) = rw (length-map f cs) refl

pub judged-AnswersAll :
    {S : Type 0} (reproduces : Turns → Bool) → AnswersAll {S = S} (judged reproduces)
judged-AnswersAll reproduces cands s = length-map reproduces cands

-- The candidates that such a test selects satisfy it.
pub judged-IsSound :
    {S : Type 0} (reproduces : Turns → Bool)
    → IsSound {S = S} (λ ts. reproduces ts ≡ true) (judged reproduces)
unfolding winners
judged-IsSound reproduces [] s = tt
judged-IsSound {S} reproduces (c ∷ cs) s =
    Ensures-bind Unit (All (λ ts. reproduces ts ≡ true)) (All (λ ts. reproduces ts ≡ true))
      (winners cs (map reproduces cs)) _ (judged-IsSound {S = S} reproduces cs s)
      (λ wins good. keep wins good (Bool-cases (reproduces c)))
  where
    keep :
        (wins : List Turns)
        → All (λ ts. reproduces ts ≡ true) wins
        → ((reproduces c ≡ true) ⊎ (reproduces c ≡ false))
        → All (λ ts. reproduces ts ≡ true) (if reproduces c then c ∷ wins else wins)
    keep wins good (inl y) = simp y (refl, good)
    keep wins good (inr n) = simp n good

module _ (reproduces : Turns → Bool) (candidates : Turns → List Turns) where
  -- No candidate of the turns reproduces.
  abbrev pub IsMinimal : Turns → Type 0
  IsMinimal ts = All (λ c. reproduces c ≡ false) (candidates ts)

  judged_winners :
      (cs : List Turns)
      → (wins : List Turns) × (winners cs (map reproduces cs) ≡ returned wins)
        × (wins ≡ [] → All (λ c. reproduces c ≡ false) cs)
  unfolding winners
  judged_winners [] = ([], refl, λ e. tt)
  judged_winners (c ∷ cs) =
      let (wins, e, h) = judged_winners cs in
      elim (Bool-cases (reproduces c)) [
        | inl y ↦ (c ∷ wins, rw (e, y) refl, λ x. cc)
        | inr n ↦ (wins, rw (e, n) refl, λ x. (n, h x))
      ]

module _ {S : Type 0} (reproduces : Turns → Bool) (candidates : Turns → List Turns) where
  abbrev EndsMinimal : Round S → Type 0
  EndsMinimal (finished w) = IsMinimal reproduces candidates w.current
  EndsMinimal (again w) = Unit

  abbrev WorkMinimal : Option (Work S) → Type 0
  WorkMinimal none = Unit
  WorkMinimal (some w) = IsMinimal reproduces candidates w.current

  chosen-EndsMinimal :
      (wins : List Turns) (w : Work S) (n : ℕ) (s : S)
      → (wins ≡ [] → IsMinimal reproduces candidates w.current)
      → EndsMinimal (chosen (judged reproduces) wins w n s)
  unfolding chosen
  chosen-EndsMinimal [] w n s h = h refl
  chosen-EndsMinimal (c ∷ cs) w n s h = tt

  verify_round-EndsMinimal :
      (cands : List Turns) (w : Work S)
      → candidates w.current ≡ cands
      → Ensures Unit EndsMinimal (verify_round (judged reproduces) cands w)
  unfolding verify_round
  verify_round-EndsMinimal [] w e =
      subst (λ (cs : List Turns). All (λ c. reproduces c ≡ false) cs) (sym e) tt
  verify_round-EndsMinimal (c ∷ cs) w e =
      let (wins, found, h) = judged_winners reproduces candidates (c ∷ cs) in
      rw found (
        chosen-EndsMinimal wins w (length (c ∷ cs)) w.world
          (λ x. subst (λ (cs : List Turns). All (λ c. reproduces c ≡ false) cs) (sym e) (h x)))

  pass_loop-WorkMinimal :
      (fuel : ℕ) (w : Work S)
      → Ensures Unit WorkMinimal (pass_loop (judged reproduces) fuel candidates none w)
  unfolding pass_loop one_round take_budget
  pass_loop-WorkMinimal zero w = tt
  pass_loop-WorkMinimal (suc fuel) w =
      Ensures-bind Unit EndsMinimal WorkMinimal
        (verify_round (judged reproduces) (candidates w.current) w) _
        (verify_round-EndsMinimal (candidates w.current) w refl)
        (λ r ends. next r ends (λ w'. pass_loop-WorkMinimal fuel w'))
    where
      next :
          (r : Round S)
          → EndsMinimal r
          → ((w' : Work S)
              → Ensures Unit WorkMinimal (pass_loop (judged reproduces) fuel candidates none w'))
          → Ensures Unit WorkMinimal (elim r [
            | finished w' ↦ returned (some w')
            | again w' ↦ pass_loop (judged reproduces) fuel candidates none w'
          ])
      next (finished w') ends later = ends
      next (again w') ends later = later w'

-- No list of one turn less, and one at least, reproduces.
abbrev pub IsOneMinimal : (Turns → Bool) → Turns → Type 0
IsOneMinimal reproduces ts =
    (before : Turns) (t : String) (after : Turns)
    → ts ≡ before ++ (t ∷ after)
    → before ++ after ≢ []
    → reproduces (before ++ after) ≡ false

In-removals :
    (before : Turns) (t : String) (after : Turns)
    → In (before ++ after) (removals (before ++ (t ∷ after)))
unfolding removals
In-removals [] t after = inl refl
In-removals (b ∷ before) t after = inr (
    In-map (λ rest. b ∷ rest) (removals (before ++ (t ∷ after))) (before ++ after)
      (In-removals before t after))

several :
    (before : Turns) (t : String) (after : Turns)
    → before ++ after ≢ []
    → leb (length (before ++ (t ∷ after))) 1 ≡ false
several [] t [] ne = absurd (ne refl)
several [] t (a ∷ after) ne = ground arith
several (b ∷ before) t after ne = ground (arith, length-append before (t ∷ after))

In-candidates_remove_one :
    (before : Turns) (t : String) (after : Turns)
    → before ++ after ≢ []
    → In (before ++ after) (candidates_remove_one (before ++ (t ∷ after)))
unfolding candidates_remove_one
In-candidates_remove_one before t after ne =
    rw (several before t after ne) (In-removals before t after)

IsMinimal-IsOneMinimal :
    (reproduces : Turns → Bool) (ts : Turns)
    → IsMinimal reproduces candidates_remove_one ts
    → IsOneMinimal reproduces ts
IsMinimal-IsOneMinimal reproduces ts all before t after e ne =
    All-at (λ c. reproduces c ≡ false) (candidates_remove_one ts) (before ++ after) all
      (subst (λ us. In (before ++ after) (candidates_remove_one us)) (sym e)
        (In-candidates_remove_one before t after ne))

-- If one test decides whether turns reproduce the failure, the pass that removes turns, without a
-- limit, returns turns such that no list of one turn less, and one at least, reproduces it.
pub remove_user_turns-IsMinimal :
    {S : Type 0} (reproduces : Turns → Bool) (fuel : ℕ) (w : Work S)
    → length w.current < fuel
    → (w' : Work S) × (pass_loop (judged reproduces) fuel candidates_remove_one none w
        ≡ returned (some w'))
      × IsOneMinimal reproduces w'.current
remove_user_turns-IsMinimal {S} reproduces fuel w less =
    let (w', e) =
      remove_user_turns_finishes (judged reproduces) (judged-AnswersAll {S = S} reproduces) fuel
        none w less in
    (
      w',
      e,
      IsMinimal-IsOneMinimal reproduces w'.current (
          subst (Ensures Unit (WorkMinimal reproduces candidates_remove_one)) e
            (pass_loop-WorkMinimal reproduces candidates_remove_one fuel w)),
    )
