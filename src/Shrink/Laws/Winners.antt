-- ===== src/Shrink/Laws/Winners.antt =====
-- The candidates that reproduce, and the lightest of them.
use agent_spec_kit.Common.{
  ℕ, zero, suc, ◌<◌, ◌≤◌, ◌≡◌, refl, Bool, true, false, none, some, List, [], ◌∷◌, arith, All, inl,
  inr, All-map, All-map_of, length, take, if◌then◌else◌, leb, Bool-cases,
}
use agent_spec_kit.Common.Outcome.{Ensures, Ensures-bind}
use agent_spec_kit.Shrink.Turns.{
  Turns, Budget, removals, candidates_remove_one, take_budget, lighter, lightest, winners,
}

module _ (P : Turns → Type 0) where
  pub lightest-All : (best : Turns) (cs : List Turns) → P best → All P cs → P (lightest best cs)
  unfolding lightest
  lightest-All best [] h hs = h
  lightest-All best (c ∷ cs) h hs =
      lightest-All (if lighter c best then c else best) cs (pick (lighter c best)) hs.1
    where
      pick : (b : Bool) → P (if b then c else best)
      pick true = hs.0
      pick false = h

  -- A list of answers for every candidate is read without an exception.
  pub winners-All :
      (cands : List Turns) (bs : List Bool)
      → All P cands
      → length bs ≡ length cands
      → Ensures ⊥ (All P) (winners cands bs)
  unfolding winners
  winners-All [] [] h same = tt
  winners-All [] (b ∷ bs) h same = omega arith
  winners-All (c ∷ cs) [] h same = omega arith
  winners-All (c ∷ cs) (b ∷ bs) h same =
      Ensures-bind ⊥ (All P) (All P) (winners cs bs) _ (winners-All cs bs h.1 (omega arith))
        (λ wins good. keep b wins good)
    where
      keep : (b : Bool) (wins : List Turns) → All P wins → All P (if b then c ∷ wins else wins)
      keep true wins good = (h.0, good)
      keep false wins good = good

  take_budget-All : (cands : List Turns) (n : ℕ) → All P cands → All P (take n cands)
  take_budget-All cands zero h = tt
  take_budget-All [] (suc n) h = tt
  take_budget-All (c ∷ cs) (suc n) h = (h.0, take_budget-All cs n h.1)

  pub All-take_budget :
      (cands : List Turns) (budget : Budget) → All P cands → All P (take_budget cands budget)
  unfolding take_budget
  All-take_budget cands none h = h
  All-take_budget cands (some b) h = take_budget-All cands b h

length-take : (n : ℕ) (cands : List Turns) → length (take n cands) ≤ n
length-take zero cands = omega arith
length-take (suc n) [] = omega arith
length-take (suc n) (c ∷ cs) = omega (arith, length-take n cs)

pub length-take_budget : (cands : List Turns) (b : ℕ) → length (take_budget cands (some b)) ≤ b
unfolding take_budget
length-take_budget cands b = length-take b cands

removals-length : (ts : Turns) → All (λ c. suc (length c) ≡ length ts) (removals ts)
unfolding removals
removals-length [] = tt
removals-length (t ∷ ts) = (
  refl,
  All-map_of (λ (c : Turns). suc (length c) ≡ length (t ∷ ts)) (λ (rest : Turns). t ∷ rest)
      (removals ts)
      (All-map (λ (c : Turns). suc (length c) ≡ length ts)
        (λ (rest : Turns). suc (length (t ∷ rest)) ≡ length (t ∷ ts)) (λ c e. omega arith)
        (removals ts) (removals-length ts)),
)

-- Each candidate has one turn less, and one at least.
pub candidates_remove_one-length :
    (ts : Turns) → All (λ c. (length c < length ts) × (1 ≤ length c)) (candidates_remove_one ts)
unfolding candidates_remove_one
candidates_remove_one-length ts = elim (Bool-cases (leb (length ts) 1)) [
  | inl few ↦ rw few tt
  | inr many ↦
      let more = lt_of_leb (length ts) many in
      rw many (
        All-map (λ (c : Turns). suc (length c) ≡ length ts)
          (λ (c : Turns). (length c < length ts) × (1 ≤ length c))
          (λ c e. (omega arith, omega arith)) (removals ts) (removals-length ts))
]
  where
    lt_of_leb : (n : ℕ) → leb n 1 ≡ false → 1 < n
    lt_of_leb n e = ground arith
