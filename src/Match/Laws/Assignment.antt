-- ===== src/Match/Laws/Assignment.antt =====
-- Assignments of expected elements to different items: what the unordered matchers search for.
use agent_spec_kit.Common.{
  ℕ, zero, suc, ◌≡◌, ◌∙◌, ◌≢◌, Bool, true, false, some, List, [], ◌∷◌, arith, get_elem?, set, All,
  get_elem?-set_ne,
}
use agent_spec_kit.Common.Outcome.{Outcome, returned, raised}
use agent_spec_kit.Match.Value.{Value}
use agent_spec_kit.Match.Types.{FieldPath, MatchResult}
use agent_spec_kit.Match.Protocol.{Check, BaseMatcher}
use agent_spec_kit.Match.Lists.Payload.{at_index}

-- Whether a check returns a result that is a match.
abbrev pub accepted : Outcome MatchResult → Bool
accepted (returned r) = r.ok
accepted (raised e) = false

abbrev pub Returns {ℓ} : {A : Type ℓ} → Outcome A → Type ℓ
Returns {A} m = (a : A) × (m ≡ returned a)

-- A matcher whose check raises nothing.
abbrev pub IsCalm : Check → Type 0
IsCalm check = (v : Value) (path : FieldPath) → Returns (check v path)

abbrev pub IsFree : List Bool → ℕ → Type 0
IsFree used j = get_elem? used j ≡ some false

abbrev pub Distinct : List ℕ → Type 0
Distinct [] = Unit {0}
Distinct (j ∷ js) = All (λ k. j ≢ k) js × Distinct js

module _ (run : BaseMatcher → Check) (actual : List Value) (path : FieldPath) where
  -- There is an item at index `j`, and `m` matches it.
  abbrev pub Hits : BaseMatcher → ℕ → Type 0
  Hits m j =
      (v : Value) × (get_elem? actual j ≡ some v) × (accepted (run m v (at_index path j)) ≡ true)

  -- The elements match the items at the positions of the list, one to one.
  abbrev pub Fits : List BaseMatcher → List ℕ → Type 0
  Fits [] [] = Unit {0}
  Fits [] (j ∷ js) = ⊥
  Fits (m ∷ ms) [] = ⊥
  Fits (m ∷ ms) (j ∷ js) = Hits m j × Fits ms js

  -- Each element can be given an item of its own.
  abbrev pub Assignable : List BaseMatcher → Type 0
  Assignable ms = (js : List ℕ) × Fits ms js × Distinct js

  -- The same, where the marked items are taken already.
  abbrev pub AssignableIn : List BaseMatcher → List Bool → Type 0
  AssignableIn ms used = (js : List ℕ) × Fits ms js × Distinct js × All (IsFree used) js

-- An index that is free after `j` was taken is another one, and was free before.
pub IsFree-of_set :
    (used : List Bool) (j k : ℕ)
    → IsFree used j
    → IsFree (set used j true) k
    → (j ≢ k) × IsFree used k
IsFree-of_set [] j k free h = ground arith
IsFree-of_set (u ∷ us) zero zero free h = ground arith
IsFree-of_set (u ∷ us) zero (suc k) free h = (λ e. omega arith, h)
IsFree-of_set (u ∷ us) (suc j) zero free h = (λ e. omega arith, h)
IsFree-of_set (u ∷ us) (suc j) (suc k) free h =
    let (ne, old) = IsFree-of_set us j k free h in (λ e. ne (omega arith), old)

pub All-IsFree_of_set :
    (used : List Bool) (j : ℕ) (js : List ℕ)
    → IsFree used j
    → All (IsFree (set used j true)) js
    → All (λ k. j ≢ k) js × All (IsFree used) js
All-IsFree_of_set used j [] free h = (tt, tt)
All-IsFree_of_set used j (k ∷ ks) free h =
    let (ne, old) = IsFree-of_set used j k free h.0 in
    let (nes, olds) = All-IsFree_of_set used j ks free h.1 in ((ne, nes), (old, olds))

pub All-IsFree-set :
    (used : List Bool) (j : ℕ) (js : List ℕ)
    → All (λ k. j ≢ k) js
    → All (IsFree used) js
    → All (IsFree (set used j true)) js
All-IsFree-set used j [] nes frees = tt
All-IsFree-set used j (k ∷ ks) nes frees =
    (get_elem?-set_ne used true nes.0 ∙ frees.0, All-IsFree-set used j ks nes.1 frees.1)
