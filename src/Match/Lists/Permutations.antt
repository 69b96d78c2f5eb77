-- ===== src/Match/Lists/Permutations.antt =====
-- `itertools.permutations` on a list of positions, in its order.
use agent_spec_kit.Common.{ℕ, zero, suc, List, [], ◌∷◌, ◌++◌, map}

-- Each element, with the elements that are left.
unfoldable pub selections : List ℕ → List (ℕ × List ℕ)
selections [] = []
selections (x ∷ xs) = (x, xs) ∷ map (λ (s : ℕ × List ℕ). (s.0, x ∷ s.1)) (selections xs)

-- The lists that start with one of the selected elements and go on with its rest's arrangements.
unfoldable pub start_with : (List ℕ → List (List ℕ)) → List (ℕ × List ℕ) → List (List ℕ)
start_with arrange [] = []
start_with arrange (s ∷ ss) = map (λ p. s.0 ∷ p) (arrange s.1) ++ start_with arrange ss

-- `permutations(pool, r)`
unfoldable pub permutations : ℕ → List ℕ → List (List ℕ)
unfolding selections start_with
permutations zero pool = [] ∷ []
permutations (suc r) pool = start_with (permutations r) (selections pool)

-- `range(start, start + n)`
unfoldable pub positions : ℕ → ℕ → List ℕ
positions start zero = []
positions start (suc n) = start ∷ positions (suc start) n
