-- ===== src/Common/Suffix.antt =====
-- A loop that walks a list by index: what is left of it from an index on.
use Prim.Native.Nat.{ℕ, suc, ◌+◌, ◌-◌, ◌≤◌}
use mathlib.Core.Path.{◌≡◌, ◌∙◌, ap}
use mathlib.Core.List.{List, [], ◌∷◌}
use mathlib.Core.Option.{some}
use native.Mathlib.Omega.{arith}
use agent_spec_kit.Common.Lists.{get_elem?}

module _ {ℓ} {A : Type ℓ} where
  -- `rest` holds the elements of `xs` from index `j` on.
  abbrev pub IsSuffix : List A → ℕ → List A → Type ℓ
  IsSuffix xs j rest = (k : ℕ) → get_elem? xs (j + k) ≡ get_elem? rest k

module _ {ℓ} {A : Type ℓ} (xs : List A) where
  pub IsSuffix-zero : IsSuffix xs 0 xs
  IsSuffix-zero k = ap (get_elem? xs) (omega arith)

  pub IsSuffix-tail :
      (j : ℕ) (x : A) (rest : List A) → IsSuffix xs j (x ∷ rest) → IsSuffix xs (suc j) rest
  IsSuffix-tail j x rest h k = ap (get_elem? xs) (omega arith) ∙ h (suc k)

  pub IsSuffix-head :
      (j : ℕ) (x : A) (rest : List A) → IsSuffix xs j (x ∷ rest) → get_elem? xs j ≡ some x
  IsSuffix-head j x rest h = ap (get_elem? xs) (omega arith) ∙ h 0

  -- Behind the end there is no element.
  pub past_end :
      (j : ℕ) → IsSuffix xs j [] → (k : ℕ) → j ≤ k → {x : A} → get_elem? xs k ≡ some x → ⊥
  past_end j h k le at =
      let e : k ≡ j + (k - j) = omega arith in cc (ap (get_elem? xs) e, h (k - j))
