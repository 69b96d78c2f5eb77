-- ===== src/Common/Outcome.antt =====
-- What a Python call does: it returns a value, or it raises an exception that the caller meets.
use mathlib.Core.Bool.{Bool, true, false}
use mathlib.Core.Path.{◌≡◌, refl, sym, subst}
use mathlib.Core.Logic.{◌↔◌}
use Prim.Native.String.{String}
use agent_spec_kit.Common.Tests.{if◌then◌else◌}

pub data Exception : Type 0 where
  type_error value_error key_error runtime_error overflow_error assertion_error : Exception
  other_error : String → Exception

pub data Outcome {ℓ} (A : Type ℓ) : Type ℓ where
  returned : A → Outcome A
  raised : Exception → Outcome A

infixl 5 ◌>>=◌ ◌>>◌
abbrev pub ◌>>=◌ {ℓ κ} : {A : Type ℓ} {B : Type κ} → Outcome A → (A → Outcome B) → Outcome B
returned a >>= f = f a
raised e >>= f = raised e

abbrev pub ◌>>◌ {ℓ κ} : {A : Type ℓ} {B : Type κ} → Outcome A → Outcome B → Outcome B
m >> k = m >>= λ _. k

-- Every outcome has the property: a returned value `P`, an exception `E`. With `E` empty nothing
-- is raised; with `E` the unit type only returned values matter.
abbrev pub Ensures {ℓ κ} : {A : Type ℓ} → Type κ → (A → Type κ) → Outcome A → Type κ
Ensures E P (returned a) = P a
Ensures E P (raised e) = E

pub Ensures-bind {ℓ κ μ} :
    {A : Type ℓ} {B : Type κ} (E : Type μ) (P : A → Type μ) (Q : B → Type μ) (m : Outcome A)
    (f : A → Outcome B)
    → Ensures E P m
    → ((a : A) → P a → Ensures E Q (f a))
    → Ensures E Q (m >>= f)
Ensures-bind E P Q (returned a) f h k = k a h
Ensures-bind E P Q (raised e) f h k = h

pub Ensures-branch {ℓ κ} :
    {A : Type ℓ} (E : Type κ) (P : A → Type κ) (b : Bool) (x y : Outcome A)
    → Ensures E P x
    → Ensures E P y
    → Ensures E P (elim b [ true ↦ x | false ↦ y ])
Ensures-branch E P true x y hx hy = hx
Ensures-branch E P false x y hx hy = hy

pub Ensures-if {ℓ κ} :
    {A : Type ℓ} (E : Type κ) (P : A → Type κ) (b : Bool) (x y : Outcome A)
    → Ensures E P x
    → Ensures E P y
    → Ensures E P (if b then x else y)
Ensures-if E P true x y hx hy = hx
Ensures-if E P false x y hx hy = hy

pub Ensures-any {ℓ} : {A : Type ℓ} (E : Type 0) (m : Outcome A) → E → Ensures E (λ _. Unit {0}) m
Ensures-any E (returned a) x = tt
Ensures-any E (raised e) x = x

pub returned_inj {ℓ} :
    {A : Type ℓ} {a b : A} → ◌≡◌ {A = Outcome A} (returned a) (returned b) → a ≡ b
returned_inj e = cc

-- A chain of outcomes returns what it does by its parts.
pub bind-returned :
    {A B : Type 0} (o : Outcome A) (f : A → Outcome B) {b : B}
    → ((o >>= f) ≡ returned b) ↔ ((a : A) × (o ≡ returned a) × (f a ≡ returned b))
bind-returned (returned a) f =
    (λ h. (a, refl, h), λ (a', e, h). subst (λ x. f x ≡ _) (sym (returned_inj e)) h)
bind-returned (raised e) f = (λ h. absurd (cc h), λ (a, e, h). absurd (cc e))

pub bind_assoc :
    {A B C : Type 0} (o : Outcome A) (f : A → Outcome B) (g : B → Outcome C)
    → ((o >>= f) >>= g) ≡ (o >>= λ a. f a >>= g)
bind_assoc (returned a) f g = refl
bind_assoc (raised e) f g = refl
