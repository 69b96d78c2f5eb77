-- ===== src/Common/Action.antt =====
-- What a Python method does to its object.
use mathlib.Core.Path.{◌≡◌, refl, ap, ◌∙◌}

-- What a Python method does to its object: it completes or halts, and what it wrote stays written.
pub data Ended (X A : Type 0) : Type 0 where
  completed : A → Ended X A
  halted : X → Ended X A

-- `S` is the state, `X` what a call that does not complete halts with.
abbrev pub Action : (S X A : Type 0) → Type 0
Action S X A = S → Ended X A × S

abbrev pub ended_as : {S X A B : Type 0} → (A → S → Ended X B × S) → Ended X A → S → Ended X B × S
ended_as f (completed a) s = f a s
ended_as f (halted x) s = (halted x, s)

infixl 5 ◌>>=◌ ◌>>◌
abbrev pub ◌>>=◌ : {S X A B : Type 0} → Action S X A → (A → Action S X B) → Action S X B
◌>>=◌ m f s = ended_as f (m s).0 (m s).1

abbrev pub ◌>>◌ : {S X A B : Type 0} → Action S X A → Action S X B → Action S X B
m >> k = m >>= λ _. k

module _ {S X : Type 0} where
  abbrev pub complete : {A : Type 0} → A → Action S X A
  complete a s = (completed a, s)

  abbrev pub halt : {A : Type 0} → X → Action S X A
  halt x s = (halted x, s)

  abbrev pub gets : {A : Type 0} → (S → A) → Action S X A
  gets f s = (completed (f s), s)

  abbrev pub modify : (S → S) → Action S X Unit
  modify f s = (completed tt, f s)

  -- `try` and what follows it: `h` sees how the call ended.
  abbrev pub handled : {A B : Type 0} → Action S X A → (Ended X A → Action S X B) → Action S X B
  handled m h s = h (m s).0 (m s).1

pub ended_as-completed :
    {S X A B : Type 0} (r : Ended X A) (t : S) (f : A → Action S X B) {b : B} {u : S}
    → ended_as f r t ≡ (completed b, u)
    → (a : A) × (r ≡ completed a) × (f a t ≡ (completed b, u))
ended_as-completed (completed a) t f e = (a, refl, e)
ended_as-completed (halted x) t f e = absurd (cc e)

-- What completes as a whole completes in both its parts.
pub bind-completed :
    {S X A B : Type 0} (m : Action S X A) (f : A → Action S X B) (s : S) {b : B} {u : S}
    → (m >>= f) s ≡ (completed b, u)
    → (a : A) × (t : S) × (m s ≡ (completed a, t)) × (f a t ≡ (completed b, u))
bind-completed m f s e =
    let (a, first, rest) = ended_as-completed (m s).0 (m s).1 f e in
    (a, (m s).1, ap (λ r. (r, (m s).1)) first, rest)

pub completed_inj :
    {X A : Type 0} {a b : A} → ◌≡◌ {A = Ended X A} (completed a) (completed b) → a ≡ b
completed_inj e = cc

-- Two calls whose results are put together.
pub both-completed :
    {S X A B C : Type 0} (m : Action S X A) (n : Action S X B) (f : A → B → C) (s : S) {c : C}
    {u : S}
    → (m >>= λ a. n >>= λ b. complete (f a b)) s ≡ (completed c, u)
    → (a : A) × (b : B) × (t : S) × (f a b ≡ c)
      × (m s ≡ (completed a, t))
      × (n t ≡ (completed b, u))
both-completed m n f s e =
    let (a, t, first, after) = bind-completed m (λ a. n >>= λ b. complete (f a b)) s e in
    let (b, v, second, last) = bind-completed n (λ b. complete (f a b)) t after in
    (
      a,
      b,
      t,
      completed_inj (ap (λ r. r.0) last),
      first,
      second ∙ ap (λ y. (completed b, y)) (ap (λ r. r.1) last),
    )
