-- ===== src/Common/Members.antt =====
-- Membership in a list and "some element has it", by recursion, so that they can be matched.
use mathlib.Core.Path.{◌≡◌, refl, sym, ap, subst}
use mathlib.Core.Logic.{◌⊎◌, inl, inr}
use mathlib.Core.List.{List, [], ◌∷◌, ◌++◌, map}
use mathlib.Core.Bool.{Bool, true, false}
use Prim.Native.String.{String}
use text.Mathlib.Text.{◌==◌ as str_eq}
use text.Mathlib.TextEquality.{eq_iff}
use agent_spec_kit.Common.Tests.{if◌then◌else◌, Bool-cases}
use native.Mathlib.Omega.{arith}
use agent_spec_kit.Common.Lists.{All}

abbrev pub Any {ℓ} : {A : Type ℓ} → (A → Type 0) → List A → Type 0
Any P [] = ⊥
Any P (x ∷ xs) = P x ⊎ Any P xs

-- `x` stands in the list.
abbrev pub In : {A : Type 0} → A → List A → Type 0
In x xs = Any (λ y. y ≡ x) xs

module _ {A : Type 0} where
  pub All-at {κ} : (P : A → Type κ) (xs : List A) (x : A) → All P xs → In x xs → P x
  All-at P [] x h m = absurd m
  All-at P (y ∷ ys) x h (inl e) = subst P e h.0
  All-at P (y ∷ ys) x h (inr m) = All-at P ys x h.1 m

  pub All-of_In {κ} : (P : A → Type κ) (xs : List A) → ((x : A) → In x xs → P x) → All P xs
  All-of_In P [] h = tt
  All-of_In P (x ∷ xs) h = (h x (inl refl), All-of_In P xs (λ y m. h y (inr m)))

  pub In-append_left : (x : A) (xs ys : List A) → In x xs → In x (xs ++ ys)
  In-append_left x [] ys m = absurd m
  In-append_left x (z ∷ zs) ys (inl e) = inl e
  In-append_left x (z ∷ zs) ys (inr m) = inr (In-append_left x zs ys m)

  pub In-append_right : (x : A) (xs ys : List A) → In x ys → In x (xs ++ ys)
  In-append_right x [] ys m = m
  In-append_right x (z ∷ zs) ys m = inr (In-append_right x zs ys m)

  pub Any-at : (P : A → Type 0) (xs : List A) (x : A) → In x xs → P x → Any P xs
  Any-at P [] x m h = absurd m
  Any-at P (y ∷ ys) x (inl e) h = inl (subst P (sym e) h)
  Any-at P (y ∷ ys) x (inr m) h = inr (Any-at P ys x m h)

  pub Any-elim : (P : A → Type 0) (xs : List A) → Any P xs → (x : A) × In x xs × P x
  Any-elim P [] h = absurd h
  Any-elim P (y ∷ ys) (inl h) = (y, inl refl, h)
  Any-elim P (y ∷ ys) (inr h) = let (x, m, p) = Any-elim P ys h in (x, inr m, p)

module _ {A B : Type 0} where
  pub In-map : (f : A → B) (xs : List A) (x : A) → In x xs → In (f x) (map f xs)
  In-map f [] x m = absurd m
  In-map f (z ∷ zs) x (inl e) = inl (ap f e)
  In-map f (z ∷ zs) x (inr m) = inr (In-map f zs x m)

  pub All-map_of {κ} :
      (P : B → Type κ) (f : A → B) (xs : List A) → All (λ x. P (f x)) xs → All P (map f xs)
  All-map_of P f [] h = tt
  All-map_of P f (x ∷ xs) h = (h.0, All-map_of P f xs h.1)

-- `s in names`
unfoldable pub contains : List String → String → Bool
contains [] s = false
contains (t ∷ ts) s = if str_eq t s then true else contains ts s

pub In-contains : (ts : List String) (s : String) → contains ts s ≡ true → In s ts
unfolding contains
In-contains [] s h = cc
In-contains (t ∷ ts) s h = elim (Bool-cases (str_eq t s)) [
  | inl e ↦ inl ((eq_iff t s).0 e)
  | inr n ↦ inr (In-contains ts s (rw n at h))
]

pub contains-In : (ts : List String) (s : String) → In s ts → contains ts s ≡ true
unfolding contains
contains-In [] s m = absurd m
contains-In (t ∷ ts) s (inl e) = rw ((eq_iff t s).1 e) refl
contains-In (t ∷ ts) s (inr m) = ground (arith, contains-In ts s m)

pub In-append : {A : Type 0} (x : A) (xs ys : List A) → In x (xs ++ ys) → In x xs ⊎ In x ys
In-append x [] ys m = inr m
In-append x (z ∷ zs) ys (inl e) = inl (inl e)
In-append x (z ∷ zs) ys (inr m) = elim (In-append x zs ys m) [ inl h ↦ inl (inr h) | inr h ↦ inr h ]

pub contains-append :
    (ts us : List String) (s : String)
    → contains (ts ++ us) s ≡ (if contains ts s then true else contains us s)
unfolding contains
contains-append [] us s = refl
contains-append (t ∷ ts) us s = ground (arith, contains-append ts us s)
