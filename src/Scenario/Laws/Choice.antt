-- ===== src/Scenario/Laws/Choice.antt =====
-- The turn that a check is about.
use agent_spec_kit.Common.{
  ◌≡◌, ◌≢◌, ◌⊎◌, refl, subst, sym, ap, ◌∙◌, String, false, Option, none, some, List, [], ◌∷◌, ◌++◌,
  str_eq, eq_iff, All, All-append, append_assoc, Bool-cases, inl, inr,
}
use mathlib.Core.List.{reverse, reverse-append, reverse-cons, reverse-reverse}
use agent_spec_kit.Common.Outcome.{assertion_error, Outcome, returned, raised}
use agent_spec_kit.Scenario.Events.{ConversationTurn}
use agent_spec_kit.Scenario.Records.{last_of}
use agent_spec_kit.Scenario.Arguments.{
  default_assert_actor, chosen_actor, first_of, conversation_for_assert,
}

abbrev IsOther : String → ConversationTurn → Type 0
IsOther a ct = ct.actor ≢ a

-- The outcome is the last turn of the actor, or an AssertionError where the actor has none.
abbrev pub IsLastOf : String → List ConversationTurn → Outcome ConversationTurn → Type 0
IsLastOf a turns (returned ct) =
    (ct.actor ≡ a)
    × (before : List ConversationTurn) × (after : List ConversationTurn) × (turns
        ≡ before ++ (ct ∷ after))
    × All (λ other. other.actor ≢ a) after
IsLastOf a turns (raised e) = (e ≡ assertion_error) × All (λ other. other.actor ≢ a) turns

-- The same, of the turns from the last back.
abbrev IsFirstOf : String → List ConversationTurn → Option ConversationTurn → Type 0
IsFirstOf a turns (some ct) =
    (ct.actor ≡ a)
    × (before : List ConversationTurn) × (after : List ConversationTurn) × (turns
        ≡ before ++ (ct ∷ after))
    × All (IsOther a) before
IsFirstOf a turns none = All (IsOther a) turns

other : (a b : String) → str_eq a b ≡ false → a ≢ b
other a b t e = cc (t, (eq_iff a b).1 e)

IsFirstOf-cons :
    (a : String) (ct : ConversationTurn) (turns : List ConversationTurn)
    (found : Option ConversationTurn)
    → ct.actor ≢ a
    → IsFirstOf a turns found
    → IsFirstOf a (ct ∷ turns) found
IsFirstOf-cons a ct turns none ne h = (ne, h)
IsFirstOf-cons a ct turns (some c) ne (e, before, after, split, others) =
    (e, ct ∷ before, after, ap (λ l. ct ∷ l) split, (ne, others))

first_of-IsFirstOf :
    (a : String) (turns : List ConversationTurn) → IsFirstOf a turns (first_of a turns)
unfolding first_of
first_of-IsFirstOf a [] = tt
first_of-IsFirstOf a (ct ∷ turns) = elim (Bool-cases (str_eq ct.actor a)) [
  | inl same ↦ rw same ((eq_iff ct.actor a).0 same, [], turns, refl, tt)
  | inr differs ↦ rw differs (
      IsFirstOf-cons a ct turns (first_of a turns) (other ct.actor a differs)
        (first_of-IsFirstOf a turns))
]

All-reverse {ℓ κ} : {A : Type ℓ} (P : A → Type κ) (xs : List A) → All P xs → All P (reverse xs)
All-reverse P [] h = tt
All-reverse P (x ∷ xs) (hx, h) =
    rw (reverse-cons x xs) (All-append P (reverse xs) (x ∷ []) (All-reverse P xs h) (hx, tt))

split_reversed {ℓ} :
    {A : Type ℓ} (turns before after : List A) (ct : A)
    → reverse turns ≡ before ++ (ct ∷ after)
    → turns ≡ reverse after ++ (ct ∷ reverse before)
split_reversed turns before after ct e =
    sym (reverse-reverse turns)
    ∙ ap reverse e
    ∙ reverse-append before (ct ∷ after)
    ∙ ap (λ l. l ++ reverse before) (reverse-cons ct after)
    ∙ append_assoc (reverse after) (ct ∷ []) (reverse before)

of_first :
    (a : String) (turns : List ConversationTurn) (found : Option ConversationTurn)
    → IsFirstOf a (reverse turns) found
    → IsLastOf a turns (elim found [ none ↦ raised assertion_error | some ct ↦ returned ct ])
of_first a turns none h = (
  refl,
  subst (All (IsOther a)) (reverse-reverse turns) (All-reverse (IsOther a) (reverse turns) h),
)
of_first a turns (some ct) (e, before, after, split, others) = (
  e,
  reverse after,
  reverse before,
  split_reversed turns before after ct split,
  All-reverse (IsOther a) before others,
)

-- The actor is the given one. If none is given, it is that of the last turn, or "agent" if there are no
-- turns.
abbrev pub IsAsked : List ConversationTurn → (actor : Option String) → String → Type 0
IsAsked turns (some given) a = a ≡ given
IsAsked turns none a =
    ((turns ≡ []) × (a ≡ "agent"))
    ⊎ ((before : List ConversationTurn) × (ct : ConversationTurn) × (turns ≡ before ++ ct ∷ [])
        × (a ≡ ct.actor))

default_assert_actor-IsAsked :
    (turns : List ConversationTurn) → IsAsked turns none (default_assert_actor turns)
unfolding default_assert_actor last_of
default_assert_actor-IsAsked [] = inl (refl, refl)
default_assert_actor-IsAsked (t ∷ []) = inr ([], t, refl, refl)
default_assert_actor-IsAsked (t ∷ u ∷ ts) = elim (default_assert_actor-IsAsked (u ∷ ts)) [
  | inl (e, a) ↦ absurd (cc e)
  | inr (before, ct, e, a) ↦ inr (t ∷ before, ct, ap (λ l. t ∷ l) e, a)
]

chosen_actor-IsAsked :
    (turns : List ConversationTurn) (actor : Option String)
    → IsAsked turns actor (chosen_actor turns actor)
chosen_actor-IsAsked turns none = default_assert_actor-IsAsked turns
chosen_actor-IsAsked turns (some a) = refl

-- The turn that a check is about is the last one of its actor, who is the given one or, if none is
-- given, that of the last turn, or "agent" if there are no turns; where the actor has no turn, there is
-- an AssertionError.
pub conversation_for_assert-IsLastOf :
    (turns : List ConversationTurn) (actor : Option String)
    → (a : String) × IsAsked turns actor a × IsLastOf a turns (conversation_for_assert turns actor)
unfolding conversation_for_assert
conversation_for_assert-IsLastOf turns actor = (
  chosen_actor turns actor,
  chosen_actor-IsAsked turns actor,
  of_first (chosen_actor turns actor) turns (first_of (chosen_actor turns actor) (reverse turns))
      (first_of-IsFirstOf (chosen_actor turns actor) (reverse turns)),
)
