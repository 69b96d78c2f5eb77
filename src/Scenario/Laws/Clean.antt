-- ===== src/Scenario/Laws/Clean.antt =====
-- When a turn has no error of an agent.
use agent_spec_kit.Common.{
  ◌≡◌, ◌≢◌, ◌↔◌, ◌⊎◌, inl, inr, refl, ap, String, false, Option, none, some, List, [], ◌∷◌, ◌++◌,
  str_eq, eq_iff, contains, All, Bool-cases,
}
use agent_spec_kit.Scenario.Events.{
  Event, tool_call, agent_turn, user_turn, Events, no_events, and_event, non_empty, labelled,
  collect_event_errors, collect_each, ConversationTurn,
}
use agent_spec_kit.Scenario.Records.{
  add_new, add_event_errors, own_messages, agent_turn_error_messages,
}

-- There is no text, or an empty one.
abbrev pub IsBlank : Option String → Type 0
IsBlank error = (error ≡ none) ⊎ (error ≡ some "")

-- No tool call and no agent's turn has an error, at any depth.
abbrev mutual
  pub IsErrorless : Event → Type 0
  IsErrorless (tool_call name args result error metadata children) =
      IsBlank error × AllErrorless children
  IsErrorless (agent_turn input output error path metadata children) =
      IsBlank error × AllErrorless children
  IsErrorless (user_turn content error metadata children) = AllErrorless children

  pub AllErrorless : Events → Type 0
  AllErrorless no_events = Unit
  AllErrorless (and_event e es) = IsErrorless e × AllErrorless es

-- The turn did not fail: it has no error and its status is no "error", or its error is empty, which
-- says so whatever the status is.
abbrev pub IsUnfailed : (status : String) (error : Option String) → Type 0
IsUnfailed status none = status ≢ "error"
IsUnfailed status (some e) = e ≡ ""

-- The turn of an agent did not fail, nor did an event in it.
abbrev pub IsClean : ConversationTurn → Type 0
IsClean ct = ct.actor ≡ "agent" → IsUnfailed ct.status ct.error × All IsErrorless ct.events

append_iff : (xs ys : List String) → ((xs ++ ys) ≡ []) ↔ ((xs ≡ []) × (ys ≡ []))
append_iff [] ys = (λ h. (refl, h), λ h. h.1)
append_iff (x ∷ xs) ys = (λ h. absurd (cc h), λ h. absurd (cc h.0))

test_iff : (s t : String) → (str_eq s t ≡ false) ↔ (s ≢ t)
test_iff s t = elim (Bool-cases (str_eq s t)) [
  | inl y ↦ (λ h. absurd (cc (h, y)), λ ne. absurd (ne ((eq_iff s t).0 y)))
  | inr n ↦ (λ h e. cc ((eq_iff s t).1 e, n), λ ne. n)
]

labelled_iff :
    (label : String) (error : Option String) → (labelled label error ≡ []) ↔ IsBlank error
unfolding labelled non_empty
labelled_iff label none = (λ h. inl refl, λ h. refl)
labelled_iff label (some s) = elim (Bool-cases (str_eq s "")) [
  | inl y ↦ rw (y, labelled, non_empty) (λ h. inr (ap some ((eq_iff s "").0 y)), λ h. refl)
  | inr n ↦
      rw (n, labelled, non_empty)
        (
          λ h. absurd (cc h),
          λ h. absurd (elim h [ inl e ↦ cc e | inr e ↦ (test_iff s "").0 n (text_inj e) ]),
        )
]
  where
    text_inj : {a b : String} → ◌≡◌ {A = Option String} (some a) (some b) → a ≡ b
    text_inj e = cc

-- An error and those of the children.
both_iff :
    (label : String) (error : Option String) (below : List String) (C : Type 0)
    → (below ≡ []) ↔ C
    → ((labelled label error ++ below) ≡ []) ↔ (IsBlank error × C)
both_iff label error below C c = (
  λ h.
      let (here, rest) = (append_iff (labelled label error) below).0 h in
      ((labelled_iff label error).0 here, c.0 rest),
  λ (blank, rest).
      (append_iff (labelled label error) below).1 ((labelled_iff label error).1 blank, c.1 rest),
)

mutual
  unfolding collect_event_errors

  collect_event_errors_iff : (e : Event) → (collect_event_errors e ≡ []) ↔ IsErrorless e
  collect_event_errors_iff (tool_call name args result error metadata children) =
      both_iff _ error (collect_each children) (AllErrorless children) (collect_each_iff children)
  collect_event_errors_iff (agent_turn input output error path metadata children) =
      both_iff _ error (collect_each children) (AllErrorless children) (collect_each_iff children)
  collect_event_errors_iff (user_turn content error metadata children) = collect_each_iff children

  collect_each_iff : (es : Events) → (collect_each es ≡ []) ↔ AllErrorless es
  collect_each_iff no_events = (λ h. tt, λ h. refl)
  collect_each_iff (and_event e es) = (
    λ h.
        let (here, rest) = (append_iff (collect_event_errors e) (collect_each es)).0 h in
        ((collect_event_errors_iff e).0 here, (collect_each_iff es).0 rest),
    λ (here, rest).
        (append_iff (collect_event_errors e) (collect_each es)).1
          ((collect_event_errors_iff e).1 here, (collect_each_iff es).1 rest),
  )

add_new_iff : (msgs es : List String) → (add_new msgs es ≡ []) ↔ ((msgs ≡ []) × (es ≡ []))
unfolding add_new contains
add_new_iff msgs [] = (λ h. (h, refl), λ h. h.0)
add_new_iff [] (e ∷ es) = (λ h. absurd (cc ((add_new_iff (e ∷ []) es).0 h).0), λ h. absurd (cc h.1))
add_new_iff (m ∷ ms) (e ∷ es) = elim (Bool-cases (contains (m ∷ ms) e)) [
  | inl y ↦ (λ h. absurd (cc ((add_new_iff (m ∷ ms) es).0 (rw y at h)).0), λ h. absurd (cc h.0))
  | inr n ↦ (
    λ h. absurd (cc ((add_new_iff (m ∷ (ms ++ e ∷ [])) es).0 (rw n at h)).0),
    λ h. absurd (cc h.0),
  )
]

add_event_errors_iff :
    (msgs : List String) (roots : List Event)
    → (add_event_errors msgs roots ≡ []) ↔ ((msgs ≡ []) × All IsErrorless roots)
unfolding add_event_errors
add_event_errors_iff msgs [] = (λ h. (h, tt), λ h. h.0)
add_event_errors_iff msgs (root ∷ roots) =
    let ih = add_event_errors_iff (add_new msgs (collect_event_errors root)) roots in
    let here = add_new_iff msgs (collect_event_errors root) in
    let event = collect_event_errors_iff root in
    (
      λ h.
          let (added, rest) = ih.0 h in
          let (none_before, none_here) = here.0 added in (none_before, (event.0 none_here, rest)),
      λ (none_before, (free, rest)). ih.1 (here.1 (none_before, event.1 free), rest),
    )

own_messages_iff :
    (status : String) (error : Option String)
    → (own_messages status error ≡ []) ↔ IsUnfailed status error
unfolding own_messages non_empty
own_messages_iff status none = elim (Bool-cases (str_eq status "error")) [
  | inl y ↦ rw y (λ h. absurd (cc h), λ ne. absurd (ne ((eq_iff status "error").0 y)))
  | inr n ↦ rw n (λ h. (test_iff status "error").0 n, λ h. refl)
]
own_messages_iff status (some e) = elim (Bool-cases (str_eq e "")) [
  | inl y ↦ rw (y, own_messages, non_empty) (λ h. (eq_iff e "").0 y, λ h. refl)
  | inr n ↦
      rw (n, own_messages, non_empty) (λ h. absurd (cc h), λ h. absurd ((test_iff e "").0 n h))
]

pub agent_turn_error_messages_iff :
    (ct : ConversationTurn) → (agent_turn_error_messages ct ≡ []) ↔ IsClean ct
unfolding agent_turn_error_messages
agent_turn_error_messages_iff ct = elim (Bool-cases (str_eq ct.actor "agent")) [
  | inl y ↦
      let all = add_event_errors_iff (own_messages ct.status ct.error) ct.events in
      let own = own_messages_iff ct.status ct.error in
      rw y (
        λ h a. (own.0 (all.0 h).0, (all.0 h).1),
        λ h.
            all.1
              (own.1 (h ((eq_iff ct.actor "agent").0 y)).0, (h ((eq_iff ct.actor "agent").0 y)).1),
      )
  | inr n ↦ rw n (λ h a. absurd ((test_iff ct.actor "agent").0 n a), λ h. refl)
]
