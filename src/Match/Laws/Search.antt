-- ===== src/Match/Laws/Search.antt =====
-- The depth-first search for an assignment decides whether there is one, and restores its flags.
use native.Mathlib.Decide.{ℕ_discrete}
use agent_spec_kit.Common.{
  ℕ, suc, ◌≤◌, ◌≡◌, refl, sym, ◌∙◌, ap, subst, ◌⊎◌, inl, inr, Bool, true, false, some, List, [],
  ◌∷◌, arith, get_elem?, set, set-set_self, IsSuffix, IsSuffix-tail, IsSuffix-head, past_end,
  Bool-cases,
}
use agent_spec_kit.Common.Outcome.{Outcome, returned}
use agent_spec_kit.Match.Value.{Value}
use agent_spec_kit.Match.Types.{FieldPath, MatchResult}
use agent_spec_kit.Match.Protocol.{Check, BaseMatcher}
use agent_spec_kit.Match.Lists.Payload.{at_index}
use agent_spec_kit.Match.Lists.Search.{
  Progress, is_used, mark, log_failure, failed_comparison, try_items,
}
use agent_spec_kit.Match.Laws.Assignment.{accepted, IsCalm, IsFree, Hits, AssignableIn}

-- The outcome answers whether `G` holds, and leaves the flags as they were if it does not.
pub record Decides (used : List Bool) (G : Type 0) (o : Outcome (Bool × Progress)) : Type 0 where
  pub found : Bool
  pub after : Progress
  pub returns : o ≡ returned (found, after)
  pub sound : found ≡ true → G
  pub complete : found ≡ false → ¬ G
  pub restores : found ≡ false → after.used ≡ used

flag_cases : (used : List Bool) (j : ℕ) → (is_used used j ≡ true) ⊎ IsFree used j
unfolding is_used
flag_cases used j = ground arith

not-IsFree : (used : List Bool) (j : ℕ) → is_used used j ≡ true → ¬ IsFree used j
unfolding is_used
not-IsFree used j h free = ground arith

is_used_free : (used : List Bool) (j : ℕ) → IsFree used j → is_used used j ≡ false
unfolding is_used
is_used_free used j free = ground arith

module _ (run : BaseMatcher → Check) (actual : List Value) (path : FieldPath) (m : BaseMatcher)
    (ms : List BaseMatcher) (i : ℕ) (deeper : Progress → Outcome (Bool × Progress)) where
  -- `m` has a free item from index `j` on that leaves the other elements assignable.
  abbrev pub Startable : ℕ → List Bool → Type 0
  Startable j used =
      (k : ℕ) × (j ≤ k)
      × Hits run actual path m k
      × IsFree used k
      × AssignableIn run actual path ms (set used k true)

  abbrev step : List Value → ℕ → Progress → Outcome (Bool × Progress)
  step vs j s = try_items run actual path m i deeper vs j s

  step_used :
      (v : Value) (vs : List Value) (j : ℕ) (s : Progress)
      → is_used s.used j ≡ true
      → step (v ∷ vs) j s ≡ step vs (suc j) s
  unfolding try_items
  step_used v vs j s h = rw (h, try_items)

  step_miss :
      (v : Value) (vs : List Value) (j : ℕ) (s : Progress) (r : MatchResult)
      → IsFree s.used j
      → run m v (at_index path j) ≡ returned r
      → r.ok ≡ false
      → step (v ∷ vs) j s ≡ step vs (suc j) (log_failure (failed_comparison i j r) s)
  unfolding try_items
  step_miss v vs j s r free e bad = rw (is_used_free s.used j free, e, bad, try_items)

  step_found :
      (v : Value) (vs : List Value) (j : ℕ) (s s' : Progress) (r : MatchResult)
      → IsFree s.used j
      → run m v (at_index path j) ≡ returned r
      → r.ok ≡ true
      → deeper (mark j true s) ≡ returned (true, s')
      → step (v ∷ vs) j s ≡ returned (true, s')
  unfolding try_items
  step_found v vs j s s' r free e good d = rw (is_used_free s.used j free, e, good, d, try_items)

  step_back :
      (v : Value) (vs : List Value) (j : ℕ) (s s' : Progress) (r : MatchResult)
      → IsFree s.used j
      → run m v (at_index path j) ≡ returned r
      → r.ok ≡ true
      → deeper (mark j true s) ≡ returned (false, s')
      → step (v ∷ vs) j s ≡ step vs (suc j) (mark j false s')
  unfolding try_items
  step_back v vs j s s' r free e good d = rw (is_used_free s.used j free, e, good, d, try_items)

  module _ (calm : IsCalm (run m))
      (decided : (s : Progress)
        → Decides s.used (AssignableIn run actual path ms s.used) (deeper s)) where
    -- An item at `k ≥ j` is at `j` itself or after it.
    Startable-suc :
        (j : ℕ) (used : List Bool)
        → Startable j used
        → (Hits run actual path m j
            × IsFree used j
            × AssignableIn run actual path ms (set used j true))
          ⊎ Startable (suc j) used
    Startable-suc j used (k, le, hit, free, rest) = elim (ℕ_discrete k j) [
      | yes e ↦ inl (
          subst
            (λ n.
              Hits run actual path m n
              × IsFree used n
              × AssignableIn run actual path ms (set used n true))
            e (hit, free, rest))
      | no ne ↦ inr (k, omega arith, hit, free, rest)
    ]

    Startable-weaken : (j : ℕ) (used : List Bool) → Startable (suc j) used → Startable j used
    Startable-weaken j used (k, le, hit, free, rest) = (k, omega arith, hit, free, rest)

    -- The item at `j` cannot start: the search goes on behind it.
    skip :
        (vs : List Value) (j : ℕ) (s s' : Progress) (v : Value)
        → s'.used ≡ s.used
        → ¬ (
            Hits run actual path m j
            × IsFree s.used j
            × AssignableIn run actual path ms (set s.used j true))
        → step (v ∷ vs) j s ≡ step vs (suc j) s'
        → Decides s'.used (Startable (suc j) s'.used) (step vs (suc j) s')
        → Decides s.used (Startable j s.used) (step (v ∷ vs) j s)
    skip vs j s s' v same blocked e d = record {
      found = d.found;
      after = d.after;
      returns = e ∙ d.returns;
      sound = λ y. Startable-weaken j s.used (subst (Startable (suc j)) same (d.sound y));
      complete = λ n start. elim (Startable-suc j s.used start) [
        | inl here ↦ blocked here
        | inr later ↦ d.complete n (subst (Startable (suc j)) (sym same) later)
      ];
      restores = λ n. d.restores n ∙ same;
    }

    no_hit :
        (j : ℕ) (v : Value) (r : MatchResult)
        → get_elem? actual j ≡ some v
        → run m v (at_index path j) ≡ returned r
        → r.ok ≡ false
        → ¬ Hits run actual path m j
    no_hit j v r at e bad (w, at', hit) = cc

    -- The branch in which the item at `j` is free.
    try_free :
        (vs : List Value) (j : ℕ) (s : Progress) (v : Value) (r : MatchResult)
        → get_elem? actual j ≡ some v
        → IsFree s.used j
        → run m v (at_index path j) ≡ returned r
        → ((s' : Progress) → Decides s'.used (Startable (suc j) s'.used) (step vs (suc j) s'))
        → Decides s.used (Startable j s.used) (step (v ∷ vs) j s)
    try_free vs j s v r at free e later = elim (Bool-cases r.ok) [
      | inr bad ↦
          let s' = log_failure (failed_comparison i j r) s in
          skip vs j s s' v refl (λ here. no_hit j v r at e bad here.0)
            (step_miss v vs j s r free e bad) (later s')
      | inl good ↦
          let d = decided (mark j true s) in
          elim (Bool-cases d.found) [
            | inl y ↦ record {
              found = true;
              after = d.after;
              returns =
                  step_found v vs j s d.after r free e good
                    (d.returns ∙ ap (λ b. returned (b, d.after)) y);
              sound = λ _. (j, omega arith, (v, at, ap accepted e ∙ good), free, d.sound y);
              complete = λ n. cc;
              restores = λ n. cc;
            }
            | inr n ↦
                let s' = mark j false d.after in
                skip vs j s s' v
                  (ap (λ u. set u j false) (d.restores n) ∙ set-set_self s.used j false true free)
                  (λ here. d.complete n here.2)
                  (step_back v vs j s d.after r free e good
                    (d.returns ∙ ap (λ b. returned (b, d.after)) n))
                  (later s')
          ]
    ]

    pub try_items-Decides :
        (vs : List Value) (j : ℕ) (s : Progress)
        → IsSuffix actual j vs
        → Decides s.used (Startable j s.used) (step vs j s)
    unfolding try_items
    try_items-Decides [] j s h = record {
      found = false;
      after = s;
      returns = refl;
      sound = λ y. cc;
      complete = λ _ start. past_end actual j h start.0 start.1 start.2.1;
      restores = λ _. refl;
    }
    try_items-Decides (v ∷ vs) j s h =
        let later =
          λ (s' : Progress). try_items-Decides vs (suc j) s' (IsSuffix-tail actual j v vs h) in
        elim (flag_cases s.used j) [
          | inl taken ↦
              skip vs j s s v refl (λ here. not-IsFree s.used j taken here.1)
                (step_used v vs j s taken) (later s)
          | inr free ↦
              let (r, e) = calm v (at_index path j) in
              try_free vs j s v r (IsSuffix-head actual j v vs h) free e later
        ]
