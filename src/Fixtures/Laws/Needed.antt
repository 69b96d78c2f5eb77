-- ===== src/Fixtures/Laws/Needed.antt =====
-- The fixtures that a scenario needs: the closure of its own under dependencies.
use agent_spec_kit.Common.{
  ℕ, zero, suc, ◌+◌, ◌<◌, ◌≡◌, ◌↔◌, ◌⊎◌, inl, inr, refl, sym, ◌∙◌, subst, String, true, Option,
  none, some, List, [], ◌∷◌, length, In, arith,
}
use agent_spec_kit.Common.Outcome.{key_error, Outcome, returned, raised}
use agent_spec_kit.Fixtures.Registry.{FixtureDef, ScenarioDef, get_fixture}
use agent_spec_kit.Fixtures.Graph.{
  is_fixture, initially_needed, collect, enough, collect_needed_fixture_names,
}
use agent_spec_kit.Fixtures.Laws.Roots.{
  IsRegistered, is_fixture-IsRegistered, IsNamed, In-initially_needed,
}
use agent_spec_kit.Fixtures.Laws.Visit.{
  Visited, missing, missing_le, visited, visit-Visited, visit-missing,
}

-- The members of a set, in some order.
pub record Iterates (iterate : List String → List String) : Type 0 where
  pub same_members : (names : List String) (x : String) → In x (iterate names) ↔ In x names
  pub same_length : (names : List String) → length (iterate names) ≡ length names

module _ {W : Type 0} (fixtures : List (FixtureDef W)) where
  -- A name among the roots, or a registered fixture that a needed fixture depends on.
  pub data Needs (roots : String → Type 0) : String → Type 0 where
    root : {x : String} → roots x → Needs roots x
    dependency :
        {x d : String} (fd : FixtureDef W)
        → Needs roots x
        → get_fixture fixtures x ≡ some fd
        → In d fd.dep_names
        → IsRegistered fixtures d
        → Needs roots d

  -- The outcome is the set of the needed names; or it is a KeyError, and some needed name is not
  -- registered.
  abbrev pub IsClosure : (roots : String → Type 0) → Option (Outcome (List String)) → Type 0
  IsClosure roots none = ⊥
  IsClosure roots (some (returned names)) = (x : String) → In x names ↔ Needs roots x
  IsClosure roots (some (raised e)) =
      (e ≡ key_error) × (x : String) × Needs roots x × (get_fixture fixtures x ≡ none)

module _ {W : Type 0} (fixtures : List (FixtureDef W)) where
  -- The fixture is registered, and its registered dependencies are in the set.
  abbrev IsDone : List String → String → Type 0
  IsDone needed x =
      (fd : FixtureDef W) × (get_fixture fixtures x ≡ some fd)
      × ((d : String) → In d fd.dep_names → is_fixture fixtures d ≡ true → In d needed)

  abbrev LoopInvariant : (roots : String → Type 0) (queue needed : List String) → Type 0
  LoopInvariant roots queue needed =
      ((x : String) → roots x → In x needed)
      × ((x : String) → In x needed → Needs fixtures roots x)
      × ((x : String) → In x queue → In x needed)
      × ((x : String) → In x needed → In x queue ⊎ IsDone needed x)

  some_inj : {a b : FixtureDef W} → ◌≡◌ {A = Option (FixtureDef W)} (some a) (some b) → a ≡ b
  some_inj e = cc

  closed-Needs :
      (roots : String → Type 0) (needed : List String)
      → ((x : String) → roots x → In x needed)
      → ((x : String) → In x needed → IsDone needed x)
      → {x : String} → Needs fixtures roots x
      → In x needed
  closed-Needs roots needed rooted finished (root m) = rooted _ m
  closed-Needs roots needed rooted finished (dependency {x} {d} fd n e m f) =
      let (fd', e', deps) = finished x (closed-Needs roots needed rooted finished n) in
      deps d (subst (λ g. In d g.dep_names) (some_inj (sym e ∙ e')) m)
        ((is_fixture-IsRegistered fixtures d).1 f)

  -- The invariant after the visit of a fixture from the queue.
  LoopInvariant-visit :
      (roots : String → Type 0) (name : String) (queue needed : List String) (fd : FixtureDef W)
      (needed' queue' : List String)
      → get_fixture fixtures name ≡ some fd
      → LoopInvariant roots (name ∷ queue) needed
      → Visited fixtures fd.dep_names needed queue needed' queue'
      → LoopInvariant roots queue' needed'
  LoopInvariant-visit roots name queue needed fd needed' queue' e (rooted, sound, within, finished)
        v =
      (
        λ x m. v.kept x (rooted x m),
        λ x m. elim (v.sound x m) [
          | inl old ↦ sound x old
          | inr (m', f) ↦
              dependency fd (sound name (within name (inl refl))) e m'
                ((is_fixture-IsRegistered fixtures x).0 f)
        ],
        v.inside (λ y my. within y (inr my)),
        λ x m. elim (v.placed x m) [
          | inr q ↦ inl q
          | inl old ↦ elim (finished x old) [
            | inl (inl same) ↦
                inr (fd, subst (λ n. get_fixture fixtures n ≡ some fd) same e, v.covered)
            | inl (inr q) ↦ inl (v.queued x q)
            | inr (fd', e', deps) ↦ inr (fd', e', λ d md f. v.kept d (deps d md f))
          ]
        ],
      )

  after_pop :
      (roots : String → Type 0) (fuel : ℕ) (name : String) (queue needed : List String)
      (found : Option (FixtureDef W))
      → get_fixture fixtures name ≡ found
      → LoopInvariant roots (name ∷ queue) needed
      → ((q n : List String)
          → missing fixtures n + length q < fuel
          → LoopInvariant roots q n
          → IsClosure fixtures roots (collect fixtures fuel q n))
      → missing fixtures needed + suc (length queue) < suc fuel
      → IsClosure fixtures roots (elim found [
        | none ↦ some (raised key_error)
        | some fd ↦
            collect fixtures fuel
              (visited fixtures fd.dep_names needed queue).1
              (visited fixtures fd.dep_names needed queue).0
      ])
  after_pop roots fuel name queue needed none e (rooted, sound, within, finished) ih less =
      (refl, name, sound name (within name (inl refl)), e)
  after_pop roots fuel name queue needed (some fd) e inv ih less =
      ih _ _ (omega (arith, visit-missing fixtures fd.dep_names needed queue, less)) (
        LoopInvariant-visit roots name queue needed fd _ _ e inv
          (visit-Visited fixtures fd.dep_names needed queue))

  -- The loop ends before its fuel, with the closure of the roots.
  collect-IsClosure :
      (roots : String → Type 0) (fuel : ℕ) (queue needed : List String)
      → missing fixtures needed + length queue < fuel
      → LoopInvariant roots queue needed
      → IsClosure fixtures roots (collect fixtures fuel queue needed)
  unfolding collect
  collect-IsClosure roots zero queue needed less inv = absurd (omega arith)
  collect-IsClosure roots (suc fuel) [] needed less (rooted, sound, within, finished) = λ x. (
    sound x,
    closed-Needs roots needed rooted (λ y m. elim (finished y m) [ inl q ↦ absurd q | inr d ↦ d ]),
  )
  collect-IsClosure roots (suc fuel) (name ∷ queue) needed less inv =
      after_pop roots fuel name queue needed (get_fixture fixtures name) refl inv
        (collect-IsClosure roots fuel) less

  -- However Python goes through the members of a set, the loop ends within its fuel. If it returns,
  -- the names are exactly those that the scenario names (its agent, its user and its registered
  -- parameters) and, again and again, the registered dependencies of their fixtures. Otherwise there is
  -- a KeyError, and some needed name is not registered.
  pub collect_needed_fixture_names-IsClosure :
      (iterate : List String → List String) (s : ScenarioDef)
      → Iterates iterate
      → IsClosure fixtures (IsNamed fixtures s) (collect_needed_fixture_names fixtures iterate s)
  unfolding collect_needed_fixture_names
  collect_needed_fixture_names-IsClosure iterate s order =
      let roots = initially_needed fixtures s in
      collect-IsClosure (IsNamed fixtures s) (enough fixtures s) (iterate roots) roots
        (omega (arith, order.same_length roots, missing_le fixtures roots))
        (
          λ x m. (In-initially_needed fixtures s x).1 m,
          λ x m. root ((In-initially_needed fixtures s x).0 m),
          λ x m. (order.same_members roots x).0 m,
          λ x m. inl ((order.same_members roots x).1 m),
        )
