-- ===== src/Fixtures/Laws/Roots.antt =====
-- The fixtures that a scenario names itself.
use agent_spec_kit.Common.{
  ◌≡◌, ◌↔◌, ◌⊎◌, inl, inr, refl, sym, ap, subst, String, true, false, Option, none, some, List, [],
  ◌∷◌, contains, In, In-append, In-append_left, In-append_right, In-contains, Bool-cases,
}
use agent_spec_kit.Fixtures.Registry.{FixtureDef, ScenarioDef, get_fixture}
use agent_spec_kit.Fixtures.Graph.{add, add_option, add_fixtures, is_fixture, initially_needed}

module _ {W : Type 0} (fixtures : List (FixtureDef W)) where
  abbrev pub IsRegistered : String → Type 0
  IsRegistered x = (fd : FixtureDef W) × (get_fixture fixtures x ≡ some fd)

  found_iff :
      (o : Option (FixtureDef W))
      → ((elim o [ none ↦ false | some fd ↦ true ]) ≡ true) ↔ ((fd : FixtureDef W) × (o ≡ some fd))
  found_iff none = (λ h. absurd (cc h), λ (fd, e). absurd (cc e))
  found_iff (some fd) = (λ h. (fd, refl), λ h. refl)

  pub is_fixture-IsRegistered : (x : String) → (is_fixture fixtures x ≡ true) ↔ IsRegistered x
  unfolding is_fixture
  is_fixture-IsRegistered x = found_iff (get_fixture fixtures x)

  -- What the scenario names: its agent, its user and its registered parameters.
  abbrev pub IsNamed : ScenarioDef → String → Type 0
  IsNamed s x =
      (s.agent_fixture ≡ some x)
      ⊎ ((s.user_fixture ≡ some x) ⊎ (In x s.fixture_param_names × IsRegistered x))

module _ {W : Type 0} (fixtures : List (FixtureDef W)) where
  In-add : (names : List String) (n x : String) → In x (add names n) ↔ (In x names ⊎ (n ≡ x))
  unfolding add
  In-add names n x = elim (Bool-cases (contains names n)) [
    | inl y ↦ rw y (
      λ m. inl m,
      λ h. elim h [ inl m ↦ m | inr e ↦ subst (λ z. In z names) e (In-contains names n y) ],
    )
    | inr new ↦ rw new (
      λ m. elim (In-append x names (n ∷ []) m) [
        | inl old ↦ inl old
        | inr (inl e) ↦ inr e
        | inr (inr absent) ↦ absurd absent
      ],
      λ h. elim h [
        | inl m ↦ In-append_left x names (n ∷ []) m
        | inr e ↦ In-append_right x names (n ∷ []) (inl e)
      ],
    )
  ]

  In-add_option :
      (names : List String) (o : Option String) (x : String)
      → In x (add_option names o) ↔ (In x names ⊎ (o ≡ some x))
  unfolding add_option
  In-add_option names none x = (λ m. inl m, λ h. elim h [ inl m ↦ m | inr e ↦ absurd (cc e) ])
  In-add_option names (some n) x = (
    λ m. elim ((In-add names n x).0 m) [ inl h ↦ inl h | inr e ↦ inr (ap some e) ],
    λ h. (In-add names n x).1 (elim h [ inl m ↦ inl m | inr e ↦ inr (name_inj e) ]),
  )
    where
      name_inj : {a b : String} → ◌≡◌ {A = Option String} (some a) (some b) → a ≡ b
      name_inj e = cc

  In-add_fixtures :
      (names ns : List String) (x : String)
      → In x (add_fixtures fixtures names ns) ↔ (In x names ⊎ (In x ns × IsRegistered fixtures x))
  unfolding add_fixtures
  In-add_fixtures names [] x =
      (λ m. inl m, λ h. elim h [ inl m ↦ m | inr (absent, r) ↦ absurd absent ])
  In-add_fixtures names (n ∷ ns) x = elim (Bool-cases (is_fixture fixtures n)) [
    | inl y ↦
        let ih = In-add_fixtures (add names n) ns x in
        rw y (
          λ m. elim (ih.0 m) [
            | inl h ↦ elim ((In-add names n x).0 h) [
              | inl old ↦ inl old
              | inr e ↦ inr (
                inl e,
                subst (IsRegistered fixtures) e ((is_fixture-IsRegistered fixtures n).0 y),
              )
            ]
            | inr (h, r) ↦ inr (inr h, r)
          ],
          λ h. ih.1 (elim h [
            | inl m ↦ inl ((In-add names n x).1 (inl m))
            | inr (inl e, r) ↦ inl ((In-add names n x).1 (inr e))
            | inr (inr m, r) ↦ inr (m, r)
          ]),
        )
    | inr new ↦
        let ih = In-add_fixtures names ns x in
        rw new (
          λ m. elim (ih.0 m) [ inl h ↦ inl h | inr (h, r) ↦ inr (inr h, r) ],
          λ h. ih.1 (elim h [
            | inl m ↦ inl m
            | inr (inl e, r) ↦ absurd (unregistered n (subst (IsRegistered fixtures) (sym e) r) new)
            | inr (inr m, r) ↦ inr (m, r)
          ]),
        )
  ]
    where
      unregistered : (y : String) → IsRegistered fixtures y → ¬ (is_fixture fixtures y ≡ false)
      unregistered y r new = cc ((is_fixture-IsRegistered fixtures y).1 r, new)

  pub In-initially_needed :
      (s : ScenarioDef) (x : String) → In x (initially_needed fixtures s) ↔ IsNamed fixtures s x
  unfolding initially_needed
  In-initially_needed s x =
      let params = add_fixtures fixtures [] s.fixture_param_names in
      let with_agent = add_option params s.agent_fixture in
      (
        λ m. elim ((In-add_option with_agent s.user_fixture x).0 m) [
          | inr user ↦ inr (inl user)
          | inl h ↦ elim ((In-add_option params s.agent_fixture x).0 h) [
            | inr agent ↦ inl agent
            | inl h' ↦ elim ((In-add_fixtures [] s.fixture_param_names x).0 h') [
              | inl absent ↦ absurd absent
              | inr param ↦ inr (inr param)
            ]
          ]
        ],
        λ h. (In-add_option with_agent s.user_fixture x).1 (elim h [
          | inl agent ↦ inl ((In-add_option params s.agent_fixture x).1 (inr agent))
          | inr (inl user) ↦ inr user
          | inr (inr param) ↦ inl (
              (In-add_option params s.agent_fixture x).1
                (inl ((In-add_fixtures [] s.fixture_param_names x).1 (inr param))))
        ]),
      )
