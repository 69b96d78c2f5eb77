-- ===== src/Fixtures/Laws/Visit.antt =====
-- One fixture of the queue: what its visit adds, and how much is still missing.
use agent_spec_kit.Common.{
  ℕ, suc, ◌+◌, ◌≤◌, ◌≡◌, ◌⊎◌, inl, inr, refl, sym, subst, String, Bool, true, false, not, ◌&&◌,
  List, [], ◌∷◌, ◌++◌, str_eq, eq_iff, if◌then◌else◌, length, contains, In, In-append,
  In-append_left, In-append_right, In-contains, contains-In, contains-append, length-append,
  Bool-cases, arith,
}
use agent_spec_kit.Fixtures.Registry.{FixtureDef, get_fixture}
use agent_spec_kit.Fixtures.Graph.{is_fixture, visit}

module _ {W : Type 0} (fixtures : List (FixtureDef W)) where
  pub record Visited (deps needed queue needed' queue' : List String) : Type 0 where
    pub kept : (x : String) → In x needed → In x needed'
    pub queued : (x : String) → In x queue → In x queue'
    pub sound :
        (x : String) → In x needed' → In x needed ⊎ (In x deps × (is_fixture fixtures x ≡ true))
    pub placed : (x : String) → In x needed' → In x needed ⊎ In x queue'
    pub inside :
        ((x : String) → In x queue → In x needed) → (x : String) → In x queue' → In x needed'
    pub covered : (x : String) → In x deps → is_fixture fixtures x ≡ true → In x needed'

-- How many of the fixtures are not among the names.
pub missing : {W : Type 0} → List (FixtureDef W) → List String → ℕ
missing [] names = 0
missing (fd ∷ fds) names =
    let rest = missing fds names in if contains names fd.name then rest else suc rest

module _ {W : Type 0} where
  missing-add :
      (fds : List (FixtureDef W)) (names : List String) (n : String)
      → missing fds (names ++ n ∷ []) ≤ missing fds names
  unfolding missing contains
  missing-add [] names n = omega arith
  missing-add (fd ∷ fds) names n =
      ground (arith, contains-append names (n ∷ []) fd.name, missing-add fds names n)

  missing-add_fixture :
      (fds : List (FixtureDef W)) (names : List String) (n : String)
      → is_fixture fds n ≡ true
      → contains names n ≡ false
      → suc (missing fds (names ++ n ∷ [])) ≤ missing fds names
  unfolding missing contains is_fixture get_fixture
  missing-add_fixture [] names n f c = cc
  missing-add_fixture (fd ∷ fds) names n f c = elim (Bool-cases (str_eq fd.name n)) [
    | inl same ↦
        let c' : contains names fd.name ≡ false =
          subst (λ m. contains names m ≡ false) (sym ((eq_iff fd.name n).0 same)) c in
        let c'' : contains (n ∷ []) fd.name ≡ true =
          contains-In (n ∷ []) fd.name (inl (sym ((eq_iff fd.name n).0 same))) in
        ground (arith, c', c'', contains-append names (n ∷ []) fd.name, missing-add fds names n)
    | inr differs ↦ ground (
      arith,
      contains-append names (n ∷ []) fd.name,
      missing-add_fixture fds names n (rw (is_fixture, get_fixture, differs) at f) c,
    )
  ]

  pub missing_le :
      (fds : List (FixtureDef W)) (names : List String) → missing fds names ≤ length fds
  unfolding missing
  missing_le [] names = omega arith
  missing_le (fd ∷ fds) names = ground (arith, missing_le fds names)

module _ {W : Type 0} (fixtures : List (FixtureDef W)) where
  abbrev pub visited : List String → List String → List String → List String × List String
  visited = visit fixtures

  -- What is new to the set and stands in the queue before it is visited.
  visit-new :
      (dep : String) (deps needed queue n q : List String)
      → is_fixture fixtures dep ≡ true
      → Visited fixtures deps (needed ++ dep ∷ []) (queue ++ dep ∷ []) n q
      → Visited fixtures (dep ∷ deps) needed queue n q
  visit-new dep deps needed queue n q f v = record {
    kept = λ x m. v.kept x (In-append_left x needed (dep ∷ []) m);
    queued = λ x m. v.queued x (In-append_left x queue (dep ∷ []) m);
    sound = λ x m. elim (v.sound x m) [
      | inl h ↦ elim (In-append x needed (dep ∷ []) h) [
        | inl old ↦ inl old
        | inr (inl e) ↦ inr (inl e, subst (λ d. is_fixture fixtures d ≡ true) e f)
        | inr (inr absent) ↦ absurd absent
      ]
      | inr (m', f') ↦ inr (inr m', f')
    ];
    placed = λ x m. elim (v.placed x m) [
      | inl h ↦ elim (In-append x needed (dep ∷ []) h) [
        | inl old ↦ inl old
        | inr fresh ↦ inr (v.queued x (In-append_right x queue (dep ∷ []) fresh))
      ]
      | inr h ↦ inr h
    ];
    inside = λ within. v.inside (λ x m. elim (In-append x queue (dep ∷ []) m) [
      | inl old ↦ In-append_left x needed (dep ∷ []) (within x old)
      | inr fresh ↦ In-append_right x needed (dep ∷ []) fresh
    ]);
    covered = λ x m f'. elim m [
      | inl e ↦ v.kept x (In-append_right x needed (dep ∷ []) (inl e))
      | inr m' ↦ v.covered x m' f'
    ];
  }

  -- What is in the set, or is not registered.
  visit-old :
      (dep : String) (deps needed queue n q : List String)
      → (is_fixture fixtures dep ≡ true → In dep needed)
      → Visited fixtures deps needed queue n q
      → Visited fixtures (dep ∷ deps) needed queue n q
  visit-old dep deps needed queue n q old v = record {
    kept = v.kept;
    queued = v.queued;
    sound = λ x m. elim (v.sound x m) [ inl h ↦ inl h | inr (m', f') ↦ inr (inr m', f') ];
    placed = v.placed;
    inside = v.inside;
    covered = λ x m f'. elim m [
      | inl e ↦
          subst (λ d. In d n) e
            (v.kept dep (old (subst (λ d. is_fixture fixtures d ≡ true) (sym e) f')))
      | inr m' ↦ v.covered x m' f'
    ];
  }

  visit-either :
      (dep : String) (deps needed queue : List String) (is_new : Bool)
      → (is_fixture fixtures dep && not (contains needed dep)) ≡ is_new
      → ((n q : List String) → Visited fixtures deps n q (visited deps n q).0 (visited deps n q).1)
      → let next =
          visited deps
            (if is_new then needed ++ dep ∷ [] else needed)
            (if is_new then queue ++ dep ∷ [] else queue) in
        Visited fixtures (dep ∷ deps) needed queue next.0 next.1
  visit-either dep deps needed queue true e ih =
      visit-new dep deps needed queue _ _ (ground arith)
        (ih (needed ++ dep ∷ []) (queue ++ dep ∷ []))
  visit-either dep deps needed queue false e ih =
      visit-old dep deps needed queue _ _ (λ f. In-contains needed dep (ground arith))
        (ih needed queue)

  visit-missing_either :
      (dep : String) (deps needed queue : List String) (is_new : Bool)
      → (is_fixture fixtures dep && not (contains needed dep)) ≡ is_new
      → ((n q : List String)
          → missing fixtures (visited deps n q).0 + length (visited deps n q).1
            ≤ missing fixtures n + length q)
      → let next =
          visited deps
            (if is_new then needed ++ dep ∷ [] else needed)
            (if is_new then queue ++ dep ∷ [] else queue) in
        missing fixtures next.0 + length next.1 ≤ missing fixtures needed + length queue
  visit-missing_either dep deps needed queue true e ih =
      let less = missing-add_fixture fixtures needed dep (ground arith) (ground arith) in
      omega
        (arith, less, ih (needed ++ dep ∷ []) (queue ++ dep ∷ []), length-append queue (dep ∷ []))
  visit-missing_either dep deps needed queue false e ih = ih needed queue

  pub visit-Visited :
      (deps needed queue : List String)
      → Visited fixtures deps needed queue
          (visited deps needed queue).0
          (visited deps needed queue).1
  unfolding visit
  visit-Visited [] needed queue = record {
    kept = λ x m. m;
    queued = λ x m. m;
    sound = λ x m. inl m;
    placed = λ x m. inl m;
    inside = λ within. within;
    covered = λ x m f. absurd m;
  }
  visit-Visited (dep ∷ deps) needed queue =
      visit-either dep deps needed queue _ refl (visit-Visited deps)

  -- What a visit queues it takes from the fixtures that are missing.
  pub visit-missing :
      (deps needed queue : List String)
      → missing fixtures (visited deps needed queue).0 + length (visited deps needed queue).1
        ≤ missing fixtures needed + length queue
  unfolding visit
  visit-missing [] needed queue = omega arith
  visit-missing (dep ∷ deps) needed queue =
      visit-missing_either dep deps needed queue _ refl (visit-missing deps)
