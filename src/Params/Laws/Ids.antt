-- ===== src/Params/Laws/Ids.antt =====
-- The ids of the cases of a parameter.
use agent_spec_kit.Common.{
  ◌≡◌, ◌≢◌, ◌⊎◌, refl, sym, ◌∙◌, inl, inr, true, false, List, [], ◌∷◌, map, String, In, All,
  Bool-cases, str_eq, eq_iff,
}
use agent_spec_kit.Common.Outcome.{value_error, returned, raised}
use agent_spec_kit.Params.Cases.{
  Case, CaseSource, normalize_case, is_seen, check_ids, normalize_cases,
}

is_seen-In : (s : String) (ts : List String) → is_seen s ts ≡ true → In s ts
unfolding is_seen
is_seen-In s [] e = cc
is_seen-In s (t ∷ ts) e = elim (Bool-cases (str_eq t s)) [
  | inl y ↦ inl ((eq_iff t s).0 y)
  | inr n ↦ inr (is_seen-In s ts (sym (rw n refl) ∙ e))
]

is_seen-head : (s t : String) (ts : List String) → str_eq t s ≡ true → is_seen s (t ∷ ts) ≡ true
unfolding is_seen
is_seen-head s t ts y = rw y refl

unseen-In : (s : String) (ts : List String) → is_seen s ts ≡ false → ¬ In s ts
unfolding is_seen
unseen-In s [] e m = m
unseen-In s (t ∷ ts) e m = elim (Bool-cases (str_eq t s)) [
  | inl y ↦ cc (is_seen-head s t ts y)
  | inr n ↦ elim m [
    | inl same ↦ cc ((eq_iff t s).1 same)
    | inr later ↦ unseen-In s ts (sym (rw n refl) ∙ e) later
  ]
]

module _ {V : Type 0} where
  abbrev pub DistinctIds : List (Case V) → Type 0
  DistinctIds [] = Unit
  DistinctIds (c ∷ cs) = All (λ (d : Case V). c.id ≢ d.id) cs × DistinctIds cs

  -- None of the ids was seen before.
  abbrev Fresh : List String → List (Case V) → Type 0
  Fresh seen cs = All (λ (d : Case V). ¬ In d.id seen) cs

  Fresh-head :
      (s : String) (seen : List String) (cs : List (Case V))
      → Fresh (s ∷ seen) cs
      → All (λ (d : Case V). s ≢ d.id) cs × Fresh seen cs
  Fresh-head s seen [] h = (tt, tt)
  Fresh-head s seen (d ∷ ds) h =
      let (ne, old) = Fresh-head s seen ds h.1 in ((λ e. h.0 (inl e), ne), (λ m. h.0 (inr m), old))

  Fresh-cons :
      (s : String) (seen : List String) (cs : List (Case V))
      → All (λ (d : Case V). s ≢ d.id) cs
      → Fresh seen cs
      → Fresh (s ∷ seen) cs
  Fresh-cons s seen [] ne h = tt
  Fresh-cons s seen (d ∷ ds) ne h =
      (λ m. elim m [ inl e ↦ ne.0 e | inr later ↦ h.0 later ], Fresh-cons s seen ds ne.1 h.1)

  Fresh-nil : (cs : List (Case V)) → Fresh [] cs
  Fresh-nil [] = tt
  Fresh-nil (d ∷ ds) = (λ m. m, Fresh-nil ds)

  check_ids_cases :
      (cs : List (Case V)) (seen : List String)
      → ((Fresh seen cs × DistinctIds cs) × (check_ids cs seen ≡ returned true))
        ⊎ ((¬ (Fresh seen cs × DistinctIds cs)) × (check_ids cs seen ≡ raised value_error))
  unfolding check_ids
  check_ids_cases [] seen = inl ((tt, tt), refl)
  check_ids_cases (c ∷ cs) seen = elim (Bool-cases (is_seen c.id seen)) [
    | inl y ↦ inr (λ h. h.0.0 (is_seen-In c.id seen y), rw (y, check_ids) refl)
    | inr n ↦ elim (check_ids_cases cs (c.id ∷ seen)) [
      | inl (h, e) ↦
          let (ne, old) = Fresh-head c.id seen cs h.0 in
          inl (((unseen-In c.id seen n, old), (ne, h.1)), rw (n, check_ids) e)
      | inr (clash, e) ↦
          inr (λ h. clash (Fresh-cons c.id seen cs h.1.0 h.0.1, h.1.1), rw (n, check_ids) e)
    ]
  ]

  -- The cases are returned, each as `normalize_case` makes it, if their ids are distinct; otherwise
  -- `normalize_cases` raises ValueError.
  pub normalize_cases_cases :
      (values : List (CaseSource V))
      → (DistinctIds (map normalize_case values)
          × (normalize_cases values ≡ returned (map normalize_case values)))
        ⊎ ((¬ DistinctIds (map normalize_case values))
            × (normalize_cases values ≡ raised value_error))
  unfolding normalize_cases
  normalize_cases_cases values = elim (check_ids_cases (map normalize_case values) []) [
    | inl (h, e) ↦ inl (h.1, rw e refl)
    | inr (clash, e) ↦ inr (λ h. clash (Fresh-nil (map normalize_case values), h), rw e refl)
  ]
