-- ===== src/Params/Laws/Merge.antt =====
-- What the merge of the axes keeps.
use agent_spec_kit.Common.{
  ◌≡◌, refl, sym, ◌∙◌, inl, inr, Bool, true, ◌&&◌, map, arith, none, some, List, [], ◌∷◌, ◌++◌,
  String, All, str_eq, eq_iff, Bool-cases, Option-cases,
}
use agent_spec_kit.Common.Outcome.{Outcome, returned, raised, Ensures, Ensures-bind}
use agent_spec_kit.Params.Cases.{Case}
use agent_spec_kit.Params.Axes.{Axis, find_axis, same_ids, merge_found, merge_param_axes}

module _ {V : Type 0} where
  -- The ids of cases.
  abbrev pub ids : List (Case V) → List String
  ids = map (λ c. c.id)

  same_ids-ids : (cs ds : List (Case V)) → same_ids cs ds ≡ true → ids cs ≡ ids ds
  unfolding same_ids
  same_ids-ids [] [] h = refl
  same_ids-ids [] (d ∷ ds) h = absurd (cc h)
  same_ids-ids (c ∷ cs) [] h = absurd (cc h)
  same_ids-ids (c ∷ cs) (d ∷ ds) h =
      let (head, tail) = both_true (str_eq c.id d.id) (same_ids cs ds) h in
      rw ((eq_iff c.id d.id).0 head, same_ids-ids cs ds tail) refl
    where
      both_true : (a b : Bool) → (a && b) ≡ true → (a ≡ true) × (b ≡ true)
      both_true a b h = (ground arith, ground arith)

  -- What was found is found in a longer list.
  find_axis-append :
      (name : String) (merged more : List (Axis V)) (cs : List (Case V))
      → find_axis name merged ≡ some cs
      → find_axis name (merged ++ more) ≡ some cs
  unfolding find_axis
  find_axis-append name [] more cs e = cc
  find_axis-append name ((k, ds) ∷ merged) more cs e = elim (Bool-cases (str_eq k name)) [
    | inl y ↦ rw y (sym (rw y refl) ∙ e)
    | inr n ↦ rw n (find_axis-append name merged more cs (sym (rw n refl) ∙ e))
  ]

  find_axis-new :
      (ax : Axis V) (merged : List (Axis V))
      → find_axis ax.0 merged ≡ none
      → find_axis ax.0 (merged ++ ax ∷ []) ≡ some ax.1
  unfolding find_axis
  find_axis-new ax [] e = rw ((eq_iff ax.0 ax.0).1 refl) refl
  find_axis-new ax ((k, ds) ∷ merged) e = elim (Bool-cases (str_eq k ax.0)) [
    | inl y ↦ cc (find_head k ax.0 ds merged y)
    | inr n ↦ rw n (find_axis-new ax merged (sym (rw n refl) ∙ e))
  ]
    where
      find_head :
          (k name : String) (ds : List (Case V)) (merged : List (Axis V))
          → str_eq k name ≡ true
          → find_axis name ((k, ds) ∷ merged) ≡ some ds
      find_head k name ds merged y = rw (y, find_axis) refl

  -- Under the name of the axis stand cases with its ids.
  abbrev pub Agrees : List (Axis V) → Axis V → Type 0
  Agrees out ax = (cs : List (Case V)) × (find_axis ax.0 out ≡ some cs) × (ids cs ≡ ids ax.1)

  -- Nothing that was found is lost.
  abbrev pub Keeps : List (Axis V) → List (Axis V) → Type 0
  Keeps merged out =
      (name : String) (cs : List (Case V))
      → find_axis name merged ≡ some cs
      → find_axis name out ≡ some cs

  merge_found-Keeps :
      (ax : Axis V) (merged : List (Axis V))
      → Ensures Unit
          (λ out. Agrees out ax × Keeps merged out)
          (merge_found (find_axis ax.0 merged) ax merged)
  unfolding merge_found
  merge_found-Keeps ax merged = elim (Option-cases (find_axis ax.0 merged)) [
    | inl n ↦ rw n (
      (ax.1, find_axis-new ax merged n, refl),
      λ name cs e. find_axis-append name merged (ax ∷ []) cs e,
    )
    | inr (cs, e) ↦ elim (Bool-cases (same_ids cs ax.1)) [
      | inl y ↦ rw (e, y, merge_found) ((cs, e, same_ids-ids cs ax.1 y), λ name ds h. h)
      | inr n ↦ rw (e, n, merge_found) tt
    ]
  ]

  -- If `_merge_param_axes` returns, every axis of every fixture is found under its name, with cases
  -- of the same ids in the same order, and what was merged before is unchanged.
  pub merge_param_axes-Agrees :
      (axes merged : List (Axis V))
      → Ensures Unit
          (λ out. All (Agrees out) axes × Keeps merged out)
          (merge_param_axes axes merged)
  unfolding merge_param_axes
  merge_param_axes-Agrees [] merged = (tt, λ name cs e. e)
  merge_param_axes-Agrees (ax ∷ axes) merged =
      Ensures-bind Unit (λ next. Agrees next ax × Keeps merged next)
        (λ out. All (Agrees out) (ax ∷ axes) × Keeps merged out)
        (merge_found (find_axis ax.0 merged) ax merged) _ (merge_found-Keeps ax merged)
        (λ next h. later next h (merge_param_axes axes next) (merge_param_axes-Agrees axes next))
    where
      later :
          (next : List (Axis V))
          → Agrees next ax × Keeps merged next
          → (o : Outcome (List (Axis V)))
          → Ensures Unit (λ out. All (Agrees out) axes × Keeps next out) o
          → Ensures Unit (λ out. All (Agrees out) (ax ∷ axes) × Keeps merged out) o
      later next ((cs, e, same), kept) (raised x) h = tt
      later next ((cs, e, same), kept) (returned out) (agree, keep) =
          (((cs, keep ax.0 cs e, same), agree), λ name ds f. keep name ds (kept name ds f))
