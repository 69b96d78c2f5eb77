-- ===== src/Params/Laws/Product.antt =====
-- The combinations of the cases are all choices of one case for each axis.
use agent_spec_kit.Common.{
  ◌≡◌, refl, sym, inl, inr, ◌↔◌, List, [], ◌∷◌, map, String, In, In-append_left, In-append_right,
  In-map, subst, All, All-append, All-map_of, All-map, All-at,
}
use agent_spec_kit.Params.Cases.{Case}
use agent_spec_kit.Params.Axes.{Axis, Combination, combine_each, combinations}

module _ {V : Type 0} where
  -- A case of each axis, under its name and in the order of the axes.
  abbrev pub Picks : List (Axis V) → Combination V → Type 0
  Picks [] [] = Unit
  Picks [] (p ∷ t) = ⊥
  Picks (ax ∷ axes) [] = ⊥
  Picks (ax ∷ axes) (p ∷ t) = ((p.0 ≡ ax.0) × In p.1 ax.1) × Picks axes t

  combine_each-All :
      (k : String) (cs all : List (Case V)) (axes : List (Axis V)) (rest : List (Combination V))
      → All (λ c. In c all) cs
      → All (Picks axes) rest
      → All (Picks ((k, all) ∷ axes)) (combine_each k cs rest)
  unfolding combine_each
  combine_each-All k [] all axes rest h hs = tt
  combine_each-All k (c ∷ cs) all axes rest h hs =
      All-append (Picks ((k, all) ∷ axes)) (map (λ t. (k, c) ∷ t) rest) (combine_each k cs rest)
        (All-map_of (Picks ((k, all) ∷ axes)) (λ t. (k, c) ∷ t) rest
          (All-map (Picks axes) (λ t. Picks ((k, all) ∷ axes) ((k, c) ∷ t))
            (λ t p. ((refl, h.0), p)) rest hs))
        (combine_each-All k cs all axes rest h.1 hs)

  all_In : (cs : List (Case V)) → All (λ c. In c cs) cs
  all_In [] = tt
  all_In (c ∷ cs) =
      (inl refl, All-map (λ d. In d cs) (λ d. In d (c ∷ cs)) (λ d m. inr m) cs (all_In cs))

  combinations-All : (axes : List (Axis V)) → All (Picks axes) (combinations axes)
  unfolding combinations
  combinations-All [] = (tt, tt)
  combinations-All ((k, cs) ∷ axes) =
      combine_each-All k cs cs axes (combinations axes) (all_In cs) (combinations-All axes)

  In-combine_each :
      (k : String) (cs : List (Case V)) (c : Case V) (t : Combination V)
      (rest : List (Combination V))
      → In c cs
      → In t rest
      → In ((k, c) ∷ t) (combine_each k cs rest)
  unfolding combine_each
  In-combine_each k [] c t rest m mt = absurd m
  In-combine_each k (d ∷ ds) c t rest (inl e) mt =
      In-append_left ((k, c) ∷ t) (map (λ s. (k, d) ∷ s) rest) (combine_each k ds rest) (
        subst (λ x. In ((k, x) ∷ t) (map (λ s. (k, d) ∷ s) rest)) e
          (In-map (λ s. (k, d) ∷ s) rest t mt))
  In-combine_each k (d ∷ ds) c t rest (inr m) mt =
      In-append_right ((k, c) ∷ t) (map (λ s. (k, d) ∷ s) rest) (combine_each k ds rest)
        (In-combine_each k ds c t rest m mt)

  In-combinations :
      (axes : List (Axis V)) (t : Combination V) → Picks axes t → In t (combinations axes)
  unfolding combinations
  In-combinations [] [] p = inl refl
  In-combinations [] (x ∷ t) p = absurd p
  In-combinations (ax ∷ axes) [] p = absurd p
  In-combinations ((k, cs) ∷ axes) ((j, c) ∷ t) p =
      subst (λ (x : String). In ((x, c) ∷ t) (combine_each k cs (combinations axes))) (sym p.0.0)
        (In-combine_each k cs c t (combinations axes) p.0.1 (In-combinations axes t p.1))

  -- A combination is run exactly when it gives each axis, in order, one of its cases.
  pub combinations_iff :
      (axes : List (Axis V)) (t : Combination V) → In t (combinations axes) ↔ Picks axes t
  combinations_iff axes t = (
    λ m. All-at (Picks axes) (combinations axes) t (combinations-All axes) m,
    λ p. In-combinations axes t p,
  )
