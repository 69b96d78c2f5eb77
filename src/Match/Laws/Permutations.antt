-- ===== src/Match/Laws/Permutations.antt =====
-- `permutations n (range n)` lists exactly the arrangements of the positions.
use agent_spec_kit.Common.{
  ℕ, zero, suc, ◌+◌, ◌≤◌, ◌<◌, ◌≡◌, refl, sym, ◌∙◌, ap, subst, ◌≢◌, inl, inr, List, [], ◌∷◌, map,
  arith, All, All-append, All-map, length, In, All-at, All-of_In, In-append_left, In-append_right,
  In-map, All-map_of,
}
use native.Mathlib.Decide.{ℕ_discrete}
use agent_spec_kit.Match.Lists.Permutations.{selections, start_with, permutations, positions}
use agent_spec_kit.Match.Laws.Assignment.{Distinct}

-- A selection `(y, rest)` of `xs` takes `y` out and keeps all else.
abbrev IsSelection : List ℕ → ℕ × List ℕ → Type 0
IsSelection xs s =
    In s.0 xs
    × ((z : ℕ) → In z s.1 → In z xs)
    × (Distinct xs → Distinct s.1 × All (λ z. s.0 ≢ z) s.1)

IsSelection-cons :
    (x : ℕ) (xs : List ℕ) (s : ℕ × List ℕ) → IsSelection xs s → IsSelection (x ∷ xs) (s.0, x ∷ s.1)
IsSelection-cons x xs (y, rest) (member, within, distinct) = (
  inr member,
  λ z m. elim m [ inl e ↦ inl e | inr m' ↦ inr (within z m') ],
  λ (nes, d).
      let (d', away) = distinct d in
      (
        (All-of_In (λ z. x ≢ z) rest (λ z m. All-at (λ z. x ≢ z) xs z nes (within z m)), d'),
        (λ e. All-at (λ z. x ≢ z) xs y nes member (sym e), away),
      ),
)

selections-IsSelection : (xs : List ℕ) → All (IsSelection xs) (selections xs)
unfolding selections
selections-IsSelection [] = tt
selections-IsSelection (x ∷ xs) = (
  (inl refl, λ z m. inr m, λ d. (d.1, d.0)),
  All-map_of (IsSelection (x ∷ xs)) (λ (s : ℕ × List ℕ). (s.0, x ∷ s.1)) (selections xs)
      (lift (selections xs) (selections-IsSelection xs)),
)
  where
    lift :
        (ss : List (ℕ × List ℕ))
        → All (IsSelection xs) ss
        → All (λ (s : ℕ × List ℕ). IsSelection (x ∷ xs) (s.0, x ∷ s.1)) ss
    lift [] h = tt
    lift (s ∷ ss) h = (IsSelection-cons x xs s h.0, lift ss h.1)

-- Each member is selected, and what differs from it is left.
select :
    (y : ℕ) (xs : List ℕ)
    → In y xs
    → (rest : List ℕ) × In (y, rest) (selections xs) × ((z : ℕ) → In z xs → y ≢ z → In z rest)
unfolding selections
select y [] m = absurd m
select y (x ∷ xs) (inl e) = (
  xs,
  inl (ap (λ n. (n, xs)) e),
  λ z m ne. elim m [ inl e' ↦ absurd (ne (sym e ∙ e')) | inr m' ↦ m' ],
)
select y (x ∷ xs) (inr m) =
    let (rest, chosen, kept) = select y xs m in
    (
      x ∷ rest,
      inr (In-map (λ (s : ℕ × List ℕ). (s.0, x ∷ s.1)) (selections xs) (y, rest) chosen),
      λ z m' ne. elim m' [ inl e ↦ inl e | inr later ↦ inr (kept z later ne) ],
    )

In-start_with :
    (arrange : List ℕ → List (List ℕ)) (ss : List (ℕ × List ℕ)) (s : ℕ × List ℕ) (p : List ℕ)
    → In s ss
    → In p (arrange s.1)
    → In (s.0 ∷ p) (start_with arrange ss)
unfolding start_with
In-start_with arrange [] s p m mp = absurd m
In-start_with arrange (t ∷ ts) s p (inl e) mp =
    In-append_left (s.0 ∷ p) (map (λ q. t.0 ∷ q) (arrange t.1)) (start_with arrange ts) (
      subst (λ (u : ℕ × List ℕ). In (s.0 ∷ p) (map (λ q. u.0 ∷ q) (arrange u.1))) (sym e)
        (In-map (λ q. s.0 ∷ q) (arrange s.1) p mp))
In-start_with arrange (t ∷ ts) s p (inr m) mp =
    In-append_right (s.0 ∷ p) (map (λ q. t.0 ∷ q) (arrange t.1)) (start_with arrange ts)
      (In-start_with arrange ts s p m mp)

All-start_with :
    (P : List ℕ → Type 0) (arrange : List ℕ → List (List ℕ)) (ss : List (ℕ × List ℕ))
    → All (λ (s : ℕ × List ℕ). All (λ p. P (s.0 ∷ p)) (arrange s.1)) ss
    → All P (start_with arrange ss)
unfolding start_with
All-start_with P arrange [] h = tt
All-start_with P arrange (s ∷ ss) h =
    All-append P (map (λ p. s.0 ∷ p) (arrange s.1)) (start_with arrange ss)
      (All-map_of P (λ p. s.0 ∷ p) (arrange s.1) h.0) (All-start_with P arrange ss h.1)

-- `r` different members of the list.
pub record IsArrangement (r : ℕ) (xs p : List ℕ) : Type 0 where
  pub size : length p ≡ r
  pub members : All (λ z. In z xs) p
  pub distinct : Distinct xs → Distinct p

IsArrangement-cons :
    (r : ℕ) (xs : List ℕ) (s : ℕ × List ℕ) (p : List ℕ)
    → IsSelection xs s
    → IsArrangement r s.1 p
    → IsArrangement (suc r) xs (s.0 ∷ p)
IsArrangement-cons r xs (y, rest) p (member, within, distinct) a = record {
  size = ap suc a.size;
  members = (member, All-map (λ z. In z rest) (λ z. In z xs) within p a.members);
  distinct = λ d.
      let (d', away) = distinct d in
      (
        All-map (λ z. In z rest) (λ z. y ≢ z) (λ z m. All-at (λ w. y ≢ w) rest z away m) p
            a.members,
        a.distinct d',
      );
}

-- Every list that `permutations` yields arranges `r` different members of the pool.
pub permutations-IsArrangement :
    (r : ℕ) (xs : List ℕ) → All (IsArrangement r xs) (permutations r xs)
unfolding permutations
permutations-IsArrangement zero xs = (record { size = refl; members = tt; distinct = λ d. tt }, tt)
permutations-IsArrangement (suc r) xs =
    All-start_with (IsArrangement (suc r) xs) (permutations r) (selections xs) (
      All-map (IsSelection xs)
        (λ (s : ℕ × List ℕ). All (λ p. IsArrangement (suc r) xs (s.0 ∷ p)) (permutations r s.1))
        (λ s chosen.
          All-map (IsArrangement r s.1) (λ p. IsArrangement (suc r) xs (s.0 ∷ p))
            (λ p a. IsArrangement-cons r xs s p chosen a) (permutations r s.1)
            (permutations-IsArrangement r s.1))
        (selections xs) (selections-IsSelection xs))

keep_members :
    (j : ℕ) (ks xs rest : List ℕ)
    → ((z : ℕ) → In z xs → j ≢ z → In z rest)
    → All (λ k. j ≢ k) ks
    → All (λ z. In z xs) ks
    → All (λ z. In z rest) ks
keep_members j [] xs rest kept a m = tt
keep_members j (k ∷ ks) xs rest kept a m = (kept k m.0 a.0, keep_members j ks xs rest kept a.1 m.1)

-- Every arrangement is yielded.
pub In-permutations :
    (js xs : List ℕ) → Distinct js → All (λ z. In z xs) js → In js (permutations (length js) xs)
unfolding permutations
In-permutations [] xs distinct members = inl refl
In-permutations (j ∷ js) xs (away, distinct) (member, members) =
    let (rest, chosen, kept) = select j xs member in
    In-start_with (permutations (length js)) (selections xs) (j, rest) js chosen
      (In-permutations js rest distinct (keep_members j js xs rest kept away members))

pub In-positions : (start n j : ℕ) → start ≤ j → j < start + n → In j (positions start n)
unfolding positions
In-positions start zero j lo hi = absurd (omega arith)
In-positions start (suc n) j lo hi = elim (ℕ_discrete start j) [
  | yes e ↦ inl e
  | no ne ↦ inr (In-positions (suc start) n j (omega arith) (omega arith))
]

positions-bounds : (start n : ℕ) → All (λ j. (start ≤ j) × (j < start + n)) (positions start n)
unfolding positions
positions-bounds start zero = tt
positions-bounds start (suc n) = (
  (omega arith, omega arith),
  All-map (λ j. (suc start ≤ j) × (j < suc start + n)) (λ j. (start ≤ j) × (j < start + suc n))
      (λ j h. (omega arith, omega arith)) (positions (suc start) n)
      (positions-bounds (suc start) n),
)

pub lt_of_In-positions : (n j : ℕ) → In j (positions 0 n) → j < n
lt_of_In-positions n j m =
    let h = All-at (λ k. (0 ≤ k) × (k < 0 + n)) (positions 0 n) j (positions-bounds 0 n) m in
    omega arith

pub Distinct-positions : (start n : ℕ) → Distinct (positions start n)
unfolding positions
Distinct-positions start zero = tt
Distinct-positions start (suc n) = (
  All-map (λ j. (suc start ≤ j) × (j < suc start + n)) (λ j. start ≢ j) (λ j h. omega arith)
      (positions (suc start) n) (positions-bounds (suc start) n),
  Distinct-positions (suc start) n,
)

selections-size :
    (xs : List ℕ) → All (λ (s : ℕ × List ℕ). suc (length s.1) ≡ length xs) (selections xs)
unfolding selections
selections-size [] = tt
selections-size (x ∷ xs) = (
  refl,
  All-map_of (λ (s : ℕ × List ℕ). suc (length s.1) ≡ length (x ∷ xs))
      (λ (s : ℕ × List ℕ). (s.0, x ∷ s.1)) (selections xs)
      (All-map (λ (s : ℕ × List ℕ). suc (length s.1) ≡ length xs)
        (λ (s : ℕ × List ℕ). suc (length (x ∷ s.1)) ≡ length (x ∷ xs)) (λ s e. ap suc e)
        (selections xs) (selections-size xs)),
)

-- Different members of a list are no more than its elements.
pub pigeonhole : (js xs : List ℕ) → Distinct js → All (λ z. In z xs) js → length js ≤ length xs
pigeonhole [] xs distinct members = omega arith
pigeonhole (j ∷ js) xs (away, distinct) (member, members) =
    let (rest, chosen, kept) = select j xs member in
    let size =
      All-at (λ (s : ℕ × List ℕ). suc (length s.1) ≡ length xs) (selections xs) (j, rest)
        (selections-size xs) chosen in
    omega (arith, pigeonhole js rest distinct (keep_members j js xs rest kept away members))

pub length-positions : (start n : ℕ) → length (positions start n) ≡ n
unfolding positions
length-positions start zero = refl
length-positions start (suc n) = ap suc (length-positions (suc start) n)
