-- ===== src/Shrink/Turns.antt =====
-- shrink_engine.py: the candidates of a pass, and the choice among those that reproduce.
use Prim.Native.String.{[] as empty, ◌∷◌ as ◌&◌, count}
use agent_spec_kit.Common.{
  ℕ, ◌+◌, String, Bool, true, false, not, ◌&&◌, ◌||◌, Option, none, some, List, [], ◌∷◌, ◌++◌, map,
  str_eq, if◌then◌else◌, ltb, leb, ◌==◌, length, take,
}
use agent_spec_kit.Common.Outcome.{value_error, Outcome, returned, raised, ◌>>=◌}
use agent_spec_kit.Match.Mapping.{strip}

abbrev pub Turns : Type 0
Turns = List String

-- `m[:-1]`
drop_last : String → String
drop_last empty = ""
drop_last (c & s) = let rest = drop_last s in if str_eq s "" then "" else c & rest

-- The strings other than one.
unfoldable pub others : String → List String → List String
others s [] = []
others s (t ∷ ts) = let rest = others s ts in if str_eq t s then rest else t ∷ rest

-- `dict.fromkeys`: each string once, where it stands first.
distinct : List String → List String
unfolding others
distinct [] = []
distinct (s ∷ ss) = s ∷ others s (distinct ss)

keep_if : Bool → String → List String
keep_if b s = if b then s ∷ [] else []

-- `lower` and `upper` are the methods of `str`.
unfoldable pub simplify_message : (lower upper : String → String) → String → List String
unfolding strip drop_last distinct keep_if
simplify_message lower upper msg =
    let m = strip msg in
    if str_eq m ""
    then []
    else distinct (
        m
        ∷ (keep_if (ltb 1 (count m)) (drop_last m)
            ++ (keep_if (not (str_eq (lower m) m)) (lower m)
                ++ keep_if (not (str_eq (upper m) m)) (upper m))))

-- The list without the turn at each index.
unfoldable pub removals : Turns → List Turns
removals [] = []
removals (t ∷ ts) = ts ∷ map (λ rest. t ∷ rest) (removals ts)

unfoldable pub candidates_remove_one : Turns → List Turns
unfolding removals
candidates_remove_one turns = if leb (length turns) 1 then [] else removals turns

unfoldable pub candidates_simplify_messages : (lower upper : String → String) → Turns → List Turns
unfolding others simplify_message
candidates_simplify_messages lower upper [] = []
candidates_simplify_messages lower upper (msg ∷ ts) =
    map (λ variant. variant ∷ ts) (others msg (simplify_message lower upper msg))
    ++ map (λ rest. msg ∷ rest) (candidates_simplify_messages lower upper ts)

-- `None` is no limit; a limit is never below 0, since no more than it is ever subtracted.
abbrev pub Budget : Type 0
Budget = Option ℕ

unfoldable pub take_budget : List Turns → Budget → List Turns
take_budget cands none = cands
take_budget cands (some b) = take b cands

unfoldable pub total_chars : Turns → ℕ
total_chars [] = 0
total_chars (t ∷ ts) = count t + total_chars ts

-- The order of the keys `(len(c), sum(len(x) for x in c))`.
unfoldable pub lighter : Turns → Turns → Bool
unfolding total_chars
lighter c d =
    ltb (length c) (length d) || length c == length d && ltb (total_chars c) (total_chars d)

-- `min(wins, key=...)`: the first of the lightest.
unfoldable pub lightest : Turns → List Turns → Turns
unfolding lighter
lightest best [] = best
lightest best (c ∷ cs) = lightest (if lighter c best then c else best) cs

-- `[c for c, ok in zip(cands, results, strict=True) if ok]`
unfoldable pub winners : List Turns → List Bool → Outcome (List Turns)
winners [] [] = returned []
winners [] (b ∷ bs) = raised value_error
winners (c ∷ cs) [] = raised value_error
winners (c ∷ cs) (b ∷ bs) = do wins ← winners cs bs; returned (if b then c ∷ wins else wins)

unfoldable pub same_turns : Turns → Turns → Bool
same_turns [] [] = true
same_turns (s ∷ ss) (t ∷ ts) = str_eq s t && same_turns ss ts
same_turns ss ts = false
