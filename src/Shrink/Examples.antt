-- ===== src/Shrink/Examples.antt =====
-- The shrink passes at work on small conversations, and the theorems applied.
use agent_spec_kit.Common.{
  ℕ, ◌≡◌, refl, String, Bool, true, false, none, some, [], ◌∷◌, length, ◌==◌, leb, arith, str_eq,
  if◌then◌else◌,
}
use agent_spec_kit.Common.Outcome.{returned, Ensures}
use agent_spec_kit.Shrink.Turns.{
  Turns, candidates_remove_one, candidates_simplify_messages, lightest, winners, total_chars,
}
use agent_spec_kit.Shrink.Engine.{ShrinkPassSpec, ShrinkConfig, Work, pass_loop}
use agent_spec_kit.Shrink.Passes.{Complete, shrink_user_turns}
use agent_spec_kit.Shrink.Laws.Minimality.{
  judged, judged-IsSound, judged-AnswersAll, IsOneMinimal, remove_user_turns-IsMinimal,
}
use agent_spec_kit.Shrink.Laws.Termination.{remove_user_turns_finishes, limited_pass_finishes}
use agent_spec_kit.Shrink.Laws.Limits.{WorkWithin, shrink_user_turns-WorkWithin}
use agent_spec_kit.Shrink.Laws.Reproduction.{GoodWork, shrink_user_turns-Good}

abbrev three_turns : Turns
three_turns = "a" ∷ "b" ∷ "c" ∷ []

-- The failure needs two turns.
abbrev needs_two : Turns → Bool
needs_two ts = leb 2 (length ts)

abbrev start : Work ℕ
start = record { current = three_turns; evaluated = 0; world = 0 }

removes_one :
    pass_loop (judged needs_two) 4 candidates_remove_one none start
    ≡ returned (some (record { current = "b" ∷ "c" ∷ []; evaluated = 5; world = 0 }))
unfolding pass_loop candidates_remove_one winners lightest
removes_one = refl

-- The texts of the example in the other case.
abbrev lower_case : String → String
lower_case s = if str_eq s "AB" then "ab" else s

abbrev upper_case : String → String
upper_case s = if str_eq s "ab" then "AB" else s

-- The failure needs a message of two characters: the pass goes from one case to the other and back.
abbrev needs_two_chars : Turns → Bool
needs_two_chars ts = total_chars ts == 2

abbrev upper_message : Work ℕ
upper_message = record { current = "AB" ∷ []; evaluated = 0; world = 0 }

flips :
    pass_loop
      (judged needs_two_chars)
      6
      (candidates_simplify_messages lower_case upper_case)
      none
      upper_message
    ≡ returned none
unfolding pass_loop candidates_simplify_messages winners total_chars lightest
flips = refl

remove_user_turns_finishes_example :
    (w' : Work ℕ) × (pass_loop (judged needs_two) 4 candidates_remove_one (some 4) start
      ≡ returned (some w'))
remove_user_turns_finishes_example =
    remove_user_turns_finishes (judged needs_two) (judged-AnswersAll needs_two) 4 (some 4) start
      (omega arith)

limited_pass_finishes_example :
    (w' : Work ℕ) × (pass_loop
        (judged needs_two_chars)
        7
        (candidates_simplify_messages lower_case upper_case)
        (some 6)
        upper_message
      ≡ returned (some w'))
limited_pass_finishes_example =
    limited_pass_finishes (judged needs_two_chars) (judged-AnswersAll needs_two_chars) 7
      (candidates_simplify_messages lower_case upper_case) 6 upper_message (omega arith)

remove_user_turns-IsMinimal_example :
    (w' : Work ℕ) × (pass_loop (judged needs_two) 4 candidates_remove_one none start
      ≡ returned (some w'))
    × IsOneMinimal needs_two w'.current
remove_user_turns-IsMinimal_example = remove_user_turns-IsMinimal needs_two 4 start (omega arith)

abbrev no_model : Complete ℕ
no_model spec msg s = returned ([], s)

abbrev removing : ShrinkPassSpec
removing = record { kind = "remove_user_turns"; model = "" }

abbrev two_passes : ShrinkConfig
two_passes = record {
  passes = removing ∷ record { kind = "simplify_user_messages"; model = "" } ∷ [];
  max_attempts_per_shrink = some 4;
}

shrink_user_turns-Good_example : Ensures Unit (GoodWork (λ ts. needs_two ts ≡ true)) (
    shrink_user_turns lower_case upper_case false
      (judged needs_two)
      no_model
      9
      three_turns
      two_passes
      0)
shrink_user_turns-Good_example =
    shrink_user_turns-Good (λ ts. needs_two ts ≡ true) (judged needs_two) (judged-IsSound needs_two)
      lower_case upper_case false no_model 9 three_turns two_passes 0 refl

shrink_user_turns-WorkWithin_example : Ensures Unit (WorkWithin 4) (
    shrink_user_turns lower_case upper_case false
      (judged needs_two)
      no_model
      9
      three_turns
      two_passes
      0)
shrink_user_turns-WorkWithin_example =
    shrink_user_turns-WorkWithin lower_case upper_case false (judged needs_two) no_model 9
      three_turns two_passes.passes 4 0
