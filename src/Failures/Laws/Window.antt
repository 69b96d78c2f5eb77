-- ===== src/Failures/Laws/Window.antt =====
-- The turns that a failure report shows: the last turns of the agent, with the user's between them and
-- before them.
use agent_spec_kit.Common.{
  ℕ, zero, suc, ◌+◌, ◌-◌, ◌≤◌, ◌<◌, min, ◌≡◌, refl, sym, ap, ◌∙◌, inl, inr, true, false, Option,
  none, some, List, [], ◌∷◌, ◌++◌, str_eq, eq_iff, if◌then◌else◌, length, take, drop, get_elem?,
  Bool-cases, arith,
}
use agent_spec_kit.Scenario.Events.{ConversationTurn}
use agent_spec_kit.Failures.Trace.{
  agent_idx, last_n, is_user, back_over_user, from_first, window_conversation_for_trace,
}

unfoldable pub agent_turns : List ConversationTurn → ℕ
agent_turns [] = 0
agent_turns (t ∷ ts) =
    let rest = agent_turns ts in if str_eq t.actor "agent" then suc rest else rest

-- The last turn.
unfoldable pub last_turn : List ConversationTurn → Option ConversationTurn
last_turn [] = none
last_turn (t ∷ []) = some t
last_turn (t ∷ u ∷ ts) = last_turn (u ∷ ts)

-- `window` ends `turns`, has the given number of the agent's turns, or all of them if there are fewer,
-- and no turn of the user stands directly before it.
pub record IsWindow (turns window : List ConversationTurn) (n : ℕ) : Type 0 where
  pub before : List ConversationTurn
  pub tail : turns ≡ before ++ window
  pub agents : agent_turns window ≡ min n (agent_turns turns)
  pub maximal : is_user (last_turn before) ≡ false

length-agent_idx : (i : ℕ) (ts : List ConversationTurn) → length (agent_idx i ts) ≡ agent_turns ts
unfolding agent_idx agent_turns
length-agent_idx i [] = refl
length-agent_idx i (t ∷ ts) =
    let ih = length-agent_idx (suc i) ts in
    elim (Bool-cases (str_eq t.actor "agent")) [ inl h ↦ ground arith | inr h ↦ ground arith ]

length-drop : {A : Type 0} (n : ℕ) (xs : List A) → length (drop n xs) ≡ length xs - n
length-drop zero xs = omega arith
length-drop (suc n) [] = omega arith
length-drop (suc n) (x ∷ xs) = omega (arith, length-drop n xs)

take-drop : {A : Type 0} (n : ℕ) (xs : List A) → xs ≡ take n xs ++ drop n xs
take-drop zero xs = refl
take-drop (suc n) [] = refl
take-drop (suc n) (x ∷ xs) = ap (λ l. x ∷ l) (take-drop n xs)

-- Turn `x` is one of the turns from index `i` on, and from it on there are `n` of the agent's.
abbrev IsAt : (i x n : ℕ) → List ConversationTurn → Type 0
IsAt i x n ts = (d : ℕ) × (x ≡ i + d) × (d < length ts) × (agent_turns (drop d ts) ≡ n)

IsAt-later :
    (i x n : ℕ) (t : ConversationTurn) (ts : List ConversationTurn)
    → IsAt (suc i) x n ts
    → IsAt i x n (t ∷ ts)
IsAt-later i x n t ts (d, at, inside, count) =
    (suc d, omega (arith, at), omega (arith, inside), count)

agent_idx-agent :
    (i : ℕ) (t : ConversationTurn) (ts : List ConversationTurn)
    → str_eq t.actor "agent" ≡ true
    → agent_idx i (t ∷ ts) ≡ i ∷ agent_idx (suc i) ts
unfolding agent_idx
agent_idx-agent i t ts h = rw h refl

agent_idx-other :
    (i : ℕ) (t : ConversationTurn) (ts : List ConversationTurn)
    → str_eq t.actor "agent" ≡ false
    → agent_idx i (t ∷ ts) ≡ agent_idx (suc i) ts
unfolding agent_idx
agent_idx-other i t ts h = rw h refl

abbrev first_or : ℕ → List ℕ → ℕ
first_or n [] = n
first_or n (x ∷ xs) = x

agent_turns-from_agent :
    (i k : ℕ) (t : ConversationTurn) (ts : List ConversationTurn) (x : ℕ) (rest : List ℕ)
    → str_eq t.actor "agent" ≡ true
    → ((j : ℕ) → drop j (agent_idx (suc i) ts) ≡ x ∷ rest → IsAt (suc i) x (suc (length rest)) ts)
    → drop k (i ∷ agent_idx (suc i) ts) ≡ x ∷ rest
    → IsAt i x (suc (length rest)) (t ∷ ts)
unfolding agent_turns
agent_turns-from_agent i zero t ts x rest agent later e = (
  0,
  omega (arith, ap (first_or 0) e),
  omega arith,
  rw agent (omega (arith, ap length e, length-agent_idx (suc i) ts)),
)
agent_turns-from_agent i (suc k) t ts x rest agent later e =
    IsAt-later i x (suc (length rest)) t ts (later k e)

agent_turns-from_index :
    (i k : ℕ) (ts : List ConversationTurn) (x : ℕ) (rest : List ℕ)
    → drop k (agent_idx i ts) ≡ x ∷ rest
    → IsAt i x (suc (length rest)) ts
unfolding agent_idx
agent_turns-from_index i zero [] x rest e = absurd (cc e)
agent_turns-from_index i (suc k) [] x rest e = absurd (cc e)
agent_turns-from_index i k (t ∷ ts) x rest e = elim (Bool-cases (str_eq t.actor "agent")) [
  | inl agent ↦
      agent_turns-from_agent i k t ts x rest agent (λ j. agent_turns-from_index (suc i) j ts x rest)
        (sym (ap (drop k) (agent_idx-agent i t ts agent)) ∙ e)
  | inr other ↦ IsAt-later i x (suc (length rest)) t ts (
      agent_turns-from_index (suc i) k ts x rest
        (sym (ap (drop k) (agent_idx-other i t ts other)) ∙ e))
]

last_turn-take :
    (ts : List ConversationTurn) (i : ℕ)
    → i < length ts
    → last_turn (take (suc i) ts) ≡ get_elem? ts i
unfolding last_turn
last_turn-take [] i h = elim h [ ]
last_turn-take (t ∷ ts) zero h = refl
last_turn-take (t ∷ []) (suc i) h = absurd (omega (arith, h))
last_turn-take (t ∷ u ∷ ts) (suc i) h = last_turn-take (u ∷ ts) i (omega (arith, h))

-- A turn of the user is none of the agent's.
agent_turns-user :
    (t : ConversationTurn) (ts : List ConversationTurn)
    → str_eq t.actor "user" ≡ true
    → agent_turns (t ∷ ts) ≡ agent_turns ts
unfolding agent_turns
agent_turns-user t ts h = rw ((eq_iff t.actor "user").0 h) refl

agent_turns-drop :
    (ts : List ConversationTurn) (i : ℕ)
    → is_user (get_elem? ts i) ≡ true
    → agent_turns (drop i ts) ≡ agent_turns (drop (suc i) ts)
unfolding is_user
agent_turns-drop [] zero h = refl
agent_turns-drop [] (suc i) h = refl
agent_turns-drop (t ∷ ts) zero h = agent_turns-user t ts h
agent_turns-drop (t ∷ ts) (suc i) h = agent_turns-drop ts i h

back_over_user-lem :
    (ts : List ConversationTurn) (i : ℕ)
    → i ≤ length ts
    → (agent_turns (drop (back_over_user ts i) ts) ≡ agent_turns (drop i ts))
      × (is_user (last_turn (take (back_over_user ts i) ts)) ≡ false)
unfolding back_over_user last_turn is_user
back_over_user-lem ts zero h = (refl, refl)
back_over_user-lem ts (suc i) h = elim (Bool-cases (is_user (get_elem? ts i))) [
  | inl user ↦
      let (same, maximal) = back_over_user-lem ts i (omega (arith, h)) in
      rw user (same ∙ agent_turns-drop ts i user, maximal)
  | inr other ↦ rw other (refl, ap is_user (last_turn-take ts i (omega (arith, h))) ∙ other)
]

length-last_n : (n : ℕ) (xs : List ℕ) → 0 < n → length (last_n n xs) ≡ min n (length xs)
unfolding last_n
length-last_n zero xs h = elim h [ ]
length-last_n (suc n) xs h = omega (arith, length-drop (length xs - suc n) xs)

last_n-is_drop : (n : ℕ) (xs : List ℕ) → (k : ℕ) × (last_n n xs ≡ drop k xs)
unfolding last_n
last_n-is_drop zero xs = (0, refl)
last_n-is_drop (suc n) xs = (length xs - suc n, refl)

from_first-IsWindow :
    (turns : List ConversationTurn) (n : ℕ) (is : List ℕ)
    → 0 < n
    → last_n n (agent_idx 0 turns) ≡ is
    → IsWindow turns (from_first turns is) n
unfolding from_first last_turn is_user
from_first-IsWindow turns n [] h e = record {
  before = [];
  tail = refl;
  agents =
      omega
        (arith, h, length-agent_idx 0 turns, length-last_n n (agent_idx 0 turns) h, ap length e);
  maximal = refl;
}
from_first-IsWindow turns n (x ∷ is) h e =
    let (k, dropped) = last_n-is_drop n (agent_idx 0 turns) in
    let (d, at, inside, count) = agent_turns-from_index 0 k turns x is (sym dropped ∙ e) in
    let here : x ≡ d = omega (arith, at) in
    let (same, maximal) = back_over_user-lem turns x (omega (arith, at, inside)) in
    record {
      before = take (back_over_user turns x) turns;
      tail = take-drop (back_over_user turns x) turns;
      agents = omega (
        arith,
        h,
        same,
        ap (λ y. agent_turns (drop y turns)) here,
        count,
        length-agent_idx 0 turns,
        length-last_n n (agent_idx 0 turns) h,
        ap length e,
      );
      maximal = maximal;
    }

-- The report of a conversation shows its last `n` turns of the agent, or all if there are fewer, with
-- every turn between them and after them, and before them all those of the user that stand directly
-- there, if `n` is positive.
pub window_conversation_for_trace-IsWindow :
    (turns : List ConversationTurn) (n : ℕ)
    → 0 < n
    → IsWindow turns (window_conversation_for_trace turns n) n
unfolding window_conversation_for_trace
window_conversation_for_trace-IsWindow turns n h =
    from_first-IsWindow turns n (last_n n (agent_idx 0 turns)) h refl
