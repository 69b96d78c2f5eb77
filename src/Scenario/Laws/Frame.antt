-- ===== src/Scenario/Laws/Frame.antt =====
-- What the methods of a scenario leave alone, and how many turns they add.
use agent_spec_kit.Common.{
  ℕ, suc, ◌+◌, ◌≤◌, ◌≡◌, refl, ◌∙◌, ap, sym, Bool, true, false, Option, none, some, List, [], ◌∷◌,
  ◌++◌, length, append-nil, append_assoc, length-append, arith, if◌then◌else◌, per_option,
}
use agent_spec_kit.Common.Action.{
  Ended, completed, halted, ended_as, ◌>>=◌, complete, halt, gets, modify, handled,
}
use agent_spec_kit.Scenario.Events.{ConversationTurn}
use agent_spec_kit.Scenario.State.{Halt, Scenario, Run}
use agent_spec_kit.Scenario.Segments.{add_turn}

-- `t` is `s` with at most `n` turns more: the queue, its position, the flag that the scenario records
-- and the two agents are the same.
pub record Extends {W : Type 0} (n : ℕ) (s t : Scenario W) : Type 0 where
  pub steps_kept : t.steps ≡ s.steps
  pub position_kept : t.executed_until ≡ s.executed_until
  pub recording_kept : t.recording ≡ s.recording
  pub agent_kept : t.adapted_agent ≡ s.adapted_agent
  pub user_kept : t.user ≡ s.user
  pub added : List ConversationTurn
  pub turns_kept : t.turn_results ≡ s.turn_results ++ added
  pub added_le : length added ≤ n

module _ {W : Type 0} where
  pub Extends-refl : (n : ℕ) (s : Scenario W) → Extends n s s
  Extends-refl n s = record {
    steps_kept = refl;
    position_kept = refl;
    recording_kept = refl;
    agent_kept = refl;
    user_kept = refl;
    added = [];
    turns_kept = sym (append-nil s.turn_results);
    added_le = omega arith;
  }

  -- A change of other fields.
  pub Extends-same :
      (s t : Scenario W)
      → t.steps ≡ s.steps
      → t.executed_until ≡ s.executed_until
      → t.recording ≡ s.recording
      → t.adapted_agent ≡ s.adapted_agent
      → t.user ≡ s.user
      → t.turn_results ≡ s.turn_results
      → Extends 0 s t
  Extends-same s t steps position recording agent user turns = record {
    steps_kept = steps;
    position_kept = position;
    recording_kept = recording;
    agent_kept = agent;
    user_kept = user;
    added = [];
    turns_kept = turns ∙ sym (append-nil s.turn_results);
    added_le = omega arith;
  }

  pub Extends-add_turn : (ct : ConversationTurn) (s : Scenario W) → Extends 1 s (add_turn ct s)
  Extends-add_turn ct s = record {
    steps_kept = refl;
    position_kept = refl;
    recording_kept = refl;
    agent_kept = refl;
    user_kept = refl;
    added = ct ∷ [];
    turns_kept = refl;
    added_le = omega arith;
  }

  pub Extends-trans :
      {m n : ℕ} {s t u : Scenario W} → Extends m s t → Extends n t u → Extends (m + n) s u
  Extends-trans {s} a b = record {
    steps_kept = b.steps_kept ∙ a.steps_kept;
    position_kept = b.position_kept ∙ a.position_kept;
    recording_kept = b.recording_kept ∙ a.recording_kept;
    agent_kept = b.agent_kept ∙ a.agent_kept;
    user_kept = b.user_kept ∙ a.user_kept;
    added = a.added ++ b.added;
    turns_kept =
        b.turns_kept
        ∙ ap (λ l. l ++ b.added) a.turns_kept
        ∙ append_assoc s.turn_results a.added b.added;
    added_le = omega (arith, length-append a.added b.added, a.added_le, b.added_le);
  }

  pub Extends-weaken : {m : ℕ} (n : ℕ) {s t : Scenario W} → m ≤ n → Extends m s t → Extends n s t
  Extends-weaken n le a = record {
    steps_kept = a.steps_kept;
    position_kept = a.position_kept;
    recording_kept = a.recording_kept;
    agent_kept = a.agent_kept;
    user_kept = a.user_kept;
    added = a.added;
    turns_kept = a.turns_kept;
    added_le = omega (arith, a.added_le);
  }

-- Wherever the method is called, it leaves that alone and adds at most `n` turns.
pub record Adds {W A : Type 0} (n : ℕ) (m : Run W A) : Type 0 where
  pub apply : (s : Scenario W) → Extends n s (m s).1

module _ {W : Type 0} where
  ended_as-Extends :
      {A B : Type 0} {m n : ℕ} {s : Scenario W} (r : Ended Halt A) (t : Scenario W)
      (f : A → Run W B)
      → Extends m s t
      → ((a : A) → Adds n (f a))
      → Extends (m + n) s (ended_as f r t).1
  ended_as-Extends (completed a) t f before rest = Extends-trans before ((rest a).apply t)
  ended_as-Extends {m} {n} (halted x) t f before rest = Extends-weaken (m + n) (omega arith) before

  pub Adds-weaken : {A : Type 0} {m : ℕ} (n : ℕ) {p : Run W A} → m ≤ n → Adds m p → Adds n p
  Adds-weaken n le h = record { apply = λ s. Extends-weaken n le (h.apply s) }

  pub Adds-bind :
      {A B : Type 0} {m n : ℕ} {p : Run W A} {f : A → Run W B}
      → Adds m p
      → ((a : A) → Adds n (f a))
      → Adds (m + n) (p >>= f)
  Adds-bind {p} {f} first rest = record {
    apply = λ s. ended_as-Extends (p s).0 (p s).1 f (first.apply s) rest;
  }

  -- Where only the rest, or only the beginning, adds turns.
  pub Adds-then :
      {A B : Type 0} {n : ℕ} {p : Run W A} {f : A → Run W B}
      → Adds 0 p
      → ((a : A) → Adds n (f a))
      → Adds n (p >>= f)
  Adds-then {n} first rest = Adds-weaken n (omega arith) (Adds-bind first rest)

  pub Adds-and :
      {A B : Type 0} {n : ℕ} {p : Run W A} {f : A → Run W B}
      → Adds n p
      → ((a : A) → Adds 0 (f a))
      → Adds n (p >>= f)
  Adds-and {n} first rest = Adds-weaken n (omega arith) (Adds-bind first rest)

  -- One turn, and then more.
  pub Adds-one_more :
      {A B : Type 0} {n : ℕ} {p : Run W A} {f : A → Run W B}
      → Adds 1 p
      → ((a : A) → Adds n (f a))
      → Adds (suc n) (p >>= f)
  Adds-one_more {n} first rest = Adds-weaken (suc n) (omega arith) (Adds-bind first rest)

  pub Adds-fewer : {A : Type 0} {n : ℕ} {p : Run W A} → Adds 0 p → Adds (suc n) p
  Adds-fewer {n} h = Adds-weaken (suc n) (omega arith) h

  pub Adds-handled :
      {A B : Type 0} {n : ℕ} {p : Run W A} {h : Ended Halt A → Run W B}
      → Adds 0 p
      → ((r : Ended Halt A) → Adds n (h r))
      → Adds n (handled p h)
  Adds-handled {n} {p} first rest = record {
    apply = λ s.
        Extends-weaken n (omega arith)
          (Extends-trans (first.apply s) ((rest (p s).0).apply (p s).1));
  }

  pub Adds-per_option :
      {A B : Type 0} {n : ℕ} (o : Option A) {x : Run W B} {f : A → Run W B}
      → Adds n x
      → ((a : A) → Adds n (f a))
      → Adds n (per_option o x f)
  Adds-per_option none hx hf = hx
  Adds-per_option (some a) hx hf = hf a

  pub Adds-if :
      {A : Type 0} {n : ℕ} (b : Bool) {x y : Run W A}
      → Adds n x
      → Adds n y
      → Adds n (if b then x else y)
  Adds-if true hx hy = hx
  Adds-if false hx hy = hy

  -- What changes none of these.
  pub Adds-complete : {A : Type 0} {n : ℕ} (a : A) → Adds {W = W} n (complete a)
  Adds-complete {n} a = record { apply = λ s. Extends-refl n s }

  pub Adds-halt : {A : Type 0} (x : Halt) → Adds {W = W} {A = A} 0 (halt x)
  Adds-halt x = record { apply = λ s. Extends-refl 0 s }

  pub Adds-gets : {A : Type 0} (f : Scenario W → A) → Adds 0 (gets f)
  Adds-gets f = record { apply = λ s. Extends-refl 0 s }

  pub Adds-add_turn : (ct : ConversationTurn) → Adds {W = W} 1 (modify (add_turn ct))
  Adds-add_turn ct = record { apply = λ s. Extends-add_turn ct s }

pub ruleset adds = (
  Adds-then, Adds-one_more, Adds-fewer, Adds-if, Adds-per_option, Adds-handled, Adds-complete,
  Adds-halt, Adds-gets,
)
