-- ===== src/Match/Laws/Gathering.antt =====
-- Passes that gather the errors of several checks and look at them at the end.
use agent_spec_kit.Common.{
  ◌≡◌, ◌≢◌, refl, ◌↔◌, inl, inr, true, List, [], ◌∷◌, ◌++◌, Bool-cases, if◌then◌else◌,
}
use agent_spec_kit.Common.Outcome.{Outcome, returned, raised}
use agent_spec_kit.Match.Types.{FieldPath, MatchError, MatchResult, success, failure}
use agent_spec_kit.Match.Laws.Assignment.{accepted, IsCalm}
use agent_spec_kit.Match.Protocol.{Check}
use agent_spec_kit.Match.Laws.Verdicts.{Answers}
use agent_spec_kit.Match.Laws.Report.{IsReport, Reports, Honors}

pub returned-IsReport :
    (p : FieldPath) (o : Outcome MatchResult)
    → Reports ⊥ p o
    → (r : MatchResult) × (o ≡ returned r) × IsReport p r
returned-IsReport p (returned r) h = (r, refl, h)
returned-IsReport p (raised e) h = absurd h

pub append-nonempty : (es fs : List MatchError) → fs ≢ [] → es ++ fs ≢ []
append-nonempty [] fs ne e = ne e
append-nonempty (x ∷ es) fs ne e = cc

-- Nothing is gathered of a match, something of a result that is none.
pub gathered_iff :
    (p : FieldPath) (r : MatchResult) (es : List MatchError)
    → IsReport p r
    → ((if r.ok then es else es ++ r.errors) ≡ []) ↔ ((es ≡ []) × (r.ok ≡ true))
gathered_iff p r es report = elim (Bool-cases r.ok) [
  | inl y ↦ rw y (λ e. (e, refl), λ h. h.0)
  | inr n ↦ rw n (λ e. absurd (append-nonempty es r.errors (report.vocal n) e), λ h. cc)
]

pub accepted-returned :
    (o : Outcome MatchResult) (r : MatchResult)
    → o ≡ returned r
    → (accepted o ≡ true) ↔ (r.ok ≡ true)
accepted-returned o r e = rw e (λ h. h, λ h. h)

pub refuses :
    (o : Outcome MatchResult) (P : Type 0) (es : List MatchError)
    → o ≡ returned (failure es)
    → ¬ P
    → Answers o P
unfolding failure
refuses o P es e n = (failure es, e, (λ good. cc, λ h. absurd (n h)))

pub accepts : (o : Outcome MatchResult) (P : Type 0) → o ≡ returned success → P → Answers o P
unfolding success
accepts o P e h = (success, e, (λ _. h, λ _. refl))

-- An outcome that holds a list, which is empty exactly when `P` holds.
abbrev pub Gathers : Outcome (List MatchError) → Type 0 → Type 0
Gathers o P = (es : List MatchError) × (o ≡ returned es) × ((es ≡ []) ↔ P)

-- A check that keeps the contract without raising is calm.
pub IsCalm-Honors : (check : Check) → Honors ⊥ check → IsCalm check
IsCalm-Honors check h v p = let (r, e, report) = returned-IsReport p (check v p) (h v p) in (r, e)
