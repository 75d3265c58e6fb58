-- ===== src/Domain/Fsm/Moves.antt =====
-- What one transition of tutor/domain/fsm.py does: when it advances, and what it leaves alone.
use cortex_tutor.Prelude.{
  ℕ, ◌+◌, ◌≤◌, ◌≡◌, refl, ◌↔◌, true, false, some, List, [], ◌∷◌, arith, if◌then◌else◌,
}
use cortex_tutor.Domain.Steps.{Step, same_step}
use cortex_tutor.Domain.Verdict.{pass, retry, GateVerdict}
use cortex_tutor.Domain.Fsm.{
  max_hint_level, max_attempts, active, SessionState, put_score, find_score, transition,
}
use cortex_tutor.Domain.Steps.Ladder.{same_step_iff}

-- A transition advances exactly if the session is active and the verdict is PASS.
pub transition-advanced_iff :
    (st : SessionState) (v : GateVerdict)
    → ((transition st v).advanced ≡ true) ↔ ((st.status ≡ active) × (v.verdict ≡ pass))
unfolding transition
transition-advanced_iff st v = ground arith

-- A transition that does not advance leaves the step, the status and the scores as they were.
pub transition-keeps :
    (st : SessionState) (v : GateVerdict)
    → (transition st v).advanced ≡ false
    → ((transition st v).state.step ≡ st.step)
      × ((transition st v).state.status ≡ st.status)
      × ((transition st v).state.scores ≡ st.scores)
unfolding transition
transition-keeps st v h = ground arith

pub find_score-put_score :
    (s t : Step) (n : ℕ) (scores : List (Step × ℕ))
    → find_score t (put_score s n scores) ≡ (if same_step s t then some n else find_score t scores)
unfolding find_score put_score
find_score-put_score s t n [] = refl
find_score-put_score s t n ((s', m) ∷ rest) = ground (
  arith,
  find_score-put_score s t n rest,
  same_step_iff s t,
  same_step_iff s' s,
  same_step_iff s' t,
)

-- On an active session whose hint level is within the ladder, RETRY uses an attempt and never
-- lowers the hint level, which stays within the ladder; from the third attempt on the hints are at
-- the top.
pub transition-retry :
    (st : SessionState) (v : GateVerdict)
    → st.status ≡ active
    → v.verdict ≡ retry
    → st.hint_level ≤ max_hint_level
    → let st' = (transition st v).state in
      (st'.attempts ≡ st.attempts + 1)
      × (st.hint_level ≤ st'.hint_level)
      × (st'.hint_level ≤ max_hint_level)
      × (max_attempts ≤ st'.attempts → st'.hint_level ≡ max_hint_level)
unfolding transition
transition-retry st v a r h = grind arith
