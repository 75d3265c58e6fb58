-- ===== src/Domain/Fsm.antt =====
-- tutor/domain/fsm.py: the coaching state machine. `transition` is pure and total; `run` feeds it a
-- history of verdicts. Its laws are in `Moves` (one transition) and `Progress` (whole histories).
pub mod Moves
pub mod Progress
use cortex_tutor.Prelude.{
  ℕ, ◌+◌, min, max, Bool, true, false, Option, none, some, List, [], ◌∷◌, if◌then◌else◌,
}
use cortex_tutor.Domain.Steps.{Step, same_step, next_step}
use cortex_tutor.Domain.Verdict.{Verdict, pass, retry, GateVerdict}

abbrev pub max_hint_level : ℕ
max_hint_level = 3

abbrev pub max_attempts : ℕ
max_attempts = 3

pub data SessionStatus : Type 0 where
  active completed : SessionStatus

-- `scores` is a Python dict: one entry for a step, the last one written.
pub record SessionState : Type 0 where
  pub step : Step
  pub attempts : ℕ
  pub hint_level : ℕ
  pub status : SessionStatus
  pub scores : List (Step × ℕ)

pub record Transition : Type 0 where
  pub state : SessionState
  pub advanced : Bool
  pub done : Bool

-- `{**scores, step: score}`
unfoldable pub put_score : Step → ℕ → List (Step × ℕ) → List (Step × ℕ)
put_score s n [] = (s, n) ∷ []
put_score s n ((s', m) ∷ rest) =
    if same_step s' s then (s, n) ∷ rest else (s', m) ∷ put_score s n rest

unfoldable pub find_score : Step → List (Step × ℕ) → Option ℕ
find_score s [] = none
find_score s ((s', m) ∷ rest) = if same_step s' s then some m else find_score s rest

-- The branch of PASS: on to the next step, or done at the terminal one.
unfoldable pub advance : SessionState → List (Step × ℕ) → Option Step → Transition
advance st scores none = record {
  state = record st { status = completed; attempts = 0; hint_level = 0; scores = scores };
  advanced = true;
  done = true;
}
advance st scores (some nxt) = record {
  state = record st { step = nxt; attempts = 0; hint_level = 0; scores = scores };
  advanced = true;
  done = false;
}

-- The branch of RETRY: an attempt is used up, and the hint ladder climbs to its top at most.
unfoldable pub climb : SessionState → ℕ → SessionState
climb st next_hint_level =
    let attempts : ℕ = st.attempts + 1 in
    record st {
      attempts = attempts;
      hint_level = min max_hint_level (max (max st.hint_level next_hint_level) attempts);
    }

unfoldable pub on_active : SessionState → GateVerdict → Verdict → Transition
unfolding advance climb
on_active st v pass = advance st (put_score st.step v.score st.scores) (next_step st.step)
on_active st v retry = record { state = climb st v.next_hint_level; advanced = false; done = false }
on_active st v _ = record { state = st; advanced = false; done = false }

unfoldable pub on_status : SessionState → GateVerdict → SessionStatus → Transition
unfolding on_active
on_status st v completed = record { state = st; advanced = false; done = true }
on_status st v active = on_active st v v.verdict

unfoldable pub transition : SessionState → GateVerdict → Transition
unfolding on_status
transition st v = on_status st v st.status

-- A fresh session on a track's first step.
unfoldable pub start : Step → SessionState
start s = record { step = s; attempts = 0; hint_level = 0; status = active; scores = [] }

-- The state after a history of verdicts.
unfoldable pub run : SessionState → List GateVerdict → SessionState
run st [] = st
run st (v ∷ vs) = run (transition st v).state vs
