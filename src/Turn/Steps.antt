-- ===== src/Turn/Steps.antt =====
-- The parts of a turn in tutor/orchestration/turn.py: what comes in, what goes out, the session's
-- row as a state of the FSM, and the writes that the two kinds of turn share.
use cortex_tutor.Prelude.{
  ℕ, ◌+◌, String, Bool, true, false, Option, none, some, List, [], ◌∷◌, ◌++◌, map, if◌then◌else◌,
}
use cortex_tutor.Domain.Steps.{Step, same_step, step_index}
use cortex_tutor.Domain.Verdict.{GateVerdict, retry_failsafe}
use cortex_tutor.Persistence.Models.{
  RowStatus, active, completed, abandoned, MessageRole, user, coach, Session, Message, GateCall, Db,
  Clock,
}
use cortex_tutor.Persistence.Sessions.{StateColumns}
use cortex_tutor.Persistence.Messages.{NewMessage, find_by_turn}
use cortex_tutor.Persistence.Gates.{NewGate}
use cortex_tutor.Prelude.Result.{step_mismatch, value_error, Result, ok, err}
use cortex_tutor.Prelude.Text.{Text, codes, is_empty}
use cortex_tutor.Json.{Fields}
use cortex_tutor.Gate.Evaluate.{ChatMessage, GateOutcome}
use cortex_tutor.Gate.Evaluate
use cortex_tutor.Domain.Fsm.{SessionState, SessionStatus, Transition}

-- The learner's submission.
pub record Submission : Type 0 where
  pub step : Step
  pub answer : Text
  pub turn_id : Option ℕ
  pub code : Option Text
  pub language : Option Text
  pub run_result : Option Text

pub record TurnOutcome : Type 0 where
  pub session : Session
  pub evaluated_step : Step
  pub verdict : GateVerdict
  pub advanced : Bool
  pub done : Bool
  pub coach_messages : List ChatMessage
  pub replayed : Bool

-- `"assistant" if m.role == "coach" else "user"`
unfoldable pub chat_role : MessageRole → Evaluate.Role
chat_role coach = Evaluate.assistant
chat_role _ = Evaluate.user

unfoldable pub transcript : List Message → List ChatMessage
unfolding chat_role
transcript history = map (λ m. record { role = chat_role m.role; content = m.content }) history

-- `SessionStatus(session.status)`
unfoldable pub parse_status : RowStatus → Result SessionStatus
parse_status active = ok SessionStatus.active
parse_status completed = ok SessionStatus.completed
parse_status abandoned = err value_error

-- `status.value`
unfoldable pub status_value : SessionStatus → RowStatus
status_value SessionStatus.active = active
status_value SessionStatus.completed = completed

-- The row as a state of the FSM; the scores of earlier steps are not loaded.
unfoldable pub state_of : Session → SessionStatus → SessionState
state_of s status = record {
  step = s.current_step;
  attempts = s.attempts;
  hint_level = s.hint_level;
  status = status;
  scores = [];
}

unfoldable pub is_completed : RowStatus → Bool
is_completed completed = true
is_completed _ = false

-- The state to evaluate, or a conflict: a completed session, or a step that is not the current one.
unfoldable pub checked_state : Session → SessionStatus → Step → Result SessionState
checked_state s SessionStatus.completed step = err step_mismatch
checked_state s SessionStatus.active step =
    if same_step step s.current_step
    then ok (state_of s SessionStatus.active)
    else err step_mismatch

unfoldable pub current_state : Session → Step → Result SessionState
unfolding checked_state parse_status
current_state s step = elim (parse_status s.status) [
  | ok status ↦ checked_state s status step
  | err e ↦ err e
]

-- `turn_id is not None and find_by_turn(...) is not None`
unfoldable pub is_recorded : Option ℕ → ℕ → Db → Bool
is_recorded none id db = false
is_recorded (some t) id db = elim (find_by_turn id t db) [ none ↦ false | some m ↦ true ]

-- The outcome of a turn that was recorded before.
unfoldable pub replay : Session → TurnOutcome
replay s = record {
  session = s;
  evaluated_step = s.current_step;
  verdict = retry_failsafe (codes "(already recorded)");
  advanced = false;
  done = is_completed s.status;
  coach_messages = [];
  replayed = true;
}

-- `{k: v for k, v in ... if v}`, and `or None`
unfoldable pub evidence_item : String → Option Text → List (String × Text)
evidence_item k none = []
evidence_item k (some v) = if is_empty v then [] else (k, v) ∷ []

unfoldable pub some_unless_empty : List (String × Text) → Option (List (String × Text))
some_unless_empty [] = none
some_unless_empty (x ∷ xs) = some (x ∷ xs)

unfoldable pub evidence : Submission → Option (List (String × Text))
unfolding evidence_item some_unless_empty
evidence sub = some_unless_empty (
    evidence_item "code" sub.code
    ++ (evidence_item "language" sub.language ++ evidence_item "runResult" sub.run_result))

abbrev pub answer_message : Submission → Step → NewMessage
answer_message sub step = record {
  role = user;
  step = step;
  content = sub.answer;
  turn_id = sub.turn_id;
  content_json = evidence sub;
  model = none;
}

-- How the verdict of a turn was reached, as the audit row records it.
pub record Audit : Type 0 where
  pub provider : String
  pub model : String
  pub outcome : GateOutcome
  pub raw : Option Fields
  pub problem_context_hash : String
  pub latency_ms : ℕ

abbrev pub gate_of : Step → GateVerdict → Transition → String → NewGate
gate_of step v result judge_kind = record {
  step = step;
  verdict = v.verdict;
  score = v.score;
  attempts = result.state.attempts;
  missing = v.missing;
  judge_kind = judge_kind;
}

unfoldable pub gate_call_of :
    Clock → Session → Submission → Step → ℕ → GateVerdict → Audit → GateCall
gate_call_of clock s sub step answer_seq v audit = record {
  session_id = s.id;
  turn_id = sub.turn_id;
  step = step;
  answer_seq = answer_seq;
  rubric_version = s.rubric_version;
  provider = audit.provider;
  model = audit.model;
  outcome = audit.outcome;
  raw = audit.raw;
  verdict = v.verdict;
  score = v.score;
  missing = v.missing;
  hint = v.hint;
  problem_context_hash = audit.problem_context_hash;
  latency_ms = audit.latency_ms;
  created_at = clock.now;
}

-- The columns that the turn saves.
unfoldable pub columns_of : Transition → Option ℕ → StateColumns
unfolding status_value
columns_of result turn_id = record {
  status = status_value result.state.status;
  current_step = result.state.step;
  step_index = step_index result.state.step;
  attempts = result.state.attempts;
  hint_level = result.state.hint_level;
  last_turn_id = turn_id;
}

-- The row that the caller gets back: the committed state, written over the row that was read.
unfoldable pub reflect : Session → Transition → Session
unfolding status_value
reflect s result = record s {
  status = status_value result.state.status;
  current_step = result.state.step;
  step_index = step_index result.state.step;
  attempts = result.state.attempts;
  hint_level = result.state.hint_level;
  version = s.version + 1;
}
