-- ===== src/Turn/Apply.antt =====
-- `apply_turn`, `apply_byok_turn` and `record_coach_reply` of tutor/orchestration/turn.py. Between
-- reading a session's row and writing it other requests may have written: `others` of
-- `Outside` is what they do to the tables; with nobody else it is the identity.
use cortex_tutor.Prelude.{ℕ, String, false, Option, none, some, List, [], ◌∷◌, ◌++◌, if◌then◌else◌}
use cortex_tutor.Domain.Steps.{Step, track_of}
use cortex_tutor.Domain.Verdict.{GateVerdict}
use cortex_tutor.Persistence.Models.{coach, Session, Message, Db, Clock}
use cortex_tutor.Persistence.Sessions.{get_active, NewSession, create, save_state}
use cortex_tutor.Persistence.Messages.{NewMessage, append_message, load_recent_messages}
use cortex_tutor.Persistence.Gates.{upsert_gate, add_gate_call}
use cortex_tutor.Prelude.Result.{stale_turn, Result, ok, err}
use cortex_tutor.Persistence.Transaction.{
  ◌>>=◌, ◌>>◌, Exec, pure, lift, reads, queries, writes, statement, modifies, interleave, commit,
  require,
}
use cortex_tutor.Domain.Fsm.{SessionState, Transition, transition}
use cortex_tutor.Gate.Answer.{compose_answer}
use cortex_tutor.Gate.Evaluate
use cortex_tutor.Gate.Evaluate.{
  ChatMessage, GateOutcome, GateProvider, GateEvaluation, Ambient, evaluate,
}
use cortex_tutor.Gate.Validate.{Validator}
use cortex_tutor.Json.{Fields, FloatOps}
use cortex_tutor.Prelude.Text.{Text}
use cortex_tutor.Turn.Steps.{
  Submission, TurnOutcome, transcript, current_state, is_recorded, replay, answer_message, Audit,
  gate_of, gate_call_of, columns_of, reflect,
}

-- What a request reads from outside the tables: the clock, a fresh UUID, the rubric's version, and
-- the writes of other requests that become visible before the state is saved.
pub record Outside : Type 0 where
  pub clock : Clock
  pub fresh_id : ℕ
  pub rubric_version : String
  pub others : Db → Db

-- The writes that both kinds of turn end with: the verdict's row and its audit row, then (for BYOK)
-- the coach's reply, then the state, guarded by the version that was read.
unfoldable pub save_turn :
    Outside → Session → Option ℕ → Transition → Exec (Unit {0}) → Exec (Unit {0})
save_turn out s turn_id result before_save = do
  before_save
  interleave out.others
  saved ← writes (save_state out.clock s.id s.version (columns_of result turn_id))
  require saved stale_turn
  commit

unfoldable pub record_verdict :
    Outside
    → Session
    → Submission
    → SessionState
    → GateVerdict
    → Transition
    → ℕ
    → Audit
    → String
    → Exec (Unit {0})
record_verdict out s sub st v result answer_seq audit judge_kind = do
  modifies (upsert_gate out.clock s.id (gate_of st.step v result judge_kind))
  modifies (add_gate_call (gate_call_of out.clock s sub st.step answer_seq v audit))

-- The gate's part of the outside world.
pub record GateWorld : Type 0 where
  pub ops : FloatOps
  pub pydantic : Validator
  pub lower : Text → Text
  pub ambient : Ambient
  pub provider : GateProvider

unfoldable pub evaluate_turn :
    GateWorld → Submission → SessionState → Text → List Message → Result (GateEvaluation × Text)
evaluate_turn world sub st problem_context prior =
    let gate_answer =
      compose_answer world.lower sub.answer st.step sub.code sub.language sub.run_result in
    elim (evaluate world.ops world.pydantic world.ambient world.provider st.step problem_context
      (transcript prior) gate_answer) [ ok e ↦ ok (e, gate_answer) | err e ↦ err e ]

unfoldable pub audit_of : GateEvaluation → Audit
audit_of e = record {
  provider = e.provider_kind;
  model = e.model;
  outcome = e.outcome;
  raw = e.raw;
  problem_context_hash = e.problem_context_hash;
  latency_ms = e.latency_ms;
}

unfoldable pub outcome_of :
    Session → SessionState → GateVerdict → Transition → List ChatMessage → TurnOutcome
outcome_of s st v result coach_messages = record {
  session = reflect s result;
  evaluated_step = st.step;
  verdict = v;
  advanced = result.advanced;
  done = result.done;
  coach_messages = coach_messages;
  replayed = false;
}

-- The part of `apply_turn` after the checks.
unfoldable pub evaluate_and_save :
    Outside → GateWorld → Text → Submission → Session → SessionState → Exec TurnOutcome
evaluate_and_save out world problem_context sub s st = do
  prior ← reads (load_recent_messages s.id 40)
  answer_msg ← statement (append_message out.clock s.id (answer_message sub st.step))
  (e, gate_answer) ← lift (evaluate_turn world sub st problem_context prior)
  let v = e.verdict
  let result = transition st v
  save_turn out s sub.turn_id result
      (record_verdict out s sub st v result answer_msg.seq (audit_of e) "llm")
  pure (
      outcome_of s st v result
        (transcript prior ++ record { role = Evaluate.user; content = gate_answer } ∷ []))

unfoldable pub turn_on : Outside → GateWorld → Text → Submission → Session → Exec TurnOutcome
turn_on out world problem_context sub s = do
  recorded ← reads (is_recorded sub.turn_id s.id)
  if recorded then pure (replay s) else do
    st ← lift (current_state s sub.step)
    evaluate_and_save out world problem_context sub s st

-- The lazily created session: on the submitted step's track.
abbrev pub lazy_session : Outside → String → String → String → Step → NewSession
lazy_session out user_sub problem_id origin step = record {
  user_sub = user_sub;
  problem_id = problem_id;
  origin = origin;
  rubric_version = out.rubric_version;
  track = track_of step;
  byok = false;
  coach_model = none;
}

unfoldable pub get_or_create : Outside → String → String → String → Step → Exec Session
get_or_create out user_sub problem_id origin step = do
  found ← queries (get_active user_sub problem_id)
  elim found [
    | some s ↦ pure s
    | none ↦
        writes (create out.clock out.fresh_id (lazy_session out user_sub problem_id origin step))
  ]

unfoldable pub apply_turn :
    Outside → GateWorld → String → String → String → Text → Submission → Exec TurnOutcome
apply_turn out world user_sub problem_id origin problem_context sub = do
  s ← get_or_create out user_sub problem_id origin sub.step
  turn_on out world problem_context sub s

abbrev pub reply_message : Session → Step → Text → NewMessage
reply_message s step coach_reply = record {
  role = coach;
  step = step;
  content = coach_reply;
  turn_id = none;
  content_json = none;
  model = s.coach_model;
}

abbrev pub byok_audit : GateOutcome → Option Fields → Audit
byok_audit outcome raw_verdict = record {
  provider = "byok_client";
  model = "client";
  outcome = outcome;
  raw = raw_verdict;
  problem_context_hash = "byok";
  latency_ms = 0;
}

-- A verdict that the client judged, with its reply.
pub record ClientTurn : Type 0 where
  pub coach_reply : Text
  pub verdict : GateVerdict
  pub verdict_outcome : GateOutcome
  pub raw_verdict : Option Fields

unfoldable pub save_byok :
    Outside → Submission → ClientTurn → Session → SessionState → Exec TurnOutcome
save_byok out sub client s st = do
  answer_msg ← statement (append_message out.clock s.id (answer_message sub st.step))
  let v = client.verdict
  let result = transition st v
  save_turn out s sub.turn_id result do
    record_verdict out s sub st v result answer_msg.seq
        (byok_audit client.verdict_outcome client.raw_verdict) "byok"
    reply ← statement (append_message out.clock s.id (reply_message s st.step client.coach_reply))
    pure tt
  pure (outcome_of s st v result [])

unfoldable pub apply_byok_turn : Outside → Submission → ClientTurn → Session → Exec TurnOutcome
apply_byok_turn out sub client s = do
  recorded ← reads (is_recorded sub.turn_id s.id)
  if recorded
      then pure (replay s)
      else do st ← lift (current_state s sub.step); save_byok out sub client s st

unfoldable pub record_coach_reply : Outside → ℕ → Step → Text → Option String → Exec (Unit {0})
record_coach_reply out id step content model = do
  msg ← statement (
      append_message out.clock id (record {
        role = coach;
        step = step;
        content = content;
        turn_id = none;
        content_json = none;
        model = model;
      }))
  commit
