-- ===== src/Tests/Turn.antt =====
-- Turns of a learner's session against a fixed gate answer.
use cortex_tutor.Prelude.{
  any, ℕ, ◌+◌, ◌≡◌, refl, ◌≢◌, Bool, true, false, none, some, [], ◌∷◌, map, arith, filter, count,
}
use cortex_tutor.Domain.Steps.{
  problem, Step, plan, implement, same_step, steps_for, track_of, first_step, index_of, step_index,
  next_step,
}
use cortex_tutor.Domain.Verdict.{pass, retry, GateVerdict}
use cortex_tutor.Persistence.Models.{active, completed, user, Session, Message, Db, empty_db, Clock}
use cortex_tutor.Persistence.Sessions.{
  is_active, one_or_none, get_active, new_row, create, StateColumns, with_state, save_state,
}
use cortex_tutor.Persistence.Messages.{
  next_seq, append_message, insert_message, load_recent_messages, same_turn, find_by_turn,
}
use cortex_tutor.Persistence.Gates.{upsert_gate, add_gate_call}
use cortex_tutor.Prelude.Result.{stale_turn, step_mismatch, Result, ok, err}
use cortex_tutor.Persistence.Transaction.{in_transaction}
use cortex_tutor.Domain.Fsm.{transition}
use cortex_tutor.Gate.Answer.{compose_answer}
use cortex_tutor.Gate.Evaluate
use cortex_tutor.Gate.Evaluate.{GateEvaluation}
use cortex_tutor.Json.{Fields}
use cortex_tutor.Prelude.Text.{codes}
use cortex_tutor.Turn.Steps.{
  Submission, TurnOutcome, transcript, parse_status, state_of, is_completed, current_state,
  is_recorded, replay, evidence, gate_call_of, columns_of, reflect,
}
use cortex_tutor.Turn.Apply.{
  Outside, save_turn, record_verdict, GateWorld, evaluate_turn, audit_of, outcome_of,
  evaluate_and_save, turn_on, get_or_create, apply_turn, ClientTurn, save_byok, apply_byok_turn,
}
use cortex_tutor.Persistence.Versions.{rows_of, save_state-twice}
use cortex_tutor.Tests.Samples.{
  reference_validator, whole_floats, passing, sample_ambient, answering,
}
use cortex_tutor.Tests.Gate.{program}
use cortex_tutor.Turn.Atomic.{IsUntouched, apply_turn-err, apply_byok_turn-err}
use cortex_tutor.Turn.Outcome.{
  turn, ProviderPasses, apply_turn-advanced, apply_turn-replay, apply_turn-no_active,
}
use cortex_tutor.Turn.Saved.{IsMoved, IsAnswer, IsReported, apply_turn-saves}

abbrev pub clock : Clock
clock = record { now = 100; ttl = 48 }

abbrev pub calm : Outside
calm = record { clock = clock; fresh_id = 9; rubric_version = "r1"; others = λ db. db }

abbrev bump : Session → Session
bump s = record s { version = s.version + 1 }

-- Another request saves the session first.
abbrev racing : Outside
racing = record calm { others = λ db. record db { sessions = map bump db.sessions } }

abbrev pub world : Fields → GateWorld
world raw = record {
  ops = whole_floats;
  pydantic = reference_validator;
  lower = λ t. t;
  ambient = sample_ambient;
  provider = answering raw;
}

abbrev pub at_plan : Session
at_plan = record {
  id = 1;
  user_sub = "ada";
  problem_id = "dsa/two-sum";
  origin = "your_turn";
  track = problem;
  status = active;
  current_step = plan;
  step_index = 3;
  attempts = 1;
  hint_level = 1;
  coach_model = some "qwen-coach";
  rubric_version = "r1";
  byok = false;
  version = 5;
  last_turn_id = none;
  created_at = 10;
  updated_at = 20;
  expires_at = 68;
}

abbrev sample_pass : GateVerdict
sample_pass = record {
  verdict = pass;
  score = 80;
  rubric_hits = [];
  missing = [];
  hint = [];
  next_hint_level = 0;
}

abbrev pub one_session : Db
one_session = record empty_db { sessions = at_plan ∷ [] }

abbrev submission : Submission
submission = record {
  step = plan;
  answer = codes "two pointers";
  turn_id = some 77;
  code = none;
  language = none;
  run_result = none;
}

machine : Unit {0}
unfolding program apply_turn get_or_create turn_on current_state parse_status evaluate_and_save
    evaluate_turn save_turn record_verdict append_message insert_message any upsert_gate
    add_gate_call save_state with_state get_active one_or_none create new_row is_recorded
    find_by_turn load_recent_messages next_seq count filter same_turn is_active same_step transition
    next_step step_index track_of first_step index_of steps_for columns_of outcome_of reflect
    state_of transcript compose_answer evidence replay is_completed audit_of gate_call_of
machine = tt

abbrev run_turn : Outside → Fields → Db → Result TurnOutcome × Db
run_turn out raw db =
    in_transaction
      (apply_turn out (world raw) "ada" "dsa/two-sum" "your_turn" (codes "p") submission) db

summary : Result TurnOutcome × Db → Result (Bool × Step × ℕ)
summary (ok o, db) = ok (o.advanced, o.session.current_step, o.session.version)
summary (err e, db) = err e

a_pass_advances : summary (run_turn calm passing one_session) ≡ ok (true, implement, 6)
unfolding machine summary
a_pass_advances = refl

a_race_is_stale : summary (run_turn racing passing one_session) ≡ err stale_turn
unfolding machine summary
a_race_is_stale = refl

a_second_post_is_replayed :
    summary (run_turn calm passing (run_turn calm passing one_session).1) ≡ ok (false, implement, 6)
unfolding machine summary
a_second_post_is_replayed = refl

abbrev outcome : TurnOutcome
outcome = record {
  session = record at_plan {
    current_step = implement;
    step_index = 4;
    attempts = 0;
    hint_level = 0;
    version = 6;
  };
  evaluated_step = plan;
  verdict = sample_pass;
  advanced = true;
  done = false;
  coach_messages = record { role = Evaluate.user; content = codes "two pointers" } ∷ [];
  replayed = false;
}

abbrev evaluation : GateEvaluation
evaluation = record {
  verdict = sample_pass;
  outcome = Evaluate.valid;
  raw = some passing;
  latency_ms = 7;
  provider_kind = "fake";
  model = "m";
  problem_context_hash = "abc";
}

apply_turn-advanced_example :
    ProviderPasses calm
      (world passing)
      "ada"
      "dsa/two-sum"
      "your_turn"
      (codes "p")
      submission
      one_session
unfolding machine
apply_turn-advanced_example =
    apply_turn-advanced calm (world passing) "ada" "dsa/two-sum" "your_turn" (codes "p") submission
      one_session outcome (run_turn calm passing one_session).1 refl refl

apply_turn-saves_example :
    (o : TurnOutcome) × (final : Db) × (row : Session) × (m : Message) × (run_turn calm passing
        one_session
      ≡ (ok o, final))
    × (rows_of 1 final ≡ row ∷ [])
    × IsMoved at_plan sample_pass row
    × (row.last_turn_id ≡ some 77)
    × ((other : ℕ) → other ≢ 1 → rows_of other final ≡ rows_of other one_session)
    × (final.messages ≡ m ∷ [])
    × IsAnswer at_plan submission m
    × IsReported at_plan sample_pass o
unfolding machine
apply_turn-saves_example =
    apply_turn-saves calm (world passing) "ada" "dsa/two-sum" "your_turn" (codes "p") submission
      one_session at_plan evaluation (codes "two pointers") (λ d. refl) refl (omega arith) refl refl
      refl

apply_turn-err_example :
    IsUntouched racing one_session (record one_session { sessions = bump at_plan ∷ [] })
unfolding machine
apply_turn-err_example =
    apply_turn-err racing (world passing) "ada" "dsa/two-sum" "your_turn" (codes "p") submission
      one_session (record one_session { sessions = bump at_plan ∷ [] }) stale_turn refl

abbrev client : ClientTurn
client = record {
  coach_reply = codes "well done";
  verdict = sample_pass;
  verdict_outcome = Evaluate.valid;
  raw_verdict = some passing;
}

apply_byok_turn-err_example :
    IsUntouched racing one_session (record one_session { sessions = bump at_plan ∷ [] })
unfolding machine apply_byok_turn save_byok
apply_byok_turn-err_example =
    apply_byok_turn-err racing submission client at_plan one_session
      (record one_session { sessions = bump at_plan ∷ [] }) stale_turn refl

-- The tables after the turn was recorded; the session stands at the next step.
abbrev moved_on : Session
moved_on = record at_plan { current_step = implement; step_index = 4; version = 6 }

abbrev recorded : Db
recorded = record empty_db {
  sessions = moved_on ∷ [];
  messages =
      record {
        session_id = 1;
        seq = 1;
        role = user;
        step = plan;
        content = codes "two pointers";
        content_json = none;
        model = none;
        turn_id = some 77;
        created_at = 90;
      }
      ∷ [];
}

apply_turn-replay_example :
    (o : TurnOutcome) × (turn calm
        (world passing)
        "ada"
        "dsa/two-sum"
        "your_turn"
        (codes "p")
        submission
        recorded
      ≡ (ok o, recorded))
    × (o.replayed ≡ true)
    × (o.advanced ≡ false)
    × (o.done ≡ false)
    × (o.session ≡ moved_on)
    × (o.evaluated_step ≡ implement)
    × (o.verdict.verdict ≡ retry)
    × (o.coach_messages ≡ [])
unfolding machine
apply_turn-replay_example =
    apply_turn-replay calm (world passing) "ada" "dsa/two-sum" "your_turn" (codes "p") submission
      recorded moved_on refl refl

-- The same session, completed by the turn.
abbrev finished : Db
finished = record recorded { sessions = record moved_on { status = completed } ∷ [] }

apply_turn-no_active_example :
    turn calm (world passing) "ada" "dsa/two-sum" "your_turn" (codes "p") submission finished
    ≡ (err step_mismatch, finished)
unfolding machine
apply_turn-no_active_example =
    apply_turn-no_active calm (world passing) "ada" "dsa/two-sum" "your_turn" (codes "p") submission
      finished refl refl (omega arith)

abbrev columns : StateColumns
columns = record {
  status = active;
  current_step = implement;
  step_index = 4;
  attempts = 0;
  hint_level = 0;
  last_turn_id = none;
}

save_state-twice_example :
    let db' = (save_state clock 1 5 columns one_session).1 in
    save_state clock 1 5 columns db' ≡ (false, db')
save_state-twice_example = save_state-twice clock clock 1 5 columns columns one_session
