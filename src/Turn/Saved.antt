-- ===== src/Turn/Saved.antt =====
-- What a successful turn of tutor/orchestration/turn.py leaves in the tables, and that it succeeds.
use cortex_tutor.Prelude.{
  ℕ, ◌+◌, ◌≤◌, String, ◌≡◌, refl, ◌≢◌, Bool, true, false, ◌&&◌, some, List, [], ◌∷◌, ◌++◌, arith,
  filter, count,
}
use cortex_tutor.Persistence.Models.{RowStatus, active, completed, user, Session, Message, Db}
use cortex_tutor.Persistence.Sessions.{
  is_active, one_or_none, of_problem, active_for, get_active, has_id, with_state, save_state,
}
use cortex_tutor.Persistence.Messages.{insert_message, append_message-found, load_recent_messages}
use cortex_tutor.Persistence.Gates.{upsert_gate, add_gate_call}
use cortex_tutor.Prelude.Result.{ok}
use cortex_tutor.Persistence.Transaction.{in_transaction}
use cortex_tutor.Domain.Fsm.{SessionState, SessionStatus, Transition, transition}
use cortex_tutor.Domain.Steps.{step_index}
use cortex_tutor.Domain.Verdict.{GateVerdict}
use cortex_tutor.Gate.Evaluate
use cortex_tutor.Gate.Evaluate.{GateEvaluation}
use cortex_tutor.Prelude.Text.{Text}
use cortex_tutor.Turn.Steps.{
  Submission, TurnOutcome, reflect, status_value, transcript, parse_status, state_of, current_state,
  is_recorded, answer_message, gate_of, gate_call_of, columns_of,
}
use cortex_tutor.Turn.Apply.{
  Outside, save_turn, record_verdict, GateWorld, evaluate_turn, audit_of, outcome_of,
  evaluate_and_save, turn_on, get_or_create, apply_turn,
}
use cortex_tutor.Prelude.Filter.{filter_single, filter-single_holds}
use cortex_tutor.Domain.Steps.Ladder.{same_step_iff}
use cortex_tutor.Persistence.Versions.{rows_of, save_state-rows}

pub one_or_none-some {ℓ} :
    {A : Type ℓ} (xs : List A) (a : A) → one_or_none xs ≡ ok (some a) → xs ≡ a ∷ []
unfolding one_or_none
one_or_none-some [] a h = cc
one_or_none-some (x ∷ []) a h = cc
one_or_none-some (x ∷ y ∷ xs) a h = cc

is_active_lem : (s : Session) (b : Bool) → b && is_active s.status ≡ true → s.status ≡ active
unfolding is_active
is_active_lem s b h = ground arith

pub get_active-active :
    (user_sub problem_id : String) (db : Db) (s : Session)
    → get_active user_sub problem_id db ≡ ok (some s)
    → s.status ≡ active
unfolding get_active
get_active-active user_sub problem_id db s h = is_active_lem s (of_problem user_sub problem_id s) (
    filter-single_holds (active_for user_sub problem_id) s db.sessions
      (one_or_none-some (filter (active_for user_sub problem_id) db.sessions) s h))

-- The row of a unique active session, found by its owner and problem, is the row of its identifier.
pub get_active-rows_of :
    (user_sub problem_id : String) (db : Db) (s : Session)
    → get_active user_sub problem_id db ≡ ok (some s)
    → count (has_id s.id) db.sessions ≤ 1
    → (rows_of s.id db ≡ s ∷ []) × (s.status ≡ active)
unfolding get_active
get_active-rows_of user_sub problem_id db s h u =
    let one = one_or_none-some (filter (active_for user_sub problem_id) db.sessions) s h in
    (
      filter_single (active_for user_sub problem_id) (has_id s.id) s db.sessions one (ground arith)
          u,
      get_active-active user_sub problem_id db s h,
    )

abbrev pub IsStatus : SessionStatus → RowStatus → Type 0
IsStatus SessionStatus.active r = r ≡ active
IsStatus SessionStatus.completed r = r ≡ completed

status_value-IsStatus : (t : SessionStatus) → IsStatus t (status_value t)
unfolding status_value
status_value-IsStatus SessionStatus.active = refl
status_value-IsStatus SessionStatus.completed = refl

-- What the FSM makes of a verdict on the session.
abbrev pub moved : Session → GateVerdict → Transition
moved s v =
    transition
      (record {
        step = s.current_step;
        attempts = s.attempts;
        hint_level = s.hint_level;
        status = SessionStatus.active;
        scores = [];
      })
      v

-- A row is the session's, moved by the verdict, under the next version.
pub record IsMoved (s : Session) (v : GateVerdict) (row : Session) : Type 0 where
  pub same_id : row.id ≡ s.id
  pub same_user : row.user_sub ≡ s.user_sub
  pub same_problem : row.problem_id ≡ s.problem_id
  pub same_track : row.track ≡ s.track
  pub step : row.current_step ≡ (moved s v).state.step
  pub index : row.step_index ≡ step_index (moved s v).state.step
  pub attempts : row.attempts ≡ (moved s v).state.attempts
  pub hint_level : row.hint_level ≡ (moved s v).state.hint_level
  pub status : IsStatus (moved s v).state.status row.status
  pub version : row.version ≡ s.version + 1

-- A message is the learner's answer to the session's step.
pub record IsAnswer (s : Session) (sub : Submission) (m : Message) : Type 0 where
  pub session_id : m.session_id ≡ s.id
  pub role : m.role ≡ user
  pub step : m.step ≡ s.current_step
  pub content : m.content ≡ sub.answer
  pub turn_id : m.turn_id ≡ sub.turn_id

-- An outcome reports the verdict, and what it did to the session.
pub record IsReported (s : Session) (v : GateVerdict) (o : TurnOutcome) : Type 0 where
  pub session : IsMoved s v o.session
  pub evaluated_step : o.evaluated_step ≡ s.current_step
  pub verdict : o.verdict ≡ v
  pub advanced : o.advanced ≡ (moved s v).advanced
  pub done : o.done ≡ (moved s v).done
  pub replayed : o.replayed ≡ false

module _ (out : Outside) (world : GateWorld) (user_sub problem_id origin : String)
    (problem_context : Text) (sub : Submission) (db : Db) (s : Session) (e : GateEvaluation)
    (gate_answer : Text) where
  abbrev pub state : SessionState
  state = state_of s SessionStatus.active

  abbrev pub result : Transition
  result = transition state e.verdict

  -- The tables after the turn's writes, before the state is saved.
  abbrev pub written : Db
  written =
      let (msg, db1) = insert_message out.clock s.id (answer_message sub s.current_step) db in
      add_gate_call (gate_call_of out.clock s sub s.current_step msg.seq e.verdict (audit_of e))
        (upsert_gate out.clock s.id (gate_of s.current_step e.verdict result "llm") db1)

  abbrev pub after : Db
  after = (save_state out.clock s.id s.version (columns_of result sub.turn_id) written).1

  -- A turn on the learner's active session, at its current step and not recorded before, succeeds
  -- if the gate returns, no other request writes in between, and no other row has the session's
  -- identifier. In the session's row it stores the step, its index, the attempts, the hint level
  -- and the status that the FSM gives for the verdict, the turn's identifier and the next version;
  -- every other row stays; one message, the answer, is appended; and the outcome reports the same
  -- verdict and state.
  pub apply_turn-saves :
      ((d : Db) → out.others d ≡ d)
      → get_active user_sub problem_id db ≡ ok (some s)
      → count (has_id s.id) db.sessions ≤ 1
      → is_recorded sub.turn_id s.id db ≡ false
      → sub.step ≡ s.current_step
      → evaluate_turn world sub state problem_context (load_recent_messages s.id 40 db)
        ≡ ok (e, gate_answer)
      → (o : TurnOutcome) × (final : Db) × (row : Session) × (m : Message) × (in_transaction
            (apply_turn out world user_sub problem_id origin problem_context sub)
            db
          ≡ (ok o, final))
        × (rows_of s.id final ≡ row ∷ [])
        × IsMoved s e.verdict row
        × (row.last_turn_id ≡ sub.turn_id)
        × ((other : ℕ) → other ≢ s.id → rows_of other final ≡ rows_of other db)
        × (final.messages ≡ m ∷ db.messages)
        × IsAnswer s sub m
        × IsReported s e.verdict o
  unfolding apply_turn get_or_create turn_on current_state parse_status evaluate_and_save save_turn
      record_verdict insert_message upsert_gate add_gate_call state_of columns_of with_state
      outcome_of reflect
  apply_turn-saves calm found unique fresh here judged =
      let (mine, is_on) = get_active-rows_of user_sub problem_id db s found unique in
      let (saved, row, kept) =
        save_state-rows out.clock s.id s.version (columns_of result sub.turn_id) written s mine
          refl in
      let inserted =
        append_message-found out.clock s.id (answer_message sub s.current_step) db s mine in
      let status = status_value-IsStatus result.state.status in
      (
        outcome_of s state e.verdict result (
            transcript (load_recent_messages s.id 40 db)
            ++ record { role = Evaluate.user; content = gate_answer } ∷ []),
        after,
        with_state out.clock s.version (columns_of result sub.turn_id) s,
        (insert_message out.clock s.id (answer_message sub s.current_step) db).0,
        ground (arith, inserted, calm written, saved, is_on, same_step_iff sub.step s.current_step),
        row,
        record {
          same_id = refl;
          same_user = refl;
          same_problem = refl;
          same_track = refl;
          step = refl;
          index = refl;
          attempts = refl;
          hint_level = refl;
          status = status;
          version = refl;
        },
        refl,
        kept,
        unfold save_state in refl,
        record { session_id = refl; role = refl; step = refl; content = refl; turn_id = refl },
        record {
          session = record {
            same_id = refl;
            same_user = refl;
            same_problem = refl;
            same_track = refl;
            step = refl;
            index = refl;
            attempts = refl;
            hint_level = refl;
            status = status;
            version = refl;
          };
          evaluated_step = refl;
          verdict = refl;
          advanced = refl;
          done = refl;
          replayed = refl;
        },
      )
