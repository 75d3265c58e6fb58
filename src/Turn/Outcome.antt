-- ===== src/Turn/Outcome.antt =====
-- What a turn of tutor/orchestration/turn.py answers: progress only on the model's own "pass", a
-- replay for a recorded turn, a conflict for a stale or misplaced one.
use cortex_tutor.Prelude.{
  ℕ, String, ◌≡◌, refl, subst, ◌≢◌, inl, inr, true, false, Option, none, some, List, [], ◌∷◌, ◌++◌,
  arith,
}
use cortex_tutor.Domain.Steps.{Step, track_of, step_index}
use cortex_tutor.Domain.Verdict.{pass, retry, retry_failsafe}
use cortex_tutor.Persistence.Models.{Session, Message, Db, Clock}
use cortex_tutor.Persistence.Sessions.{get_active, NewSession, new_row, create}
use cortex_tutor.Persistence.Messages.{load_recent_messages, find_by_turn}
use cortex_tutor.Prelude.Result.{step_mismatch, Result, ok, err, Result-cases}
use cortex_tutor.Persistence.Transaction.{Tx, in_transaction}
use cortex_tutor.Domain.Fsm.{SessionState, transition}
use cortex_tutor.Gate.Answer.{compose_answer}
use cortex_tutor.Gate.Evaluate
use cortex_tutor.Gate.Evaluate.{ChatMessage, GateEvaluation, evaluate}
use cortex_tutor.Json.{Fields}
use cortex_tutor.Prelude.Text.{Text}
use cortex_tutor.Turn.Steps.{
  Submission, TurnOutcome, transcript, state_of, current_state, is_recorded, replay, is_completed,
}
use cortex_tutor.Turn.Apply.{
  Outside, save_turn, record_verdict, GateWorld, evaluate_turn, outcome_of, evaluate_and_save,
  turn_on, lazy_session, get_or_create, apply_turn,
}
use cortex_tutor.Turn.Saved.{get_active-active}
use cortex_tutor.Json.{find}
use cortex_tutor.Domain.Steps.Ladder.{same_step_iff, first_step-index_zero}
use cortex_tutor.Gate.Evaluate.{build_gate_system}
use cortex_tutor.Gate.Validate.{read_verdict}
use cortex_tutor.Gate.FailSafe.{evaluate-pass}
use cortex_tutor.Domain.Fsm.Moves.{transition-advanced_iff}

-- Sessions have no say in whether a turn is recorded.
is_recorded-sessions :
    (turn_id : Option ℕ) (id : ℕ) (db : Db) (rows : List Session)
    → is_recorded turn_id id (record db { sessions = rows }) ≡ is_recorded turn_id id db
unfolding is_recorded find_by_turn
is_recorded-sessions none id db rows = refl
is_recorded-sessions (some t) id db rows = refl

-- A fresh row stands at the first step of its track.
current_state-new_row :
    (clock : Clock) (id : ℕ) (n : NewSession) (step : Step)
    → n.track ≡ track_of step
    → step_index step ≢ 0
    → current_state (new_row clock id n) step ≡ err step_mismatch
unfolding current_state new_row
current_state-new_row clock id n step own later =
    let (s, is_first, of_track, at_zero) = first_step-index_zero n.track in
    ground (arith, same_step_iff step s, is_first, at_zero)

module _ (out : Outside) (world : GateWorld) (user_sub problem_id origin : String)
    (problem_context : Text) (sub : Submission) (db : Db) where
  abbrev pub turn : Result TurnOutcome × Db
  turn = in_transaction (apply_turn out world user_sub problem_id origin problem_context sub) db

  -- The gate provider's answer to the submitted step's prompt says "pass".
  abbrev pub ProviderPasses : Type 0
  ProviderPasses =
      (messages : List ChatMessage) × (raw : Fields) × (world.provider.gate
          (build_gate_system world.ambient.rubric sub.step problem_context) messages
        ≡ ok raw)
      × (read_verdict (find "verdict" raw) ≡ some pass)

  evaluate_turn-advanced :
      (st : SessionState) (prior : List Message) (e : GateEvaluation) (gate_answer : Text)
      → st.step ≡ sub.step
      → evaluate_turn world sub st problem_context prior ≡ ok (e, gate_answer)
      → (transition st e.verdict).advanced ≡ true
      → ProviderPasses
  unfolding evaluate_turn
  evaluate_turn-advanced st prior e gate_answer same h adv =
      let passed : e.verdict.verdict ≡ pass = ((transition-advanced_iff st e.verdict).0 adv).1 in
      let ga = compose_answer world.lower sub.answer st.step sub.code sub.language sub.run_result in
      let said = transcript prior in
      elim (Result-cases (
        evaluate world.ops world.pydantic world.ambient world.provider st.step problem_context said
          ga)) [
            | inr (x, bad) ↦ absurd (ground arith)
            | inl (ev, good) ↦
                let (raw, answers, says) =
                  evaluate-pass world.ops world.pydantic world.ambient world.provider st.step
                    problem_context said ga ev good (ground arith) in
                let messages = said ++ record { role = Evaluate.user; content = ga } ∷ [] in
                (
                  messages,
                  raw,
                  subst
                      (λ s.
                        world.provider.gate
                          (build_gate_system world.ambient.rubric s problem_context) messages
                        ≡ ok raw)
                      same answers,
                  says,
                )
          ]

  current_state-step :
      (s : Session) (st : SessionState) → current_state s sub.step ≡ ok st → st.step ≡ sub.step
  unfolding current_state state_of
  current_state-step s st h = ground (arith, same_step_iff sub.step s.current_step)

  turn_on-advanced :
      (s : Session) (tx tx' : Tx) (o : TurnOutcome)
      → turn_on out world problem_context sub s tx ≡ (ok o, tx')
      → o.advanced ≡ true
      → ProviderPasses
  unfolding turn_on evaluate_and_save save_turn record_verdict replay outcome_of
  turn_on-advanced s tx tx' o h adv = elim (Result-cases (current_state s sub.step)) [
    | inr (x, bad) ↦ absurd (ground arith)
    | inl (st, good) ↦
        let prior = load_recent_messages s.id 40 tx.working in
        elim (Result-cases (evaluate_turn world sub st problem_context prior)) [
          | inr (x, bad) ↦ absurd (ground arith)
          | inl (pair, judged) ↦
              evaluate_turn-advanced st prior pair.0 pair.1 (current_state-step s st good) judged
                (ground arith)
        ]
  ]

  -- A turn advances the session only if the gate provider answered and its answer itself says
  -- "pass".
  pub apply_turn-advanced :
      (o : TurnOutcome) (after : Db) → turn ≡ (ok o, after) → o.advanced ≡ true → ProviderPasses
  unfolding apply_turn
  apply_turn-advanced o after h adv =
      let tx : Tx = record { committed = db; working = db } in
      let found = get_or_create out user_sub problem_id origin sub.step tx in
      elim (Result-cases found.0) [
        | inr (x, bad) ↦ absurd (ground arith)
        | inl (s, good) ↦
            turn_on-advanced s found.1 (turn_on out world problem_context sub s found.1).1 o
              (ground arith) adv
      ]

  -- A turn that was recorded on the active session is replayed: the outcome says so, shows the
  -- session as it stands, with a RETRY and nothing for the coach to answer, nothing advances or is
  -- done, and nothing is written.
  pub apply_turn-replay :
      (s : Session)
      → get_active user_sub problem_id db ≡ ok (some s)
      → is_recorded sub.turn_id s.id db ≡ true
      → (o : TurnOutcome) × (turn ≡ (ok o, db))
        × (o.replayed ≡ true)
        × (o.advanced ≡ false)
        × (o.done ≡ false)
        × (o.session ≡ s)
        × (o.evaluated_step ≡ s.current_step)
        × (o.verdict.verdict ≡ retry)
        × (o.coach_messages ≡ [])
  unfolding apply_turn get_or_create turn_on replay retry_failsafe is_completed
  apply_turn-replay s found seen =
      let on = get_active-active user_sub problem_id db s found in
      (replay s, ground arith, refl, refl, rw on refl, refl, refl, refl, refl)

  -- Without an active session a turn at any step but the first of its track is a conflict, also
  -- when it is the turn that completed the session before: it is not replayed. (The fresh
  -- identifier of the session that is created first has no messages with the turn's identifier.)
  pub apply_turn-no_active :
      get_active user_sub problem_id db ≡ ok none
      → is_recorded sub.turn_id out.fresh_id db ≡ false
      → step_index sub.step ≢ 0
      → turn ≡ (err step_mismatch, db)
  unfolding apply_turn get_or_create turn_on create new_row
  apply_turn-no_active none_active fresh later = ground (
    arith,
    current_state-new_row out.clock out.fresh_id
        (lazy_session out user_sub problem_id origin sub.step) sub.step refl later,
    is_recorded-sessions sub.turn_id out.fresh_id db (
        new_row out.clock out.fresh_id (lazy_session out user_sub problem_id origin sub.step)
        ∷ db.sessions),
  )
