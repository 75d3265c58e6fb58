-- ===== src/System/Turns.antt =====
-- A turn of tutor/orchestration/turn.py, as changes of the session table: one verdict on the
-- learner's session, which is created first where there is none.
use cortex_tutor.Prelude.{
  ℕ, ◌≤◌, ◌≡◌, refl, sym, subst, inl, inr, arith, String, Bool, true, Option, none, some, List, [],
  ◌∷◌, filter, count, eq_iff, Bool-cases,
}
use cortex_tutor.Prelude.Filter.{filter-single_holds, filter_none}
use cortex_tutor.Domain.Steps.{Step}
use cortex_tutor.Domain.Verdict.{GateVerdict}
use cortex_tutor.Domain.Fsm.{SessionState, SessionStatus, transition}
use cortex_tutor.Persistence.Models.{active, Session, Clock, Db}
use cortex_tutor.Persistence.Transaction.{Tx, Exec, ◌>>=◌, ◌>>◌, statement, pure}
use cortex_tutor.Persistence.Sessions.{
  active_for, has_id, NewSession, new_row, save_state, get_active, create,
}
use cortex_tutor.Turn.Steps.{state_of, columns_of}
use cortex_tutor.System.Changes.{Changes}
use cortex_tutor.Prelude.Result.{ok, Result-cases}
use cortex_tutor.Prelude.Text.{Text}
use cortex_tutor.Turn.Steps.{Submission, answer_message, current_state, is_recorded, parse_status}
use cortex_tutor.Turn.Apply.{
  Outside, GateWorld, evaluate_turn, audit_of, evaluate_and_save, save_turn, record_verdict,
  turn_on, get_or_create, apply_turn, ClientTurn, save_byok, apply_byok_turn, byok_audit,
  reply_message, lazy_session,
}
use cortex_tutor.Persistence.Messages.{
  append_message, insert_message, append_message-found, load_recent_messages,
}
use cortex_tutor.Persistence.Gates.{upsert_gate, add_gate_call}
use cortex_tutor.Turn.Saved.{get_active-rows_of, one_or_none-some}
use cortex_tutor.Routes.OneActive.{get_active-count}
use cortex_tutor.System.Statements.{create-Changes, IsFrom, continue-IsFrom, save_turn-Changes}

module _ (can : String → Bool) (base : List Session) (out : Outside)
    (calm : (d : Db) → out.others d ≡ d) (s : Session) (may : can s.user_sub ≡ true) where
  save_turn-IsFrom :
      (v : GateVerdict) (turn_id : Option ℕ) (before_save : Exec (Unit {0})) (tx tx' : Tx)
      → before_save tx ≡ (ok tt, tx')
      → IsFrom can base tx'
      → filter (has_id s.id) tx'.working.sessions ≡ s ∷ []
      → s.status ≡ active
      → IsFrom can base
          (save_turn out s turn_id
            (transition (state_of s SessionStatus.active) v)
            before_save
            tx).1
  unfolding save_turn
  save_turn-IsFrom v turn_id before_save tx tx' written from only on =
      let saved : Changes can base
          (save_state out.clock s.id s.version
            (columns_of (transition (state_of s SessionStatus.active) v) turn_id)
            tx'.working).1.sessions =
        save_turn-Changes can out.clock s v turn_id base tx'.working from.working may only on in
      rw (written, calm tx'.working, calm tx'.committed)
        (elim (Bool-cases
          (save_state out.clock s.id s.version
            (columns_of (transition (state_of s SessionStatus.active) v) turn_id) tx'.working).0) [
              | inl t ↦ rw t (record { committed = saved; working = saved })
              | inr t ↦ rw t (record { committed = from.committed; working = saved })
            ])

  evaluate_and_save-IsFrom :
      (world : GateWorld) (problem_context : Text) (sub : Submission) (tx : Tx)
      → IsFrom can base tx
      → filter (has_id s.id) tx.working.sessions ≡ s ∷ []
      → s.status ≡ active
      → IsFrom can base
          (evaluate_and_save out world problem_context sub s (state_of s SessionStatus.active) tx).1
  unfolding evaluate_and_save save_turn record_verdict insert_message upsert_gate add_gate_call
  evaluate_and_save-IsFrom world problem_context sub tx from only on =
      let st = state_of s SessionStatus.active in
      let prior = load_recent_messages s.id 40 tx.working in
      let tx0 : Tx = record tx {
        working = (insert_message out.clock s.id (answer_message sub st.step) tx.working).1;
      } in
      let from0 : IsFrom can base tx0 = record {
        committed = from.committed;
        working = from.working;
      } in
      rw (append_message-found out.clock s.id (answer_message sub st.step) tx.working s only) (
        continue-IsFrom can base (evaluate_turn world sub st problem_context prior) _ tx0 from0
          (λ (e, gate_answer).
            let before_save =
              record_verdict out s sub st e.verdict (transition st e.verdict)
                (insert_message out.clock s.id (answer_message sub st.step) tx.working).0.seq
                (audit_of e) "llm" in
            let save = save_turn out s sub.turn_id (transition st e.verdict) before_save in
            let after =
              save_turn-IsFrom e.verdict sub.turn_id before_save tx0 (before_save tx0).1 refl
                (record { committed = from.committed; working = from.working }) only on in
            continue-IsFrom can base (save tx0).0 _ (save tx0).1 after (λ u. after)))

  save_byok-IsFrom :
      (sub : Submission) (client : ClientTurn) (tx : Tx)
      → IsFrom can base tx
      → filter (has_id s.id) tx.working.sessions ≡ s ∷ []
      → s.status ≡ active
      → IsFrom can base (save_byok out sub client s (state_of s SessionStatus.active) tx).1
  unfolding save_byok record_verdict insert_message upsert_gate add_gate_call
  save_byok-IsFrom sub client tx from only on =
      let st = state_of s SessionStatus.active in
      let (answer_msg, db) =
        insert_message out.clock s.id (answer_message sub st.step) tx.working in
      let tx0 : Tx = record tx { working = db } in
      let result = transition st client.verdict in
      let verdict_rows : Exec (Unit {0}) =
        record_verdict out s sub st client.verdict result answer_msg.seq
          (byok_audit client.verdict_outcome client.raw_verdict) "byok" in
      let before_save : Exec (Unit {0}) =
        verdict_rows
        >> (statement (append_message out.clock s.id (reply_message s st.step client.coach_reply))
            >>= λ reply. pure tt) in
      let judged = (verdict_rows tx0).1.working in
      let reply = reply_message s st.step client.coach_reply in
      let tx2 : Tx = record tx0 { working = (insert_message out.clock s.id reply judged).1 } in
      let written : before_save tx0 ≡ (ok tt, tx2) =
        rw (append_message-found out.clock s.id reply judged s only) refl in
      let save = save_turn out s sub.turn_id result before_save in
      let after =
        save_turn-IsFrom client.verdict sub.turn_id before_save tx0 tx2 written
          (record { committed = from.committed; working = from.working }) only on in
      rw (append_message-found out.clock s.id (answer_message sub st.step) tx.working s only)
        (continue-IsFrom can base (save tx0).0 _ (save tx0).1 after (λ u. after))

current_state_inv :
    (s : Session) (step : Step) (st : SessionState)
    → current_state s step ≡ ok st
    → (s.status ≡ active) × (st ≡ state_of s SessionStatus.active)
unfolding current_state parse_status
current_state_inv s step st h = ground arith

module _ (can : String → Bool) (base : List Session) (out : Outside)
    (calm : (d : Db) → out.others d ≡ d) (s : Session) (may : can s.user_sub ≡ true) (tx : Tx)
    (from : IsFrom can base tx) (only : filter (has_id s.id) tx.working.sessions ≡ s ∷ []) where
  turn_on-IsFrom :
      (world : GateWorld) (problem_context : Text) (sub : Submission)
      → IsFrom can base (turn_on out world problem_context sub s tx).1
  unfolding turn_on
  turn_on-IsFrom world problem_context sub =
      elim (Bool-cases (is_recorded sub.turn_id s.id tx.working)) [
        | inl t ↦ rw t from
        | inr t ↦ elim (Result-cases (current_state s sub.step)) [
          | inr (x, c) ↦ rw (t, c) from
          | inl (st, c) ↦
              let (on, eq) = current_state_inv s sub.step st c in
              rw (t, c)
                (subst
                  (λ x. IsFrom can base (evaluate_and_save out world problem_context sub s x tx).1)
                  (sym eq)
                  (evaluate_and_save-IsFrom can base out calm s may world problem_context sub tx
                    from only on))
        ]
      ]

  pub apply_byok_turn-IsFrom :
      (sub : Submission) (client : ClientTurn)
      → IsFrom can base (apply_byok_turn out sub client s tx).1
  unfolding apply_byok_turn
  apply_byok_turn-IsFrom sub client = elim (Bool-cases (is_recorded sub.turn_id s.id tx.working)) [
    | inl t ↦ rw t from
    | inr t ↦ elim (Result-cases (current_state s sub.step)) [
      | inr (x, c) ↦ rw (t, c) from
      | inl (st, c) ↦
          let (on, eq) = current_state_inv s sub.step st c in
          rw (t, c)
            (subst (λ x. IsFrom can base (save_byok out sub client s x tx).1) (sym eq)
              (save_byok-IsFrom can base out calm s may sub client tx from only on))
    ]
  ]

new_row-only :
    (clock : Clock) (id : ℕ) (n : NewSession) (xs : List Session)
    → count (has_id id) xs ≡ 0
    → filter (has_id (new_row clock id n).id) (new_row clock id n ∷ xs) ≡ new_row clock id n ∷ []
unfolding new_row filter
new_row-only clock id n xs fresh = ground (arith, filter_none (has_id id) xs fresh)

get_active-owner :
    (user_sub problem_id : String) (db : Db) (s : Session)
    → get_active user_sub problem_id db ≡ ok (some s)
    → s.user_sub ≡ user_sub
unfolding get_active
get_active-owner user_sub problem_id db s h = ground (
  arith,
  eq_iff s.user_sub user_sub,
  filter-single_holds (active_for user_sub problem_id) s db.sessions
      (one_or_none-some (filter (active_for user_sub problem_id) db.sessions) s h),
)

module _ (can : String → Bool) (base : List Session) (out : Outside)
    (calm : (d : Db) → out.others d ≡ d) (user_sub : String) (may : can user_sub ≡ true) (tx : Tx)
    (from : IsFrom can base tx) (unique : (id : ℕ) → count (has_id id) tx.working.sessions ≤ 1)
    (fresh : count (has_id out.fresh_id) tx.working.sessions ≡ 0) where
  pub apply_turn-IsFrom :
      (world : GateWorld) (problem_id origin : String) (problem_context : Text) (sub : Submission)
      → IsFrom can base (apply_turn out world user_sub problem_id origin problem_context sub tx).1
  unfolding apply_turn get_or_create
  apply_turn-IsFrom world problem_id origin problem_context sub =
      elim (Result-cases (get_active user_sub problem_id tx.working)) [
        | inr (x, g) ↦ rw g from
        | inl (some s, g) ↦
            let (only, on) = get_active-rows_of user_sub problem_id tx.working s g (unique s.id) in
            let own : can s.user_sub ≡ true =
              subst (λ u. can u ≡ true) (sym (get_active-owner user_sub problem_id tx.working s g))
                may in
            rw g (turn_on-IsFrom can base out calm s own tx from only world problem_context sub)
        | inl (none, g) ↦
            let n = lazy_session out user_sub problem_id origin sub.step in
            let s = new_row out.clock out.fresh_id n in
            let (row, db) = create out.clock out.fresh_id n tx.working in
            let more =
              create-Changes can out.clock out.fresh_id n base tx.working from.working may fresh
                (get_active-count user_sub problem_id tx.working g) in
            let mine : can s.user_sub ≡ true = unfold new_row in may in
            let tx0 : Tx = record tx { working = db } in
            rw g (
              unfold create in
              turn_on-IsFrom can base out calm s mine tx0
                (record { committed = from.committed; working = more })
                (new_row-only out.clock out.fresh_id n tx.working.sessions fresh) world
                problem_context sub)
      ]
