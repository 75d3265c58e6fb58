-- ===== src/Routes/Scope.antt =====
-- What the handlers of tutor/routes/sessions.py leave alone: another user's sessions.
use cortex_tutor.Prelude.{
  ℕ, ◌≡◌, ◌≢◌, arith, inl, inr, String, true, false, none, some, List, filter, str_eq, eq_iff,
}
use cortex_tutor.Prelude.Filter.{filter-filter}
use cortex_tutor.Prelude.Result.{Result-cases}
use cortex_tutor.Config.{Settings}
use cortex_tutor.Access.Auth.{or_else, Principal}
use cortex_tutor.Persistence.Models.{Session, Db, Clock}
use cortex_tutor.Persistence.Sessions.{
  owns, get_active, get_for_user, NewSession, new_row, create, delete_sessions, delete_for_problem,
  delete_all_for_user,
}
use cortex_tutor.Persistence.Transaction.{in_transaction}
use cortex_tutor.Turn.Apply.{Outside}
use cortex_tutor.Routes.Manage.{
  CreateBody, session_with, create_new, create_session, reset_session, clear_all_sessions,
  checked_problem_id, parse_track, choose_model, carried_model, some_or_404,
}

-- A user's sessions.
abbrev pub sessions_of : String → Db → List Session
sessions_of user_sub db = filter (owns user_sub) db.sessions

create-sessions_of :
    (clock : Clock) (id : ℕ) (n : NewSession) (other : String) (db : Db)
    → str_eq n.user_sub other ≡ false
    → sessions_of other (create clock id n db).1 ≡ sessions_of other db
unfolding create new_row filter
create-sessions_of clock id n other db h = ground arith

foreign_row :
    (user_sub other : String) (s : Session)
    → user_sub ≢ other
    → owns other s ≡ true
    → owns user_sub s ≡ false
foreign_row user_sub other s h own =
    ground (arith, eq_iff s.user_sub other, eq_iff s.user_sub user_sub)

delete_for_problem-sessions_of :
    (user_sub problem_id other : String) (db : Db)
    → user_sub ≢ other
    → sessions_of other (delete_for_problem user_sub problem_id db).1 ≡ sessions_of other db
unfolding delete_for_problem delete_sessions
delete_for_problem-sessions_of user_sub problem_id other db h =
    filter-filter (owns other) _ db.sessions
      (λ x own. ground (arith, foreign_row user_sub other x h own))

delete_all_for_user-sessions_of :
    (user_sub other : String) (db : Db)
    → user_sub ≢ other
    → sessions_of other (delete_all_for_user user_sub db).1 ≡ sessions_of other db
unfolding delete_all_for_user delete_sessions
delete_all_for_user-sessions_of user_sub other db h =
    filter-filter (owns other) _ db.sessions
      (λ x own. ground (arith, foreign_row user_sub other x h own))

foreign_sub : (user_sub other : String) → user_sub ≢ other → str_eq user_sub other ≡ false
foreign_sub user_sub other h = ground (arith, eq_iff user_sub other)

module _ (out : Outside) (settings : Settings) (principal : Principal) (other : String) (db : Db)
    (foreign : principal.sub ≢ other) where
  -- Clearing everything deletes none of another user's sessions.
  pub clear_all_sessions-scope :
      sessions_of other (in_transaction (clear_all_sessions out settings principal) db).1
      ≡ sessions_of other db
  unfolding clear_all_sessions
  clear_all_sessions-scope = delete_all_for_user-sessions_of principal.sub other db foreign

  -- Starting a problem over, whatever session is named, leaves another user's sessions as they were.
  pub reset_session-scope :
      (session_id : ℕ)
      → sessions_of other (in_transaction (reset_session out settings principal session_id) db).1
        ≡ sessions_of other db
  unfolding reset_session some_or_404 session_with
  reset_session-scope session_id = elim (Result-cases (get_for_user session_id principal.sub db)) [
    | inr (x, f) ↦ ground arith
    | inl (none, f) ↦ ground arith
    | inl (some s, f) ↦ elim (Result-cases (carried_model out settings principal s.coach_model)) [
      | inr (x, c) ↦ ground arith
      | inl (e, c) ↦
          let deleted = (delete_for_problem principal.sub s.problem_id db).1 in
          let n = session_with out principal s.problem_id s.origin s.track e in
          ground (
            arith,
            create-sessions_of out.clock out.fresh_id n other deleted
                (foreign_sub principal.sub other foreign),
            delete_for_problem-sessions_of principal.sub s.problem_id other db foreign,
          )
    ]
  ]

  -- Creating a session leaves another user's sessions as they were, whatever the body says, if no
  -- other request writes in between.
  pub create_session-scope :
      ((d : Db) → out.others d ≡ d)
      → (body : CreateBody)
      → sessions_of other (in_transaction (create_session out settings principal body) db).1
        ≡ sessions_of other db
  unfolding create_session create_new session_with
  create_session-scope calm body = elim (Result-cases (checked_problem_id body.problem_id)) [
    | inr (x, a) ↦ ground arith
    | inl (problem_id, a) ↦ elim (Result-cases (parse_track body.track)) [
      | inr (x, b) ↦ ground arith
      | inl (track, b) ↦ elim (Result-cases (choose_model principal settings body.model)) [
        | inr (x, c) ↦ ground arith
        | inl (e, c) ↦ elim (Result-cases (get_active principal.sub problem_id db)) [
          | inr (x, d) ↦ ground arith
          | inl (some s, d) ↦ ground arith
          | inl (none, d) ↦
              let n =
                session_with out principal problem_id (or_else body.origin "your_turn") track e in
              ground (
                arith,
                create-sessions_of out.clock out.fresh_id n other db
                    (foreign_sub principal.sub other foreign),
                calm db,
              )
        ]
      ]
    ]
  ]
