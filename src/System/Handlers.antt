-- ===== src/System/Handlers.antt =====
-- The handlers of tutor/routes/sessions.py and the purge, as changes of the session table.
use cortex_tutor.Prelude.{
  ℕ, ◌≤◌, ◌≡◌, sym, subst, inl, inr, arith, String, Bool, true, ◌&&◌, not, Option, none, some, [],
  ◌∷◌, ==_iff, filter, count, eq_iff, Bool-cases,
}
use cortex_tutor.Prelude.Filter.{filter_single, count-filter-le, filter-single_holds}
use cortex_tutor.Persistence.Models.{Session, Db}
use cortex_tutor.Persistence.Transaction.{Tx, in_transaction}
use cortex_tutor.Persistence.Sessions.{
  is_active, owns, active_for, has_id, get_active, get_for_user, of_problem, delete_for_problem,
  delete_all_for_user, set_coach_model, delete_sessions,
}
use cortex_tutor.System.Changes.{Changes, here}
use cortex_tutor.Prelude.Result.{ok, Result-cases}
use cortex_tutor.Turn.Apply.{Outside}
use cortex_tutor.Turn.Saved.{one_or_none-some}
use cortex_tutor.Routes.OneActive.{get_active-count, count-filter_out}
use cortex_tutor.System.Statements.{create-Changes, delete-Changes, set_coach_model-Changes}
use cortex_tutor.Config.{Settings}
use cortex_tutor.Access.Auth.{Principal, or_else}
use cortex_tutor.Access.Quotas.{check_session_quota}
use cortex_tutor.Models.Catalog.{is_local}
use cortex_tutor.Routes.Manage.{
  CreateBody, session_with, create_new, create_session, reset_session, clear_all_sessions,
  change_session_model, read_back, checked_problem_id, parse_track, choose_model, carried_model,
  some_or_404,
}

-- A row found for a user, by its identifier, is the row of that identifier and the user's.
pub get_for_user-found :
    (id : ℕ) (user_sub : String) (db : Db) (s : Session)
    → get_for_user id user_sub db ≡ ok (some s)
    → count (has_id s.id) db.sessions ≤ 1
    → (filter (has_id s.id) db.sessions ≡ s ∷ []) × (s.user_sub ≡ user_sub)
unfolding get_for_user
get_for_user-found id user_sub db s h unique =
    let one = one_or_none-some (filter (λ r. has_id id r && owns user_sub r) db.sessions) s h in
    let held = filter-single_holds (λ r. has_id id r && owns user_sub r) s db.sessions one in
    (
      filter_single (λ r. has_id id r && owns user_sub r) (has_id s.id) s db.sessions one
          (ground (arith, ==_iff s.id s.id)) unique,
      ground (arith, eq_iff s.user_sub user_sub),
    )

delete_for_problem-free :
    (user_sub problem_id : String) (db : Db)
    → count (active_for user_sub problem_id) (delete_for_problem user_sub problem_id db).1.sessions
      ≡ 0
unfolding delete_for_problem delete_sessions
delete_for_problem-free user_sub problem_id db =
    count-filter_out (active_for user_sub problem_id) (of_problem user_sub problem_id) db.sessions
      (λ x h. ground arith)

pub owned :
    (can : String → Bool) (user_sub : String)
    → can user_sub ≡ true
    → (s : Session) → owns user_sub s ≡ true
    → can s.user_sub ≡ true
owned can user_sub may s own =
    let eq : s.user_sub ≡ user_sub = ground (arith, eq_iff s.user_sub user_sub) in
    subst (λ u. can u ≡ true) (sym eq) may

delete_for_problem-Changes :
    (can : String → Bool) (user_sub problem_id : String) (db : Db)
    → can user_sub ≡ true
    → Changes can db.sessions (delete_for_problem user_sub problem_id db).1.sessions
unfolding delete_for_problem
delete_for_problem-Changes can user_sub problem_id db may =
    delete-Changes can (of_problem user_sub problem_id) db.sessions db here
      (λ s h. owned can user_sub may s (ground arith))

delete_for_problem-unused :
    (user_sub problem_id : String) (db : Db) (id : ℕ)
    → count (has_id id) db.sessions ≡ 0
    → count (has_id id) (delete_for_problem user_sub problem_id db).1.sessions ≡ 0
unfolding delete_for_problem delete_sessions
delete_for_problem-unused user_sub problem_id db id fresh = omega (
  arith,
  fresh,
  count-filter-le (has_id id) (λ s. not (of_problem user_sub problem_id s)) db.sessions,
)

read_back-keeps :
    (out : Outside) (settings : Settings) (principal : Principal) (session_id : ℕ) (tx : Tx)
    → (read_back out settings principal session_id tx).1 ≡ tx
unfolding read_back
read_back-keeps out settings principal session_id tx = ground arith

-- What the handlers of a caller find: tables with unique identifiers, and a fresh one.
module _ (can : String → Bool) (out : Outside) (calm : (d : Db) → out.others d ≡ d)
    (settings : Settings) (principal : Principal) (may : can principal.sub ≡ true) (db : Db)
    (unique : (id : ℕ) → count (has_id id) db.sessions ≤ 1)
    (fresh : count (has_id out.fresh_id) db.sessions ≡ 0) where
  pub create_session-Changes :
      (body : CreateBody)
      → Changes can db.sessions
          (in_transaction (create_session out settings principal body) db).1.sessions
  unfolding create_session create_new session_with
  create_session-Changes body = elim (Result-cases (checked_problem_id body.problem_id)) [
    | inr (x, a) ↦ rw (in_transaction, a) here
    | inl (problem_id, a) ↦ elim (Result-cases (parse_track body.track)) [
      | inr (x, b) ↦ rw (in_transaction, a, b) here
      | inl (track, b) ↦ elim (Result-cases (choose_model principal settings body.model)) [
        | inr (x, c) ↦ rw (in_transaction, a, b, c) here
        | inl (e, c) ↦ elim (Result-cases (get_active principal.sub problem_id db)) [
          | inr (x, d) ↦ rw (in_transaction, a, b, c, d) here
          | inl (some s, d) ↦ rw (in_transaction, a, b, c, d) here
          | inl (none, d) ↦ elim (Result-cases (check_session_quota principal settings db)) [
            | inr (x, q) ↦ rw (in_transaction, a, b, c, d, q) here
            | inl (tt, q) ↦
                rw
                  (
                    in_transaction,
                    a,
                    b,
                    c,
                    d,
                    q,
                    calm db,
                    get_active-count principal.sub problem_id db d,
                  )
                  (create-Changes can out.clock out.fresh_id
                    (session_with out principal problem_id (or_else body.origin "your_turn") track
                      e)
                    db.sessions db here may fresh (get_active-count principal.sub problem_id db d))
          ]
        ]
      ]
    ]
  ]

  pub reset_session-Changes :
      (session_id : ℕ)
      → Changes can db.sessions
          (in_transaction (reset_session out settings principal session_id) db).1.sessions
  unfolding reset_session some_or_404 session_with
  reset_session-Changes session_id =
      elim (Result-cases (get_for_user session_id principal.sub db)) [
        | inr (x, f) ↦ rw (in_transaction, f) here
        | inl (none, f) ↦ rw (in_transaction, f) here
        | inl (some s, f) ↦
            elim (Result-cases (carried_model out settings principal s.coach_model)) [
              | inr (x, c) ↦ rw (in_transaction, f, c) here
              | inl (e, c) ↦
                  let left = (delete_for_problem principal.sub s.problem_id db).1 in
                  let unused : count (has_id out.fresh_id) left.sessions ≡ 0 =
                    delete_for_problem-unused principal.sub s.problem_id db out.fresh_id fresh in
                  let cleared : Changes can db.sessions left.sessions =
                    delete_for_problem-Changes can principal.sub s.problem_id db may in
                  rw (in_transaction, f, c)
                    (create-Changes can out.clock out.fresh_id
                      (session_with out principal s.problem_id s.origin s.track e) db.sessions left
                      cleared may unused (delete_for_problem-free principal.sub s.problem_id db))
            ]
      ]

  pub change_session_model-Changes :
      (session_id : ℕ) (requested : Option String)
      → Changes can db.sessions
          (in_transaction
            (change_session_model out settings principal session_id requested)
            db).1.sessions
  unfolding change_session_model some_or_404 read_back
  change_session_model-Changes session_id requested =
      elim (Result-cases (choose_model principal settings requested)) [
        | inr (x, m) ↦ rw (in_transaction, m) here
        | inl (e, m) ↦ elim (Result-cases (get_for_user session_id principal.sub db)) [
          | inr (x, f) ↦ rw (in_transaction, m, f) here
          | inl (none, f) ↦ rw (in_transaction, m, f) here
          | inl (some s, f) ↦ elim (Bool-cases (is_active s.status)) [
            | inr k ↦ rw (in_transaction, m, f, k) here
            | inl k ↦
                let (only, own) =
                  get_for_user-found session_id principal.sub db s f (unique s.id) in
                let mine : can s.user_sub ≡ true = subst (λ u. can u ≡ true) (sym own) may in
                let (saved, db') =
                  set_coach_model out.clock s.id s.version e.key (not (is_local e.provider)) db in
                let more : Changes can db.sessions db'.sessions =
                  set_coach_model-Changes can out.clock s e.key (not (is_local e.provider))
                    db.sessions db here mine only in
                elim (Bool-cases
                  (set_coach_model out.clock s.id s.version e.key (not (is_local e.provider))
                    db).0) [
                      | inr w ↦ rw (in_transaction, m, f, k, calm db, w) here
                      | inl w ↦
                          rw (in_transaction, m, f, k, calm db, w)
                            (rw
                              (read_back-keeps out settings principal session_id
                                (record { committed = db'; working = db' }))
                              more)
                    ]
          ]
        ]
      ]

pub clear_all_sessions-Changes :
    (can : String → Bool) (out : Outside) (settings : Settings) (principal : Principal) (db : Db)
    → can principal.sub ≡ true
    → Changes can db.sessions
        (in_transaction (clear_all_sessions out settings principal) db).1.sessions
unfolding clear_all_sessions delete_all_for_user
clear_all_sessions-Changes can out settings principal db may =
    delete-Changes can (owns principal.sub) db.sessions db here (owned can principal.sub may)
