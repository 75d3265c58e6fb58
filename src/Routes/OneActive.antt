-- ===== src/Routes/OneActive.antt =====
-- The partial unique index of migrations/changes/0001-tutor-schema.sql, one active session for each
-- user and problem, under the handlers of tutor/routes/sessions.py that create sessions.
use cortex_tutor.Prelude.{
  ℕ, ◌≤◌, ◌≡◌, refl, sym, ◌∙◌, subst, arith, inl, inr, String, Bool, true, ◌&&◌, not, none, some,
  List, [], ◌∷◌, filter, count, length, length-filter, str_eq, eq_iff, Bool-cases,
}
use cortex_tutor.Prelude.Filter.{count-filter-le}
use cortex_tutor.Prelude.Result.{ok, Result-cases}
use cortex_tutor.Config.{Settings}
use cortex_tutor.Access.Auth.{Principal, or_else}
use cortex_tutor.Access.Quotas.{check_session_quota}
use cortex_tutor.Persistence.Models.{Session, Db, Clock}
use cortex_tutor.Persistence.Sessions.{
  is_active, active_for, of_problem, one_or_none, get_active, get_for_user, NewSession, new_row,
  create, delete_sessions, delete_for_problem,
}
use cortex_tutor.Persistence.Transaction.{in_transaction}
use cortex_tutor.Turn.Apply.{Outside}
use cortex_tutor.Routes.Manage.{
  CreateBody, session_with, create_new, create_session, reset_session, checked_problem_id,
  parse_track, choose_model, carried_model, some_or_404,
}

-- At most one active session for each user and problem.
abbrev pub IsOneActive : Db → Type 0
IsOneActive db =
    (user_sub problem_id : String) → count (active_for user_sub problem_id) db.sessions ≤ 1

one_or_none-length : (xs : List Session) → one_or_none xs ≡ ok none → length xs ≡ 0
unfolding one_or_none
one_or_none-length [] h = refl
one_or_none-length (x ∷ []) h = ground arith
one_or_none-length (x ∷ y ∷ xs) h = ground arith

pub get_active-count :
    (user_sub problem_id : String) (db : Db)
    → get_active user_sub problem_id db ≡ ok none
    → count (active_for user_sub problem_id) db.sessions ≡ 0
unfolding get_active
get_active-count user_sub problem_id db h =
    sym (length-filter (active_for user_sub problem_id) db.sessions)
    ∙ one_or_none-length (filter (active_for user_sub problem_id) db.sessions) h

pub count-filter_out :
    (p q : Session → Bool) (xs : List Session)
    → ((x : Session) → p x ≡ true → q x ≡ true)
    → count p (filter (λ x. not (q x)) xs) ≡ 0
unfolding filter count
count-filter_out p q [] h = refl
count-filter_out p q (x ∷ xs) h = ground (arith, count-filter_out p q xs h, h x)

create-IsOneActive :
    (clock : Clock) (id : ℕ) (n : NewSession) (db : Db)
    → IsOneActive db
    → count (active_for n.user_sub n.problem_id) db.sessions ≡ 0
    → IsOneActive (create clock id n db).1
unfolding create new_row count is_active
create-IsOneActive clock id n db one free user_sub problem_id =
    elim (Bool-cases (str_eq n.user_sub user_sub && str_eq n.problem_id problem_id)) [
      | inr other ↦ ground (arith, one user_sub problem_id)
      | inl same ↦
          let u : n.user_sub ≡ user_sub = ground (arith, eq_iff n.user_sub user_sub) in
          let p : n.problem_id ≡ problem_id = ground (arith, eq_iff n.problem_id problem_id) in
          let zero_left : count (active_for user_sub problem_id) db.sessions ≡ 0 =
            subst (λ x. count (active_for x problem_id) db.sessions ≡ 0) u
              (subst (λ y. count (active_for n.user_sub y) db.sessions ≡ 0) p free) in
          ground arith
    ]

delete_for_problem-IsOneActive :
    (user_sub problem_id : String) (db : Db)
    → IsOneActive db
    → let db' = (delete_for_problem user_sub problem_id db).1 in
      IsOneActive db' × (count (active_for user_sub problem_id) db'.sessions ≡ 0)
unfolding delete_for_problem delete_sessions
delete_for_problem-IsOneActive user_sub problem_id db one = (
  λ u p. omega (
    arith,
    one u p,
    count-filter-le (active_for u p) (λ s. not (of_problem user_sub problem_id s)) db.sessions,
  ),
  count-filter_out (active_for user_sub problem_id) (of_problem user_sub problem_id) db.sessions
      (λ x h. ground arith),
)

module _ (out : Outside) (settings : Settings) (principal : Principal) (db : Db)
    (calm : (d : Db) → out.others d ≡ d) (one : IsOneActive db) where
  -- If there is at most one active session for each user and problem, then there still is after
  -- creating a session, whatever the body, if no other request writes in between.
  pub create_session-IsOneActive :
      (body : CreateBody)
      → IsOneActive (in_transaction (create_session out settings principal body) db).1
  unfolding create_session create_new session_with
  create_session-IsOneActive body = elim (Result-cases (checked_problem_id body.problem_id)) [
    | inr (x, a) ↦ rw (in_transaction, a) one
    | inl (problem_id, a) ↦ elim (Result-cases (parse_track body.track)) [
      | inr (x, b) ↦ rw (in_transaction, a, b) one
      | inl (track, b) ↦ elim (Result-cases (choose_model principal settings body.model)) [
        | inr (x, c) ↦ rw (in_transaction, a, b, c) one
        | inl (e, c) ↦ elim (Result-cases (get_active principal.sub problem_id db)) [
          | inr (x, d) ↦ rw (in_transaction, a, b, c, d) one
          | inl (some s, d) ↦ rw (in_transaction, a, b, c, d) one
          | inl (none, d) ↦ elim (Result-cases (check_session_quota principal settings db)) [
            | inr (x, q) ↦ rw (in_transaction, a, b, c, d, q) one
            | inl (tt, q) ↦
                rw
                  (
                    in_transaction,
                    a,
                    b,
                    c,
                    d,
                    q,
                    calm db,
                    get_active-count principal.sub problem_id db d,
                  )
                  (create-IsOneActive out.clock out.fresh_id
                    (session_with out principal problem_id (or_else body.origin "your_turn") track
                      e)
                    db one (get_active-count principal.sub problem_id db d))
          ]
        ]
      ]
    ]
  ]

  -- If there is at most one active session for each user and problem, then there still is after
  -- starting a problem over, whatever session is named.
  pub reset_session-IsOneActive :
      (session_id : ℕ)
      → IsOneActive (in_transaction (reset_session out settings principal session_id) db).1
  unfolding reset_session some_or_404 session_with
  reset_session-IsOneActive session_id =
      elim (Result-cases (get_for_user session_id principal.sub db)) [
        | inr (x, f) ↦ rw (in_transaction, f) one
        | inl (none, f) ↦ rw (in_transaction, f) one
        | inl (some s, f) ↦
            elim (Result-cases (carried_model out settings principal s.coach_model)) [
              | inr (x, c) ↦ rw (in_transaction, f, c) one
              | inl (e, c) ↦
                  let (kept, free) =
                    delete_for_problem-IsOneActive principal.sub s.problem_id db one in
                  rw (in_transaction, f, c)
                    (create-IsOneActive out.clock out.fresh_id
                      (session_with out principal s.problem_id s.origin s.track e)
                      (delete_for_problem principal.sub s.problem_id db).1 kept free)
            ]
      ]
