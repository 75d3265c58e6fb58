-- ===== src/Routes/Budget.antt =====
-- The budget of sessions that tutor/routes/sessions.py keeps when it creates one.
use cortex_tutor.Prelude.{
  ℕ, String, Bool, false, ◌&&◌, not, str_eq, count, ap, ◌≤◌, max, ◌≡◌, refl, arith, inl, inr, true,
  none, some,
}
use cortex_tutor.Prelude.Result.{Result-cases}
use cortex_tutor.Config.{Settings}
use cortex_tutor.Access.Auth.{or_else, Principal, wants_byok}
use cortex_tutor.Access.Quotas.{check_session_quota, check_session_quota-create}
use cortex_tutor.Persistence.Models.{RowStatus, abandoned, Db}
use cortex_tutor.Persistence.Sessions.{is_kept, owns, get_active, count_sessions_for_user}
use cortex_tutor.Persistence.Transaction.{in_transaction}
use cortex_tutor.Prelude.Filter.{count-same}
use cortex_tutor.Routes.OneActive.{get_active-count}
use cortex_tutor.Turn.Apply.{Outside}
use cortex_tutor.Routes.Manage.{
  CreateBody, session_with, create_new, create_session, checked_problem_id, parse_track,
  choose_model,
}

-- A session that counts towards the budget: the user's, and not abandoned.
unfoldable pub is_abandoned : RowStatus → Bool
is_abandoned abandoned = true
is_abandoned _ = false

abbrev pub kept : String → Db → ℕ
kept user_sub db =
    count (λ s. str_eq s.user_sub user_sub && not (is_abandoned s.status)) db.sessions

is_kept_lem : (status : RowStatus) → is_kept status ≡ not (is_abandoned status)
unfolding is_kept is_abandoned
is_kept_lem abandoned = refl
is_kept_lem _ = refl

count_sessions_for_user-kept :
    (user_sub : String) (db : Db) → count_sessions_for_user user_sub db ≡ kept user_sub db
unfolding count_sessions_for_user
count_sessions_for_user-kept user_sub db =
    count-same (λ s. owns user_sub s && is_kept s.status) _ db.sessions
      (λ s. ap (λ b. str_eq s.user_sub user_sub && b) (is_kept_lem s.status))

module _ (out : Outside) (settings : Settings) (principal : Principal) (db : Db) where
  create_session-counted :
      (body : CreateBody)
      → ((d : Db) → out.others d ≡ d)
      → wants_byok principal settings ≡ true
      → let before = count_sessions_for_user principal.sub db in
        let (r, after) = in_transaction (create_session out settings principal body) db in
        count_sessions_for_user principal.sub after
        ≤ max settings.coach_max_sessions_per_user before
  unfolding create_session create_new session_with
  create_session-counted body calm capped =
      elim (Result-cases (checked_problem_id body.problem_id)) [
        | inr (x, a) ↦ ground arith
        | inl (problem_id, a) ↦ elim (Result-cases (parse_track body.track)) [
          | inr (x, b) ↦ ground arith
          | inl (track, b) ↦ elim (Result-cases (choose_model principal settings body.model)) [
            | inr (x, c) ↦ ground arith
            | inl (e, c) ↦ elim (Result-cases (get_active principal.sub problem_id db)) [
              | inr (x, d) ↦ ground arith
              | inl (some s, d) ↦ ground arith
              | inl (none, d) ↦ elim (Result-cases (check_session_quota principal settings db)) [
                | inr (x, q) ↦ ground arith
                | inl (tt, q) ↦
                    let n =
                      session_with out principal problem_id (or_else body.origin "your_turn") track
                        e in
                    ground (
                      arith,
                      calm db,
                      get_active-count principal.sub problem_id db d,
                      check_session_quota-create principal settings out.clock out.fresh_id n db
                          capped q refl,
                    )
              ]
            ]
          ]
        ]
      ]

  -- A capped caller who creates a session ends up within the budget of sessions that are not
  -- abandoned, or with as many as before, if no other request writes between the check and the
  -- insertion.
  pub create_session-budget :
      (body : CreateBody)
      → ((d : Db) → out.others d ≡ d)
      → wants_byok principal settings ≡ true
      → let (r, after) = in_transaction (create_session out settings principal body) db in
        kept principal.sub after ≤ max settings.coach_max_sessions_per_user (kept principal.sub db)
  create_session-budget body calm capped =
      let (r, after) = in_transaction (create_session out settings principal body) db in
      omega (
        arith,
        create_session-counted body calm capped,
        count_sessions_for_user-kept principal.sub after,
        count_sessions_for_user-kept principal.sub db,
      )
