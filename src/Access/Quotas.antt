-- ===== src/Access/Quotas.antt =====
-- tutor/quotas.py: the budgets of a caller who is not the operator.
use cortex_tutor.Prelude.{ℕ, ◌≤◌, ◌≡◌, arith, true, ltb, leb, if◌then◌else◌, count}
use cortex_tutor.Prelude.Result.{http, Result, ok, raise_if}
use cortex_tutor.Config.{Settings}
use cortex_tutor.Access.Auth.{Principal, wants_byok}
use cortex_tutor.Persistence.Models.{Db, Clock}
use cortex_tutor.Persistence.Sessions.{
  count_sessions_for_user, NewSession, new_row, create, is_kept,
}
use cortex_tutor.Persistence.Messages.{next_seq}

unfoldable pub check_session_quota : Principal → Settings → Db → Result (Unit {0})
check_session_quota principal settings db =
    if wants_byok principal settings
    then raise_if
        (leb settings.coach_max_sessions_per_user (count_sessions_for_user principal.sub db))
        (http 429)
    else ok tt

unfoldable pub check_message_quota : Principal → Settings → ℕ → Db → Result (Unit {0})
check_message_quota principal settings session_id db =
    if wants_byok principal settings
    then raise_if (ltb settings.coach_max_messages_per_session (next_seq session_id db)) (http 429)
    else ok tt

-- A session that a capped caller creates once the check is passed stays within the budget.
pub check_session_quota-create :
    (principal : Principal) (settings : Settings) (clock : Clock) (id : ℕ) (n : NewSession)
    (db : Db)
    → wants_byok principal settings ≡ true
    → check_session_quota principal settings db ≡ ok tt
    → n.user_sub ≡ principal.sub
    → count_sessions_for_user principal.sub (create clock id n db).1
      ≤ settings.coach_max_sessions_per_user
unfolding check_session_quota count_sessions_for_user create new_row count is_kept
check_session_quota-create principal settings clock id n db capped checked own = ground arith
