-- ===== src/System/Requests.antt =====
-- The program as a whole: requests of tutor/routes/sessions.py and passes of the purge, one after
-- the other, on the tables of tutor/persistence.
use cortex_tutor.Prelude.{
  ℕ, ◌≡◌, sym, subst, arith, String, Bool, true, false, Option, filter, count, All, str_eq, eq_iff,
}
use cortex_tutor.Domain.Steps.{Step}
use cortex_tutor.Persistence.Models.{Db}
use cortex_tutor.Persistence.Transaction.{in_transaction}
use cortex_tutor.Persistence.Sessions.{owns, has_id, purge_expired}
use cortex_tutor.System.Changes.{Changes, here, IsConsistent}
use cortex_tutor.Prelude.Text.{Text}
use cortex_tutor.Turn.Apply.{Outside}
use cortex_tutor.Config.{Settings}
use cortex_tutor.Access.Auth.{Principal}
use cortex_tutor.Routes.Manage.{
  CreateBody, create_session, reset_session, clear_all_sessions, change_session_model,
}
use cortex_tutor.Routes.Body.{TurnBody}
use cortex_tutor.Turn.Apply.{record_coach_reply}
use cortex_tutor.Routes.Turns.{TurnWorld, submit_turn, record_byok_turn}
use cortex_tutor.System.Handlers.{
  create_session-Changes, reset_session-Changes, clear_all_sessions-Changes,
  change_session_model-Changes,
}
use cortex_tutor.System.Replies.{
  submit_turn-Changes, record_byok_turn-Changes, purge_expired-Changes, record_coach_reply-keeps,
}
use cortex_tutor.System.Consistent.{Changes-IsConsistent}
use cortex_tutor.System.History.{IsHistory, Changes-IsHistory}
use cortex_tutor.System.Scope.{Changes-scope}
use cortex_tutor.Persistence.Models.{empty_db}

-- A request with what it reads from outside. A coach's reply is recorded after its turn, when the
-- stream ends.
pub data Request : Type 0 where
  post_session : Outside → Settings → Principal → CreateBody → Request
  post_reset : Outside → Settings → Principal → ℕ → Request
  delete_all : Outside → Settings → Principal → Request
  patch_model : Outside → Settings → Principal → ℕ → Option String → Request
  post_turn : TurnWorld → ℕ → TurnBody → Request
  post_byok_turn : TurnWorld → ℕ → TurnBody → Request
  end_of_stream : Outside → ℕ → Step → Text → Option String → Request
  purge : ℕ → Request

unfoldable pub run_request : Request → Db → Db
run_request (post_session out settings principal body) db =
    (in_transaction (create_session out settings principal body) db).1
run_request (post_reset out settings principal id) db =
    (in_transaction (reset_session out settings principal id) db).1
run_request (delete_all out settings principal) db =
    (in_transaction (clear_all_sessions out settings principal) db).1
run_request (patch_model out settings principal id requested) db =
    (in_transaction (change_session_model out settings principal id requested) db).1
run_request (post_turn w id body) db = (in_transaction (submit_turn w id body) db).1
run_request (post_byok_turn w id body) db = (in_transaction (record_byok_turn w id body) db).1
run_request (end_of_stream out id step content model) db =
    (in_transaction (record_coach_reply out id step content model) db).1
run_request (purge now) db = (purge_expired now db).1

-- Whose sessions a request may change: its caller's; the purge's are anyone's.
unfoldable pub may_change : Request → String → Bool
may_change (post_session out settings principal body) = str_eq principal.sub
may_change (post_reset out settings principal id) = str_eq principal.sub
may_change (delete_all out settings principal) = str_eq principal.sub
may_change (patch_model out settings principal id requested) = str_eq principal.sub
may_change (post_turn w id body) = str_eq w.principal.sub
may_change (post_byok_turn w id body) = str_eq w.principal.sub
may_change (end_of_stream out id step content model) = λ u. false
may_change (purge now) = λ u. true

-- No other request writes while it runs, and its UUID is not that of a session in the table.
abbrev pub IsQuiet : Outside → Db → Type 0
IsQuiet out db = ((d : Db) → out.others d ≡ d) × (count (has_id out.fresh_id) db.sessions ≡ 0)

abbrev pub IsAlone : Request → Db → Type 0
IsAlone (post_session out settings principal body) db = IsQuiet out db
IsAlone (post_reset out settings principal id) db = IsQuiet out db
IsAlone (delete_all out settings principal) db = Unit
IsAlone (patch_model out settings principal id requested) db = IsQuiet out db
IsAlone (post_turn w id body) db = IsQuiet w.out db
IsAlone (post_byok_turn w id body) db = IsQuiet w.out db
IsAlone (end_of_stream out id step content model) db = Unit
IsAlone (purge now) db = Unit

str_eq_refl : (s : String) → str_eq s s ≡ true
str_eq_refl s = ground (arith, eq_iff s s)

run_request-Changes :
    (r : Request) (db : Db)
    → IsAlone r db
    → IsConsistent db.sessions
    → Changes (may_change r) db.sessions (run_request r db).sessions
unfolding run_request may_change
run_request-Changes (post_session out settings principal body) db (calm, fresh) good =
    create_session-Changes _ out calm settings principal (str_eq_refl principal.sub) db good.unique
      fresh body
run_request-Changes (post_reset out settings principal id) db (calm, fresh) good =
    reset_session-Changes _ out calm settings principal (str_eq_refl principal.sub) db good.unique
      fresh id
run_request-Changes (delete_all out settings principal) db alone good =
    clear_all_sessions-Changes _ out settings principal db (str_eq_refl principal.sub)
run_request-Changes (patch_model out settings principal id requested) db (calm, fresh) good =
    change_session_model-Changes _ out calm settings principal (str_eq_refl principal.sub) db
      good.unique fresh id requested
run_request-Changes (post_turn w id body) db (calm, fresh) good =
    submit_turn-Changes _ w calm (str_eq_refl w.principal.sub) db good.unique fresh id body
run_request-Changes (post_byok_turn w id body) db (calm, fresh) good =
    record_byok_turn-Changes _ w calm (str_eq_refl w.principal.sub) db good.unique fresh id body
run_request-Changes (end_of_stream out id step content model) db alone good =
    subst (Changes (λ u. false) db.sessions)
      (sym (record_coach_reply-keeps out id step content model db)) here
run_request-Changes (purge now) db alone good = purge_expired-Changes now db

-- The tables that requests, one after the other, make of the empty ones.
pub data Reached : Db → Type 0 where
  at_first : {db : Db} → db ≡ empty_db → Reached db
  after :
      {db : Db} (before : Db) (r : Request)
      → Reached before
      → IsAlone r before
      → db ≡ run_request r before
      → Reached db

-- Whatever requests came, one after the other and each with a fresh UUID: identifiers are unique, a
-- user has at most one active session for a problem, and in every row the step is one of the row's
-- track, its index is the step's, the hint level is at most 3, and a completed session is at the
-- last step.
pub Reached-IsConsistent : {db : Db} → Reached db → IsConsistent db.sessions
unfolding count
Reached-IsConsistent {db} (at_first eq) =
    subst (λ d. IsConsistent d.sessions) (sym eq)
      (record { unique = λ id. omega arith; one_active = λ u p. omega arith; rows = tt })
Reached-IsConsistent {db} (after before r reached alone eq) =
    let good = Reached-IsConsistent reached in
    subst (λ d. IsConsistent d.sessions) (sym eq)
      (Changes-IsConsistent (run_request-Changes r before alone good) good)

-- Whatever requests came, one after the other and each with a fresh UUID: every row is, but for the
-- scores, the state that the coaching machine reaches from the first step of the row's track by some
-- history of verdicts.
pub Reached-IsHistory : {db : Db} → Reached db → All IsHistory db.sessions
Reached-IsHistory {db} (at_first eq) = subst (λ d. All IsHistory d.sessions) (sym eq) tt
Reached-IsHistory {db} (after before r reached alone eq) =
    subst (λ d. All IsHistory d.sessions) (sym eq)
      (Changes-IsHistory (run_request-Changes r before alone (Reached-IsConsistent reached))
        (Reached-IsHistory reached))

-- In tables that requests made, one after the other, a request that is not the purge leaves the
-- sessions of every user but its caller as they were; recording a reply leaves everyone's.
pub run_request-scope :
    (r : Request) (db : Db) (other : String)
    → Reached db
    → IsAlone r db
    → may_change r other ≡ false
    → filter (owns other) (run_request r db).sessions ≡ filter (owns other) db.sessions
run_request-scope r db other reached alone foreign =
    Changes-scope other (run_request-Changes r db alone (Reached-IsConsistent reached)) foreign
