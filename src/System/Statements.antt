-- ===== src/System/Statements.antt =====
-- The transactions of tutor/persistence: what a request may have committed and what it may have
-- written, as changes of the tables that it started from.
use cortex_tutor.Prelude.{
  ℕ, ◌≡◌, refl, String, Bool, true, false, Option, List, [], ◌∷◌, filter, count,
}
use cortex_tutor.Domain.Verdict.{GateVerdict}
use cortex_tutor.Domain.Fsm.{SessionStatus, transition}
use cortex_tutor.Persistence.Models.{active, Session, Clock, Db}
use cortex_tutor.Persistence.Transaction.{Tx, Exec, continue, require, ◌>>◌}
use cortex_tutor.Persistence.Sessions.{
  active_for, has_id, NewSession, save_state, set_coach_model, create, delete_sessions,
}
use cortex_tutor.Prelude.Result.{Error, Result, ok, err}
use cortex_tutor.Turn.Steps.{state_of, columns_of}
use cortex_tutor.System.Changes.{created, deleted, judged, repointed, Changes, here, next}

pub record IsFrom (can : String → Bool) (xs : List Session) (tx : Tx) : Type 0 where
  pub committed : Changes can xs tx.committed.sessions
  pub working : Changes can xs tx.working.sessions

pub start-IsFrom :
    (can : String → Bool) (db : Db)
    → IsFrom can db.sessions (record { committed = db; working = db })
start-IsFrom can db = record { committed = here; working = here }

-- A chain of statements.
pub continue-IsFrom :
    {A B : Type 0} (can : String → Bool) (base : List Session) (r : Result A) (k : A → Exec B)
    (tx : Tx)
    → IsFrom can base tx
    → ((a : A) → IsFrom can base (k a tx).1)
    → IsFrom can base (continue r k tx).1
continue-IsFrom can base (ok a) k tx from rest = rest a
continue-IsFrom can base (err e) k tx from rest = from

pub require-IsFrom :
    {B : Type 0} (can : String → Bool) (base : List Session) (b : Bool) (e : Error) (k : Exec B)
    (tx : Tx)
    → IsFrom can base tx
    → IsFrom can base (k tx).1
    → IsFrom can base ((require b e >> k) tx).1
require-IsFrom can base true e k tx from rest = rest
require-IsFrom can base false e k tx from rest = from

-- A turn's save: what it writes is a change by one verdict.
pub save_turn-Changes :
    (can : String → Bool) (clock : Clock) (s : Session) (v : GateVerdict) (turn_id : Option ℕ)
    (xs : List Session) (db : Db)
    → Changes can xs db.sessions
    → can s.user_sub ≡ true
    → filter (has_id s.id) db.sessions ≡ s ∷ []
    → s.status ≡ active
    → Changes can xs
        (save_state clock s.id s.version
          (columns_of (transition (state_of s SessionStatus.active) v) turn_id)
          db).1.sessions
unfolding save_state
save_turn-Changes can clock s v turn_id xs db more may only on =
    next more (judged clock s v turn_id may only on refl)

pub set_coach_model-Changes :
    (can : String → Bool) (clock : Clock) (s : Session) (coach_model : String) (byok : Bool)
    (xs : List Session) (db : Db)
    → Changes can xs db.sessions
    → can s.user_sub ≡ true
    → filter (has_id s.id) db.sessions ≡ s ∷ []
    → Changes can xs (set_coach_model clock s.id s.version coach_model byok db).1.sessions
unfolding set_coach_model
set_coach_model-Changes can clock s coach_model byok xs db more may only =
    next more (repointed clock s coach_model byok may only refl)

pub create-Changes :
    (can : String → Bool) (clock : Clock) (id : ℕ) (n : NewSession) (xs : List Session) (db : Db)
    → Changes can xs db.sessions
    → can n.user_sub ≡ true
    → count (has_id id) db.sessions ≡ 0
    → count (active_for n.user_sub n.problem_id) db.sessions ≡ 0
    → Changes can xs (create clock id n db).1.sessions
unfolding create
create-Changes can clock id n xs db more may fresh free =
    next more (created clock id n may fresh free refl)

pub delete-Changes :
    (can : String → Bool) (q : Session → Bool) (xs : List Session) (db : Db)
    → Changes can xs db.sessions
    → ((s : Session) → q s ≡ true → can s.user_sub ≡ true)
    → Changes can xs (delete_sessions q db).1.sessions
unfolding delete_sessions
delete-Changes can q xs db more may = next more (deleted q may refl)
