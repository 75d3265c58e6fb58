-- ===== src/Turn/Atomic.antt =====
-- The all-or-nothing of a turn in tutor/orchestration/turn.py: a turn that raises leaves no write.
use cortex_tutor.Prelude.{String, ◌≡◌, ◌⊎◌, arith}
use cortex_tutor.Persistence.Models.{Session, Db}
use cortex_tutor.Prelude.Result.{Error, err}
use cortex_tutor.Persistence.Transaction.{in_transaction}
use cortex_tutor.Prelude.Text.{Text}
use cortex_tutor.Turn.Steps.{Submission}
use cortex_tutor.Turn.Apply.{
  Outside, save_turn, record_verdict, GateWorld, evaluate_and_save, turn_on, get_or_create,
  apply_turn, ClientTurn, save_byok, apply_byok_turn,
}

-- The tables are as they were, but for what other requests wrote.
abbrev pub IsUntouched : Outside → Db → Db → Type 0
IsUntouched out before after = (after ≡ before) ⊎ (after ≡ out.others before)

-- A turn that raises, for whatever reason, leaves the tables as they were, but for what other
-- requests wrote: not even a session that it created stays.
pub apply_turn-err :
    (out : Outside) (world : GateWorld) (user_sub problem_id origin : String)
    (problem_context : Text) (sub : Submission) (db after : Db) (e : Error)
    → in_transaction (apply_turn out world user_sub problem_id origin problem_context sub) db
      ≡ (err e, after)
    → IsUntouched out db after
unfolding apply_turn get_or_create turn_on evaluate_and_save save_turn record_verdict
apply_turn-err out world user_sub problem_id origin problem_context sub db after e h = ground arith

-- A BYOK turn that raises leaves the tables as they were, but for what other requests wrote.
pub apply_byok_turn-err :
    (out : Outside) (sub : Submission) (client : ClientTurn) (s : Session) (db after : Db)
    (e : Error)
    → in_transaction (apply_byok_turn out sub client s) db ≡ (err e, after)
    → IsUntouched out db after
unfolding apply_byok_turn save_byok save_turn record_verdict
apply_byok_turn-err out sub client s db after e h = ground arith
