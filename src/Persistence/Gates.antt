-- ===== src/Persistence/Gates.antt =====
-- tutor/persistence/repo.py, the writes of the gate, gate_call and grounding_ref tables.
use cortex_tutor.Prelude.{ℕ, String, ◌&&◌, List, [], ◌∷◌, ◌++◌, ◌==◌, if◌then◌else◌}
use cortex_tutor.Prelude.Text.{Text}
use cortex_tutor.Domain.Steps.{Step, same_step}
use cortex_tutor.Domain.Verdict.{Verdict}
use cortex_tutor.Persistence.Models.{GateRow, GateCall, GroundingRef, Db, Clock}

-- What a gate row is written with.
pub record NewGate : Type 0 where
  pub step : Step
  pub verdict : Verdict
  pub score : ℕ
  pub attempts : ℕ
  pub missing : List Text
  pub judge_kind : String

-- `ON CONFLICT (session_id, step) DO UPDATE`: the row's `judge_kind` and `created_at` stay.
unfoldable pub upsert_rows : ℕ → ℕ → NewGate → List GateRow → List GateRow
upsert_rows now id n [] =
    record {
      session_id = id;
      step = n.step;
      verdict = n.verdict;
      score = n.score;
      attempts = n.attempts;
      missing = n.missing;
      judge_kind = n.judge_kind;
      created_at = now;
      updated_at = now;
    }
    ∷ []
upsert_rows now id n (g ∷ gs) =
    if g.session_id == id && same_step g.step n.step
    then record g {
      verdict = n.verdict;
      score = n.score;
      attempts = n.attempts;
      missing = n.missing;
      updated_at = now;
    }
      ∷ gs
    else g ∷ upsert_rows now id n gs

unfoldable pub upsert_gate : Clock → ℕ → NewGate → Db → Db
unfolding upsert_rows
upsert_gate clock id n db = record db { gates = upsert_rows clock.now id n db.gates }

unfoldable pub add_gate_call : GateCall → Db → Db
add_gate_call row db = record db { gate_calls = db.gate_calls ++ row ∷ [] }

unfoldable pub add_grounding_ref : GroundingRef → Db → Db
add_grounding_ref row db = record db { grounding_refs = db.grounding_refs ++ row ∷ [] }
