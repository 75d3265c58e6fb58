-- ===== src/Persistence/Upserts.antt =====
-- What `upsert_gate` of tutor/persistence/repo.py leaves in the gate table, read by its unique key.
use cortex_tutor.Prelude.{
  ℕ, ◌≡◌, refl, arith, String, true, false, ◌&&◌, Option, none, some, List, [], ◌∷◌, ◌==◌, ==_iff,
  if◌then◌else◌, Bool-cases, inl, inr,
}
use cortex_tutor.Domain.Steps.{Step, same_step}
use cortex_tutor.Domain.Steps.Ladder.{same_step_iff}
use cortex_tutor.Persistence.Models.{GateRow, Db, Clock}
use cortex_tutor.Persistence.Gates.{NewGate, upsert_rows, upsert_gate}

unfoldable pub gate_at : ℕ → Step → List GateRow → Option GateRow
gate_at id step [] = none
gate_at id step (g ∷ gs) =
    if g.session_id == id && same_step g.step step then some g else gate_at id step gs

-- who judged, of a row that may be there already
abbrev pub judge_or : String → Option GateRow → String
judge_or judge_kind none = judge_kind
judge_or judge_kind (some g) = g.judge_kind

-- A row with the new verdict, by the judge of the row that it replaces.
abbrev pub IsUpsert : NewGate → Option GateRow → Option GateRow → Type 0
IsUpsert n before none = ⊥
IsUpsert n before (some g) =
    (g.verdict ≡ n.verdict)
    × (g.score ≡ n.score)
    × (g.attempts ≡ n.attempts)
    × (g.judge_kind ≡ judge_or n.judge_kind before)

key_itself : (id : ℕ) (step : Step) → (id == id && same_step step step) ≡ true
key_itself id step = ground (arith, ==_iff id id, same_step_iff step step)

upsert_rows-gate_at :
    (now id : ℕ) (n : NewGate) (rows : List GateRow)
    → IsUpsert n (gate_at id n.step rows) (gate_at id n.step (upsert_rows now id n rows))
unfolding upsert_rows gate_at
upsert_rows-gate_at now id n [] = rw (key_itself id n.step) (refl, refl, refl, refl)
upsert_rows-gate_at now id n (g ∷ gs) =
    elim (Bool-cases (g.session_id == id && same_step g.step n.step)) [
      | inl e ↦ rw (e, gate_at, e) (refl, refl, refl, refl)
      | inr e ↦ rw (e, gate_at, e) (upsert_rows-gate_at now id n gs)
    ]

upsert_rows-other :
    (now id other : ℕ) (step : Step) (n : NewGate) (rows : List GateRow)
    → (id == other && same_step n.step step) ≡ false
    → gate_at other step (upsert_rows now id n rows) ≡ gate_at other step rows
unfolding upsert_rows gate_at
upsert_rows-other now id other step n [] h = ground arith
upsert_rows-other now id other step n (g ∷ gs) h = ground (
  arith,
  upsert_rows-other now id other step n gs h,
  ==_iff g.session_id id,
  ==_iff g.session_id other,
  ==_iff id other,
  same_step_iff g.step n.step,
  same_step_iff g.step step,
  same_step_iff n.step step,
)

-- After an upsert the session's row for the step has the new verdict, score and attempts; but who
-- judged it stays as it was if the row was there already. The rows of other steps and of other
-- sessions stay as they were.
pub upsert_gate-IsUpsert :
    (clock : Clock) (id : ℕ) (n : NewGate) (db : Db)
    → let rows = (upsert_gate clock id n db).gates in
      IsUpsert n (gate_at id n.step db.gates) (gate_at id n.step rows)
      × ((other : ℕ) (step : Step)
          → (id == other && same_step n.step step) ≡ false
          → gate_at other step rows ≡ gate_at other step db.gates)
unfolding upsert_gate
upsert_gate-IsUpsert clock id n db = (
  upsert_rows-gate_at clock.now id n db.gates,
  λ other step h. upsert_rows-other clock.now id other step n db.gates h,
)
