-- ===== src/Tests/Tables.antt =====
-- The gate table and a stream at concrete inputs.
use cortex_tutor.Prelude.{
  ℕ, String, ◌≡◌, refl, true, false, ◌&&◌, Option, none, some, List, [], ◌∷◌, ◌==◌,
}
use cortex_tutor.Prelude.Text.{Text, codes, join}
use cortex_tutor.Domain.Steps.{Step, plan, same_step}
use cortex_tutor.Domain.Verdict.{pass, retry}
use cortex_tutor.Gate.Evaluate.{ChatMessage}
use cortex_tutor.Persistence.Models.{GateRow, Db, empty_db}
use cortex_tutor.Persistence.Gates.{NewGate, upsert_gate, upsert_rows}
use cortex_tutor.Persistence.Upserts.{gate_at, IsUpsert, upsert_gate-IsUpsert}
use cortex_tutor.Routes.Stream.{Spoken, Event}
use cortex_tutor.Routes.Turns.{StreamJob, default_coach}
use cortex_tutor.Routes.View.{session_payload, result_base}
use cortex_tutor.Routes.Delivery.{
  IsStored, IsLost, events, stored, tokens_of, replies_of, event_gen-delivers,
}
use cortex_tutor.Turn.Steps.{TurnOutcome}
use cortex_tutor.Tests.Samples.{sample_rubric}
use cortex_tutor.Tests.Turn.{clock, calm, at_plan, one_session}
use cortex_tutor.Prelude.Result.{ok}
use cortex_tutor.Prelude.{◌⊎◌}

-- A row that the server's gate judged.
abbrev judged : Db
judged = record empty_db {
  gates =
      record {
        session_id = 1;
        step = plan;
        verdict = retry;
        score = 0;
        attempts = 1;
        missing = [];
        judge_kind = "llm";
        created_at = 5;
        updated_at = 5;
      }
      ∷ [];
}

abbrev client_gate : NewGate
client_gate = record {
  step = plan;
  verdict = pass;
  score = 80;
  attempts = 0;
  missing = [];
  judge_kind = "byok";
}

upsert_gate-IsUpsert_example :
    IsUpsert client_gate
      (gate_at 1 plan judged.gates)
      (gate_at 1 plan (upsert_gate clock 1 client_gate judged).gates)
    × ((other : ℕ) (step : Step)
        → (1 == other && same_step plan step) ≡ false
        → gate_at other step (upsert_gate clock 1 client_gate judged).gates
          ≡ gate_at other step judged.gates)
upsert_gate-IsUpsert_example = upsert_gate-IsUpsert clock 1 client_gate judged

judge_of : Option GateRow → Option String
judge_of none = none
judge_of (some g) = some g.judge_kind

judge_stays : judge_of (gate_at 1 plan (upsert_gate clock 1 client_gate judged).gates) ≡ some "llm"
unfolding judge_of gate_at upsert_gate upsert_rows same_step
judge_stays = refl

abbrev outcome : TurnOutcome
outcome = record {
  session = at_plan;
  evaluated_step = plan;
  verdict = record {
    verdict = retry;
    score = 0;
    rubric_hits = [];
    missing = [];
    hint = codes "look again";
    next_hint_level = 1;
  };
  advanced = false;
  done = false;
  coach_messages = [];
  replayed = false;
}

abbrev job : StreamJob
job = record {
  state = session_payload at_plan [];
  result = result_base outcome;
  outcome = outcome;
  problem_context = codes "p";
  replay_reply = [];
  speaker = default_coach;
}

-- A coach that fails after one token.
abbrev failing : Text → List ChatMessage → Spoken
failing system messages = record { deltas = codes "Hm" ∷ []; failed = true }

abbrev shown : List Event
shown = events sample_rubric failing calm (ok tt) job one_session

event_gen-delivers_example :
    (replies_of shown ≡ join [] (tokens_of shown) ∷ [])
    × (IsStored calm
          (ok tt)
          job
          (join [] (tokens_of shown))
          one_session
          (stored sample_rubric failing calm (ok tt) job one_session)
        ⊎ IsLost calm
            (ok tt)
            job
            (join [] (tokens_of shown))
            one_session
            (stored sample_rubric failing calm (ok tt) job one_session))
event_gen-delivers_example =
    event_gen-delivers sample_rubric failing calm (ok tt) job one_session refl
