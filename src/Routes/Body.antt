-- ===== src/Routes/Body.antt =====
-- The bodies of the turn endpoints of tutor/routes/sessions.py: which are refused, and what the
-- others say.
use cortex_tutor.Prelude.{ℕ, Bool, true, false, Option, none, some}
use cortex_tutor.Prelude.Result.{http, value_error, Result, ok, err, raise_if, ◌>>=◌, ◌>>◌}
use cortex_tutor.Json.{Json, null, obj, Fields}
use cortex_tutor.Config.{Settings}
use cortex_tutor.Domain.Steps.{Step}
use cortex_tutor.Coach.Client.{validate_client_verdict}
use cortex_tutor.Turn.Steps.{Submission}
use cortex_tutor.Turn.Apply.{GateWorld, ClientTurn}
use cortex_tutor.Routes.Http.{parse_step, parse_turn_id, capped, capped_text}

pub record TurnBody : Type 0 where
  pub step : Json
  pub text : Json
  pub turn_id : Json
  pub code : Json
  pub language : Json
  pub run_result : Json
  pub coach_reply : Json
  pub verdict : Json

unfoldable pub is_null : Json → Bool
is_null null = true
is_null _ = false

-- The texts of a body, in the order of `caps`.
unfoldable pub read_texts : Settings → Step → Option ℕ → TurnBody → Result Submission
read_texts settings step turn_id body = do
  answer ← capped_text settings.coach_max_message_chars body.text
  code ← capped 64000 body.code
  language ← capped 100 body.language
  run_result ← capped 16000 body.run_result
  ok (record {
    step = step;
    answer = answer;
    turn_id = turn_id;
    code = code;
    language = language;
    run_result = run_result;
  })

-- The body of `submit_turn`.
unfoldable pub read_submission : Settings → (Json → Result ℕ) → TurnBody → Result Submission
read_submission settings uuid body = do
  step ← parse_step body.step
  raise_if (is_null body.text) (http 422)
  turn_id ← parse_turn_id uuid body.turn_id
  read_texts settings step turn_id body

-- `except ValueError: raise HTTPException(422)`
unfoldable pub value_error_as_422 : {A : Type 0} → Result A → Result A
value_error_as_422 (err value_error) = err (http 422)
value_error_as_422 r = r

unfoldable pub fields_of : Json → Option Fields
fields_of (obj fs) = some fs
fields_of _ = none

-- The body of `record_byok_turn`.
unfoldable pub read_client_turn :
    GateWorld → Settings → (Json → Result ℕ) → TurnBody → Result (Submission × ClientTurn)
read_client_turn gate settings uuid body = do
  step ← parse_step body.step
  raise_if (is_null body.text) (http 422)
  raise_if (is_null body.coach_reply) (http 422)
  raise_if (is_null body.verdict) (http 422)
  texts ← read_texts settings step none body
  coach_reply ← capped_text 64000 body.coach_reply
  (v, outcome) ← value_error_as_422 (validate_client_verdict gate.ops gate.pydantic body.verdict)
  turn_id ← parse_turn_id uuid body.turn_id
  ok (
    record texts { turn_id = turn_id },
    record {
      coach_reply = coach_reply;
      verdict = v;
      verdict_outcome = outcome;
      raw_verdict = fields_of body.verdict;
    },
  )
