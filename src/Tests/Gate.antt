-- ===== src/Tests/Gate.antt =====
-- Runs of the gate, with a provider that answers a fixed payload.
use cortex_tutor.Prelude.{ℕ, ◌≡◌, refl, ◌↔◌, true, Option, none, some, [], any, All}
use cortex_tutor.Prelude.Text.{codes, join, text_eq, is_blank}
use cortex_tutor.Prelude.Int.{pos, distance, clamp}
use cortex_tutor.Prelude.Result.{type_error, Result, ok, err}
use cortex_tutor.Json.{bool, str, Fields, field, find, get, put}
use cortex_tutor.Domain.Steps.{plan, implement}
use cortex_tutor.Domain.Verdict.{
  Verdict, pass, retry, score_values, is_score, IsValid, retry_failsafe,
}
use cortex_tutor.Gate.Coerce.{
  find_verdict, parse_verdict, before, min_of, snap, snap_int, coerce_verdict, coerce_score,
  coerce_level, coerce_list, coerce,
}
use cortex_tutor.Gate.Validate.{
  read_verdict, read_score, read_level, read_list, read_hint, only_known,
}
use cortex_tutor.Gate.Evaluate.{
  GateOutcome, valid, coerced, failsafe_schema, GateEvaluation, repair, judge, evaluate,
}
use cortex_tutor.Gate.Repair.{Repaired, coerce-Repaired}
use cortex_tutor.Tests.Samples.{
  reference_validate, reference_validator, whole_floats, passing, near_miss, listed, sample_ambient,
  answering,
}
use cortex_tutor.Gate.Answer.{compose_answer, is_code_step, evidence_parts, present}
use cortex_tutor.Gate.Snap.{IsNearer, snap_int-IsNearer}
use cortex_tutor.Gate.FailSafe.{
  IsSaid, answered, evaluate-IsSaid, evaluate-err_iff, evaluate-unhashable,
}

unfoldable pub program : Unit {0}
unfolding evaluate judge repair coerce coerce_verdict coerce_score coerce_level coerce_list snap_int
    snap before min_of distance find get put parse_verdict find_verdict text_eq clamp is_blank
    reference_validate read_verdict read_score read_level read_list read_hint only_known any
    is_score retry_failsafe
program = tt

abbrev gate_on : Fields → Result GateEvaluation
gate_on raw =
    evaluate whole_floats reference_validator sample_ambient (answering raw) plan (codes "p") []
      (codes "a")

score_of : Result GateEvaluation → Option (Verdict × ℕ × GateOutcome)
score_of (ok e) = some (e.verdict.verdict, e.verdict.score, e.outcome)
score_of (err e) = none

passes_valid : score_of (gate_on passing) ≡ some (pass, 80, valid)
unfolding program score_of
passes_valid = refl

-- 75 is as near to 70 as to 80: the repair takes the lower.
passes_repaired : score_of (gate_on near_miss) ≡ some (pass, 70, coerced)
unfolding program score_of
passes_repaired = refl

extra_key_fails_safe :
    score_of (gate_on (field "safe_to_advance" (bool true) passing))
    ≡ some (retry, 0, failsafe_schema)
unfolding program score_of
extra_key_fails_safe = refl

listed_raises : gate_on listed ≡ err type_error
unfolding program
listed_raises = refl

answer_without_code :
    compose_answer (λ t. t) (codes "done") implement none none none
    ≡ codes "done\n\n[workbench: no code attached to this message]"
unfolding compose_answer is_code_step evidence_parts present join
answer_without_code = refl

snap_int-IsNearer_example :
    (is_score (snap_int (pos 75)) ≡ true)
    × All (IsNearer (distance (pos 75)) (snap_int (pos 75))) score_values
snap_int-IsNearer_example = snap_int-IsNearer (pos 75)

coerce-Repaired_example :
    (out : Fields) × (coerce whole_floats near_miss ≡ ok out) × Repaired whole_floats near_miss out
unfolding program
coerce-Repaired_example = coerce-Repaired whole_floats near_miss (str (codes "pass")) none refl refl

evaluate-IsSaid_example :
    IsSaid (ok passing) pass
    × IsValid (record {
      verdict = pass;
      score = 80;
      rubric_hits = [];
      missing = [];
      hint = [];
      next_hint_level = 0;
    })
unfolding program
evaluate-IsSaid_example =
    evaluate-IsSaid whole_floats reference_validator sample_ambient (answering passing) plan
      (codes "p") [] (codes "a")
      (record {
        verdict = record {
          verdict = pass;
          score = 80;
          rubric_hits = [];
          missing = [];
          hint = [];
          next_hint_level = 0;
        };
        outcome = valid;
        raw = some passing;
        latency_ms = 7;
        provider_kind = "fake";
        model = "m";
        problem_context_hash = "abc";
      })
      refl

evaluate-err_iff_example : (gate_on listed ≡ err type_error) ↔ (
    (raw : Fields) × (answered whole_floats reference_validator sample_ambient
        (answering listed)
        plan
        (codes "p")
        []
        (codes "a")
      ≡ ok raw)
    × (reference_validate raw ≡ none)
    × (coerce whole_floats raw ≡ err type_error))
evaluate-err_iff_example =
    evaluate-err_iff whole_floats reference_validator sample_ambient (answering listed) plan
      (codes "p") [] (codes "a") type_error

evaluate-unhashable_example : gate_on listed ≡ err type_error
unfolding program
evaluate-unhashable_example =
    evaluate-unhashable whole_floats reference_validator sample_ambient (answering listed) plan
      (codes "p") [] (codes "a") listed refl refl
