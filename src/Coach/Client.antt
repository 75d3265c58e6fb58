-- ===== src/Coach/Client.antt =====
-- `validate_client_verdict` of tutor/orchestration/byok.py: the verdict that a browser sends.
use cortex_tutor.Prelude.{
  ◌≡◌, refl, ap, ◌∙◌, ◌⊎◌, inl, inr, arith, [], Option, none, some, Option-cases,
}
use cortex_tutor.Prelude.Result.{◌>>=◌, value_error, Result, ok, err, Result-cases}
use cortex_tutor.Prelude.Int.{pos}
use cortex_tutor.Json.{
  Json, null, int, str, arr, obj, nil, Fields, end, field, FloatOps, find, get, get_default,
}
use cortex_tutor.Domain.Verdict.{retry, GateVerdict, IsValid}
use cortex_tutor.Gate.Coerce.{coerce}
use cortex_tutor.Gate.Validate.{Validator, read_verdict}
use cortex_tutor.Gate.Evaluate.{GateOutcome, valid, coerced, repair}
use cortex_tutor.Gate.FailSafe.{IsSaid, validate-IsSaid, repair-IsSaid}

-- The wire's names as the schema's.
unfoldable pub snake : Fields → Fields
snake raw = field "verdict" (get "verdict" raw) (
    field "score" (get_default "score" (int (pos 0)) raw) (
      field "rubric_hits" (get_default "rubricHits" (get_default "rubric_hits" (arr nil) raw) raw) (
        field "missing" (get_default "missing" (arr nil) raw) (
          field "hint" (get_default "hint" (str []) raw) (
            field "next_hint_level"
              (get_default "nextHintLevel" (get_default "next_hint_level" (int (pos 0)) raw) raw)
              end)))))

find-snake : (raw : Fields) → find "verdict" (snake raw) ≡ some (get "verdict" raw)
unfolding find snake
find-snake raw = refl

read_verdict-or_null :
    (o : Option Json) → read_verdict (some (elim o [ none ↦ null | some v ↦ v ])) ≡ read_verdict o
unfolding read_verdict
read_verdict-or_null none = refl
read_verdict-or_null (some v) = refl

read_verdict-get :
    (raw : Fields) → read_verdict (some (get "verdict" raw)) ≡ read_verdict (find "verdict" raw)
unfolding get
read_verdict-get raw = read_verdict-or_null (find "verdict" raw)

read_verdict-snake :
    (raw : Fields) → read_verdict (find "verdict" (snake raw)) ≡ read_verdict (find "verdict" raw)
read_verdict-snake raw = ap read_verdict (find-snake raw) ∙ read_verdict-get raw

module _ (ops : FloatOps) (pydantic : Validator) where
  unfoldable pub repaired : Fields → Result (GateVerdict × GateOutcome)
  repaired p = do
    out ← coerce ops p
    elim (pydantic.validate out) [ none ↦ err value_error | some v ↦ ok (v, coerced) ]

  unfoldable pub validated : Fields → Result (GateVerdict × GateOutcome)
  validated p = elim (pydantic.validate p) [ some v ↦ ok (v, valid) | none ↦ repaired p ]

  unfoldable pub validate_client_verdict : Json → Result (GateVerdict × GateOutcome)
  validate_client_verdict (obj raw) = validated (snake raw)
  validate_client_verdict _ = err value_error

  repaired-IsSaid :
      (p : Fields) (v : GateVerdict) (o : GateOutcome)
      → repaired p ≡ ok (v, o)
      → IsSaid (ok p) v.verdict × IsValid v
  unfolding repaired repair
  repaired-IsSaid p v o h = elim (Result-cases (coerce ops p)) [
    | inr (e, c) ↦ absurd (ground arith)
    | inl (out, c) ↦ elim (Option-cases (pydantic.validate out)) [
      | inl n ↦ absurd (ground arith)
      | inr (w, a) ↦ repair-IsSaid ops pydantic p v o (ground arith)
    ]
  ]

  -- A verdict that the server takes from a browser is one of the schema, and it is RETRY unless the
  -- browser's payload is an object whose "verdict" is that verdict.
  pub validate_client_verdict-IsSaid :
      (raw : Fields) (v : GateVerdict) (o : GateOutcome)
      → validate_client_verdict (obj raw) ≡ ok (v, o)
      → ((v.verdict ≡ retry) ⊎ (read_verdict (find "verdict" raw) ≡ some v.verdict)) × IsValid v
  unfolding validate_client_verdict validated
  validate_client_verdict-IsSaid raw v o h = elim (Option-cases (pydantic.validate (snake raw))) [
    | inl n ↦
        let (said, fine) = repaired-IsSaid (snake raw) v o (ground arith) in
        (ground (arith, said, read_verdict-snake raw), fine)
    | inr (w, a) ↦
        ground (arith, validate-IsSaid ops pydantic (snake raw) v, read_verdict-snake raw)
  ]
