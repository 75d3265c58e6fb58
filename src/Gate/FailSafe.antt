-- ===== src/Gate/FailSafe.antt =====
-- What `evaluate` of tutor/orchestration/gate.py guarantees: the gate withholds progress unless the
-- model's own output says otherwise, what it returns is in the schema, and when it raises.
use cortex_tutor.Prelude.{
  ◌≡◌, refl, sym, ap, ◌∙◌, subst, ◌↔◌, ◌⊎◌, inl, inr, Option, none, some, List, [], ◌∷◌, ◌++◌,
  arith, Option-cases, any,
}
use cortex_tutor.Prelude.Text.{Text, codes, text_eq}
use cortex_tutor.Prelude.Result.{
  Error, type_error, Result, ok, err, ◌>>=◌, >>=-ok_inv, Result-cases,
}
use cortex_tutor.Json.{Json, str, arr, obj, Fields, FloatOps, find}
use cortex_tutor.Domain.Steps.{Step}
use cortex_tutor.Domain.Verdict.{
  Verdict, pass, retry, GateVerdict, is_score, IsValid, default_hint, retry_failsafe,
}
use cortex_tutor.Gate.Coerce.{find_verdict, parse_verdict, coerce}
use cortex_tutor.Gate.Validate.{read_verdict, Validator}
use cortex_tutor.Gate.Evaluate.{
  user, ChatMessage, GateProvider, GateOutcome, GateEvaluation, build_gate_system, Ambient, repair,
  judge, evaluate,
}
use cortex_tutor.Gate.Repair.{verdict_after, level_after, Repaired, coerce-Repaired, coerce-raises}

retry_parses : parse_verdict (codes "retry") ≡ some retry
unfolding parse_verdict find_verdict text_eq
retry_parses = refl

-- The repair keeps a verdict that is one, and makes RETRY of any other.
read-verdict_after :
    (o : Option Json) {v : Verdict}
    → read_verdict (verdict_after o) ≡ some v
    → (v ≡ retry) ⊎ (read_verdict o ≡ some v)
unfolding read_verdict
read-verdict_after (some (str t)) h = ground (arith, retry_parses)
read-verdict_after none h = ground (arith, retry_parses)
read-verdict_after (some (arr xs)) h = cc
read-verdict_after (some (obj fs)) h = cc
read-verdict_after (some _) h = ground (arith, retry_parses)

read_verdict-none : (o : Option Json) → verdict_after o ≡ none → read_verdict o ≡ none
unfolding read_verdict
read_verdict-none (some (str t)) h = ground arith
read_verdict-none (some (arr xs)) h = refl
read_verdict-none (some (obj fs)) h = refl
read_verdict-none _ h = cc

retry_failsafe-IsValid : (hint : Text) → IsValid (retry_failsafe hint)
unfolding retry_failsafe is_score any
retry_failsafe-IsValid hint = record { allowed_score = refl; allowed_level = omega arith }

-- What stands for the gate's answer: RETRY, or a verdict that the answer itself says.
abbrev pub IsSaid : Result Fields → Verdict → Type 0
IsSaid (err e) v = v ≡ retry
IsSaid (ok raw) v = (v ≡ retry) ⊎ (read_verdict (find "verdict" raw) ≡ some v)

IsSaid-pass :
    (r : Result Fields)
    → IsSaid r pass
    → (raw : Fields) × (r ≡ ok raw) × (read_verdict (find "verdict" raw) ≡ some pass)
IsSaid-pass (err e) h = cc
IsSaid-pass (ok raw) (inl h) = cc
IsSaid-pass (ok raw) (inr h) = (raw, refl, h)

module _ (ops : FloatOps) (pydantic : Validator) where
  coerce-eq-ok : (raw : Fields) {out : Fields} → coerce ops raw ≡ ok out → Repaired ops raw out
  coerce-eq-ok raw h = elim (Option-cases (verdict_after (find "verdict" raw))) [
    | inl e ↦ cc ((coerce-raises ops raw).0 e)
    | inr (v, e) ↦ elim (Result-cases (level_after ops (find "next_hint_level" raw))) [
      | inl (l, f) ↦
          let (out', made, fixed) = coerce-Repaired ops raw v l e f in
          subst (Repaired ops raw) (cc) fixed
      | inr (x, f) ↦ cc ((coerce-raises ops raw).1 v x e f)
    ]
  ]

  pub validate-IsSaid :
      (p : Fields) (v : GateVerdict)
      → pydantic.validate p ≡ some v
      → (read_verdict (find "verdict" p) ≡ some v.verdict) × IsValid v
  validate-IsSaid p v h = (pydantic.same_verdict p v h, pydantic.in_schema p v h)

  failsafe-IsSaid :
      (hint : Text) (v : GateVerdict) → retry_failsafe hint ≡ v → (v.verdict ≡ retry) × IsValid v
  failsafe-IsSaid hint v h =
      subst (λ w. (w.verdict ≡ retry) × IsValid w) h
        (unfold retry_failsafe in refl, retry_failsafe-IsValid hint)

  pub repair-IsSaid :
      (raw : Fields) (v : GateVerdict) (o : GateOutcome)
      → repair ops pydantic raw ≡ ok (v, o)
      → IsSaid (ok raw) v.verdict × IsValid v
  unfolding repair
  repair-IsSaid raw v o h =
      let (out, made, rest) = >>=-ok_inv (coerce ops raw) _ h in
      elim (Option-cases (pydantic.validate out)) [
        | inl e ↦
            let (said, fine) = failsafe-IsSaid default_hint v (ground arith) in (inl said, fine)
        | inr (w, e) ↦
            let (said, fine) = validate-IsSaid out v (ground arith) in
            let fixed = coerce-eq-ok raw made in
            (
              read-verdict_after (find "verdict" raw) (sym (ap read_verdict fixed.verdict) ∙ said),
              fine,
            )
      ]

  judge-IsSaid-repair :
      (p : Fields) (v : GateVerdict) (o : GateOutcome) (raw : Option Fields)
      → ◌>>=◌ {B = GateVerdict × GateOutcome × Option Fields}
          (repair ops pydantic p)
          (λ (w, outcome). ok (w, outcome, some p))
        ≡ ok (v, o, raw)
      → IsSaid (ok p) v.verdict × IsValid v
  judge-IsSaid-repair p v o raw h =
      let (pair, made, rest) = >>=-ok_inv (repair ops pydantic p) _ h in
      let same : pair ≡ (v, o) = cc in repair-IsSaid p v o (made ∙ ap ok same)

  judge-IsSaid :
      (r : Result Fields) (v : GateVerdict) (o : GateOutcome) (raw : Option Fields)
      → judge ops pydantic r ≡ ok (v, o, raw)
      → IsSaid r v.verdict × IsValid v
  unfolding judge
  judge-IsSaid (err e) v o raw h =
      failsafe-IsSaid (codes "Let's take another pass at that.") v (ground arith)
  judge-IsSaid (ok p) v o raw h = elim (Option-cases (pydantic.validate p)) [
    | inl e ↦ judge-IsSaid-repair p v o raw (rw (e, judge) at h)
    | inr (w, e) ↦ ground (arith, validate-IsSaid p v)
  ]

  unread : (raw : Fields) → verdict_after (find "verdict" raw) ≡ none → pydantic.validate raw ≡ none
  unread raw h = elim (Option-cases (pydantic.validate raw)) [
    | inl e ↦ e
    | inr (v, e) ↦ cc (pydantic.same_verdict raw v e, read_verdict-none (find "verdict" raw) h)
  ]

  module _ (env : Ambient) (provider : GateProvider) (step : Step) (problem_context : Text)
      (transcript : List ChatMessage) (answer : Text) where
    -- What the provider answers to the prompt that `evaluate` builds.
    abbrev pub answered : Result Fields
    answered =
        provider.gate (build_gate_system env.rubric step problem_context)
          (transcript ++ record { role = user; content = answer } ∷ [])

    abbrev pub run_gate : Result GateEvaluation
    run_gate = evaluate ops pydantic env provider step problem_context transcript answer

    -- The verdict is RETRY, unless the provider answered and its answer says that verdict itself;
    -- and its score and hint level are in the schema.
    pub evaluate-IsSaid :
        (e : GateEvaluation)
        → run_gate ≡ ok e
        → IsSaid answered e.verdict.verdict × IsValid e.verdict
    unfolding evaluate
    evaluate-IsSaid e h =
        let (found, made, rest) = >>=-ok_inv (judge ops pydantic answered) _ h in
        subst (λ w. IsSaid answered w.verdict × IsValid w) (ground arith)
          (judge-IsSaid answered found.0 found.1 found.2 made)

    -- In particular a PASS is the provider's own.
    pub evaluate-pass :
        (e : GateEvaluation)
        → run_gate ≡ ok e
        → e.verdict.verdict ≡ pass
        → (raw : Fields) × (answered ≡ ok raw) × (read_verdict (find "verdict" raw) ≡ some pass)
    evaluate-pass e h p = IsSaid-pass answered (subst (IsSaid answered) p (evaluate-IsSaid e h).0)

    -- The call raises exactly if the provider's answer does not validate and its repair raises.
    pub evaluate-err_iff :
        (x : Error)
        → (run_gate ≡ err x) ↔ (
            (raw : Fields) × (answered ≡ ok raw)
            × (pydantic.validate raw ≡ none)
            × (coerce ops raw ≡ err x))
    unfolding evaluate judge repair
    evaluate-err_iff x = (
      λ h. elim (Result-cases answered) [
        | inl (raw, a) ↦ (raw, a, ground arith, ground arith)
        | inr (e, a) ↦ absurd (ground arith)
      ],
      λ h. ground arith,
    )

    -- A verdict that is a list or an object is no RETRY: the call raises a TypeError.
    pub evaluate-unhashable :
        (raw : Fields)
        → answered ≡ ok raw
        → verdict_after (find "verdict" raw) ≡ none
        → run_gate ≡ err type_error
    evaluate-unhashable raw a h =
        (evaluate-err_iff type_error).1 (raw, a, unread raw h, (coerce-raises ops raw).0 h)
