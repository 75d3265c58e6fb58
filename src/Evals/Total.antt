-- ===== src/Evals/Total.antt =====
-- That what the gate returned can be counted by evals/gate_runner.py.
use cortex_tutor.Prelude.{
  ℕ, ◌≡◌, refl, subst, Bool, Option, none, some, List, [], ◌∷◌, All, arith, inl, inr, ◌⊎◌,
}
use cortex_tutor.Prelude.Result.{Result, ok, err, >>=-ok_inv, Result-cases}
use cortex_tutor.Prelude.Text.{Text}
use cortex_tutor.Json.{Fields, find, get, FloatOps}
use cortex_tutor.Domain.Steps.{Step}
use cortex_tutor.Domain.Verdict.{GateVerdict}
use cortex_tutor.Gate.Coerce.{coerce, coerce_verdict}
use cortex_tutor.Gate.Validate.{Validator}
use cortex_tutor.Gate.Evaluate.{
  GateOutcome, valid, GateProvider, GateEvaluation, Ambient, ChatMessage, evaluate, judge, repair,
}
use cortex_tutor.Evals.Schema.{Case}
use cortex_tutor.Evals.Shapes.{verdict_shape, shapes_of, failure_shapes}
use cortex_tutor.Evals.Runner.{Replay, Counts, count_replay, expected_of, tally, all_shapes}

abbrev pub Returns : {A : Type 0} → Result A → Type 0
Returns {A} r = (a : A) × (r ≡ ok a)

coerce_verdict-shape :
    (raw out : Fields)
    → coerce_verdict (get "verdict" raw) raw ≡ ok out
    → Returns (verdict_shape (find "verdict" raw))
unfolding verdict_shape coerce_verdict get
coerce_verdict-shape raw out h = elim (Result-cases (verdict_shape (find "verdict" raw))) [
  | inl found ↦ found
  | inr (e, f) ↦ absurd (ground arith)
]

coerce-shapes :
    (ops : FloatOps) (equals : ℕ → ℕ → Bool) (raw out : Fields)
    → coerce ops raw ≡ ok out
    → Returns (failure_shapes equals (some raw))
unfolding coerce failure_shapes shapes_of
coerce-shapes ops equals raw out h =
    let (judged, read, rest) = >>=-ok_inv (coerce_verdict (get "verdict" raw) raw) _ h in
    let (shapes, found) = coerce_verdict-shape raw judged read in
    elim (Result-cases (failure_shapes equals (some raw))) [
      | inl given ↦ given
      | inr (e, f) ↦ absurd (ground arith)
    ]

pub none_or_some : {A : Type 0} (o : Option A) → (o ≡ none) ⊎ ((v : A) × (o ≡ some v))
none_or_some none = inl refl
none_or_some (some v) = inr (v, refl)

judge-shapes :
    (ops : FloatOps) (pydantic : Validator) (answered : Result Fields) (v : GateVerdict)
    (outcome : GateOutcome) (raw : Option Fields) (equals : ℕ → ℕ → Bool)
    → judge ops pydantic answered ≡ ok (v, outcome, raw)
    → (outcome ≡ valid) ⊎ Returns (failure_shapes equals raw)
unfolding judge repair
judge-shapes ops pydantic (err e) v outcome raw equals h =
    let gone : none ≡ raw = ground arith in
    inr (subst (λ r. Returns (failure_shapes equals r)) gone (unfold failure_shapes in (_, refl)))
judge-shapes ops pydantic (ok p) v outcome raw equals h =
    elim (none_or_some (pydantic.validate p)) [
      | inr (w, t) ↦ inl (ground arith)
      | inl t ↦ elim (Result-cases (coerce ops p)) [
        | inr (e, c) ↦ absurd (ground arith)
        | inl (out, c) ↦
            let given : some p ≡ raw = ground arith in
            inr (
              subst (λ r. Returns (failure_shapes equals r)) given
                (coerce-shapes ops equals p out c))
      ]
    ]

-- An evaluation that the gate returned is valid, or its failure can be classified.
pub evaluate-shapes :
    (ops : FloatOps) (pydantic : Validator) (env : Ambient) (provider : GateProvider) (step : Step)
    (context : Text) (transcript : List ChatMessage) (answer : Text) (e : GateEvaluation)
    (equals : ℕ → ℕ → Bool)
    → evaluate ops pydantic env provider step context transcript answer ≡ ok e
    → (e.outcome ≡ valid) ⊎ Returns (failure_shapes equals e.raw)
unfolding evaluate
evaluate-shapes ops pydantic env provider step context transcript answer e equals h =
    let ((v, outcome, raw), made, rest) = >>=-ok_inv (judge ops pydantic _) _ h in
    let o : outcome ≡ e.outcome = ground arith in
    let r : raw ≡ e.raw = ground arith in
    subst (λ x. (e.outcome ≡ valid) ⊎ Returns (failure_shapes equals x)) r
      (subst (λ x. (x ≡ valid) ⊎ Returns (failure_shapes equals raw)) o
        (judge-shapes ops pydantic _ v outcome raw equals made))

-- A replay whose case is known and labelled, and whose failure, if there is one, has a shape.
pub record IsCountable (cases : List Case) (equals : ℕ → ℕ → Bool) (r : Replay) : Type 0 where
  pub expected : Returns (expected_of cases r.case_id)
  pub shape : (r.evaluation.outcome ≡ valid) ⊎ Returns (failure_shapes equals r.evaluation.raw)

pub tally-Returns :
    (cases : List Case) (equals : ℕ → ℕ → Bool) (rs : List Replay) (n : Counts)
    → All (IsCountable cases equals) rs
    → Returns (tally cases rs n)
unfolding tally
tally-Returns cases equals [] n all = (n, refl)
tally-Returns cases equals (r ∷ rs) n all =
    let (x, found) = all.0.expected in
    rw found (tally-Returns cases equals rs (count_replay x r.evaluation n) all.1)

pub all_shapes-Returns :
    (cases : List Case) (equals : ℕ → ℕ → Bool) (rs : List Replay)
    → All (IsCountable cases equals) rs
    → Returns (all_shapes equals rs)
unfolding all_shapes
all_shapes-Returns cases equals [] all = ([], refl)
all_shapes-Returns cases equals (r ∷ rs) all =
    let (more, given) = all_shapes-Returns cases equals rs all.1 in
    elim (Result-cases (all_shapes equals (r ∷ rs))) [
      | inl found ↦ found
      | inr (e, f) ↦ elim all.0.shape [
        | inl v ↦ absurd (ground arith)
        | inr (s, t) ↦ absurd (ground arith)
      ]
    ]
