-- ===== src/Gate/Evaluate.antt =====
-- `evaluate` of tutor/orchestration/gate.py: the call of the gate provider, the validation of its
-- output, one repair, and the fail-safe RETRY. The provider, the validator, the prompts, the hash
-- and the clock's reading are parameters.
use cortex_tutor.Prelude.{ℕ, String, Option, none, some, List, [], ◌∷◌, ◌++◌}
use cortex_tutor.Prelude.Text.{Text, codes}
use cortex_tutor.Prelude.Result.{Result, ok, err, ◌>>=◌}
use cortex_tutor.Json.{Fields, FloatOps}
use cortex_tutor.Domain.Steps.{
  Track, Step, clarify, examples, approach, plan, implement, test, explain, apply, analyze, defend,
  track_of,
}
use cortex_tutor.Domain.Verdict.{GateVerdict, default_hint, retry_failsafe}
use cortex_tutor.Gate.Coerce.{coerce}
use cortex_tutor.Gate.Validate.{Validator}

pub data Role : Type 0 where
  user assistant : Role

pub record ChatMessage : Type 0 where
  pub role : Role
  pub content : Text

-- The rubric files, as tutor/skills/loader.py reads them.
pub record Rubric : Type 0 where
  pub coach_prompt : Track → Text
  pub gate_prompt : Track → Text
  pub step_guide : Step → Text

-- A gate provider: what it answers to a system prompt and messages, or that it raised.
pub record GateProvider : Type 0 where
  pub gate : Text → List ChatMessage → Result Fields
  pub kind : String
  pub model_id : String

pub data GateOutcome : Type 0 where
  valid coerced failsafe_schema failsafe_provider : GateOutcome

pub record GateEvaluation : Type 0 where
  pub verdict : GateVerdict
  pub outcome : GateOutcome
  pub raw : Option Fields
  pub latency_ms : ℕ
  pub provider_kind : String
  pub model : String
  pub problem_context_hash : String

-- `step.value`
unfoldable pub step_value : Step → Text
step_value clarify = codes "clarify"
step_value examples = codes "examples"
step_value approach = codes "approach"
step_value plan = codes "plan"
step_value implement = codes "implement"
step_value test = codes "test"
step_value explain = codes "explain"
step_value apply = codes "apply"
step_value analyze = codes "analyze"
step_value defend = codes "defend"

-- The prompt of a step below its track's own prompt.
unfoldable pub step_prompt : Rubric → Text → Step → Text → Text
step_prompt rubric prompt step problem_context =
    prompt
    ++ (codes "\n\n---\n\n## Current step: "
        ++ (step_value step
            ++ (codes "\n\n"
                ++ (rubric.step_guide step
                    ++ (codes "\n\n---\n\n## Problem context\n\n" ++ problem_context)))))

unfoldable pub build_gate_system : Rubric → Step → Text → Text
unfolding step_prompt
build_gate_system rubric step problem_context =
    step_prompt rubric (rubric.gate_prompt (track_of step)) step problem_context

-- What is read from outside during one call: the prompts, the elapsed time and the hash.
pub record Ambient : Type 0 where
  pub rubric : Rubric
  pub elapsed_ms : ℕ
  pub sha12 : Text → String

module _ (ops : FloatOps) (pydantic : Validator) where
  -- The repair: coerce, validate again, and fall back to RETRY.
  unfoldable pub repair : Fields → Result (GateVerdict × GateOutcome)
  repair raw = do
    out ← coerce ops raw
    elim (pydantic.validate out) [
      | some v ↦ ok (v, coerced)
      | none ↦ ok (retry_failsafe default_hint, failsafe_schema)
    ]

  unfoldable pub judge : Result Fields → Result (GateVerdict × GateOutcome × Option Fields)
  judge (err e) =
      ok (retry_failsafe (codes "Let's take another pass at that."), failsafe_provider, none)
  judge (ok raw) = elim (pydantic.validate raw) [
    | some v ↦ ok (v, valid, some raw)
    | none ↦ repair raw >>= λ (v, outcome). ok (v, outcome, some raw)
  ]

  unfoldable pub evaluate :
      Ambient → GateProvider → Step → Text → List ChatMessage → Text → Result GateEvaluation
  evaluate env provider step problem_context transcript answer = do
    let system = build_gate_system env.rubric step problem_context
    let messages = transcript ++ record { role = user; content = answer } ∷ []
    (verdict, outcome, raw) ← judge (provider.gate system messages)
    ok (record {
      verdict = verdict;
      outcome = outcome;
      raw = raw;
      latency_ms = env.elapsed_ms;
      provider_kind = provider.kind;
      model = provider.model_id;
      problem_context_hash = env.sha12 problem_context;
    })
