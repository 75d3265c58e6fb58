-- ===== src/Evals/Runner.antt =====
-- evals/gate_runner.py: replays of labelled cases through the gate, and the counts of what came out.
-- The provider may answer differently each time: `providers` gives one for each replay of a case.
use cortex_tutor.Prelude.{
  ℕ, zero, suc, Bool, true, false, ◌&&◌, not, Option, none, some, List, [], ◌∷◌, ◌++◌, ltb, ◌==◌,
  filter, if◌then◌else◌,
}
use cortex_tutor.Prelude.Result.{system_exit, key_error, assertion_error, Result, ok, err, ◌>>=◌}
use cortex_tutor.Prelude.Text.{Text, is_empty, text_eq}
use cortex_tutor.Json.{FloatOps}
use cortex_tutor.Domain.Verdict.{is_pass}
use cortex_tutor.Gate.Answer.{compose_answer}
use cortex_tutor.Gate.Evaluate.{
  GateOutcome, valid, failsafe_schema, failsafe_provider, GateProvider, GateEvaluation, Ambient,
  evaluate,
}
use cortex_tutor.Gate.Validate.{Validator}
use cortex_tutor.Evals.Schema.{Expected, allows, Case}
use cortex_tutor.Evals.Probes.{is_only_pass}
use cortex_tutor.Evals.Shapes.{failure_shapes}

pub record Replay : Type 0 where
  pub case_id : Text
  pub evaluation : GateEvaluation

unfoldable pub is_labelled : Case → Bool
is_labelled c = elim c.expected [ none ↦ false | some e ↦ true ]

-- `main`'s refusal of unlabelled cases
unfoldable pub check_labelled : List Case → Result (Unit {0})
unfolding is_labelled
check_labelled cases =
    if is_empty (filter (λ c. not (is_labelled c)) cases) then ok tt else err system_exit

module _ (ops : FloatOps) (pydantic : Validator) (lower : Text → Text) (env : Ambient)
    (providers : Case → ℕ → GateProvider) where
  unfoldable pub replay_case : Case → ℕ → Result Replay
  replay_case c i = do
    e ←
        evaluate ops pydantic env (providers c i) c.step c.problem_context c.transcript
          (compose_answer lower c.answer c.step c.code c.language c.run_result)
    ok (record { case_id = c.case_id; evaluation = e })

  -- `for _ in range(n)`, counted down
  unfoldable pub replays_of : Case → ℕ → Result (List Replay)
  unfolding replay_case
  replays_of c zero = ok []
  replays_of c (suc n) = do r ← replay_case c n; rest ← replays_of c n; ok (r ∷ rest)

  -- What `asyncio.gather` collects: in the order of the cases, whatever finishes first.
  unfoldable pub run_replays : List Case → ℕ → Result (List Replay)
  unfolding replays_of
  run_replays [] n = ok []
  run_replays (c ∷ cs) n = do rs ← replays_of c n; rest ← run_replays cs n; ok (rs ++ rest)

-- `case_by_id[case_id]`: of several cases with one identifier the last one
unfoldable pub find_case : Text → List Case → Option Case
find_case case_id [] = none
find_case case_id (c ∷ cs) = elim (find_case case_id cs) [
  | some d ↦ some d
  | none ↦ if text_eq c.case_id case_id then some c else none
]

pub record Counts : Type 0 where
  pub ok_count : ℕ
  pub fp : ℕ
  pub fr : ℕ
  pub underscored : ℕ
  pub failsafe_denied_pass : ℕ

abbrev pub no_counts : Counts
no_counts = record { ok_count = 0; fp = 0; fr = 0; underscored = 0; failsafe_denied_pass = 0 }

unfoldable pub is_failsafe : GateOutcome → Bool
is_failsafe failsafe_schema = true
is_failsafe failsafe_provider = true
is_failsafe _ = false

-- `c.expected.min_score and score < c.expected.min_score`; a minimum of 0 is falsy.
unfoldable pub is_under : Option ℕ → ℕ → Bool
is_under none score = false
is_under (some least) score = not (least == 0) && ltb score least

-- One replay, by its case's expectation.
unfoldable pub count_replay : Expected → GateEvaluation → Counts → Counts
unfolding is_pass allows is_only_pass is_failsafe is_under
count_replay x e n =
    let v = e.verdict.verdict in
    if allows x v
    then record n {
      ok_count = suc n.ok_count;
      underscored =
          if is_pass v && is_under x.min_score e.verdict.score
          then suc n.underscored
          else n.underscored;
    }
    else if is_pass v
    then record n { fp = suc n.fp }
    else if is_only_pass x.allowed_verdicts
    then record n {
      fr = suc n.fr;
      failsafe_denied_pass =
          if is_failsafe e.outcome then suc n.failsafe_denied_pass else n.failsafe_denied_pass;
    }
    else n

unfoldable pub expected_of : List Case → Text → Result Expected
unfolding find_case
expected_of cases case_id = elim (find_case case_id cases) [
  | none ↦ err key_error
  | some c ↦ elim c.expected [ none ↦ err assertion_error | some x ↦ ok x ]
]

unfoldable pub tally : List Case → List Replay → Counts → Result Counts
unfolding expected_of count_replay
tally cases [] n = ok n
tally cases (r ∷ rs) n = do
  x ← expected_of cases r.case_id
  tally cases rs (count_replay x r.evaluation n)

-- The histogram's entries, replay by replay.
unfoldable pub all_shapes : (ℕ → ℕ → Bool) → List Replay → Result (List Text)
unfolding failure_shapes
all_shapes equals [] = ok []
all_shapes equals (r ∷ rs) = elim r.evaluation.outcome [
  | valid ↦ all_shapes equals rs
  | other ↦ do
    found ← failure_shapes equals r.evaluation.raw
    rest ← all_shapes equals rs
    ok (found ++ rest)
]
