-- ===== src/Tests/Evals.antt =====
-- A small labelled dataset: written and read, its probes, and its replays.
use cortex_tutor.Prelude.{
  ℕ, ◌+◌, ◌*◌, ◌≤◌, ◌≡◌, refl, ◌&&◌, none, some, List, [], ◌∷◌, any, all, filter, count, length,
  All, if◌then◌else◌, arith, ltb, ◌==◌,
}
use cortex_tutor.Prelude.Int.{ℤ, pos}
use cortex_tutor.Prelude.Result.{ok, err, value_error}
use cortex_tutor.Prelude.Text.{Text, codes, text_eq, is_blank, is_space}
use cortex_tutor.Domain.Steps.{plan, clarify, same_step}
use cortex_tutor.Domain.Verdict.{pass}
use cortex_tutor.Evals.Schema.{
  Expected, recorded, Case, CaseJson, is_line_break, allows, load_cases, dump_cases,
}
use cortex_tutor.Evals.RoundTrip.{load_cases-dump_cases}
use cortex_tutor.Evals.Probes.{probes_from}
use cortex_tutor.Evals.Crossed.{is_at, is_elsewhere, has_step, probes_from-count}
use cortex_tutor.Evals.Made.{IsProbe, probes_from-IsProbe}
use cortex_tutor.Domain.Verdict.{GateVerdict}
use cortex_tutor.Gate.Evaluate.{valid}
use cortex_tutor.Evals.Schema.{same_verdict}
use cortex_tutor.Evals.Runner.{
  Replay, Counts, tally, expected_of, find_case, count_replay, is_under, run_replays, replays_of,
  replay_case, check_labelled, is_labelled,
}
use cortex_tutor.Evals.Counted.{by_label, is_right, is_false_pass, is_false_retry, tally-counts}
use cortex_tutor.Evals.Metrics.{Floats, Metrics, compute_metrics}
use cortex_tutor.Evals.Complete.{compute_metrics-Returns}
use cortex_tutor.Tests.Gate.{program}
use cortex_tutor.Tests.Samples.{
  reference_validator, whole_floats, passing, answering, sample_ambient,
}

abbrev only_pass : Expected
only_pass = record { allowed_verdicts = pass ∷ []; min_score = some 80; rationale = codes "clear" }

abbrev at_plan : Case
at_plan = record {
  case_id = codes "a";
  kind = recorded;
  problem_id = codes "p";
  step = plan;
  transcript = [];
  answer = codes "two loops";
  code = none;
  language = none;
  run_result = none;
  problem_context = codes "context";
  expected = some only_pass;
  labeller = none;
  source = none;
}

abbrev at_clarify : Case
at_clarify = record at_plan { case_id = codes "b"; step = clarify; answer = codes "a pair" }

abbrev dataset : List Case
dataset = at_plan ∷ at_clarify ∷ []

-- JSON for the two cases of the dataset.
abbrev sample_json : CaseJson
sample_json = record {
  dumps = λ c. if same_step c.step plan then codes "{1}" else codes "{2}";
  validate = λ line.
      if text_eq line (codes "{1}")
      then ok at_plan
      else if text_eq line (codes "{2}")
      then ok at_clarify
      else err value_error;
}

load_cases-dump_cases_example : load_cases sample_json (dump_cases sample_json dataset) ≡ ok dataset
unfolding same_step text_eq is_line_break is_blank is_space any all
load_cases-dump_cases_example =
    load_cases-dump_cases sample_json dataset
      (
        record { reads_back = refl; not_blank = refl; one_line = (refl, (refl, (refl, tt))) },
        (record { reads_back = refl; not_blank = refl; one_line = (refl, (refl, (refl, tt))) }, tt),
      )
      ((λ h. ground arith, tt), (tt, tt))

probes_from-count_example : count (is_at (codes "two loops") clarify) (probes_from dataset) ≡ (
    if any (is_elsewhere (codes "two loops") clarify) dataset && any (has_step clarify) dataset
    then 1
    else 0)
probes_from-count_example = probes_from-count (codes "two loops") clarify dataset

probes_from-IsProbe_example : All (IsProbe dataset) (probes_from dataset)
probes_from-IsProbe_example = probes_from-IsProbe dataset

abbrev eighty : GateVerdict
eighty = record {
  verdict = pass;
  score = 80;
  rubric_hits = [];
  missing = [];
  hint = [];
  next_hint_level = 0;
}

abbrev passed : Text → Replay
passed id = record {
  case_id = id;
  evaluation = record {
    verdict = eighty;
    outcome = valid;
    raw = some passing;
    latency_ms = 7;
    provider_kind = "fake";
    model = "m";
    problem_context_hash = "abc";
  };
}

abbrev replays : List Replay
replays = passed (codes "a") ∷ passed (codes "b") ∷ []

abbrev two_right : Counts
two_right = record { ok_count = 2; fp = 0; fr = 0; underscored = 0; failsafe_denied_pass = 0 }

tally-counts_example :
    (2 ≡ count (by_label is_right dataset) replays)
    × (0 ≡ count (by_label is_false_pass dataset) replays)
    × (0 ≡ count (by_label is_false_retry dataset) replays)
    × (2 + 0 + 0 ≤ length replays)
unfolding tally expected_of find_case count_replay text_eq allows any same_verdict is_under
tally-counts_example = tally-counts dataset replays two_right refl

-- Floats as pairs of a numerator and a denominator.
abbrev fractions : Floats (ℕ × ℕ)
fractions = record {
  div = λ a b. (a, b);
  mean = λ xs. (length xs, 1);
  of_int = λ n. (n, 1);
  add = λ x y. (x.0 * y.1 + y.0 * x.1, x.1 * y.1);
  less = λ x y. ltb (x.0 * y.1) (y.0 * x.1);
}

abbrev whole_rank : ℕ → ℤ
whole_rank n = pos n

compute_metrics-Returns_example :
    (m : Metrics (ℕ × ℕ)) × (compute_metrics fractions ◌==◌ whole_rank whole_rank dataset replays 1
      ≡ ok m)
    × (m.n_total ≡ 2 * 1)
unfolding program run_replays replays_of replay_case check_labelled filter is_labelled
compute_metrics-Returns_example =
    compute_metrics-Returns fractions ◌==◌ whole_rank whole_rank whole_floats reference_validator
      (λ t. t) sample_ambient (λ c i. answering passing) dataset 1 replays refl (omega arith)
      (omega arith) refl
