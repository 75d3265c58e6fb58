-- ===== src/Evals/Metrics.antt =====
-- evals/gate_runner.py: the metrics of a run and the comparison with a baseline. Floats are the
-- parameter `Floats`; the texts of the report and of the failures are not modelled.
use cortex_tutor.Prelude.{
  ℕ, zero, suc, ◌+◌, ◌*◌, String, Bool, Option, none, some, List, [], ◌∷◌, ◌++◌, map, filter,
  if◌then◌else◌, length, count,
}
use cortex_tutor.Prelude.Int.{ℤ}
use cortex_tutor.Prelude.Result.{zero_division_error, value_error, Result, ok, err, ◌>>=◌}
use cortex_tutor.Prelude.Text.{Text, is_empty}
use cortex_tutor.Domain.Verdict.{is_pass}
use cortex_tutor.Gate.Evaluate.{valid, coerced, failsafe_schema, failsafe_provider}
use cortex_tutor.Evals.Schema.{Case}
use cortex_tutor.Evals.Runner.{Replay, Counts, no_counts, tally, all_shapes}
use cortex_tutor.Evals.Stats.{
  pct, group_replays, verdict_of, max_of, CaseStats, stats_of, same_outcome, outcome_count,
  is_probe_replay,
}

-- Arithmetic on floats: `a / b` of whole numbers with `b` not 0, `mean` of a list that is not empty
-- (`divide` and `mean` below say what the others raise), `float(n)`, `+` and `<`.
pub record Floats (F : Type 0) : Type 0 where
  pub div : ℕ → ℕ → F
  pub mean : List F → F
  pub of_int : ℕ → F
  pub add : F → F → F
  pub less : F → F → Bool

abbrev pub false_pass_weight : ℕ
false_pass_weight = 5

-- The rates of a run, its counts, and its cases; the histograms as the lists that they count.
pub record Metrics (F : Type 0) : Type 0 where
  pub n_cases : ℕ
  pub n_replays_per_case : ℕ
  pub n_total : ℕ
  pub valid_rate : F
  pub coerced_rate : F
  pub failsafe_schema_rate : F
  pub failsafe_provider_rate : F
  pub failure_shapes : List Text
  pub accuracy : F
  pub false_pass_rate : F
  pub false_retry_rate : F
  pub weighted_error : F
  pub underscored_pass : ℕ
  pub failsafe_denied_pass : ℕ
  pub step_hallucination_rate : Option F
  pub flip_rate : F
  pub mean_modal_agreement : F
  pub mean_score_spread : F
  pub max_score_spread : ℕ
  pub p50 : ℕ
  pub p95 : ℕ
  pub per_case : List CaseStats

-- The largest spread, of at least one case.
unfoldable pub max_spread : List ℕ → Result ℕ
unfolding max_of
max_spread [] = err value_error
max_spread (n ∷ ns) = ok (max_of n ns)

module _ {F : Type 0} (ops : Floats F) where
  -- `a / b`
  unfoldable pub divide : ℕ → ℕ → Result F
  divide a zero = err zero_division_error
  divide a (suc b) = ok (ops.div a (suc b))

  -- `statistics.mean`, whose StatisticsError is a ValueError
  unfoldable pub mean : List F → Result F
  mean [] = err value_error
  mean (x ∷ xs) = ok (ops.mean (x ∷ xs))

  -- `modal_fracs`
  unfoldable pub modal_fracs : List CaseStats → Result (List F)
  unfolding divide
  modal_fracs [] = ok []
  modal_fracs (s ∷ ss) = do
    frac ← divide s.modal_count (length s.verdicts)
    more ← modal_fracs ss
    ok (frac ∷ more)

  unfoldable pub hallucination_rate : List Replay → Result (Option F)
  unfolding divide is_pass
  hallucination_rate probes = if is_empty probes then ok none else do
    rate ← divide (count (λ r. is_pass (verdict_of r)) probes) (length probes)
    ok (some rate)

module _ {F : Type 0} (ops : Floats F) (equals : ℕ → ℕ → Bool) (rank50 rank95 : ℕ → ℤ) where
  -- The returned dictionary, once the loops are through.
  unfoldable pub metrics_of :
      List Case → List Replay → ℕ → List Text → Counts → List CaseStats → Result (Metrics F)
  unfolding is_probe_replay same_outcome
  metrics_of cases replays n shapes c per_case = do
    let total = length replays
    let spreads = map (λ s. s.spread) per_case
    let latencies = map (λ r. r.evaluation.latency_ms) replays
    fracs ← modal_fracs ops per_case
    valid_rate ← divide ops (outcome_count valid replays) total
    coerced_rate ← divide ops (outcome_count coerced replays) total
    failsafe_schema_rate ← divide ops (outcome_count failsafe_schema replays) total
    failsafe_provider_rate ← divide ops (outcome_count failsafe_provider replays) total
    accuracy ← divide ops c.ok_count total
    false_pass_rate ← divide ops c.fp total
    false_retry_rate ← divide ops c.fr total
    weighted_error ← divide ops (false_pass_weight * c.fp + c.fr) total
    step_hallucination_rate ← hallucination_rate ops (filter (is_probe_replay cases) replays)
    flip_rate ← divide ops (count (λ s. s.flipped) per_case) (length per_case)
    mean_modal_agreement ← mean ops fracs
    mean_score_spread ← mean ops (map ops.of_int spreads)
    max_score_spread ← max_spread spreads
    p50 ← pct rank50 latencies
    p95 ← pct rank95 latencies
    ok (record {
      n_cases = length cases;
      n_replays_per_case = n;
      n_total = total;
      valid_rate = valid_rate;
      coerced_rate = coerced_rate;
      failsafe_schema_rate = failsafe_schema_rate;
      failsafe_provider_rate = failsafe_provider_rate;
      failure_shapes = shapes;
      accuracy = accuracy;
      false_pass_rate = false_pass_rate;
      false_retry_rate = false_retry_rate;
      weighted_error = weighted_error;
      underscored_pass = c.underscored;
      failsafe_denied_pass = c.failsafe_denied_pass;
      step_hallucination_rate = step_hallucination_rate;
      flip_rate = flip_rate;
      mean_modal_agreement = mean_modal_agreement;
      mean_score_spread = mean_score_spread;
      max_score_spread = max_score_spread;
      p50 = p50;
      p95 = p95;
      per_case = per_case;
    })

  unfoldable pub compute_metrics : List Case → List Replay → ℕ → Result (Metrics F)
  unfolding all_shapes tally group_replays stats_of metrics_of
  compute_metrics cases replays n = do
    shapes ← all_shapes equals replays
    c ← tally cases replays no_counts
    metrics_of cases replays n shapes c (map stats_of (group_replays [] replays))

-- `BASELINE_MARGINS`, and the thresholds that are frozen
pub record Thresholds (F : Type 0) : Type 0 where
  pub false_pass_rate : F
  pub flip_rate : F
  pub schema_valid_rate : F

module _ {F : Type 0} (ops : Floats F) where
  unfoldable pub freeze : Thresholds F → Metrics F → Thresholds F
  freeze margins m = record {
    false_pass_rate = ops.add m.false_pass_rate margins.false_pass_rate;
    flip_rate = ops.add m.flip_rate margins.flip_rate;
    schema_valid_rate = ops.add m.valid_rate margins.schema_valid_rate;
  }

  -- The metrics that regressed.
  unfoldable pub compare_baseline : Metrics F → Thresholds F → List String
  compare_baseline m t =
      (if ops.less t.false_pass_rate m.false_pass_rate then "false_pass_rate" ∷ [] else [])
      ++ ((if ops.less t.flip_rate m.flip_rate then "flip_rate" ∷ [] else [])
          ++ (if ops.less m.valid_rate t.schema_valid_rate then "schema_valid_rate" ∷ [] else []))
