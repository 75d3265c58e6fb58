-- ===== src/Evals/Rates.antt =====
-- That the rates, means and maxima of evals/gate_runner.py can be computed of a run that has replays.
use cortex_tutor.Prelude.{
  ℕ, zero, suc, ◌+◌, ◌*◌, ◌≤◌, ◌≡◌, refl, ap, count, length-map, Bool, none, List, [], ◌∷◌, map,
  filter, length, arith,
}
use cortex_tutor.Prelude.Int.{ℤ}
use cortex_tutor.Prelude.Result.{ok}
use cortex_tutor.Prelude.Text.{Text}
use cortex_tutor.Gate.Evaluate.{valid, coerced, failsafe_schema, failsafe_provider}
use cortex_tutor.Evals.Schema.{Case}
use cortex_tutor.Evals.Runner.{Replay, Counts}
use cortex_tutor.Evals.Stats.{
  pct, stats_of, group_replays, add_replay, Group, is_probe_replay, outcome_count,
}
use cortex_tutor.Evals.Metrics.{
  Floats, Metrics, metrics_of, divide, mean, modal_fracs, hallucination_rate, max_spread,
  false_pass_weight,
}
use cortex_tutor.Evals.Percentile.{pct-is_one_of}
use cortex_tutor.Evals.Total.{Returns}

pct-Returns : (rank : ℕ → ℤ) (xs : List ℕ) → Returns (pct rank xs)
pct-Returns rank [] = (0, unfold pct in refl)
pct-Returns rank (x ∷ xs) = let (m, found, held) = pct-is_one_of rank x xs in (m, found)

module _ {F : Type 0} (floats : Floats F) where
  divide-by_positive : (a b : ℕ) → 1 ≤ b → divide floats a b ≡ ok (floats.div a b)
  unfolding divide
  divide-by_positive a zero h = absurd (omega arith)
  divide-by_positive a (suc b) h = refl

  mean-Returns : (xs : List F) → 1 ≤ length xs → Returns (mean floats xs)
  unfolding mean
  mean-Returns [] h = absurd (omega arith)
  mean-Returns (x ∷ xs) h = (floats.mean (x ∷ xs), refl)

  hallucination_rate-Returns : (probes : List Replay) → Returns (hallucination_rate floats probes)
  unfolding hallucination_rate divide
  hallucination_rate-Returns [] = (none, refl)
  hallucination_rate-Returns (r ∷ rs) = (_, refl)

  -- One fraction for each case.
  modal_fracs-Returns :
      (gs : List Group)
      → (fs : List F) × (modal_fracs floats (map stats_of gs) ≡ ok fs) × (length fs ≡ length gs)
  unfolding modal_fracs divide stats_of
  modal_fracs-Returns [] = ([], refl, refl)
  modal_fracs-Returns (g ∷ gs) =
      let (fs, made, size) = modal_fracs-Returns gs in
      let one = floats.div (stats_of g).modal_count (length (stats_of g).verdicts) in
      (one ∷ fs, rw made refl, ap suc size)

max_spread-Returns : (ns : List ℕ) → 1 ≤ length ns → Returns (max_spread ns)
unfolding max_spread
max_spread-Returns [] h = absurd (omega arith)
max_spread-Returns (n ∷ ns) h = (_, refl)

add_replay-some : (r : Replay) (gs : List Group) → 1 ≤ length (add_replay r gs)
unfolding add_replay
add_replay-some r [] = omega arith
add_replay-some r (g ∷ gs) = ground arith

group_replays-some :
    (gs : List Group) (rs : List Replay)
    → 1 ≤ length gs + length rs
    → 1 ≤ length (group_replays gs rs)
unfolding group_replays
group_replays-some gs [] h = omega (arith, h)
group_replays-some gs (r ∷ rs) h =
    group_replays-some (add_replay r gs) rs (omega (arith, add_replay-some r gs))

pub metrics_of-Returns :
    {F : Type 0} (floats : Floats F) (equals : ℕ → ℕ → Bool) (rank50 rank95 : ℕ → ℤ)
    (cases : List Case) (rs : List Replay) (n : ℕ) (shapes : List Text) (c : Counts)
    → 1 ≤ length rs
    → (m : Metrics F) × (metrics_of floats equals rank50 rank95 cases rs n shapes c
          (map stats_of (group_replays [] rs))
        ≡ ok m)
      × (m.n_total ≡ length rs)
unfolding metrics_of
metrics_of-Returns {F = F} floats equals rank50 rank95 cases rs n shapes c some_replay =
    let gs = group_replays [] rs in
    let per_case = map stats_of gs in
    let some_case : 1 ≤ length gs = group_replays-some [] rs (omega arith) in
    let spreads = map (λ s. s.spread) per_case in
    let latencies = map (λ r. r.evaluation.latency_ms) rs in
    let by_total : (a : ℕ) → divide floats a (length rs) ≡ ok (floats.div a (length rs)) =
      λ a. divide-by_positive floats a (length rs) some_replay in
    let (fracs, made, size) = modal_fracs-Returns floats gs in
    let (rate, rated) = hallucination_rate-Returns floats (filter (is_probe_replay cases) rs) in
    let (agreement, agreed) = mean-Returns floats fracs (omega (arith, size)) in
    let (spread, spread_is) = mean-Returns floats (map floats.of_int spreads) (
      omega (
        arith,
        length-map floats.of_int spreads,
        length-map (λ s. s.spread) per_case,
        length-map stats_of gs,
      )) in
    let (widest, widest_is) =
      max_spread-Returns spreads
        (omega (arith, length-map (λ s. s.spread) per_case, length-map stats_of gs)) in
    let (p50, low) = pct-Returns rank50 latencies in
    let (p95, high) = pct-Returns rank95 latencies in
    let flips =
      divide-by_positive floats (count (λ s. s.flipped) per_case) (length per_case)
        (omega (arith, length-map stats_of gs)) in
    let rate_of : ℕ → F = λ a. floats.div a (length rs) in
    let m : Metrics F = record {
      n_cases = length cases;
      n_replays_per_case = n;
      n_total = length rs;
      valid_rate = rate_of (outcome_count valid rs);
      coerced_rate = rate_of (outcome_count coerced rs);
      failsafe_schema_rate = rate_of (outcome_count failsafe_schema rs);
      failsafe_provider_rate = rate_of (outcome_count failsafe_provider rs);
      failure_shapes = shapes;
      accuracy = rate_of c.ok_count;
      false_pass_rate = rate_of c.fp;
      false_retry_rate = rate_of c.fr;
      weighted_error = rate_of (false_pass_weight * c.fp + c.fr);
      underscored_pass = c.underscored;
      failsafe_denied_pass = c.failsafe_denied_pass;
      step_hallucination_rate = rate;
      flip_rate = floats.div (count (λ s. s.flipped) per_case) (length per_case);
      mean_modal_agreement = agreement;
      mean_score_spread = spread;
      max_score_spread = widest;
      p50 = p50;
      p95 = p95;
      per_case = per_case;
    } in
    (
      m,
      rw
          (
            made,
            by_total (outcome_count valid rs),
            by_total (outcome_count coerced rs),
            by_total (outcome_count failsafe_schema rs),
            by_total (outcome_count failsafe_provider rs),
            by_total c.ok_count,
            by_total c.fp,
            by_total c.fr,
            by_total (false_pass_weight * c.fp + c.fr),
            rated,
            flips,
            agreed,
            spread_is,
            widest_is,
            low,
            high,
          )
          refl,
      refl,
    )
