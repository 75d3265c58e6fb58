-- ===== src/Evals/Stats.antt =====
-- evals/gate_runner.py: the percentiles of a run's latencies, its replays by case, and the statistics
-- of a case.
use cortex_tutor.Prelude.{
  ℕ, ◌-◌, min, max, Bool, true, false, ◌&&◌, not, none, some, List, [], ◌∷◌, ◌++◌, map, ltb, leb,
  any, if◌then◌else◌, length, get_elem?, count,
}
use cortex_tutor.Prelude.Int.{ℤ, clamp}
use cortex_tutor.Prelude.Result.{index_error, Result, ok, err}
use cortex_tutor.Prelude.Text.{Text, text_eq}
use cortex_tutor.Domain.Verdict.{Verdict, is_pass}
use cortex_tutor.Gate.Evaluate.{GateOutcome, valid, coerced, failsafe_schema, failsafe_provider}
use cortex_tutor.Evals.Schema.{Kind, cross_step_probe, Case, same_verdict}
use cortex_tutor.Evals.Runner.{Replay, find_case}

unfoldable pub insert_asc : ℕ → List ℕ → List ℕ
insert_asc x [] = x ∷ []
insert_asc x (y ∷ ys) = let more = insert_asc x ys in if leb x y then x ∷ y ∷ ys else y ∷ more

unfoldable pub sorted : List ℕ → List ℕ
unfolding insert_asc
sorted [] = []
sorted (x ∷ xs) = insert_asc x (sorted xs)

-- `_pct`; `rank n` is `round(p * n)`.
unfoldable pub pct : (ℕ → ℤ) → List ℕ → Result ℕ
unfolding sorted clamp
pct rank [] = ok 0
pct rank (x ∷ xs) =
    let last = length xs in
    elim (get_elem? (sorted (x ∷ xs)) (clamp last (rank last))) [
      | none ↦ err index_error
      | some m ↦ ok m
    ]

-- An entry of `by_case`: a list that holds at least the replay that it was made for.
pub record Group : Type 0 where
  pub case_id : Text
  pub head : Replay
  pub rest : List Replay

-- `by_case.setdefault(r.case_id, []).append(r)`
unfoldable pub add_replay : Replay → List Group → List Group
add_replay r [] = record { case_id = r.case_id; head = r; rest = [] } ∷ []
add_replay r (g ∷ gs) =
    let more = add_replay r gs in
    if text_eq g.case_id r.case_id then record g { rest = g.rest ++ r ∷ [] } ∷ gs else g ∷ more

unfoldable pub group_replays : List Group → List Replay → List Group
unfolding add_replay
group_replays gs [] = gs
group_replays gs (r ∷ rs) = group_replays (add_replay r gs) rs

abbrev pub verdict_of : Replay → Verdict
verdict_of r = r.evaluation.verdict.verdict

abbrev pub score_of : Replay → ℕ
score_of r = r.evaluation.verdict.score

-- `Counter(verdicts).most_common(1)`: the first of those that occur most often
unfoldable pub most_common : List Verdict → Verdict → List Verdict → Verdict
unfolding same_verdict
most_common all_of best [] = best
most_common all_of best (v ∷ vs) =
    most_common all_of
      (if ltb (count (same_verdict best) all_of) (count (same_verdict v) all_of) then v else best)
      vs

unfoldable pub max_of : ℕ → List ℕ → ℕ
max_of m [] = m
max_of m (n ∷ ns) = max_of (max m n) ns

unfoldable pub least_of : ℕ → List ℕ → ℕ
least_of m [] = m
least_of m (n ∷ ns) = least_of (min m n) ns

pub record CaseStats : Type 0 where
  pub case_id : Text
  pub verdicts : List Verdict
  pub scores : List ℕ
  pub outcomes : List GateOutcome
  pub modal_verdict : Verdict
  pub modal_count : ℕ
  pub spread : ℕ
  pub flipped : Bool

unfoldable pub stats_of : Group → CaseStats
unfolding most_common max_of least_of is_pass same_verdict
stats_of g =
    let rs = g.head ∷ g.rest in
    let verdicts = map verdict_of rs in
    let scores = map score_of g.rest in
    let modal = most_common verdicts (verdict_of g.head) (map verdict_of g.rest) in
    record {
      case_id = g.case_id;
      verdicts = verdicts;
      scores = map score_of rs;
      outcomes = map (λ r. r.evaluation.outcome) rs;
      modal_verdict = modal;
      modal_count = count (same_verdict modal) verdicts;
      spread = max_of (score_of g.head) scores - least_of (score_of g.head) scores;
      flipped = any is_pass verdicts && any (λ v. not (is_pass v)) verdicts;
    }

unfoldable pub same_outcome : GateOutcome → GateOutcome → Bool
same_outcome valid valid = true
same_outcome coerced coerced = true
same_outcome failsafe_schema failsafe_schema = true
same_outcome failsafe_provider failsafe_provider = true
same_outcome _ _ = false

abbrev pub outcome_count : GateOutcome → List Replay → ℕ
outcome_count o rs = count (λ r. same_outcome o r.evaluation.outcome) rs

unfoldable pub is_probe_kind : Kind → Bool
is_probe_kind cross_step_probe = true
is_probe_kind _ = false

unfoldable pub is_probe_replay : List Case → Replay → Bool
unfolding is_probe_kind find_case
is_probe_replay cases r = elim (find_case r.case_id cases) [
  | none ↦ false
  | some c ↦ is_probe_kind c.kind
]
