-- ===== src/Evals/Counted.antt =====
-- What the loop of evals/gate_runner.py counts.
use cortex_tutor.Prelude.{
  ◌+◌, ◌≤◌, ◌≡◌, Bool, true, false, ◌&&◌, not, List, [], ◌∷◌, length, count, arith,
}
use cortex_tutor.Prelude.Result.{ok, err, >>=-ok_inv}
use cortex_tutor.Domain.Verdict.{is_pass}
use cortex_tutor.Evals.Schema.{Expected, allows, Case}
use cortex_tutor.Evals.Probes.{is_only_pass}
use cortex_tutor.Evals.Runner.{Replay, Counts, no_counts, count_replay, expected_of, tally}
use cortex_tutor.Evals.Stats.{verdict_of}

-- A test of a replay's verdict by its case's expectation.
abbrev pub by_label : (Expected → Replay → Bool) → List Case → Replay → Bool
by_label test cases r = elim (expected_of cases r.case_id) [ err e ↦ false | ok x ↦ test x r ]

abbrev pub is_right : Expected → Replay → Bool
is_right x r = allows x (verdict_of r)

abbrev pub is_false_pass : Expected → Replay → Bool
is_false_pass x r = not (allows x (verdict_of r)) && is_pass (verdict_of r)

abbrev pub is_false_retry : Expected → Replay → Bool
is_false_retry x r =
    not (allows x (verdict_of r))
    && (not (is_pass (verdict_of r)) && is_only_pass x.allowed_verdicts)

tally-from :
    (cases : List Case) (rs : List Replay) (n c : Counts)
    → tally cases rs n ≡ ok c
    → (c.ok_count ≡ n.ok_count + count (by_label is_right cases) rs)
      × (c.fp ≡ n.fp + count (by_label is_false_pass cases) rs)
      × (c.fr ≡ n.fr + count (by_label is_false_retry cases) rs)
unfolding tally count count_replay
tally-from cases [] n c h = ground arith
tally-from cases (r ∷ rs) n c h =
    let (x, found, rest) = >>=-ok_inv (expected_of cases r.case_id) _ h in
    ground (arith, found, tally-from cases rs (count_replay x r.evaluation n) c rest)

disjoint_counts :
    (p q r : Replay → Bool) (xs : List Replay)
    → ((x : Replay) → p x ≡ true → q x ≡ false)
    → ((x : Replay) → p x ≡ true → r x ≡ false)
    → ((x : Replay) → q x ≡ true → r x ≡ false)
    → count p xs + count q xs + count r xs ≤ length xs
unfolding count
disjoint_counts p q r [] pq pr qr = omega arith
disjoint_counts p q r (x ∷ xs) pq pr qr =
    ground (arith, disjoint_counts p q r xs pq pr qr, pq x, pr x, qr x)

-- When the loop gets through, its counts are those of the replays whose verdict the label allows, of
-- the passes that it does not allow, and of the other verdicts where it allows a pass alone; no
-- replay counts twice.
pub tally-counts :
    (cases : List Case) (rs : List Replay) (c : Counts)
    → tally cases rs no_counts ≡ ok c
    → (c.ok_count ≡ count (by_label is_right cases) rs)
      × (c.fp ≡ count (by_label is_false_pass cases) rs)
      × (c.fr ≡ count (by_label is_false_retry cases) rs)
      × (c.ok_count + c.fp + c.fr ≤ length rs)
tally-counts cases rs c h =
    let (right, passes, retries) = tally-from cases rs no_counts c h in
    let apart =
      disjoint_counts (by_label is_right cases) (by_label is_false_pass cases)
        (by_label is_false_retry cases) rs (λ x t. ground arith) (λ x t. ground arith)
        (λ x t. ground arith) in
    (
      omega (arith, right),
      omega (arith, passes),
      omega (arith, retries),
      omega (arith, right, passes, retries, apart),
    )
