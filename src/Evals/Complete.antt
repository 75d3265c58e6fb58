-- ===== src/Evals/Complete.antt =====
-- That a run of evals/gate_runner.py on labelled cases comes to metrics.
use cortex_tutor.Prelude.{
  ℕ, zero, suc, ◌+◌, ◌*◌, ◌≤◌, ◌≡◌, refl, sym, ap, ◌∙◌, subst, Bool, true, false, none, some, List,
  [], ◌∷◌, ◌++◌, any, filter, All, length, length-append, arith, inl, inr,
}
use cortex_tutor.Prelude.Int.{ℤ}
use cortex_tutor.Prelude.Result.{ok, >>=-ok_inv, Result-cases}
use cortex_tutor.Prelude.Text.{Text, is_empty, text_eq, text_eq_iff}
use cortex_tutor.Json.{FloatOps}
use cortex_tutor.Prelude.Rows.{All-mono, All-append}
use cortex_tutor.Gate.Validate.{Validator}
use cortex_tutor.Gate.Evaluate.{GateProvider, Ambient, evaluate}
use cortex_tutor.Evals.Schema.{Case}
use cortex_tutor.Evals.Runner.{
  Replay, is_labelled, check_labelled, replay_case, replays_of, run_replays, find_case, no_counts,
  expected_of,
}
use cortex_tutor.Evals.Metrics.{Floats, Metrics, compute_metrics}
use cortex_tutor.Evals.Total.{
  Returns, none_or_some, evaluate-shapes, IsCountable, tally-Returns, all_shapes-Returns,
}
use cortex_tutor.Evals.Rates.{metrics_of-Returns}

abbrev IsKnown : List Case → Text → Type 0
IsKnown cases id = any (λ d. text_eq d.case_id id) cases ≡ true

abbrev IsLabelled : List Case → Type 0
IsLabelled cases = All (λ c. is_labelled c ≡ true) cases

IsKnown-cases : (cs : List Case) → All (λ c. IsKnown cs c.case_id) cs
unfolding any
IsKnown-cases [] = tt
IsKnown-cases (c ∷ cs) = (
  ground (arith, text_eq_iff c.case_id c.case_id),
  All-mono (λ d. IsKnown cs d.case_id) (λ d. IsKnown (c ∷ cs) d.case_id) cs (λ d h. ground arith)
      (IsKnown-cases cs),
)

check_labelled-IsLabelled : (cases : List Case) → check_labelled cases ≡ ok tt → IsLabelled cases
unfolding check_labelled filter
check_labelled-IsLabelled [] h = tt
check_labelled-IsLabelled (c ∷ cs) h = (ground arith, check_labelled-IsLabelled cs (ground arith))

find_case-labelled :
    (cases : List Case) (id : Text) (c : Case)
    → IsLabelled cases
    → find_case id cases ≡ some c
    → is_labelled c ≡ true
unfolding find_case
find_case-labelled [] id c labelled h = absurd (ground arith)
find_case-labelled (d ∷ cs) id c labelled h = elim (none_or_some (find_case id cs)) [
  | inr (e, t) ↦
      let same : e ≡ c = ground arith in
      subst (λ x. is_labelled x ≡ true) same (find_case-labelled cs id e labelled.1 t)
  | inl t ↦ let same : d ≡ c = ground arith in subst (λ x. is_labelled x ≡ true) same labelled.0
]

find_case-none :
    (cases : List Case) (id : Text)
    → find_case id cases ≡ none
    → any (λ d. text_eq d.case_id id) cases ≡ false
unfolding find_case any
find_case-none [] id h = refl
find_case-none (c ∷ cs) id h = ground (arith, find_case-none cs id)

find_case-known :
    (cases : List Case) (id : Text)
    → IsLabelled cases
    → IsKnown cases id
    → (c : Case) × (find_case id cases ≡ some c) × (is_labelled c ≡ true)
find_case-known cases id labelled known = elim (none_or_some (find_case id cases)) [
  | inl t ↦ absurd (ground (arith, find_case-none cases id t))
  | inr (c, t) ↦ (c, t, find_case-labelled cases id c labelled t)
]

expected_of-known :
    (cases : List Case) (id : Text)
    → IsLabelled cases
    → IsKnown cases id
    → Returns (expected_of cases id)
unfolding expected_of is_labelled
expected_of-known cases id labelled known =
    let (c, found, has_label) = find_case-known cases id labelled known in
    elim (Result-cases (expected_of cases id)) [
      | inl given ↦ given
      | inr (e, f) ↦ absurd (ground arith)
    ]

suc-mul : (k n : ℕ) → suc k * n ≡ n + k * n
suc-mul k n = grind arith

zero-mul : (n : ℕ) → 0 * n ≡ 0
zero-mul n = omega arith

mul-pos : (k n : ℕ) → 1 ≤ k → 1 ≤ n → 1 ≤ k * n
mul-pos zero n h t = absurd (omega arith)
mul-pos (suc k) n h t = omega (arith, suc-mul k n)

full_list : {A : Type 0} (xs : List A) → 1 ≤ length xs → is_empty xs ≡ false
full_list [] h = absurd (omega arith)
full_list (x ∷ xs) h = refl

module _ (ops : FloatOps) (pydantic : Validator) (lower : Text → Text) (env : Ambient)
    (providers : Case → ℕ → GateProvider) (cases : List Case) (equals : ℕ → ℕ → Bool)
    (labelled : IsLabelled cases) where
  replay_case-IsCountable :
      (c : Case) (i : ℕ) (r : Replay)
      → IsKnown cases c.case_id
      → replay_case ops pydantic lower env providers c i ≡ ok r
      → IsCountable cases equals r
  unfolding replay_case
  replay_case-IsCountable c i r known h =
      let (e, made, rest) =
        >>=-ok_inv (evaluate ops pydantic env (providers c i) c.step _ _ _) _ h in
      let same : record { case_id = c.case_id; evaluation = e } ≡ r = ground (arith, rest) in
      subst (IsCountable cases equals) same (record {
        expected = expected_of-known cases c.case_id labelled known;
        shape = evaluate-shapes ops pydantic env (providers c i) c.step _ _ _ e equals made;
      })

  replays_of-IsCountable :
      (c : Case) (n : ℕ) (rs : List Replay)
      → IsKnown cases c.case_id
      → replays_of ops pydantic lower env providers c n ≡ ok rs
      → All (IsCountable cases equals) rs × (length rs ≡ n)
  unfolding replays_of
  replays_of-IsCountable c zero rs known h =
      let same : [] ≡ rs = ground arith in
      subst (λ x. All (IsCountable cases equals) x × (length x ≡ 0)) same (tt, refl)
  replays_of-IsCountable c (suc n) rs known h =
      let (r, one, more) = >>=-ok_inv (replay_case ops pydantic lower env providers c n) _ h in
      let (rest, others, last) =
        >>=-ok_inv (replays_of ops pydantic lower env providers c n) _ more in
      let same : r ∷ rest ≡ rs = ground (arith, last) in
      let (fine, size) = replays_of-IsCountable c n rest known others in
      subst (λ x. All (IsCountable cases equals) x × (length x ≡ suc n)) same
        ((replay_case-IsCountable c n r known one, fine), ap suc size)

  run_replays-IsCountable :
      (cs : List Case) (n : ℕ) (rs : List Replay)
      → All (λ c. IsKnown cases c.case_id) cs
      → run_replays ops pydantic lower env providers cs n ≡ ok rs
      → All (IsCountable cases equals) rs × (length rs ≡ length cs * n)
  unfolding run_replays
  run_replays-IsCountable [] n rs known h =
      let same : [] ≡ rs = ground arith in
      subst (λ x. All (IsCountable cases equals) x × (length x ≡ 0 * n)) same (tt, sym (zero-mul n))
  run_replays-IsCountable (c ∷ cs) n rs known h =
      let (rs0, first_runs, more) =
        >>=-ok_inv (replays_of ops pydantic lower env providers c n) _ h in
      let (rest, others, last) =
        >>=-ok_inv (run_replays ops pydantic lower env providers cs n) _ more in
      let same : rs0 ++ rest ≡ rs = ground (arith, last) in
      let (fine, size) = replays_of-IsCountable c n rs0 known.0 first_runs in
      let (fine', size') = run_replays-IsCountable cs n rest known.1 others in
      subst (λ x. All (IsCountable cases equals) x × (length x ≡ suc (length cs) * n)) same
        (
          All-append (IsCountable cases equals) rs0 rest fine fine',
          omega (arith, length-append rs0 rest, size, size', suc-mul (length cs) n),
        )

-- A run of labelled cases, with at least one case and one replay of each, comes to metrics if every
-- call of the gate returned: none of the loops raises, no rate is divided by zero (not by the number
-- of probes either, of which there may be none), and no mean or maximum is of nothing. The metrics
-- are of as many replays as there are cases times replays of a case.
pub compute_metrics-Returns :
    {F : Type 0} (floats : Floats F) (equals : ℕ → ℕ → Bool) (rank50 rank95 : ℕ → ℤ)
    (ops : FloatOps) (pydantic : Validator) (lower : Text → Text) (env : Ambient)
    (providers : Case → ℕ → GateProvider) (cases : List Case) (n : ℕ) (rs : List Replay)
    → check_labelled cases ≡ ok tt
    → 1 ≤ length cases
    → 1 ≤ n
    → run_replays ops pydantic lower env providers cases n ≡ ok rs
    → (m : Metrics F) × (compute_metrics floats equals rank50 rank95 cases rs n ≡ ok m)
      × (m.n_total ≡ length cases * n)
unfolding compute_metrics
compute_metrics-Returns floats equals rank50 rank95 ops pydantic lower env providers cases n rs
      checked some_case some_replay run =
    let labelled = check_labelled-IsLabelled cases checked in
    let (fine, size) =
      run_replays-IsCountable ops pydantic lower env providers cases equals labelled cases n rs
        (IsKnown-cases cases) run in
    let (shapes, shaped) = all_shapes-Returns cases equals rs fine in
    let (c, counted) = tally-Returns cases equals rs no_counts fine in
    let (m, made, total) =
      metrics_of-Returns floats equals rank50 rank95 cases rs n shapes c
        (omega (arith, size, mul-pos (length cases) n some_case some_replay)) in
    (m, rw (shaped, counted) made, total ∙ size)
