-- ===== src/Evals/Probes.antt =====
-- evals/extract.py, `make_probes`: answers that passed at one step, presented at the others.
use cortex_tutor.Prelude.{
  Bool, true, false, ◌||◌, ◌&&◌, none, some, List, [], ◌∷◌, ◌++◌, ltb, ◌==◌, any, filter,
  if◌then◌else◌,
}
use cortex_tutor.Prelude.Result.{system_exit, Result, ok, err, ◌>>=◌}
use cortex_tutor.Prelude.Text.{Text, codes, is_empty, text_eq}
use cortex_tutor.Domain.Steps.{Step, same_step}
use cortex_tutor.Domain.Verdict.{Verdict, retry, off_topic, question, is_pass}
use cortex_tutor.Gate.Evaluate.{step_value}
use cortex_tutor.Evals.Schema.{cross_step_probe, of_cases, Case, CaseJson, load_cases, dump_cases}

unfoldable pub is_only_pass : List Verdict → Bool
is_only_pass [] = false
is_only_pass (v ∷ []) = is_pass v
is_only_pass (v ∷ w ∷ vs) = false

-- `c.expected and c.expected.allowed_verdicts == [Verdict.PASS]`
unfoldable pub is_pass_case : Case → Bool
unfolding is_only_pass is_pass
is_pass_case c = elim c.expected [ none ↦ false | some e ↦ is_only_pass e.allowed_verdicts ]

abbrev pub Donors : Type 0
Donors = List (Step × Case)

-- `by_step.setdefault(step, c)`
unfoldable pub set_default : Step → Case → Donors → Donors
set_default step c [] = (step, c) ∷ []
set_default step c ((s, d) ∷ rest) =
    let more = set_default step c rest in if same_step s step then (s, d) ∷ rest else (s, d) ∷ more

unfoldable pub by_step : Donors → List Case → Donors
unfolding set_default
by_step donors [] = donors
by_step donors (c ∷ cs) = by_step (set_default c.step c donors) cs

-- `a <= b` of two texts
unfoldable pub text_le : Text → Text → Bool
text_le [] t = true
text_le (c ∷ s) [] = false
text_le (c ∷ s) (d ∷ t) = let rest = text_le s t in if c == d then rest else ltb c d

-- `sorted(by_step.items(), key=lambda kv: kv[0].value)`, by insertion
unfoldable pub insert_donor : Step × Case → Donors → Donors
unfolding text_le
insert_donor kv [] = kv ∷ []
insert_donor kv (d ∷ rest) =
    let more = insert_donor kv rest in
    if text_le (step_value kv.0) (step_value d.0) then kv ∷ d ∷ rest else d ∷ more

unfoldable pub sort_donors : Donors → Donors
unfolding insert_donor
sort_donors [] = []
sort_donors (d ∷ rest) = insert_donor d (sort_donors rest)

unfoldable pub rationale_of : Case → Step → Text
rationale_of a step =
    codes "answer addresses '"
    ++ (step_value a.step
        ++ (codes "', presented at '"
            ++ (step_value step ++ codes "' — a pass here is a counted step-hallucination")))

unfoldable pub probe : Case → Step → Case → Case
unfolding rationale_of
probe a step donor = record {
  case_id = codes "probe-" ++ (a.case_id ++ (codes "-at-" ++ step_value step));
  kind = cross_step_probe;
  problem_id = donor.problem_id;
  step = step;
  transcript = donor.transcript;
  answer = a.answer;
  code = a.code;
  language = a.language;
  run_result = a.run_result;
  problem_context = donor.problem_context;
  expected = some (record {
    allowed_verdicts = retry ∷ off_topic ∷ question ∷ [];
    min_score = none;
    rationale = rationale_of a step;
  });
  labeller = some (codes "synthesized by evals.extract --probes");
  source = some (of_cases a.case_id donor.case_id);
}

abbrev pub Seen : Type 0
Seen = List (Text × Step)

-- `(answer, step) in seen`
unfoldable pub is_probed : Text → Step → Seen → Bool
is_probed answer step seen = any (λ k. text_eq k.0 answer && same_step k.1 step) seen

-- The inner loop, with what it has seen.
unfoldable pub probes_of : Case → Donors → Seen → List Case × Seen
unfolding is_probed
probes_of a [] seen = ([], seen)
probes_of a ((step, donor) ∷ rest) seen =
    let skip = same_step step a.step || is_probed a.answer step seen in
    let (more, seen') = probes_of a rest (if skip then seen else (a.answer, step) ∷ seen) in
    (if skip then more else probe a step donor ∷ more, seen')

unfoldable pub all_probes : Donors → List Case → Seen → List Case
unfolding probes_of
all_probes donors [] seen = []
all_probes donors (a ∷ rest) seen =
    let (probes, seen') = probes_of a donors seen in probes ++ all_probes donors rest seen'

unfoldable pub probes_from : List Case → List Case
unfolding by_step sort_donors all_probes
probes_from passes = all_probes (sort_donors (by_step [] passes)) passes []

-- The content of the new file, from that of the labelled one.
unfoldable pub make_probes : CaseJson → Text → Result Text
unfolding probes_from is_pass_case
make_probes json labelled = do
  cases ← load_cases json labelled
  let passes = filter is_pass_case cases
  if is_empty passes then err system_exit else ok (dump_cases json (probes_from passes))
