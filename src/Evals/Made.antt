-- ===== src/Evals/Made.antt =====
-- What each probe of evals/extract.py is made of.
use cortex_tutor.Prelude.{
  ◌≡◌, refl, false, ◌||◌, some, List, [], ◌∷◌, subst, any, inl, inr, Bool-cases, arith, All,
}
use cortex_tutor.Domain.Steps.{Step, same_step}
use cortex_tutor.Evals.Schema.{Case, cross_step_probe, of_cases}
use cortex_tutor.Evals.Probes.{
  Donors, set_default, by_step, insert_donor, sort_donors, probe, Seen, is_probed, probes_of,
  all_probes, probes_from,
}
use cortex_tutor.Prelude.Rows.{All-mono, All-append}
use mathlib.Core.List.{Mem, mem-cons_self, mem-cons_of_mem}
use cortex_tutor.Evals.Schema.{allows, same_verdict, Expected}
use cortex_tutor.Evals.Probes.{text_le}
use cortex_tutor.Gate.Evaluate.{step_value}
use cortex_tutor.Domain.Verdict.{pass}

-- An answer that passed, presented at the step of another case that passed, with that case's
-- transcript and context, and the expectation that it does not pass.
pub record IsProbe (passes : List Case) (p : Case) : Type 0 where
  pub answer_case : Case
  pub donor : Case
  pub given : Mem answer_case passes
  pub donated : Mem donor passes
  pub elsewhere : same_step donor.step answer_case.step ≡ false
  pub kind : p.kind ≡ cross_step_probe
  pub problem_id : p.problem_id ≡ donor.problem_id
  pub step : p.step ≡ donor.step
  pub transcript : p.transcript ≡ donor.transcript
  pub problem_context : p.problem_context ≡ donor.problem_context
  pub answer : p.answer ≡ answer_case.answer
  pub code : p.code ≡ answer_case.code
  pub language : p.language ≡ answer_case.language
  pub run_result : p.run_result ≡ answer_case.run_result
  pub source : p.source ≡ some (of_cases answer_case.case_id donor.case_id)
  pub denies : (e : Expected) × (p.expected ≡ some e) × (allows e pass ≡ false)

abbrev IsDonor : List Case → Step × Case → Type 0
IsDonor passes d = (d.0 ≡ d.1.step) × Mem d.1 passes

set_default-IsDonor :
    (passes : List Case) (c : Case) (donors : Donors)
    → Mem c passes
    → All (IsDonor passes) donors
    → All (IsDonor passes) (set_default c.step c donors)
unfolding set_default
set_default-IsDonor passes c [] h all = ((refl, h), tt)
set_default-IsDonor passes c ((s, d) ∷ rest) h all = elim (Bool-cases (same_step s c.step)) [
  | inl t ↦ rw t all
  | inr t ↦ rw t (all.0, set_default-IsDonor passes c rest h all.1)
]

by_step-IsDonor :
    (passes : List Case) (donors : Donors) (cs : List Case)
    → All (λ c. Mem c passes) cs
    → All (IsDonor passes) donors
    → All (IsDonor passes) (by_step donors cs)
unfolding by_step
by_step-IsDonor passes donors [] of_passes all = all
by_step-IsDonor passes donors (c ∷ cs) of_passes all =
    by_step-IsDonor passes (set_default c.step c donors) cs of_passes.1
      (set_default-IsDonor passes c donors of_passes.0 all)

insert_donor-IsDonor :
    (passes : List Case) (d : Step × Case) (donors : Donors)
    → IsDonor passes d
    → All (IsDonor passes) donors
    → All (IsDonor passes) (insert_donor d donors)
unfolding insert_donor
insert_donor-IsDonor passes d [] h all = (h, tt)
insert_donor-IsDonor passes d (e ∷ rest) h all =
    elim (Bool-cases (text_le (step_value d.0) (step_value e.0))) [
      | inl t ↦ rw t (h, all)
      | inr t ↦ rw t (all.0, insert_donor-IsDonor passes d rest h all.1)
    ]

sort_donors-IsDonor :
    (passes : List Case) (donors : Donors)
    → All (IsDonor passes) donors
    → All (IsDonor passes) (sort_donors donors)
unfolding sort_donors
sort_donors-IsDonor passes [] all = tt
sort_donors-IsDonor passes (d ∷ rest) all =
    insert_donor-IsDonor passes d (sort_donors rest) all.0 (sort_donors-IsDonor passes rest all.1)

probes_of-IsProbe :
    (passes : List Case) (a : Case) (donors : Donors) (seen : Seen)
    → Mem a passes
    → All (IsDonor passes) donors
    → All (IsProbe passes) (probes_of a donors seen).0
unfolding probes_of probe allows any same_verdict
probes_of-IsProbe passes a [] seen h all = tt
probes_of-IsProbe passes a ((s, d) ∷ rest) seen h all =
    elim (Bool-cases (same_step s a.step || is_probed a.answer s seen)) [
      | inl t ↦ rw t (probes_of-IsProbe passes a rest seen h all.1)
      | inr t ↦ rw t (
        record {
          answer_case = a;
          donor = d;
          given = h;
          donated = all.0.1;
          elsewhere = subst (λ x. same_step x a.step ≡ false) all.0.0 (ground arith);
          kind = refl;
          problem_id = refl;
          step = all.0.0;
          transcript = refl;
          problem_context = refl;
          answer = refl;
          code = refl;
          language = refl;
          run_result = refl;
          source = refl;
          denies = (_, refl, refl);
        },
        probes_of-IsProbe passes a rest ((a.answer, s) ∷ seen) h all.1,
      )
    ]

all_probes-IsProbe :
    (passes : List Case) (donors : Donors) (cs : List Case) (seen : Seen)
    → All (λ c. Mem c passes) cs
    → All (IsDonor passes) donors
    → All (IsProbe passes) (all_probes donors cs seen)
unfolding all_probes
all_probes-IsProbe passes donors [] seen of_passes all = tt
all_probes-IsProbe passes donors (a ∷ cs) seen of_passes all =
    All-append (IsProbe passes) (probes_of a donors seen).0 _
      (probes_of-IsProbe passes a donors seen of_passes.0 all)
      (all_probes-IsProbe passes donors cs (probes_of a donors seen).1 of_passes.1 all)

in_itself : (cs : List Case) → All (λ c. Mem c cs) cs
in_itself [] = tt
in_itself (c ∷ cs) = (
  mem-cons_self,
  All-mono (λ d. Mem d cs) (λ d. Mem d (c ∷ cs)) cs (λ d m. mem-cons_of_mem c m) (in_itself cs),
)

-- Every probe is an answer that passed, with its code and run, presented at the step of another case
-- that passed, which is not the answer's own step, in that case's problem, transcript and context;
-- it names both cases, and it is expected not to pass.
pub probes_from-IsProbe : (passes : List Case) → All (IsProbe passes) (probes_from passes)
unfolding probes_from
probes_from-IsProbe passes =
    all_probes-IsProbe passes (sort_donors (by_step [] passes)) passes [] (in_itself passes) (
      sort_donors-IsDonor passes (by_step [] passes)
        (by_step-IsDonor passes [] passes (in_itself passes) tt))
