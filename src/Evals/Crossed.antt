-- ===== src/Evals/Crossed.antt =====
-- Which probes evals/extract.py makes: one for each answer that passed and each other step.
use cortex_tutor.Prelude.{
  ℕ, ◌≡◌, refl, ◌∙◌, ap, Bool, true, ◌||◌, ◌&&◌, not, List, [], ◌∷◌, any, if◌then◌else◌, count,
  count-append, inl, inr, Bool-cases, arith,
}
use cortex_tutor.Prelude.Text.{Text, text_eq, text_eq_iff}
use cortex_tutor.Domain.Steps.{Step, same_step}
use cortex_tutor.Domain.Steps.Ladder.{same_step_iff}
use cortex_tutor.Evals.Schema.{Case}
use cortex_tutor.Evals.Probes.{
  Donors, set_default, by_step, insert_donor, sort_donors, probe, Seen, is_probed, probes_of,
  all_probes, probes_from,
}

abbrev pub has_step : Step → Case → Bool
has_step step c = same_step c.step step

abbrev has_donor : Step → Donors → Bool
has_donor step donors = any (λ d. same_step d.0 step) donors

abbrev pub is_at : Text → Step → Case → Bool
is_at answer step p = text_eq p.answer answer && same_step p.step step

-- The case has the answer, and another step.
abbrev pub is_elsewhere : Text → Step → Case → Bool
is_elsewhere answer step a = text_eq a.answer answer && not (same_step a.step step)

set_default-has_donor :
    (step other : Step) (c : Case) (donors : Donors)
    → has_donor step (set_default other c donors) ≡ has_donor step donors || same_step other step
unfolding set_default any
set_default-has_donor step other c [] = ground arith
set_default-has_donor step other c ((s, d) ∷ rest) =
    ground (arith, set_default-has_donor step other c rest, same_step_iff s other)

by_step-has_donor :
    (step : Step) (donors : Donors) (cs : List Case)
    → has_donor step (by_step donors cs) ≡ has_donor step donors || any (has_step step) cs
unfolding by_step any
by_step-has_donor step donors [] = ground arith
by_step-has_donor step donors (c ∷ cs) = ground (
  arith,
  by_step-has_donor step (set_default c.step c donors) cs,
  set_default-has_donor step c.step c donors,
)

insert_donor-has_donor :
    (step : Step) (d : Step × Case) (donors : Donors)
    → has_donor step (insert_donor d donors) ≡ same_step d.0 step || has_donor step donors
unfolding insert_donor any
insert_donor-has_donor step d [] = refl
insert_donor-has_donor step d (e ∷ rest) = ground (arith, insert_donor-has_donor step d rest)

sort_donors-has_donor :
    (step : Step) (donors : Donors) → has_donor step (sort_donors donors) ≡ has_donor step donors
unfolding sort_donors any
sort_donors-has_donor step [] = refl
sort_donors-has_donor step (d ∷ rest) =
    insert_donor-has_donor step d (sort_donors rest)
    ∙ ground (arith, sort_donors-has_donor step rest)

one_if : Bool → ℕ
one_if b = if b then 1 else 0

is_probed_same :
    (x answer : Text) (s step : Step) (seen : Seen)
    → text_eq x answer ≡ true
    → same_step s step ≡ true
    → is_probed x s seen ≡ is_probed answer step seen
is_probed_same x answer s step seen t u =
    let eq : x ≡ answer = ground (arith, text_eq_iff x answer) in
    let same : s ≡ step = ground (arith, same_step_iff s step) in
    ap (λ y. is_probed y s seen) eq ∙ ap (λ r. is_probed answer r seen) same

-- What the inner loop adds at an answer and a step: one probe, if there is a donor and none was made.
module _ (answer : Text) (step : Step) where
  abbrev wanted : Case → Donors → Seen → Bool
  wanted a donors seen =
      is_elsewhere answer step a && has_donor step donors && not (is_probed answer step seen)

  probes_of-at :
      (a : Case) (donors : Donors) (seen : Seen)
      → (count (is_at answer step) (probes_of a donors seen).0
          ≡ (if wanted a donors seen then 1 else 0))
        × (is_probed answer step (probes_of a donors seen).1
            ≡ is_probed answer step seen || wanted a donors seen)
  unfolding probes_of count any
  probes_of-at a [] seen = (ground arith, ground arith)
  probes_of-at a ((s, d) ∷ rest) seen =
      let of_same = is_probed_same a.answer answer s step seen in
      let other_step : same_step s step ≡ true → same_step s a.step ≡ same_step a.step step = λ t.
        ground (arith, same_step_iff s step, same_step_iff s a.step, same_step_iff a.step step) in
      elim (Bool-cases (same_step s a.step || is_probed a.answer s seen)) [
        | inl t ↦ rw t (ground (arith, probes_of-at a rest seen, of_same, other_step))
        | inr t ↦
            let added : is_probed answer step ((a.answer, s) ∷ seen)
                ≡ text_eq a.answer answer && same_step s step || is_probed answer step seen =
              unfold is_probed in unfold any in refl in
            let made : is_at answer step (probe a s d)
                ≡ text_eq a.answer answer && same_step s step =
              unfold probe in refl in
            rw t (
              ground (
                arith,
                probes_of-at a rest ((a.answer, s) ∷ seen),
                of_same,
                other_step,
                added,
                made,
              ))
      ]

all_probes-at :
    (answer : Text) (step : Step) (donors : Donors) (cs : List Case) (seen : Seen)
    → count (is_at answer step) (all_probes donors cs seen) ≡ (
        if any (is_elsewhere answer step) cs
          && has_donor step donors
          && not (is_probed answer step seen)
        then 1
        else 0)
unfolding all_probes count any
all_probes-at answer step donors [] seen = ground arith
all_probes-at answer step donors (a ∷ cs) seen =
    let (made, left) = probes_of a donors seen in
    count-append (is_at answer step) made (all_probes donors cs left)
    ∙ ground
        (arith, probes_of-at answer step a donors seen, all_probes-at answer step donors cs left)

-- There is exactly one probe for an answer and a step if the answer is that of a pass-labelled case
-- at another step, and the step has a pass-labelled case; and otherwise none.
pub probes_from-count :
    (answer : Text) (step : Step) (passes : List Case)
    → count (is_at answer step) (probes_from passes)
      ≡ (if any (is_elsewhere answer step) passes && any (has_step step) passes then 1 else 0)
unfolding probes_from is_probed any
probes_from-count answer step passes =
    let donors = sort_donors (by_step [] passes) in
    let held = sort_donors-has_donor step (by_step [] passes) ∙ by_step-has_donor step [] passes in
    all_probes-at answer step donors passes [] ∙ ground (arith, held)
