-- ===== src/Coach/Context.antt =====
-- tutor/grounding/context.py: the context of a problem that the models see. The parts of a lesson
-- are texts; a lesson without any is `none`, as is an unavailable one.
use cortex_tutor.Prelude.{
  ◌≡◌, ◌≢◌, arith, refl, Bool, false, ◌||◌, Option, none, some, List, [], ◌∷◌, ◌++◌, if◌then◌else◌,
}
use cortex_tutor.Prelude.Text.{Text, codes, is_empty, join}
use cortex_tutor.Domain.Steps.{Step, implement, test, same_step}
use cortex_tutor.Domain.Steps.Ladder.{same_step_iff}

pub record Lesson : Type 0 where
  pub title : Option Text
  pub summary : Option Text
  pub content : Option Text
  pub statement : Option Text
  pub solution : Option Text
  pub citation_url : Option Text

unfoldable pub wants_solution : Step → Bool
wants_solution step = same_step step implement || same_step step test

-- Only at "implement" and "test"
pub wants_solution-early :
    (step : Step) → step ≢ implement → step ≢ test → wants_solution step ≡ false
unfolding wants_solution
wants_solution-early step not_implement not_test =
    ground (arith, same_step_iff step implement, same_step_iff step test)

unfoldable pub fallback_context : Text → Text
fallback_context problem_id =
    codes "Problem id: "
    ++ (problem_id
        ++ codes
            "\n(The grounding service is unavailable — reason from the conversation and this id.)")

-- `if value`: a value that is missing or empty is none
unfoldable pub nonempty : Option Text → Option Text
nonempty none = none
nonempty (some t) = if is_empty t then none else some t

-- `a or b`
unfoldable pub text_or : Option Text → Option Text → Option Text
text_or a b = elim (nonempty a) [ none ↦ nonempty b | some t ↦ some t ]

unfoldable pub title_of : Text → Option Text → Text
title_of problem_id title = elim (nonempty title) [ none ↦ problem_id | some t ↦ t ]

-- `if value: parts.append(before + value + after)`
unfoldable pub part : Text → Option Text → Text → List Text
part before value after = elim (nonempty value) [
  | none ↦ []
  | some v ↦ (before ++ (v ++ after)) ∷ []
]

-- The solution, where the step allows it.
unfoldable pub solution_part : Step → Option Text → List Text
solution_part step solution =
    if wants_solution step
    then part
        (codes
          "## Reference solution (for grading the implementation — do NOT reveal verbatim)\n\n")
        solution []
    else []

unfoldable pub lesson_parts : Text → Lesson → Step → List Text
unfolding title_of part text_or
lesson_parts problem_id lesson step =
    (codes "# " ++ title_of problem_id lesson.title) ∷ part [] lesson.summary []
    ++ (part (codes "## Problem\n\n") (text_or lesson.content lesson.statement) []
        ++ (solution_part step lesson.solution
            ++ part (codes "(source: ") lesson.citation_url (codes ")")))

unfoldable pub build_problem_context : Text → Option Lesson → Step → Text
unfolding fallback_context
build_problem_context problem_id none step = fallback_context problem_id
build_problem_context problem_id (some lesson) step =
    join (codes "\n\n") (lesson_parts problem_id lesson step)

-- The lesson without its solution.
unfoldable pub withheld : Lesson → Lesson
withheld lesson = record lesson { solution = none }

unfoldable pub withheld_all : Option Lesson → Option Lesson
unfolding withheld
withheld_all none = none
withheld_all (some lesson) = some (withheld lesson)

-- At every step but "implement" and "test" the context is what it would be without the solution.
pub build_problem_context-withheld :
    (problem_id : Text) (grounded : Option Lesson) (step : Step)
    → wants_solution step ≡ false
    → build_problem_context problem_id grounded step
      ≡ build_problem_context problem_id (withheld_all grounded) step
unfolding build_problem_context lesson_parts solution_part withheld_all
build_problem_context-withheld problem_id none step h = refl
build_problem_context-withheld problem_id (some lesson) step h = rw h refl
