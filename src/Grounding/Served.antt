-- ===== src/Grounding/Served.antt =====
-- The corpus as the tutor sees it, through the client: a coach's prompt at a step that may not show
-- the solution does not depend on it.
use cortex_tutor.Prelude.{◌≢◌, ◌≡◌, ap, Option, none, some}
use cortex_tutor.Prelude.Text.{codes}
use cortex_tutor.Domain.Steps.{Step, implement, test}
use cortex_tutor.Coach.Context.{Lesson, wants_solution-early, build_problem_context}
use cortex_tutor.Grounding.Slug.{Unicode}
use cortex_tutor.Grounding.Corpus.{Corpus}
use cortex_tutor.Grounding.Tools.{GroundingSettings, LessonReply, get_lesson}
use cortex_tutor.Grounding.Withheld.{without_solutions, get_lesson-withheld}
use cortex_tutor.Persistence.Models.{Session}
use cortex_tutor.Routes.Turns.{TurnWorld, context_for, lesson_for}

-- The reply's keys, as `build_problem_context` reads them; "statement" is a key of `get_problem` only.
abbrev pub lesson_of : Option LessonReply → Option Lesson
lesson_of none = none
lesson_of (some r) = some (record {
  title = some r.ref.title;
  summary = r.summary;
  content = some r.content;
  statement = none;
  solution = r.solution;
  citation_url = some r.ref.citation;
})

-- The tutor's world with the grounding server behind its client, while the server answers.
abbrev pub served : GroundingSettings → Unicode → Corpus → TurnWorld → TurnWorld
served settings unicode corpus w = record w {
  get_lesson =
      λ id include_solution. lesson_of (get_lesson settings unicode id include_solution corpus);
}

-- At every step but "implement" and "test", the problem context of a turn is the same if every
-- withheld part of the corpus is emptied: what the server withholds does not reach the prompts.
pub context_for-served :
    (settings : GroundingSettings) (unicode : Unicode) (corpus : Corpus) (w : TurnWorld)
    (s : Session) (step : Step)
    → step ≢ implement
    → step ≢ test
    → context_for (served settings unicode (without_solutions corpus) w) s step
      ≡ context_for (served settings unicode corpus w) s step
unfolding context_for lesson_for
context_for-served settings unicode corpus w s step not_implement not_test =
    let early = wants_solution-early step not_implement not_test in
    let same = get_lesson-withheld settings unicode (codes s.problem_id) corpus in
    rw early (ap (λ r. build_problem_context (codes s.problem_id) (lesson_of r) step) same)
