-- ===== src/Routes/Withheld.antt =====
-- What a prompt bundle of tutor/routes/sessions.py does not show: the solution, before its step.
use cortex_tutor.Prelude.{ℕ, ◌≡◌, ◌≢◌, ap, ◌∙◌, arith, inl, inr, false, some, Bool-cases}
use cortex_tutor.Prelude.Result.{ok, Result-cases}
use cortex_tutor.Prelude.Text.{Text, codes}
use cortex_tutor.Domain.Steps.{Step, implement, test, same_step}
use cortex_tutor.Domain.Steps.Ladder.{same_step_iff}
use cortex_tutor.Coach.Context.{
  wants_solution, wants_solution-early, withheld_all, build_problem_context-withheld,
}
use cortex_tutor.Persistence.Models.{Session, Db}
use cortex_tutor.Persistence.Sessions.{get_for_user}
use cortex_tutor.Persistence.Transaction.{in_transaction}
use cortex_tutor.Json.{str}
use cortex_tutor.Routes.Http.{parse_step}
use cortex_tutor.Routes.Manage.{some_or_404}
use cortex_tutor.Routes.Turns.{TurnWorld, get_prompt_bundle, context_for, lesson_for}

-- The same world, but for a grounding service that never returns a solution.
abbrev pub without_solutions : TurnWorld → TurnWorld
without_solutions w = record w {
  get_lesson =
      λ problem_id include_solution. withheld_all (w.get_lesson problem_id include_solution);
}

context_for-withheld :
    (w : TurnWorld) (s : Session) (step : Step)
    → wants_solution step ≡ false
    → context_for w s step ≡ context_for (without_solutions w) s step
unfolding context_for lesson_for
context_for-withheld w s step h =
    build_problem_context-withheld (codes s.problem_id)
      (w.get_lesson (codes s.problem_id) (wants_solution step)) step h

-- A BYOK client's prompt bundle, whatever step it asks for, is what it would be without solutions,
-- unless the session itself is at "implement" or "test".
pub get_prompt_bundle-withheld :
    (w : TurnWorld) (session_id : ℕ) (step_text : Text) (s : Session) (db : Db)
    → get_for_user session_id w.principal.sub db ≡ ok (some s)
    → s.current_step ≢ implement
    → s.current_step ≢ test
    → in_transaction (get_prompt_bundle w session_id step_text) db
      ≡ in_transaction (get_prompt_bundle (without_solutions w) session_id step_text) db
unfolding get_prompt_bundle some_or_404
get_prompt_bundle-withheld w session_id step_text s db found not_implement not_test =
    let early = wants_solution-early s.current_step not_implement not_test in
    elim (Result-cases (parse_step (str step_text))) [
      | inr (x, a) ↦ ground arith
      | inl (step, a) ↦ elim (Bool-cases (same_step step s.current_step)) [
        | inr b ↦ ground arith
        | inl b ↦
            let clamped : step ≡ s.current_step =
              ground (arith, same_step_iff step s.current_step) in
            ground (arith, context_for-withheld w s step (ap wants_solution clamped ∙ early))
      ]
    ]
