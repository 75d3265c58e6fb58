-- ===== src/Routes/Stream.antt =====
-- The stream of `submit_turn` of tutor/routes/sessions.py (`event_gen`): the committed state, the
-- coach's tokens, and the result, with the reply stored in a transaction of its own. What the
-- coach's provider streams, and whether it fails at the end, is a parameter; a failure to store the
-- reply is logged.
use cortex_tutor.Prelude.{Bool, List, [], ◌∷◌, ◌++◌, map, if◌then◌else◌}
use cortex_tutor.Prelude.Text.{Text, codes, is_empty, join}
use cortex_tutor.Gate.Evaluate.{Rubric, ChatMessage}
use cortex_tutor.Coach.Prompts.{coach_system}
use cortex_tutor.Persistence.Models.{Db}
use cortex_tutor.Prelude.Result.{Result, ok, err}
use cortex_tutor.Persistence.Transaction.{◌>>◌, lift, in_transaction}
use cortex_tutor.Turn.Apply.{Outside, record_coach_reply}
use cortex_tutor.Routes.View.{SessionView, ResultView}
use cortex_tutor.Routes.Turns.{StreamJob}

pub record Spoken : Type 0 where
  pub deltas : List Text
  pub failed : Bool

pub data Event : Type 0 where
  state : SessionView → Event
  token : Text → Event
  finished : ResultView → Text → Event

-- The parts of the reply: the deltas, or a fallback if the coach failed before any.
unfoldable pub parts_of : Text → Spoken → List Text
parts_of hint spoken =
    if spoken.failed
    then (elim spoken.deltas [
      | [] ↦
          (if is_empty hint then codes "Let's keep going — what's your next thought?" else hint)
          ∷ []
      | d ∷ ds ↦ d ∷ ds
    ])
    else spoken.deltas

-- `except Exception: log.warning(...)`: what the reply's transaction left, whether it raised or not
unfoldable pub logged : Result (Unit {0}) × Db → Db
logged (ok u, db) = db
logged (err e, db) = db

-- The reply in a transaction of its own. `connected` is what opening it and talking to the database
-- raises, if anything.
unfoldable pub persist_reply : Outside → Result (Unit {0}) → StreamJob → Text → Db → Db
unfolding logged
persist_reply out connected job reply db =
    let s = job.outcome.session in
    logged (
      in_transaction
        (lift connected
          >> record_coach_reply out s.id job.outcome.evaluated_step reply s.coach_model)
        db)

module _ (rubric : Rubric) (coach_stream : Text → List ChatMessage → Spoken) where
  unfoldable pub parts_for : StreamJob → List Text
  unfolding parts_of
  parts_for job =
      let o = job.outcome in
      parts_of o.verdict.hint (
        coach_stream
          (coach_system rubric o.evaluated_step job.problem_context o.verdict o.advanced o.done)
          o.coach_messages)

  unfoldable pub event_gen : Outside → Result (Unit {0}) → StreamJob → Db → List Event × Db
  event_gen out connected job db =
      let o = job.outcome in
      let reply = join [] (parts_for job) in
      if o.replayed then (state job.state ∷ finished job.result job.replay_reply ∷ [], db) else (
        state job.state ∷ (map token (parts_for job) ++ finished job.result reply ∷ []),
        persist_reply out connected job reply db,
      )
