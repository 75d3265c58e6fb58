-- ===== src/Routes/Turns.antt =====
-- The handlers of tutor/routes/sessions.py for turns: `submit_turn` up to its stream,
-- `record_byok_turn` and `get_prompt_bundle`. The grounding client is the parameter `get_lesson`.
use cortex_tutor.Prelude.{ℕ, String, Bool, not, Option, none, some, List, [], if◌then◌else◌}
use cortex_tutor.Prelude.Result.{http, stale_turn, step_mismatch, attribute_error, Result, ok, err}
use cortex_tutor.Prelude.Text.{Text, codes}
use cortex_tutor.Json.{Json, str}
use cortex_tutor.Config.{Settings}
use cortex_tutor.Domain.Steps.{Step, same_step}
use cortex_tutor.Models.Catalog.{
  CatalogEntry, CredentialMode, server_key, local, resolve_coach, by_key, default_model, byok,
}
use cortex_tutor.Models.Factory.{truthy, prefers_local}
use cortex_tutor.Access.Auth.{Principal, tier_for}
use cortex_tutor.Access.Quotas.{check_message_quota}
use cortex_tutor.Coach.Context.{Lesson, nonempty, wants_solution, build_problem_context}
use cortex_tutor.Coach.Prompts.{build_byok_system}
use cortex_tutor.Persistence.Models.{Session}
use cortex_tutor.Persistence.Sessions.{is_active, get_for_user}
use cortex_tutor.Persistence.Messages.{load_recent_messages}
use cortex_tutor.Persistence.Gates.{add_grounding_ref}
use cortex_tutor.Persistence.Transaction.{
  Exec, ◌>>=◌, ◌>>◌, pure, raise, lift, reads, queries, modifies, commit, rollback, require,
}
use cortex_tutor.Turn.Steps.{TurnOutcome}
use cortex_tutor.Turn.Apply.{Outside, GateWorld, apply_turn, apply_byok_turn}
use cortex_tutor.Routes.Http.{parse_step}
use cortex_tutor.Routes.Body.{TurnBody, read_submission, read_client_turn}
use cortex_tutor.Routes.View.{
  MessageView, message_views, SessionView, session_payload, ResultView, result_base,
  last_coach_reply,
}
use cortex_tutor.Routes.Manage.{some_or_404}

-- What the turn's handlers use from outside.
pub record TurnWorld : Type 0 where
  pub out : Outside
  pub gate : GateWorld
  pub settings : Settings
  pub principal : Principal
  pub uuid : Json → Result ℕ
  pub get_lesson : Text → Bool → Option Lesson
  pub duty : Text

-- Who speaks: a Claude model, a local model by name, or the local default.
pub data CoachChoice : Type 0 where
  anthropic_coach ollama_coach : String → CoachChoice
  default_coach : CoachChoice

unfoldable pub coach_of : CredentialMode → Option CatalogEntry → Result CoachChoice
coach_of server_key (some e) = ok (anthropic_coach e.model_id)
coach_of server_key none = err attribute_error
coach_of local (some e) = ok (ollama_coach e.model_id)
coach_of local none = ok default_coach
coach_of _ e = err (http 503)

-- What the stream of a turn is made from, after the tables are closed.
pub record StreamJob : Type 0 where
  pub state : SessionView
  pub result : ResultView
  pub outcome : TurnOutcome
  pub problem_context : Text
  pub replay_reply : Text
  pub speaker : CoachChoice

pub data TurnReply (A : Type 0) : Type 0 where
  turned : A → TurnReply A
  conflict : Option SessionView → TurnReply A

unfoldable pub lesson_for : TurnWorld → Session → Step → Option Lesson
lesson_for w s step = w.get_lesson (codes s.problem_id) (wants_solution step)

unfoldable pub context_for : TurnWorld → Session → Step → Text
context_for w s step = build_problem_context (codes s.problem_id) (lesson_for w s step) step

-- After a stale turn: the transaction is rolled back, and the session is read again.
unfoldable pub stale_reply : {A : Type 0} → ℕ → String → Exec (TurnReply A)
stale_reply session_id user_sub = do
  rollback
  found ← queries (get_for_user session_id user_sub)
  elim found [
    | none ↦ pure (conflict none)
    | some s ↦ reads (load_recent_messages session_id 200) >>= λ history.
        pure (conflict (some (session_payload s history)))
  ]

-- The two `except` clauses around a turn.
unfoldable pub settled :
    {A B : Type 0} → Exec (TurnReply B) → (A → Exec (TurnReply B)) → Result A → Exec (TurnReply B)
settled on_stale next (ok a) = next a
settled on_stale next (err stale_turn) = on_stale
settled on_stale next (err step_mismatch) = raise (http 409)
settled on_stale next (err e) = raise e

unfoldable pub settle :
    {A B : Type 0} → Exec A → Exec (TurnReply B) → (A → Exec (TurnReply B)) → Exec (TurnReply B)
settle m on_stale next tx = let (r, tx') = m tx in settled on_stale next r tx'

unfoldable pub citation_of : Option Lesson → Option Text
citation_of none = none
citation_of (some lesson) = nonempty lesson.citation_url

-- The audit of the grounding that was used, which a replay skips.
unfoldable pub audit_grounding : TurnWorld → TurnOutcome → Option Text → Exec (Unit {0})
audit_grounding w o none = pure tt
audit_grounding w o (some url) = if o.replayed then pure tt else do
  modifies (
      add_grounding_ref (record {
        session_id = o.session.id;
        step = o.evaluated_step;
        tool = "get_lesson";
        citation_url = some url;
        created_at = w.out.clock.now;
      }))
  commit

unfoldable pub speaker_for : TurnWorld → TurnOutcome → Result CoachChoice
speaker_for w o =
    elim (resolve_coach o.session.coach_model (tier_for w.principal w.settings)
      (truthy w.settings.anthropic_api_key) (prefers_local w.settings)
      (truthy w.settings.ollama_url)) [ ok r ↦ coach_of r.mode r.entry | err e ↦ err e ]

unfoldable pub job_of : TurnWorld → Session → Step → TurnOutcome → Exec (TurnReply StreamJob)
job_of w s step o = do
  history ← reads (load_recent_messages o.session.id 200)
  audit_grounding w o (citation_of (lesson_for w s step))
  speaker ← lift (speaker_for w o)
  pure (
      turned (record {
        state = session_payload o.session history;
        result = result_base o;
        outcome = o;
        problem_context = context_for w s step;
        replay_reply = if o.replayed then last_coach_reply history o.evaluated_step else [];
        speaker = speaker;
      }))

unfoldable pub submit_turn : TurnWorld → ℕ → TurnBody → Exec (TurnReply StreamJob)
submit_turn w session_id body = do
  sub ← lift (read_submission w.settings w.uuid body)
  found ← queries (get_for_user session_id w.principal.sub)
  s ← lift (some_or_404 found)
  require (not s.byok) (http 403)
  queries (check_message_quota w.principal w.settings s.id)
  settle
      (apply_turn w.out w.gate w.principal.sub s.problem_id s.origin (context_for w s sub.step) sub)
      (stale_reply session_id w.principal.sub) (job_of w s sub.step)

-- The recorded reply of a replayed turn, or the one that was sent.
unfoldable pub byok_reply : Text → TurnOutcome → Exec (TurnReply (ResultView × Text))
byok_reply coach_reply o =
    if o.replayed
    then (reads (load_recent_messages o.session.id 200) >>= λ history.
        pure (turned (result_base o, last_coach_reply history o.evaluated_step)))
    else pure (turned (result_base o, coach_reply))

unfoldable pub record_byok_turn : TurnWorld → ℕ → TurnBody → Exec (TurnReply (ResultView × Text))
record_byok_turn w session_id body = do
  (sub, client) ← lift (read_client_turn w.gate w.settings w.uuid body)
  found ← queries (get_for_user session_id w.principal.sub)
  s ← lift (some_or_404 found)
  require s.byok (http 403)
  queries (check_message_quota w.principal w.settings s.id)
  settle (apply_byok_turn w.out sub client s) (stale_reply session_id w.principal.sub)
      (byok_reply client.coach_reply)

pub record PromptBundle : Type 0 where
  pub step : Step
  pub system : Text
  pub messages : List MessageView
  pub model : String

unfoldable pub bundle_model : Option CatalogEntry → Result CatalogEntry
bundle_model (some e) = ok e
bundle_model none = default_model byok

unfoldable pub get_prompt_bundle : TurnWorld → ℕ → Text → Exec PromptBundle
get_prompt_bundle w session_id step_text = do
  step ← lift (parse_step (str step_text))
  found ← queries (get_for_user session_id w.principal.sub)
  s ← lift (some_or_404 found)
  require s.byok (http 403)
  require (is_active s.status) (http 409)
  require (same_step step s.current_step) (http 409)
  history ← reads (load_recent_messages s.id 200)
  e ← lift (bundle_model (by_key s.coach_model))
  pure (record {
    step = step;
    system = build_byok_system w.gate.ambient.rubric w.duty step (context_for w s step);
    messages = message_views history;
    model = e.model_id;
  })
