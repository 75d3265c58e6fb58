-- ===== src/Routes/View.antt =====
-- The payloads of tutor/routes/sessions.py.
use cortex_tutor.Prelude.{
  ℕ, String, Bool, true, false, ◌&&◌, not, Option, none, some, List, [], ◌∷◌, map, if◌then◌else◌,
  filter,
}
use cortex_tutor.Prelude.Text.{Text, is_empty}
use cortex_tutor.Domain.Steps.{Track, Step, same_step}
use cortex_tutor.Domain.Verdict.{Verdict}
use cortex_tutor.Persistence.Models.{RowStatus, MessageRole, coach, Session, Message}
use cortex_tutor.Persistence.Messages.{is_system}
use cortex_tutor.Turn.Steps.{TurnOutcome, is_completed}

pub record MessageView : Type 0 where
  pub role : MessageRole
  pub step : Step
  pub content : Text
  pub created_at : ℕ

pub record SessionView : Type 0 where
  pub session_id : ℕ
  pub problem_id : String
  pub origin : String
  pub track : Track
  pub status : RowStatus
  pub current_step : Step
  pub step_index : ℕ
  pub done : Bool
  pub byok : Bool
  pub model : Option String
  pub messages : List MessageView
  pub rubric_version : String

-- The user's and the coach's messages.
unfoldable pub message_views : List Message → List MessageView
message_views history =
    map
      (λ m. record { role = m.role; step = m.step; content = m.content; created_at = m.created_at })
      (filter (λ m. not (is_system m.role)) history)

-- `_session_payload`
unfoldable pub session_payload : Session → List Message → SessionView
unfolding message_views
session_payload s history = record {
  session_id = s.id;
  problem_id = s.problem_id;
  origin = s.origin;
  track = s.track;
  status = s.status;
  current_step = s.current_step;
  step_index = s.step_index;
  done = is_completed s.status;
  byok = s.byok;
  model = s.coach_model;
  messages = message_views history;
  rubric_version = s.rubric_version;
}

pub record ResultView : Type 0 where
  pub session_id : ℕ
  pub step : Step
  pub step_index : ℕ
  pub verdict : Verdict
  pub score : ℕ
  pub advanced : Bool
  pub done : Bool
  pub hint : Option Text

-- `_result_base`
unfoldable pub result_base : TurnOutcome → ResultView
result_base o = record {
  session_id = o.session.id;
  step = o.evaluated_step;
  step_index = o.session.step_index;
  verdict = o.verdict.verdict;
  score = o.verdict.score;
  advanced = o.advanced;
  done = o.done;
  hint = if is_empty o.verdict.hint then none else some o.verdict.hint;
}

unfoldable pub is_coach : MessageRole → Bool
is_coach coach = true
is_coach _ = false

unfoldable pub last_or {ℓ} : {A : Type ℓ} → A → List A → A
last_or a [] = a
last_or a (b ∷ bs) = last_or b bs

-- `_last_coach_reply`: the last such message, or an empty text.
unfoldable pub last_coach_reply : List Message → Step → Text
unfolding is_coach last_or
last_coach_reply history step =
    last_or []
      (map (λ m. m.content) (filter (λ m. is_coach m.role && same_step m.step step) history))
