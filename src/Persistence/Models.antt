-- ===== src/Persistence/Models.antt =====
-- tutor/persistence/models.py: the tables, a list of rows each. Columns that the program writes
-- once with a constant and never reads (token counts, costs, summaries, `redacted`) are left out,
-- as is the IDENTITY column of the append-only tables, whose order the list keeps. Times are
-- natural numbers, identifiers the numbers of their UUIDs.
use cortex_tutor.Prelude.{ℕ, String, Bool, Option, List, []}
use cortex_tutor.Prelude.Text.{Text}
use cortex_tutor.Json.{Fields}
use cortex_tutor.Domain.Steps.{Track, Step}
use cortex_tutor.Domain.Verdict.{Verdict}
use cortex_tutor.Gate.Evaluate.{GateOutcome}

pub data RowStatus : Type 0 where
  active completed abandoned : RowStatus

pub data MessageRole : Type 0 where
  user coach system : MessageRole

pub record Session : Type 0 where
  pub id : ℕ
  pub user_sub : String
  pub problem_id : String
  pub origin : String
  pub track : Track
  pub status : RowStatus
  pub current_step : Step
  pub step_index : ℕ
  pub attempts : ℕ
  pub hint_level : ℕ
  pub coach_model : Option String
  pub rubric_version : String
  pub byok : Bool
  pub version : ℕ
  pub last_turn_id : Option ℕ
  pub created_at : ℕ
  pub updated_at : ℕ
  pub expires_at : ℕ

pub record Message : Type 0 where
  pub session_id : ℕ
  pub seq : ℕ
  pub role : MessageRole
  pub step : Step
  pub content : Text
  pub content_json : Option (List (String × Text))
  pub model : Option String
  pub turn_id : Option ℕ
  pub created_at : ℕ

pub record GateRow : Type 0 where
  pub session_id : ℕ
  pub step : Step
  pub verdict : Verdict
  pub score : ℕ
  pub attempts : ℕ
  pub missing : List Text
  pub judge_kind : String
  pub created_at : ℕ
  pub updated_at : ℕ

pub record GateCall : Type 0 where
  pub session_id : ℕ
  pub turn_id : Option ℕ
  pub step : Step
  pub answer_seq : ℕ
  pub rubric_version : String
  pub provider : String
  pub model : String
  pub outcome : GateOutcome
  pub raw : Option Fields
  pub verdict : Verdict
  pub score : ℕ
  pub missing : List Text
  pub hint : Text
  pub problem_context_hash : String
  pub latency_ms : ℕ
  pub created_at : ℕ

pub record GroundingRef : Type 0 where
  pub session_id : ℕ
  pub step : Step
  pub tool : String
  pub citation_url : Option Text
  pub created_at : ℕ

pub record Db : Type 0 where
  pub sessions : List Session
  pub messages : List Message
  pub gates : List GateRow
  pub gate_calls : List GateCall
  pub grounding_refs : List GroundingRef

abbrev pub empty_db : Db
empty_db = record { sessions = []; messages = []; gates = []; gate_calls = []; grounding_refs = [] }

-- The time and the lifetime of a session, in the same unit.
pub record Clock : Type 0 where
  pub now : ℕ
  pub ttl : ℕ
