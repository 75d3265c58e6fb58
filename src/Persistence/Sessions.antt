-- ===== src/Persistence/Sessions.antt =====
-- tutor/persistence/repo.py, the queries of the session table, and purge.py. A statement that returns
-- a result and writes gives the pair of its result and the new tables.
use cortex_tutor.Prelude.{
  ℕ, ◌+◌, String, Bool, true, false, ◌&&◌, not, Option, none, some, List, [], ◌∷◌, map, str_eq, ltb,
  ◌==◌, if◌then◌else◌, get_or, filter, any, count,
}
use cortex_tutor.Prelude.Result.{multiple_results, Result, ok, err}
use cortex_tutor.Domain.Steps.{Track, Step, clarify, first_step}
use cortex_tutor.Persistence.Models.{RowStatus, active, abandoned, Session, Db, Clock}

unfoldable pub is_active : RowStatus → Bool
is_active active = true
is_active _ = false

-- `scalar_one_or_none()`
unfoldable pub one_or_none {ℓ} : {A : Type ℓ} → List A → Result (Option A)
one_or_none [] = ok none
one_or_none (a ∷ []) = ok (some a)
one_or_none (a ∷ b ∷ rest) = err multiple_results

abbrev pub owns : String → Session → Bool
owns user_sub s = str_eq s.user_sub user_sub

abbrev pub of_problem : String → String → Session → Bool
of_problem user_sub problem_id s = owns user_sub s && str_eq s.problem_id problem_id

abbrev pub active_for : String → String → Session → Bool
active_for user_sub problem_id s = of_problem user_sub problem_id s && is_active s.status

-- `get_active`, and `get_active_locked`, whose row lock the model's transactions do not need
unfoldable pub get_active : String → String → Db → Result (Option Session)
get_active user_sub problem_id db =
    one_or_none (filter (active_for user_sub problem_id) db.sessions)

abbrev pub has_id : ℕ → Session → Bool
has_id id s = s.id == id

-- `get_for_user` and `get_for_user_locked`
unfoldable pub get_for_user : ℕ → String → Db → Result (Option Session)
get_for_user id user_sub db = one_or_none (filter (λ s. has_id id s && owns user_sub s) db.sessions)

unfoldable pub is_kept : RowStatus → Bool
is_kept abandoned = false
is_kept _ = true

unfoldable pub count_sessions_for_user : String → Db → ℕ
unfolding is_kept
count_sessions_for_user user_sub db = count (λ s. owns user_sub s && is_kept s.status) db.sessions

-- What a session is created with.
pub record NewSession : Type 0 where
  pub user_sub : String
  pub problem_id : String
  pub origin : String
  pub rubric_version : String
  pub track : Track
  pub byok : Bool
  pub coach_model : Option String

-- `create`; `id` is what `uuid4()` gives.
unfoldable pub new_row : Clock → ℕ → NewSession → Session
new_row clock id n = record {
  id = id;
  user_sub = n.user_sub;
  problem_id = n.problem_id;
  origin = n.origin;
  track = n.track;
  status = active;
  current_step = get_or (first_step n.track) clarify;
  step_index = 0;
  attempts = 0;
  hint_level = 0;
  coach_model = n.coach_model;
  rubric_version = n.rubric_version;
  byok = n.byok;
  version = 0;
  last_turn_id = none;
  created_at = clock.now;
  updated_at = clock.now;
  expires_at = clock.now + clock.ttl;
}

unfoldable pub create : Clock → ℕ → NewSession → Db → Session × Db
create clock id n db =
    let row = new_row clock id n in (row, record db { sessions = row ∷ db.sessions })

-- `WHERE id = ... AND version = ...`
abbrev pub at_version : ℕ → ℕ → Session → Bool
at_version id version s = has_id id s && s.version == version

-- `UPDATE ... WHERE test`, with the number of rows that it met
unfoldable pub update_rows : (Session → Bool) → (Session → Session) → Db → ℕ × Db
update_rows matches change db = (
  count matches db.sessions,
  record db { sessions = map (λ s. if matches s then change s else s) db.sessions },
)

-- The columns that `save_state` writes.
pub record StateColumns : Type 0 where
  pub status : RowStatus
  pub current_step : Step
  pub step_index : ℕ
  pub attempts : ℕ
  pub hint_level : ℕ
  pub last_turn_id : Option ℕ

unfoldable pub with_state : Clock → ℕ → StateColumns → Session → Session
with_state clock expected_version c s = record s {
  status = c.status;
  current_step = c.current_step;
  step_index = c.step_index;
  attempts = c.attempts;
  hint_level = c.hint_level;
  last_turn_id = c.last_turn_id;
  version = expected_version + 1;
  updated_at = clock.now;
  expires_at = clock.now + clock.ttl;
}

unfoldable pub save_state : Clock → ℕ → ℕ → StateColumns → Db → Bool × Db
unfolding update_rows
save_state clock id expected_version c db =
    let (rowcount, db') =
      update_rows (at_version id expected_version) (with_state clock expected_version c) db in
    (rowcount == 1, db')

unfoldable pub with_model : Clock → ℕ → String → Bool → Session → Session
with_model clock expected_version coach_model byok s = record s {
  coach_model = some coach_model;
  byok = byok;
  version = expected_version + 1;
  updated_at = clock.now;
  expires_at = clock.now + clock.ttl;
}

unfoldable pub set_coach_model : Clock → ℕ → ℕ → String → Bool → Db → Bool × Db
unfolding update_rows
set_coach_model clock id expected_version coach_model byok db =
    let (rowcount, db') =
      update_rows (at_version id expected_version)
        (with_model clock expected_version coach_model byok) db in
    (rowcount == 1, db')

-- `DELETE FROM session WHERE test`; the other tables cascade.
unfoldable pub delete_sessions : (Session → Bool) → Db → ℕ × Db
delete_sessions matches db =
    let gone : ℕ → Bool = λ id. any (λ s. has_id id s && matches s) db.sessions in
    (
      count matches db.sessions,
      record {
        sessions = filter (λ s. not (matches s)) db.sessions;
        messages = filter (λ m. not (gone m.session_id)) db.messages;
        gates = filter (λ g. not (gone g.session_id)) db.gates;
        gate_calls = filter (λ g. not (gone g.session_id)) db.gate_calls;
        grounding_refs = filter (λ g. not (gone g.session_id)) db.grounding_refs;
      },
    )

unfoldable pub delete_for_problem : String → String → Db → ℕ × Db
delete_for_problem user_sub problem_id db = delete_sessions (of_problem user_sub problem_id) db

unfoldable pub delete_all_for_user : String → Db → ℕ × Db
delete_all_for_user user_sub db = delete_sessions (owns user_sub) db

-- purge.py
unfoldable pub purge_expired : ℕ → Db → ℕ × Db
purge_expired now db = delete_sessions (λ s. ltb s.expires_at now) db

unfoldable pub abandon_active : Clock → String → String → Db → ℕ × Db
unfolding update_rows
abandon_active clock user_sub problem_id db =
    update_rows (active_for user_sub problem_id)
      (λ s. record s { status = abandoned; updated_at = clock.now }) db
