-- ===== src/System/Changes.antt =====
-- The five ways in which tutor/persistence/repo.py and purge.py change the session table, on behalf
-- of the users that `can` admits, each with what its callers have made sure of.
use cortex_tutor.Prelude.{
  ℕ, ◌≤◌, ◌≡◌, String, Bool, true, not, Option, List, [], ◌∷◌, map, filter, count, All,
  if◌then◌else◌,
}
use cortex_tutor.Domain.Steps.{track_of, step_index, is_terminal}
use cortex_tutor.Domain.Verdict.{GateVerdict}
use cortex_tutor.Domain.Fsm.{SessionStatus, transition}
use cortex_tutor.Persistence.Models.{active, completed, Session, Clock}
use cortex_tutor.Persistence.Sessions.{
  active_for, has_id, at_version, NewSession, new_row, with_state, with_model,
}
use cortex_tutor.Turn.Steps.{state_of, columns_of}

-- The rows after `UPDATE ... WHERE id = ... AND version = ...`.
abbrev pub updated : Session → (Session → Session) → List Session → List Session
updated s change xs = map (λ r. if at_version s.id s.version r then change r else r) xs

abbrev pub judge_row : Clock → Session → GateVerdict → Option ℕ → Session → Session
judge_row clock s v turn_id =
    with_state clock s.version (columns_of (transition (state_of s SessionStatus.active) v) turn_id)

pub data Change (can : String → Bool) (xs ys : List Session) : Type 0 where
  created :
      (clock : Clock) (id : ℕ) (n : NewSession)
      → can n.user_sub ≡ true
      → count (has_id id) xs ≡ 0
      → count (active_for n.user_sub n.problem_id) xs ≡ 0
      → ys ≡ new_row clock id n ∷ xs
      → Change can xs ys
  deleted :
      (q : Session → Bool)
      → ((s : Session) → q s ≡ true → can s.user_sub ≡ true)
      → ys ≡ filter (λ s. not (q s)) xs
      → Change can xs ys
  judged :
      (clock : Clock) (s : Session) (v : GateVerdict) (turn_id : Option ℕ)
      → can s.user_sub ≡ true
      → filter (has_id s.id) xs ≡ s ∷ []
      → s.status ≡ active
      → ys ≡ updated s (judge_row clock s v turn_id) xs
      → Change can xs ys
  repointed :
      (clock : Clock) (s : Session) (coach_model : String) (byok : Bool)
      → can s.user_sub ≡ true
      → filter (has_id s.id) xs ≡ s ∷ []
      → ys ≡ updated s (with_model clock s.version coach_model byok) xs
      → Change can xs ys

-- Any number of changes.
pub data Changes (can : String → Bool) (xs : List Session) : List Session → Type 0 where
  here : Changes can xs xs
  next : {ys zs : List Session} → Changes can xs ys → Change can ys zs → Changes can xs zs

-- What a row says is consistent in itself.
pub record IsRow (s : Session) : Type 0 where
  pub index : s.step_index ≡ step_index s.current_step
  pub track : track_of s.current_step ≡ s.track
  pub hint : s.hint_level ≤ 3
  pub at_end : s.status ≡ completed → is_terminal s.current_step ≡ true

pub record IsConsistent (xs : List Session) : Type 0 where
  pub unique : (id : ℕ) → count (has_id id) xs ≤ 1
  pub one_active : (user_sub problem_id : String) → count (active_for user_sub problem_id) xs ≤ 1
  pub rows : All IsRow xs
