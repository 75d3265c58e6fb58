-- ===== src/Domain/Steps.antt =====
-- tutor/domain/steps.py: the two ladders of coaching steps. Their laws are in `Ladder`.
pub mod Ladder
use cortex_tutor.Prelude.{
  ℕ, ◌+◌, suc, Bool, true, false, List, [], ◌∷◌, ◌++◌, map, Option, none, some, length, get_elem?,
  get_or, ltb, if◌then◌else◌,
}
use mathlib.Core.Logic.{ite}

pub data Track : Type 0 where
  problem conceptual : Track

pub data Step : Type 0 where
  clarify examples approach plan implement test explain apply analyze defend : Step

unfoldable pub Step-discrete : Discrete Step
Step-discrete = hlevel

-- `a is b`
unfoldable pub same_step : Step → Step → Bool
unfolding Step-discrete
same_step a b = ite (Step-discrete a b) true false

-- `STEP_ORDER_BY_TRACK`, and `steps_for`
unfoldable pub steps_for : Track → List Step
steps_for problem = clarify ∷ examples ∷ approach ∷ plan ∷ implement ∷ test ∷ []
steps_for conceptual = explain ∷ apply ∷ analyze ∷ defend ∷ []

-- `_TRACK_OF`: every step of every ladder, with its track
unfoldable pub track_table : List (Step × Track)
unfolding steps_for
track_table =
    map (λ s. (s, problem)) (steps_for problem) ++ map (λ s. (s, conceptual)) (steps_for conceptual)

unfoldable pub find_track : Step → List (Step × Track) → Option Track
unfolding same_step
find_track s [] = none
find_track s ((s', t) ∷ rest) = if same_step s' s then some t else find_track s rest

-- `_TRACK_OF[step]`. A missing key would raise; `Ladder` shows that none is missing.
unfoldable pub track_of : Step → Track
unfolding find_track track_table
track_of s = get_or (find_track s track_table) problem

unfoldable pub first_step : Track → Option Step
unfolding steps_for
first_step t = get_elem? (steps_for t) 0

-- `order.index(step)`; a step that is not there counts as the length, where `index` would raise.
unfoldable pub index_of : Step → List Step → ℕ
unfolding same_step
index_of s [] = 0
index_of s (s' ∷ rest) = if same_step s' s then 0 else suc (index_of s rest)

unfoldable pub step_index : Step → ℕ
unfolding index_of steps_for track_of
step_index s = index_of s (steps_for (track_of s))

unfoldable pub next_step : Step → Option Step
unfolding index_of steps_for track_of
next_step s =
    let order = steps_for (track_of s) in
    let i = index_of s order in if ltb (i + 1) (length order) then get_elem? order (i + 1) else none

unfoldable pub last_of : List Step → Option Step
last_of [] = none
last_of (s ∷ []) = some s
last_of (s ∷ s' ∷ rest) = last_of (s' ∷ rest)

-- `step is STEP_ORDER_BY_TRACK[track_of(step)][-1]`
unfoldable pub is_terminal : Step → Bool
unfolding last_of steps_for track_of same_step
is_terminal s = elim (last_of (steps_for (track_of s))) [ none ↦ false | some l ↦ same_step s l ]
