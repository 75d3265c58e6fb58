-- ===== src/Domain/Steps/Ladder.antt =====
-- The order of tutor/domain/steps.py: each ladder is walked step by step, from its first to its last.
use cortex_tutor.Prelude.{
  suc, ◌≡◌, refl, ◌↔◌, true, false, Option, none, some, arith, length, get_elem?,
}
use cortex_tutor.Domain.Steps.{
  Track, problem, conceptual, Step, clarify, explain, Step-discrete, same_step, steps_for,
  find_track, track_table, track_of, first_step, index_of, step_index, next_step, is_terminal,
}

-- `a is b` decides equality of steps.
pub same_step_iff : (a b : Step) → (same_step a b ≡ true) ↔ (a ≡ b)
unfolding same_step
same_step_iff a b = ground (arith, Step-discrete a b)

-- Every step is a key of the reverse index, with the track whose ladder holds it at its index.
pub track_table-total :
    (s : Step)
    → (find_track s track_table ≡ some (track_of s))
      × (get_elem? (steps_for (track_of s)) (step_index s) ≡ some s)
unfolding track_of step_index find_track track_table index_of same_step
track_table-total clarify = (refl, refl)
track_table-total _ = (refl, refl)

-- What stands after a step: the next index of the same ladder, or the ladder's end.
abbrev pub IsAfter : Step → Option Step → Type 0
IsAfter s none = (suc (step_index s) ≡ length (steps_for (track_of s))) × (is_terminal s ≡ true)
IsAfter s (some t) =
    (track_of t ≡ track_of s) × (step_index t ≡ suc (step_index s)) × (is_terminal s ≡ false)

-- The next step is in the same track, at the next index; there is none exactly at the terminal
-- step, which stands at the last index of its ladder.
pub next_step-IsAfter : (s : Step) → IsAfter s (next_step s)
unfolding next_step is_terminal step_index track_of
next_step-IsAfter clarify = ground arith
next_step-IsAfter _ = ground arith

-- The first step of a track is in that track, at index 0.
pub first_step-index_zero :
    (t : Track) → (s : Step) × (first_step t ≡ some s) × (track_of s ≡ t) × (step_index s ≡ 0)
unfolding first_step track_of step_index
first_step-index_zero problem = (clarify, refl, refl, refl)
first_step-index_zero conceptual = (explain, refl, refl, refl)
