-- ===== src/Domain/Fsm/Progress.antt =====
-- Histories of tutor/domain/fsm.py: how far a session gets, and what it has recorded on the way.
use cortex_tutor.Prelude.{
  ℕ, suc, ◌+◌, ◌≤◌, ◌<◌, min, ◌≡◌, ◌↔◌, refl, ap, ◌∙◌, Bool, true, false, none, some, List, [], ◌∷◌,
  arith, ltb, if◌then◌else◌, length, get_elem?, count,
}
use cortex_tutor.Domain.Steps.{Step, clarify, steps_for, track_of, step_index}
use cortex_tutor.Domain.Verdict.{Verdict, is_pass, GateVerdict}
use cortex_tutor.Domain.Fsm.{
  max_hint_level, max_attempts, SessionStatus, active, completed, SessionState, put_score,
  find_score, transition, start, run,
}
use cortex_tutor.Domain.Steps.Ladder.{same_step_iff, track_table-total, next_step-IsAfter}
use cortex_tutor.Domain.Fsm.Moves.{find_score-put_score}

abbrev pub ladder : SessionState → List Step
ladder st = steps_for (track_of st.step)

-- How many steps of the ladder are cleared.
abbrev pub cleared : SessionState → SessionStatus → ℕ
cleared st active = step_index st.step
cleared st completed = length (steps_for (track_of st.step))

abbrev pub progress : SessionState → ℕ
progress st = cleared st st.status

abbrev pub passed : GateVerdict → Bool
passed v = is_pass v.verdict

abbrev pub step_count : Verdict → ℕ
step_count v = if is_pass v then 1 else 0

step_index-lt : (s : Step) → step_index s < length (steps_for (track_of s))
unfolding step_index track_of
step_index-lt clarify = omega arith
step_index-lt _ = omega arith

progress-le : (st : SessionState) → progress st ≤ length (ladder st)
progress-le st = ground (arith, step_index-lt st.step)

-- One transition: the track stays, and a pass clears one more step, while there is one.
pub transition-progress :
    (st : SessionState) (v : GateVerdict)
    → (track_of (transition st v).state.step ≡ track_of st.step)
      × (progress (transition st v).state
          ≡ min (progress st + step_count v.verdict) (length (ladder st)))
unfolding transition is_pass
transition-progress st v = ground (arith, next_step-IsAfter st.step, step_index-lt st.step)

-- A history of verdicts clears one step for each PASS in it, up to the length of the ladder: no
-- other verdict moves the session, no step is skipped, and the track never changes.
pub run-progress :
    (st : SessionState) (vs : List GateVerdict)
    → (track_of (run st vs).step ≡ track_of st.step)
      × (progress (run st vs) ≡ min (progress st + count passed vs) (length (ladder st)))
unfolding run count
run-progress st [] = (refl, omega (arith, progress-le st))
run-progress st (v ∷ vs) =
    let (same, more) = run-progress (transition st v).state vs in
    let (track, one) = transition-progress st v in
    let size = ap (λ t. length (steps_for t)) track in
    (same ∙ track, more ∙ ground (arith, one, size))

abbrev pub has_score : Step → List (Step × ℕ) → Bool
has_score s scores = elim (find_score s scores) [ none ↦ false | some n ↦ true ]

-- The hints follow the attempts, and the steps of the track that carry a score are exactly those
-- below the progress.
pub record IsSound (st : SessionState) : Type 0 where
  pub capped : st.hint_level ≤ max_hint_level
  pub earned : min max_attempts st.attempts ≤ st.hint_level
  pub graded :
      (t : Step)
      → track_of t ≡ track_of st.step
      → has_score t st.scores ≡ ltb (step_index t) (progress st)

step_index-injective : (s t : Step) → track_of t ≡ track_of s → step_index t ≡ step_index s → s ≡ t
step_index-injective s t same index = cc (
  (track_table-total s).1,
  (track_table-total t).1,
  ap (λ u. get_elem? (steps_for u) (step_index t)) same,
  ap (get_elem? (steps_for (track_of s))) index,
)

graded-put_score :
    (s t : Step) (n : ℕ) (scores : List (Step × ℕ))
    → track_of t ≡ track_of s
    → has_score t scores ≡ ltb (step_index t) (step_index s)
    → has_score t (put_score s n scores) ≡ ltb (step_index t) (suc (step_index s))
graded-put_score s t n scores same h =
    ground
      (arith, find_score-put_score s t n scores, same_step_iff s t, step_index-injective s t same)

transition-IsSound :
    (st : SessionState) (v : GateVerdict) → IsSound st → IsSound (transition st v).state
unfolding transition
transition-IsSound st v h = record {
  capped = ground arith;
  earned = ground arith;
  graded = λ t same.
      let own : track_of t ≡ track_of st.step = same ∙ (transition-progress st v).0 in
      ground (
        arith,
        h.graded t own,
        graded-put_score st.step t v.score st.scores own,
        next_step-IsAfter st.step,
      );
}

-- After any history from a sound state, the hint level is at most 3 and at least the attempts (up
-- to 3), and a step of the track has a score exactly if the session has cleared it.
pub run-IsSound : (st : SessionState) (vs : List GateVerdict) → IsSound st → IsSound (run st vs)
unfolding run
run-IsSound st [] h = h
run-IsSound st (v ∷ vs) h = run-IsSound (transition st v).state vs (transition-IsSound st v h)

-- A fresh session on the first step of a track is sound.
pub start-IsSound : (s : Step) → step_index s ≡ 0 → IsSound (start s)
unfolding start find_score
start-IsSound s h = record {
  capped = omega arith;
  earned = omega arith;
  graded = λ t same. ground arith;
}

-- An active session is completed by a history of verdicts exactly if as many of them pass as steps
-- are left, the current one included.
pub run-completed_iff :
    (st : SessionState) (vs : List GateVerdict)
    → st.status ≡ active
    → ((run st vs).status ≡ completed) ↔ (length (ladder st) ≤ step_index st.step + count passed vs)
run-completed_iff st vs on =
    let (track, far) = run-progress st vs in
    let size = ap (λ t. length (steps_for t)) track in
    let short = step_index-lt (run st vs).step in
    ground (arith, far, size, short, step_index-lt st.step)
