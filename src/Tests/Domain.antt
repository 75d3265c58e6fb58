-- ===== src/Tests/Domain.antt =====
-- Runs of the state machine.
use cortex_tutor.Prelude.{◌+◌, ◌≤◌, min, ◌≡◌, refl, ◌↔◌, List, [], ◌∷◌, arith, length, count}
use cortex_tutor.Domain.Steps.{
  plan, explain, same_step, track_of, step_index, next_step, is_terminal,
}
use cortex_tutor.Domain.Verdict.{pass, retry, question, is_pass, GateVerdict}
use cortex_tutor.Domain.Fsm.{
  max_hint_level, max_attempts, completed, put_score, find_score, transition, start, run,
}
use cortex_tutor.Domain.Fsm.Moves.{transition-retry}
use cortex_tutor.Domain.Fsm.Progress.{
  progress, ladder, passed, IsSound, run-progress, run-IsSound, start-IsSound, run-completed_iff,
}

abbrev passing : GateVerdict
passing = record {
  verdict = pass;
  score = 80;
  rubric_hits = [];
  missing = [];
  hint = [];
  next_hint_level = 0;
}

abbrev retrying : GateVerdict
retrying = record passing { verdict = retry; score = 0; next_hint_level = 1 }

abbrev asking : GateVerdict
asking = record passing { verdict = question }

program : Unit {0}
unfolding run transition start put_score find_score next_step step_index track_of same_step is_pass
    count is_terminal
program = tt

-- The whole conceptual ladder, with a retry and a question on the way.
abbrev history : List GateVerdict
history = passing ∷ retrying ∷ asking ∷ passing ∷ passing ∷ passing ∷ []

history_completes : (run (start explain) history).status ≡ completed
unfolding program
history_completes = refl

three_retries : (run (start plan) (retrying ∷ retrying ∷ retrying ∷ [])).hint_level ≡ 3
unfolding program
three_retries = refl

transition-retry_example :
    let st' = (transition (start plan) retrying).state in
    (st'.attempts ≡ (start plan).attempts + 1)
    × ((start plan).hint_level ≤ st'.hint_level)
    × (st'.hint_level ≤ max_hint_level)
    × (max_attempts ≤ st'.attempts → st'.hint_level ≡ max_hint_level)
unfolding program
transition-retry_example = transition-retry (start plan) retrying refl refl (omega arith)

run-progress_example :
    (track_of (run (start explain) history).step ≡ track_of (start explain).step)
    × (progress (run (start explain) history)
        ≡ min (progress (start explain) + count passed history) (length (ladder (start explain))))
run-progress_example = run-progress (start explain) history

run-IsSound_example : IsSound (run (start explain) history)
unfolding program
run-IsSound_example = run-IsSound (start explain) history (start-IsSound explain refl)

run-completed_iff_example :
    ((run (start explain) history).status ≡ completed)
    ↔ (length (ladder (start explain)) ≤ step_index (start explain).step + count passed history)
unfolding program
run-completed_iff_example = run-completed_iff (start explain) history refl
