-- ===== src/Coach/Prompts.antt =====
-- The coach's prompts: tutor/orchestration/coach.py, and the combined prompt of
-- tutor/orchestration/byok.py. A number is written in decimals.
use cortex_tutor.Prelude.{ℕ, ◌+◌, Bool, List, [], ◌∷◌, ◌++◌, if◌then◌else◌}
use cortex_tutor.Prelude.Text.{Text, codes, join}
use cortex_tutor.Domain.Steps.{Track, problem, conceptual, Step, track_of}
use cortex_tutor.Domain.Verdict.{Verdict, off_topic, question, GateVerdict}
use cortex_tutor.Gate.Evaluate.{Rubric, step_prompt}

unfoldable pub build_coach_system : Rubric → Step → Text → Text
build_coach_system rubric step problem_context =
    step_prompt rubric (rubric.coach_prompt (track_of step)) step problem_context

unfoldable pub closer : Track → Text
closer problem = codes "the final Time/Space complexity"
closer conceptual = codes "how it connects to the bigger picture"

-- A hint level is at most 3, one digit.
unfoldable pub digit : ℕ → Text
digit n = (48 + n) ∷ []

unfoldable pub missing_text : List Text → Text
missing_text [] = codes "the criterion isn't fully met yet"
missing_text (m ∷ ms) = join (codes "; ") (m ∷ ms)

unfoldable pub nudge : GateVerdict → Text
unfolding missing_text digit
nudge v =
    codes "The learner has NOT cleared this step yet ("
    ++ (missing_text v.missing
        ++ (codes "). Give ONE targeted Socratic nudge at hint level "
            ++ (digit v.next_hint_level
                ++ codes
                    " — a leading question, never the answer. Stay spoiler-free for this step.")))

unfoldable pub staying_directive : Verdict → GateVerdict → Text
unfolding nudge
staying_directive question v =
    codes
      "The learner asked a question. Answer it concisely within this step's guardrails (no spoilers beyond what the step allows), then re-pose the step's question."
staying_directive off_topic v =
    codes "The learner drifted off-topic. Gently redirect them to the current step's question."
staying_directive _ v = nudge v

unfoldable pub directive : GateVerdict → Bool → Bool → Track → Text
unfolding closer staying_directive
directive v advanced completed track =
    if completed
    then codes
        "The learner just cleared the FINAL step. Give a short, warm wrap-up: one thing they did well, the single key takeaway, and "
      ++ (closer track ++ codes ".")
    else if advanced
    then codes
        "The learner cleared this step. Acknowledge it briefly and genuinely, then pose the opening question for the NEXT step."
    else staying_directive v.verdict v

-- The system prompt of `stream_coach`.
unfoldable pub coach_system : Rubric → Step → Text → GateVerdict → Bool → Bool → Text
unfolding build_coach_system directive
coach_system rubric step problem_context v advanced completed =
    build_coach_system rubric step problem_context
    ++ (codes "\n\n---\n\n## Your task this turn\n"
        ++ directive v advanced completed (track_of step))

-- `duty` is the fixed text of the two jobs (`_DUTY`).
unfoldable pub build_byok_system : Rubric → Text → Step → Text → Text
unfolding build_coach_system
build_byok_system rubric duty step problem_context =
    build_coach_system rubric step problem_context
    ++ (codes "\n\n---\n\n## Your task this turn (combined gate + coach call)\n\n" ++ duty)
