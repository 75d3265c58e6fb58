-- ===== src/Domain/Verdict.antt =====
-- tutor/domain/verdict.py: the verdict that the gate must emit, after validation.
use cortex_tutor.Prelude.{ℕ, ◌≡◌, Bool, true, false, List, [], ◌∷◌, any, ◌==◌, ◌≤◌}
use cortex_tutor.Prelude.Text.{Text, codes}

pub data Verdict : Type 0 where
  pass retry off_topic question : Verdict

unfoldable pub is_pass : Verdict → Bool
is_pass pass = true
is_pass _ = false

abbrev pub score_values : List ℕ
score_values = 0 ∷ 10 ∷ 20 ∷ 30 ∷ 40 ∷ 50 ∷ 60 ∷ 70 ∷ 80 ∷ 90 ∷ 100 ∷ []

-- A validated verdict. That the score is one of `score_values` and the hint level at most 3 is
-- `IsValid`, which validation establishes.
pub record GateVerdict : Type 0 where
  pub verdict : Verdict
  pub score : ℕ
  pub rubric_hits : List Text
  pub missing : List Text
  pub hint : Text
  pub next_hint_level : ℕ

unfoldable pub is_score : ℕ → Bool
unfolding any
is_score n = any (λ b. b == n) score_values

pub record IsValid (v : GateVerdict) : Type 0 where
  pub allowed_score : is_score v.score ≡ true
  pub allowed_level : v.next_hint_level ≤ 3

abbrev pub default_hint : Text
default_hint = codes "Let's try that again."

-- The verdict that stands in when the gate's output cannot be trusted.
unfoldable pub retry_failsafe : Text → GateVerdict
retry_failsafe hint = record {
  verdict = retry;
  score = 0;
  rubric_hits = [];
  missing = [];
  hint = hint;
  next_hint_level = 0;
}
