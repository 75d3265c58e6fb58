-- ===== src/Evals/Schema.antt =====
-- evals/schema.py: labelled cases, and the files of one JSON object to a line that hold them. JSON
-- itself (`json.dumps` of pydantic's `model_dump`, `model_validate_json`) is a parameter.
use cortex_tutor.Prelude.{
  ℕ, Bool, true, false, ◌&&◌, Option, List, [], ◌∷◌, ◌++◌, map, ◌==◌, any, if◌then◌else◌,
}
use cortex_tutor.Prelude.Result.{value_error, Result, ok, err, ◌>>=◌, ◌>>◌}
use cortex_tutor.Prelude.Text.{Text, is_empty, join, text_eq, is_blank}
use cortex_tutor.Domain.Steps.{Step}
use cortex_tutor.Domain.Verdict.{Verdict, pass, retry, off_topic, question}
use cortex_tutor.Gate.Evaluate.{ChatMessage}

unfoldable pub same_verdict : Verdict → Verdict → Bool
same_verdict pass pass = true
same_verdict retry retry = true
same_verdict off_topic off_topic = true
same_verdict question question = true
same_verdict _ _ = false

pub record Expected : Type 0 where
  pub allowed_verdicts : List Verdict
  pub min_score : Option ℕ
  pub rationale : Text

-- `verdict in self.allowed_verdicts`
unfoldable pub allows : Expected → Verdict → Bool
unfolding same_verdict
allows e v = any (same_verdict v) e.allowed_verdicts

pub data Kind : Type 0 where
  recorded cross_step_probe synthetic : Kind

-- Where a case comes from: a session's message, or two cases.
pub data Source : Type 0 where
  of_session : Text → ℕ → Source
  of_cases : Text → Text → Source

pub record Case : Type 0 where
  pub case_id : Text
  pub kind : Kind
  pub problem_id : Text
  pub step : Step
  pub transcript : List ChatMessage
  pub answer : Text
  pub code : Option Text
  pub language : Option Text
  pub run_result : Option Text
  pub problem_context : Text
  pub expected : Option Expected
  pub labeller : Option Text
  pub source : Option Source

-- Line ends of a text file, given whether the last character was "\r".
unfoldable pub translate : Bool → Text → Text
translate after_cr [] = []
translate after_cr (c ∷ s) =
    let rest = translate (c == 13) s in
    if c == 13 then 10 ∷ rest else if after_cr && c == 10 then rest else c ∷ rest

-- `path.read_text()`: "\r\n" and "\r" become "\n".
unfoldable pub universal_newlines : Text → Text
unfolding translate
universal_newlines content = translate false content

-- The characters that `str.splitlines` breaks lines at.
unfoldable pub is_line_break : ℕ → Bool
is_line_break c = any (λ d. d == c) (10 ∷ 11 ∷ 12 ∷ 13 ∷ 28 ∷ 29 ∷ 30 ∷ 0x85 ∷ 0x2028 ∷ 0x2029 ∷ [])

-- `splitlines()` of a text with no "\r", after the part of a line that was read.
unfoldable pub split_lines : Text → Text → List Text
split_lines line [] = if is_empty line then [] else line ∷ []
split_lines line (c ∷ s) =
    let rest = split_lines (if is_line_break c then [] else line ++ c ∷ []) s in
    if is_line_break c then line ∷ rest else rest

-- `json.dumps(c.model_dump(mode="json"), ensure_ascii=False)` and `Case.model_validate_json`
pub record CaseJson : Type 0 where
  pub dumps : Case → Text
  pub validate : Text → Result Case

unfoldable pub is_seen : Text → List Text → Bool
is_seen case_id seen = any (λ s. text_eq s case_id) seen

unfoldable pub check_unique : List Text → List Case → Result (Unit {0})
unfolding is_seen
check_unique seen [] = ok tt
check_unique seen (c ∷ cs) =
    let rest = check_unique (c.case_id ∷ seen) cs in
    if is_seen c.case_id seen then err value_error else rest

module _ (json : CaseJson) where
  -- `[Case.model_validate_json(line) for line in lines if line.strip()]`
  unfoldable pub validate_lines : List Text → Result (List Case)
  validate_lines [] = ok []
  validate_lines (line ∷ rest) =
      let more = validate_lines rest in
      if is_blank line then more else elim (json.validate line) [
        | err e ↦ err e
        | ok c ↦ elim more [ ok cs ↦ ok (c ∷ cs) | err e ↦ err e ]
      ]

  -- The content of the file, read.
  unfoldable pub load_cases : Text → Result (List Case)
  unfolding validate_lines check_unique universal_newlines split_lines
  load_cases content = do
    cases ← validate_lines (split_lines [] (universal_newlines content))
    check_unique [] cases
    ok cases

  -- The content of the file, as it is written.
  unfoldable pub dump_cases : List Case → Text
  dump_cases cases = join (10 ∷ []) (map json.dumps cases) ++ 10 ∷ []
