-- ===== src/Gate/Answer.antt =====
-- `compose_answer` and `_cap` of tutor/orchestration/gate.py: the learner's answer with the
-- workbench evidence, or its absence, folded in.
use cortex_tutor.Prelude.{
  ℕ, Bool, true, false, Option, none, some, List, [], ◌∷◌, ◌++◌, leb, if◌then◌else◌, length, take,
  get_or,
}
use cortex_tutor.Prelude.Text.{Text, codes, is_empty, join, is_blank, strip}
use cortex_tutor.Domain.Steps.{Step, implement, test}

abbrev pub code_cap : ℕ
code_cap = 20000

abbrev pub run_result_cap : ℕ
run_result_cap = 4000

-- `CODE_STEPS`
unfoldable pub is_code_step : Step → Bool
is_code_step implement = true
is_code_step test = true
is_code_step _ = false

unfoldable pub cap : Text → ℕ → Text
cap value limit =
    if leb (length value) limit then value else take limit value ++ codes "\n… (truncated)"

abbrev pub no_code_marker : Text
no_code_marker = codes "[workbench: no code attached to this message]"

abbrev pub no_run_marker : Text
no_run_marker = codes "[run result: none]"

-- `value and value.strip()`, as a text if there is one
unfoldable pub present : Option Text → Option Text
present none = none
present (some t) = if is_blank t then none else some t

-- `lower` stands for `str.lower` of the language's name.
module _ (lower : Text → Text) where
  unfoldable pub code_block : Option Text → Text → Text
  unfolding cap
  code_block language code =
      let lang = lower (strip (get_or language [])) in
      codes "[workbench snapshot — "
      ++ ((if is_empty lang then codes "code" else lang)
          ++ (codes "]\n```" ++ (lang ++ (codes "\n" ++ (cap code code_cap ++ codes "\n```")))))

  unfoldable pub run_block : Option Text → Text
  unfolding cap present
  run_block run_result = elim (present run_result) [
    | some r ↦ codes "[run result]\n" ++ cap r run_result_cap
    | none ↦ no_run_marker
  ]

  unfoldable pub evidence_parts : Option Text → Option Text → Option Text → List Text
  unfolding present
  evidence_parts code language run_result = elim (present code) [
    | some c ↦ code_block language c ∷ run_block run_result ∷ []
    | none ↦ no_code_marker ∷ []
  ]

  unfoldable pub compose_answer : Text → Step → Option Text → Option Text → Option Text → Text
  unfolding is_code_step
  compose_answer answer step code language run_result =
      if is_code_step step
      then join (codes "\n\n") (answer ∷ evidence_parts code language run_result)
      else answer
