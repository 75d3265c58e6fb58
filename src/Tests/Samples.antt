-- ===== src/Tests/Samples.antt =====
-- Concrete worlds for the tests: a validator that reads the schema literally, float operations, a
-- provider that answers a fixed payload, a learner's session.
use cortex_tutor.Prelude.{
  ℕ, ◌+◌, ◌-◌, ◌≤◌, ◌≡◌, Bool, true, Option, none, some, List, arith, ltb, ◌==◌, if◌then◌else◌, any,
}
use cortex_tutor.Prelude.Text.{Text, codes}
use cortex_tutor.Prelude.Int.{ℤ, pos}
use cortex_tutor.Prelude.Result.{overflow_error, ok, err}
use cortex_tutor.Json.{Json, null, int, str, arr, nil, cons, Fields, end, field, FloatOps, find}
use cortex_tutor.Domain.Verdict.{Verdict, GateVerdict, is_score, IsValid}
use cortex_tutor.Gate.Validate.{
  read_verdict, read_score, read_level, read_list, read_hint, only_known, Conforms, Validator,
}
use cortex_tutor.Gate.Evaluate.{Rubric, GateProvider, Ambient}

-- The parts of a payload, each read, as a verdict of the schema.
unfoldable pub assemble :
    Bool
    → Option Verdict
    → Option ℕ
    → Option (List Text)
    → Option (List Text)
    → Option Text
    → Option ℕ
    → Option GateVerdict
assemble true (some v) (some s) (some r) (some m) (some h) (some l) =
    some (record {
      verdict = v;
      score = s;
      rubric_hits = r;
      missing = m;
      hint = h;
      next_hint_level = l;
    })
assemble _ _ _ _ _ _ _ = none

unfoldable pub reference_validate : Fields → Option GateVerdict
unfolding assemble
reference_validate p =
    assemble (only_known p) (read_verdict (find "verdict" p)) (read_score (find "score" p))
      (read_list (find "rubric_hits" p)) (read_list (find "missing" p)) (read_hint (find "hint" p))
      (read_level (find "next_hint_level" p))

pub reference-accepts :
    (p : Fields) (v : GateVerdict) → Conforms p v → reference_validate p ≡ some v
unfolding reference_validate
reference-accepts p v c = ground arith

pub reference-same_verdict :
    (p : Fields) (v : GateVerdict)
    → reference_validate p ≡ some v
    → read_verdict (find "verdict" p) ≡ some v.verdict
unfolding reference_validate
reference-same_verdict p v h = ground arith

read_score-allowed : (o : Option Json) (n : ℕ) → read_score o ≡ some n → is_score n ≡ true
unfolding read_score is_score any
read_score-allowed o n h = ground arith

read_level-allowed : (o : Option Json) (n : ℕ) → read_level o ≡ some n → n ≤ 3
unfolding read_level
read_level-allowed o n h = ground arith

pub reference-in_schema : (p : Fields) (v : GateVerdict) → reference_validate p ≡ some v → IsValid v
unfolding reference_validate
reference-in_schema p v h = ground (
  arith,
  read_score-allowed (find "score" p) v.score,
  read_level-allowed (find "next_hint_level" p) v.next_hint_level,
)

pub reference-same_score :
    (p : Fields) (v : GateVerdict) (n : ℤ)
    → reference_validate p ≡ some v
    → find "score" p ≡ some (int n)
    → n ≡ pos v.score
unfolding reference_validate read_score
reference-same_score p v n h e = ground arith

abbrev pub reference_validator : Validator
reference_validator = record {
  validate = reference_validate;
  accepts = reference-accepts;
  in_schema = reference-in_schema;
  same_verdict = reference-same_verdict;
  same_score = reference-same_score;
}

-- Floats that are whole numbers, by their value; 1000 stands for an infinity.
abbrev pub whole_floats : FloatOps
whole_floats = record {
  gap = λ b x. (b - x) + (x - b);
  less = ltb;
  same = ◌==◌;
  to_int = λ x. if x == 1000 then err overflow_error else ok (pos x);
}

abbrev pub passing : Fields
passing = field "verdict" (str (codes "pass")) (field "score" (int (pos 80)) end)

-- A near miss: the score is off the scale, and a list field is null.
abbrev pub near_miss : Fields
near_miss =
    field "verdict" (str (codes "pass")) (field "score" (int (pos 75)) (field "missing" null end))

-- A verdict that is a list.
abbrev pub listed : Fields
listed = field "verdict" (arr (cons (str (codes "pass")) nil)) end

abbrev pub sample_rubric : Rubric
sample_rubric = record {
  coach_prompt = λ t. codes "coach";
  gate_prompt = λ t. codes "gate";
  step_guide = λ s. codes "guide";
}

abbrev pub sample_ambient : Ambient
sample_ambient = record { rubric = sample_rubric; elapsed_ms = 7; sha12 = λ t. "abc" }

abbrev pub answering : Fields → GateProvider
answering raw = record { gate = λ system messages. ok raw; kind = "fake"; model_id = "m" }
