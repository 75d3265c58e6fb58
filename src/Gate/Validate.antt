-- ===== src/Gate/Validate.antt =====
-- The validator that tutor/orchestration/gate.py calls on the gate's output. It is pydantic's
-- `GateVerdict.model_validate`, a library, so it is a parameter. `Validator` states what pydantic
-- documents for the schema of tutor/domain/verdict.py: a payload that conforms to the schema is
-- accepted as what it says, and an accepted payload gives a verdict of the schema whose verdict,
-- integer score and hint are the payload's.
use cortex_tutor.Prelude.{
  ℕ, String, ◌≡◌, Bool, true, ◌&&◌, Option, none, some, List, [], ◌∷◌, str_eq, leb, if◌then◌else◌,
  any,
}
use cortex_tutor.Prelude.Text.{Text}
use cortex_tutor.Prelude.Int.{ℤ, pos}
use cortex_tutor.Json.{Json, int, str, arr, Items, nil, cons, Fields, end, field, find}
use cortex_tutor.Domain.Verdict.{Verdict, GateVerdict, is_score, IsValid}
use cortex_tutor.Gate.Coerce.{parse_verdict}

unfoldable pub read_texts : Items → Option (List Text)
read_texts nil = some []
read_texts (cons (str t) xs) = elim (read_texts xs) [ none ↦ none | some ts ↦ some (t ∷ ts) ]
read_texts (cons v xs) = none

unfoldable pub read_verdict : Option Json → Option Verdict
read_verdict (some (str t)) = parse_verdict t
read_verdict _ = none

-- A field with a default: `none` if it is there with another type or value.
unfoldable pub read_score : Option Json → Option ℕ
read_score none = some 0
read_score (some (int (pos n))) = if is_score n then some n else none
read_score (some _) = none

unfoldable pub read_level : Option Json → Option ℕ
read_level none = some 0
read_level (some (int (pos n))) = if leb n 3 then some n else none
read_level (some _) = none

unfoldable pub read_list : Option Json → Option (List Text)
unfolding read_texts
read_list none = some []
read_list (some (arr xs)) = read_texts xs
read_list (some _) = none

unfoldable pub read_hint : Option Json → Option Text
read_hint none = some []
read_hint (some (str t)) = some t
read_hint (some _) = none

abbrev pub known_keys : List String
known_keys = "verdict" ∷ "score" ∷ "rubric_hits" ∷ "missing" ∷ "hint" ∷ "next_hint_level" ∷ []

-- `extra="forbid"`
unfoldable pub only_known : Fields → Bool
only_known end = true
only_known (field k v rest) = any (λ j. str_eq j k) known_keys && only_known rest

-- The fields that a payload conforms with, each read as its type.
pub record Conforms (p : Fields) (v : GateVerdict) : Type 0 where
  pub verdict : read_verdict (find "verdict" p) ≡ some v.verdict
  pub score : read_score (find "score" p) ≡ some v.score
  pub rubric_hits : read_list (find "rubric_hits" p) ≡ some v.rubric_hits
  pub missing : read_list (find "missing" p) ≡ some v.missing
  pub hint : read_hint (find "hint" p) ≡ some v.hint
  pub level : read_level (find "next_hint_level" p) ≡ some v.next_hint_level
  pub known : only_known p ≡ true

pub record Validator : Type 0 where
  pub validate : Fields → Option GateVerdict
  pub accepts : (p : Fields) (v : GateVerdict) → Conforms p v → validate p ≡ some v
  pub in_schema : (p : Fields) (v : GateVerdict) → validate p ≡ some v → IsValid v
  pub same_verdict :
      (p : Fields) (v : GateVerdict)
      → validate p ≡ some v
      → read_verdict (find "verdict" p) ≡ some v.verdict
  pub same_score :
      (p : Fields) (v : GateVerdict) (n : ℤ)
      → validate p ≡ some v
      → find "score" p ≡ some (int n)
      → n ≡ pos v.score
