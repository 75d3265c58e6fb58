-- ===== src/Evals/Shapes.antt =====
-- evals/gate_runner.py, `failure_shapes`: how a raw verdict missed the schema.
use cortex_tutor.Prelude.{
  ℕ, ◌≡◌, refl, Bool, false, Option, none, some, List, [], ◌∷◌, ◌++◌, any, ◌==◌, if◌then◌else◌,
  arith,
}
use cortex_tutor.Prelude.Int.{ℤ, pos, negsuc}
use cortex_tutor.Prelude.Result.{type_error, Result, ok, err, ◌>>=◌}
use cortex_tutor.Prelude.Text.{Text, codes}
use cortex_tutor.Json.{Json, null, int, float, str, arr, obj, Fields, find}
use cortex_tutor.Domain.Verdict.{Verdict, GateVerdict, is_score, score_values}
use cortex_tutor.Gate.Coerce.{parse_verdict}
use cortex_tutor.Gate.Validate.{
  read_verdict, read_score, read_level, read_list, only_known, Conforms,
}

-- `raw.get("verdict") not in {v.value for v in Verdict}`: a set hashes what it looks for.
unfoldable pub verdict_shape : Option Json → Result (List Text)
verdict_shape none = ok (codes "missing_verdict" ∷ [])
verdict_shape (some (str t)) = elim (parse_verdict t) [
  | some v ↦ ok []
  | none ↦ ok (codes "unknown_verdict" ∷ [])
]
verdict_shape (some (arr xs)) = err type_error
verdict_shape (some (obj fs)) = err type_error
verdict_shape (some _) = ok (codes "unknown_verdict" ∷ [])

unfoldable pub in_values : List ℕ → ℤ → Bool
in_values allowed (pos n) = any (λ b. b == n) allowed
in_values allowed (negsuc n) = false

-- A number that is given is one of those allowed; `equals b x` is `b == x` for a float.
unfoldable pub number_shape : (ℕ → ℕ → Bool) → List ℕ → Text → Option Json → List Text
unfolding in_values
number_shape equals allowed shape none = []
number_shape equals allowed shape (some null) = []
number_shape equals allowed shape (some (int n)) = if in_values allowed n then [] else shape ∷ []
number_shape equals allowed shape (some (float x)) =
    if any (λ b. equals b x) allowed then [] else shape ∷ []
number_shape equals allowed shape (some _) = shape ∷ []

unfoldable pub list_shape : Text → Option Json → List Text
list_shape f none = []
list_shape f (some (arr xs)) = []
list_shape f (some null) = (f ++ codes "_as_null") ∷ []
list_shape f (some (str t)) = (f ++ codes "_as_string") ∷ []
list_shape f (some _) = (f ++ codes "_as_other") ∷ []

unfoldable pub shapes_of : (ℕ → ℕ → Bool) → Fields → Result (List Text)
unfolding verdict_shape number_shape list_shape only_known
shapes_of equals raw = do
  unread ← verdict_shape (find "verdict" raw)
  ok (
      unread
      ++ (number_shape equals score_values (codes "score_out_of_enum") (find "score" raw)
          ++ (list_shape (codes "rubric_hits") (find "rubric_hits" raw)
              ++ (list_shape (codes "missing") (find "missing" raw)
                  ++ (number_shape equals (0 ∷ 1 ∷ 2 ∷ 3 ∷ []) (codes "hint_level_out_of_range")
                        (find "next_hint_level" raw)
                      ++ (if only_known raw then [] else codes "extra_keys" ∷ []))))))

unfoldable pub failure_shapes : (ℕ → ℕ → Bool) → Option Fields → Result (List Text)
unfolding shapes_of
failure_shapes equals none = ok (codes "provider_error" ∷ [])
failure_shapes equals (some raw) = shapes_of equals raw

verdict_shape-read :
    (o : Option Json) (v : Verdict) → read_verdict o ≡ some v → verdict_shape o ≡ ok []
unfolding verdict_shape read_verdict
verdict_shape-read o v h = ground arith

score_shape-read :
    (equals : ℕ → ℕ → Bool) (shape : Text) (o : Option Json) (n : ℕ)
    → read_score o ≡ some n
    → number_shape equals score_values shape o ≡ []
unfolding number_shape read_score is_score
score_shape-read equals shape o n h = ground arith

level_shape-read :
    (equals : ℕ → ℕ → Bool) (shape : Text) (o : Option Json) (n : ℕ)
    → read_level o ≡ some n
    → number_shape equals (0 ∷ 1 ∷ 2 ∷ 3 ∷ []) shape o ≡ []
unfolding number_shape read_level any
level_shape-read equals shape o n h = ground arith

list_shape-read :
    (f : Text) (o : Option Json) (ts : List Text) → read_list o ≡ some ts → list_shape f o ≡ []
unfolding list_shape read_list
list_shape-read f o ts h = ground arith

-- A payload that conforms with the schema has no failure shape.
pub failure_shapes-Conforms :
    (equals : ℕ → ℕ → Bool) (p : Fields) (v : GateVerdict)
    → Conforms p v
    → failure_shapes equals (some p) ≡ ok []
unfolding failure_shapes shapes_of
failure_shapes-Conforms equals p v c =
    rw
      (
        verdict_shape-read (find "verdict" p) v.verdict c.verdict,
        score_shape-read equals (codes "score_out_of_enum") (find "score" p) v.score c.score,
        list_shape-read (codes "rubric_hits") (find "rubric_hits" p) v.rubric_hits c.rubric_hits,
        list_shape-read (codes "missing") (find "missing" p) v.missing c.missing,
        level_shape-read equals (codes "hint_level_out_of_range") (find "next_hint_level" p)
            v.next_hint_level c.level,
        c.known,
      )
      refl
