-- ===== src/Gate/Coerce.antt =====
-- `_coerce` and `_coerce_str_list` of tutor/orchestration/gate.py: the one-shot repair of a verdict
-- that did not validate. What Python raises on the way is an `err`.
use cortex_tutor.Prelude.{
  ℕ, String, Bool, Option, none, some, List, [], ◌∷◌, ltb, ◌==◌, if◌then◌else◌,
}
use cortex_tutor.Prelude.Text.{Text, codes, text_eq, is_blank}
use cortex_tutor.Prelude.Int.{ℤ, pos, distance, clamp}
use cortex_tutor.Prelude.Result.{◌>>=◌, type_error, Result, ok, err}
use cortex_tutor.Json.{
  Json, null, int, float, str, arr, obj, nil, cons, Fields, FloatOps, find, get, put,
}
use cortex_tutor.Domain.Verdict.{Verdict, pass, retry, off_topic, question, score_values}

-- `_VERDICTS`: the values of the enumeration, with what each stands for
abbrev pub verdict_table : List (Text × Verdict)
verdict_table =
    (codes "pass", pass)
    ∷ (codes "retry", retry)
    ∷ (codes "off_topic", off_topic)
    ∷ (codes "question", question)
    ∷ []

unfoldable pub find_verdict : Text → List (Text × Verdict) → Option Verdict
find_verdict t [] = none
find_verdict t ((s, v) ∷ rest) = if text_eq s t then some v else find_verdict t rest

unfoldable pub parse_verdict : Text → Option Verdict
parse_verdict t = find_verdict t verdict_table

-- `(d, b) < (best_d, best)` on tuples, for a key's order `less` and equality `same`
unfoldable pub before : (ℕ → ℕ → Bool) → (ℕ → ℕ → Bool) → (ℕ → ℕ) → ℕ → ℕ → Bool
before less same key b best =
    if same (key b) (key best) then ltb b best else less (key b) (key best)

-- `min(bs, key=...)`, from the best value so far
unfoldable pub min_by : (ℕ → ℕ → Bool) → ℕ → List ℕ → ℕ
min_by is_before best [] = best
min_by is_before best (b ∷ bs) = min_by is_before (if is_before b best then b else best) bs

-- `min(bs, key=...)`; of an empty list Python raises, and this is never asked.
unfoldable pub min_of : (ℕ → ℕ → Bool) → List ℕ → ℕ
unfolding min_by
min_of is_before [] = 0
min_of is_before (b ∷ bs) = min_by is_before b bs

-- The nearest allowed score; a tie goes to the lower one.
unfoldable pub snap : (ℕ → ℕ → Bool) → (ℕ → ℕ → Bool) → (ℕ → ℕ) → ℕ
snap less same key = min_of (before less same key) score_values

unfoldable pub snap_int : ℤ → ℕ
snap_int n = snap ltb ◌==◌ (distance n)

abbrev int_of : ℕ → Json
int_of n = int (pos n)

-- `out.get("verdict") not in _VERDICTS`: hashing a list or an object raises.
unfoldable pub coerce_verdict : Json → Fields → Result Fields
coerce_verdict (str t) d = elim (parse_verdict t) [
  | some v ↦ ok d
  | none ↦ ok (put "verdict" (str (codes "retry")) d)
]
coerce_verdict (arr xs) d = err type_error
coerce_verdict (obj fs) d = err type_error
coerce_verdict _ d = ok (put "verdict" (str (codes "retry")) d)

module _ (ops : FloatOps) where
  unfoldable pub coerce_score : Json → Fields → Fields
  coerce_score null d = d
  coerce_score (int n) d = put "score" (int_of (snap_int n)) d
  coerce_score (float x) d = put "score" (int_of (snap ops.less ops.same (λ b. ops.gap b x))) d
  coerce_score _ d = put "score" (int_of 0) d

  unfoldable pub coerce_level : Json → Fields → Result Fields
  coerce_level (int n) d = ok (put "next_hint_level" (int_of (clamp 3 n)) d)
  coerce_level (float x) d = do n ← ops.to_int x; ok (put "next_hint_level" (int_of (clamp 3 n)) d)
  coerce_level _ d = ok d

  -- `_coerce_str_list`
  unfoldable pub coerce_str_list : Json → Json
  coerce_str_list null = arr nil
  coerce_str_list (str s) = if is_blank s then arr nil else arr (cons (str s) nil)
  coerce_str_list v = v

  unfoldable pub coerce_list : String → Fields → Fields
  unfolding coerce_str_list
  coerce_list k d = elim (find k d) [ none ↦ d | some v ↦ put k (coerce_str_list v) d ]

  -- `_coerce`: the verdict, the score, the hint level and the two list fields, in this order
  unfoldable pub coerce : Fields → Result Fields
  coerce raw = do
    judged ← coerce_verdict (get "verdict" raw) raw
    let scored = coerce_score (get "score" judged) judged
    leveled ← coerce_level (get "next_hint_level" scored) scored
    ok (coerce_list "missing" (coerce_list "rubric_hits" leveled))
