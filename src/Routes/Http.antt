-- ===== src/Routes/Http.antt =====
-- What the handlers of tutor/routes/sessions.py share: the application's state, the rate limit, and
-- the reading of a body's values. A turn's identifier is parsed by a parameter (`uuid.UUID`).
use cortex_tutor.Prelude.{
  ℕ, ◌%◌, ◌==◌, String, Bool, true, false, not, Option, none, some, List, [], ◌∷◌, ltb,
  if◌then◌else◌, length,
}
use cortex_tutor.Prelude.Result.{Error, http, model_not_allowed, Result, ok, err}
use cortex_tutor.Prelude.Text.{Text, is_empty, text_eq}
use cortex_tutor.Prelude.Int.{pos}
use cortex_tutor.Json.{Json, null, bool, int, float, str, arr, obj, nil, cons, end, field}
use cortex_tutor.Domain.Steps.{problem, conceptual, Step, steps_for}
use cortex_tutor.Gate.Evaluate.{step_value}
use cortex_tutor.Persistence.Models.{Db}
use cortex_tutor.Persistence.Transaction.{Exec, in_transaction}
use cortex_tutor.Access.Limiter.{
  Limiter, Check, admitted, refused, Bucket, turn, session, bundle, read, check,
}

pub record App : Type 0 where
  pub db : Db
  pub limiters : Bucket → Limiter

unfoldable pub same_bucket : Bucket → Bucket → Bool
same_bucket turn turn = true
same_bucket session session = true
same_bucket bundle bundle = true
same_bucket read read = true
same_bucket _ _ = false

unfoldable pub put_limiter : Bucket → Limiter → (Bucket → Limiter) → Bucket → Limiter
put_limiter b l limiters c = if same_bucket b c then l else limiters c

-- `_ratelimit`, and then the handler's body if the request is admitted
unfoldable pub limited : {A : Type 0} → Check → Exec A → Db → Result A × Db
limited admitted body db = in_transaction body db
limited (refused retry_after) body db = (err (http 429), db)
limited Check.index_error body db = (err Error.index_error, db)

unfoldable pub handle : {A : Type 0} → ℕ → Bucket → String → Exec A → App → Result A × App
unfolding limited put_limiter
handle now bucket sub body app =
    let (c, l) = check now sub (app.limiters bucket) in
    let (r, db) = limited c body app.db in
    (r, record { db = db; limiters = put_limiter bucket l app.limiters })

-- `bool(value)`; a float is zero if its bits are all 0, but for the sign.
unfoldable pub truthy : Json → Bool
truthy null = false
truthy (bool b) = b
truthy (int (pos n)) = not (n == 0)
truthy (int n) = true
truthy (float x) = not (x % 0x8000000000000000 == 0)
truthy (str t) = not (is_empty t)
truthy (arr nil) = false
truthy (arr (cons v vs)) = true
truthy (obj end) = false
truthy (obj (field k v fs)) = true

unfoldable pub find_step : Text → List Step → Result Step
find_step t [] = err (http 422)
find_step t (s ∷ steps) = if text_eq (step_value s) t then ok s else find_step t steps

-- The step of a body; a missing one and one that is not a text are 422, too.
unfoldable pub parse_step : Json → Result Step
unfolding find_step
parse_step (str t) = elim (find_step t (steps_for problem)) [
  | ok s ↦ ok s
  | err e ↦ find_step t (steps_for conceptual)
]
parse_step _ = err (http 422)

unfoldable pub parse_turn_id : (Json → Result ℕ) → Json → Result (Option ℕ)
unfolding truthy
parse_turn_id uuid raw =
    if truthy raw then elim (uuid raw) [ ok t ↦ ok (some t) | err e ↦ err e ] else ok none

-- One round of the loop over `caps`: an optional text of bounded length.
unfoldable pub capped : ℕ → Json → Result (Option Text)
capped cap null = ok none
capped cap (str t) = if ltb cap (length t) then err (http 413) else ok (some t)
capped cap _ = err (http 422)

-- The same for a value that was found not to be None.
unfoldable pub capped_text : ℕ → Json → Result Text
capped_text cap (str t) = if ltb cap (length t) then err (http 413) else ok t
capped_text cap _ = err (http 422)

-- `except ModelNotAllowed: raise HTTPException(422)`
unfoldable pub not_allowed_as_422 : {A : Type 0} → Result A → Result A
not_allowed_as_422 (err model_not_allowed) = err (http 422)
not_allowed_as_422 r = r
