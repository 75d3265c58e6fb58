-- ===== src/Access/Limiter.antt =====
-- tutor/ratelimit.py: the fixed-window limiter, with one list of times for each key. The clock is
-- monotonic, in ticks of any length; `t > now - window` is read as `now < t + window`.
pub mod Bound
use cortex_tutor.Prelude.{
  ℕ, ◌+◌, ◌-◌, ◌*◌, String, Bool, List, [], ◌∷◌, ◌++◌, ltb, leb, if◌then◌else◌, filter, length,
  str_eq,
}

pub record Limiter : Type 0 where
  pub limit : ℕ
  pub window : ℕ
  pub hits : String → List ℕ

-- What a check does: it returns, or raises a 429 with its "Retry-After"; a limiter whose limit is 0
-- has no first hit to compute that from, and raises an IndexError.
pub data Check : Type 0 where
  admitted index_error : Check
  refused : ℕ → Check

unfoldable pub in_window : ℕ → ℕ → ℕ → Bool
in_window window now t = ltb now (t + window)

-- The hits that are left at a time.
unfoldable pub evict : ℕ → ℕ → List ℕ → List ℕ
unfolding in_window
evict window now hits = filter (in_window window now) hits

unfoldable pub refuse : ℕ → ℕ → List ℕ → Check
refuse window now [] = index_error
refuse window now (t ∷ hits) = refused ((window - (now - t)) + 1)

-- The hits of one key after a check, and what the check does.
unfoldable pub check_key : ℕ → ℕ → ℕ → List ℕ → Check × List ℕ
unfolding evict refuse
check_key limit window now hits =
    let left = evict window now hits in
    if leb limit (length left) then (refuse window now left, left) else (admitted, left ++ now ∷ [])

-- `self._hits[key] = hits`
unfoldable pub put_hits : String → List ℕ → (String → List ℕ) → String → List ℕ
put_hits key hits table k = if str_eq k key then hits else table k

unfoldable pub check : ℕ → String → Limiter → Check × Limiter
unfolding check_key put_hits
check now key l =
    let (c, hits) = check_key l.limit l.window now (l.hits key) in
    (c, record l { hits = put_hits key hits l.hits })

abbrev pub new_limiter : ℕ → ℕ → Limiter
new_limiter limit window = record { limit = limit; window = window; hits = λ key. [] }

-- The buckets of `make_limiters`; the windows are 60 seconds.
pub data Bucket : Type 0 where
  turn session bundle read : Bucket

unfoldable pub make_limiters : ℕ → Bucket → Limiter
make_limiters second turn = new_limiter 30 (60 * second)
make_limiters second session = new_limiter 15 (60 * second)
make_limiters second bundle = new_limiter 60 (60 * second)
make_limiters second read = new_limiter 120 (60 * second)
