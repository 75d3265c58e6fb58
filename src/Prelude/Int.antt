-- ===== src/Prelude/Int.antt =====
-- Python's integers, where they may be negative.
use Prim.Native.Nat.{ℕ, suc, ◌+◌, ◌-◌, min}

-- `negsuc n` is -(n + 1).
pub data ℤ : Type 0 where
  pos : ℕ → ℤ
  negsuc : ℕ → ℤ

-- `abs(b - n)` for a natural number `b`
unfoldable pub distance : ℤ → ℕ → ℕ
distance (pos n) b = (b - n) + (n - b)
distance (negsuc n) b = b + suc n

-- `max(0, min(top, n))`
unfoldable pub clamp : ℕ → ℤ → ℕ
clamp top (pos n) = min top n
clamp top (negsuc n) = 0
