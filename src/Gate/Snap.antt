-- ===== src/Gate/Snap.antt =====
-- The score that `_coerce` of tutor/orchestration/gate.py snaps to.
use cortex_tutor.Prelude.{
  ℕ, ◌≤◌, ◌<◌, ◌≡◌, ◌⊎◌, Bool, true, List, [], ◌∷◌, arith, ltb, ◌==◌, if◌then◌else◌, ==_iff, any,
  All,
}
use cortex_tutor.Prelude.Int.{ℤ, pos, distance}
use cortex_tutor.Domain.Verdict.{score_values, is_score}
use cortex_tutor.Gate.Coerce.{before, min_by, min_of, snap, snap_int}

abbrev pub IsNearer : (ℕ → ℕ) → ℕ → ℕ → Type 0
IsNearer key r b = (key r < key b) ⊎ ((key r ≡ key b) × (r ≤ b))

abbrev pub is_before : (ℕ → ℕ) → ℕ → ℕ → Bool
is_before key = before ltb ◌==◌ key

-- The allowed scores above 0.
abbrev higher_scores : List ℕ
higher_scores = 10 ∷ 20 ∷ 30 ∷ 40 ∷ 50 ∷ 60 ∷ 70 ∷ 80 ∷ 90 ∷ 100 ∷ []

IsNearer-trans : (key : ℕ → ℕ) (a b c : ℕ) → IsNearer key a b → IsNearer key b c → IsNearer key a c
IsNearer-trans key a b c p q = ground arith

pick-IsNearer :
    (key : ℕ → ℕ) (b best : ℕ)
    → let r = if is_before key b best then b else best in IsNearer key r best × IsNearer key r b
unfolding before
pick-IsNearer key b best = ground arith

min_by-IsNearer :
    (key : ℕ → ℕ) (best : ℕ) (bs : List ℕ)
    → let r = min_by (is_before key) best bs in IsNearer key r best × All (IsNearer key r) bs
unfolding min_by
min_by-IsNearer key best [] = ground arith
min_by-IsNearer key best (b ∷ bs) =
    let c = if is_before key b best then b else best in
    let (to_c, to_bs) = min_by-IsNearer key c bs in
    let (c_best, c_b) = pick-IsNearer key b best in
    (IsNearer-trans key _ c best to_c c_best, (IsNearer-trans key _ c b to_c c_b, to_bs))

any-min_by :
    (is_before : ℕ → ℕ → Bool) (best : ℕ) (bs : List ℕ)
    → any (λ b. b == min_by is_before best bs) (best ∷ bs) ≡ true
unfolding any min_by
any-min_by is_before best [] = ground arith
any-min_by is_before best (b ∷ bs) =
    ground (arith, any-min_by is_before (if is_before b best then b else best) bs)

-- Whatever the order and the key, floats included, the result is an allowed score.
pub snap-is_score : (less same : ℕ → ℕ → Bool) (key : ℕ → ℕ) → is_score (snap less same key) ≡ true
unfolding is_score snap min_of
snap-is_score less same key = any-min_by (before less same key) 0 higher_scores

-- An integer score is snapped to an allowed score that is nearest to it, and of two nearest ones
-- to the lower.
pub snap_int-IsNearer :
    (n : ℤ) → (is_score (snap_int n) ≡ true) × All (IsNearer (distance n) (snap_int n)) score_values
unfolding snap_int snap min_of
snap_int-IsNearer n =
    (snap-is_score ltb ◌==◌ (distance n), min_by-IsNearer (distance n) 0 higher_scores)

is_score-IsNearer :
    (key : ℕ → ℕ) (r n : ℕ) (bs : List ℕ)
    → any (λ b. b == n) bs ≡ true
    → All (IsNearer key r) bs
    → IsNearer key r n
unfolding any
is_score-IsNearer key r n [] h near = cc
is_score-IsNearer key r n (b ∷ bs) h near = ground (arith, is_score-IsNearer key r n bs, ==_iff b n)

-- An allowed score is left as it is.
pub snap_int_fixed : (n : ℕ) → is_score n ≡ true → snap_int (pos n) ≡ n
unfolding is_score distance
snap_int_fixed n h = ground (
  arith,
  is_score-IsNearer (distance (pos n)) (snap_int (pos n)) n score_values h
      (snap_int-IsNearer (pos n)).1,
)
