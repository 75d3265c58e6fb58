-- ===== src/Evals/Percentile.antt =====
-- The percentile of evals/gate_runner.py.
use cortex_tutor.Prelude.{
  ℕ, suc, zero, ◌≤◌, ◌<◌, ◌≡◌, refl, sym, ap, ◌∙◌, Bool, true, ◌||◌, some, List, [], ◌∷◌, any,
  length, get_elem?, arith, ◌==◌, ==_iff,
}
use cortex_tutor.Prelude.Int.{ℤ, clamp, pos, negsuc}
use cortex_tutor.Prelude.Result.{ok}
use cortex_tutor.Evals.Stats.{insert_asc, sorted, pct}

abbrev pub is_one_of : ℕ → List ℕ → Bool
is_one_of m xs = any (λ x. x == m) xs

insert_asc-length : (x : ℕ) (ys : List ℕ) → length (insert_asc x ys) ≡ suc (length ys)
unfolding insert_asc
insert_asc-length x [] = refl
insert_asc-length x (y ∷ ys) = ground (arith, insert_asc-length x ys)

sorted-length : (xs : List ℕ) → length (sorted xs) ≡ length xs
unfolding sorted
sorted-length [] = refl
sorted-length (x ∷ xs) = insert_asc-length x (sorted xs) ∙ ap suc (sorted-length xs)

insert_asc-is_one_of :
    (m x : ℕ) (ys : List ℕ) → is_one_of m (insert_asc x ys) ≡ (x == m) || is_one_of m ys
unfolding insert_asc any
insert_asc-is_one_of m x [] = refl
insert_asc-is_one_of m x (y ∷ ys) = ground (arith, insert_asc-is_one_of m x ys)

sorted-is_one_of : (m : ℕ) (xs : List ℕ) → is_one_of m (sorted xs) ≡ is_one_of m xs
unfolding sorted any
sorted-is_one_of m [] = refl
sorted-is_one_of m (x ∷ xs) =
    insert_asc-is_one_of m x (sorted xs) ∙ ap (λ b. (x == m) || b) (sorted-is_one_of m xs)

get_elem-is_one_of :
    (xs : List ℕ) (i : ℕ)
    → i < length xs
    → (m : ℕ) × (get_elem? xs i ≡ some m) × (is_one_of m xs ≡ true)
unfolding any
get_elem-is_one_of [] i h = absurd (omega arith)
get_elem-is_one_of (x ∷ xs) zero h = (x, refl, ground (arith, ==_iff x x))
get_elem-is_one_of (x ∷ xs) (suc i) h =
    let (m, found, held) = get_elem-is_one_of xs i (omega arith) in (m, found, ground (arith, held))

clamp-le : (top : ℕ) (z : ℤ) → clamp top z ≤ top
unfolding clamp
clamp-le top (pos n) = omega arith
clamp-le top (negsuc n) = omega arith

pct-found :
    (rank : ℕ → ℤ) (x m : ℕ) (xs : List ℕ)
    → get_elem? (sorted (x ∷ xs)) (clamp (length xs) (rank (length xs))) ≡ some m
    → pct rank (x ∷ xs) ≡ ok m
unfolding pct
pct-found rank x m xs h = ground (arith, h)

-- Whatever rounding gives as the rank, a percentile of a list that is not empty is one of its
-- entries: the index is never out of range.
pub pct-is_one_of :
    (rank : ℕ → ℤ) (x : ℕ) (xs : List ℕ)
    → (m : ℕ) × (pct rank (x ∷ xs) ≡ ok m) × (is_one_of m (x ∷ xs) ≡ true)
pct-is_one_of rank x xs =
    let i = clamp (length xs) (rank (length xs)) in
    let size = sorted-length (x ∷ xs) in
    let in_range = clamp-le (length xs) (rank (length xs)) in
    let (m, found, held) = get_elem-is_one_of (sorted (x ∷ xs)) i (omega (arith, size, in_range)) in
    (m, pct-found rank x m xs found, sym (sorted-is_one_of m (x ∷ xs)) ∙ held)
