-- ===== src/Prelude/Filter.antt =====
-- Laws of the Boolean `filter` and `count`, for tables as lists of rows.
use mathlib.Core.Bool.{Bool, true, false, ◌&&◌}
use mathlib.Core.List.{List, [], ◌∷◌, map}
use mathlib.Core.Logic.{inl, inr}
use mathlib.Core.Path.{◌≡◌, refl}
use native.Mathlib.Omega.{arith}
use Prim.Native.Nat.{◌≤◌}
use cortex_tutor.Prelude.Tests.{if◌then◌else◌, Bool-cases}
use cortex_tutor.Prelude.Lists.{filter, count}

module _ {ℓ} {A : Type ℓ} where
  pub filter_none : (p : A → Bool) (xs : List A) → count p xs ≡ 0 → filter p xs ≡ []
  unfolding filter count
  filter_none p [] h = refl
  filter_none p (x ∷ xs) h = ground (arith, filter_none p xs)

  pub count_of_filter :
      (p q : A → Bool) (s : A) (xs : List A) → filter p xs ≡ s ∷ [] → q s ≡ true → 1 ≤ count q xs
  unfolding filter count
  count_of_filter p q s [] h t = cc
  count_of_filter p q s (x ∷ xs) h t = ground (arith, count_of_filter p q s xs)

  -- The only row of one kind is the only row of any unique kind that it is of.
  pub filter_single :
      (p q : A → Bool) (s : A) (xs : List A)
      → filter p xs ≡ s ∷ []
      → q s ≡ true
      → count q xs ≤ 1
      → filter q xs ≡ s ∷ []
  unfolding filter count
  filter_single p q s [] h t u = cc
  filter_single p q s (x ∷ xs) h t u =
      ground (arith, filter_single p q s xs, count_of_filter p q s xs, filter_none q xs)

  pub filter-single_holds : (p : A → Bool) (s : A) (xs : List A) → filter p xs ≡ s ∷ [] → p s ≡ true
  unfolding filter
  filter-single_holds p s [] h = cc
  filter-single_holds p s (x ∷ xs) h = ground (arith, filter-single_holds p s xs)

  pub filter-map :
      (p : A → Bool) (f : A → A) (xs : List A)
      → ((x : A) → p (f x) ≡ p x)
      → filter p (map f xs) ≡ map f (filter p xs)
  unfolding filter
  filter-map p f [] h = refl
  filter-map p f (x ∷ xs) h = ground (arith, filter-map p f xs h, h x)

  pub count-map :
      (p q : A → Bool) (f : A → A) (xs : List A)
      → ((x : A) → p (f x) ≡ q x)
      → count p (map f xs) ≡ count q xs
  unfolding count
  count-map p q f [] h = refl
  count-map p q f (x ∷ xs) h = ground (arith, count-map p q f xs h, h x)

  pub count-same : (p q : A → Bool) (xs : List A) → ((x : A) → p x ≡ q x) → count p xs ≡ count q xs
  unfolding count
  count-same p q [] h = refl
  count-same p q (x ∷ xs) h = ground (arith, count-same p q xs h, h x)

  pub map-filter_fixed :
      (p : A → Bool) (f : A → A) (xs : List A)
      → ((x : A) → p x ≡ true → f x ≡ x)
      → map f (filter p xs) ≡ filter p xs
  unfolding filter
  map-filter_fixed p f [] h = refl
  map-filter_fixed p f (x ∷ xs) h = elim (Bool-cases (p x)) [
    | inl t ↦ rw (t, filter) (ground (arith, map-filter_fixed p f xs h, h x t))
    | inr t ↦ rw (t, filter) (map-filter_fixed p f xs h)
  ]

  pub count_and :
      (p q : A → Bool) (xs : List A) → count (λ x. p x && q x) xs ≡ count q (filter p xs)
  unfolding filter count
  count_and p q [] = refl
  count_and p q (x ∷ xs) = ground (arith, count_and p q xs)

  pub count_mono :
      (p q : A → Bool) (xs : List A) → ((x : A) → p x ≡ true → q x ≡ true) → count p xs ≤ count q xs
  unfolding count
  count_mono p q [] h = omega arith
  count_mono p q (x ∷ xs) h = ground (arith, count_mono p q xs h, h x)

  pub count_zero : (p : A → Bool) (xs : List A) → ((x : A) → p x ≡ false) → count p xs ≡ 0
  unfolding count
  count_zero p [] h = refl
  count_zero p (x ∷ xs) h = ground (arith, count_zero p xs h, h x)

  pub count-filter-le : (p q : A → Bool) (xs : List A) → count p (filter q xs) ≤ count p xs
  unfolding filter count
  count-filter-le p q [] = omega arith
  count-filter-le p q (x ∷ xs) = ground (arith, count-filter-le p q xs)

  -- an update whose condition no row meets
  pub map_if-none :
      (p : A → Bool) (f : A → A) (xs : List A)
      → count p xs ≡ 0
      → map (λ x. if p x then f x else x) xs ≡ xs
  unfolding count
  map_if-none p f [] h = refl
  map_if-none p f (x ∷ xs) h = ground (arith, map_if-none p f xs)

  pub filter-filter :
      (p q : A → Bool) (xs : List A)
      → ((x : A) → p x ≡ true → q x ≡ true)
      → filter p (filter q xs) ≡ filter p xs
  unfolding filter
  filter-filter p q [] h = refl
  filter-filter p q (x ∷ xs) h = ground (arith, filter-filter p q xs h, h x)
