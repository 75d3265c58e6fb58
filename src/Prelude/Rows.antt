-- ===== src/Prelude/Rows.antt =====
-- Predicates of every row of a table, through `filter`, `map` and `count`.
use cortex_tutor.Prelude.Tests.{Bool-cases}
use cortex_tutor.Prelude.Lists.{filter, count, All}
use Prim.Native.Nat.{◌≤◌}
use mathlib.Core.Bool.{Bool, true}
use mathlib.Core.List.{List, [], ◌∷◌, ◌++◌, map}
use mathlib.Core.Logic.{inl, inr}
use mathlib.Core.Path.{◌≡◌, refl, subst}
use native.Mathlib.Omega.{arith}

module _ {ℓ} {A : Type ℓ} where
  All-of_none {κ} :
      (P : A → Type κ) (p : A → Bool) (xs : List A)
      → filter p xs ≡ []
      → All (λ r. p r ≡ true → P r) xs
  unfolding filter
  All-of_none P p [] h = tt
  All-of_none P p (x ∷ xs) h = elim (Bool-cases (p x)) [
    | inl t ↦ absurd (ground arith)
    | inr t ↦ (λ u. absurd (ground arith), All-of_none P p xs (ground arith))
  ]

  -- If one row alone passes a test, then what holds of it holds of every row that passes.
  pub All-of_single {κ} :
      (P : A → Type κ) (p : A → Bool) (s : A) (xs : List A)
      → filter p xs ≡ s ∷ []
      → P s
      → All (λ r. p r ≡ true → P r) xs
  unfolding filter
  All-of_single P p s [] h t = tt
  All-of_single P p s (x ∷ xs) h t = elim (Bool-cases (p x)) [
    | inl u ↦
        let same : s ≡ x = ground arith in (λ v. subst P same t, All-of_none P p xs (ground arith))
    | inr u ↦ (λ v. absurd (ground arith), All-of_single P p s xs (ground arith) t)
  ]

  pub All-map {κ μ} :
      (P : A → Type κ) (Q : A → Type μ) (f : A → A) (xs : List A)
      → ((x : A) → P x → Q (f x))
      → All P xs
      → All Q (map f xs)
  All-map P Q f [] keep all = tt
  All-map P Q f (x ∷ xs) keep all = (keep x all.0, All-map P Q f xs keep all.1)

  pub All-mono {κ μ} :
      (P : A → Type κ) (Q : A → Type μ) (xs : List A) → ((x : A) → P x → Q x) → All P xs → All Q xs
  All-mono P Q [] keep all = tt
  All-mono P Q (x ∷ xs) keep all = (keep x all.0, All-mono P Q xs keep all.1)

  pub All-filter {κ} :
      (P : A → Type κ) (p : A → Bool) (xs : List A) → All P xs → All P (filter p xs)
  unfolding filter
  All-filter P p [] all = tt
  All-filter P p (x ∷ xs) all = elim (Bool-cases (p x)) [
    | inl t ↦ rw t (all.0, All-filter P p xs all.1)
    | inr t ↦ rw t (All-filter P p xs all.1)
  ]

  pub All-both {κ μ} :
      (P : A → Type κ) (Q : A → Type μ) (xs : List A)
      → All P xs
      → All Q xs
      → All (λ x. P x × Q x) xs
  All-both P Q [] a b = tt
  All-both P Q (x ∷ xs) a b = ((a.0, b.0), All-both P Q xs a.1 b.1)

  pub count-map_le :
      (p : A → Bool) (f : A → A) (xs : List A)
      → All (λ x. p (f x) ≡ true → p x ≡ true) xs
      → count p (map f xs) ≤ count p xs
  unfolding count
  count-map_le p f [] all = omega arith
  count-map_le p f (x ∷ xs) all = ground (arith, count-map_le p f xs all.1, all.0)

  pub filter-map-All :
      (p : A → Bool) (f : A → A) (xs : List A)
      → All (λ x. (p (f x) ≡ p x) × (p x ≡ true → f x ≡ x)) xs
      → filter p (map f xs) ≡ filter p xs
  unfolding filter
  filter-map-All p f [] all = refl
  filter-map-All p f (x ∷ xs) all = elim (Bool-cases (p x)) [
    | inl t ↦ ground (arith, filter-map-All p f xs all.1, all.0.0, all.0.1 t)
    | inr t ↦ ground (arith, filter-map-All p f xs all.1, all.0.0)
  ]

  pub All-append {κ} : (P : A → Type κ) (xs ys : List A) → All P xs → All P ys → All P (xs ++ ys)
  All-append P [] ys a b = b
  All-append P (x ∷ xs) ys a b = (a.0, All-append P xs ys a.1 b)

pub map_same {ℓ κ} :
    {A : Type ℓ} {B : Type κ} (f g : A → B) (xs : List A)
    → ((x : A) → f x ≡ g x)
    → map f xs ≡ map g xs
map_same f g [] h = refl
map_same f g (x ∷ xs) h = rw (h x, map_same f g xs h) refl
