-- ===== src/System/Updated.antt =====
-- The rows after an UPDATE of one session, as tutor/persistence/repo.py issues it: who they belong to,
-- and what holds of each.
use cortex_tutor.Prelude.{
  ℕ, ◌≤◌, ◌≡◌, refl, sym, subst, inl, inr, arith, String, true, false, List, [], ◌∷◌, filter, count,
  All, if◌then◌else◌, Bool-cases,
}
use cortex_tutor.Prelude.Filter.{count-map}
use cortex_tutor.Prelude.Rows.{
  All-of_single, All-map, All-filter, All-both, All-mono, filter-map-All, count-map_le,
}
use cortex_tutor.Persistence.Models.{Session}
use cortex_tutor.Persistence.Sessions.{is_active, owns, active_for, has_id, at_version}
use cortex_tutor.System.Changes.{updated}

pub found_row {κ} :
    (P : Session → Type κ) (s : Session) (xs : List Session)
    → filter (has_id s.id) xs ≡ s ∷ []
    → All P xs
    → P s
found_row P s xs only all = (subst (All P) only (All-filter P (has_id s.id) xs all)).0

abbrev IsSame : Session → Session → Type 0
IsSame s r = has_id s.id r ≡ true → r ≡ s

-- An update of one session that keeps who it belongs to.
module _ (s : Session) (change : Session → Session) (xs : List Session)
    (only : filter (has_id s.id) xs ≡ s ∷ []) where
  rows_with_id : All (IsSame s) xs
  rows_with_id = All-of_single (λ r. r ≡ s) (has_id s.id) s xs only refl

  pub updated-count_id :
      (id : ℕ)
      → ((r : Session) → (change r).id ≡ r.id)
      → count (has_id id) (updated s change xs) ≡ count (has_id id) xs
  updated-count_id id ids = count-map (has_id id) (has_id id) _ xs (λ r. ground (arith, ids r))

  pub updated-count_active :
      (user_sub problem_id : String)
      → ((r : Session) → (change r).user_sub ≡ r.user_sub)
      → ((r : Session) → (change r).problem_id ≡ r.problem_id)
      → (is_active (change s).status ≡ true → is_active s.status ≡ true)
      → count (active_for user_sub problem_id) (updated s change xs)
        ≤ count (active_for user_sub problem_id) xs
  updated-count_active user_sub problem_id users problems on =
      let keeps : (r : Session)
          → IsSame s r
          → active_for user_sub problem_id (if at_version s.id s.version r then change r else r)
            ≡ true
          → active_for user_sub problem_id r ≡ true =
        λ r same h. elim (Bool-cases (at_version s.id s.version r)) [
          | inr t ↦ ground arith
          | inl t ↦
              let eq : r ≡ s = same (ground arith) in
              let on_row : is_active (change r).status ≡ true → is_active r.status ≡ true =
                subst (λ x. is_active (change x).status ≡ true → is_active x.status ≡ true) (sym eq)
                  on in
              ground (arith, on_row, users r, problems r)
        ] in
      count-map_le (active_for user_sub problem_id) _ xs
        (All-mono (IsSame s) _ xs keeps rows_with_id)

  pub updated-rows {κ} :
      (P : Session → Type κ)
      → ((r : Session) → P r → r ≡ s → P (change r))
      → All P xs
      → All P (updated s change xs)
  updated-rows P keep all =
      All-map (λ r. P r × IsSame s r) P _ xs
        (λ r (ok, same). elim (Bool-cases (at_version s.id s.version r)) [
          | inr t ↦ rw t ok
          | inl t ↦ rw t (keep r ok (same (ground arith)))
        ])
        (All-both P (IsSame s) xs all rows_with_id)

  -- The rows of a user that the session is not of.
  pub updated-owned :
      (other : String)
      → ((r : Session) → (change r).user_sub ≡ r.user_sub)
      → owns other s ≡ false
      → filter (owns other) (updated s change xs) ≡ filter (owns other) xs
  updated-owned other users foreign =
      let keeps : (r : Session)
          → IsSame s r
          → (owns other (if at_version s.id s.version r then change r else r) ≡ owns other r)
            × (owns other r ≡ true → (if at_version s.id s.version r then change r else r) ≡ r) =
        λ r same. elim (Bool-cases (at_version s.id s.version r)) [
          | inr t ↦ rw t (refl, λ u. refl)
          | inl t ↦
              let eq : r ≡ s = same (ground arith) in
              let theirs : owns other r ≡ false =
                subst (λ x. owns other x ≡ false) (sym eq) foreign in
              rw t (rw (users r) refl, λ u. absurd (ground arith))
        ] in
      filter-map-All (owns other) _ xs (All-mono (IsSame s) _ xs keeps rows_with_id)
