-- ===== src/System/Scope.antt =====
-- The session table, user by user: the changes that a request of tutor/routes/sessions.py makes are
-- its caller's.
use cortex_tutor.Prelude.{
  ◌≡◌, refl, ap, ◌∙◌, subst, inl, inr, arith, String, Bool, true, false, not, List, filter, eq_iff,
  Bool-cases,
}
use cortex_tutor.Prelude.Filter.{filter-filter}
use cortex_tutor.System.Updated.{updated-owned}
use cortex_tutor.Persistence.Models.{Session}
use cortex_tutor.Persistence.Sessions.{owns, new_row, with_state, with_model}
use cortex_tutor.System.Changes.{
  judge_row, Change, created, deleted, judged, repointed, Changes, here, next,
}

foreign :
    (can : String → Bool) (other : String) (s : Session)
    → can s.user_sub ≡ true
    → can other ≡ false
    → owns other s ≡ false
foreign can other s may cannot = elim (Bool-cases (owns other s)) [
  | inr t ↦ t
  | inl t ↦
      let eq : s.user_sub ≡ other = ground (arith, eq_iff s.user_sub other) in
      let both : can other ≡ true = subst (λ u. can u ≡ true) eq may in absurd (ground arith)
]

Change-scope :
    {can : String → Bool} {xs ys : List Session} (other : String)
    → Change can xs ys
    → can other ≡ false
    → filter (owns other) ys ≡ filter (owns other) xs
unfolding with_state with_model
Change-scope {can} {xs} {ys} other (created clock id n allowed fresh free eq) cannot =
    let theirs = foreign can other (new_row clock id n) (unfold new_row in allowed) cannot in
    ap (filter (owns other)) eq ∙ (unfold filter in rw theirs refl)
Change-scope {can} {xs} {ys} other (deleted q allowed eq) cannot =
    ap (filter (owns other)) eq
    ∙ filter-filter (owns other) (λ s. not (q s)) xs
        (λ s own. elim (Bool-cases (q s)) [
          | inl t ↦ absurd (ground (arith, foreign can other s (allowed s t) cannot))
          | inr t ↦ rw t refl
        ])
Change-scope {can} {xs} {ys} other (judged clock s v turn_id allowed only on eq) cannot =
    ap (filter (owns other)) eq
    ∙ updated-owned s (judge_row clock s v turn_id) xs only other (λ r. refl)
        (foreign can other s allowed cannot)
Change-scope {can} {xs} {ys} other (repointed clock s coach_model byok allowed only eq) cannot =
    ap (filter (owns other)) eq
    ∙ updated-owned s (with_model clock s.version coach_model byok) xs only other (λ r. refl)
        (foreign can other s allowed cannot)

pub Changes-scope :
    {can : String → Bool} {xs ys : List Session} (other : String)
    → Changes can xs ys
    → can other ≡ false
    → filter (owns other) ys ≡ filter (owns other) xs
Changes-scope other here cannot = refl
Changes-scope other (next more c) cannot =
    Change-scope other c cannot ∙ Changes-scope other more cannot
