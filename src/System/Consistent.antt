-- ===== src/System/Consistent.antt =====
-- Every change of the session table keeps it consistent: identifiers are unique, a user has one
-- active session for a problem at most, and each row agrees with the ladder of its track.
use cortex_tutor.Prelude.{
  ℕ, ◌≤◌, ◌≡◌, refl, sym, ap, ◌∙◌, subst, inl, inr, arith, String, Bool, true, ◌&&◌, not, Option,
  List, [], ◌∷◌, ◌==◌, ==_iff, filter, count, str_eq, eq_iff, Bool-cases,
}
use cortex_tutor.Prelude.Filter.{count-filter-le}
use cortex_tutor.Prelude.Rows.{All-filter}
use cortex_tutor.Domain.Steps.{track_of, is_terminal}
use cortex_tutor.Domain.Steps.Ladder.{first_step-index_zero, next_step-IsAfter}
use cortex_tutor.Domain.Verdict.{GateVerdict}
use cortex_tutor.Domain.Fsm.{SessionState, SessionStatus, transition}
use cortex_tutor.Domain.Fsm.Progress.{transition-progress}
use cortex_tutor.Persistence.Models.{active, completed, Session, Clock}
use cortex_tutor.Persistence.Sessions.{
  is_active, active_for, has_id, NewSession, new_row, with_state, with_model,
}
use cortex_tutor.Turn.Steps.{state_of, status_value, columns_of}
use cortex_tutor.System.Updated.{found_row, updated-count_id, updated-count_active, updated-rows}
use cortex_tutor.System.Changes.{
  updated, judge_row, Change, created, deleted, judged, repointed, Changes, here, next, IsRow,
  IsConsistent,
}

create-count_active :
    (clock : Clock) (n : NewSession) (id : ℕ) (xs : List Session) (user_sub problem_id : String)
    → count (active_for user_sub problem_id) xs ≤ 1
    → count (active_for n.user_sub n.problem_id) xs ≡ 0
    → count (active_for user_sub problem_id) (new_row clock id n ∷ xs) ≤ 1
unfolding new_row count is_active
create-count_active clock n id xs user_sub problem_id one free =
    elim (Bool-cases (str_eq n.user_sub user_sub && str_eq n.problem_id problem_id)) [
      | inr other ↦ ground arith
      | inl same ↦
          let u : n.user_sub ≡ user_sub = ground (arith, eq_iff n.user_sub user_sub) in
          let p : n.problem_id ≡ problem_id = ground (arith, eq_iff n.problem_id problem_id) in
          let none_left : count (active_for user_sub problem_id) xs ≡ 0 =
            subst (λ x. count (active_for x problem_id) xs ≡ 0) u
              (subst (λ y. count (active_for n.user_sub y) xs ≡ 0) p free) in
          ground arith
    ]

new_row-IsRow : (clock : Clock) (id : ℕ) (n : NewSession) → IsRow (new_row clock id n)
unfolding new_row
new_row-IsRow clock id n =
    let (s, is_first, of_track, at_zero) = first_step-index_zero n.track in
    record {
      index = ground (arith, is_first, at_zero);
      track = ground (arith, is_first, of_track);
      hint = omega arith;
      at_end = λ h. absurd (ground arith);
    }

transition-row :
    (st : SessionState) (v : GateVerdict)
    → st.status ≡ SessionStatus.active
    → st.hint_level ≤ 3
    → let st' = (transition st v).state in
      (st'.hint_level ≤ 3) × (status_value st'.status ≡ completed → is_terminal st'.step ≡ true)
unfolding transition status_value
transition-row st v on low = (ground arith, λ h. ground (arith, next_step-IsAfter st.step))

judge_row-IsRow :
    (clock : Clock) (s r : Session) (v : GateVerdict) (turn_id : Option ℕ)
    → IsRow s
    → r.track ≡ s.track
    → IsRow (judge_row clock s v turn_id r)
unfolding with_state columns_of
judge_row-IsRow clock s r v turn_id ok same =
    let st = state_of s SessionStatus.active in
    let of_state : track_of (state_of s SessionStatus.active).step ≡ s.track =
      unfold state_of in ok.track in
    let kept : track_of (transition st v).state.step ≡ s.track =
      (transition-progress st v).0 ∙ of_state in
    let row = transition-row st v (unfold state_of in refl) (unfold state_of in ok.hint) in
    record { index = refl; track = kept ∙ sym same; hint = row.0; at_end = row.1 }

with_model-IsRow :
    (clock : Clock) (s r : Session) (coach_model : String) (byok : Bool)
    → IsRow r
    → IsRow (with_model clock s.version coach_model byok r)
unfolding with_model
with_model-IsRow clock s r coach_model byok ok = record {
  index = ok.index;
  track = ok.track;
  hint = ok.hint;
  at_end = ok.at_end;
}

create-count_id :
    (clock : Clock) (id other : ℕ) (n : NewSession) (xs : List Session)
    → count (has_id other) xs ≤ 1
    → count (has_id id) xs ≡ 0
    → count (has_id other) (new_row clock id n ∷ xs) ≤ 1
unfolding new_row count
create-count_id clock id other n xs one fresh = elim (Bool-cases (id == other)) [
  | inr ne ↦ ground arith
  | inl eq ↦
      let same : id ≡ other = ground (arith, ==_iff id other) in
      let none_left : count (has_id other) xs ≡ 0 =
        subst (λ i. count (has_id i) xs ≡ 0) same fresh in
      ground arith
]

created-IsConsistent :
    (clock : Clock) (id : ℕ) (n : NewSession) (xs : List Session)
    → count (has_id id) xs ≡ 0
    → count (active_for n.user_sub n.problem_id) xs ≡ 0
    → IsConsistent xs
    → IsConsistent (new_row clock id n ∷ xs)
created-IsConsistent clock id n xs fresh free ok = record {
  unique = λ other. create-count_id clock id other n xs (ok.unique other) fresh;
  one_active = λ u p. create-count_active clock n id xs u p (ok.one_active u p) free;
  rows = (new_row-IsRow clock id n, ok.rows);
}

deleted-IsConsistent :
    (q : Session → Bool) (xs : List Session)
    → IsConsistent xs
    → IsConsistent (filter (λ s. not (q s)) xs)
deleted-IsConsistent q xs ok = record {
  unique = λ id. omega (arith, ok.unique id, count-filter-le (has_id id) (λ s. not (q s)) xs);
  one_active =
      λ u p. omega (arith, ok.one_active u p, count-filter-le (active_for u p) (λ s. not (q s)) xs);
  rows = All-filter IsRow (λ s. not (q s)) xs ok.rows;
}

judged-IsConsistent :
    (clock : Clock) (s : Session) (v : GateVerdict) (turn_id : Option ℕ) (xs : List Session)
    → filter (has_id s.id) xs ≡ s ∷ []
    → s.status ≡ active
    → IsConsistent xs
    → IsConsistent (updated s (judge_row clock s v turn_id) xs)
unfolding with_state is_active
judged-IsConsistent clock s v turn_id xs only on ok =
    let f = judge_row clock s v turn_id in
    let own = found_row IsRow s xs only ok.rows in
    record {
      unique = λ id. omega (arith, ok.unique id, updated-count_id s f xs only id (λ r. refl));
      one_active = λ u p. omega (
        arith,
        ok.one_active u p,
        updated-count_active s f xs only u p (λ r. refl) (λ r. refl) (λ h. ground arith),
      );
      rows =
          updated-rows s f xs only IsRow
            (λ r good same. judge_row-IsRow clock s r v turn_id own (ap (λ x. x.track) same))
            ok.rows;
    }

repointed-IsConsistent :
    (clock : Clock) (s : Session) (coach_model : String) (byok : Bool) (xs : List Session)
    → filter (has_id s.id) xs ≡ s ∷ []
    → IsConsistent xs
    → IsConsistent (updated s (with_model clock s.version coach_model byok) xs)
unfolding with_model
repointed-IsConsistent clock s coach_model byok xs only ok =
    let f = with_model clock s.version coach_model byok in
    record {
      unique = λ id. omega (arith, ok.unique id, updated-count_id s f xs only id (λ r. refl));
      one_active = λ u p. omega (
        arith,
        ok.one_active u p,
        updated-count_active s f xs only u p (λ r. refl) (λ r. refl) (λ h. h),
      );
      rows =
          updated-rows s f xs only IsRow
            (λ r good same. with_model-IsRow clock s r coach_model byok good) ok.rows;
    }

-- Every change of the session table keeps it consistent.
pub Change-IsConsistent :
    {can : String → Bool} {xs ys : List Session}
    → Change can xs ys
    → IsConsistent xs
    → IsConsistent ys
Change-IsConsistent {can} {xs} {ys} (created clock id n allowed fresh free eq) ok =
    subst IsConsistent (sym eq) (created-IsConsistent clock id n xs fresh free ok)
Change-IsConsistent {can} {xs} {ys} (deleted q allowed eq) ok =
    subst IsConsistent (sym eq) (deleted-IsConsistent q xs ok)
Change-IsConsistent {can} {xs} {ys} (judged clock s v turn_id allowed only on eq) ok =
    subst IsConsistent (sym eq) (judged-IsConsistent clock s v turn_id xs only on ok)
Change-IsConsistent {can} {xs} {ys} (repointed clock s coach_model byok allowed only eq) ok =
    subst IsConsistent (sym eq) (repointed-IsConsistent clock s coach_model byok xs only ok)

pub Changes-IsConsistent :
    {can : String → Bool} {xs ys : List Session}
    → Changes can xs ys
    → IsConsistent xs
    → IsConsistent ys
Changes-IsConsistent here ok = ok
Changes-IsConsistent (next more c) ok = Change-IsConsistent c (Changes-IsConsistent more ok)
