-- ===== src/System/History.antt =====
-- The session table against tutor/domain/fsm.py: a row is the state of the machine after a history
-- of verdicts.
use cortex_tutor.Prelude.{
  ℕ, ◌≡◌, refl, sym, ap, ◌∙◌, subst, arith, String, Bool, not, Option, List, [], ◌∷◌, All, get_or,
  ◌++◌,
}
use cortex_tutor.Prelude.Rows.{All-filter}
use cortex_tutor.Domain.Steps.{first_step, clarify}
use cortex_tutor.Domain.Verdict.{GateVerdict}
use cortex_tutor.Domain.Fsm.{SessionState, SessionStatus, transition, run, start}
use cortex_tutor.System.Updated.{found_row, updated-rows}
use cortex_tutor.Persistence.Models.{active, Session, Clock}
use cortex_tutor.Persistence.Sessions.{NewSession, new_row, with_state, with_model}
use cortex_tutor.Turn.Steps.{state_of, status_value, columns_of}
use cortex_tutor.System.Changes.{
  judge_row, Change, created, deleted, judged, repointed, Changes, here, next,
}

-- What a row keeps of a state: all but the scores, which it does not hold.
pub record IsState (r : Session) (st : SessionState) : Type 0 where
  pub step : r.current_step ≡ st.step
  pub attempts : r.attempts ≡ st.attempts
  pub hint_level : r.hint_level ≡ st.hint_level
  pub status : r.status ≡ status_value st.status

abbrev pub first_state : Session → SessionState
first_state r = start (get_or (first_step r.track) clarify)

-- The verdicts that led from the first step of the row's track to the row.
abbrev pub IsHistory : Session → Type 0
IsHistory r = (vs : List GateVerdict) × IsState r (run (first_state r) vs)

run_last :
    (st : SessionState) (vs : List GateVerdict) (v : GateVerdict)
    → run st (vs ++ v ∷ []) ≡ (transition (run st vs) v).state
unfolding run
run_last st [] v = refl
run_last st (w ∷ vs) v = run_last (transition st w).state vs v

-- States that differ in the scores only.
record IsLike (a b : SessionState) : Type 0 where
  step : a.step ≡ b.step
  attempts : a.attempts ≡ b.attempts
  hint_level : a.hint_level ≡ b.hint_level
  status : a.status ≡ b.status

transition-IsLike :
    (a b : SessionState) (v : GateVerdict)
    → IsLike a b
    → IsLike (transition a v).state (transition b v).state
unfolding transition
transition-IsLike a b v h = record {
  step = ground arith;
  attempts = ground arith;
  hint_level = ground arith;
  status = ground arith;
}

status_value-active : (st : SessionStatus) → active ≡ status_value st → SessionStatus.active ≡ st
unfolding status_value
status_value-active st h = ground arith

-- The verdict moves the row as it moves the state.
transition-IsState :
    (clock : Clock) (s : Session) (st : SessionState) (v : GateVerdict) (turn_id : Option ℕ)
    → s.status ≡ active
    → IsState s st
    → IsState (judge_row clock s v turn_id s) (transition st v).state
unfolding with_state columns_of
transition-IsState clock s st v turn_id on h =
    let like : IsLike (state_of s SessionStatus.active) st =
      unfold state_of in
      record {
        step = h.step;
        attempts = h.attempts;
        hint_level = h.hint_level;
        status = status_value-active st.status (sym on ∙ h.status);
      } in
    let next_like = transition-IsLike (state_of s SessionStatus.active) st v like in
    record {
      step = next_like.step;
      attempts = next_like.attempts;
      hint_level = next_like.hint_level;
      status = ap status_value next_like.status;
    }

new_row-IsHistory : (clock : Clock) (id : ℕ) (n : NewSession) → IsHistory (new_row clock id n)
unfolding new_row start run status_value
new_row-IsHistory clock id n =
    ([], record { step = refl; attempts = refl; hint_level = refl; status = refl })

judge_row-IsHistory :
    (clock : Clock) (s : Session) (v : GateVerdict) (turn_id : Option ℕ)
    → s.status ≡ active
    → IsHistory s
    → IsHistory (judge_row clock s v turn_id s)
judge_row-IsHistory clock s v turn_id on (vs, h) =
    let f = judge_row clock s v turn_id in
    let track : (f s).track ≡ s.track = unfold with_state in refl in
    let to_start : first_state (f s) ≡ first_state s =
      ap (λ t. start (get_or (first_step t) clarify)) track in
    (
      vs ++ v ∷ [],
      subst (λ st. IsState (f s) (run st (vs ++ v ∷ []))) (sym to_start)
          (subst (IsState (f s)) (sym (run_last (first_state s) vs v))
            (transition-IsState clock s (run (first_state s) vs) v turn_id on h)),
    )

with_model-IsHistory :
    (clock : Clock) (version : ℕ) (r : Session) (coach_model : String) (byok : Bool)
    → IsHistory r
    → IsHistory (with_model clock version coach_model byok r)
unfolding with_model
with_model-IsHistory clock version r coach_model byok (vs, h) = (
  vs,
  record { step = h.step; attempts = h.attempts; hint_level = h.hint_level; status = h.status },
)

pub Change-IsHistory :
    {can : String → Bool} {xs ys : List Session}
    → Change can xs ys
    → All IsHistory xs
    → All IsHistory ys
Change-IsHistory {can} {xs} {ys} (created clock id n allowed fresh free eq) all =
    subst (All IsHistory) (sym eq) (new_row-IsHistory clock id n, all)
Change-IsHistory {can} {xs} {ys} (deleted q allowed eq) all =
    subst (All IsHistory) (sym eq) (All-filter IsHistory (λ s. not (q s)) xs all)
Change-IsHistory {can} {xs} {ys} (judged clock s v turn_id allowed only on eq) all =
    let f = judge_row clock s v turn_id in
    let own = found_row IsHistory s xs only all in
    subst (All IsHistory) (sym eq) (
      updated-rows s f xs only IsHistory
        (λ r good same.
          subst (λ x. IsHistory (f x)) (sym same) (judge_row-IsHistory clock s v turn_id on own))
        all)
Change-IsHistory {can} {xs} {ys} (repointed clock s coach_model byok allowed only eq) all =
    let f = with_model clock s.version coach_model byok in
    subst (All IsHistory) (sym eq) (
      updated-rows s f xs only IsHistory
        (λ r good same. with_model-IsHistory clock s.version r coach_model byok good) all)

pub Changes-IsHistory :
    {can : String → Bool} {xs ys : List Session}
    → Changes can xs ys
    → All IsHistory xs
    → All IsHistory ys
Changes-IsHistory here all = all
Changes-IsHistory (next more c) all = Change-IsHistory c (Changes-IsHistory more all)
