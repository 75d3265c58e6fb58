-- ===== src/System/Replies.antt =====
-- The turn handlers of tutor/routes/sessions.py and the purge, as changes of the session table.
use cortex_tutor.Prelude.{
  ℕ, ◌≤◌, ◌≡◌, refl, sym, subst, ◌⊎◌, inl, inr, arith, String, Bool, true, not, Option, none, some,
  any, List, ltb, count, Bool-cases,
}
use cortex_tutor.Domain.Steps.{Step}
use cortex_tutor.Persistence.Models.{Session, Db}
use cortex_tutor.Persistence.Transaction.{Tx, Exec, in_transaction}
use cortex_tutor.Persistence.Sessions.{has_id, get_for_user, purge_expired}
use cortex_tutor.System.Changes.{Changes, here}
use cortex_tutor.Prelude.Result.{Error, Result, ok, err, Result-cases}
use cortex_tutor.Prelude.Text.{Text}
use cortex_tutor.Turn.Apply.{Outside, apply_turn, apply_byok_turn}
use cortex_tutor.Persistence.Messages.{append_message, insert_message}
use cortex_tutor.Persistence.Gates.{add_grounding_ref}
use cortex_tutor.System.Statements.{
  delete-Changes, IsFrom, start-IsFrom, continue-IsFrom, require-IsFrom,
}
use cortex_tutor.System.Turns.{apply_turn-IsFrom, apply_byok_turn-IsFrom}
use cortex_tutor.Access.Quotas.{check_message_quota}
use cortex_tutor.Routes.Manage.{some_or_404}
use cortex_tutor.System.Handlers.{get_for_user-found}
use cortex_tutor.Prelude.Result.{http}
use cortex_tutor.Turn.Steps.{TurnOutcome}
use cortex_tutor.Routes.Body.{TurnBody, read_submission, read_client_turn}
use cortex_tutor.Turn.Apply.{record_coach_reply}
use cortex_tutor.Routes.Turns.{
  TurnWorld, TurnReply, context_for, lesson_for, stale_reply, settled, settle, citation_of,
  audit_grounding, speaker_for, job_of, submit_turn, byok_reply, record_byok_turn,
}

settled-err :
    {A B : Type 0} (on_stale : Exec (TurnReply B)) (after : A → Exec (TurnReply B)) (e : Error)
    (tx : Tx)
    → ((settled on_stale after (err e) tx).1 ≡ tx)
      ⊎ ((settled on_stale after (err e) tx).1 ≡ (on_stale tx).1)
unfolding settled
settled-err on_stale after e tx = ground arith

settled-IsFrom :
    {A B : Type 0} (can : String → Bool) (base : List Session) (on_stale : Exec (TurnReply B))
    (after : A → Exec (TurnReply B)) (r : Result A) (tx : Tx)
    → IsFrom can base tx
    → IsFrom can base (on_stale tx).1
    → ((a : A) → IsFrom can base (after a tx).1)
    → IsFrom can base (settled on_stale after r tx).1
unfolding settled
settled-IsFrom can base on_stale after (ok a) tx from stale rest = rest a
settled-IsFrom can base on_stale after (err e) tx from stale rest =
    elim (settled-err on_stale after e tx) [
      | inl same ↦ subst (IsFrom can base) (sym same) from
      | inr same ↦ subst (IsFrom can base) (sym same) stale
    ]

stale_reply-IsFrom :
    (A : Type 0) (can : String → Bool) (base : List Session) (session_id : ℕ) (user_sub : String)
    (tx : Tx)
    → IsFrom can base tx
    → IsFrom can base (stale_reply {A = A} session_id user_sub tx).1
unfolding stale_reply
stale_reply-IsFrom A can base session_id user_sub tx from =
    elim (Result-cases (get_for_user session_id user_sub tx.committed)) [
      | inr (x, f) ↦ rw f (record { committed = from.committed; working = from.committed })
      | inl (none, f) ↦ rw f (record { committed = from.committed; working = from.committed })
      | inl (some s, f) ↦ rw f (record { committed = from.committed; working = from.committed })
    ]

audit_grounding-IsFrom :
    (can : String → Bool) (base : List Session) (w : TurnWorld) (o : TurnOutcome)
    (url : Option Text) (tx : Tx)
    → IsFrom can base tx
    → IsFrom can base (audit_grounding w o url tx).1
unfolding audit_grounding add_grounding_ref
audit_grounding-IsFrom can base w o none tx from = from
audit_grounding-IsFrom can base w o (some url) tx from = elim (Bool-cases o.replayed) [
  | inl t ↦ rw t from
  | inr t ↦ rw t (record { committed = from.working; working = from.working })
]

job_of-IsFrom :
    (can : String → Bool) (base : List Session) (w : TurnWorld) (s : Session) (step : Step)
    (o : TurnOutcome) (tx : Tx)
    → IsFrom can base tx
    → IsFrom can base (job_of w s step o tx).1
unfolding job_of
job_of-IsFrom can base w s step o tx from =
    let audited = audit_grounding-IsFrom can base w o (citation_of (lesson_for w s step)) tx from in
    let tx' = (audit_grounding w o (citation_of (lesson_for w s step)) tx).1 in
    continue-IsFrom can base (audit_grounding w o (citation_of (lesson_for w s step)) tx).0 _ tx'
      audited (λ u. continue-IsFrom can base (speaker_for w o) _ tx' audited (λ speaker. audited))

byok_reply-keeps :
    (coach_reply : Text) (o : TurnOutcome) (tx : Tx) → (byok_reply coach_reply o tx).1 ≡ tx
unfolding byok_reply
byok_reply-keeps coach_reply o tx = ground arith

module _ (can : String → Bool) (w : TurnWorld) (calm : (d : Db) → w.out.others d ≡ d)
    (may : can w.principal.sub ≡ true) (db : Db)
    (unique : (id : ℕ) → count (has_id id) db.sessions ≤ 1)
    (fresh : count (has_id w.out.fresh_id) db.sessions ≡ 0) (session_id : ℕ) (body : TurnBody) where
  pub submit_turn-Changes :
      Changes can db.sessions (in_transaction (submit_turn w session_id body) db).1.sessions
  unfolding submit_turn settle some_or_404
  submit_turn-Changes = elim (Result-cases (read_submission w.settings w.uuid body)) [
    | inr (x, a) ↦ rw (in_transaction, a) here
    | inl (sub, a) ↦ elim (Result-cases (get_for_user session_id w.principal.sub db)) [
      | inr (x, f) ↦ rw (in_transaction, a, f) here
      | inl (none, f) ↦ rw (in_transaction, a, f) here
      | inl (some s, f) ↦
          let tx : Tx = record { committed = db; working = db } in
          let turn =
            apply_turn w.out w.gate w.principal.sub s.problem_id s.origin (context_for w s sub.step)
              sub in
          let from =
            apply_turn-IsFrom can db.sessions w.out calm w.principal.sub may tx
              (start-IsFrom can db) unique fresh w.gate s.problem_id s.origin
              (context_for w s sub.step) sub in
          rw (in_transaction, a, f)
            (require-IsFrom can db.sessions (not s.byok) (http 403) _ tx (start-IsFrom can db) (
              continue-IsFrom can db.sessions (check_message_quota w.principal w.settings s.id db) _
                tx (start-IsFrom can db)
                (λ u.
                  (settled-IsFrom can db.sessions (stale_reply session_id w.principal.sub)
                    (job_of w s sub.step) (turn tx).0 (turn tx).1 from
                    (stale_reply-IsFrom _ can db.sessions session_id w.principal.sub (turn tx).1
                      from)
                    (λ o.
                      job_of-IsFrom can db.sessions w s sub.step o (turn tx).1 from))))).committed
    ]
  ]

  pub record_byok_turn-Changes :
      Changes can db.sessions (in_transaction (record_byok_turn w session_id body) db).1.sessions
  unfolding record_byok_turn settle some_or_404
  record_byok_turn-Changes = elim (Result-cases (read_client_turn w.gate w.settings w.uuid body)) [
    | inr (x, a) ↦ rw (in_transaction, a) here
    | inl ((sub, client), a) ↦ elim (Result-cases (get_for_user session_id w.principal.sub db)) [
      | inr (x, f) ↦ rw (in_transaction, a, f) here
      | inl (none, f) ↦ rw (in_transaction, a, f) here
      | inl (some s, f) ↦
          let tx : Tx = record { committed = db; working = db } in
          let turn = apply_byok_turn w.out sub client s in
          let (only, own) = get_for_user-found session_id w.principal.sub db s f (unique s.id) in
          let mine : can s.user_sub ≡ true = subst (λ u. can u ≡ true) (sym own) may in
          let from =
            apply_byok_turn-IsFrom can db.sessions w.out calm s mine tx (start-IsFrom can db) only
              sub client in
          rw (in_transaction, a, f)
            (require-IsFrom can db.sessions s.byok (http 403) _ tx (start-IsFrom can db) (
              continue-IsFrom can db.sessions (check_message_quota w.principal w.settings s.id db) _
                tx (start-IsFrom can db)
                (λ u.
                  (settled-IsFrom can db.sessions (stale_reply session_id w.principal.sub)
                    (byok_reply client.coach_reply) (turn tx).0 (turn tx).1 from
                    (stale_reply-IsFrom _ can db.sessions session_id w.principal.sub (turn tx).1
                      from)
                    (λ o.
                      subst (IsFrom can db.sessions)
                        (sym (byok_reply-keeps client.coach_reply o (turn tx).1))
                        from))))).committed
    ]
  ]

pub purge_expired-Changes :
    (now : ℕ) (db : Db) → Changes (λ u. true) db.sessions (purge_expired now db).1.sessions
unfolding purge_expired
purge_expired-Changes now db =
    delete-Changes (λ u. true) (λ s. ltb s.expires_at now) db.sessions db here (λ s h. refl)

pub record_coach_reply-keeps :
    (out : Outside) (id : ℕ) (step : Step) (content : Text) (model : Option String) (db : Db)
    → (in_transaction (record_coach_reply out id step content model) db).1.sessions ≡ db.sessions
unfolding record_coach_reply append_message insert_message
record_coach_reply-keeps out id step content model db =
    elim (Bool-cases (any (has_id id) db.sessions)) [
      | inl t ↦ rw (in_transaction, t) refl
      | inr t ↦ rw (in_transaction, t) refl
    ]
