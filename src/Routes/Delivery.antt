-- ===== src/Routes/Delivery.antt =====
-- What the stream of tutor/routes/sessions.py delivers: the tokens, the result's reply and the
-- stored message agree, if one is stored.
use cortex_tutor.Prelude.{
  none, if_false, subst, sym, any, true, ◌⊎◌, inl, inr, Bool-cases, ◌≡◌, refl, ap, false, List, [],
  ◌∷◌, ◌++◌, map,
}
use cortex_tutor.Prelude.Text.{Text, join}
use cortex_tutor.Gate.Evaluate.{Rubric, ChatMessage}
use cortex_tutor.Persistence.Models.{coach, Message, Db}
use cortex_tutor.Persistence.Messages.{append_message, insert_message}
use cortex_tutor.Persistence.Sessions.{has_id}
use cortex_tutor.Persistence.Transaction.{in_transaction}
use cortex_tutor.Prelude.Result.{Error, Result, ok, err, Result-cases}
use cortex_tutor.Turn.Apply.{Outside, record_coach_reply}
use cortex_tutor.Routes.View.{ResultView}
use cortex_tutor.Routes.Turns.{StreamJob}
use cortex_tutor.Routes.Stream.{
  Spoken, Event, state, token, finished, parts_for, logged, persist_reply, event_gen,
}

-- The texts of a stream's tokens.
unfoldable pub tokens_of : List Event → List Text
tokens_of [] = []
tokens_of (token t ∷ es) = t ∷ tokens_of es
tokens_of (state s ∷ es) = tokens_of es
tokens_of (finished r reply ∷ es) = tokens_of es

-- The replies of its results.
unfoldable pub replies_of : List Event → List Text
replies_of [] = []
replies_of (token t ∷ es) = replies_of es
replies_of (state s ∷ es) = replies_of es
replies_of (finished r reply ∷ es) = reply ∷ replies_of es

tokens_of-map :
    (ts : List Text) (r : ResultView) (reply : Text)
    → tokens_of (map token ts ++ finished r reply ∷ []) ≡ ts
unfolding tokens_of
tokens_of-map [] r reply = refl
tokens_of-map (t ∷ ts) r reply = ap (λ xs. t ∷ xs) (tokens_of-map ts r reply)

replies_of-map :
    (ts : List Text) (r : ResultView) (reply : Text)
    → replies_of (map token ts ++ finished r reply ∷ []) ≡ reply ∷ []
unfolding replies_of
replies_of-map [] r reply = refl
replies_of-map (t ∷ ts) r reply = replies_of-map ts r reply

module _ (out : Outside) (connected : Result (Unit {0})) (job : StreamJob) (reply : Text)
    (db : Db) where
  -- The coach's reply is stored, in the session that is there.
  pub record IsStored (after : Db) : Type 0 where
    pub reached : connected ≡ ok tt
    pub there : any (has_id job.outcome.session.id) db.sessions ≡ true
    pub message : Message
    pub appended : after.messages ≡ message ∷ db.messages
    pub session_id : message.session_id ≡ job.outcome.session.id
    pub role : message.role ≡ coach
    pub step : message.step ≡ job.outcome.evaluated_step
    pub content : message.content ≡ reply
    pub model : message.model ≡ job.outcome.session.coach_model

  -- Nothing is stored: the database failed, or the session is gone.
  pub record IsLost (after : Db) : Type 0 where
    pub because :
        ((e : Error) × (connected ≡ err e))
        ⊎ (any (has_id job.outcome.session.id) db.sessions ≡ false)
    pub nothing : after ≡ db

  persist_reply-cases :
      let after = persist_reply out connected job reply db in IsStored after ⊎ IsLost after
  unfolding persist_reply logged record_coach_reply append_message insert_message
  persist_reply-cases = elim (Result-cases connected) [
    | inr (e, c) ↦ inr (record { because = inl (e, c); nothing = rw (in_transaction, c) refl })
    | inl (u, c) ↦ elim (Bool-cases (any (has_id job.outcome.session.id) db.sessions)) [
      | inr t ↦ inr (record { because = inr t; nothing = rw (in_transaction, c, t) refl })
      | inl t ↦ inl (record {
        reached = c;
        there = t;
        message =
            (insert_message out.clock job.outcome.session.id
              (record {
                role = coach;
                step = job.outcome.evaluated_step;
                content = reply;
                turn_id = none;
                content_json = none;
                model = job.outcome.session.coach_model;
              })
              db).0;
        appended = rw (in_transaction, c, t) refl;
        session_id = refl;
        role = refl;
        step = refl;
        content = refl;
        model = refl;
      })
    ]
  ]

module _ (rubric : Rubric) (coach_stream : Text → List ChatMessage → Spoken) (out : Outside)
    (connected : Result (Unit {0})) (job : StreamJob) (db : Db) where
  abbrev pub events : List Event
  events = (event_gen rubric coach_stream out connected job db).0

  abbrev pub stored : Db
  stored = (event_gen rubric coach_stream out connected job db).1

  -- Unless the turn is a replay, the stream has one result, whose reply is the tokens joined
  -- together, also when the coach fails midway. Either that reply is stored, as one message of the
  -- coach's in the session, or nothing is, and then the database failed or the session is gone.
  pub event_gen-delivers :
      job.outcome.replayed ≡ false
      → (replies_of events ≡ join [] (tokens_of events) ∷ [])
        × (IsStored out connected job (join [] (tokens_of events)) db stored
            ⊎ IsLost out connected job (join [] (tokens_of events)) db stored)
  unfolding event_gen tokens_of replies_of parts_for join
  event_gen-delivers fresh =
      let parts = parts_for rubric coach_stream job in
      let reply = join [] parts in
      let shown : List Event =
        state job.state ∷ (map token parts ++ finished job.result reply ∷ []) in
      let after = persist_reply out connected job reply db in
      let made : event_gen rubric coach_stream out connected job db ≡ (shown, after) =
        if_false job.outcome.replayed _ (shown, after) fresh in
      subst
        (λ p.
          (replies_of p.0 ≡ join [] (tokens_of p.0) ∷ [])
          × (IsStored out connected job (join [] (tokens_of p.0)) db p.1
              ⊎ IsLost out connected job (join [] (tokens_of p.0)) db p.1))
        (sym made)
        (rw (replies_of-map parts job.result reply, tokens_of-map parts job.result reply)
          (refl, persist_reply-cases out connected job reply db))
