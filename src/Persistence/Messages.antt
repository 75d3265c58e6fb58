-- ===== src/Persistence/Messages.antt =====
-- tutor/persistence/repo.py, the queries of the message table.
use mathlib.Core.List.{reverse}
use cortex_tutor.Prelude.{
  ℕ, ◌+◌, max, String, Bool, true, false, ◌&&◌, not, Option, none, some, List, [], ◌∷◌, leb, ◌==◌,
  if◌then◌else◌, take, filter, any, ◌≡◌, refl, arith, inl, inr, Bool-cases,
}
use cortex_tutor.Prelude.Text.{Text}
use cortex_tutor.Domain.Steps.{Step}
use cortex_tutor.Prelude.Result.{integrity_error, Result, ok, err}
use cortex_tutor.Persistence.Sessions.{has_id}
use cortex_tutor.Persistence.Models.{MessageRole, system, Session, Message, Db, Clock}

unfoldable pub first {ℓ} : {A : Type ℓ} → List A → Option A
first [] = none
first (a ∷ rest) = some a

abbrev pub in_session : ℕ → Message → Bool
in_session id m = m.session_id == id

unfoldable pub max_seq : List Message → ℕ
max_seq [] = 0
max_seq (m ∷ ms) = max m.seq (max_seq ms)

unfoldable pub next_seq : ℕ → Db → ℕ
unfolding max_seq
next_seq id db = max_seq (filter (in_session id) db.messages) + 1

-- What a message is appended with.
pub record NewMessage : Type 0 where
  pub role : MessageRole
  pub step : Step
  pub content : Text
  pub turn_id : Option ℕ
  pub content_json : Option (List (String × Text))
  pub model : Option String

-- The row, and the table with it.
unfoldable pub insert_message : Clock → ℕ → NewMessage → Db → Message × Db
unfolding next_seq
insert_message clock id n db =
    let msg : Message = record {
      session_id = id;
      seq = next_seq id db;
      role = n.role;
      step = n.step;
      content = n.content;
      content_json = n.content_json;
      model = n.model;
      turn_id = n.turn_id;
      created_at = clock.now;
    } in
    (msg, record db { messages = msg ∷ db.messages })

-- The foreign key of the message table refuses a message of a session that is not there.
unfoldable pub append_message : Clock → ℕ → NewMessage → Db → Result Message × Db
append_message clock id n db =
    let (msg, db') = insert_message clock id n db in
    if any (has_id id) db.sessions then (ok msg, db') else (err integrity_error, db)

any-filter_single :
    {A : Type 0} (p : A → Bool) (x : A) (xs : List A) → filter p xs ≡ x ∷ [] → any p xs ≡ true
unfolding filter any
any-filter_single p x [] h = absurd (ground arith)
any-filter_single p x (y ∷ ys) h = elim (Bool-cases (p y)) [
  | inl t ↦ rw t refl
  | inr t ↦ ground (arith, any-filter_single p x ys (ground arith))
]

pub append_message-found :
    (clock : Clock) (id : ℕ) (n : NewMessage) (db : Db) (s : Session)
    → filter (has_id id) db.sessions ≡ s ∷ []
    → append_message clock id n db
      ≡ (ok (insert_message clock id n db).0, (insert_message clock id n db).1)
unfolding append_message
append_message-found clock id n db s only =
    rw (any-filter_single (has_id id) s db.sessions only) refl

unfoldable pub is_system : MessageRole → Bool
is_system system = true
is_system _ = false

-- `ORDER BY seq DESC`, by insertion
unfoldable pub insert_desc : Message → List Message → List Message
insert_desc m [] = m ∷ []
insert_desc m (n ∷ ns) = if leb n.seq m.seq then m ∷ n ∷ ns else n ∷ insert_desc m ns

unfoldable pub order_desc : List Message → List Message
unfolding insert_desc
order_desc [] = []
order_desc (m ∷ ms) = insert_desc m (order_desc ms)

unfoldable pub load_recent_messages : ℕ → ℕ → Db → List Message
unfolding order_desc is_system
load_recent_messages id limit db =
    reverse (
      take limit (order_desc (filter (λ m. in_session id m && not (is_system m.role)) db.messages)))

unfoldable pub same_turn : Option ℕ → ℕ → Bool
same_turn none turn_id = false
same_turn (some t) turn_id = t == turn_id

abbrev pub of_turn : ℕ → ℕ → Message → Bool
of_turn id turn_id m = in_session id m && same_turn m.turn_id turn_id

unfoldable pub find_by_turn : ℕ → ℕ → Db → Option Message
unfolding first
find_by_turn id turn_id db = first (filter (of_turn id turn_id) db.messages)
