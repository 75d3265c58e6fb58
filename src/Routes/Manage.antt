-- ===== src/Routes/Manage.antt =====
-- The handlers of tutor/routes/sessions.py that create, read, reset, clear and re-point sessions.
-- In a body a missing value and null are `none`; values of the wrong type are not modelled but for
-- "problemId", where `other` is one that is truthy.
use cortex_tutor.Prelude.{
  ℕ, count, ◌==◌, String, not, Option, none, some, [], ltb, if◌then◌else◌, str_eq, length,
}
use cortex_tutor.Prelude.Result.{
  http, integrity_error, model_not_allowed, attribute_error, Result, ok, err,
}
use cortex_tutor.Prelude.Text.{codes}
use cortex_tutor.Config.{Settings}
use cortex_tutor.Domain.Steps.{Track, problem, conceptual}
use cortex_tutor.Models.Catalog.{CatalogEntry, is_local, validate_choice, default_model}
use cortex_tutor.Models.Factory.{truthy}
use cortex_tutor.Access.Auth.{Principal, tier_for, or_else}
use cortex_tutor.Access.Quotas.{check_session_quota}
use cortex_tutor.Persistence.Models.{Session}
use cortex_tutor.Persistence.Sessions.{
  is_active, active_for, get_active, get_for_user, NewSession, create, set_coach_model,
  delete_for_problem, delete_all_for_user,
}
use cortex_tutor.Persistence.Messages.{load_recent_messages}
use cortex_tutor.Persistence.Transaction.{
  Exec, ◌>>=◌, ◌>>◌, pure, raise, lift, reads, queries, writes, interleave, commit, require,
}
use cortex_tutor.Turn.Apply.{Outside}
use cortex_tutor.Routes.Http.{not_allowed_as_422}
use cortex_tutor.Routes.View.{SessionView, session_payload}

pub data Field : Type 0 where
  absent other : Field
  text : String → Field

pub record CreateBody : Type 0 where
  pub problem_id : Field
  pub origin : Option String
  pub track : Option String
  pub model : Option String

unfoldable pub checked_problem_id : Field → Result String
checked_problem_id absent = err (http 422)
checked_problem_id other = err (http 413)
checked_problem_id (text t) =
    if str_eq t ""
    then err (http 422)
    else if ltb 256 (length (codes t))
    then err (http 413)
    else ok t

-- `Track(body.get("track") or "problem")`
unfoldable pub parse_track : Option String → Result Track
parse_track track =
    let value = or_else track "problem" in
    if str_eq value "problem"
    then ok problem
    else if str_eq value "conceptual"
    then ok conceptual
    else err (http 422)

unfoldable pub choose_model : Principal → Settings → Option String → Result CatalogEntry
choose_model principal settings requested =
    not_allowed_as_422
      (validate_choice requested (tier_for principal settings) (truthy settings.ollama_url))

-- The session that a model is pinned on.
unfoldable pub session_with :
    Outside → Principal → String → String → Track → CatalogEntry → NewSession
session_with out principal problem_id origin track e = record {
  user_sub = principal.sub;
  problem_id = problem_id;
  origin = origin;
  rubric_version = out.rubric_version;
  track = track;
  byok = not (is_local e.provider);
  coach_model = some e.key;
}

unfoldable pub some_or_404 : Option Session → Result Session
some_or_404 none = err (http 404)
some_or_404 (some s) = ok s

module _ (out : Outside) (settings : Settings) (principal : Principal) where
  -- Other requests may write between the check of the budget and the insertion; one that created
  -- the active session meanwhile makes the partial unique index refuse this one.
  unfoldable pub create_new : String → String → Track → CatalogEntry → Exec Session
  create_new problem_id origin track e = do
    queries (check_session_quota principal settings)
    interleave out.others
    taken ← reads (λ db. count (active_for principal.sub problem_id) db.sessions)
    require (taken == 0) integrity_error
    s ←
        writes
          (create out.clock out.fresh_id (session_with out principal problem_id origin track e))
    commit
    pure s

  unfoldable pub create_session : CreateBody → Exec SessionView
  create_session body = do
    problem_id ← lift (checked_problem_id body.problem_id)
    track ← lift (parse_track body.track)
    e ← lift (choose_model principal settings body.model)
    found ← queries (get_active principal.sub problem_id)
    s ← elim found [
      | some s ↦ pure s
      | none ↦ create_new problem_id (or_else body.origin "your_turn") track e
    ]
    history ← reads (load_recent_messages s.id 40)
    pure (session_payload s history)

  -- `none` is the 204.
  unfoldable pub get_active_session : String → Exec (Option SessionView)
  get_active_session problem_id = do
    found ← queries (get_active principal.sub problem_id)
    elim found [
      | none ↦ pure none
      | some s ↦ reads (load_recent_messages s.id 200) >>= λ history.
          pure (some (session_payload s history))
    ]

  unfoldable pub get_session : ℕ → Exec SessionView
  get_session session_id = do
    found ← queries (get_for_user session_id principal.sub)
    s ← lift (some_or_404 found)
    history ← reads (load_recent_messages s.id 200)
    pure (session_payload s history)

  -- The stored model, or the default where it is no longer allowed.
  unfoldable pub carried_model : Option String → Result CatalogEntry
  carried_model prior =
      elim (validate_choice prior (tier_for principal settings) (truthy settings.ollama_url)) [
        | ok e ↦ ok e
        | err model_not_allowed ↦ default_model (tier_for principal settings)
        | err x ↦ err x
      ]

  unfoldable pub reset_session : ℕ → Exec SessionView
  reset_session session_id = do
    found ← queries (get_for_user session_id principal.sub)
    s ← lift (some_or_404 found)
    e ← lift (carried_model s.coach_model)
    deleted ← writes (delete_for_problem principal.sub s.problem_id)
    fresh ←
        writes (
          create out.clock out.fresh_id
            (session_with out principal s.problem_id s.origin s.track e))
    commit
    pure (session_payload fresh [])

  unfoldable pub clear_all_sessions : Exec ℕ
  clear_all_sessions = do deleted ← writes (delete_all_for_user principal.sub); commit; pure deleted

  -- After the commit the row is read again; nothing is there if another request deleted it.
  unfoldable pub read_back : ℕ → Exec SessionView
  read_back session_id = do
    found ← queries (get_for_user session_id principal.sub)
    elim found [
      | none ↦ raise attribute_error
      | some s ↦
          reads (load_recent_messages s.id 200) >>= λ history. pure (session_payload s history)
    ]

  unfoldable pub change_session_model : ℕ → Option String → Exec SessionView
  change_session_model session_id requested = do
    e ← lift (choose_model principal settings requested)
    found ← queries (get_for_user session_id principal.sub)
    s ← lift (some_or_404 found)
    require (is_active s.status) (http 409)
    interleave out.others
    saved ← writes (set_coach_model out.clock s.id s.version e.key (not (is_local e.provider)))
    require saved (http 409)
    commit
    read_back session_id
