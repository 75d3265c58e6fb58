-- ===== src/Tests/System.antt =====
-- A session of one learner, and then one of another, in tables that were empty.
use cortex_tutor.Prelude.{◌≡◌, refl, filter, any, count, All}
use cortex_tutor.Access.Auth.{Principal}
use cortex_tutor.Persistence.Models.{Db, empty_db}
use cortex_tutor.Persistence.Sessions.{owns}
use cortex_tutor.System.Changes.{IsConsistent}
use cortex_tutor.System.History.{IsHistory}
use cortex_tutor.System.Requests.{
  Request, post_session, run_request, may_change, IsAlone, Reached, at_first, after,
  Reached-IsConsistent, Reached-IsHistory, run_request-scope,
}
use cortex_tutor.Routes.Manage.{
  create_session, create_new, checked_problem_id, parse_track, choose_model, session_with,
}
use cortex_tutor.Access.Auth.{or_else, tier_for, is_homelab, listed, wants_byok}
use cortex_tutor.Access.Quotas.{check_session_quota}
use cortex_tutor.Routes.Http.{not_allowed_as_422}
use cortex_tutor.Models.Catalog.{
  validate_choice, checked_entry, find_entry, catalog, is_allowed, is_local,
}
use cortex_tutor.Persistence.Sessions.{
  get_active, one_or_none, create, new_row, count_sessions_for_user,
}
use cortex_tutor.Tests.Access.{settings}
use cortex_tutor.Tests.Turn.{calm}
use cortex_tutor.Tests.Routes.{stranger, body}

abbrev learner : Principal
learner = record { sub = "ada"; preferred_username = "ada" }

abbrev first_request : Request
first_request = post_session calm settings learner body

abbrev second_request : Request
second_request = post_session (record calm { fresh_id = 10 }) settings stranger body

with_one : Db
with_one = run_request first_request empty_db

with_one-Reached : Reached with_one
unfolding with_one count
with_one-Reached = after empty_db first_request (at_first refl) (λ d. refl, refl) refl

program : Unit {0}
unfolding with_one count run_request create_session create_new checked_problem_id parse_track
    choose_model session_with or_else tier_for is_homelab listed wants_byok check_session_quota
    not_allowed_as_422 validate_choice checked_entry find_entry catalog is_allowed is_local
    get_active one_or_none create new_row count_sessions_for_user filter any
program = tt

second_request-IsAlone : IsAlone second_request with_one
unfolding program
second_request-IsAlone = (λ d. refl, refl)

with_two : Db
with_two = run_request second_request with_one

with_two-Reached : Reached with_two
unfolding with_two
with_two-Reached = after with_one second_request with_one-Reached second_request-IsAlone refl

Reached-IsConsistent_example : IsConsistent with_two.sessions
Reached-IsConsistent_example = Reached-IsConsistent with_two-Reached

Reached-IsHistory_example : All IsHistory with_two.sessions
Reached-IsHistory_example = Reached-IsHistory with_two-Reached

run_request-scope_example :
    filter (owns "ada") (run_request second_request with_one).sessions
    ≡ filter (owns "ada") with_one.sessions
unfolding may_change
run_request-scope_example =
    run_request-scope second_request with_one "ada" with_one-Reached second_request-IsAlone refl

-- The first request made a session.
one_row : count (owns "ada") with_one.sessions ≡ 1
unfolding program
one_row = refl
