-- ===== src/Tests/Routes.antt =====
-- Handlers and client verdicts at concrete inputs.
use cortex_tutor.Prelude.{◌≤◌, ◌≡◌, refl, max, true, none, some, [], ◌∷◌, any, filter}
use cortex_tutor.Prelude.Result.{Result, err, value_error}
use cortex_tutor.Prelude.Text.{codes}
use cortex_tutor.Json.{obj, get_default}
use cortex_tutor.Domain.Verdict.{GateVerdict, pass, IsValid}
use cortex_tutor.Gate.Evaluate.{GateOutcome, valid}
use cortex_tutor.Coach.Context.{Lesson}
use cortex_tutor.Coach.Client.{
  snake, validate_client_verdict, validated, validate_client_verdict-IsSaid,
}
use cortex_tutor.Access.Auth.{Principal, wants_byok, is_homelab, listed}
use cortex_tutor.Persistence.Models.{Session, Db}
use cortex_tutor.Persistence.Sessions.{get_for_user, one_or_none}
use cortex_tutor.Persistence.Transaction.{in_transaction}
use cortex_tutor.Routes.Manage.{CreateBody, text, create_session}
use cortex_tutor.Routes.Turns.{TurnWorld, get_prompt_bundle}
use cortex_tutor.Gate.Validate.{read_verdict}
use cortex_tutor.Json.{find}
use cortex_tutor.Domain.Verdict.{retry}
use cortex_tutor.Prelude.{◌⊎◌, arith}
use cortex_tutor.Routes.Budget.{kept, create_session-budget}
use cortex_tutor.Routes.Withheld.{without_solutions, get_prompt_bundle-withheld}
use cortex_tutor.Tests.Access.{settings}
use cortex_tutor.Tests.Gate.{program}
use cortex_tutor.Tests.Samples.{reference_validator, whole_floats, passing}
use cortex_tutor.Tests.Turn.{calm, world, at_plan, one_session}

abbrev pub lesson : Lesson
lesson = record {
  title = some (codes "Two sum");
  summary = none;
  content = some (codes "Find a pair.");
  statement = none;
  solution = some (codes "Use a hash map.");
  citation_url = none;
}

client_pass : Result (GateVerdict × GateOutcome)
client_pass = validate_client_verdict whole_floats reference_validator (obj passing)

abbrev eighty : GateVerdict
eighty = record {
  verdict = pass;
  score = 80;
  rubric_hits = [];
  missing = [];
  hint = [];
  next_hint_level = 0;
}

validate_client_verdict-IsSaid_example :
    ((pass ≡ retry) ⊎ (read_verdict (find "verdict" passing) ≡ some pass)) × IsValid eighty
unfolding program validate_client_verdict validated snake get_default
validate_client_verdict-IsSaid_example =
    validate_client_verdict-IsSaid whole_floats reference_validator passing eighty valid refl

abbrev pub stranger : Principal
stranger = record { sub = "bob"; preferred_username = "bob" }

abbrev pub body : CreateBody
body = record {
  problem_id = text "dsa/two-sum";
  origin = none;
  track = none;
  model = some "claude-haiku";
}

create_session-budget_example :
    kept "bob" (in_transaction (create_session calm settings stranger body) one_session).1
    ≤ max 2 (kept "bob" one_session)
unfolding wants_byok is_homelab listed any
create_session-budget_example =
    create_session-budget calm settings stranger one_session body (λ d. refl) refl

abbrev pub turn_world : TurnWorld
turn_world = record {
  out = calm;
  gate = world passing;
  settings = settings;
  principal = record { sub = "ada"; preferred_username = "ada" };
  uuid = λ raw. err value_error;
  get_lesson = λ problem_id include_solution. some lesson;
  duty = codes "duty";
}

abbrev at_plan_byok : Session
at_plan_byok = record at_plan { byok = true }

abbrev one_byok : Db
one_byok = record one_session { sessions = at_plan_byok ∷ [] }

get_prompt_bundle-withheld_example :
    in_transaction (get_prompt_bundle turn_world 1 (codes "plan")) one_byok
    ≡ in_transaction (get_prompt_bundle (without_solutions turn_world) 1 (codes "plan")) one_byok
unfolding get_for_user one_or_none filter
get_prompt_bundle-withheld_example =
    get_prompt_bundle-withheld turn_world 1 (codes "plan") at_plan_byok one_byok refl (ground arith)
      (ground arith)
