-- ===== src/Tests/Access.antt =====
-- Models, callers and limits at concrete inputs.
use cortex_tutor.Prelude.{
  ℕ, ◌≤◌, ◌≡◌, refl, String, true, false, none, some, [], ◌∷◌, arith, any, count, filter, str_eq,
}
use cortex_tutor.Prelude.Result.{ok}
use cortex_tutor.Config.{Settings}
use cortex_tutor.Models.Catalog.{
  homelab, byok, anthropic, server_key, CatalogEntry, entry, catalog, cloud_tiers, find_entry,
  is_allowed, same_tier, available_models, by_key, validate_choice, checked_entry, resolve_coach,
  entry_for_tier, allowed_or_default, homelab_mode,
}
use cortex_tutor.Models.Choice.{is_ok, has_key, validate_choice-offered}
use cortex_tutor.Access.Auth.{
  Principal, many, Claims, good, Jwt, has_audience, IsFor, verify_jwt, verify_token, decode_with,
  principal_of, with_sub, aud_list, listed, is_azp, or_else, verify_jwt-accepts,
}
use cortex_tutor.Access.Limiter.{check_key, evict, in_window, refuse}
use cortex_tutor.Access.Limiter.Bound.{serve, log_of, in_last, serve-IsWithin}

abbrev pub settings : Settings
settings = record {
  auth_enabled = true;
  keycloak_client_id = "cortex-web";
  anthropic_api_key = some "sk";
  coach_model = "claude-sonnet-4-6";
  gate_model = "claude-haiku-4-5-20251001";
  homelab_users = "ani2fun" ∷ [];
  force_byok = false;
  ollama_url = none;
  ollama_model = none;
  force_local = false;
  ollama_timeout = 180;
  coach_max_message_chars = 16000;
  coach_max_sessions_per_user = 2;
  coach_max_messages_per_session = 120;
}

abbrev haiku : CatalogEntry
haiku =
    (entry "claude-haiku" anthropic "claude-haiku-4-5-20251001" cloud_tiers
      "Claude Haiku 4.5 (direct)").1

validate_choice-offered_example :
    is_ok (validate_choice (some "qwen-coach") byok true)
    ≡ any (has_key "qwen-coach") (available_models byok true)
validate_choice-offered_example = validate_choice-offered byok true "qwen-coach"

local_model_refused : is_ok (validate_choice (some "qwen-coach") byok true) ≡ false
unfolding validate_choice checked_entry find_entry catalog is_allowed any same_tier
local_model_refused = refl

server_key_spent :
    resolve_coach (some "claude-haiku") homelab true false false
    ≡ ok (record { entry = some haiku; mode = server_key })
unfolding resolve_coach entry_for_tier allowed_or_default by_key find_entry catalog is_allowed any
    same_tier homelab_mode
server_key_spent = refl

abbrev claims : Claims
claims = record {
  aud = some (many ("account" ∷ []));
  azp = some "cortex-web";
  sub = some "u1";
  preferred_username = none;
}

-- An identity provider with one key, whose tokens all carry the same claims.
abbrev one_key : Jwt ℕ
one_key = record { get_signing_key = λ token. good 7; decode = λ token key. good claims }

abbrev pub learner : Principal
learner = record { sub = "u1"; preferred_username = "u1" }

verify_jwt-accepts_example :
    (token : String) × (key : ℕ) × (c : Claims) × (some "t" ≡ some token)
    × (one_key.get_signing_key token ≡ good key)
    × (one_key.decode token key ≡ good c)
    × IsFor "cortex-web" c
    × (c.sub ≡ some "u1")
    × (str_eq "u1" "" ≡ false)
unfolding verify_jwt verify_token decode_with principal_of with_sub has_audience aud_list listed
    is_azp or_else any
verify_jwt-accepts_example = verify_jwt-accepts one_key settings (some "t") learner refl refl

-- Of four requests the third is refused, and the fourth comes when the first has left the window.
serve-IsWithin_example : count (in_last 2 10 12) (1 ∷ 3 ∷ 12 ∷ []) ≤ 2
unfolding serve check_key evict in_window filter log_of refuse
serve-IsWithin_example =
    serve-IsWithin 2 10 (1 ∷ 3 ∷ 5 ∷ 12 ∷ [])
      (omega arith, (omega arith, (omega arith, (omega arith, tt)))) 12
