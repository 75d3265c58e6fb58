-- ===== src/Models/Catalog.antt =====
-- The catalog of tutor/models/catalog.py: its entries, the lookups and the choice of a model. An
-- enum's member is a constructor, a dict the list of its items in order.
use cortex_tutor.Prelude.{
  String, Bool, true, false, ◌&&◌, ◌||◌, not, Option, none, some, List, [], ◌∷◌, map, str_eq,
  if◌then◌else◌, filter, any,
}
use cortex_tutor.Prelude.Result.{
  ◌>>=◌, model_not_allowed, key_error, assertion_error, Result, ok, err,
}

pub data Tier : Type 0 where
  homelab byok : Tier

pub data Provider : Type 0 where
  anthropic openrouter ollama : Provider

pub data CredentialMode : Type 0 where
  server_key client_direct local locked : CredentialMode

pub record CatalogEntry : Type 0 where
  pub key : String
  pub provider : Provider
  pub model_id : String
  pub allowed_tiers : List Tier
  pub display : String

unfoldable pub same_tier : Tier → Tier → Bool
same_tier homelab homelab = true
same_tier byok byok = true
same_tier _ _ = false

-- `tier in e.allowed_tiers`
unfoldable pub is_allowed : Tier → CatalogEntry → Bool
unfolding same_tier
is_allowed tier e = any (same_tier tier) e.allowed_tiers

-- `e.provider is Provider.OLLAMA`
unfoldable pub is_local : Provider → Bool
is_local ollama = true
is_local _ = false

abbrev pub cloud_tiers : List Tier
cloud_tiers = byok ∷ homelab ∷ []

abbrev pub homelab_only : List Tier
homelab_only = homelab ∷ []

abbrev pub entry : String → Provider → String → List Tier → String → String × CatalogEntry
entry key provider model_id allowed_tiers display = (
  key,
  record {
    key = key;
    provider = provider;
    model_id = model_id;
    allowed_tiers = allowed_tiers;
    display = display;
  },
)

unfoldable pub catalog : List (String × CatalogEntry)
catalog =
    entry "or-glm-5.2" openrouter "z-ai/glm-5.2" cloud_tiers "GLM 5.2 (OpenRouter)"
    ∷ entry "or-claude-sonnet" openrouter "anthropic/claude-sonnet-4.6" cloud_tiers
        "Claude Sonnet 4.6 (OpenRouter)"
    ∷ entry "or-gpt-4.1" openrouter "openai/gpt-4.1" cloud_tiers "GPT-4.1 (OpenRouter)"
    ∷ entry "or-gemini-flash" openrouter "google/gemini-2.5-flash" cloud_tiers
        "Gemini 2.5 Flash (OpenRouter)"
    ∷ entry "or-deepseek" openrouter "deepseek/deepseek-chat-v3.1" cloud_tiers
        "DeepSeek V3.1 (OpenRouter)"
    ∷ entry "or-llama-70b" openrouter "meta-llama/llama-3.3-70b-instruct" cloud_tiers
        "Llama 3.3 70B (OpenRouter)"
    ∷ entry "claude-sonnet" anthropic "claude-sonnet-4-6" cloud_tiers "Claude Sonnet 4.6 (direct)"
    ∷ entry "claude-haiku" anthropic "claude-haiku-4-5-20251001" cloud_tiers
        "Claude Haiku 4.5 (direct)"
    ∷ entry "qwen-coach" ollama "socratic-coach" homelab_only "Qwen Coach (local)"
    ∷ []

-- `table.get(key)`
unfoldable pub find_entry : String → List (String × CatalogEntry) → Option CatalogEntry
find_entry key [] = none
find_entry key ((k, e) ∷ rest) = if str_eq k key then some e else find_entry key rest

-- `_CATALOG.get(key) if key else None`
unfoldable pub by_key : Option String → Option CatalogEntry
by_key none = none
by_key (some key) = if str_eq key "" then none else find_entry key catalog

unfoldable pub is_offered : Tier → Bool → CatalogEntry → Bool
is_offered tier has_local e = is_allowed tier e && (has_local || not (is_local e.provider))

unfoldable pub available_models : Tier → Bool → List CatalogEntry
available_models tier has_local = filter (is_offered tier has_local) (map (λ p. p.1) catalog)

unfoldable pub default_key : Tier → String
default_key homelab = "qwen-coach"
default_key byok = "or-glm-5.2"

unfoldable pub default_model : Tier → Result CatalogEntry
default_model tier = elim (find_entry (default_key tier) catalog) [
  | none ↦ err key_error
  | some e ↦ if is_allowed tier e then ok e else err assertion_error
]

-- An entry that was asked for: refused if the tier may not have it, or without its backend.
unfoldable pub checked_entry : Tier → Bool → Option CatalogEntry → Result CatalogEntry
checked_entry tier has_local none = err model_not_allowed
checked_entry tier has_local (some e) =
    if not (is_allowed tier e)
    then err model_not_allowed
    else if is_local e.provider && not has_local
    then err model_not_allowed
    else ok e

unfoldable pub validate_choice : Option String → Tier → Bool → Result CatalogEntry
validate_choice none tier has_local = default_model tier
validate_choice (some requested) tier has_local =
    checked_entry tier has_local (find_entry requested catalog)

pub record CoachResolution : Type 0 where
  pub entry : Option CatalogEntry
  pub mode : CredentialMode

unfoldable pub allowed_or_default : Tier → Option CatalogEntry → Result CatalogEntry
allowed_or_default tier none = default_model tier
allowed_or_default tier (some e) = if is_allowed tier e then ok e else default_model tier

unfoldable pub entry_for_tier : Option String → Tier → Result CatalogEntry
entry_for_tier stored_key tier = allowed_or_default tier (by_key stored_key)

-- The homelab's funding of an entry.
unfoldable pub homelab_mode : Provider → CatalogEntry → Bool → Bool → Bool → CoachResolution
homelab_mode ollama e has_server_key prefers_local has_local = record {
  entry = some e;
  mode = if has_local then local else locked;
}
homelab_mode anthropic e has_server_key prefers_local has_local =
    if prefers_local
    then record { entry = none; mode = local }
    else record { entry = some e; mode = if has_server_key then server_key else locked }
homelab_mode openrouter e has_server_key prefers_local has_local =
    if prefers_local
    then record { entry = none; mode = local }
    else record { entry = some e; mode = locked }

unfoldable pub resolve_coach : Option String → Tier → Bool → Bool → Bool → Result CoachResolution
resolve_coach stored_key byok has_server_key prefers_local has_local = do
  e ← entry_for_tier stored_key byok
  ok (record { entry = some e; mode = client_direct })
resolve_coach stored_key homelab has_server_key prefers_local has_local = do
  e ← entry_for_tier stored_key homelab
  ok (homelab_mode e.provider e has_server_key prefers_local has_local)
