-- ===== src/Models/Factory.antt =====
-- tutor/models/factory.py and router.py: which provider and which model serve a role.
use cortex_tutor.Prelude.{
  ℕ, ◌≡◌, ◌↔◌, arith, String, Bool, true, false, ◌&&◌, ◌||◌, not, Option, none, some, str_eq,
  if◌then◌else◌,
}
use cortex_tutor.Prelude.Result.{Result, ok, err, runtime_error}
use cortex_tutor.Config.{Settings}

-- `bool(text)`
unfoldable pub truthy : Option String → Bool
truthy none = false
truthy (some s) = not (str_eq s "")

unfoldable pub prefers_local : Settings → Bool
unfolding truthy
prefers_local settings =
    settings.force_local || (not (truthy settings.anthropic_api_key) && truthy settings.ollama_url)

unfoldable pub ollama_model : Settings → String
ollama_model settings = elim settings.ollama_model [
  | none ↦ "qwen2.5-coder:7b"
  | some m ↦ if str_eq m "" then "qwen2.5-coder:7b" else m
]

-- The arguments that a provider is made with.
pub data ProviderOf : Type 0 where
  ollama_provider : Option String → String → ℕ → ProviderOf
  anthropic_provider : Option String → String → ProviderOf

-- The common body of the two factories: they differ in the Anthropic model alone.
unfoldable pub make_provider : Settings → String → Result ProviderOf
unfolding prefers_local ollama_model truthy
make_provider settings model =
    let on_ollama =
      ollama_provider settings.ollama_url (ollama_model settings) settings.ollama_timeout in
    if prefers_local settings && truthy settings.ollama_url
    then ok on_ollama
    else if truthy settings.anthropic_api_key
    then ok (anthropic_provider settings.anthropic_api_key model)
    else if truthy settings.ollama_url
    then ok on_ollama
    else err runtime_error

unfoldable pub make_gate_provider : Settings → Result ProviderOf
unfolding make_provider
make_gate_provider settings = make_provider settings settings.gate_model

unfoldable pub make_coach_provider : Settings → Result ProviderOf
unfolding make_provider
make_coach_provider settings = make_provider settings settings.coach_model

-- A provider is made exactly if Ollama or an Anthropic key is configured; and it is Ollama's exactly
-- if Ollama is configured and either forced or without an Anthropic key beside it.
pub make_gate_provider_iff :
    (settings : Settings)
    → let key = truthy settings.anthropic_api_key in
      let url = truthy settings.ollama_url in
      ((make_gate_provider settings ≡ err runtime_error) ↔ ((key || url) ≡ false))
      × ((make_gate_provider settings
            ≡ ok (
                ollama_provider settings.ollama_url
                  (ollama_model settings)
                  settings.ollama_timeout))
          ↔ ((url && (settings.force_local || not key)) ≡ true))
unfolding make_gate_provider make_provider prefers_local
make_gate_provider_iff settings = ground arith

pub data Role : Type 0 where
  coach gate : Role

pub record ModelChoice : Type 0 where
  pub model : String
  pub allow_thinking : Bool

unfoldable pub choose : Role → String → String → ModelChoice
choose gate coach_model gate_model = record { model = gate_model; allow_thinking = false }
choose coach coach_model gate_model = record { model = coach_model; allow_thinking = true }
