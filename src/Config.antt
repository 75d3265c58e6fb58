-- ===== src/Config.antt =====
-- The settings of tutor/config.py that the modelled code reads. `homelab_users` is the list that
-- the property of that name splits from the environment's text.
use cortex_tutor.Prelude.{ℕ, String, Bool, Option, List}

pub record Settings : Type 0 where
  pub auth_enabled : Bool
  pub keycloak_client_id : String
  pub anthropic_api_key : Option String
  pub coach_model : String
  pub gate_model : String
  pub homelab_users : List String
  pub force_byok : Bool
  pub ollama_url : Option String
  pub ollama_model : Option String
  pub force_local : Bool
  pub ollama_timeout : ℕ
  pub coach_max_message_chars : ℕ
  pub coach_max_sessions_per_user : ℕ
  pub coach_max_messages_per_session : ℕ
