-- ===== src/Models/Resolve.antt =====
-- How `resolve_coach` of tutor/models/catalog.py funds a coach call: whose key is spent.
use cortex_tutor.Prelude.{
  ◌≡◌, refl, ◌⊎◌, inl, inr, arith, String, Bool, true, false, ◌||◌, Option, some, Bool-cases,
  Option-cases,
}
use cortex_tutor.Prelude.Result.{ok}
use cortex_tutor.Models.Catalog.{
  Tier, homelab, byok, Provider, anthropic, openrouter, ollama, CredentialMode, server_key,
  client_direct, local, locked, CatalogEntry, is_allowed, is_local, same_tier, by_key,
  entry_for_tier, allowed_or_default, homelab_mode, CoachResolution, resolve_coach,
}
use cortex_tutor.Models.Choice.{default_model-allowed}

-- The entry of a tier: the stored one if the tier may have it, or else the default.
pub entry_for_tier-cases :
    (stored_key : Option String) (tier : Tier)
    → (e : CatalogEntry) × (entry_for_tier stored_key tier ≡ ok e)
      × (is_allowed tier e ≡ true)
      × ((by_key stored_key ≡ some e) ⊎ (is_local e.provider ≡ same_tier tier homelab))
unfolding entry_for_tier allowed_or_default
entry_for_tier-cases stored_key tier =
    let (d, made, allowed, named) = default_model-allowed tier in
    elim (Option-cases (by_key stored_key)) [
      | inl n ↦ (d, rw n made, allowed, inr named)
      | inr (e, s) ↦ elim (Bool-cases (is_allowed tier e)) [
        | inl a ↦ (e, rw (s, a) refl, a, inl s)
        | inr a ↦ (d, rw (s, a) made, allowed, inr named)
      ]
    ]

-- What each funding of a call presupposes.
abbrev pub IsFunded : Tier → Bool → Bool → Bool → Option CatalogEntry → CredentialMode → Type 0
IsFunded tier has_server_key prefers_local has_local e server_key =
    (tier ≡ homelab) × (has_server_key ≡ true) × (prefers_local ≡ false)
IsFunded tier has_server_key prefers_local has_local e client_direct = tier ≡ byok
IsFunded tier has_server_key prefers_local has_local e local =
    (tier ≡ homelab) × ((has_local || prefers_local) ≡ true)
IsFunded tier has_server_key prefers_local has_local e locked = tier ≡ homelab

homelab_mode-IsFunded :
    (p : Provider) (e : CatalogEntry) (has_server_key prefers_local has_local : Bool)
    → let r = homelab_mode p e has_server_key prefers_local has_local in
      IsFunded homelab has_server_key prefers_local has_local r.entry r.mode
unfolding homelab_mode
homelab_mode-IsFunded ollama e k l true = (refl, refl)
homelab_mode-IsFunded ollama e k l false = refl
homelab_mode-IsFunded openrouter e k true h = (refl, ground arith)
homelab_mode-IsFunded openrouter e k false h = refl
homelab_mode-IsFunded anthropic e k true h = (refl, ground arith)
homelab_mode-IsFunded anthropic e true false h = (refl, refl, refl)
homelab_mode-IsFunded anthropic e false false h = refl

module _ (stored_key : Option String) (has_server_key prefers_local has_local : Bool) where
  -- Every call is funded, and as it should be: a BYOK caller's by the client alone, and a homelab
  -- caller's by the server's key only if there is one and the deployment does not prefer its local
  -- model, or by a local model only where one is set up or preferred.
  pub resolve_coach-IsFunded :
      (tier : Tier)
      → (r : CoachResolution) × (resolve_coach stored_key tier has_server_key prefers_local
            has_local
          ≡ ok r)
        × IsFunded tier has_server_key prefers_local has_local r.entry r.mode
  unfolding resolve_coach
  resolve_coach-IsFunded byok =
      let (e, made, allowed, source) = entry_for_tier-cases stored_key byok in
      (record { entry = some e; mode = client_direct }, rw made refl, refl)
  resolve_coach-IsFunded homelab =
      let (e, made, allowed, source) = entry_for_tier-cases stored_key homelab in
      (
        homelab_mode e.provider e has_server_key prefers_local has_local,
        rw made refl,
        homelab_mode-IsFunded e.provider e has_server_key prefers_local has_local,
      )
