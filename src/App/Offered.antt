-- ===== src/App/Offered.antt =====
-- The models that `whoami` of tutor/app.py shows.
use cortex_tutor.Prelude.{
  ◌≡◌, refl, String, Bool, true, false, ◌||◌, List, map, any, filter, arith, str_eq, subst,
}
use cortex_tutor.Prelude.Result.{ok, >>=-ok_inv}
use cortex_tutor.Config.{Settings}
use cortex_tutor.Access.Auth.{Principal, tier_for}
use cortex_tutor.Models.Catalog.{
  Tier, homelab, byok, same_tier, CatalogEntry, catalog, find_entry, is_allowed, is_offered,
  is_local, available_models, default_key, default_model,
}
use cortex_tutor.Models.Factory.{truthy}
use cortex_tutor.App.Front.{ModelView, Identity, whoami}

abbrev qwen : String
qwen = "qwen-coach"

abbrev glm : String
glm = "or-glm-5.2"

unfoldable pub is_byok : Tier → Bool
is_byok byok = true
is_byok homelab = false

abbrev view_of : CatalogEntry → ModelView
view_of m = record { key = m.key; display = m.display; provider = m.provider }

abbrev pub offers : String → List ModelView → Bool
offers key models = any (λ m. str_eq m.key key) models

default_model-offered :
    (tier : Tier) (has_local : Bool) (e : CatalogEntry)
    → default_model tier ≡ ok e
    → offers e.key (map view_of (available_models tier has_local)) ≡ is_byok tier || has_local
unfolding default_model default_key find_entry catalog is_allowed is_local is_offered
    available_models filter any is_byok same_tier
default_model-offered homelab true e h =
    let key : qwen ≡ e.key = ground arith in
    subst (λ k. offers k (map view_of (available_models homelab true)) ≡ true) key refl
default_model-offered homelab false e h =
    let key : qwen ≡ e.key = ground arith in
    subst (λ k. offers k (map view_of (available_models homelab false)) ≡ false) key refl
default_model-offered byok true e h =
    let key : glm ≡ e.key = ground arith in
    subst (λ k. offers k (map view_of (available_models byok true)) ≡ true) key refl
default_model-offered byok false e h =
    let key : glm ≡ e.key = ground arith in
    subst (λ k. offers k (map view_of (available_models byok false)) ≡ true) key refl

-- The model that `whoami` names as the default is among those that it offers, unless the caller is of
-- the homelab and there is no local backend; then it is not.
pub whoami-default :
    (principal : Principal) (settings : Settings) (i : Identity)
    → whoami principal settings ≡ ok i
    → offers i.default_key i.available ≡ is_byok i.tier || truthy settings.ollama_url
unfolding whoami
whoami-default principal settings i h =
    let tier = tier_for principal settings in
    let (e, found, rest) = >>=-ok_inv (default_model tier) _ h in
    let shown = default_model-offered tier (truthy settings.ollama_url) e found in
    let key : e.key ≡ i.default_key = ground (arith, rest) in
    let models : map view_of (available_models tier (truthy settings.ollama_url)) ≡ i.available =
      ground (arith, rest) in
    let same : tier ≡ i.tier = ground (arith, rest) in
    subst (λ t. offers i.default_key i.available ≡ is_byok t || truthy settings.ollama_url) same
      (subst (λ ms. offers i.default_key ms ≡ is_byok tier || truthy settings.ollama_url) models
        (subst
          (λ k.
            offers k (map view_of (available_models tier (truthy settings.ollama_url)))
            ≡ is_byok tier || truthy settings.ollama_url)
          key shown))
