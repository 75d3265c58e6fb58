-- ===== src/App/Front.antt =====
-- tutor/app.py: the limit on a body's declared size, the caller's identity and models, and one pass of
-- the purge. `int(header)` is the parameter `parse_int`.
use cortex_tutor.Prelude.{ℕ, String, Option, none, some, List, map, ltb, if◌then◌else◌}
use cortex_tutor.Prelude.Int.{ℤ, pos, negsuc}
use cortex_tutor.Prelude.Result.{Result, ok, err, ◌>>=◌}
use cortex_tutor.Prelude.Text.{Text}
use cortex_tutor.Config.{Settings}
use cortex_tutor.Access.Auth.{Principal, tier_for}
use cortex_tutor.Models.Catalog.{Tier, Provider, available_models, default_model}
use cortex_tutor.Models.Factory.{truthy}
use cortex_tutor.Persistence.Models.{Db}
use cortex_tutor.Persistence.Sessions.{purge_expired}

-- What the middleware answers, or `none` to go on.
unfoldable pub limit_body_size : (Text → Option ℤ) → ℕ → Option Text → Option ℕ
limit_body_size parse_int max_bytes none = none
limit_body_size parse_int max_bytes (some content_length) = elim (parse_int content_length) [
  | none ↦ some 400
  | some (pos n) ↦ if ltb max_bytes n then some 413 else none
  | some (negsuc n) ↦ none
]

pub record ModelView : Type 0 where
  pub key : String
  pub display : String
  pub provider : Provider

pub record Identity : Type 0 where
  pub sub : String
  pub preferred_username : String
  pub tier : Tier
  pub default_key : String
  pub available : List ModelView

-- `whoami` after its rate limit
unfoldable pub whoami : Principal → Settings → Result Identity
whoami principal settings = do
  let tier = tier_for principal settings
  e ← default_model tier
  ok (record {
    sub = principal.sub;
    preferred_username = principal.preferred_username;
    tier = tier;
    default_key = e.key;
    available =
        map (λ m. record { key = m.key; display = m.display; provider = m.provider })
          (available_models tier (truthy settings.ollama_url));
  })

-- One pass of `_purge_loop`: an exception is logged and changes nothing.
unfoldable pub purge_pass : Result ℕ → Db → Db
purge_pass (err e) db = db
purge_pass (ok now) db = (purge_expired now db).1
