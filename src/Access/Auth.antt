-- ===== src/Access/Auth.antt =====
-- tutor/auth.py: the check of a token and the tier of its subject. PyJWT (fetching the signing key,
-- decoding with the signature, the issuer and the times checked) is the parameter `Jwt`.
use cortex_tutor.Prelude.{
  ◌≡◌, refl, ap, ◌∙◌, subst, eq_iff, Bool-cases, ◌⊎◌, inl, inr, Option-cases, arith, String, Bool,
  true, false, ◌&&◌, ◌||◌, not, Option, none, some, List, [], ◌∷◌, str_eq, if◌then◌else◌, any,
}
use mathlib.Core.List.{Mem, mem-cons_self, mem-cons_of_mem}
use cortex_tutor.Prelude.Result.{http, Result, ok, err}
use cortex_tutor.Config.{Settings}
use cortex_tutor.Models.Catalog.{Tier, homelab, byok}

pub record Principal : Type 0 where
  pub sub : String
  pub preferred_username : String

-- The claim "aud": absent, a string, or a list (null reads as empty).
pub data Audience : Type 0 where
  one : String → Audience
  many : List String → Audience

pub record Claims : Type 0 where
  pub aud : Option Audience
  pub azp : Option String
  pub sub : Option String
  pub preferred_username : Option String

-- What PyJWT raises: no key can be fetched, or the token is bad.
pub data JwtError : Type 0 where
  client_error expired invalid_token : JwtError

pub data Decoded (A : Type 0) : Type 0 where
  good : A → Decoded A
  bad : JwtError → Decoded A

pub record Jwt (Key : Type 0) : Type 0 where
  pub get_signing_key : String → Decoded Key
  pub decode : String → Key → Decoded Claims

unfoldable pub aud_list : Option Audience → List String
aud_list none = []
aud_list (some (one a)) = a ∷ []
aud_list (some (many auds)) = auds

-- `user in users`
unfoldable pub listed : String → List String → Bool
listed user users = any (λ u. str_eq u user) users

unfoldable pub is_azp : String → Option String → Bool
is_azp expected none = false
is_azp expected (some azp) = str_eq azp expected

-- `a or b`, for texts
unfoldable pub or_else : Option String → String → String
or_else none b = b
or_else (some a) b = if str_eq a "" then b else a

unfoldable pub with_sub : Claims → Option String → Result Principal
unfolding or_else
with_sub claims none = err (http 401)
with_sub claims (some sub) =
    if str_eq sub ""
    then err (http 401)
    else ok (record { sub = sub; preferred_username = or_else claims.preferred_username sub })

unfoldable pub has_audience : String → Claims → Bool
unfolding aud_list listed is_azp
has_audience expected claims = listed expected (aud_list claims.aud) || is_azp expected claims.azp

unfoldable pub principal_of : String → Claims → Result Principal
unfolding has_audience with_sub
principal_of expected claims =
    if has_audience expected claims then with_sub claims claims.sub else err (http 401)

-- The claims name the client: as their audience, in their list of audiences, or as the authorized
-- party.
abbrev pub IsFor : String → Claims → Type 0
IsFor client claims =
    (claims.aud ≡ some (one client))
    ⊎ (((auds : List String) × (claims.aud ≡ some (many auds)) × Mem client auds)
        ⊎ (claims.azp ≡ some client))

listed-Mem : (user : String) (users : List String) → listed user users ≡ true → Mem user users
unfolding listed any
listed-Mem user [] h = absurd (ground arith)
listed-Mem user (u ∷ us) h = elim (Bool-cases (str_eq u user)) [
  | inl t ↦ subst (λ x. Mem x (u ∷ us)) ((eq_iff u user).0 t) mem-cons_self
  | inr t ↦ mem-cons_of_mem u (listed-Mem user us (ground arith))
]

aud_list-IsFor :
    (client : String) (claims : Claims) (aud : Option Audience)
    → claims.aud ≡ aud
    → listed client (aud_list aud) ≡ true
    → IsFor client claims
unfolding aud_list listed any
aud_list-IsFor client claims none same h = absurd (ground arith)
aud_list-IsFor client claims (some (one a)) same h =
    inl (same ∙ ap (λ x. some (one x)) ((eq_iff a client).0 (ground arith)))
aud_list-IsFor client claims (some (many auds)) same h =
    inr (inl (auds, same, listed-Mem client auds h))

is_azp-IsFor :
    (client : String) (azp : Option String) → is_azp client azp ≡ true → azp ≡ some client
unfolding is_azp
is_azp-IsFor client none h = absurd (ground arith)
is_azp-IsFor client (some a) h = ap some ((eq_iff a client).0 h)

has_audience-IsFor :
    (client : String) (claims : Claims) → has_audience client claims ≡ true → IsFor client claims
unfolding has_audience
has_audience-IsFor client claims h = elim (Bool-cases (listed client (aud_list claims.aud))) [
  | inl t ↦ aud_list-IsFor client claims claims.aud refl t
  | inr t ↦ inr (inr (is_azp-IsFor client claims.azp (ground arith)))
]

pub principal_of-ok :
    (expected : String) (claims : Claims) (p : Principal)
    → principal_of expected claims ≡ ok p
    → (has_audience expected claims ≡ true) × (claims.sub ≡ some p.sub) × (str_eq p.sub "" ≡ false)
unfolding principal_of with_sub
principal_of-ok expected claims p h = elim (Option-cases claims.sub) [
  | inl n ↦ absurd (ground arith)
  | inr (a, n) ↦ ground arith
]

Decoded-cases :
    {A : Type 0} (d : Decoded A) → ((a : A) × (d ≡ good a)) ⊎ ((e : JwtError) × (d ≡ bad e))
Decoded-cases (good a) = inl (a, refl)
Decoded-cases (bad e) = inr (e, refl)

unfoldable pub key_error_status : JwtError → Result Principal
key_error_status client_error = err (http 503)
key_error_status _ = err (http 401)

module _ {Key : Type 0} (jwt : Jwt Key) where
  unfoldable pub decode_with : Settings → String → Decoded Key → Result Principal
  unfolding key_error_status principal_of
  decode_with settings token (bad e) = key_error_status e
  decode_with settings token (good key) = elim (jwt.decode token key) [
    | bad e ↦ err (http 401)
    | good claims ↦ principal_of settings.keycloak_client_id claims
  ]

  unfoldable pub verify_token : Settings → Option String → Result Principal
  unfolding decode_with
  verify_token settings none = err (http 401)
  verify_token settings (some token) = decode_with settings token (jwt.get_signing_key token)

  unfoldable pub verify_jwt : Settings → Option String → Result Principal
  unfolding verify_token
  verify_jwt settings creds =
      if settings.auth_enabled
      then verify_token settings creds
      else ok (record { sub = "dev"; preferred_username = "dev" })

  -- With authentication on, a request is let in only with a token that decodes under a published
  -- key, whose claims hold this client's name as the audience, in the list of audiences, or as the
  -- authorized party, and a subject that is not empty and is the principal's.
  pub verify_jwt-accepts :
      (settings : Settings) (creds : Option String) (p : Principal)
      → settings.auth_enabled ≡ true
      → verify_jwt settings creds ≡ ok p
      → (token : String) × (key : Key) × (claims : Claims) × (creds ≡ some token)
        × (jwt.get_signing_key token ≡ good key)
        × (jwt.decode token key ≡ good claims)
        × IsFor settings.keycloak_client_id claims
        × (claims.sub ≡ some p.sub)
        × (str_eq p.sub "" ≡ false)
  unfolding verify_jwt
  verify_jwt-accepts settings none p on h = absurd (ground arith)
  verify_jwt-accepts settings (some token) p on h =
      elim (Decoded-cases (jwt.get_signing_key token)) [
        | inr (e, b) ↦ absurd (ground arith)
        | inl (key, k) ↦ elim (Decoded-cases (jwt.decode token key)) [
          | inr (e, b) ↦ absurd (ground arith)
          | inl (claims, c) ↦
              let q = principal_of-ok settings.keycloak_client_id claims p (ground arith) in
              (
                token,
                key,
                claims,
                refl,
                k,
                c,
                has_audience-IsFor settings.keycloak_client_id claims q.0,
                q.1,
                q.2,
              )
        ]
      ]

unfoldable pub is_homelab : Principal → Settings → Bool
unfolding listed
is_homelab principal settings =
    listed principal.preferred_username settings.homelab_users
    || listed principal.sub settings.homelab_users

unfoldable pub wants_byok : Principal → Settings → Bool
unfolding is_homelab
wants_byok principal settings =
    if settings.force_byok
    then true
    else settings.auth_enabled && not (is_homelab principal settings)

unfoldable pub tier_for : Principal → Settings → Tier
unfolding wants_byok
tier_for principal settings = if wants_byok principal settings then byok else homelab
