-- ===== src/Models/Choice.antt =====
-- Which models a client can get from tutor/models/catalog.py: the offer and the check agree.
use cortex_tutor.Prelude.{
  ◌≡◌, refl, inl, inr, arith, String, Bool, true, false, ◌&&◌, not, Option, none, some, List, [],
  ◌∷◌, map, str_eq, eq_iff, filter, any, Bool-cases, Option-cases,
}
use cortex_tutor.Prelude.Result.{Result, ok, err}
use cortex_tutor.Models.Catalog.{
  Tier, homelab, byok, CatalogEntry, is_allowed, is_local, catalog, find_entry, is_offered,
  available_models, checked_entry, validate_choice, default_model, default_key, same_tier,
}

abbrev pub is_ok : {A : Type 0} → Result A → Bool
is_ok (ok a) = true
is_ok (err e) = false

abbrev pub has_key : String → CatalogEntry → Bool
has_key key e = str_eq e.key key

-- A dict's keys are distinct, and here each is its entry's own.
unfoldable pub is_table : List (String × CatalogEntry) → Bool
is_table [] = true
is_table ((k, e) ∷ rest) = str_eq e.key k && not (any (λ p. str_eq p.0 k) rest) && is_table rest

catalog-is_table : is_table catalog ≡ true
unfolding is_table catalog any
catalog-is_table = refl

-- The default of a tier is in the catalog, and allowed for the tier.
pub default_model-allowed :
    (tier : Tier)
    → (e : CatalogEntry) × (default_model tier ≡ ok e)
      × (is_allowed tier e ≡ true)
      × (is_local e.provider ≡ same_tier tier homelab)
unfolding default_model default_key find_entry catalog is_allowed same_tier is_local any
default_model-allowed homelab = (_, refl, refl, refl)
default_model-allowed byok = (_, refl, refl, refl)

module _ (tier : Tier) (has_local : Bool) where
  abbrev pub offered : List (String × CatalogEntry) → List CatalogEntry
  offered table = filter (is_offered tier has_local) (map (λ p. p.1) table)

  -- no entry of a key that the table does not have
  offered-none :
      (k key : String) (table : List (String × CatalogEntry))
      → str_eq k key ≡ true
      → any (λ p. str_eq p.0 k) table ≡ false
      → is_table table ≡ true
      → any (has_key key) (offered table) ≡ false
  unfolding is_table filter any
  offered-none k key [] same absent t = refl
  offered-none k key ((j, e) ∷ rest) same absent t = ground (
    arith,
    offered-none k key rest same,
    eq_iff k key,
    eq_iff j k,
    eq_iff e.key j,
    eq_iff e.key key,
  )

  checked_entry-offered :
      (e : CatalogEntry)
      → is_ok (checked_entry tier has_local (some e)) ≡ is_offered tier has_local e
  unfolding checked_entry is_offered
  checked_entry-offered e = ground arith

  find_entry-offered :
      (key : String) (table : List (String × CatalogEntry))
      → is_table table ≡ true
      → is_ok (checked_entry tier has_local (find_entry key table))
        ≡ any (has_key key) (offered table)
  unfolding is_table find_entry filter any checked_entry
  find_entry-offered key [] t = refl
  find_entry-offered key ((j, e) ∷ rest) t = elim (Bool-cases (str_eq j key)) [
    | inl same ↦ ground (
      arith,
      checked_entry-offered e,
      offered-none j key rest same,
      eq_iff j key,
      eq_iff e.key j,
      eq_iff e.key key,
    )
    | inr other ↦
        ground (arith, find_entry-offered key rest, eq_iff j key, eq_iff e.key j, eq_iff e.key key)
  ]

  -- A model that a client asks for is accepted exactly if it is one of those on offer to its tier.
  pub validate_choice-offered :
      (requested : String)
      → is_ok (validate_choice (some requested) tier has_local)
        ≡ any (has_key requested) (available_models tier has_local)
  unfolding validate_choice available_models
  validate_choice-offered requested = find_entry-offered requested catalog catalog-is_table

  -- A model that is accepted is allowed for the tier, and if it was asked for by name then it has
  -- that name, and its backend is there.
  pub validate_choice-ok :
      (requested : Option String) (e : CatalogEntry)
      → validate_choice requested tier has_local ≡ ok e
      → (is_allowed tier e ≡ true)
        × ((key : String)
            → requested ≡ some key
            → (find_entry key catalog ≡ some e) × (is_local e.provider ≡ true → has_local ≡ true))
  unfolding validate_choice checked_entry
  validate_choice-ok none e h =
      let (d, made, allowed, named) = default_model-allowed tier in ground arith
  validate_choice-ok (some key) e h = elim (Option-cases (find_entry key catalog)) [
    | inl none_found ↦ absurd (ground arith)
    | inr (d, found) ↦ ground arith
  ]
