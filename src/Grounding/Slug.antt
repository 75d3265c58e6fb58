-- ===== src/Grounding/Slug.antt =====
-- grounding_mcp/slug.py. Unicode's classes and lower-casing (`str.isalnum`, the digits of a regular
-- expression, `str.lower` of a character, which may give several) are parameters.
use cortex_tutor.Prelude.{
  ◌≡◌, refl, ◌⊎◌, inl, inr, arith, ℕ, Bool, true, false, ◌&&◌, ◌||◌, not, [], ◌∷◌, ◌++◌, ◌==◌,
  if◌then◌else◌, all, any,
}
use cortex_tutor.Prelude.Text.{Text, codes, is_empty, text_eq}

pub record Unicode : Type 0 where
  pub is_alnum : ℕ → Bool
  pub is_digit : ℕ → Bool
  pub lower : ℕ → Text

module _ (u : Unicode) where
  unfoldable pub drop_digits : Text → Text
  drop_digits [] = []
  drop_digits (c ∷ cs) = let rest = drop_digits cs in if u.is_digit c then rest else c ∷ cs

  -- `[._-]?`
  unfoldable pub drop_separator : Text → Text
  drop_separator [] = []
  drop_separator (c ∷ cs) = if c == 46 || c == 95 || c == 45 then cs else c ∷ cs

  unfoldable pub strip_order_prefix : Text → Text
  unfolding drop_digits drop_separator
  strip_order_prefix [] = []
  strip_order_prefix (c ∷ cs) = if u.is_digit c then drop_separator (drop_digits cs) else c ∷ cs

  -- One round of the loop: the output so far, and whether it ends in a separator's dash.
  unfoldable pub slug_step : Text × Bool → ℕ → Text × Bool
  slug_step (out, last_dash) c =
      if u.is_alnum c
      then (out ++ u.lower c, false)
      else if c == 95
      then (out ++ 95 ∷ [], false)
      else if not last_dash && not (is_empty out)
      then (out ++ 45 ∷ [], true)
      else (out, last_dash)

  unfoldable pub slug_loop : Text × Bool → Text → Text
  unfolding slug_step
  slug_loop st [] = st.0
  slug_loop st (c ∷ cs) = slug_loop (slug_step st c) cs

  -- `s[:-1] if s.endswith("-") else s`
  unfoldable pub without_last_dash : Text → Text
  without_last_dash [] = []
  without_last_dash (c ∷ []) = if c == 45 then [] else c ∷ []
  without_last_dash (c ∷ d ∷ cs) = c ∷ without_last_dash (d ∷ cs)

  unfoldable pub slugify : Text → Text
  unfolding slug_loop without_last_dash
  slugify seg = without_last_dash (slug_loop ([], false) seg)

  abbrev pub is_slug_char : ℕ → Bool
  is_slug_char c = u.is_alnum c || (c == 45 || c == 95)

  unfoldable pub slug_like : Text → Bool
  slug_like name = not (is_empty name) && all is_slug_char name

  unfoldable pub starts_with : ℕ → Text → Bool
  starts_with c [] = false
  starts_with c (d ∷ ds) = d == c

  unfoldable pub includes_as_content : Text → Bool
  unfolding slug_like starts_with strip_order_prefix
  includes_as_content name =
      slug_like name
      && not (starts_with 95 name)
      && not (starts_with 46 name)
      && not (any (text_eq (strip_order_prefix name)) (codes "examples" ∷ codes "c4" ∷ []))

  -- The lower case of a segment's letters and digits is made of letters and digits.
  abbrev pub lowers_well : ℕ → Bool
  lowers_well c = not (u.is_alnum c) || all u.is_alnum (u.lower c)

  all-append :
      (p : ℕ → Bool) (xs ys : Text) → all p xs ≡ true → all p ys ≡ true → all p (xs ++ ys) ≡ true
  unfolding all
  all-append p [] ys h k = k
  all-append p (x ∷ xs) ys h k = ground (arith, all-append p xs ys)

  all-is_slug_char : (xs : Text) → all u.is_alnum xs ≡ true → all is_slug_char xs ≡ true
  unfolding all
  all-is_slug_char [] h = refl
  all-is_slug_char (x ∷ xs) h = ground (arith, all-is_slug_char xs)

  all-slug_step :
      (out : Text) (last_dash : Bool) (c : ℕ)
      → all is_slug_char out ≡ true
      → lowers_well c ≡ true
      → all is_slug_char (slug_step (out, last_dash) c).0 ≡ true
  unfolding slug_step all
  all-slug_step out last_dash c h w = ground (
    arith,
    all-append is_slug_char out (u.lower c),
    all-is_slug_char (u.lower c),
    all-append is_slug_char out (95 ∷ []),
    all-append is_slug_char out (45 ∷ []),
  )

  all-slug_loop :
      (st : Text × Bool) (seg : Text)
      → all is_slug_char st.0 ≡ true
      → all lowers_well seg ≡ true
      → all is_slug_char (slug_loop st seg) ≡ true
  unfolding slug_loop all
  all-slug_loop st [] h w = h
  all-slug_loop st (c ∷ cs) h w =
      all-slug_loop (slug_step st c) cs (all-slug_step st.0 st.1 c h (ground arith)) (ground arith)

  all-without_last_dash :
      (p : ℕ → Bool) (xs : Text) → all p xs ≡ true → all p (without_last_dash xs) ≡ true
  unfolding without_last_dash all
  all-without_last_dash p [] h = refl
  all-without_last_dash p (c ∷ []) h = ground arith
  all-without_last_dash p (c ∷ d ∷ cs) h = ground (arith, all-without_last_dash p (d ∷ cs))

  empty-cases : (xs : Text) → (xs ≡ []) ⊎ (is_empty xs ≡ false)
  empty-cases [] = inl refl
  empty-cases (x ∷ xs) = inr refl

  -- A slug is empty, or it passes the check on path segments, if lower-casing the segment's letters
  -- and digits gives letters and digits.
  pub slugify-slug_like :
      (seg : Text)
      → all lowers_well seg ≡ true
      → (slugify seg ≡ []) ⊎ (slug_like (slugify seg) ≡ true)
  unfolding slugify slug_like all
  slugify-slug_like seg w =
      let slug = without_last_dash (slug_loop ([], false) seg) in
      let good : all is_slug_char slug ≡ true =
        all-without_last_dash is_slug_char (slug_loop ([], false) seg)
          (all-slug_loop ([], false) seg refl w) in
      elim (empty-cases slug) [ inl e ↦ inl e | inr e ↦ inr (ground arith) ]
