-- ===== src/Grounding/Reachable.antt =====
-- That grounding_mcp/corpus.py finds what it has indexed: the slug of a chapter passes the guard of
-- `CorpusIndex.doc`.
use cortex_tutor.Prelude.{
  ℕ, ◌≡◌, refl, sym, ap, ◌∙◌, subst, Bool, true, false, ◌||◌, ◌&&◌, not, List, [], ◌∷◌, ◌++◌, ◌==◌,
  ==_iff, all, All, arith, inl, inr, Bool-cases,
}
use mathlib.Core.List.{append_assoc, append-nil}
use cortex_tutor.Prelude.Rows.{All-append, All-mono}
use cortex_tutor.Prelude.Text.{Text, is_empty, join}
use cortex_tutor.Grounding.Slug.{
  Unicode, drop_digits, drop_separator, slugify, slug_like, lowers_well, strip_order_prefix,
  slugify-slug_like, includes_as_content,
}
use cortex_tutor.Grounding.Corpus.{ChapterMeta, split_slashes, chapter_path_like}
use cortex_tutor.Grounding.Markdown.{Cases, remove_md, ends_with_md, humanise}
use cortex_tutor.Grounding.Walk.{
  is_hidden, or_text, Entry, file, dir, Entries, nil, cons, slug_parts, chapter_slug, meta_of,
  file_chapters, entry_chapters, collect,
}

-- The lower case of a name's letters and digits is made of letters and digits.
abbrev pub is_well_named : Unicode → Text → Bool
is_well_named u = all (lowers_well u)

-- Every name in a tree passes the test.
unfoldable mutual
  pub every_name : (Text → Bool) → Entry → Bool
  every_name p (file name raw) = p name
  every_name p (dir name title es) = p name && every_name_in p es

  pub every_name_in : (Text → Bool) → Entries → Bool
  every_name_in p nil = true
  every_name_in p (cons e es) = every_name p e && every_name_in p es

abbrev pub HasNoSlash : Text → Type 0
HasNoSlash t = All (λ c. (c == b'/') ≡ false) t

split_slashes-part :
    (seg t rest : Text)
    → HasNoSlash t
    → split_slashes seg (t ++ b'/' ∷ rest) ≡ (seg ++ t) ∷ split_slashes [] rest
unfolding split_slashes
split_slashes-part seg [] rest h = rw (append-nil seg) refl
split_slashes-part seg (c ∷ t) rest h =
    rw (h.0, split_slashes-part (seg ++ c ∷ []) t rest h.1, append_assoc seg (c ∷ []) t) refl

split_slashes-last : (seg t : Text) → HasNoSlash t → split_slashes seg t ≡ (seg ++ t) ∷ []
unfolding split_slashes
split_slashes-last seg [] h = rw (append-nil seg) refl
split_slashes-last seg (c ∷ t) h =
    rw (h.0, split_slashes-last (seg ++ c ∷ []) t h.1, append_assoc seg (c ∷ []) t) refl

split_slashes-join :
    (p : Text) (ps : List Text)
    → All HasNoSlash (p ∷ ps)
    → split_slashes [] (join (b'/' ∷ []) (p ∷ ps)) ≡ p ∷ ps
unfolding join
split_slashes-join p [] h = split_slashes-last [] p h.0
split_slashes-join p (q ∷ ps) h =
    split_slashes-part [] p (join (b'/' ∷ []) (q ∷ ps)) h.0
    ∙ ap (λ t. p ∷ t) (split_slashes-join q ps h.1)

module _ (u : Unicode) where
  all-slug_like :
      (ps : List Text) → All (λ s. slug_like u s ≡ true) ps → all (slug_like u) ps ≡ true
  unfolding all
  all-slug_like [] good = refl
  all-slug_like (p ∷ ps) good = ground (arith, good.0, all-slug_like ps good.1)

module _ (u : Unicode) (p : ℕ → Bool) where
  all-remove_md : (t : Text) → all p t ≡ true → all p (remove_md t) ≡ true
  unfolding all remove_md
  all-remove_md [] h = refl
  all-remove_md (c ∷ t) h = ground (arith, all-remove_md t)

  all-drop_digits : (t : Text) → all p t ≡ true → all p (drop_digits u t) ≡ true
  unfolding all drop_digits
  all-drop_digits [] h = refl
  all-drop_digits (c ∷ t) h = ground (arith, all-drop_digits t)

  all-drop_separator : (t : Text) → all p t ≡ true → all p (drop_separator u t) ≡ true
  unfolding all drop_separator
  all-drop_separator [] h = refl
  all-drop_separator (c ∷ t) h = ground arith

  all-strip_order_prefix : (t : Text) → all p t ≡ true → all p (strip_order_prefix u t) ≡ true
  unfolding all strip_order_prefix
  all-strip_order_prefix [] h = refl
  all-strip_order_prefix (c ∷ t) h =
      ground (arith, all-drop_separator (drop_digits u t), all-drop_digits t)

module _ (u : Unicode) (slash : u.is_alnum 47 ≡ false) where
  slug_chars-no_slash :
      (t : Text) → all (λ c. u.is_alnum c || (c == 45 || c == 95)) t ≡ true → HasNoSlash t
  unfolding all
  slug_chars-no_slash [] h = tt
  slug_chars-no_slash (c ∷ t) h =
      (ground (arith, slash, ==_iff c 47), slug_chars-no_slash t (ground arith))

  slug_like-no_slash : (t : Text) → slug_like u t ≡ true → HasNoSlash t
  unfolding slug_like
  slug_like-no_slash t h = slug_chars-no_slash t (ground (arith, h))

  slug_parts-slug_like :
      (segs : List Text)
      → All (λ s. is_well_named u s ≡ true) segs
      → All (λ s. slug_like u s ≡ true) (slug_parts u segs)
  unfolding slug_parts
  slug_parts-slug_like [] well = tt
  slug_parts-slug_like (raw ∷ rest) well =
      let seg = remove_md raw in
      let s = slugify u (strip_order_prefix u seg) in
      elim (Bool-cases (is_empty seg || is_empty s)) [
        | inl t ↦ rw t (slug_parts-slug_like rest well.1)
        | inr t ↦
            elim (slugify-slug_like u (strip_order_prefix u seg) (
              all-strip_order_prefix u (lowers_well u) seg
                (all-remove_md u (lowers_well u) raw well.0))) [
                  | inr good ↦ rw t (good, slug_parts-slug_like rest well.1)
                  | inl gone ↦ absurd (ground (arith, gone, t))
                ]
      ]

  chapter_path_like-join :
      (parts : List Text)
      → All (λ s. slug_like u s ≡ true) parts
      → is_empty (join (b'/' ∷ []) parts) ≡ false
      → chapter_path_like u (join (b'/' ∷ []) parts) ≡ true
  unfolding chapter_path_like
  chapter_path_like-join [] good full = absurd (unfold join in ground (arith, full))
  chapter_path_like-join (p ∷ ps) good full =
      let apart =
        split_slashes-join p ps
          (All-mono (λ s. slug_like u s ≡ true) HasNoSlash (p ∷ ps) slug_like-no_slash good) in
      ground (arith, full, ap (all (slug_like u)) apart, all-slug_like u (p ∷ ps) good)

  chapter_slug-path_like :
      (segs : List Text)
      → All (λ s. is_well_named u s ≡ true) segs
      → is_empty (chapter_slug u segs) ≡ false
      → chapter_path_like u (chapter_slug u segs) ≡ true
  unfolding chapter_slug
  chapter_slug-path_like segs well full =
      chapter_path_like-join (slug_parts u segs) (slug_parts-slug_like segs well) full

-- A chapter whose slug passes the guard.
pub record IsIndexable (u : Unicode) (book : Text) (mb : ChapterMeta × Text) : Type 0 where
  pub of_book : mb.0.book ≡ book
  pub full : is_empty mb.0.slug ≡ false
  pub path_like : chapter_path_like u mb.0.slug ≡ true

module _ (u : Unicode) (slash : u.is_alnum 47 ≡ false) (cases : Cases) (book : Text) where
  meta_of-book :
      (segs group : List Text) (name cslug raw : Text)
      → (meta_of u cases book segs group name cslug raw).book ≡ book
  unfolding meta_of
  meta_of-book segs group name cslug raw = refl

  meta_of-slug :
      (segs group : List Text) (name cslug raw : Text)
      → (meta_of u cases book segs group name cslug raw).slug ≡ cslug
  unfolding meta_of
  meta_of-slug segs group name cslug raw = refl

  file_chapters-IsIndexable :
      (segs group : List Text) (name raw : Text)
      → All (λ s. is_well_named u s ≡ true) segs
      → is_well_named u name ≡ true
      → All (IsIndexable u book) (file_chapters u cases book segs group name raw)
  file_chapters-IsIndexable segs group name raw well own =
      let all_well = All-append (λ s. is_well_named u s ≡ true) segs (name ∷ []) well (own, tt) in
      let cslug = chapter_slug u (segs ++ name ∷ []) in
      let same = sym (meta_of-slug segs group name cslug raw) in
      elim (Bool-cases (is_hidden name || (not (ends_with_md name) || is_empty cslug))) [
        | inl t ↦ unfold file_chapters in rw t tt
        | inr t ↦
            let full : is_empty cslug ≡ false = ground (arith, t) in
            unfold file_chapters in
            rw t (
              record {
                of_book = meta_of-book segs group name cslug raw;
                full = subst (λ s. is_empty s ≡ false) same full;
                path_like =
                    subst (λ s. chapter_path_like u s ≡ true) same
                      (chapter_slug-path_like u slash (segs ++ name ∷ []) all_well full);
              },
              tt,
            )
      ]

  mutual
    unfolding entry_chapters every_name

    entry_chapters-IsIndexable :
        (segs group : List Text) (e : Entry)
        → All (λ s. is_well_named u s ≡ true) segs
        → every_name (is_well_named u) e ≡ true
        → All (IsIndexable u book) (entry_chapters u cases book segs group e)
    entry_chapters-IsIndexable segs group (file name raw) well own =
        file_chapters-IsIndexable segs group name raw well own
    entry_chapters-IsIndexable segs group (dir name title es) well own =
        elim (Bool-cases (is_hidden name || not (includes_as_content u name))) [
          | inl t ↦ rw t tt
          | inr t ↦ rw t (
              collect-IsIndexable (segs ++ name ∷ [])
                (group ++ or_text title (humanise u cases name) ∷ []) es
                (All-append (λ s. is_well_named u s ≡ true) segs (name ∷ []) well
                  (ground (arith, own), tt))
                (ground (arith, own)))
        ]

    pub collect-IsIndexable :
        (segs group : List Text) (es : Entries)
        → All (λ s. is_well_named u s ≡ true) segs
        → every_name_in (is_well_named u) es ≡ true
        → All (IsIndexable u book) (collect u cases book segs group es)
    collect-IsIndexable segs group nil well own = tt
    collect-IsIndexable segs group (cons e es) well own =
        All-append (IsIndexable u book) (entry_chapters u cases book segs group e) _
          (entry_chapters-IsIndexable segs group e well (ground (arith, own)))
          (collect-IsIndexable segs group es well (ground (arith, own)))
