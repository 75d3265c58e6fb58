-- ===== src/Grounding/Withheld.antt =====
-- The leak control of grounding_mcp: without `include_solution`, no tool's reply depends on what the
-- corpus withholds.
use cortex_tutor.Prelude.{
  ◌≡◌, refl, ap, ◌∙◌, false, Option, none, some, List, [], ◌∷◌, ◌++◌, map, arith, inl, inr, ◌⊎◌,
  Bool-cases, ◌||◌, not,
}
use cortex_tutor.Prelude.Int.{ℤ}
use cortex_tutor.Prelude.Rows.{map_same}
use cortex_tutor.Prelude.Text.{Text, is_empty}
use cortex_tutor.Grounding.Slug.{Unicode}
use cortex_tutor.Grounding.Corpus.{
  ChapterMeta, problem_id, ChapterDoc, Corpus, find_doc, before_slash, after_slash,
  chapter_path_like, doc,
}
use cortex_tutor.Grounding.Search.{
  visible_of, chapters_of, indexed_text, tokenize, build_index, Scoring,
}
use cortex_tutor.Grounding.Tools.{GroundingSettings, get_problem, get_lesson, list_related}

abbrev pub without_solution : ChapterDoc → ChapterDoc
without_solution d = record d { solution = [] }

-- The corpus with every withheld part emptied.
abbrev pub without_solutions : Corpus → Corpus
without_solutions c = record c { docs = map (λ kd. (kd.0, without_solution kd.1)) c.docs }

abbrev pub withheld : Option ChapterDoc → Option ChapterDoc
withheld none = none
withheld (some d) = some (without_solution d)

find_doc-withheld :
    (key : Text) (docs : List (Text × ChapterDoc))
    → find_doc key (map (λ kd. (kd.0, without_solution kd.1)) docs) ≡ withheld (find_doc key docs)
unfolding find_doc
find_doc-withheld key [] = refl
find_doc-withheld key ((k, d) ∷ rest) = ground (arith, find_doc-withheld key rest)

pub doc-withheld :
    (unicode : Unicode) (id : Text) (c : Corpus)
    → doc unicode id (without_solutions c) ≡ withheld (doc unicode id c)
unfolding doc
doc-withheld unicode id c =
    elim (Bool-cases
      (is_empty (after_slash id) || not (chapter_path_like unicode (after_slash id)))) [
        | inl t ↦ rw t refl
        | inr t ↦ rw t (find_doc-withheld (before_slash id ++ b'/' ∷ after_slash id) c.docs)
      ]

visible_of-withheld : (o : Option ChapterDoc) → visible_of (withheld o) ≡ visible_of o
visible_of-withheld none = refl
visible_of-withheld (some d) = refl

indexed_text-withheld :
    (unicode : Unicode) (c : Corpus) (m : ChapterMeta)
    → indexed_text unicode (without_solutions c) m ≡ indexed_text unicode c m
unfolding indexed_text
indexed_text-withheld unicode c m =
    let shown : visible_of (doc unicode (problem_id m) (without_solutions c))
        ≡ visible_of (doc unicode (problem_id m) c) =
      ap visible_of (doc-withheld unicode (problem_id m) c)
      ∙ visible_of-withheld (doc unicode (problem_id m) c) in
    ap (λ t. (m.title ++ b' ' ∷ []) ++ ((m.title ++ b' ' ∷ []) ++ ((m.title ++ b' ' ∷ []) ++ t)))
      shown

pub build_index-withheld :
    (unicode : Unicode) (c : Corpus)
    → build_index unicode (without_solutions c) ≡ build_index unicode c
unfolding build_index
build_index-withheld unicode c = map_same _ _ (chapters_of c.books) (λ m.
    ap (λ t. record { meta = m; tokens = tokenize unicode t }) (indexed_text-withheld unicode c m))

pub some_doc : (o : Option ChapterDoc) → ((d : ChapterDoc) × (o ≡ some d)) ⊎ (o ≡ none)
some_doc none = inr refl
some_doc (some d) = inl (d, refl)

module _ (settings : GroundingSettings) (unicode : Unicode) (id : Text) (c : Corpus) where
  get_problem-withheld :
      get_problem settings unicode id (without_solutions c) ≡ get_problem settings unicode id c
  unfolding get_problem
  get_problem-withheld = elim (some_doc (doc unicode id c)) [
    | inl (d, t) ↦ ground (arith, doc-withheld unicode id c, t)
    | inr t ↦ ground (arith, doc-withheld unicode id c, t)
  ]

  pub get_lesson-withheld :
      get_lesson settings unicode id false (without_solutions c)
      ≡ get_lesson settings unicode id false c
  unfolding get_lesson
  get_lesson-withheld = elim (some_doc (doc unicode id c)) [
    | inl (d, t) ↦ ground (arith, doc-withheld unicode id c, t)
    | inr t ↦ ground (arith, doc-withheld unicode id c, t)
  ]

  -- What the problem, the lesson without its solution and the related chapters show is the same if
  -- every withheld part of the corpus is emptied.
  pub tools-withheld :
      {F : Type 0} (ops : Scoring F) (limit : Option ℤ)
      → (get_problem settings unicode id (without_solutions c) ≡ get_problem settings unicode id c)
        × (get_lesson settings unicode id false (without_solutions c)
            ≡ get_lesson settings unicode id false c)
        × (list_related settings unicode ops id limit (without_solutions c)
            ≡ list_related settings unicode ops id limit c)
  unfolding list_related
  tools-withheld ops limit = (
    get_problem-withheld,
    get_lesson-withheld,
    elim (some_doc (doc unicode id c)) [
      | inl (d, t) ↦ ground (arith, doc-withheld unicode id c, t, build_index-withheld unicode c)
      | inr t ↦ ground (arith, doc-withheld unicode id c, t)
    ],
  )
