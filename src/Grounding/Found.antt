-- ===== src/Grounding/Found.antt =====
-- That `CorpusIndex.doc` of grounding_mcp/corpus.py finds every chapter that the walk of a book
-- has collected.
use cortex_tutor.Prelude.{
  ◌≡◌, refl, sym, ap, ◌∙◌, subst, true, false, some, List, [], ◌∷◌, ◌++◌, All, all, arith,
  if◌then◌else◌, Bool-cases, inl, inr,
}
use cortex_tutor.Prelude.Rows.{All-both, All-mono}
use cortex_tutor.Prelude.Text.{Text, text_eq, text_eq_iff}
use cortex_tutor.Grounding.Slug.{Unicode, slug_like}
use cortex_tutor.Grounding.Corpus.{
  ChapterMeta, problem_id, ChapterDoc, BookMeta, Corpus, put_doc, find_doc, before_slash,
  after_slash, split_slashes, chapter_path_like, doc,
}
use cortex_tutor.Grounding.Markdown.{Cases}
use cortex_tutor.Grounding.Walk.{Entries, collect, index_chapters}
use cortex_tutor.Grounding.Reachable.{
  is_well_named, every_name_in, HasNoSlash, IsIndexable, collect-IsIndexable,
}

-- A document is found under the key, and it is a chapter of that identifier.
abbrev pub IsIndexed : Text → List (Text × ChapterDoc) → Type 0
IsIndexed key docs = (d : ChapterDoc) × (find_doc key docs ≡ some d) × (problem_id d.meta ≡ key)

text_eq_refl : (t : Text) → text_eq t t ≡ true
text_eq_refl t = (text_eq_iff t t).1 refl

find_doc-put_doc :
    (key id : Text) (d : ChapterDoc) (docs : List (Text × ChapterDoc))
    → find_doc key (put_doc id d docs) ≡ (if text_eq id key then some d else find_doc key docs)
unfolding find_doc put_doc
find_doc-put_doc key id d [] = refl
find_doc-put_doc key id d ((k, e) ∷ docs) = elim (Bool-cases (text_eq k id)) [
  | inl t ↦ ground (arith, t, ap (λ x. text_eq x key) ((text_eq_iff k id).0 t))
  | inr t ↦ ground (
    arith,
    t,
    find_doc-put_doc key id d docs,
    text_eq_iff k id,
    text_eq_iff k key,
    text_eq_iff id key,
  )
]

put_doc-IsIndexed :
    (key : Text) (d : ChapterDoc) (docs : List (Text × ChapterDoc))
    → IsIndexed key docs
    → IsIndexed key (put_doc (problem_id d.meta) d docs)
put_doc-IsIndexed key d docs (e, found, named) =
    let put = find_doc-put_doc key (problem_id d.meta) d docs in
    elim (Bool-cases (text_eq (problem_id d.meta) key)) [
      | inl t ↦ (d, put ∙ (rw t refl), (text_eq_iff (problem_id d.meta) key).0 t)
      | inr t ↦ (e, put ∙ (rw t found), named)
    ]

module _ (split : Text → Text × Text) where
  abbrev doc_of : ChapterMeta → Text → ChapterDoc
  doc_of m body = record { meta = m; visible = (split body).0; solution = (split body).1 }

  index_chapters-keeps :
      (ms : List (ChapterMeta × Text)) (key : Text) (docs : List (Text × ChapterDoc))
      → IsIndexed key docs
      → IsIndexed key (index_chapters split ms docs)
  unfolding index_chapters
  index_chapters-keeps [] key docs h = h
  index_chapters-keeps ((m, body) ∷ ms) key docs h =
      index_chapters-keeps ms key (put_doc (problem_id m) (doc_of m body) docs)
        (put_doc-IsIndexed key (doc_of m body) docs h)

  index_chapters-IsIndexed :
      (ms : List (ChapterMeta × Text)) (docs : List (Text × ChapterDoc))
      → All (λ mb. IsIndexed (problem_id mb.0) (index_chapters split ms docs)) ms
  unfolding index_chapters
  index_chapters-IsIndexed [] docs = tt
  index_chapters-IsIndexed ((m, body) ∷ ms) docs =
      let put = find_doc-put_doc (problem_id m) (problem_id m) (doc_of m body) docs in
      (
        index_chapters-keeps ms (problem_id m) (put_doc (problem_id m) (doc_of m body) docs)
            (doc_of m body, put ∙ (rw (text_eq_refl (problem_id m)) refl), refl),
        index_chapters-IsIndexed ms (put_doc (problem_id m) (doc_of m body) docs),
      )

before_slash-part : (t rest : Text) → HasNoSlash t → before_slash (t ++ b'/' ∷ rest) ≡ t
unfolding before_slash
before_slash-part [] rest h = refl
before_slash-part (c ∷ t) rest h = rw h.0 (ap (λ s. c ∷ s) (before_slash-part t rest h.1))

after_slash-part : (t rest : Text) → HasNoSlash t → after_slash (t ++ b'/' ∷ rest) ≡ rest
unfolding after_slash
after_slash-part [] rest h = refl
after_slash-part (c ∷ t) rest h = rw h.0 (after_slash-part t rest h.1)

doc-found :
    (u : Unicode) (book : Text) (m : ChapterMeta) (body : Text) (corpus : Corpus)
    → HasNoSlash book
    → IsIndexable u book (m, body)
    → doc u (problem_id m) corpus ≡ find_doc (problem_id m) corpus.docs
unfolding doc problem_id
doc-found u book m body corpus h good =
    let named = subst HasNoSlash (sym good.of_book) h in
    let after = after_slash-part m.book m.slug named in
    let before = before_slash-part m.book m.slug named in
    let path : all (slug_like u) (split_slashes [] m.slug) ≡ true =
      unfold chapter_path_like in ground (arith, good.path_like) in
    rw (after, before, good.full, path) refl

abbrev pub indexed :
    (Text → Text × Text)
    → List (ChapterMeta × Text)
    → List BookMeta
    → List (Text × ChapterDoc)
    → Corpus
indexed split ms books docs = record { books = books; docs = index_chapters split ms docs }

-- `doc` finds a chapter of the identifier.
abbrev pub IsFound : Unicode → Corpus → ChapterMeta × Text → Type 0
IsFound u corpus mb =
    (d : ChapterDoc) × (doc u (problem_id mb.0) corpus ≡ some d)
    × (problem_id d.meta ≡ problem_id mb.0)

-- Every chapter that the walk of a book collects is found by its identifier, whatever was indexed
-- before: `doc` returns a document, of a chapter with that identifier. Assumed: "/" is no
-- letter, the book's name holds none, and the letters and digits of every file's and directory's
-- name are letters and digits in lower case.
pub doc-collect :
    (u : Unicode) (cases : Cases) (split : Text → Text × Text) (book : Text) (es : Entries)
    (books : List BookMeta) (docs : List (Text × ChapterDoc))
    → u.is_alnum b'/' ≡ false
    → HasNoSlash book
    → every_name_in (is_well_named u) es ≡ true
    → All
        (IsFound u (indexed split (collect u cases book [] [] es) books docs))
        (collect u cases book [] [] es)
doc-collect u cases split book es books docs slash h well =
    let ms = collect u cases book [] [] es in
    let IsIn : ChapterMeta × Text → Type 0 =
      λ mb. IsIndexed (problem_id mb.0) (index_chapters split ms docs) in
    All-mono (λ mb. IsIn mb × IsIndexable u book mb) (IsFound u (indexed split ms books docs)) ms
      (λ mb both.
        let (d, found, named) = both.0 in
        (d, doc-found u book mb.0 mb.1 (indexed split ms books docs) h both.1 ∙ found, named))
      (All-both IsIn (IsIndexable u book) ms (index_chapters-IsIndexed split ms docs)
        (collect-IsIndexable u slash cases book [] [] es tt well))
