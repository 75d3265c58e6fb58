-- ===== src/Grounding/Corpus.antt =====
-- grounding_mcp/corpus.py: the documents in memory, split into what is shown and what is withheld, and
-- their lookup. The walk that finds them is Walk.
use cortex_tutor.Prelude.{
  Bool, ◌||◌, ◌&&◌, not, Option, none, some, List, [], ◌∷◌, ◌++◌, ◌==◌, all, if◌then◌else◌,
}
use cortex_tutor.Prelude.Text.{Text, is_empty, text_eq}
use cortex_tutor.Grounding.Slug.{Unicode, slug_like}

pub record ChapterMeta : Type 0 where
  pub book : Text
  pub slug : Text
  pub title : Text
  pub rel_path : Text
  pub group_path : List Text
  pub is_problem : Bool
  pub summary : Option Text

unfoldable pub problem_id : ChapterMeta → Text
problem_id m = m.book ++ (b'/' ∷ m.slug)

pub record ChapterDoc : Type 0 where
  pub meta : ChapterMeta
  pub visible : Text
  pub solution : Text

pub record BookMeta : Type 0 where
  pub slug : Text
  pub title : Text
  pub description : Text
  pub chapters : List ChapterMeta

pub record Corpus : Type 0 where
  pub books : List BookMeta
  pub docs : List (Text × ChapterDoc)

-- `self._docs[key] = doc`
unfoldable pub put_doc : Text → ChapterDoc → List (Text × ChapterDoc) → List (Text × ChapterDoc)
put_doc key doc [] = (key, doc) ∷ []
put_doc key doc ((k, d) ∷ rest) =
    let more = put_doc key doc rest in if text_eq k key then (k, doc) ∷ rest else (k, d) ∷ more

unfoldable pub find_doc : Text → List (Text × ChapterDoc) → Option ChapterDoc
find_doc key [] = none
find_doc key ((k, d) ∷ rest) =
    let more = find_doc key rest in if text_eq k key then some d else more

-- `"...".partition("/")`: before the first slash, and after it
unfoldable pub before_slash : Text → Text
before_slash [] = []
before_slash (c ∷ s) = let rest = before_slash s in if c == b'/' then [] else c ∷ rest

unfoldable pub after_slash : Text → Text
after_slash [] = []
after_slash (c ∷ s) = let rest = after_slash s in if c == b'/' then s else rest

-- `s.split("/")`, after the part of a segment that was read
unfoldable pub split_slashes : Text → Text → List Text
split_slashes seg [] = seg ∷ []
split_slashes seg (c ∷ s) =
    let rest = split_slashes (if c == b'/' then [] else seg ++ c ∷ []) s in
    if c == b'/' then seg ∷ rest else rest

module _ (unicode : Unicode) where
  unfoldable pub chapter_path_like : Text → Bool
  unfolding split_slashes
  chapter_path_like s = not (is_empty s) && all (slug_like unicode) (split_slashes [] s)

  -- `CorpusIndex.doc`
  unfoldable pub doc : Text → Corpus → Option ChapterDoc
  unfolding find_doc before_slash after_slash chapter_path_like
  doc id corpus =
      let slug_part = after_slash id in
      if is_empty slug_part || not (chapter_path_like slug_part)
      then none
      else find_doc (before_slash id ++ b'/' ∷ slug_part) corpus.docs
