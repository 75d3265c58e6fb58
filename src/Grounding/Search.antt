-- ===== src/Grounding/Search.antt =====
-- grounding_mcp/search.py: the ranking of chapters by BM25. The floats of the score are the
-- parameter `Scoring`; counts, order and limits are the code's.
use cortex_tutor.Prelude.{
  ℕ, suc, ◌+◌, ◌-◌, Bool, true, false, ◌||◌, ◌&&◌, not, Option, none, some, List, [], ◌∷◌, ◌++◌,
  map, ◌==◌, any, if◌then◌else◌, length, count, leb, ltb, take,
}
use cortex_tutor.Prelude.Int.{ℤ, pos, negsuc}
use cortex_tutor.Prelude.Text.{Text, is_empty, text_eq}
use cortex_tutor.Grounding.Slug.{Unicode}
use cortex_tutor.Grounding.Corpus.{ChapterMeta, problem_id, ChapterDoc, BookMeta, Corpus, doc}

-- `[a-z0-9]`
unfoldable pub is_token_char : ℕ → Bool
is_token_char c = (leb 97 c && leb c 122) || (leb 48 c && leb c 57)

-- `_TOKEN.findall`, after the part of a token that was read
unfoldable pub find_tokens : Text → Text → List Text
find_tokens token [] = if is_empty token then [] else token ∷ []
find_tokens token (c ∷ s) =
    let rest = find_tokens (if is_token_char c then token ++ c ∷ [] else []) s in
    if is_token_char c || is_empty token then rest else token ∷ rest

unfoldable pub lower_text : Unicode → Text → Text
lower_text unicode [] = []
lower_text unicode (c ∷ s) = unicode.lower c ++ lower_text unicode s

unfoldable pub tokenize : Unicode → Text → List Text
unfolding find_tokens is_token_char lower_text
tokenize unicode text = find_tokens [] (lower_text unicode text)

-- What the index keeps of a chapter.
pub record Entry : Type 0 where
  pub meta : ChapterMeta
  pub tokens : List Text

abbrev pub visible_of : Option ChapterDoc → Text
visible_of none = []
visible_of (some d) = d.visible

abbrev pub chapters_of : List BookMeta → List ChapterMeta
chapters_of [] = []
chapters_of (b ∷ bs) = b.chapters ++ chapters_of bs

-- The title counts three times.
unfoldable pub indexed_text : Unicode → Corpus → ChapterMeta → Text
unfolding doc problem_id
indexed_text unicode corpus meta =
    let title = meta.title ++ b' ' ∷ [] in
    title ++ (title ++ (title ++ visible_of (doc unicode (problem_id meta) corpus)))

unfoldable pub build_index : Unicode → Corpus → List Entry
unfolding tokenize indexed_text
build_index unicode corpus =
    map (λ m. record { meta = m; tokens = tokenize unicode (indexed_text unicode corpus m) })
      (chapters_of corpus.books)

-- The floats of the score: a term's share from the number of documents, those that have it, how
-- often this one has it, its length and the sum of all lengths.
pub record Scoring (F : Type 0) : Type 0 where
  pub nothing : F
  pub plus : F → F → F
  pub share : ℕ → ℕ → ℕ → ℕ → ℕ → F
  pub less : F → F → Bool

pub record Hit (F : Type 0) : Type 0 where
  pub meta : ChapterMeta
  pub score : F

abbrev pub occurs : Text → List Text → ℕ
occurs term tokens = count (text_eq term) tokens

unfoldable pub total_length : List Entry → ℕ
total_length [] = 0
total_length (e ∷ es) = length e.tokens + total_length es

-- `xs[:limit]`; a negative limit counts from the end
unfoldable pub slice {ℓ} : {A : Type ℓ} → ℤ → List A → List A
slice (pos n) xs = take n xs
slice (negsuc n) xs = take (length xs - suc n) xs

-- `a < b` of two texts
unfoldable pub text_lt : Text → Text → Bool
text_lt s [] = false
text_lt [] (d ∷ t) = true
text_lt (c ∷ s) (d ∷ t) = let rest = text_lt s t in if c == d then rest else ltb c d

module _ {F : Type 0} (ops : Scoring F) where
  unfoldable pub score_terms : List Entry → Entry → List Text → F → F
  unfolding total_length
  score_terms index e [] score = score
  score_terms index e (t ∷ ts) score = score_terms index e ts (
      if occurs t e.tokens == 0
      then score
      else ops.plus score (
          ops.share (length index) (count (λ d. any (text_eq t) d.tokens) index) (occurs t e.tokens)
            (length e.tokens) (total_length index)))

  abbrev pub is_in_book : Option Text → ChapterMeta → Bool
  is_in_book none m = true
  is_in_book (some b) m = text_eq m.book b

  unfoldable pub hits_of : List Entry → List Text → Option Text → List Entry → List (Hit F)
  unfolding score_terms
  hits_of index terms book [] = []
  hits_of index terms book (e ∷ es) =
      let rest = hits_of index terms book es in
      let score = score_terms index e terms ops.nothing in
      if is_in_book book e.meta && ops.less ops.nothing score
      then record { meta = e.meta; score = score } ∷ rest
      else rest

  -- `(a.score, a.problem_id) < (b.score, b.problem_id)`
  unfoldable pub ranks_below : Hit F → Hit F → Bool
  unfolding text_lt problem_id
  ranks_below a b =
      ops.less a.score b.score
      || (not (ops.less b.score a.score) && text_lt (problem_id a.meta) (problem_id b.meta))

  -- `sort(reverse=True)`, which keeps the order of equals, by insertion from the end
  unfoldable pub insert_hit : Hit F → List (Hit F) → List (Hit F)
  insert_hit h [] = h ∷ []
  insert_hit h (g ∷ gs) =
      let more = insert_hit h gs in if ranks_below h g then g ∷ more else h ∷ g ∷ gs

  unfoldable pub sort_hits : List (Hit F) → List (Hit F)
  unfolding insert_hit
  sort_hits [] = []
  sort_hits (h ∷ hs) = insert_hit h (sort_hits hs)

  unfoldable pub search : Unicode → List Entry → Text → ℤ → Option Text → List (Hit F)
  unfolding tokenize hits_of sort_hits slice
  search unicode index query limit book =
      let terms = tokenize unicode query in
      if is_empty terms || is_empty index
      then []
      else slice limit (sort_hits (hits_of index terms book index))
