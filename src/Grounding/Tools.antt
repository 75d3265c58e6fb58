-- ===== src/Grounding/Tools.antt =====
-- grounding_mcp/tools.py: what the tools return; `search_corpus` is in Snippet.
use cortex_tutor.Prelude.{
  ℕ, zero, suc, ◌+◌, Bool, true, false, ◌&&◌, not, Option, none, some, List, [], ◌∷◌, ◌++◌, ◌==◌,
  if◌then◌else◌, length, leb, ltb, take,
}
use mathlib.Core.List.{reverse}
use cortex_tutor.Prelude.Int.{ℤ, pos, negsuc}
use cortex_tutor.Prelude.Text.{Text, codes, is_empty, text_eq, strip_left}
use cortex_tutor.Grounding.Slug.{Unicode}
use cortex_tutor.Grounding.Corpus.{ChapterMeta, problem_id, BookMeta, Corpus, doc}
use cortex_tutor.Grounding.Search.{build_index, Scoring, Hit, search}

pub record GroundingSettings : Type 0 where
  pub cortex_public_base : Text
  pub max_search_results : ℕ
  pub max_body_chars : ℕ
  pub max_outline_chars : ℕ
  pub max_related : ℕ

-- `s.rstrip()`
unfoldable pub strip_right : Text → Text
unfolding strip_left
strip_right s = reverse (strip_left (reverse s))

abbrev pub ellipsis : Text
ellipsis = codes "\n\n…[truncated]"

-- `_cap`
unfoldable pub cap_body : Text → ℕ → Text
unfolding strip_right
cap_body text limit =
    if leb (length text) limit then text else strip_right (take limit text) ++ ellipsis

unfoldable pub drop_slashes : Text → Text
drop_slashes [] = []
drop_slashes (c ∷ s) = let rest = drop_slashes s in if c == b'/' then rest else c ∷ s

-- `f"{self.cortex_public_base.rstrip('/')}/{problem_id}"`
unfoldable pub citation_url : GroundingSettings → Text → Text
unfolding drop_slashes
citation_url settings id = reverse (drop_slashes (reverse settings.cortex_public_base)) ++ b'/' ∷ id

pub record Ref : Type 0 where
  pub id : Text
  pub title : Text
  pub book : Text
  pub group_path : List Text
  pub is_problem : Bool
  pub citation : Text

unfoldable pub ref_of : GroundingSettings → ChapterMeta → Ref
unfolding citation_url problem_id
ref_of settings m = record {
  id = problem_id m;
  title = m.title;
  book = m.book;
  group_path = m.group_path;
  is_problem = m.is_problem;
  citation = citation_url settings (problem_id m);
}

pub record ProblemReply : Type 0 where
  pub ref : Ref
  pub summary : Option Text
  pub statement : Text

pub record LessonReply : Type 0 where
  pub ref : Ref
  pub summary : Option Text
  pub content : Text
  pub solution : Option Text

-- `min(limit or top, top)`
unfoldable pub capped_limit : Option ℤ → ℕ → ℤ
capped_limit none top = pos top
capped_limit (some (pos zero)) top = pos top
capped_limit (some (pos (suc n))) top = if leb (suc n) top then pos (suc n) else pos top
capped_limit (some (negsuc n)) top = negsuc n

-- `n + 1`
unfoldable pub plus_one : ℤ → ℤ
plus_one (pos n) = pos (suc n)
plus_one (negsuc zero) = pos 0
plus_one (negsuc (suc n)) = negsuc n

-- `n <= 1 + k`, for a list that just grew to `1 + k`
unfoldable pub is_enough : ℤ → ℕ → Bool
is_enough (pos n) k = leb n (suc k)
is_enough (negsuc n) k = true

module _ (settings : GroundingSettings) (unicode : Unicode) where
  -- `none` is the reply "not_found".
  unfoldable pub get_problem : Text → Corpus → Option ProblemReply
  unfolding doc cap_body ref_of
  get_problem id corpus = elim (doc unicode id corpus) [
    | none ↦ none
    | some d ↦ some (record {
      ref = ref_of settings d.meta;
      summary = d.meta.summary;
      statement = cap_body d.visible settings.max_body_chars;
    })
  ]

  unfoldable pub get_lesson : Text → Bool → Corpus → Option LessonReply
  unfolding doc cap_body ref_of
  get_lesson id include_solution corpus = elim (doc unicode id corpus) [
    | none ↦ none
    | some d ↦ some (record {
      ref = ref_of settings d.meta;
      summary = d.meta.summary;
      content = cap_body d.visible settings.max_body_chars;
      solution =
          if include_solution && not (is_empty d.solution)
          then some (cap_body d.solution settings.max_body_chars)
          else none;
    })
  ]

  module _ {F : Type 0} (ops : Scoring F) where
    -- The loop over the hits, with the number collected so far.
    unfoldable pub related_from : Text → ℤ → ℕ → List (Hit F) → List (Ref × F)
    unfolding ref_of problem_id is_enough
    related_from id n k [] = []
    related_from id n k (h ∷ hs) =
        let is_self = text_eq (problem_id h.meta) id in
        let rest = related_from id n (if is_self then k else suc k) hs in
        if is_self
        then rest
        else (ref_of settings h.meta, h.score) ∷ (if is_enough n k then [] else rest)

    unfoldable pub list_related : Text → Option ℤ → Corpus → Option (List (Ref × F))
    unfolding doc related_from search build_index capped_limit plus_one
    list_related id limit corpus = elim (doc unicode id corpus) [
      | none ↦ none
      | some d ↦
          let n = capped_limit limit settings.max_related in
          some (
            related_from id n 0 (
              search ops unicode (build_index unicode corpus) (d.meta.title ++ b' ' ∷ d.visible)
                (plus_one n) none))
    ]

unfoldable pub groups_length : List Text → ℕ
groups_length [] = 0
groups_length (g ∷ gs) = length g + groups_length gs

-- `est` of a chapter
unfoldable pub estimate : ChapterMeta → ℕ
unfolding groups_length problem_id
estimate c = length (problem_id c) + length c.title + groups_length c.group_path + 40

-- The chapters of a book that fit: what they use then, whether all did, and the chapters.
unfoldable pub fit_chapters : ℕ → ℕ → List ChapterMeta → ℕ × Bool × List ChapterMeta
unfolding estimate
fit_chapters budget used [] = (used, true, [])
fit_chapters budget used (c ∷ cs) =
    let (used', fits, more) = fit_chapters budget (used + estimate c) cs in
    if ltb budget (used + estimate c) then (used, false, []) else (used', fits, c ∷ more)

pub record BookOutline : Type 0 where
  pub slug : Text
  pub title : Text
  pub description : Text
  pub chapters : List ChapterMeta

abbrev pub is_wanted : Option Text → BookMeta → Bool
is_wanted none b = true
is_wanted (some slug) b = text_eq b.slug slug

-- The books that fit, and whether the outline was cut short.
unfoldable pub fit_books : ℕ → Option Text → ℕ → List BookMeta → List BookOutline × Bool
unfolding fit_chapters
fit_books budget book used [] = ([], false)
fit_books budget book used (b ∷ bs) =
    let (used', fits, chapters) = fit_chapters budget used b.chapters in
    let (rest, truncated) = fit_books budget book (if is_wanted book b then used' else used) bs in
    let outline : BookOutline = record {
      slug = b.slug;
      title = b.title;
      description = b.description;
      chapters = chapters;
    } in
    if is_wanted book b
    then (if fits then (outline ∷ rest, truncated) else (outline ∷ [], true))
    else (rest, truncated)

unfoldable pub get_corpus_outline :
    GroundingSettings → Option Text → Corpus → List BookOutline × Bool
unfolding fit_books
get_corpus_outline settings book corpus = fit_books settings.max_outline_chars book 0 corpus.books
