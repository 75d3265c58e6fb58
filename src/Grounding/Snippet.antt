-- ===== src/Grounding/Snippet.antt =====
-- grounding_mcp/search.py: `snippet`, and `search_corpus` of tools.py. `round3` is `round(score, 3)`.
use cortex_tutor.Prelude.{
  ℕ, zero, suc, ◌+◌, ◌-◌, ◌/◌, Bool, true, false, not, Option, none, some, List, [], ◌∷◌, ◌++◌, map,
  if◌then◌else◌, length, ltb, take,
}
use cortex_tutor.Prelude.Int.{ℤ}
use cortex_tutor.Prelude.Text.{Text, is_empty, is_space, join}
use cortex_tutor.Grounding.Slug.{Unicode}
use cortex_tutor.Grounding.Corpus.{problem_id, ChapterDoc, Corpus, doc}
use cortex_tutor.Grounding.Markdown.{has_prefix}
use cortex_tutor.Grounding.Search.{lower_text, tokenize, build_index, Scoring, Hit, search}
use cortex_tutor.Grounding.Tools.{GroundingSettings, Ref, ref_of, capped_limit}

-- `text.split()`, after the part of a word that was read
unfoldable pub split_words : Text → Text → List Text
unfolding is_space
split_words word [] = if is_empty word then [] else word ∷ []
split_words word (c ∷ s) =
    let rest = split_words (if is_space c then [] else word ++ c ∷ []) s in
    if not (is_space c) then rest else if is_empty word then rest else word ∷ rest

-- `low.find(t)`
unfoldable pub find_text : Text → Text → Option ℕ
unfolding has_prefix
find_text t [] = if is_empty t then some 0 else none
find_text t (c ∷ s) =
    let later = find_text t s in
    if has_prefix t (c ∷ s) then some 0 else elim later [ none ↦ none | some n ↦ some (suc n) ]

-- The least position of a term, if one occurs.
unfoldable pub first_of : Text → List Text → Option ℕ
unfolding find_text
first_of low [] = none
first_of low (t ∷ ts) =
    let rest = first_of low ts in
    elim (find_text t low) [
      | none ↦ rest
      | some n ↦ elim rest [ none ↦ some n | some k ↦ if ltb k n then some k else some n ]
    ]

unfoldable pub skip : ℕ → Text → Text
skip zero s = s
skip (suc n) [] = []
skip (suc n) (c ∷ s) = skip n s

abbrev pub dots : Bool → Text
dots true = 8230 ∷ []
dots false = []

unfoldable pub head_of : Text → ℕ → Text
head_of flat max_chars = take max_chars flat ++ dots (ltb max_chars (length flat))

unfoldable pub window : Text → ℕ → ℕ → Text
unfolding skip
window flat start max_chars =
    dots (ltb 0 start)
    ++ (take max_chars (skip start flat) ++ dots (ltb (start + max_chars) (length flat)))

unfoldable pub around : Text → ℕ → Option ℕ → Text
unfolding head_of window
around flat max_chars none = head_of flat max_chars
around flat max_chars (some zero) = head_of flat max_chars
around flat max_chars (some (suc n)) = window flat (suc n - max_chars / 3) max_chars

unfoldable pub snippet : Unicode → Text → Text → ℕ → Text
unfolding split_words lower_text tokenize first_of around
snippet unicode text query max_chars =
    let flat = join (b' ' ∷ []) (split_words [] text) in
    if is_empty flat
    then []
    else around flat max_chars (first_of (lower_text unicode flat) (tokenize unicode query))

pub record SearchResult (F : Type 0) : Type 0 where
  pub ref : Ref
  pub snippet : Text
  pub score : F

abbrev pub text_of : Option ChapterDoc → Text → Text
text_of none title = title
text_of (some d) title = d.visible

module _ (settings : GroundingSettings) (max_snippet_chars : ℕ) (unicode : Unicode) where
  module _ {F : Type 0} (ops : Scoring F) (round3 : F → F) where
    unfoldable pub result_of : Corpus → Text → Hit F → SearchResult F
    unfolding snippet ref_of doc problem_id
    result_of corpus query hit = record {
      ref = ref_of settings hit.meta;
      snippet =
          snippet unicode (text_of (doc unicode (problem_id hit.meta) corpus) hit.meta.title) query
            max_snippet_chars;
      score = round3 hit.score;
    }

    unfoldable pub search_corpus : Text → Option Text → Option ℤ → Corpus → List (SearchResult F)
    unfolding result_of search build_index capped_limit
    search_corpus query book limit corpus = map (result_of corpus query) (
        search ops unicode (build_index unicode corpus) query
          (capped_limit limit settings.max_search_results) book)
