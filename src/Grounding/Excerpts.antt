-- ===== src/Grounding/Excerpts.antt =====
-- What grounding_mcp's search_corpus shows of a chapter.
use cortex_tutor.Prelude.{
  ℕ, zero, suc, ◌+◌, ◌-◌, ◌/◌, ◌≤◌, ◌≡◌, refl, ap, ◌∙◌, Bool, true, false, Option, none, some, List,
  [], ◌∷◌, ◌++◌, map, length, length-append, length-take, ltb, take, arith, Bool-cases, inl, inr,
}
use cortex_tutor.Prelude.Int.{ℤ}
use cortex_tutor.Prelude.Rows.{map_same}
use cortex_tutor.Prelude.Text.{Text, is_empty, join}
use cortex_tutor.Grounding.Slug.{Unicode}
use cortex_tutor.Grounding.Corpus.{problem_id, ChapterDoc, Corpus, doc}
use cortex_tutor.Grounding.Search.{Entry, Scoring, Hit, search, lower_text, tokenize, build_index}
use cortex_tutor.Grounding.Tools.{
  GroundingSettings, ref_of, capped_limit, get_problem, get_lesson, list_related,
}
use cortex_tutor.Grounding.Withheld.{
  without_solutions, withheld, doc-withheld, build_index-withheld, tools-withheld,
}
use cortex_tutor.Grounding.Snippet.{
  split_words, first_of, skip, dots, head_of, window, around, snippet, text_of, result_of,
  search_corpus,
}

length-dots : (b : Bool) → length (dots b) ≤ 1
length-dots true = omega arith
length-dots false = omega arith

head_of-length : (flat : Text) (n : ℕ) → length (head_of flat n) ≤ n + 2
unfolding head_of
head_of-length flat n = omega (
  arith,
  length-append (take n flat) (dots (ltb n (length flat))),
  length-take n flat,
  length-dots (ltb n (length flat)),
)

window-length : (flat : Text) (start n : ℕ) → length (window flat start n) ≤ n + 2
unfolding window
window-length flat start n =
    let part = take n (skip start flat) in
    let after = dots (ltb (start + n) (length flat)) in
    omega (
      arith,
      length-append (dots (ltb 0 start)) (part ++ after),
      length-append part after,
      length-take n (skip start flat),
      length-dots (ltb 0 start),
      length-dots (ltb (start + n) (length flat)),
    )

around-length : (flat : Text) (n : ℕ) (at : Option ℕ) → length (around flat n at) ≤ n + 2
unfolding around
around-length flat n none = head_of-length flat n
around-length flat n (some zero) = head_of-length flat n
around-length flat n (some (suc k)) = window-length flat (suc k - n / 3) n

-- A snippet has at most the given number of characters, and one at each end that says that text
-- was left out.
pub snippet-length :
    (unicode : Unicode) (text query : Text) (max_chars : ℕ)
    → length (snippet unicode text query max_chars) ≤ max_chars + 2
unfolding snippet
snippet-length unicode text query max_chars =
    let flat = join (b' ' ∷ []) (split_words [] text) in
    let within =
      around-length flat max_chars (first_of (lower_text unicode flat) (tokenize unicode query)) in
    elim (Bool-cases (is_empty flat)) [ inl t ↦ rw t (omega arith) | inr t ↦ rw t within ]

text_of-withheld :
    (o : Option ChapterDoc) (title : Text) → text_of (withheld o) title ≡ text_of o title
text_of-withheld none title = refl
text_of-withheld (some d) title = refl

module _ (settings : GroundingSettings) (max_snippet_chars : ℕ) (unicode : Unicode) where
  -- The results of a search are the same if every withheld part of the corpus is emptied.
  pub search_corpus-withheld :
      {F : Type 0} (ops : Scoring F) (round3 : F → F) (query : Text) (book : Option Text)
      (limit : Option ℤ) (c : Corpus)
      → search_corpus settings max_snippet_chars unicode ops round3 query book limit
          (without_solutions c)
        ≡ search_corpus settings max_snippet_chars unicode ops round3 query book limit c
  unfolding search_corpus result_of
  search_corpus-withheld {F = F} ops round3 query book limit c =
      let hits : List Entry → List (Hit F) = λ index.
        search ops unicode index query (capped_limit limit settings.max_search_results) book in
      let result = result_of settings max_snippet_chars unicode ops round3 in
      ap (λ index. map (result (without_solutions c) query) (hits index))
        (build_index-withheld unicode c)
      ∙ map_same _ _ (hits (build_index unicode c)) (λ h.
        ap
          (λ t. record {
            ref = ref_of settings h.meta;
            snippet = snippet unicode t query max_snippet_chars;
            score = round3 h.score;
          })
          (ap (λ o. text_of o h.meta.title) (doc-withheld unicode (problem_id h.meta) c)
            ∙ text_of-withheld (doc unicode (problem_id h.meta) c) h.meta.title))

-- The leak control of the server: what the problem, the lesson without its solution, the related
-- chapters and a search show is the same if every withheld part of the corpus is emptied.
pub server-withheld :
    (settings : GroundingSettings) (max_snippet_chars : ℕ) (unicode : Unicode) {F : Type 0}
    (ops : Scoring F) (round3 : F → F) (id query : Text) (book : Option Text) (limit : Option ℤ)
    (c : Corpus)
    → let c' = without_solutions c in
      (get_problem settings unicode id c' ≡ get_problem settings unicode id c)
      × (get_lesson settings unicode id false c' ≡ get_lesson settings unicode id false c)
      × (list_related settings unicode ops id limit c'
          ≡ list_related settings unicode ops id limit c)
      × (search_corpus settings max_snippet_chars unicode ops round3 query book limit c'
          ≡ search_corpus settings max_snippet_chars unicode ops round3 query book limit c)
server-withheld settings max_snippet_chars unicode ops round3 id query book limit c =
    let (problem, lesson, related) = tools-withheld settings unicode id c ops limit in
    (
      problem,
      lesson,
      related,
      search_corpus-withheld settings max_snippet_chars unicode ops round3 query book limit c,
    )
