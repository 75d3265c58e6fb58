-- ===== src/Tests/Grounding.antt =====
-- A corpus of two chapters, one with a withheld solution.
use cortex_tutor.Prelude.{
  ℕ, ◌+◌, ◌≤◌, max, ◌≡◌, refl, true, false, none, some, List, [], ◌∷◌, All, ltb, any, all, count,
}
use cortex_tutor.Prelude.Int.{pos}
use cortex_tutor.Prelude.Text.{Text, codes, text_eq}
use cortex_tutor.Grounding.Corpus.{ChapterMeta, ChapterDoc, Corpus}
use cortex_tutor.Grounding.Search.{Scoring}
use cortex_tutor.Grounding.Tools.{
  GroundingSettings, Ref, get_problem, get_lesson, list_related, get_corpus_outline,
}
use cortex_tutor.Grounding.Corpus.{
  doc, find_doc, before_slash, after_slash, chapter_path_like, split_slashes, problem_id,
}
use cortex_tutor.Grounding.Slug.{slug_like}
use cortex_tutor.Grounding.Tools.{
  capped_limit, plus_one, related_from, is_enough, ref_of, citation_url, drop_slashes,
}
use cortex_tutor.Grounding.Search.{
  search, tokenize, find_tokens, is_token_char, lower_text, build_index, indexed_text, hits_of,
  score_terms, sort_hits, insert_hit, slice, ranks_below,
}
use cortex_tutor.Grounding.Withheld.{without_solutions}
use cortex_tutor.Grounding.Excerpts.{server-withheld}
use cortex_tutor.Grounding.Snippet.{snippet, search_corpus}
use cortex_tutor.Grounding.Bounds.{list_related-length, get_corpus_outline-budget, total_of}
use cortex_tutor.Tests.Slugs.{ascii}
use cortex_tutor.Domain.Steps.{plan}
use cortex_tutor.Routes.Turns.{context_for}
use cortex_tutor.Grounding.Served.{served, context_for-served}
use cortex_tutor.Grounding.Markdown.{Cases, visible_part, collapse}
use cortex_tutor.Grounding.Shown.{Piece, IsCaseFolding, render, shown, visible_part-render}
use cortex_tutor.Prelude.Text.{strip, join, is_space}
use cortex_tutor.Prelude.{◌==◌, arith, map}
use cortex_tutor.Tests.Turn.{at_plan}
use cortex_tutor.Grounding.Walk.{Entries, file, dir, nil, cons, collect}
use cortex_tutor.Grounding.Solution.{split_visible_solution}
use cortex_tutor.Grounding.Reachable.{every_name_in}
use cortex_tutor.Grounding.Found.{IsFound, indexed, doc-collect}
use cortex_tutor.Tests.Routes.{turn_world}

abbrev chapter : Text → ChapterMeta
chapter slug = record {
  book = codes "dsa";
  slug = slug;
  title = codes "Arrays";
  rel_path = slug;
  group_path = [];
  is_problem = true;
  summary = none;
}

abbrev chapter_doc : Text → ChapterDoc
chapter_doc slug = record {
  meta = chapter slug;
  visible = codes "pairs";
  solution = codes "hash map";
}

abbrev corpus : Corpus
corpus = record {
  books =
      record {
        slug = codes "dsa";
        title = codes "DSA";
        description = [];
        chapters = chapter (codes "a") ∷ chapter (codes "b") ∷ [];
      }
      ∷ [];
  docs = (codes "dsa/a", chapter_doc (codes "a")) ∷ (codes "dsa/b", chapter_doc (codes "b")) ∷ [];
}

abbrev settings : GroundingSettings
settings = record {
  cortex_public_base = codes "https://c/";
  max_search_results = 8;
  max_body_chars = 100;
  max_outline_chars = 90;
  max_related = 6;
}

-- A score that counts matches.
abbrev matches : Scoring ℕ
matches = record { nothing = 0; plus = λ a b. a + b; share = λ n df f dl total. f; less = ltb }

server-withheld_example :
    (get_problem settings ascii (codes "dsa/a") (without_solutions corpus)
      ≡ get_problem settings ascii (codes "dsa/a") corpus)
    × (get_lesson settings ascii (codes "dsa/a") false (without_solutions corpus)
        ≡ get_lesson settings ascii (codes "dsa/a") false corpus)
    × (list_related settings ascii matches (codes "dsa/a") none (without_solutions corpus)
        ≡ list_related settings ascii matches (codes "dsa/a") none corpus)
    × (search_corpus settings 480 ascii matches
          (λ n. n)
          (codes "pairs")
          none
          none
          (without_solutions corpus)
        ≡ search_corpus settings 480 ascii matches (λ n. n) (codes "pairs") none none corpus)
server-withheld_example =
    server-withheld settings 480 ascii matches (λ n. n) (codes "dsa/a") (codes "pairs") none none
      corpus

window_around : snippet ascii (codes "one two  three\nfour") (codes "THREE") 9 ≡ codes "…wo three …"
unfolding snippet join any
window_around = refl

abbrev just_b : List (Ref × ℕ)
just_b =
    (
      record {
        id = codes "dsa/b";
        title = codes "Arrays";
        book = codes "dsa";
        group_path = [];
        is_problem = true;
        citation = codes "https://c/dsa/b";
      },
      4,
    )
    ∷ []

list_related-length_example :
    (1 ≤ max 1 6) × All (λ r. text_eq r.0.id (codes "dsa/a") ≡ false) just_b
unfolding list_related capped_limit plus_one doc find_doc before_slash after_slash chapter_path_like
    split_slashes slug_like all any text_eq related_from is_enough ref_of citation_url drop_slashes
    problem_id search tokenize find_tokens is_token_char lower_text build_index indexed_text hits_of
    score_terms count sort_hits insert_hit slice ranks_below
list_related-length_example =
    list_related-length settings ascii matches (codes "dsa/a") (some (pos 99)) corpus just_b refl

get_corpus_outline-budget_example : total_of (get_corpus_outline settings none corpus).0 ≤ 90
get_corpus_outline-budget_example = get_corpus_outline-budget settings none corpus

context_for-served_example :
    context_for (served settings ascii (without_solutions corpus) turn_world) at_plan plan
    ≡ context_for (served settings ascii corpus turn_world) at_plan plan
context_for-served_example =
    context_for-served settings ascii corpus turn_world at_plan plan (ground arith) (ground arith)

-- Only tags in lower case are found, and no character has another title case.
abbrev lower_tags : Cases
lower_tags = record { matches = λ c p. c == p; title = λ c. c ∷ [] }

lower_tags-IsCaseFolding : IsCaseFolding ascii lower_tags
lower_tags-IsCaseFolding = record { same = λ c. ground arith; angle = λ c. refl; bracket = refl }

abbrev two_pairs : List Piece
two_pairs = record { plain = codes "Find a pair.\n\n"; content = codes "Use a map." } ∷ []

visible_part-render_example :
    visible_part ascii lower_tags (render two_pairs (codes "\n\nGo!"))
    ≡ strip (collapse 0 (shown two_pairs (codes "\n\nGo!")))
visible_part-render_example =
    visible_part-render ascii lower_tags lower_tags-IsCaseFolding two_pairs (codes "\n\nGo!")
      (ground arith, tt) (ground arith)

abbrev tree : Entries
tree =
    cons
      (dir (codes "02-problems") none
        (cons (file (codes "01-two-sum.md") (codes "---\ntitle: Two Sum\n---\nFind a pair.")) nil))
      (cons (file (codes "notes.txt") (codes "none")) nil)

abbrev walked : List (ChapterMeta × Text)
walked = collect ascii lower_tags (codes "dsa") [] [] tree

doc-collect_example :
    All (IsFound ascii (indexed (split_visible_solution ascii lower_tags) walked [] [])) walked
unfolding every_name_in all
doc-collect_example =
    doc-collect ascii lower_tags (split_visible_solution ascii lower_tags) (codes "dsa") tree [] []
      refl (ground arith) refl

two_sum_slug : map (λ mb. mb.0.slug) walked ≡ codes "problems/two-sum" ∷ []
unfolding collect all any text_eq join
two_sum_slug = refl

two_sum_title : map (λ mb. mb.0.title) walked ≡ codes "Two Sum" ∷ []
unfolding collect all any text_eq join strip is_space
two_sum_title = refl

solution_split :
    split_visible_solution ascii lower_tags
      (codes "Q\n\n<details open><summary>A</summary>map</details>\n")
    ≡ (codes "Q", codes "Amap")
unfolding split_visible_solution join strip is_space any
solution_split = refl
