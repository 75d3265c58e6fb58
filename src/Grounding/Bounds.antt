-- ===== src/Grounding/Bounds.antt =====
-- How much the tools of grounding_mcp/tools.py return.
use cortex_tutor.Prelude.{
  ℕ, suc, zero, ◌+◌, ◌-◌, ◌≤◌, max, ◌≡◌, subst, false, Option, none, some, List, [], ◌∷◌, ◌++◌,
  arith, inl, inr, Bool-cases, length, All, ltb,
}
use cortex_tutor.Prelude.Int.{ℤ, pos, negsuc}
use cortex_tutor.Prelude.Text.{Text, text_eq}
use cortex_tutor.Grounding.Slug.{Unicode}
use cortex_tutor.Grounding.Corpus.{ChapterMeta, problem_id, BookMeta, Corpus, doc}
use cortex_tutor.Grounding.Search.{Scoring, Hit, search, build_index}
use cortex_tutor.Grounding.Withheld.{some_doc}
use cortex_tutor.Grounding.Tools.{
  GroundingSettings, Ref, ref_of, capped_limit, plus_one, is_enough, related_from, list_related,
  estimate, fit_chapters, BookOutline, is_wanted, fit_books, get_corpus_outline,
}

-- What the loop may still add to the `k` that it has.
abbrev room : ℤ → ℕ → ℕ
room (pos n) k = max 1 (n - k)
room (negsuc n) k = 1

related_from-length :
    (settings : GroundingSettings) {F : Type 0} (unicode : Unicode) (ops : Scoring F) (id : Text)
    (n : ℤ) (k : ℕ) (hs : List (Hit F))
    → length (related_from settings unicode ops id n k hs) ≤ room n k
unfolding related_from is_enough
related_from-length settings unicode ops id (pos n) k [] = omega arith
related_from-length settings unicode ops id (negsuc n) k [] = omega arith
related_from-length settings unicode ops id (pos n) k (h ∷ hs) = ground (
  arith,
  related_from-length settings unicode ops id (pos n) k hs,
  related_from-length settings unicode ops id (pos n) (suc k) hs,
)
related_from-length settings unicode ops id (negsuc n) k (h ∷ hs) =
    ground (arith, related_from-length settings unicode ops id (negsuc n) k hs)

related_from-others :
    (settings : GroundingSettings) {F : Type 0} (unicode : Unicode) (ops : Scoring F) (id : Text)
    (n : ℤ) (k : ℕ) (hs : List (Hit F))
    → All (λ r. text_eq r.0.id id ≡ false) (related_from settings unicode ops id n k hs)
unfolding related_from ref_of
related_from-others settings unicode ops id n k [] = tt
related_from-others settings unicode ops id n k (h ∷ hs) =
    elim (Bool-cases (text_eq (problem_id h.meta) id)) [
      | inl t ↦ rw t (related_from-others settings unicode ops id n k hs)
      | inr t ↦ elim (Bool-cases (is_enough n k)) [
        | inl u ↦ rw (t, u) (t, tt)
        | inr u ↦ rw (t, u) (t, related_from-others settings unicode ops id n (suc k) hs)
      ]
    ]

capped_limit-room : (limit : Option ℤ) (top : ℕ) → room (capped_limit limit top) 0 ≤ max 1 top
unfolding capped_limit
capped_limit-room none top = omega arith
capped_limit-room (some (pos zero)) top = omega arith
capped_limit-room (some (pos (suc n))) top = ground arith
capped_limit-room (some (negsuc n)) top = omega arith

-- Whatever limit is asked for, also a negative one: the related chapters are no more than the
-- configured number (or one, if that is 0), and the chapter itself is not among them.
pub list_related-length :
    {F : Type 0} (settings : GroundingSettings) (unicode : Unicode) (ops : Scoring F) (id : Text)
    (limit : Option ℤ) (c : Corpus) (rs : List (Ref × F))
    → list_related settings unicode ops id limit c ≡ some rs
    → (length rs ≤ max 1 settings.max_related) × All (λ r. text_eq r.0.id id ≡ false) rs
unfolding list_related
list_related-length {F} settings unicode ops id limit c rs h = elim (some_doc (doc unicode id c)) [
  | inr t ↦ absurd (ground arith)
  | inl (d, t) ↦
      let n = capped_limit limit settings.max_related in
      let hits =
        search ops unicode (build_index unicode c) (d.meta.title ++ b' ' ∷ d.visible) (plus_one n)
          none in
      let same : related_from settings unicode ops id n 0 hits ≡ rs = ground (arith, t, h) in
      subst (λ x. (length x ≤ max 1 settings.max_related) × All (λ r. text_eq r.0.id id ≡ false) x)
        same
        (
          omega (
            arith,
            related_from-length settings unicode ops id n 0 hits,
            capped_limit-room limit settings.max_related,
          ),
          related_from-others settings unicode ops id n 0 hits,
        )
]

unfoldable pub used_by : List ChapterMeta → ℕ
used_by [] = 0
used_by (c ∷ cs) = estimate c + used_by cs

unfoldable pub total_of : List BookOutline → ℕ
unfolding used_by
total_of [] = 0
total_of (b ∷ bs) = used_by b.chapters + total_of bs

fit_chapters-budget :
    (budget used : ℕ) (cs : List ChapterMeta)
    → used ≤ budget
    → let (used', fits, more) = fit_chapters budget used cs in
      (used' ≡ used + used_by more) × (used' ≤ budget)
unfolding fit_chapters used_by
fit_chapters-budget budget used [] h = ground arith
fit_chapters-budget budget used (c ∷ cs) h = elim (Bool-cases (ltb budget (used + estimate c))) [
  | inl t ↦ rw t (omega arith, h)
  | inr t ↦
      let small : used + estimate c ≤ budget = ground arith in
      let (sum, low) = fit_chapters-budget budget (used + estimate c) cs small in
      rw t (omega (arith, sum), low)
]

fit_books-budget :
    (budget : ℕ) (book : Option Text) (used : ℕ) (bs : List BookMeta)
    → used ≤ budget
    → used + total_of (fit_books budget book used bs).0 ≤ budget
unfolding fit_books total_of
fit_books-budget budget book used [] h = omega (arith, h)
fit_books-budget budget book used (b ∷ bs) h =
    let used' = (fit_chapters budget used b.chapters).0 in
    let (sum, low) = fit_chapters-budget budget used b.chapters h in
    elim (Bool-cases (is_wanted book b)) [
      | inr t ↦ rw t (fit_books-budget budget book used bs h)
      | inl t ↦ elim (Bool-cases (fit_chapters budget used b.chapters).1) [
        | inl u ↦ rw (t, u) (omega (arith, sum, low, fit_books-budget budget book used' bs low))
        | inr u ↦ rw (t, u) (omega (arith, sum, low))
      ]
    ]

-- Whatever book is asked for, the estimated size of the outline is within the configured number of
-- characters.
pub get_corpus_outline-budget :
    (settings : GroundingSettings) (book : Option Text) (c : Corpus)
    → total_of (get_corpus_outline settings book c).0 ≤ settings.max_outline_chars
unfolding get_corpus_outline
get_corpus_outline-budget settings book c =
    omega (arith, fit_books-budget settings.max_outline_chars book 0 c.books (omega arith))
