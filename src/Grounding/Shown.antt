-- ===== src/Grounding/Shown.antt =====
-- What grounding_mcp/corpus.py shows of a chapter whose withheld blocks are flat.
use cortex_tutor.Prelude.{
  ℕ, zero, suc, ◌-◌, ◌≤◌, ◌≡◌, refl, sym, ap, ◌∙◌, true, false, none, some, List, [], ◌∷◌, ◌++◌,
  ◌==◌, All, length, length-append, arith,
}
use mathlib.Core.List.{append_assoc}
use cortex_tutor.Prelude.Text.{Text, codes, strip}
use cortex_tutor.Grounding.Slug.{Unicode}
use cortex_tutor.Grounding.Markdown.{
  Cases, after_tag, at_boundary, after_bracket, after_open, after_close, after_block,
  outside_blocks, collapse, visible_part,
}

-- Text that is shown, and a block after it.
pub record Piece : Type 0 where
  pub plain : Text
  pub content : Text

abbrev pub block : Text → Text
block content = codes "<details>" ++ (content ++ codes "</details>")

unfoldable pub render : List Piece → Text → Text
render [] tail = tail
render (p ∷ ps) tail = p.plain ++ (block p.content ++ render ps tail)

unfoldable pub shown : List Piece → Text → Text
shown [] tail = tail
shown (p ∷ ps) tail = p.plain ++ shown ps tail

abbrev pub IsPlain : Text → Type 0
IsPlain t = All (λ c. (c == 60) ≡ false) t

abbrev pub IsFlat : Piece → Type 0
IsFlat p = IsPlain p.plain × IsPlain p.content

-- What the proof uses of Unicode: a character matches itself, only "<" matches "<", and ">" is no
-- character of a word.
pub record IsCaseFolding (unicode : Unicode) (cases : Cases) : Type 0 where
  pub same : (c : ℕ) → cases.matches c c ≡ true
  pub angle : (c : ℕ) → cases.matches c 60 ≡ (c == 60)
  pub bracket : unicode.is_alnum 62 ≡ false

module _ (unicode : Unicode) (cases : Cases) (law : IsCaseFolding unicode cases) where
  after_tag-not :
      (c : ℕ) (ps s : Text) → (c == 60) ≡ false → after_tag unicode cases (60 ∷ ps) (c ∷ s) ≡ none
  unfolding after_tag
  after_tag-not c ps s h = rw (law.angle c, h) refl

  after_tag-same : (ps s : Text) → after_tag unicode cases ps (ps ++ s) ≡ some s
  unfolding after_tag
  after_tag-same [] s = refl
  after_tag-same (p ∷ ps) s = rw (law.same p) (after_tag-same ps s)

  after_close-plain :
      (content rest : Text)
      → IsPlain content
      → after_close unicode cases (content ++ (codes "</details>" ++ rest)) ≡ some rest
  unfolding after_close
  after_close-plain [] rest h = ground (arith, after_tag-same (codes "</details>") rest)
  after_close-plain (c ∷ content) rest h = ground (
    arith,
    after_tag-not c (codes "/details>") (content ++ (codes "</details>" ++ rest)) h.0,
    after_close-plain content rest h.1,
  )

  after_open-tag : (rest : Text) → after_open unicode cases (codes "<details>" ++ rest) ≡ some rest
  unfolding after_open at_boundary after_bracket
  after_open-tag rest = ground (arith, after_tag-same (codes "<details") (62 ∷ rest), law.bracket)

  after_block-block :
      (content rest : Text)
      → IsPlain content
      → after_block unicode cases (block content ++ rest) ≡ some rest
  unfolding after_block
  after_block-block content rest h =
      let regroup : block content ++ rest
          ≡ codes "<details>" ++ (content ++ (codes "</details>" ++ rest)) =
        ap (λ t. codes "<details>" ++ t) (append_assoc content (codes "</details>") rest) in
      ap (after_block unicode cases) regroup
      ∙ ground (
        arith,
        after_open-tag (content ++ (codes "</details>" ++ rest)),
        after_close-plain content rest h,
      )

  after_block-not :
      (c : ℕ) (s : Text) → (c == 60) ≡ false → after_block unicode cases (c ∷ s) ≡ none
  unfolding after_block after_open
  after_block-not c s h = ground (arith, after_tag-not c (codes "details") s h)

  outside_blocks-plain :
      (plain rest : Text) (n : ℕ)
      → IsPlain plain
      → length plain ≤ n
      → outside_blocks unicode cases n (plain ++ rest)
        ≡ plain ++ outside_blocks unicode cases (n - length plain) rest
  outside_blocks-plain [] rest n h enough =
      ap (λ k. outside_blocks unicode cases k rest) (omega arith)
  outside_blocks-plain (c ∷ plain) rest zero h enough = absurd (omega arith)
  outside_blocks-plain (c ∷ plain) rest (suc n) h enough =
      let less : n - length plain ≡ suc n - suc (length plain) = omega arith in
      let next = outside_blocks-plain plain rest n h.1 (omega arith) in
      let kept : outside_blocks unicode cases (suc n) (c ∷ (plain ++ rest))
          ≡ c ∷ outside_blocks unicode cases n (plain ++ rest) =
        unfold outside_blocks in ground (arith, after_block-not c (plain ++ rest) h.0) in
      kept
      ∙ ap (λ t. c ∷ t) next
      ∙ ap (λ k. c ∷ (plain ++ outside_blocks unicode cases k rest)) less

  outside_blocks-block :
      (content rest : Text) (n : ℕ)
      → IsPlain content
      → outside_blocks unicode cases (suc n) (block content ++ rest)
        ≡ outside_blocks unicode cases n rest
  unfolding outside_blocks
  outside_blocks-block content rest n h = ground (arith, after_block-block content rest h)

  outside_blocks-tail :
      (tail : Text) (n : ℕ)
      → IsPlain tail
      → length tail ≤ n
      → outside_blocks unicode cases n tail ≡ tail
  unfolding outside_blocks
  outside_blocks-tail [] zero h enough = refl
  outside_blocks-tail [] (suc n) h enough = refl
  outside_blocks-tail (c ∷ tail) zero h enough = absurd (omega arith)
  outside_blocks-tail (c ∷ tail) (suc n) h enough =
      ground (arith, after_block-not c tail h.0, outside_blocks-tail tail n h.1 (omega arith))

  outside_blocks-render :
      (ps : List Piece) (tail : Text) (n : ℕ)
      → All IsFlat ps
      → IsPlain tail
      → length (render ps tail) ≤ n
      → outside_blocks unicode cases n (render ps tail) ≡ shown ps tail
  unfolding render shown
  outside_blocks-render [] tail n flat h enough = outside_blocks-tail tail n h enough
  outside_blocks-render (p ∷ ps) tail n flat h enough =
      let rest = block p.content ++ render ps tail in
      let size = length-append p.plain rest in
      let size' = length-append (block p.content) (render ps tail) in
      let left : suc (n - length p.plain - 1) ≡ n - length p.plain =
        omega (arith, enough, size, size') in
      outside_blocks-plain p.plain rest n flat.0.0 (omega (arith, enough, size))
      ∙ ap (λ k. p.plain ++ outside_blocks unicode cases k rest) (sym left)
      ∙ ap (λ t. p.plain ++ t)
          (outside_blocks-block p.content (render ps tail) (n - length p.plain - 1) flat.0.1
            ∙ outside_blocks-render ps tail (n - length p.plain - 1) flat.1 h
                (omega (arith, enough, size, size')))

  -- A chapter of flat blocks, without other "<": what is shown of it is its text outside of the
  -- blocks, whatever stands inside of them, but for runs of line ends and space at both ends.
  pub visible_part-render :
      (ps : List Piece) (tail : Text)
      → All IsFlat ps
      → IsPlain tail
      → visible_part unicode cases (render ps tail) ≡ strip (collapse 0 (shown ps tail))
  unfolding visible_part
  visible_part-render ps tail flat h =
      ap (λ t. strip (collapse 0 t))
        (outside_blocks-render ps tail (length (render ps tail)) flat h (omega arith))
