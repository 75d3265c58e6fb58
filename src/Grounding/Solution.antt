-- ===== src/Grounding/Solution.antt =====
-- grounding_mcp/corpus.py: the withheld part of a chapter, and `split_visible_solution`.
use cortex_tutor.Prelude.{
  ℕ, zero, suc, ◌-◌, Option, none, some, List, [], ◌∷◌, if◌then◌else◌, length, take,
}
use cortex_tutor.Prelude.Text.{Text, codes, join, strip}
use cortex_tutor.Grounding.Slug.{Unicode}
use cortex_tutor.Grounding.Markdown.{
  Cases, after_tag, at_boundary, after_bracket, after_block, collapse, visible_part,
}

module _ (unicode : Unicode) (cases : Cases) where
  -- `_DETAILS.finditer(body)`; the fuel is the number of characters.
  unfoldable pub blocks_of : ℕ → Text → List Text
  unfolding after_block
  blocks_of zero s = []
  blocks_of (suc n) [] = []
  blocks_of (suc n) (c ∷ s) = elim (after_block unicode cases (c ∷ s)) [
    | some t ↦ take (length (c ∷ s) - length t) (c ∷ s) ∷ blocks_of n t
    | none ↦ blocks_of n s
  ]

  -- `\b[^>]*>`, after the tag's name
  unfoldable pub after_name : Option Text → Option Text
  unfolding at_boundary after_bracket
  after_name none = none
  after_name (some t) = if at_boundary unicode cases t then after_bracket unicode cases t else none

  -- `(?:details|summary)\b[^>]*>`
  unfoldable pub after_either : Text → Option Text
  unfolding after_tag after_name
  after_either s =
      let second = after_name (after_tag unicode cases (codes "summary") s) in
      elim (after_name (after_tag unicode cases (codes "details") s)) [
        | some t ↦ some t
        | none ↦ second
      ]

  -- `/?`, and the rest of the tag
  unfoldable pub after_slash_tag : Text → Option Text
  unfolding after_tag after_either
  after_slash_tag s = elim (after_tag unicode cases (codes "/") s) [
    | some t ↦ after_either t
    | none ↦ after_either s
  ]

  -- `_DETAIL_TAGS` at the start of the text
  unfoldable pub after_detail_tag : Text → Option Text
  unfolding after_tag after_slash_tag
  after_detail_tag s = elim (after_tag unicode cases (codes "<") s) [
    | some t ↦ after_slash_tag t
    | none ↦ none
  ]

  -- `_DETAIL_TAGS.sub("", s)`; the fuel is the number of characters.
  unfoldable pub without_tags : ℕ → Text → Text
  unfolding after_detail_tag
  without_tags zero s = []
  without_tags (suc n) [] = []
  without_tags (suc n) (c ∷ s) = elim (after_detail_tag (c ∷ s)) [
    | some t ↦ without_tags n t
    | none ↦ c ∷ without_tags n s
  ]

  unfoldable pub withheld_part : Text → Text
  unfolding blocks_of without_tags collapse
  withheld_part body =
      let blocks = join (codes "\n\n") (blocks_of (length body) body) in
      strip (collapse 0 (without_tags (length blocks) blocks))

  unfoldable pub split_visible_solution : Text → Text × Text
  unfolding visible_part withheld_part
  split_visible_solution body = (visible_part unicode cases body, withheld_part body)
