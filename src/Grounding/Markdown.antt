-- ===== src/Grounding/Markdown.antt =====
-- grounding_mcp/corpus.py, the markdown helpers. A character that matches another whatever its case, and
-- a character in title case, are Unicode's: parameters of `Cases`.
use cortex_tutor.Prelude.{
  ℕ, zero, suc, Bool, true, false, ◌||◌, ◌&&◌, not, Option, none, some, List, [], ◌∷◌, ◌++◌, ◌==◌,
  leb, if◌then◌else◌, length,
}
use mathlib.Core.List.{reverse}
use cortex_tutor.Prelude.Text.{Text, codes, is_empty, join, text_eq, strip}
use cortex_tutor.Grounding.Slug.{Unicode, strip_order_prefix}
use cortex_tutor.Grounding.Search.{lower_text}

pub record Cases : Type 0 where
  pub matches : ℕ → ℕ → Bool
  pub title : ℕ → Text

-- `raw.split("\n")`, after the part of a line that was read
unfoldable pub split_on : (ℕ → Bool) → Text → Text → List Text
split_on is_sep line [] = line ∷ []
split_on is_sep line (c ∷ s) =
    let rest = split_on is_sep (if is_sep c then [] else line ++ c ∷ []) s in
    if is_sep c then line ∷ rest else rest

unfoldable pub has_prefix : Text → Text → Bool
has_prefix [] s = true
has_prefix (p ∷ ps) [] = false
has_prefix (p ∷ ps) (c ∷ s) = p == c && has_prefix ps s

-- `name.removesuffix(".md")`, and `name.endswith(".md")`
unfoldable pub remove_md : Text → Text
remove_md [] = []
remove_md (c ∷ s) = let rest = remove_md s in if text_eq (c ∷ s) (codes ".md") then [] else c ∷ rest

unfoldable pub ends_with_md : Text → Bool
ends_with_md [] = false
ends_with_md (c ∷ s) = text_eq (c ∷ s) (codes ".md") || ends_with_md s

abbrev pub Pairs : Type 0
Pairs = List (Text × Text)

-- `fm[key] = value`
unfoldable pub put_pair : Text → Text → Pairs → Pairs
put_pair key value [] = (key, value) ∷ []
put_pair key value ((k, v) ∷ rest) =
    let more = put_pair key value rest in if text_eq k key then (k, value) ∷ rest else (k, v) ∷ more

unfoldable pub find_pair : Text → Pairs → Option Text
find_pair key [] = none
find_pair key ((k, v) ∷ rest) =
    let more = find_pair key rest in if text_eq k key then some v else more

-- `line.partition(":")`: the parts before and after the first colon, if there is one
unfoldable pub partition_colon : Text → Option (Text × Text)
partition_colon [] = none
partition_colon (c ∷ s) =
    let rest = partition_colon s in
    if c == b':' then some ([], s) else elim rest [ none ↦ none | some (k, v) ↦ some (c ∷ k, v) ]

abbrev pub is_quote : ℕ → Bool
is_quote c = c == 34 || c == 39

unfoldable pub drop_quotes : Text → Text
drop_quotes [] = []
drop_quotes (c ∷ s) = let rest = drop_quotes s in if is_quote c then rest else c ∷ s

-- `val.strip("\"'")`
unfoldable pub strip_quotes : Text → Text
unfolding drop_quotes
strip_quotes s = reverse (drop_quotes (reverse (drop_quotes s)))

-- A nested key or an item of a list is skipped, and so is an empty line.
unfoldable pub is_skipped : Text → Bool
is_skipped [] = true
is_skipped (c ∷ s) = c == 32 || c == 9 || c == 45

unfoldable pub read_line : Text → Pairs → Pairs
unfolding is_skipped partition_colon strip_quotes put_pair
read_line line fm = if is_skipped line then fm else elim (partition_colon line) [
  | none ↦ fm
  | some (k, v) ↦ if is_empty (strip k) then fm else put_pair (strip k) (strip_quotes (strip v)) fm
]

-- The lines up to the closing mark, and those after it; `none` if it is missing.
unfoldable pub to_mark : List Text → Option (List Text × List Text)
to_mark [] = none
to_mark (line ∷ rest) =
    let more = to_mark rest in
    if text_eq (strip line) (codes "---")
    then some ([], rest)
    else elim more [ none ↦ none | some (head, tail) ↦ some (line ∷ head, tail) ]

unfoldable pub read_lines : List Text → Pairs → Pairs
unfolding read_line
read_lines [] fm = fm
read_lines (line ∷ rest) fm = read_lines rest (read_line line fm)

unfoldable pub drop_newlines : Text → Text
drop_newlines [] = []
drop_newlines (c ∷ s) = let rest = drop_newlines s in if c == 10 then rest else c ∷ s

-- The lines of the text but the first
unfoldable pub later_lines : Text → List Text
unfolding split_on
later_lines raw = elim (split_on (λ c. c == 10) [] raw) [ [] ↦ [] | line ∷ rest ↦ rest ]

unfoldable pub strip_frontmatter : Text → Pairs × Text
unfolding has_prefix later_lines to_mark read_lines drop_newlines
strip_frontmatter raw =
    if not (has_prefix (codes "---") raw) then ([], raw) else elim (to_mark (later_lines raw)) [
      | none ↦ ([], raw)
      | some (head, tail) ↦ (read_lines head [], drop_newlines (join (10 ∷ []) tail))
    ]

unfoldable pub first_h1_of : Bool → List Text → Option Text
unfolding has_prefix
first_h1_of in_code [] = none
first_h1_of in_code (line ∷ rest) =
    let fence = has_prefix (codes "```") line in
    let more = first_h1_of (if fence then not in_code else in_code) rest in
    if fence || (in_code || not (has_prefix (codes "# ") line))
    then more
    else elim line [ [] ↦ more | c ∷ s ↦ elim s [ [] ↦ more | d ∷ t ↦ some (strip t) ] ]

unfoldable pub first_h1 : Text → Option Text
unfolding first_h1_of split_on
first_h1 body = first_h1_of false (split_on (λ c. c == 10) [] body)

-- `_BLANK_RUN.sub("\n\n", s)`, after `k` line ends: a third one in a row is dropped.
unfoldable pub collapse : ℕ → Text → Text
collapse k [] = []
collapse k (c ∷ s) =
    let rest = collapse (if c == 10 then suc k else 0) s in
    if c == 10 && leb 2 k then rest else c ∷ rest

module _ (unicode : Unicode) (cases : Cases) where
  unfoldable pub capitalize : Text → Text
  unfolding lower_text
  capitalize [] = []
  capitalize (c ∷ s) = cases.title c ++ lower_text unicode s

  unfoldable pub capitalized : List Text → List Text
  unfolding capitalize
  capitalized [] = []
  capitalized (w ∷ ws) =
      let rest = capitalized ws in if is_empty w then rest else capitalize w ∷ rest

  unfoldable pub humanise : Text → Text
  unfolding capitalized split_on remove_md strip_order_prefix
  humanise name = join (32 ∷ []) (
      capitalized (
        split_on (λ c. c == 45 || (c == 95 || c == 46)) []
          (remove_md (strip_order_prefix unicode name))))

  -- `pattern` at the start of the text, whatever the case: what is left after it.
  unfoldable pub after_tag : Text → Text → Option Text
  after_tag [] s = some s
  after_tag (p ∷ ps) [] = none
  after_tag (p ∷ ps) (c ∷ s) = if cases.matches c p then after_tag ps s else none

  abbrev pub is_word : ℕ → Bool
  is_word c = unicode.is_alnum c || c == 95

  -- `\b` after a letter
  unfoldable pub at_boundary : Text → Bool
  at_boundary [] = true
  at_boundary (c ∷ s) = not (is_word c)

  -- `[^>]*>`
  unfoldable pub after_bracket : Text → Option Text
  after_bracket [] = none
  after_bracket (c ∷ s) = let rest = after_bracket s in if c == 62 then some s else rest

  -- `<details\b[^>]*>` at the start
  unfoldable pub after_open : Text → Option Text
  unfolding after_tag at_boundary after_bracket
  after_open s = elim (after_tag (codes "<details") s) [
    | none ↦ none
    | some t ↦ if at_boundary t then after_bracket t else none
  ]

  -- `.*?</details>`: what is left after the first closing tag
  unfoldable pub after_close : Text → Option Text
  unfolding after_tag
  after_close [] = none
  after_close (c ∷ s) =
      let later = after_close s in
      elim (after_tag (codes "</details>") (c ∷ s)) [ some t ↦ some t | none ↦ later ]

  -- `_DETAILS` at the start of the text
  unfoldable pub after_block : Text → Option Text
  unfolding after_open after_close
  after_block s = elim (after_open s) [ none ↦ none | some t ↦ after_close t ]

  -- `_DETAILS.sub("", body)`; the fuel is the number of characters.
  unfoldable pub outside_blocks : ℕ → Text → Text
  unfolding after_block
  outside_blocks zero s = []
  outside_blocks (suc n) [] = []
  outside_blocks (suc n) (c ∷ s) = elim (after_block (c ∷ s)) [
    | some t ↦ outside_blocks n t
    | none ↦ c ∷ outside_blocks n s
  ]

  -- The visible part of `split_visible_solution`.
  unfoldable pub visible_part : Text → Text
  unfolding outside_blocks collapse
  visible_part body = strip (collapse 0 (outside_blocks (length body) body))
