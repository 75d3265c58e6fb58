-- ===== src/Grounding/Walk.antt =====
-- grounding_mcp/corpus.py: the walk of a book's directory into chapters, and the index of them;
-- and the slug of a path, from slug.py. The directory is a tree that was read: a file with its text
-- (empty if it cannot be read), a directory with the title of its _section.json, if it has one.
use cortex_tutor.Prelude.{
  ℕ, suc, Bool, false, ◌||◌, ◌&&◌, not, Option, none, some, List, [], ◌∷◌, ◌++◌, ◌==◌, ltb, any,
  if◌then◌else◌,
}
use cortex_tutor.Prelude.Text.{Text, codes, is_empty, join, text_eq}
use cortex_tutor.Grounding.Slug.{Unicode, strip_order_prefix, slugify, includes_as_content}
use cortex_tutor.Grounding.Search.{lower_text, text_lt}
use cortex_tutor.Grounding.Corpus.{ChapterMeta, problem_id, ChapterDoc, put_doc}
use cortex_tutor.Grounding.Markdown.{
  Cases, find_pair, remove_md, ends_with_md, strip_frontmatter, first_h1, humanise,
}

mutual
  pub data Entry : Type 0 where
    file : Text → Text → Entry
    dir : Text → Option Text → Entries → Entry

  pub data Entries : Type 0 where
    nil : Entries
    cons : Entry → Entries → Entries

unfoldable pub name_of : Entry → Text
name_of (file name content) = name
name_of (dir name title es) = name

module _ (unicode : Unicode) where
  unfoldable pub slug_parts : List Text → List Text
  unfolding slugify strip_order_prefix remove_md
  slug_parts [] = []
  slug_parts (raw ∷ rest) =
      let more = slug_parts rest in
      let seg = remove_md raw in
      let s = slugify unicode (strip_order_prefix unicode seg) in
      if is_empty seg || is_empty s then more else s ∷ more

  unfoldable pub chapter_slug : List Text → Text
  unfolding slug_parts
  chapter_slug segs = join (b'/' ∷ []) (slug_parts segs)

  unfoldable pub leading_digits : Text → Text
  leading_digits [] = []
  leading_digits (c ∷ s) =
      let rest = leading_digits s in if unicode.is_digit c then c ∷ rest else []

  -- `_order_key`, its number one higher; `number` is `int` of digits.
  unfoldable pub order_key : (Text → ℕ) → Text → ℕ × Text
  unfolding remove_md leading_digits lower_text
  order_key number name =
      let lowered = lower_text unicode name in
      if text_eq (remove_md name) (codes "index")
      then (0, lowered)
      else if is_empty (leading_digits name)
      then (suc 0x80000000, lowered)
      else (suc (number (leading_digits name)), lowered)

  unfoldable pub key_lt : ℕ × Text → ℕ × Text → Bool
  unfolding text_lt
  key_lt a b = ltb a.0 b.0 || (a.0 == b.0 && text_lt a.1 b.1)

  -- `sorted(d.iterdir(), key=_order_key)`, by insertion
  unfoldable pub insert_entry : (Text → ℕ) → Entry → Entries → Entries
  unfolding order_key key_lt name_of
  insert_entry number e nil = cons e nil
  insert_entry number e (cons f es) =
      let more = insert_entry number e es in
      if key_lt (order_key number (name_of f)) (order_key number (name_of e))
      then cons f more
      else cons e (cons f es)

  -- Every directory of a tree in the order in which it is walked.
  unfoldable mutual
    unfolding insert_entry

    pub sort_entry : (Text → ℕ) → Entry → Entry
    sort_entry number (file name content) = file name content
    sort_entry number (dir name title es) = dir name title (sort_entries number es)

    pub sort_entries : (Text → ℕ) → Entries → Entries
    sort_entries number nil = nil
    sort_entries number (cons e es) =
        insert_entry number (sort_entry number e) (sort_entries number es)

abbrev pub or_text : Option Text → Text → Text
or_text none other = other
or_text (some t) other = if is_empty t then other else t

unfoldable pub is_hidden : Text → Bool
is_hidden [] = false
is_hidden (c ∷ s) = c == 95 || c == 46

module _ (unicode : Unicode) (cases : Cases) (book : Text) where
  -- A chapter, from its file and the path to it.
  unfoldable pub meta_of : List Text → List Text → Text → Text → Text → ChapterMeta
  unfolding first_h1 humanise strip_frontmatter find_pair strip_order_prefix
  meta_of segs group name cslug raw =
      let (fm, body) = strip_frontmatter raw in
      record {
        book = book;
        slug = cslug;
        title =
            or_text (find_pair (codes "title") fm)
              (or_text (first_h1 body) (humanise unicode cases name));
        rel_path = join (b'/' ∷ []) (segs ++ name ∷ []);
        group_path = group;
        is_problem = any (λ s. text_eq (strip_order_prefix unicode s) (codes "problems")) segs;
        summary = find_pair (codes "summary") fm;
      }

  unfoldable pub file_chapters : List Text → List Text → Text → Text → List (ChapterMeta × Text)
  unfolding meta_of is_hidden ends_with_md chapter_slug
  file_chapters segs group name raw =
      let cslug = chapter_slug unicode (segs ++ name ∷ []) in
      if is_hidden name || (not (ends_with_md name) || is_empty cslug)
      then []
      else (meta_of segs group name cslug raw, (strip_frontmatter raw).1) ∷ []

  -- `rec`, on a tree in its order
  unfoldable mutual
    unfolding file_chapters is_hidden includes_as_content

    pub entry_chapters : List Text → List Text → Entry → List (ChapterMeta × Text)
    entry_chapters segs group (file name raw) = file_chapters segs group name raw
    entry_chapters segs group (dir name title es) =
        let inner =
          collect (segs ++ name ∷ []) (group ++ or_text title (humanise unicode cases name) ∷ [])
            es in
        if is_hidden name || not (includes_as_content unicode name) then [] else inner

    pub collect : List Text → List Text → Entries → List (ChapterMeta × Text)
    collect segs group nil = []
    collect segs group (cons e es) = entry_chapters segs group e ++ collect segs group es

-- The documents of a book's chapters, put into those that are there; `split` is
-- `split_visible_solution`.
unfoldable pub index_chapters :
    (Text → Text × Text)
    → List (ChapterMeta × Text)
    → List (Text × ChapterDoc)
    → List (Text × ChapterDoc)
unfolding put_doc problem_id
index_chapters split [] docs = docs
index_chapters split ((m, body) ∷ rest) docs = index_chapters split rest (
    put_doc (problem_id m)
      (record { meta = m; visible = (split body).0; solution = (split body).1 }) docs)
