-- ===== src/Tests/Slugs.antt =====
-- Slugs of chapters, with ASCII for Unicode.
use cortex_tutor.Prelude.{
  ℕ, ◌+◌, ◌≡◌, refl, ◌⊎◌, Bool, true, ◌&&◌, ◌||◌, [], ◌∷◌, leb, if◌then◌else◌, all,
}
use cortex_tutor.Prelude.Text.{codes}
use cortex_tutor.Grounding.Slug.{
  Unicode, strip_order_prefix, drop_digits, drop_separator, slugify, slug_loop, slug_step,
  without_last_dash, slug_like, slugify-slug_like,
}

abbrev pub is_upper : ℕ → Bool
is_upper c = leb 65 c && leb c 90

abbrev pub ascii : Unicode
ascii = record {
  is_alnum = λ c. (leb 48 c && leb c 57) || (is_upper c || (leb 97 c && leb c 122));
  is_digit = λ c. leb 48 c && leb c 57;
  lower = λ c. (if is_upper c then c + 32 else c) ∷ [];
}

words_joined : slugify ascii (codes "Two  Sum (II)") ≡ codes "two-sum-ii"
unfolding slugify slug_loop slug_step without_last_dash
words_joined = refl

order_dropped : strip_order_prefix ascii (codes "01-arrays") ≡ codes "arrays"
unfolding strip_order_prefix drop_digits drop_separator
order_dropped = refl

slugify-slug_like_example :
    (slugify ascii (codes "Two Sum!") ≡ [])
    ⊎ (slug_like ascii (slugify ascii (codes "Two Sum!")) ≡ true)
unfolding all
slugify-slug_like_example = slugify-slug_like ascii (codes "Two Sum!") refl
