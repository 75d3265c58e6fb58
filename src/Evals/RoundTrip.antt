-- ===== src/Evals/RoundTrip.antt =====
-- Writing cases and reading them back.
use cortex_tutor.Prelude.{
  ℕ, ◌≡◌, ◌≢◌, refl, ap, subst, true, false, List, [], ◌∷◌, ◌++◌, map, ◌==◌, ==_iff, any, all, All,
  arith,
}
use mathlib.Core.List.{append_assoc, append-nil}
use cortex_tutor.Prelude.Result.{ok, >>=-ok_inv}
use cortex_tutor.Prelude.Text.{Text, join, text_eq_iff, is_blank}
use cortex_tutor.Evals.Schema.{
  Case, translate, universal_newlines, is_line_break, split_lines, CaseJson, validate_lines,
  is_seen, check_unique, load_cases, dump_cases,
}

-- No character of the text breaks a line.
abbrev pub IsOneLine : Text → Type 0
IsOneLine t = All (λ c. is_line_break c ≡ false) t

-- What JSON promises for a case: it is read back from its line, which is not blank; and the line has
-- no character that breaks it.
pub record IsWritten (json : CaseJson) (c : Case) : Type 0 where
  pub reads_back : json.validate (json.dumps c) ≡ ok c
  pub not_blank : is_blank (json.dumps c) ≡ false
  pub one_line : IsOneLine (json.dumps c)

is_line_break-cr : (c : ℕ) → is_line_break c ≡ false → (c == 13) ≡ false
unfolding is_line_break any
is_line_break-cr c h = ground (arith, ==_iff c 13, ==_iff 13 c)

is_line_break-lf : is_line_break 10 ≡ true
unfolding is_line_break any
is_line_break-lf = refl

translate-line :
    (t rest : Text)
    → IsOneLine t
    → translate false (t ++ 10 ∷ rest) ≡ t ++ 10 ∷ translate false rest
unfolding translate
translate-line [] rest h = refl
translate-line (c ∷ t) rest h =
    rw (is_line_break-cr c h.0) (ap (λ x. c ∷ x) (translate-line t rest h.1))

split_lines-line :
    (line t rest : Text)
    → IsOneLine t
    → split_lines line (t ++ 10 ∷ rest) ≡ (line ++ t) ∷ split_lines [] rest
unfolding split_lines
split_lines-line line [] rest h = rw (is_line_break-lf, append-nil line) refl
split_lines-line line (c ∷ t) rest h =
    rw (h.0, split_lines-line (line ++ c ∷ []) t rest h.1, append_assoc line (c ∷ []) t) refl

module _ (json : CaseJson) where
  lines_of-dump_cases :
      (c : Case) (cs : List Case)
      → All (IsWritten json) (c ∷ cs)
      → split_lines [] (universal_newlines (dump_cases json (c ∷ cs))) ≡ map json.dumps (c ∷ cs)
  unfolding dump_cases universal_newlines join translate split_lines
  lines_of-dump_cases c [] h =
      rw
        (
          translate-line (json.dumps c) [] h.0.one_line,
          split_lines-line [] (json.dumps c) (translate false []) h.0.one_line,
        )
        refl
  lines_of-dump_cases c (d ∷ cs) h =
      let rest : Text = join (10 ∷ []) (map json.dumps (d ∷ cs)) ++ 10 ∷ [] in
      let lines = lines_of-dump_cases d cs h.1 in
      rw
        (
          append_assoc (json.dumps c) (10 ∷ join (10 ∷ []) (map json.dumps (d ∷ cs))) (10 ∷ []),
          translate-line (json.dumps c) rest h.0.one_line,
          split_lines-line [] (json.dumps c) (translate false rest) h.0.one_line,
        )
        (ap (λ x. json.dumps c ∷ x) lines)

  validate_lines-dumps :
      (cs : List Case) → All (IsWritten json) cs → validate_lines json (map json.dumps cs) ≡ ok cs
  unfolding validate_lines
  validate_lines-dumps [] all = refl
  validate_lines-dumps (c ∷ cs) all =
      rw (all.0.not_blank, all.0.reads_back, validate_lines-dumps cs all.1) refl

-- No two cases have one identifier.
abbrev pub IsDistinct : List Case → Type 0
IsDistinct [] = Unit
IsDistinct (c ∷ cs) = All (λ d. d.case_id ≢ c.case_id) cs × IsDistinct cs

abbrev IsUnseen : List Text → List Case → Type 0
IsUnseen seen cs = All (λ c. is_seen c.case_id seen ≡ false) cs

IsUnseen-add :
    (id : Text) (seen : List Text) (cs : List Case)
    → IsUnseen seen cs
    → All (λ d. d.case_id ≢ id) cs
    → IsUnseen (id ∷ seen) cs
unfolding is_seen any
IsUnseen-add id seen [] unseen apart = tt
IsUnseen-add id seen (c ∷ cs) unseen apart = (
  ground (arith, unseen.0, apart.0, text_eq_iff id c.case_id),
  IsUnseen-add id seen cs unseen.1 apart.1,
)

IsUnseen-drop :
    (id : Text) (seen : List Text) (cs : List Case)
    → IsUnseen (id ∷ seen) cs
    → IsUnseen seen cs × All (λ d. d.case_id ≢ id) cs
unfolding is_seen any
IsUnseen-drop id seen [] unseen = (tt, tt)
IsUnseen-drop id seen (c ∷ cs) unseen =
    let (more, apart) = IsUnseen-drop id seen cs unseen.1 in
    (
      (ground (arith, unseen.0), more),
      (λ same. ground (arith, unseen.0, text_eq_iff id c.case_id, same), apart),
    )

check_unique-ok :
    (seen : List Text) (cs : List Case)
    → IsUnseen seen cs
    → IsDistinct cs
    → check_unique seen cs ≡ ok tt
unfolding check_unique
check_unique-ok seen [] unseen distinct = refl
check_unique-ok seen (c ∷ cs) unseen distinct = rw (unseen.0) (
    check_unique-ok (c.case_id ∷ seen) cs (IsUnseen-add c.case_id seen cs unseen.1 distinct.0)
      distinct.1)

check_unique-IsDistinct :
    (seen : List Text) (cs : List Case)
    → check_unique seen cs ≡ ok tt
    → IsUnseen seen cs × IsDistinct cs
unfolding check_unique
check_unique-IsDistinct seen [] h = (tt, tt)
check_unique-IsDistinct seen (c ∷ cs) h =
    let fresh : is_seen c.case_id seen ≡ false = ground arith in
    let (unseen, distinct) = check_unique-IsDistinct (c.case_id ∷ seen) cs (ground arith) in
    let (more, apart) = IsUnseen-drop c.case_id seen cs unseen in ((fresh, more), (apart, distinct))

none_seen : (cs : List Case) → IsUnseen [] cs
unfolding is_seen any
none_seen [] = tt
none_seen (c ∷ cs) = (refl, none_seen cs)

no_cases : (json : CaseJson) → load_cases json (dump_cases json []) ≡ ok []
unfolding load_cases dump_cases join universal_newlines translate split_lines is_line_break any
    validate_lines check_unique is_blank all
no_cases json = refl

-- A file that holds the cases that were written is read back as these cases, if no two of them have
-- one identifier, and the JSON of each is read back by itself, is not blank, and has no character
-- at which `str.splitlines` breaks a line.
pub load_cases-dump_cases :
    (json : CaseJson) (cs : List Case)
    → All (IsWritten json) cs
    → IsDistinct cs
    → load_cases json (dump_cases json cs) ≡ ok cs
unfolding load_cases
load_cases-dump_cases json [] written distinct = no_cases json
load_cases-dump_cases json (c ∷ cs) written distinct =
    rw
      (
        lines_of-dump_cases json c cs written,
        validate_lines-dumps json (c ∷ cs) written,
        check_unique-ok [] (c ∷ cs) (none_seen (c ∷ cs)) distinct,
      )
      refl

-- Whatever the file holds: cases that were read have different identifiers.
pub load_cases-IsDistinct :
    (json : CaseJson) (content : Text) (cs : List Case)
    → load_cases json content ≡ ok cs
    → IsDistinct cs
unfolding load_cases
load_cases-IsDistinct json content cs h =
    let (got, read, checked) =
      >>=-ok_inv (validate_lines json (split_lines [] (universal_newlines content))) _ h in
    let (u, unique, same) = >>=-ok_inv (check_unique [] got) _ checked in
    subst IsDistinct (ground (arith, same)) (check_unique-IsDistinct [] got unique).1
