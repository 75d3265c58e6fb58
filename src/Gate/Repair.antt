-- ===== src/Gate/Repair.antt =====
-- What `_coerce` of tutor/orchestration/gate.py makes of each field, and which outputs it repairs.
use cortex_tutor.Prelude.{
  String, ◌≡◌, refl, sym, ap, ◌∙◌, inl, inr, Option, none, some, arith, str_eq, eq_iff,
  if◌then◌else◌, Option-cases,
}
use cortex_tutor.Prelude.Text.{codes}
use cortex_tutor.Prelude.Int.{pos, clamp}
use cortex_tutor.Prelude.Result.{Error, type_error, Result, ok, err, ◌>>=◌, >>=-ok_inv}
use cortex_tutor.Json.{
  Json, null, int, float, str, arr, obj, Fields, FloatOps, find, get, put, find-put,
}
use cortex_tutor.Gate.Coerce.{
  parse_verdict, snap, snap_int, coerce_verdict, coerce_score, coerce_level, coerce_str_list,
  coerce_list, coerce,
}

-- The field "verdict" after the repair; `none` where hashing the value raises.
abbrev pub verdict_after : Option Json → Option Json
verdict_after (some (str t)) = elim (parse_verdict t) [
  | some v ↦ some (str t)
  | none ↦ some (str (codes "retry"))
]
verdict_after (some (arr xs)) = none
verdict_after (some (obj fs)) = none
verdict_after _ = some (str (codes "retry"))

module _ (ops : FloatOps) where
  -- The field "score" after the repair.
  abbrev pub score_after : Option Json → Option Json
  score_after none = none
  score_after (some null) = some null
  score_after (some (int n)) = some (int (pos (snap_int n)))
  score_after (some (float x)) = some (int (pos (snap ops.less ops.same (λ b. ops.gap b x))))
  score_after (some _) = some (int (pos 0))

  -- The field "next_hint_level" after the repair, where a float may raise.
  abbrev pub level_after : Option Json → Result (Option Json)
  level_after (some (int n)) = ok (some (int (pos (clamp 3 n))))
  level_after (some (float x)) = ops.to_int x >>= λ n. ok (some (int (pos (clamp 3 n))))
  level_after o = ok o

  -- A list field after the repair.
  abbrev pub list_after : Option Json → Option Json
  list_after none = none
  list_after (some v) = some (coerce_str_list ops v)

  coerce_score-find :
      (d : Fields) (o : Option Json) (j : String)
      → find "score" d ≡ o
      → find j (coerce_score ops (get "score" d) d)
        ≡ (if str_eq "score" j then score_after o else find j d)
  unfolding coerce_score get
  coerce_score-find d none j e = rw (e, get) (ground (arith, eq_iff "score" j))
  coerce_score-find d (some null) j e = rw (e, get) (ground (arith, eq_iff "score" j))
  coerce_score-find d (some _) j e = rw (e, get) (simp find-put)

  coerce_list-find :
      (k : String) (d : Fields) (o : Option Json) (j : String)
      → find k d ≡ o
      → find j (coerce_list ops k d) ≡ (if str_eq k j then list_after o else find j d)
  unfolding coerce_list
  coerce_list-find k d none j e = rw (e, coerce_list) (ground (arith, eq_iff k j))
  coerce_list-find k d (some v) j e = rw (e, coerce_list) (simp find-put)

  coerce_level-find :
      (d : Fields) (o l : Option Json)
      → find "next_hint_level" d ≡ o
      → level_after o ≡ ok l
      → (e : Fields) × (coerce_level ops (get "next_hint_level" d) d ≡ ok e)
        × ((j : String) → find j e ≡ (if str_eq "next_hint_level" j then l else find j d))
  unfolding coerce_level get
  coerce_level-find d none l e h = (d, rw (e, get), λ j. ground (arith, eq_iff "next_hint_level" j))
  coerce_level-find d (some (int n)) l e h = (
    put "next_hint_level" (int (pos (clamp 3 n))) d,
    rw (e, get),
    λ j. ground (arith, find-put "next_hint_level" j (int (pos (clamp 3 n))) d),
  )
  coerce_level-find d (some (float x)) l e h =
      let (n, toint, out) = >>=-ok_inv (ops.to_int x) (λ n. ok (some (int (pos (clamp 3 n))))) h in
      (
        put "next_hint_level" (int (pos (clamp 3 n))) d,
        rw (e, get, toint),
        λ j. ground (arith, find-put "next_hint_level" j (int (pos (clamp 3 n))) d),
      )
  coerce_level-find d (some _) l e h =
      (d, rw (e, get), λ j. ground (arith, eq_iff "next_hint_level" j))

  coerce_verdict-find :
      (d : Fields) (o : Option Json) (v : Json)
      → find "verdict" d ≡ o
      → verdict_after o ≡ some v
      → (e : Fields) × (coerce_verdict (get "verdict" d) d ≡ ok e)
        × ((j : String) → find j e ≡ (if str_eq "verdict" j then some v else find j d))
  unfolding coerce_verdict get
  coerce_verdict-find d (some (str t)) v e h = elim (Option-cases (parse_verdict t)) [
    | inl p ↦ (
      put "verdict" (str (codes "retry")) d,
      rw (e, get) (rw (p, coerce_verdict)),
      λ j. ground (arith, find-put "verdict" j (str (codes "retry")) d),
    )
    | inr (w, p) ↦
        (d, rw (e, get) (rw (p, coerce_verdict)), λ j. ground (arith, eq_iff "verdict" j))
  ]
  coerce_verdict-find d (some (arr t)) v e h = cc
  coerce_verdict-find d (some (obj t)) v e h = cc
  coerce_verdict-find d _ v e h = (
    put "verdict" (str (codes "retry")) d,
    rw (e, get),
    λ j. ground (arith, find-put "verdict" j (str (codes "retry")) d),
  )

  -- What the repair makes of each field of the schema.
  pub record Repaired (raw out : Fields) : Type 0 where
    pub verdict : find "verdict" out ≡ verdict_after (find "verdict" raw)
    pub score : find "score" out ≡ score_after (find "score" raw)
    pub level : level_after (find "next_hint_level" raw) ≡ ok (find "next_hint_level" out)
    pub rubric_hits : find "rubric_hits" out ≡ list_after (find "rubric_hits" raw)
    pub missing : find "missing" out ≡ list_after (find "missing" raw)
    pub hint : find "hint" out ≡ find "hint" raw

  -- The repair goes through if the verdict can be hashed and the hint level converts, and then it
  -- has fixed each field as described.
  pub coerce-Repaired :
      (raw : Fields) (v : Json) (l : Option Json)
      → verdict_after (find "verdict" raw) ≡ some v
      → level_after (find "next_hint_level" raw) ≡ ok l
      → (out : Fields) × (coerce ops raw ≡ ok out) × Repaired raw out
  unfolding coerce
  coerce-Repaired raw v l hv hl =
      let (a, a_ok, a_find) = coerce_verdict-find raw (find "verdict" raw) v refl hv in
      let b = coerce_score ops (get "score" a) a in
      let b_find = coerce_score-find a (find "score" a) in
      let level_kept : find "next_hint_level" b ≡ find "next_hint_level" raw =
        b_find "next_hint_level" refl ∙ a_find "next_hint_level" in
      let (c, c_ok, c_find) = coerce_level-find b (find "next_hint_level" raw) l level_kept hl in
      let d = coerce_list ops "rubric_hits" c in
      let d_find = coerce_list-find "rubric_hits" c (find "rubric_hits" c) in
      let e_find = coerce_list-find "missing" d (find "missing" d) in
      (
        coerce_list ops "missing" d,
        rw (a_ok, c_ok),
        record {
          verdict =
              e_find "verdict" refl
              ∙ d_find "verdict" refl
              ∙ c_find "verdict"
              ∙ b_find "verdict" refl
              ∙ a_find "verdict"
              ∙ sym hv;
          score =
              e_find "score" refl
              ∙ d_find "score" refl
              ∙ c_find "score"
              ∙ b_find "score" refl
              ∙ ap score_after (a_find "score");
          level =
              hl
              ∙ ap ok (
                  sym (
                    e_find "next_hint_level" refl
                    ∙ d_find "next_hint_level" refl
                    ∙ c_find "next_hint_level"));
          rubric_hits =
              e_find "rubric_hits" refl
              ∙ d_find "rubric_hits" refl
              ∙ ap list_after
                  (c_find "rubric_hits" ∙ b_find "rubric_hits" refl ∙ a_find "rubric_hits");
          missing =
              e_find "missing" refl
              ∙ ap list_after (
                  d_find "missing" refl
                  ∙ c_find "missing"
                  ∙ b_find "missing" refl
                  ∙ a_find "missing");
          hint =
              e_find "hint" refl
              ∙ d_find "hint" refl
              ∙ c_find "hint"
              ∙ b_find "hint" refl
              ∙ a_find "hint";
        },
      )

  coerce_verdict-raises :
      (o : Option Json) (d : Fields)
      → find "verdict" d ≡ o
      → verdict_after o ≡ none
      → coerce_verdict (get "verdict" d) d ≡ err type_error
  unfolding coerce_verdict get
  coerce_verdict-raises (some (arr xs)) d e h = rw (e, get)
  coerce_verdict-raises (some (obj fs)) d e h = rw (e, get)
  coerce_verdict-raises (some (str t)) d e h = ground arith
  coerce_verdict-raises _ d e h = cc

  coerce_level-raises :
      (o : Option Json) (d : Fields) {x : Error}
      → find "next_hint_level" d ≡ o
      → level_after o ≡ err x
      → coerce_level ops (get "next_hint_level" d) d ≡ err x
  unfolding coerce_level get
  coerce_level-raises (some (float x)) d e h = rw (e, get) (ground arith)
  coerce_level-raises (some (int n)) d e h = cc
  coerce_level-raises _ d e h = cc

  -- Where the verdict cannot be hashed, or the hint level does not convert, the repair raises.
  pub coerce-raises :
      (raw : Fields)
      → (verdict_after (find "verdict" raw) ≡ none → coerce ops raw ≡ err type_error)
        × ((v : Json) (e : Error)
            → verdict_after (find "verdict" raw) ≡ some v
            → level_after (find "next_hint_level" raw) ≡ err e
            → coerce ops raw ≡ err e)
  unfolding coerce
  coerce-raises raw = (
    λ h. rw (coerce_verdict-raises (find "verdict" raw) raw refl h),
    λ v e hv hl.
        let (a, a_ok, a_find) = coerce_verdict-find raw (find "verdict" raw) v refl hv in
        let b = coerce_score ops (get "score" a) a in
        let kept : find "next_hint_level" b ≡ find "next_hint_level" raw =
          coerce_score-find a (find "score" a) "next_hint_level" refl ∙ a_find "next_hint_level" in
        rw (a_ok, coerce_level-raises (find "next_hint_level" raw) b kept hl),
  )
