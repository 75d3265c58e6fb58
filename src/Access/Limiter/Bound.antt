-- ===== src/Access/Limiter/Bound.antt =====
-- What the limiter of tutor/ratelimit.py promises: the number of requests that get through.
use cortex_tutor.Prelude.{
  ℕ, ◌≤◌, ◌<◌, ◌≡◌, refl, sym, ap, ◌∙◌, subst, inl, inr, arith, Bool, true, false, ◌&&◌, List, [],
  ◌∷◌, ◌++◌, ◌+◌, leb, ltb, filter, count, length, All, count-append, Bool-cases,
}
use cortex_tutor.Access.Limiter.{Check, admitted, in_window, evict, refuse, check_key}

-- The requests of one key at the given times: the hits that the limiter keeps, and the times of
-- those that got through, the latest last.
unfoldable pub log_of : Check → ℕ → List ℕ → List ℕ
log_of admitted now log = log ++ now ∷ []
log_of _ now log = log

module _ (limit window : ℕ) where
  unfoldable pub serve : List ℕ → List ℕ × List ℕ → List ℕ × List ℕ
  unfolding check_key log_of
  serve [] st = st
  serve (now ∷ later) (hits, log) =
      let (c, left) = check_key limit window now hits in serve later (left, log_of c now log)

  -- The times do not go back, from a first one on.
  abbrev pub IsMonotone : ℕ → List ℕ → Type 0
  IsMonotone t [] = Unit {0}
  IsMonotone t (now ∷ later) = (t ≤ now) × IsMonotone now later

  -- the admissions in the window that ends at a time: not after it, and less than the window before
  abbrev pub in_last : ℕ → ℕ → Bool
  in_last t a = leb a t && ltb t (a + window)

  abbrev pub IsWithin : List ℕ → Type 0
  IsWithin log = (t : ℕ) → count (in_last t) log ≤ limit

  -- What the hits are, of the log: those that are still in the window.
  abbrev pub Agrees : ℕ → List ℕ × List ℕ → Type 0
  Agrees t (hits, log) =
      ((now : ℕ) → t ≤ now → evict window now hits ≡ evict window now log) × All (λ a. a ≤ t) log

  evict-evict :
      (t now : ℕ) (xs : List ℕ)
      → t ≤ now
      → evict window now (evict window t xs) ≡ evict window now xs
  unfolding evict filter
  evict-evict t now [] h = refl
  evict-evict t now (x ∷ xs) h = ground (arith, evict-evict t now xs h)

  evict-append :
      (now : ℕ) (xs ys : List ℕ)
      → evict window now (xs ++ ys) ≡ evict window now xs ++ evict window now ys
  unfolding evict filter
  evict-append now [] ys = refl
  evict-append now (x ∷ xs) ys = ground (arith, evict-append now xs ys)

  All-append :
      (t now : ℕ) (xs : List ℕ)
      → t ≤ now
      → All (λ a. a ≤ t) xs
      → All (λ a. a ≤ now) (xs ++ now ∷ [])
  All-append t now [] h all = (omega arith, tt)
  All-append t now (x ∷ xs) h all = (omega (arith, all.0), All-append t now xs h all.1)

  All-mono : (t now : ℕ) (xs : List ℕ) → t ≤ now → All (λ a. a ≤ t) xs → All (λ a. a ≤ now) xs
  All-mono t now [] h all = tt
  All-mono t now (x ∷ xs) h all = (omega (arith, all.0), All-mono t now xs h all.1)

  -- A window that holds a time holds no more of the log than is left at that time.
  count_left :
      (t now : ℕ) (log : List ℕ) → now ≤ t → count (in_last t) log ≤ length (evict window now log)
  unfolding evict filter count in_window
  count_left t now [] h = omega arith
  count_left t now (x ∷ xs) h = ground (arith, count_left t now xs h)

  IsWithin-append :
      (now : ℕ) (log : List ℕ)
      → IsWithin log
      → length (evict window now log) < limit
      → IsWithin (log ++ now ∷ [])
  unfolding count
  IsWithin-append now log w room t =
      rw (count-append (in_last t) log (now ∷ [])) (ground (arith, w t, count_left t now log))

  Agrees-refused :
      (t now : ℕ) (hits log : List ℕ)
      → t ≤ now
      → Agrees t (hits, log)
      → Agrees now (evict window now hits, log)
  Agrees-refused t now hits log h (same, all) =
      (λ n le. evict-evict now n hits le ∙ same n (omega (arith, h, le)), All-mono t now log h all)

  Agrees-admitted :
      (t now : ℕ) (hits log : List ℕ)
      → t ≤ now
      → Agrees t (hits, log)
      → Agrees now (evict window now hits ++ now ∷ [], log ++ now ∷ [])
  Agrees-admitted t now hits log h (same, all) = (
    λ n le.
        evict-append n (evict window now hits) (now ∷ [])
        ∙ ap (λ xs. xs ++ evict window n (now ∷ []))
            (evict-evict now n hits le ∙ same n (omega (arith, h, le)))
        ∙ sym (evict-append n log (now ∷ [])),
    All-append t now log h all,
  )

  abbrev after_check : ℕ → List ℕ → List ℕ → List ℕ × List ℕ
  after_check now hits log =
      let (c, left) = check_key limit window now hits in (left, log_of c now log)

  log_of-refuse : (now : ℕ) (log left : List ℕ) → log_of (refuse window now left) now log ≡ log
  unfolding log_of refuse
  log_of-refuse now log [] = refl
  log_of-refuse now log (t ∷ left) = refl

  after_check-full :
      (now : ℕ) (hits log : List ℕ)
      → leb limit (length (evict window now hits)) ≡ true
      → after_check now hits log ≡ (evict window now hits, log)
  unfolding check_key
  after_check-full now hits log full =
      rw full (ap (λ l. (evict window now hits, l)) (log_of-refuse now log (evict window now hits)))

  after_check-room :
      (now : ℕ) (hits log : List ℕ)
      → leb limit (length (evict window now hits)) ≡ false
      → after_check now hits log ≡ (evict window now hits ++ now ∷ [], log ++ now ∷ [])
  unfolding check_key log_of
  after_check-room now hits log room = rw room refl

  serve-IsWithin_from :
      (times : List ℕ) (t : ℕ) (hits log : List ℕ)
      → IsMonotone t times
      → Agrees t (hits, log)
      → IsWithin log
      → IsWithin (serve times (hits, log)).1
  unfolding serve
  serve-IsWithin_from [] t hits log mono agrees w = w
  serve-IsWithin_from (now ∷ later) t hits log (le, mono) agrees w =
      elim (Bool-cases (leb limit (length (evict window now hits)))) [
        | inl full ↦
            subst (λ st. IsWithin (serve later st).1) (sym (after_check-full now hits log full))
              (serve-IsWithin_from later now _ log mono (Agrees-refused t now hits log le agrees) w)
        | inr room ↦
            let fits : length (evict window now log) < limit =
              subst (λ xs. length xs < limit) (agrees.0 now le) (ground arith) in
            subst (λ st. IsWithin (serve later st).1) (sym (after_check-room now hits log room))
              (serve-IsWithin_from later now _ _ mono (Agrees-admitted t now hits log le agrees)
                (IsWithin-append now log w fits))
      ]

  -- Whatever requests of one key come in, as long as the clock does not go back: in every window
  -- at most `limit` of them get through.
  pub serve-IsWithin : (times : List ℕ) → IsMonotone 0 times → IsWithin (serve times ([], [])).1
  unfolding evict count
  serve-IsWithin times mono =
      serve-IsWithin_from times 0 [] [] mono (λ n le. refl, tt) (λ t. omega arith)
