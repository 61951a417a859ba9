-- ===== src/Chunker/Pack.antt =====
-- `_pack_section`: with the overlap below the budget it ends, and no chunk is empty or much over the
-- budget.
use flycanon.Prelude.{
  ℕ, ◌+◌, ◌-◌, ◌≤◌, ◌<◌, ◌≡◌, refl, Bool, true, false, ◌&&◌, some, List, [], ◌∷◌, ◌++◌, length, All,
  All-append, All-imp, arith, length-append, length-drop, Bool-cases, inl, inr, ltb, ◌==◌,
  if◌then◌else◌, filter, map,
}
use flycanon.Chunker.{
  Text, separator, Section, split_by_chars, reseed, flush, pack_loop, paragraphs_of, pack_section,
}
use flycanon.Chunker.Strings.{join, not_empty, is_empty, last_or_nil, suffix, strip, split_blank}
use flycanon.Chunker.Slices.{FitsBudget, split_by_chars_covers}

abbrev NotEmpty : Text → Type 0
NotEmpty p = 0 < length p

length-join-pos :
    (p : Text) (ps : List Text) → All NotEmpty (p ∷ ps) → 0 < length (join separator (p ∷ ps))
length-join-pos p [] h = h.0
length-join-pos p (q ∷ ps) h = omega (arith, length-append p (10 ∷ 10 ∷ join separator (q ∷ ps)))

length-join_snoc :
    (buf : List Text) (p : Text)
    → All NotEmpty buf
    → length (join separator (buf ++ p ∷ []))
      ≡ length (join separator buf)
        + (length p + (if length (join separator buf) == 0 then 0 else 2))
length-join_snoc [] p h = omega arith
length-join_snoc (q ∷ []) p h = ground (arith, length-append q (10 ∷ 10 ∷ p))
length-join_snoc (q ∷ r ∷ buf) p h = ground (
  arith,
  length-join_snoc (r ∷ buf) p h.1,
  length-append q (10 ∷ 10 ∷ join separator ((r ∷ buf) ++ p ∷ [])),
  length-append q (10 ∷ 10 ∷ join separator (r ∷ buf)),
  length-join-pos r buf h.1,
)

last_or_nil-NotEmpty :
    (p : Text) (ps : List Text) → All NotEmpty (p ∷ ps) → NotEmpty (last_or_nil (p ∷ ps))
last_or_nil-NotEmpty p [] h = h.0
last_or_nil-NotEmpty p (q ∷ ps) h = last_or_nil-NotEmpty q ps h.1

module _ (char_budget overlap : ℕ) (room : overlap < char_budget) where
  abbrev Fits : Text → Type 0
  Fits = FitsBudget (char_budget + overlap + 2)

  -- The buffer between two paragraphs.
  record IsFilled (buf : List Text) (buf_len : ℕ) : Type 0 where
    measured : length (join separator buf) ≡ buf_len
    bounded : buf_len ≤ char_budget + overlap + 2
    no_blank : All NotEmpty buf

  flush-Fits : (buf : List Text) (n : ℕ) → IsFilled buf n → All Fits (flush buf)
  unfolding flush
  flush-Fits [] n filled = tt
  flush-Fits (p ∷ buf) n filled = ((length-join-pos p buf filled.no_blank, omega arith), tt)

  reseed-IsFilled :
      (p : Text) (ps : List Text) (paragraph : Text)
      → All NotEmpty (p ∷ ps)
      → NotEmpty paragraph
      → length paragraph ≤ char_budget
      → IsFilled (reseed (p ∷ ps) paragraph overlap).0 (reseed (p ∷ ps) paragraph overlap).1
  unfolding reseed
  reseed-IsFilled p ps paragraph h some_text fits = record {
    measured = ground (arith, length-append seed (10 ∷ 10 ∷ paragraph));
    bounded = ground (arith, seed_len);
    no_blank = ground (arith, seed_len);
  }
    where
      last : Text
      last = last_or_nil (p ∷ ps)

      seed : Text
      seed = suffix overlap last

      seed_len : length seed ≡ length last - (length last - overlap)
      seed_len = length-drop (length last - overlap) last

  snoc_bound :
      (buf : List Text) (n m : ℕ)
      → IsFilled buf n
      → m ≤ char_budget
      → (ltb char_budget (n + m + 2) && not_empty buf) ≡ false
      → n + (m + (if n == 0 then 0 else 2)) ≤ char_budget + overlap + 2
  snoc_bound [] n m filled fits below = ground arith
  snoc_bound (p ∷ buf) n m filled fits below = ground arith

  snoc-IsFilled :
      (buf : List Text) (n : ℕ) (paragraph : Text)
      → IsFilled buf n
      → NotEmpty paragraph
      → length paragraph ≤ char_budget
      → (ltb char_budget (n + length paragraph + 2) && not_empty buf) ≡ false
      → IsFilled (buf ++ paragraph ∷ []) (n + (length paragraph + (if n == 0 then 0 else 2)))
  snoc-IsFilled buf n paragraph filled some_text fits below = record {
    measured = ground (arith, length-join_snoc buf paragraph filled.no_blank);
    bounded = snoc_bound buf n (length paragraph) filled fits below;
    no_blank = All-append NotEmpty buf (paragraph ∷ []) filled.no_blank (some_text, tt);
  }

  abbrev Packs : List Text → List Text → ℕ → Type 0
  Packs paragraphs buf n =
      (pieces : List Text) × (pack_loop char_budget overlap paragraphs buf n ≡ some pieces)
      × All Fits pieces

  split-Fits :
      (paragraph : Text)
      → (pieces : List Text) × (split_by_chars paragraph char_budget overlap ≡ some pieces)
        × All Fits pieces
  split-Fits paragraph =
      let (pieces, runs, fit, _) = split_by_chars_covers paragraph char_budget overlap room in
      (pieces, runs, All-imp (FitsBudget char_budget) Fits pieces (λ p h. omega arith) fit)

  pack_oversized :
      (paragraph : Text) (rest buf : List Text) (n : ℕ)
      → IsFilled buf n
      → ltb char_budget (length paragraph) ≡ true
      → Packs rest [] 0
      → Packs (paragraph ∷ rest) buf n
  unfolding pack_loop
  pack_oversized paragraph rest buf n filled over (tail, runs, fit) =
      let (pieces, splits, fit') = split-Fits paragraph in
      (
        flush buf ++ (pieces ++ tail),
        rw (over, splits, runs),
        All-append Fits (flush buf) (pieces ++ tail) (flush-Fits buf n filled)
            (All-append Fits pieces tail fit' fit),
      )

  pack_overflow :
      (paragraph : Text) (rest buf : List Text) (n : ℕ)
      → IsFilled buf n
      → NotEmpty paragraph
      → ltb char_budget (length paragraph) ≡ false
      → (ltb char_budget (n + length paragraph + 2) && not_empty buf) ≡ true
      → (IsFilled (reseed buf paragraph overlap).0 (reseed buf paragraph overlap).1
          → Packs rest (reseed buf paragraph overlap).0 (reseed buf paragraph overlap).1)
      → Packs (paragraph ∷ rest) buf n
  unfolding pack_loop
  pack_overflow paragraph rest [] n filled some_text under over next = absurd (ground arith)
  pack_overflow paragraph rest (p ∷ buf) n filled some_text under over next =
      let seeded = reseed-IsFilled p buf paragraph filled.no_blank some_text (ground arith) in
      let (tail, runs, fit) = next seeded in
      (
        join separator (p ∷ buf) ∷ tail,
        rw (under, over, runs),
        ((length-join-pos p buf filled.no_blank, omega arith), fit),
      )

  pack_appended :
      (paragraph : Text) (rest buf : List Text) (n : ℕ)
      → ltb char_budget (length paragraph) ≡ false
      → (ltb char_budget (n + length paragraph + 2) && not_empty buf) ≡ false
      → Packs rest (buf ++ paragraph ∷ []) (n + (length paragraph + (if n == 0 then 0 else 2)))
      → Packs (paragraph ∷ rest) buf n
  unfolding pack_loop
  pack_appended paragraph rest buf n under below (pieces, runs, fit) =
      (pieces, rw (under, below, runs), fit)

  start-IsFilled : IsFilled [] 0
  start-IsFilled = record { measured = refl; bounded = omega arith; no_blank = tt }

  pack_loop-Fits :
      (paragraphs buf : List Text) (n : ℕ)
      → All NotEmpty paragraphs
      → IsFilled buf n
      → Packs paragraphs buf n
  pack_loop-Fits [] buf n h filled = (flush buf, unfold pack_loop in refl, flush-Fits buf n filled)
  pack_loop-Fits (paragraph ∷ rest) buf n h filled =
      elim (Bool-cases (ltb char_budget (length paragraph))) [
        | inl over ↦
            pack_oversized paragraph rest buf n filled over
              (pack_loop-Fits rest [] 0 h.1 start-IsFilled)
        | inr under ↦
            elim (Bool-cases (ltb char_budget (n + length paragraph + 2) && not_empty buf)) [
              | inl over ↦
                  pack_overflow paragraph rest buf n filled h.0 under over
                    (pack_loop-Fits rest _ _ h.1)
              | inr below ↦ pack_appended paragraph rest buf n under below (
                  pack_loop-Fits rest (buf ++ paragraph ∷ []) _ h.1
                    (snoc-IsFilled buf n paragraph filled h.0 (ground arith) below))
            ]
      ]

filter-NotEmpty : (ps : List Text) → All NotEmpty (filter not_empty ps)
filter-NotEmpty [] = tt
filter-NotEmpty ([] ∷ ps) = filter-NotEmpty ps
filter-NotEmpty ((c ∷ p) ∷ ps) = (omega arith, filter-NotEmpty ps)

filter-All : (P : Text → Type 0) (ps : List Text) → All P ps → All P (filter not_empty ps)
filter-All P [] h = tt
filter-All P ([] ∷ ps) h = filter-All P ps h.1
filter-All P ((c ∷ p) ∷ ps) h = (h.0, filter-All P ps h.1)

-- With the overlap below the budget a section is packed, into texts that are not empty and that pass
-- the budget by the overlap and a blank line at most.
pub pack_section-FitsBudget :
    (is_space : ℕ → Bool) (section : Section) (char_budget overlap : ℕ)
    → overlap < char_budget
    → (pieces : List Text) × (pack_section is_space section char_budget overlap ≡ some pieces)
      × All (FitsBudget (char_budget + overlap + 2)) pieces
pack_section-FitsBudget is_space section char_budget overlap room =
    elim (Bool-cases (is_empty (paragraphs_of is_space section.body))) [
      | inl blank ↦
          let (pieces, runs, fit) =
            split-Fits char_budget overlap room (strip is_space section.body) in
          (
            filter not_empty pieces,
            unfold pack_section in rw (blank, runs),
            filter-All (FitsBudget (char_budget + overlap + 2)) pieces fit,
          )
      | inr some_text ↦
          let (pieces, runs, fit) =
            pack_loop-Fits char_budget overlap room (paragraphs_of is_space section.body) [] 0
              (unfold paragraphs_of in
                filter-NotEmpty (map (strip is_space) (split_blank section.body)))
              (start-IsFilled char_budget overlap room) in
          (pieces, unfold pack_section in rw (some_text, runs), fit)
    ]
