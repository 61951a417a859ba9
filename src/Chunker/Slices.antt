-- ===== src/Chunker/Slices.antt =====
-- `_split_by_chars` on a budget above the overlap: it ends, its pieces fit, and they cover the text.
use flycanon.Prelude.{
  ℕ, zero, suc, ◌+◌, ◌-◌, ◌≤◌, ◌<◌, ◌≡◌, refl, some, List, [], ◌∷◌, ◌++◌, length, drop, All, arith,
  length-take, length-drop, take-append-drop,
}
use native.Mathlib.Decide.{dec_lt}
use native.Mathlib.Nat.{zero-add, suc-add}
use flycanon.Chunker.{Text, slice, split_loop, split_by_chars}

-- The text that overlapping pieces stand for: each piece after the first repeats `overlap` of its
-- characters.
abbrev pub glue : ℕ → List Text → Text
glue overlap [] = []
glue overlap (p ∷ ps) = p ++ drop overlap (glue overlap ps)

abbrev pub FitsBudget : ℕ → Text → Type 0
FitsBudget char_budget piece = (0 < length piece) × (length piece ≤ char_budget)

drop-drop : (m n : ℕ) (xs : Text) → drop m (drop n xs) ≡ drop (n + m) xs
drop-drop m zero xs = rw zero-add
drop-drop zero (suc n) [] = rw suc-add
drop-drop (suc m) (suc n) [] = rw suc-add
drop-drop m (suc n) (x ∷ xs) = rw suc-add (drop-drop m n xs)

length-slice :
    (text : Text) (i end : ℕ) → i ≤ end → end ≤ length text → length (slice text i end) ≡ end - i
unfolding slice
length-slice text i end h k = omega (arith, length-take (end - i) (drop i text), length-drop i text)

slice-append-drop :
    (text : Text) (i end : ℕ) → i ≤ end → slice text i end ++ drop end text ≡ drop i text
unfolding slice
slice-append-drop text i end h =
    let e : i + (end - i) ≡ end = omega arith in
    rw (← e) (rw (← drop-drop (end - i) i text) (rw e (take-append-drop (end - i) (drop i text))))

drop_end : (text : Text) → drop (length text) text ≡ []
drop_end [] = refl
drop_end (x ∷ xs) = drop_end xs

drop-nil : (n : ℕ) → drop {A = ℕ} n [] ≡ []
drop-nil zero = refl
drop-nil (suc n) = refl

module _ (text : Text) (char_budget overlap : ℕ) (room : overlap < char_budget) where
  -- One list of pieces from offset `i` on.
  abbrev SlicesFrom : ℕ → ℕ → Type 0
  SlicesFrom fuel i =
      (pieces : List Text) × (split_loop fuel text char_budget overlap i ≡ some pieces)
      × All (FitsBudget char_budget) pieces
      × (glue overlap pieces ≡ drop i text)

  last_slice :
      (fuel i : ℕ) → i < length text → length text ≤ i + char_budget → SlicesFrom (suc fuel) i
  unfolding split_loop
  last_slice fuel i inside last = (
    slice text i (length text) ∷ [],
    ground arith,
    ((omega (arith, fits), omega (arith, fits)), tt),
    glued,
  )
    where
      fits : length (slice text i (length text)) ≡ length text - i
      fits = length-slice text i (length text) (omega arith) (omega arith)

      glued : slice text i (length text) ++ drop overlap [] ≡ drop i text
      glued =
          rw drop-nil (rw (← drop_end text) (slice-append-drop text i (length text) (omega arith)))

  next_slice :
      (fuel i : ℕ)
      → i + char_budget < length text
      → SlicesFrom fuel (i + char_budget - overlap)
      → SlicesFrom (suc fuel) i
  unfolding split_loop
  next_slice fuel i inside (pieces, runs, fit, glued) = (
    slice text i end ∷ pieces,
    ground (arith, runs),
    ((omega (arith, fits), omega (arith, fits)), fit),
    rw glued covered,
  )
    where
      end : ℕ
      end = i + char_budget

      fits : length (slice text i end) ≡ end - i
      fits = length-slice text i end (omega arith) (omega arith)

      covered : slice text i end ++ drop overlap (drop (end - overlap) text) ≡ drop i text
      covered =
          let e : end - overlap + overlap ≡ end = omega arith in
          rw (drop-drop overlap (end - overlap) text, e)
            (slice-append-drop text i end (omega arith))

  slices_from : (fuel i : ℕ) → length text < fuel + i → i < length text → SlicesFrom fuel i
  slices_from zero i enough inside = absurd (omega arith)
  slices_from (suc fuel) i enough inside = elim (dec_lt (i + char_budget) (length text)) [
    | yes more ↦
        next_slice fuel i more
          (slices_from fuel (i + char_budget - overlap) (omega arith) (omega arith))
    | no last ↦ last_slice fuel i inside (omega arith)
  ]

-- With the overlap below the budget `_split_by_chars` ends; each piece has a character at least and
-- `char_budget` of them at most; and the pieces are the text, each repeating `overlap` characters of
-- the one before it.
pub split_by_chars_covers :
    (text : Text) (char_budget overlap : ℕ)
    → overlap < char_budget
    → (pieces : List Text) × (split_by_chars text char_budget overlap ≡ some pieces)
      × All (FitsBudget char_budget) pieces
      × (glue overlap pieces ≡ text)
unfolding split_by_chars split_loop
split_by_chars_covers [] char_budget overlap room = ([], ground arith, tt, refl)
split_by_chars_covers (c ∷ text) char_budget overlap room =
    slices_from (c ∷ text) char_budget overlap room (suc (length (c ∷ text))) 0 (omega arith)
      (omega arith)
