-- ===== src/Reindexing/Collation.antt =====
-- The order of the ids by their characters' numbers, as the database's C collation has it, is one that the
-- walk can rely on.
use Prim.Native.Char.{Char, code}
use Prim.Native.Nat.{Ordering, compare as compare_ℕ}
use Prim.Native.String.compare
use Prim.Native.String.{[] as empty, ◌∷◌ as prefixed, compare}
use text.Mathlib.Text.{is_lt}
use text.Mathlib.TextEquality.{codes_equal}
use flycanon.Prelude.{String, Bool, true, false, ◌≡◌, refl, arith, ltb, if◌then◌else◌, eq_refl}
use flycanon.Reindexing.Pages.{IsOrder}

abbrev pub comes_after : String → String → Bool
comes_after s t = is_lt (compare t s)

comes_after-cons :
    (c d : Char) (s t : String)
    → comes_after (prefixed c s) (prefixed d t) ≡ (
        if ltb (code d) (code c)
        then true
        else if ltb (code c) (code d)
        then false
        else comes_after s t)
comes_after-cons c d s t = rw (compare.cons-cons d c t s) (ground arith)

comes_after-nothing : (t : String) → comes_after empty t ≡ false
comes_after-nothing empty = ground (arith, eq_refl empty)
comes_after-nothing (prefixed d t) = rw (compare.cons-nil d t) refl

something-comes_after : (c : Char) (s : String) → comes_after (prefixed c s) empty ≡ true
something-comes_after c s = rw (compare.nil-cons c s) refl

comes_after-asymmetric : (s t : String) → comes_after s t ≡ true → comes_after t s ≡ false
comes_after-asymmetric s empty h = comes_after-nothing s
comes_after-asymmetric empty (prefixed d t) h =
    absurd (ground (arith, h, comes_after-nothing (prefixed d t)))
comes_after-asymmetric (prefixed c s) (prefixed d t) h =
    ground
      (arith, h, comes_after-cons c d s t, comes_after-cons d c t s, comes_after-asymmetric s t)

comes_after-transitive :
    (s t u : String) → comes_after s t ≡ false → comes_after t u ≡ false → comes_after s u ≡ false
comes_after-transitive empty t u h k = comes_after-nothing u
comes_after-transitive (prefixed c s) empty u h k =
    absurd (ground (arith, h, something-comes_after c s))
comes_after-transitive (prefixed c s) (prefixed d t) empty h k =
    absurd (ground (arith, k, something-comes_after d t))
comes_after-transitive (prefixed c s) (prefixed d t) (prefixed e u) h k = ground (
  arith,
  h,
  k,
  comes_after-cons c d s t,
  comes_after-cons d e t u,
  comes_after-cons c e s u,
  comes_after-transitive s t u,
)

comes_after-total : (s t : String) → comes_after s t ≡ false → comes_after t s ≡ false → s ≡ t
comes_after-total empty empty h k = refl
comes_after-total empty (prefixed d t) h k = absurd (ground (arith, k, something-comes_after d t))
comes_after-total (prefixed c s) empty h k = absurd (ground (arith, h, something-comes_after c s))
comes_after-total (prefixed c s) (prefixed d t) h k =
    let there = comes_after-cons c d s t in
    let back = comes_after-cons d c t s in
    let same : compare_ℕ (code c) (code d) ≡ Ordering.eq = ground (arith, h, k, there, back) in
    let rest =
      comes_after-total s t (ground (arith, h, k, there, back))
        (ground (arith, h, k, there, back)) in
    λ i. prefixed (codes_equal c d same i) (rest i)

-- The order of the ids by their characters' numbers is total, and equal ids are its only ties.
pub comes_after-IsOrder : IsOrder comes_after
comes_after-IsOrder = record {
  asymmetric = comes_after-asymmetric;
  transitive = comes_after-transitive;
  total = comes_after-total;
}
