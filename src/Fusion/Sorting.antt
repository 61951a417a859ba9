-- ===== src/Fusion/Sorting.antt =====
-- The fused list is the dict of the scores in descending order.
use flycanon.Prelude.{
  ℕ, ◌≡◌, refl, ◌∙◌, String, str_eq, eq_iff, Bool, true, false, none, List, [], ◌∷◌, All, arith,
  Bool-cases, inl, inr, if◌then◌else◌,
}
use flycanon.Table.{Unique}
use flycanon.Fusion.{Arithmetic, lookup, credit_all, place_by_score, sorted, reciprocal_rank_fusion}
use flycanon.Fusion.Scores.{id_of, score_of, lookup-credit_all, Unique-credit_all}

module _ {S : Type 0} (arithmetic : Arithmetic S) where
  All-place_by_score {κ} :
      (P : String × S → Type κ) (x : String × S) (ys : List (String × S))
      → P x
      → All P ys
      → All P (place_by_score arithmetic x ys)
  unfolding place_by_score
  All-place_by_score P x [] h all = (h, tt)
  All-place_by_score P x (y ∷ ys) h all = elim (Bool-cases (arithmetic.less x.1 y.1)) [
    | inl behind ↦ rw behind (all.0, All-place_by_score P x ys h all.1)
    | inr here ↦ rw here (h, all)
  ]

  All-sorted {κ} :
      (P : String × S → Type κ) (xs : List (String × S)) → All P xs → All P (sorted arithmetic xs)
  unfolding sorted
  All-sorted P [] all = tt
  All-sorted P (x ∷ xs) all =
      All-place_by_score P x (sorted arithmetic xs) all.0 (All-sorted P xs all.1)

  Unique-place_by_score :
      (x : String × S) (ys : List (String × S))
      → All (λ y. str_eq (id_of y) (id_of x) ≡ false) ys
      → Unique id_of ys
      → Unique id_of (place_by_score arithmetic x ys)
  unfolding place_by_score
  Unique-place_by_score x [] new u = (tt, tt)
  Unique-place_by_score x (y ∷ ys) new u = elim (Bool-cases (arithmetic.less x.1 y.1)) [
    | inl behind ↦ rw behind (
      All-place_by_score (λ z. str_eq (id_of z) (id_of y) ≡ false) x ys
          (ground (arith, new.0, eq_iff x.0 y.0, eq_iff y.0 x.0)) u.0,
      Unique-place_by_score x ys new.1 u.1,
    )
    | inr here ↦ rw here (new, u)
  ]

  pub Unique-sorted :
      (xs : List (String × S)) → Unique id_of xs → Unique id_of (sorted arithmetic xs)
  unfolding sorted
  Unique-sorted [] u = tt
  Unique-sorted (x ∷ xs) u =
      Unique-place_by_score x (sorted arithmetic xs) (All-sorted _ xs u.0) (Unique-sorted xs u.1)

  lookup-place_by_score :
      (k : String) (x : String × S) (ys : List (String × S))
      → All (λ y. str_eq (id_of y) (id_of x) ≡ false) ys
      → lookup k (place_by_score arithmetic x ys) ≡ lookup k (x ∷ ys)
  unfolding place_by_score lookup
  lookup-place_by_score k x [] new = refl
  lookup-place_by_score k x (y ∷ ys) new = elim (Bool-cases (arithmetic.less x.1 y.1)) [
    | inl behind ↦ ground (
      arith,
      behind,
      new.0,
      eq_iff x.0 k,
      eq_iff y.0 k,
      eq_iff y.0 x.0,
      lookup-place_by_score k x ys new.1,
    )
    | inr here ↦ rw here refl
  ]

  lookup_behind :
      (k : String) (x : String × S) (xs ys : List (String × S))
      → lookup k xs ≡ lookup k ys
      → lookup k (x ∷ xs) ≡ lookup k (x ∷ ys)
  unfolding lookup
  lookup_behind k x xs ys e = elim (Bool-cases (str_eq x.0 k)) [
    | inl here ↦ rw here refl
    | inr behind ↦ rw behind e
  ]

  pub lookup-sorted :
      (k : String) (xs : List (String × S))
      → Unique id_of xs
      → lookup k (sorted arithmetic xs) ≡ lookup k xs
  unfolding sorted
  lookup-sorted k [] u = refl
  lookup-sorted k (x ∷ xs) u =
      lookup-place_by_score k x (sorted arithmetic xs) (All-sorted _ xs u.0)
      ∙ lookup_behind k x (sorted arithmetic xs) xs (lookup-sorted k xs u.1)

  -- No entry scores less than the one behind it.
  abbrev pub Descending : List (String × S) → Type 0
  Descending [] = Unit
  Descending (x ∷ []) = Unit
  Descending (x ∷ y ∷ ys) = (arithmetic.less x.1 y.1 ≡ false) × Descending (y ∷ ys)

  -- The head stays in order whichever of two entries comes behind it.
  behind_head :
      (x y z : String × S) (xs zs : List (String × S))
      → arithmetic.less y.1 x.1 ≡ false
      → arithmetic.less y.1 z.1 ≡ false
      → (b : Bool) → Descending (if b then z ∷ xs else x ∷ z ∷ zs)
      → Descending (y ∷ (if b then z ∷ xs else x ∷ z ∷ zs))
  behind_head x y z xs zs h h' true d = (h', d)
  behind_head x y z xs zs h h' false d = (h, d)

  module _ (asymmetric : (a b : S) → arithmetic.less a b ≡ true → arithmetic.less b a ≡ false) where
    Descending-place_by_score :
        (x : String × S) (ys : List (String × S))
        → Descending ys
        → Descending (place_by_score arithmetic x ys)
    unfolding place_by_score
    Descending-place_by_score x [] d = tt
    Descending-place_by_score x (y ∷ []) d = elim (Bool-cases (arithmetic.less x.1 y.1)) [
      | inl behind ↦ rw behind (asymmetric x.1 y.1 behind, tt)
      | inr here ↦ rw here (here, tt)
    ]
    Descending-place_by_score x (y ∷ z ∷ zs) d = elim (Bool-cases (arithmetic.less x.1 y.1)) [
      | inr here ↦ rw here (here, d)
      | inl behind ↦ rw behind (
          behind_head x y z (place_by_score arithmetic x zs) zs (asymmetric x.1 y.1 behind) d.0
            (arithmetic.less x.1 z.1) (Descending-place_by_score x (z ∷ zs) d.1))
    ]

    Descending-sorted : (xs : List (String × S)) → Descending (sorted arithmetic xs)
    unfolding sorted
    Descending-sorted [] = tt
    Descending-sorted (x ∷ xs) =
        Descending-place_by_score x (sorted arithmetic xs) (Descending-sorted xs)

-- Where the order of the scores is asymmetric: the fused list gives each chunk the sum of its reciprocal
-- ranks, added up in the order of the rankings, and has no chunk that is in none; it has no chunk
-- twice, and its scores descend.
pub fusion-sums :
    {S : Type 0} (arithmetic : Arithmetic S) (k : ℕ) (rankings : List (List String))
    (chunk_id : String)
    → ((a b : S) → arithmetic.less a b ≡ true → arithmetic.less b a ≡ false)
    → (lookup chunk_id (reciprocal_rank_fusion arithmetic k rankings)
        ≡ score_of arithmetic k chunk_id rankings none)
      × Unique id_of (reciprocal_rank_fusion arithmetic k rankings)
      × Descending arithmetic (reciprocal_rank_fusion arithmetic k rankings)
unfolding reciprocal_rank_fusion lookup
fusion-sums arithmetic k rankings chunk_id asymmetric =
    let u = Unique-credit_all arithmetic k rankings [] tt in
    (
      lookup-sorted arithmetic chunk_id (credit_all arithmetic k rankings []) u
          ∙ lookup-credit_all arithmetic chunk_id k rankings [],
      Unique-sorted arithmetic (credit_all arithmetic k rankings []) u,
      Descending-sorted arithmetic asymmetric (credit_all arithmetic k rankings []),
    )
