-- ===== src/Fusion/Scores.antt =====
-- The fused scores against the sum of the reciprocal ranks of one chunk.
use flycanon.Prelude.{
  ℕ, suc, ◌+◌, ◌≡◌, refl, ap, ◌∙◌, String, str_eq, eq_iff, false, Option, none, some, List, [], ◌∷◌,
  All, arith, Bool-cases, inl, inr, if◌then◌else◌,
}
use flycanon.Table.{Unique}
use flycanon.Fusion.{Arithmetic, lookup, credit, credit_ranking, credit_all}

abbrev pub id_of : {S : Type 0} → String × S → String
id_of x = x.0

module _ {S : Type 0} (arithmetic : Arithmetic S) where
  -- One more place of a chunk; the first is added to nought.
  abbrev with_place : Option S → S → S
  with_place none x = arithmetic.plus arithmetic.nought x
  with_place (some s) x = arithmetic.plus s x

  -- Σ 1 / (k + rank) over the places of the chunk, in their order, none where it has no place.
  unfoldable pub score_in : ℕ → String → ℕ → List String → Option S → Option S
  score_in k chunk_id rank [] score = score
  score_in k chunk_id rank (j ∷ ranking) score = score_in k chunk_id (suc rank) ranking (
      if str_eq j chunk_id
      then some (with_place score (arithmetic.reciprocal (k + rank)))
      else score)

  unfoldable pub score_of : ℕ → String → List (List String) → Option S → Option S
  score_of k chunk_id [] score = score
  score_of k chunk_id (ranking ∷ rankings) score =
      score_of k chunk_id rankings (score_in k chunk_id 1 ranking score)

  lookup-credit :
      (k j : String) (x : S) (d : List (String × S))
      → lookup k (credit arithmetic j x d)
        ≡ (if str_eq j k then some (with_place (lookup k d) x) else lookup k d)
  unfolding lookup credit
  lookup-credit k j x [] = ground arith
  lookup-credit k j x ((i, s) ∷ d) =
      ground (arith, eq_iff i j, eq_iff i k, eq_iff j k, lookup-credit k j x d)

  lookup-credit_ranking :
      (chunk_id : String) (k rank : ℕ) (ranking : List String) (d : List (String × S))
      → lookup chunk_id (credit_ranking arithmetic k rank ranking d)
        ≡ score_in k chunk_id rank ranking (lookup chunk_id d)
  unfolding credit_ranking score_in
  lookup-credit_ranking chunk_id k rank [] d = refl
  lookup-credit_ranking chunk_id k rank (j ∷ ranking) d =
      lookup-credit_ranking chunk_id k (suc rank) ranking
        (credit arithmetic j (arithmetic.reciprocal (k + rank)) d)
      ∙ ap (score_in k chunk_id (suc rank) ranking)
          (lookup-credit chunk_id j (arithmetic.reciprocal (k + rank)) d)

  pub lookup-credit_all :
      (chunk_id : String) (k : ℕ) (rankings : List (List String)) (d : List (String × S))
      → lookup chunk_id (credit_all arithmetic k rankings d)
        ≡ score_of k chunk_id rankings (lookup chunk_id d)
  unfolding credit_all score_of
  lookup-credit_all chunk_id k [] d = refl
  lookup-credit_all chunk_id k (ranking ∷ rankings) d =
      lookup-credit_all chunk_id k rankings (credit_ranking arithmetic k 1 ranking d)
      ∙ ap (score_of k chunk_id rankings) (lookup-credit_ranking chunk_id k 1 ranking d)

  -- No chunk has two entries.
  All-credit :
      (k j : String) (x : S) (d : List (String × S))
      → str_eq j k ≡ false
      → All (λ y. str_eq (id_of y) k ≡ false) d
      → All (λ y. str_eq (id_of y) k ≡ false) (credit arithmetic j x d)
  unfolding credit
  All-credit k j x [] other all = (other, tt)
  All-credit k j x ((i, s) ∷ d) other all = elim (Bool-cases (str_eq i j)) [
    | inl same ↦ rw same all
    | inr differ ↦ rw differ (all.0, All-credit k j x d other all.1)
  ]

  Unique-credit :
      (j : String) (x : S) (d : List (String × S))
      → Unique id_of d
      → Unique id_of (credit arithmetic j x d)
  unfolding credit
  Unique-credit j x [] u = (tt, tt)
  Unique-credit j x ((i, s) ∷ d) u = elim (Bool-cases (str_eq i j)) [
    | inl same ↦ rw same u
    | inr differ ↦ rw differ (
      All-credit i j x d (ground (arith, differ, eq_iff i j, eq_iff j i)) u.0,
      Unique-credit j x d u.1,
    )
  ]

  Unique-credit_ranking :
      (k rank : ℕ) (ranking : List String) (d : List (String × S))
      → Unique id_of d
      → Unique id_of (credit_ranking arithmetic k rank ranking d)
  unfolding credit_ranking
  Unique-credit_ranking k rank [] d u = u
  Unique-credit_ranking k rank (j ∷ ranking) d u =
      Unique-credit_ranking k (suc rank) ranking _
        (Unique-credit j (arithmetic.reciprocal (k + rank)) d u)

  pub Unique-credit_all :
      (k : ℕ) (rankings : List (List String)) (d : List (String × S))
      → Unique id_of d
      → Unique id_of (credit_all arithmetic k rankings d)
  unfolding credit_all
  Unique-credit_all k [] d u = u
  Unique-credit_all k (ranking ∷ rankings) d u =
      Unique-credit_all k rankings _ (Unique-credit_ranking k 1 ranking d u)
