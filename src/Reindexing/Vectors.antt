-- ===== src/Reindexing/Vectors.antt =====
-- A batch that is embedded is in the set, and the vectors that were there stay right.
use flycanon.Prelude.{
  if◌then◌else◌, ◌≡◌, refl, ap, ◌∙◌, String, str_eq, eq_refl, eq_iff, Bool, true, false, Option,
  some, List, [], ◌∷◌, ◌⊎◌, inl, inr, map, All, arith, Bool-cases,
}
use flycanon.Table.{select}
use flycanon.EmbeddingSets.{Scope}
use flycanon.EmbeddingSets.Service.{EmbeddingSetBinding}
use flycanon.Reindexing.{
  VectorDocument, VectorRow, Host, elem, is_vector, vector_row, upsert_vector, upsert_all,
}

module _ {V : Type 0} (host : Host V) where
  select-upsert_vector :
      (set_id id : String) (row : VectorRow V) (rows : List (VectorRow V))
      → select (is_vector set_id id) (upsert_vector host row rows)
        ≡ (if is_vector set_id id row then some row else select (is_vector set_id id) rows)
  unfolding upsert_vector select
  select-upsert_vector set_id id row [] = refl
  select-upsert_vector set_id id row (r ∷ rows) =
      elim (Bool-cases (is_vector row.set_id row.id r)) [
        | inl same ↦
            let same_key : is_vector set_id id r ≡ is_vector set_id id row =
              ground (arith, same, eq_iff r.set_id row.set_id, eq_iff r.id row.id) in
            rw (same, same_key)
              (settle (is_vector set_id id row) (select (is_vector set_id id) rows))
        | inr other ↦ elim (Bool-cases (is_vector set_id id r)) [
          | inl here ↦
              let differ : is_vector set_id id row ≡ false = ground (
                arith,
                other,
                here,
                eq_iff r.set_id row.set_id,
                eq_iff r.id row.id,
                eq_iff r.set_id set_id,
                eq_iff r.id id,
                eq_iff row.set_id set_id,
                eq_iff row.id id,
              ) in
              rw (other, here, differ) refl
          | inr there ↦ rw (other, there) (select-upsert_vector set_id id row rows)
        ]
      ]
    where
      settle :
          (b : Bool) (found : Option (VectorRow V))
          → (if b then some row else found)
            ≡ (if b then some row else (if b then some r else found))
      settle true found = refl
      settle false found = refl

module _ {V : Type 0} (host : Host V) (content_of : String → String) (vector_of : String → V)
    (scope : Scope) (binding : EmbeddingSetBinding) where
  -- The set has the vector of the chunk's content under the chunk's id.
  abbrev pub IsEmbedded : List (VectorRow V) → String → Type 0
  IsEmbedded vectors id =
      (r : VectorRow V) × (select (is_vector binding.set_id id) vectors ≡ some r)
      × (r.text ≡ content_of id)
      × (r.embedding ≡ vector_of (content_of id))

  abbrev pub IsRight : VectorDocument V → Type 0
  IsRight d = (d.text ≡ content_of d.id) × (d.embedding ≡ vector_of (content_of d.id))

  abbrev written : VectorDocument V → List (VectorRow V) → List (VectorRow V)
  written d vectors = upsert_vector host (vector_row host scope binding d) vectors

  IsEmbedded-written :
      (d : VectorDocument V) (id : String) (vectors : List (VectorRow V))
      → IsRight d
      → (str_eq d.id id ≡ true) ⊎ IsEmbedded vectors id
      → IsEmbedded (written d vectors) id
  IsEmbedded-written d id vectors right h =
      let row = vector_row host scope binding d in
      let found = select-upsert_vector host binding.set_id id row vectors in
      elim (Bool-cases (str_eq d.id id)) [
        | inl here ↦
            let same : d.id ≡ id = (eq_iff d.id id).0 here in
            (
              row,
              found ∙ rw (eq_refl binding.set_id, here) refl,
              right.0 ∙ ap content_of same,
              right.1 ∙ ap (λ k. vector_of (content_of k)) same,
            )
        | inr there ↦ kept there h found
      ]
    where
      kept :
          str_eq d.id id ≡ false
          → (str_eq d.id id ≡ true) ⊎ IsEmbedded vectors id
          → select (is_vector binding.set_id id) (written d vectors) ≡ (
              if is_vector binding.set_id id (vector_row host scope binding d)
              then some (vector_row host scope binding d)
              else select (is_vector binding.set_id id) vectors)
          → IsEmbedded (written d vectors) id
      kept there (inl here) found = absurd (ground (arith, there, here))
      kept there (inr (r, e, same_text, same_vector)) found =
          (r, found ∙ rw (eq_refl binding.set_id, there) e, same_text, same_vector)

  pub IsEmbedded-upsert_all :
      (ds : List (VectorDocument V)) (id : String) (vectors : List (VectorRow V))
      → All IsRight ds
      → (elem id (map (λ d. d.id) ds) ≡ true) ⊎ IsEmbedded vectors id
      → IsEmbedded (upsert_all host scope binding ds vectors) id
  unfolding upsert_all
  IsEmbedded-upsert_all [] id vectors right (inl e) = cc
  IsEmbedded-upsert_all [] id vectors right (inr e) = e
  IsEmbedded-upsert_all (d ∷ ds) id vectors right h =
      IsEmbedded-upsert_all ds id (written d vectors) right.1 (elim (Bool-cases (str_eq d.id id)) [
        | inl here ↦ inr (IsEmbedded-written d id vectors right.0 (inl here))
        | inr there ↦ later there h
      ])
    where
      later :
          str_eq d.id id ≡ false
          → (elem id (map (λ d. d.id) (d ∷ ds)) ≡ true) ⊎ IsEmbedded vectors id
          → (elem id (map (λ d. d.id) ds) ≡ true) ⊎ IsEmbedded (written d vectors) id
      later there (inl e) = inl (ground (arith, there, e))
      later there (inr e) = inr (IsEmbedded-written d id vectors right.0 (inr e))
