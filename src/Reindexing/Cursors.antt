-- ===== src/Reindexing/Cursors.antt =====
-- What a cursor says of the chunks that it has passed, and how a batch moves it.
use flycanon.Prelude.{
  ◌≡◌, refl, String, str_eq, true, false, Option, some, List, [], ◌∷◌, ◌⊎◌, inl, inr, map, All,
  All-zip, arith, Bool-cases,
}
use flycanon.Table.{upsert, All-update_where}
use flycanon.EmbeddingSets.{Scope}
use flycanon.EmbeddingSets.Service.{EmbeddingSetBinding}
use flycanon.Reindexing.{
  KnowledgeChunkRow, chunk_key, VectorRow, Host, in_workspace, embedding_model, is_stale, elem,
  last_id, is_after, upsert_all, stamp_embedding_model,
}
use flycanon.Reindexing.Pages.{IsOrder, PageOrAfter, ahead}
use flycanon.Reindexing.Vectors.{IsEmbedded, IsEmbedded-upsert_all}
use flycanon.Reindexing.Batch.{batch_documents, batch_documents-IsRight, map-batch_documents}

pub All-upsert {κ} :
    {A : Type 0} (P : A → Type κ) (key : A → String) (row : A) (rows : List A)
    → P row
    → All P rows
    → All P (upsert key row rows)
unfolding upsert
All-upsert P key row [] h all = (h, tt)
All-upsert P key row (r ∷ rows) h all = elim (Bool-cases (str_eq (key r) (key row))) [
  | inl same ↦ rw same (h, all.1)
  | inr other ↦ rw other (all.0, All-upsert P key row rows h all.1)
]

module _ {V : Type 0} (host : Host V) (order : IsOrder host.id_after) (content_of : String → String)
    (vector_of : String → V) (scope : Scope) (binding : EmbeddingSetBinding) where
  abbrev pub IsKnown : KnowledgeChunkRow → Type 0
  IsKnown c = c.content ≡ content_of c.id

  abbrev pub IsIn : List (VectorRow V) → KnowledgeChunkRow → Type 0
  IsIn vectors c =
      in_workspace scope c ≡ true → IsEmbedded host content_of vector_of scope binding vectors c.id

  -- In the set, or left for the catch-up pass.
  abbrev pub IsSettled : List (VectorRow V) → KnowledgeChunkRow → Type 0
  IsSettled vectors c =
      in_workspace scope c ≡ true
      → IsEmbedded host content_of vector_of scope binding vectors c.id
        ⊎ (is_stale binding c ≡ true)

  -- A cursor that has passed the chunk has settled it.
  abbrev pub IsPassed : Option String → List (VectorRow V) → KnowledgeChunkRow → Type 0
  IsPassed last vectors c =
      in_workspace scope c ≡ true
      → is_after host last c.id ≡ false
      → IsEmbedded host content_of vector_of scope binding vectors c.id
        ⊎ (is_stale binding c ≡ true)

  module _ (batch : List KnowledgeChunkRow) (known : All IsKnown batch) where
    abbrev pub with_batch : List (VectorRow V) → List (VectorRow V)
    with_batch = upsert_all host scope binding (batch_documents host vector_of batch)

    abbrev pub keys : List String
    keys = map chunk_key batch

    abbrev pub stamped : List KnowledgeChunkRow → List KnowledgeChunkRow
    stamped = stamp_embedding_model keys (embedding_model binding)

    pub IsEmbedded-batch :
        (id : String) (vectors : List (VectorRow V))
        → (elem id keys ≡ true) ⊎ IsEmbedded host content_of vector_of scope binding vectors id
        → IsEmbedded host content_of vector_of scope binding (with_batch vectors) id
    IsEmbedded-batch id vectors h =
        IsEmbedded-upsert_all host content_of vector_of scope binding
          (batch_documents host vector_of batch) id vectors
          (batch_documents-IsRight host vector_of content_of scope binding batch known)
          (rw (map-batch_documents host vector_of batch) h)

    pub All-stamped :
        (P Q : KnowledgeChunkRow → Type 0) (chunks : List KnowledgeChunkRow)
        → ((c : KnowledgeChunkRow)
            → P c
            → elem c.id keys ≡ true
            → Q (record c { embedding_model = some (embedding_model binding) }))
        → ((c : KnowledgeChunkRow) → P c → elem c.id keys ≡ false → Q c)
        → All P chunks
        → All Q (stamped chunks)
    unfolding stamp_embedding_model
    All-stamped P Q chunks on off all = All-update_where P Q _ _ chunks on off all

    pub IsKnown-stamped :
        (chunks : List KnowledgeChunkRow) → All IsKnown chunks → All IsKnown (stamped chunks)
    IsKnown-stamped chunks = All-stamped IsKnown IsKnown chunks (λ c h _. h) (λ c h _. h)

    settled_still :
        (vectors : List (VectorRow V)) (c : KnowledgeChunkRow)
        → IsEmbedded host content_of vector_of scope binding vectors c.id
          ⊎ (is_stale binding c ≡ true)
        → IsEmbedded host content_of vector_of scope binding (with_batch vectors) c.id
          ⊎ (is_stale binding c ≡ true)
    settled_still vectors c (inl e) = inl (IsEmbedded-batch c.id vectors (inr e))
    settled_still vectors c (inr stale) = inr stale

    -- A batch leaves what a cursor has passed settled.
    pub IsPassed-stamped :
        (last : Option String) (vectors : List (VectorRow V)) (chunks : List KnowledgeChunkRow)
        → All (IsPassed last vectors) chunks
        → All (IsPassed last (with_batch vectors)) (stamped chunks)
    IsPassed-stamped last vectors chunks =
        All-stamped (IsPassed last vectors) (IsPassed last (with_batch vectors)) chunks
          (λ c h on_page here passed. inl (IsEmbedded-batch c.id vectors (inl on_page)))
          (λ c h off here passed. settled_still vectors c (h here passed))

    pub IsSettled-stamped :
        (vectors : List (VectorRow V)) (chunks : List KnowledgeChunkRow)
        → All (IsSettled vectors) chunks
        → All (IsSettled (with_batch vectors)) (stamped chunks)
    IsSettled-stamped vectors chunks =
        All-stamped (IsSettled vectors) (IsSettled (with_batch vectors)) chunks
          (λ c h on_page here. inl (IsEmbedded-batch c.id vectors (inl on_page)))
          (λ c h off here. settled_still vectors c (h here))

  -- The cursor moves to the last chunk of a page that is embedded.
  pub IsPassed-moved :
      (c : KnowledgeChunkRow) (page : List KnowledgeChunkRow) (known : All IsKnown (c ∷ page))
      (last : Option String) (vectors : List (VectorRow V)) (chunks : List KnowledgeChunkRow)
      → All (λ d. ahead host order scope last d ≡ true → PageOrAfter host order c page d) chunks
      → All (IsPassed last vectors) chunks
      → All
          (IsPassed (some (last_id c page)) (with_batch (c ∷ page) known vectors))
          (stamped (c ∷ page) known chunks)
  IsPassed-moved c page known last vectors chunks pages passed =
      All-stamped (c ∷ page) known Before After chunks
        (λ d h on_page here p. inl (IsEmbedded-batch (c ∷ page) known d.id vectors (inl on_page)))
        (λ d h off here p. elim (Bool-cases (is_after host last d.id)) [
          | inl later ↦ absurd (not_beyond d off p (h.1 (rw (here, later) refl)))
          | inr before ↦ settled_still (c ∷ page) known vectors d (h.0 here before)
        ])
        (All-zip (IsPassed last vectors) _ Before chunks (λ d h k. (h, k)) passed pages)
    where
      Before : KnowledgeChunkRow → Type 0
      Before d =
          IsPassed last vectors d
          × (ahead host order scope last d ≡ true → PageOrAfter host order c page d)

      After : KnowledgeChunkRow → Type 0
      After = IsPassed (some (last_id c page)) (with_batch (c ∷ page) known vectors)

      not_beyond :
          (d : KnowledgeChunkRow)
          → elem d.id (map chunk_key (c ∷ page)) ≡ false
          → host.id_after d.id (last_id c page) ≡ false
          → PageOrAfter host order c page d
          → ⊥
      not_beyond d off p (inl on_page) = ground (arith, off, on_page)
      not_beyond d off p (inr later) = ground (arith, p, later)
