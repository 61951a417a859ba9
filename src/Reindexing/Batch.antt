-- ===== src/Reindexing/Batch.antt =====
-- What `_embed_batch` does where it raises nothing, by an embedder that gives each text its vector.
use flycanon.Prelude.{
  ℕ, suc, ◌≡◌, refl, ap, ◌∙◌, String, true, false, List, [], ◌∷◌, ◌⊎◌, inl, inr, map, length,
  length-map, All, Bool-cases,
}
use flycanon.Prelude.Actions.{ok, err, Outcome-cases}
use flycanon.EmbeddingSets.{Scope}
use flycanon.EmbeddingSets.Service.{EmbeddingSetBinding}
use flycanon.Reindexing.{
  KnowledgeChunkRow, chunk_key, VectorDocument, State, EmbeddingError, Host, embedding_model,
  upsert_all, have_width, stamp_embedding_model,
}
use flycanon.Reindexing.Run.{
  document, ReindexError, embedding_error, wrong_width, documents, lift, embed, upsert_documents,
  embed_batch,
}
use flycanon.Reindexing.Vectors.{IsRight}

abbrev pub one_call_later : {V : Type 0} → State V → State V
one_call_later s = record s { ticks = suc s.ticks }

module _ {V : Type 0} (host : Host V) (vector_of : String → V) where
  abbrev pub batch_documents : List KnowledgeChunkRow → List (VectorDocument V)
  batch_documents batch = map (λ c. document host c (vector_of c.content)) batch

  documents-map :
      (batch : List KnowledgeChunkRow)
      → documents host batch (map vector_of (map (λ c. c.content) batch))
        ≡ ok (batch_documents batch)
  unfolding documents
  documents-map [] = refl
  documents-map (c ∷ batch) = rw (documents-map batch) refl

  abbrev pub after_embedding :
      Scope → EmbeddingSetBinding → List KnowledgeChunkRow → State V → State V
  after_embedding scope binding batch s = record s {
    vectors = upsert_all host scope binding (batch_documents batch) s.vectors;
    chunks = stamp_embedding_model (map chunk_key batch) (embedding_model binding) s.chunks;
    ticks = suc s.ticks;
  }

  pub batch_documents-IsRight :
      (content_of : String → String) (scope : Scope) (binding : EmbeddingSetBinding)
      (batch : List KnowledgeChunkRow)
      → All (λ c. c.content ≡ content_of c.id) batch
      → All (IsRight host content_of vector_of scope binding) (batch_documents batch)
  batch_documents-IsRight content_of scope binding [] h = tt
  batch_documents-IsRight content_of scope binding (c ∷ batch) h =
      ((h.0, ap vector_of h.0), batch_documents-IsRight content_of scope binding batch h.1)

  pub map-batch_documents :
      (batch : List KnowledgeChunkRow)
      → map (λ d. d.id) (batch_documents batch) ≡ map chunk_key batch
  map-batch_documents [] = refl
  map-batch_documents (c ∷ batch) = ap (◌∷◌ c.id) (map-batch_documents batch)

module _ {V : Type 0} (host : Host V) (vector_of : String → V)
    (pointwise : (tick : ℕ) (texts : List String) (vectors : List V)
      → host.embed tick texts ≡ ok vectors
      → vectors ≡ map vector_of texts)
    (scope : Scope) (binding : EmbeddingSetBinding) where
  pub embed_batch-ok :
      (batch : List KnowledgeChunkRow) (s : State V)
      → host.embed s.ticks (map (λ c. c.content) batch)
        ≡ ok (map vector_of (map (λ c. c.content) batch))
      → have_width host binding.dimensions (batch_documents host vector_of batch) ≡ true
      → embed_batch host scope binding batch s
        ≡ (ok (length batch), after_embedding host vector_of scope binding batch s)
  unfolding embed_batch embed lift upsert_documents
  embed_batch-ok batch s embedded wide =
      rw (embedded, documents-map host vector_of batch, wide, length-map) refl

  embed_batch-narrow :
      (batch : List KnowledgeChunkRow) (s : State V)
      → host.embed s.ticks (map (λ c. c.content) batch)
        ≡ ok (map vector_of (map (λ c. c.content) batch))
      → have_width host binding.dimensions (batch_documents host vector_of batch) ≡ false
      → embed_batch host scope binding batch s ≡ (err wrong_width, one_call_later s)
  unfolding embed_batch embed lift upsert_documents
  embed_batch-narrow batch s embedded narrow =
      rw (embedded, documents-map host vector_of batch, narrow) refl

  embed_batch-err :
      (batch : List KnowledgeChunkRow) (s : State V) {e : EmbeddingError}
      → host.embed s.ticks (map (λ c. c.content) batch) ≡ err e
      → embed_batch host scope binding batch s ≡ (err (embedding_error e), one_call_later s)
  unfolding embed_batch embed lift
  embed_batch-err batch s refused = rw refused refl

  -- A batch is embedded whole, or nothing of it is written.
  pub embed_batch-cases :
      (batch : List KnowledgeChunkRow) (s : State V)
      → (embed_batch host scope binding batch s
          ≡ (ok (length batch), after_embedding host vector_of scope binding batch s))
        ⊎ ((e : ReindexError) × (embed_batch host scope binding batch s
              ≡ (err e, one_call_later s)))
  embed_batch-cases batch s =
      elim (Outcome-cases (host.embed s.ticks (map (λ c. c.content) batch))) [
        | inl (vectors, e) ↦
            let same = pointwise s.ticks (map (λ c. c.content) batch) vectors e in
            let e' = e ∙ ap ok same in
            elim (Bool-cases
              (have_width host binding.dimensions (batch_documents host vector_of batch))) [
                | inl wide ↦ inl (embed_batch-ok batch s e' wide)
                | inr narrow ↦ inr (wrong_width, embed_batch-narrow batch s e' narrow)
              ]
        | inr (e, refused) ↦ inr (embedding_error e, embed_batch-err batch s refused)
      ]
