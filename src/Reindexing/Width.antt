-- ===== src/Reindexing/Width.antt =====
-- The column of the vectors has no width of its own; what is written through a run has its set's.
use flycanon.Prelude.{
  ℕ, zero, suc, ==_iff, ◌≡◌, true, Option, none, some, List, [], ◌∷◌, inl, inr, map, All, arith,
  Bool-cases,
}
use flycanon.Prelude.Actions.{Outcome, ok, err, Outcome-cases, call-cases}
use flycanon.EmbeddingSets.{Scope, Db}
use flycanon.EmbeddingSets.Service.{EmbeddingSetError, EmbeddingSetBinding, mark}
use flycanon.Reindexing.{
  KnowledgeChunkRow, VectorDocument, VectorRow, State, Host, vector_row, is_vector, upsert_vector,
  upsert_all, have_width, list_for_workspace,
}
use flycanon.Reindexing.Run.{
  ReindexError, Progress, Times, lift, in_sets, record_event, throttle_of, documents, embed,
  upsert_documents, embed_batch, arrive, advance, on_error, after_batch, turn, walk,
}
use flycanon.Reindexing.Walk.{List-cases}

module _ {V : Type 0} (host : Host V) where
  abbrev pub HasWidth : VectorRow V → Type 0
  HasWidth r = host.width r.embedding ≡ r.dim

  -- Every vector that is stored has the width that its row declares.
  abbrev pub IsTyped : State V → Type 0
  IsTyped s = All HasWidth s.vectors

  upsert_vector-HasWidth :
      (row : VectorRow V) (rows : List (VectorRow V))
      → HasWidth row
      → All HasWidth rows
      → All HasWidth (upsert_vector host row rows)
  unfolding upsert_vector
  upsert_vector-HasWidth row [] h all = (h, tt)
  upsert_vector-HasWidth row (r ∷ rows) h all = elim (Bool-cases (is_vector row.set_id row.id r)) [
    | inl same ↦ rw same (h, all.1)
    | inr other ↦ rw other (all.0, upsert_vector-HasWidth row rows h all.1)
  ]

  upsert_all-HasWidth :
      (scope : Scope) (binding : EmbeddingSetBinding) (ds : List (VectorDocument V))
      (rows : List (VectorRow V))
      → have_width host binding.dimensions ds ≡ true
      → All HasWidth rows
      → All HasWidth (upsert_all host scope binding ds rows)
  unfolding upsert_all
  upsert_all-HasWidth scope binding [] rows wide all = all
  upsert_all-HasWidth scope binding (d ∷ ds) rows wide all =
      upsert_all-HasWidth scope binding ds _ (ground (arith, wide)) (
        upsert_vector-HasWidth (vector_row host scope binding d) rows
          ((==_iff (host.width d.embedding) binding.dimensions).0 (ground (arith, wide))) all)

  pub embed_batch-IsTyped :
      (scope : Scope) (binding : EmbeddingSetBinding) (batch : List KnowledgeChunkRow) (s : State V)
      → IsTyped s
      → IsTyped (embed_batch host scope binding batch s).1
  unfolding embed_batch embed lift upsert_documents
  embed_batch-IsTyped scope binding batch s typed =
      elim (Outcome-cases (host.embed s.ticks (map (λ c. c.content) batch))) [
        | inr (e, refused) ↦ rw refused typed
        | inl (vectors, answered) ↦ elim (Outcome-cases (documents host batch vectors)) [
          | inr (e, mismatch) ↦ rw (answered, mismatch) typed
          | inl (ds, zipped) ↦ elim (Bool-cases (have_width host binding.dimensions ds)) [
            | inr narrow ↦ rw (answered, zipped, narrow) typed
            | inl wide ↦
                rw (answered, zipped, wide)
                  (upsert_all-HasWidth scope binding ds s.vectors wide typed)
          ]
        ]
      ]

  pub in_sets-IsTyped :
      {A : Type 0} (s : State V) (r : Outcome EmbeddingSetError A × Db)
      → IsTyped s
      → IsTyped (in_sets s r).1
  unfolding in_sets
  in_sets-IsTyped s (ok a, db) typed = typed
  in_sets-IsTyped s (err e, db) typed = typed

  module _ (scope : Scope) (binding : EmbeddingSetBinding) (times : Times)
      (batch_size total : ℕ) where
    on_error-IsTyped :
        (p : Progress) (e : ReindexError) (retry : Option (Option ℕ)) (s : State V)
        → IsTyped s
        → IsTyped (on_error host scope binding times batch_size total p e retry s).1
    unfolding on_error record_event in_sets mark
    on_error-IsTyped p e none s typed = typed
    on_error-IsTyped p e (some retry_after) s typed = typed

    pub walk-IsTyped :
        (fuel : ℕ) (p : Progress) (s : State V)
        → IsTyped s
        → IsTyped (walk host scope binding times batch_size total fuel p s).1
    unfolding walk turn after_batch arrive advance record_event
    walk-IsTyped zero p s typed = typed
    walk-IsTyped (suc fuel) p s typed =
        elim (List-cases
          (list_for_workspace host scope p.last_chunk_id batch_size (arrive host s).chunks)) [
            | inl empty ↦ rw empty typed
            | inr (c, page, e) ↦
                elim (call-cases IsTyped (embed_batch host scope binding (c ∷ page) (arrive host s))
                  (embed_batch-IsTyped scope binding (c ∷ page) (arrive host s) typed)) [
                    | inl (n, s1, embedded, typed1) ↦
                        rw (e, embedded) (walk-IsTyped fuel _ _ typed1)
                    | inr (error, s1, refused, typed1) ↦
                        rw (e, refused) (on_error-IsTyped p error (throttle_of error) s1 typed1)
                  ]
          ]
