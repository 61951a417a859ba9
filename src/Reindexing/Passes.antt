-- ===== src/Reindexing/Passes.antt =====
-- The turns of the catch-up pass.
use flycanon.Prelude.{
  ℕ, zero, suc, ◌+◌, ◌≡◌, refl, sym, ap, ◌∙◌, ◌++◌, append-nil, subst, String, true, Option, some,
  List, [], ◌∷◌, ◌⊎◌, inl, inr, map, filter, All, All-filter, All-imp, All-zip, arith, Bool-cases,
}
use flycanon.Prelude.Actions.{ok, Ensures, Ensures-and_then, return}
use flycanon.EmbeddingSets.{Scope}
use flycanon.EmbeddingSets.Service.{Host as SetHost, CanonSettings, EmbeddingSetBinding}
use flycanon.Reindexing.{
  KnowledgeChunkRow, chunk_key, State, VectorRow, Host, in_workspace, embedding_model, is_stale,
  elem, last_id, is_after, list_for_workspace, upsert_all, stamp_embedding_model,
}
use flycanon.Reindexing.Run.{ReindexError, Times, embed_batch, arrive_late}
use flycanon.Reindexing.Workspace.{embed_stale, catch_turn, catch_up}
use flycanon.Reindexing.Pages.{IsOrder, page_rule, last_page, All-page}
use flycanon.Reindexing.Batch.{batch_documents, after_embedding, embed_batch-cases}
use flycanon.Reindexing.Cursors.{IsIn, IsKnown-stamped, IsSettled-stamped}
use flycanon.Reindexing.Walk.{List-cases}
use flycanon.Reindexing.CatchUp.{
  elem-rule, stamp-nothing, In, Caught, KnownHere, SettledBy, page_settled, page_moves_on,
}

module _ {V : Type 0} (host : Host V) (order : IsOrder host.id_after) (content_of : String → String)
    (vector_of : String → V) (scope : Scope) (binding : EmbeddingSetBinding) where
  abbrev KnownChunk : KnowledgeChunkRow → Type 0
  KnownChunk = KnownHere host order content_of vector_of scope binding

  abbrev SettledChunk : List (VectorRow V) → KnowledgeChunkRow → Type 0
  SettledChunk = SettledBy host order content_of vector_of scope binding

  abbrev CaughtUp : Option String → List (VectorRow V) → KnowledgeChunkRow → Type 0
  CaughtUp = Caught host order content_of vector_of scope binding

  abbrev InSet : List (VectorRow V) → String → Type 0
  InSet = In host order content_of vector_of scope binding

  module _
      (pointwise : (tick : ℕ) (texts : List String) (vectors : List V)
        → host.embed tick texts ≡ ok vectors
        → vectors ≡ map vector_of texts)
      (sets : SetHost) (settings : CanonSettings) (times : Times) (n total : ℕ) where
    embed_stale-some :
        (s : State V) {batch : List KnowledgeChunkRow} {d : KnowledgeChunkRow}
        {rows : List KnowledgeChunkRow}
        → batch ≡ d ∷ rows
        → embed_stale host sets settings scope binding times (suc n) total batch s
          ≡ embed_batch host scope binding batch s
    unfolding embed_stale
    embed_stale-some s e = rw e refl

    -- The chunks before a turn of the pass.
    pub record IsCatching (last : Option String) (s : State V) : Type 0 where
      pub known : All KnownChunk s.chunks
      pub settled : All (SettledChunk s.vectors) s.chunks
      pub caught : All (CaughtUp last s.vectors) s.chunks

    abbrev pub IsFull : State V → Type 0
    IsFull s = All (IsIn host order content_of vector_of scope binding s.vectors) s.chunks

    module _ (last : Option String) (s : State V) (at_ : IsCatching last s) {c : KnowledgeChunkRow}
        {page : List KnowledgeChunkRow}
        (e : list_for_workspace host scope last (suc n) s.chunks ≡ c ∷ page) where
      abbrev stale : List KnowledgeChunkRow
      stale = filter (is_stale binding) (c ∷ page)

      known_stale : All KnownChunk stale
      known_stale =
          All-imp _ KnownChunk stale (λ d both. both.0)
            (All-filter KnownChunk (is_stale binding) (c ∷ page) (
              subst (All KnownChunk) e (
                All-imp _ KnownChunk (list_for_workspace host scope last (suc n) s.chunks)
                  (λ d both. both.0)
                  (All-page host order KnownChunk scope last (suc n) s.chunks at_.known))))

      on_page :
          (id : String)
          → elem id (map chunk_key (c ∷ page)) ≡ true
          → (elem id (map chunk_key stale) ≡ true) ⊎ InSet s.vectors id
      on_page id =
          elem-rule (λ k. (elem k (map chunk_key stale) ≡ true) ⊎ InSet s.vectors k) id (c ∷ page)
            (page_settled host order content_of vector_of scope binding s.vectors (c ∷ page) (
              subst (All (λ d. SettledChunk s.vectors d × (in_workspace scope d ≡ true))) e (
                All-imp _ _ (list_for_workspace host scope last (suc n) s.chunks)
                  (λ d both. (both.0, ground (arith, both.1)))
                  (All-page host order (SettledChunk s.vectors) scope last (suc n) s.chunks
                    at_.settled))))

      IsCatching-embedded :
          IsCatching (some (last_id c page)) (after_embedding host vector_of scope binding stale s)
      IsCatching-embedded = record {
        known =
            IsKnown-stamped host order content_of vector_of scope binding stale known_stale s.chunks
              at_.known;
        settled =
            IsSettled-stamped host order content_of vector_of scope binding stale known_stale
              s.vectors s.chunks at_.settled;
        caught =
            page_moves_on host order content_of vector_of scope binding c page stale known_stale
              last s.vectors s.chunks on_page (page_rule host order scope last n s.chunks e)
              at_.caught;
      }

      IsCatching-fresh : stale ≡ [] → IsCatching (some (last_id c page)) s
      unfolding upsert_all
      IsCatching-fresh none_stale =
          let moved = IsCatching-embedded in
          let same : stamp_embedding_model (map chunk_key stale) (embedding_model binding) s.chunks
              ≡ s.chunks =
            rw none_stale (stamp-nothing (embedding_model binding) s.chunks) in
          let vectors_same : upsert_all host scope binding (batch_documents host vector_of stale)
                s.vectors
              ≡ s.vectors =
            rw none_stale refl in
          record {
            known = at_.known;
            settled = at_.settled;
            caught =
                subst (λ v. All (CaughtUp (some (last_id c page)) v) s.chunks) vectors_same
                  (subst
                    (All (
                      CaughtUp (some (last_id c page)) (
                        upsert_all host scope binding (batch_documents host vector_of stale)
                          s.vectors)))
                    same moved.caught);
          }

      embed_stale-IsCatching :
          Ensures
            (λ _ s'. IsCatching (some (last_id c page)) s')
            (embed_stale host sets settings scope binding times (suc n) total stale s)
      unfolding embed_stale
      embed_stale-IsCatching = elim (List-cases stale) [
        | inl none_stale ↦ rw none_stale (IsCatching-fresh none_stale)
        | inr (d, rows, e') ↦
            let whole = embed_stale-some s e' in
            elim (embed_batch-cases host vector_of pointwise scope binding stale s) [
              | inl embedded ↦ rw (whole, embedded) IsCatching-embedded
              | inr (error, refused) ↦ rw (whole, refused) tt
            ]
      ]

    IsCatching-arrive_late :
        (last : Option String) (s : State V)
        → host.late s.ticks ≡ []
        → IsCatching last s
        → IsCatching last (arrive_late host s)
    unfolding arrive_late
    IsCatching-arrive_late last s still at_ =
        let same : s.chunks ≡ s.chunks ++ host.late s.ticks =
          sym (ap (◌++◌ s.chunks) still ∙ append-nil s.chunks) in
        record {
          known = subst (All KnownChunk) same at_.known;
          settled = subst (All (SettledChunk s.vectors)) same at_.settled;
          caught = subst (All (CaughtUp last s.vectors)) same at_.caught;
        }

    ends_complete :
        (last : Option String) (s : State V)
        → IsCatching last s
        → list_for_workspace host scope last (suc n) s.chunks ≡ []
        → IsFull s
    ends_complete last s at_ e =
        All-zip (CaughtUp last s.vectors) _
          (IsIn host order content_of vector_of scope binding s.vectors) s.chunks
          (λ c caught none_left here. elim (Bool-cases (is_after host last c.id)) [
            | inl ahead_ ↦ absurd (none_left (rw (here, ahead_) refl))
            | inr behind ↦ caught here behind
          ])
          at_.caught (last_page host order scope last n s.chunks e)

    pub catch_up-IsFull :
        (still : (tick : ℕ) → host.late tick ≡ []) (fuel : ℕ) (last : Option String) (s : State V)
        → IsCatching last s
        → Ensures
            (λ _ s'. IsFull s')
            (catch_up host sets settings scope binding times (suc n) total fuel last s)
    unfolding catch_up catch_turn
    catch_up-IsFull still zero last s at_ = tt
    catch_up-IsFull still (suc fuel) last s before =
        let s0 = arrive_late host s in
        let at_ = IsCatching-arrive_late last s (still s.ticks) before in
        elim (List-cases (list_for_workspace host scope last (suc n) s0.chunks)) [
          | inl empty ↦ rw empty (ends_complete last s0 at_ empty)
          | inr (c, page, e) ↦ rw e (
              Ensures-and_then (λ _ s'. IsCatching (some (last_id c page)) s') (λ _ s'. IsFull s')
                (embed_stale host sets settings scope binding times (suc n) total
                  (filter (is_stale binding) (c ∷ page)) s0)
                _ (embed_stale-IsCatching last s0 at_ e)
                (λ caught s1 at1.
                  Ensures-and_then {E = ReindexError} {A = ℕ} {B = ℕ} (λ _ s'. IsFull s')
                    (λ _ s'. IsFull s')
                    (catch_up host sets settings scope binding times (suc n) total fuel
                      (some (last_id c page)) s1)
                    (λ rest. return (caught + rest))
                    (catch_up-IsFull still fuel (some (last_id c page)) s1 at1)
                    (λ rest s2 full. full)))
        ]
