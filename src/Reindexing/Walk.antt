-- ===== src/Reindexing/Walk.antt =====
-- The walk over a workspace: what its cursors say holds of every chunk, whatever is ingested meanwhile.
use flycanon.Prelude.{
  ℕ, zero, suc, ◌≡◌, refl, ◌∙◌, subst, String, true, Option, none, some, List, [], ◌∷◌, ◌++◌, ◌⊎◌,
  inl, inr, map, length, All, All-append, All-imp, All-zip, Bool-cases,
}
use flycanon.Prelude.Actions.{ok, Ensures}
use flycanon.EmbeddingSets.{SetStatus, building, EmbeddingSetRow, Db, Scope, patched, get}
use flycanon.EmbeddingSets.Service.{EmbeddingSetBinding, binding_of, mark}
use flycanon.EmbeddingSets.Switch.{get-marked_counts}
use flycanon.Reindexing.{
  KnowledgeChunkRow, IngestJobRow, job_key, State, VectorRow, Host, in_workspace, is_stale, last_id,
  is_after, list_for_workspace,
}
use flycanon.Reindexing.Run.{
  ReindexError, Progress, Walked, through, paused, Times, in_sets, record_event, throttle_of,
  arrive, advance, moved, pause, on_error, after_batch, turn, walk,
}
use flycanon.Reindexing.Workspace.{is_reindex_of, resumed}
use flycanon.Reindexing.Pages.{IsOrder, page_rule, last_page, All-page}
use flycanon.Reindexing.Batch.{after_embedding, one_call_later, embed_batch-cases}
use flycanon.Reindexing.Cursors.{
  All-upsert, IsKnown, IsSettled, IsPassed, IsKnown-stamped, IsPassed-stamped, IsPassed-moved,
}

-- A mark does not touch what a set is bound by.
binding-patched :
    (status : SetStatus) (now : ℕ) (vectors chunks : Option ℕ) (r : EmbeddingSetRow)
    → binding_of (patched status now vectors chunks r) ≡ binding_of r
unfolding patched
binding-patched status now vectors chunks r = refl

pub List-cases :
    {A : Type 0} (xs : List A) → (xs ≡ []) ⊎ ((x : A) × (rest : List A) × (xs ≡ x ∷ rest))
List-cases [] = inl refl
List-cases (x ∷ xs) = inr (x, xs, refl)

module _ {V : Type 0} (host : Host V) (order : IsOrder host.id_after) (content_of : String → String)
    (vector_of : String → V)
    (pointwise : (tick : ℕ) (texts : List String) (vectors : List V)
      → host.embed tick texts ≡ ok vectors
      → vectors ≡ map vector_of texts)
    (scope : Scope) (binding : EmbeddingSetBinding) where
  abbrev pub Known : KnowledgeChunkRow → Type 0
  Known = IsKnown host order content_of vector_of scope binding

  abbrev pub Passed : Option String → List (VectorRow V) → KnowledgeChunkRow → Type 0
  Passed = IsPassed host order content_of vector_of scope binding

  abbrev pub Settled : List (VectorRow V) → KnowledgeChunkRow → Type 0
  Settled = IsSettled host order content_of vector_of scope binding

  -- A job of the set has settled the chunks that its cursor has passed.
  abbrev pub IsHonest : List (VectorRow V) → List KnowledgeChunkRow → IngestJobRow → Type 0
  IsHonest vectors chunks job =
      is_reindex_of binding.set_id job ≡ true
      → All (Passed (resumed job).last_chunk_id vectors) chunks

  -- The set has a row, and the binding is that of the row.
  abbrev pub Stands : Db → Type 0
  Stands db =
      (r : EmbeddingSetRow) × (get scope binding.set_id db ≡ some r) × (binding_of r ≡ binding)

  pub record IsSound (s : State V) : Type 0 where
    pub known : All Known s.chunks
    pub honest : All (IsHonest s.vectors s.chunks) s.jobs
    pub stands : Stands s.sets

  pub record IsAt (last : Option String) (s : State V) : Type 0 where
    pub sound : IsSound s
    pub passed : All (Passed last s.vectors) s.chunks

  -- A chunk that is ingested meanwhile does not carry the stamp of the new set's model.
  abbrev pub IsForeign : KnowledgeChunkRow → Type 0
  IsForeign c = Known c × (in_workspace scope c ≡ true → is_stale binding c ≡ true)

  Passed-arrived :
      (last : Option String) (vectors : List (VectorRow V)) (chunks new : List KnowledgeChunkRow)
      → All IsForeign new
      → All (Passed last vectors) chunks
      → All (Passed last vectors) (chunks ++ new)
  Passed-arrived last vectors chunks new foreign passed =
      All-append (Passed last vectors) chunks new passed
        (All-imp IsForeign (Passed last vectors) new (λ c f here p. inr (f.1 here)) foreign)

  IsAt-arrive :
      (last : Option String) (s : State V)
      → All IsForeign (host.arrivals s.ticks)
      → IsAt last s
      → IsAt last (arrive host s)
  unfolding arrive
  IsAt-arrive last s foreign at_ =
      let new = host.arrivals s.ticks in
      record {
        sound = record {
          known =
              All-append Known s.chunks new at_.sound.known
                (All-imp IsForeign Known new (λ c f. f.0) foreign);
          honest =
              All-imp (IsHonest s.vectors s.chunks) (IsHonest s.vectors (s.chunks ++ new)) s.jobs
                (λ j h mine.
                  Passed-arrived (resumed j).last_chunk_id s.vectors s.chunks new foreign (h mine))
                at_.sound.honest;
          stands = at_.sound.stands;
        };
        passed = Passed-arrived last s.vectors s.chunks new foreign at_.passed;
      }

  IsSound-embedded :
      (batch : List KnowledgeChunkRow) (s : State V)
      → All Known batch
      → IsSound s
      → IsSound (after_embedding host vector_of scope binding batch s)
  IsSound-embedded batch s known sound = record {
    known =
        IsKnown-stamped host order content_of vector_of scope binding batch known s.chunks
          sound.known;
    honest =
        All-imp (IsHonest s.vectors s.chunks) _ s.jobs
          (λ j h mine.
            IsPassed-stamped host order content_of vector_of scope binding batch known
              (resumed j).last_chunk_id s.vectors s.chunks (h mine))
          sound.honest;
    stands = sound.stands;
  }

  pub known_page :
      (last : Option String) (n : ℕ) (chunks : List KnowledgeChunkRow) {c : KnowledgeChunkRow}
      {page : List KnowledgeChunkRow}
      → list_for_workspace host scope last n chunks ≡ c ∷ page
      → All Known chunks
      → All Known (c ∷ page)
  known_page last n chunks e known = subst (All Known) e (
      All-imp _ Known (list_for_workspace host scope last n chunks) (λ d both. both.0)
        (All-page host order Known scope last n chunks known))

  IsAt-embedded :
      (last : Option String) (n : ℕ) (s : State V) {c : KnowledgeChunkRow}
      {page : List KnowledgeChunkRow}
      → list_for_workspace host scope last (suc n) s.chunks ≡ c ∷ page
      → IsAt last s
      → IsAt (some (last_id c page)) (after_embedding host vector_of scope binding (c ∷ page) s)
  IsAt-embedded last n s {c} {page} e at_ =
      let known = known_page last (suc n) s.chunks e at_.sound.known in
      record {
        sound = IsSound-embedded (c ∷ page) s known at_.sound;
        passed =
            IsPassed-moved host order content_of vector_of scope binding c page known last s.vectors
              s.chunks (page_rule host order scope last n s.chunks e) at_.passed;
      }

  module _ (times : Times) (n total : ℕ)
      (foreign : (tick : ℕ) → All IsForeign (host.arrivals tick)) where
    IsAt-advance :
        (p : Progress) (last : String) (written : ℕ) (s : State V)
        → IsAt (some last) s
        → let p' = moved host scope binding times (suc n) total p last written in
          IsAt (some last) (advance host scope binding times (suc n) total p'.job s)
    unfolding advance record_event
    IsAt-advance p last written s at_ = record {
      sound = record {
        known = at_.sound.known;
        honest =
            All-upsert (IsHonest s.vectors s.chunks) job_key _ s.jobs (λ mine. at_.passed)
              at_.sound.honest;
        stands = at_.sound.stands;
      };
      passed = at_.passed;
    }

    -- A walk that went through has settled every chunk; one that paused has left the cursors honest.
    abbrev pub IsWalked : Walked → State V → Type 0
    IsWalked (through p) s = IsSound s × All (Settled s.vectors) s.chunks
    IsWalked (paused p) s = IsSound s

    pause-IsWalked :
        (p : Progress) (retry_after : Option ℕ) (s : State V)
        → IsSound s
        → Ensures IsWalked (pause host scope binding times (suc n) total p retry_after s)
    unfolding in_sets mark record_event
    pause-IsWalked p retry_after s sound =
        let (r, there, same) = sound.stands in
        record {
          known = sound.known;
          honest = sound.honest;
          stands = (
            patched building times.marked (some p.embedded) none r,
            get-marked_counts scope binding.set_id building times.marked (some p.embedded) none
                s.sets there,
            binding-patched building times.marked (some p.embedded) none r ∙ same,
          );
        }

    on_error-IsWalked :
        (p : Progress) (e : ReindexError) (retry : Option (Option ℕ)) (s : State V)
        → IsSound s
        → Ensures IsWalked (on_error host scope binding times (suc n) total p e retry s)
    unfolding on_error
    on_error-IsWalked p e none s sound = tt
    on_error-IsWalked p e (some retry_after) s sound = pause-IsWalked p retry_after s sound

    nothing_left :
        (p : Progress) (s : State V)
        → IsAt p.last_chunk_id s
        → list_for_workspace host scope p.last_chunk_id (suc n) s.chunks ≡ []
        → All (Settled s.vectors) s.chunks
    nothing_left p s at_ e =
        All-zip (Passed p.last_chunk_id s.vectors) _ (Settled s.vectors) s.chunks
          (λ c passed none_left here. elim (Bool-cases (is_after host p.last_chunk_id c.id)) [
            | inl ahead_ ↦ absurd (none_left (rw (here, ahead_) refl))
            | inr behind ↦ passed here behind
          ])
          at_.passed (last_page host order scope p.last_chunk_id n s.chunks e)

    pub walk-IsWalked :
        (fuel : ℕ) (p : Progress) (s : State V)
        → IsAt p.last_chunk_id s
        → Ensures IsWalked (walk host scope binding times (suc n) total fuel p s)
    unfolding walk turn after_batch
    walk-IsWalked zero p s at_ = tt
    walk-IsWalked (suc fuel) p s at_ =
        let s1 = arrive host s in
        let at1 = IsAt-arrive p.last_chunk_id s (foreign s.ticks) at_ in
        elim (List-cases (list_for_workspace host scope p.last_chunk_id (suc n) s1.chunks)) [
          | inl empty ↦ rw empty (at1.sound, nothing_left p s1 at1 empty)
          | inr (c, page, e) ↦
              elim (embed_batch-cases host vector_of pointwise scope binding (c ∷ page) s1) [
                | inl embedded ↦
                    rw (e, embedded)
                      (walk-IsWalked fuel _ _ (
                        IsAt-advance p (last_id c page) (length (c ∷ page)) _
                          (IsAt-embedded p.last_chunk_id n s1 e at1)))
                | inr (error, refused) ↦
                    rw (e, refused)
                      (on_error-IsWalked p error (throttle_of error) (one_call_later s1) (record {
                        known = at1.sound.known;
                        honest = at1.sound.honest;
                        stands = at1.sound.stands;
                      }))
              ]
        ]
