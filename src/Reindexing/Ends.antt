-- ===== src/Reindexing/Ends.antt =====
-- Both loops of a run end, where the provider answers and nothing is ingested meanwhile.
use flycanon.Prelude.{
  ℕ, zero, suc, ◌+◌, ◌<◌, ◌==◌, ◌≡◌, refl, ap, ◌∙◌, String, true, Option, some, List, [], ◌∷◌, ◌++◌,
  append-nil, inl, inr, map, filter, length, arith,
}
use flycanon.Prelude.Actions.{ok}
use flycanon.EmbeddingSets.{Scope}
use flycanon.EmbeddingSets.Service.{Host as SetHost, CanonSettings, EmbeddingSetBinding}
use flycanon.Reindexing.{
  KnowledgeChunkRow, chunk_key, State, Host, embedding_model, is_stale, last_id, list_for_workspace,
  have_width,
}
use flycanon.Reindexing.Run.{
  arrive_late, Progress, through, Times, record_event, embed_batch, arrive, advance, moved,
  after_batch, turn, walk,
}
use flycanon.Reindexing.Workspace.{embed_stale, catch_turn, catch_up}
use flycanon.Reindexing.Pages.{IsOrder}
use flycanon.Reindexing.Batch.{batch_documents, after_embedding, embed_batch-ok}
use flycanon.Reindexing.Walk.{List-cases}
use flycanon.Reindexing.Remaining.{
  remaining, remaining-stamped, remaining-last_page, remaining-page,
}

-- The provider answers every call with vectors of the right width, the role of the run may make an
-- index, and nothing is ingested.
pub record IsQuiet {V : Type 0} (host : Host V) (vector_of : String → V) (dimensions : ℕ)
    : Type 0 where
  pub embeds : (tick : ℕ) (texts : List String) → host.embed tick texts ≡ ok (map vector_of texts)
  pub wide : (text : String) → (host.width (vector_of text) == dimensions) ≡ true
  pub nothing_new : (tick : ℕ) → host.arrivals tick ≡ []
  pub nothing_late : (tick : ℕ) → host.late tick ≡ []
  pub indexes : (tick : ℕ) → host.may_index tick ≡ true

module _ {V : Type 0} (host : Host V) (order : IsOrder host.id_after) (vector_of : String → V)
    (pointwise : (tick : ℕ) (texts : List String) (vectors : List V)
      → host.embed tick texts ≡ ok vectors
      → vectors ≡ map vector_of texts)
    (scope : Scope) (binding : EmbeddingSetBinding)
    (quiet : IsQuiet host vector_of binding.dimensions) where
  documents_wide :
      (batch : List KnowledgeChunkRow)
      → have_width host binding.dimensions (batch_documents host vector_of batch) ≡ true
  documents_wide [] = refl
  documents_wide (c ∷ batch) = rw (quiet.wide c.content, documents_wide batch) refl

  embed_batch-quiet :
      (batch : List KnowledgeChunkRow) (s : State V)
      → embed_batch host scope binding batch s
        ≡ (ok (length batch), after_embedding host vector_of scope binding batch s)
  embed_batch-quiet batch s =
      embed_batch-ok host vector_of pointwise scope binding batch s (quiet.embeds _ _)
        (documents_wide batch)

  -- The chunks ahead of any cursor, and the sets, are as they were.
  abbrev pub Keeps : State V → State V → Type 0
  Keeps s t =
      ((last : Option String)
        → remaining host order scope last t.chunks ≡ remaining host order scope last s.chunks)
      × (t.sets ≡ s.sets)

  module _ (times : Times) (n total : ℕ) where
    Keeps-arrive_late : (s : State V) → Keeps s (arrive_late host s)
    unfolding arrive_late
    Keeps-arrive_late s = (
      λ last.
          ap (remaining host order scope last)
            (ap (λ new. s.chunks ++ new) (quiet.nothing_late s.ticks) ∙ append-nil s.chunks),
      refl,
    )

    Keeps-arrive : (s : State V) → Keeps s (arrive host s)
    unfolding arrive
    Keeps-arrive s = (
      λ last.
          ap (remaining host order scope last)
            (ap (λ new. s.chunks ++ new) (quiet.nothing_new s.ticks) ∙ append-nil s.chunks),
      refl,
    )

    Keeps-advance :
        (p : Progress) (last : String) (written : ℕ) (s : State V) (batch : List KnowledgeChunkRow)
        → let p' = moved host scope binding times (suc n) total p last written in
          Keeps s (
            advance host scope binding times
              (suc n)
              total
              p'.job
              (after_embedding host vector_of scope binding batch s))
    unfolding advance record_event
    Keeps-advance p last written s batch = (
      λ l.
          remaining-stamped host order scope l (map chunk_key batch) (embedding_model binding)
            s.chunks,
      refl,
    )

    Keeps-trans : (s t u : State V) → Keeps s t → Keeps t u → Keeps s u
    Keeps-trans s t u h k = (λ last. k.0 last ∙ h.0 last, k.1 ∙ h.1)

    -- What a walk that goes through leaves.
    abbrev pub Through : ℕ → Progress → State V → Type 0
    Through fuel p s =
        (p' : Progress) × (s' : State V) × (walk host scope binding times (suc n) total fuel p s
          ≡ (ok (through p'), s'))
        × Keeps s s'
        × (p.read_any ≡ true → p'.read_any ≡ true)
        × (0 < remaining host order scope p.last_chunk_id s.chunks → p'.read_any ≡ true)

    pub walk_ends :
        (fuel : ℕ) (p : Progress) (s : State V)
        → remaining host order scope p.last_chunk_id s.chunks < fuel
        → Through fuel p s
    unfolding walk turn after_batch
    walk_ends zero p s h = absurd (omega (arith, h))
    walk_ends (suc fuel) p s h =
        let s1 = arrive host s in
        let keeps = Keeps-arrive s in
        elim (List-cases (list_for_workspace host scope p.last_chunk_id (suc n) s1.chunks)) [
          | inl empty ↦
              let none_left =
                remaining-last_page host order scope p.last_chunk_id n s1.chunks empty in
              (
                p,
                s1,
                rw empty refl,
                keeps,
                (λ read. read),
                λ some_left. absurd (omega (arith, some_left, none_left, keeps.0 p.last_chunk_id)),
              )
          | inr (c, page, e) ↦
              let p' =
                moved host scope binding times (suc n) total p (last_id c page)
                  (length (c ∷ page)) in
              let s2 =
                advance host scope binding times (suc n) total p'.job
                  (after_embedding host vector_of scope binding (c ∷ page) s1) in
              let fewer = remaining-page host order scope p.last_chunk_id (suc n) s1.chunks e in
              let kept = Keeps-advance p (last_id c page) (length (c ∷ page)) s1 (c ∷ page) in
              let (q, t, ends, keeps', read, _) = walk_ends fuel p' s2 (
                omega (arith, h, fewer, kept.0 (some (last_id c page)), keeps.0 p.last_chunk_id)) in
              (
                q,
                t,
                rw (e, embed_batch-quiet (c ∷ page) s1) ends,
                Keeps-trans s s1 t keeps (Keeps-trans s1 s2 t kept keeps'),
                (λ _. read refl),
                λ _. read refl,
              )
        ]

    module _ (sets : SetHost) (settings : CanonSettings) where
      embed_stale-Keeps :
          (batch : List KnowledgeChunkRow) (s : State V)
          → (k : ℕ) × (s' : State V) × (embed_stale host sets settings scope binding times
                (suc n)
                total
                batch
                s
              ≡ (ok k, s'))
            × Keeps s s'
      unfolding embed_stale
      embed_stale-Keeps [] s = (0, s, refl, ((λ last. refl), refl))
      embed_stale-Keeps (c ∷ batch) s = (
        length (c ∷ batch),
        after_embedding host vector_of scope binding (c ∷ batch) s,
        embed_batch-quiet (c ∷ batch) s,
        (
          (λ last.
              remaining-stamped host order scope last (map chunk_key (c ∷ batch))
                (embedding_model binding) s.chunks),
          refl,
        ),
      )

      pub catch_up_ends :
          (fuel : ℕ) (last : Option String) (s : State V)
          → remaining host order scope last s.chunks < fuel
          → (k : ℕ) × (s' : State V) × (catch_up host sets settings scope binding times
                (suc n)
                total
                fuel
                last
                s
              ≡ (ok k, s'))
            × Keeps s s'
      unfolding catch_up catch_turn
      catch_up_ends zero last s h = absurd (omega (arith, h))
      catch_up_ends (suc fuel) last s h =
          let s0 = arrive_late host s in
          let kept0 = Keeps-arrive_late s in
          elim (List-cases (list_for_workspace host scope last (suc n) s0.chunks)) [
            | inl empty ↦ (0, s0, rw empty refl, kept0)
            | inr (c, page, e) ↦
                let (k, s1, embedded, kept) =
                  embed_stale-Keeps (filter (is_stale binding) (c ∷ page)) s0 in
                let fewer = remaining-page host order scope last (suc n) s0.chunks e in
                let (rest, s2, ends, kept') =
                  catch_up_ends fuel (some (last_id c page)) s1
                    (omega (arith, h, fewer, kept0.0 last, kept.0 (some (last_id c page)))) in
                (
                  k + rest,
                  s2,
                  rw (e, embedded, ends) refl,
                  Keeps-trans s s0 s2 kept0 (Keeps-trans s0 s1 s2 kept kept'),
                )
          ]
