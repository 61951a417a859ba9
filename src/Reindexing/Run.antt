-- ===== src/Reindexing/Run.antt =====
-- core/services/embeddings/reindex_service.py: a run over one workspace. The steps that only log, print or
-- measure time are left out; every read of the clock is a field of `Times`, and a
-- Boolean of a payload is 1 or 0.
use flycanon.Prelude.{
  ℕ, zero, suc, ◌+◌, String, Bool, true, Option, none, some, List, [], ◌∷◌, ◌++◌, length, map,
  if◌then◌else◌,
}
use flycanon.Prelude.Actions.{Outcome, ok, err, Action, ◌>>=◌, ◌>>◌, return, raise, gets, modify}
use flycanon.Effects.{Value, Payload, null, text, number}
use flycanon.Table.{upsert}
use flycanon.EmbeddingSets.{building, Db, Scope}
use flycanon.EmbeddingSets.Service.{EmbeddingSetError, EmbeddingSetBinding, mark}
use flycanon.Reindexing.{
  KnowledgeChunkRow, chunk_key, Cursor, IngestJobRow, job_key, VectorDocument, State,
  EmbeddingError, throttle, failure, Host, last_id, embedding_model, stamp_embedding_model,
  list_for_workspace, upsert_all, have_width,
}

pub data ReindexError : Type 0 where
  unknown_set : String → ReindexError
  no_job : String → ReindexError
  integrity_error : ReindexError
  embedding_error : EmbeddingError → ReindexError
  length_mismatch : ReindexError
  wrong_width : ReindexError
  unreadable : ℕ → ReindexError
  not_indexed : String → ReindexError
  set_error : EmbeddingSetError → ReindexError
  out_of_fuel : ReindexError

pub data RunStatus : Type 0 where
  throttled : RunStatus
  ready_ : RunStatus

pub record WorkspaceOutcome : Type 0 where
  pub set_id : String
  pub embedded : ℕ
  pub activated : Bool
  pub retired_set_id : Option String
  pub indexed : Bool
  pub status : RunStatus

pub record Progress : Type 0 where
  pub job : IngestJobRow
  pub last_chunk_id : Option String
  pub embedded : ℕ
  pub read_any : Bool

pub data Walked : Type 0 where
  through : Progress → Walked
  paused : Progress → Walked

pub record Times : Type 0 where
  pub opened : ℕ
  pub marked : ℕ
  pub activated : ℕ
  pub retired : ℕ
  pub finished : ℕ

pub record Plan : Type 0 where
  pub provider : String
  pub model : String
  pub dimensions : ℕ
  pub chunk_count : ℕ

unfoldable pub lift : {S A : Type 0} → Outcome EmbeddingError A → S → Outcome ReindexError A × S
lift (ok a) s = (ok a, s)
lift (err e) s = (err (embedding_error e), s)

unfoldable pub in_sets :
    {V A : Type 0} → State V → Outcome EmbeddingSetError A × Db → Outcome ReindexError A × State V
in_sets s (ok a, db) = (ok a, record s { sets = db })
in_sets s (err e, db) = (err (set_error e), record s { sets = db })

abbrev pub on_sets :
    {V A : Type 0} → Action EmbeddingSetError Db A → Action ReindexError (State V) A
on_sets call s = in_sets s (call s.sets)

unfoldable pub record_event :
    {V : Type 0} → Scope → IngestJobRow → String → Payload → State V → State V
record_event scope job stage payload s = record s {
  events =
      s.events
      ++ record {
        job_id = job.id;
        tenant_id = scope.tenant_id;
        workspace_id = scope.workspace_id;
        stage = stage;
        payload = payload;
      }
        ∷ [];
}

abbrev pub throttle_of : ReindexError → Option (Option ℕ)
throttle_of (embedding_error (throttle retry_after)) = some retry_after
throttle_of (embedding_error failure) = none
throttle_of (unknown_set _) = none
throttle_of (no_job _) = none
throttle_of integrity_error = none
throttle_of length_mismatch = none
throttle_of wrong_width = none
throttle_of (unreadable _) = none
throttle_of (not_indexed _) = none
throttle_of (set_error _) = none
throttle_of out_of_fuel = none

module _ {V : Type 0} (host : Host V) where
  abbrev pub page_text : Option ℕ → String
  page_text none = ""
  page_text (some page) = host.str page

  abbrev pub document : KnowledgeChunkRow → V → VectorDocument V
  document c vector = record {
    id = c.id;
    text = c.content;
    embedding = vector;
    metadata =
        ("source_id", c.source_id)
        ∷ ("doc_id", c.source_id)
        ∷ ("section_path", or_empty c.section_path)
        ∷ ("page", page_text c.page)
        ∷ [];
  }
    where
      or_empty : Option String → String
      or_empty none = ""
      or_empty (some s) = s

  -- zip(batch, vectors, strict=True)
  unfoldable pub documents :
      List KnowledgeChunkRow → List V → Outcome ReindexError (List (VectorDocument V))
  documents [] [] = ok []
  documents [] (v ∷ vectors) = err length_mismatch
  documents (c ∷ batch) [] = err length_mismatch
  documents (c ∷ batch) (v ∷ vectors) = behind (documents batch vectors)
    where
      behind :
          Outcome ReindexError (List (VectorDocument V))
          → Outcome ReindexError (List (VectorDocument V))
      behind (ok ds) = ok (document c v ∷ ds)
      behind (err e) = err e

  unfoldable pub embed : List String → Action ReindexError (State V) (List V)
  unfolding lift
  embed texts s = lift (host.embed s.ticks texts) (record s { ticks = suc s.ticks })

  unfoldable pub upsert_documents :
      Scope
      → EmbeddingSetBinding
      → List (VectorDocument V)
      → Action ReindexError (State V) (Unit {0})
  upsert_documents scope binding ds s = (
    if have_width host binding.dimensions ds then ok tt else err wrong_width,
    if have_width host binding.dimensions ds
        then record s { vectors = upsert_all host scope binding ds s.vectors }
        else s,
  )

  unfoldable pub embed_batch :
      Scope → EmbeddingSetBinding → List KnowledgeChunkRow → Action ReindexError (State V) ℕ
  embed_batch scope binding batch = do
    vectors ← embed (map (λ c. c.content) batch)
    ds ← (λ s. (documents batch vectors, s))
    upsert_documents scope binding ds
    modify (λ s. record s {
      chunks = stamp_embedding_model (map chunk_key batch) (embedding_model binding) s.chunks;
    })
    return (length ds)

  -- Chunks that were ingested since the last read.
  unfoldable pub arrive : State V → State V
  arrive s = record s { chunks = s.chunks ++ host.arrivals s.ticks; ticks = suc s.ticks }

  -- The same, once the walk is through and the catch-up pass reads.
  unfoldable pub arrive_late : State V → State V
  arrive_late s = record s { chunks = s.chunks ++ host.late s.ticks; ticks = suc s.ticks }

  module _ (scope : Scope) (binding : EmbeddingSetBinding) (times : Times) (batch_size : ℕ)
      (total : ℕ) where
    abbrev pub advanced_job : IngestJobRow → String → ℕ → IngestJobRow
    advanced_job job last_chunk_id done = record job {
      cursor = some (record {
        set_id = binding.set_id;
        last_chunk_id = some last_chunk_id;
        done = done;
        total = total;
      });
    }

    unfoldable pub advance : IngestJobRow → State V → State V
    advance job s =
        record_event scope job "reindex.batch"
          (("set_id", text binding.set_id)
            ∷ ("done", number (done_of job.cursor))
            ∷ ("total", number total)
            ∷ [])
          (record s { jobs = upsert job_key job s.jobs })
      where
        done_of : Option Cursor → ℕ
        done_of none = 0
        done_of (some c) = c.done

    abbrev pub moved : Progress → String → ℕ → Progress
    moved p last written = record {
      job = advanced_job p.job last (p.embedded + written);
      last_chunk_id = some last;
      embedded = p.embedded + written;
      read_any = true;
    }

    abbrev pub pause : Progress → Option ℕ → Action ReindexError (State V) Walked
    pause p retry_after = do
      modify (
          record_event scope p.job "reindex.throttled"
            (("retry_after_s", seconds retry_after) ∷ []))
      on_sets (mark scope binding.set_id building times.marked (some p.embedded) none)
      return (paused p)
      where
        seconds : Option ℕ → Value
        seconds none = null
        seconds (some s) = number s

    unfoldable pub on_error :
        Progress → ReindexError → Option (Option ℕ) → Action ReindexError (State V) Walked
    on_error p e none = raise e
    on_error p e (some retry_after) = pause p retry_after

    unfoldable pub after_batch :
        (Progress → Action ReindexError (State V) Walked)
        → Progress
        → String
        → Outcome ReindexError ℕ × State V
        → Outcome ReindexError Walked × State V
    unfolding on_error
    after_batch next p last (ok written, s) =
        let p' = moved p last written in next p' (advance p'.job s)
    after_batch next p last (err e, s) = on_error p e (throttle_of e) s

    unfoldable pub turn :
        (Progress → Action ReindexError (State V) Walked)
        → Progress
        → List KnowledgeChunkRow
        → Action ReindexError (State V) Walked
    turn next p [] s = (ok (through p), s)
    turn next p (c ∷ batch) s =
        after_batch next p (last_id c batch) (embed_batch scope binding (c ∷ batch) s)

    -- The `while True` of the run.
    unfoldable pub walk : ℕ → Progress → Action ReindexError (State V) Walked
    unfolding turn
    walk zero p = raise out_of_fuel
    walk (suc fuel) p = do
      modify arrive
      batch ← gets (λ s. list_for_workspace host scope p.last_chunk_id batch_size s.chunks)
      turn (walk fuel) p batch
