-- ===== src/Reindexing.antt =====
-- core/services/embeddings/reindex_service.py over models/repositories/chunk_repository.py, the upsert of
-- core/services/retrieval/pgvector_store.py, and the job rows of a reindex. The provider that embeds, the
-- order of the ids in the database and the chunks that are ingested meanwhile are a `Host`.
pub mod Run
pub mod Workspace
pub mod Pages
pub mod Collation
pub mod Vectors
pub mod Batch
pub mod Cursors
pub mod Walk
pub mod CatchUp
pub mod Passes
pub mod Complete
pub mod Resume
pub mod Remaining
pub mod Ends
pub mod Ready
pub mod Fresh
pub mod Scopes
pub mod Dropping
pub mod Width
pub mod Typed
pub mod Tests
use Prim.Native.String.{◌++◌ as append}
use flycanon.Prelude.{
  ℕ, ◌+◌, suc, ◌&&◌, not, String, str_eq, Bool, true, false, Option, none, some, List, [], ◌∷◌,
  ◌++◌, ◌==◌, map, filter, take, length, ltb, is_some, if◌then◌else◌,
}
use flycanon.Prelude.Actions.{Outcome, ok, err}
use flycanon.Effects.{Payload}
use flycanon.Table.{select, update_where, upsert}
use flycanon.EmbeddingSets.{Db, Scope}
use flycanon.EmbeddingSets.Service.{EmbeddingSetBinding}

-- The columns of a chunk that a reindex reads or writes.
pub record KnowledgeChunkRow : Type 0 where
  pub id : String
  pub tenant_id : String
  pub workspace_id : String
  pub source_id : String
  pub content : String
  pub page : Option ℕ
  pub section_path : Option String
  pub embedding_model : Option String

abbrev pub chunk_key : KnowledgeChunkRow → String
chunk_key c = c.id

pub record Cursor : Type 0 where
  pub set_id : String
  pub last_chunk_id : Option String
  pub done : ℕ
  pub total : ℕ

-- The job row, with the entries of `metadata_json` that a reindex writes; a job of the ingest worker has
-- neither a set nor a cursor.
pub record IngestJobRow : Type 0 where
  pub id : String
  pub tenant_id : String
  pub workspace_id : String
  pub status : String
  pub kind : String
  pub set_id : Option String
  pub target : String
  pub dimensions : ℕ
  pub cursor : Option Cursor
  pub created_at : ℕ
  pub finished_at : Option ℕ

abbrev pub job_key : IngestJobRow → String
job_key j = j.id

-- A progress event, without its message.
pub record IngestJobEventRow : Type 0 where
  pub job_id : String
  pub tenant_id : String
  pub workspace_id : String
  pub stage : String
  pub payload : Payload

pub record VectorDocument (V : Type 0) : Type 0 where
  pub id : String
  pub text : String
  pub embedding : V
  pub metadata : List (String × String)

pub record VectorRow (V : Type 0) : Type 0 where
  pub id : String
  pub set_id : String
  pub namespace : String
  pub embedding : V
  pub dim : ℕ
  pub model : String
  pub text : String
  pub metadata : List (String × String)

pub record State (V : Type 0) : Type 0 where
  pub chunks : List KnowledgeChunkRow
  pub vectors : List (VectorRow V)
  pub sets : Db
  pub jobs : List IngestJobRow
  pub events : List IngestJobEventRow
  pub ticks : ℕ

-- EmbeddingThrottled, with its retry_after, and every other exception of an embedder.
pub data EmbeddingError : Type 0 where
  throttle : Option ℕ → EmbeddingError
  failure : EmbeddingError

-- What is not under the program's control: the clock of its calls is `ticks`.
pub record Host (V : Type 0) : Type 0 where
  pub id_after : String → String → Bool
  pub str : ℕ → String
  pub scope_namespace : String → String → String
  pub width : V → ℕ
  pub embed : ℕ → List String → Outcome EmbeddingError (List V)
  pub arrivals : ℕ → List KnowledgeChunkRow
  pub late : ℕ → List KnowledgeChunkRow
  pub may_index : ℕ → Bool

abbrev pub embedding_model : EmbeddingSetBinding → String
embedding_model binding = append binding.provider (append ":" binding.model)

abbrev pub in_workspace : Scope → KnowledgeChunkRow → Bool
in_workspace scope c =
    str_eq c.tenant_id scope.tenant_id && str_eq c.workspace_id scope.workspace_id

abbrev pub same_model : Option String → String → Bool
same_model none model = false
same_model (some stamped) model = str_eq stamped model

-- The catch-up pass takes the chunks that carry another model's stamp.
abbrev pub is_stale : EmbeddingSetBinding → KnowledgeChunkRow → Bool
is_stale binding c = not (same_model c.embedding_model (embedding_model binding))

unfoldable pub count_for_workspace : Scope → List KnowledgeChunkRow → ℕ
count_for_workspace scope chunks = length (filter (in_workspace scope) chunks)

-- The insertion of a row behind those that come before it, and ORDER BY.
unfoldable pub place : {A : Type 0} → (A → A → Bool) → A → List A → List A
place after r [] = r ∷ []
place after r (s ∷ rows) =
    let rest = place after r rows in if after r s then s ∷ rest else r ∷ s ∷ rows

unfoldable pub ordered : {A : Type 0} → (A → A → Bool) → List A → List A
unfolding place
ordered after [] = []
ordered after (r ∷ rows) = place after r (ordered after rows)

-- batch[-1].id
abbrev pub last_id : KnowledgeChunkRow → List KnowledgeChunkRow → String
last_id c [] = c.id
last_id c (d ∷ batch) = last_id d batch

abbrev pub elem : String → List String → Bool
elem x [] = false
elem x (y ∷ ys) = if str_eq y x then true else elem x ys

unfoldable pub stamp_embedding_model :
    List String → String → List KnowledgeChunkRow → List KnowledgeChunkRow
stamp_embedding_model chunk_ids model =
    update_where (λ c. elem c.id chunk_ids) (λ c. record c { embedding_model = some model })

unfoldable pub list_jobs : Scope → ℕ → List IngestJobRow → List IngestJobRow
list_jobs scope limit jobs = take limit (
    ordered (λ j k. ltb j.created_at k.created_at)
      (filter (λ j. str_eq j.tenant_id scope.tenant_id && str_eq j.workspace_id scope.workspace_id)
        jobs))

abbrev pub is_vector : String → String → {V : Type 0} → VectorRow V → Bool
is_vector set_id id r = str_eq r.set_id set_id && str_eq r.id id

module _ {V : Type 0} (host : Host V) where
  abbrev pub is_after : Option String → String → Bool
  is_after none id = true
  is_after (some after_id) id = host.id_after id after_id

  unfoldable pub list_for_workspace :
      Scope → Option String → ℕ → List KnowledgeChunkRow → List KnowledgeChunkRow
  list_for_workspace scope after_id limit chunks = take limit (
      ordered (λ c d. host.id_after c.id d.id)
        (filter (λ c. in_workspace scope c && is_after after_id c.id) chunks))

  abbrev pub vector_row : Scope → EmbeddingSetBinding → VectorDocument V → VectorRow V
  vector_row scope binding document = record {
    id = document.id;
    set_id = binding.set_id;
    namespace = host.scope_namespace scope.tenant_id scope.workspace_id;
    embedding = document.embedding;
    dim = binding.dimensions;
    model = embedding_model binding;
    text = document.text;
    metadata = document.metadata;
  }

  -- INSERT … ON CONFLICT (set_id, id) DO UPDATE
  unfoldable pub upsert_vector : VectorRow V → List (VectorRow V) → List (VectorRow V)
  upsert_vector row [] = row ∷ []
  upsert_vector row (r ∷ rows) =
      let rest = upsert_vector row rows in
      if is_vector row.set_id row.id r then row ∷ rows else r ∷ rest

  unfoldable pub upsert_all :
      Scope
      → EmbeddingSetBinding
      → List (VectorDocument V)
      → List (VectorRow V)
      → List (VectorRow V)
  upsert_all scope binding [] vectors = vectors
  upsert_all scope binding (d ∷ documents) vectors =
      upsert_all scope binding documents (upsert_vector (vector_row scope binding d) vectors)

  abbrev pub have_width : ℕ → List (VectorDocument V) → Bool
  have_width width [] = true
  have_width width (d ∷ documents) =
      let rest = have_width width documents in host.width d.embedding == width && rest
