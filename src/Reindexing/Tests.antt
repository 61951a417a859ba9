-- ===== src/Reindexing/Tests.antt =====
-- A workspace of two chunks and a set that is half built; the theorems at them.
use flycanon.Prelude.{
  ◌≡◌, refl, String, true, false, Option, none, some, [], ◌∷◌, map, ◌==◌, All, arith, if◌then◌else◌,
}
use flycanon.Prelude.Actions.{ok}
use flycanon.Table.{select, update_where, upsert}
use flycanon.EmbeddingSets.{
  building, active, EmbeddingSetRow, Scope, get, active_set_id, set_status, patched,
  point_workspace_at,
}
use flycanon.EmbeddingSets.Service.{binding_of, mark, activate, check_target, retire_previous}
use flycanon.EmbeddingSets.Tests.{host as set_host, settings, set_row}
use flycanon.Reindexing.{
  KnowledgeChunkRow, IngestJobRow, VectorRow, State, Host, in_workspace, count_for_workspace,
  upsert_all, upsert_vector, stamp_embedding_model, list_for_workspace, list_jobs, ordered, place,
}
use flycanon.Reindexing.Run.{
  ready_, WorkspaceOutcome, Times, Plan, walk, turn, after_batch, embed_batch, embed, lift,
  documents, upsert_documents, arrive, arrive_late, advance, record_event, in_sets,
}
use flycanon.Reindexing.Workspace.{
  run_workspace, open_run, resume_row, resume_job, job_for, close, complete, catch_up, catch_turn,
  embed_stale, ensure_set_index, promote, finish_job,
}
use flycanon.Reindexing.Collation.{comes_after, comes_after-IsOrder}
use flycanon.Reindexing.Vectors.{IsEmbedded}
use flycanon.Reindexing.Ends.{IsQuiet}
use flycanon.Reindexing.Width.{IsTyped}
use flycanon.Reindexing.Typed.{run_workspace-IsTyped}
use flycanon.Reindexing.Fresh.{fresh_row, quiet_run-ready}
use flycanon.Reindexing.Dropping.{Drops, drop_set-verdict}

-- The vector of a text is the text.
abbrev pub host : Host String
host = record {
  id_after = comes_after;
  str = λ n. "1";
  scope_namespace = λ t w. t;
  width = λ v. 1536;
  embed = λ tick texts. ok (map (λ text. text) texts);
  arrivals = λ tick. [];
  late = λ tick. [];
  may_index = λ tick. true;
}

abbrev pub scope : Scope
scope = record { tenant_id = "t"; workspace_id = "w" }

abbrev pub chunk : String → Option String → KnowledgeChunkRow
chunk id model = record {
  id = id;
  tenant_id = "t";
  workspace_id = "w";
  source_id = "src";
  content = id;
  page = none;
  section_path = none;
  embedding_model = model;
}

abbrev pub half_built : EmbeddingSetRow
half_built = set_row "es-b" building none

abbrev pub vector : String → String → VectorRow String
vector set_id id = record {
  id = id;
  set_id = set_id;
  namespace = "t";
  embedding = id;
  dim = 1536;
  model = "azure:emb-3";
  text = id;
  metadata = [];
}

abbrev pub job : IngestJobRow
job = record {
  id = "j1";
  tenant_id = "t";
  workspace_id = "w";
  status = "running";
  kind = "reindex";
  set_id = some "es-b";
  target = "azure:emb-3";
  dimensions = 1536;
  cursor = some (record { set_id = "es-b"; last_chunk_id = some "a"; done = 1; total = 2 });
  created_at = 1;
  finished_at = none;
}

abbrev pub interrupted : State String
interrupted = record {
  chunks = chunk "a" (some "azure:emb-3") ∷ chunk "b" none ∷ [];
  vectors = vector "es-b" "a" ∷ vector "es-a" "a" ∷ [];
  sets = record {
    sets = half_built ∷ set_row "es-a" active (some 1) ∷ [];
    workspaces = record { id = "w"; tenant_id = "t"; active_embedding_set_id = some "es-a" } ∷ [];
  };
  jobs = job ∷ [];
  events = [];
  ticks = 0;
}

abbrev pub times : Times
times = record { opened = 1; marked = 2; activated = 3; retired = 4; finished = 5 }

abbrev pub plan : Plan
plan = record { provider = "azure"; model = "emb-3"; dimensions = 1536; chunk_count = 2 }

quiet : IsQuiet host (λ text. text) 1536
quiet = record {
  embeds = λ tick texts. refl;
  wide = λ text. refl;
  nothing_new = λ tick. refl;
  nothing_late = λ tick. refl;
  indexes = λ tick. refl;
}

quiet_run-ready_example :
    (o : WorkspaceOutcome) × (s : State String) × (run_workspace host set_host settings 3 scope plan
        times 1 true
        ("es-c", "j2")
        none
        interrupted
      ≡ (ok o, s))
    × (o.status ≡ ready_)
    × (active_set_id scope s.sets ≡ some "es-c")
    × All
        (λ (c : KnowledgeChunkRow).
          in_workspace scope c ≡ true
          → IsEmbedded host
              (λ id. id)
              (λ text. text)
              scope
              (binding_of (fresh_row host set_host settings scope plan times "es-c" "j2"))
              s.vectors
              c.id)
        s.chunks
unfolding select count_for_workspace
quiet_run-ready_example =
    quiet_run-ready host comes_after-IsOrder (λ id. id) (λ text. text) set_host settings scope plan
      times 0 "es-c" "j2" quiet 3 interrupted (refl, (refl, tt)) refl (omega arith) refl refl refl
      (refl, tt) refl

drop_set-verdict_example : Drops host scope "es-b" interrupted (get scope "es-b" interrupted.sets)
drop_set-verdict_example = drop_set-verdict host scope "es-b" interrupted

-- A chunk that is ingested behind the cursor under the stamp of the set's own model.
abbrev busy : Host String
busy = record host {
  arrivals = λ tick. if tick == 2 then chunk "a" (some "azure:emb-3") ∷ [] else [];
}

abbrev before_it : State String
before_it = record interrupted {
  chunks = chunk "b" none ∷ [];
  vectors = [];
  jobs = record job { cursor = none } ∷ [];
}

-- The run ends, and the set does not have the chunk.
missed :
    let (o, s) =
      run_workspace busy set_host settings 5 scope plan times 1 false
        ("", "")
        (some "es-b")
        before_it in
    (map (λ (c : KnowledgeChunkRow). c.id) s.chunks ≡ "b" ∷ "a" ∷ [])
    × (map (λ (v : VectorRow String). v.id) s.vectors ≡ "b" ∷ [])
unfolding run_workspace open_run resume_row resume_job job_for list_jobs walk turn after_batch
    embed_batch embed lift documents upsert_documents upsert_all upsert_vector stamp_embedding_model
    list_for_workspace ordered place arrive arrive_late advance record_event close complete catch_up
    catch_turn embed_stale ensure_set_index promote finish_job in_sets mark set_status patched get
    select update_where upsert
missed = (refl, refl)

abbrev behind : Host String
behind = record host { late = λ tick. if tick == 4 then chunk "a" none ∷ [] else [] }

-- A chunk that is ingested behind the cursor of the catch-up pass, under no stamp, is missed as well.
late_missed :
    let (o, s) =
      run_workspace behind set_host settings 5 scope plan times 1 false
        ("", "")
        (some "es-b")
        before_it in
    (map (λ (c : KnowledgeChunkRow). c.id) s.chunks ≡ "b" ∷ "a" ∷ [])
    × (map (λ (v : VectorRow String). v.id) s.vectors ≡ "b" ∷ [])
unfolding run_workspace open_run resume_row resume_job job_for list_jobs walk turn after_batch
    embed_batch embed lift documents upsert_documents upsert_all upsert_vector stamp_embedding_model
    list_for_workspace ordered place arrive arrive_late advance record_event close complete catch_up
    catch_turn embed_stale ensure_set_index promote finish_job in_sets mark set_status patched get
    select update_where upsert
late_missed = (refl, refl)

-- The interrupted run ends ready, with both chunks in the set.
resumed_ready :
    let (o, s) =
      run_workspace host set_host settings 5 scope plan times 1 true
        ("", "")
        (some "es-b")
        interrupted in
    (o
      ≡ ok (record {
        set_id = "es-b";
        embedded = 2;
        activated = true;
        retired_set_id = some "es-a";
        indexed = true;
        status = ready_;
      }))
    × (map {B = String × String} (λ (v : VectorRow String). (v.set_id, v.id)) s.vectors
        ≡ ("es-b", "a") ∷ ("es-a", "a") ∷ ("es-b", "b") ∷ [])
unfolding run_workspace open_run resume_row resume_job job_for list_jobs walk turn after_batch
    embed_batch embed lift documents upsert_documents upsert_all upsert_vector stamp_embedding_model
    list_for_workspace ordered place arrive arrive_late advance record_event close complete catch_up
    catch_turn embed_stale ensure_set_index promote finish_job in_sets mark set_status patched get
    select update_where upsert activate check_target retire_previous point_workspace_at
    active_set_id
resumed_ready = (refl, refl)

interrupted-IsTyped : IsTyped host interrupted
interrupted-IsTyped = (refl, (refl, tt))

run_workspace-IsTyped_example :
    IsTyped host
      (run_workspace host set_host settings 5 scope plan times 1 true
        ("", "")
        (some "es-b")
        interrupted).1
run_workspace-IsTyped_example =
    run_workspace-IsTyped host set_host settings scope plan times 5 1 true ("", "") (some "es-b")
      interrupted interrupted-IsTyped
