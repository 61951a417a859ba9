-- ===== src/Reindexing/Workspace.antt =====
-- core/services/embeddings/reindex_service.py: how a run opens, catches up, and ends.
use flycanon.Prelude.{
  ℕ, zero, suc, ◌+◌, ◌&&◌, not, String, str_eq, Bool, true, false, Option, none, some, List, [],
  ◌∷◌, filter, ltb, is_some, if◌then◌else◌,
}
use flycanon.Prelude.Actions.{ok, err, Action, ◌>>=◌, ◌>>◌, return, raise, gets, modify}
use flycanon.Effects.{text, number}
use flycanon.Table.{select, insert, upsert, find}
use flycanon.EmbeddingSets.{building, ready, EmbeddingSetRow, Scope, get}
use flycanon.EmbeddingSets.Service.{
  Host as SetHost, CanonSettings, NewSet, EmbeddingSetBinding, binding_of, truthy, mark, activate,
  create,
}
use flycanon.Reindexing.{
  KnowledgeChunkRow, Cursor, IngestJobRow, job_key, State, Host, last_id, embedding_model, is_stale,
  list_jobs, list_for_workspace,
}
use flycanon.Reindexing.Run.{
  ReindexError, unknown_set, no_job, integrity_error, unreadable, not_indexed, out_of_fuel,
  throttled, ready_, WorkspaceOutcome, Progress, Walked, through, paused, Times, Plan, on_sets,
  record_event, embed_batch, arrive_late, walk,
}

abbrev pub is_reindex_of : String → IngestJobRow → Bool
is_reindex_of set_id job = str_eq job.kind "reindex" && is_set_id job.set_id
  where
    is_set_id : Option String → Bool
    is_set_id none = false
    is_set_id (some id) = str_eq id set_id

unfoldable pub job_for : Scope → String → List IngestJobRow → Option IngestJobRow
job_for scope set_id jobs = select (is_reindex_of set_id) (list_jobs scope 200 jobs)

-- Where a job's cursor stands.
abbrev pub resumed : IngestJobRow → Progress
resumed job = record {
  job = job;
  last_chunk_id = last_of job.cursor;
  embedded = done_of job.cursor;
  read_any = ltb 0 (done_of job.cursor);
}
  where
    last_of : Option Cursor → Option String
    last_of none = none
    last_of (some c) = c.last_chunk_id

    done_of : Option Cursor → ℕ
    done_of none = 0
    done_of (some c) = c.done

-- The sets of the workspace are searched by the primary key, so the order in which they are listed does not
-- matter.
module _ {V : Type 0} (host : Host V) (sets : SetHost) (settings : CanonSettings) where
  unfoldable pub resume_job :
      String
      → EmbeddingSetRow
      → Option IngestJobRow
      → Action ReindexError (State V) (EmbeddingSetBinding × Progress)
  resume_job set_id row none = raise (no_job set_id)
  resume_job set_id row (some job) = return (binding_of row, resumed job)

  unfoldable pub resume_row :
      Scope
      → String
      → Option EmbeddingSetRow
      → Action ReindexError (State V) (EmbeddingSetBinding × Progress)
  unfolding resume_job
  resume_row scope set_id none = raise (unknown_set set_id)
  resume_row scope set_id (some row) = do
    job ← gets (λ s. job_for scope set_id s.jobs)
    resume_job set_id row job

  abbrev pub new_job : Scope → Plan → String → String → ℕ → IngestJobRow
  new_job scope plan job_id set_id now = record {
    id = job_id;
    tenant_id = scope.tenant_id;
    workspace_id = scope.workspace_id;
    status = "running";
    kind = "reindex";
    set_id = some set_id;
    target = target_of plan.provider plan.model;
    dimensions = plan.dimensions;
    cursor =
        some (record { set_id = set_id; last_chunk_id = none; done = 0; total = plan.chunk_count });
    created_at = now;
    finished_at = none;
  }
    where
      target_of : String → String → String
      target_of provider model = embedding_model (record {
        set_id = set_id;
        provider = provider;
        model = model;
        dimensions = plan.dimensions;
      })

  abbrev pub new_set : Plan → String → NewSet sets settings
  new_set plan set_id = record {
    set_id = set_id;
    provider = plan.provider;
    model = plan.model;
    dimensions = plan.dimensions;
    status = building;
    chunk_count = plan.chunk_count;
    created_by = some "flycanon reindex";
    note = none;
  }

  unfoldable pub add_job : IngestJobRow → Action ReindexError (State V) (Unit {0})
  add_job job s = (
    if is_some (find job_key job.id s.jobs) then err integrity_error else ok tt,
    if is_some (find job_key job.id s.jobs) then s else record s { jobs = insert job s.jobs },
  )

  unfoldable pub open_run :
      Scope
      → Plan
      → Times
      → String × String
      → Option String
      → Action ReindexError (State V) (EmbeddingSetBinding × Progress)
  unfolding resume_row
  open_run scope plan times ids (some set_id) = do
    row ← gets (λ s. get scope set_id s.sets)
    resume_row scope set_id row
  open_run scope plan times (new_set_id, job_id) none = do
    row ← on_sets (create sets settings scope (new_set plan new_set_id) times.opened)
    let job = new_job scope plan job_id row.id times.opened
    add_job job
    modify (
        record_event scope job "reindex.started"
          (("set_id", text row.id) ∷ ("target", text job.target) ∷ []))
    return
        (binding_of row, record { job = job; last_chunk_id = none; embedded = 0; read_any = false })

  module _ (scope : Scope) (binding : EmbeddingSetBinding) (times : Times) (batch_size : ℕ)
      (total : ℕ) where
    unfoldable pub embed_stale : List KnowledgeChunkRow → Action ReindexError (State V) ℕ
    embed_stale [] = return 0
    embed_stale (c ∷ batch) = embed_batch host scope binding (c ∷ batch)

    unfoldable pub catch_turn :
        (Option String → Action ReindexError (State V) ℕ)
        → List KnowledgeChunkRow
        → Action ReindexError (State V) ℕ
    catch_turn next [] = return 0
    catch_turn next (c ∷ batch) = do
      caught ← embed_stale (filter (is_stale binding) (c ∷ batch))
      rest ← next (some (last_id c batch))
      return (caught + rest)

    unfoldable pub catch_up : ℕ → Option String → Action ReindexError (State V) ℕ
    unfolding catch_turn
    catch_up zero after_id = raise out_of_fuel
    catch_up (suc fuel) after_id = do
      modify (arrive_late host)
      batch ← gets (λ s. list_for_workspace host scope after_id batch_size s.chunks)
      catch_turn (catch_up fuel) batch

    -- The ANN index, if the role of the run may make it.
    unfoldable pub ensure_set_index : Action ReindexError (State V) Bool
    ensure_set_index s = (ok (host.may_index s.ticks), record s { ticks = suc s.ticks })

    unfoldable pub promote : Bool → Bool → Action ReindexError (State V) (Option String)
    promote false indexed = return none
    promote true false = raise (not_indexed binding.set_id)
    promote true true = on_sets (activate scope binding.set_id times.activated times.retired)

    unfoldable pub finish_job : IngestJobRow → State V → State V
    finish_job job s =
        let done = record job { status = "succeeded"; finished_at = some times.finished } in
        record_event scope done "reindex.finished" []
          (record s { jobs = upsert job_key done s.jobs })

    unfoldable pub complete : ℕ → Bool → Progress → Action ReindexError (State V) WorkspaceOutcome
    complete fuel activated p = do
      (λ s. (if ltb 0 total && not p.read_any then err (unreadable total) else ok tt, s))
      caught ← catch_up fuel none
      indexed ← ensure_set_index
      on_sets
          (mark scope binding.set_id ready times.marked (some (p.embedded + caught)) (some total))
      modify (
          record_event scope p.job "reindex.ready"
            (("set_id", text binding.set_id) ∷ ("indexed", number (if indexed then 1 else 0)) ∷ []))
      retired ← promote activated indexed
      modify (finish_job p.job)
      return (record {
        set_id = binding.set_id;
        embedded = p.embedded + caught;
        activated = activated;
        retired_set_id = retired;
        indexed = indexed;
        status = ready_;
      })

    unfoldable pub close : ℕ → Bool → Walked → Action ReindexError (State V) WorkspaceOutcome
    unfolding complete
    close fuel activated (paused p) = return (record {
      set_id = binding.set_id;
      embedded = p.embedded;
      activated = false;
      retired_set_id = none;
      indexed = false;
      status = throttled;
    })
    close fuel activated (through p) = complete fuel activated p

  -- `_run_workspace`. Both loops run on the same fuel.
  unfoldable pub run_workspace :
      ℕ
      → Scope
      → Plan
      → Times
      → ℕ
      → Bool
      → String × String
      → Option String
      → Action ReindexError (State V) WorkspaceOutcome
  unfolding close
  run_workspace fuel scope plan times batch_size activated ids resume_set_id = do
    opened ← open_run scope plan times ids (truthy resume_set_id)
    walked ← walk host scope opened.0 times batch_size plan.chunk_count fuel opened.1
    close scope opened.0 times batch_size plan.chunk_count fuel activated walked
