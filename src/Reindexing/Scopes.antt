-- ===== src/Reindexing/Scopes.antt =====
-- core/services/embeddings/reindex_service.py: which workspaces a command means, the runs over them one after
-- another, and the set that is dropped.
use flycanon.Prelude.{
  ℕ, ◌&&◌, not, String, str_eq, Bool, true, false, Option, none, some, List, [], ◌∷◌, map, filter,
  length, if◌then◌else◌, is_some,
}
use flycanon.Prelude.Actions.{Outcome, ok, err, Action, ◌>>=◌, ◌>>◌, return, gets, modify}
use flycanon.Table.{select}
use flycanon.EmbeddingSets.{SetStatus, active, EmbeddingSetRow, Scope, get, delete}
use flycanon.EmbeddingSets.Service.{Host as SetHost, CanonSettings, truthy}
use flycanon.Reindexing.{KnowledgeChunkRow, VectorRow, State, Host, ordered}
use flycanon.Reindexing.Run.{ReindexError, WorkspaceOutcome, Times, Plan}
use flycanon.Reindexing.Workspace.{run_workspace}

pub data ScopeError : Type 0 where
  workspace_and_all : ScopeError
  workspace_without_tenant : ScopeError
  tenant_and_all : ScopeError
  no_scope : ScopeError

abbrev same_pair : String × String → String × String → Bool
same_pair (t, w) (t', w') = str_eq t t' && str_eq w w'

-- SELECT DISTINCT
abbrev pub distinct : List (String × String) → List (String × String)
distinct [] = []
distinct (p ∷ ps) =
    let rest = distinct ps in if is_some (select (same_pair p) rest) then rest else p ∷ rest

pub data DropError : Type 0 where
  unknown : String → DropError
  in_use : String → DropError

abbrev pub is_active : SetStatus → Bool
is_active active = true
is_active _ = false

abbrev pub droppable : String → Option EmbeddingSetRow → Outcome DropError (Unit {0})
droppable set_id none = err (unknown set_id)
droppable set_id (some row) = if is_active row.status then err (in_use set_id) else ok tt

module _ {V : Type 0} (host : Host V) where
  unfoldable pub scopes_with_chunks :
      Option String → List KnowledgeChunkRow → List (String × String)
  scopes_with_chunks tenant_id chunks =
      ordered (λ p q. host.id_after p.0 q.0)
        (distinct (map (λ c. (c.tenant_id, c.workspace_id)) (filter (of_tenant tenant_id) chunks)))
    where
      of_tenant : Option String → KnowledgeChunkRow → Bool
      of_tenant none c = true
      of_tenant (some t) c = str_eq c.tenant_id t

  -- The selectors of a command, in the order in which the code tests them.
  unfoldable pub resolve_scope :
      Option String
      → Option String
      → Bool
      → List KnowledgeChunkRow
      → Outcome ScopeError (List (String × String))
  resolve_scope workspace_id tenant_id everything chunks =
      selected (truthy workspace_id) (truthy tenant_id) everything
    where
      selected : Option String → Option String → Bool → Outcome ScopeError (List (String × String))
      selected (some w) t true = err workspace_and_all
      selected (some w) none false = err workspace_without_tenant
      selected (some w) (some t) false = ok ((t, w) ∷ [])
      selected none (some t) true = err tenant_and_all
      selected none none false = err no_scope
      selected none (some t) false = ok (scopes_with_chunks (some t) chunks)
      selected none none true = ok (scopes_with_chunks none chunks)

  -- One workspace after another; the first that raises ends the command.
  unfoldable pub run :
      SetHost
      → CanonSettings
      → ℕ
      → List (Scope × Plan × Times × (String × String))
      → ℕ
      → Bool
      → Option String
      → Action ReindexError (State V) (List WorkspaceOutcome)
  run sets settings fuel [] batch_size activated resume_set_id = return []
  run sets settings fuel ((scope, plan, times, ids) ∷ workspaces) batch_size activated
        resume_set_id =
      do
        outcome ←
            run_workspace host sets settings fuel scope plan times batch_size activated ids
              resume_set_id
        outcomes ← run sets settings fuel workspaces batch_size activated resume_set_id
        return (outcome ∷ outcomes)

  -- DELETE … WHERE set_id = $1 AND namespace = $2
  abbrev pub of_set : Scope → String → VectorRow V → Bool
  of_set scope set_id r =
      str_eq r.set_id set_id
      && str_eq r.namespace (host.scope_namespace scope.tenant_id scope.workspace_id)

  unfoldable pub drop_set : Scope → String → Action DropError (State V) ℕ
  drop_set scope set_id = do
    row ← gets (λ s. get scope set_id s.sets)
    (λ s. (droppable set_id row, s))
    deleted ← gets (λ s. length (filter (of_set scope set_id) s.vectors))
    modify (λ s. record s {
      vectors = filter (λ r. not (of_set scope set_id r)) s.vectors;
      sets = delete scope set_id s.sets;
    })
    return deleted
