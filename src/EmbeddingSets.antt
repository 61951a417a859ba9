-- ===== src/EmbeddingSets.antt =====
-- models/entities/embedding_set.py, the pointer column of models/entities/workspace.py, and the
-- statements of models/repositories/embedding_set_repository.py. `created_at`, which only the listing
-- reads, is left out of the rows; a workspace has its key and its pointer.
pub mod Service
pub mod Latest
pub mod Switch
pub mod Rollback
pub mod Minting
pub mod Tests
use flycanon.Prelude.{
  ℕ, ◌&&◌, not, String, str_eq, Bool, true, false, Option, none, some, List, [], ◌∷◌, filter, ltb,
  leb, is_some, if◌then◌else◌,
}
use flycanon.Prelude.Actions.{Outcome, ok, err, Action}
use flycanon.Table.{select, update_where, insert, find}

pub data SetStatus : Type 0 where
  building : SetStatus
  ready : SetStatus
  active : SetStatus
  retired : SetStatus
  failed : SetStatus

abbrev pub is_retired : SetStatus → Bool
is_retired retired = true
is_retired _ = false

pub record EmbeddingSetRow : Type 0 where
  pub id : String
  pub tenant_id : String
  pub workspace_id : String
  pub provider : String
  pub model : String
  pub dimensions : ℕ
  pub status : SetStatus
  pub config_fingerprint : String
  pub chunk_count : ℕ
  pub vector_count : ℕ
  pub index_name : Option String
  pub ready_at : Option ℕ
  pub activated_at : Option ℕ
  pub retired_at : Option ℕ
  pub created_by : Option String
  pub note : Option String

pub record Workspace : Type 0 where
  pub id : String
  pub tenant_id : String
  pub active_embedding_set_id : Option String

pub record Db : Type 0 where
  pub sets : List EmbeddingSetRow
  pub workspaces : List Workspace

pub record Scope : Type 0 where
  pub tenant_id : String
  pub workspace_id : String

abbrev pub set_key : EmbeddingSetRow → String
set_key r = r.id

abbrev pub in_scope : Scope → EmbeddingSetRow → Bool
in_scope scope r = str_eq r.tenant_id scope.tenant_id && str_eq r.workspace_id scope.workspace_id

abbrev pub is_set : Scope → String → EmbeddingSetRow → Bool
is_set scope set_id r = str_eq r.id set_id && in_scope scope r

abbrev pub is_workspace : Scope → Workspace → Bool
is_workspace scope w = str_eq w.id scope.workspace_id && str_eq w.tenant_id scope.tenant_id

-- The primary key and the CHECK constraint of the table.
unfoldable pub insert_set : EmbeddingSetRow → Db → Option Db
insert_set row db =
    if not (is_some (find set_key row.id db.sets))
      && (leb 64 row.dimensions && leb row.dimensions 4096)
    then some (record db { sets = insert row db.sets })
    else none

abbrev pub stamp : SetStatus → SetStatus → ℕ → Option ℕ → Option ℕ
stamp ready ready now old = some now
stamp active active now old = some now
stamp retired retired now old = some now
stamp _ _ now old = old

abbrev pub given : {A : Type 0} → Option A → A → A
given none old = old
given (some new) old = new

-- No caller gives an index name.
unfoldable pub patched : SetStatus → ℕ → Option ℕ → Option ℕ → EmbeddingSetRow → EmbeddingSetRow
patched status now vector_count chunk_count r = record r {
  status = status;
  ready_at = stamp ready status now r.ready_at;
  activated_at = stamp active status now r.activated_at;
  retired_at = stamp retired status now r.retired_at;
  vector_count = given vector_count r.vector_count;
  chunk_count = given chunk_count r.chunk_count;
}

unfoldable pub set_status : Scope → String → SetStatus → ℕ → Option ℕ → Option ℕ → Db → Db
set_status scope set_id status now vector_count chunk_count db = record db {
  sets = update_where (is_set scope set_id) (patched status now vector_count chunk_count) db.sets;
}

unfoldable pub point_workspace_at : Scope → Option String → Db → Db
point_workspace_at scope set_id db = record db {
  workspaces =
      update_where (is_workspace scope) (λ w. record w { active_embedding_set_id = set_id })
        db.workspaces;
}

unfoldable pub get : Scope → String → Db → Option EmbeddingSetRow
get scope set_id db = select (is_set scope set_id) db.sets

abbrev pointer_of : Option Workspace → Option String
pointer_of none = none
pointer_of (some w) = w.active_embedding_set_id

unfoldable pub active_set_id : Scope → Db → Option String
active_set_id scope db = pointer_of (select (is_workspace scope) db.workspaces)

-- ORDER BY retired_at DESC, id DESC, in which PostgreSQL puts the rows without a date first.
abbrev pub retired_later : (String → String → Bool) → EmbeddingSetRow → EmbeddingSetRow → Bool
retired_later id_after r s = by_date r.retired_at s.retired_at
  where
    by_date : Option ℕ → Option ℕ → Bool
    by_date none none = id_after r.id s.id
    by_date none (some t) = true
    by_date (some t) none = false
    by_date (some t) (some u) =
        if ltb u t then true else if ltb t u then false else id_after r.id s.id

abbrev pub later_of :
    (String → String → Bool) → EmbeddingSetRow → Option EmbeddingSetRow → EmbeddingSetRow
later_of id_after r none = r
later_of id_after r (some s) = if retired_later id_after r s then r else s

-- … LIMIT 1
unfoldable pub latest :
    (String → String → Bool)
    → (EmbeddingSetRow → Bool)
    → List EmbeddingSetRow
    → Option EmbeddingSetRow
latest id_after p [] = none
latest id_after p (r ∷ rows) =
    let rest = latest id_after p rows in if p r then some (later_of id_after r rest) else rest

unfoldable pub previous_active :
    (String → String → Bool) → Scope → String → Db → Option EmbeddingSetRow
previous_active id_after scope exclude_set_id db =
    latest id_after
      (λ r. in_scope scope r && (not (str_eq r.id exclude_set_id) && is_retired r.status)) db.sets

-- `session.get` by the key, and the row deleted if it is in scope.
unfoldable pub delete : Scope → String → Db → Db
delete scope set_id db = record db { sets = filter (λ r. not (is_set scope set_id r)) db.sets }
