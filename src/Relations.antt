-- ===== src/Relations.antt =====
-- core/services/knowledge/relation_service.py over models/repositories/relation_repository.py and
-- models/entities/knowledge_relation.py. The listings give the rows in the order of the table, where the
-- code sorts them by the time of their insertion, `created_at`, which is left out of the rows.
pub mod Graph
pub mod Tests
use flycanon.Prelude.{
  ℕ, ◌&&◌, ◌||◌, not, String, str_eq, Bool, true, false, Option, none, some, List, [], ◌∷◌, filter,
  is_some, if◌then◌else◌,
}
use flycanon.Prelude.Actions.{
  Outcome, ok, err, Action, ◌>>=◌, ◌>>◌, and_then, return, raise, gets, modify,
}
use flycanon.Effects.{text, Payload, AuditEvent, event, Broker, Log, Topics, publish, record_audit}
use flycanon.Table.{select, insert, find}
use flycanon.Knowledge.{KnowledgeItemRow, Items, item_key, get_item}

pub record KnowledgeRelationRow : Type 0 where
  pub id : String
  pub tenant_id : String
  pub workspace_id : String
  pub from_item_id : String
  pub to_item_id : String
  pub kind : String
  pub since_version : Option ℕ
  pub note : Option String
  pub actor : Option String

pub record CreateRelationRequest : Type 0 where
  pub to_item_id : String
  pub kind : String
  pub since_version : Option ℕ
  pub note : Option String
  pub actor : Option String

pub data RelationError : Type 0 where
  self_relation : RelationError
  item_not_found : String → RelationError
  unknown_target : String → RelationError
  relation_conflict : String → String → String → RelationError
  relation_not_found : String → RelationError

pub record State : Type 0 where
  pub items : Items
  pub relations : List KnowledgeRelationRow
  pub log : Log

pub record Scope : Type 0 where
  pub tenant_id : String
  pub workspace_id : String
  pub correlation_id : Option String

abbrev pub relation_key : KnowledgeRelationRow → String
relation_key r = r.id

-- The columns of the unique constraint.
abbrev pub same_edge : KnowledgeRelationRow → KnowledgeRelationRow → Bool
same_edge a b =
    str_eq a.from_item_id b.from_item_id
    && (str_eq a.to_item_id b.to_item_id && str_eq a.kind b.kind)

abbrev pub is_relation : Scope → String → KnowledgeRelationRow → Bool
is_relation scope relation_id r =
    str_eq r.id relation_id
    && (str_eq r.tenant_id scope.tenant_id && str_eq r.workspace_id scope.workspace_id)

-- The primary key, the unique constraint and the two foreign keys; none is an IntegrityError.
unfoldable pub insert_relation :
    KnowledgeRelationRow → Items → List KnowledgeRelationRow → Option (List KnowledgeRelationRow)
insert_relation row items relations =
    if is_some (find relation_key row.id relations)
      || (is_some (select (λ r. same_edge r row) relations)
          || not (
              is_some (find item_key row.from_item_id items)
              && is_some (find item_key row.to_item_id items)))
    then none
    else some (insert row relations)

unfoldable pub get : Scope → String → List KnowledgeRelationRow → Option KnowledgeRelationRow
get scope relation_id relations = select (is_relation scope relation_id) relations

abbrev pub delete_where :
    (KnowledgeRelationRow → Bool) → List KnowledgeRelationRow → List KnowledgeRelationRow
delete_where p = filter (λ r. not (p r))

-- Whether the DELETE found a row, and what it leaves.
unfoldable pub delete :
    Scope → String → List KnowledgeRelationRow → Bool × List KnowledgeRelationRow
delete scope relation_id relations = (
  is_some (select (is_relation scope relation_id) relations),
  delete_where (is_relation scope relation_id) relations,
)

pub data Direction : Type 0 where
  out_ : Direction
  in_ : Direction
  both : Direction

abbrev pub touches : Direction → String → KnowledgeRelationRow → Bool
touches out_ item_id r = str_eq r.from_item_id item_id
touches in_ item_id r = str_eq r.to_item_id item_id
touches both item_id r = str_eq r.from_item_id item_id || str_eq r.to_item_id item_id

unfoldable pub list_rows :
    Direction → Scope → String → List KnowledgeRelationRow → List KnowledgeRelationRow
list_rows direction scope item_id relations =
    filter
      (λ r.
        touches direction item_id r
        && (str_eq r.tenant_id scope.tenant_id && str_eq r.workspace_id scope.workspace_id))
      relations

unfoldable pub relation_row : String → CreateRelationRequest → Scope → String → KnowledgeRelationRow
relation_row from_item_id request scope relation_id = record {
  id = relation_id;
  tenant_id = scope.tenant_id;
  workspace_id = scope.workspace_id;
  from_item_id = from_item_id;
  to_item_id = request.to_item_id;
  kind = request.kind;
  since_version = request.since_version;
  note = request.note;
  actor = request.actor;
}

abbrev edge_payload : KnowledgeRelationRow → Payload
edge_payload r =
    ("relation_id", text r.id) ∷ ("to_item_id", text r.to_item_id) ∷ ("kind", text r.kind) ∷ []

abbrev event_payload : KnowledgeRelationRow → Payload
event_payload r =
    ("relation_id", text r.id)
    ∷ ("from_item_id", text r.from_item_id)
    ∷ ("to_item_id", text r.to_item_id)
    ∷ ("kind", text r.kind)
    ∷ []

abbrev pub relation_audit : String → KnowledgeRelationRow → Option String → Scope → AuditEvent
relation_audit event_type r actor scope = record {
  event_type = event_type;
  subject_kind = "knowledge_item";
  subject_id = r.from_item_id;
  tenant_id = scope.tenant_id;
  workspace_id = scope.workspace_id;
  actor = actor;
  correlation_id = scope.correlation_id;
  payload = edge_payload r;
}

abbrev known : RelationError → Option KnowledgeItemRow → Outcome RelationError KnowledgeItemRow
known e none = err e
known e (some item) = ok item

module _ (broker : Broker) (topics : Topics) where
  -- The audit row and the event of a change.
  unfoldable pub report :
      String → String → KnowledgeRelationRow → Option String → Scope → State → State
  report audit_type event_type r actor scope s = record s {
    log =
        publish broker (event topics.knowledge_topic event_type (event_payload r))
          (record_audit broker topics (relation_audit audit_type r actor scope) s.log);
  }

  stored :
      KnowledgeRelationRow
      → Option (List KnowledgeRelationRow)
      → Action RelationError State (Unit {0})
  stored row none = raise (relation_conflict row.from_item_id row.to_item_id row.kind)
  stored row (some relations) = modify (λ s. record s { relations = relations })

  unfoldable pub add :
      String
      → CreateRelationRequest
      → Scope
      → String
      → Action RelationError State KnowledgeRelationRow
  unfolding stored
  add from_item_id request scope relation_id = do
    (λ s. (if str_eq from_item_id request.to_item_id then err self_relation else ok tt, s))
    from_item ← (λ s. (
      known (item_not_found from_item_id)
          (get_item from_item_id scope.tenant_id scope.workspace_id s.items),
      s,
    ))
    to_item ← (λ s. (
      known (unknown_target request.to_item_id)
          (get_item request.to_item_id scope.tenant_id scope.workspace_id s.items),
      s,
    ))
    let row = relation_row from_item_id request scope relation_id
    relations ← gets (λ s. insert_relation row s.items s.relations)
    stored row relations
    modify (report "knowledge.relation_added" "KnowledgeRelationAdded" row request.actor scope)
    return row

  found : String → Option KnowledgeRelationRow → Action RelationError State KnowledgeRelationRow
  found relation_id none = raise (relation_not_found relation_id)
  found relation_id (some relation) = return relation

  unfoldable pub remove : String → Scope → Option String → Action RelationError State (Unit {0})
  unfolding found
  remove relation_id scope actor = do
    row ← gets (λ s. get scope relation_id s.relations)
    relation ← found relation_id row
    deleted ← gets (λ s. delete scope relation_id s.relations)
    (λ s. (
      if deleted.0 then ok tt else err (relation_not_found relation_id),
      record s { relations = deleted.1 },
    ))
    modify (report "knowledge.relation_removed" "KnowledgeRelationRemoved" relation actor scope)

  unfoldable pub list_for_item :
      String
      → Scope
      → Action RelationError State (List KnowledgeRelationRow × List KnowledgeRelationRow)
  list_for_item item_id scope = do
    item ← (λ s. (
      known (item_not_found item_id) (get_item item_id scope.tenant_id scope.workspace_id s.items),
      s,
    ))
    outgoing ← gets (λ s. list_rows out_ scope item_id s.relations)
    incoming ← gets (λ s. list_rows in_ scope item_id s.relations)
    return (outgoing, incoming)
