-- ===== src/Relations/Tests.antt =====
-- Two items and an edge between them.
use flycanon.Prelude.{String, ◌≡◌, refl, true, none, some, [], ◌∷◌, ◌++◌}
use flycanon.Prelude.Actions.{ok, err}
use flycanon.Effects.{Broker, Topics}
use flycanon.Table.{select}
use flycanon.Knowledge.{published, KnowledgeItemRow, get_item}
use flycanon.Relations.{
  CreateRelationRequest, State, Scope, self_relation, get, relation_row, relation_audit, add,
  remove, list_rows, list_for_item,
}
use flycanon.Relations.Graph.{remove-add}

abbrev broker : Broker
broker m = true

abbrev topics : Topics
topics = record {
  audit_topic = "canon.audit";
  audit_event = "AuditRecorded";
  ingest_topic = "canon.ingest";
  knowledge_topic = "canon.knowledge";
}

abbrev scope : Scope
scope = record { tenant_id = "t"; workspace_id = "w"; correlation_id = none }

abbrev item : String → KnowledgeItemRow
item id = record {
  id = id;
  tenant_id = "t";
  workspace_id = "w";
  status = published;
  current_version = 1;
  title = "title";
  summary = none;
  domain = "d";
  jurisdiction = "eu";
  tags_json = [];
  metadata_json = [];
  superseded_by_item_id = none;
  retired_at = none;
  retired_reason = none;
  created_at = 0;
  updated_at = 0;
}

abbrev request : CreateRelationRequest
request = record {
  to_item_id = "k2";
  kind = "depends_on";
  since_version = none;
  note = none;
  actor = some "ann";
}

abbrev two_items : State
two_items = record {
  items = item "k1" ∷ item "k2" ∷ [];
  relations = [];
  log = record { audit = []; published = [] };
}

-- An item has no relation to itself.
no_loop : (add broker topics "k2" request scope "r1" two_items).0 ≡ err self_relation
unfolding add
no_loop = refl

listed :
    (list_for_item broker topics "k2" scope
      (record two_items { relations = relation_row "k1" request scope "r1" ∷ [] })).0
    ≡ ok ([], relation_row "k1" request scope "r1" ∷ [])
unfolding list_for_item list_rows get_item select relation_row
listed = refl

remove-add_example :
    let row = relation_row "k1" request scope "r1" in
    let s1 = (add broker topics "k1" request scope "r1" two_items).1 in
    let s2 = (remove broker topics "r1" scope none s1).1 in
    ((add broker topics "k1" request scope "r1" two_items).0 ≡ ok row)
    × (get scope "r1" s1.relations ≡ some row)
    × ((remove broker topics "r1" scope none s1).0 ≡ ok tt)
    × (s2.relations ≡ [])
    × (s2.log.audit
        ≡ ([] ++ relation_audit "knowledge.relation_added" row request.actor scope ∷ [])
          ++ relation_audit "knowledge.relation_removed" row none scope ∷ [])
unfolding get_item select
remove-add_example =
    remove-add broker topics "k1" request scope "r1" none two_items refl refl refl refl refl
