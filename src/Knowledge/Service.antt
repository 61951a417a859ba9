-- ===== src/Knowledge/Service.antt =====
-- core/services/knowledge/knowledge_service.py. `update` is cut between its reads and its writes, where
-- another request may run. The ids that uuid4 and the database give, and the clocks, are arguments.
pub mod Writes
pub mod Races
pub mod History
pub mod Kept
use flycanon.Prelude.{
  ℕ, ◌+◌, String, str_eq, Bool, true, false, Option, none, some, List, [], ◌∷◌, ◌++◌, if◌then◌else◌,
  map,
}
use flycanon.Effects.{
  Value, null, text, number, optional, Payload, AuditEvent, Message, event, Broker, Log, Topics,
  publish, record_audit,
}
use flycanon.Knowledge.{
  KnowledgeStatus, draft, published, superseded, retired, KnowledgeItemRow, KnowledgeVersionRow,
  Citation, CitationRow, Items, Versions, References, is_retired, is_open, not_retired, get_item,
  upsert_item, claim_status_transition, get_version, add_version, upsert_version_status,
  add_citations,
}
use flycanon.Knowledge.Requests.{
  CreateKnowledgeRequest, UpdateKnowledgeRequest, KnowledgeError, item_not_found, already_retired,
  version_conflict, integrity_error, Reply, returned, raised, State, Scope, KnowledgeEvents,
  citations_for, status_value, initial_status, or_else, default_to, prefer, written_event,
  created_event,
}

module _ (broker : Broker) (events : KnowledgeEvents) where
  unfoldable pub publish_lifecycle : String → String → ℕ → Payload → Log → Log
  publish_lifecycle event_type item_id version payload = publish broker (
      event events.topics.knowledge_topic event_type
        (("item_id", text item_id) ∷ ("version", number version) ∷ payload))

  unfoldable pub item_audit : String → String → Option String → Scope → Payload → Log → Log
  item_audit event_type item_id actor scope payload = record_audit broker events.topics (record {
    event_type = event_type;
    subject_kind = "knowledge_item";
    subject_id = item_id;
    tenant_id = scope.tenant_id;
    workspace_id = scope.workspace_id;
    actor = actor;
    correlation_id = scope.correlation_id;
    payload = payload;
  })

-- Behind an insert: what follows it runs only if it has raised nothing.
unfoldable pub then_ :
    (KnowledgeVersionRow → State → State)
    → Reply KnowledgeVersionRow × State
    → Reply KnowledgeVersionRow × State
then_ f (raised e, s) = (raised e, s)
then_ f (returned row, s) = (returned row, f row s)

unfoldable pub new_item : CreateKnowledgeRequest → String → Scope → ℕ → KnowledgeItemRow
new_item request item_id scope db_now = record {
  id = item_id;
  tenant_id = scope.tenant_id;
  workspace_id = scope.workspace_id;
  status = initial_status request.publish_now;
  current_version = 1;
  title = request.title;
  summary = request.summary;
  domain = request.domain;
  jurisdiction = request.jurisdiction;
  tags_json = request.tags;
  metadata_json = request.metadata;
  superseded_by_item_id = none;
  retired_at = none;
  retired_reason = none;
  created_at = db_now;
  updated_at = db_now;
}

unfoldable pub first_version :
    CreateKnowledgeRequest → String → String → Option String → Scope → KnowledgeVersionRow
first_version request item_id version_id candidate_id scope = record {
  id = version_id;
  tenant_id = scope.tenant_id;
  workspace_id = scope.workspace_id;
  knowledge_item_id = item_id;
  version = 1;
  status = initial_status request.publish_now;
  title = request.title;
  summary = request.summary;
  body = request.body;
  domain = request.domain;
  jurisdiction = request.jurisdiction;
  tags_json = request.tags;
  supersedes_version = none;
  superseded_by_version = none;
  originating_candidate_id = candidate_id;
  created_by = request.actor;
  metadata_json = request.metadata;
}

-- The reads and the guards of `update`.
unfoldable pub with_current :
    String
    → KnowledgeItemRow
    → Option KnowledgeVersionRow
    → Reply (KnowledgeItemRow × KnowledgeVersionRow)
with_current item_id item none = raised (item_not_found item_id)
with_current item_id item (some current) = returned (item, current)

unfoldable pub current_of :
    String
    → Scope
    → State
    → Option KnowledgeItemRow
    → Reply (KnowledgeItemRow × KnowledgeVersionRow)
current_of item_id scope s none = raised (item_not_found item_id)
current_of item_id scope s (some item) =
    if is_retired item.status
    then raised (already_retired item_id)
    else with_current item_id item
        (get_version item_id item.current_version scope.tenant_id scope.workspace_id s.versions)

unfoldable pub read_for_update :
    String → Scope → State → Reply (KnowledgeItemRow × KnowledgeVersionRow)
read_for_update item_id scope s =
    current_of item_id scope s (get_item item_id scope.tenant_id scope.workspace_id s.items)

unfoldable pub next_version :
    UpdateKnowledgeRequest
    → KnowledgeItemRow
    → KnowledgeVersionRow
    → String
    → Option String
    → Scope
    → KnowledgeVersionRow
next_version request item current version_id candidate_id scope = record {
  id = version_id;
  tenant_id = scope.tenant_id;
  workspace_id = scope.workspace_id;
  knowledge_item_id = item.id;
  version = item.current_version + 1;
  status = initial_status request.publish_now;
  title = or_else request.title current.title;
  summary = prefer request.summary current.summary;
  body = or_else request.body current.body;
  domain = default_to request.domain current.domain;
  jurisdiction = default_to request.jurisdiction current.jurisdiction;
  tags_json = default_to request.tags current.tags_json;
  supersedes_version = some current.version;
  superseded_by_version = none;
  originating_candidate_id = candidate_id;
  created_by = request.actor;
  metadata_json = default_to request.metadata current.metadata_json;
}

-- The row read, bumped to the new version.
unfoldable pub bumped : KnowledgeItemRow → KnowledgeVersionRow → ℕ → KnowledgeItemRow
bumped item new now = record item {
  current_version = new.version;
  status = new.status;
  title = new.title;
  summary = new.summary;
  domain = new.domain;
  jurisdiction = new.jurisdiction;
  tags_json = new.tags_json;
  updated_at = now;
}

unfoldable pub outdated : KnowledgeVersionRow → ℕ → KnowledgeVersionRow
outdated current new_version = record current {
  status = superseded;
  superseded_by_version = some new_version;
}

module _ (valid : References) where
  -- The insert of a version's citations; the version stays if it fails.
  unfoldable pub cited :
      KnowledgeVersionRow → State → Option (List CitationRow) → Reply KnowledgeVersionRow × State
  cited row s none = (raised integrity_error, s)
  cited row s (some rows) = (returned row, record s { citations = rows })

  -- The insert of a version and its citations, with the error that a UNIQUE constraint becomes.
  unfoldable pub stored :
      KnowledgeError
      → KnowledgeVersionRow
      → List Citation
      → Scope
      → State
      → Option Versions
      → Reply KnowledgeVersionRow × State
  stored conflict row citations scope s none = (raised conflict, s)
  stored conflict row citations scope s (some versions) =
      cited row (record s { versions = versions })
        (add_citations valid (citations_for row.id citations scope) s.citations)

module _ (broker : Broker) (events : KnowledgeEvents) where
  unfoldable pub after_create : CreateKnowledgeRequest → String → Scope → State → State
  after_create request item_id scope s =
      let status = status_value (initial_status request.publish_now) in
      record s {
        log =
            publish_lifecycle broker events (written_event events request.publish_now) item_id 1
              (("title", text request.title)
                ∷ ("domain", text request.domain)
                ∷ ("status", text status)
                ∷ [])
              (item_audit broker events (created_event request.publish_now) item_id request.actor
                scope
                (("version", number 1)
                  ∷ ("domain", text request.domain)
                  ∷ ("title", text request.title)
                  ∷ [])
                s.log);
      }

  unfoldable pub after_update :
      UpdateKnowledgeRequest
      → KnowledgeItemRow
      → KnowledgeVersionRow
      → Scope
      → ℕ
      → KnowledgeVersionRow
      → State
      → State
  after_update request item current scope now new s = record s {
    items = upsert_item (bumped item new now) s.items;
    versions = upsert_version_status (outdated current new.version) s.versions;
    log =
        publish_lifecycle broker events (written_event events request.publish_now) item.id
          new.version
          (("previous_version", number current.version)
            ∷ ("status", text (status_value new.status))
            ∷ [])
          (item_audit broker events "knowledge.updated" item.id request.actor scope
            (("version", number new.version)
              ∷ ("previous_version", number current.version)
              ∷ ("status", text (status_value new.status))
              ∷ [])
            s.log);
  }

module _ (broker : Broker) (events : KnowledgeEvents) (valid : References) where
  unfoldable pub create :
      CreateKnowledgeRequest
      → String
      → String
      → Option String
      → Scope
      → ℕ
      → State
      → Reply KnowledgeVersionRow × State
  create request item_id version_id candidate_id scope db_now s =
      let s' = record s { items = upsert_item (new_item request item_id scope db_now) s.items } in
      let row = first_version request item_id version_id candidate_id scope in
      then_ (λ v. after_create broker events request item_id scope)
        (stored valid integrity_error row request.citations scope s' (add_version row s'.versions))

  -- The writes of `update`, for the two rows that it has read.
  unfoldable pub write_update :
      UpdateKnowledgeRequest
      → KnowledgeItemRow
      → KnowledgeVersionRow
      → String
      → Option String
      → Scope
      → ℕ
      → State
      → Reply KnowledgeVersionRow × State
  write_update request item current version_id candidate_id scope now s =
      let new = next_version request item current version_id candidate_id scope in
      then_ (after_update broker events request item current scope now) (
        stored valid (version_conflict item.id new.version) new (default_to request.citations [])
          scope s (add_version new s.versions))

  unfoldable pub written :
      UpdateKnowledgeRequest
      → String
      → Option String
      → Scope
      → ℕ
      → State
      → Reply (KnowledgeItemRow × KnowledgeVersionRow)
      → Reply KnowledgeVersionRow × State
  written request version_id candidate_id scope now s (raised e) = (raised e, s)
  written request version_id candidate_id scope now s (returned (item, current)) =
      write_update request item current version_id candidate_id scope now s

  unfoldable pub update :
      String
      → UpdateKnowledgeRequest
      → String
      → Option String
      → Scope
      → ℕ
      → State
      → Reply KnowledgeVersionRow × State
  update item_id request version_id candidate_id scope now s =
      written request version_id candidate_id scope now s (read_for_update item_id scope s)
