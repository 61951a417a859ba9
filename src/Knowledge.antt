-- ===== src/Knowledge.antt =====
-- models/repositories/knowledge_repository.py over the rows of models/entities/knowledge_item.py,
-- knowledge_version.py and citation.py. Each repository call is a transaction of its own. Domains and
-- jurisdictions are the values of their enumerations; a float that the code only copies is its text.
pub mod Requests
pub mod Service
pub mod Lifecycle
pub mod Tests
use flycanon.Prelude.{
  ℕ, String, str_eq, Bool, true, false, ◌&&◌, ◌||◌, Option, none, some, List, [], ◌∷◌, ◌++◌, ◌==◌,
  if◌then◌else◌, is_some, map,
}
use flycanon.Effects.{Payload, Log}
use flycanon.Table.{select, insert, upsert, find, claim_row}

pub data KnowledgeStatus : Type 0 where
  draft published superseded retired : KnowledgeStatus

pub record KnowledgeItemRow : Type 0 where
  pub id : String
  pub tenant_id : String
  pub workspace_id : String
  pub status : KnowledgeStatus
  pub current_version : ℕ
  pub title : String
  pub summary : Option String
  pub domain : String
  pub jurisdiction : String
  pub tags_json : List String
  pub metadata_json : Payload
  pub superseded_by_item_id : Option String
  pub retired_at : Option ℕ
  pub retired_reason : Option String
  pub created_at : ℕ
  pub updated_at : ℕ

pub record KnowledgeVersionRow : Type 0 where
  pub id : String
  pub tenant_id : String
  pub workspace_id : String
  pub knowledge_item_id : String
  pub version : ℕ
  pub status : KnowledgeStatus
  pub title : String
  pub summary : Option String
  pub body : String
  pub domain : String
  pub jurisdiction : String
  pub tags_json : List String
  pub supersedes_version : Option ℕ
  pub superseded_by_version : Option ℕ
  pub originating_candidate_id : Option String
  pub created_by : Option String
  pub metadata_json : Payload

pub record Citation : Type 0 where
  pub source_id : String
  pub chunk_id : Option String
  pub quote : Option String
  pub relevance : Option String
  pub page : Option ℕ

pub record CitationRow : Type 0 where
  pub tenant_id : String
  pub workspace_id : String
  pub knowledge_version_id : String
  pub chunk_id : Option String
  pub source_id : String
  pub quote : Option String
  pub relevance : Option String
  pub page : Option ℕ

abbrev pub Items : Type 0
Items = List KnowledgeItemRow

abbrev pub Versions : Type 0
Versions = List KnowledgeVersionRow

abbrev pub item_key : KnowledgeItemRow → String
item_key r = r.id

abbrev pub version_key : KnowledgeVersionRow → String
version_key v = v.id

abbrev pub in_scope : String → String → KnowledgeItemRow → Bool
in_scope tenant_id workspace_id r =
    str_eq r.tenant_id tenant_id && str_eq r.workspace_id workspace_id

abbrev pub is_retired : KnowledgeStatus → Bool
is_retired retired = true
is_retired _ = false

abbrev pub is_open : KnowledgeStatus → Bool
is_open draft = true
is_open published = true
is_open _ = false

abbrev pub not_retired : KnowledgeStatus → Bool
not_retired retired = false
not_retired _ = true

unfoldable pub get_item : String → String → String → Items → Option KnowledgeItemRow
get_item item_id tenant_id workspace_id =
    select (λ (r : KnowledgeItemRow). str_eq r.id item_id && in_scope tenant_id workspace_id r)

pub get_item_across_workspaces : String → Items → Option KnowledgeItemRow
get_item_across_workspaces item_id = find item_key item_id

-- session.merge of a whole row
unfoldable pub upsert_item : KnowledgeItemRow → Items → Items
upsert_item row = upsert item_key row

-- The columns that `claim_status_transition` sets; an argument that is None leaves its column.
unfoldable pub transition :
    KnowledgeStatus → Option String → Option String → Bool → ℕ → KnowledgeItemRow → KnowledgeItemRow
transition to_status superseded_by_item_id retired_reason mark_retired_at db_now r = record r {
  status = to_status;
  superseded_by_item_id =
      if is_some superseded_by_item_id then superseded_by_item_id else r.superseded_by_item_id;
  retired_at = if mark_retired_at then some db_now else r.retired_at;
  retired_reason = if is_some retired_reason then retired_reason else r.retired_reason;
  updated_at = db_now;
}

-- `from_statuses` is the test of membership in the list that the source gives.
pub claim_status_transition :
    String
    → (KnowledgeStatus → Bool)
    → KnowledgeStatus
    → Option String
    → Option String
    → Bool
    → ℕ
    → Items
    → Option KnowledgeItemRow × Items
claim_status_transition item_id from_statuses to_status superseded_by retired_reason mark_retired_at
      db_now =
    claim_row item_key item_id (λ r. from_statuses r.status)
      (transition to_status superseded_by retired_reason mark_retired_at db_now)

abbrev pub is_version : String → ℕ → KnowledgeVersionRow → Bool
is_version item_id version v = str_eq v.knowledge_item_id item_id && (v.version == version)

pub get_version : String → ℕ → String → String → Versions → Option KnowledgeVersionRow
get_version item_id version tenant_id workspace_id = select (λ (v : KnowledgeVersionRow).
    is_version item_id version v
    && (str_eq v.tenant_id tenant_id && str_eq v.workspace_id workspace_id))

-- UNIQUE(knowledge_item_id, version), and the primary key
abbrev pub is_taken : KnowledgeVersionRow → Versions → Bool
is_taken row versions =
    is_some (select (is_version row.knowledge_item_id row.version) versions)
    || is_some (find version_key row.id versions)

-- None is an IntegrityError.
unfoldable pub add_version : KnowledgeVersionRow → Versions → Option Versions
add_version row versions = if is_taken row versions then none else some (insert row versions)

pub upsert_version_status : KnowledgeVersionRow → Versions → Versions
upsert_version_status row = upsert version_key row

-- The foreign keys of a citation to its source and its chunk; those are other tables'.
abbrev pub References : Type 0
References = CitationRow → Bool

abbrev pub all_valid : References → List CitationRow → Bool
all_valid valid [] = true
all_valid valid (row ∷ rows) = valid row && all_valid valid rows

-- One transaction: a foreign key that fails undoes all the rows, and is an IntegrityError.
unfoldable pub add_citations :
    References → List CitationRow → List CitationRow → Option (List CitationRow)
add_citations valid rows stored = if all_valid valid rows then some (stored ++ rows) else none
