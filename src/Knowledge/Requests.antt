-- ===== src/Knowledge/Requests.antt =====
-- What core/services/knowledge/knowledge_service.py is called with and what it replies: the requests of
-- interfaces/dtos/knowledge.py, the errors of core/services/knowledge/errors.py, the rows it works on.
use flycanon.Prelude.{
  ℕ, String, str_eq, Bool, true, false, Option, none, some, List, [], ◌∷◌, if◌then◌else◌,
}
use flycanon.Effects.{Payload, Log, Topics}
use flycanon.Knowledge.{
  KnowledgeStatus, draft, published, superseded, retired, Citation, CitationRow, Items, Versions,
}

pub record CreateKnowledgeRequest : Type 0 where
  pub title : String
  pub body : String
  pub summary : Option String
  pub domain : String
  pub jurisdiction : String
  pub tags : List String
  pub citations : List Citation
  pub publish_now : Bool
  pub actor : Option String
  pub metadata : Payload

pub record UpdateKnowledgeRequest : Type 0 where
  pub title : Option String
  pub body : Option String
  pub summary : Option String
  pub domain : Option String
  pub jurisdiction : Option String
  pub tags : Option (List String)
  pub citations : Option (List Citation)
  pub publish_now : Bool
  pub actor : Option String
  pub metadata : Option Payload

pub record SupersedeKnowledgeRequest : Type 0 where
  pub superseded_by_item_id : String
  pub reason : Option String
  pub actor : Option String

pub record RetireKnowledgeRequest : Type 0 where
  pub reason : String
  pub actor : Option String

-- core/services/knowledge/errors.py; `integrity_error` is the database's own.
pub data KnowledgeError : Type 0 where
  item_not_found : String → KnowledgeError
  already_retired : String → KnowledgeError
  version_conflict : String → ℕ → KnowledgeError
  invalid_target : String → String → KnowledgeError
  integrity_error : KnowledgeError

pub data Reply (A : Type 0) : Type 0 where
  returned : A → Reply A
  raised : KnowledgeError → Reply A

pub record State : Type 0 where
  pub items : Items
  pub versions : Versions
  pub citations : List CitationRow
  pub log : Log

-- The scope and the correlation id that each request carries.
pub record Scope : Type 0 where
  pub tenant_id : String
  pub workspace_id : String
  pub correlation_id : Option String

pub record KnowledgeEvents : Type 0 where
  pub knowledge_published_event : String
  pub knowledge_superseded_event : String
  pub knowledge_retired_event : String
  pub topics : Topics

unfoldable pub citations_for : String → List Citation → Scope → List CitationRow
citations_for version_id [] scope = []
citations_for version_id (c ∷ cs) scope =
    record {
      tenant_id = scope.tenant_id;
      workspace_id = scope.workspace_id;
      knowledge_version_id = version_id;
      chunk_id = c.chunk_id;
      source_id = c.source_id;
      quote = c.quote;
      relevance = c.relevance;
      page = c.page;
    }
    ∷ citations_for version_id cs scope

abbrev pub status_value : KnowledgeStatus → String
status_value draft = "draft"
status_value published = "published"
status_value superseded = "superseded"
status_value retired = "retired"

abbrev pub initial_status : Bool → KnowledgeStatus
initial_status true = published
initial_status false = draft

-- `request.title or current.title`
abbrev pub or_else : Option String → String → String
or_else none s = s
or_else (some t) s = if str_eq t "" then s else t

-- `x if x is not None else y`
abbrev pub default_to {ℓ} : {A : Type ℓ} → Option A → A → A
default_to none y = y
default_to (some x) y = x

abbrev pub prefer : Option String → Option String → Option String
prefer none y = y
prefer (some x) y = some x

abbrev pub written_event : KnowledgeEvents → Bool → String
written_event events true = events.knowledge_published_event
written_event events false = "KnowledgeItemDrafted"

abbrev pub created_event : Bool → String
created_event true = "knowledge.published"
created_event false = "knowledge.draft"
