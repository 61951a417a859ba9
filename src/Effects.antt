-- ===== src/Effects.antt =====
-- core/services/audit/audit_service.py, and the publishing helpers that the services repeat
-- (`_publish`, `_publish_lifecycle`, `_publish_finish`). The ids and time stamps that the database
-- gives to audit rows are not modelled.
use flycanon.Prelude.{
  ◌≡◌, arith, ℕ, String, Bool, Option, none, some, List, [], ◌∷◌, ◌++◌, if◌then◌else◌,
}

-- A JSON value of an event payload.
pub data Value : Type 0 where
  null : Value
  text : String → Value
  number : ℕ → Value

abbrev pub Payload : Type 0
Payload = List (String × Value)

abbrev pub optional : Option String → Value
optional none = null
optional (some s) = text s

pub record AuditEvent : Type 0 where
  pub event_type : String
  pub subject_kind : String
  pub subject_id : String
  pub tenant_id : String
  pub workspace_id : String
  pub actor : Option String
  pub correlation_id : Option String
  pub payload : Payload

-- What the broker is sent; an audit row is broadcast as the row itself.
pub data Message : Type 0 where
  event : String → String → Payload → Message
  audit_broadcast : String → String → AuditEvent → Message

-- Whether the broker takes a message. A publisher that is not wired takes none, and one that raises
-- has its exception logged and swallowed.
abbrev pub Broker : Type 0
Broker = Message → Bool

pub record Log : Type 0 where
  pub audit : List AuditEvent
  pub published : List Message

pub record Topics : Type 0 where
  pub audit_topic : String
  pub audit_event : String
  pub ingest_topic : String
  pub knowledge_topic : String

module _ (broker : Broker) where
  unfoldable pub publish : Message → Log → Log
  publish message log =
      if broker message then record log { published = log.published ++ message ∷ [] } else log

  -- `AuditService.record`: the row is stored, and then broadcast.
  unfoldable pub record_audit : Topics → AuditEvent → Log → Log
  unfolding publish
  record_audit topics row log =
      publish (audit_broadcast topics.audit_topic topics.audit_event row)
        (record log { audit = log.audit ++ row ∷ [] })

  -- Messages leave the audit table alone; an audit row is added whatever the broker does.
  pub audit-publish : (m : Message) (log : Log) → (publish m log).audit ≡ log.audit
  unfolding publish
  audit-publish m log = ground arith

  pub audit-record_audit :
      (topics : Topics) (row : AuditEvent) (log : Log)
      → (record_audit topics row log).audit ≡ log.audit ++ row ∷ []
  unfolding record_audit publish
  audit-record_audit topics row log = ground arith
