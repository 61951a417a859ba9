-- ===== src/Candidates/Service.antt =====
-- core/services/consolidation/candidate_service.py: `accept` and `reject`. The lookup of a chunk's page
-- is a parameter, since chunks are another table; the calls of the knowledge service are the model's.
pub mod Claims
pub mod Decisions
use flycanon.Prelude.{ℕ, String, str_eq, Bool, Option, none, some, List, [], ◌∷◌, if◌then◌else◌}
use flycanon.Effects.{text, number, Payload, event, Broker, Log, publish, record_audit}
use flycanon.Knowledge.{Citation, KnowledgeVersionRow, References}
use flycanon.Knowledge.Requests.{
  CreateKnowledgeRequest, UpdateKnowledgeRequest, KnowledgeError, Reply, returned, raised, State,
  Scope, KnowledgeEvents,
}
use flycanon.Knowledge.Service.{create, update}
use flycanon.Candidates.{
  CandidateStatus, accepted, rejected, RawCitation, CandidateRow, Candidates, get, claim_decision,
  finalise,
}

pub record AcceptCandidateRequest : Type 0 where
  pub target_item_id : Option String
  pub publish_now : Bool
  pub actor : Option String

pub record RejectCandidateRequest : Type 0 where
  pub reason : String
  pub actor : Option String

-- core/services/consolidation/errors.py, and what the knowledge service raises.
pub data CandidateError : Type 0 where
  candidate_not_found : String → CandidateError
  already_decided : String → CandidateStatus → CandidateError
  knowledge_error : KnowledgeError → CandidateError

pub data Decision : Type 0 where
  decided_row : CandidateRow → Decision
  refused : CandidateError → Decision

-- The inbox, and the store of the knowledge service with its log.
pub record Inbox : Type 0 where
  pub candidates : Candidates
  pub store : State

pub record CandidateEvents : Type 0 where
  pub candidate_accepted_event : String
  pub candidate_rejected_event : String
  pub knowledge : KnowledgeEvents

-- The ids and the clocks of one request.
pub record Fresh : Type 0 where
  pub item_id : String
  pub version_id : String
  pub now : ℕ

module _ (page_of : String → Option ℕ) where
  -- `page_by_chunk.get(chunk_id) if chunk_id else None`
  unfoldable pub page_of_citation : Option String → Option ℕ
  page_of_citation none = none
  page_of_citation (some chunk_id) = if str_eq chunk_id "" then none else page_of chunk_id

  unfoldable pub citations_from : String → List RawCitation → List Citation
  citations_from source_id [] = []
  citations_from source_id (raw ∷ rest) =
      record {
        source_id = source_id;
        chunk_id = raw.chunk_id;
        quote = raw.quote;
        relevance = raw.relevance;
        page = page_of_citation raw.chunk_id;
      }
      ∷ citations_from source_id rest

module _ (broker : Broker) (events : CandidateEvents) where
  pub record_decision : String → String → String → Option String → Scope → Payload → Log → Log
  record_decision audit_type event_type candidate_id actor scope payload log =
      publish broker
        (event events.knowledge.topics.knowledge_topic event_type
          (("candidate_id", text candidate_id) ∷ payload))
        (record_audit broker events.knowledge.topics
          (record {
            event_type = audit_type;
            subject_kind = "candidate";
            subject_id = candidate_id;
            tenant_id = scope.tenant_id;
            workspace_id = scope.workspace_id;
            actor = actor;
            correlation_id = scope.correlation_id;
            payload = payload;
          })
          log)

module _ (broker : Broker) (events : CandidateEvents) (valid : References)
    (page_of : String → Option ℕ) where
  -- The write of the knowledge service for a claimed candidate: a new item, or a version of the target.
  unfoldable pub materialise :
      Option String
      → AcceptCandidateRequest
      → CandidateRow
      → Fresh
      → Scope
      → State
      → Reply KnowledgeVersionRow × State
  materialise none request candidate fresh scope s =
      create broker events.knowledge valid
        (record {
          title = candidate.title;
          body = candidate.body;
          summary = candidate.summary;
          domain = candidate.domain;
          jurisdiction = candidate.jurisdiction;
          tags = candidate.tags_json;
          citations = citations_from page_of candidate.source_id candidate.citations_json;
          publish_now = request.publish_now;
          actor = request.actor;
          metadata = ("originating_candidate_id", text candidate.id) ∷ [];
        })
        fresh.item_id fresh.version_id (some candidate.id) scope fresh.now s
  materialise (some target) request candidate fresh scope s =
      update broker events.knowledge valid target
        (record {
          title = some candidate.title;
          body = some candidate.body;
          summary = candidate.summary;
          domain = some candidate.domain;
          jurisdiction = some candidate.jurisdiction;
          tags = some candidate.tags_json;
          citations = some (citations_from page_of candidate.source_id candidate.citations_json);
          publish_now = request.publish_now;
          actor = request.actor;
          metadata = some (("originating_candidate_id", text candidate.id) ∷ []);
        })
        fresh.version_id (some candidate.id) scope fresh.now s

  abbrev pub row_or : CandidateRow → Option CandidateRow → CandidateRow
  row_or candidate none = candidate
  row_or candidate (some stored) = stored

  -- Behind the write: an error of the knowledge service passes through, with the claim kept.
  pub after_materialise :
      String
      → AcceptCandidateRequest
      → CandidateRow
      → Scope
      → Candidates
      → Reply KnowledgeVersionRow × State
      → Decision × Inbox
  after_materialise candidate_id request candidate scope rows (raised e, store) =
      (refused (knowledge_error e), record { candidates = rows; store = store })
  after_materialise candidate_id request candidate scope rows (returned v, store) =
      let (stored, rows') =
        finalise candidate_id (some v.knowledge_item_id) (some v.version) [] rows in
      (
        decided_row (row_or candidate stored),
        record {
          candidates = rows';
          store = record store {
            log =
                record_decision broker events "candidate.accepted" events.candidate_accepted_event
                  candidate_id request.actor scope
                  (("materialised_knowledge_item_id", text v.knowledge_item_id)
                    ∷ ("materialised_version", number v.version)
                    ∷ [])
                  store.log;
          };
        },
      )

  pub after_accept_claim :
      String
      → AcceptCandidateRequest
      → CandidateRow
      → Fresh
      → Scope
      → Inbox
      → Option CandidateRow × Candidates
      → Decision × Inbox
  after_accept_claim candidate_id request existing fresh scope s (none, rows) =
      (refused (already_decided candidate_id existing.status), record s { candidates = rows })
  after_accept_claim candidate_id request existing fresh scope s (some candidate, rows) =
      after_materialise candidate_id request candidate scope rows
        (materialise request.target_item_id request candidate fresh scope s.store)

  pub accept_found :
      String
      → AcceptCandidateRequest
      → Fresh
      → Scope
      → Inbox
      → Option CandidateRow
      → Decision × Inbox
  accept_found candidate_id request fresh scope s none =
      (refused (candidate_not_found candidate_id), s)
  accept_found candidate_id request fresh scope s (some existing) =
      after_accept_claim candidate_id request existing fresh scope s
        (claim_decision candidate_id accepted request.actor fresh.now s.candidates)

  pub accept : String → AcceptCandidateRequest → Fresh → Scope → Inbox → Decision × Inbox
  accept candidate_id request fresh scope s =
      accept_found candidate_id request fresh scope s
        (get candidate_id scope.tenant_id scope.workspace_id s.candidates)

  pub after_reject_claim :
      String
      → RejectCandidateRequest
      → CandidateRow
      → Scope
      → Inbox
      → Option CandidateRow × Candidates
      → Decision × Inbox
  after_reject_claim candidate_id request existing scope s (none, rows) =
      (refused (already_decided candidate_id existing.status), record s { candidates = rows })
  after_reject_claim candidate_id request existing scope s (some candidate, rows) =
      let (stored, rows') =
        finalise candidate_id none none (("rejection_reason", text request.reason) ∷ []) rows in
      (
        decided_row (row_or candidate stored),
        record {
          candidates = rows';
          store = record s.store {
            log =
                record_decision broker events "candidate.rejected" events.candidate_rejected_event
                  candidate_id request.actor scope (("reason", text request.reason) ∷ [])
                  s.store.log;
          };
        },
      )

  pub reject_found :
      String → RejectCandidateRequest → ℕ → Scope → Inbox → Option CandidateRow → Decision × Inbox
  reject_found candidate_id request now scope s none =
      (refused (candidate_not_found candidate_id), s)
  reject_found candidate_id request now scope s (some existing) =
      after_reject_claim candidate_id request existing scope s
        (claim_decision candidate_id rejected request.actor now s.candidates)

  pub reject : String → RejectCandidateRequest → ℕ → Scope → Inbox → Decision × Inbox
  reject candidate_id request now scope s =
      reject_found candidate_id request now scope s
        (get candidate_id scope.tenant_id scope.workspace_id s.candidates)
