-- ===== src/Candidates/Tests.antt =====
-- The inbox with two candidates, and its theorems at them.
use flycanon.Prelude.{
  ℕ, String, str_eq, ◌≡◌, refl, Bool, true, false, Option, none, some, List, [], ◌∷◌, ◌++◌, map,
  All,
}
use flycanon.Effects.{text, Broker}
use flycanon.Table.{select, insert, upsert, find, Unique}
use flycanon.Knowledge.{
  published, KnowledgeVersionRow, References, get_item, upsert_item, add_version, add_citations,
}
use flycanon.Knowledge.Requests.{
  item_not_found, Reply, raised, returned, State, Scope, citations_for,
}
use flycanon.Knowledge.Service.{
  update, read_for_update, current_of, written, create, new_item, first_version, then_, stored,
  cited,
}
use flycanon.Candidates.{
  CandidateStatus, proposed, accepted, rejected, CandidateRow, candidate_key, is_proposed, get,
  decided,
}
use flycanon.Candidates.Proposals.{
  CandidateProposal, add_many, proposal_to_row, proposed_audit, propose_from_source, propose-stores,
}
use flycanon.Candidates.Service.{
  AcceptCandidateRequest, RejectCandidateRequest, already_decided, knowledge_error, decided_row,
  refused, Inbox, CandidateEvents, Fresh, materialise, citations_from, page_of_citation, accept,
  reject,
}
use flycanon.Candidates.Service.Decisions.{decided_once, accept_stranded, accept_materialises}

abbrev broker : Broker
broker m = true

abbrev events : CandidateEvents
events = record {
  candidate_accepted_event = "CandidateAccepted";
  candidate_rejected_event = "CandidateRejected";
  knowledge = record {
    knowledge_published_event = "KnowledgeItemPublished";
    knowledge_superseded_event = "KnowledgeItemSuperseded";
    knowledge_retired_event = "KnowledgeItemRetired";
    topics = record {
      audit_topic = "canon.audit";
      audit_event = "AuditRecorded";
      ingest_topic = "canon.ingest";
      knowledge_topic = "canon.knowledge";
    };
  };
}

abbrev valid : References
valid row = true

abbrev page_of : String → Option ℕ
page_of chunk_id = if_known (str_eq chunk_id "ch1")
  where
    if_known : Bool → Option ℕ
    if_known true = some 4
    if_known false = none

abbrev scope : Scope
scope = record { tenant_id = "t"; workspace_id = "w"; correlation_id = none }

abbrev candidate : String → CandidateStatus → CandidateRow
candidate id status = record {
  id = id;
  tenant_id = "t";
  workspace_id = "w";
  status = status;
  source_id = "s1";
  title = "Scope";
  summary = none;
  body = "All of it.";
  domain = "legal";
  jurisdiction = "GLOBAL";
  tags_json = [];
  citations_json = record { chunk_id = some "ch1"; quote = none; relevance = none } ∷ [];
  score = none;
  rationale = none;
  materialised_knowledge_item_id = none;
  materialised_version = none;
  actor = none;
  decided_at = none;
  decided_by = none;
  metadata_json = [];
}

abbrev inbox : Inbox
inbox = record {
  candidates = candidate "c1" proposed ∷ candidate "c2" rejected ∷ [];
  store = record {
    items = [];
    versions = [];
    citations = [];
    log = record { audit = []; published = [] };
  };
}

inbox-Unique : Unique candidate_key inbox.candidates
inbox-Unique = ((refl, tt), (tt, tt))

got_c1 : get "c1" "t" "w" inbox.candidates ≡ some (candidate "c1" proposed)
unfolding get select
got_c1 = refl

got_c2 : get "c2" "t" "w" inbox.candidates ≡ some (candidate "c2" rejected)
unfolding get select
got_c2 = refl

abbrev fresh : Fresh
fresh = record { item_id = "k1"; version_id = "v1"; now = 9 }

abbrev accept_new : AcceptCandidateRequest
accept_new = record { target_item_id = none; publish_now = true; actor = some "ann" }

abbrev accept_missing : AcceptCandidateRequest
accept_missing = record { target_item_id = some "k7"; publish_now = true; actor = some "ann" }

abbrev rejection : RejectCandidateRequest
rejection = record { reason = "dup"; actor = some "bob" }

decided_once_example :
    (accept broker events valid page_of "c2" accept_new fresh scope inbox
      ≡ (refused (already_decided "c2" rejected), inbox))
    × (reject broker events valid page_of "c2" rejection 9 scope inbox
        ≡ (refused (already_decided "c2" rejected), inbox))
decided_once_example =
    decided_once broker events valid page_of "c2" accept_new rejection fresh scope inbox
      inbox-Unique got_c2 refl

abbrev mine : CandidateRow
mine = decided accepted (some "ann") 9 (candidate "c1" proposed)

no_target :
    (materialise broker events valid page_of
      (some "k7")
      accept_missing
      mine
      fresh
      scope
      inbox.store).0
    ≡ raised (item_not_found "k7")
unfolding materialise update read_for_update current_of written get_item select
no_target = refl

accept_stranded_example :
    let (decision, s') = accept broker events valid page_of "c1" accept_missing fresh scope inbox in
    (decision ≡ refused (knowledge_error (item_not_found "k7")))
    × (find candidate_key "c1" s'.candidates ≡ some mine)
    × ((request' : AcceptCandidateRequest) (request'' : RejectCandidateRequest) (fresh' : Fresh)
        → (accept broker events valid page_of "c1" request' fresh' scope s'
            ≡ (refused (already_decided "c1" accepted), s'))
          × (reject broker events valid page_of "c1" request'' fresh'.now scope s'
              ≡ (refused (already_decided "c1" accepted), s')))
accept_stranded_example =
    accept_stranded broker events valid page_of "c1" accept_missing fresh scope inbox inbox-Unique
      got_c1 refl no_target

program : Unit {0}
unfolding materialise citations_from page_of_citation citations_for create new_item first_version
    then_ stored cited upsert_item add_version add_citations select insert upsert decided
program = tt

abbrev first : KnowledgeVersionRow
first = record {
  id = "v1";
  tenant_id = "t";
  workspace_id = "w";
  knowledge_item_id = "k1";
  version = 1;
  status = published;
  title = "Scope";
  summary = none;
  body = "All of it.";
  domain = "legal";
  jurisdiction = "GLOBAL";
  tags_json = [];
  supersedes_version = none;
  superseded_by_version = none;
  originating_candidate_id = some "c1";
  created_by = some "ann";
  metadata_json = ("originating_candidate_id", text "c1") ∷ [];
}

abbrev wrote : Reply KnowledgeVersionRow × State
wrote = materialise broker events valid page_of none accept_new mine fresh scope inbox.store

written_ok : wrote.0 ≡ returned first
unfolding program
written_ok = refl

accept_materialises_example :
    let final = record (candidate "c1" proposed) {
      status = accepted;
      decided_at = some 9;
      decided_by = some "ann";
      materialised_knowledge_item_id = some "k1";
      materialised_version = some 1;
    } in
    let (decision, s') = accept broker events valid page_of "c1" accept_new fresh scope inbox in
    (decision ≡ decided_row final)
    × (find candidate_key "c1" s'.candidates ≡ some final)
    × (s'.store.items ≡ wrote.1.items)
    × (s'.store.versions ≡ wrote.1.versions)
    × (s'.store.citations ≡ wrote.1.citations)
accept_materialises_example =
    accept_materialises broker events valid page_of "c1" accept_new fresh scope inbox inbox-Unique
      got_c1 refl written_ok

abbrev proposal : String × CandidateProposal
proposal = (
  "c3",
  record {
    title = "Liability";
    summary = none;
    body = "Limited.";
    domain = "legal";
    jurisdiction = "GLOBAL";
    tags = [];
    citations = [];
    score = some "0.8";
    rationale = none;
  },
)

abbrev new_rows : List CandidateRow
new_rows = map (proposal_to_row "s1" (some "ann") scope) (proposal ∷ [])

stored_new : add_many new_rows inbox.candidates ≡ some (inbox.candidates ++ new_rows)
unfolding add_many proposal_to_row select insert
stored_new = refl

propose-stores_example :
    let (rows', log') =
      propose_from_source broker events.knowledge "CandidateProposed" "s1"
        (proposal ∷ [])
        (some "ann")
        scope
        inbox.candidates
        inbox.store.log in
    Unique candidate_key rows'
    × (rows' ≡ inbox.candidates ++ new_rows)
    × All
        (λ (r : CandidateRow).
          (is_proposed r.status ≡ true)
          × (r.tenant_id ≡ "t")
          × (r.workspace_id ≡ "w")
          × (r.source_id ≡ "s1"))
        new_rows
    × (log'.audit ≡ [] ++ map (proposed_audit (some "ann") scope) new_rows)
propose-stores_example =
    propose-stores broker events.knowledge "CandidateProposed" "s1" (proposal ∷ []) (some "ann")
      scope inbox.candidates inbox.store.log inbox-Unique stored_new
