-- ===== src/Candidates/Proposals.antt =====
-- core/services/consolidation/candidate_service.py: `propose_from_source`, from the language model's
-- answer on. The source and its chunks are read elsewhere; the ids of the new rows are arguments.
use flycanon.Prelude.{
  String, ◌≡◌, refl, sym, subst, ap, ◌∙◌, true, Option, none, some, List, [], ◌∷◌, ◌++◌, map,
  append-nil, append_assoc, All, arith, is_some, if◌then◌else◌, Option-cases, inl, inr,
}
use flycanon.Effects.{
  text, optional, event, AuditEvent, Broker, Log, publish, record_audit, audit-publish,
  audit-record_audit,
}
use flycanon.Table.{find, insert, Unique, Unique-insert}
use flycanon.Knowledge.Requests.{Scope, KnowledgeEvents}
use flycanon.Candidates.{
  proposed, RawCitation, CandidateRow, Candidates, candidate_key, is_proposed,
}

pub record CandidateProposal : Type 0 where
  pub title : String
  pub summary : Option String
  pub body : String
  pub domain : String
  pub jurisdiction : String
  pub tags : List String
  pub citations : List RawCitation
  pub score : Option String
  pub rationale : Option String

-- One transaction for all rows; None is an IntegrityError, for an id in use.
unfoldable pub add_many : List CandidateRow → Candidates → Option Candidates
add_many [] rows = some rows
add_many (row ∷ new) rows =
    let rest = add_many new (insert row rows) in
    if is_some (find candidate_key row.id rows) then none else rest

unfoldable pub proposal_to_row :
    String → Option String → Scope → String × CandidateProposal → CandidateRow
proposal_to_row source_id actor scope (id, proposal) = record {
  id = id;
  tenant_id = scope.tenant_id;
  workspace_id = scope.workspace_id;
  status = proposed;
  source_id = source_id;
  title = proposal.title;
  summary = proposal.summary;
  body = proposal.body;
  domain = proposal.domain;
  jurisdiction = proposal.jurisdiction;
  tags_json = proposal.tags;
  citations_json = proposal.citations;
  score = proposal.score;
  rationale = proposal.rationale;
  materialised_knowledge_item_id = none;
  materialised_version = none;
  actor = actor;
  decided_at = none;
  decided_by = none;
  metadata_json = [];
}

pub proposed_audit : Option String → Scope → CandidateRow → AuditEvent
proposed_audit actor scope row = record {
  event_type = "candidate.proposed";
  subject_kind = "candidate";
  subject_id = row.id;
  tenant_id = scope.tenant_id;
  workspace_id = scope.workspace_id;
  actor = actor;
  correlation_id = scope.correlation_id;
  payload =
      ("source_id", text row.source_id)
      ∷ ("domain", text row.domain)
      ∷ ("score", optional row.score)
      ∷ [];
}

module _ (broker : Broker) (events : KnowledgeEvents) (candidate_proposed_event : String) where
  pub announce : Option String → Scope → List CandidateRow → Log → Log
  announce actor scope [] log = log
  announce actor scope (row ∷ rows) log = announce actor scope rows (
      publish broker
        (event events.topics.knowledge_topic candidate_proposed_event (
          ("candidate_id", text row.id)
          ∷ ("source_id", text row.source_id)
          ∷ ("domain", text row.domain)
          ∷ ("score", optional row.score)
          ∷ []))
        (record_audit broker events.topics (proposed_audit actor scope row) log))

  pub announced :
      Option String
      → Scope
      → List CandidateRow
      → Candidates
      → Log
      → Option Candidates
      → Candidates × Log
  announced actor scope new rows log none = (rows, log)
  announced actor scope new rows log (some stored) = (stored, announce actor scope new log)

  pub propose_from_source :
      String
      → List (String × CandidateProposal)
      → Option String
      → Scope
      → Candidates
      → Log
      → Candidates × Log
  propose_from_source source_id proposals actor scope rows log =
      let new = map (proposal_to_row source_id actor scope) proposals in
      announced actor scope new rows log (add_many new rows)

  audit-announce :
      (actor : Option String) (scope : Scope) (rows : List CandidateRow) (log : Log)
      → (announce actor scope rows log).audit ≡ log.audit ++ map (proposed_audit actor scope) rows
  unfolding announce
  audit-announce actor scope [] log = sym (append-nil log.audit)
  audit-announce actor scope (row ∷ rows) log =
      audit-announce actor scope rows _
      ∙ ap (λ l. l ++ map (proposed_audit actor scope) rows)
          (audit-publish broker _ _ ∙ audit-record_audit broker events.topics _ log)
      ∙ append_assoc log.audit _ _

  All-proposed :
      (source_id : String) (actor : Option String) (scope : Scope)
      (proposals : List (String × CandidateProposal))
      → All
          (λ (r : CandidateRow).
            (is_proposed r.status ≡ true)
            × (r.tenant_id ≡ scope.tenant_id)
            × (r.workspace_id ≡ scope.workspace_id)
            × (r.source_id ≡ source_id))
          (map (proposal_to_row source_id actor scope) proposals)
  unfolding proposal_to_row
  All-proposed source_id actor scope [] = tt
  All-proposed source_id actor scope (p ∷ proposals) =
      ((refl, refl, refl, refl), All-proposed source_id actor scope proposals)

  add_many-appends :
      (new : List CandidateRow) (rows : Candidates) {stored : Candidates}
      → Unique candidate_key rows
      → add_many new rows ≡ some stored
      → Unique candidate_key stored × (stored ≡ rows ++ new)
  unfolding add_many
  add_many-appends [] rows {stored} u h =
      let same : rows ≡ stored = ground arith in
      (subst (Unique candidate_key) same u, sym same ∙ sym (append-nil rows))
  add_many-appends (row ∷ new) rows {stored} u h =
      elim (Option-cases (find candidate_key row.id rows)) [
        | inl fresh ↦
            let (u', e) =
              add_many-appends new (insert row rows) (Unique-insert candidate_key row rows fresh u)
                (rw fresh at h) in
            (u', e ∙ unfold insert in append_assoc rows (row ∷ []) new)
        | inr (x, taken) ↦ absurd (not_stored (rw taken at h))
      ]
    where
      not_stored : none ≡ some stored → ⊥
      not_stored e = absurd (ground arith)

  -- A proposal whose rows the database accepts adds one row for each of the model's proposals, in their
  -- order, all of them open, in the scope of the request and of the source; the ids stay distinct, and
  -- each row is audited once.
  pub propose-stores :
      (source_id : String) (proposals : List (String × CandidateProposal)) (actor : Option String)
      (scope : Scope) (rows : Candidates) (log : Log) {stored : Candidates}
      → Unique candidate_key rows
      → add_many (map (proposal_to_row source_id actor scope) proposals) rows ≡ some stored
      → let new = map (proposal_to_row source_id actor scope) proposals in
        let (rows', log') = propose_from_source source_id proposals actor scope rows log in
        Unique candidate_key rows'
        × (rows' ≡ rows ++ new)
        × All
            (λ (r : CandidateRow).
              (is_proposed r.status ≡ true)
              × (r.tenant_id ≡ scope.tenant_id)
              × (r.workspace_id ≡ scope.workspace_id)
              × (r.source_id ≡ source_id))
            new
        × (log'.audit ≡ log.audit ++ map (proposed_audit actor scope) new)
  unfolding propose_from_source announced
  propose-stores source_id proposals actor scope rows log {stored} u ok =
      let new = map (proposal_to_row source_id actor scope) proposals in
      let (u', e) = add_many-appends new rows u ok in
      rw ok
        (u', e, All-proposed source_id actor scope proposals, audit-announce actor scope new log)
