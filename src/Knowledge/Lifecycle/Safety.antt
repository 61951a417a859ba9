-- ===== src/Knowledge/Lifecycle/Safety.antt =====
-- `supersede` and `retire` on every branch.
use flycanon.Prelude.{
  ℕ, String, str_eq, ◌≡◌, refl, sym, ◌∙◌, true, false, Option, none, some, [], ◌∷◌, ◌++◌,
  append-nil, arith, if◌then◌else◌, Bool-cases, inl, inr,
}
use flycanon.Effects.{
  Payload, AuditEvent, text, optional, Broker, Log, audit-publish, audit-record_audit,
}
use flycanon.Table.{find, Unique, claim_row-none, claim_row-some, claim_row_won, claim_row_refused}
use flycanon.Knowledge.{
  retired, superseded, KnowledgeItemRow, Items, item_key, is_open, is_retired, not_retired,
  get_item, transition, claim_status_transition,
}
use flycanon.Knowledge.Requests.{
  SupersedeKnowledgeRequest, RetireKnowledgeRequest, KnowledgeError, invalid_target, Reply,
  returned, raised, State, Scope, KnowledgeEvents,
}
use flycanon.Knowledge.Service.{item_audit, publish_lifecycle}
use flycanon.Knowledge.Service.Kept.{find_of_get}
use flycanon.Knowledge.Lifecycle.{
  supersede, retire, guarded, claim_supersede, claim_retire, after_supersede, after_retire,
  supersede_refusal, retire_refusal, bad_target,
}

-- The audit row of an item's transition.
abbrev pub lifecycle_audit : String → String → Option String → Scope → Payload → AuditEvent
lifecycle_audit event_type item_id actor scope payload = record {
  event_type = event_type;
  subject_kind = "knowledge_item";
  subject_id = item_id;
  tenant_id = scope.tenant_id;
  workspace_id = scope.workspace_id;
  actor = actor;
  correlation_id = scope.correlation_id;
  payload = payload;
}

module _ (broker : Broker) (events : KnowledgeEvents) where
  guarded_raised :
      (refusal : Option KnowledgeError) (s : State) (next : Reply KnowledgeItemRow × State)
      → ((e : KnowledgeError) → next.0 ≡ raised e → next.1 ≡ s)
      → (e : KnowledgeError) → (guarded broker events refusal s next).0 ≡ raised e
      → (guarded broker events refusal s next).1 ≡ s
  unfolding guarded
  guarded_raised none s next h e r = h e r
  guarded_raised (some x) s next h e r = refl

  after_supersede_raised :
      (item_id : String) (request : SupersedeKnowledgeRequest) (scope : Scope) (s : State)
      (o : Option KnowledgeItemRow) (items : Items)
      → (o ≡ none → items ≡ s.items)
      → (e : KnowledgeError)
      → (after_supersede broker events item_id request scope s (o, items)).0 ≡ raised e
      → (after_supersede broker events item_id request scope s (o, items)).1 ≡ s
  unfolding after_supersede
  after_supersede_raised item_id request scope s none items same e r = rw (same refl) refl
  after_supersede_raised item_id request scope s (some row) items same e r = absurd (ground arith)

  after_retire_raised :
      (item_id : String) (request : RetireKnowledgeRequest) (scope : Scope) (s : State)
      (o : Option KnowledgeItemRow) (items : Items)
      → (o ≡ none → items ≡ s.items)
      → (e : KnowledgeError)
      → (after_retire broker events item_id request scope s (o, items)).0 ≡ raised e
      → (after_retire broker events item_id request scope s (o, items)).1 ≡ s
  unfolding after_retire
  after_retire_raised item_id request scope s none items same e r = rw (same refl) refl
  after_retire_raised item_id request scope s (some row) items same e r = absurd (ground arith)

  -- A `supersede` that raises has changed nothing: no row, no audit, no message.
  pub supersede_refused :
      (item_id : String) (request : SupersedeKnowledgeRequest) (scope : Scope) (db_now : ℕ)
      (s : State) (e : KnowledgeError)
      → let (reply, s') = supersede broker events item_id request scope db_now s in
        reply ≡ raised e → s' ≡ s
  unfolding supersede claim_supersede claim_status_transition
  supersede_refused item_id request scope db_now s e =
      guarded_raised _ s _
        (after_supersede_raised item_id request scope s _ _
          (claim_row-none item_key item_id _ _ s.items))
        e

  -- A `retire` that raises has changed nothing: no row, no audit, no message.
  pub retire_refused :
      (item_id : String) (request : RetireKnowledgeRequest) (scope : Scope) (db_now : ℕ) (s : State)
      (e : KnowledgeError)
      → let (reply, s') = retire broker events item_id request scope db_now s in
        reply ≡ raised e → s' ≡ s
  unfolding retire claim_retire claim_status_transition
  retire_refused item_id request scope db_now s e =
      guarded_raised _ s _
        (after_retire_raised item_id request scope s _ _
          (claim_row-none item_key item_id _ _ s.items))
        e

  audit-lifecycle :
      (event_type audit_type item_id : String) (version : ℕ) (actor : Option String) (scope : Scope)
      (payload : Payload × Payload) (log : Log)
      → (publish_lifecycle broker events event_type item_id version payload.0
          (item_audit broker events audit_type item_id actor scope payload.1 log)).audit
        ≡ log.audit ++ lifecycle_audit audit_type item_id actor scope payload.1 ∷ []
  unfolding publish_lifecycle item_audit
  audit-lifecycle event_type audit_type item_id version actor scope payload log =
      audit-publish broker _ _ ∙ audit-record_audit broker events.topics _ log

  -- A `retire` of an item in scope that is not yet retired succeeds, whatever its status: the item's
  -- row gets the status retired, the time, the reason and a new time of change, keeps all else, and
  -- is replied; one audit row says so.
  pub retire-verdict :
      (item_id : String) (request : RetireKnowledgeRequest) (scope : Scope) (db_now : ℕ) (s : State)
      {item : KnowledgeItemRow}
      → Unique item_key s.items
      → get_item item_id scope.tenant_id scope.workspace_id s.items ≡ some item
      → is_retired item.status ≡ false
      → let (reply, s') = retire broker events item_id request scope db_now s in
        let stored : KnowledgeItemRow = record item {
          status = retired;
          retired_at = some db_now;
          retired_reason = some request.reason;
          updated_at = db_now;
        } in
        (reply ≡ returned stored)
        × (find item_key item_id s'.items ≡ some stored)
        × (s'.log.audit
            ≡ s.log.audit
              ++ lifecycle_audit "knowledge.retired" item_id request.actor scope
                  (("reason", text request.reason) ∷ [])
                ∷ [])
  unfolding retire retire_refusal guarded claim_retire after_retire claim_status_transition
      transition
  retire-verdict item_id request scope db_now s {item} u got live =
      let found = find_of_get item_id scope.tenant_id scope.workspace_id s.items u got in
      let f = transition retired none (some request.reason) true db_now in
      let q = λ (r : KnowledgeItemRow). not_retired r.status in
      let won = claim_row_won item_key item_id q f s.items u found (ground arith) in
      let (_, _, _, _, after) = claim_row-some item_key item_id q f s.items (λ r. refl) u won in
      rw (got, live, won) (refl, after, audit-lifecycle _ _ _ _ _ _ _ s.log)

  -- A `supersede` of an item in scope by another item in scope that is not retired: the row of a draft
  -- or published item gets the status superseded, the id of its successor and a new time of change,
  -- keeps all else, and is replied, and one audit row says so; an item that is superseded or retired
  -- is refused, keeps its row, and nothing is recorded.
  pub supersede-verdict :
      (item_id : String) (request : SupersedeKnowledgeRequest) (scope : Scope) (db_now : ℕ)
      (s : State) {item target : KnowledgeItemRow}
      → Unique item_key s.items
      → get_item item_id scope.tenant_id scope.workspace_id s.items ≡ some item
      → str_eq item_id request.superseded_by_item_id ≡ false
      → get_item request.superseded_by_item_id scope.tenant_id scope.workspace_id s.items
        ≡ some target
      → is_retired target.status ≡ false
      → let (reply, s') = supersede broker events item_id request scope db_now s in
        let stored : KnowledgeItemRow = record item {
          status = superseded;
          superseded_by_item_id = some request.superseded_by_item_id;
          updated_at = db_now;
        } in
        (reply ≡ (
          if is_open item.status
          then returned stored
          else raised (invalid_target item_id "supersede requires draft|published")))
        × (find item_key item_id s'.items ≡ some (if is_open item.status then stored else item))
        × (s'.log.audit
            ≡ s.log.audit
              ++ (if is_open item.status
                  then lifecycle_audit "knowledge.superseded" item_id request.actor scope (
                      ("superseded_by_item_id", text request.superseded_by_item_id)
                      ∷ ("reason", optional request.reason)
                      ∷ [])
                    ∷ []
                  else []))
  unfolding supersede supersede_refusal bad_target guarded claim_supersede after_supersede
      claim_status_transition transition
  supersede-verdict item_id request scope db_now s {item} {target} u got other got' live =
      let found = find_of_get item_id scope.tenant_id scope.workspace_id s.items u got in
      let f = transition superseded (some request.superseded_by_item_id) none false db_now in
      let q = λ (r : KnowledgeItemRow). is_open r.status in
      elim (Bool-cases (is_open item.status)) [
        | inl open_ ↦
            let won = claim_row_won item_key item_id q f s.items u found open_ in
            let (_, _, _, _, after) =
              claim_row-some item_key item_id q f s.items (λ r. refl) u won in
            rw (got, other, got', live, won, open_)
              (refl, after, audit-lifecycle _ _ _ _ _ _ _ s.log)
        | inr closed ↦
            let lost = claim_row_refused item_key item_id q f s.items u found closed in
            rw (got, other, got', live, lost, closed) (refl, found, sym (append-nil s.log.audit))
      ]
