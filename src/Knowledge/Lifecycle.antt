-- ===== src/Knowledge/Lifecycle.antt =====
-- core/services/knowledge/knowledge_service.py: `supersede` and `retire`, and `get`.
pub mod Safety
pub mod Terminal
use flycanon.Prelude.{
  ℕ, String, str_eq, Bool, true, false, Option, none, some, List, [], ◌∷◌, if◌then◌else◌,
}
use flycanon.Effects.{text, optional, Broker}
use flycanon.Knowledge.{
  superseded, retired, KnowledgeItemRow, Items, References, is_retired, is_open, not_retired,
  get_item, claim_status_transition,
}
use flycanon.Knowledge.Requests.{
  SupersedeKnowledgeRequest, RetireKnowledgeRequest, KnowledgeError, item_not_found,
  already_retired, invalid_target, Reply, returned, raised, State, Scope, KnowledgeEvents,
}
use flycanon.Knowledge.Service.{item_audit, publish_lifecycle}

pub get : String → Scope → State → Reply KnowledgeItemRow
get item_id scope s = elim (get_item item_id scope.tenant_id scope.workspace_id s.items) [
  | none ↦ raised (item_not_found item_id)
  | some item ↦ returned item
]

module _ (broker : Broker) (events : KnowledgeEvents) where
  -- The guards of `supersede`: None, or what it raises before its claim.
  unfoldable pub bad_target : String → String → Option KnowledgeItemRow → Option KnowledgeError
  bad_target item_id target_id none = some (invalid_target item_id "target not found")
  bad_target item_id target_id (some target) =
      if is_retired target.status then some (invalid_target item_id "target is retired") else none

  unfoldable pub supersede_refusal :
      String → String → Scope → State → Option KnowledgeItemRow → Option KnowledgeError
  supersede_refusal item_id target_id scope s none = some (item_not_found item_id)
  supersede_refusal item_id target_id scope s (some item) =
      if str_eq item_id target_id
      then some (invalid_target item_id "self-supersedure")
      else bad_target item_id target_id
          (get_item target_id scope.tenant_id scope.workspace_id s.items)

  -- Behind the claim. The text of the refusal names the item's status in the source.
  pub after_supersede :
      String
      → SupersedeKnowledgeRequest
      → Scope
      → State
      → Option KnowledgeItemRow × Items
      → Reply KnowledgeItemRow × State
  after_supersede item_id request scope s (none, items) = (
    raised (invalid_target item_id "supersede requires draft|published"),
    record s { items = items },
  )
  after_supersede item_id request scope s (some stored, items) = (
    returned stored,
    record s {
      items = items;
      log =
          publish_lifecycle broker events events.knowledge_superseded_event item_id
            stored.current_version
            (("superseded_by_item_id", text request.superseded_by_item_id) ∷ [])
            (item_audit broker events "knowledge.superseded" item_id request.actor scope
              (("superseded_by_item_id", text request.superseded_by_item_id)
                ∷ ("reason", optional request.reason)
                ∷ [])
              s.log);
    },
  )

  pub claim_supersede :
      String → SupersedeKnowledgeRequest → Scope → ℕ → State → Reply KnowledgeItemRow × State
  claim_supersede item_id request scope db_now s = after_supersede item_id request scope s (
      claim_status_transition item_id is_open superseded (some request.superseded_by_item_id) none
        false db_now s.items)

  unfoldable pub guarded :
      Option KnowledgeError
      → State
      → Reply KnowledgeItemRow × State
      → Reply KnowledgeItemRow × State
  guarded (some e) s next = (raised e, s)
  guarded none s next = next

  unfoldable pub supersede :
      String → SupersedeKnowledgeRequest → Scope → ℕ → State → Reply KnowledgeItemRow × State
  supersede item_id request scope db_now s =
      guarded
        (supersede_refusal item_id request.superseded_by_item_id scope s
          (get_item item_id scope.tenant_id scope.workspace_id s.items))
        s (claim_supersede item_id request scope db_now s)

  unfoldable pub retire_refusal : String → Option KnowledgeItemRow → Option KnowledgeError
  retire_refusal item_id none = some (item_not_found item_id)
  retire_refusal item_id (some item) =
      if is_retired item.status then some (already_retired item_id) else none

  unfoldable pub after_retire :
      String
      → RetireKnowledgeRequest
      → Scope
      → State
      → Option KnowledgeItemRow × Items
      → Reply KnowledgeItemRow × State
  after_retire item_id request scope s (none, items) =
      (raised (already_retired item_id), record s { items = items })
  after_retire item_id request scope s (some stored, items) = (
    returned stored,
    record s {
      items = items;
      log =
          publish_lifecycle broker events events.knowledge_retired_event item_id
            stored.current_version (("reason", text request.reason) ∷ [])
            (item_audit broker events "knowledge.retired" item_id request.actor scope
              (("reason", text request.reason) ∷ []) s.log);
    },
  )

  unfoldable pub claim_retire :
      String → RetireKnowledgeRequest → Scope → ℕ → State → Reply KnowledgeItemRow × State
  claim_retire item_id request scope db_now s = after_retire item_id request scope s (
      claim_status_transition item_id not_retired retired none (some request.reason) true db_now
        s.items)

  unfoldable pub retire :
      String → RetireKnowledgeRequest → Scope → ℕ → State → Reply KnowledgeItemRow × State
  retire item_id request scope db_now s =
      guarded (retire_refusal item_id (get_item item_id scope.tenant_id scope.workspace_id s.items))
        s (claim_retire item_id request scope db_now s)
