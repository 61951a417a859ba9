-- ===== src/Relations/Graph.antt =====
-- Adding an edge and taking it back.
use flycanon.Prelude.{
  ◌≡◌, refl, ap, ◌∙◌, String, str_eq, eq_refl, true, false, ◌&&◌, Option, none, some, List, [], ◌∷◌,
  ◌++◌, is_some, arith, Bool-cases, Option-cases, inl, inr,
}
use flycanon.Prelude.Actions.{ok}
use flycanon.Effects.{Broker, Topics, audit-publish, audit-record_audit}
use flycanon.Table.{select, insert, find, select_narrower, select-insert_new}
use flycanon.Knowledge.{KnowledgeItemRow, Items, item_key, get_item}
use flycanon.Relations.{
  KnowledgeRelationRow, CreateRelationRequest, State, Scope, relation_key, same_edge, is_relation,
  insert_relation, get, delete_where, delete, relation_row, relation_audit, report, add, remove,
}

-- An item of the scope is an item.
find-get_item :
    (item_id tenant_id workspace_id : String) (items : Items) {item : KnowledgeItemRow}
    → get_item item_id tenant_id workspace_id items ≡ some item
    → is_some (find item_key item_id items) ≡ true
unfolding get_item
find-get_item item_id tenant_id workspace_id items {item} h =
    elim (Option-cases (find item_key item_id items)) [
      | inl absent ↦
          let none_there =
            select_narrower (λ (r : KnowledgeItemRow). str_eq r.id item_id)
              (λ (r : KnowledgeItemRow).
                str_eq r.id item_id
                && (str_eq r.tenant_id tenant_id && str_eq r.workspace_id workspace_id))
              items (λ r hit. ground (arith, hit)) absent in
          absurd (ground (arith, none_there, h))
      | inr (r, there) ↦ rw there refl
    ]

delete-insert :
    (scope : Scope) (row : KnowledgeRelationRow) (relations : List KnowledgeRelationRow)
    → find relation_key row.id relations ≡ none
    → is_relation scope row.id row ≡ true
    → delete_where (is_relation scope row.id) (insert row relations) ≡ relations
unfolding insert select
delete-insert scope row [] absent here = rw here refl
delete-insert scope row (r ∷ relations) absent here = elim (Bool-cases (str_eq r.id row.id)) [
  | inl same ↦ absurd (ground (arith, same, absent))
  | inr other ↦
      rw other (ap (◌∷◌ r) (delete-insert scope row relations (ground (arith, other, absent)) here))
]

module _ (broker : Broker) (topics : Topics) where
  audit-report :
      (audit_type event_type : String) (r : KnowledgeRelationRow) (actor : Option String)
      (scope : Scope) (s : State)
      → (report broker topics audit_type event_type r actor scope s).log.audit
        ≡ s.log.audit ++ relation_audit audit_type r actor scope ∷ []
  unfolding report
  audit-report audit_type event_type r actor scope s =
      audit-publish broker _ _ ∙ audit-record_audit broker topics _ s.log

  relations-report :
      (audit_type event_type : String) (r : KnowledgeRelationRow) (actor : Option String)
      (scope : Scope) (s : State)
      → (report broker topics audit_type event_type r actor scope s).relations ≡ s.relations
  unfolding report
  relations-report audit_type event_type r actor scope s = refl

  module _ (from_item_id : String) (request : CreateRelationRequest) (scope : Scope)
      (relation_id : String) (s : State) where
    abbrev row : KnowledgeRelationRow
    row = relation_row from_item_id request scope relation_id

    abbrev added : State
    added =
        report broker topics "knowledge.relation_added" "KnowledgeRelationAdded" row request.actor
          scope (record s { relations = insert row s.relations })

    insert_relation-new :
        {from_item to_item : KnowledgeItemRow}
        → get_item from_item_id scope.tenant_id scope.workspace_id s.items ≡ some from_item
        → get_item request.to_item_id scope.tenant_id scope.workspace_id s.items ≡ some to_item
        → find relation_key relation_id s.relations ≡ none
        → select (λ r. same_edge r row) s.relations ≡ none
        → insert_relation row s.items s.relations ≡ some (insert row s.relations)
    unfolding insert_relation relation_row
    insert_relation-new found_from found_to fresh new_edge =
        let from_there =
          find-get_item from_item_id scope.tenant_id scope.workspace_id s.items found_from in
        let to_there =
          find-get_item request.to_item_id scope.tenant_id scope.workspace_id s.items found_to in
        rw (fresh, new_edge, from_there, to_there) refl

    add-new :
        {from_item to_item : KnowledgeItemRow} {relations : List KnowledgeRelationRow}
        → str_eq from_item_id request.to_item_id ≡ false
        → get_item from_item_id scope.tenant_id scope.workspace_id s.items ≡ some from_item
        → get_item request.to_item_id scope.tenant_id scope.workspace_id s.items ≡ some to_item
        → insert_relation row s.items s.relations ≡ some relations
        → add broker topics from_item_id request scope relation_id s ≡ (
          ok row,
          report broker topics "knowledge.relation_added" "KnowledgeRelationAdded" row request.actor
              scope
              (record s { relations = relations }),
        )
    unfolding add
    add-new differ found_from found_to inserted = rw (differ, found_from, found_to, inserted) refl

  delete-found :
      (relation_id : String) (scope : Scope) (relations : List KnowledgeRelationRow)
      {r : KnowledgeRelationRow}
      → get scope relation_id relations ≡ some r
      → delete scope relation_id relations
        ≡ (true, delete_where (is_relation scope relation_id) relations)
  unfolding delete get
  delete-found relation_id scope relations found = rw found refl

  remove-found :
      (relation_id : String) (scope : Scope) (actor : Option String) (s : State)
      {r : KnowledgeRelationRow}
      → get scope relation_id s.relations ≡ some r
      → remove broker topics relation_id scope actor s ≡ (
        ok tt,
        report broker topics "knowledge.relation_removed" "KnowledgeRelationRemoved" r actor scope
            (record s { relations = delete_where (is_relation scope relation_id) s.relations }),
      )
  unfolding remove
  remove-found relation_id scope actor s found =
      let deleted = delete-found relation_id scope s.relations found in rw (found, deleted) refl

  get-added :
      (from_item_id : String) (request : CreateRelationRequest) (scope : Scope)
      (relation_id : String) (relations : List KnowledgeRelationRow)
      → find relation_key relation_id relations ≡ none
      → get scope relation_id
          (insert (relation_row from_item_id request scope relation_id) relations)
        ≡ some (relation_row from_item_id request scope relation_id)
  unfolding get relation_row
  get-added from_item_id request scope relation_id relations fresh =
      select-insert_new (is_relation scope relation_id) _ relations
        (select_narrower (λ (r : KnowledgeRelationRow). str_eq r.id relation_id)
          (is_relation scope relation_id) relations (λ r hit. ground (arith, hit)) fresh)
        (rw (eq_refl relation_id, eq_refl scope.tenant_id, eq_refl scope.workspace_id) refl)

  delete-added :
      (from_item_id : String) (request : CreateRelationRequest) (scope : Scope)
      (relation_id : String) (relations : List KnowledgeRelationRow)
      → find relation_key relation_id relations ≡ none
      → delete_where
          (is_relation scope relation_id)
          (insert (relation_row from_item_id request scope relation_id) relations)
        ≡ relations
  unfolding relation_row
  delete-added from_item_id request scope relation_id relations fresh =
      delete-insert scope (relation_row from_item_id request scope relation_id) relations fresh
        (rw (eq_refl relation_id, eq_refl scope.tenant_id, eq_refl scope.workspace_id) refl)

  -- An edge is added between two different items of the scope, under an id that is not taken, where no
  -- edge of the kind runs from the one to the other. It is stored and found, and a removal of it leaves
  -- the relations as they were; each of the two calls leaves one audit row.
  pub remove-add :
      (from_item_id : String) (request : CreateRelationRequest) (scope : Scope)
      (relation_id : String) (actor : Option String) (s : State)
      {from_item to_item : KnowledgeItemRow}
      → str_eq from_item_id request.to_item_id ≡ false
      → get_item from_item_id scope.tenant_id scope.workspace_id s.items ≡ some from_item
      → get_item request.to_item_id scope.tenant_id scope.workspace_id s.items ≡ some to_item
      → find relation_key relation_id s.relations ≡ none
      → select (λ r. same_edge r (relation_row from_item_id request scope relation_id)) s.relations
        ≡ none
      → let row = relation_row from_item_id request scope relation_id in
        let s1 = (add broker topics from_item_id request scope relation_id s).1 in
        let s2 = (remove broker topics relation_id scope actor s1).1 in
        ((add broker topics from_item_id request scope relation_id s).0 ≡ ok row)
        × (get scope relation_id s1.relations ≡ some row)
        × ((remove broker topics relation_id scope actor s1).0 ≡ ok tt)
        × (s2.relations ≡ s.relations)
        × (s2.log.audit
            ≡ (s.log.audit
                ++ relation_audit "knowledge.relation_added" row request.actor scope ∷ [])
              ++ relation_audit "knowledge.relation_removed" row actor scope ∷ [])
  remove-add from_item_id request scope relation_id actor s differ found_from found_to fresh
        new_edge =
      let row = relation_row from_item_id request scope relation_id in
      let inserted =
        insert_relation-new from_item_id request scope relation_id s found_from found_to fresh
          new_edge in
      let added =
        add-new from_item_id request scope relation_id s differ found_from found_to inserted in
      let there = get-added from_item_id request scope relation_id s.relations fresh in
      let s1 =
        report broker topics "knowledge.relation_added" "KnowledgeRelationAdded" row request.actor
          scope (record s { relations = insert row s.relations }) in
      let s0 : State = record s { relations = insert row s.relations } in
      let kept =
        relations-report "knowledge.relation_added" "KnowledgeRelationAdded" row request.actor scope
          s0 in
      let found1 : get scope relation_id s1.relations ≡ some row = rw kept there in
      let removed = remove-found relation_id scope actor s1 found1 in
      rw (added, removed)
        (
          refl,
          found1,
          refl,
          relations-report "knowledge.relation_removed" "KnowledgeRelationRemoved" row actor scope _
              ∙ ap (delete_where (is_relation scope relation_id)) kept
              ∙ delete-added from_item_id request scope relation_id s.relations fresh,
          audit-report "knowledge.relation_removed" "KnowledgeRelationRemoved" row actor scope _
              ∙ ap (λ l. l ++ relation_audit "knowledge.relation_removed" row actor scope ∷ [])
                  (audit-report "knowledge.relation_added" "KnowledgeRelationAdded" row
                    request.actor scope s0),
        )
