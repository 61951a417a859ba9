-- ===== src/Knowledge/Service/Kept.antt =====
-- What `create` and `update` do to the table of items.
use flycanon.Prelude.{
  ℕ, String, str_eq, ◌≡◌, ◌⊎◌, refl, sym, subst, ap, ◌∙◌, true, false, Option, none, some, List,
  arith, inl, inr,
}
use flycanon.Effects.{Broker}
use flycanon.Table.{
  find, only, Unique, select-find, upsert, find-upsert, key-find, other_of_absent, other_of_test,
  Unique-upsert,
}
use flycanon.Knowledge.{
  KnowledgeItemRow, KnowledgeVersionRow, Citation, CitationRow, Items, Versions, References,
  item_key, in_scope, is_retired, get_item, upsert_item,
}
use flycanon.Knowledge.Requests.{
  CreateKnowledgeRequest, UpdateKnowledgeRequest, KnowledgeError, Reply, returned, raised, State,
  Scope, KnowledgeEvents,
}
use flycanon.Knowledge.Service.{
  cited, stored, then_, new_item, bumped, create, after_create, update, written, write_update,
  after_update, read_for_update,
}
use flycanon.Knowledge.Service.Writes.{IsRead-inv}

-- A row that is read in a scope is the row of its id.
pub find_of_get :
    (item_id tenant_id workspace_id : String) (items : Items) {item : KnowledgeItemRow}
    → Unique item_key items
    → get_item item_id tenant_id workspace_id items ≡ some item
    → find item_key item_id items ≡ some item
unfolding get_item
find_of_get item_id tenant_id workspace_id items {item} u h =
    of_only (find item_key item_id items)
      (sym (select-find item_key item_id (in_scope tenant_id workspace_id) items u) ∙ h)
  where
    of_only :
        (o : Option KnowledgeItemRow)
        → only item_key (in_scope tenant_id workspace_id) o ≡ some item
        → o ≡ some item
    of_only none e = e
    of_only (some r) e = ground arith

-- The items, where only versions and citations are added.
items-cited :
    (valid : References) (row : KnowledgeVersionRow) (s : State) (o : Option (List CitationRow))
    → (cited valid row s o).1.items ≡ s.items
unfolding cited
items-cited valid row s none = refl
items-cited valid row s (some rows) = refl

items-stored :
    (valid : References) (conflict : KnowledgeError) (row : KnowledgeVersionRow)
    (citations : List Citation) (scope : Scope) (s : State) (o : Option Versions)
    → (stored valid conflict row citations scope s o).1.items ≡ s.items
unfolding stored
items-stored valid conflict row citations scope s none = refl
items-stored valid conflict row citations scope s (some versions) =
    items-cited valid row (record s { versions = versions }) _

items-then_ :
    (f : KnowledgeVersionRow → State → State) (g : KnowledgeVersionRow → Items → Items)
    (r : Reply KnowledgeVersionRow × State)
    → ((v : KnowledgeVersionRow) (s : State) → (f v s).items ≡ g v s.items)
    → ((then_ f r).1.items ≡ r.1.items)
      ⊎ ((v : KnowledgeVersionRow) × ((then_ f r).1.items ≡ g v r.1.items))
unfolding then_
items-then_ f g (raised e, s) same = inl refl
items-then_ f g (returned v, s) same = inr (v, same v s)

module _ (broker : Broker) (events : KnowledgeEvents) (valid : References) where
  -- The items after `create`: the new one is merged in, also where the rest of it fails.
  items-create :
      (request : CreateKnowledgeRequest) (item_id version_id : String)
      (candidate_id : Option String) (scope : Scope) (db_now : ℕ) (s : State)
      → (create broker events valid request item_id version_id candidate_id scope db_now s).1.items
        ≡ upsert item_key (new_item request item_id scope db_now) s.items
  unfolding create after_create upsert_item
  items-create request item_id version_id candidate_id scope db_now s =
      elim (items-then_ _ (λ v items. items) (stored valid _ _ _ scope _ _) (λ v s. refl)) [
        | inl e ↦ e ∙ items-stored valid _ _ _ scope _ _
        | inr (v, e) ↦ e ∙ items-stored valid _ _ _ scope _ _
      ]

  -- And after the writes of `update`: the same, or with the bumped row merged in.
  items-write_update :
      (request : UpdateKnowledgeRequest) (item : KnowledgeItemRow) (current : KnowledgeVersionRow)
      (version_id : String) (candidate_id : Option String) (scope : Scope) (now : ℕ) (s : State)
      → let items =
          (write_update broker events valid request item current version_id candidate_id scope now
            s).1.items in
        (items ≡ s.items)
        ⊎ ((v : KnowledgeVersionRow) × (items ≡ upsert item_key (bumped item v now) s.items))
  unfolding write_update after_update upsert_item
  items-write_update request item current version_id candidate_id scope now s =
      elim (items-then_ (after_update broker events request item current scope now)
        (λ v. upsert item_key (bumped item v now)) _ (λ v s. refl)) [
          | inl e ↦ inl (e ∙ items-stored valid _ _ _ scope s _)
          | inr (v, e) ↦
              inr (
                v,
                e ∙ ap (upsert item_key (bumped item v now)) (items-stored valid _ _ _ scope s _),
              )
        ]

  module _ (k : String) (s : State) {r : KnowledgeItemRow} (u : Unique item_key s.items)
      (found : find item_key k s.items ≡ some r) where
    pub create-keeps :
        (request : CreateKnowledgeRequest) (item_id version_id : String)
        (candidate_id : Option String) (scope : Scope) (db_now : ℕ)
        → find item_key item_id s.items ≡ none
        → find item_key k
            (create broker events valid request item_id version_id candidate_id scope db_now
              s).1.items
          ≡ some r
    unfolding new_item
    create-keeps request item_id version_id candidate_id scope db_now fresh =
        ap (find item_key k) (items-create request item_id version_id candidate_id scope db_now s)
        ∙ find-upsert item_key k (new_item request item_id scope db_now) s.items
        ∙ rw (other_of_absent item_key item_id k s.items fresh found) found

    write_update-keeps :
        (request : UpdateKnowledgeRequest) (item : KnowledgeItemRow) (current : KnowledgeVersionRow)
        (version_id : String) (candidate_id : Option String) (scope : Scope) (now : ℕ)
        → str_eq item.id k ≡ false
        → find item_key k
            (write_update broker events valid request item current version_id candidate_id scope now
              s).1.items
          ≡ some r
    unfolding bumped
    write_update-keeps request item current version_id candidate_id scope now other =
        elim (items-write_update request item current version_id candidate_id scope now s) [
          | inl e ↦ ap (find item_key k) e ∙ found
          | inr (v, e) ↦
              ap (find item_key k) e
              ∙ find-upsert item_key k (bumped item v now) s.items
              ∙ rw other found
        ]

    written-keeps :
        (request : UpdateKnowledgeRequest) (item_id version_id : String)
        (candidate_id : Option String) (scope : Scope) (now : ℕ)
        → is_retired r.status ≡ true
        → (reply : Reply (KnowledgeItemRow × KnowledgeVersionRow))
        → read_for_update item_id scope s ≡ reply
        → find item_key k
            (written broker events valid request version_id candidate_id scope now s reply).1.items
          ≡ some r
    unfolding written
    written-keeps request item_id version_id candidate_id scope now gone (raised e) read = found
    written-keeps request item_id version_id candidate_id scope now gone (returned (item, current))
          read =
        let (got, live, _) = IsRead-inv item_id scope s read in
        let here = find_of_get item_id scope.tenant_id scope.workspace_id s.items u got in
        write_update-keeps request item current version_id candidate_id scope now (
          subst (λ x. str_eq x k ≡ false) (sym (key-find item_key item_id s.items here))
            (other_of_test item_key (λ (x : KnowledgeItemRow). is_retired x.status) item_id k
              s.items here live found gone))

    pub update-keeps :
        (request : UpdateKnowledgeRequest) (item_id version_id : String)
        (candidate_id : Option String) (scope : Scope) (now : ℕ)
        → is_retired r.status ≡ true
        → find item_key k
            (update broker events valid item_id request version_id candidate_id scope now s).1.items
          ≡ some r
    unfolding update
    update-keeps request item_id version_id candidate_id scope now gone =
        written-keeps request item_id version_id candidate_id scope now gone _ refl

  module _ (s : State) (u : Unique item_key s.items) where
    pub Unique-create :
        (request : CreateKnowledgeRequest) (item_id version_id : String)
        (candidate_id : Option String) (scope : Scope) (db_now : ℕ)
        → Unique item_key
            (create broker events valid request item_id version_id candidate_id scope db_now
              s).1.items
    Unique-create request item_id version_id candidate_id scope db_now =
        subst (Unique item_key)
          (sym (items-create request item_id version_id candidate_id scope db_now s))
          (Unique-upsert item_key (new_item request item_id scope db_now) s.items u)

    Unique-written :
        (request : UpdateKnowledgeRequest) (version_id : String) (candidate_id : Option String)
        (scope : Scope) (now : ℕ) (reply : Reply (KnowledgeItemRow × KnowledgeVersionRow))
        → Unique item_key
            (written broker events valid request version_id candidate_id scope now s reply).1.items
    unfolding written
    Unique-written request version_id candidate_id scope now (raised e) = u
    Unique-written request version_id candidate_id scope now (returned (item, current)) =
        elim (items-write_update request item current version_id candidate_id scope now s) [
          | inl e ↦ subst (Unique item_key) (sym e) u
          | inr (v, e) ↦
              subst (Unique item_key) (sym e) (Unique-upsert item_key (bumped item v now) s.items u)
        ]

    pub Unique-update :
        (request : UpdateKnowledgeRequest) (item_id version_id : String)
        (candidate_id : Option String) (scope : Scope) (now : ℕ)
        → Unique item_key
            (update broker events valid item_id request version_id candidate_id scope now s).1.items
    unfolding update
    Unique-update request item_id version_id candidate_id scope now =
        Unique-written request version_id candidate_id scope now (read_for_update item_id scope s)
