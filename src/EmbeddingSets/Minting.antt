-- ===== src/EmbeddingSets/Minting.antt =====
-- The first embedding set of a workspace.
use flycanon.Prelude.{
  ℕ, String, str_eq, eq_refl, ◌≡◌, refl, sym, ◌∙◌, true, false, Option, none, some, inl, inr, arith,
  Option-cases,
}
use flycanon.Prelude.Actions.{Outcome, ok, err, and_then, ok_inj, err_not_ok}
use flycanon.EmbeddingSets.Switch.{active_set_id-point, get-point}
use flycanon.Table.{select, find, insert, select-insert_new, select_narrower}
use flycanon.EmbeddingSets.{
  EmbeddingSetRow, Workspace, Db, Scope, set_key, is_set, is_workspace, insert_set,
  point_workspace_at, get, active_set_id,
}
use flycanon.EmbeddingSets.Service.{
  Host, CanonSettings, EmbeddingSetError, integrity_error, default_set, EmbeddingSetBinding,
  binding_of, new_row, create, active_binding, mint, minted, ensure_active, split_embedding_model,
  truthy,
}

-- What a successful insert leaves.
insert_set-some :
    (row : EmbeddingSetRow) (db : Db) {db' : Db}
    → insert_set row db ≡ some db'
    → (db' ≡ record db { sets = insert row db.sets }) × (find set_key row.id db.sets ≡ none)
unfolding insert_set
insert_set-some row db h = ground arith

insert_set-get :
    (scope : Scope) (row : EmbeddingSetRow) (db : Db) {db' : Db}
    → insert_set row db ≡ some db'
    → is_set scope row.id row ≡ true
    → get scope row.id db' ≡ some row
unfolding get
insert_set-get scope row db h here =
    let (e, absent) = insert_set-some row db h in
    rw e (
      select-insert_new (is_set scope row.id) row db.sets
        (select_narrower (λ r. str_eq r.id row.id) (is_set scope row.id) db.sets
          (λ r hit. ground (arith, hit)) absent)
        here)

workspaces_kept :
    (scope : Scope) (row : EmbeddingSetRow) (db : Db) {db' : Db} {w : Workspace}
    → insert_set row db ≡ some db'
    → select (is_workspace scope) db.workspaces ≡ some w
    → select (is_workspace scope) db'.workspaces ≡ some w
workspaces_kept scope row db h there = let (e, absent) = insert_set-some row db h in rw e there

-- The binding of a workspace whose pointer names a row.
active_binding_found :
    (scope : Scope) (set_id : String) (db : Db) {row : EmbeddingSetRow}
    → active_set_id scope db ≡ some set_id
    → str_eq set_id "" ≡ false
    → get scope set_id db ≡ some row
    → active_binding scope db ≡ (ok (some (binding_of row)), db)
unfolding active_binding
active_binding_found scope set_id db pointer named found =
    let named' : truthy (some set_id) ≡ some set_id = rw named refl in
    rw (pointer, named', found) refl

module _ (host : Host) (settings : CanonSettings) (scope : Scope) (set_id : String) (now : ℕ) where
  abbrev first_row : String × String → EmbeddingSetRow
  first_row (provider, model) =
      new_row host settings scope (default_set host settings set_id provider model) now

  mint_ok :
      (named_model : String × String) (db : Db) {db1 : Db}
      → insert_set (first_row named_model) db ≡ some db1
      → mint host settings scope set_id now named_model db
        ≡ (ok (binding_of (first_row named_model)), point_workspace_at scope (some set_id) db1)
  unfolding mint create new_row
  mint_ok named_model db inserted = rw inserted refl

  mint_err :
      (named_model : String × String) (db : Db)
      → insert_set (first_row named_model) db ≡ none
      → mint host settings scope set_id now named_model db ≡ (err integrity_error, db)
  unfolding mint create new_row
  mint_err named_model db refused = rw refused refl

  first_row_found :
      (named_model : String × String) (db : Db) {db1 : Db}
      → insert_set (first_row named_model) db ≡ some db1
      → get scope set_id db1 ≡ some (first_row named_model)
  unfolding new_row
  first_row_found named_model db inserted =
      insert_set-get scope (first_row named_model) db inserted
        (ground (arith, eq_refl set_id, eq_refl scope.tenant_id, eq_refl scope.workspace_id))

  mint-binds :
      (named_model : String × String) (db db' : Db) (binding : EmbeddingSetBinding) {w : Workspace}
      → select (is_workspace scope) db.workspaces ≡ some w
      → str_eq set_id "" ≡ false
      → mint host settings scope set_id now named_model db ≡ (ok binding, db')
      → active_binding scope db' ≡ (ok (some binding), db')
  mint-binds named_model db db' binding there named h =
      elim (Option-cases (insert_set (first_row named_model) db)) [
        | inl refused ↦ absurd (err_not_ok (sym (mint_err named_model db refused) ∙ h))
        | inr (db1, inserted) ↦
            let (e, e') = ok_inj (sym (mint_ok named_model db inserted) ∙ h) in
            rw (← e', ← e)
              (active_binding_found scope set_id (point_workspace_at scope (some set_id) db1)
                (active_set_id-point scope (some set_id) db1
                  (workspaces_kept scope (first_row named_model) db inserted there))
                named
                (get-point scope set_id (some set_id) db1
                  ∙ (first_row_found named_model db inserted)))
      ]

  from_model :
      (model : Outcome EmbeddingSetError (String × String)) (db db' : Db)
      (binding : EmbeddingSetBinding) {w : Workspace}
      → select (is_workspace scope) db.workspaces ≡ some w
      → str_eq set_id "" ≡ false
      → and_then (model, db) (mint host settings scope set_id now) ≡ (ok binding, db')
      → active_binding scope db' ≡ (ok (some binding), db')
  from_model (ok named_model) db db' binding there named h =
      mint-binds named_model db db' binding there named h
  from_model (err e) db db' binding there named h = absurd (err_not_ok h)

  from_binding :
      (bound : Outcome EmbeddingSetError (Option EmbeddingSetBinding)) (db db' : Db)
      (binding : EmbeddingSetBinding) {w : Workspace}
      → select (is_workspace scope) db.workspaces ≡ some w
      → str_eq set_id "" ≡ false
      → active_binding scope db ≡ (bound, db)
      → and_then (bound, db) (minted host settings scope set_id now) ≡ (ok binding, db')
      → active_binding scope db' ≡ (ok (some binding), db')
  unfolding minted
  from_binding (ok (some b)) db db' binding there named here h =
      let (e, e') = ok_inj h in rw (← e', ← e) here
  from_binding (ok none) db db' binding there named here h =
      from_model (split_embedding_model host settings.embedding_model) db db' binding there named h
  from_binding (err e) db db' binding there named here h = absurd (err_not_ok h)

  -- When a call has given a workspace its embedding set, the set is its active one, and a call that
  -- directly follows returns the same binding and writes nothing, whatever id and time it would have
  -- used.
  pub ensure_active-again :
      (db db' : Db) (binding : EmbeddingSetBinding) (set_id' : String) (now' : ℕ) {w : Workspace}
      → select (is_workspace scope) db.workspaces ≡ some w
      → str_eq set_id "" ≡ false
      → ensure_active host settings scope set_id now db ≡ (ok binding, db')
      → (active_binding scope db' ≡ (ok (some binding), db'))
        × (ensure_active host settings scope set_id' now' db' ≡ (ok binding, db'))
  unfolding ensure_active minted active_binding
  ensure_active-again db db' binding set_id' now' there named h =
      let bound = from_binding (active_binding scope db).0 db db' binding there named refl h in
      (bound, rw bound refl)
