-- ===== src/EmbeddingSets/Switch.antt =====
-- What a switch of the embedding set does, and that a rollback undoes it.
use mathlib.Core.Option
use flycanon.Prelude.{
  ℕ, String, str_eq, eq_iff, ◌≡◌, refl, ap, ◌∙◌, true, false, Option, none, some, inl, inr, arith,
  Option-cases, Bool-cases, ◌||◌, if◌then◌else◌,
}
use flycanon.Prelude.Actions.{ok}
use flycanon.Table.{select, select-update_where, select_sound}
use flycanon.EmbeddingSets.{
  SetStatus, active, retired, EmbeddingSetRow, Workspace, Db, Scope, is_set, is_workspace, patched,
  set_status, point_workspace_at, get, active_set_id,
}
use flycanon.EmbeddingSets.Service.{can_serve, check_target, retire_previous, reported, activate}

get-set_status :
    (scope : Scope) (set_id other : String) (status : SetStatus) (now : ℕ) (db : Db)
    → get scope other (set_status scope set_id status now none none db)
      ≡ Option.map
          (λ r. if is_set scope set_id r then patched status now none none r else r)
          (get scope other db)
unfolding get set_status patched
get-set_status scope set_id other status now db =
    select-update_where (is_set scope other) (is_set scope set_id) (patched status now none none)
      db.sets (λ r. refl)

pub is_set-get :
    (scope : Scope) (set_id : String) (db : Db) {r : EmbeddingSetRow}
    → get scope set_id db ≡ some r
    → is_set scope set_id r ≡ true
unfolding get
is_set-get scope set_id db h = select_sound (is_set scope set_id) db.sets h

get-marked :
    (scope : Scope) (set_id : String) (status : SetStatus) (now : ℕ) (db : Db) {r : EmbeddingSetRow}
    → get scope set_id db ≡ some r
    → get scope set_id (set_status scope set_id status now none none db)
      ≡ some (patched status now none none r)
get-marked scope set_id status now db {r} h =
    get-set_status scope set_id set_id status now db ∙ rw (h, is_set-get scope set_id db h) refl

get-other :
    (scope : Scope) (set_id other : String) (status : SetStatus) (now : ℕ) (db : Db)
    {r : EmbeddingSetRow}
    → str_eq set_id other ≡ false
    → get scope other db ≡ some r
    → get scope other (set_status scope set_id status now none none db) ≡ some r
get-other scope set_id other status now db {r} differ h =
    let here = is_set-get scope other db h in
    let there : is_set scope set_id r ≡ false =
      ground (arith, here, differ, eq_iff r.id other, eq_iff r.id set_id, eq_iff set_id other) in
    get-set_status scope set_id other status now db ∙ rw (h, there) refl

pub active_set_id-point :
    (scope : Scope) (set_id : Option String) (db : Db) {w : Workspace}
    → select (is_workspace scope) db.workspaces ≡ some w
    → active_set_id scope (point_workspace_at scope set_id db) ≡ set_id
unfolding active_set_id point_workspace_at
active_set_id-point scope set_id db {w} found =
    let here : is_workspace scope w ≡ true =
      select_sound (is_workspace scope) db.workspaces found in
    rw
      (
        select-update_where (is_workspace scope) (is_workspace scope)
            (λ w. record w { active_embedding_set_id = set_id }) db.workspaces (λ w. refl),
        found,
        here,
      )
      refl

-- A set that is marked is found under its new status and counts.
pub get-marked_counts :
    (scope : Scope) (set_id : String) (status : SetStatus) (now : ℕ) (vectors chunks : Option ℕ)
    (db : Db) {r : EmbeddingSetRow}
    → get scope set_id db ≡ some r
    → get scope set_id (set_status scope set_id status now vectors chunks db)
      ≡ some (patched status now vectors chunks r)
unfolding get set_status patched
get-marked_counts scope set_id status now vectors chunks db found =
    let here = select_sound (is_set scope set_id) db.sets found in
    select-update_where (is_set scope set_id) (is_set scope set_id)
      (patched status now vectors chunks) db.sets (λ r. refl)
    ∙ ap
        (Option.map (λ r. if is_set scope set_id r then patched status now vectors chunks r else r))
        found
    ∙ rw here refl

-- A workspace with a pointer is there.
workspace_there :
    (scope : Scope) (db : Db) {p : String}
    → active_set_id scope db ≡ some p
    → (w : Workspace) × (select (is_workspace scope) db.workspaces ≡ some w)
unfolding active_set_id
workspace_there scope db h = elim (Option-cases (select (is_workspace scope) db.workspaces)) [
  | inl absent ↦ absurd (ground (arith, absent, h))
  | inr there ↦ there
]

active_set_id-set_status :
    (scope : Scope) (set_id : String) (status : SetStatus) (now : ℕ) (db : Db)
    → active_set_id scope (set_status scope set_id status now none none db) ≡ active_set_id scope db
unfolding active_set_id set_status
active_set_id-set_status scope set_id status now db = refl

pub get-point :
    (scope : Scope) (set_id : String) (pointer : Option String) (db : Db)
    → get scope set_id (point_workspace_at scope pointer db) ≡ get scope set_id db
unfolding get point_workspace_at
get-point scope set_id pointer db = refl

-- The state after a switch, statement by statement.
abbrev pub switched : Scope → String → Option String → ℕ → ℕ → Db → Db
switched scope set_id previous now later db =
    retire_previous scope set_id previous later
      (set_status scope set_id active now none none (point_workspace_at scope (some set_id) db))

pub activate_ok :
    (scope : Scope) (set_id : String) (now later : ℕ) (db : Db) {target : EmbeddingSetRow}
    → get scope set_id db ≡ some target
    → can_serve target.status ≡ true
    → activate scope set_id now later db ≡ (
      ok (reported set_id (active_set_id scope db)),
      switched scope set_id (active_set_id scope db) now later db,
    )
unfolding activate check_target
activate_ok scope set_id now later db h serves = rw (h, serves) refl

-- Whatever was served before, the switch points the workspace to the set.
pub active_set_id-switched :
    (scope : Scope) (set_id : String) (previous : Option String) (now later : ℕ) (db : Db)
    {w : Workspace}
    → select (is_workspace scope) db.workspaces ≡ some w
    → active_set_id scope (switched scope set_id previous now later db) ≡ some set_id
unfolding retire_previous
active_set_id-switched scope set_id none now later db there =
    active_set_id-set_status scope set_id active now (point_workspace_at scope (some set_id) db)
    ∙ active_set_id-point scope (some set_id) db there
active_set_id-switched scope set_id (some previous) now later db there =
    let db1 = point_workspace_at scope (some set_id) db in
    let pointed =
      active_set_id-set_status scope set_id active now db1
      ∙ active_set_id-point scope (some set_id) db there in
    elim (Bool-cases (str_eq previous "" || str_eq previous set_id)) [
      | inl same ↦ rw same pointed
      | inr other ↦ rw other (
          active_set_id-set_status scope previous retired later
            (set_status scope set_id active now none none db1)
          ∙ pointed)
    ]

-- The rows of a switch away from `previous`: what a reader finds.
pub switch-gets :
    (scope : Scope) (set_id previous : String) (now later : ℕ) (db : Db)
    {target old : EmbeddingSetRow}
    → active_set_id scope db ≡ some previous
    → str_eq previous "" ≡ false
    → str_eq previous set_id ≡ false
    → get scope set_id db ≡ some target
    → get scope previous db ≡ some old
    → (active_set_id scope (switched scope set_id (some previous) now later db) ≡ some set_id)
      × (get scope set_id (switched scope set_id (some previous) now later db)
          ≡ some (patched active now none none target))
      × (get scope previous (switched scope set_id (some previous) now later db)
          ≡ some (patched retired later none none old))
unfolding retire_previous
switch-gets scope set_id previous now later db {target} {old} served named differ found found_old =
    let db1 = point_workspace_at scope (some set_id) db in
    let db2 = set_status scope set_id active now none none db1 in
    let differ' : str_eq set_id previous ≡ false =
      ground (arith, eq_iff set_id previous, eq_iff previous set_id) in
    rw (named, differ)
      (
        active_set_id-set_status scope previous retired later db2
            ∙ active_set_id-set_status scope set_id active now db1
            ∙ active_set_id-point scope (some set_id) db (workspace_there scope db served).1,
        get-other scope previous set_id retired later db2 differ (
            get-marked scope set_id active now db1
              (get-point scope set_id (some set_id) db ∙ found)),
        get-marked scope previous retired later db2 (
            get-other scope set_id previous active now db1 differ'
              (get-point scope previous (some set_id) db ∙ found_old)),
      )
