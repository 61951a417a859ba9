-- ===== src/EmbeddingSets/Rollback.antt =====
-- A rollback after a switch.
use flycanon.Prelude.{ℕ, ◌&&◌, not, String, str_eq, Bool, none, some}
use flycanon.EmbeddingSets.{
  active, retired, is_retired, EmbeddingSetRow, Db, Scope, in_scope, set_status, point_workspace_at,
}
use flycanon.EmbeddingSets.Service.{Host, activate, rollback}

-- What `previous_active` asks for.
abbrev asked : Scope → String → EmbeddingSetRow → Bool
asked scope set_id r = in_scope scope r && (not (str_eq r.id set_id) && is_retired r.status)

-- The switch with its last statement written out.
retiring : Scope → String → String → ℕ → ℕ → Db → Db
retiring scope set_id previous now later db =
    set_status scope previous retired later none none
      (set_status scope set_id active now none none (point_workspace_at scope (some set_id) db))

-- The service's workspace after each of two calls.
abbrev pub after_switch : Scope → String → ℕ → ℕ → Db → Db
after_switch scope set_id now later db = (activate scope set_id now later db).1

abbrev pub after_rollback : Host → Scope → ℕ → ℕ → Db → Db
after_rollback host scope now later db = (rollback host scope now later db).1
