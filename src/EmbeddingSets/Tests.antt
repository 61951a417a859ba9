-- ===== src/EmbeddingSets/Tests.antt =====
-- A workspace with two embedding sets, and one with none; the theorems at them.
use Prim.Native.Char.{code}
use flycanon.Prelude.{ℕ, ◌==◌, String, ◌≡◌, refl, false, Option, none, some, [], ◌∷◌}
use flycanon.Prelude.Actions.{ok, err}
use flycanon.Table.{select, update_where, insert}
use flycanon.EmbeddingSets.{
  SetStatus, building, ready, active, EmbeddingSetRow, Db, Scope, insert_set, set_status,
  point_workspace_at, get, active_set_id,
}
use flycanon.EmbeddingSets.Service.{
  Host, CanonSettings, cannot_serve, malformed_model, EmbeddingSetBinding, activate, check_target,
  retire_previous, split_embedding_model, ensure_active, active_binding, minted, mint, create,
  new_row, fingerprint, config_fingerprint,
}
use flycanon.EmbeddingSets.Minting.{ensure_active-again}

abbrev pub host : Host
host = record {
  is_space = λ c. code c == 32;
  lower = λ s. s;
  str = λ n. "1536";
  sha256 = λ s. s;
  id_after = λ s t. false;
}

abbrev pub settings : CanonSettings
settings = record {
  embedding_model = "azure: emb-3 ";
  embedding_dimensions = 1536;
  azure_openai_endpoint = "https://e";
  azure_openai_api_version = "v1";
}

abbrev scope : Scope
scope = record { tenant_id = "t"; workspace_id = "w" }

abbrev pub set_row : String → SetStatus → Option ℕ → EmbeddingSetRow
set_row id status activated_at = record {
  id = id;
  tenant_id = "t";
  workspace_id = "w";
  provider = "azure";
  model = "emb-3";
  dimensions = 1536;
  status = status;
  config_fingerprint = "f";
  chunk_count = 0;
  vector_count = 0;
  index_name = none;
  ready_at = none;
  activated_at = activated_at;
  retired_at = none;
  created_by = none;
  note = none;
}

abbrev two_sets : Db
two_sets = record {
  sets = set_row "es-a" active (some 1) ∷ set_row "es-b" ready none ∷ [];
  workspaces = record { id = "w"; tenant_id = "t"; active_embedding_set_id = some "es-a" } ∷ [];
}

abbrev no_set : Db
no_set = record {
  sets = [];
  workspaces = record { id = "w"; tenant_id = "t"; active_embedding_set_id = none } ∷ [];
}

split : split_embedding_model host "azure: emb-3 " ≡ ok ("azure", "emb-3")
unfolding split_embedding_model
split = refl

split_no_colon : split_embedding_model host "azure" ≡ err (malformed_model "azure")
unfolding split_embedding_model
split_no_colon = refl

-- A set that is still building is refused.
building_refused :
    (activate scope "es-c" 5 6 (record two_sets { sets = set_row "es-c" building none ∷ [] })).0
    ≡ err (cannot_serve "es-c" building)
unfolding activate check_target retire_previous set_status point_workspace_at get select
building_refused = refl

abbrev first_binding : EmbeddingSetBinding
first_binding = record { set_id = "es-1"; provider = "azure"; model = "emb-3"; dimensions = 1536 }

made_first : (ensure_active host settings scope "es-1" 3 no_set).0 ≡ ok first_binding
unfolding ensure_active active_binding minted mint create new_row fingerprint config_fingerprint
    split_embedding_model insert_set point_workspace_at get active_set_id select insert update_where
made_first = refl

ensure_active-again_example :
    (active_binding scope (ensure_active host settings scope "es-1" 3 no_set).1
      ≡ (ok (some first_binding), (ensure_active host settings scope "es-1" 3 no_set).1))
    × (ensure_active host settings scope "es-2" 4
          (ensure_active host settings scope "es-1" 3 no_set).1
        ≡ (ok first_binding, (ensure_active host settings scope "es-1" 3 no_set).1))
unfolding ensure_active active_binding minted mint create new_row fingerprint config_fingerprint
    split_embedding_model insert_set point_workspace_at get active_set_id select insert update_where
ensure_active-again_example =
    ensure_active-again host settings scope "es-1" 3 no_set
      (ensure_active host settings scope "es-1" 3 no_set).1 first_binding "es-2" 4 refl refl refl
