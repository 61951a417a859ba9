-- ===== src/EmbeddingSets/Service.antt =====
-- core/services/embeddings/embedding_sets.py: `EmbeddingSetService` and `split_embedding_model`. Ids and
-- times are arguments; what Python's library and the database's collation do is a `Host`.
use Prim.Native.Char.{Char}
use Prim.Native.String.{◌++◌}
use flycanon.Prelude.{ℕ, ◌||◌, String, str_eq, Bool, true, false, Option, none, some, if◌then◌else◌}
use flycanon.Prelude.Strings.{partition, strip, replace}
use flycanon.Prelude.Actions.{Outcome, ok, err, Action, ◌>>=◌, ◌>>◌, return, raise, gets, modify}
use text.Mathlib.Text.{starts_with}
use flycanon.EmbeddingSets.{
  SetStatus, ready, active, retired, EmbeddingSetRow, Db, Scope, insert_set, set_status,
  point_workspace_at, get, active_set_id, previous_active,
}

pub record Host : Type 0 where
  pub is_space : Char → Bool
  pub lower : String → String
  pub str : ℕ → String
  pub sha256 : String → String
  pub id_after : String → String → Bool

pub record CanonSettings : Type 0 where
  pub embedding_model : String
  pub embedding_dimensions : ℕ
  pub azure_openai_endpoint : String
  pub azure_openai_api_version : String

pub data EmbeddingSetError : Type 0 where
  malformed_model : String → EmbeddingSetError
  dangling_pointer : String → EmbeddingSetError
  no_such_set : String → EmbeddingSetError
  cannot_serve : String → SetStatus → EmbeddingSetError
  nothing_active : EmbeddingSetError
  nothing_retired : EmbeddingSetError
  integrity_error : EmbeddingSetError

pub record EmbeddingSetBinding : Type 0 where
  pub set_id : String
  pub provider : String
  pub model : String
  pub dimensions : ℕ

abbrev pub binding_of : EmbeddingSetRow → EmbeddingSetBinding
binding_of row = record {
  set_id = row.id;
  provider = row.provider;
  model = row.model;
  dimensions = row.dimensions;
}

-- `value or None`: an empty string is no value.
abbrev pub truthy : Option String → Option String
truthy none = none
truthy (some s) = if str_eq s "" then none else some s

abbrev pub can_serve : SetStatus → Bool
can_serve ready = true
can_serve active = true
can_serve retired = true
can_serve _ = false

lookup_binding : Scope → Option String → Db → Outcome EmbeddingSetError (Option EmbeddingSetBinding)
lookup_binding scope none db = ok none
lookup_binding scope (some set_id) db = bound (get scope set_id db)
  where
    bound : Option EmbeddingSetRow → Outcome EmbeddingSetError (Option EmbeddingSetBinding)
    bound none = err (dangling_pointer set_id)
    bound (some row) = ok (some (binding_of row))

unfoldable pub active_binding : Scope → Action EmbeddingSetError Db (Option EmbeddingSetBinding)
unfolding lookup_binding
active_binding scope db = (lookup_binding scope (truthy (active_set_id scope db)) db, db)

unfoldable pub mark :
    Scope → String → SetStatus → ℕ → Option ℕ → Option ℕ → Action EmbeddingSetError Db (Unit {0})
mark scope set_id status now vector_count chunk_count =
    modify (set_status scope set_id status now vector_count chunk_count)

-- Two checks of `activate`, before it writes.
unfoldable pub check_target : String → Option EmbeddingSetRow → Outcome EmbeddingSetError (Unit {0})
check_target set_id none = err (no_such_set set_id)
check_target set_id (some target) =
    if can_serve target.status then ok tt else err (cannot_serve set_id target.status)

unfoldable pub retire_previous : Scope → String → Option String → ℕ → Db → Db
retire_previous scope set_id none now db = db
retire_previous scope set_id (some previous) now db =
    if str_eq previous "" || str_eq previous set_id
    then db
    else set_status scope previous retired now none none db

abbrev pub reported : String → Option String → Option String
reported set_id none = none
reported set_id (some previous) = if str_eq previous set_id then none else some previous

-- The clock is read once for each of the two sets that it stamps.
unfoldable pub activate : Scope → String → ℕ → ℕ → Action EmbeddingSetError Db (Option String)
unfolding check_target retire_previous
activate scope set_id now later = do
  (λ db. (check_target set_id (get scope set_id db), db))
  previous ← gets (active_set_id scope)
  modify (point_workspace_at scope (some set_id))
  modify (set_status scope set_id active now none none)
  modify (retire_previous scope set_id previous later)
  return (reported set_id previous)

module _ (host : Host) where
  split_parts : String → Option (String × String) → Outcome EmbeddingSetError (String × String)
  split_parts whole none = err (malformed_model whole)
  split_parts whole (some (provider, model)) =
      if str_eq (strip host.is_space provider) "" || str_eq (strip host.is_space model) ""
      then err (malformed_model whole)
      else ok (host.lower (strip host.is_space provider), strip host.is_space model)

  unfoldable pub split_embedding_model : String → Outcome EmbeddingSetError (String × String)
  unfolding split_parts
  split_embedding_model embedding_model =
      split_parts embedding_model (partition ":" embedding_model)

  unfoldable pub config_fingerprint : String → String → ℕ → String → String → String
  config_fingerprint provider model dimensions endpoint api_version =
      let strip = strip host.is_space in
      host.sha256 (
        host.lower (strip provider)
        ++ (unit_separator
            ++ (strip model
                ++ (unit_separator
                    ++ (host.str dimensions
                        ++ (unit_separator
                            ++ (strip endpoint ++ (unit_separator ++ strip api_version))))))))
    where
      unit_separator : String
      unit_separator = "\u{1f}"

  module _ (settings : CanonSettings) where
    unfoldable pub fingerprint : String → String → ℕ → String
    fingerprint provider model dimensions =
        let azure = starts_with provider "azure" in
        config_fingerprint provider model dimensions
          (if azure then settings.azure_openai_endpoint else "")
          (if azure then settings.azure_openai_api_version else "")

    -- The optional arguments of `create`.
    pub record NewSet : Type 0 where
      pub set_id : String
      pub provider : String
      pub model : String
      pub dimensions : ℕ
      pub status : SetStatus
      pub chunk_count : ℕ
      pub created_by : Option String
      pub note : Option String

    unfoldable pub new_row : Scope → NewSet → ℕ → EmbeddingSetRow
    unfolding fingerprint config_fingerprint
    new_row scope new now = record {
      id = new.set_id;
      tenant_id = scope.tenant_id;
      workspace_id = scope.workspace_id;
      provider = new.provider;
      model = new.model;
      dimensions = new.dimensions;
      status = new.status;
      config_fingerprint = fingerprint new.provider new.model new.dimensions;
      chunk_count = new.chunk_count;
      vector_count = 0;
      index_name = some ("canon_chunk_vectors_hnsw_" ++ replace "-" "_" new.set_id);
      ready_at = none;
      activated_at = if_active new.status;
      retired_at = none;
      created_by = new.created_by;
      note = new.note;
    }
      where
        if_active : SetStatus → Option ℕ
        if_active active = some now
        if_active _ = none

    unfoldable pub create : Scope → NewSet → ℕ → Action EmbeddingSetError Db EmbeddingSetRow
    create scope new now db = inserted (insert_set (new_row scope new now) db)
      where
        inserted : Option Db → Outcome EmbeddingSetError EmbeddingSetRow × Db
        inserted none = (err integrity_error, db)
        inserted (some db') = (ok (new_row scope new now), db')

    -- The set that the first index of a workspace makes.
    abbrev pub default_set : String → String → String → NewSet
    default_set set_id provider model = record {
      set_id = set_id;
      provider = provider;
      model = model;
      dimensions = settings.embedding_dimensions;
      status = active;
      chunk_count = 0;
      created_by = none;
      note = some "minted from the process default on first index";
    }

    unfoldable pub mint :
        Scope → String → ℕ → String × String → Action EmbeddingSetError Db EmbeddingSetBinding
    unfolding create
    mint scope set_id now (provider, model) = do
      row ← create scope (default_set set_id provider model) now
      modify (point_workspace_at scope (some row.id))
      return (binding_of row)

    unfoldable pub minted :
        Scope
        → String
        → ℕ
        → Option EmbeddingSetBinding
        → Action EmbeddingSetError Db EmbeddingSetBinding
    unfolding mint
    minted scope set_id now (some binding) = return binding
    minted scope set_id now none = do
      provider_model ← (λ db. (split_embedding_model settings.embedding_model, db))
      mint scope set_id now provider_model

    unfoldable pub ensure_active :
        Scope → String → ℕ → Action EmbeddingSetError Db EmbeddingSetBinding
    unfolding active_binding minted
    ensure_active scope set_id now = do
      binding ← active_binding scope
      minted scope set_id now binding

  retired_before : Option EmbeddingSetRow → Action EmbeddingSetError Db EmbeddingSetRow
  retired_before none = raise nothing_retired
  retired_before (some row) = return row

  current : Option String → Action EmbeddingSetError Db String
  current none = raise nothing_active
  current (some set_id) = return set_id

  unfoldable pub rollback : Scope → ℕ → ℕ → Action EmbeddingSetError Db String
  unfolding activate current retired_before
  rollback scope now later = do
    pointer ← gets (active_set_id scope)
    set_id ← current (truthy pointer)
    found ← gets (previous_active host.id_after scope set_id)
    previous ← retired_before found
    activated ← activate scope previous.id now later
    return previous.id
