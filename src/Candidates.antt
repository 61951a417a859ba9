-- ===== src/Candidates.antt =====
-- models/repositories/candidate_repository.py over the rows of models/entities/candidate.py.
pub mod Service
pub mod Proposals
pub mod Tests
use flycanon.Prelude.{
  ℕ, String, str_eq, Bool, true, false, ◌&&◌, Option, none, some, List, [], ◌∷◌, if◌then◌else◌,
}
use flycanon.Effects.{Value, Payload}
use flycanon.Table.{select, upsert, find, claim_row}

pub data CandidateStatus : Type 0 where
  proposed accepted rejected merged : CandidateStatus

-- One entry of `citations_json`.
pub record RawCitation : Type 0 where
  pub chunk_id : Option String
  pub quote : Option String
  pub relevance : Option String

pub record CandidateRow : Type 0 where
  pub id : String
  pub tenant_id : String
  pub workspace_id : String
  pub status : CandidateStatus
  pub source_id : String
  pub title : String
  pub summary : Option String
  pub body : String
  pub domain : String
  pub jurisdiction : String
  pub tags_json : List String
  pub citations_json : List RawCitation
  pub score : Option String
  pub rationale : Option String
  pub materialised_knowledge_item_id : Option String
  pub materialised_version : Option ℕ
  pub actor : Option String
  pub decided_at : Option ℕ
  pub decided_by : Option String
  pub metadata_json : Payload

abbrev pub Candidates : Type 0
Candidates = List CandidateRow

abbrev pub candidate_key : CandidateRow → String
candidate_key r = r.id

abbrev pub is_proposed : CandidateStatus → Bool
is_proposed proposed = true
is_proposed _ = false

unfoldable pub get : String → String → String → Candidates → Option CandidateRow
get candidate_id tenant_id workspace_id = select (λ (r : CandidateRow).
    str_eq r.id candidate_id
    && (str_eq r.tenant_id tenant_id && str_eq r.workspace_id workspace_id))

unfoldable pub decided : CandidateStatus → Option String → ℕ → CandidateRow → CandidateRow
decided new_status actor now r = record r {
  status = new_status;
  decided_at = some now;
  decided_by = actor;
}

unfoldable pub claim_decision :
    String → CandidateStatus → Option String → ℕ → Candidates → Option CandidateRow × Candidates
claim_decision candidate_id new_status actor now =
    claim_row candidate_key candidate_id (λ r. is_proposed r.status) (decided new_status actor now)

-- dict.update
unfoldable pub update_dict : Payload → Payload → Payload
update_dict values [] = values
update_dict values (entry ∷ patch) =
    update_dict (upsert (λ (e : String × Value). e.0) entry values) patch

abbrev pub or_kept {ℓ} : {A : Type ℓ} → Option A → Option A → Option A
or_kept none old = old
or_kept (some x) old = some x

unfoldable pub finalised : Option String → Option ℕ → Payload → CandidateRow → CandidateRow
finalised item_id version metadata_patch r = record r {
  materialised_knowledge_item_id = or_kept item_id r.materialised_knowledge_item_id;
  materialised_version = or_kept version r.materialised_version;
  metadata_json = update_dict r.metadata_json metadata_patch;
}

-- The read of the metadata and its write are one transaction. With nothing to set the row is read.
unfoldable pub finalise :
    String → Option String → Option ℕ → Payload → Candidates → Option CandidateRow × Candidates
finalise candidate_id none none [] rows = (find candidate_key candidate_id rows, rows)
finalise candidate_id item_id version metadata_patch rows =
    claim_row candidate_key candidate_id (λ r. true) (finalised item_id version metadata_patch) rows
