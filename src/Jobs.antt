-- ===== src/Jobs.antt =====
-- models/repositories/ingest_job_repository.py over the rows of models/entities/ingest_job.py, and the
-- worker side of core/services/sources/async_ingest_service.py. Times are microseconds.
pub mod Machine
pub mod Lease
pub mod Worker
pub mod Submit
pub mod Tests
use flycanon.Prelude.{
  ℕ, zero, suc, ◌+◌, ◌*◌, String, str_eq, Bool, true, false, ◌&&◌, ◌||◌, Option, none, some, List,
  [], ◌∷◌, ltb, leb, ◌==◌, take, filter, map, if◌then◌else◌, is_some, ◌++◌,
}
use flycanon.Effects.{Payload}
use flycanon.Table.{select, update_where, upsert, insert, find, claim_row}

pub data JobStatus : Type 0 where
  queued running succeeded failed : JobStatus

pub record JobRow : Type 0 where
  pub id : String
  pub tenant_id : String
  pub workspace_id : String
  pub status : JobStatus
  pub kind : String
  pub source_id : Option String
  pub attempts : ℕ
  pub filename : Option String
  pub content_type : Option String
  pub uri : Option String
  pub content_sha256 : Option String
  pub actor : Option String
  pub correlation_id : Option String
  pub callback_url : Option String
  pub metadata_json : Payload
  pub error_code : Option String
  pub error_message : Option String
  pub created_at : ℕ
  pub started_at : Option ℕ
  pub finished_at : Option ℕ

abbrev pub Jobs : Type 0
Jobs = List JobRow

abbrev pub job_key : JobRow → String
job_key r = r.id

abbrev pub is_queued : JobStatus → Bool
is_queued queued = true
is_queued _ = false

abbrev pub is_running : JobStatus → Bool
is_running running = true
is_running _ = false

-- job.status in ("succeeded", "failed")
abbrev pub is_terminal : JobStatus → Bool
is_terminal succeeded = true
is_terminal failed = true
is_terminal _ = false

-- started_at IS NOT NULL AND started_at < now - lease
abbrev pub started_before : ℕ → ℕ → Option ℕ → Bool
started_before lease_seconds now none = false
started_before lease_seconds now (some t) = ltb (t + lease_seconds * 1000000) now

abbrev pub is_stale : ℕ → ℕ → JobRow → Bool
is_stale lease_seconds now r = is_running r.status && started_before lease_seconds now r.started_at

-- The condition of `mark_running` beside the id; without a positive lease only `queued` counts.
unfoldable pub is_claimable : Option ℕ → ℕ → JobRow → Bool
is_claimable none now r = is_queued r.status
is_claimable (some lease_seconds) now r =
    is_queued r.status || (ltb 0 lease_seconds && is_stale lease_seconds now r)

unfoldable pub claimed : ℕ → JobRow → JobRow
claimed db_now r = record r {
  status = running;
  attempts = r.attempts + 1;
  started_at = some db_now;
  error_code = none;
  error_message = none;
}

-- session.add: a primary key that is taken is an IntegrityError.
pub add : JobRow → Jobs → Option Jobs
add row jobs = if is_some (find job_key row.id jobs) then none else some (insert row jobs)

-- session.merge: the row of the id is replaced whole, whatever it was; an unknown id is inserted.
unfoldable pub update_row : JobRow → Jobs → Jobs
update_row = upsert job_key

-- `now` is the worker's clock, and `db_now` the database's.
pub mark_running : String → Option ℕ → ℕ → ℕ → Jobs → Option JobRow × Jobs
mark_running job_id lease_seconds now db_now =
    claim_row job_key job_id (is_claimable lease_seconds now) (claimed db_now)

-- `attempts == expected_attempts`, if the caller gives it
abbrev pub has_lease : Option ℕ → JobRow → Bool
has_lease none r = true
has_lease (some expected) r = r.attempts == expected

abbrev pub is_held : Option ℕ → JobRow → Bool
is_held expected_attempts r = is_running r.status && has_lease expected_attempts r

unfoldable pub succeed : String → Option String → ℕ → JobRow → JobRow
succeed source_id content_sha256 db_now r = record r {
  status = succeeded;
  source_id = some source_id;
  content_sha256 = content_sha256;
  finished_at = some db_now;
}

unfoldable pub fail : String → String → ℕ → JobRow → JobRow
fail code message db_now r = record r {
  status = failed;
  error_code = some code;
  error_message = some message;
  finished_at = some db_now;
}

pub mark_succeeded : String → String → Option String → Option ℕ → ℕ → Jobs → Option JobRow × Jobs
mark_succeeded job_id source_id content_sha256 expected_attempts db_now =
    claim_row job_key job_id (is_held expected_attempts) (succeed source_id content_sha256 db_now)

pub mark_failed : String → String → String → Option ℕ → ℕ → Jobs → Option JobRow × Jobs
mark_failed job_id code message expected_attempts db_now =
    claim_row job_key job_id (is_held expected_attempts) (fail code message db_now)

pub record ReclaimedJob : Type 0 where
  pub job_id : String
  pub tenant_id : String
  pub workspace_id : String

unfoldable pub demoted : JobRow → JobRow
demoted r = record r { status = queued; error_code = none; error_message = none }

abbrev pub mem_id : String → List ReclaimedJob → Bool
mem_id k [] = false
mem_id k (j ∷ js) = str_eq j.job_id k || mem_id k js

-- The rows that the SELECT … LIMIT returns; their order is the table's.
unfoldable pub stuck : ℕ → ℕ → ℕ → Jobs → List ReclaimedJob
stuck lease_seconds limit now jobs =
    map (λ r. record { job_id = r.id; tenant_id = r.tenant_id; workspace_id = r.workspace_id })
      (take limit (filter (is_stale lease_seconds now) jobs))

-- The UPDATE of a sweep: by id alone, so it takes a row whatever its status is by then.
pub requeue : List ReclaimedJob → Jobs → Jobs
requeue reclaimed = update_where (λ (r : JobRow). mem_id r.id reclaimed) demoted

-- The SELECT takes no lock: `between` is what other sessions commit before the UPDATE. Without a
-- positive lease nothing is reclaimed.
pub reclaim_stuck : ℕ → ℕ → ℕ → (Jobs → Jobs) → Jobs → List ReclaimedJob × Jobs
reclaim_stuck zero limit now between jobs = ([], jobs)
reclaim_stuck (suc l) limit now between jobs =
    let reclaimed = stuck (suc l) limit now jobs in (reclaimed, requeue reclaimed (between jobs))

-- SELECT … WHERE id, tenant_id and workspace_id
pub get : String → String → String → Jobs → Option JobRow
get job_id tenant_id workspace_id = select (λ (r : JobRow).
    str_eq r.id job_id && (str_eq r.tenant_id tenant_id && str_eq r.workspace_id workspace_id))

pub get_across_workspaces : String → Jobs → Option JobRow
get_across_workspaces job_id = find job_key job_id
