-- ===== src/Jobs/Tests.antt =====
-- The job queue on three jobs, and its theorems at them.
use mathlib.Core.Option
use flycanon.Prelude.{
  ℕ, ◌+◌, min, String, ◌≡◌, refl, true, false, is_some, Option, none, some, List, [], ◌∷◌, ◌++◌,
  All, arith, length, filter, map, if◌then◌else◌, ltb,
}
use flycanon.Effects.{Broker, Topics}
use flycanon.Table.{find, Unique, select, update_where, upsert, claim_row}
use flycanon.Jobs.{
  JobStatus, queued, running, succeeded, JobRow, Jobs, job_key, is_claimable, claimed, demoted,
  stuck, succeed, fail, mark_running, mark_succeeded, mark_failed, reclaim_stuck, requeue,
  update_row, get, add, mem_id, ReclaimedJob,
}
use flycanon.Jobs.Machine.{
  Statement, claim, finish, give_up, reset, merge, execute, execute_all, Moves, execute-Moves,
  terminal-stays,
}
use flycanon.Jobs.Lease.{claim_exclusive, poached_lease_fenced}
use flycanon.Jobs.Worker.{
  State, IngestSettings, Clocks, SourceRow, ingested, Claim, exhausted, leased, process_claim,
  process_finish, sweep_stuck_jobs,
}
use flycanon.Jobs.Worker.Claiming.{claimable_delivery, taken, poisoned}
use flycanon.Jobs.Worker.Finish.{stale_finish_silent, held_finish_verdict, verdict_audit}
use flycanon.Jobs.Worker.Sweep.{
  sweep-requeues, IsReclaimed, request, has_lapsed, returned, reclaimed_id,
}

program : Unit {0}
unfolding is_claimable claimed succeed fail demoted stuck mark_running mark_succeeded mark_failed
    reclaim_stuck requeue update_row get add execute execute_all select update_where upsert
    claim_row
program = tt

abbrev job : String → JobStatus → ℕ → Option ℕ → JobRow
job id status attempts started_at = record {
  id = id;
  tenant_id = "t";
  workspace_id = "w";
  status = status;
  kind = "ingest";
  source_id = none;
  attempts = attempts;
  filename = some "a.pdf";
  content_type = none;
  uri = none;
  content_sha256 = none;
  actor = some "ann";
  correlation_id = none;
  callback_url = some "https://example.org/hook";
  metadata_json = [];
  error_code = none;
  error_message = none;
  created_at = 0;
  started_at = started_at;
  finished_at = none;
}

abbrev fresh : JobRow
fresh = job "j1" queued 0 none

abbrev crashed : JobRow
crashed = job "j2" running 1 (some 1000000)

abbrev done : JobRow
done = job "j3" succeeded 1 (some 1000000)

abbrev jobs : Jobs
jobs = fresh ∷ crashed ∷ done ∷ []

jobs-Unique : Unique job_key jobs
jobs-Unique = ((refl, (refl, tt)), ((refl, tt), (tt, tt)))

abbrev hour : ℕ
hour = 3600000000

claim_fresh : (mark_running "j1" (some 600) hour hour jobs).0 ≡ some (claimed hour fresh)
unfolding program
claim_fresh = refl

claim_done : mark_running "j3" (some 600) hour hour jobs ≡ (none, jobs)
unfolding program
claim_done = refl

other_scope : get "j1" "t" "other" jobs ≡ none
unfolding program
other_scope = refl

taken_id : add fresh jobs ≡ none
unfolding program
taken_id = refl

reclaim_crashed :
    (reclaim_stuck 600 100 hour (λ rows. rows) jobs).0
    ≡ record { job_id = "j2"; tenant_id = "t"; workspace_id = "w" } ∷ []
unfolding program
reclaim_crashed = refl

found_fresh : find job_key "j1" jobs ≡ some fresh
unfolding program
found_fresh = refl

found_crashed : find job_key "j2" jobs ≡ some crashed
unfolding program
found_crashed = refl

found_done : find job_key "j3" jobs ≡ some done
unfolding program
found_done = refl

-- What the sweep reads at that time.
abbrev crashed_ticket : ReclaimedJob
crashed_ticket = record { job_id = "j2"; tenant_id = "t"; workspace_id = "w" }

-- A merge of another job's row.
abbrev reindexed : JobRow
reindexed = record (job "j9" running 0 none) { kind = "reindex" }

execute-Moves_example :
    (r' : JobRow) × (find job_key "j2" (execute (reset (crashed_ticket ∷ [])) jobs) ≡ some r')
    × Moves crashed r'
execute-Moves_example = execute-Moves (reset (crashed_ticket ∷ [])) "j2" jobs found_crashed refl

abbrev busy : List Statement
busy =
    claim "j3" (some 600) hour hour
    ∷ give_up "j3" "late" "late" none hour
    ∷ reset (crashed_ticket ∷ [])
    ∷ merge reindexed
    ∷ []

terminal-stays_example :
    (find job_key "j3" (execute_all busy jobs) ≡ some done)
    × ((lease limit now : ℕ) → mem_id "j3" (stuck lease limit now (execute_all busy jobs)) ≡ false)
terminal-stays_example =
    terminal-stays busy "j3" jobs jobs-Unique found_done refl (refl, (refl, (refl, (refl, tt))))

abbrev after_claim_j1 : Jobs
after_claim_j1 = (mark_running "j1" (some 600) hour hour jobs).1

claim_exclusive_example :
    mark_running "j1" (some 600) (hour + 5) (hour + 5) after_claim_j1 ≡ (none, after_claim_j1)
claim_exclusive_example =
    claim_exclusive "j1" 600 hour hour (hour + 5) (hour + 5) jobs jobs-Unique claim_fresh
      (omega arith)

abbrev mid : Jobs
mid = execute_all busy after_claim_j1

poach :
    (mark_running "j1" (some 600) (hour + hour) (hour + hour) mid).0
    ≡ some (claimed (hour + hour) (claimed hour fresh))
unfolding program
poach = refl

abbrev end : Jobs
end = execute_all [] (mark_running "j1" (some 600) (hour + hour) (hour + hour) mid).1

poached_lease_fenced_example :
    ((source_id : String) (sha : Option String) (t : ℕ)
      → mark_succeeded "j1" source_id sha (some (claimed hour fresh).attempts) t end ≡ (none, end))
    × ((code message : String) (t : ℕ)
        → mark_failed "j1" code message (some (claimed hour fresh).attempts) t end ≡ (none, end))
poached_lease_fenced_example =
    poached_lease_fenced "j1" (some 600) (some 600) hour hour (hour + hour) (hour + hour) busy []
      jobs jobs-Unique (refl, (refl, (refl, (refl, tt)))) tt claim_fresh poach

abbrev broker : Broker
broker m = true

abbrev topics : Topics
topics = record {
  audit_topic = "canon.audit";
  audit_event = "AuditRecorded";
  ingest_topic = "canon.ingest";
  knowledge_topic = "canon.knowledge";
}

abbrev settings : IngestSettings
settings = record { ingest_timeout_s = 600; ingest_max_attempts = 3; topics = topics }

abbrev clocks : Clocks
clocks = record { now = hour; db_now = hour }

abbrev state : Jobs → State
state rows = record {
  jobs = rows;
  events = [];
  log = record { audit = []; published = [] };
  webhooks = [];
}

abbrev delivered : Claim × State
delivered = process_claim broker settings "j1" "too many" clocks (state jobs)

claimable_delivery_example :
    let mine = taken broker settings "too many" clocks fresh in
    (delivered.0 ≡ (if ltb 3 mine.attempts then exhausted else leased mine))
    × (find job_key "j1" delivered.1.jobs
        ≡ some
            (if ltb 3 mine.attempts then poisoned broker settings "too many" clocks mine else mine))
claimable_delivery_example =
    claimable_delivery broker settings "too many" clocks "j1" (state jobs) jobs-Unique found_fresh
      (unfold is_claimable in refl)

abbrev source : SourceRow
source = record { id = "s1"; n_chunks = 4; content_sha256 = some "abc" }

stale_finish_silent_example :
    let s' =
      process_finish broker settings
        (job "j2" running 0 (some 0))
        (ingested source)
        hour
        (state jobs) in
    (s'.jobs ≡ jobs) × (s'.log ≡ (state jobs).log) × (s'.webhooks ≡ [])
stale_finish_silent_example =
    stale_finish_silent broker settings (job "j2" running 0 (some 0)) (ingested source) hour
      (state jobs) jobs-Unique found_crashed (omega arith)

held_finish_verdict_example :
    let s' = process_finish broker settings crashed (ingested source) hour (state jobs) in
    (find job_key "j2" s'.jobs
      ≡ some (record crashed {
        status = succeeded;
        source_id = some "s1";
        content_sha256 = some "abc";
        finished_at = some hour;
      }))
    × (s'.log.audit ≡ [] ++ verdict_audit broker settings crashed (ingested source))
held_finish_verdict_example =
    held_finish_verdict broker settings crashed (ingested source) hour (state jobs) jobs-Unique
      found_crashed refl

-- The worker of the job commits between the two statements of a sweep.
abbrev late_commit : Jobs → Jobs
late_commit = execute (finish "j2" "s1" (some "abc") (some 1) hour)

-- The job has succeeded, and is queued again.
requeued_after_commit :
    find job_key "j2" (sweep_stuck_jobs broker settings hour late_commit (state jobs)).jobs
    ≡ some (record crashed {
      status = queued;
      source_id = some "s1";
      content_sha256 = some "abc";
      finished_at = some hour;
    })
unfolding program sweep_stuck_jobs
requeued_after_commit = refl

sweep-requeues_example :
    let s' = sweep_stuck_jobs broker settings hour late_commit (state jobs) in
    (reclaimed : List ReclaimedJob) × Unique reclaimed_id reclaimed
    × All (IsReclaimed 600 hour jobs) reclaimed
    × (length reclaimed ≡ min 100 (length (filter (has_lapsed 600 hour) jobs)))
    × (s'.log.published ≡ [] ++ filter broker (map (request topics) reclaimed))
    × ((k : String)
        → find job_key k s'.jobs ≡ (
            if is_some (find reclaimed_id k reclaimed)
            then Option.map returned (find job_key k (late_commit jobs))
            else find job_key k (late_commit jobs)))
sweep-requeues_example =
    sweep-requeues broker settings hour late_commit (state jobs) jobs-Unique (omega arith)
