-- ===== src/Jobs/Worker.antt =====
-- core/services/sources/async_ingest_service.py: `process` and `sweep_stuck_jobs`. `process` is cut
-- where other workers may run: the claim, and the commit of what the intake pipeline gave. The
-- decoding of the payload and the pipeline are the environment's; what they give is an `Outcome`.
pub mod Claiming
pub mod Finish
pub mod Sweep
pub mod Delivery
use flycanon.Prelude.{
  ℕ, String, str_eq, Bool, true, false, Option, none, some, List, [], ◌∷◌, ◌++◌, ltb, length,
  if◌then◌else◌,
}
use flycanon.Effects.{
  Value, null, text, number, Payload, optional, AuditEvent, Message, event, Broker, Log, Topics,
  publish, record_audit,
}
use flycanon.Jobs.{
  JobRow, Jobs, is_terminal, mark_running, mark_succeeded, mark_failed, ReclaimedJob, reclaim_stuck,
  get_across_workspaces,
}

pub record IngestJobEvent : Type 0 where
  pub tenant_id : String
  pub workspace_id : String
  pub job_id : String
  pub stage : String
  pub message : Option String
  pub payload : Payload

-- A delivery to `callback_url`, as its payload; the signature and the headers are not modelled.
pub record Webhook : Type 0 where
  pub url : String
  pub job_id : String
  pub tenant_id : String
  pub workspace_id : String
  pub status : String
  pub source_id : Option String
  pub error_code : Option String
  pub error_message : Option String

pub record State : Type 0 where
  pub jobs : Jobs
  pub events : List IngestJobEvent
  pub log : Log
  pub webhooks : List Webhook

pub record IngestSettings : Type 0 where
  pub ingest_timeout_s : ℕ
  pub ingest_max_attempts : ℕ
  pub topics : Topics

-- The two clocks of one statement.
pub record Clocks : Type 0 where
  pub now : ℕ
  pub db_now : ℕ

pub record SourceRow : Type 0 where
  pub id : String
  pub n_chunks : ℕ
  pub content_sha256 : Option String

-- How the code between the claim and the commit ends: before the `normalising` event (the payload does
-- not decode), or in the pipeline, or with a source; or the worker's `asyncio.wait_for` runs out, and
-- the cancellation, which `except Exception` does not catch, ends `process` with the `normalising` event
-- written or not.
pub data Outcome : Type 0 where
  undecodable : String → String → Outcome
  pipeline_failed : String → String → Outcome
  ingested : SourceRow → Outcome
  cancelled : Bool → Outcome

-- `x or "default"`
abbrev pub or_default : String → String
or_default x = if str_eq x "" then "default" else x

pub append_event : JobRow → String → Option String → Payload → State → State
append_event job stage message payload s = record s {
  events =
      s.events
      ++ record {
        tenant_id = or_default job.tenant_id;
        workspace_id = or_default job.workspace_id;
        job_id = job.id;
        stage = stage;
        message = message;
        payload = payload;
      }
        ∷ [];
}

pub fire_webhook : JobRow → String → Option String → Option String → Option String → State → State
fire_webhook job status source_id error_code error_message s = elim job.callback_url [
  | none ↦ s
  | some url ↦ if str_eq url "" then s else record s {
    webhooks =
        s.webhooks
        ++ record {
          url = url;
          job_id = job.id;
          tenant_id = job.tenant_id;
          workspace_id = job.workspace_id;
          status = status;
          source_id = source_id;
          error_code = error_code;
          error_message = error_message;
        }
          ∷ [];
  }
]

-- What `process` has read once its claim is through.
pub data Claim : Type 0 where
  skipped : Claim
  exhausted : Claim
  leased : JobRow → Claim

pub job_audit : String → JobRow → Payload → AuditEvent
job_audit event_type job payload = record {
  event_type = event_type;
  subject_kind = "ingest_job";
  subject_id = job.id;
  tenant_id = job.tenant_id;
  workspace_id = job.workspace_id;
  actor = job.actor;
  correlation_id = job.correlation_id;
  payload = payload;
}

module _ (broker : Broker) (settings : IngestSettings) where
  -- The poison-job guard behind a claim.
  pub after_claim : String → ℕ → Option JobRow → State → Claim × State
  after_claim attempts_text db_now none s = (skipped, s)
  after_claim attempts_text db_now (some job) s =
      if ltb settings.ingest_max_attempts job.attempts
      then (
        exhausted,
        record s {
          jobs =
              (mark_failed job.id "attempts_exhausted" attempts_text (some job.attempts) db_now
                s.jobs).1;
        },
      )
      else (leased job, s)

  -- Behind the read of the row: unknown and terminal jobs are dropped, others are claimed.
  pub on_delivery : String → String → Clocks → Option JobRow → State → Claim × State
  on_delivery job_id attempts_text clocks none s = (skipped, s)
  on_delivery job_id attempts_text clocks (some job) s =
      let (row, jobs) =
        mark_running job_id (some settings.ingest_timeout_s) clocks.now clocks.db_now s.jobs in
      if is_terminal job.status
      then (skipped, s)
      else after_claim attempts_text clocks.db_now row (record s { jobs = jobs })

  -- `process` up to its `try`. `attempts_text` is the formatted message of the guard.
  pub process_claim : String → String → Clocks → State → Claim × State
  process_claim job_id attempts_text clocks s =
      on_delivery job_id attempts_text clocks (get_across_workspaces job_id s.jobs) s

  -- The audit row and the broadcast of a finished job.
  pub report : String → String → JobRow → Payload → Payload → Log → Log
  report audit_type event_type job audit_payload payload log =
      publish broker
        (event settings.topics.ingest_topic event_type (("job_id", text job.id) ∷ payload))
        (record_audit broker settings.topics (job_audit audit_type job audit_payload) log)

  pub scope_of : JobRow → Payload
  scope_of job = ("tenant_id", text job.tenant_id) ∷ ("workspace_id", text job.workspace_id) ∷ []

  -- Behind `mark_succeeded`: nothing more, if the lease is lost.
  pub after_success : JobRow → SourceRow → Option JobRow → State → State
  after_success job source none s = s
  after_success job source (some _) s =
      let found = ("source_id", text source.id) ∷ ("n_chunks", number source.n_chunks) ∷ [] in
      fire_webhook job "succeeded" (some source.id) none none (record s {
        log =
            report "ingest.succeeded" "IngestSourceFinished" job found (found ++ scope_of job)
              s.log;
      })

  pub after_failure : JobRow → String → String → Option JobRow → State → State
  after_failure job code message none s = s
  after_failure job code message (some _) s =
      let error = ("code", text code) ∷ ("message", text message) ∷ [] in
      fire_webhook job "failed" none (some code) (some message) (record s {
        log = report "ingest.failed" "IngestSourceFailed" job error (error ++ scope_of job) s.log;
      })

  pub finish_failed : JobRow → String → String → ℕ → State → State
  finish_failed job code message db_now s =
      let s' = append_event job "failed" (some message) (("code", text code) ∷ []) s in
      let (row, jobs) = mark_failed job.id code message (some job.attempts) db_now s'.jobs in
      after_failure job code message row (record s' { jobs = jobs })

  pub finish_succeeded : JobRow → SourceRow → ℕ → State → State
  finish_succeeded job source db_now s =
      let found =
        ("source_id", text source.id)
        ∷ ("n_chunks", number source.n_chunks)
        ∷ ("content_sha256", optional source.content_sha256)
        ∷ [] in
      let s' = append_event job "finished" (some "intake pipeline complete") found s in
      let (row, jobs) =
        mark_succeeded job.id source.id source.content_sha256 (some job.attempts) db_now s'.jobs in
      after_success job source row (record s' { jobs = jobs })

  -- `process` from its `try` on, for the row that the claim returned.
  pub process_finish : JobRow → Outcome → ℕ → State → State
  process_finish job (undecodable code message) db_now s = finish_failed job code message db_now s
  process_finish job (pipeline_failed code message) db_now s =
      finish_failed job code message db_now
        (append_event job "normalising" (some "binary normalise + load") [] s)
  process_finish job (ingested source) db_now s =
      finish_succeeded job source db_now
        (append_event job "normalising" (some "binary normalise + load") [] s)
  process_finish job (cancelled normalised) db_now s =
      if normalised then append_event job "normalising" (some "binary normalise + load") [] s else s

  -- One uninterrupted run of `process`.
  pub process : String → String → (JobRow → Outcome) → Clocks → ℕ → State → State
  process job_id attempts_text intake clocks db_now s =
      let (claim, s') = process_claim job_id attempts_text clocks s in
      elim claim [ leased job ↦ process_finish job (intake job) db_now s' | _ ↦ s' ]

  unfoldable pub publish_requested : List ReclaimedJob → Log → Log
  publish_requested [] log = log
  publish_requested (job ∷ jobs) log = publish_requested jobs (
      publish broker
        (event settings.topics.ingest_topic "IngestSourceRequested" (
          ("job_id", text job.job_id)
          ∷ ("tenant_id", text job.tenant_id)
          ∷ ("workspace_id", text job.workspace_id)
          ∷ []))
        log)

  -- `reclaim_stuck` has its default limit, 100; `between` is what other sessions commit to the table
  -- between its two statements.
  unfoldable pub sweep_stuck_jobs : ℕ → (Jobs → Jobs) → State → State
  sweep_stuck_jobs now between s =
      let (reclaimed, jobs) = reclaim_stuck settings.ingest_timeout_s 100 now between s.jobs in
      record s { jobs = jobs; log = publish_requested reclaimed s.log }
