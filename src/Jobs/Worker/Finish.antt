-- ===== src/Jobs/Worker/Finish.antt =====
-- What the commit of a worker does, with its lease kept and with its lease lost.
use flycanon.Prelude.{
  ℕ, ◌<◌, String, ◌≡◌, refl, sym, append-nil, List, true, false, Option, some, [], ◌∷◌, ◌++◌, arith,
  ◌∙◌,
}
use flycanon.Effects.{
  Payload, text, number, AuditEvent, Broker, Log, audit-publish, audit-record_audit,
}
use flycanon.Table.{find, Unique, claim_row-some, claim_row_won}
use flycanon.Jobs.{
  succeeded, failed, JobRow, job_key, is_held, succeed, fail, mark_succeeded, mark_failed,
}
use flycanon.Jobs.Lease.{commit_refused}
use flycanon.Jobs.Worker.{
  State, IngestSettings, SourceRow, Outcome, undecodable, pipeline_failed, ingested, cancelled,
  job_audit, after_success, after_failure, report, finish_failed, finish_succeeded, append_event,
  fire_webhook, process_finish,
}

module _ (job : JobRow) (status : String) (source_id code message : Option String) (s : State) where
  jobs-fire_webhook : (fire_webhook job status source_id code message s).jobs ≡ s.jobs
  unfolding fire_webhook
  jobs-fire_webhook = ground arith

  log-fire_webhook : (fire_webhook job status source_id code message s).log ≡ s.log
  unfolding fire_webhook
  log-fire_webhook = ground arith

module _ (broker : Broker) (settings : IngestSettings) where
  -- A worker whose lease was taken over changes no job, writes no audit row, publishes nothing and calls
  -- no webhook, however its pipeline ended.
  pub stale_finish_silent :
      (job : JobRow) (outcome : Outcome) (db_now : ℕ) (s : State) {row : JobRow}
      → Unique job_key s.jobs
      → find job_key job.id s.jobs ≡ some row
      → job.attempts < row.attempts
      → let s' = process_finish broker settings job outcome db_now s in
        (s'.jobs ≡ s.jobs) × (s'.log ≡ s.log) × (s'.webhooks ≡ s.webhooks)
  unfolding process_finish finish_failed finish_succeeded append_event after_failure after_success
  stale_finish_silent job (undecodable code message) db_now s u found passed =
      rw ((commit_refused job.id job.attempts s.jobs u found passed).1 code message db_now)
        (refl, refl, refl)
  stale_finish_silent job (pipeline_failed code message) db_now s u found passed =
      rw ((commit_refused job.id job.attempts s.jobs u found passed).1 code message db_now)
        (refl, refl, refl)
  stale_finish_silent job (ingested source) db_now s u found passed =
      rw
        ((commit_refused job.id job.attempts s.jobs u found passed).0 source.id
          source.content_sha256 db_now)
        (refl, refl, refl)
  stale_finish_silent job (cancelled true) db_now s u found passed = (refl, refl, refl)
  stale_finish_silent job (cancelled false) db_now s u found passed = (refl, refl, refl)

  -- The row that each way of ending leaves.
  abbrev pub failed_row : String → String → ℕ → JobRow → JobRow
  failed_row code message db_now row = record row {
    status = failed;
    error_code = some code;
    error_message = some message;
    finished_at = some db_now;
  }

  abbrev pub verdict : Outcome → ℕ → JobRow → JobRow
  verdict (undecodable code message) db_now row = failed_row code message db_now row
  verdict (pipeline_failed code message) db_now row = failed_row code message db_now row
  verdict (ingested source) db_now row = record row {
    status = succeeded;
    source_id = some source.id;
    content_sha256 = source.content_sha256;
    finished_at = some db_now;
  }
  verdict (cancelled normalised) db_now row = row

  -- The audit row of an ending, in the scope and the name of the job.
  abbrev pub ending_audit : String → JobRow → Payload → AuditEvent
  ending_audit event_type job payload = record {
    event_type = event_type;
    subject_kind = "ingest_job";
    subject_id = job.id;
    tenant_id = job.tenant_id;
    workspace_id = job.workspace_id;
    actor = job.actor;
    correlation_id = job.correlation_id;
    payload = payload;
  }

  abbrev pub failure_audit : JobRow → String → String → AuditEvent
  failure_audit job code message =
      ending_audit "ingest.failed" job (("code", text code) ∷ ("message", text message) ∷ [])

  abbrev pub success_audit : JobRow → SourceRow → AuditEvent
  success_audit job source =
      ending_audit "ingest.succeeded" job
        (("source_id", text source.id) ∷ ("n_chunks", number source.n_chunks) ∷ [])

  abbrev pub verdict_audit : JobRow → Outcome → List AuditEvent
  verdict_audit job (undecodable code message) = failure_audit job code message ∷ []
  verdict_audit job (pipeline_failed code message) = failure_audit job code message ∷ []
  verdict_audit job (ingested source) = success_audit job source ∷ []
  verdict_audit job (cancelled normalised) = []

  audit-report :
      (audit_type event_type : String) (job : JobRow) (audit_payload payload : Payload) (log : Log)
      → (report broker settings audit_type event_type job audit_payload payload log).audit
        ≡ log.audit ++ ending_audit audit_type job audit_payload ∷ []
  unfolding report job_audit
  audit-report audit_type event_type job audit_payload payload log =
      audit-publish broker _ _ ∙ audit-record_audit broker settings.topics _ log

  finish_failed-verdict :
      (job : JobRow) (code message : String) (db_now : ℕ) (s : State) {row : JobRow}
      → Unique job_key s.jobs
      → find job_key job.id s.jobs ≡ some row
      → is_held (some job.attempts) row ≡ true
      → let s' = finish_failed broker settings job code message db_now s in
        (find job_key job.id s'.jobs ≡ some (failed_row code message db_now row))
        × (s'.log.audit ≡ s.log.audit ++ failure_audit job code message ∷ [])
  unfolding finish_failed after_failure append_event mark_failed fail
  finish_failed-verdict job code message db_now s u found held =
      let f = fail code message db_now in
      let q = is_held (some job.attempts) in
      let won = claim_row_won job_key job.id q f s.jobs u found held in
      let (_, _, _, _, after) = claim_row-some job_key job.id q f s.jobs (λ r. refl) u won in
      (
        rw won (rw jobs-fire_webhook after),
        rw won (rw log-fire_webhook (audit-report _ _ job _ _ s.log)),
      )

  finish_succeeded-verdict :
      (job : JobRow) (source : SourceRow) (db_now : ℕ) (s : State) {row : JobRow}
      → Unique job_key s.jobs
      → find job_key job.id s.jobs ≡ some row
      → is_held (some job.attempts) row ≡ true
      → let s' = finish_succeeded broker settings job source db_now s in
        (find job_key job.id s'.jobs ≡ some (verdict (ingested source) db_now row))
        × (s'.log.audit ≡ s.log.audit ++ success_audit job source ∷ [])
  unfolding finish_succeeded after_success append_event mark_succeeded succeed
  finish_succeeded-verdict job source db_now s u found held =
      let f = succeed source.id source.content_sha256 db_now in
      let q = is_held (some job.attempts) in
      let won = claim_row_won job_key job.id q f s.jobs u found held in
      let (_, _, _, _, after) = claim_row-some job_key job.id q f s.jobs (λ r. refl) u won in
      (
        rw won (rw jobs-fire_webhook after),
        rw won (rw log-fire_webhook (audit-report _ _ job _ _ s.log)),
      )

  abbrev normalising : JobRow → State → State
  normalising job = append_event job "normalising" (some "binary normalise + load") []

  -- A worker that still holds the lease marks its job's row succeeded, with the source, its hash and
  -- the time, when its pipeline gives a source, and failed, with the error and the time, when the
  -- payload does not decode or the pipeline raises; the rest of the row is kept, and one audit row
  -- says so. A cancelled pipeline leaves the row as it is, still running, and no audit row.
  pub held_finish_verdict :
      (job : JobRow) (outcome : Outcome) (db_now : ℕ) (s : State) {row : JobRow}
      → Unique job_key s.jobs
      → find job_key job.id s.jobs ≡ some row
      → is_held (some job.attempts) row ≡ true
      → let s' = process_finish broker settings job outcome db_now s in
        (find job_key job.id s'.jobs ≡ some (verdict outcome db_now row))
        × (s'.log.audit ≡ s.log.audit ++ verdict_audit job outcome)
  unfolding process_finish append_event
  held_finish_verdict job (undecodable code message) db_now s u found held =
      finish_failed-verdict job code message db_now s u found held
  held_finish_verdict job (pipeline_failed code message) db_now s u found held =
      finish_failed-verdict job code message db_now (normalising job s) u found held
  held_finish_verdict job (ingested source) db_now s u found held =
      finish_succeeded-verdict job source db_now (normalising job s) u found held
  held_finish_verdict job (cancelled true) db_now s u found held =
      (found, sym (append-nil s.log.audit))
  held_finish_verdict job (cancelled false) db_now s u found held =
      (found, sym (append-nil s.log.audit))
