-- ===== src/Jobs/Submit.antt =====
-- `submit_async` of core/services/sources/async_ingest_service.py, and how a submitted job ends. The
-- base64 text of the content and the JSON of the metadata are the libraries', and arguments here.
mod Tests
use flycanon.Prelude.{
  ℕ, String, ◌≡◌, refl, ap, ◌∙◌, Bool, true, false, Option, none, some, List, [], ◌∷◌, ◌++◌, ◌+◌,
  length, length-append, is_some, arith, Bool-cases, Option-cases, inl, inr, if◌then◌else◌,
}
use flycanon.Effects.{
  Value, text, Payload, optional, Broker, Log, record_audit, audit-publish, audit-record_audit,
}
use flycanon.Table.{insert, find, Unique, find-insert_new, Unique-insert}
use flycanon.Jobs.{JobRow, queued, job_key, is_claimable, is_terminal, add}
use flycanon.Jobs.Worker.{
  IngestJobEvent, State, IngestSettings, Clocks, Outcome, job_audit, publish_requested, process,
}
use flycanon.Jobs.Worker.Delivery.{mine_of, Finished, delivered_ends}

-- The request's `metadata.model_dump(mode="json")` stands for the metadata.
pub record SubmitSourceRequest : Type 0 where
  pub kind : Option String
  pub uri : Option String
  pub metadata : Value

-- The keyword arguments of the call.
pub record Submission : Type 0 where
  pub request : SubmitSourceRequest
  pub content_base64 : String
  pub filename : Option String
  pub content_type : Option String
  pub actor : Option String
  pub correlation_id : Option String
  pub tenant_id : String
  pub workspace_id : String
  pub callback_url : Option String

abbrev kind_value : Option String → String
kind_value none = "unknown"
kind_value (some kind) = kind

unfoldable pub queued_row : Submission → String → ℕ → JobRow
queued_row submission job_id db_now = record {
  id = job_id;
  tenant_id = submission.tenant_id;
  workspace_id = submission.workspace_id;
  status = queued;
  kind = "ingest";
  source_id = none;
  attempts = 0;
  filename = submission.filename;
  content_type = submission.content_type;
  uri = submission.request.uri;
  content_sha256 = none;
  actor = submission.actor;
  correlation_id = submission.correlation_id;
  callback_url = submission.callback_url;
  metadata_json =
      ("content_base64", text submission.content_base64)
      ∷ ("kind", text (kind_value submission.request.kind))
      ∷ ("uri", optional submission.request.uri)
      ∷ ("metadata", submission.request.metadata)
      ∷ [];
  error_code = none;
  error_message = none;
  created_at = db_now;
  started_at = none;
  finished_at = none;
}

abbrev queued_event : JobRow → IngestJobEvent
queued_event row = record {
  tenant_id = row.tenant_id;
  workspace_id = row.workspace_id;
  job_id = row.id;
  stage = "queued";
  message = some "job queued -- waiting for worker pickup";
  payload = [];
}

module _ (broker : Broker) (settings : IngestSettings) where
  -- Behind the INSERT: the event, the audit row and the request to the workers.
  unfoldable pub announce_queued : JobRow → State → State
  announce_queued row s = record s {
    events = s.events ++ queued_event row ∷ [];
    log =
        publish_requested broker settings
          (record { job_id = row.id; tenant_id = row.tenant_id; workspace_id = row.workspace_id }
            ∷ [])
          (record_audit broker settings.topics
            (job_audit "ingest.queued" row (
              ("filename", optional row.filename)
              ∷ ("content_type", optional row.content_type)
              ∷ ("uri", optional row.uri)
              ∷ []))
            s.log);
  }

  -- None where the INSERT raises.
  unfoldable pub submit_async : Submission → String → ℕ → State → Option (JobRow × State)
  submit_async submission job_id db_now s = queued_with (add row s.jobs)
    where
      row : JobRow
      row = queued_row submission job_id db_now

      queued_with : Option (List JobRow) → Option (JobRow × State)
      queued_with none = none
      queued_with (some jobs) = some (row, announce_queued row (record s { jobs = jobs }))

  submit_async-new :
      (submission : Submission) (job_id : String) (db_now : ℕ) (s : State)
      → find job_key job_id s.jobs ≡ none
      → let row = queued_row submission job_id db_now in
        submit_async submission job_id db_now s
        ≡ some (row, announce_queued row (record s { jobs = insert row s.jobs }))
  unfolding submit_async add queued_row
  submit_async-new submission job_id db_now s new = rw new refl

  audit-announce_queued :
      (row : JobRow) (s : State)
      → (announce_queued row s).log.audit
        ≡ s.log.audit
          ++ job_audit "ingest.queued" row (
              ("filename", optional row.filename)
              ∷ ("content_type", optional row.content_type)
              ∷ ("uri", optional row.uri)
              ∷ [])
            ∷ []
  unfolding announce_queued publish_requested
  audit-announce_queued row s =
      audit-publish broker _ _ ∙ audit-record_audit broker settings.topics _ s.log

  -- A submission under an id that is not taken is stored, queued, with one audit row. One delivery of
  -- it on that state, at any time, leaves the job succeeded or failed, unless its pipeline is
  -- cancelled, by the worker's timeout or its shutdown: then the job may stay as the claim left it,
  -- running with one attempt.
  pub submitted_ends :
      (submission : Submission) (job_id : String) (db_now : ℕ) (s : State) (attempts_text : String)
      (clocks : Clocks) (intake : JobRow → Outcome) (done_at : ℕ)
      → Unique job_key s.jobs
      → find job_key job_id s.jobs ≡ none
      → (s' : State) × (submit_async submission job_id db_now s
          ≡ some (queued_row submission job_id db_now, s'))
        × (find job_key job_id s'.jobs ≡ some (queued_row submission job_id db_now))
        × (length s'.log.audit ≡ length s.log.audit + 1)
        × ((row : JobRow) × (find job_key job_id
                (process broker settings job_id attempts_text intake clocks done_at s').jobs
              ≡ some row)
            × (let mine =
                  mine_of broker settings attempts_text clocks
                    (queued_row submission job_id db_now) in
                Finished broker settings attempts_text clocks (intake mine) mine row))
  unfolding queued_row is_claimable announce_queued
  submitted_ends submission job_id db_now s attempts_text clocks intake done_at u new =
      let row = queued_row submission job_id db_now in
      let s1 : State = record s { jobs = insert row s.jobs } in
      let there = find-insert_new job_key row s.jobs new in
      (
        announce_queued row s1,
        submit_async-new submission job_id db_now s new,
        there,
        ap length (audit-announce_queued row s1) ∙ length-append s.log.audit _,
        delivered_ends broker settings attempts_text clocks job_id intake done_at
            (announce_queued row s1) (Unique-insert job_key row s.jobs new u) there refl,
      )
