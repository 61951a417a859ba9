-- ===== src/Jobs/Submit/Tests.antt =====
-- A submission to an empty queue.
use flycanon.Prelude.{◌+◌, ◌≡◌, refl, true, none, some, [], length}
use flycanon.Effects.{null, Broker}
use flycanon.Table.{find, select}
use flycanon.Jobs.{JobRow, job_key}
use flycanon.Jobs.Worker.{State, IngestSettings, Clocks, Outcome, pipeline_failed, process}
use flycanon.Jobs.Worker.Delivery.{mine_of, Finished}
use flycanon.Jobs.Submit.{Submission, queued_row, submit_async, submitted_ends}

abbrev broker : Broker
broker m = true

abbrev settings : IngestSettings
settings = record {
  ingest_timeout_s = 60;
  ingest_max_attempts = 3;
  topics = record {
    audit_topic = "canon.audit";
    audit_event = "AuditRecorded";
    ingest_topic = "canon.ingest";
    knowledge_topic = "canon.knowledge";
  };
}

abbrev submission : Submission
submission = record {
  request = record { kind = some "pdf"; uri = none; metadata = null };
  content_base64 = "YQ==";
  filename = some "a.pdf";
  content_type = none;
  actor = some "ann";
  correlation_id = none;
  tenant_id = "t";
  workspace_id = "w";
  callback_url = none;
}

abbrev empty : State
empty = record {
  jobs = [];
  events = [];
  log = record { audit = []; published = [] };
  webhooks = [];
}

abbrev clocks : Clocks
clocks = record { now = 5; db_now = 6 }

abbrev intake : JobRow → Outcome
intake job = pipeline_failed "loader_error" "no text"

submitted_ends_example :
    (s' : State) × (submit_async broker settings submission "j1" 1 empty
      ≡ some (queued_row submission "j1" 1, s'))
    × (find job_key "j1" s'.jobs ≡ some (queued_row submission "j1" 1))
    × (length s'.log.audit ≡ 0 + 1)
    × ((row : JobRow) × (find job_key "j1"
            (process broker settings "j1" "too many attempts" intake clocks 9 s').jobs
          ≡ some row)
        × (let mine =
              mine_of broker settings "too many attempts" clocks (queued_row submission "j1" 1) in
            Finished broker settings "too many attempts" clocks (intake mine) mine row))
unfolding select
submitted_ends_example =
    submitted_ends broker settings submission "j1" 1 empty "too many attempts" clocks intake 9 tt
      refl
