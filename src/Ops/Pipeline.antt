-- ===== src/Ops/Pipeline.antt =====
-- app/services/pipeline.py: pipeline runs, the events that end them, and watermarks.
use sim_mdms_auto.Prelude.{
  ℕ, Bool, false, ◌&&◌, ◌||◌, Option, none, some, List, ◌∷◌, [], ◌++◌, Text, modify, scalar,
  next_id, ◌==◌, leb, if◌then◌else◌, is_some, opt_text_eq,
}
use sim_mdms_auto.Ops.Rows.{
  EventCode, PipelineName, PipelineRun, RunStatus, ProcessingWatermark, run_id, watermark_id,
}
use sim_mdms_auto.Ops.Events.{
  EventArgs, defaults, record_operational_event, anywhere, close_operational_alerts,
}
use sim_mdms_auto.Store.{Db}

-- `PIPELINE_SUCCESS_EVENT_CODES.get(name)`
unfoldable pub success_event_code : PipelineName → Option EventCode
success_event_code PipelineName.raw_ingest = some EventCode.raw_ingest_completed
success_event_code PipelineName.canonical = some EventCode.canonical_completed
success_event_code PipelineName.finalization = some EventCode.finalization_completed
success_event_code PipelineName.usage = some EventCode.usage_completed
success_event_code PipelineName.bill_determinant = some EventCode.bill_determinant_completed
success_event_code PipelineName.bill_charge = some EventCode.bill_charge_completed
success_event_code PipelineName.exception_reprocess = some EventCode.exception_reprocess_completed
success_event_code _ = none

-- `PIPELINE_FAILURE_EVENT_CODES.get(name)`
unfoldable pub failure_event_code : PipelineName → Option EventCode
failure_event_code PipelineName.raw_ingest = some EventCode.raw_ingest_failed
failure_event_code PipelineName.canonical = some EventCode.canonical_failed
failure_event_code PipelineName.finalization = some EventCode.finalization_failed
failure_event_code PipelineName.usage = some EventCode.usage_failed
failure_event_code PipelineName.bill_determinant = some EventCode.bill_determinant_failed
failure_event_code PipelineName.bill_charge = some EventCode.bill_charge_failed
failure_event_code PipelineName.exception_reprocess = some EventCode.exception_reprocess_failed
failure_event_code _ = none

-- the rows that a run may be linked to
pub record RunLinks : Type 0 where
  pub ingest_batch_id : Option ℕ
  pub reprocess_request_id : Option ℕ
  pub vee_replay_request_id : Option ℕ
  pub billing_export_request_id : Option ℕ

abbrev pub no_links : RunLinks
no_links = record {
  ingest_batch_id = none;
  reprocess_request_id = none;
  vee_replay_request_id = none;
  billing_export_request_id = none;
}

-- returns the new run
unfoldable pub start_pipeline_run : ℕ → PipelineName → Text → RunLinks → Db → Db × PipelineRun
start_pipeline_run now name trigger links db =
    let run : PipelineRun = record {
      id = next_id db.runs;
      pipeline_name = name;
      trigger_type = trigger;
      status = RunStatus.processing;
      result_code = none;
      started_at = now;
      completed_at = none;
      ingest_batch_id = links.ingest_batch_id;
      reprocess_request_id = links.reprocess_request_id;
      vee_replay_request_id = links.vee_replay_request_id;
      billing_export_request_id = links.billing_export_request_id;
    } in
    (record db { runs = db.runs ++ run ∷ [] }, run)

abbrev end_run : ℕ → RunStatus → Option Text → PipelineRun → PipelineRun
end_run now status code r = record r {
  status = status;
  result_code = code;
  completed_at = some now;
}

-- the event of a run that ends; `meter` is the entry `meter_identifier` of the run's details
abbrev run_event : ℕ → PipelineRun → Option Text → EventArgs
run_event now run meter = record defaults {
  occurred_at = some now;
  pipeline_run = some run.id;
  ingest_batch = run.ingest_batch_id;
  reprocess_request = run.reprocess_request_id;
  meter_identifier = meter;
}

unfoldable pub record_run_event : ℕ → PipelineRun → Option Text → Option EventCode → Db → Db
unfolding record_operational_event
record_run_event now run meter none db = db
record_run_event now run meter (some code) db =
    record_operational_event now code (run_event now run meter) db

unfoldable pub close_failure_alerts : ℕ → PipelineRun → Option EventCode → Db → Db
unfolding close_operational_alerts
close_failure_alerts now run none db = db
close_failure_alerts now run (some failure) db =
    if is_some run.ingest_batch_id || is_some run.reprocess_request_id
    then (close_operational_alerts now failure
        (record anywhere {
          ingest_batch_id = run.ingest_batch_id;
          reprocess_request_id = run.reprocess_request_id;
        })
        none none db).0
    else db

-- both the event and the closing of alerts stand under the test for a success event
unfoldable pub finish_success :
    ℕ → PipelineRun → Option Text → Option EventCode → Option EventCode → Db → Db
unfolding record_run_event close_failure_alerts
finish_success now run meter none failure db = db
finish_success now run meter (some code) failure db =
    close_failure_alerts now run failure (record_run_event now run meter (some code) db)

unfoldable pub complete_pipeline_run : ℕ → PipelineRun → Option Text → Option Text → Db → Db
unfolding success_event_code failure_event_code finish_success
complete_pipeline_run now run code meter db =
    finish_success now run meter (success_event_code run.pipeline_name)
      (failure_event_code run.pipeline_name)
      (record db { runs = modify run.id (end_run now RunStatus.completed code) db.runs })

unfoldable pub fail_pipeline_run : ℕ → PipelineRun → Option Text → Option Text → Db → Db
unfolding failure_event_code record_run_event
fail_pipeline_run now run code meter db =
    record_run_event now run meter (failure_event_code run.pipeline_name)
      (record db { runs = modify run.id (end_run now RunStatus.failed code) db.runs })

abbrev pub name_index : PipelineName → ℕ
name_index PipelineName.raw_ingest = 0
name_index PipelineName.canonical = 1
name_index PipelineName.finalization = 2
name_index PipelineName.usage = 3
name_index PipelineName.bill_determinant = 4
name_index PipelineName.bill_charge = 5
name_index PipelineName.exception_reprocess = 6
name_index PipelineName.estimation = 7
name_index PipelineName.manual_edit = 8
name_index PipelineName.vee_replay = 9
name_index PipelineName.billing_export = 10

-- the scope of a watermark; `column == None` is `IS NULL`, so two NULLs match here
unfoldable pub same_scope : PipelineName → Option Text → Option Text → ProcessingWatermark → Bool
same_scope name source record_type w =
    name_index w.pipeline_name == name_index name
    && opt_text_eq w.source_system source
    && opt_text_eq w.record_type record_type

unfoldable pub put_watermark :
    PipelineName
    → Option Text
    → Option Text
    → ℕ
    → Option ProcessingWatermark
    → List ProcessingWatermark
    → List ProcessingWatermark
put_watermark name source record_type at none ws =
    ws
    ++ record {
      id = next_id ws;
      pipeline_name = name;
      source_system = source;
      record_type = record_type;
      last_processed_at = at;
    }
      ∷ []
put_watermark name source record_type at (some w) ws =
    if leb w.last_processed_at at
    then modify w.id (λ r. record r { last_processed_at = at }) ws
    else ws

unfoldable pub upsert_processing_watermark : PipelineName → Option Text → Option Text → ℕ → Db → Db
unfolding same_scope put_watermark
upsert_processing_watermark name source record_type at db = record db {
  watermarks =
      put_watermark name source record_type at
        (scalar (λ _ _. false) (same_scope name source record_type) db.watermarks) db.watermarks;
}
