-- ===== src/Ops/Rows.antt =====
-- app/models.py: operational events, pipeline runs and processing watermarks. Display texts
-- (titles and messages) and the JSON `details` are left out: no modelled service reads them back.
use sim_mdms_auto.Prelude.{ℕ, Bool, Option, Text, HasId}
use sim_mdms_auto.Model.{Severity}

pub data AlertStatus : Type 0 where
  opened acknowledged closed : AlertStatus

pub data EventCode : Type 0 where
  adapter_enabled adapter_paused adapter_run_queued adapter_run_started : EventCode
  adapter_run_completed adapter_run_failed adapter_overdue_detected : EventCode
  adapter_stale_detected hes_meter_reference_missing_device_detected : EventCode
  hes_meter_reference_missing_component_detected : EventCode
  hes_meter_reference_missing_installation_detected ingest_batch_accepted : EventCode
  raw_ingest_completed raw_ingest_failed canonical_completed canonical_failed : EventCode
  vee_exception_opened vee_exception_resolved vee_re_evaluated vee_replay_requested : EventCode
  vee_replay_started vee_replay_completed vee_replay_failed : EventCode
  final_measurement_superseded usage_recalculated_after_vee : EventCode
  finalization_completed finalization_failed usage_completed usage_failed : EventCode
  bill_determinant_completed bill_determinant_failed bill_charge_completed : EventCode
  bill_charge_failed billing_export_requested billing_export_started : EventCode
  billing_export_completed billing_export_failed billing_export_cancelled : EventCode
  exception_reprocess_completed exception_reprocess_failed : EventCode

pub data SourceLayer : Type 0 where
  operator_action integration master_data ingest processing : SourceLayer

pub data EventCategory : Type 0 where
  adapter_lifecycle adapter_run adapter_health meter_reference_mapping : EventCategory
  ingest_batch pipeline_run vee_exception vee_replay : EventCategory
  finalization usage bill_determinant bill_charge : EventCategory
  billing_export exception_reprocess : EventCategory

pub data EntityType : Type 0 where
  adapter_run pipeline_run ingest_error_log ingest_batch adapter_instance : EntityType
  reprocess_request vee_exception initial_measurement vee_replay_request : EntityType
  final_measurement : EntityType

pub record OperationalEvent : Type 0 where
  pub id : ℕ
  pub occurred_at : ℕ
  pub source_layer : SourceLayer
  pub event_category : EventCategory
  pub event_code : EventCode
  pub severity : Severity
  pub is_alert : Bool
  pub alert_status : Option AlertStatus
  pub opened_at : Option ℕ
  pub acknowledged_at : Option ℕ
  pub acknowledged_by : Option Text
  pub closed_at : Option ℕ
  pub operator_memo : Option Text
  pub entity_type : Option EntityType
  pub entity_id : Option ℕ
  pub adapter_instance_id : Option ℕ
  pub adapter_run_id : Option ℕ
  pub pipeline_run_id : Option ℕ
  pub ingest_batch_id : Option ℕ
  pub ingest_error_log_id : Option ℕ
  pub reprocess_request_id : Option ℕ
  pub meter_identifier : Option Text

pub data PipelineName : Type 0 where
  raw_ingest canonical finalization usage bill_determinant bill_charge : PipelineName
  exception_reprocess estimation manual_edit vee_replay billing_export : PipelineName

pub data RunStatus : Type 0 where
  processing completed failed : RunStatus

pub record PipelineRun : Type 0 where
  pub id : ℕ
  pub pipeline_name : PipelineName
  pub trigger_type : Text
  pub status : RunStatus
  pub result_code : Option Text
  pub started_at : ℕ
  pub completed_at : Option ℕ
  pub ingest_batch_id : Option ℕ
  pub reprocess_request_id : Option ℕ
  pub vee_replay_request_id : Option ℕ
  pub billing_export_request_id : Option ℕ

pub record ProcessingWatermark : Type 0 where
  pub id : ℕ
  pub pipeline_name : PipelineName
  pub source_system : Option Text
  pub record_type : Option Text
  pub last_processed_at : ℕ

instance abbrev pub operational_event_id : HasId OperationalEvent
operational_event_id = record { row_id = λ r. r.id }

instance abbrev pub run_id : HasId PipelineRun
run_id = record { row_id = λ r. r.id }

instance abbrev pub watermark_id : HasId ProcessingWatermark
watermark_id = record { row_id = λ r. r.id }
