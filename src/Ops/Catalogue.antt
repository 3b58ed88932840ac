-- ===== src/Ops/Catalogue.antt =====
-- app/services/operational_events.py: the catalogue of events, without the display texts.
use sim_mdms_auto.Prelude.{ℕ, Bool, true, false, ◌==◌}
use sim_mdms_auto.Model.{Severity}
use sim_mdms_auto.Ops.Rows.{EventCode, SourceLayer, EventCategory}

pub record OperationalEventSpec : Type 0 where
  pub source_layer : SourceLayer
  pub event_category : EventCategory
  pub severity : Severity
  pub is_alert : Bool

abbrev spec : SourceLayer → EventCategory → Severity → Bool → OperationalEventSpec
spec l c s a = record { source_layer = l; event_category = c; severity = s; is_alert = a }

unfoldable pub event_specs : EventCode → OperationalEventSpec
event_specs EventCode.adapter_enabled =
    spec SourceLayer.operator_action EventCategory.adapter_lifecycle Severity.info false
event_specs EventCode.adapter_paused =
    spec SourceLayer.operator_action EventCategory.adapter_lifecycle Severity.warning false
event_specs EventCode.adapter_run_queued =
    spec SourceLayer.integration EventCategory.adapter_run Severity.info false
event_specs EventCode.adapter_run_started =
    spec SourceLayer.integration EventCategory.adapter_run Severity.info false
event_specs EventCode.adapter_run_completed =
    spec SourceLayer.integration EventCategory.adapter_run Severity.info false
event_specs EventCode.adapter_run_failed =
    spec SourceLayer.integration EventCategory.adapter_run Severity.error true
event_specs EventCode.adapter_overdue_detected =
    spec SourceLayer.integration EventCategory.adapter_health Severity.warning true
event_specs EventCode.adapter_stale_detected =
    spec SourceLayer.integration EventCategory.adapter_health Severity.warning true
event_specs EventCode.hes_meter_reference_missing_device_detected =
    spec SourceLayer.master_data EventCategory.meter_reference_mapping Severity.warning true
event_specs EventCode.hes_meter_reference_missing_component_detected =
    spec SourceLayer.master_data EventCategory.meter_reference_mapping Severity.warning true
event_specs EventCode.hes_meter_reference_missing_installation_detected =
    spec SourceLayer.master_data EventCategory.meter_reference_mapping Severity.warning true
event_specs EventCode.ingest_batch_accepted =
    spec SourceLayer.ingest EventCategory.ingest_batch Severity.info false
event_specs EventCode.raw_ingest_completed =
    spec SourceLayer.ingest EventCategory.pipeline_run Severity.info false
event_specs EventCode.raw_ingest_failed =
    spec SourceLayer.ingest EventCategory.pipeline_run Severity.error true
event_specs EventCode.canonical_completed =
    spec SourceLayer.processing EventCategory.pipeline_run Severity.info false
event_specs EventCode.canonical_failed =
    spec SourceLayer.processing EventCategory.pipeline_run Severity.error true
event_specs EventCode.vee_exception_opened =
    spec SourceLayer.processing EventCategory.vee_exception Severity.error true
event_specs EventCode.vee_exception_resolved =
    spec SourceLayer.operator_action EventCategory.vee_exception Severity.info false
event_specs EventCode.vee_re_evaluated =
    spec SourceLayer.operator_action EventCategory.vee_exception Severity.info false
event_specs EventCode.vee_replay_requested =
    spec SourceLayer.operator_action EventCategory.vee_replay Severity.info false
event_specs EventCode.vee_replay_started =
    spec SourceLayer.processing EventCategory.vee_replay Severity.info false
event_specs EventCode.vee_replay_completed =
    spec SourceLayer.processing EventCategory.vee_replay Severity.info false
event_specs EventCode.vee_replay_failed =
    spec SourceLayer.processing EventCategory.vee_replay Severity.error true
event_specs EventCode.final_measurement_superseded =
    spec SourceLayer.processing EventCategory.finalization Severity.info false
event_specs EventCode.usage_recalculated_after_vee =
    spec SourceLayer.processing EventCategory.usage Severity.info false
event_specs EventCode.finalization_completed =
    spec SourceLayer.processing EventCategory.finalization Severity.info false
event_specs EventCode.finalization_failed =
    spec SourceLayer.processing EventCategory.finalization Severity.error true
event_specs EventCode.usage_completed =
    spec SourceLayer.processing EventCategory.usage Severity.info false
event_specs EventCode.usage_failed =
    spec SourceLayer.processing EventCategory.usage Severity.error true
event_specs EventCode.bill_determinant_completed =
    spec SourceLayer.processing EventCategory.bill_determinant Severity.info false
event_specs EventCode.bill_determinant_failed =
    spec SourceLayer.processing EventCategory.bill_determinant Severity.error true
event_specs EventCode.bill_charge_completed =
    spec SourceLayer.processing EventCategory.bill_charge Severity.info false
event_specs EventCode.bill_charge_failed =
    spec SourceLayer.processing EventCategory.bill_charge Severity.error true
event_specs EventCode.billing_export_requested =
    spec SourceLayer.operator_action EventCategory.billing_export Severity.info false
event_specs EventCode.billing_export_started =
    spec SourceLayer.processing EventCategory.billing_export Severity.info false
event_specs EventCode.billing_export_completed =
    spec SourceLayer.processing EventCategory.billing_export Severity.info false
event_specs EventCode.billing_export_failed =
    spec SourceLayer.processing EventCategory.billing_export Severity.error true
event_specs EventCode.billing_export_cancelled =
    spec SourceLayer.operator_action EventCategory.billing_export Severity.warning false
event_specs EventCode.exception_reprocess_completed =
    spec SourceLayer.processing EventCategory.exception_reprocess Severity.info false
event_specs EventCode.exception_reprocess_failed =
    spec SourceLayer.processing EventCategory.exception_reprocess Severity.error true

-- the place of a code in the catalogue
abbrev pub event_index : EventCode → ℕ
event_index EventCode.adapter_enabled = 0
event_index EventCode.adapter_paused = 1
event_index EventCode.adapter_run_queued = 2
event_index EventCode.adapter_run_started = 3
event_index EventCode.adapter_run_completed = 4
event_index EventCode.adapter_run_failed = 5
event_index EventCode.adapter_overdue_detected = 6
event_index EventCode.adapter_stale_detected = 7
event_index EventCode.hes_meter_reference_missing_device_detected = 8
event_index EventCode.hes_meter_reference_missing_component_detected = 9
event_index EventCode.hes_meter_reference_missing_installation_detected = 10
event_index EventCode.ingest_batch_accepted = 11
event_index EventCode.raw_ingest_completed = 12
event_index EventCode.raw_ingest_failed = 13
event_index EventCode.canonical_completed = 14
event_index EventCode.canonical_failed = 15
event_index EventCode.vee_exception_opened = 16
event_index EventCode.vee_exception_resolved = 17
event_index EventCode.vee_re_evaluated = 18
event_index EventCode.vee_replay_requested = 19
event_index EventCode.vee_replay_started = 20
event_index EventCode.vee_replay_completed = 21
event_index EventCode.vee_replay_failed = 22
event_index EventCode.final_measurement_superseded = 23
event_index EventCode.usage_recalculated_after_vee = 24
event_index EventCode.finalization_completed = 25
event_index EventCode.finalization_failed = 26
event_index EventCode.usage_completed = 27
event_index EventCode.usage_failed = 28
event_index EventCode.bill_determinant_completed = 29
event_index EventCode.bill_determinant_failed = 30
event_index EventCode.bill_charge_completed = 31
event_index EventCode.bill_charge_failed = 32
event_index EventCode.billing_export_requested = 33
event_index EventCode.billing_export_started = 34
event_index EventCode.billing_export_completed = 35
event_index EventCode.billing_export_failed = 36
event_index EventCode.billing_export_cancelled = 37
event_index EventCode.exception_reprocess_completed = 38
event_index EventCode.exception_reprocess_failed = 39

-- `==` of two event codes
abbrev pub same_event : EventCode → EventCode → Bool
same_event a b = event_index a == event_index b
