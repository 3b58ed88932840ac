-- ===== src/Model/Rows.antt =====
-- app/models.py: the rows of the measurement tables, with the columns that the modelled services
-- read or write. A timestamp is a number of microseconds in UTC; a decimal is a ℤ of ten-thousandths.
use sim_mdms_auto.Prelude.{ℕ, Bool, Option, List, Text, ℤ, HasId}
use sim_mdms_auto.Model.Codes.{
  ExceptionCode, Severity, ExceptionStatus, InitialStatus, ExecutionStatus, SummaryCode,
  CanonicalStatus, CompletionStatus, FinalStatus, ContextType,
}

pub record MeasuringComponent : Type 0 where
  pub id : ℕ
  pub unit_of_measure : Option Text
  pub multiplier : Option ℤ

pub record IngestBatch : Type 0 where
  pub id : ℕ
  pub batch_id : Text
  pub source_system : Text

pub record HesReadRaw : Type 0 where
  pub id : ℕ
  pub hes_system_id : Option ℕ
  pub ingest_batch_id : Option ℕ
  pub source_system : Text
  pub meter_identifier : Option Text
  pub channel_identifier : Option Text
  pub measured_at : Option ℕ
  pub interval_size_minutes : ℕ
  pub unit_of_measure : Option Text
  pub source_business_ts : Option ℕ
  pub canonical_status : CanonicalStatus
  pub is_duplicate : Bool
  pub duplicate_of_id : Option ℕ

pub record HesEventRaw : Type 0 where
  pub id : ℕ
  pub hes_system_id : Option ℕ
  pub source_system : Text
  pub meter_identifier : Option Text
  pub event_time : Option ℕ
  pub event_code : Option Text
  pub severity : Option Text

pub record CanonicalMeasurement : Type 0 where
  pub id : ℕ
  pub hes_read_raw_id : ℕ
  pub measuring_component_id : Option ℕ
  pub device_id : Option ℕ
  pub service_point_id : Option ℕ
  pub measured_at : Option ℕ
  pub value : Option ℤ
  pub quality_code : Option Text
  pub status_code : Option Text
  pub unit_of_measure : Option Text

pub record InitialMeasurement : Type 0 where
  pub id : ℕ
  pub canonical_measurement_id : Option ℕ
  pub measuring_component_id : Option ℕ
  pub device_id : Option ℕ
  pub service_point_id : Option ℕ
  pub measured_at : Option ℕ
  pub value : Option ℤ
  pub quality_code : Option Text
  pub status_code : Option Text
  pub unit_of_measure : Option Text
  pub initial_status : InitialStatus
  pub ready_for_vee_at : ℕ

pub record RawIntervalWindowState : Type 0 where
  pub id : ℕ
  pub source_system : Text
  pub meter_identifier : Text
  pub channel_identifier : Text
  pub window_start_at : ℕ
  pub window_size_minutes : ℕ
  pub interval_size_minutes : ℕ
  pub expected_slot_count : ℕ
  pub received_slot_count : ℕ
  pub completion_status : CompletionStatus

-- the dictionary that `lookup_event_context_snapshot` returns
pub record EventContextSnapshot : Type 0 where
  pub primary_context_type : ContextType
  pub matched_context_types : List ContextType
  pub tolerance_minutes : ℕ
  pub meter_identifier : Option Text
  pub source_system : Text
  pub measured_at : ℕ
  pub matched_event_ids : List ℕ
  pub matched_event_codes : List Text
  pub matched_event_times : List ℕ
  pub matched_event_severities : List Text
  pub matched_event_count : ℕ

pub data MissingField : Type 0 where
  measured_at value unit_of_measure measuring_component_id device_id service_point_id : MissingField

pub data MultiplierFault : Type 0 where
  missing_component_multiplier invalid_component_multiplier : MultiplierFault
  unsupported_non_unity_multiplier : MultiplierFault

-- the `details` of a rule hit, one constructor for each rule; a number or text stands for itself,
-- and the last field of a value rule is the snapshot that a correlated event adds
pub data HitDetails : Type 0 where
  fields : List MissingField → HitDetails
  uom : (initial expected canonical raw : Option Text) (component_id : ℕ) → HitDetails
  multiplier : Option ℤ → MultiplierFault → (component_id : ℕ) → HitDetails
  negative_value : ℤ → Option EventContextSnapshot → HitDetails
  zero_value : ℤ → HitDetails
  low_value : (value threshold : ℤ) → Option Text → (interval_size : ℕ) → HitDetails
  interval_size : Option ℕ → HitDetails
  duplicate : (hes_read_raw_id : ℕ) → Option ℕ → HitDetails
  missing_interval : RawIntervalWindowState → Option EventContextSnapshot → HitDetails
  high_value :
      (value threshold : ℤ)
      → Option Text
      → (interval_size : ℕ) → Option EventContextSnapshot
      → HitDetails

pub record VeeExecutionLog : Type 0 where
  pub id : ℕ
  pub initial_measurement_id : ℕ
  pub pipeline_run_id : Option ℕ
  pub is_baseline : Bool
  pub trigger_type : Text
  pub period_start_at : Option ℕ
  pub period_end_at : Option ℕ
  pub execution_status : ExecutionStatus
  pub started_at : ℕ
  pub completed_at : Option ℕ
  pub summary_code : SummaryCode
  pub rule_hits : List ExceptionCode
  pub event_context_snapshot : Option EventContextSnapshot

pub record VeeException : Type 0 where
  pub id : ℕ
  pub initial_measurement_id : ℕ
  pub vee_execution_log_id : Option ℕ
  pub exception_code : ExceptionCode
  pub severity : Severity
  pub exception_status : ExceptionStatus
  pub blocking_finalization : Bool
  pub detected_at : ℕ
  pub acknowledged_at : Option ℕ
  pub acknowledged_by : Option Text
  pub acknowledged_by_user_account_id : Option ℕ
  pub resolved_at : Option ℕ
  pub resolved_by : Option Text
  pub resolved_by_user_account_id : Option ℕ
  pub resolution_type : Option Text
  pub operator_memo : Option Text
  pub details : HitDetails

pub record FinalMeasurement : Type 0 where
  pub id : ℕ
  pub initial_measurement_id : Option ℕ
  pub canonical_measurement_id : ℕ
  pub measuring_component_id : Option ℕ
  pub device_id : Option ℕ
  pub service_point_id : Option ℕ
  pub measured_at : Option ℕ
  pub value : Option ℤ
  pub quality_code : Option Text
  pub status_code : Option Text
  pub unit_of_measure : Option Text
  pub final_status : FinalStatus
  pub finalized_at : ℕ
  pub revision_number : ℕ
  pub revision_reason_code : Option Text
  pub is_current : Bool
  pub supersedes_final_measurement_id : Option ℕ

instance abbrev pub component_id : HasId MeasuringComponent
component_id = record { row_id = λ r. r.id }

instance abbrev pub batch_row_id : HasId IngestBatch
batch_row_id = record { row_id = λ r. r.id }

instance abbrev pub raw_id : HasId HesReadRaw
raw_id = record { row_id = λ r. r.id }

instance abbrev pub event_id : HasId HesEventRaw
event_id = record { row_id = λ r. r.id }

instance abbrev pub canonical_id : HasId CanonicalMeasurement
canonical_id = record { row_id = λ r. r.id }

instance abbrev pub initial_id : HasId InitialMeasurement
initial_id = record { row_id = λ r. r.id }

instance abbrev pub window_state_id : HasId RawIntervalWindowState
window_state_id = record { row_id = λ r. r.id }

instance abbrev pub execution_id : HasId VeeExecutionLog
execution_id = record { row_id = λ r. r.id }

instance abbrev pub vee_exception_id : HasId VeeException
vee_exception_id = record { row_id = λ r. r.id }

instance abbrev pub final_id : HasId FinalMeasurement
final_id = record { row_id = λ r. r.id }
