-- ===== src/Scenarios/Data.antt =====
-- A small store: a clean measurement of three units, a negative one under a tamper event, and the
-- arguments of the calls on them.
use sim_mdms_auto.Prelude.{ℕ, ◌+◌, true, false, none, some, [], ◌∷◌, codes, ℤ, pos, negsuc}
use sim_mdms_auto.Model.{
  HesReadRaw, HesEventRaw, CanonicalMeasurement, InitialMeasurement, InitialStatus, CanonicalStatus,
  VeeException, ExceptionCode, ExceptionStatus, Severity, HitDetails,
}
use sim_mdms_auto.Store.{Db}
use sim_mdms_auto.Vee.Actions.{Operator}
use sim_mdms_auto.Finalization.Batch.{Selection}

abbrev pub noon : ℕ
noon = 43200000000

abbrev pub hes_read : ℕ → HesReadRaw
hes_read n = record {
  id = n;
  hes_system_id = some 1;
  ingest_batch_id = some 1;
  source_system = codes "hes";
  meter_identifier = some (codes "M1");
  channel_identifier = some (codes "C1");
  measured_at = some noon;
  interval_size_minutes = 15;
  unit_of_measure = some (codes "kWh");
  source_business_ts = none;
  canonical_status = CanonicalStatus.mapped;
  is_duplicate = false;
  duplicate_of_id = none;
}

abbrev pub canonical_row : ℕ → ℤ → CanonicalMeasurement
canonical_row n v = record {
  id = n;
  hes_read_raw_id = n;
  measuring_component_id = some 1;
  device_id = some 1;
  service_point_id = some 1;
  measured_at = some noon;
  value = some v;
  quality_code = none;
  status_code = none;
  unit_of_measure = some (codes "kWh");
}

abbrev pub initial_row : ℕ → ℤ → InitialStatus → InitialMeasurement
initial_row n v s = record {
  id = n;
  canonical_measurement_id = some n;
  measuring_component_id = some 1;
  device_id = some 1;
  service_point_id = some 1;
  measured_at = some noon;
  value = some v;
  quality_code = none;
  status_code = none;
  unit_of_measure = some (codes "kWh");
  initial_status = s;
  ready_for_vee_at = noon;
}

abbrev pub tamper_event : HesEventRaw
tamper_event = record {
  id = 1;
  hes_system_id = some 1;
  source_system = codes "hes";
  meter_identifier = some (codes "M1");
  event_time = some (noon + 60000000);
  event_code = some (codes " meter_tamper ");
  severity = none;
}

abbrev pub clean : InitialMeasurement
clean = initial_row 1 (pos 30000) InitialStatus.accepted

abbrev pub negative : InitialMeasurement
negative = initial_row 2 (negsuc 9999) InitialStatus.ready

-- the third canonical measurement has no initial one yet
abbrev pub store : Db
store = record {
  ingest_batches = record { id = 1; batch_id = codes "B1"; source_system = codes "hes" } ∷ [];
  measuring_components =
      record { id = 1; unit_of_measure = some (codes "KWH"); multiplier = some (pos 10000) } ∷ [];
  hes_reads = hes_read 1 ∷ hes_read 2 ∷ hes_read 3 ∷ [];
  hes_events = tamper_event ∷ [];
  window_states = [];
  canonicals =
      canonical_row 1 (pos 30000) ∷ canonical_row 2 (negsuc 9999) ∷ canonical_row 3 (pos 0) ∷ [];
  initials = clean ∷ negative ∷ [];
  executions = [];
  exceptions = [];
  finals = [];
  events = [];
  runs = [];
  watermarks = [];
  replay_requests = [];
  replay_items = [];
}

abbrev pub operator : Operator
operator = record {
  name = some (codes "kim");
  user_account_id = some 7;
  memo = some (codes "checked on site");
  at = none;
}

abbrev pub whole_batch : Selection
whole_batch = record {
  batch_id = some (codes "B1");
  meter_id = none;
  date_from = none;
  date_to = none;
  limit = 100;
}

-- the open exception of the negative measurement, as an earlier evaluation wrote it
abbrev pub open_exception : VeeException
open_exception = record {
  id = 5;
  initial_measurement_id = 2;
  vee_execution_log_id = none;
  exception_code = ExceptionCode.negative_value_detected;
  severity = Severity.error;
  exception_status = ExceptionStatus.opened;
  blocking_finalization = true;
  detected_at = noon;
  acknowledged_at = none;
  acknowledged_by = none;
  acknowledged_by_user_account_id = none;
  resolved_at = none;
  resolved_by = none;
  resolved_by_user_account_id = none;
  resolution_type = none;
  operator_memo = none;
  details = HitDetails.negative_value (negsuc 9999) none;
}

abbrev pub with_exception : Db
with_exception = record store { exceptions = open_exception ∷ [] }
