-- ===== src/Vee/Baseline.antt =====
-- app/services/vee.py: the baseline evaluation of one initial measurement, which writes an
-- execution log and opens or refreshes VEE exceptions.
use sim_mdms_auto.Prelude.{
  ℕ, Bool, true, false, ◌&&◌, Option, none, some, List, [], ◌∷◌, ◌++◌, Text, ◌==◌, if◌then◌else◌,
  any, map, scalar, by_id, next_id, modify,
}
use sim_mdms_auto.Model.{
  HesReadRaw, InitialMeasurement, VeeExecutionLog, VeeException, EventContextSnapshot,
  ExceptionCode, ExceptionStatus, InitialStatus, ExecutionStatus, is_active_status, same_code,
  initial_id, execution_id, vee_exception_id,
}
use sim_mdms_auto.Store.{Db, raw_of, exceptions_of}
use sim_mdms_auto.Ops.Rows.{EventCode, EntityType}
use sim_mdms_auto.Ops.Events.{defaults, record_operational_event}
use sim_mdms_auto.EventContext.{lookup_event_context_snapshot, event_context_tolerance_minutes}
use sim_mdms_auto.Vee.Rules.{VeeRuleHit}
use sim_mdms_auto.Vee.Evaluate.{evaluate_initial_measurement_rule_hits, build_summary_code}

abbrev pub is_vee_exception_active : VeeException → Bool
is_vee_exception_active e = is_active_status e.exception_status

abbrev pub is_active_blocking : VeeException → Bool
is_active_blocking e = e.blocking_finalization && is_vee_exception_active e

unfoldable pub has_active_blocking_vee_exception : Db → ℕ → Bool
has_active_blocking_vee_exception db n = any is_active_blocking (exceptions_of db n)

-- `row.initial_status = status`
abbrev pub set_initial_status : ℕ → InitialStatus → Db → Db
set_initial_status n status db = record db {
  initials = modify n (λ r. record r { initial_status = status }) db.initials;
}

refreshed : Bool → InitialStatus → InitialStatus
refreshed true status = InitialStatus.exception
refreshed false InitialStatus.exception = InitialStatus.accepted
refreshed false status = status

unfoldable pub refresh_initial_measurement_status : ℕ → Db → Db
unfolding refreshed
refresh_initial_measurement_status n db = record db {
  initials =
      modify n
        (λ r. record r {
          initial_status = refreshed (has_active_blocking_vee_exception db n) r.initial_status;
        })
        db.initials;
}

unfoldable pub find_existing_baseline_execution : Db → ℕ → Option VeeExecutionLog
find_existing_baseline_execution db n =
    scalar by_id (λ x. x.initial_measurement_id == n && x.is_baseline) db.executions

abbrev pub meter_of : Option HesReadRaw → Option Text
meter_of none = none
meter_of (some raw) = raw.meter_identifier

abbrev pub batch_of : Option HesReadRaw → Option ℕ
batch_of none = none
batch_of (some raw) = raw.ingest_batch_id

unfoldable pub record_vee_exception_opened :
    ℕ → VeeException → InitialMeasurement → VeeExecutionLog → Db → Db
unfolding record_operational_event
record_vee_exception_opened now e row execution db =
    record_operational_event now EventCode.vee_exception_opened
      (record defaults {
        severity = some e.severity;
        is_alert = some e.blocking_finalization;
        entity_type = some EntityType.vee_exception;
        entity_id = some e.id;
        pipeline_run = execution.pipeline_run_id;
        ingest_batch = batch_of (raw_of db row);
        meter_identifier = meter_of (raw_of db row);
      })
      db

-- an active exception of this measurement with this code
abbrev pub same_active : ℕ → ExceptionCode → VeeException → Bool
same_active n code e =
    e.initial_measurement_id == n && same_code e.exception_code code && is_vee_exception_active e

abbrev pub refresh_exception : VeeExecutionLog → VeeRuleHit → VeeException → VeeException
refresh_exception execution hit e = record e {
  vee_execution_log_id = some execution.id;
  severity = hit.severity;
  blocking_finalization = hit.blocking_finalization;
  details = hit.details;
}

abbrev pub new_exception : ℕ → ℕ → InitialMeasurement → VeeExecutionLog → VeeRuleHit → VeeException
new_exception now new_id row execution hit = record {
  id = new_id;
  initial_measurement_id = row.id;
  vee_execution_log_id = some execution.id;
  exception_code = hit.exception_code;
  severity = hit.severity;
  exception_status = ExceptionStatus.opened;
  blocking_finalization = hit.blocking_finalization;
  detected_at = now;
  acknowledged_at = none;
  acknowledged_by = none;
  acknowledged_by_user_account_id = none;
  resolved_at = none;
  resolved_by = none;
  resolved_by_user_account_id = none;
  resolution_type = none;
  operator_memo = none;
  details = hit.details;
}

unfoldable pub open_or_refresh :
    ℕ → InitialMeasurement → VeeExecutionLog → VeeRuleHit → Option VeeException → Db → Db × Bool
unfolding record_vee_exception_opened
open_or_refresh now row execution hit (some old) db = (
  record db { exceptions = modify old.id (refresh_exception execution hit) db.exceptions },
  false,
)
open_or_refresh now row execution hit none db =
    let e = new_exception now (next_id db.exceptions) row execution hit in
    (
      record_vee_exception_opened now e row execution
          (record db { exceptions = db.exceptions ++ e ∷ [] }),
      true,
    )

-- the flag says whether an exception was opened
unfoldable pub create_or_get_vee_exception :
    ℕ → InitialMeasurement → VeeExecutionLog → VeeRuleHit → Db → Db × Bool
unfolding open_or_refresh
create_or_get_vee_exception now row execution hit db =
    open_or_refresh now row execution hit
      (scalar by_id (same_active row.id hit.exception_code) db.exceptions) db

-- `for hit in rule_hits: create_or_get_vee_exception(...)`
unfoldable pub open_all : ℕ → InitialMeasurement → VeeExecutionLog → List VeeRuleHit → Db → Db
open_all now row execution [] db = db
open_all now row execution (h ∷ hs) db =
    open_all now row execution hs (create_or_get_vee_exception now row execution h db).0

-- the status that a reused execution gives: both execution statuses stand in the tested set
unfoldable pub reuse_status : Bool → ExecutionStatus → InitialStatus
reuse_status true status = InitialStatus.exception
reuse_status false ExecutionStatus.passed = InitialStatus.accepted
reuse_status false ExecutionStatus.completed_with_exception = InitialStatus.accepted

abbrev pub any_blocking : List VeeRuleHit → Bool
any_blocking = any (λ h. h.blocking_finalization)

abbrev pub status_after : List VeeRuleHit → InitialStatus
status_after hits = if any_blocking hits then InitialStatus.exception else InitialStatus.accepted

abbrev execution_status_of : List VeeRuleHit → ExecutionStatus
execution_status_of [] = ExecutionStatus.passed
execution_status_of (_ ∷ _) = ExecutionStatus.completed_with_exception

unfoldable pub build_execution :
    ℕ
    → ℕ
    → InitialMeasurement
    → Option ℕ
    → Text
    → List VeeRuleHit
    → Option EventContextSnapshot
    → VeeExecutionLog
build_execution now new_id row run trigger hits snapshot = record {
  id = new_id;
  initial_measurement_id = row.id;
  pipeline_run_id = run;
  is_baseline = true;
  trigger_type = trigger;
  period_start_at = row.measured_at;
  period_end_at = row.measured_at;
  execution_status = execution_status_of hits;
  started_at = now;
  completed_at = some now;
  summary_code = build_summary_code hits;
  rule_hits = map (λ h. h.exception_code) hits;
  event_context_snapshot = snapshot;
}

unfoldable pub evaluate_baseline :
    ℕ → InitialMeasurement → Option ℕ → Text → Db → Db × VeeExecutionLog × Bool
unfolding build_execution
evaluate_baseline now row run trigger db =
    let snapshot = lookup_event_context_snapshot db row event_context_tolerance_minutes in
    let hits = evaluate_initial_measurement_rule_hits db row snapshot in
    let execution = build_execution now (next_id db.executions) row run trigger hits snapshot in
    let db' = record db { executions = db.executions ++ execution ∷ [] } in
    (
      open_all now row execution hits (set_initial_status row.id (status_after hits) db'),
      execution,
      true,
    )

unfoldable pub reuse_or_evaluate :
    ℕ
    → InitialMeasurement
    → Option ℕ
    → Text
    → Option VeeExecutionLog
    → Db
    → Db × VeeExecutionLog × Bool
unfolding reuse_status evaluate_baseline
reuse_or_evaluate now row run trigger (some old) db = (
  set_initial_status row.id
      (reuse_status (has_active_blocking_vee_exception db row.id) old.execution_status) db,
  old,
  false,
)
reuse_or_evaluate now row run trigger none db = evaluate_baseline now row run trigger db

-- the result is the execution and whether it is new
unfoldable pub evaluate_or_get_vee_baseline :
    ℕ → InitialMeasurement → Option ℕ → Text → Bool → Db → Db × VeeExecutionLog × Bool
unfolding reuse_or_evaluate
evaluate_or_get_vee_baseline now row run trigger force db =
    reuse_or_evaluate now row run trigger
      (if force then none else find_existing_baseline_execution db row.id) db
