-- ===== src/Vee/Actions.antt =====
-- app/services/vee.py: what operators do to VEE exceptions: acknowledge, resolve, re-evaluate.
use sim_mdms_auto.Prelude.{
  ℕ, true, ◌&&◌, Option, none, some, List, [], ◌∷◌, Text, codes, ◌==◌, if◌then◌else◌, get, get?,
  modify, select, order_by, by_id, or_else, or_option, normalized,
}
use sim_mdms_auto.Model.{
  HesReadRaw, InitialMeasurement, VeeExecutionLog, VeeException, ExceptionStatus, InitialStatus,
  initial_id, execution_id, vee_exception_id,
}
use sim_mdms_auto.Store.{Db, raw_of}
use sim_mdms_auto.Ops.Rows.{EventCode, EntityType}
use sim_mdms_auto.Ops.Events.{
  defaults, record_operational_event, AlertScope, anywhere, close_operational_alerts,
  acknowledge_operational_alerts,
}
use sim_mdms_auto.Vee.Baseline.{
  is_vee_exception_active, set_initial_status, refresh_initial_measurement_status, batch_of,
  meter_of, evaluate_or_get_vee_baseline,
}

-- the codes of `VeeExceptionActionError`
pub data ActionError : Type 0 where
  not_found already_resolved already_acknowledged : ActionError

pub data ActionResult {ℓ} (A : Type ℓ) : Type ℓ where
  ok : A → ActionResult A
  err : ActionError → ActionResult A

infixl 5 ◌>>=◌
abbrev pub ◌>>=◌ {ℓ κ} :
    {A : Type ℓ} {B : Type κ} → ActionResult A → (A → ActionResult B) → ActionResult B
ok a >>= f = f a
err e >>= f = err e

-- the operator's keyword arguments
pub record Operator : Type 0 where
  pub name : Option Text
  pub user_account_id : Option ℕ
  pub memo : Option Text
  pub at : Option ℕ

abbrev pub found {ℓ} : {A : Type ℓ} → Option A → ActionResult A
found none = err ActionError.not_found
found (some a) = ok a

unfoldable pub get_vee_exception : ℕ → Db → ActionResult VeeException
get_vee_exception n db = found (get n db.exceptions)

-- the alert of an exception
abbrev pub exception_scope : ℕ → AlertScope
exception_scope n = record anywhere {
  entity_type = some EntityType.vee_exception;
  entity_id = some n;
}

abbrev pub raw_of_row : Db → Option InitialMeasurement → Option HesReadRaw
raw_of_row db none = none
raw_of_row db (some r) = raw_of db r

abbrev pub run_of : Option VeeExecutionLog → Option ℕ
run_of none = none
run_of (some x) = x.pipeline_run_id

unfoldable pub may_acknowledge : ExceptionStatus → ActionResult (Unit {0})
may_acknowledge ExceptionStatus.opened = ok tt
may_acknowledge ExceptionStatus.acknowledged = err ActionError.already_acknowledged
may_acknowledge ExceptionStatus.resolved = err ActionError.already_resolved

unfoldable pub may_resolve : ExceptionStatus → ActionResult (Unit {0})
may_resolve ExceptionStatus.resolved = err ActionError.already_resolved
may_resolve _ = ok tt

abbrev pub acknowledged_row : ℕ → Text → Option ℕ → VeeException → VeeException
acknowledged_row at by account e = record e {
  exception_status = ExceptionStatus.acknowledged;
  acknowledged_at = some at;
  acknowledged_by = some by;
  acknowledged_by_user_account_id = account;
}

-- the part of `acknowledge_vee_exception` behind its guards
unfoldable pub acknowledge_row : ℕ → VeeException → Text → Option ℕ → Option ℕ → Db → Db
unfolding acknowledge_operational_alerts
acknowledge_row now e by account at db =
    let time = or_else at now in
    let marked = record db {
      exceptions = modify e.id (acknowledged_row time by account) db.exceptions;
    } in
    let refreshed =
      if e.blocking_finalization
      then set_initial_status e.initial_measurement_id InitialStatus.exception marked
      else refresh_initial_measurement_status e.initial_measurement_id marked in
    (acknowledge_operational_alerts now EventCode.vee_exception_opened by (exception_scope e.id)
      (some time) refreshed).0

unfoldable pub acknowledge_vee_exception : ℕ → ℕ → Text → Option ℕ → Option ℕ → Db → ActionResult Db
unfolding get_vee_exception may_acknowledge
acknowledge_vee_exception now n by account at db = do
  e ← get_vee_exception n db
  _ ← may_acknowledge e.exception_status
  ok (acknowledge_row now e by account at db)

abbrev pub resolved_row : ℕ → Text → Operator → VeeException → VeeException
resolved_row at resolution_type op e = record e {
  exception_status = ExceptionStatus.resolved;
  resolution_type = some resolution_type;
  resolved_at = some at;
  resolved_by = normalized op.name;
  resolved_by_user_account_id = op.user_account_id;
  operator_memo = or_option (normalized op.memo) e.operator_memo;
}

-- (resolution_type or "").strip() or "operator_resolution"
abbrev pub normalized_resolution : Text → Text
normalized_resolution t = or_else (normalized (some t)) (codes "operator_resolution")

-- the store after the row, the status of its measurement and its alerts are written
unfoldable pub resolve_marked : ℕ → VeeException → Text → Operator → Db → Db
unfolding close_operational_alerts
resolve_marked now e resolution op db =
    let time = or_else op.at now in
    let marked = record db {
      exceptions =
          modify e.id (resolved_row time (normalized_resolution resolution) op) db.exceptions;
    } in
    (close_operational_alerts now EventCode.vee_exception_opened (exception_scope e.id) (some time)
      (normalized op.memo) (refresh_initial_measurement_status e.initial_measurement_id marked)).0

unfoldable pub resolve_vee_exception_row : ℕ → VeeException → Text → Operator → Db → Db
unfolding resolve_marked record_operational_event
resolve_vee_exception_row now e resolution op db =
    let raw = raw_of_row db (get e.initial_measurement_id db.initials) in
    record_operational_event now EventCode.vee_exception_resolved
      (record defaults {
        entity_type = some EntityType.vee_exception;
        entity_id = some e.id;
        pipeline_run = run_of (get? e.vee_execution_log_id db.executions);
        ingest_batch = batch_of raw;
        meter_identifier = meter_of raw;
      })
      (resolve_marked now e resolution op db)

unfoldable pub resolve_vee_exception : ℕ → ℕ → Text → Operator → Db → ActionResult Db
unfolding get_vee_exception may_resolve
resolve_vee_exception now n resolution op db = do
  e ← get_vee_exception n db
  _ ← may_resolve e.exception_status
  ok (resolve_vee_exception_row now e resolution op db)

-- the active exceptions of a measurement, by id
unfoldable pub active_exceptions : ℕ → Db → List VeeException
active_exceptions n db =
    order_by by_id
      (select (λ e. e.initial_measurement_id == n && is_vee_exception_active e) db.exceptions)

-- `for row in active_exceptions: _resolve_vee_exception_row(...)`
unfoldable pub resolve_all : ℕ → Operator → List VeeException → Db → Db
resolve_all now op [] db = db
resolve_all now op (e ∷ es) db =
    resolve_all now op es (resolve_vee_exception_row now e (codes "re_evaluated_superseded") op db)

unfoldable pub reevaluate_row : ℕ → InitialMeasurement → Operator → Db → Db × VeeExecutionLog
unfolding resolve_all active_exceptions record_operational_event
reevaluate_row now row op db =
    let resolved = resolve_all now op (active_exceptions row.id db) db in
    let evaluated =
      evaluate_or_get_vee_baseline now row none (codes "manual_re_evaluate") true
        (set_initial_status row.id InitialStatus.ready resolved) in
    (
      record_operational_event now EventCode.vee_re_evaluated
          (record defaults {
            entity_type = some EntityType.initial_measurement;
            entity_id = some row.id;
            pipeline_run = evaluated.1.pipeline_run_id;
            ingest_batch = batch_of (raw_of db row);
            meter_identifier = meter_of (raw_of db row);
          })
          evaluated.0,
      evaluated.1,
    )

unfoldable pub reevaluate_initial_measurement :
    ℕ → ℕ → Operator → Db → ActionResult (Db × VeeExecutionLog)
reevaluate_initial_measurement now n op db = do
  row ← found (get n db.initials)
  ok (reevaluate_row now row op db)

unfoldable pub reevaluate_vee_exception :
    ℕ → ℕ → Operator → Db → ActionResult (Db × VeeExecutionLog)
unfolding get_vee_exception reevaluate_initial_measurement
reevaluate_vee_exception now n op db = do
  e ← get_vee_exception n db
  reevaluate_initial_measurement now e.initial_measurement_id op db
