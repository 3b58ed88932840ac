-- ===== src/ProcessingReplay/Reevaluate.antt =====
-- app/services/processing_replay.py: `reevaluate_vee_exception_and_replay`.
use sim_mdms_auto.Prelude.{
  ℕ, Bool, true, false, ◌&&◌, Option, none, some, List, [], codes, ◌==◌, ltb, if◌then◌else◌, length,
  select, order_by, by_id, scalar, count, get, is_some, is_none, sql_eq,
}
use sim_mdms_auto.Model.{
  FinalMeasurement, InitialMeasurement, VeeException, VeeExecutionLog, initial_id, vee_exception_id,
}
use sim_mdms_auto.Store.{Db}
use sim_mdms_auto.Ops.Rows.{EventCode, EntityType}
use sim_mdms_auto.Ops.Events.{defaults, record_operational_event}
use sim_mdms_auto.Vee.Baseline.{is_vee_exception_active}
use sim_mdms_auto.Vee.Actions.{
  ActionError, ActionResult, ok, err, Operator, reevaluate_vee_exception,
}
use sim_mdms_auto.Finalization.{
  is_initial_measurement_finalizable, create_or_get_final_measurement, revision_before,
}
use sim_mdms_auto.Billing.Store.{BillingDb}
use sim_mdms_auto.Usage.Windows.{Zones}
use sim_mdms_auto.ProcessingReplay.Windows.{
  UsageRecalculationResult, UsageReplay, recalculate_impacted_usage_windows,
}

abbrev is_current_final_of : ℕ → FinalMeasurement → Bool
is_current_final_of n f = sql_eq f.initial_measurement_id n && f.is_current

unfoldable pub get_current_final_measurement_for_initial :
    ℕ → List FinalMeasurement → Option FinalMeasurement
get_current_final_measurement_for_initial n finals =
    scalar revision_before (is_current_final_of n) finals

abbrev is_active_of : ℕ → VeeException → Bool
is_active_of n e = e.initial_measurement_id == n && is_vee_exception_active e

unfoldable pub load_active_vee_exceptions : ℕ → List VeeException → List VeeException
load_active_vee_exceptions n es = order_by by_id (select (is_active_of n) es)

pub record ReVeeReplaySummary : Type 0 where
  pub target_vee_exception_id : ℕ
  pub initial_measurement_id : ℕ
  pub vee_execution_log_id : ℕ
  pub active_exception_count : ℕ
  pub blocking_exception_count : ℕ
  pub exception_cleared : Bool
  pub exception_reopened : Bool
  pub previous_final_id : Option ℕ
  pub current_final_id : Option ℕ
  pub final_created : Bool
  pub final_superseded : Bool
  pub final_unchanged : Bool
  pub daily_usage_groups_updated : ℕ
  pub daily_usage_rows_deleted : ℕ
  pub monthly_usage_groups_updated : ℕ
  pub monthly_usage_rows_deleted : ℕ
  pub usage_recalculation_results : List UsageRecalculationResult

pub data ReplayOutcome : Type 0 where
  done : BillingDb → ReVeeReplaySummary → ReplayOutcome
  -- `VeeExceptionActionError`
  refused : ActionError → ReplayOutcome
  -- any other exception
  raised : ReplayOutcome

-- what the finalization of the measurement came to
pub record FinalStep : Type 0 where
  pub current_final : Option FinalMeasurement
  pub final_created : Bool
  pub final_superseded : Bool
  pub final_unchanged : Bool
  pub replay : UsageReplay

abbrev pub final_ref : Option FinalMeasurement → Option ℕ
final_ref none = none
final_ref (some f) = some f.id

abbrev pub no_replay : BillingDb → UsageReplay
no_replay db = record {
  db = db;
  daily_usage_groups_updated = 0;
  daily_usage_rows_deleted = 0;
  monthly_usage_groups_updated = 0;
  monthly_usage_rows_deleted = 0;
  results = [];
}

abbrev pub record_superseded : ℕ → Bool → FinalMeasurement → Db → Db
record_superseded now superseded f db =
    if superseded
    then record_operational_event now EventCode.final_measurement_superseded
        (record defaults { entity_type = some EntityType.final_measurement; entity_id = some f.id })
        db
    else db

abbrev pub record_recalculated : ℕ → ℕ → UsageReplay → UsageReplay
record_recalculated now n u = record u {
  db = record u.db {
    core =
        record_operational_event now EventCode.usage_recalculated_after_vee
          (record defaults {
            entity_type = some EntityType.initial_measurement;
            entity_id = some n;
          })
          u.db.core;
  };
}

abbrev pub with_replay :
    ℕ → ℕ → Option FinalMeasurement → FinalMeasurement → Option UsageReplay → Option FinalStep
with_replay now n previous f none = none
with_replay now n previous f (some u) = some (record {
  current_final = some f;
  final_created = true;
  final_superseded = is_some previous;
  final_unchanged = false;
  replay = record_recalculated now n u;
})

-- after `create_or_get_final_measurement`; usage follows only where the final measurement is new
abbrev pub after_final :
    Zones
    → ℕ
    → ℕ
    → Option FinalMeasurement
    → BillingDb
    → Option (Db × FinalMeasurement × Bool)
    → Option FinalStep
after_final zones now n previous db none = none
after_final zones now n previous db (some (core, f, true)) =
    let superseded = record db { core = record_superseded now (is_some previous) f core } in
    with_replay now n previous f (
      recalculate_impacted_usage_windows zones now previous (some f) (codes "vee_re_evaluate")
        superseded)
after_final zones now n previous db (some (core, f, false)) = some (record {
  current_final = some f;
  final_created = false;
  final_superseded = false;
  final_unchanged = true;
  replay = no_replay (record db { core = core });
})

abbrev pub kept_final : Option FinalMeasurement → BillingDb → FinalStep
kept_final previous db = record {
  current_final = previous;
  final_created = false;
  final_superseded = false;
  final_unchanged = is_some previous;
  replay = no_replay db;
}

unfoldable pub finalize_reevaluated :
    Zones
    → ℕ
    → InitialMeasurement
    → Option FinalMeasurement
    → List VeeException
    → BillingDb
    → Option FinalStep
unfolding is_initial_measurement_finalizable create_or_get_final_measurement
    recalculate_impacted_usage_windows record_operational_event
finalize_reevaluated zones now row previous active db =
    if length active == 0 && is_initial_measurement_finalizable db.core row
    then after_final zones now row.id previous db
        (create_or_get_final_measurement now row (some (codes "vee_re_evaluated")) db.core)
    else some (kept_final previous db)

abbrev pub replay_summary :
    ℕ
    → ℕ
    → VeeExecutionLog
    → Option FinalMeasurement
    → List VeeException
    → FinalStep
    → ReVeeReplaySummary
replay_summary target n execution previous active s = record {
  target_vee_exception_id = target;
  initial_measurement_id = n;
  vee_execution_log_id = execution.id;
  active_exception_count = length active;
  blocking_exception_count = count (λ e. e.blocking_finalization) active;
  exception_cleared = length active == 0;
  exception_reopened = ltb 0 (length active);
  previous_final_id = final_ref previous;
  current_final_id = final_ref s.current_final;
  final_created = s.final_created && is_none previous;
  final_superseded = s.final_superseded;
  final_unchanged = s.final_unchanged;
  daily_usage_groups_updated = s.replay.daily_usage_groups_updated;
  daily_usage_rows_deleted = s.replay.daily_usage_rows_deleted;
  monthly_usage_groups_updated = s.replay.monthly_usage_groups_updated;
  monthly_usage_rows_deleted = s.replay.monthly_usage_rows_deleted;
  usage_recalculation_results = s.replay.results;
}

abbrev pub summarized :
    ℕ
    → ℕ
    → VeeExecutionLog
    → Option FinalMeasurement
    → List VeeException
    → Option FinalStep
    → ReplayOutcome
summarized target n execution previous active none = ReplayOutcome.raised
summarized target n execution previous active (some s) =
    ReplayOutcome.done s.replay.db (replay_summary target n execution previous active s)

abbrev pub replay_row :
    Zones
    → ℕ
    → ℕ
    → ℕ
    → VeeExecutionLog
    → Option FinalMeasurement
    → BillingDb
    → Option InitialMeasurement
    → ReplayOutcome
replay_row zones now target n execution previous db none =
    ReplayOutcome.refused ActionError.not_found
replay_row zones now target n execution previous db (some row) =
    let active = load_active_vee_exceptions n db.core.exceptions in
    summarized target n execution previous active
      (finalize_reevaluated zones now row previous active db)

abbrev pub after_reevaluation :
    Zones
    → ℕ
    → ℕ
    → ℕ
    → Option FinalMeasurement
    → BillingDb
    → ActionResult (Db × VeeExecutionLog)
    → ReplayOutcome
after_reevaluation zones now target n previous db (err e) = ReplayOutcome.refused e
after_reevaluation zones now target n previous db (ok (core, execution)) =
    replay_row zones now target n execution previous (record db { core = core })
      (get n core.initials)

abbrev pub replay_exception : Zones → ℕ → Operator → BillingDb → Option VeeException → ReplayOutcome
replay_exception zones now op db none = ReplayOutcome.refused ActionError.not_found
replay_exception zones now op db (some e) =
    after_reevaluation zones now e.id e.initial_measurement_id
      (get_current_final_measurement_for_initial e.initial_measurement_id db.core.finals) db
      (reevaluate_vee_exception now e.id op db.core)

unfoldable pub reevaluate_vee_exception_and_replay :
    Zones → ℕ → ℕ → Operator → BillingDb → ReplayOutcome
unfolding get_current_final_measurement_for_initial load_active_vee_exceptions finalize_reevaluated
    reevaluate_vee_exception
reevaluate_vee_exception_and_replay zones now n op db =
    replay_exception zones now op db (get n db.core.exceptions)
