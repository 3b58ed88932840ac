-- ===== src/Billing/Determinants.antt =====
-- app/services/bill_determinants.py: the determinants of billing periods, from monthly usage.
pub mod Laws
pub mod Runs
pub mod Calculations
use sim_mdms_auto.Prelude.{
  ℕ, suc, ◌+◌, Bool, true, false, not, ◌&&◌, ◌||◌, Option, none, some, ℤ, List, [], ◌∷◌, ◌++◌, Text,
  codes, text_eq, ◌==◌, ltb, leb, opt_eq, eqb_ℤ, if◌then◌else◌, is_none, length, order_by, select,
  scalar, by_id, HasId,
}
use sim_mdms_auto.Ops.Rows.{PipelineName, PipelineRun}
use sim_mdms_auto.Ops.Pipeline.{
  start_pipeline_run, complete_pipeline_run, fail_pipeline_run, upsert_processing_watermark,
  no_links,
}
use sim_mdms_auto.Store.{Db}
use sim_mdms_auto.TariffAssignments.{before_end}
use sim_mdms_auto.Billing.Revisions.{
  CalculationStatus, Revising, Progress, Tally, no_rows, revise_all,
}
use sim_mdms_auto.Billing.Rows.{
  UsageTransaction, BillingCycleMode, ServicePointBillingContext, BillingContextSnapshot,
  Provenance, DeterminantDetails, BillDeterminant, usage_id, context_id, determinant_id,
}
use sim_mdms_auto.Billing.Store.{
  BillingDb, BillingScope, Trigger, Filters, filter_id, filter_from, filter_to, text_or,
  CalculationSummary, summarize, CalculationResult,
}
use sim_mdms_auto.Billing.DeterminantPayloads.{
  DeterminantPayload, build_bill_determinant_payload, find_billing_context,
  is_supported_determinant_type, load_source_usage_transactions,
}

abbrev pub determinant_scope : Text → UsageTransaction → BillingScope
determinant_scope type r = record {
  service_point_id = r.service_point_id;
  measuring_component_id = some r.measuring_component_id;
  type_code = type;
  period_start_at = r.period_start_at;
  period_end_at = r.period_end_at;
}

-- the filter of `_find_current_bill_determinant`
unfoldable pub is_current_determinant : BillingScope → BillDeterminant → Bool
is_current_determinant s d =
    d.service_point_id == s.service_point_id
    && opt_eq d.measuring_component_id s.measuring_component_id
    && text_eq d.determinant_type s.type_code
    && d.billing_period_start_at == s.period_start_at
    && d.billing_period_end_at == s.period_end_at
    && is_none d.tariff_plan_code
    && is_none d.tou_bucket_code
    && is_none d.demand_window_code
    && d.is_current

abbrev pub same_status : CalculationStatus → CalculationStatus → Bool
same_status CalculationStatus.complete CalculationStatus.complete = true
same_status CalculationStatus.partial CalculationStatus.partial = true
same_status CalculationStatus.blocked CalculationStatus.blocked = true
same_status _ _ = false

unfoldable pub same_determinant_snapshot :
    UsageTransaction → DeterminantPayload → BillDeterminant → Bool
same_determinant_snapshot r p d =
    opt_eq d.device_id (some r.device_id)
    && text_eq d.window_timezone_name p.window_timezone_name
    && text_eq d.unit_of_measure p.unit_of_measure
    && eqb_ℤ d.determinant_value p.determinant_value
    && d.source_usage_count == p.source_usage_count
    && text_eq d.quality_summary p.quality_summary
    && same_status d.calculation_status p.calculation_status

abbrev pub previous_id : Option BillDeterminant → Option ℕ
previous_id none = none
previous_id (some d) = some d.id

abbrev pub next_revision : Option BillDeterminant → ℕ
next_revision none = 1
next_revision (some d) = d.revision_number + 1

-- the first row of a scope keeps the reason as given
abbrev pub determinant_reason : Trigger → Option BillDeterminant → Option Text
determinant_reason t none = t.revision_reason_code
determinant_reason t (some d) = some (text_or t.revision_reason_code (codes "re_determined"))

-- the arguments of `BillDeterminant(...)`
unfoldable pub new_determinant :
    ℕ
    → PipelineRun
    → Text
    → Trigger
    → UsageTransaction
    → DeterminantPayload
    → ℕ
    → Option BillDeterminant
    → BillDeterminant
new_determinant now run type t r p new_id previous = record {
  id = new_id;
  pipeline_run_id = run.id;
  service_point_id = r.service_point_id;
  measuring_component_id = some r.measuring_component_id;
  device_id = some r.device_id;
  determinant_type = type;
  billing_period_start_at = r.period_start_at;
  billing_period_end_at = r.period_end_at;
  window_timezone_name = p.window_timezone_name;
  tariff_plan_code = none;
  tou_bucket_code = none;
  demand_window_code = none;
  unit_of_measure = p.unit_of_measure;
  determinant_value = p.determinant_value;
  source_usage_count = p.source_usage_count;
  quality_summary = p.quality_summary;
  calculation_status = p.calculation_status;
  revision_number = next_revision previous;
  revision_reason_code = determinant_reason t previous;
  is_current = true;
  supersedes_bill_determinant_id = previous_id previous;
  calculated_at = now;
  details = p.details;
}

abbrev pub retired_determinant : Trigger → BillDeterminant → BillDeterminant
retired_determinant t d = record d {
  is_current = false;
  revision_reason_code = some (text_or t.revision_reason_code (codes "re_determined"));
}

-- the loop of `calculate_bill_determinants`
unfoldable pub determinant_rules :
    ℕ
    → PipelineRun
    → Text
    → Trigger
    → List ServicePointBillingContext
    → Revising UsageTransaction BillingScope DeterminantPayload BillDeterminant
unfolding find_billing_context build_bill_determinant_payload is_current_determinant
    same_determinant_snapshot new_determinant
determinant_rules now run type t contexts = record {
  key = determinant_scope type;
  payload = λ r. some (build_bill_determinant_payload t r (find_billing_context r contexts));
  status = λ p. p.calculation_status;
  current = is_current_determinant;
  same = same_determinant_snapshot;
  retire = retired_determinant t;
  make = new_determinant now run type t;
  period_end = λ r. r.period_end_at;
}

unfoldable pub determinant_result_code : CalculationSummary → Text
determinant_result_code s =
    if s.groups == 0
    then codes "bill_determinant_noop"
    else if ltb 0 s.blocked
    then codes "bill_determinant_completed_with_blocked"
    else if ltb 0 s.partial
    then codes "bill_determinant_completed_with_partial"
    else codes "bill_determinant_completed"

abbrev pub move_watermark : PipelineName → Text → Option ℕ → Db → Db
move_watermark name record_type none db = db
move_watermark name record_type (some at) db =
    upsert_processing_watermark name none (some record_type) at db

-- after the loop: the watermark, and the end of the run
unfoldable pub end_determinants :
    ℕ
    → PipelineRun
    → Text
    → ℕ
    → Progress BillDeterminant × Bool
    → BillingDb
    → BillingDb × CalculationResult
unfolding complete_pipeline_run fail_pipeline_run upsert_processing_watermark
    determinant_result_code
end_determinants now run type groups (p, true) db =
    let summary = summarize type groups p.tally in
    let moved =
      move_watermark PipelineName.bill_determinant (codes "billing_cycle_total") p.tally.latest
        db.core in
    (
      record db {
        determinants = p.rows;
        core = complete_pipeline_run now run (some (determinant_result_code summary)) none moved;
      },
      CalculationResult.ok summary,
    )
end_determinants now run type groups (p, false) db = (
  record db {
    determinants = p.rows;
    core =
        fail_pipeline_run now run (some (codes "bill_determinant_failed_exception")) none db.core;
  },
  CalculationResult.failed_exception,
)

-- the run, for a supported type
unfoldable pub run_determinants :
    ℕ → Text → Filters → Trigger → BillingDb → BillingDb × CalculationResult
unfolding load_source_usage_transactions determinant_rules revise_all end_determinants
    start_pipeline_run
run_determinants now type f t db =
    let rows = load_source_usage_transactions f db.usages in
    let (core, run) =
      start_pipeline_run now PipelineName.bill_determinant t.trigger_type no_links db.core in
    end_determinants now run type (length rows)
      (revise_all (determinant_rules now run type t db.billing_contexts) db.determinants rows
        (record { rows = db.determinants; tally = no_rows }))
      (record db { core = core })

unfoldable pub calculate_bill_determinants :
    ℕ → Text → Filters → Trigger → BillingDb → BillingDb × CalculationResult
unfolding run_determinants
calculate_bill_determinants now type f t db =
    if is_supported_determinant_type type
    then run_determinants now type f t db
    else (db, CalculationResult.unsupported_type)
