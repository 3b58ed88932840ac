-- ===== src/Billing/Charges.antt =====
-- app/services/bill_charges.py: the charges of billing periods, from current determinants.
pub mod Amounts
pub mod Laws
pub mod Runs
pub mod Calculations
use sim_mdms_auto.Prelude.{
  ℕ, suc, ◌+◌, Bool, true, false, not, ◌&&◌, ◌||◌, Option, none, some, ℤ, List, [], ◌∷◌, ◌++◌, Text,
  codes, text_eq, opt_text_eq, ◌==◌, ltb, opt_eq, eqb_ℤ, if◌then◌else◌, length, order_by, select,
  by_id, HasId, non_empty,
}
use sim_mdms_auto.Ops.Rows.{PipelineName, PipelineRun}
use sim_mdms_auto.Ops.Pipeline.{
  start_pipeline_run, complete_pipeline_run, fail_pipeline_run, upsert_processing_watermark,
  no_links,
}
use sim_mdms_auto.Store.{Db}
use sim_mdms_auto.TariffAssignments.{
  ServicePointTariffAssignment, TariffTables, find_applicable_tariff_assignment,
}
use sim_mdms_auto.Billing.Revisions.{
  CalculationStatus, Revising, Progress, Tally, no_rows, revise_all,
}
use sim_mdms_auto.Billing.Rows.{
  BillDeterminant, BillingContextSnapshot, TariffAssignmentSnapshot, DeterminantSnapshot,
  Provenance, ChargeDetails, BillCharge, determinant_id, charge_id,
}
use sim_mdms_auto.Billing.Store.{
  BillingDb, BillingScope, Trigger, Filters, filter_id, filter_from, filter_to, text_or,
  CalculationSummary, summarize, CalculationResult,
}
use sim_mdms_auto.Billing.Money.{Rate, RateInput, normalize_rate, charge_amount_of}
use sim_mdms_auto.Billing.Determinants.{same_status, move_watermark}
use sim_mdms_auto.Billing.DeterminantPayloads.{billing_cycle_consumption_total}
use sim_mdms_auto.Billing.ChargePayloads.{
  ChargePayload, build_bill_charge_payload, flat_energy_charge, is_supported_charge_type,
  load_source_bill_determinants,
}

abbrev pub charge_scope : Text → BillDeterminant → BillingScope
charge_scope type d = record {
  service_point_id = d.service_point_id;
  measuring_component_id = d.measuring_component_id;
  type_code = type;
  period_start_at = d.billing_period_start_at;
  period_end_at = d.billing_period_end_at;
}

-- the filter of `_find_current_bill_charge`
unfoldable pub is_current_charge : BillingScope → BillCharge → Bool
is_current_charge s c =
    c.service_point_id == s.service_point_id
    && opt_eq c.measuring_component_id s.measuring_component_id
    && text_eq c.charge_type s.type_code
    && c.billing_period_start_at == s.period_start_at
    && c.billing_period_end_at == s.period_end_at
    && c.is_current

abbrev pub opt_eq_ℤ : Option ℤ → Option ℤ → Bool
opt_eq_ℤ none none = true
opt_eq_ℤ none (some _) = false
opt_eq_ℤ (some _) none = false
opt_eq_ℤ (some a) (some b) = eqb_ℤ a b

unfoldable pub same_charge_snapshot : BillDeterminant → ChargePayload → BillCharge → Bool
same_charge_snapshot d p c =
    opt_eq c.device_id d.device_id
    && c.bill_determinant_id == d.id
    && opt_text_eq c.currency_code p.currency_code
    && opt_text_eq c.tariff_plan_code p.tariff_plan_code
    && opt_text_eq c.tariff_version_code p.tariff_version_code
    && eqb_ℤ c.quantity_value p.quantity_value
    && opt_eq_ℤ c.unit_rate_value p.unit_rate_value
    && opt_eq_ℤ c.charge_amount p.charge_amount
    && same_status c.calculation_status p.calculation_status
    && text_eq c.quality_summary p.quality_summary

abbrev pub previous_charge_id : Option BillCharge → Option ℕ
previous_charge_id none = none
previous_charge_id (some c) = some c.id

abbrev pub next_charge_revision : Option BillCharge → ℕ
next_charge_revision none = 1
next_charge_revision (some c) = c.revision_number + 1

-- the first row of a scope keeps the reason as given
abbrev pub charge_reason : Trigger → Option BillCharge → Option Text
charge_reason t none = t.revision_reason_code
charge_reason t (some c) = some (text_or t.revision_reason_code (codes "re_charged"))

-- the arguments of `BillCharge(...)`
unfoldable pub new_charge :
    ℕ
    → PipelineRun
    → Text
    → Trigger
    → BillDeterminant
    → ChargePayload
    → ℕ
    → Option BillCharge
    → BillCharge
new_charge now run type t d p new_id previous = record {
  id = new_id;
  pipeline_run_id = run.id;
  service_point_id = d.service_point_id;
  measuring_component_id = d.measuring_component_id;
  device_id = d.device_id;
  bill_determinant_id = d.id;
  charge_type = type;
  billing_period_start_at = d.billing_period_start_at;
  billing_period_end_at = d.billing_period_end_at;
  currency_code = p.currency_code;
  tariff_plan_code = p.tariff_plan_code;
  tariff_version_code = p.tariff_version_code;
  quantity_value = p.quantity_value;
  unit_rate_value = p.unit_rate_value;
  charge_amount = p.charge_amount;
  calculation_status = p.calculation_status;
  quality_summary = p.quality_summary;
  revision_number = next_charge_revision previous;
  revision_reason_code = charge_reason t previous;
  is_current = true;
  supersedes_bill_charge_id = previous_charge_id previous;
  calculated_at = now;
  details = p.details;
}

abbrev pub retired_charge : Trigger → BillCharge → BillCharge
retired_charge t c = record c {
  is_current = false;
  revision_reason_code = some (text_or t.revision_reason_code (codes "re_charged"));
}

-- the loop of `calculate_bill_charges`
unfoldable pub charge_rules :
    ℕ
    → PipelineRun
    → Text
    → Option ℤ
    → Trigger
    → TariffTables
    → Revising BillDeterminant BillingScope ChargePayload BillCharge
unfolding build_bill_charge_payload is_current_charge same_charge_snapshot new_charge
charge_rules now run type rate t tables = record {
  key = charge_scope type;
  payload = build_bill_charge_payload tables rate t;
  status = λ p. p.calculation_status;
  current = is_current_charge;
  same = same_charge_snapshot;
  retire = retired_charge t;
  make = new_charge now run type t;
  period_end = λ d. d.billing_period_end_at;
}

unfoldable pub charge_result_code : CalculationSummary → Text
charge_result_code s =
    if s.groups == 0
    then codes "bill_charge_noop"
    else if ltb 0 s.blocked
    then codes "bill_charge_completed_with_blocked"
    else if ltb 0 s.partial
    then codes "bill_charge_completed_with_partial"
    else codes "bill_charge_completed"

-- after the loop: the watermark, and the end of the run
unfoldable pub end_charges :
    ℕ
    → PipelineRun
    → Text
    → ℕ
    → Progress BillCharge × Bool
    → BillingDb
    → BillingDb × CalculationResult
unfolding complete_pipeline_run fail_pipeline_run upsert_processing_watermark charge_result_code
end_charges now run type groups (p, true) db =
    let summary = summarize type groups p.tally in
    let moved =
      move_watermark PipelineName.bill_charge (codes "flat_energy_charge") p.tally.latest db.core in
    (
      record db {
        charges = p.rows;
        core = complete_pipeline_run now run (some (charge_result_code summary)) none moved;
      },
      CalculationResult.ok summary,
    )
end_charges now run type groups (p, false) db = (
  record db {
    charges = p.rows;
    core = fail_pipeline_run now run (some (codes "bill_charge_failed_exception")) none db.core;
  },
  CalculationResult.failed_exception,
)

-- the run, for a supported type and a rate that could be read
unfoldable pub run_charges :
    ℕ → Text → Option ℤ → Filters → Trigger → BillingDb → BillingDb × CalculationResult
unfolding load_source_bill_determinants charge_rules revise_all end_charges start_pipeline_run
run_charges now type rate f t db =
    let rows = load_source_bill_determinants f db.determinants in
    let (core, run) =
      start_pipeline_run now PipelineName.bill_charge t.trigger_type no_links db.core in
    end_charges now run type (length rows)
      (revise_all (charge_rules now run type rate t db.tariffs) db.charges rows
        (record { rows = db.charges; tally = no_rows }))
      (record db { core = core })

abbrev pub run_rated :
    ℕ → Text → Rate → Filters → Trigger → BillingDb → BillingDb × CalculationResult
run_rated now type Rate.invalid f t db = (db, CalculationResult.invalid_rate)
run_rated now type (Rate.normalized rate) f t db = run_charges now type rate f t db

unfoldable pub calculate_bill_charges :
    ℕ → Text → RateInput → Filters → Trigger → BillingDb → BillingDb × CalculationResult
unfolding run_charges normalize_rate
calculate_bill_charges now type rate f t db =
    if is_supported_charge_type type
    then run_rated now type (normalize_rate rate) f t db
    else (db, CalculationResult.unsupported_type)
