-- ===== src/Billing/ChargePayloads.antt =====
-- app/services/bill_charges.py: the source rows of charges, and the payload of a charge.
use sim_mdms_auto.Prelude.{
  Bool, ◌&&◌, Option, none, some, ℤ, List, [], ◌∷◌, Text, codes, text_eq, if◌then◌else◌, order_by,
  select, by_id, non_empty,
}
use sim_mdms_auto.TariffAssignments.{
  ServicePointTariffAssignment, TariffTables, find_applicable_tariff_assignment,
}
use sim_mdms_auto.Billing.Revisions.{CalculationStatus}
use sim_mdms_auto.Billing.Rows.{
  BillDeterminant, BillingContextSnapshot, TariffAssignmentSnapshot, DeterminantSnapshot,
  ChargeDetails, determinant_id, charge_id,
}
use sim_mdms_auto.Billing.Store.{Trigger, Filters, filter_id, filter_from, filter_to, text_or}
use sim_mdms_auto.Billing.Money.{charge_amount_of}
use sim_mdms_auto.Billing.Determinants.{same_status}
use sim_mdms_auto.Billing.DeterminantPayloads.{billing_cycle_consumption_total}

abbrev pub flat_energy_charge : Text
flat_energy_charge = codes "flat_energy_charge"

abbrev pub is_supported_charge_type : Text → Bool
is_supported_charge_type type = text_eq type flat_energy_charge

-- the source rows that the filters leave
abbrev pub is_source_determinant : Filters → BillDeterminant → Bool
is_source_determinant f d =
    text_eq d.determinant_type billing_cycle_consumption_total
    && d.is_current
    && filter_id f.service_point_id (some d.service_point_id)
    && filter_id f.measuring_component_id d.measuring_component_id
    && filter_from f.date_from d.billing_period_start_at
    && filter_to f.date_to d.billing_period_end_at

unfoldable pub load_source_bill_determinants : Filters → List BillDeterminant → List BillDeterminant
load_source_bill_determinants f rows = order_by by_id (select (is_source_determinant f) rows)

pub record ChargePayload : Type 0 where
  pub currency_code : Option Text
  pub tariff_plan_code : Option Text
  pub tariff_version_code : Option Text
  pub quantity_value : ℤ
  pub unit_rate_value : Option ℤ
  pub charge_amount : Option ℤ
  pub calculation_status : CalculationStatus
  pub quality_summary : Text
  pub details : ChargeDetails

-- `raw_currency`, where it is not empty
abbrev pub present : Option Text → Option Text
present none = none
present (some s) = if non_empty s then some s else none

abbrev pub snapshot_currency : Option BillingContextSnapshot → Option Text
snapshot_currency none = none
snapshot_currency (some c) = present c.currency_code

abbrev pub tariff_snapshot : Option ServicePointTariffAssignment → Option TariffAssignmentSnapshot
tariff_snapshot none = none
tariff_snapshot (some a) = some (record {
  tariff_assignment_id = a.id;
  tariff_plan_code = a.tariff_plan_code;
  tariff_version_code = a.tariff_version_code;
  effective_from = a.effective_from;
  effective_to = a.effective_to;
  source_system = a.source_system;
  source_reference = a.source_reference;
})

abbrev pub determinant_snapshot : BillDeterminant → DeterminantSnapshot
determinant_snapshot d = record {
  bill_determinant_id = d.id;
  determinant_type = d.determinant_type;
  billing_period_start_at = d.billing_period_start_at;
  billing_period_end_at = d.billing_period_end_at;
  unit_of_measure = d.unit_of_measure;
  determinant_value = d.determinant_value;
  calculation_status = d.calculation_status;
  quality_summary = d.quality_summary;
  revision_number = d.revision_number;
}

abbrev pub plan_code : Option ServicePointTariffAssignment → Option Text
plan_code none = none
plan_code (some a) = some a.tariff_plan_code

abbrev pub version_code : Option ServicePointTariffAssignment → Option Text
version_code none = none
version_code (some a) = a.tariff_version_code

-- status, quality and amount of a charge
pub record Pricing : Type 0 where
  pub calculation_status : CalculationStatus
  pub quality_summary : Text
  pub charge_amount : Option ℤ

abbrev pub blocked_charge : Text → Option Pricing
blocked_charge reason = some (record {
  calculation_status = CalculationStatus.blocked;
  quality_summary = reason;
  charge_amount = none;
})

abbrev pub priced : BillDeterminant → Option ℤ → Option Pricing
priced d none = none
priced d (some amount) = some (record {
  calculation_status = d.calculation_status;
  quality_summary = d.quality_summary;
  charge_amount = some amount;
})

abbrev pub price_rated :
    BillDeterminant → Option ServicePointTariffAssignment → Option ℤ → Option Text → Option Pricing
price_rated d none rate currency = blocked_charge (codes "blocked_missing_tariff_assignment")
price_rated d (some a) none currency = blocked_charge (codes "blocked_missing_tariff_rate")
price_rated d (some a) (some rate) none = blocked_charge (codes "blocked_missing_currency_code")
price_rated d (some a) (some rate) (some c) = priced d (charge_amount_of d.determinant_value rate)

-- the tests in the order of the code; none where the arithmetic raises
unfoldable pub price :
    BillDeterminant → Option ServicePointTariffAssignment → Option ℤ → Option Text → Option Pricing
unfolding charge_amount_of
price d tariff rate currency =
    if same_status d.calculation_status CalculationStatus.blocked
    then blocked_charge (codes "blocked_source_determinant")
    else price_rated d tariff rate currency

abbrev pub with_pricing :
    Trigger
    → BillDeterminant
    → Option ServicePointTariffAssignment
    → Option ℤ
    → Option Pricing
    → Option ChargePayload
with_pricing t d tariff rate none = none
with_pricing t d tariff rate (some p) = some (record {
  currency_code = snapshot_currency d.details.billing_context_snapshot;
  tariff_plan_code = plan_code tariff;
  tariff_version_code = version_code tariff;
  quantity_value = d.determinant_value;
  unit_rate_value = rate;
  charge_amount = p.charge_amount;
  calculation_status = p.calculation_status;
  quality_summary = p.quality_summary;
  details = record {
    billing_context_snapshot = d.details.billing_context_snapshot;
    billing_period_source = d.details.billing_period_source;
    tariff_assignment_snapshot = tariff_snapshot tariff;
    source_bill_determinant_snapshot = determinant_snapshot d;
    provenance = record {
      trigger_type = t.trigger_type;
      trigger_source = text_or t.trigger_source (codes "bill_charge_calculation");
      source_ids = d.id ∷ [];
    };
  };
})

unfoldable pub build_bill_charge_payload :
    TariffTables → Option ℤ → Trigger → BillDeterminant → Option ChargePayload
unfolding price find_applicable_tariff_assignment
build_bill_charge_payload tables rate t d =
    let tariff =
      find_applicable_tariff_assignment d.service_point_id d.billing_period_start_at tables in
    with_pricing t d tariff rate
      (price d tariff rate (snapshot_currency d.details.billing_context_snapshot))
