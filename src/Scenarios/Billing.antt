-- ===== src/Scenarios/Billing.antt =====
-- Runs of app/services/bill_determinants.py and app/services/bill_charges.py.
use sim_mdms_auto.Prelude.{
  ◌^◌, ℕ, true, false, none, some, [], ◌∷◌, codes, ◌≡◌, refl, arith, All, pos, length, text_eq,
  text_eq_refl, order_by, insert_by, select, scalar, first_by, ◌+◌, ◌*◌, ◌<◌, ◌≤◌,
}
use sim_mdms_auto.TariffAssignments.{
  ServicePointTariffAssignment, find_applicable_tariff_assignment, covers,
}
use sim_mdms_auto.Scenarios.Data.{store}
use sim_mdms_auto.Billing.Revisions.{CalculationStatus}
use sim_mdms_auto.Billing.Rows.{
  UsageTransaction, ServicePointBillingContext, BillingCycleMode, BillDeterminant, usage_id,
  determinant_id, charge_id,
}
use sim_mdms_auto.Billing.Store.{
  BillingDb, HasUniqueUsage, Trigger, Filters, CalculationSummary, CalculationResult,
}
use sim_mdms_auto.Billing.Laws.{IsRevised}
use sim_mdms_auto.Billing.Money.{
  Decimal, RateInput, Rate, normalize_rate, quantize_up, charge_amount_of, signed, differ,
  is_negative, multiply, quantize_down,
}
use sim_mdms_auto.Billing.Money.Bounds.{charge_amount_of_bounds, normalize_rate_bounds}
use sim_mdms_auto.Billing.Determinants.{is_current_determinant, calculate_bill_determinants}
use sim_mdms_auto.Billing.DeterminantPayloads.{
  billing_cycle_consumption_total, source_usage_type, load_source_usage_transactions,
}
use sim_mdms_auto.Billing.Determinants.Calculations.{
  calculate_bill_determinants-IsRevised, calculate_bill_determinants-IsBalanced,
  calculate_bill_determinants_again, IsBalanced, ReusesAll,
}
use sim_mdms_auto.Billing.Charges.{is_current_charge, calculate_bill_charges}
use sim_mdms_auto.Billing.ChargePayloads.{
  flat_energy_charge, load_source_bill_determinants, build_bill_charge_payload, ChargePayload,
  tariff_snapshot, determinant_snapshot, price,
}
use sim_mdms_auto.Billing.Charges.Amounts.{Prices, is_chargeable, build_bill_charge_payload_lem}
use sim_mdms_auto.Billing.Charges.Runs.{IsExact}
use sim_mdms_auto.Billing.Charges.Calculations
use sim_mdms_auto.Billing.Charges.Calculations.{
  calculate_bill_charges-IsRevised, calculate_bill_charges-IsBalanced, calculate_bill_charges_again,
}

abbrev june_usage : UsageTransaction
june_usage = record {
  id = 4;
  pipeline_run_id = 1;
  service_point_id = 1;
  measuring_component_id = 7;
  device_id = 3;
  usage_type = source_usage_type;
  period_start_at = 100;
  period_end_at = 200;
  window_timezone_name = codes "UTC";
  interval_size_minutes = some 60;
  unit_of_measure = some (codes "kWh");
  usage_value = pos 123_4567;
  source_final_count = 720;
  missing_interval_count = 0;
  quality_summary = codes "all_finalized";
  calculation_status = CalculationStatus.complete;
  calculated_at = 210;
}

abbrev context : ServicePointBillingContext
context = record {
  id = 1;
  service_point_id = 1;
  timezone_name = codes "Asia/Seoul";
  billing_cycle_mode = BillingCycleMode.calendar_month;
  billing_cycle_anchor_day = none;
  currency_code = some (codes "KRW");
  effective_from = 50;
  effective_to = none;
  is_current = true;
  source_system = codes "manual";
  source_reference = none;
  created_by_user_account_id = none;
  updated_by_user_account_id = none;
}

-- a determinant of the same period, of an earlier and smaller usage
abbrev stale_determinant : BillDeterminant
stale_determinant = record {
  id = 5;
  pipeline_run_id = 1;
  service_point_id = 1;
  measuring_component_id = some 7;
  device_id = some 3;
  determinant_type = billing_cycle_consumption_total;
  billing_period_start_at = 100;
  billing_period_end_at = 200;
  window_timezone_name = codes "Asia/Seoul";
  tariff_plan_code = none;
  tou_bucket_code = none;
  demand_window_code = none;
  unit_of_measure = codes "kWh";
  determinant_value = pos 100_0000;
  source_usage_count = 1;
  quality_summary = codes "all_finalized";
  calculation_status = CalculationStatus.complete;
  revision_number = 1;
  revision_reason_code = none;
  is_current = true;
  supersedes_bill_determinant_id = none;
  calculated_at = 205;
  details = record {
    billing_period_source = codes "billing_context_calendar_month";
    source_usage_type = source_usage_type;
    source_usage_calculation_status = CalculationStatus.complete;
    source_usage_quality_summary = codes "all_finalized";
    billing_context_snapshot = some (record {
      billing_context_id = 1;
      timezone_name = codes "Asia/Seoul";
      billing_cycle_mode = BillingCycleMode.calendar_month;
      billing_cycle_anchor_day = none;
      currency_code = some (codes "KRW");
      effective_from = 50;
      effective_to = none;
    });
    provenance = record {
      trigger_type = codes "manual";
      trigger_source = codes "bill_determinant_calculation";
      source_ids = 4 ∷ [];
    };
  };
}

abbrev tariff : ServicePointTariffAssignment
tariff = record {
  id = 1;
  service_point_id = 1;
  tariff_plan_code = codes "BASE";
  tariff_version_code = none;
  effective_from = 10;
  effective_to = none;
  is_current = true;
  source_system = codes "manual";
  source_reference = none;
  created_by_user_account_id = none;
  updated_by_user_account_id = none;
}

abbrev pub billing_store : BillingDb
billing_store = record {
  core = store;
  hes_systems = [];
  tariffs = record { service_points = record { id = 1 } ∷ []; assignments = tariff ∷ [] };
  billing_contexts = context ∷ [];
  usages = june_usage ∷ [];
  determinants = stale_determinant ∷ [];
  charges = [];
}

abbrev pub no_filters : Filters
no_filters = record {
  service_point_id = none;
  measuring_component_id = none;
  date_from = none;
  date_to = none;
}

abbrev pub manual : Trigger
manual = record {
  trigger_type = codes "manual";
  revision_reason_code = none;
  trigger_source = none;
}

-- 150.5
abbrev rate_input : RateInput
rate_input = RateInput.decimal (record { negative = false; coefficient = 1505; places = 1 })

supported_determinant :
    text_eq billing_cycle_consumption_total billing_cycle_consumption_total ≡ true
supported_determinant = text_eq_refl billing_cycle_consumption_total

supported_charge : text_eq flat_energy_charge flat_energy_charge ≡ true
supported_charge = text_eq_refl flat_energy_charge

usages-HasUniqueUsage : HasUniqueUsage billing_store.usages
usages-HasUniqueUsage r = ground arith

pub determinants-IsRevised : IsRevised is_current_determinant billing_store.determinants
determinants-IsRevised = record { ids = λ n. ground arith; one_current = λ s. ground arith }

pub charges-IsRevised : IsRevised is_current_charge billing_store.charges
charges-IsRevised = record { ids = λ n. omega arith; one_current = λ s. omega arith }

rate_normalized : normalize_rate rate_input ≡ Rate.normalized (some (pos 15_050_000_000))
unfolding normalize_rate quantize_up
rate_normalized = refl

-- 2.5 at 0.00005 is 0.000125, and a tie rounds up
amount_tie : charge_amount_of (pos 25000) (pos 5000) ≡ some (pos 1)
unfolding charge_amount_of multiply quantize_down
amount_tie = refl

charge_amount_of_bounds_example :
    (n : ℕ) × (charge_amount_of (pos 25_000) (pos 6_000)
      ≡ some (signed (differ (is_negative (pos 25_000)) (is_negative (pos 6_000))) n))
    × (n * 100_000_000 ≤ 25_000 * 6_000 + 50_000_000)
    × (25_000 * 6_000 < n * 100_000_000 + 50_000_000)
charge_amount_of_bounds_example = charge_amount_of_bounds (pos 25_000) (pos 6_000) (omega arith)

calculate_bill_determinants-IsRevised_example :
    IsRevised is_current_determinant
      (calculate_bill_determinants 300 billing_cycle_consumption_total no_filters manual
        billing_store).0.determinants
calculate_bill_determinants-IsRevised_example =
    calculate_bill_determinants-IsRevised 300 billing_cycle_consumption_total no_filters manual
      billing_store usages-HasUniqueUsage determinants-IsRevised

calculate_bill_determinants-IsBalanced_example :
    (s : CalculationSummary) × ((calculate_bill_determinants 300 billing_cycle_consumption_total
        no_filters manual billing_store).1
      ≡ CalculationResult.ok s)
    × IsBalanced (length (load_source_usage_transactions no_filters billing_store.usages)) s
calculate_bill_determinants-IsBalanced_example =
    calculate_bill_determinants-IsBalanced 300 billing_cycle_consumption_total no_filters manual
      billing_store supported_determinant

calculate_bill_determinants_again_example :
    let db' =
      (calculate_bill_determinants 300 billing_cycle_consumption_total no_filters manual
        billing_store).0 in
    ReusesAll db'.determinants
      (calculate_bill_determinants 400 billing_cycle_consumption_total no_filters manual db')
calculate_bill_determinants_again_example =
    calculate_bill_determinants_again 300 400 billing_cycle_consumption_total no_filters manual
      manual billing_store supported_determinant usages-HasUniqueUsage determinants-IsRevised

sources-IsExact :
    All
      (IsExact (some (pos 15_050_000_000)))
      (load_source_bill_determinants no_filters billing_store.determinants)
unfolding load_source_bill_determinants order_by insert_by select text_eq
sources-IsExact = (omega arith, tt)

calculate_bill_charges-IsRevised_example :
    IsRevised is_current_charge
      (calculate_bill_charges 300 flat_energy_charge rate_input no_filters manual
        billing_store).0.charges
calculate_bill_charges-IsRevised_example =
    calculate_bill_charges-IsRevised 300 flat_energy_charge rate_input no_filters manual
      billing_store determinants-IsRevised (refl, tt) charges-IsRevised

calculate_bill_charges-IsBalanced_example :
    (s : CalculationSummary) × ((calculate_bill_charges 300 flat_energy_charge rate_input no_filters
        manual billing_store).1
      ≡ CalculationResult.ok s)
    × IsBalanced (length (load_source_bill_determinants no_filters billing_store.determinants)) s
calculate_bill_charges-IsBalanced_example =
    calculate_bill_charges-IsBalanced 300 flat_energy_charge rate_input (some (pos 15_050_000_000))
      no_filters manual billing_store supported_charge rate_normalized sources-IsExact

calculate_bill_charges_again_example :
    let db' =
      (calculate_bill_charges 300 flat_energy_charge rate_input no_filters manual
        billing_store).0 in
    Calculations.ReusesAll db'.charges
      (calculate_bill_charges 400 flat_energy_charge rate_input no_filters manual db')
calculate_bill_charges_again_example =
    calculate_bill_charges_again 300 400 flat_energy_charge rate_input (some (pos 15_050_000_000))
      no_filters manual manual billing_store supported_charge rate_normalized determinants-IsRevised
      (refl, tt) charges-IsRevised sources-IsExact

abbrev june_payload : ChargePayload
june_payload = record {
  currency_code = some (codes "KRW");
  tariff_plan_code = some (codes "BASE");
  tariff_version_code = none;
  quantity_value = pos 100_0000;
  unit_rate_value = some (pos 15_050_000_000);
  charge_amount = some (pos 150_500_000);
  calculation_status = CalculationStatus.complete;
  quality_summary = codes "all_finalized";
  details = record {
    billing_context_snapshot = stale_determinant.details.billing_context_snapshot;
    billing_period_source = codes "billing_context_calendar_month";
    tariff_assignment_snapshot = tariff_snapshot (some tariff);
    source_bill_determinant_snapshot = determinant_snapshot stale_determinant;
    provenance = record {
      trigger_type = codes "manual";
      trigger_source = codes "bill_charge_calculation";
      source_ids = 5 ∷ [];
    };
  };
}

-- 100 kWh at 150.5 cost 15050
june_payload_built :
    build_bill_charge_payload billing_store.tariffs
      (some (pos 15_050_000_000))
      manual
      stale_determinant
    ≡ some june_payload
unfolding build_bill_charge_payload price find_applicable_tariff_assignment scalar first_by select
    covers charge_amount_of multiply quantize_down
june_payload_built = refl

build_bill_charge_payload_lem_example :
    Prices stale_determinant
      (some (pos 15_050_000_000))
      (is_chargeable stale_determinant
        (find_applicable_tariff_assignment 1 100 billing_store.tariffs)
        (some (pos 15_050_000_000))
        (some (codes "KRW")))
      june_payload.charge_amount
      june_payload.calculation_status
build_bill_charge_payload_lem_example =
    build_bill_charge_payload_lem billing_store.tariffs (some (pos 15_050_000_000)) manual
      stale_determinant june_payload june_payload_built

-- half of the eighth place, which is rounded away from zero
abbrev fine_rate : Decimal
fine_rate = record { negative = true; coefficient = 1_234_567_895; places = 9 }

normalize_rate_bounds_example :
    (n : ℕ) × (normalize_rate (RateInput.decimal fine_rate)
      ≡ Rate.normalized (some (signed true n)))
    × (2 * (n * 10 ^ 1) ≤ 2 * (1_234_567_895 * 10 ^ 0) + 10 ^ 1)
    × (2 * (1_234_567_895 * 10 ^ 0) < 2 * (n * 10 ^ 1) + 10 ^ 1)
normalize_rate_bounds_example = normalize_rate_bounds fine_rate (omega arith)
