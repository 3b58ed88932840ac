-- ===== src/Downstream.antt =====
-- app/services/downstream_recalculation.py: from a changed final measurement to usage, determinants and
-- charges.
pub mod Frame
pub mod Billed
use sim_mdms_auto.Prelude.{
  ℕ, ◌+◌, Bool, true, false, ◌&&◌, ◌||◌, not, Option, none, some, ℤ, List, [], ◌∷◌, ◌++◌, Text,
  codes, text_eq, ◌==◌, ltb, sql_eq, is_some, if◌then◌else◌, any, order_by, scalar,
}
use sim_mdms_auto.Model.{FinalMeasurement}
use sim_mdms_auto.Billing.Rows.{BillCharge, charge_id}
use sim_mdms_auto.Billing.Store.{BillingDb, Trigger, Filters, CalculationSummary, CalculationResult}
use sim_mdms_auto.Billing.Money.{abs, is_negative, RateInput}
use sim_mdms_auto.Billing.Determinants.{calculate_bill_determinants}
use sim_mdms_auto.Billing.DeterminantPayloads.{billing_cycle_consumption_total}
use sim_mdms_auto.Billing.Charges.{calculate_bill_charges}
use sim_mdms_auto.Billing.ChargePayloads.{flat_energy_charge}
use sim_mdms_auto.Usage.Windows.{Zones, UsageType}
use sim_mdms_auto.ProcessingReplay.Windows.{
  UsageRecalculationResult, UsageReplay, recalculate_impacted_usage_windows,
}

pub record MonthlyWindow : Type 0 where
  pub service_point_id : ℕ
  pub measuring_component_id : ℕ
  pub period_start_at : ℕ
  pub period_end_at : ℕ

-- the filter of `_find_current_flat_charge_rate`
unfoldable pub is_current_flat_charge : MonthlyWindow → BillCharge → Bool
is_current_flat_charge w c =
    c.service_point_id == w.service_point_id
    && sql_eq c.measuring_component_id w.measuring_component_id
    && text_eq c.charge_type flat_energy_charge
    && c.billing_period_start_at == w.period_start_at
    && c.billing_period_end_at == w.period_end_at
    && c.is_current

abbrev pub rate_of_charge : Option BillCharge → Option ℤ
rate_of_charge none = none
rate_of_charge (some c) = c.unit_rate_value

unfoldable pub find_current_flat_charge_rate : MonthlyWindow → List BillCharge → Option ℤ
unfolding is_current_flat_charge
find_current_flat_charge_rate w charges =
    rate_of_charge (scalar (λ _ _. false) (is_current_flat_charge w) charges)

-- the rate's column is Numeric(19, 8): a row keeps it as a coefficient of the eighth place, and the call
-- gets the `Decimal` with eight places that the column reads as
abbrev pub stored_rate : Option ℤ → RateInput
stored_rate none = RateInput.absent
stored_rate (some r) =
    RateInput.decimal (record { negative = is_negative r; coefficient = abs r; places = 8 })

abbrev pub is_monthly : UsageType → Bool
is_monthly UsageType.monthly = true
is_monthly UsageType.daily = false

abbrev pub is_month_result : UsageRecalculationResult → Bool
is_month_result r =
    is_monthly r.usage_type
    && (is_some r.current_usage_transaction_id || is_some r.previous_usage_transaction_id)

abbrev same_month : MonthlyWindow → MonthlyWindow → Bool
same_month a b =
    a.service_point_id == b.service_point_id
    && a.measuring_component_id == b.measuring_component_id
    && a.period_start_at == b.period_start_at
    && a.period_end_at == b.period_end_at

abbrev month_before : MonthlyWindow → MonthlyWindow → Bool
month_before a b =
    ltb a.service_point_id b.service_point_id
    || (a.service_point_id == b.service_point_id
        && (ltb a.measuring_component_id b.measuring_component_id
            || (a.measuring_component_id == b.measuring_component_id
                && (ltb a.period_start_at b.period_start_at
                    || (a.period_start_at == b.period_start_at
                        && ltb a.period_end_at b.period_end_at)))))

abbrev month_of : UsageRecalculationResult → MonthlyWindow
month_of r = record {
  service_point_id = r.service_point_id;
  measuring_component_id = r.measuring_component_id;
  period_start_at = r.period_start_at;
  period_end_at = r.period_end_at;
}

abbrev add_month : UsageRecalculationResult → List MonthlyWindow → List MonthlyWindow
add_month r ws =
    if is_month_result r && not (any (same_month (month_of r)) ws)
    then ws ++ month_of r ∷ []
    else ws

-- the set of months with a usage row, before or after
unfoldable pub collect_months :
    List UsageRecalculationResult → List MonthlyWindow → List MonthlyWindow
collect_months [] ws = ws
collect_months (r ∷ rs) ws = collect_months rs (add_month r ws)

unfoldable pub monthly_windows : List UsageRecalculationResult → List MonthlyWindow
unfolding collect_months
monthly_windows rs = order_by month_before (collect_months rs [])

abbrev pub month_filters : MonthlyWindow → Filters
month_filters w = record {
  service_point_id = some w.service_point_id;
  measuring_component_id = some w.measuring_component_id;
  date_from = some w.period_start_at;
  date_to = some w.period_end_at;
}

-- the first summary, or the sum
unfoldable pub add_summary : Option CalculationSummary → CalculationSummary → CalculationSummary
add_summary none r = r
add_summary (some s) r = record {
  type_code = s.type_code;
  groups = s.groups + r.groups;
  created = s.created + r.created;
  superseded = s.superseded + r.superseded;
  reused = s.reused + r.reused;
  complete = s.complete + r.complete;
  partial = s.partial + r.partial;
  blocked = s.blocked + r.blocked;
}

pub record Artifacts : Type 0 where
  pub db : BillingDb
  pub determinant_summary : Option CalculationSummary
  pub charge_summary : Option CalculationSummary

abbrev pub after_charges :
    Artifacts → CalculationSummary → BillingDb × CalculationResult → Option Artifacts
after_charges a d (db, CalculationResult.ok c) = some (record {
  db = db;
  determinant_summary = some (add_summary a.determinant_summary d);
  charge_summary = some (add_summary a.charge_summary c);
})
after_charges a d _ = none

abbrev pub after_determinants :
    ℕ
    → Option ℤ
    → MonthlyWindow
    → Trigger
    → Artifacts
    → BillingDb × CalculationResult
    → Option Artifacts
after_determinants now rate w t a (db, CalculationResult.ok d) =
    after_charges a d
      (calculate_bill_charges now flat_energy_charge (stored_rate rate) (month_filters w) t db)
after_determinants now rate w t a _ = none

-- the rate is read before the month is billed again; none where a calculation raises
unfoldable pub recalculate_month : ℕ → Trigger → MonthlyWindow → Artifacts → Option Artifacts
unfolding find_current_flat_charge_rate calculate_bill_determinants calculate_bill_charges
    add_summary
recalculate_month now t w a =
    after_determinants now (find_current_flat_charge_rate w a.db.charges) w t a
      (calculate_bill_determinants now billing_cycle_consumption_total (month_filters w) t a.db)

unfoldable pub recalculate_months : ℕ → Trigger → List MonthlyWindow → Artifacts → Option Artifacts
unfolding recalculate_month
recalculate_months now t [] a = some a
recalculate_months now t (w ∷ ws) a = elim (recalculate_month now t w a) [
  | none ↦ none
  | some a' ↦ recalculate_months now t ws a'
]

abbrev pub with_usage : UsageReplay → Option Artifacts → Option (UsageReplay × Artifacts)
with_usage u none = none
with_usage u (some a) = some (u, a)

abbrev pub after_usage_windows : ℕ → Trigger → Option UsageReplay → Option (UsageReplay × Artifacts)
after_usage_windows now t none = none
after_usage_windows now t (some u) = with_usage u (
    recalculate_months now t (monthly_windows u.results)
      (record { db = u.db; determinant_summary = none; charge_summary = none }))

unfoldable pub recalculate_downstream_artifacts :
    Zones
    → ℕ
    → Option FinalMeasurement
    → FinalMeasurement
    → Trigger
    → BillingDb
    → Option (UsageReplay × Artifacts)
unfolding recalculate_impacted_usage_windows monthly_windows recalculate_months
recalculate_downstream_artifacts zones now previous current t db =
    after_usage_windows now t
      (recalculate_impacted_usage_windows zones now previous (some current) t.trigger_type db)
