-- ===== src/Billing/DeterminantPayloads.antt =====
-- app/services/bill_determinants.py: the source rows of determinants, billing contexts, and the
-- payload of a determinant.
use sim_mdms_auto.Prelude.{
  ℕ, Bool, true, false, not, ◌&&◌, ◌||◌, Option, none, some, ℤ, List, [], ◌∷◌, Text, codes, text_eq,
  ◌==◌, ltb, leb, if◌then◌else◌, order_by, select, scalar, by_id,
}
use sim_mdms_auto.TariffAssignments.{before_end}
use sim_mdms_auto.Billing.Revisions.{CalculationStatus}
use sim_mdms_auto.Billing.Rows.{
  UsageTransaction, BillingCycleMode, ServicePointBillingContext, BillingContextSnapshot,
  DeterminantDetails, usage_id, context_id, determinant_id,
}
use sim_mdms_auto.Billing.Store.{Trigger, Filters, filter_id, filter_from, filter_to, text_or}

abbrev pub billing_cycle_consumption_total : Text
billing_cycle_consumption_total = codes "billing_cycle_consumption_total"

abbrev pub is_supported_determinant_type : Text → Bool
is_supported_determinant_type type = text_eq type billing_cycle_consumption_total

-- `_DETERMINANT_SOURCE_USAGE_TYPE[determinant_type]`, of a supported type
abbrev pub source_usage_type : Text
source_usage_type = codes "monthly_consumption"

-- the source rows that the filters leave
abbrev pub is_source_usage : Filters → UsageTransaction → Bool
is_source_usage f r =
    text_eq r.usage_type source_usage_type
    && filter_id f.service_point_id (some r.service_point_id)
    && filter_id f.measuring_component_id (some r.measuring_component_id)
    && filter_from f.date_from r.period_start_at
    && filter_to f.date_to r.period_end_at

unfoldable pub load_source_usage_transactions :
    Filters → List UsageTransaction → List UsageTransaction
load_source_usage_transactions f rows = order_by by_id (select (is_source_usage f) rows)

-- the context is in force when the usage period begins
abbrev pub context_covers : UsageTransaction → ServicePointBillingContext → Bool
context_covers r c =
    c.service_point_id == r.service_point_id
    && leb c.effective_from r.period_start_at
    && before_end r.period_start_at c.effective_to

-- ORDER BY is_current DESC, effective_from DESC, id DESC
abbrev pub context_before : ServicePointBillingContext → ServicePointBillingContext → Bool
context_before a b =
    if a.is_current && not b.is_current
    then true
    else if not a.is_current && b.is_current
    then false
    else ltb b.effective_from a.effective_from
      || (a.effective_from == b.effective_from && ltb b.id a.id)

unfoldable pub find_billing_context :
    UsageTransaction → List ServicePointBillingContext → Option ServicePointBillingContext
find_billing_context r contexts = scalar context_before (context_covers r) contexts

pub record DeterminantPayload : Type 0 where
  pub window_timezone_name : Text
  pub unit_of_measure : Text
  pub determinant_value : ℤ
  pub source_usage_count : ℕ
  pub quality_summary : Text
  pub calculation_status : CalculationStatus
  pub details : DeterminantDetails

-- what the billing context makes of the row: status, quality, time zone and source of the period
pub record PeriodJudgement : Type 0 where
  pub calculation_status : CalculationStatus
  pub quality_summary : Text
  pub window_timezone_name : Text
  pub billing_period_source : Text

abbrev pub blocked_period : UsageTransaction → Text → PeriodJudgement
blocked_period r reason = record {
  calculation_status = CalculationStatus.blocked;
  quality_summary = reason;
  window_timezone_name = r.window_timezone_name;
  billing_period_source = reason;
}

abbrev pub judge_mode :
    UsageTransaction → ServicePointBillingContext → BillingCycleMode → PeriodJudgement
judge_mode r c BillingCycleMode.calendar_month = record {
  calculation_status = r.calculation_status;
  quality_summary = r.quality_summary;
  window_timezone_name = c.timezone_name;
  billing_period_source = codes "billing_context_calendar_month";
}
judge_mode r c BillingCycleMode.anchored_month =
    blocked_period r (codes "blocked_unsupported_billing_cycle_mode")
judge_mode r c (BillingCycleMode.other_mode m) =
    blocked_period r (codes "blocked_unknown_billing_cycle_mode")

unfoldable pub judge_period : UsageTransaction → Option ServicePointBillingContext → PeriodJudgement
judge_period r none = blocked_period r (codes "blocked_missing_billing_context")
judge_period r (some c) = judge_mode r c c.billing_cycle_mode

abbrev pub context_snapshot : Option ServicePointBillingContext → Option BillingContextSnapshot
context_snapshot none = none
context_snapshot (some c) = some (record {
  billing_context_id = c.id;
  timezone_name = c.timezone_name;
  billing_cycle_mode = c.billing_cycle_mode;
  billing_cycle_anchor_day = c.billing_cycle_anchor_day;
  currency_code = c.currency_code;
  effective_from = c.effective_from;
  effective_to = c.effective_to;
})

unfoldable pub build_bill_determinant_payload :
    Trigger → UsageTransaction → Option ServicePointBillingContext → DeterminantPayload
unfolding judge_period
build_bill_determinant_payload t r context =
    let period = judge_period r context in
    record {
      window_timezone_name = period.window_timezone_name;
      unit_of_measure = text_or r.unit_of_measure (codes "UNKNOWN");
      determinant_value = r.usage_value;
      source_usage_count = 1;
      quality_summary = period.quality_summary;
      calculation_status = period.calculation_status;
      details = record {
        billing_period_source = period.billing_period_source;
        source_usage_type = r.usage_type;
        source_usage_calculation_status = r.calculation_status;
        source_usage_quality_summary = r.quality_summary;
        billing_context_snapshot = context_snapshot context;
        provenance = record {
          trigger_type = t.trigger_type;
          trigger_source = text_or t.trigger_source (codes "bill_determinant_calculation");
          source_ids = r.id ∷ [];
        };
      };
    }
