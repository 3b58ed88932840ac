-- ===== src/Billing/Store.antt =====
-- The session as app/services/bill_determinants.py and app/services/bill_charges.py use it, and what
-- the two calculations share: scopes, filters, summaries and results.
use sim_mdms_auto.Prelude.{
  ℕ, Bool, true, ◌&&◌, Option, none, some, List, Text, text_eq, ◌==◌, leb, opt_eq, if◌then◌else◌,
  non_empty, count, ◌≤◌,
}
use sim_mdms_auto.Store.{Db}
use sim_mdms_auto.TariffAssignments.{TariffTables}
use sim_mdms_auto.Billing.Revisions.{Tally}
use sim_mdms_auto.Billing.Rows.{
  HesSystem, UsageTransaction, ServicePointBillingContext, BillDeterminant, BillCharge,
}

pub record BillingDb : Type 0 where
  pub core : Db
  pub hes_systems : List HesSystem
  pub tariffs : TariffTables
  pub billing_contexts : List ServicePointBillingContext
  pub usages : List UsageTransaction
  pub determinants : List BillDeterminant
  pub charges : List BillCharge

-- what identifies the current row of a billing period
pub record BillingScope : Type 0 where
  pub service_point_id : ℕ
  pub measuring_component_id : Option ℕ
  pub type_code : Text
  pub period_start_at : ℕ
  pub period_end_at : ℕ

-- the arguments of a calculation that stand for its trigger
pub record Trigger : Type 0 where
  pub trigger_type : Text
  pub revision_reason_code : Option Text
  -- `details_context["trigger_source"]`
  pub trigger_source : Option Text

-- the optional filters of a calculation
pub record Filters : Type 0 where
  pub service_point_id : Option ℕ
  pub measuring_component_id : Option ℕ
  pub date_from : Option ℕ
  pub date_to : Option ℕ

-- a filter that is not given passes every row
abbrev pub filter_id : Option ℕ → Option ℕ → Bool
filter_id none value = true
filter_id (some n) value = opt_eq value (some n)

abbrev pub filter_from : Option ℕ → ℕ → Bool
filter_from none start = true
filter_from (some t) start = leb t start

abbrev pub filter_to : Option ℕ → ℕ → Bool
filter_to none end = true
filter_to (some t) end = leb end t

-- `revision_reason_code or default`
abbrev pub text_or : Option Text → Text → Text
text_or none d = d
text_or (some s) d = if non_empty s then s else d

pub record CalculationSummary : Type 0 where
  pub type_code : Text
  pub groups : ℕ
  pub created : ℕ
  pub superseded : ℕ
  pub reused : ℕ
  pub complete : ℕ
  pub partial : ℕ
  pub blocked : ℕ

abbrev pub summarize : Text → ℕ → Tally → CalculationSummary
summarize type groups t = record {
  type_code = type;
  groups = groups;
  created = t.created;
  superseded = t.superseded;
  reused = t.reused;
  complete = t.complete;
  partial = t.partial;
  blocked = t.blocked;
}

pub data CalculationResult : Type 0 where
  ok : CalculationSummary → CalculationResult
  -- `ValueError`
  unsupported_type : CalculationResult
  -- `InvalidOperation`, before a run is started
  invalid_rate : CalculationResult
  -- the exception that the loop raised, after the run is marked failed
  failed_exception : CalculationResult

-- the unique constraint `uq_usage_transaction_scope`
abbrev pub same_usage : UsageTransaction → UsageTransaction → Bool
same_usage r q =
    r.service_point_id == q.service_point_id
    && r.measuring_component_id == q.measuring_component_id
    && text_eq r.usage_type q.usage_type
    && r.period_start_at == q.period_start_at
    && r.period_end_at == q.period_end_at

abbrev pub HasUniqueUsage : List UsageTransaction → Type 0
HasUniqueUsage rows = (r : UsageTransaction) → count (same_usage r) rows ≤ 1
