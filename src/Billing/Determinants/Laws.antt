-- ===== src/Billing/Determinants/Laws.antt =====
-- Lemmas on app/services/bill_determinants.py: the laws of its loop.
use sim_mdms_auto.Prelude.{
  ℕ, true, Option, some, none, List, Text, ◌&&◌, ◌≡◌, refl, ap, subst, arith, ==→eq, ==_refl,
  opt_eq, opt_eq→eq, text_eq, text_eq→eq, text_eq_refl, eqb_ℤ_refl, select, by_id, All-order_by,
  All-mono, select-All, Bool, is_none,
}
use sim_mdms_auto.Ops.Rows.{PipelineRun}
use sim_mdms_auto.Billing.Revisions.{CalculationStatus}
use sim_mdms_auto.Billing.Rows.{
  UsageTransaction, ServicePointBillingContext, BillDeterminant, usage_id, determinant_id,
}
use sim_mdms_auto.Billing.Store.{BillingScope, Trigger, Filters, same_usage, HasUniqueUsage}
use sim_mdms_auto.Billing.Laws.{IsRevising}
use sim_mdms_auto.Billing.Loop.{Distinct}
use sim_mdms_auto.Billing.Keys.{count-order_by, count-select-le, Distinct-count}
use sim_mdms_auto.Billing.Determinants.{
  determinant_scope, is_current_determinant, same_status, same_determinant_snapshot,
  new_determinant, determinant_rules,
}
use sim_mdms_auto.Billing.DeterminantPayloads.{
  DeterminantPayload, is_source_usage, load_source_usage_transactions, source_usage_type,
}

pub opt_eq_refl : (o : Option ℕ) → opt_eq o o ≡ true
opt_eq_refl none = refl
opt_eq_refl (some n) = ==_refl n

pub same_status_refl : (c : CalculationStatus) → same_status c c ≡ true
same_status_refl CalculationStatus.complete = refl
same_status_refl CalculationStatus.partial = refl
same_status_refl CalculationStatus.blocked = refl

pub scope_path :
    (s t : BillingScope)
    → s.service_point_id ≡ t.service_point_id
    → s.measuring_component_id ≡ t.measuring_component_id
    → s.type_code ≡ t.type_code
    → s.period_start_at ≡ t.period_start_at
    → s.period_end_at ≡ t.period_end_at
    → s ≡ t
scope_path s t a b c d e = λ i. record {
  service_point_id = a i;
  measuring_component_id = b i;
  type_code = c i;
  period_start_at = d i;
  period_end_at = e i;
}

record IsOf (s : BillingScope) (d : BillDeterminant) : Type 0 where
  point : d.service_point_id ≡ s.service_point_id
  component : d.measuring_component_id ≡ s.measuring_component_id
  type : d.determinant_type ≡ s.type_code
  start : d.billing_period_start_at ≡ s.period_start_at
  end : d.billing_period_end_at ≡ s.period_end_at

current-IsOf :
    (s : BillingScope) (d : BillDeterminant) → is_current_determinant s d ≡ true → IsOf s d
unfolding is_current_determinant
current-IsOf s d h = record {
  point = ==→eq _ _ (ground arith);
  component = opt_eq→eq _ _ (ground arith);
  type = text_eq→eq _ _ (ground arith);
  start = ==→eq _ _ (ground arith);
  end = ==→eq _ _ (ground arith);
}

module _ (now : ℕ) (run : PipelineRun) (type : Text) (t : Trigger)
    (contexts : List ServicePointBillingContext) where
  new_determinant-current :
      (r : UsageTransaction) (p : DeterminantPayload) (n : ℕ) (o : Option BillDeterminant)
      → is_current_determinant (determinant_scope type r) (new_determinant now run type t r p n o)
        ≡ true
  unfolding is_current_determinant new_determinant
  new_determinant-current r p n o = ground (
    arith,
    ==_refl r.service_point_id,
    ==_refl r.measuring_component_id,
    text_eq_refl type,
    ==_refl r.period_start_at,
    ==_refl r.period_end_at,
  )

  new_determinant-same :
      (r : UsageTransaction) (p : DeterminantPayload) (n : ℕ) (o : Option BillDeterminant)
      → same_determinant_snapshot r p (new_determinant now run type t r p n o) ≡ true
  unfolding same_determinant_snapshot new_determinant
  new_determinant-same r p n o = ground (
    arith,
    ==_refl r.device_id,
    text_eq_refl p.window_timezone_name,
    text_eq_refl p.unit_of_measure,
    eqb_ℤ_refl p.determinant_value,
    ==_refl p.source_usage_count,
    text_eq_refl p.quality_summary,
    same_status_refl p.calculation_status,
  )

  pub determinant_rules-IsRevising : IsRevising (determinant_rules now run type t contexts)
  unfolding determinant_rules is_current_determinant new_determinant
  determinant_rules-IsRevising = record {
    retired = λ s d. ground arith;
    retired_id = λ d. refl;
    made_id = λ r p n o. refl;
    made_current = new_determinant-current;
    made_same = new_determinant-same;
    one_key = λ s u d a b.
        let c = current-IsOf s d a in
        let e = current-IsOf u d b in
        scope_path s u (cc (c.point, e.point)) (cc (c.component, e.component)) (cc (c.type, e.type))
          (cc (c.start, e.start)) (cc (c.end, e.end));
  }

scope-same_usage :
    (type : Text) (r q : UsageTransaction)
    → text_eq r.usage_type source_usage_type ≡ true
    → text_eq q.usage_type source_usage_type ≡ true
    → determinant_scope type r ≡ determinant_scope type q
    → same_usage r q ≡ true
scope-same_usage type r q a b e =
    let types : text_eq r.usage_type q.usage_type ≡ true =
      subst (λ u. text_eq r.usage_type u ≡ true) (cc (text_eq→eq _ _ a, text_eq→eq _ _ b))
        (text_eq_refl r.usage_type) in
    let points : r.service_point_id ≡ q.service_point_id = ap (λ s. s.service_point_id) e in
    let components : some r.measuring_component_id ≡ some q.measuring_component_id =
      ap (λ s. s.measuring_component_id) e in
    let starts : r.period_start_at ≡ q.period_start_at = ap (λ s. s.period_start_at) e in
    let ends : r.period_end_at ≡ q.period_end_at = ap (λ s. s.period_end_at) e in
    ground (arith, types)

pub load-Distinct :
    (now : ℕ) (run : PipelineRun) (type : Text) (t : Trigger)
    (contexts : List ServicePointBillingContext) (f : Filters) (rows : List UsageTransaction)
    → HasUniqueUsage rows
    → Distinct
        (determinant_rules now run type t contexts)
        (determinant_rules-IsRevising now run type t contexts)
        (load_source_usage_transactions f rows)
unfolding determinant_rules load_source_usage_transactions
load-Distinct now run type t contexts f rows u =
    Distinct-count (determinant_rules now run type t contexts)
      (determinant_rules-IsRevising now run type t contexts) same_usage
      (λ r. text_eq r.usage_type source_usage_type ≡ true) _ (λ r q. scope-same_usage type r q)
      (λ r. omega (
        arith,
        u r,
        count-order_by (same_usage r) by_id (select (is_source_usage f) rows),
        count-select-le (same_usage r) (is_source_usage f) rows,
      ))
      (All-order_by _ by_id (select (is_source_usage f) rows)
        (All-mono _ _ _ (λ r h. ground arith) (select-All (is_source_usage f) rows)))

-- the determinants that this code writes have no tariff plan, bucket or demand window
abbrev pub is_plain : BillDeterminant → Bool
is_plain d = is_none d.tariff_plan_code && is_none d.tou_bucket_code && is_none d.demand_window_code
