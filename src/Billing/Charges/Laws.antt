-- ===== src/Billing/Charges/Laws.antt =====
-- Lemmas on app/services/bill_charges.py: the laws of its loop.
use sim_mdms_auto.Prelude.{
  ℕ, true, Option, some, none, ℤ, List, Text, ◌≡◌, refl, ap, subst, sym, arith, ==→eq, ==_refl,
  opt_eq, opt_eq→eq, opt_text_eq_refl, text_eq, text_eq→eq, text_eq_refl, eqb_ℤ_refl, select, by_id,
  All, All-both, All-select, All-order_by, select-All,
}
use sim_mdms_auto.Ops.Rows.{PipelineRun}
use sim_mdms_auto.TariffAssignments.{TariffTables}
use sim_mdms_auto.Billing.Rows.{BillDeterminant, BillCharge, determinant_id, charge_id}
use sim_mdms_auto.Billing.Store.{BillingScope, Trigger, Filters}
use sim_mdms_auto.Billing.Laws.{IsRevising, IsRevised}
use sim_mdms_auto.Billing.Loop.{Distinct}
use sim_mdms_auto.Billing.Keys.{count-order_by, count-select-le, Distinct-count}
use sim_mdms_auto.Billing.Determinants.{is_current_determinant}
use sim_mdms_auto.Billing.DeterminantPayloads.{billing_cycle_consumption_total}
use sim_mdms_auto.Billing.Determinants.Laws.{is_plain, opt_eq_refl, same_status_refl, scope_path}
use sim_mdms_auto.Billing.Charges.{
  charge_scope, is_current_charge, opt_eq_ℤ, same_charge_snapshot, new_charge, charge_rules,
}
use sim_mdms_auto.Billing.ChargePayloads.{
  ChargePayload, is_source_determinant, load_source_bill_determinants,
}

opt_eq_ℤ_refl : (o : Option ℤ) → opt_eq_ℤ o o ≡ true
opt_eq_ℤ_refl none = refl
opt_eq_ℤ_refl (some a) = eqb_ℤ_refl a

record IsOf (s : BillingScope) (c : BillCharge) : Type 0 where
  point : c.service_point_id ≡ s.service_point_id
  component : c.measuring_component_id ≡ s.measuring_component_id
  type : c.charge_type ≡ s.type_code
  start : c.billing_period_start_at ≡ s.period_start_at
  end : c.billing_period_end_at ≡ s.period_end_at

current-IsOf : (s : BillingScope) (c : BillCharge) → is_current_charge s c ≡ true → IsOf s c
unfolding is_current_charge
current-IsOf s c h = record {
  point = ==→eq _ _ (ground arith);
  component = opt_eq→eq _ _ (ground arith);
  type = text_eq→eq _ _ (ground arith);
  start = ==→eq _ _ (ground arith);
  end = ==→eq _ _ (ground arith);
}

module _ (now : ℕ) (run : PipelineRun) (type : Text) (rate : Option ℤ) (t : Trigger)
    (tables : TariffTables) where
  new_charge-current :
      (d : BillDeterminant) (p : ChargePayload) (n : ℕ) (o : Option BillCharge)
      → is_current_charge (charge_scope type d) (new_charge now run type t d p n o) ≡ true
  unfolding is_current_charge new_charge
  new_charge-current d p n o = ground (
    arith,
    ==_refl d.service_point_id,
    opt_eq_refl d.measuring_component_id,
    text_eq_refl type,
    ==_refl d.billing_period_start_at,
    ==_refl d.billing_period_end_at,
  )

  new_charge-same :
      (d : BillDeterminant) (p : ChargePayload) (n : ℕ) (o : Option BillCharge)
      → same_charge_snapshot d p (new_charge now run type t d p n o) ≡ true
  unfolding same_charge_snapshot new_charge
  new_charge-same d p n o = ground (
    arith,
    opt_eq_refl d.device_id,
    ==_refl d.id,
    opt_text_eq_refl p.currency_code,
    opt_text_eq_refl p.tariff_plan_code,
    opt_text_eq_refl p.tariff_version_code,
    eqb_ℤ_refl p.quantity_value,
    opt_eq_ℤ_refl p.unit_rate_value,
    opt_eq_ℤ_refl p.charge_amount,
    same_status_refl p.calculation_status,
    text_eq_refl p.quality_summary,
  )

  pub charge_rules-IsRevising : IsRevising (charge_rules now run type rate t tables)
  unfolding charge_rules is_current_charge new_charge
  charge_rules-IsRevising = record {
    retired = λ s c. ground arith;
    retired_id = λ c. refl;
    made_id = λ d p n o. refl;
    made_current = new_charge-current;
    made_same = new_charge-same;
    one_key = λ s u c a b.
        let e = current-IsOf s c a in
        let f = current-IsOf u c b in
        scope_path s u (cc (e.point, f.point)) (cc (e.component, f.component)) (cc (e.type, f.type))
          (cc (e.start, f.start)) (cc (e.end, f.end));
  }

abbrev own_scope : BillDeterminant → BillingScope
own_scope d = charge_scope d.determinant_type d

-- a current plain determinant of the type that charges start from
abbrev IsSource : BillDeterminant → Type 0
IsSource d =
    (is_plain d ≡ true)
    × (d.is_current ≡ true)
    × (d.determinant_type ≡ billing_cycle_consumption_total)

scope-is_current :
    (type : Text) (d e : BillDeterminant)
    → IsSource d
    → IsSource e
    → charge_scope type d ≡ charge_scope type e
    → is_current_determinant (own_scope d) e ≡ true
unfolding is_current_determinant
scope-is_current type d e a b h =
    let points : d.service_point_id ≡ e.service_point_id = ap (λ s. s.service_point_id) h in
    let components : d.measuring_component_id ≡ e.measuring_component_id =
      ap (λ s. s.measuring_component_id) h in
    let starts : d.billing_period_start_at ≡ e.billing_period_start_at =
      ap (λ s. s.period_start_at) h in
    let ends : d.billing_period_end_at ≡ e.billing_period_end_at = ap (λ s. s.period_end_at) h in
    let types : text_eq e.determinant_type d.determinant_type ≡ true =
      subst (λ u. text_eq e.determinant_type u ≡ true) (cc (a.2, b.2))
        (text_eq_refl e.determinant_type) in
    let same_component : opt_eq e.measuring_component_id d.measuring_component_id ≡ true =
      subst (λ u. opt_eq e.measuring_component_id u ≡ true) (sym components)
        (opt_eq_refl e.measuring_component_id) in
    ground (arith, types, same_component, a.0, a.1, b.0, b.1)

pub load-Distinct :
    (now : ℕ) (run : PipelineRun) (type : Text) (rate : Option ℤ) (t : Trigger)
    (tables : TariffTables) (f : Filters) (rows : List BillDeterminant)
    → IsRevised is_current_determinant rows
    → All (λ d. is_plain d ≡ true) rows
    → Distinct
        (charge_rules now run type rate t tables)
        (charge_rules-IsRevising now run type rate t tables)
        (load_source_bill_determinants f rows)
unfolding charge_rules load_source_bill_determinants
load-Distinct now run type rate t tables f rows v plain =
    Distinct-count (charge_rules now run type rate t tables)
      (charge_rules-IsRevising now run type rate t tables)
      (λ d. is_current_determinant (own_scope d)) IsSource _ (λ d e. scope-is_current type d e)
      (λ d. omega (
        arith,
        v.one_current (own_scope d),
        count-order_by (is_current_determinant (own_scope d)) by_id
            (select (is_source_determinant f) rows),
        count-select-le (is_current_determinant (own_scope d)) (is_source_determinant f) rows,
      ))
      (All-order_by IsSource by_id (select (is_source_determinant f) rows) (
        All-both _ _ IsSource (select (is_source_determinant f) rows)
          (λ d (a : is_plain d ≡ true) (h : is_source_determinant f d ≡ true).
            (a, ground arith, text_eq→eq _ _ (ground arith)))
          (All-select _ (is_source_determinant f) rows plain)
          (select-All (is_source_determinant f) rows)))
