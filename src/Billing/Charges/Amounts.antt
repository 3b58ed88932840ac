-- ===== src/Billing/Charges/Amounts.antt =====
-- Properties of app/services/bill_charges.py: the payload of one charge.
use sim_mdms_auto.Prelude.{
  Bool, true, false, not, ◌&&◌, Option, none, some, ℤ, Text, ◌≡◌, refl, sym, subst, is_some,
  Bool-cases, Option-cases, inl, inr, if◌then◌else◌,
}
use mathlib.Core.Option.{some-injective}
use sim_mdms_auto.TariffAssignments.{
  ServicePointTariffAssignment, TariffTables, find_applicable_tariff_assignment,
}
use sim_mdms_auto.Billing.Revisions.{CalculationStatus}
use sim_mdms_auto.Billing.Rows.{BillDeterminant}
use sim_mdms_auto.Billing.Store.{Trigger}
use sim_mdms_auto.Billing.Money.{charge_amount_of}
use sim_mdms_auto.Billing.Determinants.{same_status}
use sim_mdms_auto.Billing.ChargePayloads.{
  ChargePayload, Pricing, with_pricing, snapshot_currency, price, price_rated,
  build_bill_charge_payload,
}

abbrev pub is_blocked : CalculationStatus → Bool
is_blocked s = same_status s CalculationStatus.blocked

-- nothing blocks the charge
abbrev pub is_chargeable :
    BillDeterminant → Option ServicePointTariffAssignment → Option ℤ → Option Text → Bool
is_chargeable d tariff rate currency =
    not (is_blocked d.calculation_status) && is_some tariff && is_some rate && is_some currency

-- the amount at a rate, where there is one
abbrev pub amount_at : ℤ → Option ℤ → Option ℤ
amount_at quantity none = none
amount_at quantity (some rate) = charge_amount_of quantity rate

-- the pricing has an amount and is not blocked if and only if the charge is to be made
pub record Prices (d : BillDeterminant) (rate : Option ℤ) (chargeable : Bool) (amount : Option ℤ)
    (status : CalculationStatus) : Type 0 where
  pub has_amount : is_some amount ≡ chargeable
  pub not_blocked : not (is_blocked status) ≡ chargeable
  pub exact : amount ≡ (if chargeable then amount_at d.determinant_value rate else none)

module _ (d : BillDeterminant) where
  price_rated_lem :
      (tariff : Option ServicePointTariffAssignment) (rate : Option ℤ) (currency : Option Text)
      (q : Pricing)
      → is_blocked d.calculation_status ≡ false
      → price_rated d tariff rate currency ≡ some q
      → Prices d rate
          (is_some tariff && is_some rate && is_some currency)
          q.charge_amount
          q.calculation_status
  price_rated_lem none rate currency q b h =
      subst (λ x. Prices d rate false x.charge_amount x.calculation_status) (some-injective _ _ h)
        (record { has_amount = refl; not_blocked = refl; exact = refl })
  price_rated_lem (some a) none currency q b h =
      subst (λ x. Prices d none false x.charge_amount x.calculation_status) (some-injective _ _ h)
        (record { has_amount = refl; not_blocked = refl; exact = refl })
  price_rated_lem (some a) (some rate) none q b h =
      subst (λ x. Prices d (some rate) false x.charge_amount x.calculation_status)
        (some-injective _ _ h) (record { has_amount = refl; not_blocked = refl; exact = refl })
  price_rated_lem (some a) (some rate) (some c) q b h =
      elim (Option-cases (charge_amount_of d.determinant_value rate)) [
        | inl e ↦ absurd (cc (rw e at h))
        | inr (n, e) ↦
            subst (λ x. Prices d (some rate) true x.charge_amount x.calculation_status)
              (some-injective _ _ (rw e at h))
              (record { has_amount = refl; not_blocked = rw b refl; exact = sym e })
      ]

  price_lem :
      (tariff : Option ServicePointTariffAssignment) (rate : Option ℤ) (currency : Option Text)
      (q : Pricing)
      → price d tariff rate currency ≡ some q
      → Prices d rate (is_chargeable d tariff rate currency) q.charge_amount q.calculation_status
  unfolding price
  price_lem tariff rate currency q h = elim (Bool-cases (is_blocked d.calculation_status)) [
    | inl e ↦ rw e (
        subst (λ x. Prices d rate false x.charge_amount x.calculation_status)
          (some-injective _ _ (rw e at h))
          (record { has_amount = refl; not_blocked = refl; exact = refl }))
    | inr e ↦ rw e (price_rated_lem tariff rate currency q e (rw e at h))
  ]

  with_pricing_lem :
      (t : Trigger) (tariff : Option ServicePointTariffAssignment) (rate : Option ℤ)
      (chargeable : Bool) (o : Option Pricing) (p : ChargePayload)
      → ((q : Pricing) → o ≡ some q → Prices d rate chargeable q.charge_amount q.calculation_status)
      → with_pricing t d tariff rate o ≡ some p
      → Prices d rate chargeable p.charge_amount p.calculation_status
  with_pricing_lem t tariff rate chargeable none p g h = absurd (cc)
  with_pricing_lem t tariff rate chargeable (some q) p g h =
      subst (λ x. Prices d rate chargeable x.charge_amount x.calculation_status)
        (some-injective _ _ h) (g q refl)

-- A charge that is calculated has an amount, and is not blocked, exactly where the determinant is not
-- blocked, a tariff is in force when the billing period begins, a rate is given and the determinant's
-- context has a currency; the amount is then that of the determinant's quantity at the rate.
pub build_bill_charge_payload_lem :
    (tables : TariffTables) (rate : Option ℤ) (t : Trigger) (d : BillDeterminant)
    (p : ChargePayload)
    → build_bill_charge_payload tables rate t d ≡ some p
    → let tariff =
        find_applicable_tariff_assignment d.service_point_id d.billing_period_start_at tables in
      Prices d rate
        (is_chargeable d tariff rate (snapshot_currency d.details.billing_context_snapshot))
        p.charge_amount
        p.calculation_status
unfolding build_bill_charge_payload
build_bill_charge_payload_lem tables rate t d p h =
    let tariff =
      find_applicable_tariff_assignment d.service_point_id d.billing_period_start_at tables in
    let currency = snapshot_currency d.details.billing_context_snapshot in
    with_pricing_lem d t tariff rate (is_chargeable d tariff rate currency)
      (price d tariff rate currency) p (price_lem d tariff rate currency) h
