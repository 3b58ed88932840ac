-- ===== src/Billing/Charges/Runs.antt =====
-- Properties of app/services/bill_charges.py: whole runs.
use sim_mdms_auto.Prelude.{
  ℕ, ◌*◌, ◌^◌, ◌<◌, Bool, true, false, Option, some, none, ℤ, List, [], ◌∷◌, Text, ◌≡◌, refl,
  length, All, Bool-cases, Option-cases, inl, inr, is_some,
}
use sim_mdms_auto.Ops.Rows.{PipelineRun, PipelineName}
use sim_mdms_auto.Ops.Pipeline.{start_pipeline_run, no_links}
use sim_mdms_auto.TariffAssignments.{TariffTables, ServicePointTariffAssignment}
use sim_mdms_auto.Billing.Revisions.{Revising, Progress, no_rows, revise_all}
use sim_mdms_auto.Billing.Rows.{BillDeterminant, BillCharge, determinant_id, charge_id}
use sim_mdms_auto.Billing.Store.{
  BillingDb, BillingScope, Trigger, Filters, CalculationResult, summarize,
}
use sim_mdms_auto.Billing.Laws.{IsRevising, IsRevised}
use sim_mdms_auto.Billing.Loop.{IsRun}
use sim_mdms_auto.Billing.Keys.{from_stored-IsRun}
use sim_mdms_auto.Billing.Money.{abs}
use sim_mdms_auto.Billing.Money.Bounds.{charge_amount_of_bounds}
use sim_mdms_auto.Billing.Determinants.{is_current_determinant}
use sim_mdms_auto.Billing.Charges.{is_current_charge, charge_rules, end_charges, run_charges}
use sim_mdms_auto.Billing.ChargePayloads.{
  ChargePayload, load_source_bill_determinants, build_bill_charge_payload, price, price_rated,
  Pricing, with_pricing,
}
use sim_mdms_auto.Billing.Charges.Amounts.{is_blocked}
use sim_mdms_auto.Billing.Determinants.Laws.{is_plain}
use sim_mdms_auto.Billing.Charges.Laws.{charge_rules-IsRevising, load-Distinct}

-- the end of a run stores the rows of the loop and keeps the source tables
pub record IsEnd (rows : List BillCharge) (before after : BillingDb) : Type 0 where
  pub charges : after.charges ≡ rows
  pub determinants : after.determinants ≡ before.determinants
  pub tariffs : after.tariffs ≡ before.tariffs

end_charges-IsEnd :
    (now : ℕ) (run : PipelineRun) (type : Text) (n : ℕ) (result : Progress BillCharge × Bool)
    (db : BillingDb)
    → IsEnd result.0.rows db (end_charges now run type n result db).0
unfolding end_charges
end_charges-IsEnd now run type n (p, true) db = record {
  charges = refl;
  determinants = refl;
  tariffs = refl;
}
end_charges-IsEnd now run type n (p, false) db = record {
  charges = refl;
  determinants = refl;
  tariffs = refl;
}

end_charges_ok :
    (now : ℕ) (run : PipelineRun) (type : Text) (n : ℕ) (result : Progress BillCharge × Bool)
    (db : BillingDb)
    → result.1 ≡ true
    → (end_charges now run type n result db).1
      ≡ CalculationResult.ok (summarize type n result.0.tally)
unfolding end_charges
end_charges_ok now run type n (p, true) db h = refl
end_charges_ok now run type n (p, false) db h = absurd (cc)

-- the product of quantity and rate has at most 28 digits
abbrev pub IsExact : Option ℤ → BillDeterminant → Type 0
IsExact none d = Unit
IsExact (some rate) d = abs d.determinant_value * abs rate < 10 ^ 28

price_rated-some :
    (d : BillDeterminant) (tariff : Option ServicePointTariffAssignment) (rate : Option ℤ)
    (currency : Option Text)
    → IsExact rate d
    → is_some (price_rated d tariff rate currency) ≡ true
price_rated-some d none rate currency h = refl
price_rated-some d (some a) none currency h = refl
price_rated-some d (some a) (some rate) none h = refl
price_rated-some d (some a) (some rate) (some c) h =
    let (n, e, _, _) = charge_amount_of_bounds d.determinant_value rate h in rw e refl

with_pricing-some :
    (t : Trigger) (d : BillDeterminant) (tariff : Option ServicePointTariffAssignment)
    (rate : Option ℤ) (o : Option Pricing)
    → is_some o ≡ true
    → is_some (with_pricing t d tariff rate o) ≡ true
with_pricing-some t d tariff rate none h = h
with_pricing-some t d tariff rate (some p) h = refl

price-some :
    (d : BillDeterminant) (tariff : Option ServicePointTariffAssignment) (rate : Option ℤ)
    (currency : Option Text)
    → IsExact rate d
    → is_some (price d tariff rate currency) ≡ true
unfolding price
price-some d tariff rate currency h = elim (Bool-cases (is_blocked d.calculation_status)) [
  | inl e ↦ rw e refl
  | inr e ↦ rw e (price_rated-some d tariff rate currency h)
]

payload-some :
    (tables : TariffTables) (rate : Option ℤ) (t : Trigger) (d : BillDeterminant)
    → IsExact rate d
    → is_some (build_bill_charge_payload tables rate t d) ≡ true
unfolding build_bill_charge_payload
payload-some tables rate t d h =
    with_pricing-some t d _ rate (price d _ rate _) (price-some d _ rate _ h)

module _ (type : Text) (rate : Option ℤ) (f : Filters) where
  abbrev pub started : ℕ → Trigger → BillingDb → PipelineRun
  started now t db =
      (start_pipeline_run now PipelineName.bill_charge t.trigger_type no_links db.core).1

  abbrev pub sources : BillingDb → List BillDeterminant
  sources db = load_source_bill_determinants f db.determinants

  abbrev pub rules :
      ℕ → Trigger → BillingDb → Revising BillDeterminant BillingScope ChargePayload BillCharge
  rules now t db = charge_rules now (started now t db) type rate t db.tariffs

  abbrev pub rules_law : (now : ℕ) (t : Trigger) (db : BillingDb) → IsRevising (rules now t db)
  rules_law now t db = charge_rules-IsRevising now (started now t db) type rate t db.tariffs

  abbrev pub start : BillingDb → Progress BillCharge
  start db = record { rows = db.charges; tally = no_rows }

  abbrev pub outcome : ℕ → Trigger → BillingDb → Progress BillCharge × Bool
  outcome now t db = revise_all (rules now t db) db.charges (sources db) (start db)

  pub run_charges-IsEnd :
      (now : ℕ) (t : Trigger) (db : BillingDb)
      → IsEnd (outcome now t db).0.rows db (run_charges now type rate f t db).0
  unfolding run_charges start_pipeline_run
  run_charges-IsEnd now t db =
      let e =
        end_charges-IsEnd now (started now t db) type (length (sources db)) (outcome now t db) _ in
      record { charges = e.charges; determinants = e.determinants; tariffs = e.tariffs }

  -- within the precision the loop raises nothing
  pub finished :
      (now : ℕ) (run : PipelineRun) (t : Trigger) (tables : TariffTables) (stored : List BillCharge)
      (rows : List BillDeterminant) (s : Progress BillCharge)
      → All (IsExact rate) rows
      → (revise_all (charge_rules now run type rate t tables) stored rows s).1 ≡ true
  unfolding revise_all charge_rules
  finished now run t tables stored [] s h = refl
  finished now run t tables stored (d ∷ rows) s h =
      elim (Option-cases (build_bill_charge_payload tables rate t d)) [
        | inl e ↦ absurd (cc (rw e at (payload-some tables rate t d h.0)))
        | inr (p, e) ↦ rw (e, revise_all) (finished now run t tables stored rows _ h.1)
      ]

  pub run_charges_ok :
      (now : ℕ) (t : Trigger) (db : BillingDb)
      → All (IsExact rate) (sources db)
      → (run_charges now type rate f t db).1
        ≡ CalculationResult.ok (summarize type (length (sources db)) (outcome now t db).0.tally)
  unfolding run_charges
  run_charges_ok now t db h =
      end_charges_ok now (started now t db) type (length (sources db)) (outcome now t db) _
        (finished now (started now t db) t db.tariffs db.charges (sources db) (start db) h)

  pub outcome-IsRun :
      (now : ℕ) (t : Trigger) (db : BillingDb)
      → IsRevised is_current_determinant db.determinants
      → All (λ d. is_plain d ≡ true) db.determinants
      → IsRevised is_current_charge db.charges
      → IsRun (rules now t db) (rules_law now t db) (sources db) db.charges (outcome now t db)
  unfolding charge_rules
  outcome-IsRun now t db v plain w =
      from_stored-IsRun (rules now t db) (rules_law now t db) (sources db) (start db)
        (load-Distinct now (started now t db) type rate t db.tariffs f db.determinants v plain) w
