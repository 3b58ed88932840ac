-- ===== src/Billing/Charges/Calculations.antt =====
-- Properties of app/services/bill_charges.py, `calculate_bill_charges`.
use sim_mdms_auto.Prelude.{
  ℕ, true, Option, some, none, ℤ, List, Text, ◌≡◌, refl, ap, any, select, subst, ◌∙◌, sym, arith,
  length, All, All-mono, Bool-cases, inl, inr,
}
use sim_mdms_auto.Ops.Rows.{PipelineRun}
use sim_mdms_auto.TariffAssignments.{TariffTables, ServicePointTariffAssignment}
use sim_mdms_auto.Billing.Rows.{BillDeterminant, BillCharge, determinant_id, charge_id}
use sim_mdms_auto.Billing.Store.{
  BillingDb, Trigger, Filters, CalculationSummary, CalculationResult, summarize,
}
use sim_mdms_auto.Billing.Laws.{IsRevised, settled, agrees_with}
use sim_mdms_auto.Billing.Tallies.{revise_all-counts, revise_all-IsReuse}
use sim_mdms_auto.Billing.Money.{Rate, RateInput, normalize_rate}
use sim_mdms_auto.Billing.Determinants.{is_current_determinant}
use sim_mdms_auto.Billing.Determinants.Calculations.{IsBalanced}
use sim_mdms_auto.Billing.Charges.{
  is_current_charge, charge_rules, run_charges, run_rated, calculate_bill_charges,
  same_charge_snapshot, charge_scope,
}
use sim_mdms_auto.Billing.ChargePayloads.{
  load_source_bill_determinants, is_supported_charge_type, build_bill_charge_payload, with_pricing,
  price, Pricing,
}
use sim_mdms_auto.Billing.Determinants.Laws.{is_plain}
use sim_mdms_auto.Billing.Charges.Laws.{charge_rules-IsRevising}
use sim_mdms_auto.Billing.Charges.Runs.{
  IsEnd, IsExact, started, sources, rules, rules_law, start, outcome, run_charges-IsEnd, finished,
  run_charges_ok, outcome-IsRun,
}

-- A calculation of charges of any type at any rate over any filters keeps unique ids and at most one
-- current charge for each service point, component, type and billing period, where the determinants
-- are as their calculation leaves them.
pub calculate_bill_charges-IsRevised :
    (now : ℕ) (type : Text) (rate : RateInput) (f : Filters) (t : Trigger) (db : BillingDb)
    → IsRevised is_current_determinant db.determinants
    → All (λ d. is_plain d ≡ true) db.determinants
    → IsRevised is_current_charge db.charges
    → IsRevised is_current_charge (calculate_bill_charges now type rate f t db).0.charges
unfolding calculate_bill_charges charge_rules
calculate_bill_charges-IsRevised now type rate f t db v plain w =
    elim (Bool-cases (is_supported_charge_type type)) [
      | inl e ↦ rw e (go (normalize_rate rate))
      | inr e ↦ rw e w
    ]
  where
    go : (r : Rate) → IsRevised is_current_charge (run_rated now type r f t db).0.charges
    go Rate.invalid = w
    go (Rate.normalized r) =
        subst (IsRevised is_current_charge) (sym (run_charges-IsEnd type r f now t db).charges)
          (outcome-IsRun type r f now t db v plain w).revised

-- A calculation of a supported type at a rate that can be read, no product of which has more than 28
-- digits, completes, and its summary counts the source rows that the filters leave, each once as
-- created, superseded or reused and once as complete, partial or blocked.
pub calculate_bill_charges-IsBalanced :
    (now : ℕ) (type : Text) (input : RateInput) (rate : Option ℤ) (f : Filters) (t : Trigger)
    (db : BillingDb)
    → is_supported_charge_type type ≡ true
    → normalize_rate input ≡ Rate.normalized rate
    → All (IsExact rate) (load_source_bill_determinants f db.determinants)
    → (s : CalculationSummary) × ((calculate_bill_charges now type input f t db).1
        ≡ CalculationResult.ok s)
      × IsBalanced (length (load_source_bill_determinants f db.determinants)) s
unfolding calculate_bill_charges
calculate_bill_charges-IsBalanced now type input rate f t db h e x =
    let c =
      revise_all-counts (rules type rate f now t db) db.charges (sources type rate f db)
        (start type rate f db)
        (finished type rate f now (started type rate f now t db) t db.tariffs db.charges
          (sources type rate f db) (start type rate f db) x) in
    (
      summarize type (length (sources type rate f db)) (outcome type rate f now t db).0.tally,
      rw h (rw e (run_charges_ok type rate f now t db x)),
      record { groups_all = refl; by_outcome = omega (arith, c.0); by_status = omega (arith, c.1) },
    )

module _ (type : Text) (rate : Option ℤ) (f : Filters) (now later : ℕ) (run run' : PipelineRun)
    (t t' : Trigger) (tables : TariffTables) where
  -- whether a row has a payload hangs on its pricing, not on the trigger or the run
  agrees_any_run :
      (d : BillDeterminant) (tariff : Option ServicePointTariffAssignment) (o : Option Pricing)
      → agrees_with
          (charge_rules now run type rate t tables)
          (charge_rules-IsRevising now run type rate t tables)
          d
          (with_pricing t d tariff rate o)
        ≡ agrees_with
            (charge_rules later run' type rate t' tables)
            (charge_rules-IsRevising later run' type rate t' tables)
            d
            (with_pricing t' d tariff rate o)
  unfolding charge_rules same_charge_snapshot
  agrees_any_run d tariff none = refl
  agrees_any_run d tariff (some p) = refl

  settled_any_run :
      (d : BillDeterminant) (rows : List BillCharge)
      → settled
          (charge_rules now run type rate t tables)
          (charge_rules-IsRevising now run type rate t tables)
          d
          rows
        ≡ true
      → settled
          (charge_rules later run' type rate t' tables)
          (charge_rules-IsRevising later run' type rate t' tables)
          d
          rows
        ≡ true
  unfolding charge_rules build_bill_charge_payload
  settled_any_run d rows h =
      sym (
        ap (λ q. any q (select (is_current_charge (charge_scope type d)) rows))
          (agrees_any_run d _ (price d _ rate _)))
      ∙ h

module _ (type : Text) (rate : Option ℤ) (f : Filters) (now later : ℕ) (t t' : Trigger)
    (db db' : BillingDb) where
  second_settled :
      IsEnd (outcome type rate f now t db).0.rows db db'
      → IsRevised is_current_determinant db.determinants
      → All (λ d. is_plain d ≡ true) db.determinants
      → IsRevised is_current_charge db.charges
      → All (IsExact rate) (sources type rate f db)
      → All
          (λ d.
            settled
              (rules type rate f later t' db')
              (rules_law type rate f later t' db')
              d
              db'.charges
            ≡ true)
          (sources type rate f db')
  second_settled e v plain w x =
      let run' = started type rate f later t' db' in
      let first = (outcome-IsRun type rate f now t db v plain w).done (
        finished type rate f now (started type rate f now t db) t db.tariffs db.charges
          (sources type rate f db) (start type rate f db) x) in
      let moved =
        All-mono _ _ (sources type rate f db)
          (λ d.
            settled_any_run type rate f now later (started type rate f now t db) run' t t'
              db.tariffs d _)
          first in
      let a =
        subst
          (λ rows.
            All
              (λ d.
                settled (charge_rules later run' type rate t' db.tariffs)
                  (charge_rules-IsRevising later run' type rate t' db.tariffs) d rows
                ≡ true)
              (sources type rate f db))
          (sym e.charges) moved in
      let b =
        subst
          (λ rows.
            All
              (λ d.
                settled (charge_rules later run' type rate t' db.tariffs)
                  (charge_rules-IsRevising later run' type rate t' db.tariffs) d db'.charges
                ≡ true)
              (load_source_bill_determinants f rows))
          (sym e.determinants) a in
      subst
        (λ tables.
          All
            (λ d.
              settled (charge_rules later run' type rate t' tables)
                (charge_rules-IsRevising later run' type rate t' tables) d db'.charges
              ≡ true)
            (load_source_bill_determinants f db'.determinants))
        (sym e.tariffs) b

-- the calculation completed, kept these rows, and counts only reused ones
pub record ReusesAll (rows : List BillCharge) (result : BillingDb × CalculationResult)
    : Type 0 where
  pub summary : CalculationSummary
  pub same_rows : result.0.charges ≡ rows
  pub completed : result.1 ≡ CalculationResult.ok summary
  pub created : summary.created ≡ 0
  pub superseded : summary.superseded ≡ 0
  pub reused : summary.reused ≡ summary.groups

-- The second of two calculations of a supported type at the same rate with the same filters, at any
-- later time and by any trigger, creates and supersedes nothing, reuses a row for each source row and
-- leaves the table of charges as it was, where the tables are as runs leave them and no product has
-- more than 28 digits.
pub calculate_bill_charges_again :
    (now later : ℕ) (type : Text) (input : RateInput) (rate : Option ℤ) (f : Filters)
    (t t' : Trigger) (db : BillingDb)
    → is_supported_charge_type type ≡ true
    → normalize_rate input ≡ Rate.normalized rate
    → IsRevised is_current_determinant db.determinants
    → All (λ d. is_plain d ≡ true) db.determinants
    → IsRevised is_current_charge db.charges
    → All (IsExact rate) (load_source_bill_determinants f db.determinants)
    → let db' = (calculate_bill_charges now type input f t db).0 in
      ReusesAll db'.charges (calculate_bill_charges later type input f t' db')
unfolding calculate_bill_charges charge_rules
calculate_bill_charges_again now later type input rate f t t' db h n v plain w x =
    let db' = (run_charges now type rate f t db).0 in
    let e = run_charges-IsEnd type rate f now t db in
    let w' : IsRevised is_current_charge db'.charges =
      subst (IsRevised is_current_charge) (sym e.charges)
        (outcome-IsRun type rate f now t db v plain w).revised in
    let x' : All (IsExact rate) (sources type rate f db') =
      subst (λ rows. All (IsExact rate) (load_source_bill_determinants f rows)) (sym e.determinants)
        x in
    let reuse =
      revise_all-IsReuse (rules type rate f later t' db') (rules_law type rate f later t' db')
        (sources type rate f db') (start type rate f db') w'
        (second_settled type rate f now later t t' db db' e v plain w x) in
    let second : ReusesAll db'.charges (run_charges later type rate f t' db') = record {
      summary =
          summarize type (length (sources type rate f db'))
            (outcome type rate f later t' db').0.tally;
      same_rows = (run_charges-IsEnd type rate f later t' db').charges ∙ reuse.0.rows;
      completed = run_charges_ok type rate f later t' db' x';
      created = reuse.0.created;
      superseded = reuse.0.superseded;
      reused = omega (arith, reuse.0.reused);
    } in
    rw h (rw n second)
