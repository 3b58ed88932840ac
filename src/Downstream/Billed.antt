-- ===== src/Downstream/Billed.antt =====
-- Properties of app/services/downstream_recalculation.py: the tables after a recalculation.
use sim_mdms_auto.Prelude.{
  ℕ, Bool, true, not, Option, none, some, ℤ, List, [], ◌∷◌, Text, ◌≡◌, ◌≤◌, refl, ap, sym, subst,
  arith, All, count, select, ◌==◌, Bool-cases, Option-cases, inl, inr,
}
use mathlib.Core.Option.{some-injective}
use sim_mdms_auto.Model.{FinalMeasurement}
use sim_mdms_auto.Billing.Rows.{UsageTransaction, usage_id, determinant_id, charge_id}
use sim_mdms_auto.Billing.Store.{
  BillingDb, Trigger, Filters, CalculationSummary, CalculationResult, same_usage,
}
use sim_mdms_auto.Billing.Laws.{IsRevised}
use sim_mdms_auto.Billing.Money.{RateInput}
use sim_mdms_auto.Billing.Determinants.{is_current_determinant, calculate_bill_determinants}
use sim_mdms_auto.Billing.DeterminantPayloads.{billing_cycle_consumption_total}
use sim_mdms_auto.Billing.Determinants.Laws.{is_plain}
use sim_mdms_auto.Billing.Determinants.Calculations.{
  calculate_bill_determinants-IsRevised, calculate_bill_determinants-plain,
}
use sim_mdms_auto.Billing.Charges.{is_current_charge, calculate_bill_charges}
use sim_mdms_auto.Billing.ChargePayloads.{flat_energy_charge}
use sim_mdms_auto.Billing.Charges.Calculations.{calculate_bill_charges-IsRevised}
use sim_mdms_auto.Usage.Windows.{Zones}
use sim_mdms_auto.Usage.Calculate.{calculate_usage_transactions}
use sim_mdms_auto.Usage.Uniqueness.{IsUsageTable, calculate_usage_transactions-IsUsageTable}
use sim_mdms_auto.ProcessingReplay.Windows.{
  UsageWindowScope, Recalculation, UsageReplay, delete_found, get_usage_transaction_for_window,
  delete_usage_transaction_for_window, recalculate_impacted_usage_windows,
}
use sim_mdms_auto.ProcessingReplay.Keeps.{recalculate-keeps}
use sim_mdms_auto.Downstream.{
  MonthlyWindow, Artifacts, after_charges, after_determinants, recalculate_month,
  recalculate_months, recalculate_downstream_artifacts, stored_rate, month_filters,
  find_current_flat_charge_rate, monthly_windows, after_usage_windows,
}
use sim_mdms_auto.Downstream.Frame.{
  bills, calculate_usage_transactions-bills, calculate_bill_determinants-ends,
  calculate_bill_charges-sources,
}

-- one usage row of each scope and period, and one current determinant and charge; determinants have no
-- tariff dimension
pub record IsBilled (db : BillingDb) : Type 0 where
  pub usages : IsUsageTable db.usages
  pub determinants : IsRevised is_current_determinant db.determinants
  pub plain : All (λ d. is_plain d ≡ true) db.determinants
  pub charges : IsRevised is_current_charge db.charges

count-select {ℓ} :
    {A : Type ℓ} → (p q : A → Bool) (xs : List A) → count p (select q xs) ≤ count p xs
unfolding select
count-select p q [] = omega arith
count-select p q (x ∷ xs) = elim (Bool-cases (q x)) [
  | inl e ↦ elim (Bool-cases (p x)) [
    | inl e' ↦ rw (e, e') (omega (arith, count-select p q xs))
    | inr e' ↦ rw (e, e') (omega (arith, count-select p q xs))
  ]
  | inr e ↦ elim (Bool-cases (p x)) [
    | inl e' ↦ rw (e, e') (omega (arith, count-select p q xs))
    | inr e' ↦ rw (e, e') (omega (arith, count-select p q xs))
  ]
]

delete_found-IsUsageTable :
    (o : Option UsageTransaction) (rows : List UsageTransaction)
    → IsUsageTable rows
    → IsUsageTable (delete_found o rows)
delete_found-IsUsageTable none rows v = v
delete_found-IsUsageTable (some r) rows v = record {
  ids = λ n. omega (arith, v.ids n, count-select (λ x. x.id == n) (λ x. not (x.id == r.id)) rows);
  scopes =
      λ u. omega (arith, v.scopes u, count-select (same_usage u) (λ x. not (x.id == r.id)) rows);
}

-- a step that leaves determinants and charges alone
keep_bills : (a b : BillingDb) → bills b ≡ bills a → IsUsageTable b.usages → IsBilled a → IsBilled b
keep_bills a b h u v = record {
  usages = u;
  determinants = subst (IsRevised is_current_determinant) (sym (ap (λ x. x.0) h)) v.determinants;
  plain = subst (All (λ d. is_plain d ≡ true)) (sym (ap (λ x. x.0) h)) v.plain;
  charges = subst (IsRevised is_current_charge) (sym (ap (λ x. x.1) h)) v.charges;
}

calculate_usage_transactions-IsBilled :
    (zones : Zones) (now : ℕ) (type : Text) (q : Filters) (trigger : Text) (db : BillingDb)
    → IsBilled db
    → IsBilled (calculate_usage_transactions zones now type q trigger db).0
calculate_usage_transactions-IsBilled zones now type q trigger db v =
    keep_bills db _ (calculate_usage_transactions-bills zones now type q trigger db)
      (calculate_usage_transactions-IsUsageTable zones now type q trigger db v.usages) v

delete_usage_transaction_for_window-IsBilled :
    (w : UsageWindowScope) (s : Recalculation)
    → IsBilled s.db
    → IsBilled (delete_usage_transaction_for_window w s).db
unfolding delete_usage_transaction_for_window
delete_usage_transaction_for_window-IsBilled w s v =
    keep_bills s.db (delete_usage_transaction_for_window w s).db refl
      (delete_found-IsUsageTable (get_usage_transaction_for_window w s.db.usages) s.db.usages
        v.usages)
      v

calculate_bill_determinants-IsBilled :
    (now : ℕ) (type : Text) (f : Filters) (t : Trigger) (db : BillingDb)
    → IsBilled db
    → IsBilled (calculate_bill_determinants now type f t db).0
calculate_bill_determinants-IsBilled now type f t db v =
    let h = calculate_bill_determinants-ends now type f t db in
    record {
      usages = subst IsUsageTable (sym (ap (λ x. x.0) h)) v.usages;
      determinants =
          calculate_bill_determinants-IsRevised now type f t db v.usages.scopes v.determinants;
      plain = calculate_bill_determinants-plain now type f t db v.plain;
      charges = subst (IsRevised is_current_charge) (sym (ap (λ x. x.1) h)) v.charges;
    }

calculate_bill_charges-IsBilled :
    (now : ℕ) (type : Text) (rate : RateInput) (f : Filters) (t : Trigger) (db : BillingDb)
    → IsBilled db
    → IsBilled (calculate_bill_charges now type rate f t db).0
calculate_bill_charges-IsBilled now type rate f t db v =
    let h = calculate_bill_charges-sources now type rate f t db in
    record {
      usages = subst IsUsageTable (sym (ap (λ x. x.0) h)) v.usages;
      determinants =
          subst (IsRevised is_current_determinant) (sym (ap (λ x. x.1) h)) v.determinants;
      plain = subst (All (λ d. is_plain d ≡ true)) (sym (ap (λ x. x.1) h)) v.plain;
      charges =
          calculate_bill_charges-IsRevised now type rate f t db v.determinants v.plain v.charges;
    }

after_charges-IsBilled :
    (a a' : Artifacts) (d : CalculationSummary) (result : BillingDb × CalculationResult)
    → after_charges a d result ≡ some a'
    → IsBilled result.0
    → IsBilled a'.db
after_charges-IsBilled a a' d (db, CalculationResult.ok c) h v =
    subst (λ x. IsBilled x.db) (some-injective _ _ h) v
after_charges-IsBilled a a' d (db, CalculationResult.unsupported_type) h v = absurd (cc)
after_charges-IsBilled a a' d (db, CalculationResult.invalid_rate) h v = absurd (cc)
after_charges-IsBilled a a' d (db, CalculationResult.failed_exception) h v = absurd (cc)

module _ (now : ℕ) (t : Trigger) where
  after_determinants-IsBilled :
      (rate : Option ℤ) (w : MonthlyWindow) (a a' : Artifacts)
      (result : BillingDb × CalculationResult)
      → after_determinants now rate w t a result ≡ some a'
      → IsBilled result.0
      → IsBilled a'.db
  after_determinants-IsBilled rate w a a' (db, CalculationResult.ok d) h v =
      after_charges-IsBilled a a' d _ h (
        calculate_bill_charges-IsBilled now flat_energy_charge (stored_rate rate) (month_filters w)
          t db v)
  after_determinants-IsBilled rate w a a' (db, CalculationResult.unsupported_type) h v = absurd (cc)
  after_determinants-IsBilled rate w a a' (db, CalculationResult.invalid_rate) h v = absurd (cc)
  after_determinants-IsBilled rate w a a' (db, CalculationResult.failed_exception) h v = absurd (cc)

  recalculate_month-IsBilled :
      (w : MonthlyWindow) (a a' : Artifacts)
      → recalculate_month now t w a ≡ some a'
      → IsBilled a.db
      → IsBilled a'.db
  unfolding recalculate_month
  recalculate_month-IsBilled w a a' h v =
      after_determinants-IsBilled (find_current_flat_charge_rate w a.db.charges) w a a' _ h (
        calculate_bill_determinants-IsBilled now billing_cycle_consumption_total (month_filters w) t
          a.db v)

  recalculate_months-IsBilled :
      (ws : List MonthlyWindow) (a a' : Artifacts)
      → recalculate_months now t ws a ≡ some a'
      → IsBilled a.db
      → IsBilled a'.db
  unfolding recalculate_months
  recalculate_months-IsBilled [] a a' h v = subst (λ x. IsBilled x.db) (some-injective _ _ h) v
  recalculate_months-IsBilled (w ∷ ws) a a' h v =
      elim (Option-cases (recalculate_month now t w a)) [
        | inl e ↦ absurd (cc (rw (e, recalculate_months) at h))
        | inr (b, e) ↦
            recalculate_months-IsBilled ws b a' (rw (e, recalculate_months) at h)
              (recalculate_month-IsBilled w a b e v)
      ]

-- A recalculation that succeeds keeps unique ids in the tables of usage, determinants and charges, one
-- usage row for each service point, component, type and period, and one current determinant and charge
-- for each of them, where determinants have no tariff dimension.
pub recalculate_downstream_artifacts-IsBilled :
    (zones : Zones) (now : ℕ) (previous : Option FinalMeasurement) (current : FinalMeasurement)
    (t : Trigger) (db : BillingDb) (u : UsageReplay) (a : Artifacts)
    → recalculate_downstream_artifacts zones now previous current t db ≡ some (u, a)
    → IsBilled db
    → IsBilled a.db
unfolding recalculate_downstream_artifacts
recalculate_downstream_artifacts-IsBilled zones now previous current t db u a h v =
    elim (Option-cases
      (recalculate_impacted_usage_windows zones now previous (some current) t.trigger_type db)) [
        | inl e ↦ absurd (cc (rw e at h))
        | inr (replay, e) ↦ months replay (rw e at h) (
            recalculate-keeps zones now IsBilled (calculate_usage_transactions-IsBilled zones now)
              delete_usage_transaction_for_window-IsBilled previous (some current) t.trigger_type db
              replay e v)
      ]
  where
    months :
        (r : UsageReplay)
        → after_usage_windows now t (some r) ≡ some (u, a)
        → IsBilled r.db
        → IsBilled a.db
    months r h' v' =
        let start : Artifacts = record {
          db = r.db;
          determinant_summary = none;
          charge_summary = none;
        } in
        elim (Option-cases (recalculate_months now t (monthly_windows r.results) start)) [
          | inl e ↦ absurd (cc (rw e at h'))
          | inr (b, e) ↦
              subst (λ x. IsBilled x.1.db) (some-injective _ _ (rw e at h'))
                (recalculate_months-IsBilled now t (monthly_windows r.results) start b e v')
        ]
