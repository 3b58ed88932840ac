-- ===== src/Downstream/Frame.antt =====
-- Lemmas for app/services/downstream_recalculation.py: the tables that each calculation leaves alone.
use sim_mdms_auto.Prelude.{
  ℕ, Bool, true, false, Option, none, some, List, [], Text, ◌≡◌, refl, length, Bool-cases,
  Option-cases, inl, inr,
}
use sim_mdms_auto.Ops.Rows.{PipelineRun, PipelineName}
use sim_mdms_auto.Ops.Pipeline.{start_pipeline_run, no_links}
use sim_mdms_auto.Billing.Revisions.{Progress}
use sim_mdms_auto.Billing.Rows.{BillDeterminant, BillCharge, UsageTransaction}
use sim_mdms_auto.Billing.Store.{BillingDb, Trigger, Filters}
use sim_mdms_auto.Billing.Money.{RateInput, Rate, normalize_rate}
use sim_mdms_auto.Billing.Determinants.{
  end_determinants, run_determinants, calculate_bill_determinants,
}
use sim_mdms_auto.Billing.DeterminantPayloads.{
  load_source_usage_transactions, is_supported_determinant_type,
}
use sim_mdms_auto.Billing.Charges.{end_charges, run_charges, run_rated, calculate_bill_charges}
use sim_mdms_auto.Billing.ChargePayloads.{load_source_bill_determinants, is_supported_charge_type}
use sim_mdms_auto.Billing.Determinants.Runs.{outcome}
use sim_mdms_auto.Billing.Charges.Runs
use sim_mdms_auto.Usage.Windows.{Zones, UsageType, usage_code, read_usage_type}
use sim_mdms_auto.Usage.Buckets.{UsageBucket, build_usage_buckets}
use sim_mdms_auto.Usage.Calculate.{
  UsageTally, keeps_unique_usage, end_usage, use_buckets, run_usage, load_final_measurements,
  calculate_usage_transactions, no_usage, upsert_all,
}

-- the tables that the calculation of usage, of determinants and of charges leaves alone
abbrev pub bills : BillingDb → List BillDeterminant × List BillCharge
bills db = (db.determinants, db.charges)

abbrev pub ends : BillingDb → List UsageTransaction × List BillCharge
ends db = (db.usages, db.charges)

abbrev pub sources : BillingDb → List UsageTransaction × List BillDeterminant
sources db = (db.usages, db.determinants)

end_usage-bills :
    (now : ℕ) (run : PipelineRun) (type : Text) (n : ℕ)
    (result : List UsageTransaction × UsageTally) (before db : BillingDb)
    → bills db ≡ bills before
    → bills (end_usage now run type n result before db).0 ≡ bills before
unfolding end_usage
end_usage-bills now run type n (rows, t) before db h = elim (Bool-cases (keeps_unique_usage rows)) [
  | inl e ↦ rw e h
  | inr e ↦ rw e refl
]

use_buckets-bills :
    (now : ℕ) (run : PipelineRun) (type : Text) (o : Option (List UsageBucket))
    (before db : BillingDb)
    → bills db ≡ bills before
    → bills (use_buckets now run type o before db).0 ≡ bills before
unfolding use_buckets
use_buckets-bills now run type none before db h = h
use_buckets-bills now run type (some bs) before db h =
    end_usage-bills now run type (length bs)
      (upsert_all now run type db.usages bs db.usages no_usage) before db h

run_usage-bills :
    (zones : Zones) (now : ℕ) (type : UsageType) (q : Filters) (trigger : Text) (db : BillingDb)
    → bills (run_usage zones now type q trigger db).0 ≡ bills db
unfolding run_usage
run_usage-bills zones now type q trigger db =
    let started = start_pipeline_run now PipelineName.usage trigger no_links db.core in
    use_buckets-bills now started.1 (usage_code type)
      (build_usage_buckets zones db.hes_systems db.core type
        (load_final_measurements q db.core.finals) [])
      db (record db { core = started.0 }) refl

pub calculate_usage_transactions-bills :
    (zones : Zones) (now : ℕ) (type : Text) (q : Filters) (trigger : Text) (db : BillingDb)
    → bills (calculate_usage_transactions zones now type q trigger db).0 ≡ bills db
unfolding calculate_usage_transactions
calculate_usage_transactions-bills zones now type q trigger db =
    elim (Option-cases (read_usage_type type)) [
      | inl e ↦ rw e refl
      | inr (t, e) ↦ rw e (run_usage-bills zones now t q trigger db)
    ]

end_determinants-ends :
    (now : ℕ) (run : PipelineRun) (type : Text) (n : ℕ) (result : Progress BillDeterminant × Bool)
    (db : BillingDb)
    → ends (end_determinants now run type n result db).0 ≡ ends db
unfolding end_determinants
end_determinants-ends now run type n (p, true) db = refl
end_determinants-ends now run type n (p, false) db = refl

run_determinants-ends :
    (now : ℕ) (type : Text) (f : Filters) (t : Trigger) (db : BillingDb)
    → ends (run_determinants now type f t db).0 ≡ ends db
unfolding run_determinants
run_determinants-ends now type f t db =
    let started =
      start_pipeline_run now PipelineName.bill_determinant t.trigger_type no_links db.core in
    end_determinants-ends now started.1 type (length (load_source_usage_transactions f db.usages))
      (outcome type f now t db) (record db { core = started.0 })

pub calculate_bill_determinants-ends :
    (now : ℕ) (type : Text) (f : Filters) (t : Trigger) (db : BillingDb)
    → ends (calculate_bill_determinants now type f t db).0 ≡ ends db
unfolding calculate_bill_determinants
calculate_bill_determinants-ends now type f t db =
    elim (Bool-cases (is_supported_determinant_type type)) [
      | inl e ↦ rw e (run_determinants-ends now type f t db)
      | inr e ↦ rw e refl
    ]

end_charges-sources :
    (now : ℕ) (run : PipelineRun) (type : Text) (n : ℕ) (result : Progress BillCharge × Bool)
    (db : BillingDb)
    → sources (end_charges now run type n result db).0 ≡ sources db
unfolding end_charges
end_charges-sources now run type n (p, true) db = refl
end_charges-sources now run type n (p, false) db = refl

run_rated-sources :
    (now : ℕ) (type : Text) (rate : Rate) (f : Filters) (t : Trigger) (db : BillingDb)
    → sources (run_rated now type rate f t db).0 ≡ sources db
unfolding run_charges
run_rated-sources now type Rate.invalid f t db = refl
run_rated-sources now type (Rate.normalized r) f t db =
    let started = start_pipeline_run now PipelineName.bill_charge t.trigger_type no_links db.core in
    end_charges-sources now started.1 type
      (length (load_source_bill_determinants f db.determinants)) (Runs.outcome type r f now t db)
      (record db { core = started.0 })

pub calculate_bill_charges-sources :
    (now : ℕ) (type : Text) (rate : RateInput) (f : Filters) (t : Trigger) (db : BillingDb)
    → sources (calculate_bill_charges now type rate f t db).0 ≡ sources db
unfolding calculate_bill_charges
calculate_bill_charges-sources now type rate f t db =
    elim (Bool-cases (is_supported_charge_type type)) [
      | inl e ↦ rw e (run_rated-sources now type (normalize_rate rate) f t db)
      | inr e ↦ rw e refl
    ]
