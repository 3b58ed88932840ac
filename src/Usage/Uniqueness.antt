-- ===== src/Usage/Uniqueness.antt =====
-- Properties of app/services/usage.py: the table of usage after a calculation.
use sim_mdms_auto.Prelude.{
  ℕ, true, false, Option, none, some, List, [], ◌∷◌, Text, ◌≡◌, refl, subst, arith, any-false-All,
  All, count, scalar, text_eq, text_eq→eq, length, HasUniqueIds, HasUniqueIds-insert,
  HasUniqueIds-modify, Bool-cases, Option-cases, inl, inr,
}
use sim_mdms_auto.Ops.Rows.{PipelineRun, PipelineName}
use sim_mdms_auto.Ops.Pipeline.{start_pipeline_run, no_links}
use sim_mdms_auto.Billing.Rows.{UsageTransaction, usage_id}
use sim_mdms_auto.Billing.Store.{BillingDb, Filters, same_usage, HasUniqueUsage}
use sim_mdms_auto.Usage.Windows.{Zones, UsageType, usage_code, read_usage_type}
use sim_mdms_auto.Usage.Buckets.{UsageBucket, build_usage_buckets}
use sim_mdms_auto.Usage.Calculate.{
  UsageTally, no_usage, is_row_of, with_payload, new_usage, upsert_usage, upsert_all,
  keeps_unique_usage, tally_bucket, end_usage, use_buckets, run_usage, load_final_measurements,
  calculate_usage_transactions,
}

same_usage_third :
    (a b c : UsageTransaction)
    → same_usage a b ≡ true
    → same_usage b c ≡ false
    → same_usage a c ≡ false
same_usage_third a b c h k = elim (Bool-cases (same_usage a c)) [
  | inl e ↦
      let same : a.usage_type ≡ b.usage_type = text_eq→eq _ _ (ground arith) in
      let far : text_eq a.usage_type c.usage_type ≡ true = ground arith in
      let types : text_eq b.usage_type c.usage_type ≡ true =
        subst (λ u. text_eq u c.usage_type ≡ true) same far in
      absurd (ground (arith, types))
  | inr e ↦ e
]

none_same :
    (r x : UsageTransaction) (rows : List UsageTransaction)
    → same_usage r x ≡ true
    → All (λ y. same_usage x y ≡ false) rows
    → count (same_usage r) rows ≡ 0
none_same r x [] h k = refl
none_same r x (y ∷ rows) h k =
    rw (same_usage_third r x y h k.0) (omega (arith, none_same r x rows h k.1))

-- the constraint that the flush checks
unique-HasUniqueUsage :
    (rows : List UsageTransaction) → keeps_unique_usage rows ≡ true → HasUniqueUsage rows
unfolding keeps_unique_usage
unique-HasUniqueUsage [] h r = omega arith
unique-HasUniqueUsage (x ∷ rows) h r = elim (Bool-cases (same_usage r x)) [
  | inl e ↦
      rw e (omega (arith, none_same r x rows e (any-false-All (same_usage x) rows (ground arith))))
  | inr e ↦ rw e (omega (arith, unique-HasUniqueUsage rows (ground arith) r))
]

-- ids and scopes are unique
pub record IsUsageTable (rows : List UsageTransaction) : Type 0 where
  pub ids : HasUniqueIds rows
  pub scopes : HasUniqueUsage rows

upsert_usage-ids :
    (now : ℕ) (run : PipelineRun) (type : Text) (b : UsageBucket) (o : Option UsageTransaction)
    (rows : List UsageTransaction)
    → HasUniqueIds rows
    → HasUniqueIds (upsert_usage now run type b o rows)
unfolding upsert_usage new_usage with_payload
upsert_usage-ids now run type b none rows u = HasUniqueIds-insert rows _ refl u
upsert_usage-ids now run type b (some r) rows u = HasUniqueIds-modify r.id _ rows (λ x. refl) u

upsert_all-ids :
    (now : ℕ) (run : PipelineRun) (type : Text) (stored : List UsageTransaction)
    (bs : List UsageBucket) (rows : List UsageTransaction) (t : UsageTally)
    → HasUniqueIds rows
    → HasUniqueIds (upsert_all now run type stored bs rows t).0
unfolding upsert_all
upsert_all-ids now run type stored [] rows t u = u
upsert_all-ids now run type stored (b ∷ bs) rows t u =
    let o = scalar (λ _ _. false) (is_row_of type b) stored in
    upsert_all-ids now run type stored bs (upsert_usage now run type b o rows) (tally_bucket b o t)
      (upsert_usage-ids now run type b o rows u)

end_usage-IsUsageTable :
    (now : ℕ) (run : PipelineRun) (type : Text) (n : ℕ)
    (result : List UsageTransaction × UsageTally) (before db : BillingDb)
    → HasUniqueIds result.0
    → IsUsageTable before.usages
    → IsUsageTable (end_usage now run type n result before db).0.usages
unfolding end_usage
end_usage-IsUsageTable now run type n (rows, t) before db u v =
    elim (Bool-cases (keeps_unique_usage rows)) [
      | inl e ↦ rw e (record { ids = u; scopes = unique-HasUniqueUsage rows e })
      | inr e ↦ rw e v
    ]

use_buckets-IsUsageTable :
    (now : ℕ) (run : PipelineRun) (type : Text) (o : Option (List UsageBucket))
    (before db : BillingDb)
    → IsUsageTable before.usages
    → IsUsageTable db.usages
    → IsUsageTable (use_buckets now run type o before db).0.usages
unfolding use_buckets
use_buckets-IsUsageTable now run type none before db v w = w
use_buckets-IsUsageTable now run type (some bs) before db v w =
    end_usage-IsUsageTable now run type (length bs)
      (upsert_all now run type db.usages bs db.usages no_usage) before db
      (upsert_all-ids now run type db.usages bs db.usages _ w.ids) v

run_usage-IsUsageTable :
    (zones : Zones) (now : ℕ) (type : UsageType) (q : Filters) (trigger : Text) (db : BillingDb)
    → IsUsageTable db.usages
    → IsUsageTable (run_usage zones now type q trigger db).0.usages
unfolding run_usage
run_usage-IsUsageTable zones now type q trigger db v =
    let started = start_pipeline_run now PipelineName.usage trigger no_links db.core in
    use_buckets-IsUsageTable now started.1 (usage_code type)
      (build_usage_buckets zones db.hes_systems db.core type
        (load_final_measurements q db.core.finals) [])
      db (record db { core = started.0 }) v v

-- A calculation of usage, of any type over any filters and with any outcome, keeps unique ids and at
-- most one usage row for each service point, component, type and period.
pub calculate_usage_transactions-IsUsageTable :
    (zones : Zones) (now : ℕ) (type : Text) (q : Filters) (trigger : Text) (db : BillingDb)
    → IsUsageTable db.usages
    → IsUsageTable (calculate_usage_transactions zones now type q trigger db).0.usages
unfolding calculate_usage_transactions
calculate_usage_transactions-IsUsageTable zones now type q trigger db v =
    elim (Option-cases (read_usage_type type)) [
      | inl e ↦ rw e v
      | inr (t, e) ↦ rw e (run_usage-IsUsageTable zones now t q trigger db v)
    ]
