-- ===== src/Usage/Accepted.antt =====
-- Properties of app/services/usage.py: when the flush of a calculation is accepted.
use sim_mdms_auto.Prelude.{
  ℕ, ◌+◌, Bool, true, false, ◌&&◌, Option, none, some, List, [], ◌∷◌, ◌++◌, Text, ◌≡◌, refl, ap,
  ==_refl, subst, arith, any, any-imp, any-count, All, All-mono, count, count-append,
  count-update_where, count-zero_any, All-both, scalar, scalar-none, ◌==◌, text_eq, text_eq→eq,
  text_eq_refl, length, length-append, length-update_where, next_id, modify, Bool-cases,
  Option-cases, inl, inr,
}
use sim_mdms_auto.Ops.Rows.{PipelineRun, PipelineName}
use sim_mdms_auto.Ops.Pipeline.{start_pipeline_run, no_links}
use sim_mdms_auto.Billing.Revisions.{CalculationStatus}
use sim_mdms_auto.Billing.Rows.{UsageTransaction, usage_id}
use sim_mdms_auto.Billing.Store.{BillingDb, Filters, same_usage, HasUniqueUsage}
use sim_mdms_auto.Usage.Windows.{Zones, UsageType, usage_code, read_usage_type}
use sim_mdms_auto.Usage.Buckets.{UsageBucket, build_usage_row_payload, build_usage_buckets}
use sim_mdms_auto.Usage.Calculate.{
  UsageTally, no_usage, is_row_of, with_payload, new_usage, upsert_usage, upsert_all,
  keeps_unique_usage, tally_bucket, end_usage, use_buckets, run_usage, load_final_measurements,
  calculate_usage_transactions, UsageResult, UsageSummary, summarize_usage, count_usage,
}
use sim_mdms_auto.Usage.Uniqueness.{IsUsageTable, calculate_usage_transactions-IsUsageTable}

-- the buckets belong to one usage row
abbrev pub same_row : UsageBucket → UsageBucket → Bool
same_row a b =
    a.service_point_id == b.service_point_id
    && a.measuring_component_id == b.measuring_component_id
    && a.period_start_at == b.period_start_at
    && a.period_end_at == b.period_end_at

-- no two buckets belong to one usage row
abbrev pub AreApart : List UsageBucket → Type 0
AreApart [] = Unit
AreApart (b ∷ bs) = All (λ c. same_row c b ≡ false) bs × AreApart bs

module _ (now : ℕ) (run : PipelineRun) (type : Text) where
  -- a bucket for which no row was stored has none yet
  abbrev IsFree : List UsageTransaction → List UsageTransaction → UsageBucket → Type 0
  IsFree stored rows b = any (is_row_of type b) stored ≡ false → count (is_row_of type b) rows ≡ 0

  -- the rows while these buckets are left
  record IsOpen (stored : List UsageTransaction) (bs : List UsageBucket)
      (rows : List UsageTransaction) : Type 0 where
    unique : HasUniqueUsage rows
    free : All (IsFree stored rows) bs

  scope_of_new :
      (b : UsageBucket) (n : ℕ) (r y : UsageTransaction)
      → same_usage r (new_usage now run type b (build_usage_row_payload b) n) ≡ true
      → same_usage r y ≡ true
      → is_row_of type b y ≡ true
  unfolding new_usage is_row_of
  scope_of_new b n r y h k =
      let own : r.usage_type ≡ type = text_eq→eq _ _ (ground (arith, h)) in
      let far : r.usage_type ≡ y.usage_type = text_eq→eq _ _ (ground (arith, k)) in
      let types : text_eq y.usage_type type ≡ true =
        subst (λ u. text_eq u type ≡ true) far
          (subst (λ u. text_eq r.usage_type u ≡ true) own (text_eq_refl r.usage_type)) in
      ground (arith, h, k, types)

  new_unique :
      (b : UsageBucket) (n : ℕ) (rows : List UsageTransaction)
      → HasUniqueUsage rows
      → count (is_row_of type b) rows ≡ 0
      → HasUniqueUsage (rows ++ new_usage now run type b (build_usage_row_payload b) n ∷ [])
  new_unique b n rows u z r =
      let new = new_usage now run type b (build_usage_row_payload b) n in
      elim (Bool-cases (same_usage r new)) [
        | inl e ↦
            let absent = any-count (same_usage r) rows (
              any-imp (same_usage r) (is_row_of type b) rows (λ y k. scope_of_new b n r y e k)
                (count-zero_any (is_row_of type b) rows z)) in
            rw (count-append (same_usage r) rows (new ∷ [])) (rw e (omega (arith, absent)))
        | inr e ↦ rw (count-append (same_usage r) rows (new ∷ [])) (rw e (omega (arith, u r)))
      ]

  new_apart :
      (b c : UsageBucket) (n : ℕ)
      → same_row c b ≡ false
      → is_row_of type c (new_usage now run type b (build_usage_row_payload b) n) ≡ false
  unfolding new_usage is_row_of
  new_apart b c n h = ground arith

  upsert-IsOpen :
      (stored : List UsageTransaction) (b : UsageBucket) (bs : List UsageBucket)
      (rows : List UsageTransaction)
      → IsOpen stored (b ∷ bs) rows
      → All (λ c. same_row c b ≡ false) bs
      → IsOpen stored bs
          (upsert_usage now run type b (scalar (λ _ _. false) (is_row_of type b) stored) rows)
  unfolding upsert_usage modify
  upsert-IsOpen stored b bs rows o apart =
      elim (Option-cases (scalar (λ _ _. false) (is_row_of type b) stored)) [
        | inl e ↦
            let new = new_usage now run type b (build_usage_row_payload b) (next_id rows) in
            let z = o.free.0 (scalar-none _ (is_row_of type b) stored e) in
            rw e (record {
              unique = new_unique b (next_id rows) rows o.unique z;
              free =
                  All-both (IsFree stored rows) (λ c. same_row c b ≡ false)
                    (IsFree stored (rows ++ new ∷ [])) bs
                    (λ c f g h.
                      rw (count-append (is_row_of type c) rows (new ∷ []))
                        (rw (new_apart b c (next_id rows) g) (omega (arith, f h))))
                    o.free.1 apart;
            })
        | inr (r, e) ↦ rw e (record {
          unique = λ q. omega (
            arith,
            o.unique q,
            count-update_where (same_usage q) (λ x. x.id == r.id)
                (with_payload now run b (build_usage_row_payload b)) rows (λ x _. kept q x),
          );
          free =
              All-mono (IsFree stored rows) _ bs
                (λ c f h. omega (
                  arith,
                  f h,
                  count-update_where (is_row_of type c) (λ x. x.id == r.id)
                      (with_payload now run b (build_usage_row_payload b)) rows
                      (λ x _. kept_row c x),
                ))
                o.free.1;
        })
      ]
    where
      kept :
          (q x : UsageTransaction)
          → same_usage q (with_payload now run b (build_usage_row_payload b) x) ≡ same_usage q x
      kept q x = unfold with_payload in refl

      kept_row :
          (c : UsageBucket) (x : UsageTransaction)
          → is_row_of type c (with_payload now run b (build_usage_row_payload b) x)
            ≡ is_row_of type c x
      kept_row c x = unfold with_payload is_row_of in refl

  upsert_all-IsOpen :
      (stored : List UsageTransaction) (bs : List UsageBucket) (rows : List UsageTransaction)
      (t : UsageTally)
      → IsOpen stored bs rows
      → AreApart bs
      → HasUniqueUsage (upsert_all now run type stored bs rows t).0
  unfolding upsert_all
  upsert_all-IsOpen stored [] rows t o apart = o.unique
  upsert_all-IsOpen stored (b ∷ bs) rows t o apart =
      let found = scalar (λ _ _. false) (is_row_of type b) stored in
      upsert_all-IsOpen stored bs (upsert_usage now run type b found rows) (tally_bucket b found t)
        (upsert-IsOpen stored b bs rows o apart.0) apart.1

  count_usage_kept :
      (s : CalculationStatus) (t : UsageTally)
      → ((count_usage s t).created ≡ t.created) × ((count_usage s t).updated ≡ t.updated)
  count_usage_kept CalculationStatus.complete t = (refl, refl)
  count_usage_kept CalculationStatus.partial t = (refl, refl)
  count_usage_kept CalculationStatus.blocked t = (refl, refl)

  upsert_counts :
      (b : UsageBucket) (o : Option UsageTransaction) (rows : List UsageTransaction)
      (t : UsageTally)
      → ((tally_bucket b o t).created + (tally_bucket b o t).updated ≡ t.created + t.updated + 1)
        × (length (upsert_usage now run type b o rows) + t.created
            ≡ length rows + (tally_bucket b o t).created)
  unfolding upsert_usage modify
  upsert_counts b none rows t =
      let kept = count_usage_kept (build_usage_row_payload b).calculation_status t in
      (
        omega (arith, kept.0, kept.1),
        omega (
          arith,
          kept.0,
          length-append rows
              (new_usage now run type b (build_usage_row_payload b) (next_id rows) ∷ []),
        ),
      )
  upsert_counts b (some r) rows t =
      let kept = count_usage_kept (build_usage_row_payload b).calculation_status t in
      (
        omega (arith, kept.0, kept.1),
        omega (
          arith,
          kept.0,
          length-update_where (λ x. x.id == r.id)
              (with_payload now run b (build_usage_row_payload b)) rows,
        ),
      )

  upsert_all-counts :
      (stored : List UsageTransaction) (bs : List UsageBucket) (rows : List UsageTransaction)
      (t : UsageTally)
      → let result = upsert_all now run type stored bs rows t in
        (result.1.created + result.1.updated ≡ t.created + t.updated + length bs)
        × (length result.0 + t.created ≡ length rows + result.1.created)
  unfolding upsert_all
  upsert_all-counts stored [] rows t = (omega arith, refl)
  upsert_all-counts stored (b ∷ bs) rows t =
      let found = scalar (λ _ _. false) (is_row_of type b) stored in
      let step = upsert_counts b found rows t in
      let rest =
        upsert_all-counts stored bs (upsert_usage now run type b found rows)
          (tally_bucket b found t) in
      (omega (arith, step.0, rest.0), omega (arith, step.1, rest.1))

same_usage_self : (x : UsageTransaction) → same_usage x x ≡ true
same_usage_self x = ground (
  arith,
  ==_refl x.service_point_id,
  ==_refl x.measuring_component_id,
  text_eq_refl x.usage_type,
  ==_refl x.period_start_at,
  ==_refl x.period_end_at,
)

-- a table that satisfies the constraint passes it
unique-keeps : (rows : List UsageTransaction) → HasUniqueUsage rows → keeps_unique_usage rows ≡ true
unfolding keeps_unique_usage
unique-keeps [] u = refl
unique-keeps (x ∷ rows) u =
    let others : count (same_usage x) rows ≡ 0 = omega (arith, rw (same_usage_self x) at (u x)) in
    rw (count-zero_any (same_usage x) rows others) (unique-keeps rows (λ r. omega (arith, u r)))

-- what an accepted calculation over these buckets leaves
pub record IsAccepted (buckets : List UsageBucket) (before : BillingDb)
    (result : BillingDb × UsageResult) : Type 0 where
  pub summary : UsageSummary
  pub completed : result.1 ≡ UsageResult.ok summary
  pub each_bucket : summary.created + summary.updated ≡ length buckets
  pub added : length result.0.usages ≡ length before.usages + summary.created
  pub table : IsUsageTable result.0.usages

end_usage_ok :
    (now : ℕ) (run : PipelineRun) (type : Text) (n : ℕ) (rows : List UsageTransaction)
    (t : UsageTally) (before db : BillingDb)
    → HasUniqueUsage rows
    → (end_usage now run type n (rows, t) before db).0.usages ≡ rows
      × ((end_usage now run type n (rows, t) before db).1
          ≡ UsageResult.ok (summarize_usage type n t))
unfolding end_usage
end_usage_ok now run type n rows t before db u = rw (unique-keeps rows u) (refl, refl)

module _ (zones : Zones) (now : ℕ) (type : UsageType) (q : Filters) (trigger : Text)
    (db : BillingDb) (buckets : List UsageBucket) where
  run_usage-IsAccepted :
      IsUsageTable db.usages
      → build_usage_buckets zones db.hes_systems db.core type
          (load_final_measurements q db.core.finals)
          []
        ≡ some buckets
      → AreApart buckets
      → IsUsageTable (run_usage zones now type q trigger db).0.usages
      → IsAccepted buckets db (run_usage zones now type q trigger db)
  unfolding run_usage use_buckets
  run_usage-IsAccepted v e apart =
      let started = start_pipeline_run now PipelineName.usage trigger no_links db.core in
      let code = usage_code type in
      let result = upsert_all now started.1 code db.usages buckets db.usages no_usage in
      let at_first : IsOpen now started.1 code db.usages buckets db.usages = record {
        unique = v.scopes;
        free = always now started.1 code db.usages buckets;
      } in
      let unique =
        upsert_all-IsOpen now started.1 code db.usages buckets db.usages no_usage at_first apart in
      let ended =
        end_usage_ok now started.1 code (length buckets) result.0 result.1 db
          (record db { core = started.0 }) unique in
      let counts = upsert_all-counts now started.1 code db.usages buckets db.usages no_usage in
      rw e (λ table. record {
        summary = summarize_usage code (length buckets) result.1;
        completed = ended.1;
        each_bucket = omega (arith, counts.0);
        added = omega (arith, ap length ended.0, counts.1);
        table = table;
      })
    where
      always :
          (n : ℕ) (run : PipelineRun) (code : Text) (rows : List UsageTransaction)
          (bs : List UsageBucket)
          → All (IsFree n run code rows rows) bs
      always n run code rows [] = tt
      always n run code rows (b ∷ bs) =
          (any-count (is_row_of code b) rows, always n run code rows bs)

-- Where ids and scopes of usage rows are unique and the selected measurements can be put into buckets no
-- two of which belong to one row, the unique constraint refuses nothing: a calculation completes, counts
-- each bucket as one row created or updated, adds as many rows as it counts as created, and keeps unique
-- ids and one row for each service point, component, type and period.
pub calculate_usage_transactions-IsAccepted :
    (zones : Zones) (now : ℕ) (type : UsageType) (q : Filters) (trigger : Text) (db : BillingDb)
    (buckets : List UsageBucket)
    → IsUsageTable db.usages
    → build_usage_buckets zones db.hes_systems db.core type
        (load_final_measurements q db.core.finals)
        []
      ≡ some buckets
    → AreApart buckets
    → IsAccepted buckets db (calculate_usage_transactions zones now (usage_code type) q trigger db)
unfolding calculate_usage_transactions
calculate_usage_transactions-IsAccepted zones now type q trigger db buckets v e apart =
    let read = read_own type in
    let table : IsUsageTable (run_usage zones now type q trigger db).0.usages =
      rw read at
        (calculate_usage_transactions-IsUsageTable zones now (usage_code type) q trigger db v) in
    rw read (run_usage-IsAccepted zones now type q trigger db buckets v e apart table)
  where
    read_own : (t : UsageType) → read_usage_type (usage_code t) ≡ some t
    read_own UsageType.daily = unfold read_usage_type text_eq in refl
    read_own UsageType.monthly = unfold read_usage_type text_eq in refl
