-- ===== src/Billing/Determinants/Runs.antt =====
-- Properties of app/services/bill_determinants.py: whole runs.
use sim_mdms_auto.Prelude.{
  ℕ, Bool, true, false, List, [], ◌∷◌, Text, ◌≡◌, refl, subst, sym, length, All, All-mono,
}
use sim_mdms_auto.Ops.Rows.{PipelineRun, PipelineName}
use sim_mdms_auto.Ops.Pipeline.{start_pipeline_run, no_links}
use sim_mdms_auto.Billing.Revisions.{Revising, Progress, no_rows, revise_all}
use sim_mdms_auto.Billing.Rows.{
  UsageTransaction, BillDeterminant, ServicePointBillingContext, usage_id, determinant_id,
}
use sim_mdms_auto.Billing.Store.{
  BillingDb, HasUniqueUsage, BillingScope, Trigger, Filters, CalculationResult, summarize,
}
use sim_mdms_auto.Billing.Laws.{IsRevising, IsRevised, settled}
use sim_mdms_auto.Billing.Loop.{IsRun}
use sim_mdms_auto.Billing.Keys.{from_stored-IsRun}
use sim_mdms_auto.Billing.Determinants.{
  is_current_determinant, determinant_rules, same_determinant_snapshot, end_determinants,
  run_determinants,
}
use sim_mdms_auto.Billing.DeterminantPayloads.{
  build_bill_determinant_payload, load_source_usage_transactions, DeterminantPayload,
}
use sim_mdms_auto.Billing.Determinants.Laws.{determinant_rules-IsRevising, load-Distinct}

-- the end of a run stores the rows of the loop and keeps the source tables
pub record IsEnd (rows : List BillDeterminant) (before after : BillingDb) : Type 0 where
  pub determinants : after.determinants ≡ rows
  pub usages : after.usages ≡ before.usages
  pub contexts : after.billing_contexts ≡ before.billing_contexts

end_determinants-IsEnd :
    (now : ℕ) (run : PipelineRun) (type : Text) (n : ℕ) (result : Progress BillDeterminant × Bool)
    (db : BillingDb)
    → IsEnd result.0.rows db (end_determinants now run type n result db).0
unfolding end_determinants
end_determinants-IsEnd now run type n (p, true) db = record {
  determinants = refl;
  usages = refl;
  contexts = refl;
}
end_determinants-IsEnd now run type n (p, false) db = record {
  determinants = refl;
  usages = refl;
  contexts = refl;
}

end_determinants_ok :
    (now : ℕ) (run : PipelineRun) (type : Text) (n : ℕ) (result : Progress BillDeterminant × Bool)
    (db : BillingDb)
    → result.1 ≡ true
    → (end_determinants now run type n result db).1
      ≡ CalculationResult.ok (summarize type n result.0.tally)
unfolding end_determinants
end_determinants_ok now run type n (p, true) db h = refl
end_determinants_ok now run type n (p, false) db h = absurd (cc)

module _ (type : Text) (f : Filters) where
  abbrev pub started : ℕ → Trigger → BillingDb → PipelineRun
  started now t db =
      (start_pipeline_run now PipelineName.bill_determinant t.trigger_type no_links db.core).1

  abbrev pub sources : BillingDb → List UsageTransaction
  sources db = load_source_usage_transactions f db.usages

  abbrev pub rules :
      ℕ
      → Trigger
      → BillingDb
      → Revising UsageTransaction BillingScope DeterminantPayload BillDeterminant
  rules now t db = determinant_rules now (started now t db) type t db.billing_contexts

  abbrev pub rules_law : (now : ℕ) (t : Trigger) (db : BillingDb) → IsRevising (rules now t db)
  rules_law now t db =
      determinant_rules-IsRevising now (started now t db) type t db.billing_contexts

  abbrev pub start : BillingDb → Progress BillDeterminant
  start db = record { rows = db.determinants; tally = no_rows }

  abbrev pub outcome : ℕ → Trigger → BillingDb → Progress BillDeterminant × Bool
  outcome now t db = revise_all (rules now t db) db.determinants (sources db) (start db)

  pub run_determinants-IsEnd :
      (now : ℕ) (t : Trigger) (db : BillingDb)
      → IsEnd (outcome now t db).0.rows db (run_determinants now type f t db).0
  unfolding run_determinants start_pipeline_run
  run_determinants-IsEnd now t db =
      let e =
        end_determinants-IsEnd now (started now t db) type (length (sources db)) (outcome now t db)
          _ in
      record { determinants = e.determinants; usages = e.usages; contexts = e.contexts }

  -- the loop of determinants raises nothing
  pub finished :
      (now : ℕ) (run : PipelineRun) (t : Trigger) (contexts : List ServicePointBillingContext)
      (stored : List BillDeterminant) (rows : List UsageTransaction) (s : Progress BillDeterminant)
      → (revise_all (determinant_rules now run type t contexts) stored rows s).1 ≡ true
  unfolding revise_all determinant_rules
  finished now run t contexts stored [] s = refl
  finished now run t contexts stored (r ∷ rows) s = finished now run t contexts stored rows _

  pub run_determinants_ok :
      (now : ℕ) (t : Trigger) (db : BillingDb)
      → (run_determinants now type f t db).1
        ≡ CalculationResult.ok (summarize type (length (sources db)) (outcome now t db).0.tally)
  unfolding run_determinants
  run_determinants_ok now t db =
      end_determinants_ok now (started now t db) type (length (sources db)) (outcome now t db) _ (
        finished now (started now t db) t db.billing_contexts db.determinants (sources db)
          (start db))

  pub outcome-IsRun :
      (now : ℕ) (t : Trigger) (db : BillingDb)
      → HasUniqueUsage db.usages
      → IsRevised is_current_determinant db.determinants
      → IsRun (rules now t db) (rules_law now t db) (sources db) db.determinants (outcome now t db)
  unfolding determinant_rules
  outcome-IsRun now t db u v =
      from_stored-IsRun (rules now t db) (rules_law now t db) (sources db) (start db)
        (load-Distinct now (started now t db) type t db.billing_contexts f db.usages u) v

  -- whether a row is settled hangs on the billing contexts, not on the trigger or the run
  settled_any_run :
      (now later : ℕ) (run run' : PipelineRun) (t t' : Trigger)
      (contexts : List ServicePointBillingContext) (r : UsageTransaction)
      (rows : List BillDeterminant)
      → settled
          (determinant_rules now run type t contexts)
          (determinant_rules-IsRevising now run type t contexts)
          r
          rows
        ≡ true
      → settled
          (determinant_rules later run' type t' contexts)
          (determinant_rules-IsRevising later run' type t' contexts)
          r
          rows
        ≡ true
  unfolding determinant_rules build_bill_determinant_payload same_determinant_snapshot
  settled_any_run now later run run' t t' contexts r rows h = h

  pub second_settled :
      (now later : ℕ) (t t' : Trigger) (db db' : BillingDb)
      → IsEnd (outcome now t db).0.rows db db'
      → HasUniqueUsage db.usages
      → IsRevised is_current_determinant db.determinants
      → All
          (λ r. settled (rules later t' db') (rules_law later t' db') r db'.determinants ≡ true)
          (sources db')
  second_settled now later t t' db db' e u v =
      let run' = started later t' db' in
      let first = (outcome-IsRun now t db u v).done (
        finished now (started now t db) t db.billing_contexts db.determinants (sources db)
          (start db)) in
      let moved =
        All-mono _ _ (sources db)
          (λ r. settled_any_run now later (started now t db) run' t t' db.billing_contexts r _)
          first in
      let a =
        subst
          (λ rows.
            All
              (λ r.
                settled (determinant_rules later run' type t' db.billing_contexts)
                  (determinant_rules-IsRevising later run' type t' db.billing_contexts) r rows
                ≡ true)
              (sources db))
          (sym e.determinants) moved in
      let b =
        subst
          (λ usages.
            All
              (λ r.
                settled (determinant_rules later run' type t' db.billing_contexts)
                  (determinant_rules-IsRevising later run' type t' db.billing_contexts) r
                  db'.determinants
                ≡ true)
              (load_source_usage_transactions f usages))
          (sym e.usages) a in
      subst
        (λ contexts.
          All
            (λ r.
              settled (determinant_rules later run' type t' contexts)
                (determinant_rules-IsRevising later run' type t' contexts) r db'.determinants
              ≡ true)
            (load_source_usage_transactions f db'.usages))
        (sym e.contexts) b
