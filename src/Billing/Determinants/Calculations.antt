-- ===== src/Billing/Determinants/Calculations.antt =====
-- Properties of app/services/bill_determinants.py: `calculate_bill_determinants`.
use sim_mdms_auto.Prelude.{
  ℕ, ◌+◌, true, List, Text, ◌≡◌, refl, subst, ◌∙◌, sym, arith, length, All, Bool-cases, inl, inr,
}
use sim_mdms_auto.Billing.Rows.{BillDeterminant, usage_id, determinant_id}
use sim_mdms_auto.Billing.Store.{
  BillingDb, HasUniqueUsage, Trigger, Filters, CalculationSummary, CalculationResult, summarize,
}
use sim_mdms_auto.Billing.Laws.{IsRevised}
use sim_mdms_auto.Billing.Tallies.{revise_all-counts, revise_all-IsReuse}
use sim_mdms_auto.Billing.Determinants.{
  is_current_determinant, determinant_rules, run_determinants, calculate_bill_determinants,
  new_determinant,
}
use sim_mdms_auto.Billing.DeterminantPayloads.{
  load_source_usage_transactions, is_supported_determinant_type,
}
use sim_mdms_auto.Billing.Determinants.Laws.{is_plain}
use sim_mdms_auto.Billing.Kept.{revise_all-All}
use sim_mdms_auto.Billing.Determinants.Runs.{
  started, sources, rules, rules_law, start, outcome, run_determinants-IsEnd, finished,
  run_determinants_ok, outcome-IsRun, second_settled,
}

-- A calculation of determinants of any type over any filters keeps unique ids and at most one current
-- determinant for each service point, component, type and billing period, where usage rows are unique
-- as the database has them.
pub calculate_bill_determinants-IsRevised :
    (now : ℕ) (type : Text) (f : Filters) (t : Trigger) (db : BillingDb)
    → HasUniqueUsage db.usages
    → IsRevised is_current_determinant db.determinants
    → IsRevised is_current_determinant (calculate_bill_determinants now type f t db).0.determinants
unfolding calculate_bill_determinants determinant_rules
calculate_bill_determinants-IsRevised now type f t db u v =
    elim (Bool-cases (is_supported_determinant_type type)) [
      | inl e ↦ rw e (
          subst (IsRevised is_current_determinant)
            (sym (run_determinants-IsEnd type f now t db).determinants)
            (outcome-IsRun type f now t db u v).revised)
      | inr e ↦ rw e v
    ]

-- the run was completed, and its summary counts each source row once by outcome and by status
pub record IsBalanced (groups : ℕ) (s : CalculationSummary) : Type 0 where
  pub groups_all : s.groups ≡ groups
  pub by_outcome : s.created + s.superseded + s.reused ≡ groups
  pub by_status : s.complete + s.partial + s.blocked ≡ groups

-- A calculation of a supported type completes, and its summary counts the source rows that the
-- filters leave, each once as created, superseded or reused and once as complete, partial or blocked.
pub calculate_bill_determinants-IsBalanced :
    (now : ℕ) (type : Text) (f : Filters) (t : Trigger) (db : BillingDb)
    → is_supported_determinant_type type ≡ true
    → (s : CalculationSummary) × ((calculate_bill_determinants now type f t db).1
        ≡ CalculationResult.ok s)
      × IsBalanced (length (load_source_usage_transactions f db.usages)) s
unfolding calculate_bill_determinants
calculate_bill_determinants-IsBalanced now type f t db h =
    let c =
      revise_all-counts (rules type f now t db) db.determinants (sources type f db)
        (start type f db)
        (finished type f now (started type f now t db) t db.billing_contexts db.determinants
          (sources type f db) (start type f db)) in
    (
      summarize type (length (sources type f db)) (outcome type f now t db).0.tally,
      rw h (run_determinants_ok type f now t db),
      record { groups_all = refl; by_outcome = omega (arith, c.0); by_status = omega (arith, c.1) },
    )

-- the calculation completed, kept these rows, and counts only reused ones
pub record ReusesAll (rows : List BillDeterminant) (result : BillingDb × CalculationResult)
    : Type 0 where
  pub summary : CalculationSummary
  pub same_rows : result.0.determinants ≡ rows
  pub completed : result.1 ≡ CalculationResult.ok summary
  pub created : summary.created ≡ 0
  pub superseded : summary.superseded ≡ 0
  pub reused : summary.reused ≡ summary.groups

-- The second of two calculations of a supported type with the same filters, at any later time and by
-- any trigger, creates and supersedes nothing, reuses a row for each source row and leaves the table
-- of determinants as it was, where usage rows are unique and the table is one that a run may leave.
pub calculate_bill_determinants_again :
    (now later : ℕ) (type : Text) (f : Filters) (t t' : Trigger) (db : BillingDb)
    → is_supported_determinant_type type ≡ true
    → HasUniqueUsage db.usages
    → IsRevised is_current_determinant db.determinants
    → let db' = (calculate_bill_determinants now type f t db).0 in
      ReusesAll db'.determinants (calculate_bill_determinants later type f t' db')
unfolding calculate_bill_determinants determinant_rules
calculate_bill_determinants_again now later type f t t' db h u v =
    let db' = (run_determinants now type f t db).0 in
    let e = run_determinants-IsEnd type f now t db in
    let v' : IsRevised is_current_determinant db'.determinants =
      subst (IsRevised is_current_determinant) (sym e.determinants)
        (outcome-IsRun type f now t db u v).revised in
    let reuse =
      revise_all-IsReuse (rules type f later t' db') (rules_law type f later t' db')
        (sources type f db') (start type f db') v'
        (second_settled type f now later t t' db db' e u v) in
    let second : ReusesAll db'.determinants (run_determinants later type f t' db') = record {
      summary = summarize type (length (sources type f db')) (outcome type f later t' db').0.tally;
      same_rows = (run_determinants-IsEnd type f later t' db').determinants ∙ reuse.0.rows;
      completed = run_determinants_ok type f later t' db';
      created = reuse.0.created;
      superseded = reuse.0.superseded;
      reused = omega (arith, reuse.0.reused);
    } in
    rw h second

-- the rows that a calculation writes have no tariff plan, bucket or demand window
pub calculate_bill_determinants-plain :
    (now : ℕ) (type : Text) (f : Filters) (t : Trigger) (db : BillingDb)
    → All (λ d. is_plain d ≡ true) db.determinants
    → All (λ d. is_plain d ≡ true) (calculate_bill_determinants now type f t db).0.determinants
unfolding calculate_bill_determinants determinant_rules new_determinant
calculate_bill_determinants-plain now type f t db h =
    elim (Bool-cases (is_supported_determinant_type type)) [
      | inl e ↦ rw e (
          subst (All (λ d. is_plain d ≡ true))
            (sym (run_determinants-IsEnd type f now t db).determinants)
            (revise_all-All (rules type f now t db) (λ d. is_plain d ≡ true) (λ r p n o. refl)
              (λ d q. q) db.determinants (sources type f db) (start type f db) h))
      | inr e ↦ rw e h
    ]
