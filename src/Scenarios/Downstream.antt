-- ===== src/Scenarios/Downstream.antt =====
-- A run of app/services/downstream_recalculation.py: two measurements of a month with no usage yet.
use sim_mdms_auto.Prelude.{
  Option, none, some, [], ◌≡◌, refl, pos, select, first_by, scalar, order_by, get, text_eq, strip,
}
use sim_mdms_auto.Billing.Rows.{usage_id, determinant_id, charge_id}
use sim_mdms_auto.Billing.Store.{BillingDb}
use sim_mdms_auto.ProcessingReplay.Windows.{UsageReplay}
use sim_mdms_auto.Downstream.{Artifacts, recalculate_downstream_artifacts}
use sim_mdms_auto.Downstream.Billed.{IsBilled, recalculate_downstream_artifacts-IsBilled}
use sim_mdms_auto.Scenarios.Data.{noon, store}
use sim_mdms_auto.Scenarios.Billing.{
  billing_store, manual, determinants-IsRevised, charges-IsRevised,
}
use sim_mdms_auto.Scenarios.Usage.{usages-IsUsageTable, zones, final_row, finals}

abbrev measured : BillingDb
measured = record billing_store { core = record store { finals = finals } }

abbrev outcome : Option (UsageReplay × Artifacts)
outcome = recalculate_downstream_artifacts zones noon none (final_row 1 (pos 30000)) manual measured

abbrev nothing : UsageReplay × Artifacts
nothing = (
  record {
    db = measured;
    daily_usage_groups_updated = 0;
    daily_usage_rows_deleted = 0;
    monthly_usage_groups_updated = 0;
    monthly_usage_rows_deleted = 0;
    results = [];
  },
  record { db = measured; determinant_summary = none; charge_summary = none },
)

abbrev result_of : Option (UsageReplay × Artifacts) → UsageReplay × Artifacts
result_of none = nothing
result_of (some x) = x

succeeds : outcome ≡ some (result_of outcome)
unfolding recalculate_downstream_artifacts select first_by scalar order_by get text_eq strip
succeeds = refl

measured-IsBilled : IsBilled measured
measured-IsBilled = record {
  usages = usages-IsUsageTable;
  determinants = determinants-IsRevised;
  plain = (refl, tt);
  charges = charges-IsRevised;
}

recalculate_downstream_artifacts-IsBilled_example : IsBilled (result_of outcome).1.db
recalculate_downstream_artifacts-IsBilled_example =
    recalculate_downstream_artifacts-IsBilled zones noon none (final_row 1 (pos 30000)) manual
      measured (result_of outcome).0 (result_of outcome).1 succeeds measured-IsBilled
