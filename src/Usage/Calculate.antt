-- ===== src/Usage/Calculate.antt =====
-- app/services/usage.py: `calculate_usage_transactions`. The loop does not flush: it queries the rows
-- as they were stored when the run began, and new rows meet the unique constraint at the end.
use sim_mdms_auto.Prelude.{
  ℕ, ◌+◌, Bool, true, false, ◌&&◌, not, Option, none, some, List, [], ◌∷◌, ◌++◌, Text, codes,
  text_eq, ◌==◌, ltb, leb, if◌then◌else◌, any, length, order_by, select, scalar, by_id, modify,
  next_id,
}
use sim_mdms_auto.Model.{FinalMeasurement, FinalStatus, final_id}
use sim_mdms_auto.Ops.Rows.{PipelineName, PipelineRun}
use sim_mdms_auto.Ops.Pipeline.{
  start_pipeline_run, complete_pipeline_run, fail_pipeline_run, upsert_processing_watermark,
  no_links,
}
use sim_mdms_auto.Billing.Revisions.{CalculationStatus, later}
use sim_mdms_auto.Billing.Rows.{UsageTransaction, usage_id}
use sim_mdms_auto.Billing.Store.{BillingDb, Filters, filter_id, same_usage}
use sim_mdms_auto.Billing.Determinants.{move_watermark}
use sim_mdms_auto.Usage.Windows.{Zones, UsageType, usage_code, read_usage_type}
use sim_mdms_auto.Usage.Buckets.{
  UsageBucket, UsagePayload, build_usage_buckets, build_usage_row_payload,
}

abbrev pub is_finalized : FinalStatus → Bool
is_finalized FinalStatus.finalized = true
is_finalized _ = false

-- a comparison with a NULL time passes no row
abbrev pub at_or_after : Option ℕ → Option ℕ → Bool
at_or_after none value = true
at_or_after (some t) none = false
at_or_after (some t) (some at) = leb t at

abbrev pub at_or_before : Option ℕ → Option ℕ → Bool
at_or_before none value = true
at_or_before (some t) none = false
at_or_before (some t) (some at) = leb at t

abbrev pub is_source_final : Filters → FinalMeasurement → Bool
is_source_final q f =
    is_finalized f.final_status
    && f.is_current
    && filter_id q.service_point_id f.service_point_id
    && filter_id q.measuring_component_id f.measuring_component_id
    && at_or_after q.date_from f.measured_at
    && at_or_before q.date_to f.measured_at

unfoldable pub load_final_measurements : Filters → List FinalMeasurement → List FinalMeasurement
load_final_measurements q finals = order_by by_id (select (is_source_final q) finals)

-- the usage row of a bucket's scope
unfoldable pub is_row_of : Text → UsageBucket → UsageTransaction → Bool
is_row_of type b r =
    r.service_point_id == b.service_point_id
    && r.measuring_component_id == b.measuring_component_id
    && text_eq r.usage_type type
    && r.period_start_at == b.period_start_at
    && r.period_end_at == b.period_end_at

-- the columns that the calculation writes, in a new row and in an old one
unfoldable pub with_payload :
    ℕ → PipelineRun → UsageBucket → UsagePayload → UsageTransaction → UsageTransaction
with_payload now run b p r = record r {
  pipeline_run_id = run.id;
  device_id = b.device_id;
  window_timezone_name = b.window_timezone_name;
  interval_size_minutes = p.interval_size_minutes;
  unit_of_measure = p.unit_of_measure;
  usage_value = p.usage_value;
  source_final_count = b.source_final_count;
  missing_interval_count = p.missing_interval_count;
  quality_summary = p.quality_summary;
  calculation_status = p.calculation_status;
  calculated_at = now;
}

unfoldable pub new_usage :
    ℕ → PipelineRun → Text → UsageBucket → UsagePayload → ℕ → UsageTransaction
new_usage now run type b p new_id = record {
  id = new_id;
  pipeline_run_id = run.id;
  service_point_id = b.service_point_id;
  measuring_component_id = b.measuring_component_id;
  device_id = b.device_id;
  usage_type = type;
  period_start_at = b.period_start_at;
  period_end_at = b.period_end_at;
  window_timezone_name = b.window_timezone_name;
  interval_size_minutes = p.interval_size_minutes;
  unit_of_measure = p.unit_of_measure;
  usage_value = p.usage_value;
  source_final_count = b.source_final_count;
  missing_interval_count = p.missing_interval_count;
  quality_summary = p.quality_summary;
  calculation_status = p.calculation_status;
  calculated_at = now;
}

pub record UsageTally : Type 0 where
  pub created : ℕ
  pub updated : ℕ
  pub complete : ℕ
  pub partial : ℕ
  pub blocked : ℕ
  pub latest : Option ℕ

abbrev pub count_usage : CalculationStatus → UsageTally → UsageTally
count_usage CalculationStatus.complete t = record t { complete = t.complete + 1 }
count_usage CalculationStatus.partial t = record t { partial = t.partial + 1 }
count_usage CalculationStatus.blocked t = record t { blocked = t.blocked + 1 }

unfoldable pub upsert_usage :
    ℕ
    → PipelineRun
    → Text
    → UsageBucket
    → Option UsageTransaction
    → List UsageTransaction
    → List UsageTransaction
unfolding build_usage_row_payload with_payload new_usage
upsert_usage now run type b none rows =
    rows ++ new_usage now run type b (build_usage_row_payload b) (next_id rows) ∷ []
upsert_usage now run type b (some r) rows =
    modify r.id (with_payload now run b (build_usage_row_payload b)) rows

abbrev pub count_found : Option UsageTransaction → UsageTally → UsageTally
count_found none t = record t { created = t.created + 1 }
count_found (some r) t = record t { updated = t.updated + 1 }

abbrev pub tally_bucket : UsageBucket → Option UsageTransaction → UsageTally → UsageTally
tally_bucket b o t =
    record (count_found o (count_usage (build_usage_row_payload b).calculation_status t)) {
      latest = some (later b.period_end_at t.latest);
    }

unfoldable pub upsert_all :
    ℕ
    → PipelineRun
    → Text
    → List UsageTransaction
    → List UsageBucket
    → List UsageTransaction
    → UsageTally
    → List UsageTransaction × UsageTally
unfolding is_row_of upsert_usage build_usage_row_payload
upsert_all now run type stored [] rows t = (rows, t)
upsert_all now run type stored (b ∷ bs) rows t =
    let o = scalar (λ _ _. false) (is_row_of type b) stored in
    upsert_all now run type stored bs (upsert_usage now run type b o rows) (tally_bucket b o t)

-- the unique constraint that the database checks at the flush
unfoldable pub keeps_unique_usage : List UsageTransaction → Bool
keeps_unique_usage [] = true
keeps_unique_usage (r ∷ rows) = not (any (same_usage r) rows) && keeps_unique_usage rows

pub record UsageSummary : Type 0 where
  pub usage_type : Text
  pub groups : ℕ
  pub created : ℕ
  pub updated : ℕ
  pub complete : ℕ
  pub partial : ℕ
  pub blocked : ℕ

pub data UsageResult : Type 0 where
  ok : UsageSummary → UsageResult
  -- `ValueError`
  unsupported_type : UsageResult
  -- a required column is missing: the run is marked failed and the exception raised again
  failed_exception : UsageResult
  -- the flush met the unique constraint: the transaction is lost and the exception raised again
  failed_flush : UsageResult

unfoldable pub usage_result_code : UsageSummary → Text
usage_result_code s =
    if s.groups == 0
    then codes "usage_noop"
    else if ltb 0 s.blocked
    then codes "usage_completed_with_blocked"
    else if ltb 0 s.partial
    then codes "usage_completed_with_partial"
    else codes "usage_completed"

abbrev pub summarize_usage : Text → ℕ → UsageTally → UsageSummary
summarize_usage type groups t = record {
  usage_type = type;
  groups = groups;
  created = t.created;
  updated = t.updated;
  complete = t.complete;
  partial = t.partial;
  blocked = t.blocked;
}

abbrev pub no_usage : UsageTally
no_usage = record {
  created = 0;
  updated = 0;
  complete = 0;
  partial = 0;
  blocked = 0;
  latest = none;
}

-- after the loop: the flush, the watermark and the end of the run; `before` is the store of the caller
unfoldable pub end_usage :
    ℕ
    → PipelineRun
    → Text
    → ℕ
    → List UsageTransaction × UsageTally
    → BillingDb
    → BillingDb
    → BillingDb × UsageResult
unfolding complete_pipeline_run upsert_processing_watermark usage_result_code keeps_unique_usage
end_usage now run type groups (rows, t) before db =
    let summary = summarize_usage type groups t in
    let moved = move_watermark PipelineName.usage type t.latest db.core in
    let ended = record db {
      usages = rows;
      core = complete_pipeline_run now run (some (usage_result_code summary)) none moved;
    } in
    if keeps_unique_usage rows
    then (ended, UsageResult.ok summary)
    else (before, UsageResult.failed_flush)

unfoldable pub use_buckets :
    ℕ
    → PipelineRun
    → Text
    → Option (List UsageBucket)
    → BillingDb
    → BillingDb
    → BillingDb × UsageResult
unfolding end_usage fail_pipeline_run upsert_all
use_buckets now run type none before db = (
  record db {
    core = fail_pipeline_run now run (some (codes "usage_failed_exception")) none db.core;
  },
  UsageResult.failed_exception,
)
use_buckets now run type (some buckets) before db =
    end_usage now run type (length buckets)
      (upsert_all now run type db.usages buckets db.usages no_usage) before db

unfoldable pub run_usage :
    Zones → ℕ → UsageType → Filters → Text → BillingDb → BillingDb × UsageResult
unfolding load_final_measurements build_usage_buckets use_buckets start_pipeline_run
run_usage zones now type q trigger db =
    let (core, run) = start_pipeline_run now PipelineName.usage trigger no_links db.core in
    use_buckets now run (usage_code type)
      (build_usage_buckets zones db.hes_systems db.core type
        (load_final_measurements q db.core.finals) [])
      db (record db { core = core })

abbrev pub run_read_type :
    Zones → ℕ → Option UsageType → Filters → Text → BillingDb → BillingDb × UsageResult
run_read_type zones now none q trigger db = (db, UsageResult.unsupported_type)
run_read_type zones now (some type) q trigger db = run_usage zones now type q trigger db

unfoldable pub calculate_usage_transactions :
    Zones → ℕ → Text → Filters → Text → BillingDb → BillingDb × UsageResult
unfolding run_usage read_usage_type
calculate_usage_transactions zones now type q trigger db =
    run_read_type zones now (read_usage_type type) q trigger db
