-- ===== src/Scenarios/Usage.antt =====
-- Runs of app/services/usage.py.
use sim_mdms_auto.Prelude.{
  select, order_by, insert_by, All, is_some, ℕ, ◌+◌, ◌-◌, ◌*◌, ◌/◌, ◌%◌, true, false, none, some,
  [], ◌∷◌, List, codes, ◌≡◌, refl, arith, ℤ, pos, ◌+ℤ◌, length, text_eq, get,
}
use sim_mdms_auto.Model.{FinalMeasurement, FinalStatus, canonical_id, raw_id}
use sim_mdms_auto.Store.{raw_of_canonical}
use sim_mdms_auto.Billing.Rows.{usage_id}
use sim_mdms_auto.Usage.Windows.{
  Zone, Zones, UsageType, usage_code, derive_window, next_day, resolve_usage_timezone, zone_named,
  configured_name,
}
use sim_mdms_auto.Usage.Buckets.{
  UsageBucket, build_usage_buckets, final_columns, raw_of_final, put_bucket, same_bucket, add_final,
  bucket_for, empty_bucket,
}
use sim_mdms_auto.Usage.Calculate.{calculate_usage_transactions, load_final_measurements}
use sim_mdms_auto.Usage.Accepted.{IsAccepted, calculate_usage_transactions-IsAccepted}
use sim_mdms_auto.Billing.Store.{BillingDb}
use sim_mdms_auto.Usage.Totals.{total, finals_in, sum_of_finals, build_usage_buckets-total}
use sim_mdms_auto.Usage.Uniqueness.{IsUsageTable}
use sim_mdms_auto.Scenarios.Data.{noon, store}
use sim_mdms_auto.Scenarios.Billing.{billing_store, no_filters}

abbrev day_length : ℕ
day_length = 86_400_000_000

-- June of a clock that starts with it, and the days of July
abbrev june : Zone
june = record {
  to_local = λ t. record {
    year = 2026;
    month = 6;
    day = t / day_length + 1;
    microseconds = t % day_length;
    fold = false;
  };
  to_utc = λ l. ((l.month - 6) * 30 + l.day - 1) * day_length + l.microseconds;
}

abbrev pub zones : Zones
zones = record { find = λ name. none; utc = june }

abbrev pub final_row : ℕ → ℤ → FinalMeasurement
final_row n v = record {
  id = n;
  initial_measurement_id = some n;
  canonical_measurement_id = n;
  measuring_component_id = some 1;
  device_id = some 1;
  service_point_id = some 1;
  measured_at = some noon;
  value = some v;
  quality_code = none;
  status_code = none;
  unit_of_measure = some (codes "kWh");
  final_status = FinalStatus.finalized;
  finalized_at = noon;
  revision_number = 1;
  revision_reason_code = none;
  is_current = true;
  supersedes_final_measurement_id = none;
}

abbrev pub finals : List FinalMeasurement
finals = final_row 1 (pos 30000) ∷ final_row 3 (pos 12000) ∷ []

abbrev day_bucket : UsageBucket
day_bucket = record {
  service_point_id = 1;
  measuring_component_id = 1;
  device_id = 1;
  period_start_at = 0;
  period_end_at = day_length;
  window_timezone_name = codes "UTC";
  usage_value = pos 42000;
  source_final_count = 2;
  unit_of_measure_values = codes "kWh" ∷ [];
  interval_size_values = some 15 ∷ [];
  quality_codes = [];
}

finals-columns : All (λ f. is_some (final_columns f) ≡ true) finals
unfolding final_columns
finals-columns = (refl, (refl, tt))

build_usage_buckets-total_example :
    (bs : List UsageBucket) × (build_usage_buckets zones [] store UsageType.daily finals []
      ≡ some bs)
    × (total bs ≡ total [] +ℤ sum_of_finals finals)
    × (finals_in bs ≡ finals_in [] + length finals)
build_usage_buckets-total_example =
    build_usage_buckets-total zones [] store UsageType.daily finals [] finals-columns

day_built : build_usage_buckets zones [] store UsageType.daily finals [] ≡ some (day_bucket ∷ [])
unfolding build_usage_buckets final_columns raw_of_final raw_of_canonical put_bucket same_bucket
    add_final bucket_for empty_bucket derive_window next_day resolve_usage_timezone zone_named
    configured_name get text_eq
day_built = refl

pub usages-IsUsageTable : IsUsageTable billing_store.usages
usages-IsUsageTable = record { ids = λ n. ground arith; scopes = λ r. ground arith }

abbrev measured : BillingDb
measured = record billing_store { core = record store { finals = finals } }

loaded :
    build_usage_buckets zones measured.hes_systems measured.core UsageType.daily
      (load_final_measurements no_filters measured.core.finals)
      []
    ≡ some (day_bucket ∷ [])
unfolding build_usage_buckets final_columns raw_of_final raw_of_canonical put_bucket same_bucket
    add_final bucket_for empty_bucket derive_window next_day resolve_usage_timezone zone_named
    configured_name get text_eq load_final_measurements select order_by insert_by
loaded = refl

calculate_usage_transactions-IsAccepted_example : IsAccepted (day_bucket ∷ []) measured (
    calculate_usage_transactions zones noon
      (usage_code UsageType.daily)
      no_filters
      (codes "manual")
      measured)
calculate_usage_transactions-IsAccepted_example =
    calculate_usage_transactions-IsAccepted zones noon UsageType.daily no_filters (codes "manual")
      measured (day_bucket ∷ []) usages-IsUsageTable loaded (tt, tt)
