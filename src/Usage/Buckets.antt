-- ===== src/Usage/Buckets.antt =====
-- app/services/usage.py: the buckets of final measurements, and the usage row that each gives.
-- What goes only into the JSON `details` is left out.
use sim_mdms_auto.Prelude.{
  ℕ, ◌+◌, ◌-◌, ◌/◌, ◌%◌, Bool, ◌&&◌, not, Option, none, some, ℤ, pos, ◌+ℤ◌, List, [], ◌∷◌, Text,
  codes, text_eq, opt_eq, ltb, ◌==◌, if◌then◌else◌, non_empty, any, get,
}
use sim_mdms_auto.Model.{FinalMeasurement, HesReadRaw, canonical_id, final_id}
use sim_mdms_auto.Store.{Db, raw_of_canonical}
use sim_mdms_auto.Billing.Revisions.{CalculationStatus}
use sim_mdms_auto.Billing.Rows.{HesSystem}
use sim_mdms_auto.Usage.Windows.{Zones, UsageType, derive_window, resolve_usage_timezone}

-- a final measurement with the columns that the database requires
pub record FinalColumns : Type 0 where
  pub service_point_id : ℕ
  pub measuring_component_id : ℕ
  pub device_id : ℕ
  pub measured_at : ℕ
  pub value : ℤ

abbrev pub columns_of : Option ℕ → Option ℕ → Option ℕ → Option ℕ → Option ℤ → Option FinalColumns
columns_of (some point) (some component) (some device) (some at) (some value) = some (record {
  service_point_id = point;
  measuring_component_id = component;
  device_id = device;
  measured_at = at;
  value = value;
})
columns_of _ _ _ _ _ = none

unfoldable pub final_columns : FinalMeasurement → Option FinalColumns
final_columns f =
    columns_of f.service_point_id f.measuring_component_id f.device_id f.measured_at f.value

-- `row.canonical_measurement.hes_read_raw`
unfoldable pub raw_of_final : Db → FinalMeasurement → Option HesReadRaw
unfolding raw_of_canonical
raw_of_final db f = raw_of_canonical db (get f.canonical_measurement_id db.canonicals)

pub record UsageBucket : Type 0 where
  pub service_point_id : ℕ
  pub measuring_component_id : ℕ
  pub device_id : ℕ
  pub period_start_at : ℕ
  pub period_end_at : ℕ
  pub window_timezone_name : Text
  pub usage_value : ℤ
  pub source_final_count : ℕ
  pub unit_of_measure_values : List Text
  pub interval_size_values : List (Option ℕ)
  pub quality_codes : List Text

-- `set.add`
abbrev pub add_text : Option Text → List Text → List Text
add_text none xs = xs
add_text (some s) xs = if not (non_empty s) then xs else if any (text_eq s) xs then xs else s ∷ xs

abbrev pub add_interval : Option ℕ → List (Option ℕ) → List (Option ℕ)
add_interval o xs = if any (opt_eq o) xs then xs else o ∷ xs

abbrev pub interval_of : Option HesReadRaw → Option ℕ
interval_of none = none
interval_of (some raw) = some raw.interval_size_minutes

unfoldable pub empty_bucket : FinalColumns → ℕ × ℕ → Text → UsageBucket
empty_bucket c (start, end) zone = record {
  service_point_id = c.service_point_id;
  measuring_component_id = c.measuring_component_id;
  device_id = c.device_id;
  period_start_at = start;
  period_end_at = end;
  window_timezone_name = zone;
  usage_value = pos 0;
  source_final_count = 0;
  unit_of_measure_values = [];
  interval_size_values = [];
  quality_codes = [];
}

-- equality of the dictionary's keys
unfoldable pub same_bucket : UsageBucket → UsageBucket → Bool
same_bucket a b =
    a.service_point_id == b.service_point_id
    && a.measuring_component_id == b.measuring_component_id
    && a.device_id == b.device_id
    && a.period_start_at == b.period_start_at
    && a.period_end_at == b.period_end_at
    && text_eq a.window_timezone_name b.window_timezone_name

unfoldable pub add_final :
    FinalMeasurement → FinalColumns → Option HesReadRaw → UsageBucket → UsageBucket
add_final f c raw b = record b {
  usage_value = b.usage_value +ℤ c.value;
  source_final_count = b.source_final_count + 1;
  unit_of_measure_values = add_text f.unit_of_measure b.unit_of_measure_values;
  interval_size_values = add_interval (interval_of raw) b.interval_size_values;
  quality_codes = add_text f.quality_code b.quality_codes;
}

-- the bucket of the key is changed where it stands, or a new one comes last
unfoldable pub put_bucket :
    UsageBucket → (UsageBucket → UsageBucket) → List UsageBucket → List UsageBucket
put_bucket new add [] = add new ∷ []
put_bucket new add (b ∷ bs) =
    let rest = b ∷ put_bucket new add bs in if same_bucket new b then add b ∷ bs else rest

-- the new bucket of a row
unfoldable pub bucket_for :
    Zones → List HesSystem → UsageType → FinalColumns → Option HesReadRaw → UsageBucket
unfolding derive_window resolve_usage_timezone empty_bucket
bucket_for zones systems type c raw =
    let (zone, name) = resolve_usage_timezone zones systems raw in
    empty_bucket c (derive_window zone type c.measured_at) name

-- none where a required column is missing
unfoldable pub build_usage_buckets :
    Zones
    → List HesSystem
    → Db
    → UsageType
    → List FinalMeasurement
    → List UsageBucket
    → Option (List UsageBucket)
unfolding final_columns raw_of_final same_bucket add_final put_bucket bucket_for
build_usage_buckets zones systems db type [] buckets = some buckets
build_usage_buckets zones systems db type (f ∷ fs) buckets = elim (final_columns f) [
  | none ↦ none
  | some c ↦
      let raw = raw_of_final db f in
      build_usage_buckets zones systems db type fs
        (put_bucket (bucket_for zones systems type c raw) (add_final f c raw) buckets)
]

-- the number of intervals that a whole window has
unfoldable pub expected_interval_count : ℕ → ℕ → ℕ → Option ℕ
expected_interval_count start end size =
    let minutes = (end - start) / 60_000_000 in
    if size == 0
    then none
    else if minutes == 0
    then none
    else if not (minutes % size == 0)
    then none
    else some (minutes / size)

pub record UsagePayload : Type 0 where
  pub interval_size_minutes : Option ℕ
  pub unit_of_measure : Option Text
  pub usage_value : ℤ
  pub missing_interval_count : ℕ
  pub quality_summary : Text
  pub calculation_status : CalculationStatus

abbrev pub blocked_usage : Option ℕ → Option Text → Text → UsagePayload
blocked_usage size unit quality = record {
  interval_size_minutes = size;
  unit_of_measure = unit;
  usage_value = pos 0;
  missing_interval_count = 0;
  quality_summary = quality;
  calculation_status = CalculationStatus.blocked;
}

abbrev pub counted_usage : UsageBucket → ℕ → Text → ℕ → Text → CalculationStatus → UsagePayload
counted_usage b size unit missing quality status = record {
  interval_size_minutes = some size;
  unit_of_measure = some unit;
  usage_value = b.usage_value;
  missing_interval_count = missing;
  quality_summary = quality;
  calculation_status = status;
}

abbrev pub has_other_quality : List Text → Bool
has_other_quality = any (λ q. not (text_eq q (codes "OK")))

abbrev pub judge_counts : UsageBucket → Text → ℕ → Option ℕ → UsagePayload
judge_counts b unit size none =
    blocked_usage (some size) (some unit) (codes "blocked_mixed_interval")
judge_counts b unit size (some expected) =
    if ltb 0 (expected - b.source_final_count)
    then counted_usage b size unit (expected - b.source_final_count) (codes "missing_intervals")
        CalculationStatus.partial
    else if has_other_quality b.quality_codes
    then counted_usage b size unit 0 (codes "mixed_quality") CalculationStatus.partial
    else counted_usage b size unit 0 (codes "all_finalized") CalculationStatus.complete

abbrev pub judge_intervals : UsageBucket → Text → List (Option ℕ) → UsagePayload
judge_intervals b unit (some size ∷ []) =
    judge_counts b unit size (expected_interval_count b.period_start_at b.period_end_at size)
judge_intervals b unit _ = blocked_usage none (some unit) (codes "blocked_mixed_interval")

abbrev pub judge_units : UsageBucket → List Text → UsagePayload
judge_units b (unit ∷ []) =
    if non_empty unit
    then judge_intervals b unit b.interval_size_values
    else blocked_usage none none (codes "blocked_mixed_uom")
judge_units b _ = blocked_usage none none (codes "blocked_mixed_uom")

unfoldable pub build_usage_row_payload : UsageBucket → UsagePayload
unfolding expected_interval_count
build_usage_row_payload b = judge_units b b.unit_of_measure_values
