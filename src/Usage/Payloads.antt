-- ===== src/Usage/Payloads.antt =====
-- Properties of app/services/usage.py: the usage row of a bucket.
use sim_mdms_auto.Prelude.{
  ℕ, Bool, true, false, not, ◌&&◌, Option, none, some, pos, List, [], ◌∷◌, Text, ◌≡◌, if◌then◌else◌,
  leb, ltb, non_empty,
}
use sim_mdms_auto.Billing.Revisions.{CalculationStatus}
use sim_mdms_auto.Usage.Buckets.{
  UsageBucket, UsagePayload, has_other_quality, expected_interval_count,
}

abbrev pub is_complete : CalculationStatus → Bool
is_complete CalculationStatus.complete = true
is_complete _ = false

abbrev pub is_blocked : CalculationStatus → Bool
is_blocked CalculationStatus.blocked = true
is_blocked _ = false

abbrev pub is_partial : CalculationStatus → Bool
is_partial CalculationStatus.partial = true
is_partial _ = false

-- one unit, which is not empty
abbrev pub has_one_unit : List Text → Bool
has_one_unit (unit ∷ []) = non_empty unit
has_one_unit _ = false

abbrev pub is_reached : ℕ → Option ℕ → Bool
is_reached n none = false
is_reached n (some expected) = leb expected n

-- one interval size, which divides the window into at most as many intervals as there are measurements
abbrev pub covers_window : UsageBucket → List (Option ℕ) → Bool
covers_window b (some size ∷ []) =
    is_reached b.source_final_count (expected_interval_count b.period_start_at b.period_end_at size)
covers_window b _ = false

abbrev pub is_whole : UsageBucket → Bool
is_whole b =
    has_one_unit b.unit_of_measure_values
    && covers_window b b.interval_size_values
    && not (has_other_quality b.quality_codes)

-- the payload judges the bucket, which is whole or not
pub record Judges (b : UsageBucket) (whole : Bool) (p : UsagePayload) : Type 0 where
  pub complete : is_complete p.calculation_status ≡ whole
  pub sum : p.usage_value ≡ (if is_blocked p.calculation_status then pos 0 else b.usage_value)
  pub missing : (ltb 0 p.missing_interval_count && not (is_partial p.calculation_status)) ≡ false
