-- ===== src/Vee/Rules.antt =====
-- app/services/vee.py: the ten baseline rules, in the order of `evaluate_initial_measurement_rule_hits`.
use sim_mdms_auto.Prelude.{
  ℕ, Bool, true, false, not, ◌||◌, Option, none, some, List, [], ◌∷◌, Text, codes, ℤ, pos, leb_ℤ,
  eqb_ℤ, ◌==◌, if◌then◌else◌, is_none, text_eq, strip, lower, non_empty, or_empty, or_none,
}
use sim_mdms_auto.Model.{
  MeasuringComponent, HesReadRaw, InitialMeasurement, EventContextSnapshot, ExceptionCode, Severity,
  HitDetails, MissingField, MultiplierFault, CanonicalStatus, CanonicalMeasurement, tamper,
}
use sim_mdms_auto.Store.{Db, raw_of, component_of, canonical_of}
use sim_mdms_auto.EventContext.{has_event_context_type}

pub record VeeRuleHit : Type 0 where
  pub exception_code : ExceptionCode
  pub severity : Severity
  pub blocking_finalization : Bool
  pub details : HitDetails

abbrev hit : ExceptionCode → Severity → Bool → HitDetails → Option VeeRuleHit
hit c s b d =
    some (record { exception_code = c; severity = s; blocking_finalization = b; details = d })

-- `missing_fields.append(name)` under a test
abbrev append_if : Bool → MissingField → List MissingField → List MissingField
append_if b f rest = if b then f ∷ rest else rest

-- not (value or "").strip()
abbrev pub is_blank : Option Text → Bool
is_blank t = not (non_empty (strip (or_empty t)))

unfoldable pub missing_fields : InitialMeasurement → List MissingField
missing_fields r = append_if (is_none r.measured_at) MissingField.measured_at (
    append_if (is_none r.value) MissingField.value (
      append_if (is_blank r.unit_of_measure) MissingField.unit_of_measure (
        append_if (is_none r.measuring_component_id) MissingField.measuring_component_id (
          append_if (is_none r.device_id) MissingField.device_id
            (append_if (is_none r.service_point_id) MissingField.service_point_id [])))))

required_hit : List MissingField → Option VeeRuleHit
required_hit [] = none
required_hit (f ∷ fs) =
    hit ExceptionCode.required_field_missing Severity.error true (HitDetails.fields (f ∷ fs))

unfoldable pub build_required_field_hit : InitialMeasurement → Option VeeRuleHit
unfolding missing_fields required_hit
build_required_field_hit r = required_hit (missing_fields r)

-- str(value or "").strip().lower() or None
unfoldable pub normalize_uom : Option Text → Option Text
normalize_uom t = or_none (lower (strip (or_empty t)))

-- actual is None or expected is None or actual == expected
abbrev pub uom_agrees : Option Text → Option Text → Bool
uom_agrees none expected = true
uom_agrees (some a) none = true
uom_agrees (some a) (some e) = text_eq a e

abbrev raw_uom : Option HesReadRaw → Option Text
raw_uom none = none
raw_uom (some raw) = raw.unit_of_measure

abbrev canonical_uom : Option CanonicalMeasurement → Option Text
canonical_uom none = none
canonical_uom (some c) = c.unit_of_measure

uom_hit : Db → InitialMeasurement → Option MeasuringComponent → Option VeeRuleHit
unfolding normalize_uom
uom_hit db r none = none
uom_hit db r (some c) =
    if uom_agrees (normalize_uom r.unit_of_measure) (normalize_uom c.unit_of_measure)
    then none
    else hit ExceptionCode.uom_mismatch_detected Severity.error true (
        HitDetails.uom r.unit_of_measure c.unit_of_measure (canonical_uom (canonical_of db r))
          (raw_uom (raw_of db r)) c.id)

unfoldable pub build_uom_mismatch_hit : Db → InitialMeasurement → Option VeeRuleHit
unfolding uom_hit
build_uom_mismatch_hit db r = uom_hit db r (component_of db r)

-- the `validation_reason`; 1 is 10000 ten-thousandths
unfoldable pub multiplier_fault : Option ℤ → Option MultiplierFault
multiplier_fault none = some MultiplierFault.missing_component_multiplier
multiplier_fault (some m) =
    if leb_ℤ m (pos 0)
    then some MultiplierFault.invalid_component_multiplier
    else if not (eqb_ℤ m (pos 10000))
    then some MultiplierFault.unsupported_non_unity_multiplier
    else none

multiplier_hit : MeasuringComponent → Option MultiplierFault → Option VeeRuleHit
multiplier_hit c none = none
multiplier_hit c (some fault) =
    hit ExceptionCode.multiplier_invalid_detected Severity.error true
      (HitDetails.multiplier c.multiplier fault c.id)

component_multiplier_hit : Option MeasuringComponent → Option VeeRuleHit
unfolding multiplier_fault multiplier_hit
component_multiplier_hit none = none
component_multiplier_hit (some c) = multiplier_hit c (multiplier_fault c.multiplier)

unfoldable pub build_multiplier_hit : Db → InitialMeasurement → Option VeeRuleHit
unfolding component_multiplier_hit
build_multiplier_hit db r = component_multiplier_hit (component_of db r)

-- the snapshot that a correlated event adds to the details
abbrev pub when_correlated : Bool → Option EventContextSnapshot → Option EventContextSnapshot
when_correlated b s = if b then s else none

negative_hit : Option EventContextSnapshot → Option ℤ → Option VeeRuleHit
negative_hit s none = none
negative_hit s (some v) =
    let tampered = has_event_context_type s tamper in
    if leb_ℤ (pos 0) v
    then none
    else hit ExceptionCode.negative_value_detected
        (if tampered then Severity.critical else Severity.error) true
        (HitDetails.negative_value v (when_correlated tampered s))

unfoldable pub build_negative_value_hit :
    InitialMeasurement → Option EventContextSnapshot → Option VeeRuleHit
unfolding negative_hit
build_negative_value_hit r s = negative_hit s r.value

zero_hit : Option ℤ → Option VeeRuleHit
zero_hit none = none
zero_hit (some v) =
    if not (eqb_ℤ v (pos 0))
    then none
    else hit ExceptionCode.zero_value_detected Severity.warning false (HitDetails.zero_value v)

unfoldable pub build_zero_value_hit : InitialMeasurement → Option VeeRuleHit
unfolding zero_hit
build_zero_value_hit r = zero_hit r.value

-- `THRESHOLDS.get((unit_of_measure, interval_size_minutes))` over the three keys of a table
abbrev threshold : ℤ → ℤ → ℤ → Text → ℕ → Option ℤ
threshold t15 t30 t60 uom size =
    if not (text_eq uom (codes "kwh"))
    then none
    else if size == 15
    then some t15
    else if size == 30
    then some t30
    else if size == 60
    then some t60
    else none

-- LOW_VALUE_THRESHOLDS: 0.0005, 0.0010, 0.0020
unfoldable pub low_value_threshold : Text → ℕ → Option ℤ
low_value_threshold = threshold (pos 5) (pos 10) (pos 20)

-- HIGH_VALUE_THRESHOLDS: 250, 500, 1000
unfoldable pub high_value_threshold : Text → ℕ → Option ℤ
high_value_threshold = threshold (pos 2500000) (pos 5000000) (pos 10000000)

-- (unit_of_measure or "").strip().lower()
unfoldable pub row_uom : InitialMeasurement → Text
row_uom r = lower (strip (or_empty r.unit_of_measure))

low_hit : InitialMeasurement → ℤ → HesReadRaw → Option ℤ → Option VeeRuleHit
low_hit r v raw none = none
low_hit r v raw (some t) =
    if leb_ℤ t v
    then none
    else hit ExceptionCode.low_value_detected Severity.warning false
        (HitDetails.low_value v t r.unit_of_measure raw.interval_size_minutes)

low_hit_of : InitialMeasurement → Option ℤ → Option HesReadRaw → Option VeeRuleHit
unfolding low_hit row_uom
low_hit_of r none raw = none
low_hit_of r (some v) none = none
low_hit_of r (some v) (some raw) =
    if leb_ℤ v (pos 0)
    then none
    else low_hit r v raw (low_value_threshold (row_uom r) raw.interval_size_minutes)

unfoldable pub build_low_value_hit : Db → InitialMeasurement → Option VeeRuleHit
unfolding low_hit_of
build_low_value_hit db r = low_hit_of r r.value (raw_of db r)

abbrev interval_of : Option HesReadRaw → Option ℕ
interval_of none = none
interval_of (some raw) = some raw.interval_size_minutes

-- interval_size_minutes in {15, 30, 60}
abbrev pub supported_interval : Option ℕ → Bool
supported_interval none = false
supported_interval (some n) = n == 15 || n == 30 || n == 60

unfoldable pub build_interval_size_hit : Db → InitialMeasurement → Option VeeRuleHit
build_interval_size_hit db r =
    if supported_interval (interval_of (raw_of db r))
    then none
    else hit ExceptionCode.interval_size_invalid Severity.error true
        (HitDetails.interval_size (interval_of (raw_of db r)))

abbrev pub is_duplicate_status : CanonicalStatus → Bool
is_duplicate_status CanonicalStatus.duplicate = true
is_duplicate_status _ = false

duplicate_hit : Option HesReadRaw → Option VeeRuleHit
duplicate_hit none = none
duplicate_hit (some raw) =
    if raw.is_duplicate || is_duplicate_status raw.canonical_status
    then hit ExceptionCode.duplicate_detected Severity.error true
        (HitDetails.duplicate raw.id raw.duplicate_of_id)
    else none

unfoldable pub build_duplicate_hit : Db → InitialMeasurement → Option VeeRuleHit
unfolding duplicate_hit
build_duplicate_hit db r = duplicate_hit (raw_of db r)

high_hit :
    InitialMeasurement → Option EventContextSnapshot → ℤ → HesReadRaw → Option ℤ → Option VeeRuleHit
high_hit r s v raw none = none
high_hit r s v raw (some t) =
    let tampered = has_event_context_type s tamper in
    if leb_ℤ v t
    then none
    else hit ExceptionCode.high_value_detected
        (if tampered then Severity.error else Severity.warning) tampered
        (HitDetails.high_value v t r.unit_of_measure raw.interval_size_minutes
          (when_correlated tampered s))

high_hit_of :
    InitialMeasurement
    → Option EventContextSnapshot
    → Option ℤ
    → Option HesReadRaw
    → Option VeeRuleHit
unfolding high_hit row_uom
high_hit_of r s none raw = none
high_hit_of r s (some v) none = none
high_hit_of r s (some v) (some raw) =
    high_hit r s v raw (high_value_threshold (row_uom r) raw.interval_size_minutes)

unfoldable pub build_high_value_hit :
    Db → InitialMeasurement → Option EventContextSnapshot → Option VeeRuleHit
unfolding high_hit_of
build_high_value_hit db r s = high_hit_of r s r.value (raw_of db r)
