-- ===== src/Vee/Values.antt =====
-- Properties of app/services/vee.py: the rules on values, and evaluations without hits.
use sim_mdms_auto.Prelude.{
  Option-cases, inl, inr, refl, ◌≢◌, ℕ, ◌+◌, ◌≤◌, ◌<◌, true, false, Option, none, some, List, [],
  ◌≡◌, arith, is_some, ℤ, pos, negsuc,
}
use sim_mdms_auto.Model.{InitialMeasurement, EventContextSnapshot, MeasuringComponent, HesReadRaw}
use sim_mdms_auto.Store.{Db, raw_of, component_of}
use sim_mdms_auto.Vee.Rules.{
  VeeRuleHit, build_required_field_hit, build_multiplier_hit, build_negative_value_hit,
  build_zero_value_hit, build_low_value_hit, build_interval_size_hit, build_duplicate_hit,
  build_high_value_hit, low_value_threshold, high_value_threshold, row_uom, is_blank,
  supported_interval, is_duplicate_status,
}
use sim_mdms_auto.Vee.Evaluate.{append_hit, rule_hits_under}

-- 1 if a rule fired
abbrev pub fired : Option VeeRuleHit → ℕ
fired none = 0
fired (some h) = 1

-- At most one of the four value rules (negative, zero, low, high) fires for a measurement, whatever
-- its unit, interval and event context.
value_rules_exclusive :
    (db : Db) (r : InitialMeasurement) (s : Option EventContextSnapshot)
    → fired (build_negative_value_hit r s)
        + fired (build_zero_value_hit r)
        + fired (build_low_value_hit db r)
        + fired (build_high_value_hit db r s)
      ≤ 1
unfolding build_negative_value_hit build_zero_value_hit build_low_value_hit build_high_value_hit
    low_value_threshold high_value_threshold
value_rules_exclusive db r s = ground arith

-- the amount is at least, or at most, a limit that there may be
abbrev pub IsAtLeast : Option ℤ → ℕ → Type 0
IsAtLeast (some (pos t)) amount = t ≤ amount
IsAtLeast _ amount = Unit

abbrev pub IsAtMost : Option ℤ → ℕ → Type 0
IsAtMost (some (pos t)) amount = amount ≤ t
IsAtMost (some (negsuc t)) amount = ⊥
IsAtMost none amount = Unit

-- the value is positive, and within the thresholds that its unit and interval have
pub record HasPlausibleValue (r : InitialMeasurement) (interval : ℕ) : Type 0 where
  pub amount : ℕ
  pub is_value : r.value ≡ some (pos amount)
  pub positive : 0 < amount
  pub not_low : IsAtLeast (low_value_threshold (row_uom r) interval) amount
  pub not_high : IsAtMost (high_value_threshold (row_uom r) interval) amount

-- the raw read of the measurement has a supported interval and no duplicate mark
pub record HasCleanRead (db : Db) (r : InitialMeasurement) : Type 0 where
  pub raw : HesReadRaw
  pub is_raw : raw_of db r ≡ some raw
  pub supported : supported_interval (some raw.interval_size_minutes) ≡ true
  pub unmarked : raw.is_duplicate ≡ false
  pub not_duplicate : is_duplicate_status raw.canonical_status ≡ false

pub record IsClean (db : Db) (r : InitialMeasurement) : Type 0 where
  pub read : HasCleanRead db r
  pub value : HasPlausibleValue r read.raw.interval_size_minutes
  pub measured : is_some r.measured_at ≡ true
  pub has_unit : is_blank r.unit_of_measure ≡ false
  pub has_component : is_some r.measuring_component_id ≡ true
  pub has_device : is_some r.device_id ≡ true
  pub has_service_point : is_some r.service_point_id ≡ true
  pub multiplier :
      (c : MeasuringComponent) → component_of db r ≡ some c → c.multiplier ≡ some (pos 10000)

append_hit-nil :
    (o : Option VeeRuleHit) (hits : List VeeRuleHit)
    → append_hit o hits ≡ []
    → (o ≡ none) × (hits ≡ [])
append_hit-nil none hits h = (refl, h)
append_hit-nil (some x) hits h = absurd (cc)

-- what a list of no hits says of each rule
record NoneFired (db : Db) (r : InitialMeasurement) (s : Option EventContextSnapshot) : Type 0 where
  required : build_required_field_hit r ≡ none
  multiplier : build_multiplier_hit db r ≡ none
  negative : build_negative_value_hit r s ≡ none
  zero : build_zero_value_hit r ≡ none
  low : build_low_value_hit db r ≡ none
  interval : build_interval_size_hit db r ≡ none
  duplicate : build_duplicate_hit db r ≡ none
  high : build_high_value_hit db r s ≡ none

none_fired :
    (db : Db) (r : InitialMeasurement) (s : Option EventContextSnapshot)
    → rule_hits_under db r s ≡ []
    → NoneFired db r s
unfolding rule_hits_under
none_fired db r s h =
    let (a, h₁) = append_hit-nil _ _ h in
    let (_, h₂) = append_hit-nil _ _ h₁ in
    let (b, h₃) = append_hit-nil _ _ h₂ in
    let (c, h₄) = append_hit-nil _ _ h₃ in
    let (d, h₅) = append_hit-nil _ _ h₄ in
    let (e, h₆) = append_hit-nil _ _ h₅ in
    let (f, h₇) = append_hit-nil _ _ h₆ in
    let (g, h₈) = append_hit-nil _ _ h₇ in
    let (_, h₉) = append_hit-nil _ _ h₈ in
    let (k, _) = append_hit-nil _ _ h₉ in
    record {
      required = a;
      multiplier = b;
      negative = c;
      zero = d;
      low = e;
      interval = f;
      duplicate = g;
      high = k;
    }

clean_read :
    (db : Db) (r : InitialMeasurement)
    → build_interval_size_hit db r ≡ none
    → build_duplicate_hit db r ≡ none
    → HasCleanRead db r
unfolding build_interval_size_hit build_duplicate_hit
clean_read db r h d = elim (Option-cases (raw_of db r)) [
  | inl e ↦ absurd (ground arith)
  | inr (raw, e) ↦ record {
    raw = raw;
    is_raw = e;
    supported = ground arith;
    unmarked = ground arith;
    not_duplicate = ground arith;
  }
]

fields_present :
    (r : InitialMeasurement)
    → build_required_field_hit r ≡ none
    → (is_some r.measured_at ≡ true)
      × (is_blank r.unit_of_measure ≡ false)
      × (is_some r.measuring_component_id ≡ true)
      × (is_some r.device_id ≡ true)
      × (is_some r.service_point_id ≡ true)
unfolding build_required_field_hit
fields_present r h = (ground arith, ground arith, ground arith, ground arith, ground arith)

unity :
    (db : Db) (r : InitialMeasurement) (c : MeasuringComponent)
    → component_of db r ≡ some c
    → build_multiplier_hit db r ≡ none
    → c.multiplier ≡ some (pos 10000)
unfolding build_multiplier_hit
unity db r c e h = ground arith

value_some : (r : InitialMeasurement) → build_required_field_hit r ≡ none → r.value ≢ none
unfolding build_required_field_hit
value_some r h = ground arith

plausible :
    (db : Db) (r : InitialMeasurement) (s : Option EventContextSnapshot) (raw : HesReadRaw) (v : ℤ)
    → raw_of db r ≡ some raw
    → r.value ≡ some v
    → NoneFired db r s
    → HasPlausibleValue r raw.interval_size_minutes
unfolding build_negative_value_hit build_zero_value_hit build_low_value_hit build_high_value_hit
plausible db r s raw (negsuc n) e ev h = absurd (ground (arith, h.negative))
plausible db r s raw (pos n) e ev h = record {
  amount = n;
  is_value = ev;
  positive = ground (arith, h.zero);
  not_low = ground (arith, h.low, h.zero);
  not_high = ground (arith, h.high);
}

-- A measurement without hits has every required field, a multiplier of one, a read with a supported
-- interval that is no duplicate, and a positive value within the thresholds of its unit.
pub no_hits-IsClean :
    (db : Db) (r : InitialMeasurement) (s : Option EventContextSnapshot)
    → rule_hits_under db r s ≡ []
    → IsClean db r
no_hits-IsClean db r s h =
    let n = none_fired db r s h in
    let read = clean_read db r n.interval n.duplicate in
    elim (Option-cases r.value) [
      | inl e ↦ absurd (value_some r n.required e)
      | inr (v, e) ↦ record {
        read = read;
        value = plausible db r s read.raw v read.is_raw e n;
        measured = (fields_present r n.required).0;
        has_unit = (fields_present r n.required).1;
        has_component = (fields_present r n.required).2;
        has_device = (fields_present r n.required).3;
        has_service_point = (fields_present r n.required).4;
        multiplier = λ c q. unity db r c q n.multiplier;
      }
    ]
