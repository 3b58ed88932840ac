-- ===== src/Vee/Hits.antt =====
-- Properties of app/services/vee.py, `evaluate_initial_measurement_rule_hits`: order and severities.
use sim_mdms_auto.Prelude.{
  ℕ, suc, ◌≤◌, ◌<◌, Bool, true, false, Option, none, some, List, [], ◌∷◌, ◌≡◌, arith, All, subst,
  sym,
}
use sim_mdms_auto.Model.{
  InitialMeasurement, EventContextSnapshot, ExceptionCode, Severity, code_index, same_code,
}
use sim_mdms_auto.Store.{Db}
use sim_mdms_auto.Vee.Rules.{
  VeeRuleHit, build_required_field_hit, build_uom_mismatch_hit, build_multiplier_hit,
  build_negative_value_hit, build_zero_value_hit, build_low_value_hit, build_interval_size_hit,
  build_duplicate_hit, build_high_value_hit,
}
use sim_mdms_auto.Vee.Evaluate.{
  append_hit, build_missing_interval_hit, rule_hits_under, evaluate_initial_measurement_rule_hits,
}

-- error and critical are the severities that block
abbrev pub is_severe : Severity → Bool
is_severe Severity.info = false
is_severe Severity.warning = false
is_severe Severity.error = true
is_severe Severity.critical = true

-- a rule that fires does so with its own code, and blocks exactly if its severity is severe
abbrev Fires : ExceptionCode → Option VeeRuleHit → Type 0
Fires code none = Unit
Fires code (some h) = (h.exception_code ≡ code) × (h.blocking_finalization ≡ is_severe h.severity)

module _ (db : Db) (r : InitialMeasurement) (s : Option EventContextSnapshot) where
  required-Fires : Fires ExceptionCode.required_field_missing (build_required_field_hit r)
  unfolding build_required_field_hit
  required-Fires = ground arith

  uom-Fires : Fires ExceptionCode.uom_mismatch_detected (build_uom_mismatch_hit db r)
  unfolding build_uom_mismatch_hit
  uom-Fires = ground arith

  multiplier-Fires : Fires ExceptionCode.multiplier_invalid_detected (build_multiplier_hit db r)
  unfolding build_multiplier_hit
  multiplier-Fires = ground arith

  negative-Fires : Fires ExceptionCode.negative_value_detected (build_negative_value_hit r s)
  unfolding build_negative_value_hit
  negative-Fires = ground arith

  zero-Fires : Fires ExceptionCode.zero_value_detected (build_zero_value_hit r)
  unfolding build_zero_value_hit
  zero-Fires = ground arith

  low-Fires : Fires ExceptionCode.low_value_detected (build_low_value_hit db r)
  unfolding build_low_value_hit
  low-Fires = ground arith

  interval-Fires : Fires ExceptionCode.interval_size_invalid (build_interval_size_hit db r)
  unfolding build_interval_size_hit
  interval-Fires = ground arith

  duplicate-Fires : Fires ExceptionCode.duplicate_detected (build_duplicate_hit db r)
  unfolding build_duplicate_hit
  duplicate-Fires = ground arith

  missing-Fires : Fires ExceptionCode.missing_interval_detected (build_missing_interval_hit db r s)
  unfolding build_missing_interval_hit
  missing-Fires = ground arith

  high-Fires : Fires ExceptionCode.high_value_detected (build_high_value_hit db r s)
  unfolding build_high_value_hit
  high-Fires = ground arith

-- hits in strictly rising rule order from place `i` on, each with the severity that its flag says
abbrev pub IsOrdered : ℕ → List VeeRuleHit → Type 0
IsOrdered i [] = Unit
IsOrdered i (h ∷ hs) =
    (i ≤ code_index h.exception_code)
    × (h.blocking_finalization ≡ is_severe h.severity)
    × IsOrdered (suc (code_index h.exception_code)) hs

IsOrdered-mono : (i j : ℕ) (hits : List VeeRuleHit) → i ≤ j → IsOrdered j hits → IsOrdered i hits
IsOrdered-mono i j [] le h = tt
IsOrdered-mono i j (x ∷ xs) le h = (omega (arith, h.0), h.1, h.2)

IsOrdered-append_hit :
    (code : ExceptionCode) (o : Option VeeRuleHit) (hits : List VeeRuleHit)
    → Fires code o
    → IsOrdered (suc (code_index code)) hits
    → IsOrdered (code_index code) (append_hit o hits)
IsOrdered-append_hit code none hits f h = IsOrdered-mono _ _ hits (omega arith) h
IsOrdered-append_hit code (some x) hits f h =
    subst
      (λ c.
        (code_index code ≤ code_index c)
        × (x.blocking_finalization ≡ is_severe x.severity)
        × IsOrdered (suc (code_index c)) hits)
      (sym f.0) (omega arith, f.1, h)

pub rule_hits_under-IsOrdered :
    (db : Db) (r : InitialMeasurement) (s : Option EventContextSnapshot)
    → IsOrdered 0 (rule_hits_under db r s)
unfolding rule_hits_under
rule_hits_under-IsOrdered db r s = IsOrdered-append_hit _ _ _ (required-Fires db r s) (
    IsOrdered-append_hit _ _ _ (uom-Fires db r s) (
      IsOrdered-append_hit _ _ _ (multiplier-Fires db r s) (
        IsOrdered-append_hit _ _ _ (negative-Fires db r s) (
          IsOrdered-append_hit _ _ _ (zero-Fires db r s) (
            IsOrdered-append_hit _ _ _ (low-Fires db r s) (
              IsOrdered-append_hit _ _ _ (interval-Fires db r s) (
                IsOrdered-append_hit _ _ _ (duplicate-Fires db r s) (
                  IsOrdered-append_hit _ _ _ (missing-Fires db r s)
                    (IsOrdered-append_hit _ _ [] (high-Fires db r s) tt)))))))))

-- The hits of an evaluation come in the order of the ten rules, no rule hits twice, and a hit blocks
-- finalization exactly if its severity is error or critical.
pub evaluate_initial_measurement_rule_hits-IsOrdered :
    (db : Db) (r : InitialMeasurement) (s : Option EventContextSnapshot)
    → IsOrdered 0 (evaluate_initial_measurement_rule_hits db r s)
unfolding evaluate_initial_measurement_rule_hits
evaluate_initial_measurement_rule_hits-IsOrdered db r s = rule_hits_under-IsOrdered db r _

-- no later hit has the code
abbrev pub IsDistinct : List VeeRuleHit → Type 0
IsDistinct [] = Unit
IsDistinct (h ∷ hs) =
    All (λ k. same_code h.exception_code k.exception_code ≡ false) hs × IsDistinct hs

above-differ :
    (code : ExceptionCode) (hits : List VeeRuleHit) (i : ℕ)
    → code_index code < i
    → IsOrdered i hits
    → All (λ k. same_code code k.exception_code ≡ false) hits
above-differ code [] i lt h = tt
above-differ code (x ∷ xs) i lt h =
    (ground arith, above-differ code xs (suc (code_index x.exception_code)) (omega arith) h.2)

pub IsOrdered-IsDistinct : (i : ℕ) (hits : List VeeRuleHit) → IsOrdered i hits → IsDistinct hits
IsOrdered-IsDistinct i [] h = tt
IsOrdered-IsDistinct i (x ∷ xs) h =
    (above-differ x.exception_code xs _ (omega arith) h.2, IsOrdered-IsDistinct _ xs h.2)
