-- ===== src/CorrectionPolicy/Agreement.antt =====
-- Properties of app/services/correction_policy.py against the rules of app/services/vee.py.
use sim_mdms_auto.Prelude.{
  Bool, true, false, ◌&&◌, ◌||◌, Option, none, some, List, [], ◌≡◌, refl, arith, All, All-mono,
  or_option,
}
use sim_mdms_auto.Model.{
  InitialMeasurement, VeeException, EventContextSnapshot, ExceptionCode, Severity, same_code,
  outage, initial_id,
}
use sim_mdms_auto.Store.{Db}
use sim_mdms_auto.EventContext.{
  has_event_context_type, lookup_event_context_snapshot, event_context_tolerance_minutes,
}
use sim_mdms_auto.Vee.Rules.{
  VeeRuleHit, build_required_field_hit, build_uom_mismatch_hit, build_multiplier_hit,
  build_negative_value_hit, build_zero_value_hit, build_low_value_hit, build_interval_size_hit,
  build_duplicate_hit, build_high_value_hit,
}
use sim_mdms_auto.Vee.Evaluate.{append_hit, build_missing_interval_hit, rule_hits_under}
use sim_mdms_auto.CorrectionPolicy.{
  Policy, stored_snapshot, decide_policy, build_correction_policy_decision,
}

abbrev is_blocked : Policy → Bool
is_blocked Policy.blocked = true
is_blocked _ = false

abbrev is_critical : Severity → Bool
is_critical Severity.critical = true
is_critical _ = false

-- what the hit stored, else the snapshot itself, is the snapshot
abbrev Remembers : Option EventContextSnapshot → VeeRuleHit → Type 0
Remembers s h = or_option (stored_snapshot h.details) s ≡ s

-- how the policy of the hit's exception goes with the severity of the hit
abbrev pub Follows : Option EventContextSnapshot → VeeRuleHit → Type 0
Follows s h =
    let d = decide_policy h.exception_code s in
    let is_negative = same_code h.exception_code ExceptionCode.negative_value_detected in
    let is_high = same_code h.exception_code ExceptionCode.high_value_detected in
    let is_missing = same_code h.exception_code ExceptionCode.missing_interval_detected in
    ((is_negative && is_blocked d.estimation_policy) ≡ (is_negative && is_critical h.severity))
    × ((is_high && is_blocked d.estimation_policy) ≡ (is_high && h.blocking_finalization))
    × (is_blocked d.estimation_policy ≡ (
        is_negative && is_critical h.severity
        || is_high && h.blocking_finalization
        || is_missing && has_event_context_type s outage))
    × (is_blocked d.manual_edit_policy ≡ (is_missing && has_event_context_type s outage))

abbrev OfSome {κ} : (VeeRuleHit → Type κ) → Option VeeRuleHit → Type κ
OfSome P none = Unit
OfSome P (some h) = P h

record IsKept (s : Option EventContextSnapshot) (o : Option VeeRuleHit) : Type 0 where
  of_some : OfSome (λ h. Remembers s h × Follows s h) o

record AreKept (s : Option EventContextSnapshot) (hits : List VeeRuleHit) : Type 0 where
  all : All (λ h. Remembers s h × Follows s h) hits

AreKept-append_hit :
    (s : Option EventContextSnapshot) (o : Option VeeRuleHit) (hits : List VeeRuleHit)
    → IsKept s o
    → AreKept s hits
    → AreKept s (append_hit o hits)
AreKept-append_hit s none hits h hs = hs
AreKept-append_hit s (some x) hits h hs = record { all = (h.of_some, hs.all) }

module _ (db : Db) (r : InitialMeasurement) (s : Option EventContextSnapshot) where
  negative-Remembers : OfSome (Remembers s) (build_negative_value_hit r s)
  unfolding build_negative_value_hit stored_snapshot
  negative-Remembers = ground arith

  high-Remembers : OfSome (Remembers s) (build_high_value_hit db r s)
  unfolding build_high_value_hit stored_snapshot
  high-Remembers = ground arith

  missing-Remembers : OfSome (Remembers s) (build_missing_interval_hit db r s)
  unfolding build_missing_interval_hit stored_snapshot
  missing-Remembers = ground arith

  negative-Follows : OfSome (Follows s) (build_negative_value_hit r s)
  unfolding build_negative_value_hit decide_policy
  negative-Follows = ground arith

  high-Follows : OfSome (Follows s) (build_high_value_hit db r s)
  unfolding build_high_value_hit decide_policy
  high-Follows = ground arith

  required-both : OfSome (λ h. Remembers s h × Follows s h) (build_required_field_hit r)
  unfolding build_required_field_hit stored_snapshot decide_policy
  required-both = ground arith

  uom-both : OfSome (λ h. Remembers s h × Follows s h) (build_uom_mismatch_hit db r)
  unfolding build_uom_mismatch_hit stored_snapshot decide_policy
  uom-both = ground arith

  multiplier-both : OfSome (λ h. Remembers s h × Follows s h) (build_multiplier_hit db r)
  unfolding build_multiplier_hit stored_snapshot decide_policy
  multiplier-both = ground arith

  zero-both : OfSome (λ h. Remembers s h × Follows s h) (build_zero_value_hit r)
  unfolding build_zero_value_hit stored_snapshot decide_policy
  zero-both = ground arith

  low-both : OfSome (λ h. Remembers s h × Follows s h) (build_low_value_hit db r)
  unfolding build_low_value_hit stored_snapshot decide_policy
  low-both = ground arith

  interval-both : OfSome (λ h. Remembers s h × Follows s h) (build_interval_size_hit db r)
  unfolding build_interval_size_hit stored_snapshot decide_policy
  interval-both = ground arith

  duplicate-both : OfSome (λ h. Remembers s h × Follows s h) (build_duplicate_hit db r)
  unfolding build_duplicate_hit stored_snapshot decide_policy
  duplicate-both = ground arith

  missing-Follows : OfSome (Follows s) (build_missing_interval_hit db r s)
  unfolding build_missing_interval_hit decide_policy
  missing-Follows = ground arith

  OfSome-pair :
      (o : Option VeeRuleHit)
      → OfSome (Remembers s) o
      → OfSome (Follows s) o
      → OfSome (λ h. Remembers s h × Follows s h) o
  OfSome-pair none a b = tt
  OfSome-pair (some h) a b = (a, b)

  kept : (o : Option VeeRuleHit) → OfSome (λ h. Remembers s h × Follows s h) o → IsKept s o
  kept o h = record { of_some = h }

  rule_hits_under-both : All (λ h. Remembers s h × Follows s h) (rule_hits_under db r s)
  unfolding rule_hits_under
  rule_hits_under-both =
      (AreKept-append_hit s _ _ (kept (build_required_field_hit r) required-both) (
        AreKept-append_hit s _ _ (kept (build_uom_mismatch_hit db r) uom-both) (
          AreKept-append_hit s _ _ (kept (build_multiplier_hit db r) multiplier-both) (
            AreKept-append_hit s _ _
              (kept (build_negative_value_hit r s)
                (OfSome-pair (build_negative_value_hit r s) negative-Remembers negative-Follows))
              (AreKept-append_hit s _ _ (kept (build_zero_value_hit r) zero-both) (
                AreKept-append_hit s _ _ (kept (build_low_value_hit db r) low-both) (
                  AreKept-append_hit s _ _ (kept (build_interval_size_hit db r) interval-both) (
                    AreKept-append_hit s _ _ (kept (build_duplicate_hit db r) duplicate-both) (
                      AreKept-append_hit s _ _
                        (kept (build_missing_interval_hit db r s) (
                          OfSome-pair (build_missing_interval_hit db r s) missing-Remembers
                            missing-Follows))
                        (AreKept-append_hit s _ []
                          (kept (build_high_value_hit db r s)
                            (OfSome-pair (build_high_value_hit db r s) high-Remembers high-Follows))
                          (record { all = tt }))))))))))).all

-- For every hit of the evaluation of a measurement, and any exception with its code and details, the
-- decision made without a given snapshot is the one of the events around the measurement. It blocks
-- estimation exactly for a negative value whose hit is critical, a high value whose hit blocks
-- finalization, and a missing interval with an outage among the events; and it blocks manual edits
-- exactly for the last of these.
pub build_correction_policy_decision-Follows :
    (db : Db) (r : InitialMeasurement) (e : VeeException)
    → let s = lookup_event_context_snapshot db r event_context_tolerance_minutes in
      All
        (λ (h : VeeRuleHit).
          (build_correction_policy_decision db
              (record e { exception_code = h.exception_code; details = h.details })
              (some r)
              none
            ≡ decide_policy h.exception_code s)
          × Follows s h)
        (rule_hits_under db r s)
unfolding build_correction_policy_decision
build_correction_policy_decision-Follows db r e =
    let s = lookup_event_context_snapshot db r event_context_tolerance_minutes in
    All-mono _ _ (rule_hits_under db r s) (λ h both. (rw both.0 refl, both.1))
      (rule_hits_under-both db r s)
