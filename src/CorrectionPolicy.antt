-- ===== src/CorrectionPolicy.antt =====
-- app/services/correction_policy.py: which corrections an event around a measurement allows.
pub mod Agreement
use sim_mdms_auto.Prelude.{
  Bool, true, false, ◌&&◌, ◌||◌, Option, none, some, Text, if◌then◌else◌, or_option, get, ℕ,
}
use sim_mdms_auto.Model.{
  InitialMeasurement, VeeException, EventContextSnapshot, ContextType, ExceptionCode, HitDetails,
  same_code, initial_id, outage, tamper,
}
use sim_mdms_auto.Store.{Db}
use sim_mdms_auto.EventContext.{
  has_event_context_type, lookup_event_context_snapshot, event_context_tolerance_minutes,
}

pub data Policy : Type 0 where
  allowed discouraged blocked : Policy

pub data RecommendedAction : Type 0 where
  operator_investigation_then_manual_edit : RecommendedAction
  defer_or_replay_after_source_recovery follow_existing_baseline : RecommendedAction

pub data PolicyReason : Type 0 where
  tamper_correlated_value_anomaly outage_correlated_missing_interval : PolicyReason
  no_event_specific_override : PolicyReason

pub record CorrectionPolicyDecision : Type 0 where
  pub recommended_action : RecommendedAction
  pub estimation_policy : Policy
  pub manual_edit_policy : Policy
  pub re_evaluate_policy : Policy
  pub policy_reason_code : PolicyReason
  pub event_context_type : Option ContextType
  pub exception_code : ExceptionCode
  pub event_context_snapshot : Option EventContextSnapshot

-- `details.get("event_context_snapshot")`: only three rules put a snapshot into their details
unfoldable pub stored_snapshot : HitDetails → Option EventContextSnapshot
stored_snapshot (HitDetails.negative_value v s) = s
stored_snapshot (HitDetails.missing_interval w s) = s
stored_snapshot (HitDetails.high_value v t u n s) = s
stored_snapshot _ = none

abbrev primary_of : Option EventContextSnapshot → Option ContextType
primary_of none = none
primary_of (some s) = some s.primary_context_type

unfoldable pub decide_policy :
    ExceptionCode → Option EventContextSnapshot → CorrectionPolicyDecision
decide_policy code s =
    if same_code code ExceptionCode.missing_interval_detected && has_event_context_type s outage
    then record {
      recommended_action = RecommendedAction.defer_or_replay_after_source_recovery;
      estimation_policy = Policy.blocked;
      manual_edit_policy = Policy.blocked;
      re_evaluate_policy = Policy.allowed;
      policy_reason_code = PolicyReason.outage_correlated_missing_interval;
      event_context_type = primary_of s;
      exception_code = code;
      event_context_snapshot = s;
    }
    else if (same_code code ExceptionCode.negative_value_detected
          || same_code code ExceptionCode.high_value_detected)
        && has_event_context_type s tamper
    then record {
      recommended_action = RecommendedAction.operator_investigation_then_manual_edit;
      estimation_policy = Policy.blocked;
      manual_edit_policy = Policy.allowed;
      re_evaluate_policy = Policy.allowed;
      policy_reason_code = PolicyReason.tamper_correlated_value_anomaly;
      event_context_type = primary_of s;
      exception_code = code;
      event_context_snapshot = s;
    }
    else record {
      recommended_action = RecommendedAction.follow_existing_baseline;
      estimation_policy = Policy.allowed;
      manual_edit_policy = Policy.allowed;
      re_evaluate_policy = Policy.allowed;
      policy_reason_code = PolicyReason.no_event_specific_override;
      event_context_type = primary_of s;
      exception_code = code;
      event_context_snapshot = s;
    }

abbrev looked_up : Db → Option InitialMeasurement → Option EventContextSnapshot
looked_up db none = none
looked_up db (some r) = lookup_event_context_snapshot db r event_context_tolerance_minutes

-- the snapshot given, else the one stored in the exception, else one looked up
unfoldable pub build_correction_policy_decision :
    Db
    → VeeException
    → Option InitialMeasurement
    → Option EventContextSnapshot
    → CorrectionPolicyDecision
unfolding decide_policy stored_snapshot
build_correction_policy_decision db e row given =
    let resolved = or_option row (get e.initial_measurement_id db.initials) in
    decide_policy e.exception_code
      (or_option given (or_option (stored_snapshot e.details) (looked_up db resolved)))
