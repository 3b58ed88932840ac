-- ===== src/Scenarios/Validation.antt =====
-- Runs of app/services/vee.py, app/services/event_context.py and app/services/correction_policy.py.
use sim_mdms_auto.Prelude.{
  ℕ, ◌+◌, true, false, ◌&&◌, Option, none, some, [], ◌∷◌, Text, codes, ◌≡◌, refl, arith, All, any,
  non_empty, strip, get, select, text_eq, lower, upper, order_by, insert_by,
}
use sim_mdms_auto.Model.{
  VeeException, VeeExecutionLog, EventContextSnapshot, tamper, raw_id, canonical_id, initial_id,
  vee_exception_id,
}
use sim_mdms_auto.Model.{ExceptionCode, Severity, HitDetails}
use sim_mdms_auto.Prelude.{negsuc}
use sim_mdms_auto.Store.{Db, raw_of, raw_of_canonical, component_of, canonical_of}
use sim_mdms_auto.EventContext.{
  lookup_event_context_snapshot, event_context_tolerance_minutes, has_event_context_type, in_window,
  snapshot_of_raw, build_snapshot, classified, collect_types, add_type, primary_type,
  classify_event_context_type,
}
use sim_mdms_auto.EventContext.Lookup.{event_is, lookup_event_context_snapshot-has}
use sim_mdms_auto.Vee.Rules.{
  VeeRuleHit, build_required_field_hit, missing_fields, build_uom_mismatch_hit, normalize_uom,
  build_multiplier_hit, multiplier_fault, low_value_threshold, high_value_threshold, row_uom,
  build_interval_size_hit, build_duplicate_hit, build_negative_value_hit, build_zero_value_hit,
  build_low_value_hit, build_high_value_hit,
}
use sim_mdms_auto.Vee.Evaluate.{
  build_missing_interval_hit, evaluate_initial_measurement_rule_hits, rule_hits_under,
}
use sim_mdms_auto.Vee.Hits.{IsOrdered, evaluate_initial_measurement_rule_hits-IsOrdered}
use sim_mdms_auto.Vee.Values.{IsClean, no_hits-IsClean}
use sim_mdms_auto.Vee.Baseline.{evaluate_or_get_vee_baseline}
use sim_mdms_auto.Vee.Actions.{
  Operator, ActionError, ok, err, acknowledge_row, acknowledge_vee_exception, resolve_vee_exception,
  resolve_vee_exception_row, exception_scope, reevaluate_row, reevaluate_initial_measurement,
  get_vee_exception, may_resolve, may_acknowledge,
}
use sim_mdms_auto.Vee.OneActive.{IsSane}
use sim_mdms_auto.Vee.Reach.{Step, Reach, Reach-IsSane}
use sim_mdms_auto.Vee.Repeat.{evaluate_twice}
use sim_mdms_auto.Vee.Reevaluation.{StatusAgrees, reevaluate_initial_measurement-StatusAgrees}
use sim_mdms_auto.Vee.Resolution.{
  IsResolution, resolve_vee_exception_lem, resolve_vee_exception_final,
}
use sim_mdms_auto.CorrectionPolicy.{build_correction_policy_decision, decide_policy}
use sim_mdms_auto.CorrectionPolicy.Agreement.{Follows, build_correction_policy_decision-Follows}
use sim_mdms_auto.Ops.Rows.{EventCode}
use sim_mdms_auto.Ops.Events.{closable}
use sim_mdms_auto.Scenarios.Data.{
  noon, store, with_exception, open_exception, clean, negative, operator, hes_read,
}

with_exception-IsSane : IsSane with_exception.exceptions
with_exception-IsSane = record { ids = λ n. ground arith; one_active = λ n code. ground arith }

abbrev acknowledged_store : Db
acknowledged_store = acknowledge_row noon open_exception (codes "kim") (some 7) none with_exception

abbrev evaluated_store : Db
evaluated_store =
    (evaluate_or_get_vee_baseline noon negative none (codes "system") true acknowledged_store).0

acknowledged_store_lem :
    acknowledge_vee_exception noon 5 (codes "kim") (some 7) none with_exception
    ≡ ok acknowledged_store
unfolding acknowledge_vee_exception get_vee_exception get may_acknowledge
acknowledged_store_lem = refl

Reach-IsSane_example : IsSane evaluated_store.exceptions
Reach-IsSane_example = Reach-IsSane with_exception evaluated_store with_exception-IsSane (
    Reach.next
      (Reach.next Reach.here
        (Step.acknowledged noon 5 (codes "kim") (some 7) none acknowledged_store_lem))
      (Step.evaluated noon negative none (codes "system") true refl))

abbrev reevaluated : Db × VeeExecutionLog
reevaluated = reevaluate_row noon negative operator with_exception

reevaluated_lem :
    reevaluate_initial_measurement noon 2 operator with_exception
    ≡ ok (reevaluated.0, reevaluated.1)
unfolding reevaluate_initial_measurement get
reevaluated_lem = refl

reevaluate_initial_measurement-StatusAgrees_example : StatusAgrees 2 reevaluated.0
reevaluate_initial_measurement-StatusAgrees_example =
    reevaluate_initial_measurement-StatusAgrees noon 2 operator reevaluated.1 with_exception
      reevaluated.0 reevaluated_lem

abbrev resolved_store : Db
resolved_store = resolve_vee_exception_row noon open_exception (codes " ") operator with_exception

resolved_store_lem :
    resolve_vee_exception noon 5 (codes " ") operator with_exception ≡ ok resolved_store
unfolding resolve_vee_exception get_vee_exception get may_resolve
resolved_store_lem = refl

resolve_vee_exception_lem_example :
    (e : VeeException) × (get 5 with_exception.exceptions ≡ some e)
    × (e' : VeeException) × (get 5 resolved_store.exceptions ≡ some e')
    × IsResolution noon (codes " ") operator e e'
    × (any (closable EventCode.vee_exception_opened (exception_scope 5)) resolved_store.events
        ≡ false)
resolve_vee_exception_lem_example =
    resolve_vee_exception_lem noon 5 (codes " ") operator with_exception resolved_store
      resolved_store_lem

resolve_vee_exception_final_example :
    ((later : ℕ) (again : Text) (op' : Operator)
      → resolve_vee_exception later 5 again op' resolved_store ≡ err ActionError.already_resolved)
    × ((later : ℕ) (by : Text) (account at : Option ℕ)
        → acknowledge_vee_exception later 5 by account at resolved_store
          ≡ err ActionError.already_resolved)
resolve_vee_exception_final_example =
    resolve_vee_exception_final noon 5 (codes " ") operator with_exception resolved_store
      resolved_store_lem

evaluate_initial_measurement_rule_hits-IsOrdered_example :
    IsOrdered 0 (evaluate_initial_measurement_rule_hits store negative none)
evaluate_initial_measurement_rule_hits-IsOrdered_example =
    evaluate_initial_measurement_rule_hits-IsOrdered store negative none

evaluate_twice_example :
    let first = evaluate_or_get_vee_baseline noon negative none (codes "system") false store in
    let second =
      evaluate_or_get_vee_baseline (noon + 1) negative (some 3) (codes "manual") false first.0 in
    (second.1 ≡ first.1)
    × (second.2 ≡ false)
    × (second.0.executions ≡ first.0.executions)
    × (second.0.exceptions ≡ first.0.exceptions)
    × (second.0.events ≡ first.0.events)
evaluate_twice_example =
    evaluate_twice noon (noon + 1) negative none (some 3) (codes "system") (codes "manual") store

clean_lem : rule_hits_under store clean none ≡ []
unfolding rule_hits_under build_required_field_hit missing_fields strip build_uom_mismatch_hit
    normalize_uom component_of get lower text_eq build_multiplier_hit multiplier_fault
    build_negative_value_hit build_zero_value_hit build_low_value_hit low_value_threshold row_uom
    raw_of raw_of_canonical canonical_of build_interval_size_hit build_duplicate_hit
    build_missing_interval_hit build_high_value_hit high_value_threshold has_event_context_type
clean_lem = refl

no_hits-IsClean_example : IsClean store clean
no_hits-IsClean_example = no_hits-IsClean store clean none clean_lem

raw_lem : raw_of store negative ≡ some (hes_read 2)
unfolding raw_of raw_of_canonical canonical_of get
raw_lem = refl

lookup_event_context_snapshot-has_example :
    has_event_context_type (lookup_event_context_snapshot store negative 15) tamper ≡ (
      non_empty (strip (codes "hes"))
      && non_empty (strip (codes "M1"))
      && any (λ e. in_window (hes_read 2) noon 15 e && event_is tamper e) store.hes_events)
lookup_event_context_snapshot-has_example =
    lookup_event_context_snapshot-has store negative 15 (hes_read 2) noon tamper raw_lem refl

build_correction_policy_decision-Follows_example :
    let s = lookup_event_context_snapshot store negative event_context_tolerance_minutes in
    All
      (λ (h : VeeRuleHit).
        (build_correction_policy_decision store
            (record open_exception { exception_code = h.exception_code; details = h.details })
            (some negative)
            none
          ≡ decide_policy h.exception_code s)
        × Follows s h)
      (rule_hits_under store negative s)
build_correction_policy_decision-Follows_example =
    build_correction_policy_decision-Follows store negative open_exception

abbrev tamper_snapshot : EventContextSnapshot
tamper_snapshot = record {
  primary_context_type = tamper;
  matched_context_types = tamper ∷ [];
  tolerance_minutes = 15;
  meter_identifier = some (codes "M1");
  source_system = codes "hes";
  measured_at = noon;
  matched_event_ids = 1 ∷ [];
  matched_event_codes = codes " meter_tamper " ∷ [];
  matched_event_times = 43260000000 ∷ [];
  matched_event_severities = [];
  matched_event_count = 1;
}

snapshot_lem : lookup_event_context_snapshot store negative 15 ≡ some tamper_snapshot
unfolding lookup_event_context_snapshot snapshot_of_raw build_snapshot raw_of raw_of_canonical
    canonical_of get classified collect_types add_type primary_type classify_event_context_type
    in_window select order_by insert_by strip upper text_eq
snapshot_lem = refl

-- under the tamper event the negative value is critical, and no other rule fires
negative_hits :
    rule_hits_under store negative (some tamper_snapshot)
    ≡ record {
      exception_code = ExceptionCode.negative_value_detected;
      severity = Severity.critical;
      blocking_finalization = true;
      details = HitDetails.negative_value (negsuc 9999) (some tamper_snapshot);
    }
      ∷ []
unfolding rule_hits_under build_required_field_hit missing_fields strip build_uom_mismatch_hit
    normalize_uom component_of get lower text_eq build_multiplier_hit multiplier_fault
    build_negative_value_hit build_zero_value_hit build_low_value_hit low_value_threshold row_uom
    raw_of raw_of_canonical canonical_of build_interval_size_hit build_duplicate_hit
    build_missing_interval_hit build_high_value_hit high_value_threshold has_event_context_type
negative_hits = refl
