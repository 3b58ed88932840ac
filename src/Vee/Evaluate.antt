-- ===== src/Vee/Evaluate.antt =====
-- app/services/vee.py: the missing-interval rule, the evaluation of all rules, the summary code.
use sim_mdms_auto.Prelude.{
  ℕ, Bool, true, false, not, ◌&&◌, ◌||◌, Option, none, some, List, [], ◌∷◌, ltb, leb, ◌==◌,
  if◌then◌else◌, text_eq, strip, non_empty, or_empty, scalar, or_option,
}
use sim_mdms_auto.Model.{
  HesReadRaw, InitialMeasurement, RawIntervalWindowState, EventContextSnapshot, ExceptionCode,
  Severity, HitDetails, CompletionStatus, SummaryCode, outage,
}
use sim_mdms_auto.Store.{Db, raw_of}
use sim_mdms_auto.EventContext.{
  has_event_context_type, lookup_event_context_snapshot, event_context_tolerance_minutes,
}
use sim_mdms_auto.Vee.Rules.{
  VeeRuleHit, is_blank, when_correlated, build_required_field_hit, build_uom_mismatch_hit,
  build_multiplier_hit, build_negative_value_hit, build_zero_value_hit, build_low_value_hit,
  build_interval_size_hit, build_duplicate_hit, build_high_value_hit,
}

-- the scope of the window query; the three texts are not blank when it is made
unfoldable pub state_matches : HesReadRaw → ℕ → RawIntervalWindowState → Bool
state_matches raw business_ts s =
    text_eq s.source_system raw.source_system
    && text_eq s.meter_identifier (or_empty raw.meter_identifier)
    && text_eq s.channel_identifier (or_empty raw.channel_identifier)
    && s.window_start_at == business_ts

-- ORDER BY window_size_minutes, id
abbrev pub state_before : RawIntervalWindowState → RawIntervalWindowState → Bool
state_before a b =
    ltb a.window_size_minutes b.window_size_minutes
    || (a.window_size_minutes == b.window_size_minutes && ltb a.id b.id)

unfoldable pub find_state : Db → HesReadRaw → ℕ → Option RawIntervalWindowState
unfolding state_matches
find_state db raw business_ts = scalar state_before (state_matches raw business_ts) db.window_states

-- completion_status in {"open", "partial"}
abbrev pub is_incomplete : CompletionStatus → Bool
is_incomplete CompletionStatus.opened = true
is_incomplete CompletionStatus.partial = true
is_incomplete CompletionStatus.complete = false
is_incomplete CompletionStatus.late_update = false

state_hit : Option EventContextSnapshot → Option RawIntervalWindowState → Option VeeRuleHit
state_hit s none = none
state_hit s (some w) =
    if not (is_incomplete w.completion_status)
    then none
    else if leb w.expected_slot_count w.received_slot_count
    then none
    else some (record {
      exception_code = ExceptionCode.missing_interval_detected;
      severity = Severity.error;
      blocking_finalization = true;
      details = HitDetails.missing_interval w (when_correlated (has_event_context_type s outage) s);
    })

missing_hit_at : Db → Option EventContextSnapshot → HesReadRaw → Option ℕ → Option VeeRuleHit
unfolding state_hit
missing_hit_at db s raw none = none
missing_hit_at db s raw (some ts) =
    if not (non_empty (strip raw.source_system))
      || is_blank raw.meter_identifier
      || is_blank raw.channel_identifier
    then none
    else state_hit s (find_state db raw ts)

missing_hit : Db → Option EventContextSnapshot → Option HesReadRaw → Option VeeRuleHit
unfolding missing_hit_at
missing_hit db s none = none
missing_hit db s (some raw) = missing_hit_at db s raw raw.source_business_ts

unfoldable pub build_missing_interval_hit :
    Db → InitialMeasurement → Option EventContextSnapshot → Option VeeRuleHit
unfolding missing_hit
build_missing_interval_hit db r s = missing_hit db s (raw_of db r)

-- `if hit is not None: hits.append(hit)`
abbrev pub append_hit : Option VeeRuleHit → List VeeRuleHit → List VeeRuleHit
append_hit none hits = hits
append_hit (some h) hits = h ∷ hits

-- the hits under a snapshot that is given or has been looked up
unfoldable pub rule_hits_under :
    Db → InitialMeasurement → Option EventContextSnapshot → List VeeRuleHit
rule_hits_under db r s = append_hit (build_required_field_hit r) (
    append_hit (build_uom_mismatch_hit db r) (
      append_hit (build_multiplier_hit db r) (
        append_hit (build_negative_value_hit r s) (
          append_hit (build_zero_value_hit r) (
            append_hit (build_low_value_hit db r) (
              append_hit (build_interval_size_hit db r) (
                append_hit (build_duplicate_hit db r) (
                  append_hit (build_missing_interval_hit db r s)
                    (append_hit (build_high_value_hit db r s) [])))))))))

-- without a snapshot the function looks one up
unfoldable pub evaluate_initial_measurement_rule_hits :
    Db → InitialMeasurement → Option EventContextSnapshot → List VeeRuleHit
unfolding rule_hits_under
evaluate_initial_measurement_rule_hits db r s =
    rule_hits_under db r
      (or_option s (lookup_event_context_snapshot db r event_context_tolerance_minutes))

code_summary : ExceptionCode → Bool → SummaryCode
code_summary ExceptionCode.required_field_missing b = SummaryCode.vee_failed_required_field
code_summary ExceptionCode.uom_mismatch_detected b = SummaryCode.vee_failed_uom
code_summary ExceptionCode.multiplier_invalid_detected b = SummaryCode.vee_failed_multiplier
code_summary ExceptionCode.negative_value_detected b = SummaryCode.vee_failed_negative_value
code_summary ExceptionCode.zero_value_detected b = SummaryCode.vee_completed_with_zero_value
code_summary ExceptionCode.low_value_detected b = SummaryCode.vee_completed_with_low_value
code_summary ExceptionCode.interval_size_invalid b = SummaryCode.vee_failed_interval_size
code_summary ExceptionCode.duplicate_detected b = SummaryCode.vee_completed_with_duplicate
code_summary ExceptionCode.missing_interval_detected b = SummaryCode.vee_failed_missing_interval
code_summary ExceptionCode.high_value_detected b =
    if b then SummaryCode.vee_failed_high_value else SummaryCode.vee_completed_with_high_value

-- The codes of the rules exhaust the ladder, so its last line is never reached.
unfoldable pub build_summary_code : List VeeRuleHit → SummaryCode
unfolding code_summary
build_summary_code [] = SummaryCode.vee_passed
build_summary_code (h ∷ hs) = code_summary h.exception_code h.blocking_finalization
