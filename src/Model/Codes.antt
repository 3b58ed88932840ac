-- ===== src/Model/Codes.antt =====
-- The codes that app/services/vee.py, finalization.py, event_context.py, correction_policy.py and
-- app/models.py keep in text columns, as enumerations of the values that the services write.
use sim_mdms_auto.Prelude.{ℕ, ◌≡◌, Bool, true, false, arith, ◌==◌}

pub data ExceptionCode : Type 0 where
  required_field_missing uom_mismatch_detected multiplier_invalid_detected : ExceptionCode
  negative_value_detected zero_value_detected low_value_detected : ExceptionCode
  interval_size_invalid duplicate_detected missing_interval_detected : ExceptionCode
  high_value_detected : ExceptionCode

-- the place of a code in the list of active rules
abbrev pub code_index : ExceptionCode → ℕ
code_index required_field_missing = 0
code_index uom_mismatch_detected = 1
code_index multiplier_invalid_detected = 2
code_index negative_value_detected = 3
code_index zero_value_detected = 4
code_index low_value_detected = 5
code_index interval_size_invalid = 6
code_index duplicate_detected = 7
code_index missing_interval_detected = 8
code_index high_value_detected = 9

-- `==` of two codes
abbrev pub same_code : ExceptionCode → ExceptionCode → Bool
same_code a b = code_index a == code_index b

pub data Severity : Type 0 where
  info warning error critical : Severity

pub data ExceptionStatus : Type 0 where
  opened acknowledged resolved : ExceptionStatus

pub data InitialStatus : Type 0 where
  ready accepted exception : InitialStatus

pub data ExecutionStatus : Type 0 where
  passed completed_with_exception : ExecutionStatus

pub data SummaryCode : Type 0 where
  vee_passed vee_failed_required_field vee_failed_uom vee_failed_multiplier : SummaryCode
  vee_failed_negative_value vee_completed_with_zero_value vee_completed_with_low_value : SummaryCode
  vee_failed_interval_size vee_completed_with_duplicate vee_failed_missing_interval : SummaryCode
  vee_failed_high_value vee_completed_with_high_value : SummaryCode

pub data CanonicalStatus : Type 0 where
  pending mapped duplicate exception : CanonicalStatus

pub data CompletionStatus : Type 0 where
  opened partial complete late_update : CompletionStatus

pub data FinalStatus : Type 0 where
  finalized superseded : FinalStatus

pub data ContextType : Type 0 where
  outage tamper : ContextType

abbrev pub same_context : ContextType → ContextType → Bool
same_context outage outage = true
same_context outage tamper = false
same_context tamper outage = false
same_context tamper tamper = true

-- exception_status in {"open", "acknowledged"}
abbrev pub is_active_status : ExceptionStatus → Bool
is_active_status ExceptionStatus.opened = true
is_active_status ExceptionStatus.acknowledged = true
is_active_status ExceptionStatus.resolved = false

pub same_code→eq : (a b : ExceptionCode) → same_code a b ≡ true → a ≡ b
same_code→eq a b h = ground arith

pub same_code_refl : (a : ExceptionCode) → same_code a a ≡ true
same_code_refl a = ground arith
