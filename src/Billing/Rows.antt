-- ===== src/Billing/Rows.antt =====
-- app/models.py: usage, billing contexts, bill determinants and bill charges. A quantity is a ℤ of
-- ten-thousandths, a rate a ℤ of hundred-millionths.
use sim_mdms_auto.Prelude.{ℕ, Bool, Option, List, Text, ℤ, HasId}
use sim_mdms_auto.Billing.Revisions.{CalculationStatus}

pub record UsageTransaction : Type 0 where
  pub id : ℕ
  pub pipeline_run_id : ℕ
  pub service_point_id : ℕ
  pub measuring_component_id : ℕ
  pub device_id : ℕ
  pub usage_type : Text
  pub period_start_at : ℕ
  pub period_end_at : ℕ
  pub window_timezone_name : Text
  pub interval_size_minutes : Option ℕ
  pub unit_of_measure : Option Text
  pub usage_value : ℤ
  pub source_final_count : ℕ
  pub missing_interval_count : ℕ
  pub quality_summary : Text
  pub calculation_status : CalculationStatus
  pub calculated_at : ℕ

pub data BillingCycleMode : Type 0 where
  calendar_month anchored_month : BillingCycleMode
  other_mode : Text → BillingCycleMode

pub record ServicePointBillingContext : Type 0 where
  pub id : ℕ
  pub service_point_id : ℕ
  pub timezone_name : Text
  pub billing_cycle_mode : BillingCycleMode
  pub billing_cycle_anchor_day : Option ℕ
  pub currency_code : Option Text
  pub effective_from : ℕ
  pub effective_to : Option ℕ
  pub is_current : Bool
  pub source_system : Text
  pub source_reference : Option Text
  pub created_by_user_account_id : Option ℕ
  pub updated_by_user_account_id : Option ℕ

-- `details["billing_context_snapshot"]`
pub record BillingContextSnapshot : Type 0 where
  pub billing_context_id : ℕ
  pub timezone_name : Text
  pub billing_cycle_mode : BillingCycleMode
  pub billing_cycle_anchor_day : Option ℕ
  pub currency_code : Option Text
  pub effective_from : ℕ
  pub effective_to : Option ℕ

-- `details["provenance"]`, without the entries of the trigger's context that are only passed on
pub record Provenance : Type 0 where
  pub trigger_type : Text
  pub trigger_source : Text
  pub source_ids : List ℕ

pub record DeterminantDetails : Type 0 where
  pub billing_period_source : Text
  pub source_usage_type : Text
  pub source_usage_calculation_status : CalculationStatus
  pub source_usage_quality_summary : Text
  pub billing_context_snapshot : Option BillingContextSnapshot
  pub provenance : Provenance

pub record BillDeterminant : Type 0 where
  pub id : ℕ
  pub pipeline_run_id : ℕ
  pub service_point_id : ℕ
  pub measuring_component_id : Option ℕ
  pub device_id : Option ℕ
  pub determinant_type : Text
  pub billing_period_start_at : ℕ
  pub billing_period_end_at : ℕ
  pub window_timezone_name : Text
  pub tariff_plan_code : Option Text
  pub tou_bucket_code : Option Text
  pub demand_window_code : Option Text
  pub unit_of_measure : Text
  pub determinant_value : ℤ
  pub source_usage_count : ℕ
  pub quality_summary : Text
  pub calculation_status : CalculationStatus
  pub revision_number : ℕ
  pub revision_reason_code : Option Text
  pub is_current : Bool
  pub supersedes_bill_determinant_id : Option ℕ
  pub calculated_at : ℕ
  pub details : DeterminantDetails

-- `details["tariff_assignment_snapshot"]`
pub record TariffAssignmentSnapshot : Type 0 where
  pub tariff_assignment_id : ℕ
  pub tariff_plan_code : Text
  pub tariff_version_code : Option Text
  pub effective_from : ℕ
  pub effective_to : Option ℕ
  pub source_system : Text
  pub source_reference : Option Text

-- `details["source_bill_determinant_snapshot"]`
pub record DeterminantSnapshot : Type 0 where
  pub bill_determinant_id : ℕ
  pub determinant_type : Text
  pub billing_period_start_at : ℕ
  pub billing_period_end_at : ℕ
  pub unit_of_measure : Text
  pub determinant_value : ℤ
  pub calculation_status : CalculationStatus
  pub quality_summary : Text
  pub revision_number : ℕ

pub record ChargeDetails : Type 0 where
  pub billing_context_snapshot : Option BillingContextSnapshot
  pub billing_period_source : Text
  pub tariff_assignment_snapshot : Option TariffAssignmentSnapshot
  pub source_bill_determinant_snapshot : DeterminantSnapshot
  pub provenance : Provenance

pub record BillCharge : Type 0 where
  pub id : ℕ
  pub pipeline_run_id : ℕ
  pub service_point_id : ℕ
  pub measuring_component_id : Option ℕ
  pub device_id : Option ℕ
  pub bill_determinant_id : ℕ
  pub charge_type : Text
  pub billing_period_start_at : ℕ
  pub billing_period_end_at : ℕ
  pub currency_code : Option Text
  pub tariff_plan_code : Option Text
  pub tariff_version_code : Option Text
  pub quantity_value : ℤ
  pub unit_rate_value : Option ℤ
  pub charge_amount : Option ℤ
  pub calculation_status : CalculationStatus
  pub quality_summary : Text
  pub revision_number : ℕ
  pub revision_reason_code : Option Text
  pub is_current : Bool
  pub supersedes_bill_charge_id : Option ℕ
  pub calculated_at : ℕ
  pub details : ChargeDetails

-- the columns of `hes_system` that usage reads
pub record HesSystem : Type 0 where
  pub id : ℕ
  pub timezone_name : Option Text

instance abbrev pub system_id : HasId HesSystem
system_id = record { row_id = λ r. r.id }

instance abbrev pub usage_id : HasId UsageTransaction
usage_id = record { row_id = λ r. r.id }

instance abbrev pub context_id : HasId ServicePointBillingContext
context_id = record { row_id = λ r. r.id }

instance abbrev pub determinant_id : HasId BillDeterminant
determinant_id = record { row_id = λ r. r.id }

instance abbrev pub charge_id : HasId BillCharge
charge_id = record { row_id = λ r. r.id }
