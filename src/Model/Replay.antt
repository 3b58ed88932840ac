-- ===== src/Model/Replay.antt =====
-- app/models.py: requests to validate measurements again, and their items.
use sim_mdms_auto.Prelude.{ℕ, Option, Text, HasId}

pub data ReplayStatus : Type 0 where
  queued processing completed failed cancelled : ReplayStatus

pub data ItemStatus : Type 0 where
  pending processing completed failed : ItemStatus

-- any other scope text is `unsupported`
pub data ReplayScope : Type 0 where
  hes_system ingest_batch date_range unsupported : ReplayScope

pub record VeeReplayRequest : Type 0 where
  pub id : ℕ
  pub request_scope : ReplayScope
  pub status : ReplayStatus
  pub requested_by : Text
  pub requested_by_user_account_id : Option ℕ
  pub operator_memo : Option Text
  pub hes_system_id : Option ℕ
  pub ingest_batch_id : Option ℕ
  pub measured_at_from : Option ℕ
  pub measured_at_to : Option ℕ
  pub window_timezone_name : Option Text
  pub target_initial_count : ℕ
  pub processed_count : ℕ
  pub succeeded_count : ℕ
  pub failed_count : ℕ
  pub reopened_exception_count : ℕ
  pub cleared_exception_count : ℕ
  pub final_superseded_count : ℕ
  pub usage_recalculated_count : ℕ
  pub cancelled_by : Option Text
  pub cancelled_by_user_account_id : Option ℕ
  pub cancelled_at : Option ℕ
  pub started_at : Option ℕ
  pub completed_at : Option ℕ
  pub last_error : Option Text

pub record VeeReplayRequestItem : Type 0 where
  pub id : ℕ
  pub vee_replay_request_id : ℕ
  pub initial_measurement_id : ℕ
  pub representative_vee_exception_id : ℕ
  pub status : ItemStatus
  pub result_code : Option Text
  pub vee_execution_log_id : Option ℕ
  pub previous_final_measurement_id : Option ℕ
  pub current_final_measurement_id : Option ℕ

instance abbrev pub replay_request_id : HasId VeeReplayRequest
replay_request_id = record { row_id = λ r. r.id }

instance abbrev pub replay_item_id : HasId VeeReplayRequestItem
replay_item_id = record { row_id = λ r. r.id }
