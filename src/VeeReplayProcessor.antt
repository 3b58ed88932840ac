-- ===== src/VeeReplayProcessor.antt =====
-- app/services/vee_replay_processor.py: the worker that processes queued replay requests. The time of
-- a call is one `now`; a rollback returns to the store of the last commit; the text of an exception
-- is a parameter. The JSON `details` is left out.
pub mod Frame
pub mod Untouched
pub mod Requests
pub mod Finish
pub mod Drain
use sim_mdms_auto.Prelude.{
  ℕ, suc, zero, ◌+◌, Bool, true, false, ◌&&◌, not, Option, none, some, List, [], ◌∷◌, ◌++◌, Text,
  codes, ◌==◌, if◌then◌else◌, map, select, order_by, by_id, scalar, modify, get, get?, count,
}
use sim_mdms_auto.Model.Replay.{
  VeeReplayRequest, VeeReplayRequestItem, ReplayStatus, ItemStatus, replay_request_id,
  replay_item_id,
}
use sim_mdms_auto.Store.{Db}
use sim_mdms_auto.Ops.Rows.{PipelineName, PipelineRun, EventCode, EntityType}
use sim_mdms_auto.Ops.Events.{defaults, record_operational_event}
use sim_mdms_auto.Ops.Pipeline.{
  start_pipeline_run, complete_pipeline_run, fail_pipeline_run, no_links,
}
use sim_mdms_auto.Vee.Actions.{ActionError, Operator}
use sim_mdms_auto.Billing.Store.{BillingDb}
use sim_mdms_auto.Usage.Windows.{Zones}
use sim_mdms_auto.ProcessingReplay.Windows.{UsageAction, UsageRecalculationResult}
use sim_mdms_auto.ProcessingReplay.Reevaluate.{
  ReVeeReplaySummary, ReplayOutcome, reevaluate_vee_exception_and_replay,
}

abbrev pub is_queued : ReplayStatus → Bool
is_queued ReplayStatus.queued = true
is_queued _ = false

abbrev pub id_is : Option ℕ → ℕ → Bool
id_is none n = true
id_is (some m) n = n == m

abbrev pub is_claimable : Option ℕ → VeeReplayRequest → Bool
is_claimable wanted r = is_queued r.status && id_is wanted r.id

abbrev pub claimed_row : ℕ → VeeReplayRequest → VeeReplayRequest
claimed_row now r = record r {
  status = ReplayStatus.processing;
  started_at = some now;
  completed_at = none;
  last_error = none;
}

abbrev pub change_request : ℕ → (VeeReplayRequest → VeeReplayRequest) → Db → Db
change_request n g db = record db { replay_requests = modify n g db.replay_requests }

abbrev pub change_item : ℕ → (VeeReplayRequestItem → VeeReplayRequestItem) → Db → Db
change_item n g db = record db { replay_items = modify n g db.replay_items }

abbrev pub in_core : (Db → Db) → BillingDb → BillingDb
in_core g db = record db { core = g db.core }

-- the queued request with the least id
unfoldable pub find_next_queued : Option ℕ → Db → Option VeeReplayRequest
find_next_queued wanted db = scalar by_id (is_claimable wanted) db.replay_requests

abbrev pub record_request_event : ℕ → EventCode → VeeReplayRequest → Option ℕ → Db → Db
record_request_event now code r run db =
    record_operational_event now code
      (record defaults {
        entity_type = some EntityType.vee_replay_request;
        entity_id = some r.id;
        ingest_batch = r.ingest_batch_id;
        pipeline_run = run;
      })
      db

unfoldable pub derive_item_result_code : ReVeeReplaySummary → Text
derive_item_result_code s =
    if s.exception_reopened
    then codes "exception_reopened"
    else if s.final_superseded
    then codes "final_superseded"
    else if s.final_created
    then codes "final_created"
    else if s.exception_cleared
    then codes "exception_cleared"
    else codes "replay_completed"

abbrev pub processing_item : VeeReplayRequestItem → VeeReplayRequestItem
processing_item i = record i { status = ItemStatus.processing; result_code = none }

unfoldable pub mark_item_processing : ℕ → BillingDb → BillingDb
mark_item_processing n db = in_core (change_item n processing_item) db

abbrev pub one_if : Bool → ℕ
one_if true = 1
one_if false = 0

abbrev changed : UsageAction → Bool
changed UsageAction.unchanged = false
changed _ = true

abbrev pub is_changed : UsageRecalculationResult → Bool
is_changed r = changed r.action

abbrev pub completed_item : ReVeeReplaySummary → VeeReplayRequestItem → VeeReplayRequestItem
completed_item s i = record i {
  status = ItemStatus.completed;
  result_code = some (derive_item_result_code s);
  vee_execution_log_id = some s.vee_execution_log_id;
  previous_final_measurement_id = s.previous_final_id;
  current_final_measurement_id = s.current_final_id;
}

abbrev pub request_after_success : ReVeeReplaySummary → VeeReplayRequest → VeeReplayRequest
request_after_success s r = record r {
  processed_count = r.processed_count + 1;
  succeeded_count = r.succeeded_count + 1;
  reopened_exception_count = r.reopened_exception_count + one_if s.exception_reopened;
  cleared_exception_count = r.cleared_exception_count + one_if s.exception_cleared;
  final_superseded_count = r.final_superseded_count + one_if s.final_superseded;
  usage_recalculated_count =
      r.usage_recalculated_count + count is_changed s.usage_recalculation_results;
}

unfoldable pub apply_successful_item_result : ℕ → ℕ → ReVeeReplaySummary → BillingDb → BillingDb
unfolding derive_item_result_code
apply_successful_item_result request item s db =
    in_core (change_request request (request_after_success s))
      (in_core (change_item item (completed_item s)) db)

abbrev pub failed_item : VeeReplayRequestItem → VeeReplayRequestItem
failed_item i = record i {
  status = ItemStatus.failed;
  result_code = some (codes "processing_error");
}

abbrev pub request_after_failure : Text → VeeReplayRequest → VeeReplayRequest
request_after_failure error r = record r {
  processed_count = r.processed_count + 1;
  failed_count = r.failed_count + 1;
  last_error = some error;
}

unfoldable pub apply_failed_item_result : ℕ → ℕ → Text → BillingDb → BillingDb
apply_failed_item_result request item error db =
    in_core (change_request request (request_after_failure error))
      (in_core (change_item item failed_item) db)

abbrev pub final_status : VeeReplayRequest → ReplayStatus
final_status r = if r.failed_count == 0 then ReplayStatus.completed else ReplayStatus.failed

abbrev pub finished_request : ℕ → VeeReplayRequest → VeeReplayRequest
finished_request now r = record r { status = final_status r; completed_at = some now }

-- the store, and whether the request was completed
abbrev pub finalize_found : ℕ → PipelineRun → Option VeeReplayRequest → BillingDb → BillingDb × Bool
finalize_found now run none db = (db, false)
finalize_found now run (some r) db =
    let finished = in_core (change_request r.id (finished_request now)) db in
    if r.failed_count == 0
    then (
      in_core
          (λ core.
            record_request_event now EventCode.vee_replay_completed r (some run.id)
              (complete_pipeline_run now run (some (codes "replay_completed")) none core))
          finished,
      true,
    )
    else (
      in_core
          (λ core.
            record_request_event now EventCode.vee_replay_failed r (some run.id)
              (fail_pipeline_run now run (some (codes "item_failures_detected")) none core))
          finished,
      false,
    )

unfoldable pub finalize_request : ℕ → ℕ → PipelineRun → BillingDb → BillingDb × Bool
unfolding complete_pipeline_run fail_pipeline_run record_operational_event
finalize_request now request run db =
    finalize_found now run (get request db.core.replay_requests) db

abbrev pub is_pending : ItemStatus → Bool
is_pending ItemStatus.pending = true
is_pending _ = false

abbrev pub is_pending_of : ℕ → VeeReplayRequestItem → Bool
is_pending_of request i = i.vee_replay_request_id == request && is_pending i.status

unfoldable pub pending_items : ℕ → Db → List VeeReplayRequestItem
pending_items request db = order_by by_id (select (is_pending_of request) db.replay_items)

pub record ItemCounts : Type 0 where
  pub succeeded : ℕ
  pub failed : ℕ

-- the store to commit after an item, and whether it succeeded; a failure starts from the last commit
abbrev pub apply_outcome :
    (Option ActionError → Text) → ℕ → ℕ → BillingDb → ReplayOutcome → BillingDb × Bool
apply_outcome error_text request item committed (ReplayOutcome.done db s) =
    (apply_successful_item_result request item s db, true)
apply_outcome error_text request item committed (ReplayOutcome.refused e) =
    (apply_failed_item_result request item (error_text (some e)) committed, false)
apply_outcome error_text request item committed ReplayOutcome.raised =
    (apply_failed_item_result request item (error_text none) committed, false)

abbrev pub count_item : Bool → ItemCounts → ItemCounts
count_item true c = record c { succeeded = c.succeeded + 1 }
count_item false c = record c { failed = c.failed + 1 }

abbrev pub memo_of : Option VeeReplayRequest → Option Text
memo_of none = none
memo_of (some r) = r.operator_memo

module _ (zones : Zones) (error_text : Option ActionError → Text) (now : ℕ)
    (processed_by : Text) where
  abbrev pub replay_operator : ℕ → Db → Operator
  replay_operator request db = record {
    name = some processed_by;
    user_account_id = none;
    memo = memo_of (get request db.replay_requests);
    at = none;
  }

  unfoldable pub process_item : ℕ → VeeReplayRequestItem → BillingDb → BillingDb × Bool
  unfolding mark_item_processing reevaluate_vee_exception_and_replay apply_successful_item_result
      apply_failed_item_result
  process_item request i db =
      let marked = mark_item_processing i.id db in
      apply_outcome error_text request i.id marked (
        reevaluate_vee_exception_and_replay zones now i.representative_vee_exception_id
          (replay_operator request marked.core) marked)

  unfoldable pub process_items :
      ℕ → List VeeReplayRequestItem → BillingDb → ItemCounts → BillingDb × ItemCounts
  unfolding process_item
  process_items request [] db c = (db, c)
  process_items request (i ∷ is) db c =
      let result = process_item request i db in
      process_items request is result.0 (count_item result.1 c)

  pub record RequestResult : Type 0 where
    pub db : BillingDb
    pub counts : ItemCounts
    pub completed : Bool

  -- a claimed request
  unfoldable pub process_request : VeeReplayRequest → BillingDb → RequestResult
  unfolding process_items finalize_request pending_items start_pipeline_run record_operational_event
  process_request r db =
      let (core, run) =
        start_pipeline_run now PipelineName.vee_replay (codes "async_replay")
          (record no_links { vee_replay_request_id = some r.id }) db.core in
      let started = record db {
        core = record_request_event now EventCode.vee_replay_started r (some run.id) core;
      } in
      let (db', counts) =
        process_items r.id (pending_items r.id started.core) started
          (record { succeeded = 0; failed = 0 }) in
      let finished = finalize_request now r.id run db' in
      record { db = finished.0; counts = counts; completed = finished.1 }

  pub record ProcessorSummary : Type 0 where
    pub claimed_requests : ℕ
    pub completed_requests : ℕ
    pub failed_requests : ℕ
    pub processed_items : ℕ
    pub succeeded_items : ℕ
    pub failed_items : ℕ
    pub request_ids : List ℕ

  abbrev pub add_result : ℕ → RequestResult → ProcessorSummary → ProcessorSummary
  add_result n r s = record s {
    claimed_requests = s.claimed_requests + 1;
    completed_requests = s.completed_requests + one_if r.completed;
    failed_requests = s.failed_requests + one_if (not r.completed);
    processed_items = s.processed_items + (r.counts.succeeded + r.counts.failed);
    succeeded_items = s.succeeded_items + r.counts.succeeded;
    failed_items = s.failed_items + r.counts.failed;
    request_ids = s.request_ids ++ n ∷ [];
  }

  abbrev pub claim : VeeReplayRequest → BillingDb → BillingDb
  claim r db = in_core (change_request r.id (claimed_row now)) db

  -- `while remaining > 0`
  unfoldable pub process_next :
      ℕ → Option ℕ → BillingDb → ProcessorSummary → BillingDb × ProcessorSummary
  unfolding process_request find_next_queued
  process_next zero wanted db s = (db, s)
  process_next (suc remaining) wanted db s = elim (find_next_queued wanted db.core) [
    | none ↦ (db, s)
    | some r ↦
        let result = process_request (claimed_row now r) (claim r db) in
        process_next remaining wanted result.db (add_result r.id result s)
  ]

  abbrev pub rounds : ℕ → Option ℕ → ℕ
  rounds limit none = limit
  rounds limit (some n) = 1

  abbrev pub empty_summary : ProcessorSummary
  empty_summary = record {
    claimed_requests = 0;
    completed_requests = 0;
    failed_requests = 0;
    processed_items = 0;
    succeeded_items = 0;
    failed_items = 0;
    request_ids = [];
  }

  unfoldable pub process_queued_vee_replay_requests :
      ℕ → Option ℕ → BillingDb → BillingDb × ProcessorSummary
  unfolding process_next
  process_queued_vee_replay_requests limit wanted db =
      process_next (rounds limit wanted) wanted db empty_summary
