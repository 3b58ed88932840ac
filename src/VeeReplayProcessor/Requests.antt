-- ===== src/VeeReplayProcessor/Requests.antt =====
-- Lemmas on app/services/vee_replay_processor.py: the tables after one item.
use sim_mdms_auto.Prelude.{
  ℕ, ◌+◌, Bool, true, false, not, arith, Option, none, some, List, Text, ◌≡◌, refl, ap, modify,
}
use sim_mdms_auto.Model.Replay.{
  VeeReplayRequest, VeeReplayRequestItem, ItemStatus, replay_request_id, replay_item_id,
}
use sim_mdms_auto.Store.{Db}
use sim_mdms_auto.Vee.Actions.{ActionError}
use sim_mdms_auto.Billing.Store.{BillingDb}
use sim_mdms_auto.Usage.Windows.{Zones}
use sim_mdms_auto.ProcessingReplay.Reevaluate.{
  ReVeeReplaySummary, ReplayOutcome, reevaluate_vee_exception_and_replay,
}
use sim_mdms_auto.VeeReplayProcessor.{
  processing_item, mark_item_processing, completed_item, request_after_success, failed_item,
  request_after_failure, apply_successful_item_result, apply_failed_item_result, apply_outcome,
  process_item, replay_operator, one_if,
}
use sim_mdms_auto.VeeReplayProcessor.Frame.{replay_tables}
use sim_mdms_auto.VeeReplayProcessor.Untouched.{reevaluate_and_replay-tables}

-- an item that was worked on to the end
abbrev pub is_done : ItemStatus → Bool
is_done ItemStatus.completed = true
is_done ItemStatus.failed = true
is_done _ = false

-- one row of the requests is counted up, by this many failures, with its id and status as they were
pub record KeepsRequest (n failed : ℕ) (rows rows' : List VeeReplayRequest) : Type 0 where
  pub change : VeeReplayRequest → VeeReplayRequest
  pub changed : rows' ≡ modify n change rows
  pub same_id : (r : VeeReplayRequest) → (change r).id ≡ r.id
  pub same_status : (r : VeeReplayRequest) → (change r).status ≡ r.status
  pub counted : (r : VeeReplayRequest) → (change r).failed_count ≡ r.failed_count + failed

-- one row of the items is completed or failed
pub record EndsItem (n : ℕ) (rows rows' : List VeeReplayRequestItem) : Type 0 where
  pub change : VeeReplayRequestItem → VeeReplayRequestItem
  pub changed : rows' ≡ modify n change (modify n processing_item rows)
  pub same_id : (i : VeeReplayRequestItem) → (change i).id ≡ i.id
  pub ended : (i : VeeReplayRequestItem) → is_done (change i).status ≡ true

pub record IsItemStep (request item : ℕ) (db db' : Db) (succeeded : Bool) : Type 0 where
  pub requests :
      KeepsRequest request (one_if (not succeeded)) db.replay_requests db'.replay_requests
  pub items : EndsItem item db.replay_items db'.replay_items

module _ (error_text : Option ActionError → Text) (request item : ℕ) (db : BillingDb) where
  failed-IsItemStep :
      (o : Option ActionError)
      → IsItemStep request item db.core
          (apply_failed_item_result request item (error_text o) (mark_item_processing item db)).core
          false
  unfolding apply_failed_item_result mark_item_processing
  failed-IsItemStep o = record {
    requests = record {
      change = request_after_failure (error_text o);
      changed = refl;
      same_id = λ r. refl;
      same_status = λ r. refl;
      counted = λ r. refl;
    };
    items = record { change = failed_item; changed = refl; same_id = λ i. refl; ended = λ i. refl };
  }

  done-IsItemStep :
      (db' : BillingDb) (s : ReVeeReplaySummary)
      → replay_tables db'.core ≡ replay_tables (mark_item_processing item db).core
      → IsItemStep request item db.core (apply_successful_item_result request item s db').core true
  unfolding apply_successful_item_result mark_item_processing
  done-IsItemStep db' s e = record {
    requests = record {
      change = request_after_success s;
      changed = ap (λ t. modify request (request_after_success s) t.0) e;
      same_id = λ r. refl;
      same_status = λ r. refl;
      counted = λ r. omega arith;
    };
    items = record {
      change = completed_item s;
      changed = ap (λ t. modify item (completed_item s) t.1) e;
      same_id = λ i. refl;
      ended = λ i. refl;
    };
  }

  outcome-IsItemStep :
      (o : ReplayOutcome)
      → ((db' : BillingDb) (s : ReVeeReplaySummary)
          → o ≡ ReplayOutcome.done db' s
          → replay_tables db'.core ≡ replay_tables (mark_item_processing item db).core)
      → IsItemStep request item db.core
          (apply_outcome error_text request item (mark_item_processing item db) o).0.core
          (apply_outcome error_text request item (mark_item_processing item db) o).1
  outcome-IsItemStep (ReplayOutcome.done db' s) same = done-IsItemStep db' s (same db' s refl)
  outcome-IsItemStep (ReplayOutcome.refused e) same = failed-IsItemStep (some e)
  outcome-IsItemStep ReplayOutcome.raised same = failed-IsItemStep none

module _ (zones : Zones) (error_text : Option ActionError → Text) (now : ℕ)
    (processed_by : Text) where
  pub process_item-IsItemStep :
      (request : ℕ) (i : VeeReplayRequestItem) (db : BillingDb)
      → IsItemStep request i.id db.core
          (process_item zones error_text now processed_by request i db).0.core
          (process_item zones error_text now processed_by request i db).1
  unfolding process_item
  process_item-IsItemStep request i db =
      let marked = mark_item_processing i.id db in
      let op = replay_operator zones error_text now processed_by request marked.core in
      outcome-IsItemStep error_text request i.id db
        (reevaluate_vee_exception_and_replay zones now i.representative_vee_exception_id op marked)
        (λ db' s.
          reevaluate_and_replay-tables zones now i.representative_vee_exception_id op marked db' s)
