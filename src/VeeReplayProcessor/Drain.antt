-- ===== src/VeeReplayProcessor/Drain.antt =====
-- Properties of app/services/vee_replay_processor.py: requests and the queue.
use sim_mdms_auto.Prelude.{
  count-update_where-ge, length, ℕ, zero, suc, ◌+◌, ◌-◌, Bool, true, false, not, Option, none, some,
  List, [], Text, codes, ◌≡◌, refl, sym, ap, subst, ◌∙◌, arith, modify, get, get_sound, get_self,
  get_unique, get-modify_same, All, All-mono, All-scalar, any, any-imp, any-count, count,
  count-modify_fail, count-update_where-All, scalar_sound, scalar-none, HasUniqueIds,
  HasUniqueIds-modify, ◌==◌, Bool-cases, Option-cases, inl, inr,
}
use sim_mdms_auto.Model.Replay.{
  VeeReplayRequest, VeeReplayRequestItem, ReplayStatus, replay_request_id, replay_item_id,
}
use sim_mdms_auto.Store.{Db}
use sim_mdms_auto.Ops.Rows.{PipelineRun, PipelineName, EventCode}
use sim_mdms_auto.Ops.Events.{record_operational_event}
use sim_mdms_auto.Ops.Pipeline.{start_pipeline_run, no_links}
use sim_mdms_auto.Vee.Actions.{ActionError}
use sim_mdms_auto.Billing.Store.{BillingDb}
use sim_mdms_auto.Usage.Windows.{Zones}
use sim_mdms_auto.VeeReplayProcessor.{
  ItemCounts, is_queued, is_claimable, claimed_row, find_next_queued, is_pending_of, final_status,
  finished_request, finalize_found, finalize_request, process_items, pending_items, process_request,
  RequestResult, process_next, add_result, claim, ProcessorSummary, empty_summary,
  process_queued_vee_replay_requests, one_if, record_request_event,
}
use sim_mdms_auto.VeeReplayProcessor.Frame.{
  replay_tables, complete_pipeline_run-tables, fail_pipeline_run-tables,
}
use sim_mdms_auto.VeeReplayProcessor.Finish.{
  AreLeft, pending-AreLeft, AreDone, item_ids, process_items_lem, process_items-AreDone,
}

abbrev pub queue_length : List VeeReplayRequest → ℕ
queue_length rows = count (λ r. is_queued r.status) rows

-- the status of a request that was worked on to the end
abbrev pub end_status : Bool → ReplayStatus
end_status true = ReplayStatus.completed
end_status false = ReplayStatus.failed

-- the end of a request that is stored and out of the queue
record IsFinalized (n failed : ℕ) (before : Db) (result : BillingDb × Bool) : Type 0 where
  completed : result.1 ≡ (failed == 0)
  found :
      (r : VeeReplayRequest) × (get n result.0.core.replay_requests ≡ some r)
      × (r.status ≡ end_status result.1)
  ids : HasUniqueIds result.0.core.replay_requests
  queued : queue_length result.0.core.replay_requests ≡ queue_length before.replay_requests
  items : result.0.core.replay_items ≡ before.replay_items

module _ (now : ℕ) (run : PipelineRun) (r : VeeReplayRequest) (db : BillingDb) where
  finalize_found-tables :
      replay_tables (finalize_found now run (some r) db).0.core
      ≡ (modify r.id (finished_request now) db.core.replay_requests, db.core.replay_items)
  unfolding record_operational_event
  finalize_found-tables = elim (Bool-cases (r.failed_count == 0)) [
    | inl e ↦ rw e (complete_pipeline_run-tables now run (some (codes "replay_completed")) none _)
    | inr e ↦ rw e (fail_pipeline_run-tables now run (some (codes "item_failures_detected")) none _)
  ]

  finalize_found-status : final_status r ≡ end_status (finalize_found now run (some r) db).1
  finalize_found-status = elim (Bool-cases (r.failed_count == 0)) [
    | inl e ↦ rw e refl
    | inr e ↦ rw e refl
  ]

  finalize_found-completed : (finalize_found now run (some r) db).1 ≡ (r.failed_count == 0)
  finalize_found-completed = elim (Bool-cases (r.failed_count == 0)) [
    | inl e ↦ rw e refl
    | inr e ↦ rw e refl
  ]

  finished-queued :
      HasUniqueIds db.core.replay_requests
      → get r.id db.core.replay_requests ≡ some r
      → is_queued r.status ≡ false
      → queue_length (modify r.id (finished_request now) db.core.replay_requests)
        ≡ queue_length db.core.replay_requests
  unfolding modify
  finished-queued u g q =
      count-update_where-All (λ x. is_queued x.status) (λ x. x.id == r.id) (finished_request now)
        db.core.replay_requests
        (All-mono _ _ db.core.replay_requests
          (λ x (one : (x.id == r.id) ≡ true → x ≡ r) e.
            never_queued x ∙ sym (subst (λ y. is_queued y.status ≡ false) (sym (one e)) q))
          (get_unique r.id db.core.replay_requests r (u r.id) g))
    where
      never_queued : (x : VeeReplayRequest) → is_queued (finished_request now x).status ≡ false
      never_queued x = elim (Bool-cases (x.failed_count == 0)) [
        | inl e ↦ rw e refl
        | inr e ↦ rw e refl
      ]

  finalize_found-IsFinalized :
      HasUniqueIds db.core.replay_requests
      → get r.id db.core.replay_requests ≡ some r
      → is_queued r.status ≡ false
      → IsFinalized r.id r.failed_count db.core (finalize_found now run (some r) db)
  finalize_found-IsFinalized u g q =
      let t = finalize_found-tables in
      let requests = ap (λ x. x.0) t in
      record {
        completed = finalize_found-completed;
        found = (
          finished_request now r,
          subst (λ rows. get r.id rows ≡ some (finished_request now r)) (sym requests)
              (get-modify_same r.id (finished_request now) db.core.replay_requests r (λ x. refl) g),
          finalize_found-status,
        );
        ids =
            subst HasUniqueIds (sym requests) (
              HasUniqueIds-modify r.id (finished_request now) db.core.replay_requests (λ x. refl)
                u);
        queued = ap queue_length requests ∙ finished-queued u g q;
        items = ap (λ x. x.1) t;
      }

-- what working on a claimed request leaves: its pending items are completed or failed and counted, and
-- no other is pending; it has ended, by the failures that it had counted and those of its items; ids
-- are unique and the queue is as it was
pub record IsWorkedOff (r : VeeReplayRequest) (before : Db) (after : BillingDb)
    (counts : ItemCounts) (completed : Bool) : Type 0 where
  pub same_items : item_ids after.core.replay_items ≡ item_ids before.replay_items
  pub done : AreDone (pending_items r.id before) after.core.replay_items
  pub no_pending : All (λ i. is_pending_of r.id i ≡ false) after.core.replay_items
  pub all_counted : counts.succeeded + counts.failed ≡ length (pending_items r.id before)
  pub by_failures : completed ≡ (r.failed_count + counts.failed == 0)
  pub ended :
      (r' : VeeReplayRequest) × (get r.id after.core.replay_requests ≡ some r')
      × (r'.status ≡ end_status completed)
  pub ids : HasUniqueIds after.core.replay_requests
  pub queued : queue_length after.core.replay_requests ≡ queue_length before.replay_requests

not_queued : is_queued ReplayStatus.processing ≡ false
not_queued = refl

none_left :
    (n : ℕ) (rows : List VeeReplayRequestItem)
    → AreLeft n [] rows
    → All (λ i. is_pending_of n i ≡ false) rows
none_left n rows h = All-mono _ _ rows (λ i g. refuted (is_pending_of n i) g) h
  where
    refuted : (b : Bool) → (b ≡ true → false ≡ true) → b ≡ false
    refuted true g = absurd (cc (g refl))
    refuted false g = refl

module _ (zones : Zones) (error_text : Option ActionError → Text) (now : ℕ)
    (processed_by : Text) where
  finalize_request-IsFinalized :
      (n : ℕ) (run : PipelineRun) (r : VeeReplayRequest) (db : BillingDb)
      → HasUniqueIds db.core.replay_requests
      → get n db.core.replay_requests ≡ some r
      → is_queued r.status ≡ false
      → IsFinalized n r.failed_count db.core (finalize_request now n run db)
  unfolding finalize_request
  finalize_request-IsFinalized n run r db u g q =
      let e = get_sound n db.core.replay_requests r g in
      rw g (
        subst (λ m. IsFinalized m r.failed_count db.core (finalize_found now run (some r) db)) e
          (finalize_found-IsFinalized now run r db u
            (subst (λ m. get m db.core.replay_requests ≡ some r) (sym e) g) q))

  -- Working on a request that is stored as processing, in a store with unique request ids, makes every
  -- item of it that was pending completed or failed, leaves none pending, and counts each as succeeded
  -- or failed. The request then is completed if neither it nor these items count a failure, and else
  -- failed. No item is added or removed, request ids stay unique and as many requests are queued as
  -- before.
  pub process_request-IsWorkedOff :
      (r : VeeReplayRequest) (db : BillingDb)
      → HasUniqueIds db.core.replay_requests
      → get r.id db.core.replay_requests ≡ some r
      → r.status ≡ ReplayStatus.processing
      → let result = process_request zones error_text now processed_by r db in
        IsWorkedOff r db.core result.db result.counts result.completed
  unfolding process_request pending_items start_pipeline_run record_operational_event
  process_request-IsWorkedOff r db u g p =
      let (core, run) =
        start_pipeline_run now PipelineName.vee_replay (codes "async_replay")
          (record no_links { vee_replay_request_id = some r.id }) db.core in
      let started : BillingDb = record db {
        core = record_request_event now EventCode.vee_replay_started r (some run.id) core;
      } in
      let worked =
        process_items zones error_text now processed_by r.id (pending_items r.id started.core)
          started (record { succeeded = 0; failed = 0 }) in
      let items =
        process_items_lem zones error_text now processed_by r.id (pending_items r.id started.core)
          started (record { succeeded = 0; failed = 0 }) (pending-AreLeft r.id started.core) in
      let (r', g', same, failures) = items.steady.found r g in
      let finished =
        finalize_request-IsFinalized r.id run r' worked.0 (items.steady.ids u) g'
          (cc (same, p, not_queued)) in
      let done =
        process_items-AreDone zones error_text now processed_by r.id
          (pending_items r.id started.core) started (record { succeeded = 0; failed = 0 }) in
      record {
        same_items = ap item_ids finished.items ∙ items.same_ids;
        done = subst (AreDone (pending_items r.id db.core)) (sym finished.items) done;
        all_counted = omega (arith, items.all_counted);
        by_failures =
            finished.completed ∙ ap (λ k. k == 0) (omega (arith, failures, items.failures));
        no_pending =
            subst (All (λ i. is_pending_of r.id i ≡ false)) (sym finished.items)
              (none_left r.id worked.0.core.replay_items items.left);
        ended = finished.found;
        ids = finished.ids;
        queued = finished.queued ∙ items.steady.queued;
      }

-- each claimed request is counted as completed or failed, and each processed item as succeeded or failed
pub record IsAccounted {zones : Zones} {error_text : Option ActionError → Text} {now : ℕ}
    {processed_by : Text} (s : ProcessorSummary zones error_text now processed_by) : Type 0 where
  pub requests : s.claimed_requests ≡ s.completed_requests + s.failed_requests
  pub items : s.processed_items ≡ s.succeeded_items + s.failed_items

one_of_two : (b : Bool) → one_if b + one_if (not b) ≡ 1
one_of_two true = refl
one_of_two false = refl

module _ (zones : Zones) (error_text : Option ActionError → Text) (now : ℕ)
    (processed_by : Text) where
  IsAccounted-add :
      (n : ℕ) (r : RequestResult zones error_text now processed_by)
      (s : ProcessorSummary zones error_text now processed_by)
      → IsAccounted s
      → IsAccounted (add_result zones error_text now processed_by n r s)
  IsAccounted-add n r s a = record {
    requests = omega (arith, a.requests, one_of_two r.completed);
    items = omega (arith, a.items);
  }

  empty_queue :
      (rows : List VeeReplayRequest) → any (is_claimable none) rows ≡ false → queue_length rows ≡ 0
  empty_queue rows h =
      any-count (λ r. is_queued r.status) rows
        (any-imp (λ r. is_queued r.status) (is_claimable none) rows (λ r e. ground (arith, e)) h)

  module _ (r : VeeReplayRequest) (db : BillingDb) (u : HasUniqueIds db.core.replay_requests)
      (f : find_next_queued none db.core ≡ some r) where
    claim-shortens :
        suc (queue_length (claim zones error_text now processed_by r db).core.replay_requests)
        ≡ queue_length db.core.replay_requests
    unfolding find_next_queued modify
    claim-shortens = omega (
      arith,
      count-modify_fail (λ x. is_queued x.status) r.id (claimed_row now) r db.core.replay_requests
          (All-scalar _ _ _ db.core.replay_requests r (get_self db.core.replay_requests u) f)
          (ground (arith, scalar_sound _ _ db.core.replay_requests r f)) (λ x. refl),
      count-update_where-ge (λ x. is_queued x.status) (λ x. x.id == r.id) (claimed_row now)
          db.core.replay_requests,
      u r.id,
    )

    claimed-IsWorkedOff :
        let claimed = claim zones error_text now processed_by r db in
        let result =
          process_request zones error_text now processed_by (claimed_row now r) claimed in
        IsWorkedOff (claimed_row now r) claimed.core result.db result.counts result.completed
    unfolding find_next_queued
    claimed-IsWorkedOff =
        process_request-IsWorkedOff zones error_text now processed_by (claimed_row now r)
          (claim zones error_text now processed_by r db)
          (HasUniqueIds-modify r.id (claimed_row now) db.core.replay_requests (λ x. refl) u)
          (get-modify_same r.id (claimed_row now) db.core.replay_requests r (λ x. refl)
            (All-scalar _ _ _ db.core.replay_requests r (get_self db.core.replay_requests u) f))
          refl

  process_next_drains :
      (remaining : ℕ) (db : BillingDb) (s : ProcessorSummary zones error_text now processed_by)
      → HasUniqueIds db.core.replay_requests
      → IsAccounted s
      → let result = process_next zones error_text now processed_by remaining none db s in
        (queue_length result.0.core.replay_requests
          ≡ queue_length db.core.replay_requests - remaining)
        × (result.1.claimed_requests + queue_length result.0.core.replay_requests
            ≡ s.claimed_requests + queue_length db.core.replay_requests)
        × IsAccounted result.1
  unfolding process_next
  process_next_drains zero db s u a = (omega arith, refl, a)
  process_next_drains (suc remaining) db s u a =
      elim (Option-cases (find_next_queued none db.core)) [
        | inl e ↦
            let z = empty_queue db.core.replay_requests (no_claimable db e) in
            rw (e, process_next) (omega (arith, z), refl, a)
        | inr (r, e) ↦
            let worked = claimed-IsWorkedOff r db u e in
            let result =
              process_request zones error_text now processed_by (claimed_row now r)
                (claim zones error_text now processed_by r db) in
            let rest =
              process_next_drains remaining result.db
                (add_result zones error_text now processed_by r.id result s) worked.ids
                (IsAccounted-add r.id result s a) in
            rw (e, process_next)
              (
                omega (arith, rest.0, worked.queued, claim-shortens r db u e),
                omega (arith, rest.1, worked.queued, claim-shortens r db u e),
                rest.2,
              )
      ]
    where
      no_claimable :
          (d : BillingDb)
          → find_next_queued none d.core ≡ none
          → any (is_claimable none) d.core.replay_requests ≡ false
      no_claimable d e = unfold find_next_queued in scalar-none _ _ d.core.replay_requests e

-- A call of the worker with a limit and no chosen request, in a store with unique request ids, leaves
-- exactly that many fewer requests in the queue, or none where it held no more than that, and counts as
-- claimed as many as left the queue. It counts each claimed request as completed or failed and each
-- processed item as succeeded or failed.
pub process_queued_vee_replay_requests_drains :
    (zones : Zones) (error_text : Option ActionError → Text) (now : ℕ) (processed_by : Text)
    (limit : ℕ) (db : BillingDb)
    → HasUniqueIds db.core.replay_requests
    → let result =
        process_queued_vee_replay_requests zones error_text now processed_by limit none db in
      (queue_length result.0.core.replay_requests ≡ queue_length db.core.replay_requests - limit)
      × (result.1.claimed_requests + queue_length result.0.core.replay_requests
          ≡ queue_length db.core.replay_requests)
      × IsAccounted result.1
unfolding process_queued_vee_replay_requests
process_queued_vee_replay_requests_drains zones error_text now processed_by limit db u =
    let result =
      process_next_drains zones error_text now processed_by limit db
        (empty_summary zones error_text now processed_by) u
        (record { requests = refl; items = refl }) in
    (result.0, omega (arith, result.1), result.2)
