-- ===== src/Scenarios/Worker.antt =====
-- Runs of app/services/vee_replay_processor.py.
use sim_mdms_auto.Prelude.{
  ◌-◌, ◌+◌, Option, none, some, [], ◌∷◌, Text, codes, ◌≡◌, refl, arith, get, HasUniqueIds,
}
use sim_mdms_auto.Model.Replay.{VeeReplayRequest, replay_request_id}
use sim_mdms_auto.Vee.Actions.{ActionError}
use sim_mdms_auto.Billing.Store.{BillingDb}
use sim_mdms_auto.VeeReplayProcessor.{
  claimed_row, process_request, process_queued_vee_replay_requests,
}
use sim_mdms_auto.VeeReplayProcessor.Drain.{
  IsWorkedOff, IsAccounted, queue_length, process_request-IsWorkedOff,
  process_queued_vee_replay_requests_drains,
}
use sim_mdms_auto.ReplayRequests.{new_request}
use sim_mdms_auto.Scenarios.Data.{noon}
use sim_mdms_auto.Scenarios.Replay.{queued_store, form}
use sim_mdms_auto.Scenarios.Billing.{billing_store}
use sim_mdms_auto.Scenarios.Usage.{zones}

abbrev error_text : Option ActionError → Text
error_text e = codes "error"

-- one request is queued, for the measurement with an exception
abbrev queued : BillingDb
queued = record billing_store { core = queued_store }

abbrev claimed_request : VeeReplayRequest
claimed_request = claimed_row noon (new_request 1 form 1)

abbrev claimed : BillingDb
claimed = record billing_store {
  core = record queued_store { replay_requests = claimed_request ∷ [] };
}

queued-ids : HasUniqueIds queued.core.replay_requests
queued-ids n = ground arith

claimed-ids : HasUniqueIds claimed.core.replay_requests
claimed-ids n = ground arith

claimed_stored : get claimed_request.id claimed.core.replay_requests ≡ some claimed_request
unfolding get
claimed_stored = refl

process_request-IsWorkedOff_example :
    let result = process_request zones error_text noon (codes "worker") claimed_request claimed in
    IsWorkedOff claimed_request claimed.core result.db result.counts result.completed
process_request-IsWorkedOff_example =
    process_request-IsWorkedOff zones error_text noon (codes "worker") claimed_request claimed
      claimed-ids claimed_stored refl

process_queued_vee_replay_requests_drains_example :
    let result =
      process_queued_vee_replay_requests zones error_text noon (codes "worker") 1 none queued in
    (queue_length result.0.core.replay_requests ≡ queue_length queued.core.replay_requests - 1)
    × (result.1.claimed_requests + queue_length result.0.core.replay_requests
        ≡ queue_length queued.core.replay_requests)
    × IsAccounted result.1
process_queued_vee_replay_requests_drains_example =
    process_queued_vee_replay_requests_drains zones error_text noon (codes "worker") 1 queued
      queued-ids
