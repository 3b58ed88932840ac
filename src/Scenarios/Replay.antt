-- ===== src/Scenarios/Replay.antt =====
-- Runs of app/services/vee_replay_requests.py.
use sim_mdms_auto.Prelude.{
  Text, Option, ℕ, none, some, [], ◌∷◌, codes, ◌≡◌, refl, arith, get, scalar, first_by, select,
  order_by, insert_by, modify, update_where,
}
use sim_mdms_auto.Model.{initial_id, canonical_id, raw_id}
use sim_mdms_auto.Model.Replay.{VeeReplayRequest, ReplayStatus, ReplayScope, replay_request_id}
use sim_mdms_auto.Store.{Db, raw_of, raw_of_canonical, canonical_of}
use sim_mdms_auto.ReplayRequests.{
  ReplayForm, ReplayError, ok, err, validate_scope, find_existing_active_request, has_targets,
  is_target, representatives, select_representative_exceptions, add_request, new_request, new_items,
  create_vee_replay_request, cancelled_request, cancel_vee_replay_request,
}
use sim_mdms_auto.ReplayRequests.Active.{
  IsCancellation, IsActiveOnce, create_vee_replay_request-IsActiveOnce,
  cancel_vee_replay_request_lem,
}
use sim_mdms_auto.Scenarios.Data.{noon, with_exception, open_exception}

abbrev pub form : ReplayForm
form = record {
  request_scope = ReplayScope.hes_system;
  requested_by = codes "kim";
  requested_by_user_account_id = some 7;
  operator_memo = none;
  hes_system_id = some 1;
  ingest_batch_id = none;
  measured_at_from = none;
  measured_at_to = none;
  window_timezone_name = none;
}

with_exception-IsActiveOnce : IsActiveOnce with_exception.replay_requests
with_exception-IsActiveOnce = record { ids = λ n. ground arith; one_active = λ f. ground arith }

abbrev requested : Db × VeeReplayRequest × ℕ
requested =
    add_request noon form (select_representative_exceptions form with_exception) with_exception

requested_lem :
    create_vee_replay_request noon form with_exception ≡ ok (requested.0, requested.1, requested.2)
unfolding create_vee_replay_request validate_scope find_existing_active_request has_targets
    select_representative_exceptions is_target representatives scalar first_by select order_by
    insert_by get raw_of raw_of_canonical canonical_of
requested_lem = refl

create_vee_replay_request-IsActiveOnce_example : IsActiveOnce requested.0.replay_requests
create_vee_replay_request-IsActiveOnce_example =
    create_vee_replay_request-IsActiveOnce noon form with_exception requested.0 requested.1
      requested.2 with_exception-IsActiveOnce requested_lem

abbrev pub queued_store : Db
queued_store = record with_exception {
  replay_requests = new_request 1 form 1 ∷ [];
  replay_items = new_items 1 1 (open_exception ∷ []);
}

abbrev cancelled_store : Db
cancelled_store = record queued_store {
  replay_requests = cancelled_request noon (codes "lee") (some 8) none (new_request 1 form 1) ∷ [];
}

cancelled_lem :
    cancel_vee_replay_request noon 1 (codes "lee") (some 8) none queued_store ≡ ok cancelled_store
unfolding cancel_vee_replay_request get modify update_where
cancelled_lem = refl

queued_store-IsActiveOnce : IsActiveOnce queued_store.replay_requests
queued_store-IsActiveOnce = record { ids = λ n. ground arith; one_active = λ f. ground arith }

cancel_vee_replay_request_lem_example :
    (r : VeeReplayRequest) × (get 1 queued_store.replay_requests ≡ some r)
    × (r.status ≡ ReplayStatus.queued)
    × (r' : VeeReplayRequest) × (get 1 cancelled_store.replay_requests ≡ some r')
    × IsCancellation noon (codes "lee") (some 8) none r r'
    × IsActiveOnce cancelled_store.replay_requests
    × ((later : ℕ) (by' : Text) (account' : Option ℕ) (memo' : Option Text)
        → cancel_vee_replay_request later 1 by' account' memo' cancelled_store
          ≡ err ReplayError.already_cancelled)
cancel_vee_replay_request_lem_example =
    cancel_vee_replay_request_lem noon 1 (codes "lee") (some 8) none queued_store cancelled_store
      queued_store-IsActiveOnce cancelled_lem
