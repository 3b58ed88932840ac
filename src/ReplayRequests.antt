-- ===== src/ReplayRequests.antt =====
-- app/services/vee_replay_requests.py: asking for measurements to be validated again.
pub mod Targets
pub mod Active
use sim_mdms_auto.Prelude.{
  ℕ, ◌+◌, Bool, true, false, not, ◌&&◌, ◌||◌, Option, none, some, List, [], ◌∷◌, ◌++◌, Text, ltb,
  leb, ◌==◌, if◌then◌else◌, any, is_none, is_some, length, map, opt_text_eq, sql_eq, scalar, select,
  order_by, by_id_desc, get, get?, modify, next_id, or_option,
}
use sim_mdms_auto.Model.{
  IngestBatch, HesReadRaw, InitialMeasurement, VeeException, batch_row_id, initial_id,
}
use sim_mdms_auto.Model.Replay.{
  ReplayStatus, ItemStatus, ReplayScope, VeeReplayRequest, VeeReplayRequestItem, replay_request_id,
  replay_item_id,
}
use sim_mdms_auto.Store.{Db, raw_of}
use sim_mdms_auto.Ops.Rows.{EventCode, EntityType}
use sim_mdms_auto.Ops.Events.{EventArgs, defaults, record_operational_event}
use sim_mdms_auto.Vee.Baseline.{is_vee_exception_active}

-- the codes of `VeeReplayRequestError`
pub data ReplayError : Type 0 where
  unsupported_scope missing_hes_system_id missing_ingest_batch_id invalid_date_range : ReplayError
  request_already_active no_targets_found : ReplayError
  not_found already_cancelled request_not_cancellable : ReplayError

pub data ReplayResult {ℓ} (A : Type ℓ) : Type ℓ where
  ok : A → ReplayResult A
  err : ReplayError → ReplayResult A

infixl 5 ◌>>=◌
abbrev pub ◌>>=◌ {ℓ κ} :
    {A : Type ℓ} {B : Type κ} → ReplayResult A → (A → ReplayResult B) → ReplayResult B
ok a >>= f = f a
err e >>= f = err e

-- the keyword arguments of `create_vee_replay_request`
pub record ReplayForm : Type 0 where
  pub request_scope : ReplayScope
  pub requested_by : Text
  pub requested_by_user_account_id : Option ℕ
  pub operator_memo : Option Text
  pub hes_system_id : Option ℕ
  pub ingest_batch_id : Option ℕ
  pub measured_at_from : Option ℕ
  pub measured_at_to : Option ℕ
  pub window_timezone_name : Option Text

abbrev pub is_range : Option ℕ → Option ℕ → Bool
is_range none end = false
is_range (some a) none = false
is_range (some a) (some b) = ltb a b

abbrev pub guard : Bool → ReplayError → ReplayResult (Unit {0})
guard true e = ok tt
guard false e = err e

validate : ReplayScope → ReplayForm → ReplayResult (Unit {0})
validate ReplayScope.hes_system f = guard (is_some f.hes_system_id) missing_hes_system_id
validate ReplayScope.ingest_batch f = guard (is_some f.ingest_batch_id) missing_ingest_batch_id
validate ReplayScope.date_range f =
    guard (is_range f.measured_at_from f.measured_at_to) invalid_date_range
validate ReplayScope.unsupported f = err unsupported_scope

unfoldable pub validate_scope : ReplayForm → ReplayResult (Unit {0})
unfolding validate
validate_scope f = validate f.request_scope f

-- status in ("queued", "processing")
abbrev pub is_active_request : ReplayStatus → Bool
is_active_request ReplayStatus.queued = true
is_active_request ReplayStatus.processing = true
is_active_request _ = false

-- `column == value`, where neither NULL matches
abbrev pub sql_opt_eq : Option ℕ → Option ℕ → Bool
sql_opt_eq column none = false
sql_opt_eq column (some n) = sql_eq column n

abbrev pub same_scope_key : ReplayScope → ReplayScope → ReplayForm → VeeReplayRequest → Bool
same_scope_key ReplayScope.hes_system ReplayScope.hes_system f r =
    sql_opt_eq r.hes_system_id f.hes_system_id
same_scope_key ReplayScope.ingest_batch ReplayScope.ingest_batch f r =
    sql_opt_eq r.ingest_batch_id f.ingest_batch_id
same_scope_key ReplayScope.date_range ReplayScope.date_range f r =
    sql_opt_eq r.measured_at_from f.measured_at_from
    && sql_opt_eq r.measured_at_to f.measured_at_to
    && opt_text_eq r.window_timezone_name f.window_timezone_name
same_scope_key _ _ f r = false

unfoldable pub is_same_active : ReplayForm → VeeReplayRequest → Bool
is_same_active f r =
    is_active_request r.status && same_scope_key f.request_scope r.request_scope f r

unfoldable pub find_existing_active_request : ReplayForm → Db → Option VeeReplayRequest
unfolding is_same_active
find_existing_active_request f db = scalar by_id_desc (is_same_active f) db.replay_requests

abbrev hes_of : Option HesReadRaw → Option ℕ
hes_of none = none
hes_of (some raw) = raw.hes_system_id

abbrev batch_of_read : Option HesReadRaw → Option ℕ
batch_of_read none = none
batch_of_read (some raw) = raw.ingest_batch_id

abbrev time_within : Option ℕ → Option ℕ → Option ℕ → Bool
time_within none start end = false
time_within (some t) none end = false
time_within (some t) (some a) none = false
time_within (some t) (some a) (some b) = leb a t && ltb t b

-- the WHERE clause of the scope
row_in_scope : Db → ReplayForm → ReplayScope → InitialMeasurement → Bool
row_in_scope db f ReplayScope.hes_system r = sql_opt_eq (hes_of (raw_of db r)) f.hes_system_id
row_in_scope db f ReplayScope.ingest_batch r =
    sql_opt_eq (batch_of_read (raw_of db r)) f.ingest_batch_id
row_in_scope db f _ r = time_within r.measured_at f.measured_at_from f.measured_at_to

joined_in_scope : Db → ReplayForm → Option InitialMeasurement → Bool
unfolding row_in_scope
joined_in_scope db f none = false
joined_in_scope db f (some r) = row_in_scope db f f.request_scope r

-- an active exception of a measurement in the scope
unfoldable pub is_target : Db → ReplayForm → VeeException → Bool
unfolding joined_in_scope
is_target db f e =
    is_vee_exception_active e && joined_in_scope db f (get e.initial_measurement_id db.initials)

-- ORDER BY initial id, blocking DESC, detected_at DESC, id DESC
abbrev pub target_before : VeeException → VeeException → Bool
target_before a b =
    ltb a.initial_measurement_id b.initial_measurement_id
    || (a.initial_measurement_id == b.initial_measurement_id
        && (a.blocking_finalization && not b.blocking_finalization
            || (not (a.blocking_finalization && not b.blocking_finalization)
                && not (not a.blocking_finalization && b.blocking_finalization)
                && (ltb b.detected_at a.detected_at
                    || a.detected_at == b.detected_at && ltb b.id a.id))))

-- the loop over the rows with the set of measurements seen
unfoldable pub representatives : List ℕ → List VeeException → List VeeException
representatives seen [] = []
representatives seen (e ∷ es) =
    let skipped = representatives seen es in
    let taken = e ∷ representatives (e.initial_measurement_id ∷ seen) es in
    if any (λ n. n == e.initial_measurement_id) seen then skipped else taken

unfoldable pub select_representative_exceptions : ReplayForm → Db → List VeeException
unfolding is_target representatives
select_representative_exceptions f db =
    representatives [] (order_by target_before (select (is_target db f) db.exceptions))

abbrev pub new_request : ℕ → ReplayForm → ℕ → VeeReplayRequest
new_request new_id f targets = record {
  id = new_id;
  request_scope = f.request_scope;
  status = ReplayStatus.queued;
  requested_by = f.requested_by;
  requested_by_user_account_id = f.requested_by_user_account_id;
  operator_memo = f.operator_memo;
  hes_system_id = f.hes_system_id;
  ingest_batch_id = f.ingest_batch_id;
  measured_at_from = f.measured_at_from;
  measured_at_to = f.measured_at_to;
  window_timezone_name = f.window_timezone_name;
  target_initial_count = targets;
  processed_count = 0;
  succeeded_count = 0;
  failed_count = 0;
  reopened_exception_count = 0;
  cleared_exception_count = 0;
  final_superseded_count = 0;
  usage_recalculated_count = 0;
  cancelled_by = none;
  cancelled_by_user_account_id = none;
  cancelled_at = none;
  started_at = none;
  completed_at = none;
  last_error = none;
}

-- `session.add_all(items)`: the ids count up from the next one
unfoldable pub new_items : ℕ → ℕ → List VeeException → List VeeReplayRequestItem
new_items next request [] = []
new_items next request (e ∷ es) =
    record {
      id = next;
      vee_replay_request_id = request;
      initial_measurement_id = e.initial_measurement_id;
      representative_vee_exception_id = e.id;
      status = ItemStatus.pending;
      result_code = none;
      vee_execution_log_id = none;
      previous_final_measurement_id = none;
      current_final_measurement_id = none;
    }
    ∷ new_items (next + 1) request es

abbrev id_of_batch : Option IngestBatch → Option ℕ
id_of_batch none = none
id_of_batch (some b) = some b.id

unfoldable pub add_request : ℕ → ReplayForm → List VeeException → Db → Db × VeeReplayRequest × ℕ
unfolding record_operational_event new_items
add_request now f targets db =
    let request = new_request (next_id db.replay_requests) f (length targets) in
    let items = new_items (next_id db.replay_items) request.id targets in
    (
      record_operational_event now EventCode.vee_replay_requested
          (record defaults {
            occurred_at = some now;
            entity_type = some EntityType.vee_replay_request;
            entity_id = some request.id;
            ingest_batch = id_of_batch (get? f.ingest_batch_id db.ingest_batches);
          })
          (record db {
            replay_requests = db.replay_requests ++ request ∷ [];
            replay_items = db.replay_items ++ items;
          }),
      request,
      length items,
    )

unfoldable pub has_targets : List VeeException → Bool
has_targets [] = false
has_targets (_ ∷ _) = true

-- the result is the request and the number of items
unfoldable pub create_vee_replay_request :
    ℕ → ReplayForm → Db → ReplayResult (Db × VeeReplayRequest × ℕ)
unfolding has_targets
create_vee_replay_request now f db = do
  _ ← validate_scope f
  _ ← guard (is_none (find_existing_active_request f db)) request_already_active
  _ ← guard (has_targets (select_representative_exceptions f db)) no_targets_found
  ok (add_request now f (select_representative_exceptions f db) db)

abbrev pub found : Option VeeReplayRequest → ReplayResult VeeReplayRequest
found none = err not_found
found (some r) = ok r

abbrev pub may_cancel : ReplayStatus → ReplayResult (Unit {0})
may_cancel ReplayStatus.cancelled = err already_cancelled
may_cancel ReplayStatus.queued = ok tt
may_cancel _ = err request_not_cancellable

abbrev pub cancelled_request :
    ℕ → Text → Option ℕ → Option Text → VeeReplayRequest → VeeReplayRequest
cancelled_request at by account memo r = record r {
  status = ReplayStatus.cancelled;
  cancelled_by = some by;
  cancelled_by_user_account_id = account;
  cancelled_at = some at;
  operator_memo = or_option memo r.operator_memo;
}

unfoldable pub cancel_vee_replay_request :
    ℕ → ℕ → Text → Option ℕ → Option Text → Db → ReplayResult Db
cancel_vee_replay_request now n by account memo db = do
  r ← found (get n db.replay_requests)
  _ ← may_cancel r.status
  ok (record db {
    replay_requests = modify n (cancelled_request now by account memo) db.replay_requests;
  })
