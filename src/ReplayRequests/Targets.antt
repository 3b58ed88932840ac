-- ===== src/ReplayRequests/Targets.antt =====
-- Properties of app/services/vee_replay_requests.py: the items of a new request.
use sim_mdms_auto.Prelude.{
  ℕ, ◌≤◌, Bool, ◌&&◌, List, ◌++◌, ◌≡◌, ◌==◌, any, count, length, if◌then◌else◌,
}
use sim_mdms_auto.Model.{VeeException}
use sim_mdms_auto.Model.Replay.{
  VeeReplayRequest, VeeReplayRequestItem, replay_request_id, replay_item_id,
}
use sim_mdms_auto.Store.{Db}
use sim_mdms_auto.ReplayRequests.{ReplayForm, is_target}

abbrev owned : ℕ → VeeException → Bool
owned n e = e.initial_measurement_id == n

abbrev once : Bool → ℕ
once b = if b then 1 else 0

abbrev item_of : ℕ → VeeReplayRequestItem → Bool
item_of n i = i.initial_measurement_id == n

-- what a creation adds to the table of items
abbrev pub HasItems : ReplayForm → Db → VeeReplayRequest → ℕ → Db → Type 0
HasItems f db request created db' =
    (items : List VeeReplayRequestItem) × (db'.replay_items ≡ db.replay_items ++ items)
    × (created ≡ length items)
    × (request.target_initial_count ≡ length items)
    × (1 ≤ length items)
    × ((n : ℕ)
        → count (λ i. i.initial_measurement_id == n) items ≡ (
            if any (λ e. is_target db f e && e.initial_measurement_id == n) db.exceptions
            then 1
            else 0))
