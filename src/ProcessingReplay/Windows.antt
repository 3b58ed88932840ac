-- ===== src/ProcessingReplay/Windows.antt =====
-- app/services/processing_replay.py: `recalculate_impacted_usage_windows`.
use sim_mdms_auto.Prelude.{
  ℕ, ◌+◌, ◌-◌, Bool, true, false, ◌&&◌, ◌||◌, not, Option, none, some, ℤ, eqb_ℤ, List, [], ◌∷◌,
  ◌++◌, Text, text_eq, ◌==◌, ltb, if◌then◌else◌, any, order_by, select, scalar, count,
}
use sim_mdms_auto.Model.{FinalMeasurement}
use sim_mdms_auto.Billing.Revisions.{CalculationStatus}
use sim_mdms_auto.Billing.Rows.{UsageTransaction, usage_id}
use sim_mdms_auto.Billing.Store.{BillingDb, Filters}
use sim_mdms_auto.Billing.Determinants.{same_status}
use sim_mdms_auto.Usage.Windows.{
  Zones, UsageType, usage_code, derive_window, resolve_usage_timezone,
}
use sim_mdms_auto.Usage.Buckets.{FinalColumns, final_columns, raw_of_final}
use sim_mdms_auto.Usage.Calculate.{
  is_finalized, at_or_after, calculate_usage_transactions, UsageResult,
}

pub record UsageWindowScope : Type 0 where
  pub service_point_id : ℕ
  pub measuring_component_id : ℕ
  pub usage_type : UsageType
  pub period_start_at : ℕ
  pub period_end_at : ℕ

abbrev scope_of_window : FinalColumns → UsageType → ℕ × ℕ → UsageWindowScope
scope_of_window c type (start, end) = record {
  service_point_id = c.service_point_id;
  measuring_component_id = c.measuring_component_id;
  usage_type = type;
  period_start_at = start;
  period_end_at = end;
}

abbrev scope_of_columns :
    Zones → BillingDb → FinalMeasurement → UsageType → Option FinalColumns → Option UsageWindowScope
scope_of_columns zones db f type none = none
scope_of_columns zones db f type (some c) =
    let (zone, _) = resolve_usage_timezone zones db.hes_systems (raw_of_final db.core f) in
    some (scope_of_window c type (derive_window zone type c.measured_at))

-- none where a required column is missing
unfoldable pub build_usage_window_scope :
    Zones → BillingDb → UsageType → FinalMeasurement → Option UsageWindowScope
unfolding derive_window resolve_usage_timezone final_columns raw_of_final
build_usage_window_scope zones db type f = scope_of_columns zones db f type (final_columns f)

abbrev same_window : UsageWindowScope → UsageWindowScope → Bool
same_window a b =
    a.service_point_id == b.service_point_id
    && a.measuring_component_id == b.measuring_component_id
    && text_eq (usage_code a.usage_type) (usage_code b.usage_type)
    && a.period_start_at == b.period_start_at
    && a.period_end_at == b.period_end_at

-- the usage row of a window
unfoldable pub is_usage_of : UsageWindowScope → UsageTransaction → Bool
is_usage_of w r =
    r.service_point_id == w.service_point_id
    && r.measuring_component_id == w.measuring_component_id
    && text_eq r.usage_type (usage_code w.usage_type)
    && r.period_start_at == w.period_start_at
    && r.period_end_at == w.period_end_at

unfoldable pub get_usage_transaction_for_window :
    UsageWindowScope → List UsageTransaction → Option UsageTransaction
unfolding is_usage_of
get_usage_transaction_for_window w rows = scalar (λ _ _. false) (is_usage_of w) rows

abbrev is_before : Option ℕ → ℕ → Bool
is_before none end = false
is_before (some at) end = ltb at end

abbrev is_point : Option ℕ → ℕ → Bool
is_point none n = false
is_point (some m) n = m == n

-- a current final measurement of the window
unfoldable pub is_final_in_window : UsageWindowScope → FinalMeasurement → Bool
is_final_in_window w f =
    is_finalized f.final_status
    && f.is_current
    && is_point f.service_point_id w.service_point_id
    && is_point f.measuring_component_id w.measuring_component_id
    && at_or_after (some w.period_start_at) f.measured_at
    && is_before f.measured_at w.period_end_at

unfoldable pub count_current_finals_in_window : UsageWindowScope → List FinalMeasurement → ℕ
unfolding is_final_in_window
count_current_finals_in_window w finals = count (is_final_in_window w) finals

pub data UsageAction : Type 0 where
  updated deleted unchanged : UsageAction

pub record UsageRecalculationResult : Type 0 where
  pub usage_type : UsageType
  pub service_point_id : ℕ
  pub measuring_component_id : ℕ
  pub period_start_at : ℕ
  pub period_end_at : ℕ
  pub action : UsageAction
  pub previous_usage_transaction_id : Option ℕ
  pub current_usage_transaction_id : Option ℕ
  pub previous_calculation_status : Option CalculationStatus
  pub current_calculation_status : Option CalculationStatus
  pub previous_usage_value : Option ℤ
  pub current_usage_value : Option ℤ
  pub previous_missing_interval_count : Option ℕ
  pub current_missing_interval_count : Option ℕ

-- `x if snapshot is not None else None`
abbrev pub snapshot_field {ℓ} :
    {A : Type ℓ} → (UsageTransaction → A) → Option UsageTransaction → Option A
snapshot_field g none = none
snapshot_field g (some r) = some (g r)

unfoldable pub build_usage_recalculation_result :
    UsageWindowScope
    → Option UsageTransaction
    → Option UsageTransaction
    → UsageAction
    → UsageRecalculationResult
build_usage_recalculation_result w previous current action = record {
  usage_type = w.usage_type;
  service_point_id = w.service_point_id;
  measuring_component_id = w.measuring_component_id;
  period_start_at = w.period_start_at;
  period_end_at = w.period_end_at;
  action = action;
  previous_usage_transaction_id = snapshot_field (λ r. r.id) previous;
  current_usage_transaction_id = snapshot_field (λ r. r.id) current;
  previous_calculation_status = snapshot_field (λ r. r.calculation_status) previous;
  current_calculation_status = snapshot_field (λ r. r.calculation_status) current;
  previous_usage_value = snapshot_field (λ r. r.usage_value) previous;
  current_usage_value = snapshot_field (λ r. r.usage_value) current;
  previous_missing_interval_count = snapshot_field (λ r. r.missing_interval_count) previous;
  current_missing_interval_count = snapshot_field (λ r. r.missing_interval_count) current;
}

-- the values of the two snapshots agree
abbrev pub same_snapshot : UsageTransaction → UsageTransaction → Bool
same_snapshot a b =
    same_status a.calculation_status b.calculation_status
    && eqb_ℤ a.usage_value b.usage_value
    && a.missing_interval_count == b.missing_interval_count
    && text_eq a.quality_summary b.quality_summary

abbrev pub action_of : Option UsageTransaction → Option UsageTransaction → UsageAction
action_of none (some r) = UsageAction.updated
action_of (some a) (some b) =
    if same_snapshot a b then UsageAction.unchanged else UsageAction.updated
action_of _ none = UsageAction.unchanged

pub record Recalculation : Type 0 where
  pub db : BillingDb
  pub groups_updated : ℕ
  pub rows_deleted : ℕ
  pub results : List UsageRecalculationResult

abbrev pub is_updated : UsageAction → Bool
is_updated UsageAction.updated = true
is_updated _ = false

abbrev pub delete_found : Option UsageTransaction → List UsageTransaction → List UsageTransaction
delete_found none rows = rows
delete_found (some r) rows = select (λ x. not (x.id == r.id)) rows

abbrev pub deletion_action : Option UsageTransaction → UsageAction
deletion_action none = UsageAction.unchanged
deletion_action (some r) = UsageAction.deleted

abbrev pub one_if_found : Option UsageTransaction → ℕ
one_if_found none = 0
one_if_found (some r) = 1

-- a window with no current final measurement loses its usage row
unfoldable pub delete_usage_transaction_for_window :
    UsageWindowScope → Recalculation → Recalculation
unfolding get_usage_transaction_for_window build_usage_recalculation_result
delete_usage_transaction_for_window w s =
    let previous = get_usage_transaction_for_window w s.db.usages in
    record s {
      db = record s.db { usages = delete_found previous s.db.usages };
      rows_deleted = s.rows_deleted + one_if_found previous;
      results =
          s.results
          ++ build_usage_recalculation_result w previous none (deletion_action previous) ∷ [];
    }

abbrev pub after_usage :
    UsageWindowScope
    → Option UsageTransaction
    → Recalculation
    → BillingDb × UsageResult
    → Option Recalculation
after_usage w previous s (db, UsageResult.ok _) =
    let current = get_usage_transaction_for_window w db.usages in
    let action = action_of previous current in
    some (record s {
      db = db;
      groups_updated = if is_updated action then s.groups_updated + 1 else s.groups_updated;
      results = s.results ++ build_usage_recalculation_result w previous current action ∷ [];
    })
after_usage w previous s _ = none

-- the filters of the usage of one window; the end of a window is not zero
abbrev pub window_filters : UsageWindowScope → Filters
window_filters w = record {
  service_point_id = some w.service_point_id;
  measuring_component_id = some w.measuring_component_id;
  date_from = some w.period_start_at;
  date_to = some (w.period_end_at - 1);
}

-- none where the calculation of usage raises
unfoldable pub recalculate_window :
    Zones → ℕ → Text → UsageWindowScope → Recalculation → Option Recalculation
unfolding count_current_finals_in_window delete_usage_transaction_for_window
    calculate_usage_transactions
recalculate_window zones now trigger w s =
    if count_current_finals_in_window w s.db.core.finals == 0
    then some (delete_usage_transaction_for_window w s)
    else after_usage w (get_usage_transaction_for_window w s.db.usages) s (
        calculate_usage_transactions zones now (usage_code w.usage_type) (window_filters w) trigger
          s.db)

unfoldable pub recalculate_windows :
    Zones → ℕ → Text → List UsageWindowScope → Recalculation → Option Recalculation
unfolding recalculate_window
recalculate_windows zones now trigger [] s = some s
recalculate_windows zones now trigger (w ∷ ws) s = elim (recalculate_window zones now trigger w s) [
  | none ↦ none
  | some s' ↦ recalculate_windows zones now trigger ws s'
]

-- ORDER of `sorted`: service point, component, start, end
abbrev pub window_before : UsageWindowScope → UsageWindowScope → Bool
window_before a b =
    ltb a.service_point_id b.service_point_id
    || (a.service_point_id == b.service_point_id
        && (ltb a.measuring_component_id b.measuring_component_id
            || (a.measuring_component_id == b.measuring_component_id
                && (ltb a.period_start_at b.period_start_at
                    || (a.period_start_at == b.period_start_at
                        && ltb a.period_end_at b.period_end_at)))))

-- a set of windows, in the order in which they are worked on
abbrev pub add_window :
    Option UsageWindowScope → List UsageWindowScope → Option (List UsageWindowScope)
add_window none ws = none
add_window (some w) ws = if any (same_window w) ws then some ws else some (ws ++ w ∷ [])

abbrev pub bind_option {ℓ κ} : {A : Type ℓ} {B : Type κ} → Option A → (A → Option B) → Option B
bind_option none g = none
bind_option (some a) g = g a

-- the windows of one type that the given final measurements fall into
unfoldable pub impacted_windows :
    Zones
    → BillingDb
    → UsageType
    → List FinalMeasurement
    → List UsageWindowScope
    → Option (List UsageWindowScope)
unfolding build_usage_window_scope
impacted_windows zones db type [] ws = some (order_by window_before ws)
impacted_windows zones db type (f ∷ fs) ws =
    bind_option (add_window (build_usage_window_scope zones db type f) ws)
      (impacted_windows zones db type fs)

abbrev pub given : Option FinalMeasurement → List FinalMeasurement
given none = []
given (some f) = f ∷ []

pub record UsageReplay : Type 0 where
  pub db : BillingDb
  pub daily_usage_groups_updated : ℕ
  pub daily_usage_rows_deleted : ℕ
  pub monthly_usage_groups_updated : ℕ
  pub monthly_usage_rows_deleted : ℕ
  pub results : List UsageRecalculationResult

abbrev pub begin_windows : BillingDb → List UsageRecalculationResult → Recalculation
begin_windows db results = record {
  db = db;
  groups_updated = 0;
  rows_deleted = 0;
  results = results;
}

abbrev pub replayed : Recalculation → Recalculation → UsageReplay
replayed daily monthly = record {
  db = monthly.db;
  daily_usage_groups_updated = daily.groups_updated;
  daily_usage_rows_deleted = daily.rows_deleted;
  monthly_usage_groups_updated = monthly.groups_updated;
  monthly_usage_rows_deleted = monthly.rows_deleted;
  results = monthly.results;
}

unfoldable pub recalculate_impacted_usage_windows :
    Zones
    → ℕ
    → Option FinalMeasurement
    → Option FinalMeasurement
    → Text
    → BillingDb
    → Option UsageReplay
unfolding impacted_windows recalculate_windows
recalculate_impacted_usage_windows zones now previous current trigger db =
    let finals = given previous ++ given current in
    bind_option (impacted_windows zones db UsageType.daily finals []) (λ daily.
      bind_option (impacted_windows zones db UsageType.monthly finals []) (λ monthly.
        bind_option (recalculate_windows zones now trigger daily (begin_windows db [])) (λ d.
          bind_option (recalculate_windows zones now trigger monthly (begin_windows d.db d.results))
            (λ m. some (replayed d m)))))
