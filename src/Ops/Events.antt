-- ===== src/Ops/Events.antt =====
-- app/services/operational_events.py: recording an event, and closing or acknowledging alerts.
use sim_mdms_auto.Prelude.{
  ℕ, Bool, true, false, ◌&&◌, Option, none, some, ◌∷◌, [], ◌++◌, Text, update_where, select, length,
  next_id, ◌==◌, if◌then◌else◌, or_option, or_else, or_empty, or_none,
}
use sim_mdms_auto.Model.{Severity}
use sim_mdms_auto.Ops.Rows.{
  AlertStatus, EventCode, EntityType, OperationalEvent, operational_event_id,
}
use sim_mdms_auto.Ops.Catalogue.{event_specs, same_event}
use sim_mdms_auto.Store.{Db}

-- the keyword arguments of `record_operational_event` that decide stored columns
pub record EventArgs : Type 0 where
  pub occurred_at : Option ℕ
  pub severity : Option Severity
  pub is_alert : Option Bool
  pub alert_status : Option AlertStatus
  pub opened_at : Option ℕ
  pub acknowledged_at : Option ℕ
  pub acknowledged_by : Option Text
  pub closed_at : Option ℕ
  pub operator_memo : Option Text
  pub entity_type : Option EntityType
  pub entity_id : Option ℕ
  pub adapter_instance : Option ℕ
  pub adapter_run : Option ℕ
  pub pipeline_run : Option ℕ
  pub ingest_batch : Option ℕ
  pub ingest_error_log : Option ℕ
  pub reprocess_request : Option ℕ
  pub meter_identifier : Option Text

-- a call that leaves every keyword at its default
abbrev pub defaults : EventArgs
defaults = record {
  occurred_at = none;
  severity = none;
  is_alert = none;
  alert_status = none;
  opened_at = none;
  acknowledged_at = none;
  acknowledged_by = none;
  closed_at = none;
  operator_memo = none;
  entity_type = none;
  entity_id = none;
  adapter_instance = none;
  adapter_run = none;
  pipeline_run = none;
  ingest_batch = none;
  ingest_error_log = none;
  reprocess_request = none;
  meter_identifier = none;
}

abbrev tagged : EntityType → Option ℕ → Option (EntityType × ℕ)
tagged t none = none
tagged t (some n) = some (t, n)

-- the `elif` ladder: the first object that the call names
fallback_entity : EventArgs → Option (EntityType × ℕ)
fallback_entity a = or_option (tagged EntityType.adapter_run a.adapter_run) (
    or_option (tagged EntityType.pipeline_run a.pipeline_run) (
      or_option (tagged EntityType.ingest_error_log a.ingest_error_log) (
        or_option (tagged EntityType.ingest_batch a.ingest_batch) (
          or_option (tagged EntityType.adapter_instance a.adapter_instance)
            (tagged EntityType.reprocess_request a.reprocess_request)))))

abbrev type_part : Option (EntityType × ℕ) → Option EntityType
type_part none = none
type_part (some p) = some p.0

abbrev id_part : Option (EntityType × ℕ) → Option ℕ
id_part none = none
id_part (some p) = some p.1

abbrev when {ℓ} : {A : Type ℓ} → Bool → Option A → Option A
when b o = if b then o else none

unfoldable pub build_event : ℕ → ℕ → EventCode → EventArgs → OperationalEvent
unfolding event_specs fallback_entity
build_event new_id now code a =
    let spec = event_specs code in
    let occurred = or_else a.occurred_at now in
    let alert = or_else a.is_alert spec.is_alert in
    record {
      id = new_id;
      occurred_at = occurred;
      source_layer = spec.source_layer;
      event_category = spec.event_category;
      event_code = code;
      severity = or_else a.severity spec.severity;
      is_alert = alert;
      alert_status = when alert (or_option a.alert_status (some AlertStatus.opened));
      opened_at = when alert (or_option a.opened_at (some occurred));
      acknowledged_at = when alert a.acknowledged_at;
      acknowledged_by = when alert a.acknowledged_by;
      closed_at = when alert a.closed_at;
      operator_memo = when alert a.operator_memo;
      entity_type = or_option a.entity_type (type_part (fallback_entity a));
      entity_id = or_option a.entity_id (id_part (fallback_entity a));
      adapter_instance_id = a.adapter_instance;
      adapter_run_id = a.adapter_run;
      pipeline_run_id = a.pipeline_run;
      ingest_batch_id = a.ingest_batch;
      ingest_error_log_id = a.ingest_error_log;
      reprocess_request_id = a.reprocess_request;
      meter_identifier = a.meter_identifier;
    }

-- every code of the catalogue has a spec, so the `ValueError` for an unknown code cannot occur
unfoldable pub record_operational_event : ℕ → EventCode → EventArgs → Db → Db
unfolding build_event
record_operational_event now code a db = record db {
  events = db.events ++ build_event (next_id db.events) now code a ∷ [];
}

-- the optional filters of `close_operational_alerts` and `acknowledge_operational_alerts`
pub record AlertScope : Type 0 where
  pub adapter_instance_id : Option ℕ
  pub adapter_run_id : Option ℕ
  pub pipeline_run_id : Option ℕ
  pub ingest_batch_id : Option ℕ
  pub ingest_error_log_id : Option ℕ
  pub reprocess_request_id : Option ℕ
  pub entity_type : Option EntityType
  pub entity_id : Option ℕ

abbrev pub anywhere : AlertScope
anywhere = record {
  adapter_instance_id = none;
  adapter_run_id = none;
  pipeline_run_id = none;
  ingest_batch_id = none;
  ingest_error_log_id = none;
  reprocess_request_id = none;
  entity_type = none;
  entity_id = none;
}

-- a filter that is given wants the column to hold its value
abbrev id_filter : Option ℕ → Option ℕ → Bool
id_filter none column = true
id_filter (some n) none = false
id_filter (some n) (some m) = m == n

abbrev entity_index : EntityType → ℕ
entity_index EntityType.adapter_run = 0
entity_index EntityType.pipeline_run = 1
entity_index EntityType.ingest_error_log = 2
entity_index EntityType.ingest_batch = 3
entity_index EntityType.adapter_instance = 4
entity_index EntityType.reprocess_request = 5
entity_index EntityType.vee_exception = 6
entity_index EntityType.initial_measurement = 7
entity_index EntityType.vee_replay_request = 8
entity_index EntityType.final_measurement = 9

abbrev type_filter : Option EntityType → Option EntityType → Bool
type_filter none column = true
type_filter (some t) none = false
type_filter (some t) (some u) = entity_index u == entity_index t

unfoldable pub in_scope : AlertScope → OperationalEvent → Bool
in_scope s e =
    id_filter s.adapter_instance_id e.adapter_instance_id
    && id_filter s.adapter_run_id e.adapter_run_id
    && id_filter s.pipeline_run_id e.pipeline_run_id
    && id_filter s.ingest_batch_id e.ingest_batch_id
    && id_filter s.ingest_error_log_id e.ingest_error_log_id
    && id_filter s.reprocess_request_id e.reprocess_request_id
    && type_filter s.entity_type e.entity_type
    && id_filter s.entity_id e.entity_id

abbrev pub is_open : Option AlertStatus → Bool
is_open (some AlertStatus.opened) = true
is_open _ = false

-- alert_status.in_(("open", "acknowledged"))
abbrev pub is_unclosed : Option AlertStatus → Bool
is_unclosed (some AlertStatus.opened) = true
is_unclosed (some AlertStatus.acknowledged) = true
is_unclosed _ = false

unfoldable pub closable : EventCode → AlertScope → OperationalEvent → Bool
unfolding in_scope
closable code s e =
    e.is_alert && same_event e.event_code code && is_unclosed e.alert_status && in_scope s e

-- a memo that is given replaces the old one
abbrev pub closed_event : ℕ → Option Text → OperationalEvent → OperationalEvent
closed_event at memo e = record e {
  alert_status = some AlertStatus.closed;
  closed_at = some at;
  operator_memo = or_option memo e.operator_memo;
}

abbrev pub acknowledged_event : ℕ → Text → OperationalEvent → OperationalEvent
acknowledged_event at by e = record e {
  alert_status = some AlertStatus.acknowledged;
  acknowledged_at = some at;
  acknowledged_by = some by;
}

-- returns the number of alerts closed
unfoldable pub close_operational_alerts :
    ℕ → EventCode → AlertScope → Option ℕ → Option Text → Db → Db × ℕ
unfolding closable
close_operational_alerts now code s closed_at memo db = (
  record db {
    events =
        update_where (closable code s)
          (closed_event (or_else closed_at now) (or_none (or_empty memo))) db.events;
  },
  length (select (closable code s) db.events),
)

unfoldable pub acknowledgeable : EventCode → AlertScope → OperationalEvent → Bool
unfolding in_scope
acknowledgeable code s e =
    e.is_alert && same_event e.event_code code && is_open e.alert_status && in_scope s e

-- returns the number of alerts acknowledged
unfoldable pub acknowledge_operational_alerts :
    ℕ → EventCode → Text → AlertScope → Option ℕ → Db → Db × ℕ
unfolding acknowledgeable
acknowledge_operational_alerts now code by s acknowledged_at db = (
  record db {
    events =
        update_where (acknowledgeable code s) (acknowledged_event (or_else acknowledged_at now) by)
          db.events;
  },
  length (select (acknowledgeable code s) db.events),
)
