-- ===== src/Scenarios/Operations.antt =====
-- Runs of app/services/operational_events.py, app/services/pipeline.py and app/services/installations.py.
use sim_mdms_auto.Prelude.{
  ℕ, ◌+◌, ◌||◌, none, some, [], ◌∷◌, codes, ◌≡◌, refl, arith, get, leb, scalar, first_by, select,
  text_eq, strip, lower, next_id, max_id, modify, update_where, ◌++◌, HasUniqueIds,
}
use sim_mdms_auto.Store.{Db}
use sim_mdms_auto.Ops.Rows.{EventCode, PipelineName, watermark_id}
use sim_mdms_auto.Ops.Events.{
  defaults, record_operational_event, anywhere, close_operational_alerts,
}
use sim_mdms_auto.Ops.Steps.{AreSound, Step, Reach, Reach-AreSound}
use sim_mdms_auto.Ops.Pipeline.{upsert_processing_watermark}
use sim_mdms_auto.Ops.Watermarks.{reached, upsert_processing_watermark_advances}
use sim_mdms_auto.Installations.{
  Tables, Form, TimeField, InstallationHistory, installed, removed, ok, Checked, new_installation,
  updated_row, device_row_id, service_point_row_id, installation_row_id,
  create_installation_history, update_installation_history, check_form, load_device,
  load_service_point, validate_status, parse_datetime, validate_installation_window,
  validate_no_overlapping_open_installation,
}
use sim_mdms_auto.Installations.Invariant.{
  IsConsistent, create_installation_history-IsConsistent, update_installation_history-IsConsistent,
}
use sim_mdms_auto.Scenarios.Data.{noon, store}

-- an alert for the fifth run of an adapter
abbrev alerted : Db
alerted =
    record_operational_event noon EventCode.canonical_failed
      (record defaults { pipeline_run = some 5; ingest_batch = some 1 }) store

store-AreSound : AreSound store.events
store-AreSound = record { ids = λ n. ground arith; alerts = tt }

abbrev closed_store : Db
closed_store =
    (close_operational_alerts (noon + 1) EventCode.canonical_failed anywhere none none alerted).0

Reach-AreSound_example : AreSound closed_store.events
Reach-AreSound_example = Reach-AreSound store closed_store store-AreSound (
    Reach.next
      (Reach.next Reach.here (
        Step.recorded noon EventCode.canonical_failed
          (record defaults { pipeline_run = some 5; ingest_batch = some 1 }) refl))
      (Step.closed (noon + 1) EventCode.canonical_failed anywhere none none refl))

watermark_ids : HasUniqueIds store.watermarks
watermark_ids n = ground arith

upsert_processing_watermark_advances_example :
    let db' =
      upsert_processing_watermark PipelineName.finalization (some (codes "hes")) none noon store in
    HasUniqueIds db'.watermarks
    × ((t : ℕ)
        → reached PipelineName.finalization (some (codes "hes")) none t db'.watermarks ≡ (
            reached PipelineName.finalization (some (codes "hes")) none t store.watermarks
            || leb t noon))
upsert_processing_watermark_advances_example =
    upsert_processing_watermark_advances PipelineName.finalization (some (codes "hes")) none noon
      store watermark_ids

abbrev old_row : InstallationHistory
old_row = record {
  id = 1;
  device_id = 1;
  service_point_id = 1;
  installed_at = 10;
  removed_at = some 20;
  status = removed;
  created_by_user_account_id = none;
  updated_by_user_account_id = none;
}

abbrev tables : Tables
tables = record {
  devices = record { id = 1 } ∷ [];
  service_points = record { id = 1 } ∷ record { id = 2 } ∷ [];
  installations = old_row ∷ [];
}

tables-IsConsistent : IsConsistent tables
tables-IsConsistent = record {
  ids = λ n. ground arith;
  open_once = λ d. ground arith;
  windows = (ground arith, tt);
}

abbrev form : Form
form = record {
  device_id = some 1;
  service_point_id = some 2;
  installed_at = TimeField.time 30;
  removed_at = TimeField.empty;
  status = some (codes " Installed");
  user_account_id = some 7;
}

abbrev checked : Checked
checked = record {
  device_id = 1;
  service_point_id = 2;
  installed_at = 30;
  removed_at = none;
  status = installed;
}

abbrev created_tables : Tables
created_tables = record tables {
  installations = tables.installations ++ new_installation 2 (some 7) checked ∷ [];
}

created_lem : create_installation_history form tables ≡ ok created_tables
unfolding create_installation_history check_form load_device load_service_point validate_status
    parse_datetime validate_installation_window validate_no_overlapping_open_installation get scalar
    first_by select text_eq strip lower next_id max_id
created_lem = refl

create_installation_history-IsConsistent_example : IsConsistent created_tables
create_installation_history-IsConsistent_example =
    create_installation_history-IsConsistent form tables created_tables tables-IsConsistent
      created_lem

abbrev updated_tables : Tables
updated_tables = record tables { installations = updated_row checked (some 7) old_row ∷ [] }

updated_lem : update_installation_history 1 form tables ≡ ok updated_tables
unfolding update_installation_history check_form load_device load_service_point validate_status
    parse_datetime validate_installation_window validate_no_overlapping_open_installation get scalar
    first_by select text_eq strip lower modify update_where
updated_lem = refl

update_installation_history-IsConsistent_example : IsConsistent updated_tables
update_installation_history-IsConsistent_example =
    update_installation_history-IsConsistent 1 form tables updated_tables tables-IsConsistent
      updated_lem
