-- ===== src/Store.antt =====
-- The database session as one record of tables, and the navigation along the relationships of
-- app/models.py. The tables of operational events, pipeline runs and watermarks stand with the
-- services that write them (Ops).
use sim_mdms_auto.Prelude.{ℕ, Option, none, some, List, get, get?, ◌==◌, select}
use sim_mdms_auto.Model.{
  IngestBatch, MeasuringComponent, HesReadRaw, HesEventRaw, CanonicalMeasurement,
  InitialMeasurement, RawIntervalWindowState, VeeExecutionLog, VeeException, FinalMeasurement,
  component_id, raw_id, canonical_id,
}
use sim_mdms_auto.Model.Replay.{VeeReplayRequest, VeeReplayRequestItem}
use sim_mdms_auto.Ops.Rows.{OperationalEvent, PipelineRun, ProcessingWatermark}

pub record Db : Type 0 where
  pub ingest_batches : List IngestBatch
  pub measuring_components : List MeasuringComponent
  pub hes_reads : List HesReadRaw
  pub hes_events : List HesEventRaw
  pub window_states : List RawIntervalWindowState
  pub canonicals : List CanonicalMeasurement
  pub initials : List InitialMeasurement
  pub executions : List VeeExecutionLog
  pub exceptions : List VeeException
  pub finals : List FinalMeasurement
  pub events : List OperationalEvent
  pub runs : List PipelineRun
  pub watermarks : List ProcessingWatermark
  pub replay_requests : List VeeReplayRequest
  pub replay_items : List VeeReplayRequestItem

-- `initial_row.canonical_measurement`
unfoldable pub canonical_of : Db → InitialMeasurement → Option CanonicalMeasurement
canonical_of db row = get? row.canonical_measurement_id db.canonicals

-- `canonical_row.hes_read_raw if canonical_row is not None else None`
unfoldable pub raw_of_canonical : Db → Option CanonicalMeasurement → Option HesReadRaw
raw_of_canonical db none = none
raw_of_canonical db (some c) = get c.hes_read_raw_id db.hes_reads

-- the raw read behind an initial measurement
unfoldable pub raw_of : Db → InitialMeasurement → Option HesReadRaw
raw_of db row = raw_of_canonical db (canonical_of db row)

-- `initial_row.measuring_component`
unfoldable pub component_of : Db → InitialMeasurement → Option MeasuringComponent
component_of db row = get? row.measuring_component_id db.measuring_components

-- `initial_row.vee_exceptions`
unfoldable pub exceptions_of : Db → ℕ → List VeeException
exceptions_of db n = select (λ e. e.initial_measurement_id == n) db.exceptions
