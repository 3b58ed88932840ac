-- ===== src/Finalization/Batch.antt =====
-- app/services/finalization.py: `finalize_canonical_measurements`, a run over selected rows.
use sim_mdms_auto.Prelude.{
  ℕ, ◌+◌, Bool, true, false, ◌&&◌, Option, none, some, List, [], ◌∷◌, Text, codes, ltb, leb,
  if◌then◌else◌, text_eq, sql_text_eq, or_none, or_option, or_empty, scalar, select, order_by,
  by_id, take, get?,
}
use sim_mdms_auto.Model.{
  IngestBatch, HesReadRaw, InitialMeasurement, FinalMeasurement, batch_row_id, initial_id,
}
use sim_mdms_auto.Store.{Db, raw_of}
use sim_mdms_auto.Ops.Rows.{PipelineName, PipelineRun}
use sim_mdms_auto.Ops.Pipeline.{
  RunLinks, no_links, start_pipeline_run, complete_pipeline_run, fail_pipeline_run,
  upsert_processing_watermark,
}
use sim_mdms_auto.Finalization.{is_initial_measurement_finalizable, create_or_get_final_measurement}

pub record FinalizationSummary : Type 0 where
  pub candidates : ℕ
  pub finalized : ℕ
  pub skipped_existing : ℕ
  pub skipped_not_well_formed : ℕ

-- the keyword arguments that select rows
pub record Selection : Type 0 where
  pub batch_id : Option Text
  pub meter_id : Option Text
  pub date_from : Option ℕ
  pub date_to : Option ℕ
  pub limit : ℕ

-- `if text: statement.where(column == text)`
abbrev text_filter : Option Text → Option Text → Bool
text_filter none column = true
text_filter (some t) column = sql_text_eq column t

abbrev from_filter : Option ℕ → Option ℕ → Bool
from_filter none column = true
from_filter (some d) none = false
from_filter (some d) (some t) = leb d t

abbrev to_filter : Option ℕ → Option ℕ → Bool
to_filter none column = true
to_filter (some d) none = false
to_filter (some d) (some t) = leb t d

batch_filter : Selection → Option IngestBatch → Bool
batch_filter s none = false
batch_filter s (some b) = text_filter (or_none (or_empty s.batch_id)) (some b.batch_id)

-- the inner joins: a row without a raw read or a batch is not selected
read_filter : Db → Selection → Option HesReadRaw → Bool
unfolding batch_filter
read_filter db s none = false
read_filter db s (some raw) =
    batch_filter s (get? raw.ingest_batch_id db.ingest_batches)
    && text_filter (or_none (or_empty s.meter_id)) raw.meter_identifier

unfoldable pub is_selected : Db → Selection → InitialMeasurement → Bool
unfolding read_filter
is_selected db s r =
    read_filter db s (raw_of db r)
    && from_filter s.date_from r.measured_at
    && to_filter s.date_to r.measured_at

-- ORDER BY id LIMIT limit
unfoldable pub selected_rows : Db → Selection → List InitialMeasurement
unfolding is_selected
selected_rows db s = take s.limit (order_by by_id (select (is_selected db s) db.initials))

-- the local variables of the loop; `last_finalized_at` is the maximum of `finalized_at_values`
pub record LoopState : Type 0 where
  pub db : Db
  pub candidates : ℕ
  pub finalized : ℕ
  pub skipped_existing : ℕ
  pub skipped_not_well_formed : ℕ
  pub last_finalized_at : Option ℕ
  pub source_system : Option Text

abbrev later : Option ℕ → ℕ → Option ℕ
later none t = some t
later (some u) t = if ltb u t then some t else some u

abbrev source_of : Option HesReadRaw → Option Text
source_of none = none
source_of (some raw) = some raw.source_system

unfoldable pub after_final : LoopState → Option (Db × FinalMeasurement × Bool) → LoopState
after_final s none = s
after_final s (some (db', f, true)) = record s {
  db = db';
  finalized = s.finalized + 1;
  last_finalized_at = later s.last_finalized_at f.finalized_at;
}
after_final s (some (db', f, false)) = record s {
  db = db';
  skipped_existing = s.skipped_existing + 1;
}

abbrev pub counted : InitialMeasurement → LoopState → LoopState
counted r s = record s {
  candidates = s.candidates + 1;
  source_system = or_option s.source_system (source_of (raw_of s.db r));
}

-- one round of the loop; the `none` of `after_final` needs a row without a canonical measurement,
-- and such a row is not finalizable
unfoldable pub finalize_row : ℕ → Option Text → InitialMeasurement → LoopState → LoopState
unfolding after_final
finalize_row now reason r s =
    if is_initial_measurement_finalizable s.db r
    then after_final (counted r s) (create_or_get_final_measurement now r reason s.db)
    else record (counted r s) { skipped_not_well_formed = s.skipped_not_well_formed + 1 }

unfoldable pub finalize_rows : ℕ → Option Text → List InitialMeasurement → LoopState → LoopState
finalize_rows now reason [] s = s
finalize_rows now reason (r ∷ rs) s = finalize_rows now reason rs (finalize_row now reason r s)

unfoldable pub find_batch : Option Text → Db → Option IngestBatch
find_batch none db = none
find_batch (some t) db = scalar (λ _ _. false) (λ b. text_eq b.batch_id t) db.ingest_batches

abbrev pub batch_source : Option IngestBatch → Option Text
batch_source none = none
batch_source (some b) = some b.source_system

abbrev pub batch_links : Option IngestBatch → RunLinks
batch_links none = no_links
batch_links (some b) = record no_links { ingest_batch_id = some b.id }

abbrev pub write_watermark : LoopState → Db
write_watermark s = elim s.last_finalized_at [
  | none ↦ s.db
  | some t ↦
      upsert_processing_watermark PipelineName.finalization s.source_system
        (some (codes "final_measurement")) t s.db
]

-- the run fails as soon as one candidate was skipped as not well formed
unfoldable pub end_finalization : ℕ → PipelineRun → LoopState → Db
end_finalization now run s =
    let db = write_watermark s in
    if ltb 0 s.skipped_not_well_formed
    then fail_pipeline_run now run (some (codes "finalization_completed_with_skips")) none db
    else if ltb 0 s.finalized
    then complete_pipeline_run now run (some (codes "finalization_completed")) none db
    else complete_pipeline_run now run (some (codes "finalization_noop")) none db

abbrev pub summary_of : LoopState → FinalizationSummary
summary_of s = record {
  candidates = s.candidates;
  finalized = s.finalized;
  skipped_existing = s.skipped_existing;
  skipped_not_well_formed = s.skipped_not_well_formed;
}

abbrev pub loop_start : Db → Option Text → LoopState
loop_start db source = record {
  db = db;
  candidates = 0;
  finalized = 0;
  skipped_existing = 0;
  skipped_not_well_formed = 0;
  last_finalized_at = none;
  source_system = source;
}

unfoldable pub finalize_canonical_measurements :
    ℕ → Selection → Text → Option Text → Db → Db × FinalizationSummary
unfolding selected_rows finalize_rows find_batch end_finalization
finalize_canonical_measurements now selection trigger reason db =
    let batch = find_batch (or_none (or_empty selection.batch_id)) db in
    let rows = selected_rows db selection in
    let (started, run) =
      start_pipeline_run now PipelineName.finalization trigger (batch_links batch) db in
    let s = finalize_rows now reason rows (loop_start started (batch_source batch)) in
    (end_finalization now run s, summary_of s)
