-- ===== src/Finalization/Blocked.antt =====
-- Properties of app/services/finalization.py, `finalize_canonical_measurements`: blocked measurements.
use sim_mdms_auto.Prelude.{
  ℕ, suc, ◌+◌, Bool, true, false, Option, List, [], ◌∷◌, Text, ◌≡◌, refl, sym, ap, ◌∙◌, subst,
  arith, All, length, or_none, or_empty, Option-cases, inl, inr,
}
use sim_mdms_auto.Model.{InitialMeasurement}
use sim_mdms_auto.Store.{Db, canonical_of, exceptions_of}
use sim_mdms_auto.Ops.Rows.{PipelineName}
use sim_mdms_auto.Ops.Pipeline.{start_pipeline_run}
use sim_mdms_auto.Ops.Frame.{SameMeasurements}
use sim_mdms_auto.Vee.Baseline.{has_active_blocking_vee_exception}
use sim_mdms_auto.Finalization.{is_initial_measurement_finalizable, finalizable_from}
use sim_mdms_auto.Finalization.Batch.{
  Selection, LoopState, counted, selected_rows, finalize_row, finalize_rows, loop_start, find_batch,
  batch_links, batch_source, finalize_canonical_measurements,
}
use sim_mdms_auto.Finalization.Run.{end_finalization-Same}

abbrev pub is_blocked_in : Db → InitialMeasurement → Bool
is_blocked_in db r = has_active_blocking_vee_exception db r.id

blocked-not_finalizable :
    (db : Db) (r : InitialMeasurement)
    → is_blocked_in db r ≡ true
    → is_initial_measurement_finalizable db r ≡ false
unfolding is_initial_measurement_finalizable finalizable_from
blocked-not_finalizable db r h = elim (Option-cases (canonical_of db r)) [
  | inl e ↦ rw e refl
  | inr (c, e) ↦ rw e (ground (arith, h))
]

-- the state after a row that is not well formed
abbrev skipped_state : InitialMeasurement → LoopState → LoopState
skipped_state r s = record (counted r s) { skipped_not_well_formed = s.skipped_not_well_formed + 1 }

finalize_row_blocked :
    (now : ℕ) (reason : Option Text) (r : InitialMeasurement) (s : LoopState)
    → is_blocked_in s.db r ≡ true
    → finalize_row now reason r s ≡ skipped_state r s
unfolding finalize_row
finalize_row_blocked now reason r s h = rw (blocked-not_finalizable s.db r h) refl

finalize_rows_blocked :
    (now : ℕ) (reason : Option Text) (rs : List InitialMeasurement) (s : LoopState)
    → All (λ r. is_blocked_in s.db r ≡ true) rs
    → let s' = finalize_rows now reason rs s in
      (s'.db ≡ s.db)
      × (s'.finalized ≡ s.finalized)
      × (s'.skipped_not_well_formed ≡ s.skipped_not_well_formed + length rs)
unfolding finalize_rows
finalize_rows_blocked now reason [] s h = (refl, refl, omega arith)
finalize_rows_blocked now reason (r ∷ rs) s h =
    let (same, none_made, skipped) = finalize_rows_blocked now reason rs (skipped_state r s) h.1 in
    subst
      (λ (t : LoopState).
        ((finalize_rows now reason rs t).db ≡ s.db)
        × ((finalize_rows now reason rs t).finalized ≡ s.finalized)
        × ((finalize_rows now reason rs t).skipped_not_well_formed
            ≡ s.skipped_not_well_formed + suc (length rs)))
      (sym (finalize_row_blocked now reason r s h.0)) (same, none_made, omega (arith, skipped))

-- A run in which every selected measurement has an active exception that blocks finalization changes
-- no final, initial or canonical measurement and no exception, finalizes nothing and reports every
-- selected measurement as not well formed.
pub finalize_canonical_measurements_blocked :
    (now : ℕ) (selection : Selection) (trigger : Text) (reason : Option Text) (db : Db)
    → All (λ r. is_blocked_in db r ≡ true) (selected_rows db selection)
    → let (db', summary) = finalize_canonical_measurements now selection trigger reason db in
      SameMeasurements db db'
      × (summary.finalized ≡ 0)
      × (summary.skipped_not_well_formed ≡ length (selected_rows db selection))
unfolding finalize_canonical_measurements start_pipeline_run has_active_blocking_vee_exception
    exceptions_of
finalize_canonical_measurements_blocked now selection trigger reason db h =
    let batch = find_batch (or_none (or_empty selection.batch_id)) db in
    let (started, run) =
      start_pipeline_run now PipelineName.finalization trigger (batch_links batch) db in
    let start = loop_start started (batch_source batch) in
    let (same, none_made, skipped) =
      finalize_rows_blocked now reason (selected_rows db selection) start h in
    let ended =
      end_finalization-Same now run (finalize_rows now reason (selected_rows db selection) start) in
    (
      record {
        canonicals = ended.canonicals ∙ ap (λ (d : Db). d.canonicals) same;
        initials = ended.initials ∙ ap (λ (d : Db). d.initials) same;
        exceptions = ended.exceptions ∙ ap (λ (d : Db). d.exceptions) same;
        finals = ended.finals ∙ ap (λ (d : Db). d.finals) same;
      },
      none_made,
      omega (arith, skipped),
    )
