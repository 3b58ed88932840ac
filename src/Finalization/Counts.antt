-- ===== src/Finalization/Counts.antt =====
-- Properties of app/services/finalization.py, `finalize_canonical_measurements`: the summary.
use sim_mdms_auto.Prelude.{
  ℕ, ◌+◌, Bool, true, false, Option, none, some, List, [], ◌∷◌, Text, ◌≡◌, refl, arith, length,
  Bool-cases, inl, inr, or_none, or_empty,
}
use sim_mdms_auto.Model.{
  CanonicalMeasurement, InitialMeasurement, FinalMeasurement, initial_id, final_id, canonical_id,
}
use sim_mdms_auto.Store.{Db, canonical_of}
use sim_mdms_auto.Ops.Rows.{PipelineName}
use sim_mdms_auto.Ops.Pipeline.{start_pipeline_run}
use sim_mdms_auto.Finalization.{
  is_initial_measurement_finalizable, finalizable_from, create_from,
  create_or_get_final_measurement,
}
use sim_mdms_auto.Finalization.Batch.{
  Selection, LoopState, selected_rows, finalize_row, finalize_rows, after_final, counted,
  loop_start, finalize_canonical_measurements, find_batch, batch_links, batch_source,
}

-- every candidate is counted once more
abbrev IsBalanced : LoopState → Type 0
IsBalanced s = s.candidates ≡ s.finalized + s.skipped_existing + s.skipped_not_well_formed

-- a finalizable row has a canonical measurement, so that its final measurement is made or found
finalizable-writes :
    (now : ℕ) (reason : Option Text) (r : InitialMeasurement) (db : Db)
    → is_initial_measurement_finalizable db r ≡ true
    → (x : Db × FinalMeasurement × Bool) × (create_or_get_final_measurement now r reason db
        ≡ some x)
unfolding is_initial_measurement_finalizable finalizable_from create_or_get_final_measurement
    create_from
finalizable-writes now reason r db h = go (canonical_of db r) h
  where
    go :
        (o : Option CanonicalMeasurement)
        → finalizable_from db r o ≡ true
        → (x : Db × FinalMeasurement × Bool) × (create_from now r reason o db ≡ some x)
    go none h' = absurd (cc)
    go (some c) h' = (_, refl)

after_final-IsBalanced :
    (s : LoopState) (x : Db × FinalMeasurement × Bool)
    → s.candidates ≡ s.finalized + s.skipped_existing + s.skipped_not_well_formed + 1
    → let s' = after_final s (some x) in IsBalanced s' × (s'.candidates ≡ s.candidates)
unfolding after_final
after_final-IsBalanced s (db, f, true) b = (omega arith, refl)
after_final-IsBalanced s (db, f, false) b = (omega arith, refl)

finalize_row-IsBalanced :
    (now : ℕ) (reason : Option Text) (r : InitialMeasurement) (s : LoopState)
    → IsBalanced s
    → let s' = finalize_row now reason r s in IsBalanced s' × (s'.candidates ≡ s.candidates + 1)
unfolding finalize_row
finalize_row-IsBalanced now reason r s b =
    elim (Bool-cases (is_initial_measurement_finalizable s.db r)) [
      | inl e ↦
          let (x, q) = finalizable-writes now reason r s.db e in
          rw e (rw q (after_final-IsBalanced (counted r s) x (omega arith)))
      | inr e ↦ rw e (omega arith, refl)
    ]

finalize_rows-IsBalanced :
    (now : ℕ) (reason : Option Text) (rs : List InitialMeasurement) (s : LoopState)
    → IsBalanced s
    → let s' = finalize_rows now reason rs s in
      IsBalanced s' × (s'.candidates ≡ s.candidates + length rs)
unfolding finalize_rows
finalize_rows-IsBalanced now reason [] s b = (b, omega arith)
finalize_rows-IsBalanced now reason (r ∷ rs) s b =
    let (b', n) = finalize_row-IsBalanced now reason r s b in
    let (b'', m) = finalize_rows-IsBalanced now reason rs (finalize_row now reason r s) b' in
    (b'', omega arith)

-- The summary of a finalization run counts every selected row as a candidate, and every candidate as
-- exactly one of finalized, existing and not well formed.
pub finalize_canonical_measurements_balance :
    (now : ℕ) (selection : Selection) (trigger : Text) (reason : Option Text) (db : Db)
    → let summary = (finalize_canonical_measurements now selection trigger reason db).1 in
      (summary.candidates ≡ length (selected_rows db selection))
      × (summary.finalized + summary.skipped_existing + summary.skipped_not_well_formed
          ≡ length (selected_rows db selection))
unfolding finalize_canonical_measurements
finalize_canonical_measurements_balance now selection trigger reason db =
    let batch = find_batch (or_none (or_empty selection.batch_id)) db in
    let started = start_pipeline_run now PipelineName.finalization trigger (batch_links batch) db in
    let (b, n) =
      finalize_rows-IsBalanced now reason (selected_rows db selection)
        (loop_start started.0 (batch_source batch)) refl in
    (omega arith, omega arith)
