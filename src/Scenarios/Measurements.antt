-- ===== src/Scenarios/Measurements.antt =====
-- Runs of app/services/processing_core.py and app/services/finalization.py.
use sim_mdms_auto.Prelude.{All, order_by, insert_by, text_eq, strip}
use sim_mdms_auto.Store.{raw_of, raw_of_canonical, exceptions_of}
use sim_mdms_auto.Ops.Frame.{SameMeasurements}
use sim_mdms_auto.Vee.Baseline.{has_active_blocking_vee_exception}
use sim_mdms_auto.Finalization.Batch.{is_selected}
use sim_mdms_auto.Finalization.Blocked.{is_blocked_in, finalize_canonical_measurements_blocked}
use sim_mdms_auto.Scenarios.Data.{with_exception, negative}
use sim_mdms_auto.Model.{batch_row_id}
use sim_mdms_auto.Prelude.{
  ◌+◌, Bool, true, false, none, some, [], ◌∷◌, codes, ◌≡◌, refl, arith, length, get, scalar,
  first_by, select, next_id, max_id, HasUniqueIds, pos,
}
use sim_mdms_auto.Model.{FinalMeasurement, raw_id, canonical_id, initial_id, final_id}
use sim_mdms_auto.Store.{Db, canonical_of}
use sim_mdms_auto.ProcessingCore.{create_or_get_initial_measurement}
use sim_mdms_auto.ProcessingCore.Initials.{create_or_get_initial_measurement-IsLineage}
use sim_mdms_auto.Finalization.{
  create_or_get_final_measurement, new_final, revise, create_from, get_current_final_measurement,
}
use sim_mdms_auto.Finalization.Batch.{selected_rows, finalize_canonical_measurements}
use sim_mdms_auto.Finalization.Lineage.{HasOneInitial, IsLineage, of_canonical}
use sim_mdms_auto.Finalization.Repeat.{
  IsResult, create_or_get_final_measurement-IsLineage, create_or_get_final_measurement_again,
}
use sim_mdms_auto.Finalization.Counts.{finalize_canonical_measurements_balance}
use sim_mdms_auto.Finalization.Run.{finalize_canonical_measurements-IsLineage}
use sim_mdms_auto.Scenarios.Data.{noon, store, clean, canonical_row, whole_batch}

store_ids : HasUniqueIds store.initials
store_ids n = ground arith

store-HasOneInitial : HasOneInitial store.initials
store-HasOneInitial c = ground arith

store-IsLineage : IsLineage store.initials store.finals
store-IsLineage = record { ids = λ n. ground arith; linked = tt; one_current = λ c. ground arith }

create_or_get_initial_measurement-IsLineage_example :
    let (db', row, _) = create_or_get_initial_measurement noon (canonical_row 3 (pos 0)) store in
    HasUniqueIds db'.initials
    × HasOneInitial db'.initials
    × IsLineage db'.initials db'.finals
    × (of_canonical 3 row ≡ true)
create_or_get_initial_measurement-IsLineage_example =
    create_or_get_initial_measurement-IsLineage noon (canonical_row 3 (pos 0)) store store_ids
      store-HasOneInitial store-IsLineage

clean_stored : get 1 store.initials ≡ some clean
unfolding get
clean_stored = refl

clean_mapped : canonical_of store clean ≡ some (canonical_row 1 (pos 30000))
unfolding canonical_of get
clean_mapped = refl

create_or_get_final_measurement-IsLineage_example :
    (db' : Db) × (f : FinalMeasurement) × (created : Bool) × (create_or_get_final_measurement noon
        clean none store
      ≡ some (db', f, created))
    × (db' ≡ record store { finals = db'.finals })
    × IsLineage db'.initials db'.finals
    × IsResult clean (canonical_row 1 (pos 30000)) db'.finals f
create_or_get_final_measurement-IsLineage_example =
    create_or_get_final_measurement-IsLineage noon none store clean (canonical_row 1 (pos 30000))
      store-HasOneInitial clean_stored clean_mapped store-IsLineage

abbrev first_final : FinalMeasurement
first_final = new_final noon 1 clean (canonical_row 1 (pos 30000)) none none

abbrev finalized_store : Db
finalized_store = record store { finals = first_final ∷ [] }

finalized_store_lem :
    create_or_get_final_measurement noon clean none store
    ≡ some (finalized_store, first_final, true)
unfolding create_or_get_final_measurement create_from get_current_final_measurement revise
    canonical_of get scalar first_by select next_id max_id
finalized_store_lem = refl

create_or_get_final_measurement_again_example :
    (db'' : Db) × (create_or_get_final_measurement
        (noon + 1)
        clean
        (some (codes "late"))
        finalized_store
      ≡ some (db'', first_final, false))
create_or_get_final_measurement_again_example =
    create_or_get_final_measurement_again noon (noon + 1) none (some (codes "late")) store
      finalized_store clean (canonical_row 1 (pos 30000)) first_final true store-HasOneInitial
      clean_stored clean_mapped store-IsLineage finalized_store_lem

finalize_canonical_measurements-IsLineage_example :
    let db' = (finalize_canonical_measurements noon whole_batch (codes "manual") none store).0 in
    (db'.initials ≡ store.initials) × IsLineage db'.initials db'.finals
finalize_canonical_measurements-IsLineage_example =
    finalize_canonical_measurements-IsLineage noon whole_batch (codes "manual") none store store_ids
      store-HasOneInitial store-IsLineage

finalize_canonical_measurements_balance_example :
    let summary =
      (finalize_canonical_measurements noon whole_batch (codes "manual") none store).1 in
    (summary.candidates ≡ length (selected_rows store whole_batch))
    × (summary.finalized + summary.skipped_existing + summary.skipped_not_well_formed
        ≡ length (selected_rows store whole_batch))
finalize_canonical_measurements_balance_example =
    finalize_canonical_measurements_balance noon whole_batch (codes "manual") none store

-- a batch whose only measurement has an open blocking exception
abbrev blocked_store : Db
blocked_store = record with_exception { initials = negative ∷ [] }

blocked_rows :
    All (λ r. is_blocked_in blocked_store r ≡ true) (selected_rows blocked_store whole_batch)
unfolding selected_rows is_selected has_active_blocking_vee_exception exceptions_of select order_by
    insert_by raw_of raw_of_canonical canonical_of get text_eq strip
blocked_rows = (refl, tt)

finalize_canonical_measurements_blocked_example :
    let (db', summary) =
      finalize_canonical_measurements noon whole_batch (codes "manual") none blocked_store in
    SameMeasurements blocked_store db'
    × (summary.finalized ≡ 0)
    × (summary.skipped_not_well_formed ≡ length (selected_rows blocked_store whole_batch))
finalize_canonical_measurements_blocked_example =
    finalize_canonical_measurements_blocked noon whole_batch (codes "manual") none blocked_store
      blocked_rows
