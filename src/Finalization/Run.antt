-- ===== src/Finalization/Run.antt =====
-- Properties of app/services/finalization.py, `finalize_canonical_measurements`: the tables.
use sim_mdms_auto.Prelude.{
  ℕ, Bool, true, false, Option, none, some, List, [], ◌∷◌, Text, ◌≡◌, refl, sym, subst, ap, ◌∙◌,
  All, get, get_self, HasUniqueIds, Bool-cases, Option-cases, inl, inr, ltb, or_none, or_empty,
  All-take, All-order_by, All-select,
}
use sim_mdms_auto.Model.{
  CanonicalMeasurement, InitialMeasurement, FinalMeasurement, initial_id, final_id, canonical_id,
}
use sim_mdms_auto.Store.{Db, canonical_of}
use sim_mdms_auto.Ops.Rows.{PipelineName, PipelineRun}
use sim_mdms_auto.Ops.Pipeline.{start_pipeline_run, upsert_processing_watermark}
use sim_mdms_auto.Ops.Frame.{
  SameMeasurements, unchanged, fail_pipeline_run-Same, complete_pipeline_run-Same,
}
use sim_mdms_auto.Finalization.{
  is_initial_measurement_finalizable, finalizable_from, create_or_get_final_measurement,
}
use sim_mdms_auto.Finalization.Batch.{
  Selection, LoopState, selected_rows, finalize_row, finalize_rows, after_final, counted,
  find_batch, batch_links, batch_source, write_watermark, loop_start,
  finalize_canonical_measurements, end_finalization,
}
use sim_mdms_auto.Finalization.Lineage.{HasOneInitial, IsLineage}
use sim_mdms_auto.Finalization.Repeat.{create_or_get_final_measurement-IsLineage}

-- the tables that finalizing reads
record Keeps (rows : List InitialMeasurement) (cs : List CanonicalMeasurement) (db : Db)
    : Type 0 where
  same_initials : db.initials ≡ rows
  same_canonicals : db.canonicals ≡ cs
  lineage : IsLineage rows db.finals

-- the canonical measurement of every row that is finalizable
finalizable-mapped :
    (db : Db) (r : InitialMeasurement)
    → is_initial_measurement_finalizable db r ≡ true
    → (c : CanonicalMeasurement) × (canonical_of db r ≡ some c)
unfolding is_initial_measurement_finalizable finalizable_from
finalizable-mapped db r h = elim (Option-cases (canonical_of db r)) [
  | inl e ↦ absurd (cc (rw e at h))
  | inr q ↦ q
]

final-Keeps :
    (rows : List InitialMeasurement) (cs : List CanonicalMeasurement) (now : ℕ)
    (reason : Option Text) (r : InitialMeasurement) (db : Db)
    → HasOneInitial rows
    → get r.id rows ≡ some r
    → is_initial_measurement_finalizable db r ≡ true
    → Keeps rows cs db
    → (x : Db × FinalMeasurement × Bool) × (create_or_get_final_measurement now r reason db
        ≡ some x)
      × Keeps rows cs x.0
final-Keeps rows cs now reason r db one h fin v =
    let (c, k) = finalizable-mapped db r fin in
    let same = sym v.same_initials in
    let (db', f, created, e, others, l, _) =
      create_or_get_final_measurement-IsLineage now reason db r c (subst HasOneInitial same one)
        (subst (λ z. get r.id z ≡ some r) same h) k
        (subst (λ z. IsLineage z db.finals) same v.lineage) in
    let initials = ap (λ (d : Db). d.initials) others ∙ v.same_initials in
    (
      (db', f, created),
      e,
      record {
        same_initials = initials;
        same_canonicals = ap (λ (d : Db). d.canonicals) others ∙ v.same_canonicals;
        lineage = subst (λ z. IsLineage z db'.finals) initials l;
      },
    )

module _ (rows : List InitialMeasurement) (cs : List CanonicalMeasurement) (now : ℕ)
    (reason : Option Text) (one : HasOneInitial rows) where
  finalize_row-Keeps :
      (r : InitialMeasurement) (s : LoopState)
      → get r.id rows ≡ some r
      → Keeps rows cs s.db
      → Keeps rows cs (finalize_row now reason r s).db
  unfolding finalize_row after_final
  finalize_row-Keeps r s h v = elim (Bool-cases (is_initial_measurement_finalizable s.db r)) [
    | inl e ↦
        let (x, q, v') = final-Keeps rows cs now reason r s.db one h e v in rw e (rw q (after x v'))
    | inr e ↦ rw e v
  ]
    where
      after :
          (x : Db × FinalMeasurement × Bool)
          → Keeps rows cs x.0
          → Keeps rows cs (after_final (counted r s) (some x)).db
      after (db, f, true) v' = v'
      after (db, f, false) v' = v'

  finalize_rows-Keeps :
      (rs : List InitialMeasurement) (s : LoopState)
      → All (λ r. get r.id rows ≡ some r) rs
      → Keeps rows cs s.db
      → Keeps rows cs (finalize_rows now reason rs s).db
  unfolding finalize_rows
  finalize_rows-Keeps [] s h v = v
  finalize_rows-Keeps (r ∷ rs) s h v = finalize_rows-Keeps rs _ h.1 (finalize_row-Keeps r s h.0 v)

pub end_finalization-Same :
    (now : ℕ) (run : PipelineRun) (s : LoopState)
    → SameMeasurements s.db (end_finalization now run s)
unfolding end_finalization upsert_processing_watermark
end_finalization-Same now run s =
    let written = write_watermark-Same s in
    elim (Bool-cases (ltb 0 s.skipped_not_well_formed)) [
      | inl e ↦ rw e (both written (fail_pipeline_run-Same now run _ none (write_watermark s)))
      | inr e ↦ rw e (elim (Bool-cases (ltb 0 s.finalized)) [
        | inl e' ↦
            rw e' (both written (complete_pipeline_run-Same now run _ none (write_watermark s)))
        | inr e' ↦
            rw e' (both written (complete_pipeline_run-Same now run _ none (write_watermark s)))
      ])
    ]
  where
    both : {a b c : Db} → SameMeasurements a b → SameMeasurements b c → SameMeasurements a c
    both p q = record {
      canonicals = q.canonicals ∙ p.canonicals;
      initials = q.initials ∙ p.initials;
      exceptions = q.exceptions ∙ p.exceptions;
      finals = q.finals ∙ p.finals;
    }

    write_watermark-Same : (t : LoopState) → SameMeasurements t.db (write_watermark t)
    write_watermark-Same t = elim (Option-cases t.last_finalized_at) [
      | inl e ↦ rw e (unchanged t.db)
      | inr (n, e) ↦
          rw e (record { canonicals = refl; initials = refl; exceptions = refl; finals = refl })
    ]

-- A finalization run over any selection keeps the initial measurements, and keeps final measurements
-- with unique ids, standing over the initial measurement of their canonical one and at most once
-- current for a canonical one, in a store where initial measurements have unique ids and a canonical
-- measurement has at most one.
pub finalize_canonical_measurements-IsLineage :
    (now : ℕ) (selection : Selection) (trigger : Text) (reason : Option Text) (db : Db)
    → HasUniqueIds db.initials
    → HasOneInitial db.initials
    → IsLineage db.initials db.finals
    → let db' = (finalize_canonical_measurements now selection trigger reason db).0 in
      (db'.initials ≡ db.initials) × IsLineage db'.initials db'.finals
unfolding finalize_canonical_measurements selected_rows start_pipeline_run
finalize_canonical_measurements-IsLineage now selection trigger reason db u one v =
    let batch = find_batch (or_none (or_empty selection.batch_id)) db in
    let (started, run) =
      start_pipeline_run now PipelineName.finalization trigger (batch_links batch) db in
    let s =
      finalize_rows now reason (selected_rows db selection)
        (loop_start started (batch_source batch)) in
    let kept =
      finalize_rows-Keeps db.initials db.canonicals now reason one (selected_rows db selection)
        (loop_start started (batch_source batch))
        (All-take _ selection.limit _
          (All-order_by _ _ _ (All-select _ _ _ (get_self db.initials u))))
        (record { same_initials = refl; same_canonicals = refl; lineage = v }) in
    let same = end_finalization-Same now run s in
    let initials = same.initials ∙ kept.same_initials in
    (
      initials,
      subst (λ z. IsLineage z (end_finalization now run s).finals) (sym initials)
          (subst (λ z. IsLineage db.initials z) (sym same.finals) kept.lineage),
    )
