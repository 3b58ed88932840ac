-- ===== src/VeeReplayProcessor/Untouched.antt =====
-- Lemmas on app/services/vee_replay_processor.py: the replay of an exception leaves the requests and
-- their items alone.
use sim_mdms_auto.Prelude.{
  ℕ, Bool, true, false, Option, none, some, List, [], Text, ◌≡◌, refl, sym, ap, ◌∙◌, arith,
  Bool-cases, Option-cases, inl, inr, ◌==◌, get, is_some, codes, length, ◌&&◌,
}
use mathlib.Core.Option.{some-injective}
use sim_mdms_auto.Model.{
  InitialMeasurement, FinalMeasurement, VeeException, VeeExecutionLog, initial_id, vee_exception_id,
}
use sim_mdms_auto.Store.{Db, canonical_of}
use sim_mdms_auto.Ops.Rows.{PipelineRun, PipelineName}
use sim_mdms_auto.Ops.Events.{record_operational_event}
use sim_mdms_auto.Ops.Pipeline.{start_pipeline_run, no_links, upsert_processing_watermark}
use sim_mdms_auto.Vee.Actions.{
  Operator, reevaluate_initial_measurement, reevaluate_vee_exception, ok, err, ActionResult,
  get_vee_exception,
}
use sim_mdms_auto.Finalization.{
  create_or_get_final_measurement, create_from, is_initial_measurement_finalizable,
}
use sim_mdms_auto.Billing.Rows.{UsageTransaction}
use sim_mdms_auto.Billing.Store.{BillingDb, Filters}
use sim_mdms_auto.Billing.Determinants.{move_watermark}
use sim_mdms_auto.Usage.Windows.{Zones, UsageType, usage_code, read_usage_type}
use sim_mdms_auto.Usage.Buckets.{UsageBucket, build_usage_buckets}
use sim_mdms_auto.Usage.Calculate.{
  UsageTally, end_usage, use_buckets, run_usage, calculate_usage_transactions,
  load_final_measurements, keeps_unique_usage, upsert_all, no_usage,
}
use sim_mdms_auto.ProcessingReplay.Windows.{
  UsageReplay, delete_usage_transaction_for_window, recalculate_impacted_usage_windows,
}
use sim_mdms_auto.ProcessingReplay.Keeps.{recalculate-keeps}
use sim_mdms_auto.ProcessingReplay.Reevaluate.{
  ReVeeReplaySummary, ReplayOutcome, FinalStep, finalize_reevaluated, after_final, with_replay,
  record_superseded, summarized, replay_row, after_reevaluation,
  reevaluate_vee_exception_and_replay, load_active_vee_exceptions,
}
use sim_mdms_auto.VeeReplayProcessor.Frame.{
  replay_tables, complete_pipeline_run-tables, fail_pipeline_run-tables, reevaluate_row-tables,
}

move_watermark-tables :
    (name : PipelineName) (type : Text) (o : Option ℕ) (db : Db)
    → replay_tables (move_watermark name type o db) ≡ replay_tables db
unfolding upsert_processing_watermark
move_watermark-tables name type none db = refl
move_watermark-tables name type (some at) db = refl

end_usage-tables :
    (now : ℕ) (run : PipelineRun) (type : Text) (n : ℕ)
    (result : List UsageTransaction × UsageTally) (before db : BillingDb)
    → replay_tables db.core ≡ replay_tables before.core
    → replay_tables (end_usage now run type n result before db).0.core ≡ replay_tables before.core
unfolding end_usage
end_usage-tables now run type n (rows, t) before db h =
    elim (Bool-cases (keeps_unique_usage rows)) [
      | inl e ↦ rw e (
          complete_pipeline_run-tables now run _ none _
          ∙ (move_watermark-tables PipelineName.usage type t.latest db.core ∙ h))
      | inr e ↦ rw e refl
    ]

use_buckets-tables :
    (now : ℕ) (run : PipelineRun) (type : Text) (o : Option (List UsageBucket))
    (before db : BillingDb)
    → replay_tables db.core ≡ replay_tables before.core
    → replay_tables (use_buckets now run type o before db).0.core ≡ replay_tables before.core
unfolding use_buckets
use_buckets-tables now run type none before db h =
    fail_pipeline_run-tables now run (some (codes "usage_failed_exception")) none db.core ∙ h
use_buckets-tables now run type (some bs) before db h =
    end_usage-tables now run type (length bs)
      (upsert_all now run type db.usages bs db.usages no_usage) before db h

module _ (zones : Zones) (now : ℕ) where
  run_usage-tables :
      (type : UsageType) (q : Filters) (trigger : Text) (db : BillingDb)
      → replay_tables (run_usage zones now type q trigger db).0.core ≡ replay_tables db.core
  unfolding run_usage start_pipeline_run
  run_usage-tables type q trigger db =
      let started = start_pipeline_run now PipelineName.usage trigger no_links db.core in
      use_buckets-tables now started.1 (usage_code type)
        (build_usage_buckets zones db.hes_systems db.core type
          (load_final_measurements q db.core.finals) [])
        db (record db { core = started.0 }) refl

  calculate_usage-tables :
      (type : Text) (q : Filters) (trigger : Text) (db : BillingDb)
      → replay_tables (calculate_usage_transactions zones now type q trigger db).0.core
        ≡ replay_tables db.core
  unfolding calculate_usage_transactions
  calculate_usage-tables type q trigger db = elim (Option-cases (read_usage_type type)) [
    | inl e ↦ rw e refl
    | inr (t, e) ↦ rw e (run_usage-tables t q trigger db)
  ]

done_db :
    {a b : BillingDb} {s t : ReVeeReplaySummary}
    → ReplayOutcome.done a s ≡ ReplayOutcome.done b t
    → a ≡ b
done_db h = ground arith

ok_row : {a b : Db × VeeExecutionLog} → ok a ≡ ok b → a ≡ b
ok_row h = ground arith

create_from-tables :
    (now : ℕ) (row : InitialMeasurement) (reason : Option Text) (db core : Db)
    (f : FinalMeasurement) (new : Bool)
    → create_or_get_final_measurement now row reason db ≡ some (core, f, new)
    → replay_tables core ≡ replay_tables db
unfolding create_or_get_final_measurement create_from
create_from-tables now row reason db core f new h = elim (Option-cases (canonical_of db row)) [
  | inl e ↦ absurd (cc (rw (e, create_from) at h))
  | inr (c, e) ↦
      ap (λ (r : Db × FinalMeasurement × Bool). replay_tables r.0)
        (sym (some-injective _ _ (rw (e, create_from) at h)))
]

module _ (zones : Zones) (now : ℕ) where
  recalculate-tables :
      (previous current : Option FinalMeasurement) (trigger : Text) (db : BillingDb)
      (u : UsageReplay)
      → recalculate_impacted_usage_windows zones now previous current trigger db ≡ some u
      → replay_tables u.db.core ≡ replay_tables db.core
  unfolding delete_usage_transaction_for_window
  recalculate-tables previous current trigger db u h =
      recalculate-keeps zones now (λ d. replay_tables d.core ≡ replay_tables db.core)
        (λ type q t d e. calculate_usage-tables zones now type q t d ∙ e) (λ w s e. e) previous
        current trigger db u h refl

  with_replay-tables :
      (n : ℕ) (previous : Option FinalMeasurement) (f : FinalMeasurement) (o : Option UsageReplay)
      (s : FinalStep)
      → with_replay now n previous f o ≡ some s
      → (u : UsageReplay) × (o ≡ some u)
        × (replay_tables s.replay.db.core ≡ replay_tables u.db.core)
  unfolding record_operational_event
  with_replay-tables n previous f none s h = absurd (cc)
  with_replay-tables n previous f (some u) s h =
      (u, refl, ap (λ r. replay_tables r.replay.db.core) (sym (some-injective _ _ h)))

  superseded-tables :
      (b : Bool) (f : FinalMeasurement) (core : Db)
      → replay_tables (record_superseded now b f core) ≡ replay_tables core
  unfolding record_operational_event
  superseded-tables true f core = refl
  superseded-tables false f core = refl

  after_final-tables :
      (n : ℕ) (previous : Option FinalMeasurement) (db : BillingDb)
      (o : Option (Db × FinalMeasurement × Bool)) (s : FinalStep)
      → ((core : Db) (f : FinalMeasurement) (new : Bool)
          → o ≡ some (core, f, new)
          → replay_tables core ≡ replay_tables db.core)
      → after_final zones now n previous db o ≡ some s
      → replay_tables s.replay.db.core ≡ replay_tables db.core
  after_final-tables n previous db none s same h = absurd (cc)
  after_final-tables n previous db (some (core, f, true)) s same h =
      let (u, hu, e) = with_replay-tables n previous f _ s h in
      e
      ∙ (recalculate-tables previous (some f) (codes "vee_re_evaluate") _ u hu
          ∙ (superseded-tables (is_some previous) f core ∙ same core f true refl))
  after_final-tables n previous db (some (core, f, false)) s same h =
      ap (λ r. replay_tables r.replay.db.core) (sym (some-injective _ _ h)) ∙ same core f false refl

  finalize-tables :
      (row : InitialMeasurement) (previous : Option FinalMeasurement) (active : List VeeException)
      (db : BillingDb) (s : FinalStep)
      → finalize_reevaluated zones now row previous active db ≡ some s
      → replay_tables s.replay.db.core ≡ replay_tables db.core
  unfolding finalize_reevaluated
  finalize-tables row previous active db s h =
      elim (Bool-cases (length active == 0 && is_initial_measurement_finalizable db.core row)) [
        | inl e ↦
            after_final-tables row.id previous db
              (create_or_get_final_measurement now row (some (codes "vee_re_evaluated")) db.core) s
              (create_from-tables now row (some (codes "vee_re_evaluated")) db.core) (rw e at h)
        | inr e ↦ ap (λ r. replay_tables r.replay.db.core) (sym (some-injective _ _ (rw e at h)))
      ]

  summarized-tables :
      (target n : ℕ) (x : VeeExecutionLog) (previous : Option FinalMeasurement)
      (active : List VeeException) (before db' : BillingDb) (o : Option FinalStep)
      (s : ReVeeReplaySummary)
      → ((t : FinalStep) → o ≡ some t → replay_tables t.replay.db.core ≡ replay_tables before.core)
      → summarized target n x previous active o ≡ ReplayOutcome.done db' s
      → replay_tables db'.core ≡ replay_tables before.core
  summarized-tables target n x previous active before db' none s same h = absurd (cc)
  summarized-tables target n x previous active before db' (some t) s same h =
      ap (λ d. replay_tables d.core) (sym (done_db h)) ∙ same t refl

  replay_row-tables :
      (target n : ℕ) (x : VeeExecutionLog) (previous : Option FinalMeasurement) (db db' : BillingDb)
      (o : Option InitialMeasurement) (s : ReVeeReplaySummary)
      → replay_row zones now target n x previous db o ≡ ReplayOutcome.done db' s
      → replay_tables db'.core ≡ replay_tables db.core
  replay_row-tables target n x previous db db' none s h = absurd (cc)
  replay_row-tables target n x previous db db' (some row) s h =
      summarized-tables target n x previous (load_active_vee_exceptions n db.core.exceptions) db db'
        _ s (finalize-tables row previous (load_active_vee_exceptions n db.core.exceptions) db) h

  reevaluated-tables :
      (n : ℕ) (op : Operator) (db core : Db) (x : VeeExecutionLog)
      → reevaluate_vee_exception now n op db ≡ ok (core, x)
      → replay_tables core ≡ replay_tables db
  unfolding reevaluate_vee_exception reevaluate_initial_measurement get_vee_exception
  reevaluated-tables n op db core x h = elim (Option-cases (get n db.exceptions)) [
    | inl e ↦ absurd (cc (rw e at h))
    | inr (v, e) ↦
        let h1 = rw e at h in
        elim (Option-cases (get v.initial_measurement_id db.initials)) [
          | inl e' ↦ absurd (cc (rw e' at h1))
          | inr (row, e') ↦
              ap (λ (r : Db × VeeExecutionLog). replay_tables r.0) (sym (ok_row (rw e' at h1)))
              ∙ reevaluate_row-tables now row op db
        ]
  ]

  after_reevaluation-tables :
      (target n : ℕ) (previous : Option FinalMeasurement) (db db' : BillingDb)
      (r : ActionResult (Db × VeeExecutionLog)) (s : ReVeeReplaySummary)
      → ((core : Db) (x : VeeExecutionLog)
          → r ≡ ok (core, x)
          → replay_tables core ≡ replay_tables db.core)
      → after_reevaluation zones now target n previous db r ≡ ReplayOutcome.done db' s
      → replay_tables db'.core ≡ replay_tables db.core
  after_reevaluation-tables target n previous db db' (err e) s same h = absurd (cc)
  after_reevaluation-tables target n previous db db' (ok (core, x)) s same h =
      replay_row-tables target n x previous (record db { core = core }) db' _ s h ∙ same core x refl

  -- an item's replay that is done leaves the requests and their items alone
  pub reevaluate_and_replay-tables :
      (n : ℕ) (op : Operator) (db db' : BillingDb) (s : ReVeeReplaySummary)
      → reevaluate_vee_exception_and_replay zones now n op db ≡ ReplayOutcome.done db' s
      → replay_tables db'.core ≡ replay_tables db.core
  unfolding reevaluate_vee_exception_and_replay
  reevaluate_and_replay-tables n op db db' s h = elim (Option-cases (get n db.core.exceptions)) [
    | inl e ↦ absurd (cc (rw e at h))
    | inr (x, e) ↦
        after_reevaluation-tables x.id x.initial_measurement_id _ db db' _ s
          (reevaluated-tables x.id op db.core) (rw e at h)
  ]
