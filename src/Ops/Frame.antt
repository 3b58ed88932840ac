-- ===== src/Ops/Frame.antt =====
-- Lemmas on app/services/pipeline.py: the tables of measurements under the end of a run.
use sim_mdms_auto.Prelude.{
  ℕ, Option, none, some, Text, ◌≡◌, refl, Bool-cases, inl, inr, is_some, ◌||◌, ◌∙◌,
}
use sim_mdms_auto.Ops.Rows.{PipelineRun, EventCode}
use sim_mdms_auto.Ops.Events.{record_operational_event, close_operational_alerts}
use sim_mdms_auto.Ops.Pipeline.{
  complete_pipeline_run, fail_pipeline_run, record_run_event, close_failure_alerts, finish_success,
  success_event_code, failure_event_code,
}
use sim_mdms_auto.Store.{Db}

-- the two stores have the same measurements
pub record SameMeasurements (db db' : Db) : Type 0 where
  pub canonicals : db'.canonicals ≡ db.canonicals
  pub initials : db'.initials ≡ db.initials
  pub exceptions : db'.exceptions ≡ db.exceptions
  pub finals : db'.finals ≡ db.finals

abbrev pub unchanged : (db : Db) → SameMeasurements db db
unchanged db = record { canonicals = refl; initials = refl; exceptions = refl; finals = refl }

record_run_event-Same :
    (now : ℕ) (run : PipelineRun) (meter : Option Text) (o : Option EventCode) (db : Db)
    → SameMeasurements db (record_run_event now run meter o db)
unfolding record_run_event record_operational_event
record_run_event-Same now run meter none db = unchanged db
record_run_event-Same now run meter (some code) db = record {
  canonicals = refl;
  initials = refl;
  exceptions = refl;
  finals = refl;
}

close_failure_alerts-Same :
    (now : ℕ) (run : PipelineRun) (o : Option EventCode) (db : Db)
    → SameMeasurements db (close_failure_alerts now run o db)
unfolding close_failure_alerts close_operational_alerts
close_failure_alerts-Same now run none db = unchanged db
close_failure_alerts-Same now run (some code) db =
    elim (Bool-cases (is_some run.ingest_batch_id || is_some run.reprocess_request_id)) [
      | inl e ↦
          rw e (record { canonicals = refl; initials = refl; exceptions = refl; finals = refl })
      | inr e ↦ rw e (unchanged db)
    ]

finish_success-Same :
    (now : ℕ) (run : PipelineRun) (meter : Option Text) (o failure : Option EventCode) (db : Db)
    → SameMeasurements db (finish_success now run meter o failure db)
unfolding finish_success
finish_success-Same now run meter none failure db = unchanged db
finish_success-Same now run meter (some code) failure db =
    let a = record_run_event-Same now run meter (some code) db in
    let b =
      close_failure_alerts-Same now run failure (record_run_event now run meter (some code) db) in
    record {
      canonicals = b.canonicals ∙ a.canonicals;
      initials = b.initials ∙ a.initials;
      exceptions = b.exceptions ∙ a.exceptions;
      finals = b.finals ∙ a.finals;
    }

pub complete_pipeline_run-Same :
    (now : ℕ) (run : PipelineRun) (code meter : Option Text) (db : Db)
    → SameMeasurements db (complete_pipeline_run now run code meter db)
unfolding complete_pipeline_run
complete_pipeline_run-Same now run code meter db =
    let a = finish_success-Same now run meter (success_event_code run.pipeline_name) _ _ in
    record {
      canonicals = a.canonicals;
      initials = a.initials;
      exceptions = a.exceptions;
      finals = a.finals;
    }

pub fail_pipeline_run-Same :
    (now : ℕ) (run : PipelineRun) (code meter : Option Text) (db : Db)
    → SameMeasurements db (fail_pipeline_run now run code meter db)
unfolding fail_pipeline_run
fail_pipeline_run-Same now run code meter db =
    let a = record_run_event-Same now run meter (failure_event_code run.pipeline_name) _ in
    record {
      canonicals = a.canonicals;
      initials = a.initials;
      exceptions = a.exceptions;
      finals = a.finals;
    }
