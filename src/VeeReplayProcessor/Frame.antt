-- ===== src/VeeReplayProcessor/Frame.antt =====
-- Lemmas on app/services/vee_replay_processor.py: what an item's replay leaves alone.
use sim_mdms_auto.Prelude.{
  ℕ, Option, none, some, List, [], ◌∷◌, Text, ◌≡◌, refl, ◌∙◌, Bool-cases, inl, inr, is_some, ◌||◌,
  codes,
}
use sim_mdms_auto.Model.{InitialMeasurement, VeeExecutionLog, VeeException}
use sim_mdms_auto.Model.Replay.{VeeReplayRequest, VeeReplayRequestItem}
use sim_mdms_auto.Store.{Db}
use sim_mdms_auto.Ops.Rows.{PipelineRun, EventCode}
use sim_mdms_auto.Ops.Events.{record_operational_event, close_operational_alerts}
use sim_mdms_auto.Ops.Pipeline.{
  complete_pipeline_run, fail_pipeline_run, record_run_event, close_failure_alerts, finish_success,
  success_event_code, failure_event_code,
}
use sim_mdms_auto.Vee.Rules.{VeeRuleHit}
use sim_mdms_auto.Vee.Baseline.{
  refresh_initial_measurement_status, open_or_refresh, create_or_get_vee_exception, open_all,
  evaluate_baseline, reuse_or_evaluate, evaluate_or_get_vee_baseline, record_vee_exception_opened,
}
use sim_mdms_auto.Vee.Actions.{
  Operator, resolve_marked, resolve_vee_exception_row, resolve_all, active_exceptions,
  reevaluate_row,
}

-- the tables of the processor
abbrev pub replay_tables : Db → List VeeReplayRequest × List VeeReplayRequestItem
replay_tables db = (db.replay_requests, db.replay_items)

record_run_event-tables :
    (now : ℕ) (run : PipelineRun) (meter : Option Text) (o : Option EventCode) (db : Db)
    → replay_tables (record_run_event now run meter o db) ≡ replay_tables db
unfolding record_run_event record_operational_event
record_run_event-tables now run meter none db = refl
record_run_event-tables now run meter (some code) db = refl

close_failure_alerts-tables :
    (now : ℕ) (run : PipelineRun) (o : Option EventCode) (db : Db)
    → replay_tables (close_failure_alerts now run o db) ≡ replay_tables db
unfolding close_failure_alerts close_operational_alerts
close_failure_alerts-tables now run none db = refl
close_failure_alerts-tables now run (some code) db =
    elim (Bool-cases (is_some run.ingest_batch_id || is_some run.reprocess_request_id)) [
      | inl e ↦ rw e refl
      | inr e ↦ rw e refl
    ]

finish_success-tables :
    (now : ℕ) (run : PipelineRun) (meter : Option Text) (o failure : Option EventCode) (db : Db)
    → replay_tables (finish_success now run meter o failure db) ≡ replay_tables db
unfolding finish_success
finish_success-tables now run meter none failure db = refl
finish_success-tables now run meter (some code) failure db =
    close_failure_alerts-tables now run failure _
    ∙ record_run_event-tables now run meter (some code) db

pub complete_pipeline_run-tables :
    (now : ℕ) (run : PipelineRun) (code meter : Option Text) (db : Db)
    → replay_tables (complete_pipeline_run now run code meter db) ≡ replay_tables db
unfolding complete_pipeline_run
complete_pipeline_run-tables now run code meter db =
    finish_success-tables now run meter (success_event_code run.pipeline_name) _ _

pub fail_pipeline_run-tables :
    (now : ℕ) (run : PipelineRun) (code meter : Option Text) (db : Db)
    → replay_tables (fail_pipeline_run now run code meter db) ≡ replay_tables db
unfolding fail_pipeline_run
fail_pipeline_run-tables now run code meter db =
    record_run_event-tables now run meter (failure_event_code run.pipeline_name) _

resolve_row-tables :
    (now : ℕ) (e : VeeException) (resolution : Text) (op : Operator) (db : Db)
    → replay_tables (resolve_vee_exception_row now e resolution op db) ≡ replay_tables db
unfolding resolve_vee_exception_row resolve_marked record_operational_event close_operational_alerts
    refresh_initial_measurement_status
resolve_row-tables now e resolution op db = refl

resolve_all-tables :
    (now : ℕ) (op : Operator) (es : List VeeException) (db : Db)
    → replay_tables (resolve_all now op es db) ≡ replay_tables db
unfolding resolve_all
resolve_all-tables now op [] db = refl
resolve_all-tables now op (e ∷ es) db =
    resolve_all-tables now op es _
    ∙ resolve_row-tables now e (codes "re_evaluated_superseded") op db

open_or_refresh-tables :
    (now : ℕ) (row : InitialMeasurement) (x : VeeExecutionLog) (hit : VeeRuleHit)
    (o : Option VeeException) (db : Db)
    → replay_tables (open_or_refresh now row x hit o db).0 ≡ replay_tables db
unfolding open_or_refresh record_vee_exception_opened record_operational_event
open_or_refresh-tables now row x hit none db = refl
open_or_refresh-tables now row x hit (some e) db = refl

open_all-tables :
    (now : ℕ) (row : InitialMeasurement) (x : VeeExecutionLog) (hits : List VeeRuleHit) (db : Db)
    → replay_tables (open_all now row x hits db) ≡ replay_tables db
unfolding open_all create_or_get_vee_exception
open_all-tables now row x [] db = refl
open_all-tables now row x (h ∷ hs) db =
    open_all-tables now row x hs _ ∙ open_or_refresh-tables now row x h _ db

evaluate-tables :
    (now : ℕ) (row : InitialMeasurement) (run : Option ℕ) (trigger : Text) (db : Db)
    → replay_tables (evaluate_baseline now row run trigger db).0 ≡ replay_tables db
unfolding evaluate_baseline
evaluate-tables now row run trigger db = open_all-tables now row _ _ _

pub reevaluate_row-tables :
    (now : ℕ) (row : InitialMeasurement) (op : Operator) (db : Db)
    → replay_tables (reevaluate_row now row op db).0 ≡ replay_tables db
unfolding reevaluate_row record_operational_event evaluate_or_get_vee_baseline reuse_or_evaluate
reevaluate_row-tables now row op db =
    evaluate-tables now row none (codes "manual_re_evaluate") _
    ∙ resolve_all-tables now op (active_exceptions row.id db) db
