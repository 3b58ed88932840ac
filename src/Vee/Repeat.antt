-- ===== src/Vee/Repeat.antt =====
-- Properties of app/services/vee.py, `evaluate_or_get_vee_baseline` called twice.
use sim_mdms_auto.Prelude.{
  ℕ, false, Option, none, some, List, [], ◌∷◌, Text, ◌≡◌, refl, ◌∙◌, ==_refl, arith, scalar-snoc,
  by_id,
}
use sim_mdms_auto.Model.{InitialMeasurement, VeeExecutionLog, execution_id}
use sim_mdms_auto.Store.{Db}
use sim_mdms_auto.Vee.Rules.{VeeRuleHit}
use sim_mdms_auto.Vee.Baseline.{
  find_existing_baseline_execution, create_or_get_vee_exception, open_all, reuse_or_evaluate,
  evaluate_or_get_vee_baseline,
}

executions-create_or_get :
    (now : ℕ) (row : InitialMeasurement) (x : VeeExecutionLog) (h : VeeRuleHit) (db : Db)
    → (create_or_get_vee_exception now row x h db).0.executions ≡ db.executions
unfolding create_or_get_vee_exception
executions-create_or_get now row x h db = ground arith

executions-open_all :
    (now : ℕ) (row : InitialMeasurement) (x : VeeExecutionLog) (hits : List VeeRuleHit) (db : Db)
    → (open_all now row x hits db).executions ≡ db.executions
unfolding open_all
executions-open_all now row x [] db = refl
executions-open_all now row x (h ∷ hs) db =
    executions-open_all now row x hs _ ∙ executions-create_or_get now row x h db

-- the execution that an evaluation returns is the one that a search finds afterwards
found_after :
    (now : ℕ) (row : InitialMeasurement) (run : Option ℕ) (trigger : Text) (db : Db)
    (o : Option VeeExecutionLog)
    → find_existing_baseline_execution db row.id ≡ o
    → let first = reuse_or_evaluate now row run trigger o db in
      find_existing_baseline_execution first.0 row.id ≡ some first.1
unfolding find_existing_baseline_execution reuse_or_evaluate
found_after now row run trigger db (some old) e = e
found_after now row run trigger db none e =
    rw (executions-open_all now row _ _ _)
      (scalar-snoc by_id _ db.executions _ e (ground (arith, ==_refl row.id)))

-- After an evaluation that is not forced, a second one of the same measurement, at any time and under
-- any trigger, returns the same execution as not new, and leaves executions, exceptions and events as
-- the first one left them.
pub evaluate_twice :
    (now later : ℕ) (row : InitialMeasurement) (run run' : Option ℕ) (trigger trigger' : Text)
    (db : Db)
    → let first = evaluate_or_get_vee_baseline now row run trigger false db in
      let second = evaluate_or_get_vee_baseline later row run' trigger' false first.0 in
      (second.1 ≡ first.1)
      × (second.2 ≡ false)
      × (second.0.executions ≡ first.0.executions)
      × (second.0.exceptions ≡ first.0.exceptions)
      × (second.0.events ≡ first.0.events)
unfolding evaluate_or_get_vee_baseline
evaluate_twice now later row run run' trigger trigger' db =
    rw (found_after now row run trigger db (find_existing_baseline_execution db row.id) refl)
      (refl, refl, refl, refl, refl)
