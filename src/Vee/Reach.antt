-- ===== src/Vee/Reach.antt =====
-- The operations of app/services/vee.py as steps from one store to the next.
use sim_mdms_auto.Prelude.{
  ℕ, Bool, true, Option, none, some, Text, ◌≡◌, refl, subst, arith, get_sound, get,
}
use sim_mdms_auto.Model.{
  InitialMeasurement, VeeExecutionLog, VeeException, is_active_status, initial_id, vee_exception_id,
}
use sim_mdms_auto.Store.{Db}
use sim_mdms_auto.Vee.Baseline.{evaluate_or_get_vee_baseline}
use sim_mdms_auto.Vee.Actions.{
  ok, Operator, acknowledge_row, acknowledge_vee_exception, resolve_vee_exception_row,
  resolve_vee_exception, reevaluate_row, reevaluate_initial_measurement, may_resolve,
  may_acknowledge, found, ◌>>=◌,
}
use sim_mdms_auto.Vee.OneActive.{
  IsSane, evaluate_or_get_vee_baseline-IsSane, acknowledge_row-IsSane,
  resolve_vee_exception_row-IsSane, reevaluate_row-IsSane,
}

-- One call of an operation of the service that succeeds.
pub data Step (db db' : Db) : Type 0 where
  evaluated :
      (now : ℕ) (row : InitialMeasurement) (run : Option ℕ) (trigger : Text) (force : Bool)
      → (evaluate_or_get_vee_baseline now row run trigger force db).0 ≡ db'
      → Step db db'
  acknowledged :
      (now n : ℕ) (by : Text) (account at : Option ℕ)
      → acknowledge_vee_exception now n by account at db ≡ ok db'
      → Step db db'
  resolved :
      (now n : ℕ) (resolution : Text) (op : Operator)
      → resolve_vee_exception now n resolution op db ≡ ok db'
      → Step db db'
  reevaluated :
      (now n : ℕ) (op : Operator) (x : VeeExecutionLog)
      → reevaluate_initial_measurement now n op db ≡ ok (db', x)
      → Step db db'

pub data Reach (db : Db) : Db → Type 0 where
  here : Reach db db
  next : {a b : Db} → Reach db a → Step a b → Reach db b

pub acknowledged_from :
    (now n : ℕ) (by : Text) (account at : Option ℕ) (db db' : Db)
    → acknowledge_vee_exception now n by account at db ≡ ok db'
    → (e : VeeException) × (get n db.exceptions ≡ some e)
      × (is_active_status e.exception_status ≡ true)
      × (acknowledge_row now e by account at db ≡ db')
unfolding acknowledge_vee_exception
acknowledged_from now n by account at db db' h = go (get n db.exceptions) refl h
  where
    go :
        (o : Option VeeException)
        → get n db.exceptions ≡ o
        → (found o >>= λ e.
            may_acknowledge e.exception_status >>= λ _. ok (acknowledge_row now e by account at db))
          ≡ ok db'
        → (e : VeeException) × (get n db.exceptions ≡ some e)
          × (is_active_status e.exception_status ≡ true)
          × (acknowledge_row now e by account at db ≡ db')
    go none q h' = absurd (cc)
    go (some e) q h' = (e, q, ground arith, ground arith)

pub resolved_from :
    (now n : ℕ) (resolution : Text) (op : Operator) (db db' : Db)
    → resolve_vee_exception now n resolution op db ≡ ok db'
    → (e : VeeException) × (get n db.exceptions ≡ some e)
      × (resolve_vee_exception_row now e resolution op db ≡ db')
unfolding resolve_vee_exception
resolved_from now n resolution op db db' h = go (get n db.exceptions) refl h
  where
    go :
        (o : Option VeeException)
        → get n db.exceptions ≡ o
        → (found o >>= λ e. may_resolve e.exception_status >>= λ _.
            ok (resolve_vee_exception_row now e resolution op db))
          ≡ ok db'
        → (e : VeeException) × (get n db.exceptions ≡ some e)
          × (resolve_vee_exception_row now e resolution op db ≡ db')
    go none q h' = absurd (cc)
    go (some e) q h' = (e, q, ground arith)

pub reevaluated_from :
    (now n : ℕ) (op : Operator) (x : VeeExecutionLog) (db db' : Db)
    → reevaluate_initial_measurement now n op db ≡ ok (db', x)
    → (row : InitialMeasurement) × (get n db.initials ≡ some row)
      × ((reevaluate_row now row op db).0 ≡ db')
unfolding reevaluate_initial_measurement
reevaluated_from now n op x db db' h = ground arith

Step-IsSane : (a b : Db) → Step a b → IsSane a.exceptions → IsSane b.exceptions
Step-IsSane a b (evaluated now row run trigger force e) v =
    subst (λ d. IsSane d.exceptions) e
      (evaluate_or_get_vee_baseline-IsSane now row run trigger force a v)
Step-IsSane a b (acknowledged now n by account at h) v =
    let (e, q, active, r) = acknowledged_from now n by account at a b h in
    subst (λ d. IsSane d.exceptions) r
      (acknowledge_row-IsSane now e by account at a (rw (get_sound n a.exceptions e q) q) active v)
Step-IsSane a b (resolved now n resolution op h) v =
    let (e, q, r) = resolved_from now n resolution op a b h in
    subst (λ d. IsSane d.exceptions) r (resolve_vee_exception_row-IsSane now e resolution op a v)
Step-IsSane a b (reevaluated now n op x h) v =
    let (row, q, r) = reevaluated_from now n op x a b h in
    subst (λ d. IsSane d.exceptions) r (reevaluate_row-IsSane now row op a v)

-- In every database that the operations of the service reach, in any order, from one where exception
-- ids are unique and each measurement has at most one active exception of each code, both hold.
pub Reach-IsSane : (db db' : Db) → IsSane db.exceptions → Reach db db' → IsSane db'.exceptions
Reach-IsSane db db' v here = v
Reach-IsSane db db' v (next {a} r st) = Step-IsSane a db' st (Reach-IsSane db a v r)
