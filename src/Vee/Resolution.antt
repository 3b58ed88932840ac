-- ===== src/Vee/Resolution.antt =====
-- Properties of app/services/vee.py, `resolve_vee_exception`: the exception and its alerts.
use sim_mdms_auto.Prelude.{
  ℕ, false, Option, some, List, Text, ◌≡◌, refl, sym, subst, any, any-append, get, get_sound,
  get-modify_same, modify, or_else, or_option, normalized, codes,
}
use sim_mdms_auto.Model.{VeeException, ExceptionStatus, vee_exception_id}
use sim_mdms_auto.Store.{Db}
use sim_mdms_auto.Ops.Rows.{EventCode, operational_event_id}
use sim_mdms_auto.Ops.Events.{record_operational_event, closable}
use sim_mdms_auto.Ops.Laws.{close_operational_alerts_complete}
use sim_mdms_auto.Vee.Baseline.{refresh_initial_measurement_status}
use sim_mdms_auto.Vee.Actions.{
  ActionError, ok, err, Operator, exception_scope, acknowledge_vee_exception, resolved_row,
  resolve_marked, resolve_vee_exception_row, resolve_vee_exception, normalized_resolution,
  get_vee_exception, may_resolve, may_acknowledge,
}
use sim_mdms_auto.Vee.Reach.{resolved_from}

resolve_row-closes :
    (now : ℕ) (e : VeeException) (resolution : Text) (op : Operator) (db : Db)
    → any
        (closable EventCode.vee_exception_opened (exception_scope e.id))
        (resolve_vee_exception_row now e resolution op db).events
      ≡ false
unfolding resolve_vee_exception_row resolve_marked record_operational_event
resolve_row-closes now e resolution op db =
    let marked = record db {
      exceptions =
          modify e.id (resolved_row (or_else op.at now) (normalized_resolution resolution) op)
            db.exceptions;
    } in
    let closed =
      close_operational_alerts_complete now EventCode.vee_exception_opened (exception_scope e.id)
        (some (or_else op.at now)) (normalized op.memo)
        (refresh_initial_measurement_status e.initial_measurement_id marked) in
    rw (any-append (closable EventCode.vee_exception_opened (exception_scope e.id)) _ _)
      (rw closed.0 refl)

exceptions-resolve_row :
    (now : ℕ) (e : VeeException) (resolution : Text) (op : Operator) (db : Db)
    → (resolve_vee_exception_row now e resolution op db).exceptions
      ≡ modify e.id
          (resolved_row (or_else op.at now) (normalized_resolution resolution) op)
          db.exceptions
unfolding resolve_vee_exception_row resolve_marked record_operational_event
    refresh_initial_measurement_status
exceptions-resolve_row now e resolution op db = refl

get-resolved :
    (n m : ℕ) (f : VeeException → VeeException) (es : List VeeException) (e : VeeException)
    → n ≡ m
    → ((x : VeeException) → (f x).id ≡ x.id)
    → get m es ≡ some e
    → get m (modify n f es) ≡ some (f e)
get-resolved n m f es e q keeps h = rw q (get-modify_same m f es e keeps h)

-- the exception before and after its resolution
pub record IsResolution (now : ℕ) (resolution : Text) (op : Operator) (old new : VeeException)
    : Type 0 where
  pub status : new.exception_status ≡ ExceptionStatus.resolved
  pub type :
      new.resolution_type
      ≡ some (or_else (normalized (some resolution)) (codes "operator_resolution"))
  pub time : new.resolved_at ≡ some (or_else op.at now)
  pub by : new.resolved_by ≡ normalized op.name
  pub account : new.resolved_by_user_account_id ≡ op.user_account_id
  pub memo : new.operator_memo ≡ or_option (normalized op.memo) old.operator_memo
  pub same_code : new.exception_code ≡ old.exception_code
  pub same_measurement : new.initial_measurement_id ≡ old.initial_measurement_id
  pub same_blocking : new.blocking_finalization ≡ old.blocking_finalization

resolved_row-IsResolution :
    (now : ℕ) (resolution : Text) (op : Operator) (e : VeeException)
    → IsResolution now resolution op e
        (resolved_row (or_else op.at now) (normalized_resolution resolution) op e)
resolved_row-IsResolution now resolution op e = record {
  status = refl;
  type = refl;
  time = refl;
  by = refl;
  account = refl;
  memo = refl;
  same_code = refl;
  same_measurement = refl;
  same_blocking = refl;
}

-- A resolution that succeeds was of an exception of the table; afterwards that exception has status
-- resolved, the stripped resolution type or operator_resolution where that is empty, the given time or
-- now, the operator's name and account, the operator's memo or the old one where that is empty, and its
-- code, measurement and blocking as before; and no alert of it is open or acknowledged.
pub resolve_vee_exception_lem :
    (now n : ℕ) (resolution : Text) (op : Operator) (db db' : Db)
    → resolve_vee_exception now n resolution op db ≡ ok db'
    → (e : VeeException) × (get n db.exceptions ≡ some e)
      × (e' : VeeException) × (get n db'.exceptions ≡ some e')
      × IsResolution now resolution op e e'
      × (any (closable EventCode.vee_exception_opened (exception_scope n)) db'.events ≡ false)
resolve_vee_exception_lem now n resolution op db db' h =
    let (e, q, r) = resolved_from now n resolution op db db' h in
    let is_n = get_sound n db.exceptions e q in
    (
      e,
      q,
      resolved_row (or_else op.at now) (normalized_resolution resolution) op e,
      rw (sym r) (
          rw (exceptions-resolve_row now e resolution op db)
            (get-resolved e.id n _ db.exceptions e is_n (λ x. refl) q)),
      resolved_row-IsResolution now resolution op e,
      rw (sym r) (
          subst
            (λ m.
              any (closable EventCode.vee_exception_opened (exception_scope m))
                (resolve_vee_exception_row now e resolution op db).events
              ≡ false)
            is_n (resolve_row-closes now e resolution op db)),
    )

-- After a resolution that succeeds, the exception can be neither resolved nor acknowledged again: both
-- are refused as already resolved, whatever their arguments.
pub resolve_vee_exception_final :
    (now n : ℕ) (resolution : Text) (op : Operator) (db db' : Db)
    → resolve_vee_exception now n resolution op db ≡ ok db'
    → ((later : ℕ) (again : Text) (op' : Operator)
        → resolve_vee_exception later n again op' db' ≡ err ActionError.already_resolved)
      × ((later : ℕ) (by : Text) (account at : Option ℕ)
          → acknowledge_vee_exception later n by account at db' ≡ err ActionError.already_resolved)
unfolding resolve_vee_exception acknowledge_vee_exception get_vee_exception may_resolve
    may_acknowledge
resolve_vee_exception_final now n resolution op db db' h =
    let (e, q, e', row, resolved, closed) =
      resolve_vee_exception_lem now n resolution op db db' h in
    (
      λ later again op'. rw row (rw resolved.status refl),
      λ later by account at. rw row (rw resolved.status refl),
    )
