-- ===== src/Vee/OneActive.antt =====
-- Properties of app/services/vee.py: the table of exceptions under each operation.
use sim_mdms_auto.Prelude.{
  ℕ, ◌≤◌, Bool, true, ◌&&◌, Option, none, some, List, [], ◌∷◌, ◌++◌, Text, ◌≡◌, refl, subst, ◌==◌,
  arith, All-mono, count, count-append, count-update_where, count-update_where-All,
  count-update_where_fail, any-count, scalar, scalar-none, modify, HasUniqueIds,
  HasUniqueIds-insert, HasUniqueIds-modify, get_unique, get, by_id, next_id, or_else, Option-cases,
  inl, inr, Bool-cases,
}
use sim_mdms_auto.Model.{
  InitialMeasurement, VeeExecutionLog, VeeException, ExceptionCode, same_code, same_code→eq,
  is_active_status, initial_id, vee_exception_id,
}
use sim_mdms_auto.Store.{Db}
use sim_mdms_auto.Vee.Rules.{VeeRuleHit}
use sim_mdms_auto.Vee.Baseline.{
  same_active, refresh_exception, new_exception, create_or_get_vee_exception, open_all,
  reuse_or_evaluate, evaluate_or_get_vee_baseline, refresh_initial_measurement_status,
}
use sim_mdms_auto.Vee.Actions.{
  Operator, acknowledge_row, resolve_vee_exception_row, resolved_row, acknowledged_row,
  normalized_resolution, resolve_all, reevaluate_row, active_exceptions, found,
}

pub record IsSane (es : List VeeException) : Type 0 where
  pub ids : HasUniqueIds es
  pub one_active : (n : ℕ) (code : ExceptionCode) → count (same_active n code) es ≤ 1

-- a change that keeps ids, owners, codes and activity keeps the table sane
IsSane-modify :
    (m : ℕ) (f : VeeException → VeeException) (es : List VeeException)
    → ((e : VeeException) → (f e).id ≡ e.id)
    → ((n : ℕ) (code : ExceptionCode) (e : VeeException)
        → same_active n code (f e) ≡ same_active n code e)
    → IsSane es
    → IsSane (modify m f es)
unfolding modify
IsSane-modify m f es same_id same v = record {
  ids = HasUniqueIds-modify m f es same_id v.ids;
  one_active = λ n code.
      rw (count-update_where (same_active n code) (λ e. e.id == m) f es (λ e _. same n code e))
        (v.one_active n code);
}

module _ (row : InitialMeasurement) (hit : VeeRuleHit) (n : ℕ) (code : ExceptionCode)
    (e : (row.id == n && (same_code hit.exception_code code && true)) ≡ true) where
  owner : row.id ≡ n
  owner = ground arith

  coded : hit.exception_code ≡ code
  coded = same_code→eq _ _ (ground arith)

IsSane-insert :
    (now : ℕ) (row : InitialMeasurement) (x : VeeExecutionLog) (hit : VeeRuleHit)
    (es : List VeeException)
    → count (same_active row.id hit.exception_code) es ≡ 0
    → IsSane es
    → IsSane (es ++ new_exception now (next_id es) row x hit ∷ [])
IsSane-insert now row x hit es alone v = record {
  ids = HasUniqueIds-insert es _ refl v.ids;
  one_active = λ n code.
      let r = new_exception now (next_id es) row x hit in
      elim (Bool-cases (row.id == n && (same_code hit.exception_code code && true))) [
        | inl e ↦ ground (
          arith,
          count-append (same_active n code) es (r ∷ []),
          subst (λ m. count (same_active m code) es ≡ 0) (owner row hit n code e)
              (subst (λ c. count (same_active row.id c) es ≡ 0) (coded row hit n code e) alone),
        )
        | inr e ↦ ground (arith, count-append (same_active n code) es (r ∷ []), v.one_active n code)
      ];
}

pub create_or_get_vee_exception-IsSane :
    (now : ℕ) (row : InitialMeasurement) (x : VeeExecutionLog) (hit : VeeRuleHit) (db : Db)
    → IsSane db.exceptions
    → IsSane (create_or_get_vee_exception now row x hit db).0.exceptions
unfolding create_or_get_vee_exception
create_or_get_vee_exception-IsSane now row x hit db v =
    elim (Option-cases (scalar by_id (same_active row.id hit.exception_code) db.exceptions)) [
      | inl e ↦
          rw e (IsSane-insert now row x hit db.exceptions (any-count _ _ (scalar-none _ _ _ e)) v)
      | inr (old, e) ↦ rw e (
          IsSane-modify old.id (refresh_exception x hit) db.exceptions (λ y. refl)
            (λ n code y. refl) v)
    ]

pub open_all-IsSane :
    (now : ℕ) (row : InitialMeasurement) (x : VeeExecutionLog) (hits : List VeeRuleHit) (db : Db)
    → IsSane db.exceptions
    → IsSane (open_all now row x hits db).exceptions
unfolding open_all
open_all-IsSane now row x [] db v = v
open_all-IsSane now row x (h ∷ hs) db v =
    open_all-IsSane now row x hs _ (create_or_get_vee_exception-IsSane now row x h db v)

reuse_or_evaluate-IsSane :
    (now : ℕ) (row : InitialMeasurement) (run : Option ℕ) (trigger : Text)
    (found : Option VeeExecutionLog) (db : Db)
    → IsSane db.exceptions
    → IsSane (reuse_or_evaluate now row run trigger found db).0.exceptions
unfolding reuse_or_evaluate
reuse_or_evaluate-IsSane now row run trigger (some old) db v = v
reuse_or_evaluate-IsSane now row run trigger none db v = open_all-IsSane now row _ _ _ v

-- An evaluation, forced or not, of any measurement keeps unique ids and one active exception of each
-- code for each measurement.
pub evaluate_or_get_vee_baseline-IsSane :
    (now : ℕ) (row : InitialMeasurement) (run : Option ℕ) (trigger : Text) (force : Bool) (db : Db)
    → IsSane db.exceptions
    → IsSane (evaluate_or_get_vee_baseline now row run trigger force db).0.exceptions
unfolding evaluate_or_get_vee_baseline
evaluate_or_get_vee_baseline-IsSane now row run trigger force db v =
    reuse_or_evaluate-IsSane now row run trigger _ db v

pub exceptions-acknowledge_row :
    (now : ℕ) (e : VeeException) (by : Text) (account at : Option ℕ) (db : Db)
    → (acknowledge_row now e by account at db).exceptions
      ≡ modify e.id (acknowledged_row (or_else at now) by account) db.exceptions
unfolding acknowledge_row refresh_initial_measurement_status
exceptions-acknowledge_row now e by account at db = elim (Bool-cases e.blocking_finalization) [
  | inl b ↦ rw b
  | inr b ↦ rw b
]

-- only the exception's own row is touched, and that row was active before
pub acknowledge_row-IsSane :
    (now : ℕ) (e : VeeException) (by : Text) (account at : Option ℕ) (db : Db)
    → get e.id db.exceptions ≡ some e
    → is_active_status e.exception_status ≡ true
    → IsSane db.exceptions
    → IsSane (acknowledge_row now e by account at db).exceptions
unfolding modify
acknowledge_row-IsSane now e by account at db found active v =
    rw (exceptions-acknowledge_row now e by account at db) (record {
      ids = HasUniqueIds-modify e.id _ db.exceptions (λ x. refl) v.ids;
      one_active = λ n code.
          rw
            (count-update_where-All (same_active n code) (λ x. x.id == e.id)
              (acknowledged_row (or_else at now) by account) db.exceptions
              (All-mono _ _ db.exceptions (λ x is_e q. rw (is_e q) (ground (arith)))
                (get_unique e.id db.exceptions e (v.ids e.id) found)))
            (v.one_active n code);
    })

pub resolve_vee_exception_row-IsSane :
    (now : ℕ) (e : VeeException) (resolution : Text) (op : Operator) (db : Db)
    → IsSane db.exceptions
    → IsSane (resolve_vee_exception_row now e resolution op db).exceptions
unfolding resolve_vee_exception_row refresh_initial_measurement_status modify
resolve_vee_exception_row-IsSane now e resolution op db v = record {
  ids = HasUniqueIds-modify e.id _ db.exceptions (λ x. refl) v.ids;
  one_active = λ n code. omega (
    arith,
    count-update_where_fail (same_active n code) (λ x. x.id == e.id)
        (resolved_row (or_else op.at now) (normalized_resolution resolution) op) db.exceptions
        (λ x. ground arith),
    v.one_active n code,
  );
}

resolve_all-IsSane :
    (now : ℕ) (op : Operator) (es : List VeeException) (db : Db)
    → IsSane db.exceptions
    → IsSane (resolve_all now op es db).exceptions
unfolding resolve_all
resolve_all-IsSane now op [] db v = v
resolve_all-IsSane now op (e ∷ es) db v =
    resolve_all-IsSane now op es _ (resolve_vee_exception_row-IsSane now e _ op db v)

pub reevaluate_row-IsSane :
    (now : ℕ) (row : InitialMeasurement) (op : Operator) (db : Db)
    → IsSane db.exceptions
    → IsSane (reevaluate_row now row op db).0.exceptions
unfolding reevaluate_row
reevaluate_row-IsSane now row op db v =
    evaluate_or_get_vee_baseline-IsSane now row _ _ true _
      (resolve_all-IsSane now op (active_exceptions row.id db) db v)
