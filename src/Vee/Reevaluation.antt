-- ===== src/Vee/Reevaluation.antt =====
-- Properties of app/services/vee.py, `reevaluate_initial_measurement`: the status of a measurement.
use sim_mdms_auto.Prelude.{
  ℕ, Bool, true, false, not, ◌&&◌, Option, none, some, List, [], ◌∷◌, codes, ◌≡◌, refl, subst, ◌∙◌,
  ◌==◌, ==_refl, arith, Text, All-mono, any, any-imp, any-select, any-order_by, any_self,
  any-update_where, All-any-false, select, modify, get, by_id, get_sound, get-modify,
  get-modify_some, is_some, if◌then◌else◌, Option-cases, Bool-cases, inl, inr,
}
use sim_mdms_auto.Model.{
  InitialMeasurement, VeeExecutionLog, VeeException, InitialStatus, vee_exception_id, initial_id,
}
use sim_mdms_auto.Store.{Db, exceptions_of}
use sim_mdms_auto.Vee.Rules.{VeeRuleHit}
use sim_mdms_auto.Vee.Hits.{
  IsDistinct, evaluate_initial_measurement_rule_hits-IsOrdered, IsOrdered-IsDistinct,
}
use sim_mdms_auto.Vee.Baseline.{
  any_blocking, status_after, set_initial_status, has_active_blocking_vee_exception,
  evaluate_or_get_vee_baseline, open_all, create_or_get_vee_exception,
  refresh_initial_measurement_status,
}
use sim_mdms_auto.Vee.Actions.{
  ok, Operator, resolve_vee_exception_row, resolve_all, active_exceptions, reevaluate_row,
  reevaluate_initial_measurement,
}
use sim_mdms_auto.Vee.Reach.{reevaluated_from}
use sim_mdms_auto.Vee.Blocking.{active_of, blocking_of, has_blocking-any, AreNew, open_all-blocking}

-- active, and not among the rows that are still to be resolved
abbrev left_over : ℕ → List VeeException → VeeException → Bool
left_over n es x = active_of n x && not (any (λ e. e.id == x.id) es)

resolve_row-left_over :
    (now n : ℕ) (e : VeeException) (es : List VeeException) (op : Operator) (db : Db)
    → any (left_over n (e ∷ es)) db.exceptions ≡ false
    → any
        (left_over n es)
        (resolve_vee_exception_row now e (codes "re_evaluated_superseded") op db).exceptions
      ≡ false
unfolding resolve_vee_exception_row refresh_initial_measurement_status modify
resolve_row-left_over now n e es op db h =
    any-update_where (left_over n (e ∷ es)) (left_over n es) (λ x. x.id == e.id) _ db.exceptions
      (λ x q. elim (Bool-cases (x.id == e.id)) [
        | inl c ↦ absurd (let q' = (rw c at q) in ground arith)
        | inr c ↦ let q' = (rw c at q) in ground arith
      ])
      h

resolve_all-none_left :
    (now n : ℕ) (op : Operator) (es : List VeeException) (db : Db)
    → any (left_over n es) db.exceptions ≡ false
    → any (active_of n) (resolve_all now op es db).exceptions ≡ false
unfolding resolve_all
resolve_all-none_left now n op [] db h = any-imp _ _ db.exceptions (λ x q. ground arith) h
resolve_all-none_left now n op (e ∷ es) db h =
    resolve_all-none_left now n op es _ (resolve_row-left_over now n e es op db h)

among_active :
    (n : ℕ) (x : VeeException) (db : Db)
    → any (λ e. e.id == x.id) (active_exceptions n db)
      ≡ any (λ e. active_of n e && e.id == x.id) db.exceptions
unfolding active_exceptions
among_active n x db =
    any-order_by (λ e. e.id == x.id) by_id (select (active_of n) db.exceptions)
    ∙ any-select (λ e. e.id == x.id) (active_of n) db.exceptions

active_found : (n : ℕ) (db : Db) → any (left_over n (active_exceptions n db)) db.exceptions ≡ false
active_found n db = All-any-false _ db.exceptions (
    All-mono _ _ db.exceptions (λ x found. ground (arith, found, among_active n x db, ==_refl x.id))
      (any_self (λ x e. active_of n e && e.id == x.id) db.exceptions))

-- once nothing is active, the codes of all hits are new
none_active-AreNew :
    (n : ℕ) (hits : List VeeRuleHit) (db : Db)
    → any (active_of n) db.exceptions ≡ false
    → AreNew n hits db
none_active-AreNew n [] db h = tt
none_active-AreNew n (k ∷ ks) db h =
    (any-imp _ _ db.exceptions (λ x q. ground arith) h, none_active-AreNew n ks db h)

initials-create_or_get :
    (now : ℕ) (row : InitialMeasurement) (x : VeeExecutionLog) (h : VeeRuleHit) (db : Db)
    → (create_or_get_vee_exception now row x h db).0.initials ≡ db.initials
unfolding create_or_get_vee_exception
initials-create_or_get now row x h db = ground arith

initials-open_all :
    (now : ℕ) (row : InitialMeasurement) (x : VeeExecutionLog) (hits : List VeeRuleHit) (db : Db)
    → (open_all now row x hits db).initials ≡ db.initials
unfolding open_all
initials-open_all now row x [] db = refl
initials-open_all now row x (h ∷ hs) db =
    initials-open_all now row x hs _ ∙ initials-create_or_get now row x h db

resolve_all-keeps_row :
    (now n : ℕ) (op : Operator) (es : List VeeException) (db : Db)
    → is_some (get n (resolve_all now op es db).initials) ≡ is_some (get n db.initials)
unfolding resolve_all resolve_vee_exception_row refresh_initial_measurement_status
resolve_all-keeps_row now n op [] db = refl
resolve_all-keeps_row now n op (e ∷ es) db =
    resolve_all-keeps_row now n op es _
    ∙ get-modify_some e.initial_measurement_id n _ db.initials (λ x. refl)

-- the status of a measurement in a database
abbrev pub StatusAgrees : ℕ → Db → Type 0
StatusAgrees n db =
    (r : InitialMeasurement) × (get n db.initials ≡ some r)
    × (r.initial_status ≡ (
        if has_active_blocking_vee_exception db n
        then InitialStatus.exception
        else InitialStatus.accepted))

module _ (now : ℕ) (row : InitialMeasurement) (x : VeeExecutionLog) (hits : List VeeRuleHit)
    (db : Db) (d : IsDistinct hits) (quiet : any (active_of row.id) db.exceptions ≡ false) where
  opened_blocking :
      has_active_blocking_vee_exception (open_all now row x hits db) row.id ≡ any_blocking hits
  opened_blocking =
      has_blocking-any (open_all now row x hits db) row.id
      ∙ open_all-blocking now row x hits db d (none_active-AreNew row.id hits db quiet)
      ∙ rw (
          any-imp (blocking_of row.id) (active_of row.id) db.exceptions (λ e q. ground arith) quiet)

opened_status :
    (now : ℕ) (row : InitialMeasurement) (x : VeeExecutionLog) (hits : List VeeRuleHit) (db : Db)
    → IsDistinct hits
    → any (active_of row.id) db.exceptions ≡ false
    → is_some (get row.id db.initials) ≡ true
    → StatusAgrees row.id
        (open_all now row x hits (set_initial_status row.id (status_after hits) db))
opened_status now row x hits db d quiet there = elim (Option-cases (get row.id db.initials)) [
  | inl e ↦ absurd (ground arith)
  | inr (r, e) ↦ (
    record r { initial_status = status_after hits },
    rw (initials-open_all now row x hits (set_initial_status row.id (status_after hits) db)) (
        ground (
          arith,
          get-modify row.id row.id (λ y. record y { initial_status = status_after hits })
              db.initials (λ y. refl),
          ==_refl row.id,
        )),
    rw (opened_blocking now row x hits (set_initial_status row.id (status_after hits) db) d quiet)
        refl,
  )
]

forced_status :
    (now : ℕ) (row : InitialMeasurement) (run : Option ℕ) (trigger : Text) (db : Db)
    → any (active_of row.id) db.exceptions ≡ false
    → is_some (get row.id db.initials) ≡ true
    → StatusAgrees row.id (evaluate_or_get_vee_baseline now row run trigger true db).0
unfolding evaluate_or_get_vee_baseline
forced_status now row run trigger db quiet there =
    opened_status now row _ _ _
      (IsOrdered-IsDistinct 0 _ (evaluate_initial_measurement_rule_hits-IsOrdered db row _)) quiet
      there

reevaluate_row-StatusAgrees :
    (now : ℕ) (row : InitialMeasurement) (op : Operator) (db : Db)
    → is_some (get row.id db.initials) ≡ true
    → StatusAgrees row.id (reevaluate_row now row op db).0
unfolding reevaluate_row has_active_blocking_vee_exception exceptions_of
reevaluate_row-StatusAgrees now row op db there =
    let es = active_exceptions row.id db in
    let resolved = resolve_all now op es db in
    forced_status now row none (codes "manual_re_evaluate")
      (set_initial_status row.id InitialStatus.ready resolved)
      (resolve_all-none_left now row.id op es db (active_found row.id db))
      (get-modify_some row.id row.id _ resolved.initials (λ y. refl)
        ∙ resolve_all-keeps_row now row.id op es db
        ∙ there)

-- After a successful re-evaluation the measurement is still there, and its status is `exception`
-- exactly if an active exception of it blocks finalization, and `accepted` otherwise.
pub reevaluate_initial_measurement-StatusAgrees :
    (now n : ℕ) (op : Operator) (x : VeeExecutionLog) (db db' : Db)
    → reevaluate_initial_measurement now n op db ≡ ok (db', x)
    → StatusAgrees n db'
reevaluate_initial_measurement-StatusAgrees now n op x db db' h =
    let (row, q, e) = reevaluated_from now n op x db db' h in
    subst (StatusAgrees n) e (
      subst (λ m. StatusAgrees m (reevaluate_row now row op db).0) (get_sound n db.initials row q)
        (reevaluate_row-StatusAgrees now row op db
          (rw (get_sound n db.initials row q) (rw q refl))))
