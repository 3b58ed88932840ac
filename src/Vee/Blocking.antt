-- ===== src/Vee/Blocking.antt =====
-- Lemmas on app/services/vee.py: blocking exceptions before and after the hits are opened.
use sim_mdms_auto.Prelude.{
  ℕ, Bool, false, ◌&&◌, ◌||◌, none, List, [], ◌∷◌, ◌++◌, ◌≡◌, ◌==◌, arith, All, any, any-append,
  any-select, scalar, scalar-of-none, by_id, next_id,
}
use sim_mdms_auto.Model.{
  InitialMeasurement, VeeExecutionLog, VeeException, same_code, vee_exception_id,
}
use sim_mdms_auto.Store.{Db, exceptions_of}
use sim_mdms_auto.Vee.Rules.{VeeRuleHit}
use sim_mdms_auto.Vee.Hits.{IsDistinct}
use sim_mdms_auto.Vee.Baseline.{
  same_active, is_active_blocking, is_vee_exception_active, any_blocking, new_exception,
  create_or_get_vee_exception, open_all, has_active_blocking_vee_exception,
}

-- the exceptions of a measurement that are active
abbrev pub active_of : ℕ → VeeException → Bool
active_of n e = e.initial_measurement_id == n && is_vee_exception_active e

-- those that block, too
abbrev pub blocking_of : ℕ → VeeException → Bool
blocking_of n e = e.initial_measurement_id == n && is_active_blocking e

pub has_blocking-any :
    (db : Db) (n : ℕ) → has_active_blocking_vee_exception db n ≡ any (blocking_of n) db.exceptions
unfolding has_active_blocking_vee_exception exceptions_of
has_blocking-any db n =
    any-select is_active_blocking (λ e. e.initial_measurement_id == n) db.exceptions

-- no active exception of this measurement has the code of one of these hits
abbrev pub AreNew : ℕ → List VeeRuleHit → Db → Type 0
AreNew n hits db = All (λ h. any (same_active n h.exception_code) db.exceptions ≡ false) hits

module _ (now : ℕ) (row : InitialMeasurement) (x : VeeExecutionLog) (h : VeeRuleHit) (db : Db)
    (is_new : any (same_active row.id h.exception_code) db.exceptions ≡ false) where
  none_found : scalar by_id (same_active row.id h.exception_code) db.exceptions ≡ none
  none_found = scalar-of-none by_id _ db.exceptions is_new

  exceptions-create_new :
      (create_or_get_vee_exception now row x h db).0.exceptions
      ≡ db.exceptions ++ new_exception now (next_id db.exceptions) row x h ∷ []
  unfolding create_or_get_vee_exception
  exceptions-create_new = rw none_found

  create_new-blocking :
      any (blocking_of row.id) (create_or_get_vee_exception now row x h db).0.exceptions
      ≡ (any (blocking_of row.id) db.exceptions || h.blocking_finalization)
  create_new-blocking =
      rw exceptions-create_new (rw (any-append (blocking_of row.id) db.exceptions) (ground arith))

  create_new-AreNew :
      (hs : List VeeRuleHit)
      → All (λ k. same_code h.exception_code k.exception_code ≡ false) hs
      → AreNew row.id hs db
      → AreNew row.id hs (create_or_get_vee_exception now row x h db).0
  create_new-AreNew [] d a = tt
  create_new-AreNew (k ∷ ks) d a = (
    rw exceptions-create_new (
        rw (any-append (same_active row.id k.exception_code) db.exceptions)
          (ground (arith, a.0, d.0))),
    create_new-AreNew ks d.1 a.1,
  )

-- Opening new hits with distinct codes blocks the measurement exactly if it was blocked or a hit
-- blocks.
pub open_all-blocking :
    (now : ℕ) (row : InitialMeasurement) (x : VeeExecutionLog) (hits : List VeeRuleHit) (db : Db)
    → IsDistinct hits
    → AreNew row.id hits db
    → any (blocking_of row.id) (open_all now row x hits db).exceptions
      ≡ (any (blocking_of row.id) db.exceptions || any_blocking hits)
unfolding open_all
open_all-blocking now row x [] db d a = ground arith
open_all-blocking now row x (h ∷ hs) db d a = ground (
  arith,
  open_all-blocking now row x hs (create_or_get_vee_exception now row x h db).0 d.1
      (create_new-AreNew now row x h db a.0 hs d.0 a.1),
  create_new-blocking now row x h db a.0,
)
