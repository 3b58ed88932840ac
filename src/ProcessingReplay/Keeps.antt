-- ===== src/ProcessingReplay/Keeps.antt =====
-- Lemmas on app/services/processing_replay.py: what usage keeps, the recalculation of windows keeps.
use sim_mdms_auto.Prelude.{
  ℕ, Option, some, List, [], ◌∷◌, ◌++◌, Text, ◌≡◌, subst, Bool-cases, Option-cases, inl, inr, ◌==◌,
}
use mathlib.Core.Option.{some-injective}
use sim_mdms_auto.Model.{FinalMeasurement}
use sim_mdms_auto.Billing.Rows.{UsageTransaction}
use sim_mdms_auto.Billing.Store.{BillingDb, Filters}
use sim_mdms_auto.Usage.Windows.{Zones, UsageType, usage_code}
use sim_mdms_auto.Usage.Calculate.{UsageResult, calculate_usage_transactions}
use sim_mdms_auto.ProcessingReplay.Windows.{
  UsageWindowScope, Recalculation, UsageReplay, after_usage, recalculate_window,
  recalculate_windows, delete_usage_transaction_for_window, count_current_finals_in_window,
  window_filters, get_usage_transaction_for_window, recalculate_impacted_usage_windows,
  impacted_windows, given, bind_option, begin_windows, replayed,
}

module _ (zones : Zones) (now : ℕ) (Q : BillingDb → Type 0)
    (calculated : (type : Text) (q : Filters) (trigger : Text) (db : BillingDb)
      → Q db
      → Q (calculate_usage_transactions zones now type q trigger db).0)
    (deleted : (w : UsageWindowScope) (s : Recalculation)
      → Q s.db
      → Q (delete_usage_transaction_for_window w s).db) where
  after_usage-keeps :
      (w : UsageWindowScope) (previous : Option UsageTransaction) (s s' : Recalculation)
      (result : BillingDb × UsageResult)
      → after_usage w previous s result ≡ some s'
      → Q result.0
      → Q s'.db
  after_usage-keeps w previous s s' (db, UsageResult.ok x) h q =
      subst (λ r. Q r.db) (some-injective _ _ h) q
  after_usage-keeps w previous s s' (db, UsageResult.unsupported_type) h q = absurd (cc)
  after_usage-keeps w previous s s' (db, UsageResult.failed_exception) h q = absurd (cc)
  after_usage-keeps w previous s s' (db, UsageResult.failed_flush) h q = absurd (cc)

  recalculate_window-keeps :
      (trigger : Text) (w : UsageWindowScope) (s s' : Recalculation)
      → recalculate_window zones now trigger w s ≡ some s'
      → Q s.db
      → Q s'.db
  unfolding recalculate_window
  recalculate_window-keeps trigger w s s' h q =
      elim (Bool-cases (count_current_finals_in_window w s.db.core.finals == 0)) [
        | inl e ↦ subst (λ r. Q r.db) (some-injective _ _ (rw e at h)) (deleted w s q)
        | inr e ↦
            after_usage-keeps w (get_usage_transaction_for_window w s.db.usages) s s' _ (rw e at h)
              (calculated (usage_code w.usage_type) (window_filters w) trigger s.db q)
      ]

  recalculate_windows-keeps :
      (trigger : Text) (ws : List UsageWindowScope) (s s' : Recalculation)
      → recalculate_windows zones now trigger ws s ≡ some s'
      → Q s.db
      → Q s'.db
  unfolding recalculate_windows
  recalculate_windows-keeps trigger [] s s' h q = subst (λ r. Q r.db) (some-injective _ _ h) q
  recalculate_windows-keeps trigger (w ∷ ws) s s' h q =
      elim (Option-cases (recalculate_window zones now trigger w s)) [
        | inl e ↦ absurd (cc (rw (e, recalculate_windows) at h))
        | inr (r, e) ↦
            recalculate_windows-keeps trigger ws r s' (rw (e, recalculate_windows) at h)
              (recalculate_window-keeps trigger w s r e q)
      ]

  both_types-keeps :
      (trigger : Text) (daily monthly : List UsageWindowScope) (db : BillingDb) (u : UsageReplay)
      → bind_option (recalculate_windows zones now trigger daily (begin_windows db [])) (λ d.
        bind_option
          (recalculate_windows zones now trigger monthly (begin_windows d.db d.results))
          (λ m. some (replayed d m)))
        ≡ some u
      → Q db
      → Q u.db
  both_types-keeps trigger daily monthly db u h q =
      elim (Option-cases (recalculate_windows zones now trigger daily (begin_windows db []))) [
        | inl e ↦ absurd (cc (rw e at h))
        | inr (d, e) ↦
            let h1 = rw e at h in
            let q1 = recalculate_windows-keeps trigger daily (begin_windows db []) d e q in
            elim (Option-cases
              (recalculate_windows zones now trigger monthly (begin_windows d.db d.results))) [
                | inl e' ↦ absurd (cc (rw e' at h1))
                | inr (m, e') ↦
                    subst (λ r. Q r.db) (some-injective _ _ (rw e' at h1))
                      (recalculate_windows-keeps trigger monthly (begin_windows d.db d.results) m e'
                        q1)
              ]
      ]

  -- what the calculation of usage and the deletion of a row keep, a recalculation that succeeds keeps
  pub recalculate-keeps :
      (previous current : Option FinalMeasurement) (trigger : Text) (db : BillingDb)
      (u : UsageReplay)
      → recalculate_impacted_usage_windows zones now previous current trigger db ≡ some u
      → Q db
      → Q u.db
  unfolding recalculate_impacted_usage_windows
  recalculate-keeps previous current trigger db u h q =
      let finals = given previous ++ given current in
      elim (Option-cases (impacted_windows zones db UsageType.daily finals [])) [
        | inl e ↦ absurd (cc (rw e at h))
        | inr (daily, e) ↦
            let h1 = rw e at h in
            elim (Option-cases (impacted_windows zones db UsageType.monthly finals [])) [
              | inl e' ↦ absurd (cc (rw e' at h1))
              | inr (monthly, e') ↦ both_types-keeps trigger daily monthly db u (rw e' at h1) q
            ]
      ]
