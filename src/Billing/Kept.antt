-- ===== src/Billing/Kept.antt =====
-- Lemmas on the loop of app/services/bill_determinants.py and app/services/bill_charges.py: what
-- holds of every row of the table.
use sim_mdms_auto.Prelude.{
  ℕ, Option, none, some, List, [], ◌∷◌, ◌==◌, All, All-append, All-update_where, modify, next_id,
  HasId, Bool-cases, Option-cases, inl, inr, if◌then◌else◌,
}
use sim_mdms_auto.Billing.Revisions.{
  Revising, Progress, find_current, revise_rows, revise_from, revise_all,
}

module _ {U K P A : Type 0} ⦃k : HasId A⦄ (g : Revising U K P A) (Q : A → Type 0)
    (made : (u : U) (p : P) (n : ℕ) (o : Option A) → Q (g.make u p n o))
    (retired : (x : A) → Q x → Q (g.retire x)) where
  retire-All : (n : ℕ) (rows : List A) → All Q rows → All Q (modify n g.retire rows)
  unfolding modify
  retire-All n rows h = All-update_where Q Q (λ x. k.row_id x == n) g.retire rows (choose n) h
    where
      choose : (m : ℕ) (x : A) → Q x → Q (if k.row_id x == m then g.retire x else x)
      choose m x q = elim (Bool-cases (k.row_id x == m)) [
        | inl e ↦ rw e (retired x q)
        | inr e ↦ rw e q
      ]

  revise_rows-All :
      (u : U) (p : P) (o : Option A) (s : Progress A)
      → All Q s.rows
      → All Q (revise_rows g u p o s).rows
  unfolding revise_rows
  revise_rows-All u p none s h =
      All-append Q s.rows (g.make u p (next_id s.rows) none ∷ []) h (made u p _ none, tt)
  revise_rows-All u p (some r) s h = elim (Bool-cases (g.same u p r)) [
    | inl e ↦ rw e h
    | inr e ↦ rw e (
        All-append Q (modify (k.row_id r) g.retire s.rows) _ (retire-All (k.row_id r) s.rows h)
          (made u p _ (some r), tt))
  ]

  -- what every new row has and retirement keeps holds of every row after the loop
  pub revise_all-All :
      (stored : List A) (us : List U) (s : Progress A)
      → All Q s.rows
      → All Q (revise_all g stored us s).0.rows
  unfolding revise_all revise_from
  revise_all-All stored [] s h = h
  revise_all-All stored (u ∷ us) s h = elim (Option-cases (g.payload u)) [
    | inl e ↦ rw (e, revise_all) h
    | inr (p, e) ↦
        rw (e, revise_all)
          (revise_all-All stored us (revise_from g stored u p s)
            (revise_rows-All u p (find_current g u stored s.rows) _ h))
  ]
