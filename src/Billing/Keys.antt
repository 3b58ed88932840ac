-- ===== src/Billing/Keys.antt =====
-- Lemmas on the source rows of app/services/bill_determinants.py and app/services/bill_charges.py:
-- their keys are distinct.
use sim_mdms_auto.Prelude.{
  ◌+◌, ◌≤◌, Bool, true, false, List, [], ◌∷◌, ◌≡◌, refl, arith, if◌then◌else◌, All, any-false-All,
  All-both, count, count-zero_any, select, insert_by, order_by, HasId, Bool-cases, inl, inr,
}
use sim_mdms_auto.Billing.Revisions.{Revising, Progress, revise_all}
use sim_mdms_auto.Billing.Laws.{IsRevising, IsRevised}
use sim_mdms_auto.Billing.Loop.{Distinct, IsRun, revise_all-IsRun}

module _ {A : Type 0} where
  count-insert_by :
      (q : A → Bool) (before : A → A → Bool) (x : A) (xs : List A)
      → count q (insert_by before x xs) ≡ (if q x then 1 else 0) + count q xs
  unfolding insert_by
  count-insert_by q before x [] = refl
  count-insert_by q before x (y ∷ ys) = elim (Bool-cases (before y x)) [
    | inl e ↦ rw e (omega (arith, count-insert_by q before x ys))
    | inr e ↦ rw e refl
  ]

  pub count-order_by :
      (q : A → Bool) (before : A → A → Bool) (xs : List A)
      → count q (order_by before xs) ≡ count q xs
  unfolding order_by
  count-order_by q before [] = refl
  count-order_by q before (x ∷ xs) =
      omega (arith, count-insert_by q before x (order_by before xs), count-order_by q before xs)

  pub count-select-le : (q p : A → Bool) (xs : List A) → count q (select p xs) ≤ count q xs
  unfolding select
  count-select-le q p [] = omega arith
  count-select-le q p (x ∷ xs) = elim (Bool-cases (p x)) [
    | inl e ↦ rw e (omega (arith, count-select-le q p xs))
    | inr e ↦ rw e (omega (arith, count-select-le q p xs))
  ]

  All-each {κ} : (Q : A → Type κ) (xs : List A) → ((x : A) → Q x) → All Q xs
  All-each Q [] h = tt
  All-each Q (x ∷ xs) h = (h x, All-each Q xs h)

module _ {U K P A : Type 0} ⦃k : HasId A⦄ (g : Revising U K P A) (law : IsRevising g) where
  -- source rows of which each test passes at most one have distinct keys, where the test of a row
  -- passes the rows with its key
  pub Distinct-count :
      (q : U → U → Bool) (W : U → Type 0) (us : List U)
      → ((u w : U) → W u → W w → g.key u ≡ g.key w → q u w ≡ true)
      → ((u : U) → count (q u) us ≤ 1)
      → All W us
      → Distinct g law us
  Distinct-count q W [] same one h = tt
  Distinct-count q W (u ∷ us) same one h =
      let own = same u u h.0 h.0 refl in
      let others : count (q u) us ≡ 0 = omega (arith, rw own at (one u)) in
      (
        All-both _ _ _ us (λ w (a : q u w ≡ false) b e. cc (a, same u w h.0 b e))
            (any-false-All (q u) us (count-zero_any (q u) us others)) h.1,
        Distinct-count q W us same (λ w. omega (arith, one w)) h.1,
      )

  -- a loop that starts from the stored table
  pub from_stored-IsRun :
      (us : List U) (s : Progress A)
      → Distinct g law us
      → IsRevised g.current s.rows
      → IsRun g law us s.rows (revise_all g s.rows us s)
  from_stored-IsRun us s d v = revise_all-IsRun g law s.rows us s d v (All-each _ us (λ u. refl))
