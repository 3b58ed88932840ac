-- ===== src/Billing/Loop.antt =====
-- Lemmas on the loop of app/services/bill_determinants.py and app/services/bill_charges.py: all rows.
use sim_mdms_auto.Prelude.{
  ℕ, Bool, true, false, ◌&&◌, Option, none, some, List, [], ◌∷◌, ◌++◌, ◌≡◌, ◌≢◌, refl, sym, ap, ◌∙◌,
  arith, All, All-both, All-mono, any, any_self, any-append, any-count, any-select, All-scalar,
  count, select, scalar, scalar_sound, scalar-none, HasId, Bool-cases, Option-cases, inl, inr,
}
use sim_mdms_auto.Billing.Revisions.{
  Revising, Progress, count_status, find_current, revise_rows, revise_from, revise_all,
}
use sim_mdms_auto.Billing.Laws.{
  IsRevising, IsRevised, agrees_with, settled, find_current-scalar, made-IsRevised,
  supersede-IsRevised, supersede-frame, other_key, select-append_fail,
}

module _ {U K P A : Type 0} ⦃k : HasId A⦄ (g : Revising U K P A) (law : IsRevising g) where
  no_current :
      (u : U) (rows : List A)
      → IsRevised g.current rows
      → scalar (λ _ _. false) (g.current (g.key u)) rows ≡ none
      → count (g.current (g.key u)) rows ≡ 0
  no_current u rows v e = any-count _ rows (scalar-none _ _ rows e)

  settled-made :
      (u : U) (p : P) (n : ℕ) (o : Option A) (rows : List A)
      → g.payload u ≡ some p
      → settled g law u (rows ++ g.make u p n o ∷ []) ≡ true
  settled-made u p n o rows e = rw e (
      any-select (g.same u p) (g.current (g.key u)) (rows ++ g.make u p n o ∷ [])
      ∙ (any-append (λ x. g.current (g.key u) x && g.same u p x) rows (g.make u p n o ∷ [])
          ∙ ground (arith, law.made_current u p n o, law.made_same u p n o)))

  settled-found :
      (u : U) (p : P) (r : A) (rows : List A)
      → g.payload u ≡ some p
      → scalar (λ _ _. false) (g.current (g.key u)) rows ≡ some r
      → g.same u p r ≡ true
      → settled g law u rows ≡ true
  settled-found u p r rows e f h = rw e (
      any-select (g.same u p) (g.current (g.key u)) rows
      ∙ All-scalar _ _ _ rows r (any_self (λ _ x. g.current (g.key u) x && g.same u p x) rows) f
          (ground (arith, scalar_sound _ _ rows r f)))

  -- what the step for one source row does to the table
  pub record IsStep (u : U) (rows rows' : List A) : Type 0 where
    pub revised : IsRevised g.current rows'
    pub frame : (t : K) → g.key u ≢ t → select (g.current t) rows' ≡ select (g.current t) rows
    pub done : settled g law u rows' ≡ true

  module _ (u : U) (p : P) (pay : g.payload u ≡ some p) where
    revise_rows-IsStep :
        (o : Option A) (s : Progress A)
        → IsRevised g.current s.rows
        → scalar (λ _ _. false) (g.current (g.key u)) s.rows ≡ o
        → IsStep u s.rows (revise_rows g u p o s).rows
    unfolding revise_rows
    revise_rows-IsStep none s v f = record {
      revised = made-IsRevised g law u p none s.rows v (no_current u s.rows v f);
      frame = λ t d. select-append_fail (g.current t) s.rows _ (other_key g law u p t _ none d);
      done = settled-made u p _ none s.rows pay;
    }
    revise_rows-IsStep (some r) s v f = elim (Bool-cases (g.same u p r)) [
      | inl e ↦
          rw e
            (record { revised = v; frame = λ t d. refl; done = settled-found u p r s.rows pay f e })
      | inr e ↦ rw e (record {
        revised = supersede-IsRevised g law u p r s.rows v f;
        frame = supersede-frame g law u p r s.rows v f;
        done = settled-made u p _ (some r) _ pay;
      })
    ]

    revise_from-IsStep :
        (stored : List A) (s : Progress A)
        → IsRevised g.current s.rows
        → select (g.current (g.key u)) stored ≡ select (g.current (g.key u)) s.rows
        → IsStep u s.rows (revise_from g stored u p s).rows
    unfolding revise_from
    revise_from-IsStep stored s v e =
        revise_rows-IsStep (find_current g u stored s.rows)
          (record s { tally = count_status (g.status p) s.tally }) v
          (sym (find_current-scalar g law u stored s.rows v.ids e))

  -- no two source rows have the same key
  abbrev pub Distinct : List U → Type 0
  Distinct [] = Unit
  Distinct (u ∷ us) = All (λ w. g.key u ≢ g.key w) us × Distinct us

  -- the queries of the source rows still to come find what was stored when the run began
  abbrev pub Fresh : List A → List A → List U → Type 0
  Fresh stored rows us =
      All (λ u. select (g.current (g.key u)) stored ≡ select (g.current (g.key u)) rows) us

  pub record IsRun (us : List U) (rows : List A) (result : Progress A × Bool) : Type 0 where
    pub revised : IsRevised g.current result.0.rows
    pub frame :
        (t : K)
        → All (λ u. g.key u ≢ t) us
        → select (g.current t) result.0.rows ≡ select (g.current t) rows
    pub done : result.1 ≡ true → All (λ u. settled g law u result.0.rows ≡ true) us

  pub revise_all-IsRun :
      (stored : List A) (us : List U) (s : Progress A)
      → Distinct us
      → IsRevised g.current s.rows
      → Fresh stored s.rows us
      → IsRun us s.rows (revise_all g stored us s)
  unfolding revise_all
  revise_all-IsRun stored [] s d v e = record { revised = v; frame = λ t h. refl; done = λ h. tt }
  revise_all-IsRun stored (u ∷ us) s d v e = elim (Option-cases (g.payload u)) [
    | inl n ↦
        rw (n, revise_all) (record { revised = v; frame = λ t h. refl; done = λ h. absurd (cc) })
    | inr (p, q) ↦
        let one = revise_from-IsStep u p q stored s v e.0 in
        let fresh =
          All-both _ _ _ us (λ w (a : g.key u ≢ g.key w) b. b ∙ sym (one.frame (g.key w) a)) d.0
            e.1 in
        let rest = revise_all-IsRun stored us (revise_from g stored u p s) d.1 one.revised fresh in
        rw (q, revise_all)
          (record {
            revised = rest.revised;
            frame = λ t h. rest.frame t h.1 ∙ one.frame t h.0;
            done = λ h. (
              ap (any (agrees_with g law u (g.payload u))) (
                    rest.frame (g.key u)
                      (All-mono _ _ us (λ w (a : g.key u ≢ g.key w) b. a (sym b)) d.0))
                  ∙ one.done,
              rest.done h,
            );
          })
  ]
