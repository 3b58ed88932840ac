-- ===== src/Billing/Tallies.antt =====
-- Lemmas on the loop of app/services/bill_determinants.py and app/services/bill_charges.py: what it
-- counts, and a loop over rows that are settled.
use sim_mdms_auto.Prelude.{
  ℕ, suc, ◌+◌, ◌≤◌, Bool, true, false, Option, none, some, List, [], ◌∷◌, ◌≡◌, refl, sym, subst,
  ◌∙◌, arith, All, any, length, length-select, select, scalar, first_by, HasId, Bool-cases,
  Option-cases, inl, inr,
}
use sim_mdms_auto.Billing.Revisions.{
  CalculationStatus, Revising, Progress, Tally, count_status, find_current, revise_rows,
  revise_from, revise_all,
}
use sim_mdms_auto.Billing.Laws.{IsRevising, IsRevised, settled, find_current-scalar}

abbrev pub outcomes : Tally → ℕ
outcomes t = t.created + t.superseded + t.reused

abbrev pub statuses : Tally → ℕ
statuses t = t.complete + t.partial + t.blocked

statuses_count :
    (c : CalculationStatus) (t : Tally)
    → (statuses (count_status c t) ≡ suc (statuses t)) × (outcomes (count_status c t) ≡ outcomes t)
statuses_count CalculationStatus.complete t = (omega arith, refl)
statuses_count CalculationStatus.partial t = (omega arith, refl)
statuses_count CalculationStatus.blocked t = (omega arith, refl)

only-first :
    {A : Type 0} (before : A → A → Bool) (t : A → Bool) (xs : List A)
    → length xs ≤ 1
    → any t xs ≡ true
    → (r : A) × (first_by before xs ≡ some r) × (t r ≡ true)
unfolding first_by
only-first before t [] l h = absurd (cc)
only-first before t (x ∷ []) l h = (x, refl, ground arith)
only-first before t (x ∷ y ∷ xs) l h = absurd (omega arith)

same_outcomes :
    (c : CalculationStatus) (t : Tally)
    → ((count_status c t).created ≡ t.created)
      × ((count_status c t).superseded ≡ t.superseded)
      × ((count_status c t).reused ≡ t.reused)
same_outcomes CalculationStatus.complete t = (refl, refl, refl)
same_outcomes CalculationStatus.partial t = (refl, refl, refl)
same_outcomes CalculationStatus.blocked t = (refl, refl, refl)

-- the second progress is the first with this many reused rows more
pub record IsReuse {A : Type 0} (n : ℕ) (s s' : Progress A) : Type 0 where
  pub rows : s'.rows ≡ s.rows
  pub created : s'.tally.created ≡ s.tally.created
  pub superseded : s'.tally.superseded ≡ s.tally.superseded
  pub reused : s'.tally.reused ≡ s.tally.reused + n

module _ {U K P A : Type 0} ⦃k : HasId A⦄ (g : Revising U K P A) where
  revise_rows-outcomes :
      (u : U) (p : P) (o : Option A) (s : Progress A)
      → (outcomes (revise_rows g u p o s).tally ≡ suc (outcomes s.tally))
        × (statuses (revise_rows g u p o s).tally ≡ statuses s.tally)
  unfolding revise_rows
  revise_rows-outcomes u p none s = (omega arith, refl)
  revise_rows-outcomes u p (some r) s = elim (Bool-cases (g.same u p r)) [
    | inl e ↦ rw e (omega arith, refl)
    | inr e ↦ rw e (omega arith, refl)
  ]

  revise_from-outcomes :
      (stored : List A) (u : U) (p : P) (s : Progress A)
      → (outcomes (revise_from g stored u p s).tally ≡ suc (outcomes s.tally))
        × (statuses (revise_from g stored u p s).tally ≡ suc (statuses s.tally))
  unfolding revise_from
  revise_from-outcomes stored u p s =
      let counted : Progress A = record s { tally = count_status (g.status p) s.tally } in
      let a = revise_rows-outcomes u p (find_current g u stored s.rows) counted in
      let b = statuses_count (g.status p) s.tally in
      (omega (arith, a.0, b.1), omega (arith, a.1, b.0))

  -- a loop that comes to its end counts each source row once by outcome and once by status
  pub revise_all-counts :
      (stored : List A) (us : List U) (s : Progress A)
      → (revise_all g stored us s).1 ≡ true
      → (outcomes (revise_all g stored us s).0.tally ≡ outcomes s.tally + length us)
        × (statuses (revise_all g stored us s).0.tally ≡ statuses s.tally + length us)
  unfolding revise_all
  revise_all-counts stored [] s h = (omega arith, omega arith)
  revise_all-counts stored (u ∷ us) s h = elim (Option-cases (g.payload u)) [
    | inl n ↦ absurd (ground (arith, rw (n, revise_all) at h))
    | inr (p, q) ↦
        let a = revise_from-outcomes stored u p s in
        let b =
          revise_all-counts stored us (revise_from g stored u p s) (rw (q, revise_all) at h) in
        rw (q, revise_all) (omega (arith, a.0, b.0), omega (arith, a.1, b.1))
  ]

  module _ (law : IsRevising g) where
    settled-payload :
        (u : U) (rows : List A) → settled g law u rows ≡ true → (p : P) × (g.payload u ≡ some p)
    settled-payload u rows h = elim (Option-cases (g.payload u)) [
      | inl n ↦ absurd (cc (rw n at h, none-agrees (select (g.current (g.key u)) rows)))
      | inr pq ↦ pq
    ]
      where
        none-agrees : (xs : List A) → any (λ _. false) xs ≡ false
        none-agrees [] = refl
        none-agrees (x ∷ xs) = none-agrees xs

    settled-found :
        (u : U) (p : P) (rows : List A)
        → IsRevised g.current rows
        → g.payload u ≡ some p
        → settled g law u rows ≡ true
        → (r : A) × (scalar (λ _ _. false) (g.current (g.key u)) rows ≡ some r)
          × (g.same u p r ≡ true)
    unfolding scalar
    settled-found u p rows v q h =
        only-first _ (g.same u p) (select (g.current (g.key u)) rows)
          (omega (arith, length-select (g.current (g.key u)) rows, v.one_current (g.key u)))
          (rw q at h)

    revise_from-IsReuse :
        (u : U) (p : P) (s : Progress A)
        → IsRevised g.current s.rows
        → g.payload u ≡ some p
        → settled g law u s.rows ≡ true
        → IsReuse 1 s (revise_from g s.rows u p s)
    unfolding revise_from revise_rows
    revise_from-IsReuse u p s v q h =
        let (r, f, e) = settled-found u p s.rows v q h in
        let c = same_outcomes (g.status p) s.tally in
        rw (find_current-scalar g law u s.rows s.rows v.ids refl) (
          rw f (
            rw e (record {
              rows = refl;
              created = c.0;
              superseded = c.1;
              reused = omega (arith, c.2);
            })))

    -- where every source row is settled, the loop comes to its end and reuses the current rows
    pub revise_all-IsReuse :
        (us : List U) (s : Progress A)
        → IsRevised g.current s.rows
        → All (λ u. settled g law u s.rows ≡ true) us
        → IsReuse (length us) s (revise_all g s.rows us s).0 × ((revise_all g s.rows us s).1 ≡ true)
    unfolding revise_all
    revise_all-IsReuse [] s v h =
        (record { rows = refl; created = refl; superseded = refl; reused = omega arith }, refl)
    revise_all-IsReuse (u ∷ us) s v h =
        let (p, q) = settled-payload u s.rows h.0 in
        let one = revise_from-IsReuse u p s v q h.0 in
        let next = revise_from g s.rows u p s in
        let rest : IsReuse (length us) next (revise_all g next.rows us next).0
            × ((revise_all g next.rows us next).1 ≡ true) =
          revise_all-IsReuse us next (subst (IsRevised g.current) (sym one.rows) v)
            (subst (λ rows. All (λ w. settled g law w rows ≡ true) us) (sym one.rows) h.1) in
        let rest' : IsReuse (length us) next (revise_all g s.rows us next).0
            × ((revise_all g s.rows us next).1 ≡ true) =
          subst
            (λ rows.
              IsReuse (length us) next (revise_all g rows us next).0
              × ((revise_all g rows us next).1 ≡ true))
            one.rows rest in
        rw (q, revise_all)
          (
            record {
              rows = rest'.0.rows ∙ one.rows;
              created = rest'.0.created ∙ one.created;
              superseded = rest'.0.superseded ∙ one.superseded;
              reused = omega (arith, rest'.0.reused, one.reused);
            },
            rest'.1,
          )
