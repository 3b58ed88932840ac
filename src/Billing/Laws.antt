-- ===== src/Billing/Laws.antt =====
-- Lemmas on the loop of app/services/bill_determinants.py and app/services/bill_charges.py: one row.
use sim_mdms_auto.Prelude.{
  ℕ, ◌≤◌, Bool, true, false, Option, none, some, List, [], ◌∷◌, ◌++◌, ◌≡◌, ◌≢◌, refl, sym, ap,
  subst, ◌∙◌, arith, if◌then◌else◌, All, any, All-scalar, count, count-append, count-modify_fail,
  count-update_where_fail, select, scalar, scalar_sound, first_by, get, get_self, get_unique,
  modify, update_where, next_id, HasId, HasUniqueIds, HasUniqueIds-insert, HasUniqueIds-modify,
  Bool-cases, Option-cases, inl, inr, ◌==◌,
}
use sim_mdms_auto.Billing.Revisions.{Revising, find_current, supersede}

-- the laws that the operations of a calculation keep
pub record IsRevising {U K P A : Type 0} ⦃k : HasId A⦄ (g : Revising U K P A) : Type 0 where
  pub retired : (s : K) (x : A) → g.current s (g.retire x) ≡ false
  pub retired_id : (x : A) → k.row_id (g.retire x) ≡ k.row_id x
  pub made_id : (u : U) (p : P) (n : ℕ) (o : Option A) → k.row_id (g.make u p n o) ≡ n
  pub made_current :
      (u : U) (p : P) (n : ℕ) (o : Option A) → g.current (g.key u) (g.make u p n o) ≡ true
  pub made_same : (u : U) (p : P) (n : ℕ) (o : Option A) → g.same u p (g.make u p n o) ≡ true
  pub one_key : (s t : K) (x : A) → g.current s x ≡ true → g.current t x ≡ true → s ≡ t

pub select-append_fail :
    {A : Type 0} (q : A → Bool) (xs : List A) (x : A)
    → q x ≡ false
    → select q (xs ++ x ∷ []) ≡ select q xs
unfolding select
select-append_fail q [] x h = rw h refl
select-append_fail q (y ∷ ys) x h = ground (arith, select-append_fail q ys x h)

module _ {A : Type 0} ⦃k : HasId A⦄ where
  select-modify_fail :
      (q : A → Bool) (n : ℕ) (f : A → A) (r : A) (xs : List A)
      → All (λ x. (k.row_id x == n) ≡ true → x ≡ r) xs
      → q r ≡ false
      → ((x : A) → q (f x) ≡ false)
      → select q (modify n f xs) ≡ select q xs
  unfolding select modify update_where
  select-modify_fail q n f r [] one h g = refl
  select-modify_fail q n f r (x ∷ xs) one h g = elim (Bool-cases (k.row_id x == n)) [
    | inl e ↦
        let same = subst (λ y. q y ≡ false) (sym (one.0 e)) h in
        rw e (rw same (rw (g x) (select-modify_fail q n f r xs one.1 h g)))
    | inr e ↦ rw e (ap (λ ys. if q x then x ∷ ys else ys) (select-modify_fail q n f r xs one.1 h g))
  ]

  -- ids are unique, and each key has at most one current row
  pub record IsRevised {K : Type 0} (current : K → A → Bool) (rows : List A) : Type 0 where
    pub ids : HasUniqueIds rows
    pub one_current : (s : K) → count (current s) rows ≤ 1

module _ {U K P A : Type 0} ⦃k : HasId A⦄ (g : Revising U K P A) (law : IsRevising g) where
  -- the row has the payload that the source row gives
  abbrev pub agrees_with : U → Option P → A → Bool
  agrees_with u none x = false
  agrees_with u (some p) x = g.same u p x

  -- the current row of the source row's key has its payload
  abbrev pub settled : U → List A → Bool
  settled u rows = any (agrees_with u (g.payload u)) (select (g.current (g.key u)) rows)

  -- the rows that a query finds at once, with no deferred write
  pub find_current-scalar :
      (u : U) (stored rows : List A)
      → HasUniqueIds rows
      → select (g.current (g.key u)) stored ≡ select (g.current (g.key u)) rows
      → find_current g u stored rows ≡ scalar (λ _ _. false) (g.current (g.key u)) rows
  unfolding find_current scalar
  find_current-scalar u stored rows ids e =
      rw e (elim (Option-cases (first_by (λ _ _. false) (select (g.current (g.key u)) rows))) [
        | inl n ↦ rw n refl
        | inr (r, f) ↦ rw f (
            unfold scalar in
            All-scalar _ (λ _ _. false) (g.current (g.key u)) rows r (get_self rows ids) f)
      ])

  module _ (u : U) (p : P) where
    pub other_key :
        (t : K) (n : ℕ) (o : Option A) → g.key u ≢ t → g.current t (g.make u p n o) ≡ false
    other_key t n o d = elim (Bool-cases (g.current t (g.make u p n o))) [
      | inl e ↦ absurd (d (law.one_key _ _ _ (law.made_current u p n o) e))
      | inr e ↦ e
    ]

    -- an insert of the new row where its key has no current row
    pub made-IsRevised :
        (o : Option A) (rows : List A)
        → IsRevised g.current rows
        → count (g.current (g.key u)) rows ≡ 0
        → IsRevised g.current (rows ++ g.make u p (next_id rows) o ∷ [])
    made-IsRevised o rows v z = record {
      ids = HasUniqueIds-insert rows _ (law.made_id u p (next_id rows) o) v.ids;
      one_current = λ s.
          rw (count-append (g.current s) rows (g.make u p (next_id rows) o ∷ []))
            (elim (Bool-cases (g.current s (g.make u p (next_id rows) o))) [
              | inl e ↦
                  let same = law.one_key s (g.key u) _ e (law.made_current u p (next_id rows) o) in
                  let none_current = subst (λ t. count (g.current t) rows ≡ 0) (sym same) z in
                  rw e (omega (arith, none_current))
              | inr e ↦ rw e (omega (arith, v.one_current s))
            ]);
    }

    module _ (r : A) (rows : List A) (v : IsRevised g.current rows)
        (f : scalar (λ _ _. false) (g.current (g.key u)) rows ≡ some r) where
      stored_row : get (k.row_id r) rows ≡ some r
      stored_row = All-scalar _ _ _ rows r (get_self rows v.ids) f

      was_current : g.current (g.key u) r ≡ true
      was_current = scalar_sound _ _ rows r f

      retired-IsRevised :
          IsRevised g.current (modify (k.row_id r) g.retire rows)
          × (count (g.current (g.key u)) (modify (k.row_id r) g.retire rows) ≡ 0)
      unfolding modify
      retired-IsRevised = (
        record {
          ids = HasUniqueIds-modify (k.row_id r) g.retire rows law.retired_id v.ids;
          one_current = λ s. omega (
            arith,
            v.one_current s,
            count-update_where_fail (g.current s) (λ x. k.row_id x == k.row_id r) g.retire rows
                (law.retired s),
          );
        },
        omega (
          arith,
          v.one_current (g.key u),
          count-modify_fail (g.current (g.key u)) (k.row_id r) g.retire r rows stored_row
              was_current (law.retired (g.key u)),
        ),
      )

      pub supersede-IsRevised : IsRevised g.current (supersede g u p r rows)
      supersede-IsRevised =
          made-IsRevised (some r) (modify (k.row_id r) g.retire rows) retired-IsRevised.0
            retired-IsRevised.1

      pub supersede-frame :
          (t : K)
          → g.key u ≢ t
          → select (g.current t) (supersede g u p r rows) ≡ select (g.current t) rows
      supersede-frame t d =
          select-append_fail (g.current t) (modify (k.row_id r) g.retire rows) _
            (other_key t _ (some r) d)
          ∙ select-modify_fail (g.current t) (k.row_id r) g.retire r rows
              (get_unique (k.row_id r) rows r (v.ids (k.row_id r)) stored_row)
              (elim (Bool-cases (g.current t r)) [
                | inl e ↦ absurd (d (law.one_key _ _ r was_current e))
                | inr e ↦ e
              ])
              (law.retired t)
