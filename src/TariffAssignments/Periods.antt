-- ===== src/TariffAssignments/Periods.antt =====
-- Lemmas on app/services/tariff_assignments.py: the periods of a service point.
use sim_mdms_auto.Prelude.{
  ℕ, ◌≤◌, Bool, true, false, not, ◌&&◌, Option, none, some, List, [], ◌∷◌, ◌≡◌, refl, subst, ◌==◌,
  arith, leb, All, All-mono, All-scalar, any, any-count, any-imp, All-modify, count,
  count-modify_fail, count-update_where_fail, scalar, scalar_sound, scalar-none, get, get_self,
  get_unique, modify, update_where, HasUniqueIds, HasUniqueIds-modify, if◌then◌else◌, Bool-cases,
  Option-cases, inl, inr, by_id_desc,
}
use sim_mdms_auto.TariffAssignments.{
  ServicePointTariffAssignment, assignment_id, Result, overlapping_tariff_assignment, is_excluded,
  ok, err, ends_after, before_end, windows_overlap, collides, ensure_no_overlapping_assignment,
  is_current_of, closed_row, close_found, close_existing_current_assignment, covers,
}

abbrev pub IsWindow : ServicePointTariffAssignment → Type 0
IsWindow r = ends_after r.effective_to r.effective_from ≡ true

-- ids are unique, periods are not empty, and at any time a service point has at most one assignment
-- in force; at most one assignment of a service point is current
pub record IsSchedule (rows : List ServicePointTariffAssignment) : Type 0 where
  pub ids : HasUniqueIds rows
  pub windows : All IsWindow rows
  pub one_at : (point at : ℕ) → count (covers point at) rows ≤ 1
  pub one_current : (point : ℕ) → count (is_current_of point) rows ≤ 1

-- an update whose results pass a test only where the rows did does not raise its count
pub count-update_shrink :
    (q p : ServicePointTariffAssignment → Bool)
    (f : ServicePointTariffAssignment → ServicePointTariffAssignment)
    (rows : List ServicePointTariffAssignment)
    → All (λ x. p x ≡ true → q (f x) ≡ true → q x ≡ true) rows
    → count q (update_where p f rows) ≤ count q rows
unfolding update_where
count-update_shrink q p f [] g = ground arith
count-update_shrink q p f (x ∷ xs) g = elim (Bool-cases (p x)) [
  | inl e ↦ rw e (ground (arith, g.0 e, count-update_shrink q p f xs g.1))
  | inr e ↦ rw e (ground (arith, count-update_shrink q p f xs g.1))
]

ok-inj {ℓ} : {A : Type ℓ} {a b : A} → ok a ≡ ok b → a ≡ b
ok-inj h = ground arith

covers-closed :
    (start : ℕ) (user : Option ℕ) (point at : ℕ) (r : ServicePointTariffAssignment)
    → covers point at (closed_row start user r) ≡ true
    → covers point at r ≡ true
unfolding covers
covers-closed start user point at r h = elim (Option-cases r.effective_to) [
  | inl e ↦ rw e (ground (arith, rw e at h))
  | inr (t, e) ↦ rw e (ground (arith, rw e at h))
]

IsWindow-closed :
    (start : ℕ) (user : Option ℕ) (r : ServicePointTariffAssignment)
    → leb start r.effective_from ≡ false
    → IsWindow r
    → IsWindow (closed_row start user r)
IsWindow-closed start user r late w = elim (Option-cases r.effective_to) [
  | inl e ↦ rw e (ground (arith))
  | inr (t, e) ↦ rw e (ground (arith, rw e at w))
]

module _ (point start : ℕ) (user : Option ℕ) (rows : List ServicePointTariffAssignment)
    (v : IsSchedule rows) where
  never-current :
      (p : ℕ) (x : ServicePointTariffAssignment) → is_current_of p (closed_row start user x) ≡ false
  never-current p x = ground arith

  module _ (r : ServicePointTariffAssignment)
      (q : scalar by_id_desc (is_current_of point) rows ≡ some r) where
    stored_current : get r.id rows ≡ some r
    stored_current = All-scalar _ _ _ rows r (get_self rows v.ids) q

    closed-IsSchedule :
        leb start r.effective_from ≡ false → IsSchedule (modify r.id (closed_row start user) rows)
    unfolding modify
    closed-IsSchedule late = record {
      ids = HasUniqueIds-modify r.id _ rows (λ _. refl) v.ids;
      windows =
          All-modify IsWindow r.id (closed_row start user) r rows
            (get_unique r.id rows r (v.ids r.id) stored_current) (IsWindow-closed start user r late)
            v.windows;
      one_at = λ p at. omega (
        arith,
        v.one_at p at,
        count-update_shrink (covers p at) (λ x. x.id == r.id) (closed_row start user) rows
            (All-mono _ _ rows (λ x _ _. covers-closed start user p at x) v.windows),
      );
      one_current = λ p. omega (
        arith,
        v.one_current p,
        count-update_where_fail (is_current_of p) (λ x. x.id == r.id) (closed_row start user) rows
            (never-current p),
      );
    }

    closed-none_current : count (is_current_of point) (modify r.id (closed_row start user) rows) ≡ 0
    closed-none_current = omega (
      arith,
      v.one_current point,
      count-modify_fail (is_current_of point) r.id (closed_row start user) r rows stored_current
          (scalar_sound _ _ rows r q) (never-current point),
    )

  -- closing the current assignment leaves a schedule without a current assignment of the point
  pub close-IsSchedule :
      (closed : List ServicePointTariffAssignment)
      → close_existing_current_assignment point start user rows ≡ ok closed
      → IsSchedule closed × (count (is_current_of point) closed ≡ 0)
  unfolding close_existing_current_assignment close_found
  close-IsSchedule closed h = go (scalar by_id_desc (is_current_of point) rows) refl h
    where
      go :
          (o : Option ServicePointTariffAssignment)
          → scalar by_id_desc (is_current_of point) rows ≡ o
          → close_found start user o rows ≡ ok closed
          → IsSchedule closed × (count (is_current_of point) closed ≡ 0)
      go none q h' =
          subst (λ z. IsSchedule z × (count (is_current_of point) z ≡ 0)) (ok-inj h')
            (v, any-count _ rows (scalar-none _ _ rows q))
      go (some r) q h' = elim (Bool-cases (leb start r.effective_from)) [
        | inl e ↦ absurd (cc (rw e at h'))
        | inr e ↦
            subst (λ z. IsSchedule z × (count (is_current_of point) z ≡ 0)) (ok-inj (rw e at h'))
              (closed-IsSchedule r q e, closed-none_current r q)
      ]

abbrev blocked : Result (Unit {0})
blocked = err overlapping_tariff_assignment

unblocked : (b : Bool) → (if b then blocked else ok tt) ≡ ok tt → b ≡ false
unblocked true k = absurd (cc)
unblocked false k = refl

-- what the check of a new period says of the times in it
pub free :
    (point start at : ℕ) (end exclude : Option ℕ) (rows : List ServicePointTariffAssignment)
    → ensure_no_overlapping_assignment point start end exclude rows ≡ ok tt
    → leb start at ≡ true
    → before_end at end ≡ true
    → any (λ r. covers point at r && not (is_excluded exclude r.id)) rows ≡ false
unfolding ensure_no_overlapping_assignment collides windows_overlap covers
free point start at end exclude rows h from to =
    any-imp _ (collides point start end exclude) rows
      (λ r c. elim (Option-cases r.effective_to) [
        | inl e ↦ rw e (elim (Option-cases end) [
          | inl e' ↦ rw e' (ground (arith, rw e at c))
          | inr (t, e') ↦ rw e' (ground (arith, rw e at c, rw e' at to))
        ])
        | inr (u, e) ↦ rw e (elim (Option-cases end) [
          | inl e' ↦ rw e' (ground (arith, rw e at c))
          | inr (t, e') ↦ rw e' (ground (arith, rw e at c, rw e' at to))
        ])
      ])
      (unblocked (any (collides point start end exclude) rows) h)
