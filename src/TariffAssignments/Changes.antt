-- ===== src/TariffAssignments/Changes.antt =====
-- Lemmas on app/services/tariff_assignments.py: inserting and changing an assignment.
use sim_mdms_auto.Prelude.{
  ℕ, true, false, not, ◌&&◌, Option, none, some, List, [], ◌∷◌, ◌++◌, ◌≡◌, refl, sym, subst, ◌==◌,
  ==→eq, arith, leb, All-mono, All-append, any, any-count, any-imp, All-modify, count, count-append,
  count-update_where, count-update_where-le, get, get_unique, modify, next_id, HasUniqueIds-insert,
  HasUniqueIds-modify, Bool-cases, inl, inr,
}
use sim_mdms_auto.TariffAssignments.{
  ServicePointTariffAssignment, assignment_id, TariffTables, TariffForm, TariffAssignmentPayload,
  ok, build_payload, ends_after, before_end, ensure_no_overlapping_assignment, is_current_of,
  new_assignment, updated_assignment, covers,
}
use sim_mdms_auto.TariffAssignments.Periods.{IsWindow, IsSchedule, count-update_shrink, free}

pub payload_window :
    (point : Option ℕ) (form : TariffForm) (t : TariffTables) (p : TariffAssignmentPayload)
    → build_payload point form t ≡ ok p
    → ends_after p.effective_to p.effective_from ≡ true
unfolding build_payload
payload_window point form t p h = ground arith

covers-parts :
    (point at : ℕ) (r : ServicePointTariffAssignment)
    → covers point at r ≡ true
    → (r.service_point_id ≡ point)
      × (leb r.effective_from at ≡ true)
      × (before_end at r.effective_to ≡ true)
unfolding covers
covers-parts point at r h = (==→eq _ _ (ground arith), ground arith, ground arith)

module _ (p : TariffAssignmentPayload) (user : Option ℕ) (rows : List ServicePointTariffAssignment)
    (v : IsSchedule rows) (w : ends_after p.effective_to p.effective_from ≡ true) where
  pub insert-IsSchedule :
      ensure_no_overlapping_assignment p.service_point.id p.effective_from p.effective_to none rows
        ≡ ok tt
      → count (is_current_of p.service_point.id) rows ≡ 0
      → IsSchedule (rows ++ new_assignment (next_id rows) user p ∷ [])
  insert-IsSchedule h z = record {
    ids = HasUniqueIds-insert rows _ refl v.ids;
    windows = All-append IsWindow rows _ v.windows (w, tt);
    one_at = λ point at.
        let new = new_assignment (next_id rows) user p in
        elim (Bool-cases (covers point at new)) [
          | inl e ↦
              let (same, from, to) = covers-parts point at new e in
              let quiet =
                free p.service_point.id p.effective_from at p.effective_to none rows h from to in
              rw (count-append (covers point at) rows (new ∷ [])) (
                rw e (
                  omega (
                    arith,
                    any-count (covers point at) rows (
                        any-imp (covers point at) _ rows
                          (λ x c.
                            subst (λ m. (covers m at x && true) ≡ true) (sym same)
                              (ground (arith, c)))
                          quiet),
                  )))
          | inr e ↦
              rw (count-append (covers point at) rows (new ∷ []))
                (rw e (omega (arith, v.one_at point at)))
        ];
    one_current = λ point. elim (Bool-cases (p.service_point.id == point)) [
      | inl e ↦ ground (
        arith,
        subst (λ m. count (is_current_of m) rows ≡ 0) (==→eq _ _ e) z,
        count-append (is_current_of point) rows (new_assignment (next_id rows) user p ∷ []),
      )
      | inr e ↦ ground (
        arith,
        v.one_current point,
        count-append (is_current_of point) rows (new_assignment (next_id rows) user p ∷ []),
      )
    ];
  }

  pub update-IsSchedule :
      (r : ServicePointTariffAssignment)
      → get r.id rows ≡ some r
      → ensure_no_overlapping_assignment r.service_point_id p.effective_from p.effective_to
          (some r.id)
          rows
        ≡ ok tt
      → IsSchedule (modify r.id (updated_assignment p user) rows)
  unfolding modify
  update-IsSchedule r q h = record {
    ids = HasUniqueIds-modify r.id _ rows (λ _. refl) v.ids;
    windows =
        All-modify IsWindow r.id (updated_assignment p user) r rows
          (get_unique r.id rows r (v.ids r.id) q) (λ _. w) v.windows;
    one_at = λ point at. elim (Bool-cases (covers point at (updated_assignment p user r))) [
      | inl e ↦
          let (same, from, to) = covers-parts point at (updated_assignment p user r) e in
          let quiet =
            free r.service_point_id p.effective_from at p.effective_to (some r.id) rows h from to in
          omega (
            arith,
            v.ids r.id,
            any-count (λ x. covers point at x && not (x.id == r.id)) rows
                (subst (λ m. any (λ x. covers m at x && not (x.id == r.id)) rows ≡ false) same
                  quiet),
            count-update_where-le (covers point at) (λ x. x.id == r.id) (updated_assignment p user)
                rows,
          )
      | inr e ↦ omega (
        arith,
        v.one_at point at,
        count-update_shrink (covers point at) (λ x. x.id == r.id) (updated_assignment p user) rows
            (All-mono _ _ rows
              (λ x is_x i c. absurd (
                cc (
                  subst (λ y. covers point at (updated_assignment p user y) ≡ true) (is_x i) c,
                  e,
                )))
              (get_unique r.id rows r (v.ids r.id) q)),
      )
    ];
    one_current = λ point.
        rw
          (count-update_where (is_current_of point) (λ x. x.id == r.id) (updated_assignment p user)
            rows (λ _ _. refl))
          (v.one_current point);
  }
