-- ===== src/TariffAssignments/Schedule.antt =====
-- Properties of app/services/tariff_assignments.py: creation, update and lookup.
use sim_mdms_auto.Prelude.{
  ℕ, true, Option, none, some, List, [], ◌∷◌, ◌++◌, ◌≡◌, subst, arith, get, modify, next_id, Bool,
  ◌&&◌, ◌||◌, ◌==◌, ltb, leb, All, All-get, All-scalar, get_self, scalar, scalar-none, scalar-last,
  scalar_sound, any-false-All, HasUniqueIds, Option-cases, inl, inr, false,
}
use sim_mdms_auto.TariffAssignments.{
  ServicePointTariffAssignment, assignment_id, TariffTables, TariffForm, TariffAssignmentPayload,
  ok, build_payload, ensure_no_overlapping_assignment, close_existing_current_assignment,
  new_assignment, create_tariff_assignment, updated_assignment, update_tariff_assignment, covers,
  latest_first, find_applicable_tariff_assignment,
}
use sim_mdms_auto.TariffAssignments.Periods.{IsSchedule, close-IsSchedule}
use sim_mdms_auto.TariffAssignments.Changes.{payload_window, insert-IsSchedule, update-IsSchedule}

created_from :
    (point : Option ℕ) (form : TariffForm) (user : Option ℕ) (t t' : TariffTables)
    → create_tariff_assignment point form user t ≡ ok t'
    → (p : TariffAssignmentPayload) × (closed : List ServicePointTariffAssignment) × (build_payload
          point form t
        ≡ ok p)
      × (close_existing_current_assignment p.service_point.id p.effective_from user t.assignments
          ≡ ok closed)
      × (ensure_no_overlapping_assignment p.service_point.id p.effective_from p.effective_to none
            closed
          ≡ ok tt)
      × (closed ++ new_assignment (next_id closed) user p ∷ [] ≡ t'.assignments)
unfolding create_tariff_assignment
created_from point form user t t' h = ground arith

updated_from :
    (r : ServicePointTariffAssignment) (form : TariffForm) (user : Option ℕ) (t t' : TariffTables)
    → update_tariff_assignment r form user t ≡ ok t'
    → (p : TariffAssignmentPayload) × (build_payload (some r.service_point_id) form t ≡ ok p)
      × (ensure_no_overlapping_assignment r.service_point_id p.effective_from p.effective_to
            (some r.id)
            t.assignments
          ≡ ok tt)
      × (modify r.id (updated_assignment p user) t.assignments ≡ t'.assignments)
unfolding update_tariff_assignment
updated_from r form user t t' h = ground arith

-- If ids are unique, periods are not empty, a service point has at most one assignment in force at any
-- time and at most one current one, then all that holds after any creation that is accepted.
pub create_tariff_assignment-IsSchedule :
    (point : Option ℕ) (form : TariffForm) (user : Option ℕ) (t t' : TariffTables)
    → IsSchedule t.assignments
    → create_tariff_assignment point form user t ≡ ok t'
    → IsSchedule t'.assignments
create_tariff_assignment-IsSchedule point form user t t' v h =
    let (p, closed, build, close, check, e) = created_from point form user t t' h in
    let (v', none_current) =
      close-IsSchedule p.service_point.id p.effective_from user t.assignments v closed close in
    subst IsSchedule e
      (insert-IsSchedule p user closed v' (payload_window point form t p build) check none_current)

-- If ids are unique, periods are not empty, a service point has at most one assignment in force at any
-- time and at most one current one, then all that holds after any update of a stored assignment that is
-- accepted.
pub update_tariff_assignment-IsSchedule :
    (r : ServicePointTariffAssignment) (form : TariffForm) (user : Option ℕ) (t t' : TariffTables)
    → IsSchedule t.assignments
    → get r.id t.assignments ≡ some r
    → update_tariff_assignment r form user t ≡ ok t'
    → IsSchedule t'.assignments
update_tariff_assignment-IsSchedule r form user t t' v q h =
    let (p, build, check, e) = updated_from r form user t t' h in
    subst IsSchedule e (
      update-IsSchedule p user t.assignments v
        (payload_window (some r.service_point_id) form t p build) r q check)

-- the order of assignments by their start, and by id where these are equal
abbrev pub starts_by : ServicePointTariffAssignment → ServicePointTariffAssignment → Bool
starts_by a b =
    ltb a.effective_from b.effective_from || (a.effective_from == b.effective_from && leb a.id b.id)

starts_by_trans :
    (a b c : ServicePointTariffAssignment)
    → starts_by a b ≡ true
    → starts_by b c ≡ true
    → starts_by a c ≡ true
starts_by_trans a b c h k = ground arith

-- Where ids are unique and some stored assignment is in force for a service point at a time, a lookup
-- returns a stored assignment that is in force, and none that is in force starts later, or has a
-- greater id where the start is the same.
pub find_applicable_tariff_assignment_latest :
    (point at n : ℕ) (a : ServicePointTariffAssignment) (t : TariffTables)
    → HasUniqueIds t.assignments
    → get n t.assignments ≡ some a
    → covers point at a ≡ true
    → (r : ServicePointTariffAssignment) × (find_applicable_tariff_assignment point at t ≡ some r)
      × (get r.id t.assignments ≡ some r)
      × (covers point at r ≡ true)
      × All (λ x. covers point at x ≡ true → starts_by x r ≡ true) t.assignments
unfolding find_applicable_tariff_assignment
find_applicable_tariff_assignment_latest point at n a t u q c =
    elim (Option-cases (scalar latest_first (covers point at) t.assignments)) [
      | inl e ↦
          let outside =
            any-false-All _ t.assignments (scalar-none latest_first _ t.assignments e) in
          absurd (cc (c, All-get (λ x. covers point at x ≡ false) n t.assignments a outside q))
      | inr (r, e) ↦ (
        r,
        e,
        All-scalar _ latest_first (covers point at) t.assignments r (get_self t.assignments u) e,
        scalar_sound latest_first (covers point at) t.assignments r e,
        scalar-last latest_first starts_by (λ x. ground arith) starts_by_trans
            (λ x y b. ground (arith, b)) (λ x y b. ground (arith, b)) (covers point at)
            t.assignments r e,
      )
    ]
