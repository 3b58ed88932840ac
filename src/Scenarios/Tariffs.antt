-- ===== src/Scenarios/Tariffs.antt =====
-- Runs of app/services/tariff_assignments.py.
use sim_mdms_auto.Prelude.{
  All, HasUniqueIds, true, none, some, [], ◌∷◌, codes, ◌≡◌, refl, arith, get, scalar, first_by,
  select, modify, update_where, next_id, max_id, strip, normalized,
}
use sim_mdms_auto.Installations.{service_point_row_id, TimeField}
use sim_mdms_auto.TariffAssignments.{
  ServicePointTariffAssignment, assignment_id, TariffTables, TariffForm, TariffAssignmentPayload,
  ok, build_payload, require_tariff_plan_code, windows_overlap, collides,
  ensure_no_overlapping_assignment, close_found, closed_row, new_assignment, updated_assignment,
  close_existing_current_assignment, create_tariff_assignment, update_tariff_assignment, covers,
  find_applicable_tariff_assignment,
}
use sim_mdms_auto.TariffAssignments.Periods.{IsSchedule}
use sim_mdms_auto.TariffAssignments.Schedule.{
  create_tariff_assignment-IsSchedule, update_tariff_assignment-IsSchedule,
  find_applicable_tariff_assignment_latest, starts_by,
}

abbrev first_assignment : ServicePointTariffAssignment
first_assignment = record {
  id = 1;
  service_point_id = 1;
  tariff_plan_code = codes "BASE";
  tariff_version_code = none;
  effective_from = 10;
  effective_to = none;
  is_current = true;
  source_system = codes "manual";
  source_reference = none;
  created_by_user_account_id = none;
  updated_by_user_account_id = none;
}

abbrev tariffs : TariffTables
tariffs = record { service_points = record { id = 1 } ∷ []; assignments = first_assignment ∷ [] }

tariffs-IsSchedule : IsSchedule tariffs.assignments
unfolding covers
tariffs-IsSchedule = record {
  ids = λ n. ground arith;
  windows = (refl, tt);
  one_at = λ point at. ground arith;
  one_current = λ point. ground arith;
}

abbrev form : TariffForm
form = record {
  tariff_plan_code = some (codes " NIGHT ");
  tariff_version_code = some (codes " ");
  effective_from = TimeField.time 20;
  effective_to = TimeField.time 40;
  source_system = none;
  source_reference = none;
}

abbrev payload : TariffAssignmentPayload
payload = record {
  service_point = record { id = 1 };
  tariff_plan_code = codes "NIGHT";
  tariff_version_code = none;
  effective_from = 20;
  effective_to = some 40;
  source_system = codes "manual";
  source_reference = none;
}

-- the first assignment ends where the new one starts
abbrev created_tariffs : TariffTables
created_tariffs = record tariffs {
  assignments = closed_row 20 (some 7) first_assignment ∷ new_assignment 2 (some 7) payload ∷ [];
}

created_lem : create_tariff_assignment (some 1) form (some 7) tariffs ≡ ok created_tariffs
unfolding create_tariff_assignment build_payload require_tariff_plan_code normalized strip get
    close_existing_current_assignment close_found ensure_no_overlapping_assignment collides
    windows_overlap scalar first_by select modify update_where next_id max_id
created_lem = refl

create_tariff_assignment-IsSchedule_example : IsSchedule created_tariffs.assignments
create_tariff_assignment-IsSchedule_example =
    create_tariff_assignment-IsSchedule (some 1) form (some 7) tariffs created_tariffs
      tariffs-IsSchedule created_lem

abbrev updated_tariffs : TariffTables
updated_tariffs = record tariffs {
  assignments = updated_assignment payload (some 7) first_assignment ∷ [];
}

updated_lem : update_tariff_assignment first_assignment form (some 7) tariffs ≡ ok updated_tariffs
unfolding update_tariff_assignment build_payload require_tariff_plan_code normalized strip get
    ensure_no_overlapping_assignment collides windows_overlap modify update_where
updated_lem = refl

first_stored : get 1 tariffs.assignments ≡ some first_assignment
unfolding get
first_stored = refl

update_tariff_assignment-IsSchedule_example : IsSchedule updated_tariffs.assignments
update_tariff_assignment-IsSchedule_example =
    update_tariff_assignment-IsSchedule first_assignment form (some 7) tariffs updated_tariffs
      tariffs-IsSchedule first_stored updated_lem

-- two assignments in force at 15, which no creation would leave
abbrev overlapping : TariffTables
overlapping = record tariffs {
  assignments = first_assignment ∷ record first_assignment { id = 2; effective_from = 12 } ∷ [];
}

overlapping_ids : HasUniqueIds overlapping.assignments
overlapping_ids n = ground arith

first_overlapping : get 1 overlapping.assignments ≡ some first_assignment
unfolding get
first_overlapping = refl

first_covers : covers 1 15 first_assignment ≡ true
unfolding covers
first_covers = refl

find_applicable_tariff_assignment_latest_example :
    (r : ServicePointTariffAssignment) × (find_applicable_tariff_assignment 1 15 overlapping
      ≡ some r)
    × (get r.id overlapping.assignments ≡ some r)
    × (covers 1 15 r ≡ true)
    × All (λ x. covers 1 15 x ≡ true → starts_by x r ≡ true) overlapping.assignments
find_applicable_tariff_assignment_latest_example =
    find_applicable_tariff_assignment_latest 1 15 1 first_assignment overlapping overlapping_ids
      first_overlapping first_covers
