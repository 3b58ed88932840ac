-- ===== src/TariffAssignments.antt =====
-- app/services/tariff_assignments.py: which tariff a service point has, and when. Ids and times come
-- parsed, as in Installations.
pub mod Periods
pub mod Changes
pub mod Schedule
use sim_mdms_auto.Prelude.{
  ℕ, Bool, true, false, not, ◌&&◌, ◌||◌, Option, none, some, List, [], ◌∷◌, ◌++◌, Text, codes, ltb,
  leb, ◌==◌, if◌then◌else◌, any, normalized, or_else, scalar, select, by_id_desc, get, modify,
  next_id, HasId,
}
use sim_mdms_auto.Installations.{
  ServicePoint, service_point_row_id, TimeField, empty, unreadable, time,
}

pub data MasterDataError : Type 0 where
  missing_service_point_id service_point_not_found missing_tariff_plan_code : MasterDataError
  missing_effective_from invalid_effective_from missing_effective_to : MasterDataError
  invalid_effective_to effective_to_before_effective_from : MasterDataError
  overlapping_tariff_assignment : MasterDataError

-- an error leaves the store to the caller, who rolls the session back
pub data Result {ℓ} (A : Type ℓ) : Type ℓ where
  ok : A → Result A
  err : MasterDataError → Result A

infixl 5 ◌>>=◌
abbrev pub ◌>>=◌ {ℓ κ} : {A : Type ℓ} {B : Type κ} → Result A → (A → Result B) → Result B
ok a >>= f = f a
err e >>= f = err e

pub record ServicePointTariffAssignment : Type 0 where
  pub id : ℕ
  pub service_point_id : ℕ
  pub tariff_plan_code : Text
  pub tariff_version_code : Option Text
  pub effective_from : ℕ
  pub effective_to : Option ℕ
  pub is_current : Bool
  pub source_system : Text
  pub source_reference : Option Text
  pub created_by_user_account_id : Option ℕ
  pub updated_by_user_account_id : Option ℕ

instance abbrev pub assignment_id : HasId ServicePointTariffAssignment
assignment_id = record { row_id = λ r. r.id }

pub record TariffTables : Type 0 where
  pub service_points : List ServicePoint
  pub assignments : List ServicePointTariffAssignment

-- the fields of the form
pub record TariffForm : Type 0 where
  pub tariff_plan_code : Option Text
  pub tariff_version_code : Option Text
  pub effective_from : TimeField
  pub effective_to : TimeField
  pub source_system : Option Text
  pub source_reference : Option Text

pub record TariffAssignmentPayload : Type 0 where
  pub service_point : ServicePoint
  pub tariff_plan_code : Text
  pub tariff_version_code : Option Text
  pub effective_from : ℕ
  pub effective_to : Option ℕ
  pub source_system : Text
  pub source_reference : Option Text

abbrev found {ℓ} : {A : Type ℓ} → Option A → MasterDataError → Result A
found none e = err e
found (some a) e = ok a

load_service_point_for : Option ℕ → TariffTables → Result ServicePoint
load_service_point_for none t = err missing_service_point_id
load_service_point_for (some n) t = found (get n t.service_points) service_point_not_found

unfoldable pub require_tariff_plan_code : Option Text → Result Text
require_tariff_plan_code value = found (normalized value) missing_tariff_plan_code

-- a required time
abbrev pub parse_required : TimeField → MasterDataError → MasterDataError → Result ℕ
parse_required empty missing invalid = err missing
parse_required unreadable missing invalid = err invalid
parse_required (time t) missing invalid = ok t

-- a time that may be left out
abbrev pub parse_optional : TimeField → MasterDataError → Result (Option ℕ)
parse_optional empty invalid = ok none
parse_optional unreadable invalid = err invalid
parse_optional (time t) invalid = ok (some t)

-- effective_to is None or effective_to > effective_from
abbrev pub ends_after : Option ℕ → ℕ → Bool
ends_after none start = true
ends_after (some end) start = ltb start end

abbrev pub check_window : ℕ → Option ℕ → Result (Unit {0})
check_window start end =
    if ends_after end start then ok tt else err effective_to_before_effective_from

unfoldable pub build_payload : Option ℕ → TariffForm → TariffTables → Result TariffAssignmentPayload
unfolding load_service_point_for require_tariff_plan_code
build_payload point form t = do
  service_point ← load_service_point_for point t
  plan ← require_tariff_plan_code form.tariff_plan_code
  start ← parse_required form.effective_from missing_effective_from invalid_effective_from
  end ← parse_optional form.effective_to invalid_effective_to
  _ ← check_window start end
  ok (record {
    service_point = service_point;
    tariff_plan_code = plan;
    tariff_version_code = normalized form.tariff_version_code;
    effective_from = start;
    effective_to = end;
    source_system = or_else (normalized form.source_system) (codes "manual");
    source_reference = normalized form.source_reference;
  })

-- a time is before an end; a missing end is `datetime.max`, which is after every time
abbrev pub before_end : ℕ → Option ℕ → Bool
before_end t none = true
before_end t (some end) = ltb t end

unfoldable pub windows_overlap : ℕ → Option ℕ → ℕ → Option ℕ → Bool
windows_overlap left_start left_end right_start right_end =
    before_end left_start right_end && before_end right_start left_end

abbrev pub is_excluded : Option ℕ → ℕ → Bool
is_excluded none n = false
is_excluded (some m) n = n == m

-- a row of the service point, not the excluded one, whose period overlaps the new one
unfoldable pub collides : ℕ → ℕ → Option ℕ → Option ℕ → ServicePointTariffAssignment → Bool
unfolding windows_overlap
collides point start end exclude r =
    r.service_point_id == point
    && not (is_excluded exclude r.id)
    && windows_overlap r.effective_from r.effective_to start end

unfoldable pub ensure_no_overlapping_assignment :
    ℕ → ℕ → Option ℕ → Option ℕ → List ServicePointTariffAssignment → Result (Unit {0})
ensure_no_overlapping_assignment point start end exclude rows =
    if any (collides point start end exclude) rows then err overlapping_tariff_assignment else ok tt

abbrev pub is_current_of : ℕ → ServicePointTariffAssignment → Bool
is_current_of point r = r.service_point_id == point && r.is_current

-- the earlier end stays
abbrev pub earlier_end : ℕ → Option ℕ → Option ℕ
earlier_end start none = some start
earlier_end start (some end) = if ltb start end then some start else some end

abbrev pub closed_row : ℕ → Option ℕ → ServicePointTariffAssignment → ServicePointTariffAssignment
closed_row start user r = record r {
  is_current = false;
  effective_to = earlier_end start r.effective_to;
  updated_by_user_account_id = user;
}

unfoldable pub close_found :
    ℕ
    → Option ℕ
    → Option ServicePointTariffAssignment
    → List ServicePointTariffAssignment
    → Result (List ServicePointTariffAssignment)
close_found start user none rows = ok rows
close_found start user (some r) rows =
    if leb start r.effective_from
    then err overlapping_tariff_assignment
    else ok (modify r.id (closed_row start user) rows)

unfoldable pub close_existing_current_assignment :
    ℕ
    → ℕ
    → Option ℕ
    → List ServicePointTariffAssignment
    → Result (List ServicePointTariffAssignment)
close_existing_current_assignment point start user rows =
    close_found start user (scalar by_id_desc (is_current_of point) rows) rows

abbrev pub new_assignment : ℕ → Option ℕ → TariffAssignmentPayload → ServicePointTariffAssignment
new_assignment new_id user p = record {
  id = new_id;
  service_point_id = p.service_point.id;
  tariff_plan_code = p.tariff_plan_code;
  tariff_version_code = p.tariff_version_code;
  effective_from = p.effective_from;
  effective_to = p.effective_to;
  is_current = true;
  source_system = p.source_system;
  source_reference = p.source_reference;
  created_by_user_account_id = user;
  updated_by_user_account_id = user;
}

unfoldable pub create_tariff_assignment :
    Option ℕ → TariffForm → Option ℕ → TariffTables → Result TariffTables
create_tariff_assignment point form user t = do
  p ← build_payload point form t
  closed ← close_existing_current_assignment p.service_point.id p.effective_from user t.assignments
  _ ←
      ensure_no_overlapping_assignment p.service_point.id p.effective_from p.effective_to none
        closed
  ok (record t { assignments = closed ++ new_assignment (next_id closed) user p ∷ [] })

abbrev pub updated_assignment :
    TariffAssignmentPayload → Option ℕ → ServicePointTariffAssignment → ServicePointTariffAssignment
updated_assignment p user r = record r {
  tariff_plan_code = p.tariff_plan_code;
  tariff_version_code = p.tariff_version_code;
  effective_from = p.effective_from;
  effective_to = p.effective_to;
  source_system = p.source_system;
  source_reference = p.source_reference;
  updated_by_user_account_id = user;
}

-- the row is one that the caller has loaded
unfoldable pub update_tariff_assignment :
    ServicePointTariffAssignment → TariffForm → Option ℕ → TariffTables → Result TariffTables
update_tariff_assignment r form user t = do
  p ← build_payload (some r.service_point_id) form t
  _ ←
      ensure_no_overlapping_assignment r.service_point_id p.effective_from p.effective_to
        (some r.id) t.assignments
  ok (record t { assignments = modify r.id (updated_assignment p user) t.assignments })

-- the assignment is in force for the service point at the time
unfoldable pub covers : ℕ → ℕ → ServicePointTariffAssignment → Bool
covers point at r =
    r.service_point_id == point && leb r.effective_from at && before_end at r.effective_to

-- ORDER BY effective_from DESC, id DESC
abbrev pub latest_first : ServicePointTariffAssignment → ServicePointTariffAssignment → Bool
latest_first a b =
    ltb b.effective_from a.effective_from || (a.effective_from == b.effective_from && ltb b.id a.id)

unfoldable pub find_applicable_tariff_assignment :
    ℕ → ℕ → TariffTables → Option ServicePointTariffAssignment
unfolding covers
find_applicable_tariff_assignment point at t = scalar latest_first (covers point at) t.assignments
