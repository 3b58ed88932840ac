-- ===== src/Finalization.antt =====
-- app/services/finalization.py: from accepted initial measurements to final ones.
pub mod Batch
pub mod Lineage
pub mod Revision
pub mod Counts
pub mod Run
pub mod Blocked
pub mod Repeat
use sim_mdms_auto.Prelude.{
  ℕ, ◌+◌, Bool, true, false, not, ◌&&◌, ◌||◌, Option, none, some, List, [], ◌∷◌, ◌++◌, Text, codes,
  ℤ, eqb_ℤ, ◌==◌, ltb, leb, if◌then◌else◌, is_none, is_some, opt_eq, opt_text_eq, sql_eq, or_else,
  or_option, or_none, or_empty, scalar, next_id, modify,
}
use sim_mdms_auto.Model.{
  CanonicalMeasurement, InitialMeasurement, FinalMeasurement, InitialStatus, FinalStatus, final_id,
}
use sim_mdms_auto.Store.{Db, canonical_of, raw_of_canonical}
use sim_mdms_auto.ProcessingCore.{is_mapped_read, is_canonical_measurement_pass_through_eligible}
use sim_mdms_auto.Vee.Baseline.{has_active_blocking_vee_exception}

abbrev pub is_accepted : InitialStatus → Bool
is_accepted InitialStatus.accepted = true
is_accepted _ = false

unfoldable pub finalizable_from : Db → InitialMeasurement → Option CanonicalMeasurement → Bool
finalizable_from db row none = false
finalizable_from db row (some c) =
    is_accepted row.initial_status
    && is_mapped_read (raw_of_canonical db (some c))
    && is_canonical_measurement_pass_through_eligible db c
    && not (has_active_blocking_vee_exception db row.id)

unfoldable pub is_initial_measurement_finalizable : Db → InitialMeasurement → Bool
unfolding finalizable_from
is_initial_measurement_finalizable db row = finalizable_from db row (canonical_of db row)

-- a current final row of this initial row, or one of its canonical row that has no initial row yet
unfoldable pub is_current_for : InitialMeasurement → CanonicalMeasurement → FinalMeasurement → Bool
is_current_for row c f =
    f.is_current
    && (sql_eq f.initial_measurement_id row.id
        || is_none f.initial_measurement_id && f.canonical_measurement_id == c.id)

-- ORDER BY revision_number DESC, id DESC
abbrev pub revision_before : FinalMeasurement → FinalMeasurement → Bool
revision_before a b =
    ltb b.revision_number a.revision_number
    || (a.revision_number == b.revision_number && ltb b.id a.id)

unfoldable pub get_current_final_measurement :
    Db → InitialMeasurement → CanonicalMeasurement → Option FinalMeasurement
unfolding is_current_for
get_current_final_measurement db row c = scalar revision_before (is_current_for row c) db.finals

abbrev pub opt_value_eq : Option ℤ → Option ℤ → Bool
opt_value_eq none none = true
opt_value_eq none (some _) = false
opt_value_eq (some _) none = false
opt_value_eq (some a) (some b) = eqb_ℤ a b

unfoldable pub final_measurement_matches_initial : FinalMeasurement → InitialMeasurement → Bool
final_measurement_matches_initial f r =
    opt_eq f.measuring_component_id r.measuring_component_id
    && opt_eq f.device_id r.device_id
    && opt_eq f.service_point_id r.service_point_id
    && opt_eq f.measured_at r.measured_at
    && opt_value_eq f.value r.value
    && opt_text_eq f.quality_code r.quality_code
    && opt_text_eq f.status_code r.status_code
    && opt_text_eq f.unit_of_measure r.unit_of_measure

-- `1 if current_final is None else current_final.revision_number + 1`
abbrev pub next_revision : Option FinalMeasurement → ℕ
next_revision none = 1
next_revision (some f) = f.revision_number + 1

abbrev pub next_reason : Option Text → Option FinalMeasurement → Option Text
next_reason reason none = none
next_reason reason (some f) = or_option (or_none (or_empty reason)) (some (codes "re_finalized"))

abbrev pub superseded_id : Option FinalMeasurement → Option ℕ
superseded_id none = none
superseded_id (some f) = some f.id

abbrev pub new_final :
    ℕ
    → ℕ
    → InitialMeasurement
    → CanonicalMeasurement
    → Option Text
    → Option FinalMeasurement
    → FinalMeasurement
new_final now new_id r c reason current = record {
  id = new_id;
  initial_measurement_id = some r.id;
  canonical_measurement_id = c.id;
  measuring_component_id = r.measuring_component_id;
  device_id = r.device_id;
  service_point_id = r.service_point_id;
  measured_at = r.measured_at;
  value = r.value;
  quality_code = r.quality_code;
  status_code = r.status_code;
  unit_of_measure = r.unit_of_measure;
  final_status = FinalStatus.finalized;
  finalized_at = now;
  revision_number = next_revision current;
  revision_reason_code = next_reason reason current;
  is_current = true;
  supersedes_final_measurement_id = superseded_id current;
}

-- `if initial_measurement_id is None: current_final.initial_measurement = initial_row`
abbrev pub adopt : ℕ → FinalMeasurement → FinalMeasurement
adopt n f = record f { initial_measurement_id = or_option f.initial_measurement_id (some n) }

abbrev pub retire : FinalMeasurement → FinalMeasurement
retire f = record f { final_status = FinalStatus.superseded; is_current = false }

abbrev add_final :
    ℕ
    → InitialMeasurement
    → CanonicalMeasurement
    → Option Text
    → Option FinalMeasurement
    → List FinalMeasurement
    → List FinalMeasurement × FinalMeasurement × Bool
add_final now r c reason current finals =
    let f = new_final now (next_id finals) r c reason current in (finals ++ f ∷ [], f, true)

-- the table, the final row and whether it is new
unfoldable pub revise :
    ℕ
    → InitialMeasurement
    → CanonicalMeasurement
    → Option Text
    → Option FinalMeasurement
    → List FinalMeasurement
    → List FinalMeasurement × FinalMeasurement × Bool
unfolding final_measurement_matches_initial
revise now r c reason none finals = add_final now r c reason none finals
revise now r c reason (some f) finals =
    if final_measurement_matches_initial f r
    then (modify f.id (adopt r.id) finals, adopt r.id f, false)
    else add_final now r c reason (some f) (modify f.id (λ x. retire (adopt r.id x)) finals)

abbrev with_finals :
    Db → List FinalMeasurement × FinalMeasurement × Bool → Db × FinalMeasurement × Bool
with_finals db (finals, f, created) = (record db { finals = finals }, f, created)

unfoldable pub create_from :
    ℕ
    → InitialMeasurement
    → Option Text
    → Option CanonicalMeasurement
    → Db
    → Option (Db × FinalMeasurement × Bool)
unfolding revise get_current_final_measurement
create_from now r reason none db = none
create_from now r reason (some c) db =
    some (with_finals db (revise now r c reason (get_current_final_measurement db r c) db.finals))

-- `none` is the `ValueError` of a row without a canonical measurement
unfoldable pub create_or_get_final_measurement :
    ℕ → InitialMeasurement → Option Text → Db → Option (Db × FinalMeasurement × Bool)
unfolding create_from
create_or_get_final_measurement now r reason db = create_from now r reason (canonical_of db r) db
