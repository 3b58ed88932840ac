-- ===== src/ProcessingCore.antt =====
-- app/services/processing_core.py: the initial measurement of a canonical measurement.
pub mod Initials
use sim_mdms_auto.Prelude.{
  ℕ, Bool, true, false, not, ◌&&◌, Option, none, some, List, [], ◌∷◌, ◌++◌, Text, ◌==◌, ltb,
  is_some, non_empty, or_empty, scalar, sql_eq, next_id, if◌then◌else◌,
}
use sim_mdms_auto.Model.{
  HesReadRaw, CanonicalMeasurement, InitialMeasurement, InitialStatus, CanonicalStatus, initial_id,
}
use sim_mdms_auto.Store.{Db, raw_of_canonical}
use sim_mdms_auto.Vee.Baseline.{evaluate_or_get_vee_baseline}

abbrev pub is_mapped : CanonicalStatus → Bool
is_mapped CanonicalStatus.mapped = true
is_mapped _ = false

-- the truth value of an optional id
abbrev pub truthy_id : Option ℕ → Bool
truthy_id none = false
truthy_id (some n) = ltb 0 n

-- raw_row is not None and raw_row.canonical_status == "mapped" and not raw_row.is_duplicate
abbrev pub is_mapped_read : Option HesReadRaw → Bool
is_mapped_read none = false
is_mapped_read (some raw) = is_mapped raw.canonical_status && not raw.is_duplicate

unfoldable pub is_canonical_measurement_pass_through_eligible : Db → CanonicalMeasurement → Bool
is_canonical_measurement_pass_through_eligible db c =
    is_mapped_read (raw_of_canonical db (some c))
    && is_some c.measured_at
    && is_some c.value
    && non_empty (or_empty c.unit_of_measure)
    && truthy_id c.measuring_component_id
    && truthy_id c.device_id
    && truthy_id c.service_point_id

abbrev pub new_initial : ℕ → ℕ → CanonicalMeasurement → InitialMeasurement
new_initial now new_id c = record {
  id = new_id;
  canonical_measurement_id = some c.id;
  measuring_component_id = c.measuring_component_id;
  device_id = c.device_id;
  service_point_id = c.service_point_id;
  measured_at = c.measured_at;
  value = c.value;
  quality_code = c.quality_code;
  status_code = c.status_code;
  unit_of_measure = c.unit_of_measure;
  initial_status = InitialStatus.ready;
  ready_for_vee_at = now;
}

-- `canonical_row.initial_measurement`
unfoldable pub initial_of : Db → CanonicalMeasurement → Option InitialMeasurement
initial_of db c = scalar (λ _ _. false) (λ r. sql_eq r.canonical_measurement_id c.id) db.initials

unfoldable pub get_or_create :
    ℕ → CanonicalMeasurement → Option InitialMeasurement → Db → Db × InitialMeasurement × Bool
get_or_create now c (some r) db = (db, r, false)
get_or_create now c none db =
    let r = new_initial now (next_id db.initials) c in
    (record db { initials = db.initials ++ r ∷ [] }, r, true)

-- the result is the row and whether it is new
unfoldable pub create_or_get_initial_measurement :
    ℕ → CanonicalMeasurement → Db → Db × InitialMeasurement × Bool
unfolding initial_of get_or_create
create_or_get_initial_measurement now c db = get_or_create now c (initial_of db c) db

unfoldable pub ensure_processing_core_lineage :
    ℕ → CanonicalMeasurement → Option ℕ → Text → Db → Db × InitialMeasurement
unfolding create_or_get_initial_measurement
ensure_processing_core_lineage now c run trigger db =
    let (db', row, _) = create_or_get_initial_measurement now c db in
    ((evaluate_or_get_vee_baseline now row run trigger false db').0, row)
