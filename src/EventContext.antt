-- ===== src/EventContext.antt =====
-- app/services/event_context.py: meter events around a measurement.
pub mod Lookup
use sim_mdms_auto.Prelude.{
  ℕ, ◌+◌, ◌*◌, Bool, true, false, not, ◌&&◌, ◌||◌, Option, none, some, List, [], ◌∷◌, Text, codes,
  map, any, length, leb, ltb, ◌==◌, if◌then◌else◌, is_none, text_eq, sql_text_eq, sql_eq, is_some,
  or_else, ◌++◌, strip, upper, non_empty, or_empty, select, order_by,
}
use sim_mdms_auto.Model.{
  HesReadRaw, HesEventRaw, InitialMeasurement, EventContextSnapshot, ContextType, outage, tamper,
  same_context,
}
use sim_mdms_auto.Store.{Db, raw_of}

-- `timedelta(minutes=n)`
abbrev pub minutes : ℕ → ℕ
minutes n = n * 60000000

abbrev pub event_context_tolerance_minutes : ℕ
event_context_tolerance_minutes = 15

abbrev pub outage_event_codes : List Text
outage_event_codes =
    codes "POWER_FAIL" ∷ codes "POWER_OUTAGE" ∷ codes "OUTAGE" ∷ codes "OUTAGE_START" ∷ []

abbrev pub tamper_event_codes : List Text
tamper_event_codes =
    codes "METER_TAMPER"
    ∷ codes "METER_OPEN"
    ∷ codes "REVERSE_ENERGY"
    ∷ codes "TAMPER"
    ∷ codes "TAMPER_ALARM"
    ∷ []

-- `text in set`
abbrev pub is_in : Text → List Text → Bool
is_in t ts = any (text_eq t) ts

classify_normalized : Text → Option ContextType
classify_normalized t =
    if not (non_empty t)
    then none
    else if is_in t tamper_event_codes
    then some tamper
    else if is_in t outage_event_codes
    then some outage
    else none

unfoldable pub classify_event_context_type : Option Text → Option ContextType
unfolding classify_normalized
classify_event_context_type code = classify_normalized (upper (strip (or_empty code)))

unfoldable pub has_event_context_type : Option EventContextSnapshot → ContextType → Bool
has_event_context_type none t = false
has_event_context_type (some s) t = any (same_context t) s.matched_context_types

time_in : ℕ → ℕ → Option ℕ → Bool
time_in measured tolerance none = false
time_in measured tolerance (some t) =
    leb measured (t + minutes tolerance) && leb t (measured + minutes tolerance)

system_in : Option ℕ → Option ℕ → Bool
system_in none column = true
system_in (some n) column = sql_eq column n

-- the WHERE clauses of the event query; `measured_at - tolerance <= event_time` is written as a sum
unfoldable pub in_window : HesReadRaw → ℕ → ℕ → HesEventRaw → Bool
unfolding time_in system_in
in_window raw measured tolerance e =
    text_eq e.source_system raw.source_system
    && sql_text_eq e.meter_identifier (or_empty raw.meter_identifier)
    && time_in measured tolerance e.event_time
    && system_in raw.hes_system_id e.hes_system_id

abbrev time_of : HesEventRaw → ℕ
time_of e = or_else e.event_time 0

-- ORDER BY event_time, id
abbrev pub event_before : HesEventRaw → HesEventRaw → Bool
event_before a b = ltb (time_of a) (time_of b) || (time_of a == time_of b && ltb a.id b.id)

-- the rows of the loop that reach `matched_rows.append`
unfoldable pub classified : List HesEventRaw → List HesEventRaw
unfolding classify_event_context_type
classified = select (λ e. is_some (classify_event_context_type e.event_code))

unfoldable pub add_type : Option ContextType → List ContextType → List ContextType
add_type none ts = ts
add_type (some t) ts = if any (same_context t) ts then ts else ts ++ t ∷ []

-- `matched_context_types` after the loop, each type once
unfoldable pub collect_types : List ContextType → List HesEventRaw → List ContextType
unfolding classify_event_context_type add_type
collect_types ts [] = ts
collect_types ts (e ∷ es) =
    collect_types (add_type (classify_event_context_type e.event_code) ts) es

unfoldable pub primary_type : List ContextType → ContextType
primary_type [] = outage
primary_type (t ∷ ts) = if any (same_context tamper) (t ∷ ts) then tamper else t

non_empty_texts : List (Option Text) → List Text
non_empty_texts [] = []
non_empty_texts (none ∷ ts) = non_empty_texts ts
non_empty_texts (some t ∷ ts) =
    let rest = non_empty_texts ts in if non_empty t then t ∷ rest else rest

some_times : List (Option ℕ) → List ℕ
some_times [] = []
some_times (none ∷ ts) = some_times ts
some_times (some t ∷ ts) = t ∷ some_times ts

-- `none` if no row matched
unfoldable pub build_snapshot :
    HesReadRaw → ℕ → ℕ → List HesEventRaw → List ContextType → Option EventContextSnapshot
unfolding primary_type non_empty_texts some_times
build_snapshot raw measured tolerance [] types = none
build_snapshot raw measured tolerance (e ∷ es) types =
    let matched = e ∷ es in
    some (record {
      primary_context_type = primary_type types;
      matched_context_types = types;
      tolerance_minutes = tolerance;
      meter_identifier = raw.meter_identifier;
      source_system = raw.source_system;
      measured_at = measured;
      matched_event_ids = map (λ r. r.id) matched;
      matched_event_codes = non_empty_texts (map (λ r. r.event_code) matched);
      matched_event_times = some_times (map (λ r. r.event_time) matched);
      matched_event_severities = non_empty_texts (map (λ r. r.severity) matched);
      matched_event_count = length matched;
    })

unfoldable pub snapshot_of_raw : Db → ℕ → HesReadRaw → Option ℕ → Option EventContextSnapshot
unfolding in_window classified collect_types build_snapshot
snapshot_of_raw db tolerance raw none = none
snapshot_of_raw db tolerance raw (some measured) =
    let rows = order_by event_before (select (in_window raw measured tolerance) db.hes_events) in
    if not (non_empty (strip raw.source_system))
    then none
    else if not (non_empty (strip (or_empty raw.meter_identifier)))
    then none
    else build_snapshot raw measured tolerance (classified rows) (collect_types [] rows)

abbrev pub snapshot_of_read : Db → ℕ → Option HesReadRaw → Option EventContextSnapshot
snapshot_of_read db tolerance none = none
snapshot_of_read db tolerance (some raw) = snapshot_of_raw db tolerance raw raw.measured_at

unfoldable pub lookup_event_context_snapshot :
    Db → InitialMeasurement → ℕ → Option EventContextSnapshot
unfolding raw_of snapshot_of_raw
lookup_event_context_snapshot db row tolerance = snapshot_of_read db tolerance (raw_of db row)
