-- ===== src/Usage/Windows.antt =====
-- app/services/usage.py: the windows of usage. The time zone database is a parameter: a zone gives
-- the wall clock of an instant, and the instant of a wall clock.
use sim_mdms_auto.Prelude.{
  ℕ, ◌+◌, ◌%◌, Bool, false, ◌&&◌, ◌||◌, not, Option, none, some, List, Text, codes, text_eq, ltb,
  ◌==◌, if◌then◌else◌, non_empty, get?,
}
use sim_mdms_auto.Model.{HesReadRaw}
use sim_mdms_auto.Billing.Rows.{HesSystem, system_id}

-- the fields of a `datetime`; `fold` tells the second of two equal wall clocks
pub record LocalTime : Type 0 where
  pub year : ℕ
  pub month : ℕ
  pub day : ℕ
  pub microseconds : ℕ
  pub fold : Bool

pub record Zone : Type 0 where
  pub to_local : ℕ → LocalTime
  pub to_utc : LocalTime → ℕ

pub record Zones : Type 0 where
  pub find : Text → Option Zone
  pub utc : Zone

pub data UsageType : Type 0 where
  daily monthly : UsageType

abbrev pub usage_code : UsageType → Text
usage_code UsageType.daily = codes "daily_consumption"
usage_code UsageType.monthly = codes "monthly_consumption"

-- the test against `SUPPORTED_USAGE_TYPES`
unfoldable pub read_usage_type : Text → Option UsageType
read_usage_type t =
    if text_eq t (usage_code UsageType.daily)
    then some UsageType.daily
    else if text_eq t (usage_code UsageType.monthly)
    then some UsageType.monthly
    else none

abbrev pub is_leap : ℕ → Bool
is_leap y = y % 4 == 0 && not (y % 100 == 0) || y % 400 == 0

abbrev pub days_in_month : ℕ → ℕ → ℕ
days_in_month y m =
    if m == 2
    then if is_leap y then 29 else 28
    else if m == 4 || m == 6 || m == 9 || m == 11
    then 30
    else 31

-- `replace(hour=0, minute=0, second=0, microsecond=0)`
abbrev pub midnight : LocalTime → LocalTime
midnight t = record t { microseconds = 0 }

-- `+ timedelta(days=1)`
unfoldable pub next_day : LocalTime → LocalTime
next_day t =
    if ltb t.day (days_in_month t.year t.month)
    then record t { day = t.day + 1; fold = false }
    else if t.month == 12
    then record t { year = t.year + 1; month = 1; day = 1; fold = false }
    else record t { month = t.month + 1; day = 1; fold = false }

unfoldable pub next_month : LocalTime → LocalTime
next_month t =
    if t.month == 12
    then record t { year = t.year + 1; month = 1 }
    else record t { month = t.month + 1 }

abbrev pub window_start : UsageType → LocalTime → LocalTime
window_start UsageType.daily t = midnight t
window_start UsageType.monthly t = record (midnight t) { day = 1 }

abbrev pub window_end : UsageType → LocalTime → LocalTime
window_end UsageType.daily start = next_day start
window_end UsageType.monthly start = next_month start

unfoldable pub derive_window : Zone → UsageType → ℕ → ℕ × ℕ
unfolding next_day next_month
derive_window zone type at =
    let start = window_start type (zone.to_local at) in
    (zone.to_utc start, zone.to_utc (window_end type start))

abbrev system_timezone : Option HesSystem → Option Text
system_timezone none = none
system_timezone (some s) = s.timezone_name

-- `raw_row.hes_system.timezone_name`, where it is not empty
unfoldable pub configured_name : List HesSystem → Option HesReadRaw → Option Text
configured_name systems none = none
configured_name systems (some raw) = system_timezone (get? raw.hes_system_id systems)

abbrev known_zone : Zones → Text → Option Zone → Zone × Text
known_zone zones name none = (zones.utc, codes "UTC")
known_zone zones name (some z) = (z, name)

-- the zone and its name; a name that is not known falls back to UTC
unfoldable pub zone_named : Zones → Option Text → Zone × Text
zone_named zones none = (zones.utc, codes "UTC")
zone_named zones (some name) =
    if non_empty name then known_zone zones name (zones.find name) else (zones.utc, codes "UTC")

unfoldable pub resolve_usage_timezone : Zones → List HesSystem → Option HesReadRaw → Zone × Text
unfolding configured_name zone_named
resolve_usage_timezone zones systems raw = zone_named zones (configured_name systems raw)
