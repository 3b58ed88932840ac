-- ===== src/Ops/Alerts.antt =====
-- app/services/operational_events.py: what an operator does to one alert.
use sim_mdms_auto.Prelude.{
  ℕ, Option, none, some, Text, get, modify, if◌then◌else◌, or_else, normalized,
}
use sim_mdms_auto.Ops.Rows.{AlertStatus, OperationalEvent, operational_event_id}
use sim_mdms_auto.Ops.Events.{closed_event, acknowledged_event}
use sim_mdms_auto.Store.{Db}

pub data AlertError : Type 0 where
  not_found not_alert already_closed already_acknowledged : AlertError

pub data AlertResult {ℓ} (A : Type ℓ) : Type ℓ where
  ok : A → AlertResult A
  err : AlertError → AlertResult A

infixl 5 ◌>>=◌
abbrev pub ◌>>=◌ {ℓ κ} :
    {A : Type ℓ} {B : Type κ} → AlertResult A → (A → AlertResult B) → AlertResult B
ok a >>= f = f a
err e >>= f = err e

unfoldable pub require_alert : Option OperationalEvent → AlertResult OperationalEvent
require_alert none = err AlertError.not_found
require_alert (some e) = if e.is_alert then ok e else err AlertError.not_alert

unfoldable pub get_operational_alert : ℕ → Db → AlertResult OperationalEvent
unfolding require_alert
get_operational_alert n db = require_alert (get n db.events)

-- `alert_status == "closed"`, then `== "acknowledged"`
abbrev pub may_acknowledge : Option AlertStatus → AlertResult (Unit {0})
may_acknowledge (some AlertStatus.closed) = err AlertError.already_closed
may_acknowledge (some AlertStatus.acknowledged) = err AlertError.already_acknowledged
may_acknowledge _ = ok tt

abbrev pub may_close : Option AlertStatus → AlertResult (Unit {0})
may_close (some AlertStatus.closed) = err AlertError.already_closed
may_close _ = ok tt

unfoldable pub acknowledge_operational_alert : ℕ → ℕ → Text → Option ℕ → Db → AlertResult Db
unfolding get_operational_alert
acknowledge_operational_alert now n by at db = do
  event ← get_operational_alert n db
  _ ← may_acknowledge event.alert_status
  ok (record db { events = modify n (acknowledged_event (or_else at now) by) db.events })

unfoldable pub close_operational_alert : ℕ → ℕ → Option ℕ → Option Text → Db → AlertResult Db
unfolding get_operational_alert
close_operational_alert now n at memo db = do
  event ← get_operational_alert n db
  _ ← may_close event.alert_status
  ok (record db { events = modify n (closed_event (or_else at now) (normalized memo)) db.events })
