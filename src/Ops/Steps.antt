-- ===== src/Ops/Steps.antt =====
-- The operations of app/services/operational_events.py as steps from one store to the next.
use sim_mdms_auto.Prelude.{
  ℕ, true, Option, none, some, List, Text, ◌≡◌, refl, subst, arith, All, get, get_unique,
  HasUniqueIds, HasUniqueIds-insert, HasUniqueIds-modify, HasUniqueIds-update_where, All-modify,
  modify, or_else, normalized,
}
use sim_mdms_auto.Ops.Rows.{EventCode, OperationalEvent, operational_event_id}
use sim_mdms_auto.Ops.Events.{
  EventArgs, AlertScope, record_operational_event, close_operational_alerts,
  acknowledge_operational_alerts, build_event, closed_event, acknowledged_event,
}
use sim_mdms_auto.Ops.Alerts.{
  ok, ◌>>=◌, get_operational_alert, require_alert, may_acknowledge, may_close,
  acknowledge_operational_alert, close_operational_alert,
}
use sim_mdms_auto.Ops.Laws.{
  IsAlertRow, record_operational_event-AreAlertRows, close_operational_alerts-AreAlertRows,
  acknowledge_operational_alerts-AreAlertRows, closed-IsAlertRow, acknowledged-IsAlertRow,
}
use sim_mdms_auto.Store.{Db}

-- One call of an operation on events that succeeds.
pub data Step (db db' : Db) : Type 0 where
  recorded :
      (now : ℕ) (code : EventCode) (a : EventArgs)
      → record_operational_event now code a db ≡ db'
      → Step db db'
  closed :
      (now : ℕ) (code : EventCode) (s : AlertScope) (at : Option ℕ) (memo : Option Text)
      → (close_operational_alerts now code s at memo db).0 ≡ db'
      → Step db db'
  acknowledged :
      (now : ℕ) (code : EventCode) (by : Text) (s : AlertScope) (at : Option ℕ)
      → (acknowledge_operational_alerts now code by s at db).0 ≡ db'
      → Step db db'
  one_closed :
      (now n : ℕ) (at : Option ℕ) (memo : Option Text)
      → close_operational_alert now n at memo db ≡ ok db'
      → Step db db'
  one_acknowledged :
      (now n : ℕ) (by : Text) (at : Option ℕ)
      → acknowledge_operational_alert now n by at db ≡ ok db'
      → Step db db'

pub data Reach (db : Db) : Db → Type 0 where
  here : Reach db db
  next : {a b : Db} → Reach db a → Step a b → Reach db b

pub record AreSound (events : List OperationalEvent) : Type 0 where
  pub ids : HasUniqueIds events
  pub alerts : All IsAlertRow events

one_closed_from :
    (now n : ℕ) (at : Option ℕ) (memo : Option Text) (db db' : Db)
    → close_operational_alert now n at memo db ≡ ok db'
    → (e : OperationalEvent) × (get n db.events ≡ some e)
      × (e.is_alert ≡ true)
      × (record db { events = modify n (closed_event (or_else at now) (normalized memo)) db.events }
          ≡ db')
unfolding close_operational_alert get_operational_alert require_alert
one_closed_from now n at memo db db' h = go (get n db.events) refl h
  where
    go :
        (o : Option OperationalEvent)
        → get n db.events ≡ o
        → (require_alert o >>= λ e. may_close e.alert_status >>= λ _. ok (record db {
          events = modify n (closed_event (or_else at now) (normalized memo)) db.events;
        }))
          ≡ ok db'
        → (e : OperationalEvent) × (get n db.events ≡ some e)
          × (e.is_alert ≡ true)
          × (record db {
            events = modify n (closed_event (or_else at now) (normalized memo)) db.events;
          }
              ≡ db')
    go none q h' = absurd (cc)
    go (some e) q h' = (e, q, ground arith, ground arith)

one_acknowledged_from :
    (now n : ℕ) (by : Text) (at : Option ℕ) (db db' : Db)
    → acknowledge_operational_alert now n by at db ≡ ok db'
    → (e : OperationalEvent) × (get n db.events ≡ some e)
      × (e.is_alert ≡ true)
      × (record db { events = modify n (acknowledged_event (or_else at now) by) db.events } ≡ db')
unfolding acknowledge_operational_alert get_operational_alert require_alert
one_acknowledged_from now n by at db db' h = go (get n db.events) refl h
  where
    go :
        (o : Option OperationalEvent)
        → get n db.events ≡ o
        → (require_alert o >>= λ e. may_acknowledge e.alert_status >>= λ _.
            ok (record db { events = modify n (acknowledged_event (or_else at now) by) db.events }))
          ≡ ok db'
        → (e : OperationalEvent) × (get n db.events ≡ some e)
          × (e.is_alert ≡ true)
          × (record db { events = modify n (acknowledged_event (or_else at now) by) db.events }
              ≡ db')
    go none q h' = absurd (cc)
    go (some e) q h' = (e, q, ground arith, ground arith)

modify-AreSound :
    (n : ℕ) (f : OperationalEvent → OperationalEvent) (e : OperationalEvent)
    (events : List OperationalEvent)
    → get n events ≡ some e
    → ((x : OperationalEvent) → (f x).id ≡ x.id)
    → (IsAlertRow e → IsAlertRow (f e))
    → AreSound events
    → AreSound (modify n f events)
modify-AreSound n f e events q keeps g v = record {
  ids = HasUniqueIds-modify n f events keeps v.ids;
  alerts = All-modify IsAlertRow n f e events (get_unique n events e (v.ids n) q) g v.alerts;
}

Step-AreSound : (a b : Db) → Step a b → AreSound a.events → AreSound b.events
unfolding record_operational_event build_event close_operational_alerts
    acknowledge_operational_alerts
Step-AreSound a b (recorded now code args e) v =
    subst (λ d. AreSound d.events) e
      (record {
        ids = HasUniqueIds-insert a.events _ refl v.ids;
        alerts = record_operational_event-AreAlertRows now code args a v.alerts;
      })
Step-AreSound a b (closed now code s at memo e) v =
    subst (λ d. AreSound d.events) e
      (record {
        ids = HasUniqueIds-update_where _ _ a.events (λ _. refl) v.ids;
        alerts = close_operational_alerts-AreAlertRows now code s at memo a v.alerts;
      })
Step-AreSound a b (acknowledged now code by s at e) v =
    subst (λ d. AreSound d.events) e
      (record {
        ids = HasUniqueIds-update_where _ _ a.events (λ _. refl) v.ids;
        alerts = acknowledge_operational_alerts-AreAlertRows now code by s at a v.alerts;
      })
Step-AreSound a b (one_closed now n at memo h) v =
    let (e, q, alert, r) = one_closed_from now n at memo a b h in
    subst (λ d. AreSound d.events) r
      (modify-AreSound n (closed_event (or_else at now) (normalized memo)) e a.events q (λ _. refl)
        (λ w. closed-IsAlertRow e w alert (or_else at now) (normalized memo)) v)
Step-AreSound a b (one_acknowledged now n by at h) v =
    let (e, q, alert, r) = one_acknowledged_from now n by at a b h in
    subst (λ d. AreSound d.events) r
      (modify-AreSound n (acknowledged_event (or_else at now) by) e a.events q (λ _. refl)
        (λ w. acknowledged-IsAlertRow e w alert (or_else at now) by) v)

-- Whatever events are recorded and whatever alerts are closed or acknowledged, together or one by one,
-- in any order: the ids stay unique, an alert has a status and an opening time, and an event that is
-- no alert has neither, nor a time of acknowledgement or closing, if all that held at the start.
pub Reach-AreSound : (db db' : Db) → AreSound db.events → Reach db db' → AreSound db'.events
Reach-AreSound db db' v here = v
Reach-AreSound db db' v (next {a} r st) = Step-AreSound a db' st (Reach-AreSound db a v r)
