-- ===== src/Ops/Laws.antt =====
-- Properties of app/services/operational_events.py: recording, closing and acknowledging.
use sim_mdms_auto.Prelude.{
  ℕ, Bool, true, false, not, ◌&&◌, Option, List, Text, ◌≡◌, arith, All, All-append,
  All-update_where, any, any-never, any-update_where, length-update_where, length-select, count,
  update_where, length, is_some, Bool-cases, inl, inr, or_else, or_none, or_empty,
}
use sim_mdms_auto.Ops.Rows.{EventCode, OperationalEvent, operational_event_id}
use sim_mdms_auto.Ops.Events.{
  EventArgs, AlertScope, build_event, record_operational_event, closable, acknowledgeable,
  close_operational_alerts, acknowledge_operational_alerts, closed_event, acknowledged_event,
}
use sim_mdms_auto.Store.{Db}

-- an alert has a status and an opening time; any other event has no alert columns at all
pub record IsAlertRow (e : OperationalEvent) : Type 0 where
  pub has_status : is_some e.alert_status ≡ e.is_alert
  pub has_opening : is_some e.opened_at ≡ e.is_alert
  pub never_acknowledged : (not e.is_alert && is_some e.acknowledged_at) ≡ false
  pub never_closed : (not e.is_alert && is_some e.closed_at) ≡ false

abbrev pub AreAlertRows : Db → Type 0
AreAlertRows db = All IsAlertRow db.events

build_event-IsAlertRow :
    (n now : ℕ) (code : EventCode) (a : EventArgs) → IsAlertRow (build_event n now code a)
unfolding build_event
build_event-IsAlertRow n now code a = ground arith

pub record_operational_event-AreAlertRows :
    (now : ℕ) (code : EventCode) (a : EventArgs) (db : Db)
    → AreAlertRows db
    → AreAlertRows (record_operational_event now code a db)
unfolding record_operational_event
record_operational_event-AreAlertRows now code a db v =
    All-append IsAlertRow db.events _ v (build_event-IsAlertRow _ now code a, tt)

module _ (e : OperationalEvent) (v : IsAlertRow e) (alert : e.is_alert ≡ true) where
  pub closed-IsAlertRow : (at : ℕ) (memo : Option Text) → IsAlertRow (closed_event at memo e)
  closed-IsAlertRow at memo = ground arith

  pub acknowledged-IsAlertRow : (at : ℕ) (by : Text) → IsAlertRow (acknowledged_event at by e)
  acknowledged-IsAlertRow at by = ground arith

closable-is_alert :
    (code : EventCode) (s : AlertScope) (e : OperationalEvent)
    → closable code s e ≡ true
    → e.is_alert ≡ true
unfolding closable
closable-is_alert code s e h = ground arith

acknowledgeable-is_alert :
    (code : EventCode) (s : AlertScope) (e : OperationalEvent)
    → acknowledgeable code s e ≡ true
    → e.is_alert ≡ true
unfolding acknowledgeable
acknowledgeable-is_alert code s e h = ground arith

pub close_operational_alerts-AreAlertRows :
    (now : ℕ) (code : EventCode) (s : AlertScope) (at : Option ℕ) (memo : Option Text) (db : Db)
    → AreAlertRows db
    → AreAlertRows (close_operational_alerts now code s at memo db).0
unfolding close_operational_alerts
close_operational_alerts-AreAlertRows now code s at memo db v =
    All-update_where IsAlertRow IsAlertRow (closable code s) _ db.events
      (λ x h. elim (Bool-cases (closable code s x)) [
        | inl e ↦ rw e (closed-IsAlertRow x h (closable-is_alert code s x e) _ _)
        | inr e ↦ rw e h
      ])
      v

pub acknowledge_operational_alerts-AreAlertRows :
    (now : ℕ) (code : EventCode) (by : Text) (s : AlertScope) (at : Option ℕ) (db : Db)
    → AreAlertRows db
    → AreAlertRows (acknowledge_operational_alerts now code by s at db).0
unfolding acknowledge_operational_alerts
acknowledge_operational_alerts-AreAlertRows now code by s at db v =
    All-update_where IsAlertRow IsAlertRow (acknowledgeable code s) _ db.events
      (λ x h. elim (Bool-cases (acknowledgeable code s x)) [
        | inl e ↦ rw e (acknowledged-IsAlertRow x h (acknowledgeable-is_alert code s x e) _ _)
        | inr e ↦ rw e h
      ])
      v

closable-closed_event :
    (code : EventCode) (s : AlertScope) (at : ℕ) (memo : Option Text) (e : OperationalEvent)
    → closable code s (closed_event at memo e) ≡ false
unfolding closable
closable-closed_event code s at memo e = ground arith

acknowledgeable-acknowledged_event :
    (code : EventCode) (s : AlertScope) (at : ℕ) (by : Text) (e : OperationalEvent)
    → acknowledgeable code s (acknowledged_event at by e) ≡ false
unfolding acknowledgeable
acknowledgeable-acknowledged_event code s at by e = ground arith

-- after an update whose results fail the test that selects them, no row passes it
any-handled {ℓ} :
    {A : Type ℓ} (p : A → Bool) (f : A → A) (xs : List A)
    → ((x : A) → p (f x) ≡ false)
    → any p (update_where p f xs) ≡ false
any-handled p f xs g =
    any-update_where (λ _. false) p p f xs
      (λ x q. elim (Bool-cases (p x)) [
        | inl e ↦ absurd (cc (rw e at q, g x))
        | inr e ↦ absurd (cc (rw e at q, e))
      ])
      (any-never xs)

-- Closing alerts leaves no open or acknowledged alert of the code in the scope, changes the number of
-- no event, and returns how many alerts it closed.
pub close_operational_alerts_complete :
    (now : ℕ) (code : EventCode) (s : AlertScope) (at : Option ℕ) (memo : Option Text) (db : Db)
    → let (db', n) = close_operational_alerts now code s at memo db in
      (any (closable code s) db'.events ≡ false)
      × (length db'.events ≡ length db.events)
      × (n ≡ count (closable code s) db.events)
unfolding close_operational_alerts
close_operational_alerts_complete now code s at memo db = (
  any-handled (closable code s) _ db.events
      (closable-closed_event code s (or_else at now) (or_none (or_empty memo))),
  length-update_where (closable code s) _ db.events,
  length-select (closable code s) db.events,
)

-- Acknowledging alerts leaves no open alert of the code in the scope, and returns how many alerts it
-- acknowledged.
acknowledge_operational_alerts_complete :
    (now : ℕ) (code : EventCode) (by : Text) (s : AlertScope) (at : Option ℕ) (db : Db)
    → let (db', n) = acknowledge_operational_alerts now code by s at db in
      (any (acknowledgeable code s) db'.events ≡ false)
      × (length db'.events ≡ length db.events)
      × (n ≡ count (acknowledgeable code s) db.events)
unfolding acknowledge_operational_alerts
acknowledge_operational_alerts_complete now code by s at db = (
  any-handled (acknowledgeable code s) _ db.events
      (acknowledgeable-acknowledged_event code s (or_else at now) by),
  length-update_where (acknowledgeable code s) _ db.events,
  length-select (acknowledgeable code s) db.events,
)
