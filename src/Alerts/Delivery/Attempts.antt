-- ===== src/Alerts/Delivery/Attempts.antt =====
-- How often an alert is sent, and when it may be sent again.
use mathlib.Core.Option
use disk_pulse.Prelude.{
  ℕ, ◌+◌, ◌≤◌, ◌<◌, String, ◌≡◌, refl, Bool, true, false, Option, none, some, List, [], ◌∷◌, arith,
  ◌==◌, if◌then◌else◌, find, find-update_where, Bool-cases, Option-cases, inl, inr, find-eq_some,
  ap, ==_iff, ==_refl, ◌∙◌,
}
use disk_pulse.Prelude.Time.{Instant}
use disk_pulse.Alerts.Delivery.{
  StorageAlert, DeliveryAudit, Delivery, AlertDb, TaskClock, is_due_status, has_id,
  max_delivery_attempts, prepare_row, record_row, with_row, prepare_delivery_attempt,
  deliver_storage_alert_task, send_and_record,
}

-- An alert that may still be sent has been sent less often than allowed.
pub record IsBounded (event : StorageAlert) : Type 0 where
  pub at_most : event.delivery_attempts ≤ max_delivery_attempts
  pub due_below :
      is_due_status event.delivery_status ≡ true → event.delivery_attempts < max_delivery_attempts

-- A whole task on the row: what it sends, and the row behind it.
send_row :
    Instant
    → (Delivery → Option String)
    → Option Delivery
    → StorageAlert
    → Option Delivery × StorageAlert
send_row now send none event = (none, event)
send_row now send (some d) event = (some d, (record_row d.attempt (send d) now event).1)

deliver_row :
    Bool → TaskClock → (Delivery → Option String) → StorageAlert → Option Delivery × StorageAlert
unfolding send_row
deliver_row enabled clock send event =
    let (delivery, event', _) = prepare_row enabled clock.first clock.second event in
    send_row clock.finished send delivery event'

abbrev count {ℓ} : {A : Type ℓ} → Option A → ℕ
count none = 0
count (some a) = 1

module _ (enabled : Bool) (clock : TaskClock) (send : Delivery → Option String) where
  deliver_row_lem :
      (event : StorageAlert)
      → let (d, event') = deliver_row enabled clock send event in
        (event'.id ≡ event.id)
        × (event'.delivery_attempts ≡ event.delivery_attempts + count d)
        × (IsBounded event → IsBounded event')
  unfolding deliver_row prepare_row record_row
  deliver_row_lem event = ground (arith)

find-with_row :
    {A : Type 0} (i j : ℕ) (absent : A)
    (body : StorageAlert → A × StorageAlert × List DeliveryAudit) (db : AlertDb)
    (event : StorageAlert)
    → find (has_id i) db.alerts ≡ some event
    → (body event).1.id ≡ event.id
    → find (has_id j) (with_row i absent body db).1.alerts
      ≡ (if i == j then some (body event).1 else find (has_id j) db.alerts)
unfolding with_row
find-with_row i j absent body db event e same =
    rw (e, with_row)
      (find-update_where (has_id i) (has_id j) (λ _. (body event).1) (λ x h. ground (arith, at_id))
          db.alerts
        ∙ by_cases (find (has_id j) db.alerts) refl)
  where
    at_id : event.id ≡ i
    at_id = (==_iff event.id i).0 (find-eq_some (has_id i) db.alerts e)

    by_cases :
        (o : Option StorageAlert)
        → find (has_id j) db.alerts ≡ o
        → Option.map (λ x. if has_id i x then (body event).1 else x) o
          ≡ (if i == j then some (body event).1 else o)
    by_cases none f = ground (arith, e, f)
    by_cases (some x) f =
        let is_j : (x.id == j) ≡ true = find-eq_some (has_id j) db.alerts f in ground arith

-- One task in a schedule: the event, the switch of the configuration, the clock and what Feishu does.
pub record Task : Type 0 where
  pub event_id : ℕ
  pub enabled : Bool
  pub clock : TaskClock
  pub send : Delivery → Option String

-- Whole tasks one after the other: what they send for one event, and the tables behind them.
pub run : ℕ → AlertDb → List Task → ℕ × AlertDb
run id db [] = (0, db)
run id db (t ∷ ts) =
    let (sent, db') = deliver_storage_alert_task t.event_id t.enabled t.clock t.send db in
    let (n, db'') = run id db' ts in ((if t.event_id == id then count sent else 0) + n, db'')

abbrev pub row : ℕ → AlertDb → Option StorageAlert
row id db = find (has_id id) db.alerts

prepare_keeps_id :
    (enabled : Bool) (now now' : Instant) (event : StorageAlert)
    → (prepare_row enabled now now' event).1.id ≡ event.id
unfolding prepare_row
prepare_keeps_id enabled now now' event = ground arith

record_keeps_id :
    (attempt : ℕ) (error : Option String) (now : Instant) (event : StorageAlert)
    → (record_row attempt error now event).1.id ≡ event.id
unfolding record_row
record_keeps_id attempt error now event = ground arith

if-else :
    {A : Type 0} (c : Bool) (u u' v w : A)
    → v ≡ (if c then u else w)
    → (if c then u' else v) ≡ (if c then u' else w)
if-else true u u' v w e = refl
if-else false u u' v w e = e

with_row-result :
    {A : Type 0} (i : ℕ) (absent : A) (body : StorageAlert → A × StorageAlert × List DeliveryAudit)
    (db : AlertDb) (event : StorageAlert)
    → row i db ≡ some event
    → (with_row i absent body db).0 ≡ (body event).0
unfolding with_row
with_row-result i absent body db event e = rw (e, with_row)

-- The task on the tables is the task on the row.
module _ (i : ℕ) (enabled : Bool) (clock : TaskClock) (send : Delivery → Option String) where
  send-row :
      (d : Option Delivery) (db : AlertDb) (event : StorageAlert) (j : ℕ)
      → row i db ≡ some event
      → ((send_and_record i clock.finished send d db).0 ≡ (send_row clock.finished send d event).0)
        × (row j (send_and_record i clock.finished send d db).1
            ≡ (if i == j then some (send_row clock.finished send d event).1 else row j db))
  unfolding send_and_record send_row
  send-row none db event j e = (refl, ground (arith, ==_iff i j))
  send-row (some d) db event j e = (
    refl,
    find-with_row i j tt (record_row d.attempt (send d) clock.finished) db event e
        (record_keeps_id d.attempt (send d) clock.finished event),
  )

  abbrev done : AlertDb → Option Delivery × AlertDb
  done db = deliver_storage_alert_task i enabled clock send db

  task-absent : (db : AlertDb) → row i db ≡ none → done db ≡ (none, db)
  unfolding deliver_storage_alert_task prepare_delivery_attempt
  task-absent db e = rw (e, with_row)

  abbrev pub prepared : AlertDb → Option Delivery × AlertDb
  prepared db = prepare_delivery_attempt i enabled clock.first clock.second db

  abbrev pub prepared_row : StorageAlert → Option Delivery × StorageAlert × List DeliveryAudit
  prepared_row event = prepare_row enabled clock.first clock.second event

  pub prepared-absent : (db : AlertDb) → row i db ≡ none → prepared db ≡ (none, db)
  unfolding prepare_delivery_attempt
  prepared-absent db e = rw (e, with_row)

  pub prepared-row :
      (db : AlertDb) (event : StorageAlert) (j : ℕ)
      → row i db ≡ some event
      → ((prepared db).0 ≡ (prepared_row event).0)
        × (row j (prepared db).1 ≡ (if i == j then some (prepared_row event).1 else row j db))
  unfolding prepare_delivery_attempt
  prepared-row db event j e = (
    with_row-result i none prepared_row db event e,
    find-with_row i j none prepared_row db event e
        (prepare_keeps_id enabled clock.first clock.second event),
  )

  task-row :
      (db : AlertDb) (event : StorageAlert) (j : ℕ)
      → row i db ≡ some event
      → ((done db).0 ≡ (deliver_row enabled clock send event).0)
        × (row j (done db).1
            ≡ (if i == j then some (deliver_row enabled clock send event).1 else row j db))
  unfolding deliver_row deliver_storage_alert_task
  task-row db event j e =
      let (a, b) = prepared-row db event j e in
      let at : row i (prepared db).1 ≡ some (prepared_row event).1 =
        (prepared-row db event i e).1 ∙ rw (==_refl i) in
      let (x, y) = send-row (prepared db).0 (prepared db).1 (prepared_row event).1 j at in
      (rw (← a) x, rw (← a) (y ∙ if-else (i == j) _ _ _ _ b))

  -- Another event's task leaves the row alone.
  task-other : (db : AlertDb) (j : ℕ) → (i == j) ≡ false → row j (done db).1 ≡ row j db
  task-other db j other = elim (Option-cases (row i db)) [
    | inl gone ↦ ap (λ (r : Option Delivery × AlertDb). row j r.1) (task-absent db gone)
    | inr (event, e) ↦ (task-row db event j e).1 ∙ rw other
  ]

-- What a schedule of whole tasks does to one event: its attempts grow by what is sent for it, and it
-- stays bounded.
run-row :
    (id : ℕ) (db : AlertDb) (ts : List Task) (event : StorageAlert)
    → row id db ≡ some event
    → IsBounded event
    → (event' : StorageAlert) × (row id (run id db ts).1 ≡ some event')
      × (event'.delivery_attempts ≡ event.delivery_attempts + (run id db ts).0)
      × IsBounded event'
unfolding run
run-row id db [] event e b = (event, e, omega arith, b)
run-row id db (t ∷ ts) event e b = elim (Bool-cases (t.event_id == id)) [
  | inl same ↦
      let here : row t.event_id db ≡ some event = rw ((==_iff t.event_id id).0 same) e in
      let (sent, now) = task-row t.event_id t.enabled t.clock t.send db event id here in
      let (_, attempts, keeps) = deliver_row_lem t.enabled t.clock t.send event in
      let (event', e', n, b') =
        run-row id (done t.event_id t.enabled t.clock t.send db).1 ts
          (deliver_row t.enabled t.clock t.send event).1 (now ∙ rw same) (keeps b) in
      (event', e', rw (same, sent) (omega (arith, n, attempts)), b')
  | inr other ↦
      let (event', e', n, b') =
        run-row id (done t.event_id t.enabled t.clock t.send db).1 ts event
          (task-other t.event_id t.enabled t.clock t.send db id other ∙ e) b in
      (event', e', rw other (omega (arith, n)), b')
]

-- Whatever schedule of whole tasks runs, and whatever Feishu answers, an event that is bounded at
-- the start is sent at most four times in all, the attempts before the schedule included, and every
-- send is counted as an attempt.
pub run-attempts :
    (id : ℕ) (db : AlertDb) (ts : List Task) (event : StorageAlert)
    → row id db ≡ some event
    → IsBounded event
    → (event' : StorageAlert) × (row id (run id db ts).1 ≡ some event')
      × (event'.delivery_attempts ≡ event.delivery_attempts + (run id db ts).0)
      × (event.delivery_attempts + (run id db ts).0 ≤ max_delivery_attempts)
run-attempts id db ts event e b =
    let (event', e', n, b') = run-row id db ts event e b in (event', e', n, rw (← n) b'.at_most)
