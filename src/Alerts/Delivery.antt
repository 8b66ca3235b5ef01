-- ===== src/Alerts/Delivery.antt =====
-- The delivery of a storage alert: `_prepare_delivery_attempt`, `_record_delivery_result`,
-- `deliver_storage_alert_task` and `retry_storage_alerts_task` of
-- backend/celery_tasks/tasks/storage_alerts.py, over the columns of `StorageAlerts` that they use.
-- A transaction is a function on the tables. The clock is read where the code reads it, and each
-- reading is an argument. What Feishu answers is an argument too: `none` if the message was sent, and
-- the text of the exception if not.
pub mod Attempts
pub mod Lease
use disk_pulse.Prelude.{
  ℕ, zero, suc, ◌+◌, String, Bool, true, false, not, ◌&&◌, ◌||◌, Option, none, some, List, [], ◌∷◌,
  ◌++◌, ltb, leb, ◌==◌, if◌then◌else◌, find, update_where, select, map,
}
use disk_pulse.Prelude.Text.{prefix}
use disk_pulse.Prelude.Time.{Instant, seconds}

pub data DeliveryStatus : Type 0 where
  legacy pending retrying delivering skipped sent failed : DeliveryStatus

-- A text element of a Feishu message, as `_text` builds it.
pub record Element : Type 0 where
  pub text : String
  pub bold : Bool

pub record RelatedInfo : Type 0 where
  pub title : Option String
  pub paragraphs : Option (List (List Element))

pub record StorageAlert : Type 0 where
  pub id : ℕ
  pub related_info : Option RelatedInfo
  pub delivery_status : DeliveryStatus
  pub recipient_usernames : List String
  pub delivery_attempts : ℕ
  pub next_attempt_at : Option Instant
  pub notified_at : Option Instant
  pub delivery_error : Option String

pub data Phase : Type 0 where
  attempt_phase result_phase : Phase

pub data Outcome : Type 0 where
  success failure : Outcome

-- The audit row of a delivery: its phase, its outcome and the attempt that it is about.
pub record DeliveryAudit : Type 0 where
  pub phase : Phase
  pub outcome : Outcome
  pub resource_id : ℕ
  pub delivery_attempt : ℕ
  pub status_after : Option DeliveryStatus

pub record Delivery : Type 0 where
  pub attempt : ℕ
  pub usernames : List String
  pub title : String
  pub paragraphs : List (List Element)

abbrev pub max_delivery_attempts : ℕ
max_delivery_attempts = 4

abbrev pub delivery_attempt_lease_seconds : ℕ
delivery_attempt_lease_seconds = 60

-- `RETRY_DELAYS_SECONDS[attempts - 1]`; index -1 is the last entry.
abbrev pub retry_delay_seconds : ℕ → ℕ
retry_delay_seconds zero = 900
retry_delay_seconds (suc zero) = 60
retry_delay_seconds (suc (suc zero)) = 300
retry_delay_seconds (suc (suc (suc n))) = 900

abbrev pub is_due_status : DeliveryStatus → Bool
is_due_status pending = true
is_due_status retrying = true
is_due_status delivering = true
is_due_status _ = false

-- `next_attempt_at is None or next_attempt_at > now`
abbrev pub not_yet : Option Instant → Instant → Bool
not_yet none now = true
not_yet (some t) now = ltb now t

-- `next_attempt_at is not None and next_attempt_at > now`
abbrev leased : Option Instant → Instant → Bool
leased none now = false
leased (some t) now = ltb now t

abbrev is_empty : List String → Bool
is_empty [] = true
is_empty (_ ∷ _) = false

abbrev or_default {ℓ} : {A : Type ℓ} → Option A → A → A
or_default none a = a
or_default (some b) a = b

abbrev title_of : Option RelatedInfo → String
title_of none = "存储容量告警"
title_of (some info) = or_default info.title "存储容量告警"

abbrev paragraphs_of : Option RelatedInfo → List (List Element)
paragraphs_of none = []
paragraphs_of (some info) = or_default info.paragraphs []

-- What a transaction makes of the row: a result, the new row, and the audit rows that it adds.
abbrev pub Change : Type 0 → Type 0
Change A = A × StorageAlert × List DeliveryAudit

unfoldable pub prepare_row : Bool → Instant → Instant → StorageAlert → Change (Option Delivery)
prepare_row enabled now now' event =
    if not (is_due_status event.delivery_status) || not_yet event.next_attempt_at now
    then (none, event, [])
    else if leased event.next_attempt_at now'
    then (none, event, [])
    else if is_empty event.recipient_usernames || not enabled
    then (none, record event { delivery_status = skipped }, [])
    else (
      some (record {
        attempt = event.delivery_attempts + 1;
        usernames = event.recipient_usernames;
        title = title_of event.related_info;
        paragraphs = paragraphs_of event.related_info;
      }),
      record event {
        delivery_status = delivering;
        delivery_attempts = event.delivery_attempts + 1;
        next_attempt_at = some (now' + seconds delivery_attempt_lease_seconds);
      },
      record {
        phase = attempt_phase;
        outcome = success;
        resource_id = event.id;
        delivery_attempt = event.delivery_attempts + 1;
        status_after = none;
      }
          ∷ [],
    )

result_audit : StorageAlert → Outcome → ℕ → DeliveryAudit
result_audit event outcome attempt = record {
  phase = result_phase;
  outcome = outcome;
  resource_id = event.id;
  delivery_attempt = attempt;
  status_after = some event.delivery_status;
}

record_failure : ℕ → String → Instant → StorageAlert → StorageAlert
record_failure attempt error now event =
    if leb max_delivery_attempts event.delivery_attempts
    then record event {
      delivery_error = some (prefix 512 error);
      delivery_status = failed;
      next_attempt_at = none;
    }
    else record event {
      delivery_error = some (prefix 512 error);
      delivery_status = retrying;
      next_attempt_at = some (now + seconds (retry_delay_seconds event.delivery_attempts));
    }

unfoldable pub record_row : ℕ → Option String → Instant → StorageAlert → Change (Unit {0})
unfolding result_audit record_failure
record_row attempt error now event =
    if not (event.delivery_attempts == attempt) then (tt, event, []) else elim error [
      | some text ↦
          let event' = record_failure attempt text now event in
          (tt, event', result_audit event' failure attempt ∷ [])
      | none ↦
          let event' = record event {
            delivery_status = sent;
            notified_at = some now;
            next_attempt_at = none;
            delivery_error = none;
          } in
          (tt, event', result_audit event' success attempt ∷ [])
    ]

pub record AlertDb : Type 0 where
  pub alerts : List StorageAlert
  pub audits : List DeliveryAudit

abbrev pub has_id : ℕ → StorageAlert → Bool
has_id n event = event.id == n

-- A transaction on the row with the id, if there is one.
with_row : {A : Type 0} → ℕ → A → (StorageAlert → Change A) → AlertDb → A × AlertDb
with_row event_id absent body db = elim (find (has_id event_id) db.alerts) [
  | none ↦ (absent, db)
  | some event ↦
      let (a, event', audits) = body event in
      (
        a,
        record {
          alerts = update_where (has_id event_id) (λ _. event') db.alerts;
          audits = db.audits ++ audits;
        },
      )
]

unfoldable pub prepare_delivery_attempt :
    ℕ → Bool → Instant → Instant → AlertDb → Option Delivery × AlertDb
unfolding with_row prepare_row
prepare_delivery_attempt event_id enabled now now' =
    with_row event_id none (prepare_row enabled now now')

unfoldable pub record_delivery_result :
    ℕ → ℕ → Option String → Instant → AlertDb → Unit {0} × AlertDb
unfolding with_row record_row
record_delivery_result event_id attempt error now =
    with_row event_id tt (record_row attempt error now)

-- The clock of one task: the two readings of the preparation, and the one of the result.
pub record TaskClock : Type 0 where
  pub first : Instant
  pub second : Instant
  pub finished : Instant

-- The second half of the task: the message is sent, and the result is recorded.
send_and_record :
    ℕ → Instant → (Delivery → Option String) → Option Delivery → AlertDb → Option Delivery × AlertDb
unfolding record_delivery_result
send_and_record event_id now send none db = (none, db)
send_and_record event_id now send (some d) db =
    (some d, (record_delivery_result event_id d.attempt (send d) now db).1)

-- The task: what it sent, if anything, and the tables behind it.
unfoldable pub deliver_storage_alert_task :
    ℕ → Bool → TaskClock → (Delivery → Option String) → AlertDb → Option Delivery × AlertDb
unfolding send_and_record
deliver_storage_alert_task event_id enabled clock send db =
    let (delivery, db') = prepare_delivery_attempt event_id enabled clock.first clock.second db in
    send_and_record event_id clock.finished send delivery db'

-- At most 100 events that are due, in the order of the table.
take_ids : ℕ → List StorageAlert → List ℕ
take_ids zero events = []
take_ids (suc n) [] = []
take_ids (suc n) (event ∷ events) = event.id ∷ take_ids n events

abbrev is_due : Instant → StorageAlert → Bool
is_due now event = is_due_status event.delivery_status && not (not_yet event.next_attempt_at now)

unfoldable pub retry_storage_alerts_task : Instant → AlertDb → List ℕ
unfolding take_ids
retry_storage_alerts_task now db = take_ids 100 (select (is_due now) db.alerts)
