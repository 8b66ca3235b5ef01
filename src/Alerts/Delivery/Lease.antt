-- ===== src/Alerts/Delivery/Lease.antt =====
-- Two workers on one alert: the lease of an attempt, results that come late, and workers that die.
use disk_pulse.Prelude.{
  ℕ, zero, suc, ◌+◌, ◌≤◌, ◌<◌, String, ◌≡◌, ◌≢◌, sym, Bool, true, Option, none, some, List, [], ◌∷◌,
  arith, is_some, ap, ◌∙◌, Option-cases, inl, inr, ==_refl,
}
use disk_pulse.Prelude.Time.{Instant, seconds}
use disk_pulse.Alerts.Delivery.{
  StorageAlert, Change, failed, retrying, sent, Delivery, AlertDb, TaskClock, is_due_status,
  delivery_attempt_lease_seconds, prepare_row, record_row, prepare_delivery_attempt,
  max_delivery_attempts, retry_delay_seconds,
}
use disk_pulse.Alerts.Delivery.Attempts.{row, prepared-row, prepared-absent}

-- The row after an attempt was taken at `now'` refuses every attempt before the lease ends.
lease_row :
    (enabled enabled' : Bool) (t t' u u' : Instant) (event : StorageAlert) {d : Delivery}
    → (prepare_row enabled t t' event).0 ≡ some d
    → u < t' + seconds delivery_attempt_lease_seconds
    → prepare_row enabled' u u' (prepare_row enabled t t' event).1
      ≡ (none, (prepare_row enabled t t' event).1, [])
unfolding prepare_row
lease_row enabled enabled' t t' u u' event e h = ground arith

-- A result for an attempt that is no longer the last one changes nothing.
late_row :
    (enabled : Bool) (t t' now : Instant) (attempt : ℕ) (error : Option String)
    (event : StorageAlert) {d : Delivery}
    → (prepare_row enabled t t' event).0 ≡ some d
    → attempt ≤ event.delivery_attempts
    → record_row attempt error now (prepare_row enabled t t' event).1
      ≡ (tt, (prepare_row enabled t t' event).1, [])
unfolding prepare_row record_row
late_row enabled t t' now attempt error event e h = ground arith

-- After one worker has taken an attempt for an alert, no other worker gets one within the lease of 60
-- seconds, and its try changes no alert.
pub lease-prepare_delivery_attempt :
    (i j : ℕ) (enabled enabled' : Bool) (t t' u u' : Instant) (db : AlertDb) (d : Delivery)
    → (prepare_delivery_attempt i enabled t t' db).0 ≡ some d
    → u < t' + seconds delivery_attempt_lease_seconds
    → let db' = (prepare_delivery_attempt i enabled t t' db).1 in
      ((prepare_delivery_attempt i enabled' u u' db').0 ≡ none)
      × (row j (prepare_delivery_attempt i enabled' u u' db').1 ≡ row j db')
lease-prepare_delivery_attempt i j enabled enabled' t t' u u' db d e h =
    elim (Option-cases (row i db)) [
      | inl gone ↦ absurd (absent gone)
      | inr (event, found) ↦ present event found
    ]
  where
    clock : Instant → Instant → TaskClock
    clock first second = record { first = first; second = second; finished = second }

    absent : row i db ≡ none → ⊥
    absent gone = cc (
      sym e,
      ap (λ (r : Option Delivery × AlertDb). r.0)
          (prepared-absent i enabled (clock t t') (λ _. none) db gone),
    )

    present :
        (event : StorageAlert)
        → row i db ≡ some event
        → let db' = (prepare_delivery_attempt i enabled t t' db).1 in
          ((prepare_delivery_attempt i enabled' u u' db').0 ≡ none)
          × (row j (prepare_delivery_attempt i enabled' u u' db').1 ≡ row j db')
    present event found =
        let db' = (prepare_delivery_attempt i enabled t t' db).1 in
        let row' = (prepare_row enabled t t' event).1 in
        let (first, second) = prepared-row i enabled (clock t t') (λ _. none) db event j found in
        let at : row i db' ≡ some row' =
          (prepared-row i enabled (clock t t') (λ _. none) db event i found).1 ∙ rw (==_refl i) in
        let held = lease_row enabled enabled' t t' u u' event (sym first ∙ e) h in
        let (a, b) = prepared-row i enabled' (clock u u') (λ _. none) db' row' j at in
        (
          a ∙ ap (λ (r : Change (Option Delivery)). r.0) held,
          ground (arith, b, second, ap (λ (r : Change (Option Delivery)). r.1) held),
        )

-- What a result leaves. A result for another attempt than the last one changes nothing. A sent alert
-- is never due again. After a failure the alert is given up if four attempts are made, and else it
-- becomes due after the delay of its attempt.
pub record_row-outcome :
    (event : StorageAlert) (attempt : ℕ) (error : Option String) (now : Instant)
    → let r = record_row attempt error now event in
      (event.delivery_attempts ≢ attempt → r ≡ (tt, event, []))
      × (event.delivery_attempts ≡ attempt
          → r.1.delivery_attempts ≡ attempt
            × (error ≡ none → (r.1.delivery_status ≡ sent) × (r.1.next_attempt_at ≡ none))
            × (is_some error ≡ true
                → (max_delivery_attempts ≤ attempt
                    → (r.1.delivery_status ≡ failed) × (r.1.next_attempt_at ≡ none))
                  × (attempt < max_delivery_attempts
                      → (r.1.delivery_status ≡ retrying)
                        × (r.1.next_attempt_at
                            ≡ some (now + seconds (retry_delay_seconds attempt))))))
unfolding record_row
record_row-outcome event attempt error now = (
  λ h. ground arith,
  λ h. (
    ground arith,
    λ e. (ground arith, ground arith),
    λ e. (λ m. (ground arith, ground arith), λ m. (ground arith, ground arith)),
  ),
)

-- The alert is due, has recipients, and its status is an active one.
pub record IsSendable (t : Instant) (event : StorageAlert) : Type 0 where
  pub status : is_due_status event.delivery_status ≡ true
  pub due : Instant
  pub next : event.next_attempt_at ≡ some due
  pub due_le : due ≤ t
  pub username : String
  pub usernames : List String
  pub recipients : event.recipient_usernames ≡ username ∷ usernames

-- The row of an alert after `n` workers took an attempt and died before they recorded its result, each as
-- the lease of the one before ends.
unfoldable pub die : ℕ → Instant → StorageAlert → StorageAlert
die zero t event = event
die (suc n) t event =
    die n (t + seconds delivery_attempt_lease_seconds) (prepare_row true t t event).1
