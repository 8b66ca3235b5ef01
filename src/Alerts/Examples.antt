-- ===== src/Alerts/Examples.antt =====
-- The theorems about alerts at concrete inputs.
use disk_pulse.Prelude.{
  ℕ, ◌+◌, ◌≤◌, String, ◌≡◌, refl, true, false, none, some, [], ◌∷◌, arith, find,
}
use disk_pulse.Alerts.Rule.{StorageAlertRule, default_storage_alert_rule, important, level}
use disk_pulse.Alerts.Rule.Levels.{IsValidRule}
use disk_pulse.Alerts.Transition.{AlertState, Sample}
use disk_pulse.Alerts.Transition.Invariant.{IsReached}
use disk_pulse.Alerts.Transition.Repeats.{watch, repeats-interval}
use disk_pulse.Alerts.Delivery.{StorageAlert, pending, AlertDb}
use disk_pulse.Alerts.Delivery.Attempts
use disk_pulse.Alerts.Delivery.Attempts.{row, IsBounded, Task, run-attempts}

abbrev digest : StorageAlertRule → String
digest _ = "5f70bf18"

abbrev default_valid : IsValidRule default_storage_alert_rule
default_valid = record {
  positive = omega arith;
  important_serious = omega arith;
  serious_emergency = omega arith;
  at_most = omega arith;
  important_repeats = omega arith;
  serious_repeats = omega arith;
  emergency_repeats = omega arith;
}

-- A target that breached once, at 82 percent, and one that has an active important alert.
abbrev breached_once : AlertState
breached_once = record {
  rule_signature = "5f70bf18";
  consecutive_breach_count = 1;
  current_level = none;
  last_use_ratio = some 8200;
  last_observed_at = some 1000;
  last_notified_at = none;
}

abbrev breached_once-IsReached : IsReached breached_once
breached_once-IsReached = record {
  active_count = refl;
  active_notified = λ h. ground (arith, h);
  sampled = refl;
  notified_sampled = refl;
}

abbrev active_important : AlertState
active_important = record {
  rule_signature = "5f70bf18";
  consecutive_breach_count = 2;
  current_level = some important;
  last_use_ratio = some 8300;
  last_observed_at = some 2000;
  last_notified_at = some 2000;
}

abbrev active_important-IsReached : IsReached active_important
active_important-IsReached = record {
  active_count = refl;
  active_notified = λ _. refl;
  sampled = refl;
  notified_sampled = refl;
}

abbrev sample : ℕ → ℕ → Sample
sample ratio at = record { use_ratio = ratio; observed_at = at; soft_limit_available = false }

-- Two samples at 83 percent; the second comes a day after the notification.
repeats-interval_example :
    (s : AlertState) × (watch digest default_storage_alert_rule
        (some active_important)
        (sample 8300 3000 ∷ sample 8300 86_400_002_000 ∷ [])
      ≡ some s)
    × (s.current_level ≡ some important)
unfolding level
repeats-interval_example =
    let (s, e, l, _) =
      repeats-interval digest default_storage_alert_rule important
        (sample 8300 3000 ∷ sample 8300 86_400_002_000 ∷ []) active_important 2000
        active_important-IsReached refl refl refl (refl, (refl, tt)) in
    (s, e, l)

abbrev alert : StorageAlert
alert = record {
  id = 7;
  related_info = none;
  delivery_status = pending;
  recipient_usernames = "ops" ∷ [];
  delivery_attempts = 0;
  next_attempt_at = some 100;
  notified_at = none;
  delivery_error = none;
}

abbrev alerts : AlertDb
alerts = record { alerts = alert ∷ []; audits = [] }

abbrev failing_task : Task
failing_task = record {
  event_id = 7;
  enabled = true;
  clock = record { first = 200; second = 201; finished = 300 };
  send = λ _. some "timeout";
}

run-attempts_example :
    (event' : StorageAlert) × (row 7 (Attempts.run 7 alerts (failing_task ∷ failing_task ∷ [])).1
      ≡ some event')
    × (event'.delivery_attempts ≡ 0 + (Attempts.run 7 alerts (failing_task ∷ failing_task ∷ [])).0)
    × (0 + (Attempts.run 7 alerts (failing_task ∷ failing_task ∷ [])).0 ≤ 4)
unfolding find
run-attempts_example =
    run-attempts 7 alerts (failing_task ∷ failing_task ∷ []) alert refl
      (record { at_most = omega arith; due_below = λ _. omega arith })
