-- ===== src/Alerts/Evaluation/Examples.antt =====
-- The theorems about the evaluation of alerts at a concrete pass.
use disk_pulse.Prelude.{ℕ, String, ◌≡◌, refl, true, false, none, some, [], ◌∷◌, find}
use disk_pulse.Prelude.Exec.{ok}
use disk_pulse.Alerts.Evaluation.{StateRow, Tables, Settings}
use disk_pulse.Alerts.Evaluation.Pass.{GroupRow, Resources, Refreshed, evaluate_storage_alerts}
use disk_pulse.Alerts.Evaluation.Pass.Added.{Adds}
use disk_pulse.Alerts.Evaluation.Pass.Returned.{evaluate_storage_alerts-Adds}
use disk_pulse.Alerts.Evaluation.Pass.Replay.{evaluate_storage_alerts_again}
use disk_pulse.Alerts.Rule.{StorageAlertRule, TargetType}
use disk_pulse.Alerts.Transition.{AlertState}

abbrev digest : StorageAlertRule → String
digest _ = "5f70bf18"

abbrev breached_once : AlertState
breached_once = record {
  rule_signature = "5f70bf18";
  consecutive_breach_count = 1;
  current_level = none;
  last_use_ratio = some 8200;
  last_observed_at = some 1000;
  last_notified_at = none;
}

-- A monitored group that is at 95 percent, and breached once before.
abbrev full_group : GroupRow
full_group = record {
  target = record {
    id = 7;
    limit = some 100;
    soft_limit = none;
    used = some 95;
    use_ratio = some 9500;
    soft_use_ratio = none;
  };
  name = "sim";
  storage_cluster_id = some 1;
  cluster_name = some "c1";
  enable_monitoring = true;
  updated_at = 2000;
  storage_alert_rule = none;
  alert_cc_user_ids = [];
  project_row = none;
  tag_name = none;
  in_charge_user = some (record { rd_username = some "ann"; is_alert = true });
  path = some "/sim";
}

abbrev resources : Resources
resources = record { system_rule = none; usages = []; groups = full_group ∷ []; projects = [] }

abbrev refreshed : Refreshed
refreshed = record {
  successful_cluster_ids = 1 ∷ [];
  project_ids = [];
  storage_usage_ids = [];
  group_ids = 7 ∷ [];
}

abbrev tables : Tables
tables = record {
  states = record { target_type = TargetType.group; target_id = 7; state = breached_once } ∷ [];
  alerts = [];
  next_alert_id = 5;
}

abbrev settings : Settings
settings = record { cc_usernames = []; debug = false; super_admin_usernames = [] }

abbrev after_pass : Tables
unfolding evaluate_storage_alerts
after_pass =
    (evaluate_storage_alerts (λ _. "") (λ _. "") digest settings [] (λ _ _. none) (λ names. names)
      resources refreshed 2000 tables).1

evaluate_storage_alerts-Adds_example : Adds 2000 tables (5 ∷ []) after_pass
unfolding evaluate_storage_alerts disk_pulse.Prelude.any disk_pulse.Alerts.Evaluation.evaluate_one
    disk_pulse.Alerts.Rule.resolve_storage_alert_rule find
    disk_pulse.Alerts.Transition.transition_alert_state
    disk_pulse.Alerts.Transition.transition_normalized disk_pulse.Alerts.Rule.level
    disk_pulse.Alerts.Evaluation.recipients_of
    disk_pulse.Alerts.Recipients.resolve_recipient_usernames disk_pulse.Alerts.Recipients.collect
    disk_pulse.Alerts.Recipients.candidate_usernames disk_pulse.Alerts.Recipients.clean
    disk_pulse.Prelude.Text.strip disk_pulse.Alerts.Recipients.mem
evaluate_storage_alerts-Adds_example =
    evaluate_storage_alerts-Adds (λ _. "") (λ _. "") digest settings [] (λ _ _. none)
      (λ names. names) resources refreshed 2000 tables after_pass (5 ∷ []) refl

evaluate_storage_alerts_again_example :
    evaluate_storage_alerts
      (λ _. "")
      (λ _. "")
      digest
      settings
      []
      (λ _ _. none)
      (λ names. names)
      resources
      refreshed
      2000
      after_pass
    ≡ (ok [], after_pass)
unfolding evaluate_storage_alerts disk_pulse.Prelude.any disk_pulse.Alerts.Evaluation.evaluate_one
    disk_pulse.Alerts.Rule.resolve_storage_alert_rule find
    disk_pulse.Alerts.Transition.transition_alert_state
    disk_pulse.Alerts.Transition.transition_normalized disk_pulse.Alerts.Rule.level
    disk_pulse.Alerts.Evaluation.recipients_of
    disk_pulse.Alerts.Recipients.resolve_recipient_usernames disk_pulse.Alerts.Recipients.collect
    disk_pulse.Alerts.Recipients.candidate_usernames disk_pulse.Alerts.Recipients.clean
    disk_pulse.Prelude.Text.strip disk_pulse.Alerts.Recipients.mem
evaluate_storage_alerts_again_example =
    evaluate_storage_alerts_again (λ _. "") (λ _. "") digest settings [] (λ _ _. none)
      (λ names. names) resources refreshed 2000 tables after_pass (5 ∷ []) refl
