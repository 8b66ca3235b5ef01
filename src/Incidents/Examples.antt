-- ===== src/Incidents/Examples.antt =====
-- The theorems about incidents at concrete inputs.
use disk_pulse.Prelude.{ℕ, ◌+◌, ◌≡◌, refl, true, false, none, some, [], ◌∷◌, find, any}
use disk_pulse.Prelude.Exec.{ok, err, integrity_error}
use disk_pulse.Access.Db.{Role, editor, User, Project, is_super_admin}
use disk_pulse.Access.Db
use disk_pulse.Incidents.Db.{
  open_status, acknowledged, capacity_pressure, TelemetryEnvelope, Incident,
  IncidentCorrelationState, IncidentDb, IncidentEvidence, get_incident,
  get_incident_evidence_by_source_ref, same_key, maintenance_suppresses,
}
use disk_pulse.Incidents.Correlation.{
  correlate_incident, correlate_locked, correlation_key, lock_state, choose, create,
  current_incident, append_evidence, advance, known,
}
use disk_pulse.Incidents.Correlation.Replay.{correlate_incident-replay}
use disk_pulse.Incidents.Correlation.Keeps.{Kept, correlate_locked-Kept}
use disk_pulse.Incidents.Correlation.Errors.{correlate_locked-error}
use disk_pulse.Incidents.Update.{IncidentUpdate}
use disk_pulse.Incidents.Update.Lifecycle.{Call, run, moves, state_index, run-state_index}
use disk_pulse.Prelude.{String, Option}
use disk_pulse.Incidents.Db.{device_fault}
use disk_pulse.Incidents.Reconciliation.{VendorAlert}
use disk_pulse.Incidents.Admission.{Signal}
use disk_pulse.Incidents.Notification.{Config}

abbrev envelope : ℕ → TelemetryEnvelope
envelope t = record {
  asset_ref = record {
    asset_type = "volume";
    asset_id = "v1";
    storage_cluster_id = some 1;
    project_id = none;
  };
  source = "diskpulse";
  source_ref = "alert:17";
  observed_at = t;
  metric_or_event = "high_usage";
  severity = "warning";
}

abbrev empty_db : IncidentDb
empty_db = record {
  incidents = [];
  evidence = [];
  timeline = [];
  states = [];
  windows = [];
  next_incident_id = 1;
}

abbrev incident : Incident
incident = record {
  id = 1;
  correlation_key = correlation_key (envelope 0).asset_ref capacity_pressure;
  correlation_bucket_at = 0;
  storage_cluster_id = some 1;
  project_id = none;
  severity = "warning";
  status = open_status;
  assigned_user_id = none;
  opened_at = 5;
  last_evidence_at = 5;
  resolved_at = none;
  silenced_until = none;
  silence_reason = none;
}

-- The incident was opened at 5; the cursor has moved on to 40 hours later.
abbrev cursor : IncidentCorrelationState
cursor = record {
  correlation_key = correlation_key (envelope 0).asset_ref capacity_pressure;
  incident_id = some 1;
  last_evidence_at = some 144_000_000_000;
}

abbrev later_db : IncidentDb
later_db = record empty_db { incidents = incident ∷ []; states = cursor ∷ []; next_incident_id = 2 }

correlate_incident-replay_example :
    let db' = (correlate_incident 100 (envelope 5) capacity_pressure (λ db. db) empty_db).1 in
    (e : IncidentEvidence) × (get_incident_evidence_by_source_ref db' "diskpulse" "alert:17"
      ≡ some e)
    × (correlate_incident 100 (envelope 9) capacity_pressure (λ db. db) db'
        ≡ (ok (known db' e), db'))
unfolding find any maintenance_suppresses correlate_incident correlate_locked lock_state choose
    create current_incident append_evidence advance
correlate_incident-replay_example =
    correlate_incident-replay 100 (envelope 5) (envelope 9) capacity_pressure capacity_pressure
      (λ db. db) (λ db. db) empty_db
      (record {
        incident = some 1;
        created = true;
        reopened = false;
        suppressed = false;
        severity_escalated = false;
      })
      refl refl refl refl

correlate_locked-Kept_example :
    Kept later_db (correlate_locked 100 (envelope 9) capacity_pressure (cursor, later_db)).1
correlate_locked-Kept_example =
    correlate_locked-Kept 100 (envelope 9) capacity_pressure cursor later_db

-- Late evidence of the half hour in which the incident was opened.
correlate_locked-error_example :
    (correlate_locked 100 (envelope 9) capacity_pressure (cursor, later_db)).0 ≡ err integrity_error
unfolding find any same_key current_incident
correlate_locked-error_example =
    (correlate_locked-error 100 (envelope 9) capacity_pressure cursor later_db integrity_error).1
      (refl, record { absent = refl; outside = refl; collision = refl })

abbrev root : User
root = record { id = 9; username = some "root"; rd_username = none; email = none }

abbrev access : Db.Db
access = record {
  super_admin_usernames = "root" ∷ [];
  users = root ∷ [];
  projects = [];
  groups = [];
  storage_usages = [];
  memberships = [];
  next_membership_id = 1;
  audits = [];
}

abbrev acknowledge : IncidentUpdate
acknowledge = record {
  target_status = some acknowledged;
  target_severity = none;
  claim = none;
  silenced_until = none;
  silence_reason = none;
  silence_requested = false;
}

abbrev call : Call
call = record { user = root; incident_id = 1; now = 50; request = acknowledge }

run-state_index_example :
    (j : Incident) × (get_incident (run access (call ∷ []) later_db) 1 ≡ some j)
    × (state_index j.status ≡ 0 + moves access 1 (call ∷ []) later_db)
unfolding find
run-state_index_example = run-state_index access (call ∷ []) later_db 1 incident refl

-- A device fault with one piece of evidence, of a vendor event that is only information.
abbrev fault_db : IncidentDb
fault_db = record later_db {
  incidents =
      record incident { correlation_key = correlation_key (envelope 0).asset_ref device_fault }
      ∷ [];
  evidence =
      record {
        incident_id = 1;
        source = "vendor_event";
        source_ref = "vendor:3";
        evidence_type = "severe_vendor_event";
        observed_at = 5;
      }
      ∷ [];
}

abbrev info_alert : Option ℕ → String → Option VendorAlert
info_alert cluster ref = some (record { severity = some "info" })

abbrev forecast : Signal
forecast = record {
  source = "capacity_forecast";
  severity = "warning";
  value = some (record {
    association_type = none;
    metric = none;
    incident_eligible = false;
    exhaustion_p90 = some 50;
  });
}

abbrev config : Config
config = record {
  enabled = true;
  notify_administrators = true;
  notify_project_owner = false;
  notify_project_members = false;
  extra_usernames = "ops" ∷ [];
  feishu_enabled = true;
  email_enabled = false;
}
