-- ===== src/Incidents/Correlation.antt =====
-- `correlate_incident` of backend/services/forecastIncidentService.py. `window` is the configured
-- length of the correlation window. The table of incidents has a unique constraint on the correlation
-- key and the bucket, and a row that violates it raises an error.
pub mod Replay
pub mod Keeps
pub mod Errors
pub mod Consistency
use text.Mathlib.Text.{◌==◌ as str_eq}
use disk_pulse.Prelude.{
  ℕ, ◌+◌, ◌%◌, ◌-◌, String, Bool, true, false, not, ◌&&◌, Option, none, some, List, [], ◌∷◌, ◌++◌,
  leb, ◌==◌, if◌then◌else◌, is_some, find, any, update_where,
}
use disk_pulse.Prelude.Exec.{Result, ok, err, integrity_error}
use disk_pulse.Prelude.Time.{Instant, seconds}
use disk_pulse.Incidents.Db.{
  Status, open_status, resolved, Category, AssetRef, TelemetryEnvelope, CorrelationKey, Incident,
  IncidentEvidence, IncidentTimeline, TimelineEvent, created, reopened, evidence_added,
  IncidentCorrelationState, IncidentDb, same_key, has_key, get_incident,
  get_incident_evidence_by_source_ref, maintenance_suppresses,
}

pub record CorrelationResult : Type 0 where
  pub incident : Option ℕ
  pub created : Bool
  pub reopened : Bool
  pub suppressed : Bool
  pub severity_escalated : Bool

abbrev pub is_resolved : Status → Bool
is_resolved resolved = true
is_resolved _ = false

-- The last half hour that has begun.
abbrev pub bucket_start : Instant → Instant
bucket_start t = t - t % seconds 1800

abbrev pub correlation_key : AssetRef → Category → CorrelationKey
correlation_key asset category = record {
  cluster = asset.storage_cluster_id;
  asset_type = asset.asset_type;
  asset_id = asset.asset_id;
  category = category;
}

-- `max(incident.last_evidence_at, observed_at)`
abbrev pub latest_evidence_time : Incident → Instant → Instant
latest_evidence_time incident observed_at =
    if leb incident.last_evidence_at observed_at then observed_at else incident.last_evidence_at

-- `_severity(envelope) == "critical" and incident.severity != "critical"`
abbrev pub escalates : String → Incident → Bool
escalates severity incident =
    str_eq severity "critical" && not (str_eq incident.severity "critical")

abbrev timeline_row : ℕ → TimelineEvent → Option Status → Option Status → IncidentTimeline
timeline_row n event from to = record {
  incident_id = n;
  event_type = event;
  actor_user_id = none;
  from_status = from;
  to_status = to;
}

-- `lock_incident_correlation_state`: the cursor of the key, which is created if there is none.
unfoldable pub lock_state : CorrelationKey → IncidentDb → IncidentCorrelationState × IncidentDb
lock_state key db = elim (find (has_key key) db.states) [
  | some state ↦ (state, db)
  | none ↦
      let state : IncidentCorrelationState = record {
        correlation_key = key;
        incident_id = none;
        last_evidence_at = none;
      } in
      (state, record db { states = db.states ++ state ∷ [] })
]

-- `abs(observed_at - last) <= window`
abbrev pub within : ℕ → Instant → Instant → Bool
within window a b = leb a (b + window) && leb b (a + window)

-- The incident that the cursor points at, if the observation lies in its window.
unfoldable pub current_incident :
    ℕ → IncidentCorrelationState → Instant → IncidentDb → Option Incident
current_incident window state observed_at db = elim state.incident_id [
  | none ↦ none
  | some n ↦ elim state.last_evidence_at [
    | none ↦ none
    | some last ↦ if within window observed_at last then get_incident db n else none
  ]
]

abbrev pub write_incident : Incident → IncidentDb → IncidentDb
write_incident incident db = record db {
  incidents = update_where (λ (i : Incident). i.id == incident.id) (λ _. incident) db.incidents;
}

abbrev add_timeline : IncidentTimeline → IncidentDb → IncidentDb
add_timeline row db = record db { timeline = db.timeline ++ row ∷ [] }

abbrev taken : CorrelationKey → Instant → Incident → Bool
taken key bucket i = same_key i.correlation_key key && i.correlation_bucket_at == bucket

-- What the three branches leave: the incident's id, the flags, and the tables.
pub record Chosen : Type 0 where
  pub incident_id : ℕ
  pub created : Bool
  pub reopened : Bool
  pub severity_escalated : Bool
  pub db : IncidentDb

-- A new piece of evidence for an incident that is there.
unfoldable pub touched : TelemetryEnvelope → Incident → Incident
touched envelope incident = record incident {
  last_evidence_at = latest_evidence_time incident envelope.observed_at;
  severity = if escalates envelope.severity incident then "critical" else incident.severity;
}

unfoldable pub reopen : TelemetryEnvelope → Incident → Incident
unfolding touched
reopen envelope incident = record (touched envelope incident) {
  status = open_status;
  resolved_at = none;
}

unfoldable pub existing : TelemetryEnvelope → Incident → IncidentDb → Chosen
unfolding touched reopen
existing envelope incident db =
    if is_resolved incident.status
    then record {
      incident_id = incident.id;
      created = false;
      reopened = true;
      severity_escalated = escalates envelope.severity incident;
      db =
          add_timeline (timeline_row incident.id reopened (some resolved) (some open_status))
            (write_incident (reopen envelope incident) db);
    }
    else record {
      incident_id = incident.id;
      created = false;
      reopened = false;
      severity_escalated = escalates envelope.severity incident;
      db = write_incident (touched envelope incident) db;
    }

abbrev pub new_incident : TelemetryEnvelope → Category → ℕ → Incident
new_incident envelope category n = record {
  id = n;
  correlation_key = correlation_key envelope.asset_ref category;
  correlation_bucket_at = bucket_start envelope.observed_at;
  storage_cluster_id = envelope.asset_ref.storage_cluster_id;
  project_id = envelope.asset_ref.project_id;
  severity = envelope.severity;
  status = open_status;
  assigned_user_id = none;
  opened_at = envelope.observed_at;
  last_evidence_at = envelope.observed_at;
  resolved_at = none;
  silenced_until = none;
  silence_reason = none;
}

unfoldable pub create : TelemetryEnvelope → Category → IncidentDb → Result Chosen
create envelope category db =
    if any (taken (correlation_key envelope.asset_ref category) (bucket_start envelope.observed_at))
      db.incidents
    then err integrity_error
    else ok (record {
      incident_id = db.next_incident_id;
      created = true;
      reopened = false;
      severity_escalated = false;
      db =
          add_timeline (timeline_row db.next_incident_id created none (some open_status))
            (record db {
              incidents = db.incidents ++ new_incident envelope category db.next_incident_id ∷ [];
              next_incident_id = db.next_incident_id + 1;
            });
    })

unfoldable pub choose : TelemetryEnvelope → Category → Option Incident → IncidentDb → Result Chosen
unfolding existing create
choose envelope category none db = create envelope category db
choose envelope category (some incident) db = ok (existing envelope incident db)

-- `_append_evidence`
unfoldable pub append_evidence : TelemetryEnvelope → ℕ → IncidentDb → IncidentDb
append_evidence envelope n db = add_timeline (timeline_row n evidence_added none none) (record db {
  evidence =
      db.evidence
      ++ record {
        incident_id = n;
        source = envelope.source;
        source_ref = envelope.source_ref;
        evidence_type = envelope.metric_or_event;
        observed_at = envelope.observed_at;
      }
        ∷ [];
})

-- The cursor moves only forward.
abbrev pub forward : Option Instant → Instant → Bool
forward none observed_at = true
forward (some last) observed_at = leb last observed_at

unfoldable pub advance : IncidentCorrelationState → ℕ → Instant → IncidentDb → IncidentDb
advance state n observed_at db =
    if forward state.last_evidence_at observed_at
    then record db {
      states =
          update_where (has_key state.correlation_key)
            (λ (s : IncidentCorrelationState). record s {
              incident_id = some n;
              last_evidence_at = some observed_at;
            })
            db.states;
    }
    else db

abbrev pub known : IncidentDb → IncidentEvidence → CorrelationResult
known db e = record {
  incident = elim (get_incident db e.incident_id) [ none ↦ none | some i ↦ some i.id ];
  created = false;
  reopened = false;
  suppressed = false;
  severity_escalated = false;
}

suppressed_result : CorrelationResult
suppressed_result = record {
  incident = none;
  created = false;
  reopened = false;
  suppressed = true;
  severity_escalated = false;
}

abbrev pub settle :
    TelemetryEnvelope
    → IncidentCorrelationState
    → IncidentDb
    → Result Chosen
    → Result CorrelationResult × IncidentDb
unfolding append_evidence advance
settle envelope state db (err e) = (err e, db)
settle envelope state db (ok c) = (
  ok (record {
    incident = some c.incident_id;
    created = c.created;
    reopened = c.reopened;
    suppressed = false;
    severity_escalated = c.severity_escalated;
  }),
  advance state c.incident_id envelope.observed_at (append_evidence envelope c.incident_id c.db),
)

-- What follows the lock. Evidence that is there by then was written while the lock was waited for.
unfoldable pub correlate_locked :
    ℕ
    → TelemetryEnvelope
    → Category
    → IncidentCorrelationState × IncidentDb
    → Result CorrelationResult × IncidentDb
unfolding current_incident choose settle
correlate_locked window envelope category (state, db) =
    elim (get_incident_evidence_by_source_ref db envelope.source envelope.source_ref) [
      | some e ↦ (ok (known db e), db)
      | none ↦
          settle envelope state db
            (choose envelope category (current_incident window state envelope.observed_at db) db)
    ]

-- `others` is what other transactions commit while this one waits for the lock.
unfoldable pub correlate_incident :
    ℕ
    → TelemetryEnvelope
    → Category
    → (IncidentDb → IncidentDb)
    → IncidentDb
    → Result CorrelationResult × IncidentDb
unfolding lock_state correlate_locked suppressed_result
correlate_incident window envelope category others db =
    elim (get_incident_evidence_by_source_ref db envelope.source envelope.source_ref) [
      | some e ↦ (ok (known db e), db)
      | none ↦
          if maintenance_suppresses db envelope.asset_ref envelope.observed_at
          then (ok suppressed_result, db)
          else correlate_locked window envelope category
              (lock_state (correlation_key envelope.asset_ref category) (others db))
    ]
