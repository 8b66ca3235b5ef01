-- ===== src/Incidents/Db.antt =====
-- The tables of incidents of backend/models.py, and the queries of backend/crud/forecastIncidentCrud.py
-- that the incident services make. Columns for people to read (names, comments, digests, the fields of
-- the assistant) are left out. A correlation key is the text of its four parts joined by colons; only
-- the asset's id can hold a colon, so the parts and the text determine each other, and the key is the
-- parts here.
use text.Mathlib.Text.{◌==◌ as str_eq}
use disk_pulse.Prelude.{
  ℕ, String, Bool, true, false, not, ◌&&◌, Option, none, some, List, leb, ◌==◌, ◌=?◌, is_some, find,
  any,
}
use disk_pulse.Prelude.Time.{Instant}

-- `INCIDENT_STATES`
pub data Status : Type 0 where
  open_status acknowledged investigating mitigated resolved : Status

-- `INCIDENT_CATEGORIES`
pub data Category : Type 0 where
  capacity_pressure device_fault performance_contention telemetry_blindspot : Category

pub record AssetRef : Type 0 where
  pub asset_type : String
  pub asset_id : String
  pub storage_cluster_id : Option ℕ
  pub project_id : Option ℕ

-- `severity` is what `_severity` reads from the value.
pub record TelemetryEnvelope : Type 0 where
  pub asset_ref : AssetRef
  pub source : String
  pub source_ref : String
  pub observed_at : Instant
  pub metric_or_event : String
  pub severity : String

pub record CorrelationKey : Type 0 where
  pub cluster : Option ℕ
  pub asset_type : String
  pub asset_id : String
  pub category : Category

pub record Incident : Type 0 where
  pub id : ℕ
  pub correlation_key : CorrelationKey
  pub correlation_bucket_at : Instant
  pub storage_cluster_id : Option ℕ
  pub project_id : Option ℕ
  pub severity : String
  pub status : Status
  pub assigned_user_id : Option ℕ
  pub opened_at : Instant
  pub last_evidence_at : Instant
  pub resolved_at : Option Instant
  pub silenced_until : Option Instant
  pub silence_reason : Option String

pub record IncidentEvidence : Type 0 where
  pub incident_id : ℕ
  pub source : String
  pub source_ref : String
  pub evidence_type : String
  pub observed_at : Instant

pub data TimelineEvent : Type 0 where
  created evidence_added reopened claimed released status_changed severity_changed silenced
        unsilenced reconciled :
      TimelineEvent

pub record IncidentTimeline : Type 0 where
  pub incident_id : ℕ
  pub event_type : TimelineEvent
  pub actor_user_id : Option ℕ
  pub from_status : Option Status
  pub to_status : Option Status

pub record IncidentCorrelationState : Type 0 where
  pub correlation_key : CorrelationKey
  pub incident_id : Option ℕ
  pub last_evidence_at : Option Instant

pub record MaintenanceWindow : Type 0 where
  pub project_id : Option ℕ
  pub storage_cluster_id : Option ℕ
  pub asset_type : Option String
  pub asset_id : Option String
  pub starts_at : Instant
  pub ends_at : Instant

pub record IncidentDb : Type 0 where
  pub incidents : List Incident
  pub evidence : List IncidentEvidence
  pub timeline : List IncidentTimeline
  pub states : List IncidentCorrelationState
  pub windows : List MaintenanceWindow
  -- the next value of the primary key's sequence
  pub next_incident_id : ℕ

abbrev pub category_index : Category → ℕ
category_index capacity_pressure = 0
category_index device_fault = 1
category_index performance_contention = 2
category_index telemetry_blindspot = 3

-- Two columns that may be null, compared by Python.
abbrev pub same_option : Option ℕ → Option ℕ → Bool
same_option none none = true
same_option (some a) (some b) = a == b
same_option _ _ = false

unfoldable pub same_key : CorrelationKey → CorrelationKey → Bool
same_key a b =
    same_option a.cluster b.cluster
    && str_eq a.asset_type b.asset_type
    && str_eq a.asset_id b.asset_id
    && category_index a.category == category_index b.category

abbrev pub get_incident : IncidentDb → ℕ → Option Incident
get_incident db n = find (λ (i : Incident). i.id == n) db.incidents

abbrev pub is_evidence_of : String → String → IncidentEvidence → Bool
is_evidence_of source source_ref e = str_eq e.source source && str_eq e.source_ref source_ref

abbrev pub get_incident_evidence_by_source_ref :
    IncidentDb → String → String → Option IncidentEvidence
get_incident_evidence_by_source_ref db source source_ref =
    find (is_evidence_of source source_ref) db.evidence

abbrev pub has_key : CorrelationKey → IncidentCorrelationState → Bool
has_key key s = same_key s.correlation_key key

-- `project_id IN (NULL, project)` compares with the project only: in SQL nothing equals NULL.
abbrev project_condition : Option ℕ → Option ℕ → Bool
project_condition none window = not (is_some window)
project_condition (some p) window = window =? p

-- `column IS NULL OR column = cluster`
abbrev cluster_condition : Option ℕ → Option ℕ → Bool
cluster_condition none cluster = true
cluster_condition (some c) cluster = cluster =? c

abbrev text_condition : Option String → String → Bool
text_condition none text = true
text_condition (some t) text = str_eq t text

unfoldable pub window_applies : AssetRef → Instant → MaintenanceWindow → Bool
window_applies asset observed_at w =
    project_condition asset.project_id w.project_id
    && leb w.starts_at observed_at
    && leb observed_at w.ends_at
    && cluster_condition w.storage_cluster_id asset.storage_cluster_id
    && text_condition w.asset_type asset.asset_type
    && text_condition w.asset_id asset.asset_id

-- Whether `matching_maintenance_window` finds a window: its order among several plays no part.
unfoldable pub maintenance_suppresses : IncidentDb → AssetRef → Instant → Bool
unfolding window_applies
maintenance_suppresses db asset observed_at = any (window_applies asset observed_at) db.windows
