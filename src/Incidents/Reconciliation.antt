-- ===== src/Incidents/Reconciliation.antt =====
-- backend/services/incidentReconciliationService.py: old incidents that came from vendor events that
-- are not critical are closed. `lower` is Python's `str.lower`, and `severity_of` is the query for the
-- vendor alert of a cluster and a reference, with the alert's severity.
pub mod Effects
use text.Mathlib.Text.{◌==◌ as str_eq}
use disk_pulse.Prelude.{
  ℕ, String, Bool, true, false, not, ◌&&◌, ◌||◌, Option, none, some, List, [], ◌∷◌, ◌++◌, map, ◌==◌,
  select, all, any, update_where, length, if◌then◌else◌, is_some,
}
use disk_pulse.Prelude.Text.{strip}
use disk_pulse.Prelude.Time.{Instant}
use disk_pulse.Incidents.Db.{
  resolved, device_fault, category_index, Incident, IncidentEvidence, IncidentTimeline, reconciled,
  IncidentDb,
}
use disk_pulse.Incidents.Correlation.{is_resolved}

-- The severity of an alert may be null.
pub record VendorAlert : Type 0 where
  pub severity : Option String

abbrev pub critical_severities : List String
critical_severities = "alert" ∷ "critical" ∷ "emergency" ∷ "high" ∷ []

pub record ReconciliationResult : Type 0 where
  pub scanned : ℕ
  pub would_close : ℕ
  pub closed : ℕ

-- `alert.severity or "info"`
abbrev or_info : Option String → String
or_info none = "info"
or_info (some s) = if str_eq s "" then "info" else s

abbrev is_nil {ℓ} : {A : Type ℓ} → List A → Bool
is_nil [] = true
is_nil (_ ∷ _) = false

abbrev pub scanned_row : Incident → Bool
scanned_row i =
    category_index i.correlation_key.category == category_index device_fault
    && not (is_resolved i.status)

abbrev pub evidence_of : IncidentDb → Incident → List IncidentEvidence
evidence_of db i = select (λ (e : IncidentEvidence). e.incident_id == i.id) db.evidence

-- What the loop does to a candidate, and the row of the timeline that it adds.
abbrev pub close : Instant → Incident → Incident
close now i = record i { status = resolved; resolved_at = some now }

abbrev closing_row : Incident → IncidentTimeline
closing_row i = record {
  incident_id = i.id;
  event_type = reconciled;
  actor_user_id = none;
  from_status = some i.status;
  to_status = some resolved;
}

module _ (lower : String → String) (severity_of : Option ℕ → String → Option VendorAlert) where
  unfoldable pub noncritical : Option VendorAlert → Bool
  noncritical none = false
  noncritical (some alert) =
      not (any (str_eq (lower (strip (or_info alert.severity)))) critical_severities)

  -- `_legacy_noncritical_vendor_incident`
  unfoldable pub legacy_noncritical_vendor_incident : IncidentDb → Incident → Bool
  unfolding noncritical
  legacy_noncritical_vendor_incident db i =
      let evidence = evidence_of db i in
      if is_nil evidence
      then false
      else if any
          (λ (e : IncidentEvidence). not (is_some (severity_of i.storage_cluster_id e.source_ref)))
          evidence
      then false
      else all
          (λ (e : IncidentEvidence). noncritical (severity_of i.storage_cluster_id e.source_ref))
          evidence

  unfoldable pub candidates : IncidentDb → List Incident
  candidates db = select (legacy_noncritical_vendor_incident db) (select scanned_row db.incidents)

  abbrev pub is_candidate : IncidentDb → Incident → Bool
  is_candidate db i = scanned_row i && legacy_noncritical_vendor_incident db i

  -- The loop writes to the rows that are candidates.
  unfoldable pub reconcile_legacy_vendor_incidents :
      Bool → Instant → IncidentDb → ReconciliationResult × IncidentDb
  unfolding candidates
  reconcile_legacy_vendor_incidents dry_run now db =
      let count = length (candidates db) in
      let scanned = length (select scanned_row db.incidents) in
      if dry_run then (record { scanned = scanned; would_close = count; closed = 0 }, db) else (
        record { scanned = scanned; would_close = count; closed = count },
        record db {
          incidents = update_where (is_candidate db) (close now) db.incidents;
          timeline = db.timeline ++ map closing_row (candidates db);
        },
      )
