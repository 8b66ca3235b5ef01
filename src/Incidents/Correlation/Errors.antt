-- ===== src/Incidents/Correlation/Errors.antt =====
-- When a correlation fails.
use disk_pulse.Prelude.{ℕ, ◌≡◌, ◌↔◌, refl, true, Option, none, some, arith, any}
use disk_pulse.Prelude.Exec.{Error, Result, err, integrity_error}
use disk_pulse.Incidents.Db.{
  Category, TelemetryEnvelope, Incident, IncidentCorrelationState, IncidentDb,
  get_incident_evidence_by_source_ref,
}
use disk_pulse.Incidents.Correlation.{
  CorrelationResult, choose, create, current_incident, correlate_locked, settle, correlation_key,
  bucket_start, taken,
}
use disk_pulse.Incidents.Correlation.Replay.{
  Ends, replayed, refused, settled, correlate_locked-Ends,
}

create-error :
    (envelope : TelemetryEnvelope) (category : Category) (db : IncidentDb) (e : Error)
    → (create envelope category db ≡ err e) ↔ (
        (e ≡ integrity_error)
        × (any
              (taken
                (correlation_key envelope.asset_ref category)
                (bucket_start envelope.observed_at))
              db.incidents
            ≡ true))
unfolding create
create-error envelope category db e = (λ h. (ground arith, ground arith), λ h. ground arith)

-- The observation is new, the cursor leads to no incident in whose window it lies, and its half hour
-- has an incident of the same key.
pub record Collides (window : ℕ) (envelope : TelemetryEnvelope) (category : Category)
    (state : IncidentCorrelationState) (db : IncidentDb) : Type 0 where
  pub absent : get_incident_evidence_by_source_ref db envelope.source envelope.source_ref ≡ none
  pub outside : current_incident window state envelope.observed_at db ≡ none
  pub collision :
      any
        (taken (correlation_key envelope.asset_ref category) (bucket_start envelope.observed_at))
        db.incidents
      ≡ true

choose-error :
    (envelope : TelemetryEnvelope) (category : Category) (o : Option Incident) (db : IncidentDb)
    (e : Error)
    → choose envelope category o db ≡ err e
    → (o ≡ none) × (create envelope category db ≡ err e)
unfolding choose
choose-error envelope category none db e h = (refl, h)
choose-error envelope category (some i) db e h = ground (arith, h)

Ends-error :
    {window : ℕ} {envelope : TelemetryEnvelope} {category : Category}
    {state : IncidentCorrelationState} {db : IncidentDb} {r : Result CorrelationResult × IncidentDb}
    → Ends window envelope category state db r
    → (e : Error) → r.0 ≡ err e
    → (e ≡ integrity_error) × Collides window envelope category state db
unfolding settle
Ends-error (replayed f found) e h = ground (arith, h)
Ends-error (settled c absent k) e h = ground (arith, h)
Ends-error {window} {envelope} {category} {state} {db} (refused f absent k) e h =
    let (outside, failed) =
      choose-error envelope category (current_incident window state envelope.observed_at db) db f
        k in
    let (cause, collision) = (create-error envelope category db f).0 failed in
    (ground (arith, h, cause), record { absent = absent; outside = outside; collision = collision })

-- When a correlation fails behind the lock: the evidence is new, the cursor leads to no incident in
-- whose window the observation lies, and yet the half hour of the observation already has an incident
-- of the same key. Then, and only then, the unique constraint refuses the new incident.
pub correlate_locked-error :
    (window : ℕ) (envelope : TelemetryEnvelope) (category : Category)
    (state : IncidentCorrelationState) (db : IncidentDb) (e : Error)
    → ((correlate_locked window envelope category (state, db)).0 ≡ err e)
      ↔ ((e ≡ integrity_error) × Collides window envelope category state db)
unfolding correlate_locked choose
correlate_locked-error window envelope category state db e = (
  Ends-error (correlate_locked-Ends window envelope category state db) e,
  λ (cause, h).
      rw
        (
          h.absent,
          h.outside,
          correlate_locked,
          (create-error envelope category db e).1 (cause, h.collision),
        )
        refl,
)
