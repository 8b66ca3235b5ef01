-- ===== src/Incidents/Correlation/Consistency.antt =====
-- The time of the resolution of an incident goes with its status.
use disk_pulse.Prelude.{
  ℕ, ◌≡◌, inl, inr, refl, Option, none, some, arith, ◌==◌, is_some, Bool-cases, Option-cases, All,
  All-append, All-update_where, All-find,
}
use disk_pulse.Prelude.Exec.{Result, ok}
use disk_pulse.Incidents.Db.{
  CorrelationKey, Category, TelemetryEnvelope, Incident, IncidentCorrelationState, IncidentDb,
  get_incident_evidence_by_source_ref, get_incident, maintenance_suppresses,
}
use disk_pulse.Incidents.Correlation.{
  CorrelationResult, Chosen, choose, existing, touched, reopen, current_incident,
  correlate_incident, lock_state, correlation_key, is_resolved,
}
use disk_pulse.Incidents.Correlation.Replay.{
  Ends, replayed, refused, settled, correlate_locked-Ends,
}
use disk_pulse.Incidents.Correlation.Keeps.{
  create-incidents, current_incident-found, settle-incidents,
}

-- An incident that is resolved has the time of it, and no other has.
abbrev pub IsConsistent : Incident → Type 0
IsConsistent i = is_some i.resolved_at ≡ is_resolved i.status

touched-IsConsistent :
    (envelope : TelemetryEnvelope) (i : Incident)
    → IsConsistent i
    → IsConsistent (touched envelope i)
unfolding touched
touched-IsConsistent envelope i h = h

existing-IsConsistent :
    (envelope : TelemetryEnvelope) (i : Incident) (db : IncidentDb)
    → IsConsistent i
    → All IsConsistent db.incidents
    → All IsConsistent (existing envelope i db).db.incidents
unfolding existing reopen
existing-IsConsistent envelope i db h all = elim (Bool-cases (is_resolved i.status)) [
  | inl e ↦ rw e (All-update_where IsConsistent _ _ (λ x k m. refl) db.incidents all)
  | inr e ↦ rw e (
      All-update_where IsConsistent _ _ (λ x k m. touched-IsConsistent envelope i h) db.incidents
        all)
]

choose-IsConsistent :
    (envelope : TelemetryEnvelope) (category : Category) (o : Option Incident) (db : IncidentDb)
    (c : Chosen)
    → ((i : Incident) → o ≡ some i → get_incident db i.id ≡ some i)
    → choose envelope category o db ≡ ok c
    → All IsConsistent db.incidents
    → All IsConsistent c.db.incidents
unfolding choose
choose-IsConsistent envelope category none db c found h all =
    rw (create-incidents envelope category db c h)
      (All-append IsConsistent db.incidents _ all (refl, tt))
choose-IsConsistent envelope category (some i) db c found h all =
    let same : existing envelope i db ≡ c = ground (arith, h) in
    let (one, _) =
      All-find IsConsistent (λ (x : Incident). x.id == i.id) db.incidents all (found i refl) in
    rw same at (existing-IsConsistent envelope i db one all)

Ends-IsConsistent :
    {window : ℕ} {envelope : TelemetryEnvelope} {category : Category}
    {state : IncidentCorrelationState} {db : IncidentDb} {r : Result CorrelationResult × IncidentDb}
    → Ends window envelope category state db r
    → All IsConsistent db.incidents
    → All IsConsistent r.1.incidents
Ends-IsConsistent (replayed e found) all = all
Ends-IsConsistent (refused e absent k) all = all
Ends-IsConsistent {window} {envelope} {category} {state} {db} (settled c absent k) all =
    rw (settle-incidents envelope state db c) (
      choose-IsConsistent envelope category (current_incident window state envelope.observed_at db)
        db c (current_incident-found window state envelope.observed_at db) k all)

lock_state-incidents :
    (key : CorrelationKey) (db : IncidentDb) → (lock_state key db).1.incidents ≡ db.incidents
unfolding lock_state
lock_state-incidents key db = ground arith

-- A correlation leaves every incident consistent, a reopened one among them, if the transactions that
-- commit while it waits for its lock do.
pub correlate_incident-IsConsistent :
    (window : ℕ) (envelope : TelemetryEnvelope) (category : Category)
    (others : IncidentDb → IncidentDb) (db : IncidentDb)
    → (All IsConsistent db.incidents → All IsConsistent (others db).incidents)
    → All IsConsistent db.incidents
    → All IsConsistent (correlate_incident window envelope category others db).1.incidents
unfolding correlate_incident
correlate_incident-IsConsistent window envelope category others db kept all =
    elim (Option-cases
      (get_incident_evidence_by_source_ref db envelope.source envelope.source_ref)) [
        | inr (e, found) ↦ rw (found, correlate_incident) all
        | inl absent ↦
            elim (Bool-cases (maintenance_suppresses db envelope.asset_ref envelope.observed_at)) [
              | inl m ↦ rw (absent, m, correlate_incident) all
              | inr m ↦
                  let key = correlation_key envelope.asset_ref category in
                  rw (absent, m, correlate_incident)
                    (Ends-IsConsistent
                      (correlate_locked-Ends window envelope category (lock_state key (others db)).0
                        (lock_state key (others db)).1)
                      (rw (lock_state-incidents key (others db)) (kept all)))
            ]
      ]
