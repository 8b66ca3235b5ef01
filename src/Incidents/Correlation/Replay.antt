-- ===== src/Incidents/Correlation/Replay.antt =====
-- The same evidence again, and the evidence that is refused.
use text.Mathlib.TextEquality.{eq_iff}
use disk_pulse.Prelude.{
  ℕ, ◌≡◌, inl, inr, refl, ap, true, false, none, some, arith, is_some, Bool-cases, Option-cases,
  find-append_one,
}
use disk_pulse.Prelude.Exec.{Error, Result, ok, err, Result-cases}
use disk_pulse.Incidents.Db.{
  Category, TelemetryEnvelope, IncidentEvidence, IncidentCorrelationState, IncidentDb,
  is_evidence_of, get_incident_evidence_by_source_ref, maintenance_suppresses,
}
use disk_pulse.Incidents.Correlation.{
  CorrelationResult, Chosen, choose, current_incident, correlate_locked, correlate_incident,
  append_evidence, advance, known, settle,
}

-- The evidence of the envelope is in the table.
abbrev Known : TelemetryEnvelope → IncidentDb → Type 0
Known envelope db =
    is_some (get_incident_evidence_by_source_ref db envelope.source envelope.source_ref) ≡ true

append_evidence-Known :
    (envelope : TelemetryEnvelope) (n : ℕ) (db : IncidentDb)
    → Known envelope (append_evidence envelope n db)
unfolding append_evidence
append_evidence-Known envelope n db =
    rw (find-append_one (is_evidence_of envelope.source envelope.source_ref) db.evidence _) (
      ground (
        arith,
        eq_iff envelope.source envelope.source,
        eq_iff envelope.source_ref envelope.source_ref,
      ))

advance-Known :
    (envelope : TelemetryEnvelope) (state : IncidentCorrelationState) (n : ℕ) (db : IncidentDb)
    → Known envelope db
    → Known envelope (advance state n envelope.observed_at db)
unfolding advance
advance-Known envelope state n db h = ground (arith, h)

-- The three ways in which the part behind the lock ends.
pub data Ends (window : ℕ) (envelope : TelemetryEnvelope) (category : Category)
    (state : IncidentCorrelationState) (db : IncidentDb)
    : Result CorrelationResult × IncidentDb → Type 0 where
  replayed :
      (e : IncidentEvidence)
      → get_incident_evidence_by_source_ref db envelope.source envelope.source_ref ≡ some e
      → Ends window envelope category state db (ok (known db e), db)
  refused :
      (e : Error)
      → get_incident_evidence_by_source_ref db envelope.source envelope.source_ref ≡ none
      → choose envelope category (current_incident window state envelope.observed_at db) db ≡ err e
      → Ends window envelope category state db (err e, db)
  settled :
      (c : Chosen)
      → get_incident_evidence_by_source_ref db envelope.source envelope.source_ref ≡ none
      → choose envelope category (current_incident window state envelope.observed_at db) db ≡ ok c
      → Ends window envelope category state db (settle envelope state db (ok c))

pub correlate_locked-Ends :
    (window : ℕ) (envelope : TelemetryEnvelope) (category : Category)
    (state : IncidentCorrelationState) (db : IncidentDb)
    → Ends window envelope category state db (correlate_locked window envelope category (state, db))
unfolding correlate_locked
correlate_locked-Ends window envelope category state db =
    elim (Option-cases
      (get_incident_evidence_by_source_ref db envelope.source envelope.source_ref)) [
        | inr (e, found) ↦ rw (found, correlate_locked) (replayed e found)
        | inl absent ↦
            elim (Result-cases (
              choose envelope category (current_incident window state envelope.observed_at db)
                db)) [
                  | inl (e, k) ↦ rw (absent, k, correlate_locked) (refused e absent k)
                  | inr (chosen, k) ↦ rw (absent, k, correlate_locked) (settled chosen absent k)
                ]
      ]

Ends-Known :
    {window : ℕ} {envelope : TelemetryEnvelope} {category : Category}
    {state : IncidentCorrelationState} {db : IncidentDb} {r : Result CorrelationResult × IncidentDb}
    → Ends window envelope category state db r
    → (c : CorrelationResult) → r.0 ≡ ok c
    → Known envelope r.1
unfolding settle advance
Ends-Known (replayed e found) c h = ap is_some found
Ends-Known (refused e absent k) c h = ground (arith, h)
Ends-Known {envelope} {state} (settled chosen absent k) c h =
    advance-Known envelope state chosen.incident_id _
      (append_evidence-Known envelope chosen.incident_id chosen.db)

locked-Known :
    (window : ℕ) (envelope : TelemetryEnvelope) (category : Category)
    (locked : IncidentCorrelationState × IncidentDb) (c : CorrelationResult)
    → (correlate_locked window envelope category locked).0 ≡ ok c
    → Known envelope (correlate_locked window envelope category locked).1
locked-Known window envelope category (state, db) c h =
    Ends-Known (correlate_locked-Ends window envelope category state db) c h

replay :
    (window : ℕ) (envelope : TelemetryEnvelope) (category : Category)
    (others : IncidentDb → IncidentDb) (db : IncidentDb)
    → Known envelope db
    → (e : IncidentEvidence) × (get_incident_evidence_by_source_ref db envelope.source
          envelope.source_ref
        ≡ some e)
      × (correlate_incident window envelope category others db ≡ (ok (known db e), db))
unfolding correlate_incident
replay window envelope category others db h =
    elim (Option-cases
      (get_incident_evidence_by_source_ref db envelope.source envelope.source_ref)) [
        | inl absent ↦ ground (arith, absent, h)
        | inr (e, found) ↦ (e, found, rw (found, correlate_incident) refl)
      ]

recorded :
    (window : ℕ) (envelope : TelemetryEnvelope) (category : Category)
    (others : IncidentDb → IncidentDb) (db : IncidentDb) (c : CorrelationResult)
    → c.suppressed ≡ false
    → (correlate_incident window envelope category others db).0 ≡ ok c
    → Known envelope (correlate_incident window envelope category others db).1
unfolding correlate_incident
recorded window envelope category others db c s h =
    elim (Option-cases
      (get_incident_evidence_by_source_ref db envelope.source envelope.source_ref)) [
        | inr (e, found) ↦ rw (found, correlate_incident) (ap is_some found)
        | inl absent ↦
            elim (Bool-cases (maintenance_suppresses db envelope.asset_ref envelope.observed_at)) [
              | inl m ↦ ground (arith, rw (absent, m, correlate_incident) at h, s)
              | inr m ↦
                  rw (absent, m, correlate_incident)
                    (locked-Known window envelope category _ c
                      (rw (absent, m, correlate_incident) at h))
            ]
      ]

-- The delivery of evidence is idempotent: once a correlation has returned without being suppressed,
-- another delivery with the same source and reference, whatever its other contents and category, and
-- whatever other transactions did while the first one waited for its lock, changes no table, opens and
-- reopens no incident, and answers with the incident of the evidence that is there.
pub correlate_incident-replay :
    (window : ℕ) (envelope again : TelemetryEnvelope) (category category' : Category)
    (others others' : IncidentDb → IncidentDb) (db : IncidentDb) (c : CorrelationResult)
    → (correlate_incident window envelope category others db).0 ≡ ok c
    → c.suppressed ≡ false
    → again.source ≡ envelope.source
    → again.source_ref ≡ envelope.source_ref
    → let db' = (correlate_incident window envelope category others db).1 in
      (e : IncidentEvidence) × (get_incident_evidence_by_source_ref db' envelope.source
          envelope.source_ref
        ≡ some e)
      × (correlate_incident window again category' others' db' ≡ (ok (known db' e), db'))
correlate_incident-replay window envelope again category category' others others' db c h s source
      ref =
    let (e, found, r) =
      replay window again category' others' _
        (rw (source, ref) (recorded window envelope category others db c s h)) in
    (e, rw (source, ref) at found, r)
