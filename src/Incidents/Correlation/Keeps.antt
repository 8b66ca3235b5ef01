-- ===== src/Incidents/Correlation/Keeps.antt =====
-- What a correlation keeps of the incidents that are there.
use mathlib.Core.Option
use disk_pulse.Prelude.{
  ℕ, ◌≤◌, ◌≡◌, ◌⊎◌, inl, inr, refl, ◌∙◌, ap, true, Option, none, some, [], ◌∷◌, ◌++◌, arith, ◌==◌,
  if◌then◌else◌, find, any, Bool-cases, Option-cases, find-append_one, find-update_where,
  find-eq_some,
}
use disk_pulse.Prelude.Exec.{Result, ok}
use disk_pulse.Incidents.Db.{
  open_status, resolved, Category, TelemetryEnvelope, Incident, IncidentCorrelationState,
  IncidentDb, get_incident,
}
use disk_pulse.Incidents.Correlation.{
  CorrelationResult, Chosen, choose, create, existing, touched, reopen, current_incident,
  correlate_locked, append_evidence, advance, settle, correlation_key, bucket_start, taken,
  is_resolved, new_incident, write_incident,
}
use disk_pulse.Incidents.Correlation.Replay.{
  Ends, replayed, refused, settled, correlate_locked-Ends,
}

-- What correlation may make of an incident: the evidence grows newer, a critical severity stays, and
-- the status stays or goes from resolved to open.
pub record Grows (i j : Incident) : Type 0 where
  pub id : j.id ≡ i.id
  pub opened : j.opened_at ≡ i.opened_at
  pub assigned : j.assigned_user_id ≡ i.assigned_user_id
  pub newer : i.last_evidence_at ≤ j.last_evidence_at
  pub critical : i.severity ≡ "critical" → j.severity ≡ "critical"
  pub status : (j.status ≡ i.status) ⊎ (i.status ≡ resolved) × (j.status ≡ open_status)

Grows-refl : (i : Incident) → Grows i i
Grows-refl i = record {
  id = refl;
  opened = refl;
  assigned = refl;
  newer = omega arith;
  critical = λ h. h;
  status = inl refl;
}

touched-Grows : (envelope : TelemetryEnvelope) (i : Incident) → Grows i (touched envelope i)
unfolding touched
touched-Grows envelope i = record {
  id = refl;
  opened = refl;
  assigned = refl;
  newer = ground arith;
  critical = λ h. ground (arith, h);
  status = inl refl;
}

reopen-Grows :
    (envelope : TelemetryEnvelope) (i : Incident)
    → is_resolved i.status ≡ true
    → Grows i (reopen envelope i)
unfolding reopen
reopen-Grows envelope i h =
    let g = touched-Grows envelope i in
    record {
      id = g.id;
      opened = g.opened;
      assigned = g.assigned;
      newer = g.newer;
      critical = g.critical;
      status = inr (ground (arith, h), refl);
    }

-- Every incident of the first tables is in the second ones, and has only grown.
abbrev pub Kept : IncidentDb → IncidentDb → Type 0
Kept db db' =
    (n : ℕ) (i : Incident)
    → get_incident db n ≡ some i
    → (j : Incident) × (get_incident db' n ≡ some j) × Grows i j

write-Kept :
    (db : IncidentDb) (i j : Incident)
    → get_incident db i.id ≡ some i
    → Grows i j
    → Kept db (write_incident j db)
write-Kept db i j found g n k at =
    let same : (find (λ (x : Incident). x.id == n) (write_incident j db).incidents
        ≡ Option.map (λ (x : Incident). if x.id == j.id then j else x) (get_incident db n)) =
      find-update_where (λ (x : Incident). x.id == j.id) (λ (x : Incident). x.id == n) (λ _. j)
        (λ x h. ground (arith, h)) db.incidents in
    elim (Bool-cases (k.id == j.id)) [
      | inl e ↦
          let n_i : n ≡ i.id = ground (arith, find-eq_some _ db.incidents at, e, g.id) in
          let i_k : i ≡ k = ground (arith, found, rw n_i at at) in
          (j, same ∙ rw (at, e) refl, rw i_k at g)
      | inr e ↦ (k, same ∙ rw (at, e) refl, Grows-refl k)
    ]

pub create-incidents :
    (envelope : TelemetryEnvelope) (category : Category) (db : IncidentDb) (c : Chosen)
    → create envelope category db ≡ ok c
    → c.db.incidents ≡ db.incidents ++ new_incident envelope category db.next_incident_id ∷ []
unfolding create
create-incidents envelope category db c h =
    elim (Bool-cases (
      any (taken (correlation_key envelope.asset_ref category) (bucket_start envelope.observed_at))
        db.incidents)) [
          | inl e ↦ ground (arith, rw (e, create) at h)
          | inr e ↦ ground (arith, rw (e, create) at h)
        ]

create-Kept :
    (envelope : TelemetryEnvelope) (category : Category) (db : IncidentDb) (c : Chosen)
    → create envelope category db ≡ ok c
    → Kept db c.db
create-Kept envelope category db c h n i at = (
  i,
  rw
      (
        create-incidents envelope category db c h,
        find-append_one (λ (x : Incident). x.id == n) db.incidents,
        at,
      )
      refl,
  Grows-refl i,
)

existing-Kept :
    (envelope : TelemetryEnvelope) (i : Incident) (db : IncidentDb)
    → get_incident db i.id ≡ some i
    → Kept db (existing envelope i db).db
unfolding existing
existing-Kept envelope i db found = elim (Bool-cases (is_resolved i.status)) [
  | inl e ↦ rw e (write-Kept db i (reopen envelope i) found (reopen-Grows envelope i e))
  | inr e ↦ rw e (write-Kept db i (touched envelope i) found (touched-Grows envelope i))
]

pub current_incident-found :
    (window : ℕ) (state : IncidentCorrelationState) (t : ℕ) (db : IncidentDb) (i : Incident)
    → current_incident window state t db ≡ some i
    → get_incident db i.id ≡ some i
unfolding current_incident
current_incident-found window state t db i h = elim (Option-cases state.incident_id) [
  | inl e ↦ ground (arith, h, e)
  | inr (n, e) ↦
      let found : get_incident db n ≡ some i = ground (arith, h, e) in
      let same : i.id ≡ n = ground (arith, find-eq_some _ db.incidents found) in
      ap (get_incident db) same ∙ found
]

choose-Kept :
    (envelope : TelemetryEnvelope) (category : Category) (o : Option Incident) (db : IncidentDb)
    (c : Chosen)
    → ((i : Incident) → o ≡ some i → get_incident db i.id ≡ some i)
    → choose envelope category o db ≡ ok c
    → Kept db c.db
unfolding choose
choose-Kept envelope category none db c found h = create-Kept envelope category db c h
choose-Kept envelope category (some i) db c found h =
    let same : existing envelope i db ≡ c = ground (arith, h) in
    rw same at (existing-Kept envelope i db (found i refl))

advance-incidents :
    (state : IncidentCorrelationState) (n t : ℕ) (db : IncidentDb)
    → (advance state n t db).incidents ≡ db.incidents
unfolding advance
advance-incidents state n t db = ground arith

pub settle-incidents :
    (envelope : TelemetryEnvelope) (state : IncidentCorrelationState) (db : IncidentDb) (c : Chosen)
    → (settle envelope state db (ok c)).1.incidents ≡ c.db.incidents
unfolding settle append_evidence
settle-incidents envelope state db c = advance-incidents state c.incident_id envelope.observed_at _

Ends-Kept :
    {window : ℕ} {envelope : TelemetryEnvelope} {category : Category}
    {state : IncidentCorrelationState} {db : IncidentDb} {r : Result CorrelationResult × IncidentDb}
    → Ends window envelope category state db r
    → Kept db r.1
Ends-Kept (replayed e found) n i at = (i, at, Grows-refl i)
Ends-Kept (refused e absent k) n i at = (i, at, Grows-refl i)
Ends-Kept {window} {envelope} {category} {state} {db} (settled chosen absent k) n i at =
    let (j, found, g) =
      choose-Kept envelope category (current_incident window state envelope.observed_at db) db
        chosen (current_incident-found window state envelope.observed_at db) k n i at in
    (j, rw (settle-incidents envelope state db chosen) found, g)

-- Behind the lock a correlation, even one that fails, loses no incident, and of each incident keeps
-- the opening and the assignee: the time of its evidence never goes back, a critical severity stays
-- critical, and its status changes only from resolved to open.
pub correlate_locked-Kept :
    (window : ℕ) (envelope : TelemetryEnvelope) (category : Category)
    (state : IncidentCorrelationState) (db : IncidentDb)
    → Kept db (correlate_locked window envelope category (state, db)).1
correlate_locked-Kept window envelope category state db =
    Ends-Kept (correlate_locked-Ends window envelope category state db)
