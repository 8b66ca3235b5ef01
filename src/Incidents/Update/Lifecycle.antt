-- ===== src/Incidents/Update/Lifecycle.antt =====
-- An incident over a history of updates.
use mathlib.Core.Option
use disk_pulse.Prelude.{
  ℕ, ◌+◌, ◌≡◌, inl, inr, refl, ◌∙◌, true, false, ◌&&◌, some, List, [], ◌∷◌, arith, ◌==◌,
  if◌then◌else◌, is_some, Bool-cases, Option-cases, find-update_where, find-eq_some, All,
  All-update_where, All-find,
}
use disk_pulse.Prelude.Exec.{Result, ok, err, Result-cases}
use disk_pulse.Prelude.Time.{Instant}
use disk_pulse.Access.Db.{User}
use disk_pulse.Access.Db
use disk_pulse.Incidents.Db.{
  Status, open_status, acknowledged, investigating, mitigated, resolved, Incident, IncidentDb,
  get_incident,
}
use disk_pulse.Incidents.Correlation.Consistency.{IsConsistent}
use disk_pulse.Incidents.Update.{IncidentUpdate, Edit, update_incident, can_transition, commit}
use disk_pulse.Incidents.Update.Outcome.{Moves, update_incident-Moves}

-- The place of a status in `INCIDENT_STATES`.
abbrev pub state_index : Status → ℕ
state_index open_status = 0
state_index acknowledged = 1
state_index investigating = 2
state_index mitigated = 3
state_index resolved = 4

-- One call of the service: who, which incident, when, and what.
pub record Call : Type 0 where
  pub user : User
  pub incident_id : ℕ
  pub now : Instant
  pub request : IncidentUpdate

abbrev pub outcome : Db.Db → IncidentDb → Call → Result Edit
outcome access db c = update_incident access db c.user c.incident_id c.now c.request

-- The calls one after the other, each in a transaction of its own.
unfoldable pub run : Db.Db → List Call → IncidentDb → IncidentDb
run access [] db = db
run access (c ∷ calls) db = run access calls (commit (outcome access db c) db)

-- Whether a call moves the status of the incident `n`.
abbrev moved : ℕ → Call → Result Edit → ℕ
moved n c (err e) = 0
moved n c (ok edit) = if c.incident_id == n && is_some c.request.target_status then 1 else 0

-- The number of calls of a history that move the status of the incident `n`.
unfoldable pub moves : Db.Db → ℕ → List Call → IncidentDb → ℕ
moves access n [] db = 0
moves access n (c ∷ calls) db =
    let rest = moves access n calls (commit (outcome access db c) db) in
    moved n c (outcome access db c) + rest

Moves-index :
    (now : Instant) (request : IncidentUpdate) (i j : Incident)
    → Moves now request i j
    → state_index j.status ≡ state_index i.status + (if is_some request.target_status then 1 else 0)
Moves-index now request i j m = elim (Option-cases request.target_status) [
  | inl e ↦ rw (e, (m.stays e).0) (ground arith)
  | inr (target, e) ↦ let (a, b, _) = m.goes target e in rw (e, b) (edge i.status target a)
]
  where
    edge : (s t : Status) → can_transition s t ≡ true → state_index t ≡ state_index s + 1
    edge s t h = ground (arith, h)

step :
    (access : Db.Db) (db : IncidentDb) (c : Call) (n : ℕ) (i : Incident)
    → get_incident db n ≡ some i
    → (j : Incident) × (get_incident (commit (outcome access db c) db) n ≡ some j)
      × (state_index j.status ≡ state_index i.status + moved n c (outcome access db c))
step access db c n i at = elim (Result-cases (outcome access db c)) [
  | inl (e, h) ↦ rw h (i, at, omega arith)
  | inr (edit, h) ↦ rw h (committed edit h)
]
  where
    committed :
        (edit : Edit)
        → outcome access db c ≡ ok edit
        → (j : Incident) × (get_incident (commit (ok edit) db) n ≡ some j)
          × (state_index j.status ≡ state_index i.status + moved n c (ok edit))
    committed edit h =
        let (k, found, _, m) =
          update_incident-Moves access db c.user c.incident_id c.now c.request edit h in
        let same : (get_incident (commit (ok edit) db) n
            ≡ Option.map (λ (x : Incident). if x.id == edit.incident.id then edit.incident else x)
                (get_incident db n)) =
          find-update_where (λ (x : Incident). x.id == edit.incident.id)
            (λ (x : Incident). x.id == n) (λ _. edit.incident) (λ x h. ground (arith, h))
            db.incidents in
        let k_id : k.id ≡ c.incident_id = ground (arith, find-eq_some _ db.incidents found) in
        let i_id : i.id ≡ n = ground (arith, find-eq_some _ db.incidents at) in
        elim (Bool-cases (i.id == edit.incident.id)) [
          | inl e ↦
              let here : c.incident_id ≡ n = ground (arith, e, m.id) in
              let k_i : k ≡ i = ground (arith, at, rw here at found) in
              (
                edit.incident,
                same ∙ rw (at, e) refl,
                ground (arith, here, rw k_i at (Moves-index c.now c.request k edit.incident m)),
              )
          | inr e ↦
              let apart : (c.incident_id == n) ≡ false = ground (arith, e, m.id, k_id, i_id) in
              (i, same ∙ rw (at, e) refl, rw apart (omega arith))
        ]

-- The status of an incident over any history of updates by anybody: the calls that move it move it one
-- place each, so that it takes four of them to resolve an open incident, and none moves it back.
pub run-state_index :
    (access : Db.Db) (calls : List Call) (db : IncidentDb) (n : ℕ) (i : Incident)
    → get_incident db n ≡ some i
    → (j : Incident) × (get_incident (run access calls db) n ≡ some j)
      × (state_index j.status ≡ state_index i.status + moves access n calls db)
unfolding run moves
run-state_index access [] db n i at = (i, at, omega arith)
run-state_index access (c ∷ calls) db n i at =
    let (j, found, one) = step access db c n i at in
    let (k, found', rest) =
      run-state_index access calls (commit (outcome access db c) db) n j found in
    (k, found', omega (arith, one, rest))

after :
    (now : Instant) (request : IncidentUpdate) (i j : Incident)
    → Moves now request i j
    → IsConsistent i
    → IsConsistent j
after now request i j m h = elim (Option-cases request.target_status) [
  | inl e ↦ let (a, b) = m.stays e in rw (a, b) h
  | inr (target, e) ↦ let (_, b, c) = m.goes target e in rw (b, c) (ground arith)
]

commit-IsConsistent :
    (access : Db.Db) (db : IncidentDb) (c : Call) (r : Result Edit)
    → outcome access db c ≡ r
    → All IsConsistent db.incidents
    → All IsConsistent (commit r db).incidents
commit-IsConsistent access db c (err e) h all = all
commit-IsConsistent access db c (ok edit) h all =
    let (k, found, _, m) =
      update_incident-Moves access db c.user c.incident_id c.now c.request edit h in
    let (one, _) =
      All-find IsConsistent (λ (x : Incident). x.id == c.incident_id) db.incidents all found in
    All-update_where IsConsistent _ _ (λ x _ _. after c.now c.request k edit.incident m one)
      db.incidents all

-- Over any history of updates every incident has the time of its resolution exactly while it is resolved.
pub run-IsConsistent :
    (access : Db.Db) (calls : List Call) (db : IncidentDb)
    → All IsConsistent db.incidents
    → All IsConsistent (run access calls db).incidents
unfolding run
run-IsConsistent access [] db all = all
run-IsConsistent access (c ∷ calls) db all =
    run-IsConsistent access calls (commit (outcome access db c) db)
      (commit-IsConsistent access db c (outcome access db c) refl all)
