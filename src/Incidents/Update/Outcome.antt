-- ===== src/Incidents/Update/Outcome.antt =====
-- What an update of an incident changes, and when it is refused.
use disk_pulse.Prelude.{
  ℕ, ◌≡◌, ◌↔◌, inl, inr, refl, ◌∙◌, ap, Bool, true, false, Option, none, some, [], arith,
  if◌then◌else◌, Option-cases,
}
use disk_pulse.Prelude.Exec.{Result, ok, err}
use disk_pulse.Prelude.Time.{Instant}
use disk_pulse.Access.Db.{Role, editor, User, is_super_admin}
use disk_pulse.Access.Db
use disk_pulse.Access.Service.{require_project_permission}
use disk_pulse.Incidents.Db.{Status, Incident, IncidentDb, get_incident}
use disk_pulse.Incidents.Correlation.{is_resolved}
use disk_pulse.Incidents.Update.{
  IncidentUpdate, Edit, require_visible_incident, edit_severity, edit_status, edit_claim,
  edit_silence, edit_incident, update_incident, can_transition, and_then, visible,
}

-- Same status and same time of the resolution.
pub record SameStatus (i j : Incident) : Type 0 where
  pub id : j.id ≡ i.id
  pub status : j.status ≡ i.status
  pub resolved_at : j.resolved_at ≡ i.resolved_at

edit_severity-SameStatus :
    (user : User) (request : IncidentUpdate) (edit : Edit)
    → SameStatus edit.incident (edit_severity user request edit).incident
unfolding edit_severity
edit_severity-SameStatus user request edit = record {
  id = ground arith;
  status = ground arith;
  resolved_at = ground arith;
}

edit_silence-SameStatus :
    (user : User) (request : IncidentUpdate) (edit : Edit)
    → SameStatus edit.incident (edit_silence user request edit).incident
unfolding edit_silence
edit_silence-SameStatus user request edit = record {
  id = ground arith;
  status = ground arith;
  resolved_at = ground arith;
}

edit_claim-SameStatus :
    (super_admin : Bool) (user : User) (request : IncidentUpdate) (edit edit' : Edit)
    → edit_claim super_admin user request edit ≡ ok edit'
    → SameStatus edit.incident edit'.incident
unfolding edit_claim
edit_claim-SameStatus super_admin user request edit edit' h = record {
  id = ground arith;
  status = ground arith;
  resolved_at = ground arith;
}

-- What the request makes of the status.
pub record Moves (now : Instant) (request : IncidentUpdate) (i j : Incident) : Type 0 where
  pub id : j.id ≡ i.id
  pub stays : request.target_status ≡ none → (j.status ≡ i.status) × (j.resolved_at ≡ i.resolved_at)
  pub goes :
      (target : Status)
      → request.target_status ≡ some target
      → (can_transition i.status target ≡ true)
        × (j.status ≡ target)
        × (j.resolved_at ≡ (if is_resolved target then some now else none))

edit_status-Moves :
    (user : User) (now : Instant) (request : IncidentUpdate) (edit edit' : Edit)
    → edit_status user now request edit ≡ ok edit'
    → Moves now request edit.incident edit'.incident
unfolding edit_status
edit_status-Moves user now request edit edit' h = record {
  id = ground arith;
  stays = λ e. (ground arith, ground arith);
  goes = λ target e. (ground arith, ground arith, ground arith);
}

ok_of :
    {A : Type 0} {B : Type 0} (r : Result A) (f : A → Result B) (b : B)
    → and_then r f ≡ ok b
    → (a : A) × (r ≡ ok a) × (f a ≡ ok b)
ok_of (ok a) f b h = (a, refl, h)
ok_of (err e) f b h = ground (arith, h)

edit_incident-Moves :
    (super_admin : Bool) (user : User) (now : Instant) (request : IncidentUpdate) (i : Incident)
    (edit : Edit)
    → edit_incident super_admin user now request i ≡ ok edit
    → Moves now request i edit.incident
unfolding edit_incident
edit_incident-Moves super_admin user now request i edit h =
    let first =
      edit_severity user request (record { incident = i; timeline = []; changed = false }) in
    let (second, e1, rest) = ok_of (edit_status user now request first) _ edit h in
    let (third, e2, rest') = ok_of (edit_claim super_admin user request second) _ edit rest in
    let last : edit_silence user request third ≡ edit = ground (arith, rest') in
    let s1 =
      edit_severity-SameStatus user request
        (record { incident = i; timeline = []; changed = false }) in
    let m = edit_status-Moves user now request first second e1 in
    let s2 = edit_claim-SameStatus super_admin user request second third e2 in
    let s3 = rw last at (edit_silence-SameStatus user request third) in
    record {
      id = s3.id ∙ s2.id ∙ m.id ∙ s1.id;
      stays = λ e.
          let (a, b) = m.stays e in
          (
            s3.status ∙ s2.status ∙ a ∙ s1.status,
            s3.resolved_at ∙ s2.resolved_at ∙ b ∙ s1.resolved_at,
          );
      goes = λ target e.
          let (a, b, c) = m.goes target e in
          (rw s1.status at a, s3.status ∙ s2.status ∙ b, s3.resolved_at ∙ s2.resolved_at ∙ c);
    }

-- The permission that an incident of the project asks for.
abbrev pub Granted : Db.Db → User → Role → Option ℕ → Type 0
Granted access user role none = is_super_admin access user ≡ true
Granted access user role (some p) = require_project_permission access (some user) p role ≡ ok tt

visible_iff :
    (access : Db.Db) (user : User) (role : Role) (i j : Incident) (project : Option ℕ)
    → (visible access user role i project ≡ ok j) ↔ ((i ≡ j) × Granted access user role project)
visible_iff access user role i j none = (λ h. (ground arith, ground arith), λ h. ground arith)
visible_iff access user role i j (some p) = (λ h. (ground arith, ground arith), λ h. ground arith)

-- An incident is visible with a role to those whose permission on its project grants the role, and an
-- incident without a project to the super administrators.
pub require_visible_incident_iff :
    (access : Db.Db) (db : IncidentDb) (user : User) (n : ℕ) (role : Role) (i : Incident)
    → (require_visible_incident access db user n role ≡ ok i)
      ↔ ((get_incident db n ≡ some i) × Granted access user role i.project_id)
unfolding require_visible_incident
require_visible_incident_iff access db user n role i = elim (Option-cases (get_incident db n)) [
  | inl gone ↦ (λ h. ground arith, λ h. ground arith)
  | inr (j, found) ↦
      let (there, back) = visible_iff access user role j i j.project_id in
      (
        λ h.
            let (same, grants) = there (rw (found, require_visible_incident) at h) in
            (found ∙ ap some same, rw same at grants),
        λ h.
            let same : j ≡ i = ground (arith, found, h.0) in
            rw (found, require_visible_incident) (back (same, rw (← same) at h.1)),
      )
]

-- An update that returns is one of an incident that is there, by somebody who may edit it. Without a
-- target status the status and the time of the resolution stay; with one, the status was the one
-- right before it in the order of the states, and the time of the resolution is set exactly if the
-- incident is resolved now.
pub update_incident-Moves :
    (access : Db.Db) (db : IncidentDb) (user : User) (n : ℕ) (now : Instant)
    (request : IncidentUpdate) (edit : Edit)
    → update_incident access db user n now request ≡ ok edit
    → (i : Incident) × (get_incident db n ≡ some i)
      × Granted access user editor i.project_id
      × Moves now request i edit.incident
unfolding update_incident
update_incident-Moves access db user n now request edit h =
    let (i, e, rest) = ok_of (require_visible_incident access db user n editor) _ edit h in
    let (found, granted) = (require_visible_incident_iff access db user n editor i).0 e in
    (
      i,
      found,
      granted,
      edit_incident-Moves (is_super_admin access user) user now request i edit rest,
    )
