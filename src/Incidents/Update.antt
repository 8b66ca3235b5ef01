-- ===== src/Incidents/Update.antt =====
-- `require_visible_incident`, `update_incident`, `incident_capabilities` and
-- `create_maintenance_window` of backend/services/forecastIncidentService.py. An update is a chain of
-- edits of the row, with the timeline rows that they add; an exception rolls the transaction back, so
-- it answers with an error and no row. `now` is the clock's reading. Audit rows are left out.
pub mod Outcome
pub mod Lifecycle
use text.Mathlib.Text.{◌==◌ as str_eq}
use disk_pulse.Prelude.{
  ℕ, String, Bool, true, false, not, ◌&&◌, ◌||◌, Option, none, some, List, [], ◌∷◌, ◌++◌, leb, ◌==◌,
  ◌=?◌, if◌then◌else◌, is_some,
}
use disk_pulse.Prelude.Exec.{Result, ok, err, http_exception, value_error}
use disk_pulse.Prelude.Time.{Instant}
use disk_pulse.Access.Db.{Role, editor, project_admin, User, is_super_admin}
use disk_pulse.Access.Db
use disk_pulse.Access.Service.{require_project_permission, IncidentCapabilities}
use disk_pulse.Access.Service
use disk_pulse.Incidents.Db.{
  Status, resolved, Incident, IncidentTimeline, TimelineEvent, claimed, released, status_changed,
  severity_changed, silenced, unsilenced, MaintenanceWindow, IncidentDb, get_incident,
}
use disk_pulse.Incidents.Correlation.{is_resolved, write_incident}

abbrev pub and_then {ℓ κ} : {A : Type ℓ} {B : Type κ} → Result A → (A → Result B) → Result B
and_then (ok a) f = f a
and_then (err e) f = err e

abbrev pub visible : Db.Db → User → Role → Incident → Option ℕ → Result Incident
visible access user minimum_role incident none =
    if not (is_super_admin access user)
    then err (http_exception 403 "project permission required")
    else ok incident
visible access user minimum_role incident (some p) =
    and_then (require_project_permission access (some user) p minimum_role) (λ _. ok incident)

unfoldable pub require_visible_incident : Db.Db → IncidentDb → User → ℕ → Role → Result Incident
require_visible_incident access db user incident_id minimum_role =
    elim (get_incident db incident_id) [
      | none ↦ err (http_exception 404 "incident was not found")
      | some incident ↦ visible access user minimum_role incident incident.project_id
    ]

pub record IncidentUpdate : Type 0 where
  pub target_status : Option Status
  pub target_severity : Option String
  pub claim : Option Bool
  pub silenced_until : Option Instant
  pub silence_reason : Option String
  pub silence_requested : Bool

pub record Edit : Type 0 where
  pub incident : Incident
  pub timeline : List IncidentTimeline
  pub changed : Bool

-- The row as it is now, with one more row of the timeline.
abbrev edited : Edit → Incident → User → TimelineEvent → Option Status → Option Status → Edit
edited edit incident user event from to = record {
  incident = incident;
  timeline =
      edit.timeline
      ++ record {
        incident_id = incident.id;
        event_type = event;
        actor_user_id = some user.id;
        from_status = from;
        to_status = to;
      }
        ∷ [];
  changed = true;
}

unfoldable pub edit_severity : User → IncidentUpdate → Edit → Edit
edit_severity user request edit = elim request.target_severity [
  | none ↦ edit
  | some severity ↦
      if str_eq severity edit.incident.severity
      then edit
      else edited edit (record (edit.incident) { severity = severity }) user severity_changed none
          none
]

-- `can_transition_incident` without a reopening by the system: `_NEXT_STATE` is the order of the states.
abbrev pub can_transition : Status → Status → Bool
can_transition Status.open_status Status.acknowledged = true
can_transition Status.acknowledged Status.investigating = true
can_transition Status.investigating Status.mitigated = true
can_transition Status.mitigated resolved = true
can_transition _ _ = false

unfoldable pub edit_status : User → Instant → IncidentUpdate → Edit → Result Edit
edit_status user now request edit = elim request.target_status [
  | none ↦ ok edit
  | some target ↦
      if not (can_transition edit.incident.status target)
      then err (value_error "invalid incident status transition")
      else ok (
          edited edit
            (record (edit.incident) {
              status = target;
              resolved_at = if is_resolved target then some now else none;
            })
            user status_changed (some edit.incident.status) (some target))
]

-- `incident.assigned_user_id not in (None, current_user.id)`
abbrev pub held_by_other : Option ℕ → ℕ → Bool
held_by_other none user = false
held_by_other (some n) user = not (n == user)

unfoldable pub edit_claim : Bool → User → IncidentUpdate → Edit → Result Edit
edit_claim super_admin user request edit = elim request.claim [
  | none ↦ ok edit
  | some true ↦ ok (
      edited edit (record (edit.incident) { assigned_user_id = some user.id }) user claimed none
        none)
  | some false ↦
      if held_by_other edit.incident.assigned_user_id user.id && not super_admin
      then err (http_exception 403 "only the assignee can release this incident")
      else ok
          (edited edit (record (edit.incident) { assigned_user_id = none }) user released none none)
]

unfoldable pub edit_silence : User → IncidentUpdate → Edit → Edit
edit_silence user request edit =
    if request.silence_requested
    then elim request.silenced_until [
      | some until ↦
          edited edit
            (record (edit.incident) {
              silenced_until = some until;
              silence_reason = request.silence_reason;
            })
            user silenced none none
      | none ↦
          edited edit (record (edit.incident) { silenced_until = none; silence_reason = none }) user
            unsilenced none none
    ]
    else edit

abbrev pub require_changed : Edit → Result Edit
require_changed edit =
    if edit.changed then ok edit else err (http_exception 422 "no incident update supplied")

-- The edits in the order of the code.
unfoldable pub edit_incident : Bool → User → Instant → IncidentUpdate → Incident → Result Edit
unfolding edit_severity edit_status edit_claim edit_silence
edit_incident super_admin user now request incident =
    and_then
      (edit_status user now request (
        edit_severity user request
          (record { incident = incident; timeline = []; changed = false })))
      λ edit.
        and_then (edit_claim super_admin user request edit)
          λ edit'. require_changed (edit_silence user request edit')

unfoldable pub update_incident :
    Db.Db → IncidentDb → User → ℕ → Instant → IncidentUpdate → Result Edit
update_incident access db user incident_id now request =
    and_then (require_visible_incident access db user incident_id editor)
      (edit_incident (is_super_admin access user) user now request)

-- The tables after the transaction, committed or rolled back.
abbrev pub commit : Result Edit → IncidentDb → IncidentDb
commit (err _) db = db
commit (ok edit) db = record (write_incident edit.incident db) {
  timeline = db.timeline ++ edit.timeline;
}

pub record AssignmentCapabilities : Type 0 where
  pub base : IncidentCapabilities
  pub claim : Bool
  pub release : Bool

abbrev is_assignee : Option User → Option ℕ → Bool
is_assignee none assigned = false
is_assignee (some user) assigned = assigned =? user.id

abbrev is_super : Db.Db → Option User → Bool
is_super access none = false
is_super access (some user) = is_super_admin access user

unfoldable pub incident_capabilities : Db.Db → Option User → Incident → AssignmentCapabilities
incident_capabilities access user incident =
    let base = Service.incident_capabilities access user incident.project_id in
    record {
      base = base;
      claim = base.edit && not (is_some incident.assigned_user_id);
      release =
          base.edit
          && is_some incident.assigned_user_id
          && (is_assignee user incident.assigned_user_id || is_super access user);
    }

abbrev window_permission : Db.Db → User → Option ℕ → Result (Unit {0})
window_permission access user none =
    if is_super_admin access user
    then ok tt
    else err (http_exception 403 "super admin permission required")
window_permission access user (some p) =
    require_project_permission access (some user) p project_admin

unfoldable pub create_maintenance_window :
    Db.Db → User → MaintenanceWindow → IncidentDb → Result (Unit {0}) × IncidentDb
create_maintenance_window access user window db =
    if leb window.ends_at window.starts_at
    then (err (http_exception 422 "maintenance window end must follow start"), db)
    else elim (window_permission access user window.project_id) [
      | err e ↦ (err e, db)
      | ok _ ↦ (ok tt, record db { windows = db.windows ++ window ∷ [] })
    ]
