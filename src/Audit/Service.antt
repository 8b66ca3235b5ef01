-- ===== src/Audit/Service.antt =====
-- `append_audit_event`, `list_visible_audit_events` and `get_visible_audit_event` of
-- backend/services/audit_service.py, with `list_audit_events` of backend/crud/auditCrud.py. How the
-- database orders the rows is a parameter, and so are the key and the time that a row gets. The texts of
-- uuids are taken as normalized.
pub mod Pages
pub mod Visible
pub mod Shown
use text.Mathlib.Text.{◌==◌ as str_eq}
use disk_pulse.Prelude.{
  ℕ, zero, suc, ◌+◌, ◌-◌, ◌*◌, String, Bool, true, false, not, ◌&&◌, ◌||◌, Option, none, some, List,
  [], ◌∷◌, ◌++◌, ◌==◌, ◌=?◌, if◌then◌else◌, leb, length, find, select, any,
}
use disk_pulse.Prelude.Time.{Instant}
use disk_pulse.Prelude.Exec.{Result, ok, err, Error, http_exception, value_error, Exec}
use disk_pulse.Access.Db.{Db, User, project_admin, is_super_admin}
use disk_pulse.Access.Service.{require_project_permission}
use disk_pulse.Audit.Redaction.{Python, Value, redact_audit_payload}

pub record AuditContext : Type 0 where
  pub request_id : String
  pub trace_id : String
  pub operation_id : String
  pub actor_type : String
  pub actor_user_id : Option ℕ

pub record AuditEvent (Payload : Type 0) : Type 0 where
  pub id : String
  pub context : AuditContext
  pub phase : String
  pub occurred_at : Instant
  pub action : String
  pub resource_type : String
  pub resource_id : Option ℕ
  pub project_id : Option ℕ
  pub outcome : String
  pub reason_code : Option String
  pub before_summary : Payload
  pub after_summary : Payload
  pub metadata : Payload

abbrev pub phases : List String
phases = "attempt" ∷ "result" ∷ []

abbrev pub outcomes : List String
outcomes = "success" ∷ "denied" ∷ "failure" ∷ []

-- `text in texts`
abbrev one_of : List String → String → Bool
one_of texts s = any (str_eq s) texts

module _ {Date Object : Type 0} (python : Python Date Object) where
  -- The arguments stand in a row; its summaries are redacted here.
  unfoldable pub redact_event : AuditEvent (Value Date Object) → AuditEvent (Value Date Object)
  redact_event e = record e {
    before_summary = redact_audit_payload python none e.before_summary;
    after_summary = redact_audit_payload python none e.after_summary;
    metadata = redact_audit_payload python none e.metadata;
  }

  unfoldable pub append_audit_event :
      AuditEvent (Value Date Object)
      → Exec (List (AuditEvent (Value Date Object))) (AuditEvent (Value Date Object))
  unfolding redact_event
  append_audit_event e rows =
      if not (one_of phases e.phase)
      then (err (value_error "unsupported audit phase"), rows)
      else if not (one_of outcomes e.outcome)
      then (err (value_error "unsupported audit outcome"), rows)
      else if str_eq e.action "" || str_eq e.resource_type ""
      then (err (value_error "audit action and resource type are required"), rows)
      else (ok (redact_event e), rows ++ redact_event e ∷ [])

  -- The payload that is shown, but for the texts of the numbers.
  unfoldable pub serialize_audit_event :
      AuditEvent (Value Date Object) → AuditEvent (Value Date Object)
  unfolding redact_event
  serialize_audit_event e = redact_event e

pub record Filter : Type 0 where
  pub project_id : Option ℕ
  pub actor_user_id : Option ℕ
  pub action : Option String
  pub outcome : Option String
  pub start_time : Option Instant
  pub end_time : Option Instant

-- `column == n`, where `n` is given
abbrev pub column : Option ℕ → Option ℕ → Bool
column x none = true
column x (some n) = x =? n

-- `if text: column == text`
abbrev named : String → Option String → Bool
named x none = true
named x (some s) = str_eq s "" || str_eq x s

abbrev since : Instant → Option Instant → Bool
since t none = true
since t (some u) = leb u t

abbrev till : Instant → Option Instant → Bool
till t none = true
till t (some u) = leb t u

unfoldable pub take {ℓ} : {A : Type ℓ} → ℕ → List A → List A
take zero xs = []
take (suc n) [] = []
take (suc n) (x ∷ xs) = x ∷ take n xs

unfoldable pub drop {ℓ} : {A : Type ℓ} → ℕ → List A → List A
drop zero xs = xs
drop (suc n) [] = []
drop (suc n) (x ∷ xs) = drop n xs

-- The permission to list, by the project that is selected.
unfoldable pub may_list : Db → User → Option ℕ → Result (Unit {0})
may_list db user none = err (http_exception 403 "project administrators must select a project")
may_list db user (some project_id) =
    require_project_permission db (some user) project_id project_admin

module _ {Payload : Type 0} where
  unfoldable pub admits : Filter → AuditEvent Payload → Bool
  admits f e =
      column e.project_id f.project_id
      && column e.context.actor_user_id f.actor_user_id
      && named e.action f.action
      && named e.outcome f.outcome
      && since e.occurred_at f.start_time
      && till e.occurred_at f.end_time

  -- The rows of a page, whose number is counted from one.
  unfoldable pub page_of : (page size : ℕ) → List (AuditEvent Payload) → List (AuditEvent Payload)
  unfolding take drop
  page_of page size rows = take size (drop ((page - 1) * size) rows)

  module _ (order_by : List (AuditEvent Payload) → List (AuditEvent Payload)) where
    unfoldable pub list_audit_events :
        List (AuditEvent Payload) → (page size : ℕ) → Filter → List (AuditEvent Payload) × ℕ
    unfolding admits page_of
    list_audit_events rows page size f =
        let matching = select (admits f) rows in
        (page_of page size (order_by matching), length matching)

    unfoldable pub list_visible_audit_events :
        Db
        → User
        → List (AuditEvent Payload)
        → (page size : ℕ) → Filter
        → Result (List (AuditEvent Payload) × ℕ)
    unfolding list_audit_events may_list
    list_visible_audit_events db user rows page size f =
        if is_super_admin db user
        then ok (list_audit_events rows page size f)
        else elim (may_list db user f.project_id) [
          | err e ↦ err e
          | ok _ ↦ ok (list_audit_events rows page size f)
        ]

  -- An event that exists, by its project.
  unfoldable pub visible_event :
      Db → User → AuditEvent Payload → Option ℕ → Result (AuditEvent Payload)
  visible_event db user e none =
      if is_super_admin db user
      then ok e
      else err (http_exception 403 "project permission required")
  visible_event db user e (some project_id) =
      if is_super_admin db user
      then ok e
      else elim (require_project_permission db (some user) project_id project_admin) [
        | err x ↦ err x
        | ok _ ↦ ok e
      ]

  unfoldable pub get_visible_audit_event :
      Db → User → List (AuditEvent Payload) → String → Result (AuditEvent Payload)
  unfolding visible_event
  get_visible_audit_event db user rows event_id =
      elim (find (λ (e : AuditEvent Payload). str_eq e.id event_id) rows) [
        | none ↦ err (http_exception 404 "audit event was not found")
        | some e ↦ visible_event db user e e.project_id
      ]
