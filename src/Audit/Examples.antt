-- ===== src/Audit/Examples.antt =====
-- The theorems about the audit trail at concrete inputs.
use package.text.Mathlib.Text.{◌==◌ as str_eq}
use disk_pulse.Prelude.{
  false, ℕ, ◌≤◌, String, ◌≡◌, refl, true, none, some, List, [], ◌∷◌, ◌++◌, arith, length, find,
  select, All, any,
}
use disk_pulse.Prelude.Text.{prefix}
use disk_pulse.Access.Db.{Db, User, project_admin, is_super_admin}
use disk_pulse.Access.Service.{require_project_permission}
use disk_pulse.Audit.Redaction.{
  Python, Value, null, text, object, dict, no_entries, entry, redact_audit_payload, redact_shown,
  is_hidden, is_path,
}
use disk_pulse.Audit.Redaction.Safe.{IsSafe}
use disk_pulse.Audit.Service.{
  AuditEvent, AuditContext, Filter, take, drop, page_of, may_list, append_audit_event,
  serialize_audit_event, list_visible_audit_events, list_audit_events, admits, redact_event, phases,
  outcomes,
}
use disk_pulse.Audit.Service.Pages.{pages, pages_complete}
use disk_pulse.Audit.Service.Visible.{MaySee, list_visible_audit_events-MaySee}
use disk_pulse.Audit.Service.Shown.{append_audit_event-IsSafe}

-- Dates do not occur, and the only other objects are paths, by their texts.
abbrev python : Python ℕ String
python = record {
  casefold = λ s. s;
  is_alpha = λ c. true;
  isoformat = λ d. "2026-01-01";
  str = λ s. s;
}

-- A path among the values, one that is an object, and a token.
abbrev summary : Value ℕ String
summary = dict (
    entry "mount" (text "/vol/a")
      (entry "home" (object "/home/lin") (entry "token" (text "t0") no_entries)))

-- After one redaction the path that is an object is still there.
redact_audit_payload_once :
    redact_audit_payload python none summary
    ≡ dict (
        entry "mount"
          (text "[REDACTED]")
          (entry "home" (text "/home/lin") (entry "token" (text "[REDACTED]") no_entries)))
unfolding redact_audit_payload redact_shown is_hidden is_path prefix any
redact_audit_payload_once = refl

abbrev context : AuditContext
context = record {
  request_id = "r";
  trace_id = "t";
  operation_id = "o";
  actor_type = "user";
  actor_user_id = some 8;
}

abbrev quota_event : AuditEvent (Value ℕ String)
quota_event = record {
  id = "e1";
  context = context;
  phase = "attempt";
  occurred_at = 5;
  action = "quota.adjust";
  resource_type = "group";
  resource_id = some 2;
  project_id = some 1;
  outcome = "success";
  reason_code = none;
  before_summary = summary;
  after_summary = null;
  metadata = null;
}

append_audit_event-IsSafe_example :
    let shown = serialize_audit_event python (redact_event python quota_event) in
    (any (str_eq "attempt") phases ≡ true)
    × (any (str_eq "success") outcomes ≡ true)
    × (str_eq quota_event.action "" ≡ false)
    × (str_eq quota_event.resource_type "" ≡ false)
    × (redact_event python quota_event ∷ [] ≡ [] ++ redact_event python quota_event ∷ [])
    × IsSafe python none shown.before_summary
    × IsSafe python none shown.after_summary
    × IsSafe python none shown.metadata
unfolding append_audit_event any
append_audit_event-IsSafe_example =
    append_audit_event-IsSafe python quota_event (redact_event python quota_event) []
      (redact_event python quota_event ∷ []) refl

abbrev db : Db
db = record {
  super_admin_usernames = "root" ∷ [];
  users = [];
  projects = record { id = 1; in_charge_user_id = some 8 } ∷ [];
  groups = [];
  storage_usages = [];
  memberships =
      record {
        id = 1;
        project_id = 1;
        user_id = 8;
        role = project_admin;
        created_by = none;
        updated_by = none;
      }
      ∷ [];
  next_membership_id = 2;
  audits = [];
}

abbrev wang : User
wang = record { id = 8; username = none; rd_username = some "wang"; email = none }

abbrev first_row : AuditEvent ℕ
first_row = record {
  id = "e1";
  context = context;
  phase = "attempt";
  occurred_at = 5;
  action = "quota.adjust";
  resource_type = "group";
  resource_id = some 2;
  project_id = some 1;
  outcome = "success";
  reason_code = none;
  before_summary = 0;
  after_summary = 0;
  metadata = 0;
}

abbrev rows : List (AuditEvent ℕ)
rows = first_row ∷ []

abbrev of_project_one : Filter
of_project_one = record {
  project_id = some 1;
  actor_user_id = none;
  action = none;
  outcome = none;
  start_time = none;
  end_time = none;
}

pages_complete_example :
    pages (λ xs. xs) rows 10 of_project_one 1 ≡ select (admits of_project_one) rows
unfolding list_audit_events select admits
pages_complete_example = pages_complete (λ xs. xs) rows 10 of_project_one 1 1 refl (omega arith)

list_visible_audit_events-MaySee_example :
    All (λ (e : AuditEvent ℕ). MaySee db wang e.project_id) rows × (length rows ≤ 10)
unfolding list_visible_audit_events list_audit_events is_super_admin any require_project_permission
    select admits page_of take drop may_list find
list_visible_audit_events-MaySee_example =
    list_visible_audit_events-MaySee (λ xs. xs) (λ P xs h. h) db wang rows 1 10 of_project_one rows
      1 refl
