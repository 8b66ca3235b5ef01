-- ===== src/Audit/Service/Shown.antt =====
-- What a reader sees of a row that the code wrote.
use text.Mathlib.Text.{◌==◌ as str_eq}
use disk_pulse.Prelude.{◌≡◌, true, none, List, [], ◌∷◌, ◌++◌, arith, any, false}
use disk_pulse.Prelude.Exec.{ok}
use disk_pulse.Audit.Redaction.{Python, Value}
use disk_pulse.Audit.Redaction.Safe.{IsSafe}
use disk_pulse.Audit.Redaction.Fixed.{redact_audit_payload_twice}
use disk_pulse.Audit.Service.{
  AuditEvent, phases, outcomes, redact_event, append_audit_event, serialize_audit_event,
}

module _ {Date Object : Type 0} (python : Python Date Object) where
  appended :
      (e s : AuditEvent (Value Date Object)) (rows rows' : List (AuditEvent (Value Date Object)))
      → append_audit_event python e rows ≡ (ok s, rows')
      → (any (str_eq e.phase) phases ≡ true)
        × (any (str_eq e.outcome) outcomes ≡ true)
        × (str_eq e.action "" ≡ false)
        × (str_eq e.resource_type "" ≡ false)
        × (s ≡ redact_event python e)
        × (rows' ≡ rows ++ s ∷ [])
  unfolding append_audit_event
  appended e s rows rows' h = (
    ground (arith, h),
    ground (arith, h),
    ground (arith, h),
    ground (arith, h),
    ground (arith, h),
    ground (arith, h),
  )

  serialize_audit_event-IsSafe :
      (e : AuditEvent (Value Date Object))
      → let shown = serialize_audit_event python (redact_event python e) in
        IsSafe python none shown.before_summary
        × IsSafe python none shown.after_summary
        × IsSafe python none shown.metadata
  unfolding serialize_audit_event redact_event
  serialize_audit_event-IsSafe e = (
    (redact_audit_payload_twice python none e.before_summary).0,
    (redact_audit_payload_twice python none e.after_summary).0,
    (redact_audit_payload_twice python none e.metadata).0,
  )

  -- Where an event is appended, its phase and its outcome are among the admitted ones, its action and its
  -- type are not empty, and it is the one row that is added, as the last. When it is shown, no value in a
  -- summary of it is a path or a text of more than 512 characters, and nothing but the mark stands under a
  -- key to hide, whatever the summaries were; of the keys themselves nothing is said.
  pub append_audit_event-IsSafe :
      (e s : AuditEvent (Value Date Object)) (rows rows' : List (AuditEvent (Value Date Object)))
      → append_audit_event python e rows ≡ (ok s, rows')
      → let shown = serialize_audit_event python s in
        (any (str_eq e.phase) phases ≡ true)
        × (any (str_eq e.outcome) outcomes ≡ true)
        × (str_eq e.action "" ≡ false)
        × (str_eq e.resource_type "" ≡ false)
        × (rows' ≡ rows ++ s ∷ [])
        × IsSafe python none shown.before_summary
        × IsSafe python none shown.after_summary
        × IsSafe python none shown.metadata
  append_audit_event-IsSafe e s rows rows' h =
      let (phase, outcome, action, type, same, added) = appended e s rows rows' h in
      let (a, b, c) = serialize_audit_event-IsSafe e in
      (phase, outcome, action, type, added, rw same a, rw same b, rw same c)
