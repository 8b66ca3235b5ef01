-- ===== src/Audit/Redaction/Fixed.antt =====
-- A safe value is one that a redaction leaves alone, and two redactions make any value safe.
use disk_pulse.Prelude.{
  String, ◌≡◌, refl, ap, sym, Bool, true, false, Option, some, Bool-cases, inl, inr,
}
use disk_pulse.Audit.Redaction.{
  Python, Value, Values, Entries, null, boolean, number, text, date, object, list, dict, no_values,
  value, no_entries, entry, redacted, is_path, is_hidden, veil, redact_shown, redact_values,
  redact_entries, redact_audit_payload,
}
use disk_pulse.Audit.Redaction.Safe.{
  IsShown, AreSafe, AreSafeEntries, IsJson, AreJson, AreJsonEntries, IsSafe, redact_shown-IsShown,
  veil-IsShown, veil-eq_redacted,
}

module _ {Date Object : Type 0} (python : Python Date Object) where
  veil_fixed :
      (hidden : Bool) (v w : Value Date Object)
      → w ≡ v
      → (hidden ≡ true → v ≡ text redacted)
      → veil python hidden w ≡ v
  veil_fixed true v w e h = sym (h refl)
  veil_fixed false v w e h = e

  mutual
    unfolding redact_shown IsShown

    redact_shown_fixed :
        (key : Option String) (v : Value Date Object)
        → IsShown python key v
        → redact_shown python key v ≡ v
    redact_shown_fixed key null h = refl
    redact_shown_fixed key (boolean b) h = refl
    redact_shown_fixed key (number n) h = refl
    redact_shown_fixed key (text s) h = rw (h.0, h.1) refl
    redact_shown_fixed key (date d) h = elim h [ ]
    redact_shown_fixed key (object o) h = elim h [ ]
    redact_shown_fixed key (list vs) h = ap list (redact_values_fixed key vs h)
    redact_shown_fixed key (dict es) h = ap dict (redact_entries_fixed es h)

    redact_values_fixed :
        (key : Option String) (vs : Values Date Object)
        → AreSafe python key vs
        → redact_values python key vs ≡ vs
    redact_values_fixed key no_values h = refl
    redact_values_fixed key (value v vs) h =
        rw
          (
            veil_fixed (is_hidden python key) v _ (redact_shown_fixed key v h.0) h.1,
            redact_values_fixed key vs h.2,
          )
          refl

    redact_entries_fixed :
        (es : Entries Date Object) → AreSafeEntries python es → redact_entries python es ≡ es
    redact_entries_fixed no_entries h = refl
    redact_entries_fixed (entry k v es) h =
        rw
          (
            veil_fixed (is_hidden python (some k)) v _ (redact_shown_fixed (some k) v h.0) h.1,
            redact_entries_fixed es h.2,
          )
          refl

  veil-IsJson :
      (hidden : Bool) (v : Value Date Object)
      → IsJson python v
      → IsJson python (veil python hidden v)
  unfolding IsJson
  veil-IsJson true v h = tt
  veil-IsJson false v h = h

  mutual
    unfolding redact_shown IsJson

    redact_shown-IsJson :
        (key : Option String) (v : Value Date Object) → IsJson python (redact_shown python key v)
    redact_shown-IsJson key null = tt
    redact_shown-IsJson key (boolean b) = tt
    redact_shown-IsJson key (number n) = tt
    redact_shown-IsJson key (text s) = elim (Bool-cases (is_path python s)) [
      | inl e ↦ rw e tt
      | inr e ↦ rw e tt
    ]
    redact_shown-IsJson key (date d) = tt
    redact_shown-IsJson key (object o) = tt
    redact_shown-IsJson key (list vs) = redact_values-AreJson key vs
    redact_shown-IsJson key (dict es) = redact_entries-AreJson es

    redact_values-AreJson :
        (key : Option String) (vs : Values Date Object)
        → AreJson python (redact_values python key vs)
    redact_values-AreJson key no_values = tt
    redact_values-AreJson key (value v vs) = (
      veil-IsJson (is_hidden python key) _ (redact_shown-IsJson key v),
      redact_values-AreJson key vs,
    )

    redact_entries-AreJson :
        (es : Entries Date Object) → AreJsonEntries python (redact_entries python es)
    redact_entries-AreJson no_entries = tt
    redact_entries-AreJson (entry k v es) = (
      veil-IsJson (is_hidden python (some k)) _ (redact_shown-IsJson (some k) v),
      redact_entries-AreJson es,
    )

  -- One redaction makes a value safe if it holds no date and no object of another class. Then no text in it
  -- is a path or longer than 512 characters, and a value under a key to hide is the mark.
  pub redact_audit_payload-IsSafe :
      (key : Option String) (v : Value Date Object)
      → IsJson python v
      → IsSafe python key (redact_audit_payload python key v)
  unfolding redact_audit_payload
  redact_audit_payload-IsSafe key v h = (
    veil-IsShown python (is_hidden python key) key _ (redact_shown-IsShown python key v h),
    veil-eq_redacted python (is_hidden python key) _,
  )

  pub redact_audit_payload_fixed :
      (key : Option String) (v : Value Date Object)
      → IsSafe python key v
      → redact_audit_payload python key v ≡ v
  unfolding redact_audit_payload
  redact_audit_payload_fixed key v h =
      veil_fixed (is_hidden python key) v _ (redact_shown_fixed key v h.0) h.1

  redact_audit_payload-IsJson :
      (key : Option String) (v : Value Date Object)
      → IsJson python (redact_audit_payload python key v)
  unfolding redact_audit_payload
  redact_audit_payload-IsJson key v =
      veil-IsJson (is_hidden python key) _ (redact_shown-IsJson key v)

  -- Whatever the value, two redactions, as of a payload that is written and then shown, make it safe, and
  -- a third changes nothing.
  pub redact_audit_payload_twice :
      (key : Option String) (v : Value Date Object)
      → let twice = redact_audit_payload python key (redact_audit_payload python key v) in
        IsSafe python key twice × (redact_audit_payload python key twice ≡ twice)
  redact_audit_payload_twice key v =
      let safe =
        redact_audit_payload-IsSafe key (redact_audit_payload python key v)
          (redact_audit_payload-IsJson key v) in
      (safe, redact_audit_payload_fixed key _ safe)
