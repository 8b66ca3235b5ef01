-- ===== src/Confirmation/Traces/RoundTrip.antt =====
-- What is written to the trail is read back.
use Prim.Native.String.{[] as nil, ◌∷◌ as cons}
use Prim.Native.Char.{Char}
use package.text.Mathlib.Text.{◌==◌ as str_eq}
use package.text.Mathlib.TextEquality.{eq_iff}
use disk_pulse.Prelude.{
  ℕ, ◌-◌, ◌<◌, String, ◌≡◌, refl, ap, Bool, true, false, Option, none, some, List, [], ◌∷◌, ◌++◌,
  arith, leb, select-select, Bool-cases, inl, inr,
}
use disk_pulse.Prelude.Text.{prefix, prefix-prefix}
use disk_pulse.Prelude.Time.{Instant}
use disk_pulse.Confirmation.Traces.{
  Status, awaiting_confirmation, other_status, succeeded, failed, cancelled, Decision, confirm,
  cancel, Preview, safe_preview, ToolResult, Trace, Item, trace, foreign, AiAuditLog, Json,
  last_match, safe_error, safe_fields, safe_result, is_terminal, is_awaiting, pending_trace,
  pending_candidate, completed_result, completed_trace, detail_of, scan, or_empty, audit_visibility,
  pending_confirmation_from_audit, completed_confirmation_from_audit, complete_confirmation,
  await_confirmation,
}

-- What json promises of a list that it wrote.
pub record IsJson {Payload : Type 0} (json : Json Payload) : Type 0 where
  pub loads-dumps : (items : List Item) → json.loads (json.dumps items) ≡ some items
  pub dumps_not_empty : (items : List Item) → json.is_empty (json.dumps items) ≡ false

module _ {A : Type 0} (f : Trace → Option A) where
  last_match-append :
      (items : List Item) (t : Trace) (a : A)
      → f t ≡ some a
      → last_match f (items ++ trace t ∷ []) ≡ some a
  unfolding last_match
  last_match-append [] t a h = h
  last_match-append (foreign ∷ items) t a h = last_match-append items t a h
  last_match-append (trace u ∷ items) t a h = rw (last_match-append items t a h) refl

detail_of-dumps :
    {Payload : Type 0} (json : Json Payload)
    → IsJson json
    → (items : List Item) → detail_of json (some (json.dumps items)) ≡ some items
unfolding detail_of
detail_of-dumps json laws items = rw (laws.dumps_not_empty items) (laws.loads-dumps items)

scan-dumps :
    {A Payload : Type 0} (json : Json Payload)
    → IsJson json
    → (f : Trace → Option A) (items : List Item) (t : Trace) (a : A) → f t ≡ some a
    → scan json f (detail_of json (some (json.dumps (items ++ trace t ∷ [])))) ≡ some a
scan-dumps json laws f items t a h =
    rw (detail_of-dumps json laws (items ++ trace t ∷ [])) (last_match-append f items t a h)

not_awaiting : (s : Status) → is_terminal s ≡ true → is_awaiting s ≡ false
not_awaiting awaiting_confirmation h = cc
not_awaiting (other_status s) h = cc
not_awaiting succeeded h = refl
not_awaiting failed h = refl
not_awaiting cancelled h = refl

pending_trace_lem :
    (confirmation_id : String) (preview : Preview) (expires_at now : ℕ)
    → now < expires_at
    → pending_trace now (record {
      status = some awaiting_confirmation;
      candidate = record {
        confirmation_id = some confirmation_id;
        expires_at = some expires_at;
        preview = some preview;
      };
      decision = none;
      result = none;
      confirmation_required = none;
      visibility = none;
    })
      ≡ some (record {
        confirmation_id = confirmation_id;
        expires_at = expires_at;
        expires_in_seconds = expires_at - now;
        preview = safe_preview preview;
      })
unfolding pending_trace pending_candidate
pending_trace_lem confirmation_id preview expires_at now h =
    let late : leb expires_at now ≡ false = ground (arith, h) in rw late refl

cons_not_empty : (c : Char) (s : String) → str_eq (cons c s) "" ≡ false
cons_not_empty c s = elim (Bool-cases (str_eq (cons c s) "")) [
  | inr e ↦ e
  | inl e ↦ elim (clash ((eq_iff (cons c s) "").0 e)) [ ]
]
  where
    clash : cons c s ≡ nil → ⊥
    clash h = cc

safe_error-safe_error : (e : Option String) → safe_error (safe_error e) ≡ safe_error e
unfolding prefix
safe_error-safe_error none = refl
safe_error-safe_error (some nil) = refl
safe_error-safe_error (some (cons c s)) =
    rw (cons_not_empty c s, cons_not_empty c (prefix 255 s))
      (ap (λ t. some (cons c t)) (prefix-prefix 255 s))

safe_fields-safe_fields :
    (b : Option Bool) (e : Option String) → safe_result (safe_fields b e) ≡ safe_fields b e
unfolding safe_result
safe_fields-safe_fields none e = refl
safe_fields-safe_fields (some b) e =
    ap (λ x. some (record { ok = some b; error = x })) (safe_error-safe_error e)

safe_result-safe_result : (r : Option ToolResult) → safe_result (safe_result r) ≡ safe_result r
unfolding safe_result
safe_result-safe_result none = refl
safe_result-safe_result (some r) = safe_fields-safe_fields r.ok r.error

completed_result-safe_result :
    (d : Decision) (r : Option ToolResult)
    → completed_result d (safe_result r) ≡ completed_result d r
unfolding completed_result
completed_result-safe_result cancel r = refl
completed_result-safe_result confirm r = rw (completed_result, safe_result-safe_result r) refl

safe_preview-safe_preview : (p : Preview) → safe_preview (safe_preview p) ≡ safe_preview p
unfolding safe_preview
safe_preview-safe_preview p = select-select _ p

completed_trace_lem :
    (status : Status) (confirmation_id : String) (preview : Preview) (decision : Decision)
    (result shown : Option ToolResult) (visibility : Option String)
    → is_terminal status ≡ true
    → completed_result decision result ≡ some shown
    → completed_trace (record {
      status = some status;
      candidate = record {
        confirmation_id = some confirmation_id;
        expires_at = none;
        preview = some (safe_preview preview);
      };
      decision = some decision;
      result = safe_result result;
      confirmation_required = none;
      visibility = visibility;
    })
      ≡ some (record {
        confirmation_id = confirmation_id;
        preview = safe_preview preview;
        decided = decision;
        result = shown;
      })
unfolding completed_trace
completed_trace_lem status confirmation_id preview decision result shown visibility h k =
    rw (h, completed_result-safe_result decision result, k, safe_preview-safe_preview preview) refl

module _ {Payload : Type 0} (json : Json Payload) (laws : IsJson json) (audit : AiAuditLog Payload)
    (preview : Preview) (confirmation_id : String) where
  -- A confirmation that was decided is read back with its decision, the fields of its preview that may be
  -- shown and, for a confirmed one, its result; and no confirmation is pending any more. A confirmed one
  -- must have a result that says whether it succeeded.
  pub completed_confirmation_from_audit-complete_confirmation :
      (decision : Decision) (status : Status) (result shown : Option ToolResult)
      (error_message : Option String) (now : Instant) (epoch : ℕ)
      → is_terminal status ≡ true
      → completed_result decision result ≡ some shown
      → let after =
          complete_confirmation json audit preview confirmation_id decision status result
            error_message now in
        (completed_confirmation_from_audit json after
          ≡ some (record {
            confirmation_id = confirmation_id;
            preview = safe_preview preview;
            decided = decision;
            result = shown;
          }))
        × (pending_confirmation_from_audit json after epoch ≡ none)
  unfolding completed_confirmation_from_audit complete_confirmation pending_confirmation_from_audit
  completed_confirmation_from_audit-complete_confirmation decision status result shown error_message
        now epoch h k =
      (
        rw h (
            scan-dumps json laws completed_trace _ _ _ (
              completed_trace_lem status confirmation_id preview decision result shown
                (audit_visibility json audit (or_empty json (detail_of json audit.detail_payload)))
                h k)),
        rw (not_awaiting status h) refl,
      )

  -- A prepared confirmation is read back until it expires, with the fields of its preview that may be shown,
  -- and is not read as a completed one.
  pub pending_confirmation_from_audit-await_confirmation :
      (detail : List Item) (expires_at now : ℕ)
      → now < expires_at
      → let after = await_confirmation json audit detail confirmation_id expires_at preview in
        (pending_confirmation_from_audit json after now
          ≡ some (record {
            confirmation_id = confirmation_id;
            expires_at = expires_at;
            expires_in_seconds = expires_at - now;
            preview = safe_preview preview;
          }))
        × (completed_confirmation_from_audit json after ≡ none)
  unfolding completed_confirmation_from_audit await_confirmation pending_confirmation_from_audit
  pending_confirmation_from_audit-await_confirmation detail expires_at now h = (
    scan-dumps json laws (pending_trace now) detail _ _
        (pending_trace_lem confirmation_id preview expires_at now h),
    refl,
  )
