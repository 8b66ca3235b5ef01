-- ===== src/Confirmation/Traces.antt =====
-- How a confirmation is written to the audit of a conversation and read back: `_complete_confirmation`,
-- `pending_confirmation_from_audit`, `completed_confirmation_from_audit` and what they call, and the part of
-- `prepare_confirmation` behind its checks. The texts that json makes and reads are parameters. An entry
-- of the trail that is no dictionary is `foreign`; a key that is absent, or has a value of another type, is
-- `none`.
pub mod RoundTrip
use package.text.Mathlib.Text.{◌==◌ as str_eq}
use disk_pulse.Prelude.{
  ℕ, ◌+◌, ◌-◌, String, Bool, true, false, not, ◌&&◌, Option, none, some, List, [], ◌∷◌, ◌++◌, ltb,
  leb, if◌then◌else◌, select, any,
}
use disk_pulse.Prelude.Text.{prefix}
use disk_pulse.Prelude.Time.{Instant}

pub data Status : Type 0 where
  awaiting_confirmation succeeded failed cancelled : Status
  other_status : String → Status

pub data Decision : Type 0 where
  confirm cancel : Decision

-- A dictionary by its keys, with the values as their texts.
abbrev pub Preview : Type 0
Preview = List (String × String)

-- `_PREVIEW_FIELDS`
abbrev pub preview_fields : List String
preview_fields =
    "resource_id" ∷ "resource_type" ∷ "resource" ∷ "storage_type" ∷ "old_hard_limit"
    ∷ "old_soft_limit" ∷ "new_hard_limit" ∷ "new_soft_limit" ∷ "unit" ∷ "change_reason" ∷ []

unfoldable pub safe_preview : Preview → Preview
safe_preview = select (λ (x : String × String). any (str_eq x.0) preview_fields)

pub record ToolResult : Type 0 where
  pub ok : Option Bool
  pub error : Option String

-- The keys of a pending confirmation.
pub record Candidate : Type 0 where
  pub confirmation_id : Option String
  pub expires_at : Option ℕ
  pub preview : Option Preview

-- `confirmation_required` is the dictionary of that name in the `data` of the result.
pub record Trace : Type 0 where
  pub status : Option Status
  pub candidate : Candidate
  pub decision : Option Decision
  pub result : Option ToolResult
  pub confirmation_required : Option Candidate
  pub visibility : Option String

pub data Item : Type 0 where
  trace : Trace → Item
  foreign : Item

-- An `AIAuditLog`, with the visibility that its response payload has, if any.
pub record AiAuditLog (Payload : Type 0) : Type 0 where
  pub id : ℕ
  pub status : Status
  pub detail_payload : Option Payload
  pub response_visibility : Option String
  pub error_message : Option String
  pub finished_at : Option Instant

-- json on the trail, over the texts that it makes; `loads` is `none` where a text is no list.
pub record Json (Payload : Type 0) : Type 0 where
  pub dumps : List Item → Payload
  pub loads : Payload → Option (List Item)
  pub is_empty : Payload → Bool

pub record PendingConfirmation : Type 0 where
  pub confirmation_id : String
  pub expires_at : ℕ
  pub expires_in_seconds : ℕ
  pub preview : Preview

pub record CompletedConfirmation : Type 0 where
  pub confirmation_id : String
  pub preview : Preview
  pub decided : Decision
  pub result : Option ToolResult

-- The first item from the end that gives something.
unfoldable pub last_match {ℓ} : {A : Type ℓ} → (Trace → Option A) → List Item → Option A
last_match f [] = none
last_match f (foreign ∷ items) = last_match f items
last_match f (trace t ∷ items) = elim (last_match f items) [ some a ↦ some a | none ↦ f t ]

-- `if isinstance(error, str) and error: ... error[:256]`
abbrev pub safe_error : Option String → Option String
safe_error none = none
safe_error (some e) = if str_eq e "" then none else some (prefix 256 e)

abbrev pub safe_fields : Option Bool → Option String → Option ToolResult
safe_fields none error = none
safe_fields (some b) error = some (record { ok = some b; error = safe_error error })

unfoldable pub safe_result : Option ToolResult → Option ToolResult
safe_result none = none
safe_result (some r) = safe_fields r.ok r.error

abbrev pub is_awaiting : Status → Bool
is_awaiting awaiting_confirmation = true
is_awaiting _ = false

-- `_TERMINAL_CONFIRMATION_STATUSES`
abbrev pub is_terminal : Status → Bool
is_terminal succeeded = true
is_terminal failed = true
is_terminal cancelled = true
is_terminal _ = false

abbrev pub has_status : (Status → Bool) → Option Status → Bool
has_status p none = false
has_status p (some s) = p s

unfoldable pub pending_candidate : ℕ → Candidate → Option PendingConfirmation
unfolding safe_preview
pending_candidate now c = elim c.confirmation_id [
  | none ↦ none
  | some confirmation_id ↦ elim c.expires_at [
    | none ↦ none
    | some expires_at ↦ elim c.preview [
      | none ↦ none
      | some preview ↦
          if leb expires_at now
          then none
          else some (record {
            confirmation_id = confirmation_id;
            expires_at = expires_at;
            expires_in_seconds = expires_at - now;
            preview = safe_preview preview;
          })
    ]
  ]
]

abbrev candidate_of : Trace → Candidate
candidate_of t = elim t.confirmation_required [ some c ↦ c | none ↦ t.candidate ]

unfoldable pub pending_trace : ℕ → Trace → Option PendingConfirmation
unfolding pending_candidate
pending_trace now t =
    if has_status is_awaiting t.status then pending_candidate now (candidate_of t) else none

unfoldable pub completed_result : Decision → Option ToolResult → Option (Option ToolResult)
unfolding safe_result
completed_result cancel r = some none
completed_result confirm r = elim (safe_result r) [ none ↦ none | some s ↦ some (some s) ]

unfoldable pub completed_trace : Trace → Option CompletedConfirmation
unfolding completed_result safe_preview
completed_trace t =
    if not (has_status is_terminal t.status) then none else elim t.candidate.confirmation_id [
      | none ↦ none
      | some confirmation_id ↦ elim t.candidate.preview [
        | none ↦ none
        | some preview ↦ elim t.decision [
          | none ↦ none
          | some decision ↦ elim (completed_result decision t.result) [
            | none ↦ none
            | some result ↦ some (record {
              confirmation_id = confirmation_id;
              preview = safe_preview preview;
              decided = decision;
              result = result;
            })
          ]
        ]
      ]
    ]

module _ {Payload : Type 0} (json : Json Payload) where
  -- `json.loads(audit.detail_payload or "[]")`, if it is a list
  unfoldable pub detail_of : Option Payload → Option (List Item)
  detail_of none = some []
  detail_of (some payload) = if json.is_empty payload then some [] else json.loads payload

  abbrev pub scan {ℓ} : {A : Type ℓ} → (Trace → Option A) → Option (List Item) → Option A
  scan f none = none
  scan f (some items) = last_match f items

  unfoldable pub pending_confirmation_from_audit :
      AiAuditLog Payload → ℕ → Option PendingConfirmation
  unfolding detail_of last_match pending_trace
  pending_confirmation_from_audit audit now =
      if is_awaiting audit.status
      then scan (pending_trace now) (detail_of audit.detail_payload)
      else none

  unfoldable pub completed_confirmation_from_audit :
      AiAuditLog Payload → Option CompletedConfirmation
  unfolding detail_of last_match completed_trace
  completed_confirmation_from_audit audit =
      if is_terminal audit.status
      then scan completed_trace (detail_of audit.detail_payload)
      else none

  abbrev pub or_empty : Option (List Item) → List Item
  or_empty none = []
  or_empty (some items) = items

  unfoldable pub audit_visibility : AiAuditLog Payload → List Item → Option String
  unfolding last_match
  audit_visibility audit items = elim (last_match (λ t. t.visibility) items) [
    | some v ↦ some v
    | none ↦ audit.response_visibility
  ]

  unfoldable pub complete_confirmation :
      AiAuditLog Payload
      → Preview
      → String
      → Decision
      → Status
      → Option ToolResult
      → Option String
      → Instant
      → AiAuditLog Payload
  unfolding detail_of safe_preview audit_visibility safe_result
  complete_confirmation audit preview confirmation_id decision status result error_message now =
      let detail = or_empty (detail_of audit.detail_payload) in
      let entry = trace (record {
        status = some status;
        candidate = record {
          confirmation_id = some confirmation_id;
          expires_at = none;
          preview = some (safe_preview preview);
        };
        decision = some decision;
        result = safe_result result;
        confirmation_required = none;
        visibility = audit_visibility audit detail;
      }) in
      record audit {
        status = status;
        detail_payload = some (json.dumps (detail ++ entry ∷ []));
        error_message = error_message;
        finished_at = some now;
      }

  -- The audit of a prepared confirmation, whose trail is `detail`.
  unfoldable pub await_confirmation :
      AiAuditLog Payload → List Item → String → ℕ → Preview → AiAuditLog Payload
  await_confirmation audit detail confirmation_id expires_at preview = record audit {
    status = awaiting_confirmation;
    detail_payload = some (
        json.dumps (
          detail
          ++ trace (record {
            status = some awaiting_confirmation;
            candidate = record {
              confirmation_id = some confirmation_id;
              expires_at = some expires_at;
              preview = some preview;
            };
            decision = none;
            result = none;
            confirmation_required = none;
            visibility = none;
          })
            ∷ []));
  }
