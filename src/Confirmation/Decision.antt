-- ===== src/Confirmation/Decision.antt =====
-- `decide_confirmation` of backend/services/ai_quota_confirmation_service.py. The commands of Redis, the
-- record that its text holds, and the tools are parameters; `meanwhile` is what others do to the store
-- between the two commands.
pub mod Authorized
use Prim.Native.String.{◌++◌ as text_append}
use package.text.Mathlib.Text.{◌==◌ as str_eq}
use disk_pulse.Prelude.{
  ℕ, String, Bool, true, false, not, ◌&&◌, ◌||◌, Option, none, some, List, [], ◌∷◌, ◌++◌, ◌==◌,
  if◌then◌else◌, find, update_where, any,
}
use disk_pulse.Prelude.Time.{Instant}
use disk_pulse.Prelude.Exec.{Result, ok, err, Error, http_exception, Exec}
use disk_pulse.Access.Db.{Db, User, is_super_admin}
use disk_pulse.Confirmation.Traces.{
  Status, succeeded, failed, cancelled, Decision, confirm, cancel, Preview, ToolResult, AiAuditLog,
  Json, complete_confirmation,
}

-- What Redis keeps of a prepared confirmation.
pub record ConfirmationRecord (Arguments : Type 0) : Type 0 where
  pub user_id : ℕ
  pub conversation_id : ℕ
  pub audit_id : ℕ
  pub tool_name : String
  pub arguments : Arguments
  pub preview : Preview

-- `GET`, and the script that deletes a key with a given value; each with `none` for a RedisError.
pub record ConfirmationStore (Store : Type 0) : Type 0 where
  pub get : String → Store → Option (Option String)
  pub consume : String → String → Store → Option Bool × Store

-- `_key`
abbrev pub confirmation_key : String → String
confirmation_key confirmation_id = text_append "diskpulse:ai-quota-confirmation:" confirmation_id

-- `_QUOTA_TOOL_NAMES`
abbrev pub quota_tool_names : List String
quota_tool_names = "adjust_group_quota" ∷ "adjust_storage_usage_quota" ∷ []

unfoldable pub is_quota_write_tool : String → Bool
is_quota_write_tool name = any (str_eq name) quota_tool_names

pub data Answer : Type 0 where
  cancelled_answer : String → Answer
  confirmed_answer : String → ToolResult → Answer

-- The audits of the conversations, and the calls of tools that were made.
pub record Desk (Arguments Payload : Type 0) : Type 0 where
  pub audits : List (AiAuditLog Payload)
  pub calls : List (String × Arguments)

abbrev succeeds : ToolResult → Bool
succeeds r = elim r.ok [ none ↦ false | some b ↦ b ]

module _ {Store : Type 0} (redis : ConfirmationStore Store) where
  -- `raw`, once it is read and deleted
  unfoldable pub consumed : String → (Store → Store) → Store → Result String × Store
  consumed key meanwhile store = elim (redis.get key store) [
    | none ↦ (err (http_exception 503 "AI quota confirmation unavailable"), store)
    | some none ↦ (err (http_exception 409 "quota confirmation expired or already used"), store)
    | some (some raw) ↦
        let (answer, store') = redis.consume key raw (meanwhile store) in
        elim answer [
          | none ↦ (err (http_exception 503 "AI quota confirmation unavailable"), store')
          | some false ↦
              (err (http_exception 409 "quota confirmation expired or already used"), store')
          | some true ↦ (ok raw, store')
        ]
  ]

module _ {Arguments Store Payload : Type 0} (json : Json Payload) (redis : ConfirmationStore Store)
    (loads : String → ConfirmationRecord Arguments) (execute_tool : String → Arguments → ToolResult)
    (registry : List String) where
  abbrev put_audit : AiAuditLog Payload → List (AiAuditLog Payload) → List (AiAuditLog Payload)
  put_audit audit = update_where (λ (a : AiAuditLog Payload). a.id == audit.id) (λ _. audit)

  -- A decision whose record is consumed and belongs to its audit.
  unfoldable pub carry_out :
      String
      → Decision
      → Instant
      → ConfirmationRecord Arguments
      → AiAuditLog Payload
      → Exec (Desk Arguments Payload) Answer
  carry_out confirmation_id cancel now r audit desk =
      let after =
        complete_confirmation json audit r.preview confirmation_id cancel cancelled none none now in
      (ok (cancelled_answer confirmation_id), record desk { audits = put_audit after desk.audits })
  carry_out confirmation_id confirm now r audit desk =
      if not (any (str_eq r.tool_name) registry && is_quota_write_tool r.tool_name)
      then (let message : String = "quota tool is no longer registered" in
          let after =
            complete_confirmation json audit r.preview confirmation_id confirm failed
              (some (record { ok = some false; error = some message })) (some message) now in
          (
            err (http_exception 409 "quota tool is no longer available"),
            record desk { audits = put_audit after desk.audits },
          ))
      else let result = execute_tool r.tool_name r.arguments in
        let good = succeeds result in
        let after =
          complete_confirmation json audit r.preview confirmation_id confirm
            (if good then succeeded else failed) (some result) (if good then none else result.error)
            now in
        (
          ok (confirmed_answer confirmation_id result),
          record desk {
            audits = put_audit after desk.audits;
            calls = desk.calls ++ (r.tool_name, r.arguments) ∷ [];
          },
        )

  -- The checks of a consumed record.
  unfoldable pub decide_record :
      User
      → ℕ
      → String
      → Decision
      → Instant
      → ConfirmationRecord Arguments
      → Exec (Desk Arguments Payload) Answer
  unfolding carry_out
  decide_record user conversation_id confirmation_id decision now r desk =
      if not (r.user_id == user.id && r.conversation_id == conversation_id)
      then (
        err (http_exception 403 "quota confirmation does not belong to this conversation"),
        desk,
      )
      else elim (find (λ (a : AiAuditLog Payload). a.id == r.audit_id) desk.audits) [
        | none ↦ (err (http_exception 404 "AI audit not found"), desk)
        | some audit ↦ carry_out confirmation_id decision now r audit desk
      ]

  unfoldable pub decide_confirmation :
      Db
      → User
      → ℕ
      → String
      → Decision
      → Instant
      → (Store → Store)
      → Exec (Desk Arguments Payload × Store) Answer
  unfolding consumed decide_record
  decide_confirmation db user conversation_id confirmation_id decision now meanwhile (desk, store) =
      if not (is_super_admin db user)
      then (err (http_exception 403 "AI quota confirmation requires super admin"), (desk, store))
      else let (raw, store') = consumed redis (confirmation_key confirmation_id) meanwhile store in
        elim raw [
          | err e ↦ (err e, (desk, store'))
          | ok text ↦
              let (answer, desk') =
                decide_record user conversation_id confirmation_id decision now (loads text) desk in
              (answer, (desk', store'))
        ]
