-- ===== src/Confirmation/Examples.antt =====
-- The theorems about confirmations at concrete inputs.
use package.text.Mathlib.Text.{◌==◌ as str_eq}
use disk_pulse.Prelude.{
  ℕ, ◌≤◌, String, ◌≡◌, ◌⊎◌, refl, Bool, true, false, Option, none, some, List, [], ◌∷◌, arith,
  if◌then◌else◌,
}
use disk_pulse.Prelude.Exec.{ok}
use disk_pulse.Access.Db.{Db, User, is_super_admin}
use disk_pulse.Confirmation.Traces.{
  Json, Item, AiAuditLog, Preview, ToolResult, confirm, awaiting_confirmation, succeeded,
  complete_confirmation, await_confirmation, pending_confirmation_from_audit,
  completed_confirmation_from_audit, safe_preview, completed_result, safe_result,
}
use disk_pulse.Confirmation.Traces.RoundTrip.{
  IsJson, completed_confirmation_from_audit-complete_confirmation,
  pending_confirmation_from_audit-await_confirmation,
}
use disk_pulse.Confirmation.Decision.{
  ConfirmationRecord, ConfirmationStore, Desk, decide_confirmation, consumed, confirmation_key,
}
use disk_pulse.Confirmation.Decision.Authorized.{IsCalled, decide_confirmation-IsCalled}
use disk_pulse.Confirmation.Once.{request, run, passed, asking_only, act, act_at, step, run_once}

-- Trails that stand for their own texts.
abbrev json : Json (List Item)
json = record { dumps = λ items. items; loads = λ items. some items; is_empty = λ items. false }

json-IsJson : IsJson json
json-IsJson = record { loads-dumps = λ items. refl; dumps_not_empty = λ items. refl }

abbrev audit : AiAuditLog (List Item)
audit = record {
  id = 4;
  status = awaiting_confirmation;
  detail_payload = none;
  response_visibility = none;
  error_message = none;
  finished_at = none;
}

abbrev preview : Preview
preview = ("resource", "alpha") ∷ ("password", "x") ∷ []

abbrev good : ToolResult
good = record { ok = some true; error = none }

completed_confirmation_from_audit-complete_confirmation_example :
    let after =
      complete_confirmation json audit preview "c1" confirm succeeded (some good) none 9 in
    (completed_confirmation_from_audit json after
      ≡ some (record {
        confirmation_id = "c1";
        preview = safe_preview preview;
        decided = confirm;
        result = some good;
      }))
    × (pending_confirmation_from_audit json after 100 ≡ none)
unfolding completed_result safe_result
completed_confirmation_from_audit-complete_confirmation_example =
    completed_confirmation_from_audit-complete_confirmation json json-IsJson audit preview "c1"
      confirm succeeded (some good) (some good) none 9 100 refl refl

pending_confirmation_from_audit-await_confirmation_example :
    let after = await_confirmation json audit [] "c1" 400 preview in
    (pending_confirmation_from_audit json after 100
      ≡ some (record {
        confirmation_id = "c1";
        expires_at = 400;
        expires_in_seconds = 300;
        preview = safe_preview preview;
      }))
    × (completed_confirmation_from_audit json after ≡ none)
pending_confirmation_from_audit-await_confirmation_example =
    pending_confirmation_from_audit-await_confirmation json json-IsJson audit preview "c1" [] 400
      100 (omega arith)

-- A store with one key, which holds a text.
get : Option String → Option (Option String)
get s = some s

consume : String → Option String → Option Bool × Option String
consume raw none = (some false, none)
consume raw (some text) = if str_eq text raw then (some true, none) else (some false, some text)

abbrev redis : ConfirmationStore (Option String)
unfolding get consume
redis = record { get = λ key s. get s; consume = λ key raw s. consume raw s }

abbrev loads : String → ConfirmationRecord ℕ
loads text = record {
  user_id = 1;
  conversation_id = 2;
  audit_id = 4;
  tool_name = "adjust_group_quota";
  arguments = 7;
  preview = preview;
}

abbrev db : Db
db = record {
  super_admin_usernames = "root" ∷ [];
  users = [];
  projects = [];
  groups = [];
  storage_usages = [];
  memberships = [];
  next_membership_id = 1;
  audits = [];
}

abbrev root : User
root = record { id = 1; username = none; rd_username = some "root"; email = none }

abbrev desk : Desk ℕ (List Item)
desk = record { audits = audit ∷ []; calls = [] }

abbrev execute : String → ℕ → ToolResult
execute name n = good

abbrev registry : List String
registry = "adjust_group_quota" ∷ []

decide_confirmation-IsCalled_example :
    let (answer, (desk', store')) =
      decide_confirmation json redis loads execute registry db root 2 "c1" confirm 9
        (λ s. s)
        (desk, some "r") in
    (desk'.calls ≡ [])
    ⊎ ((is_super_admin db root ≡ true)
        × ((raw : String) × ((consumed redis (confirmation_key "c1") (λ s. s) (some "r")).0
              ≡ ok raw)
            × IsCalled json redis loads execute registry root 2 "c1" 9
                (loads raw)
                confirm
                desk
                answer
                desk'))
decide_confirmation-IsCalled_example =
    decide_confirmation-IsCalled json redis loads execute registry root 2 "c1" 9 db confirm (λ s. s)
      desk (some "r")

-- Two requests read the text before either consumes it: the first goes on.
run_once_example :
    passed (run (request 0 ∷ request 1 ∷ request 0 ∷ request 1 ∷ []) (some "r", asking_only 2)).1
    ≤ 1
run_once_example = run_once 2 "r" (request 0 ∷ request 1 ∷ request 0 ∷ request 1 ∷ [])

run_one_passes :
    passed (run (request 0 ∷ request 1 ∷ request 0 ∷ request 1 ∷ []) (some "r", asking_only 2)).1
    ≡ 1
unfolding run step act_at act passed
run_one_passes = refl
