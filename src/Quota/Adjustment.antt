-- ===== src/Quota/Adjustment.antt =====
-- `_execute_adjustment_locked`, `_execute_adjustment` and `_reconcile_quota` of
-- backend/services/quotaService.py, and the functions that they call. The device's clients are not
-- modelled: what a write and a read answer, or raise, is an argument, and so are the exceptions of the
-- checkpoints, of the task queue and of the clock.
mod Device
mod Notice
pub mod Endings
pub mod Results
pub mod Audited
unfoldable pub use Device.*
unfoldable pub use Notice.*
use Prim.Native.String.{◌++◌ as text_append}
use text.Mathlib.Text.{◌==◌ as str_eq}
use disk_pulse.Prelude.{
  ℕ, String, Bool, true, false, not, ◌&&◌, Option, none, some, List, [], ◌∷◌, ◌++◌, map, ◌==◌,
  if◌then◌else◌, is_some,
}
use disk_pulse.Prelude.Time.{Instant}
use disk_pulse.Prelude.Exec.{
  Result, ok, err, Error, http_exception, type_error, Exec, pure, raise, lift, gets, modify, ◌>>=◌,
  ◌>>◌,
}
use disk_pulse.Alerts.Recipients.{resolve_recipient_usernames}
use disk_pulse.Alerts.Delivery.{
  StorageAlert, RelatedInfo, Element, DeliveryStatus, pending, skipped,
}
use disk_pulse.Quota.Request.{
  QuotaAdjustmentRequest, soft_grace_seconds, ResourceType, group, storage_usage, StorageType,
  is_volume_capacity,
}
use disk_pulse.Quota.Rows.{
  Limits, Resource, Target, Phase, attempt, result, Outcome, success, failure, Source,
  post_write_readback, post_timeout_readback, Action, quota_adjust, quota_reconcile,
  manual_reconciliation, QuotaAudit, Rows, World, commit_checkpoint, rollback_checkpoint,
  append_audit_event, append_and_commit, ratio,
}

-- The arguments of one adjustment that do not change as it runs.
pub record Job : Type 0 where
  pub storage_type : StorageType
  pub request : QuotaAdjustmentRequest
  pub audited : Bool
  pub operation_id : String
  pub old_hard_limit : Option ℕ
  pub old_soft_limit : Option ℕ

unfoldable pub audit_row :
    Action
    → Phase
    → Outcome
    → Resource
    → (before after : Option (Option ℕ × Option ℕ)) → Option Source
    → QuotaAudit
audit_row action phase outcome r before after source = record {
  phase = phase;
  action = action;
  resource_type = r.resource_type;
  resource_id = r.id;
  project_id = r.project_id;
  outcome = outcome;
  before = before;
  after = after;
  verification_source = source;
}

unfoldable pub command : Resource → Target → Job → Command
unfolding soft_grace_seconds
command r target job =
    if is_volume_capacity r.resource_type job.storage_type (some target.target_type)
    then update_volume_capacity job.request.hard_limit_bytes
    else update_quota job.request.hard_limit_bytes job.request.soft_limit_bytes
        (soft_grace_seconds job.request)

-- `device_result.get("soft_limit") != expected_soft`, negated
abbrev pub soft_matches : DeviceSoft → Option ℕ → Bool
soft_matches missing none = true
soft_matches (bytes n) (some m) = n == m
soft_matches _ _ = false

abbrev hard_matches : Option ℕ → ℕ → Bool
hard_matches none m = false
hard_matches (some n) m = n == m

unfoldable pub matches : DeviceResult → QuotaAdjustmentRequest → Bool
matches d request =
    hard_matches d.hard_limit request.hard_limit_bytes
    && soft_matches d.soft_limit request.soft_limit_bytes

-- A failed write: the audit row with its reason, a commit, and then what the code answers.
unfoldable pub fail_with :
    Environment → Job → Action → String → Result Response → Exec World Response
unfolding append_and_commit audit_row
fail_with env job action reason answer = do
  r ← gets (λ w. w.session.resource)
  append_and_commit job.audited env.failure_commit
      (audit_row action result (failure reason) r none none none)
  lift answer

-- The rows behind a write that the device confirms.
unfoldable pub finish : Environment → Job → DeviceLimits → Source → World → World
unfolding sync_local_quota record_adjustment append_audit_event audit_row
finish env job d source w =
    let r = w.session.resource in
    let synced = sync_local_quota d w in
    let alert =
      record_adjustment env r job.old_hard_limit job.old_soft_limit (some d.hard_limit)
        (soft_of d.soft_limit) in
    append_audit_event job.audited
      (audit_row quota_adjust result success r (some (job.old_hard_limit, job.old_soft_limit))
        (some (some d.hard_limit, soft_of d.soft_limit)) (some source))
      (record synced {
        session = record synced.session { alerts = synced.session.alerts ++ alert ∷ [] };
      })

-- The last commit, and the notifications behind it.
unfoldable pub settle :
    Option Error
    → Environment
    → Resource
    → StorageAlert
    → QuotaAdjustmentResponse
    → Exec World Response
unfolding commit_checkpoint rollback_checkpoint enqueue send_adjustment_email
settle raises env r alert response w =
    let (committed, w') = commit_checkpoint raises w in
    elim committed [
      | err e ↦ (err e, rollback_checkpoint w')
      | ok _ ↦
          (ok (adjusted response), send_adjustment_email r (enqueue env.enqueue_works alert w'))
    ]

unfoldable pub confirmed : Environment → Job → DeviceLimits → Source → Exec World Response
unfolding finish settle result_from_device record_adjustment
confirmed env job d source w =
    let r = w.session.resource in
    settle env.result_commit env r
      (record_adjustment env r job.old_hard_limit job.old_soft_limit (some d.hard_limit)
        (soft_of d.soft_limit))
      (result_from_device r job.storage_type d job.operation_id source) (finish env job d source w)

-- `_sync_local_quota` divides the hard limit of the answer first, and nothing catches the TypeError that
-- an answer without one raises.
unfoldable pub take_over :
    Environment → Job → Option ℕ → DeviceResult → Source → Exec World Response
unfolding confirmed
take_over env job none d source w = (err type_error, w)
take_over env job (some n) d source w = confirmed env job (with_hard n d) source w

-- The read behind a write that timed out.
unfoldable pub after_timeout : Environment → Job → Option DeviceResult → Exec World Response
unfolding fail_with matches take_over
after_timeout env job none =
    fail_with env job quota_adjust "quota_outcome_unknown"
      (err (http_exception 502 "quota_outcome_unknown"))
after_timeout env job (some d) =
    if matches d job.request
    then take_over env job d.hard_limit d post_timeout_readback
    else fail_with env job quota_adjust "quota_outcome_unknown"
        (err (http_exception 502 "quota_outcome_unknown"))

unfoldable pub after_write : Environment → Job → WriteOutcome → Exec World Response
unfolding fail_with after_timeout take_over
after_write env job (written d) = take_over env job d.hard_limit d post_write_readback
after_write env job (rejected e) =
    fail_with env job quota_adjust "quota_adjustment_rejected" (err e)
after_write env job timed_out = after_timeout env job env.read
after_write env job (http_error none) =
    fail_with env job quota_adjust "quota_device_rejected"
      (err (http_exception 502 "Storage quota adjustment failed"))
after_write env job (http_error (some status)) =
    fail_with env job quota_adjust "quota_device_rejected" (ok (native status))
after_write env job unavailable =
    fail_with env job quota_adjust "quota_device_unavailable"
      (err (http_exception 502 "Storage quota adjustment failed"))

unfoldable pub execute_adjustment_locked : Environment → Job → Exec World Response
unfolding append_and_commit audit_row command after_write
execute_adjustment_locked env job = do
  r ← gets (λ w. w.session.resource)
  target ← gets (λ w. w.session.target)
  append_and_commit job.audited env.attempt_commit (
      audit_row quota_adjust attempt success r (some (job.old_hard_limit, job.old_soft_limit)) none
        none)
  after_write env job (env.write (command r target job))

-- The limits that were read are taken over.
unfoldable pub reconciled : Environment → Job → DeviceLimits → Exec World Response
unfolding sync_local_quota append_audit_event audit_row commit_checkpoint result_from_device
reconciled env job d w =
    let r = w.session.resource in
    let synced = sync_local_quota d w in
    let audited =
      append_audit_event job.audited
        (audit_row quota_reconcile result success r (some (r.limits.limit, r.limits.soft_limit))
          (some (some d.hard_limit, soft_of d.soft_limit)) (some manual_reconciliation))
        synced in
    let (committed, w') = commit_checkpoint env.result_commit audited in
    elim committed [
      | err e ↦ (err e, w')
      | ok _ ↦ (
        ok (
            adjusted
              (result_from_device r job.storage_type d job.operation_id manual_reconciliation)),
        w',
      )
    ]

-- The body of `_reconcile_quota` under the lock. A read without a hard limit raises here too.
unfoldable pub reconcile_locked : Environment → Job → Exec World Response
unfolding fail_with reconciled
reconcile_locked env job w = elim env.read [
  | none ↦
      fail_with env job quota_reconcile "quota_device_unavailable"
        (err (http_exception 502 "Storage quota reconciliation failed")) w
  | some d ↦ elim d.hard_limit [
    | none ↦ (err type_error, w)
    | some n ↦ reconciled env job (with_hard n d) w
  ]
]
