-- ===== src/Quota/Adjustment/Notice.antt =====
-- The rows behind a confirmed limit: `_sync_local_quota`, `_result_from_device`, `_record_adjustment` and
-- `_send_adjustment_email` of backend/services/quotaService.py.
use Prim.Native.String.{◌++◌ as text_append}
use text.Mathlib.Text.{◌==◌ as str_eq}
use disk_pulse.Prelude.{
  ℕ, String, Bool, true, false, ◌&&◌, Option, none, some, List, [], ◌∷◌, ◌++◌, if◌then◌else◌,
}
use disk_pulse.Alerts.Recipients.{resolve_recipient_usernames}
use disk_pulse.Alerts.Delivery.{StorageAlert, Element, DeliveryStatus, pending, skipped}
use disk_pulse.Quota.Request.{ResourceType, group, storage_usage, StorageType}
use disk_pulse.Quota.Rows.{Limits, Resource, Source, World, ratio}
use disk_pulse.Quota.Adjustment.Device.{DeviceLimits, Environment, QuotaAdjustmentResponse, soft_of}

unfoldable pub with_limits : DeviceLimits → Limits → Limits
unfolding ratio
with_limits d l = record l {
  limit = some d.hard_limit;
  soft_limit = soft_of d.soft_limit;
  use_ratio = ratio l.used (some d.hard_limit);
  soft_use_ratio = ratio l.used (soft_of d.soft_limit);
}

abbrev pub is_group : ResourceType → Bool
is_group group = true
is_group storage_usage = false

unfoldable pub sync_local_quota : DeviceLimits → World → World
unfolding with_limits
sync_local_quota d w =
    let s = w.session in
    record w {
      session = record s {
        resource = record s.resource { limits = with_limits d s.resource.limits };
        target =
            if is_group s.resource.resource_type
            then record s.target { limits = with_limits d s.target.limits }
            else s.target;
      };
    }

unfoldable pub result_from_device :
    Resource → StorageType → DeviceLimits → String → Source → QuotaAdjustmentResponse
result_from_device r storage_type d operation_id source = record {
  id = r.id;
  resource_type = r.resource_type;
  storage_type = storage_type;
  hard_limit = d.hard_limit;
  soft_limit = soft_of d.soft_limit;
  soft_grace_seconds = d.soft_grace;
  operation_id = operation_id;
  verification_source = source;
}

abbrev is_empty {ℓ} : {A : Type ℓ} → List A → Bool
is_empty [] = true
is_empty (_ ∷ _) = false

plain : String → Element
plain text = record { text = text; bold = false }

abbrev resource_label : ResourceType → String
resource_label storage_usage = "用户目录"
resource_label group = "项目组"

-- The alert that tells of the adjustment: the columns that its delivery uses.
unfoldable pub record_adjustment :
    Environment → Resource → (old_hard old_soft new_hard new_soft : Option ℕ) → StorageAlert
unfolding plain
record_adjustment env r old_hard old_soft new_hard new_soft =
    let recipients =
      resolve_recipient_usernames (r.rd_username ∷ []) [] env.global_cc env.super_admins env.debug
        false in
    let arrow = λ (label : String) (old new : Option ℕ) (end : String). plain (
      text_append label (
        text_append (env.display_limit old)
          (text_append " → " (text_append (env.display_limit new) end)))) in
    record {
      id = env.next_alert_id;
      related_info = some (record {
        title = some "存储配额调整";
        paragraphs = some (
            (plain (
                text_append (resource_label r.resource_type)
                  (text_append "：" (text_append r.name "\n")))
              ∷ arrow "硬限额：" old_hard new_hard "\n"
              ∷ arrow "软限额：" old_soft new_soft ""
              ∷ [])
            ∷ []);
      });
      delivery_status = if is_empty recipients then skipped else pending;
      recipient_usernames = recipients;
      delivery_attempts = 0;
      next_attempt_at = if is_empty recipients then none else some env.now;
      notified_at = none;
      delivery_error = none;
    }

abbrev is_pending : DeliveryStatus → Bool
is_pending pending = true
is_pending _ = false

-- `deliver_storage_alert_task.delay`, whose failure is logged only
unfoldable pub enqueue : Bool → StorageAlert → World → World
enqueue works alert w = record w {
  queue = if works && is_pending alert.delivery_status then w.queue ++ alert.id ∷ [] else w.queue;
}

-- `if user.email`
abbrev pub addresses : Option String → List String
addresses none = []
addresses (some email) = if str_eq email "" then [] else email ∷ []

unfoldable pub send_adjustment_email : Resource → World → World
send_adjustment_email r w = record w { mails = w.mails ++ addresses r.email ∷ [] }
