-- ===== src/Quota/Entry/Capabilities.antt =====
-- The user interface offers an adjustment exactly to those whom the service lets adjust.
use mathlib.Core.Option
use disk_pulse.Prelude.{refl, ◌≡◌, ◌↔◌, true, Option, none, some, arith}
use disk_pulse.Prelude.Exec.{ok}
use disk_pulse.Access.Db.{Db, User, Group, StorageUsage}
use disk_pulse.Access.Service.{group_capabilities, storage_usage_capabilities, group_of}
use disk_pulse.Quota.Entry.{
  require_group_quota_adjustment_permission, require_storage_usage_quota_adjustment_permission,
}

usage_lem :
    (db : Db) (user : Option User) (s : StorageUsage) (g : Option Group)
    → group_of db s ≡ g
    → (storage_usage_capabilities db user s ≡ true) ↔ (
        require_storage_usage_quota_adjustment_permission db
          (Option.map (λ (x : Group). x.project_id) g)
          user
        ≡ ok tt)
unfolding storage_usage_capabilities require_storage_usage_quota_adjustment_permission
usage_lem db none s g e = (λ h. ground arith, λ h. ground arith)
usage_lem db (some user) s none e = (λ h. ground (arith, e), λ h. ground (arith, e))
usage_lem db (some user) s (some g) e = (λ h. ground (arith, e), λ h. ground (arith, e))

-- For a group that exists, and for a directory whatever group it has, the capability to adjust the quota is
-- shown exactly to a user who passes the check of the service.
pub adjust_quota-permission :
    (db : Db) (g : Group) (s : StorageUsage) (user : Option User)
    → ((group_capabilities db user (some g) ≡ true)
        ↔ (require_group_quota_adjustment_permission db user ≡ ok tt))
      × ((storage_usage_capabilities db user s ≡ true) ↔ (
          require_storage_usage_quota_adjustment_permission db
            (Option.map (λ (x : Group). x.project_id) (group_of db s))
            user
          ≡ ok tt))
unfolding group_capabilities require_group_quota_adjustment_permission
adjust_quota-permission db g s none =
    ((λ h. ground arith, λ h. ground arith), usage_lem db none s (group_of db s) refl)
adjust_quota-permission db g s (some user) =
    ((λ h. ground arith, λ h. ground arith), usage_lem db (some user) s (group_of db s) refl)
