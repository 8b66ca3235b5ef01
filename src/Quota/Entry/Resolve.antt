-- ===== src/Quota/Entry/Resolve.antt =====
-- The rows that find a resource and its target, and the permissions: `resolve_group_storage_target` of
-- backend/utils/storageTarget.py and the last two functions of backend/services/quotaService.py.
use disk_pulse.Prelude.{
  ℕ, String, Bool, false, Option, none, some, List, length, ltb, ◌==◌, ◌=?◌, if◌then◌else◌, find,
  select,
}
use disk_pulse.Prelude.Exec.{Result, ok, err, http_exception}
use disk_pulse.Access.Db.{Db, User, Project, is_super_admin, get_project, get_user}
use disk_pulse.Quota.Request.{StorageType, volume, qtree}
use disk_pulse.Quota.Rows.{Resource, Target}

pub record Cluster : Type 0 where
  pub storage_type : StorageType
  pub id_text : String

pub record GroupRow : Type 0 where
  pub id : ℕ
  pub project_id : ℕ
  pub volume_id : Option ℕ
  pub qtree_id : Option ℕ
  pub cluster : Cluster
  pub resource : Resource

pub record UsageRow : Type 0 where
  pub id : ℕ
  pub group_id : Option ℕ
  pub user_id : Option ℕ
  pub resource : Resource

pub record QtreeRow : Type 0 where
  pub volume_id : Option ℕ
  pub target : Target

pub record Tables : Type 0 where
  pub access : Db
  pub groups : List GroupRow
  pub usages : List UsageRow
  pub volumes : List Target
  pub qtrees : List QtreeRow

abbrev pub get_group : Tables → ℕ → Option GroupRow
get_group tables n = find (λ (g : GroupRow). g.id == n) tables.groups

abbrev pub get_usage : Tables → ℕ → Option UsageRow
get_usage tables n = find (λ (u : UsageRow). u.id == n) tables.usages

abbrev get_volume : Tables → ℕ → Option Target
get_volume tables n = find (λ (v : Target). v.id == n) tables.volumes

abbrev get_qtree : Tables → ℕ → Option QtreeRow
get_qtree tables n = find (λ (q : QtreeRow). q.target.id == n) tables.qtrees

abbrev pub then_find {ℓ κ} : {A : Type ℓ} {B : Type κ} → Option A → (A → Option B) → Option B
then_find none f = none
then_find (some a) f = f a

-- `target` and `volume` of the result
pub record StorageTarget : Type 0 where
  pub target : Option Target
  pub volume : Option Target

abbrev qtree_target : Tables → Option QtreeRow → StorageTarget
qtree_target tables none = record { target = none; volume = none }
qtree_target tables (some q) = record {
  target = some q.target;
  volume = then_find q.volume_id (get_volume tables);
}

unfoldable pub resolve_group_storage_target : Tables → GroupRow → StorageTarget
resolve_group_storage_target tables g = elim g.volume_id [
  | some n ↦ record { target = get_volume tables n; volume = get_volume tables n }
  | none ↦ elim g.qtree_id [
    | some n ↦ qtree_target tables (get_qtree tables n)
    | none ↦ record { target = none; volume = none }
  ]
]

unfoldable pub require_group_quota_adjustment_permission : Db → Option User → Result (Unit {0})
require_group_quota_adjustment_permission db none =
    err (http_exception 401 "authentication required")
require_group_quota_adjustment_permission db (some user) =
    if is_super_admin db user
    then ok tt
    else err (http_exception 403 "quota adjustment permission required")

-- `project is not None and project.in_charge_user_id == current_user.id`
abbrev pub in_charge : Option Project → User → Bool
in_charge none user = false
in_charge (some project) user = project.in_charge_user_id =? user.id

-- The project of the directory's group, by its id.
abbrev pub project_of : Db → Option ℕ → Option Project
project_of db none = none
project_of db (some project_id) = get_project db project_id

unfoldable pub require_storage_usage_quota_adjustment_permission :
    Db → Option ℕ → Option User → Result (Unit {0})
require_storage_usage_quota_adjustment_permission db project_id none =
    err (http_exception 401 "authentication required")
require_storage_usage_quota_adjustment_permission db project_id (some user) =
    if is_super_admin db user
    then ok tt
    else if in_charge (project_of db project_id) user
    then ok tt
    else err (http_exception 403 "quota adjustment permission required")

-- Whether another group has the same target.
unfoldable pub is_shared : Tables → Target → Bool
is_shared tables t = ltb 1 (
    length (
      select
        (λ (g : GroupRow). elim t.target_type [
          | qtree ↦ g.qtree_id =? t.id
          | volume ↦ g.volume_id =? t.id
        ])
        tables.groups))

-- `storage_usage.group` and `storage_usage.user`
abbrev pub usage_group : Tables → UsageRow → Option GroupRow
usage_group tables u = then_find u.group_id (get_group tables)

abbrev pub usage_user : Tables → UsageRow → Option User
usage_user tables u = then_find u.user_id (get_user tables.access)
