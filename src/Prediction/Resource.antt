-- ===== src/Prediction/Resource.antt =====
-- Who sees a capacity prediction and who plans a change of capacity: `_resource`,
-- `prediction_visible_to_user`, `resource_prediction_access`, `create_capacity_plan` and
-- `list_resource_capacity_plans` of backend/services/capacityPredictionGovernanceService.py, on top of the
-- permissions of backend/services/project_access_service.py.
use mathlib.Core.Option
use disk_pulse.Prelude.{
  ℕ, String, Bool, true, false, not, ◌&&◌, Option, none, some, List, [], ◌∷◌, leb, ◌==◌,
  if◌then◌else◌, any, select,
}
use disk_pulse.Prelude.Exec.{http_exception, Error, Result, ok, err, Exec}
use disk_pulse.Prelude.Time.{Instant}
use disk_pulse.Access.Db.{Role, reader, project_admin, User, Group, StorageUsage, is_super_admin}
use disk_pulse.Access.Service.{
  require_project_permission, require_group_permission, require_storage_usage_permission, group_of,
}
use disk_pulse.Prediction.Db.{
  Figure, Stamp, AssetType, storage_cluster, project, group, storage_usage, same_type,
  CapacityPredictionPlan, Store, add_plan,
}
use disk_pulse.Prediction.Governance.{settings_visible}
pub mod Plans

-- The project of a group, where the permission was granted.
abbrev group_scope : Result Group → Result (Option ℕ)
group_scope (ok g) = ok (some g.project_id)
group_scope (err e) = err e

unfoldable pub usage_scope : Store → Option User → Result StorageUsage → Result (Option ℕ)
usage_scope s user (err e) = err e
usage_scope s user (ok usage) = elim (group_of s.access usage) [
  | some g ↦ ok (some g.project_id)
  | none ↦ elim user [
    | none ↦ err (http_exception 403 "project permission required")
    | some u ↦
        if not (is_super_admin s.access u)
        then err (http_exception 403 "project permission required")
        else ok none
  ]
]

unfoldable pub cluster_scope : Store → Option User → ℕ → Result (Option ℕ)
cluster_scope s none n = err (http_exception 401 "authentication required")
cluster_scope s (some u) n =
    if not (is_super_admin s.access u)
    then err (http_exception 403 "super admin permission required")
    else (if any (λ m. m == n) s.clusters
        then ok none
        else err (http_exception 404 "storage cluster was not found"))

abbrev project_scope : Result (Unit {0}) → ℕ → Result (Option ℕ)
project_scope (ok _) n = ok (some n)
project_scope (err e) n = err e

-- `_resource`: the project of the resource, or none, where the user may reach it.
unfoldable pub resource : Store → Option User → AssetType → ℕ → Role → Result (Option ℕ)
unfolding usage_scope cluster_scope
resource s user storage_cluster n minimum_role = cluster_scope s user n
resource s user project n minimum_role =
    project_scope (require_project_permission s.access user n minimum_role) n
resource s user group n minimum_role =
    group_scope (require_group_permission s.access user n minimum_role)
resource s user storage_usage n minimum_role =
    usage_scope s user (require_storage_usage_permission s.access user n minimum_role)

unfoldable pub prediction_visible_to_user : Store → Option User → Bool
prediction_visible_to_user s none = false
prediction_visible_to_user s (some u) =
    if is_super_admin s.access u then true else settings_visible s.settings

globally_disabled : Error
globally_disabled = http_exception 403 "capacity prediction is globally disabled"

unfoldable pub require_prediction_visibility : Store → Option User → Result (Unit {0})
unfolding globally_disabled
require_prediction_visibility s user =
    if not (prediction_visible_to_user s user) then err globally_disabled else ok tt

-- The two checks that every reader of a resource passes.
unfoldable pub readable : Store → Option User → AssetType → ℕ → Result (Option ℕ)
unfolding resource require_prediction_visibility
readable s user t n = elim (resource s user t n reader) [
  | err e ↦ err e
  | ok scope ↦ elim (require_prediction_visibility s user) [ err e ↦ err e | ok _ ↦ ok scope ]
]

-- `error.status_code != 403`
abbrev is_forbidden : Error → Bool
is_forbidden (http_exception status _) = status == 403
is_forbidden _ = false

abbrev manages : Result (Option ℕ) → Result Bool
manages (ok _) = ok true
manages (err e) = if is_forbidden e then ok false else err e

-- The value of `can_manage_plans`.
unfoldable pub resource_prediction_access : Store → Option User → AssetType → ℕ → Result Bool
unfolding readable
resource_prediction_access s user t n = elim (readable s user t n) [
  | err e ↦ err e
  | ok _ ↦ manages (resource s user t n project_admin)
]

-- `current_user.id`: without a user the permission has raised.
abbrev user_id : Option User → ℕ
user_id none = 0
user_id (some u) = u.id

unfoldable pub plan_in :
    Option User
    → AssetType
    → ℕ
    → Instant
    → Figure
    → String
    → Option ℕ
    → Exec Store CapacityPredictionPlan
plan_in user t n at_time delta reason none s =
    (err (http_exception 403 "project-scoped resource required"), s)
plan_in user t n at_time delta reason (some project_id) s =
    add_plan
      (record {
        asset_type = t;
        asset_id = n;
        project_id = project_id;
        effective_at = at_time;
        capacity_delta = delta;
        reason = reason;
        created_by = user_id user;
      })
      s

unfoldable pub create_capacity_plan :
    Option User → AssetType → ℕ → Stamp → Figure → String → Exec Store CapacityPredictionPlan
unfolding resource require_prediction_visibility plan_in
create_capacity_plan user t n none delta reason s =
    (err (http_exception 422 "effective_at must include a UTC offset"), s)
create_capacity_plan user t n (some at_time) delta reason s =
    elim (resource s user t n project_admin) [
      | err e ↦ (err e, s)
      | ok scope ↦ elim (require_prediction_visibility s user) [
        | err e ↦ (err e, s)
        | ok _ ↦ plan_in user t n at_time delta reason scope s
      ]
    ]

unfoldable pub insert_plan :
    CapacityPredictionPlan → List CapacityPredictionPlan → List CapacityPredictionPlan
insert_plan p [] = p ∷ []
insert_plan p (q ∷ plans) =
    let rest = insert_plan p plans in
    if leb p.effective_at q.effective_at then p ∷ q ∷ plans else q ∷ rest

-- By the time and the id.
unfoldable pub sort_plans : List CapacityPredictionPlan → List CapacityPredictionPlan
unfolding insert_plan
sort_plans [] = []
sort_plans (p ∷ plans) = insert_plan p (sort_plans plans)

unfoldable pub list_plans : Store → AssetType → ℕ → List CapacityPredictionPlan
unfolding sort_plans
list_plans s t n =
    sort_plans
      (select (λ (p : CapacityPredictionPlan). same_type p.asset_type t && p.asset_id == n) s.plans)

unfoldable pub list_resource_capacity_plans :
    Store → Option User → AssetType → ℕ → Result (List CapacityPredictionPlan)
unfolding readable list_plans
list_resource_capacity_plans s user t n = elim (readable s user t n) [
  | err e ↦ err e
  | ok _ ↦ ok (list_plans s t n)
]
