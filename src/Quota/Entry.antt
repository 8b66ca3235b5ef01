-- ===== src/Quota/Entry.antt =====
-- The entry points of backend/services/quotaService.py, and `resolve_group_storage_target` of
-- backend/utils/storageTarget.py. A group and a directory stand beside the columns that find them, and a
-- cluster is its storage type with the digits of its id.
mod Resolve
pub mod Admission
pub mod Requests
pub mod Capabilities
unfoldable pub use Resolve.*
use disk_pulse.Prelude.{
  ℕ, String, Bool, true, false, not, ◌&&◌, ◌||◌, Option, none, some, List, [], ◌∷◌, length, ltb,
  ◌==◌, ◌=?◌, if◌then◌else◌, is_some, find, select,
}
use disk_pulse.Prelude.Exec.{Result, ok, err, Error, http_exception, Exec, continue, raise, pure}
use disk_pulse.Access.Db.{Db, User, Project, is_super_admin, get_project, get_user}
use disk_pulse.Quota.Request.{
  QuotaAdjustmentRequest, StorageType, ResourceType, TargetType, volume, qtree, is_volume_capacity,
  with_quota_defaults, validate_storage_request, require_safe_limit,
}
use disk_pulse.Quota.Rows.{Resource, Target, Rows, World}
use disk_pulse.Quota.Lock.{Redis, quota_rule, quota_lock_key, quota_target_lock}
use disk_pulse.Quota.Adjustment.{
  Environment, Job, Response, execute_adjustment_locked, reconcile_locked,
}

-- What one request brings along.
pub record Call : Type 0 where
  pub env : Environment
  pub request : QuotaAdjustmentRequest
  pub current_user : Option User
  pub audited : Bool
  pub operation_id : String
  pub token : String

abbrev pub super_admin : Db → Option User → Bool
super_admin db none = false
super_admin db (some user) = is_super_admin db user

abbrev pub job_of : Call → Resource → StorageType → QuotaAdjustmentRequest → Job
job_of call r storage_type request = record {
  storage_type = storage_type;
  request = request;
  audited = call.audited;
  operation_id = call.operation_id;
  old_hard_limit = r.limits.limit;
  old_soft_limit = r.limits.soft_limit;
}

-- The session has read the rows that the request is about.
unfoldable pub load : Resource → Target → World → World
load r t w = record w {
  session = record w.session { resource = r; target = t };
  durable = record w.durable { resource = r; target = t };
}

abbrev pub type_of : Option Target → Option TargetType
type_of none = none
type_of (some t) = some t.target_type

-- The checks of `_execute_adjustment` that precede the lock.
unfoldable pub check_adjustment :
    Call
    → Bool
    → Resource
    → StorageType
    → StorageTarget
    → Result (QuotaAdjustmentRequest × Target × Target)
check_adjustment call admin r storage_type resolved =
    let request =
      with_quota_defaults call.request storage_type r.resource_type (type_of resolved.target) in
    elim (validate_storage_request storage_type request) [
      | err e ↦ err e
      | ok _ ↦ elim resolved.target [
        | none ↦ err (http_exception 404 "Storage target not found")
        | some t ↦ elim resolved.volume [
          | none ↦ err (http_exception 404 "Storage target not found")
          | some v ↦
              if is_volume_capacity r.resource_type storage_type (some t.target_type)
                && is_some request.soft_limit_bytes
              then err (http_exception 422 "NetApp volume targets support only a hard limit")
              else elim (require_safe_limit r.limits.used request admin) [
                | err e ↦ err e
                | ok _ ↦ ok (request, t, v)
              ]
        ]
      ]
    ]

module _ {Store : Type 0} (redis : Redis Store) (meanwhile : Store → Store) where
  -- The body runs under the lock of the device's rule, and not at all without it.
  unfoldable pub under_lock :
      Call
      → Resource
      → Cluster
      → Target
      → Target
      → Exec World Response
      → Exec (World × Store) Response
  under_lock call r cluster t v body (w, store) =
      quota_target_lock redis
        (quota_lock_key cluster.id_text cluster.storage_type
          (quota_rule r t v.name cluster.storage_type))
        call.token meanwhile
        (λ acquired.
          if acquired then body else raise (http_exception 409 "quota_adjustment_in_progress"))
        (load r t w, store)

  unfoldable pub execute_adjustment :
      Call → Bool → Resource → Cluster → StorageTarget → Exec (World × Store) Response
  unfolding check_adjustment under_lock
  execute_adjustment call admin r cluster resolved s =
      elim (check_adjustment call admin r cluster.storage_type resolved) [
        | err e ↦ (err e, s)
        | ok checked ↦
            under_lock call r cluster checked.1 checked.2
              (execute_adjustment_locked call.env (job_of call r cluster.storage_type checked.0)) s
      ]

  unfoldable pub reconcile_quota :
      Call → Resource → Cluster → Target → Target → Exec (World × Store) Response
  unfolding under_lock
  reconcile_quota call r cluster t v =
      under_lock call r cluster t v
        (reconcile_locked call.env (job_of call r cluster.storage_type call.request))

  -- A group that the user may adjust, once its target is resolved.
  unfoldable pub adjust_resolved :
      Tables → GroupRow → Call → StorageTarget → Option Target → Exec (World × Store) Response
  unfolding is_shared execute_adjustment
  adjust_resolved tables g call resolved none s =
      (err (http_exception 404 "Storage target not found"), s)
  adjust_resolved tables g call resolved (some t) s =
      if is_shared tables t
      then (err (http_exception 409 "Storage target is shared by multiple groups"), s)
      else execute_adjustment call (super_admin tables.access call.current_user) g.resource
          g.cluster resolved s

  unfoldable pub adjust_group_quota : Tables → ℕ → Call → Exec (World × Store) Response
  unfolding resolve_group_storage_target adjust_resolved
  adjust_group_quota tables group_id call s = elim (get_group tables group_id) [
    | none ↦ (err (http_exception 404 "Group not found"), s)
    | some g ↦ elim (require_group_quota_adjustment_permission tables.access call.current_user) [
      | err e ↦ (err e, s)
      | ok _ ↦
          let resolved = resolve_group_storage_target tables g in
          adjust_resolved tables g call resolved resolved.target s
    ]
  ]

  unfoldable pub adjust_storage_usage_quota : Tables → ℕ → Call → Exec (World × Store) Response
  unfolding resolve_group_storage_target execute_adjustment
  adjust_storage_usage_quota tables storage_usage_id call s =
      elim (get_usage tables storage_usage_id) [
        | none ↦ (err (http_exception 404 "Storage usage not found"), s)
        | some u ↦ elim (usage_group tables u) [
          | none ↦ (err (http_exception 404 "Storage usage relations not found"), s)
          | some g ↦ elim (usage_user tables u) [
            | none ↦ (err (http_exception 404 "Storage usage relations not found"), s)
            | some _ ↦
                elim (require_storage_usage_quota_adjustment_permission tables.access
                  (some g.project_id) call.current_user) [
                    | err e ↦ (err e, s)
                    | ok _ ↦
                        execute_adjustment call (super_admin tables.access call.current_user)
                          u.resource g.cluster (resolve_group_storage_target tables g) s
                  ]
          ]
        ]
      ]

  -- What both reconciliations do once the request is admitted.
  reconcile_target : Call → Resource → Cluster → StorageTarget → Exec (World × Store) Response
  unfolding reconcile_quota
  reconcile_target call r cluster resolved s = elim resolved.target [
    | none ↦ (err (http_exception 404 "Storage target not found"), s)
    | some t ↦ elim resolved.volume [
      | none ↦ (err (http_exception 404 "Storage target not found"), s)
      | some v ↦ reconcile_quota call r cluster t v s
    ]
  ]

  unfoldable pub reconcile_group_quota : Tables → ℕ → Call → Exec (World × Store) Response
  unfolding resolve_group_storage_target reconcile_target
  reconcile_group_quota tables group_id call s = elim (get_group tables group_id) [
    | none ↦ (err (http_exception 404 "Group not found"), s)
    | some g ↦ elim (require_group_quota_adjustment_permission tables.access call.current_user) [
      | err e ↦ (err e, s)
      | ok _ ↦ reconcile_target call g.resource g.cluster (resolve_group_storage_target tables g) s
    ]
  ]

  unfoldable pub reconcile_storage_usage_quota : Tables → ℕ → Call → Exec (World × Store) Response
  unfolding resolve_group_storage_target reconcile_target
  reconcile_storage_usage_quota tables storage_usage_id call s =
      elim (get_usage tables storage_usage_id) [
        | none ↦ (err (http_exception 404 "Storage usage not found"), s)
        | some u ↦ elim (usage_group tables u) [
          | none ↦ (err (http_exception 404 "Storage usage not found"), s)
          | some g ↦ elim (usage_user tables u) [
            | none ↦ (err (http_exception 404 "Storage usage not found"), s)
            | some _ ↦
                elim (require_storage_usage_quota_adjustment_permission tables.access
                  (some g.project_id) call.current_user) [
                    | err e ↦ (err e, s)
                    | ok _ ↦
                        reconcile_target call u.resource g.cluster
                          (resolve_group_storage_target tables g) s
                  ]
          ]
        ]
      ]
