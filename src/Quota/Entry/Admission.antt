-- ===== src/Quota/Entry/Admission.antt =====
-- What an adjustment has passed before the device is asked, and how it then ends.
use disk_pulse.Prelude.{
  ◌≡◌, ◌⊎◌, inl, inr, refl, Bool, true, false, some, arith, ◌&&◌, is_some, Option-cases,
}
use disk_pulse.Prelude.Exec.{Result, ok, err, Error, Result-cases}
use disk_pulse.Quota.Request.{
  QuotaAdjustmentRequest, StorageType, validate_storage_request, has_reason, is_volume_capacity,
  with_quota_defaults,
}
use disk_pulse.Quota.Request.Checks.{CoversUse, require_safe_limit_iff}
use disk_pulse.Quota.Rows.{Resource, Target, World}
use disk_pulse.Quota.Lock.{Redis, quota_target_lock, quota_lock_key, quota_rule}
use disk_pulse.Quota.Adjustment.{Response, command, execute_adjustment_locked}
use disk_pulse.Quota.Adjustment.Results.{IsClean, Leaves, execute_adjustment_locked-Leaves}
use disk_pulse.Quota.Entry.{
  Call, StorageTarget, Cluster, check_adjustment, type_of, job_of, load, under_lock,
  execute_adjustment,
}

-- The request is one that the device and the use of the resource allow.
pub record IsChecked (call : Call) (admin : Bool) (r : Resource) (storage_type : StorageType)
    (resolved : StorageTarget) (request : QuotaAdjustmentRequest) (t v : Target) : Type 0 where
  pub effective :
      request
      ≡ with_quota_defaults call.request storage_type r.resource_type (type_of resolved.target)
  pub target : resolved.target ≡ some t
  pub volume : resolved.volume ≡ some v
  pub supported : validate_storage_request storage_type request ≡ ok tt
  pub safe :
      CoversUse r.limits.used request.hard_limit_bytes
      ⊎ (request.force_below_usage ≡ true)
        × (admin ≡ true)
        × (has_reason request.change_reason ≡ true)
  pub hard_only :
      (is_volume_capacity r.resource_type storage_type (some t.target_type)
        && is_some request.soft_limit_bytes)
      ≡ false

pub check_adjustment-IsChecked :
    (call : Call) (admin : Bool) (r : Resource) (storage_type : StorageType)
    (resolved : StorageTarget) (request : QuotaAdjustmentRequest) (t v : Target)
    → check_adjustment call admin r storage_type resolved ≡ ok (request, t, v)
    → IsChecked call admin r storage_type resolved request t v
unfolding check_adjustment
check_adjustment-IsChecked call admin r storage_type resolved request t v h = record {
  effective = ground (arith, h);
  target = ground (arith, h);
  volume = ground (arith, h);
  supported = ground (arith, h);
  safe = (require_safe_limit_iff r.limits.used request admin).0 (ground (arith, h));
  hard_only = ground (arith, h);
}

-- Nothing was added to the trail, the alerts, the queue or the mails.
pub record IsUntouched (w v : World) : Type 0 where
  pub audits : v.durable.audits ≡ w.durable.audits
  pub alerts : v.durable.alerts ≡ w.durable.alerts
  pub queue : v.queue ≡ w.queue
  pub mails : v.mails ≡ w.mails

-- An adjustment that passed the checks and ran.
pub record Admitted (call : Call) (admin : Bool) (r : Resource) (storage_type : StorageType)
    (resolved : StorageTarget) (w : World) (answer : Result Response) (v : World) : Type 0 where
  pub request : QuotaAdjustmentRequest
  pub t : Target
  pub volume : Target
  pub checked : IsChecked call admin r storage_type resolved request t volume
  pub leaves :
      Leaves call.env
        (job_of call r storage_type request)
        (load r t w)
        (call.env.write (command r t (job_of call r storage_type request)))
        answer
        v

-- A refusal: an exception, and nothing written.
pub record Refused (w : World) (answer : Result Response) (v : World) : Type 0 where
  pub error : Error
  pub raised : answer ≡ err error
  pub untouched : IsUntouched w v

pub refuses : (w : World) (e : Error) → Refused w (err e) w
refuses w e = record {
  error = e;
  raised = refl;
  untouched = record { audits = refl; alerts = refl; queue = refl; mails = refl };
}

load-IsClean : (r : Resource) (t : Target) (w : World) → IsClean w → IsClean (load r t w)
unfolding load
load-IsClean r t w c = record { resource = refl; target = refl; alerts = c.alerts }

module _ {Store : Type 0} (redis : Redis Store) (meanwhile : Store → Store) where
  under_lock-cases :
      (call : Call) (r : Resource) (cluster : Cluster) (t v : Target)
      (body : World → Result Response × World) (w : World) (store : Store)
      → let (answer, (u, store')) = under_lock redis meanwhile call r cluster t v body (w, store) in
        Refused w answer u ⊎ (answer ≡ (body (load r t w)).0) × (u ≡ (body (load r t w)).1)
  unfolding under_lock quota_target_lock load
  under_lock-cases call r cluster t v body w store =
      elim (Option-cases
        (redis.set_nx
          (quota_lock_key cluster.id_text cluster.storage_type
            (quota_rule r t v.name cluster.storage_type))
          call.token store).0) [
            | inl e ↦
                rw (e, under_lock, quota_target_lock)
                  (inl (record {
                    error = _;
                    raised = refl;
                    untouched = record { audits = refl; alerts = refl; queue = refl; mails = refl };
                  }))
            | inr (true, e) ↦ rw (e, under_lock, quota_target_lock) (inr (refl, refl))
            | inr (false, e) ↦
                rw (e, under_lock, quota_target_lock)
                  (inl (record {
                    error = _;
                    raised = refl;
                    untouched = record { audits = refl; alerts = refl; queue = refl; mails = refl };
                  }))
          ]

  pub execute_adjustment-Admitted :
      (call : Call) (admin : Bool) (r : Resource) (cluster : Cluster) (resolved : StorageTarget)
      (w : World) (store : Store)
      → IsClean w
      → let (answer, (v, store')) =
          execute_adjustment redis meanwhile call admin r cluster resolved (w, store) in
        Refused w answer v ⊎ Admitted call admin r cluster.storage_type resolved w answer v
  unfolding execute_adjustment load
  execute_adjustment-Admitted call admin r cluster resolved w store c =
      elim (Result-cases (check_adjustment call admin r cluster.storage_type resolved)) [
        | inl (e, h) ↦ rw (h, execute_adjustment) (inl (refuses w e))
        | inr ((request, t, v), h) ↦ rw (h, execute_adjustment) (ran request t v h)
      ]
    where
      ran :
          (request : QuotaAdjustmentRequest) (t v : Target)
          → check_adjustment call admin r cluster.storage_type resolved ≡ ok (request, t, v)
          → let (answer, (u, store')) =
              under_lock redis meanwhile call r cluster t v
                (execute_adjustment_locked call.env (job_of call r cluster.storage_type request))
                (w, store) in
            Refused w answer u ⊎ Admitted call admin r cluster.storage_type resolved w answer u
      ran request t v h =
          let job = job_of call r cluster.storage_type request in
          elim (under_lock-cases call r cluster t v (execute_adjustment_locked call.env job) w
            store) [
              | inl refused ↦ inl refused
              | inr (same, same') ↦ inr (record {
                request = request;
                t = t;
                volume = v;
                checked =
                    check_adjustment-IsChecked call admin r cluster.storage_type resolved request t
                      v h;
                leaves =
                    rw (same, same')
                      (execute_adjustment_locked-Leaves call.env job (load r t w)
                        (load-IsClean r t w c));
              })
            ]
