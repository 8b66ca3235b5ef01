-- ===== src/Quota/Entry/Requests.antt =====
-- What a request to adjust a quota comes to.
use disk_pulse.Prelude.{
  ℕ, ◌≡◌, ◌⊎◌, inl, inr, refl, false, Option, none, some, Bool-cases, Option-cases,
}
use disk_pulse.Prelude.Exec.{ok, Result-cases}
use disk_pulse.Quota.Rows.{Target, World}
use disk_pulse.Quota.Lock.{Redis}
use disk_pulse.Quota.Adjustment.Results.{IsClean}
use disk_pulse.Quota.Entry.{
  Call, StorageTarget, Tables, UsageRow, GroupRow, get_usage, get_group, usage_group, usage_user,
  super_admin, is_shared, resolve_group_storage_target, require_group_quota_adjustment_permission,
  require_storage_usage_quota_adjustment_permission, adjust_group_quota, adjust_resolved,
  adjust_storage_usage_quota,
}
use disk_pulse.Quota.Entry.Admission.{Refused, Admitted, refuses, execute_adjustment-Admitted}

module _ {Store : Type 0} (redis : Redis Store) (meanwhile : Store → Store) where
  -- Adjusting the quota of a directory either raises an exception and adds nothing to the audit trail, the
  -- alerts, the queue or the mails; or the directory and its group exist, the user is a super
  -- administrator or in charge of the project, the new limit covers the recorded use or a super
  -- administrator forces it with a reason, and the rows are left as they were or with the limits that the
  -- device confirmed.
  pub adjust_storage_usage_quota-Admitted :
      (tables : Tables) (n : ℕ) (call : Call) (w : World) (store : Store)
      → IsClean w
      → let (answer, (v, store')) =
          adjust_storage_usage_quota redis meanwhile tables n call (w, store) in
        Refused w answer v
        ⊎ ((u : UsageRow) × (g : GroupRow) × (get_usage tables n ≡ some u)
            × (usage_group tables u ≡ some g)
            × (require_storage_usage_quota_adjustment_permission tables.access
                  (some g.project_id)
                  call.current_user
                ≡ ok tt)
            × Admitted call
                (super_admin tables.access call.current_user)
                u.resource
                g.cluster.storage_type
                (resolve_group_storage_target tables g)
                w
                answer
                v)
  unfolding adjust_storage_usage_quota
  adjust_storage_usage_quota-Admitted tables n call w store c =
      elim (Option-cases (get_usage tables n)) [
        | inl e ↦ rw (e, adjust_storage_usage_quota) (inl (refuses w _))
        | inr (u, e) ↦
            rw (e, adjust_storage_usage_quota)
              (elim (Option-cases (usage_group tables u)) [
                | inl f ↦ rw (f, adjust_storage_usage_quota) (inl (refuses w _))
                | inr (g, f) ↦ elim (Option-cases (usage_user tables u)) [
                  | inl k ↦ rw (f, k, adjust_storage_usage_quota) (inl (refuses w _))
                  | inr (owner, k) ↦
                      elim (Result-cases (
                        require_storage_usage_quota_adjustment_permission tables.access
                          (some g.project_id) call.current_user)) [
                            | inl (x, p) ↦
                                rw (f, k, p, adjust_storage_usage_quota) (inl (refuses w _))
                            | inr (_, p) ↦
                                rw (f, k, p, adjust_storage_usage_quota)
                                  (elim (execute_adjustment-Admitted redis meanwhile call
                                    (super_admin tables.access call.current_user) u.resource
                                    g.cluster (resolve_group_storage_target tables g) w store c) [
                                      | inl refused ↦ inl refused
                                      | inr admitted ↦ inr (u, g, refl, f, p, admitted)
                                    ])
                          ]
                ]
              ])
      ]

  adjust_resolved-Admitted :
      (tables : Tables) (g : GroupRow) (call : Call) (resolved : StorageTarget) (o : Option Target)
      (w : World) (store : Store)
      → IsClean w
      → let (answer, (v, store')) =
          adjust_resolved redis meanwhile tables g call resolved o (w, store) in
        Refused w answer v
        ⊎ ((t : Target) × (o ≡ some t)
            × (is_shared tables t ≡ false)
            × Admitted call
                (super_admin tables.access call.current_user)
                g.resource
                g.cluster.storage_type
                resolved
                w
                answer
                v)
  unfolding adjust_resolved
  adjust_resolved-Admitted tables g call resolved none w store c = inl (refuses w _)
  adjust_resolved-Admitted tables g call resolved (some t) w store c =
      elim (Bool-cases (is_shared tables t)) [
        | inl shared ↦ rw shared (inl (refuses w _))
        | inr alone ↦
            rw alone
              (elim (execute_adjustment-Admitted redis meanwhile call
                (super_admin tables.access call.current_user) g.resource g.cluster resolved w store
                c) [ inl refused ↦ inl refused | inr admitted ↦ inr (t, refl, alone, admitted) ])
      ]

  -- Likewise for a project group, which only a super administrator may adjust, and only where no other
  -- group has the same target.
  pub adjust_group_quota-Admitted :
      (tables : Tables) (n : ℕ) (call : Call) (w : World) (store : Store)
      → IsClean w
      → let (answer, (v, store')) = adjust_group_quota redis meanwhile tables n call (w, store) in
        Refused w answer v
        ⊎ ((g : GroupRow) × (t : Target) × (get_group tables n ≡ some g)
            × (require_group_quota_adjustment_permission tables.access call.current_user ≡ ok tt)
            × ((resolve_group_storage_target tables g).target ≡ some t)
            × (is_shared tables t ≡ false)
            × Admitted call
                (super_admin tables.access call.current_user)
                g.resource
                g.cluster.storage_type
                (resolve_group_storage_target tables g)
                w
                answer
                v)
  unfolding adjust_group_quota
  adjust_group_quota-Admitted tables n call w store c = elim (Option-cases (get_group tables n)) [
    | inl e ↦ rw (e, adjust_group_quota) (inl (refuses w _))
    | inr (g, e) ↦
        elim (Result-cases
          (require_group_quota_adjustment_permission tables.access call.current_user)) [
            | inl (x, p) ↦ rw (e, p, adjust_group_quota) (inl (refuses w _))
            | inr (_, p) ↦
                rw (e, p, adjust_group_quota)
                  (elim (adjust_resolved-Admitted tables g call
                    (resolve_group_storage_target tables g)
                    (resolve_group_storage_target tables g).target w store c) [
                      | inl refused ↦ inl refused
                      | inr (t, found, alone, admitted) ↦
                          inr (g, t, refl, refl, found, alone, admitted)
                    ])
          ]
  ]
