-- ===== src/Access/Permission.antt =====
-- What the permission checks grant, and that the capabilities that the user interface shows agree
-- with them.
use disk_pulse.Prelude.{
  ℕ, ◌≤◌, ◌≡◌, ◌≢◌, ◌↔◌, ◌⊎◌, inl, inr, true, false, Option, none, some, arith, is_some,
  Option-cases, ap, ◌∙◌,
}
use disk_pulse.Prelude.Exec.{ok}
use disk_pulse.Access.Db.{
  Role, reader, editor, project_admin, role_rank, User, Project, Group, StorageUsage, Db,
  is_super_admin, get_project, get_storage_usage,
}
use disk_pulse.Access.Service.{
  require_project_permission, require_storage_usage_permission, scoped, project_capabilities,
  incident_capabilities, group_of,
}
use disk_pulse.Access.Roles.{role_at}

-- The rank of a role in the view, and 0 for no role.
abbrev pub rank : Option Role → ℕ
rank none = 0
rank (some r) = role_rank r

-- A permission is granted exactly to a super administrator of a project that exists, and to a member
-- whose role ranks no lower than the role that is asked for.
pub require_project_permission_iff :
    (db : Db) (user : User) (project_id : ℕ) (minimum_role : Role)
    → (require_project_permission db (some user) project_id minimum_role ≡ ok tt) ↔ (
        (is_super_admin db user ≡ true) × (is_some (get_project db project_id) ≡ true)
        ⊎ (is_super_admin db user ≡ false)
          × (role_rank minimum_role ≤ rank (role_at db project_id user.id)))
unfolding require_project_permission
require_project_permission_iff db user project_id reader = (λ h. ground arith, λ h. ground arith)
require_project_permission_iff db user project_id _ = (λ h. ground arith, λ h. ground arith)

-- A refusal tells a user who is not a super administrator nothing about the project: it is the same
-- whether the project exists or not, and whatever other users' roles are.
pub require_project_permission-uniform :
    (db db' : Db) (user : User) (project_id project_id' : ℕ) (minimum_role : Role)
    → is_super_admin db user ≡ false
    → is_super_admin db' user ≡ false
    → require_project_permission db (some user) project_id minimum_role ≢ ok tt
    → require_project_permission db' (some user) project_id' minimum_role ≢ ok tt
    → require_project_permission db (some user) project_id minimum_role
      ≡ require_project_permission db' (some user) project_id' minimum_role
unfolding require_project_permission
require_project_permission-uniform db db' user p p' reader h h' k k' = ground arith
require_project_permission-uniform db db' user p p' _ h h' k k' = ground arith

-- What it takes to reach a directory of the group.
abbrev pub GroupGrants : Db → User → Role → Option Group → Type 0
GroupGrants db user minimum_role none = is_super_admin db user ≡ true
GroupGrants db user minimum_role (some g) =
    require_project_permission db (some user) g.project_id minimum_role ≡ ok tt

scoped_iff :
    (db : Db) (user : User) (minimum_role : Role) (t s : StorageUsage) (o : Option Group)
    → (scoped db user minimum_role t o ≡ ok s) ↔ ((t ≡ s) × GroupGrants db user minimum_role o)
unfolding scoped
scoped_iff db user minimum_role t s none = (λ h. (ground arith, ground arith), λ h. ground arith)
scoped_iff db user minimum_role t s (some g) =
    (λ h. (ground arith, ground arith), λ h. ground arith)

-- A directory is reached through the project of its group: the check returns a directory exactly if it
-- is the one with the id, and its group's project grants the role or, where there is no group, the
-- user is a super administrator.
pub require_storage_usage_permission_iff :
    (db : Db) (user : User) (n : ℕ) (minimum_role : Role) (s : StorageUsage)
    → (require_storage_usage_permission db (some user) n minimum_role ≡ ok s)
      ↔ ((get_storage_usage db n ≡ some s) × GroupGrants db user minimum_role (group_of db s))
unfolding require_storage_usage_permission
require_storage_usage_permission_iff db user n minimum_role s =
    elim (Option-cases (get_storage_usage db n)) [
      | inl gone ↦ (λ h. ground arith, λ h. ground arith)
      | inr (t, found) ↦
          let (there, back) = scoped_iff db user minimum_role t s (group_of db t) in
          (
            λ h.
                let (same, grants) = there (rw (found, require_storage_usage_permission) at h) in
                (found ∙ ap some same, rw same at grants),
            λ h.
                let same : t ≡ s = ground (arith, found, h.0) in
                rw (found, require_storage_usage_permission) (back (same, rw (← same) at h.1)),
          )
    ]

-- The capability to edit the incidents of a project that exists is shown exactly to those whom the
-- services let edit them, and the capability to open a maintenance window to those who may do that.
pub incident_capabilities-permission :
    (db : Db) (user : User) (project_id : ℕ) (project : Project)
    → get_project db project_id ≡ some project
    → ((incident_capabilities db (some user) (some project_id)).edit ≡ true
        ↔ (require_project_permission db (some user) project_id editor ≡ ok tt))
      × ((incident_capabilities db (some user) (some project_id)).create_maintenance_window ≡ true
          ↔ (require_project_permission db (some user) project_id project_admin ≡ ok tt))
unfolding incident_capabilities require_project_permission
incident_capabilities-permission db user project_id project e =
    ((λ h. ground arith, λ h. ground arith), (λ h. ground arith, λ h. ground arith))

-- Likewise for the management of the members of a project.
pub project_capabilities-permission :
    (db : Db) (user : User) (project_id : ℕ) (project : Project)
    → get_project db project_id ≡ some project
    → (project_capabilities db (some user) project_id).manage_members ≡ true
      ↔ (require_project_permission db (some user) project_id project_admin ≡ ok tt)
unfolding project_capabilities require_project_permission
project_capabilities-permission db user project_id project e =
    (λ h. ground arith, λ h. ground arith)
