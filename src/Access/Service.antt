-- ===== src/Access/Service.antt =====
-- backend/services/project_access_service.py. A role that is no key of `ROLE_RANK` is refused by
-- `_validate_role` before anything is read; the routes and the table's check constraint admit the
-- three roles only, so a role is one of them here.
use disk_pulse.Prelude.{
  ℕ, ◌+◌, Bool, true, false, not, ◌&&◌, ◌||◌, Option, none, some, List, [], ◌∷◌, ◌++◌, map, ltb,
  leb, ◌==◌, ◌=?◌, if◌then◌else◌, is_some, select, update_where, delete_where,
}
use disk_pulse.Prelude.Exec.{http_exception, Result, ok, err, Exec}
use disk_pulse.Access.Db.{
  Role, reader, editor, project_admin, role_rank, is_project_admin, User, Project, Group,
  StorageUsage, ProjectMembership, Db, is_super_admin, get_project, get_group, get_storage_usage,
  is_member_row, get_membership, owns_project_directory,
}

-- `db.add(membership)` and a flush.
unfoldable pub add_membership : ℕ → ℕ → Role → Option ℕ → Db → Db
add_membership project_id user_id role by db = record db {
  memberships =
      db.memberships
      ++ record {
        id = db.next_membership_id;
        project_id = project_id;
        user_id = user_id;
        role = role;
        created_by = by;
        updated_by = by;
      }
        ∷ [];
  next_membership_id = db.next_membership_id + 1;
}

-- `membership.role = role`
unfoldable pub set_role : ℕ → ℕ → Role → Db → Db
set_role project_id user_id role db = record db {
  memberships =
      update_where (is_member_row project_id user_id)
        (λ (m : ProjectMembership). record m { role = role }) db.memberships;
}

-- `db.delete(membership)`
unfoldable pub remove_membership : ℕ → ℕ → Db → Db
remove_membership project_id user_id db = record db {
  memberships = delete_where (is_member_row project_id user_id) db.memberships;
}

unfoldable pub ensure_reader_membership : ℕ → ℕ → Db → Db
unfolding add_membership
ensure_reader_membership user_id project_id db = elim (get_membership db project_id user_id) [
  | some membership ↦ db
  | none ↦ add_membership project_id user_id reader none db
]

abbrev pub same_pair : ℕ × ℕ → ℕ × ℕ → Bool
same_pair (p, u) (p', u') = p == p' && u == u'

-- A set of pairs, as the list of its elements in the order of their first occurrence.
unfoldable pub pair_set : List (ℕ × ℕ) → List (ℕ × ℕ)
pair_set [] = []
pair_set (x ∷ xs) = x ∷ delete_where (same_pair x) (pair_set xs)

-- `pairs - existing`: a pair of the argument is in `existing` exactly when it has a row.
unfoldable pub missing : Db → List (ℕ × ℕ) → List (ℕ × ℕ)
unfolding pair_set
missing db pairs =
    select (λ (x : ℕ × ℕ). not (is_some (get_membership db x.0 x.1))) (pair_set pairs)

-- `db.add_all`
unfoldable pub add_readers : List (ℕ × ℕ) → Db → Db
unfolding add_membership
add_readers [] db = db
add_readers ((project_id, user_id) ∷ pairs) db =
    add_readers pairs (add_membership project_id user_id reader none db)

unfoldable pub ensure_reader_memberships : List (ℕ × ℕ) → Db → Db
unfolding missing add_readers
ensure_reader_memberships pairs db = add_readers (missing db pairs) db

-- The owners of a group's directories.
unfoldable pub directory_owners : ℕ → ℕ → List StorageUsage → List (ℕ × ℕ)
directory_owners project_id group_id [] = []
directory_owners project_id group_id (s ∷ rows) =
    let rest = directory_owners project_id group_id rows in
    if s.group_id =? group_id
    then elim s.user_id [ none ↦ rest | some user_id ↦ (project_id, user_id) ∷ rest ]
    else rest

unfoldable pub ensure_group_directory_readers : ℕ → Db → Db
unfolding directory_owners
ensure_group_directory_readers group_id db = elim (get_group db group_id) [
  | none ↦ db
  | some group ↦
      ensure_reader_memberships (directory_owners group.project_id group_id db.storage_usages) db
]

-- The row is added, or its role is written.
unfoldable pub put_member : ℕ → ℕ → Role → Option ProjectMembership → Db → Db
unfolding add_membership set_role
put_member project_id user_id role none db = add_membership project_id user_id role none db
put_member project_id user_id role (some membership) db = set_role project_id user_id role db

unfoldable pub set_project_member : ℕ → ℕ → Role → Bool → Exec Db (Unit {0})
set_project_member project_id user_id role actor_is_super_admin db =
    if is_project_admin role && not actor_is_super_admin
    then (err (http_exception 403 "super admin permission required"), db)
    else (ok tt, put_member project_id user_id role (get_membership db project_id user_id) db)

-- The row of an owner who hands the project over.
unfoldable pub retire_owner : ℕ → ℕ → Db → Db
unfolding set_role remove_membership
retire_owner project_id previous_owner db = elim (get_membership db project_id previous_owner) [
  | none ↦ db
  | some previous ↦
      if is_project_admin previous.role
      then (if owns_project_directory db project_id previous_owner
          then set_role project_id previous_owner reader db
          else remove_membership project_id previous_owner db)
      else db
]

-- `previous_owner_user_id is not None and previous_owner_user_id != project.in_charge_user_id`
unfoldable pub retire_previous : Project → Option ℕ → Db → Db
unfolding retire_owner
retire_previous project none db = db
retire_previous project (some previous) db =
    if project.in_charge_user_id =? previous then db else retire_owner project.id previous db

-- `if project.in_charge_user_id is not None`
unfoldable pub put_owner : ℕ → Option ℕ → Exec Db (Unit {0})
unfolding set_project_member
put_owner project_id none db = (ok tt, db)
put_owner project_id (some owner) db = set_project_member project_id owner project_admin true db

unfoldable pub ensure_project_owner_membership : ℕ → Option ℕ → Exec Db (Unit {0})
unfolding retire_previous put_owner
ensure_project_owner_membership project_id previous_owner db = elim (get_project db project_id) [
  | none ↦ (err (http_exception 404 "project was not found"), db)
  | some project ↦
      put_owner project.id project.in_charge_user_id (retire_previous project previous_owner db)
]

-- The permissions only read the session: they return or raise.
unfoldable pub require_project_permission : Db → Option User → ℕ → Role → Result (Unit {0})
require_project_permission db none project_id minimum_role =
    err (http_exception 401 "authentication required")
require_project_permission db (some user) project_id minimum_role =
    if is_super_admin db user
    then elim (get_project db project_id) [
      | none ↦ err (http_exception 404 "project was not found")
      | some _ ↦ ok tt
    ]
    else elim (get_membership db project_id user.id) [
      | none ↦ err (http_exception 403 "project permission required")
      | some membership ↦
          if ltb (role_rank membership.role) (role_rank minimum_role)
          then err (http_exception 403 "project permission required")
          else ok tt
    ]

abbrev and_return {ℓ} : {A : Type ℓ} → Result (Unit {0}) → A → Result A
and_return (ok _) a = ok a
and_return (err e) a = err e

unfoldable pub require_group_permission : Db → Option User → ℕ → Role → Result Group
require_group_permission db user group_id minimum_role = elim (get_group db group_id) [
  | none ↦ err (http_exception 404 "group was not found")
  | some group ↦ and_return (require_project_permission db user group.project_id minimum_role) group
]

-- `db.get(Group, storage_usage.group_id) if storage_usage.group_id is not None else None`
abbrev pub group_of : Db → StorageUsage → Option Group
group_of db s = elim s.group_id [ none ↦ none | some n ↦ get_group db n ]

unscoped : Db → User → StorageUsage → Result StorageUsage
unscoped db user s =
    if not (is_super_admin db user)
    then err (http_exception 403 "project permission required")
    else ok s

unfoldable pub scoped : Db → User → Role → StorageUsage → Option Group → Result StorageUsage
unfolding unscoped
scoped db user minimum_role s none = unscoped db user s
scoped db user minimum_role s (some group) =
    and_return (require_project_permission db (some user) group.project_id minimum_role) s

unfoldable pub require_storage_usage_permission : Db → Option User → ℕ → Role → Result StorageUsage
unfolding scoped
require_storage_usage_permission db user storage_usage_id minimum_role =
    elim (get_storage_usage db storage_usage_id) [
      | none ↦ err (http_exception 404 "StorageUsage not found")
      | some s ↦ elim user [
        | none ↦ err (http_exception 401 "authentication required")
        | some u ↦ scoped db u minimum_role s (group_of db s)
      ]
    ]

-- The projects of a user, or `none` for every project.
unfoldable pub accessible_project_ids : Db → Option User → Option (List ℕ)
accessible_project_ids db none = some []
accessible_project_ids db (some user) =
    if is_super_admin db user
    then none
    else some (
        map (λ (m : ProjectMembership). m.project_id)
          (select (λ (m : ProjectMembership). m.user_id == user.id) db.memberships))

pub record ProjectCapabilities : Type 0 where
  pub manage_members : Bool
  pub view_audit_events : Bool
  pub manage_project_admins : Bool

abbrev admin_row : Option ProjectMembership → Bool
admin_row none = false
admin_row (some m) = is_project_admin m.role

unfoldable pub project_capabilities : Db → Option User → ℕ → ProjectCapabilities
project_capabilities db none project_id = record {
  manage_members = false;
  view_audit_events = false;
  manage_project_admins = false;
}
project_capabilities db (some user) project_id =
    if is_super_admin db user
    then record { manage_members = true; view_audit_events = true; manage_project_admins = true }
    else let admin = admin_row (get_membership db project_id user.id) in
      record { manage_members = admin; view_audit_events = admin; manage_project_admins = false }

pub record IncidentCapabilities : Type 0 where
  pub edit : Bool
  pub create_maintenance_window : Bool

abbrev rank_of : Option ProjectMembership → ℕ
rank_of none = 0
rank_of (some m) = role_rank m.role

unfoldable pub incident_capabilities : Db → Option User → Option ℕ → IncidentCapabilities
incident_capabilities db none project_id = record {
  edit = false;
  create_maintenance_window = false;
}
incident_capabilities db (some user) project_id =
    if is_super_admin db user
    then record { edit = true; create_maintenance_window = true }
    else elim project_id [
      | none ↦ record { edit = false; create_maintenance_window = false }
      | some n ↦
          let rank = rank_of (get_membership db n user.id) in
          record {
            edit = leb (role_rank editor) rank;
            create_maintenance_window = leb (role_rank project_admin) rank;
          }
    ]

unfoldable pub group_capabilities : Db → Option User → Option Group → Bool
group_capabilities db (some user) (some group) = is_super_admin db user
group_capabilities db _ _ = false

abbrev owns_project : Option Project → ℕ → Bool
owns_project none user_id = false
owns_project (some project) user_id = project.in_charge_user_id =? user_id

abbrev project_of : Db → Option Group → Option Project
project_of db none = none
project_of db (some group) = get_project db group.project_id

unfoldable pub storage_usage_capabilities : Db → Option User → StorageUsage → Bool
storage_usage_capabilities db none s = false
storage_usage_capabilities db (some user) s =
    is_super_admin db user || owns_project (project_of db (group_of db s)) user.id
