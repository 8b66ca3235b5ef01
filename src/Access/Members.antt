-- ===== src/Access/Members.antt =====
-- backend/services/project_membership_service.py: the member API of a project. `audited` tells
-- whether the caller handed an audit context over. The serialized answers, the list of the members
-- and the contents of the context are left out.
use disk_pulse.Prelude.{
  ℕ, Bool, not, ◌&&◌, Option, none, some, [], ◌∷◌, ◌++◌, String, if◌then◌else◌, is_some,
  update_where,
}
use disk_pulse.Prelude.Exec.{
  http_exception, Result, ok, err, Exec, gets, modify, lift, guard, ◌>>=◌, ◌>>◌,
}
use disk_pulse.Access.Db.{
  Role, project_admin, is_project_admin, User, ProjectMembership, Db, is_super_admin, get_user,
  get_project, is_member_row, get_membership, owns_project_directory,
}
use disk_pulse.Access.Service.{add_membership, remove_membership, require_project_permission}

-- The answer is whether the actor is a super administrator.
unfoldable pub require_manage_members : Db → ℕ → User → Result Bool
require_manage_members db project_id current_user = elim (get_project db project_id) [
  | none ↦ err (http_exception 404 "project was not found")
  | some _ ↦
      if is_super_admin db current_user
      then ok (is_super_admin db current_user)
      else elim (require_project_permission db (some current_user) project_id project_admin) [
        | ok _ ↦ ok (is_super_admin db current_user)
        | err e ↦ err e
      ]
]

abbrev require_target_user : ℕ → Exec Db (Unit {0})
require_target_user user_id db =
    guard (is_some (get_user db user_id)) (http_exception 404 "user was not found") db

abbrev validate_assignable_role : Role → Bool → Exec Db (Unit {0})
validate_assignable_role role actor_is_super_admin =
    guard (not (is_project_admin role && not actor_is_super_admin))
      (http_exception 403 "super admin permission required")

abbrev append_audit : Bool → String → ℕ → ℕ → Option Role → Option Role → Exec Db (Unit {0})
append_audit audited action project_id user_id before after = modify λ (db : Db).
    if audited
    then record db {
      audits =
          db.audits
          ++ record {
            action = action;
            resource_id = user_id;
            project_id = project_id;
            before_role = before;
            after_role = after;
          }
            ∷ [];
    }
    else db

-- `query(ProjectMembership).one_or_none()`, and 404 for none.
abbrev require_membership : ℕ → ℕ → Exec Db ProjectMembership
require_membership project_id user_id db = elim (get_membership db project_id user_id) [
  | none ↦ (err (http_exception 404 "project member was not found"), db)
  | some membership ↦ (ok membership, db)
]

-- `membership.role = role` and `membership.updated_by = current_user.id`
unfoldable pub write_role : ℕ → ℕ → Role → ℕ → Db → Db
write_role project_id user_id role by db = record db {
  memberships =
      update_where (is_member_row project_id user_id)
        (λ (m : ProjectMembership). record m { role = role; updated_by = some by }) db.memberships;
}

unfoldable pub create_membership : ℕ → ℕ → Role → User → Bool → Exec Db (Unit {0})
create_membership project_id user_id role current_user audited = do
  super_admin ← λ db. lift (require_manage_members db project_id current_user) db
  validate_assignable_role role super_admin
  require_target_user user_id
  existing ← gets (λ db. get_membership db project_id user_id)
  guard (not (is_some existing)) (http_exception 409 "project member already exists")
  modify (add_membership project_id user_id role (some current_user.id))
  append_audit audited "project.membership.create" project_id user_id none (some role)

unfoldable pub update_membership : ℕ → ℕ → Role → User → Bool → Exec Db (Unit {0})
update_membership project_id user_id role current_user audited = do
  super_admin ← λ db. lift (require_manage_members db project_id current_user) db
  validate_assignable_role role super_admin
  membership ← require_membership project_id user_id
  modify (write_role project_id user_id role current_user.id)
  append_audit audited "project.membership.update" project_id user_id (some membership.role)
      (some role)

unfoldable pub delete_membership : ℕ → ℕ → User → Bool → Exec Db (Unit {0})
delete_membership project_id user_id current_user audited = do
  super_admin ← λ db. lift (require_manage_members db project_id current_user) db
  membership ← require_membership project_id user_id
  validate_assignable_role membership.role super_admin
  owns ← gets (λ db. owns_project_directory db project_id user_id)
  guard (not owns) (http_exception 409 "directory owner project membership is required")
  append_audit audited "project.membership.delete" project_id user_id (some membership.role) none
  modify (remove_membership project_id user_id)
