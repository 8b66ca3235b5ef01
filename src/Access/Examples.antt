-- ===== src/Access/Examples.antt =====
-- The theorems about access at concrete inputs.
use disk_pulse.Prelude.{
  ℕ, ◌≡◌, inr, refl, true, none, some, [], ◌∷◌, arith, find, any, update_where, delete_where,
}
use disk_pulse.Prelude.Exec.{ok}
use disk_pulse.Access.Db.{
  Role, editor, project_admin, User, Project, StorageUsage, ProjectMembership, Db, is_super_admin,
  owns_project_directory,
}
use disk_pulse.Access.Service.{
  require_project_permission, remove_membership, ensure_project_owner_membership,
}
use disk_pulse.Access.Members.{
  update_membership, delete_membership, require_manage_members, write_role,
}
use disk_pulse.Access.Roles.{role_at, IsWellFormed}
use disk_pulse.Access.Permission.{require_project_permission_iff}
use disk_pulse.Access.Grants.{ensure_project_owner_membership-role_at}
use disk_pulse.Access.Management.{Request, update, delete, Outcome, manage, manage-outcome}
use disk_pulse.Access.Escalation.{run, run-no_new_admin}

abbrev user : ℕ → User
user n = record { id = n; username = some "li"; rd_username = none; email = none }

abbrev member : ℕ → ℕ → Role → ProjectMembership
member n u role = record {
  id = n;
  project_id = 5;
  user_id = u;
  role = role;
  created_by = none;
  updated_by = none;
}

abbrev project : Project
project = record { id = 5; in_charge_user_id = some 3 }

abbrev directory : StorageUsage
directory = record { id = 11; group_id = some 6; user_id = some 1 }

-- Users 1 and 2 are project administrators, user 4 is an editor; user 1 owns a directory.
abbrev db : Db
db = record {
  super_admin_usernames = "root" ∷ [];
  users = user 1 ∷ user 2 ∷ user 3 ∷ user 4 ∷ [];
  projects = project ∷ [];
  groups = record { id = 6; project_id = 5 } ∷ [];
  storage_usages = directory ∷ [];
  memberships = member 1 1 project_admin ∷ member 2 2 project_admin ∷ member 3 4 editor ∷ [];
  next_membership_id = 4;
  audits = [];
}

db-IsWellFormed : IsWellFormed db
unfolding find
db-IsWellFormed = record {
  unique = (refl, (refl, (refl, tt)));
  ids_below = (omega arith, (omega arith, (omega arith, tt)));
}

require_project_permission_iff_example :
    require_project_permission db (some (user 4)) 5 editor ≡ ok tt
unfolding find is_super_admin any
require_project_permission_iff_example =
    (require_project_permission_iff db (user 4) 5 editor).1 (inr (refl, omega arith))

ensure_project_owner_membership-role_at_example :
    (ensure_project_owner_membership 5 (some 2) db).0 ≡ ok tt
unfolding find
ensure_project_owner_membership-role_at_example =
    (ensure_project_owner_membership-role_at db 5 (some 2) project refl).0

abbrev promotion : Request
promotion = record {
  change = update project_admin;
  project_id = 5;
  user_id = 4;
  current_user = user 1;
  audited = true;
}

abbrev removal : Request
removal = record {
  change = delete;
  project_id = 5;
  user_id = 4;
  current_user = user 1;
  audited = true;
}

manage-outcome_example : Outcome delete 5 4 db (manage removal db)
manage-outcome_example = manage-outcome removal db

run-no_new_admin_example : role_at db 5 2 ≡ some project_admin
unfolding find any update_where delete_where is_super_admin owns_project_directory run manage
    update_membership delete_membership require_manage_members require_project_permission write_role
    remove_membership
run-no_new_admin_example =
    run-no_new_admin (promotion ∷ removal ∷ []) db 5 2 (refl, (refl, tt)) refl
