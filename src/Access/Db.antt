-- ===== src/Access/Db.antt =====
-- The rows of backend/models.py that authorization reads, as one database session: the columns that
-- it uses, and of the memberships all but the two timestamps. `is_super_admin` is that of
-- backend/utils/auth_service.py; the configured usernames stand beside the tables.
-- The database is not part of the program. A query by a primary key or by a unique pair of columns
-- finds the first row that fits.
use text.Mathlib.Text.{◌==◌ as str_eq}
use disk_pulse.Prelude.{
  ℕ, String, Bool, true, false, ◌&&◌, Option, none, some, List, ◌==◌, ◌=?◌, if◌then◌else◌, find,
  any,
}

pub data Role : Type 0 where
  reader editor project_admin : Role

-- `ROLE_RANK`
abbrev pub role_rank : Role → ℕ
role_rank reader = 1
role_rank editor = 2
role_rank project_admin = 3

abbrev pub is_project_admin : Role → Bool
is_project_admin project_admin = true
is_project_admin _ = false

pub record User : Type 0 where
  pub id : ℕ
  pub username : Option String
  pub rd_username : Option String
  pub email : Option String

pub record Project : Type 0 where
  pub id : ℕ
  pub in_charge_user_id : Option ℕ

pub record Group : Type 0 where
  pub id : ℕ
  pub project_id : ℕ

pub record StorageUsage : Type 0 where
  pub id : ℕ
  pub group_id : Option ℕ
  pub user_id : Option ℕ

pub record ProjectMembership : Type 0 where
  pub id : ℕ
  pub project_id : ℕ
  pub user_id : ℕ
  pub role : Role
  pub created_by : Option ℕ
  pub updated_by : Option ℕ

-- An audit row about a membership: the action, the member, and the role before and after.
pub record MembershipAudit : Type 0 where
  pub action : String
  pub resource_id : ℕ
  pub project_id : ℕ
  pub before_role : Option Role
  pub after_role : Option Role

pub record Db : Type 0 where
  pub super_admin_usernames : List String
  pub users : List User
  pub projects : List Project
  pub groups : List Group
  pub storage_usages : List StorageUsage
  pub memberships : List ProjectMembership
  -- the next value of the primary key's sequence
  pub next_membership_id : ℕ
  pub audits : List MembershipAudit

-- `user.rd_username or user.username or ""`: an empty text counts as none.
or_else : Option String → String → String
or_else none other = other
or_else (some name) other = if str_eq name "" then other else name

unfoldable pub is_super_admin : Db → User → Bool
unfolding or_else
is_super_admin db user =
    any (str_eq (or_else user.rd_username (or_else user.username ""))) db.super_admin_usernames

abbrev pub get_user : Db → ℕ → Option User
get_user db n = find (λ (r : User). r.id == n) db.users

abbrev pub get_project : Db → ℕ → Option Project
get_project db n = find (λ (r : Project). r.id == n) db.projects

abbrev pub get_group : Db → ℕ → Option Group
get_group db n = find (λ (r : Group). r.id == n) db.groups

abbrev pub get_storage_usage : Db → ℕ → Option StorageUsage
get_storage_usage db n = find (λ (r : StorageUsage). r.id == n) db.storage_usages

-- The row of one user in one project.
abbrev pub is_member_row : ℕ → ℕ → ProjectMembership → Bool
is_member_row project_id user_id m = m.project_id == project_id && m.user_id == user_id

abbrev pub get_membership : Db → ℕ → ℕ → Option ProjectMembership
get_membership db project_id user_id = find (is_member_row project_id user_id) db.memberships

-- The join of `StorageUsage` and `Group` that finds a directory of a user in a project.
unfoldable pub owns_project_directory : Db → ℕ → ℕ → Bool
owns_project_directory db project_id user_id =
    any
      (λ (s : StorageUsage).
        s.user_id =? user_id
        && any (λ (g : Group). s.group_id =? g.id && g.project_id == project_id) db.groups)
      db.storage_usages
