-- ===== src/Access/Management.antt =====
-- The requests of the member API, one after the other: what any of them does to the roles.
use disk_pulse.Prelude.{
  ℕ, ◌≡◌, ◌≢◌, refl, Bool, true, false, not, ◌&&◌, Option, none, some, List, arith, if◌then◌else◌,
  find, is_some, Bool-cases, Option-cases, ◌⊎◌, inl, inr,
}
use disk_pulse.Prelude.Exec.{Error, Result-cases, Result, ok, err, Exec}
use disk_pulse.Access.Db.{
  Role, is_project_admin, User, ProjectMembership, MembershipAudit, Db, get_membership, get_user,
  owns_project_directory,
}
use disk_pulse.Access.Service.{add_membership, remove_membership}
use disk_pulse.Access.Members.{
  require_manage_members, create_membership, update_membership, delete_membership, write_role,
}
use disk_pulse.Access.Roles.{
  role_at, same, IsWellFormed, role_at-add_membership, role_at-write_role,
  role_at-remove_membership,
}
use disk_pulse.Access.Roles.WellFormed.{
  add_membership-IsWellFormed, write_role-IsWellFormed, remove_membership-IsWellFormed,
}

pub data Change : Type 0 where
  create : Role → Change
  update : Role → Change
  delete : Change

pub record Request : Type 0 where
  pub change : Change
  pub project_id : ℕ
  pub user_id : ℕ
  pub current_user : User
  pub audited : Bool

abbrev pub change_member : Change → ℕ → ℕ → User → Bool → Exec Db (Unit {0})
change_member (create role) p u actor audited = create_membership p u role actor audited
change_member (update role) p u actor audited = update_membership p u role actor audited
change_member delete p u actor audited = delete_membership p u actor audited

unfoldable pub manage : Request → Exec Db (Unit {0})
manage request =
    change_member request.change request.project_id request.user_id request.current_user
      request.audited

abbrev pub new_role : Change → Option Role
new_role (create role) = some role
new_role (update role) = some role
new_role delete = none

-- What a request that is granted does.
pub record Granted (change : Change) (p u : ℕ) (db db' : Db) : Type 0 where
  pub roles :
      (p' u' : ℕ)
      → role_at db' p' u' ≡ (if same p u p' u' then new_role change else role_at db p' u')
  pub formed : IsWellFormed db → IsWellFormed db'
  pub kept : db'.super_admin_usernames ≡ db.super_admin_usernames

-- A request is refused and changes nothing, or it is granted.
abbrev pub Outcome : Change → ℕ → ℕ → Db → Result (Unit {0}) × Db → Type 0
Outcome change p u db (r, db') = (db' ≡ db) × (r ≢ ok tt) ⊎ (r ≡ ok tt) × Granted change p u db db'

pub refused : {e : Error} → err e ≢ ok (tt {0})
refused h = ground (arith, h)

-- The audit row is no membership.
with_audit :
    (change : Change) (p u : ℕ) (db : Db) (audited : Bool) (audits : List MembershipAudit)
    (db' : Db)
    → Granted change p u db db'
    → Granted change p u db (if audited then record db' { audits = audits } else db')
with_audit change p u db true audits db' g = record {
  roles = λ p' u'. g.roles p' u';
  formed = λ h. let h' = g.formed h in record { unique = h'.unique; ids_below = h'.ids_below };
  kept = g.kept;
}
with_audit change p u db false audits db' g = g

module _ (db : Db) (p u : ℕ) (actor : User) (audited : Bool) where
  added :
      (role : Role)
      → get_membership db p u ≡ none
      → Granted (create role) p u db (add_membership p u role (some actor.id) db)
  unfolding add_membership
  added role h = record {
    roles = λ p' u'. role_at-add_membership db p u role (some actor.id) p' u' h;
    formed = add_membership-IsWellFormed db p u role (some actor.id) h;
    kept = refl;
  }

  written :
      (role : Role) (m : ProjectMembership)
      → get_membership db p u ≡ some m
      → Granted (update role) p u db (write_role p u role actor.id db)
  unfolding write_role
  written role m h = record {
    roles = λ p' u'. role_at-write_role db p u role actor.id p' u' m h;
    formed = write_role-IsWellFormed db p u role actor.id;
    kept = refl;
  }

  removed :
      (audited : Bool) (audits : List MembershipAudit)
      → Granted delete p u db
          (remove_membership p u (if audited then record db { audits = audits } else db))
  unfolding remove_membership
  removed true audits = record {
    roles = role_at-remove_membership db p u;
    formed = λ h.
        let h' = remove_membership-IsWellFormed db p u h in
        record { unique = h'.unique; ids_below = h'.ids_below };
    kept = refl;
  }
  removed false audits = record {
    roles = role_at-remove_membership db p u;
    formed = remove_membership-IsWellFormed db p u;
    kept = refl;
  }

  create_outcome :
      (role : Role) → Outcome (create role) p u db (create_membership p u role actor audited db)
  unfolding create_membership
  create_outcome role = elim (Result-cases (require_manage_members db p actor)) [
    | inl (e, h) ↦ rw h (inl (refl, refused))
    | inr (super_admin, h) ↦ rw h elim (Bool-cases (is_project_admin role && not super_admin)) [
      | inl h ↦ rw h (inl (refl, refused))
      | inr h ↦ rw h elim (Bool-cases (is_some (get_user db u))) [
        | inr h ↦ rw h (inl (refl, refused))
        | inl h ↦ rw h elim (Option-cases (get_membership db p u)) [
          | inr (m, h) ↦ rw h (inl (refl, refused))
          | inl h ↦ rw h (inr (refl, with_audit (create role) p u db audited _ _ (added role h)))
        ]
      ]
    ]
  ]

  pub update_outcome :
      (role : Role) → Outcome (update role) p u db (update_membership p u role actor audited db)
  unfolding update_membership find
  update_outcome role = elim (Result-cases (require_manage_members db p actor)) [
    | inl (e, h) ↦ rw h (inl (refl, refused))
    | inr (super_admin, h) ↦ rw h elim (Bool-cases (is_project_admin role && not super_admin)) [
      | inl h ↦ rw h (inl (refl, refused))
      | inr h ↦ rw h elim (Option-cases (get_membership db p u)) [
        | inl h ↦ rw h (inl (refl, refused))
        | inr (m, h) ↦
            rw h (inr (refl, with_audit (update role) p u db audited _ _ (written role m h)))
      ]
    ]
  ]

  delete_outcome : Outcome delete p u db (delete_membership p u actor audited db)
  unfolding delete_membership find
  delete_outcome = elim (Result-cases (require_manage_members db p actor)) [
    | inl (e, h) ↦ rw h (inl (refl, refused))
    | inr (super_admin, h) ↦ rw h elim (Option-cases (get_membership db p u)) [
      | inl h ↦ rw h (inl (refl, refused))
      | inr (m, h) ↦ rw h elim (Bool-cases (is_project_admin m.role && not super_admin)) [
        | inl h ↦ rw h (inl (refl, refused))
        | inr h ↦ rw h elim (Bool-cases (owns_project_directory db p u)) [
          | inl h ↦ rw h (inl (refl, refused))
          | inr h ↦ rw h (inr (refl, removed audited _))
        ]
      ]
    ]
  ]

-- A request of the member API is refused and leaves the session as it was, or it returns; then the
-- user has the role that was asked for, or none after a deletion, no other role of anybody in any
-- project has changed, and a table that was well formed still is.
pub manage-outcome :
    (request : Request) (db : Db)
    → Outcome request.change request.project_id request.user_id db (manage request db)
unfolding manage
manage-outcome request db = split request.change
  where
    split :
        (change : Change)
        → Outcome change request.project_id request.user_id db (
            change_member change request.project_id request.user_id request.current_user
              request.audited db)
    split (create role) = create_outcome db _ _ request.current_user request.audited role
    split (update role) = update_outcome db _ _ request.current_user request.audited role
    split delete = delete_outcome db _ _ request.current_user request.audited
