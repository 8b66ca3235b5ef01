-- ===== src/Access/Escalation.antt =====
-- Who becomes a project administrator, and who stops being one, by the member API.
use disk_pulse.Prelude.{
  ℕ, ◌≡◌, ◌≢◌, refl, sym, Bool, true, false, not, ◌&&◌, ◌||◌, ◌↔◌, some, List, [], ◌∷◌, arith, ◌==◌,
  find, is_some, Bool-cases, Option-cases, inl, inr, ◌∙◌, ap, All,
}
use disk_pulse.Prelude.Exec.{Result-cases, ok}
use disk_pulse.Access.Db.{
  Role, project_admin, is_project_admin, User, ProjectMembership, Db, is_super_admin, get_project,
  get_membership, owns_project_directory,
}
use disk_pulse.Access.Service.{require_project_permission}
use disk_pulse.Access.Members.{
  require_manage_members, create_membership, update_membership, delete_membership,
}
use disk_pulse.Access.Roles.{role_at, same, IsWellFormed}
use disk_pulse.Access.Permission.{rank}
use disk_pulse.Access.Management.{
  change_member, Change, create, update, delete, Request, manage, new_role, manage-outcome, refused,
}

super_of :
    (db : Db) (p : ℕ) (actor : User) (s : Bool)
    → require_manage_members db p actor ≡ ok s
    → s ≡ is_super_admin db actor
unfolding require_manage_members
super_of db p actor s h = ground (arith, h)

module _ (db : Db) (p u : ℕ) (role : Role) (actor : User) (audited : Bool) where
  create_refused :
      is_super_admin db actor ≡ false
      → is_project_admin role ≡ true
      → (create_membership p u role actor audited db).0 ≢ ok tt
  unfolding create_membership
  create_refused plain admin = elim (Result-cases (require_manage_members db p actor)) [
    | inl (e, h) ↦ rw h refused
    | inr (s, h) ↦ rw (h, super_of db p actor s h, plain, admin) refused
  ]

  update_refused :
      is_super_admin db actor ≡ false
      → is_project_admin role ≡ true
      → (update_membership p u role actor audited db).0 ≢ ok tt
  unfolding update_membership
  update_refused plain admin = elim (Result-cases (require_manage_members db p actor)) [
    | inl (e, h) ↦ rw h refused
    | inr (s, h) ↦ rw (h, super_of db p actor s h, plain, admin) refused
  ]

manage_refused :
    (request : Request) (db : Db)
    → is_super_admin db request.current_user ≡ false
    → (role : Role) → new_role request.change ≡ some role
    → is_project_admin role ≡ true
    → (manage request db).0 ≢ ok tt
unfolding manage
manage_refused request db plain role e admin = split request.change e
  where
    split :
        (change : Change)
        → new_role change ≡ some role
        → (change_member change request.project_id request.user_id request.current_user
            request.audited db).0
          ≢ ok tt
    split (create r) e =
        create_refused db _ _ r request.current_user request.audited plain
          (ground (arith, e, admin))
    split (update r) e =
        update_refused db _ _ r request.current_user request.audited plain
          (ground (arith, e, admin))
    split delete e = ground (arith, e)

-- The requests of a history, one after the other; each sees the session that the one before it left.
unfoldable pub run : List Request → Db → Db
run [] db = db
run (request ∷ requests) db = run requests (manage request db).1

-- No history of requests makes the table violate its unique constraint or hands a primary key out twice.
pub run-IsWellFormed :
    (requests : List Request) (db : Db) → IsWellFormed db → IsWellFormed (run requests db)
unfolding run
run-IsWellFormed [] db h = h
run-IsWellFormed (request ∷ requests) db h =
    run-IsWellFormed requests (manage request db).1
      elim (manage-outcome request db) [ inl (e, _) ↦ rw e h | inr (_, g) ↦ g.formed h ]

-- One request of somebody who is no super administrator makes nobody a project administrator.
step-no_new_admin :
    (request : Request) (db : Db) (p u : ℕ)
    → is_super_admin db request.current_user ≡ false
    → role_at (manage request db).1 p u ≡ some project_admin
    → role_at db p u ≡ some project_admin
step-no_new_admin request db p u plain h = elim (manage-outcome request db) [
  | inl (e, _) ↦ rw (← e) h
  | inr (r, g) ↦
      let view = sym (g.roles p u) ∙ h in
      elim (Bool-cases (same request.project_id request.user_id p u)) [
        | inr e ↦ ground (arith, view, e)
        | inl e ↦
            let asked : new_role request.change ≡ some project_admin = ground (arith, view, e) in
            elim (manage_refused request db plain project_admin asked refl r) [ ]
      ]
]

same_super_admins :
    (request : Request) (db : Db)
    → (manage request db).1.super_admin_usernames ≡ db.super_admin_usernames
same_super_admins request db = elim (manage-outcome request db) [
  | inl (e, _) ↦ ap (λ (x : Db). x.super_admin_usernames) e
  | inr (_, g) ↦ g.kept
]

-- The actors of a history, by the names of the super administrators.
abbrev pub AllPlain : List Request → Db → Type 0
AllPlain requests db = All (λ (r : Request). is_super_admin db r.current_user ≡ false) requests

AllPlain-step :
    (requests : List Request) (db db' : Db)
    → db'.super_admin_usernames ≡ db.super_admin_usernames
    → AllPlain requests db
    → AllPlain requests db'
unfolding is_super_admin
AllPlain-step [] db db' e h = tt
AllPlain-step (r ∷ requests) db db' e h = (rw e h.0, AllPlain-step requests db db' e h.1)

-- Privilege does not grow: whatever requests to the member API people send who are no super
-- administrators, in any order and number, a project administrator afterwards was one before.
pub run-no_new_admin :
    (requests : List Request) (db : Db) (p u : ℕ)
    → AllPlain requests db
    → role_at (run requests db) p u ≡ some project_admin
    → role_at db p u ≡ some project_admin
unfolding run
run-no_new_admin [] db p u plain h = h
run-no_new_admin (request ∷ requests) db p u plain h = step-no_new_admin request db p u plain.0 (
    run-no_new_admin requests (manage request db).1 p u
      (AllPlain-step requests db (manage request db).1 (same_super_admins request db) plain.1) h)

-- Who manages the members of a project: it exists, and the user is a super administrator or a
-- project administrator of it.
pub record Manages (db : Db) (p : ℕ) (actor : User) : Type 0 where
  pub exists : is_some (get_project db p) ≡ true
  pub administrates : is_super_admin db actor || (rank (role_at db p actor.id) == 3) ≡ true

pub Manages-require_manage_members :
    (db : Db) (p : ℕ) (actor : User)
    → Manages db p actor
    → require_manage_members db p actor ≡ ok (is_super_admin db actor)
unfolding require_manage_members require_project_permission
Manages-require_manage_members db p actor h = ground (arith, h.exists, h.administrates)

require_manage_members-Manages :
    (db : Db) (p : ℕ) (actor : User) (s : Bool)
    → require_manage_members db p actor ≡ ok s
    → Manages db p actor
unfolding require_manage_members require_project_permission
require_manage_members-Manages db p actor s h = record {
  exists = ground arith;
  administrates = ground arith;
}

-- An update is done exactly for those who manage the members, of a user who is a member, and to the
-- role of a project administrator only by a super administrator. The role of now plays no part.
pub update_membership_iff :
    (db : Db) (p u : ℕ) (role : Role) (actor : User) (audited : Bool)
    → ((update_membership p u role actor audited db).0 ≡ ok tt) ↔ (
        Manages db p actor
        × (is_project_admin role && not (is_super_admin db actor) ≡ false)
        × (is_some (get_membership db p u) ≡ true))
unfolding update_membership find
update_membership_iff db p u role actor audited = (there, back)
  where
    there :
        (update_membership p u role actor audited db).0 ≡ ok tt
        → Manages db p actor
          × (is_project_admin role && not (is_super_admin db actor) ≡ false)
          × (is_some (get_membership db p u) ≡ true)
    there h = elim (Result-cases (require_manage_members db p actor)) [
      | inl (e, k) ↦ elim (refused (rw k at h)) [ ]
      | inr (s, k) ↦
          let h' = rw (k, super_of db p actor s k) at h in
          (require_manage_members-Manages db p actor s k, ground (arith, h'), ground (arith, h'))
    ]

    back :
        Manages db p actor
          × (is_project_admin role && not (is_super_admin db actor) ≡ false)
          × (is_some (get_membership db p u) ≡ true)
        → (update_membership p u role actor audited db).0 ≡ ok tt
    back (m, allowed, member) = elim (Option-cases (get_membership db p u)) [
      | inl e ↦ ground (arith, e, member)
      | inr (row, e) ↦ rw (Manages-require_manage_members db p actor m, allowed, e) refl
    ]

-- A deletion is done exactly for those who manage the members, of a user who is a member, who is no
-- project administrator unless a super administrator asks, and who owns no directory in the project.
pub delete_membership_iff :
    (db : Db) (p u : ℕ) (actor : User) (audited : Bool)
    → ((delete_membership p u actor audited db).0 ≡ ok tt) ↔ (
        Manages db p actor
        × ((m : ProjectMembership) × (get_membership db p u ≡ some m)
            × (is_project_admin m.role && not (is_super_admin db actor) ≡ false))
        × (owns_project_directory db p u ≡ false))
unfolding delete_membership find
delete_membership_iff db p u actor audited = (there, back)
  where
    there :
        (delete_membership p u actor audited db).0 ≡ ok tt
        → Manages db p actor
          × ((m : ProjectMembership) × (get_membership db p u ≡ some m)
              × (is_project_admin m.role && not (is_super_admin db actor) ≡ false))
          × (owns_project_directory db p u ≡ false)
    there h = elim (Result-cases (require_manage_members db p actor)) [
      | inl (e, k) ↦ elim (refused (rw k at h)) [ ]
      | inr (s, k) ↦ elim (Option-cases (get_membership db p u)) [
        | inl e ↦ elim (refused (rw (k, e) at h)) [ ]
        | inr (m, e) ↦
            let h' = rw (k, super_of db p actor s k, e) at h in
            (
              require_manage_members-Manages db p actor s k,
              (m, e, ground (arith, h')),
              ground (arith, h'),
            )
      ]
    ]

    back :
        Manages db p actor
          × ((m : ProjectMembership) × (get_membership db p u ≡ some m)
              × (is_project_admin m.role && not (is_super_admin db actor) ≡ false))
          × (owns_project_directory db p u ≡ false)
        → (delete_membership p u actor audited db).0 ≡ ok tt
    back (g, (m, e, allowed), no_directory) =
        rw (Manages-require_manage_members db p actor g, e, allowed, no_directory) refl
