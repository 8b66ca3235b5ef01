-- ===== src/Access/Grants.antt =====
-- What the writes of backend/services/project_access_service.py do to the roles.
use disk_pulse.Prelude.{
  ℕ, ◌≡◌, refl, Bool, true, false, not, ◌&&◌, Option, none, some, arith, ◌==◌, ◌=?◌, if◌then◌else◌,
  is_some, Bool-cases, Option-cases, inl, inr, ==_iff,
}
use disk_pulse.Prelude.Exec.{ok, err, http_exception}
use disk_pulse.Access.Db.{
  Role, reader, project_admin, is_project_admin, Project, ProjectMembership, Db, get_project,
  get_membership, owns_project_directory,
}
use disk_pulse.Access.Service.{
  add_membership, ensure_reader_membership, put_member, set_project_member, retire_owner,
  retire_previous, put_owner, ensure_project_owner_membership,
}
use disk_pulse.Access.Roles.{
  role_at, same, IsWellFormed, role_at-add_membership, role_at-set_role, role_at-remove_membership,
}
use disk_pulse.Access.Roles.WellFormed.{add_membership-IsWellFormed, set_role-IsWellFormed}

put_member-role_at :
    (db : Db) (p u : ℕ) (role : Role) (o : Option ProjectMembership)
    → get_membership db p u ≡ o
    → ((p' u' : ℕ)
        → role_at (put_member p u role o db) p' u'
          ≡ (if same p u p' u' then some role else role_at db p' u'))
      × (IsWellFormed db → IsWellFormed (put_member p u role o db))
unfolding put_member
put_member-role_at db p u role none e = (
  λ p' u'. role_at-add_membership db p u role none p' u' e,
  add_membership-IsWellFormed db p u role none e,
)
put_member-role_at db p u role (some m) e =
    (λ p' u'. role_at-set_role db p u role p' u' m e, set_role-IsWellFormed db p u role)

-- Setting a member either is refused, and then nothing changes, or gives that user that role and
-- leaves every other role as it was. It is refused exactly for the role of a project administrator
-- that is asked for by somebody else than a super administrator. The table stays well formed.
pub set_project_member-role_at :
    (db : Db) (p u : ℕ) (role : Role) (super_admin : Bool)
    → let (r, db') = set_project_member p u role super_admin db in
      (is_project_admin role && not super_admin ≡ true
        → (r ≡ err (http_exception 403 "super admin permission required")) × (db' ≡ db))
      × (is_project_admin role && not super_admin ≡ false
          → (r ≡ ok tt)
            × ((p' u' : ℕ)
                → role_at db' p' u' ≡ (if same p u p' u' then some role else role_at db p' u')))
      × (IsWellFormed db → IsWellFormed db')
unfolding set_project_member
set_project_member-role_at db p u role super_admin =
    let (view, formed) = put_member-role_at db p u role (get_membership db p u) refl in
    (
      λ e. rw e (refl, refl),
      λ e. rw e (refl, view),
      elim (Bool-cases (is_project_admin role && not super_admin)) [
        | inl e ↦ rw e (λ h. h)
        | inr e ↦ rw e formed
      ],
    )

-- A reader is added where there was no role, and no other role changes.
pub ensure_reader_membership-role_at :
    (db : Db) (u p p' u' : ℕ)
    → role_at (ensure_reader_membership u p db) p' u' ≡ (
        if same p u p' u' && not (is_some (role_at db p' u'))
        then some reader
        else role_at db p' u')
unfolding ensure_reader_membership
ensure_reader_membership-role_at db u p p' u' = split (get_membership db p u) refl
  where
    split :
        (o : Option ProjectMembership)
        → get_membership db p u ≡ o
        → role_at (elim o [ some membership ↦ db | none ↦ add_membership p u reader none db ]) p' u'
          ≡ (if same p u p' u' && not (is_some (role_at db p' u'))
              then some reader
              else role_at db p' u')
    split none e =
        ground
          (arith, role_at-add_membership db p u reader none p' u' e, ==_iff p p', ==_iff u u', e)
    split (some m) e = ground (arith, ==_iff p p', ==_iff u u', e)

-- The owner who hands a project over keeps no administration: with a directory in the project the
-- user becomes a reader, without one no member. A user who was no project administrator keeps the
-- role, and so does everybody else.
pub retire_owner-role_at :
    (db : Db) (p u p' u' : ℕ)
    → role_at (retire_owner p u db) p' u' ≡ (
        if same p u p' u'
        then elim (role_at db p u) [
          | none ↦ none
          | some role ↦
              if is_project_admin role
              then (if owns_project_directory db p u then some reader else none)
              else some role
        ]
        else role_at db p' u')
unfolding retire_owner
retire_owner-role_at db p u p' u' = elim (Option-cases (get_membership db p u)) [
  | inl e ↦ rw (e, retire_owner) (ground (arith, ==_iff p p', ==_iff u u', e))
  | inr (m, e) ↦ ground (
    arith,
    e,
    ==_iff p p',
    ==_iff u u',
    role_at-set_role db p u reader p' u' m e,
    role_at-remove_membership db p u p' u',
  )
]

-- Who is previous owner in the sense of the synchronization: somebody else than the owner of now.
abbrev is_previous : Option ℕ → Project → ℕ → Bool
is_previous none project u = false
is_previous (some previous) project u = previous == u && not (project.in_charge_user_id =? previous)

-- The role that a project administrator keeps without the project.
abbrev retired : Db → ℕ → ℕ → Option Role
retired db p u = elim (role_at db p u) [
  | none ↦ none
  | some role ↦
      if is_project_admin role
      then (if owns_project_directory db p u then some reader else none)
      else some role
]

-- The role that a user has in the project behind the synchronization.
abbrev synchronized : Db → Project → Option ℕ → ℕ → Option Role
synchronized db project previous u =
    if project.in_charge_user_id =? u
    then some project_admin
    else if is_previous previous project u
    then retired db project.id u
    else role_at db project.id u

retire_previous-role_at :
    (db : Db) (project : Project) (previous : Option ℕ) (p u : ℕ)
    → role_at (retire_previous project previous db) p u ≡ (
        if project.id == p && is_previous previous project u
        then retired db project.id u
        else role_at db p u)
unfolding retire_previous
retire_previous-role_at db project none p u = ground arith
retire_previous-role_at db project (some previous) p u =
    elim (Bool-cases (project.in_charge_user_id =? previous)) [
      | inl e ↦ rw e (ground arith)
      | inr e ↦ rw e (
          ground (
            arith,
            retire_owner-role_at db project.id previous p u,
            ==_iff previous u,
            ==_iff project.id p,
          ))
    ]

-- The owner's row is written last.
put_owner-role_at :
    (db : Db) (n : ℕ) (owner : Option ℕ)
    → let (r, db') = put_owner n owner db in
      (r ≡ ok tt)
      × ((p u : ℕ)
          → role_at db' p u ≡ (if n == p && owner =? u then some project_admin else role_at db p u))
unfolding put_owner
put_owner-role_at db n none = (refl, λ p u. ground arith)
put_owner-role_at db n (some owner) =
    let (r, view) = (set_project_member-role_at db n owner project_admin true).1 refl in
    (r, λ p u. view p u)

-- The synchronization of a project's owner ends well for every project that exists. Then the owner is
-- a project administrator; a previous owner who is another user and was one is a reader, if the user
-- owns a directory in the project, or no member; and no other role changes, in the project or elsewhere.
pub ensure_project_owner_membership-role_at :
    (db : Db) (n : ℕ) (previous : Option ℕ) (project : Project)
    → get_project db n ≡ some project
    → let (r, db') = ensure_project_owner_membership n previous db in
      (r ≡ ok tt)
      × ((p u : ℕ)
          → role_at db' p u
            ≡ (if project.id == p then synchronized db project previous u else role_at db p u))
unfolding ensure_project_owner_membership
ensure_project_owner_membership-role_at db n previous project e =
    rw (e, ensure_project_owner_membership)
      let (r, view) =
          put_owner-role_at (retire_previous project previous db) project.id
            project.in_charge_user_id in
        (
          r,
          λ p u. ground (
            arith,
            view p u,
            retire_previous-role_at db project previous p u,
            ==_iff project.id p,
          ),
        )
