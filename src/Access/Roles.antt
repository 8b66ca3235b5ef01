-- ===== src/Access/Roles.antt =====
-- The abstract view of the memberships: a partial map from a project and a user to a role, and what
-- the writes to the table do to it. Well-formedness is the table's unique constraint.
pub mod WellFormed
use mathlib.Core.Option
use disk_pulse.Prelude.{
  ℕ, suc, ◌+◌, ◌<◌, ◌≡◌, ◌≢◌, refl, Bool, true, false, not, ◌&&◌, Option, none, some, List, [], ◌∷◌,
  ◌++◌, arith, ◌==◌, if◌then◌else◌, is_some, find, update_where, delete_where, All, All-append,
  All-update_where, All-delete_where, find-update_where, Bool-cases, inl, inr, ◌∙◌, ap,
  find-eq_some, ==_iff, find-append_one, find-delete_where_ne, find-delete_where_self,
  find-delete_where-none,
}
use disk_pulse.Access.Db.{Role, ProjectMembership, Db, is_member_row, get_membership}
use disk_pulse.Access.Service.{add_membership, set_role, remove_membership}
use disk_pulse.Access.Members.{write_role}

abbrev pub role_in : Option ProjectMembership → Option Role
role_in none = none
role_in (some m) = some m.role

-- The role of a user in a project.
abbrev pub role_at : Db → ℕ → ℕ → Option Role
role_at db project_id user_id = role_in (get_membership db project_id user_id)

abbrev pub same : (p u p' u' : ℕ) → Bool
same p u p' u' = p == p' && u == u'

-- No two rows are of one user in one project.
abbrev pub Unique : List ProjectMembership → Type 0
Unique [] = Unit
Unique (m ∷ ms) = (find (is_member_row m.project_id m.user_id) ms ≡ none) × Unique ms

pub record IsWellFormed (db : Db) : Type 0 where
  pub unique : Unique db.memberships
  pub ids_below : All (λ (m : ProjectMembership). m.id < db.next_membership_id) db.memberships

-- The view after a row was added for a user who had none.
pub role_at-add_membership :
    (db : Db) (p u : ℕ) (role : Role) (by : Option ℕ) (p' u' : ℕ)
    → get_membership db p u ≡ none
    → role_at (add_membership p u role by db) p' u'
      ≡ (if same p u p' u' then some role else role_at db p' u')
unfolding add_membership
role_at-add_membership db p u role by p' u' h =
    rw (find-append_one (is_member_row p' u') db.memberships _)
      (split (get_membership db p' u') refl)
  where
    split :
        (o : Option ProjectMembership)
        → get_membership db p' u' ≡ o
        → role_in (elim o [
          | some z ↦ some z
          | none ↦
              if same p u p' u'
              then some (record {
                id = db.next_membership_id;
                project_id = p;
                user_id = u;
                role = role;
                created_by = by;
                updated_by = by;
              })
              else none
        ])
          ≡ (if same p u p' u' then some role else role_in o)
    split none e = ground arith
    split (some z) e =
        let here : is_member_row p' u' z ≡ true = find-eq_some _ db.memberships e in
        ground (arith, ==_iff p p', ==_iff u u', h, e)

-- Writes that keep the project and the user of a row.
module _ (db : Db) (p u : ℕ) (role : Role) (f : ProjectMembership → ProjectMembership)
    (writes : (m : ProjectMembership) → ((f m).role ≡ role))
    (keeps : (m : ProjectMembership)
      → ((f m).project_id ≡ m.project_id) × ((f m).user_id ≡ m.user_id)) where
  role-update_where :
      (p' u' : ℕ) (m : ProjectMembership)
      → get_membership db p u ≡ some m
      → role_in (find (is_member_row p' u') (update_where (is_member_row p u) f db.memberships))
        ≡ (if same p u p' u' then some role else role_at db p' u')
  role-update_where p' u' m h =
      rw
        (find-update_where (is_member_row p u) (is_member_row p' u') f
          (λ x _. ground (arith, keeps x)) db.memberships)
        (split (get_membership db p' u') refl)
    where
      split :
          (o : Option ProjectMembership)
          → get_membership db p' u' ≡ o
          → role_in (Option.map (λ x. if is_member_row p u x then f x else x) o)
            ≡ (if same p u p' u' then some role else role_in o)
      split none e = ground (arith, ==_iff p p', ==_iff u u', h, e)
      split (some z) e =
          let here : is_member_row p' u' z ≡ true = find-eq_some _ db.memberships e in
          ground (arith, writes z)

-- The view after the role of a row was written, by the project service and by the member API.
pub role_at-set_role :
    (db : Db) (p u : ℕ) (role : Role) (p' u' : ℕ) (m : ProjectMembership)
    → get_membership db p u ≡ some m
    → role_at (set_role p u role db) p' u'
      ≡ (if same p u p' u' then some role else role_at db p' u')
unfolding set_role
role_at-set_role db p u role = role-update_where db p u role _ (λ m. refl) (λ m. (refl, refl))

pub role_at-write_role :
    (db : Db) (p u : ℕ) (role : Role) (by p' u' : ℕ) (m : ProjectMembership)
    → get_membership db p u ≡ some m
    → role_at (write_role p u role by db) p' u'
      ≡ (if same p u p' u' then some role else role_at db p' u')
unfolding write_role
role_at-write_role db p u role by = role-update_where db p u role _ (λ m. refl) (λ m. (refl, refl))

-- The view after the row of a user was deleted.
pub role_at-remove_membership :
    (db : Db) (p u p' u' : ℕ)
    → role_at (remove_membership p u db) p' u' ≡ (if same p u p' u' then none else role_at db p' u')
unfolding remove_membership
role_at-remove_membership db p u p' u' = elim (Bool-cases (same p u p' u')) [
  | inl e ↦
      let pp : p ≡ p' = ground (arith, e) in
      let uu : u ≡ u' = ground (arith, e) in
      rw (e, ← pp, ← uu, find-delete_where_self (is_member_row p u) db.memberships) refl
  | inr e ↦
      rw
        (
          e,
          find-delete_where_ne (is_member_row p' u') (is_member_row p u) (λ x h. ground (arith, e))
              db.memberships,
        )
        refl
]
