-- ===== src/Access/Roles/WellFormed.antt =====
-- The unique constraint and the primary key's sequence survive every write to the memberships.
use disk_pulse.Prelude.{
  ℕ, ◌+◌, ◌<◌, ◌≡◌, refl, Bool, Option, none, List, [], ◌∷◌, ◌++◌, arith, find, update_where,
  delete_where, All, All-append, All-update_where, All-delete_where, find-update_where,
  find-append_one, find-delete_where-none, Bool-cases, inl, inr, ==_iff,
}
use disk_pulse.Access.Db.{Role, ProjectMembership, Db, is_member_row, get_membership}
use disk_pulse.Access.Service.{add_membership, set_role, remove_membership}
use disk_pulse.Access.Members.{write_role}
use disk_pulse.Access.Roles.{Unique, IsWellFormed}

Unique-append_one :
    (ms : List ProjectMembership) (m : ProjectMembership)
    → Unique ms
    → find (is_member_row m.project_id m.user_id) ms ≡ none
    → Unique (ms ++ m ∷ [])
unfolding find
Unique-append_one [] m h e = (refl, tt)
Unique-append_one (x ∷ ms) m h e = (
  rw (find-append_one (is_member_row x.project_id x.user_id) ms m)
      (ground (arith, h.0, ==_iff x.project_id m.project_id, ==_iff x.user_id m.user_id)),
  Unique-append_one ms m h.1 (ground arith),
)

Unique-update_where :
    (p : ProjectMembership → Bool) (f : ProjectMembership → ProjectMembership)
    → ((m : ProjectMembership) → ((f m).project_id ≡ m.project_id) × ((f m).user_id ≡ m.user_id))
    → (ms : List ProjectMembership) → Unique ms
    → Unique (update_where p f ms)
unfolding update_where
Unique-update_where p f keeps [] h = tt
Unique-update_where p f keeps (x ∷ ms) h = (
  elim (Bool-cases (p x)) [ inl e ↦ rw (e, (keeps x).0, (keeps x).1) unseen | inr e ↦ rw e unseen ],
  Unique-update_where p f keeps ms h.1,
)
  where
    unseen : find (is_member_row x.project_id x.user_id) (update_where p f ms) ≡ none
    unseen =
        rw
          (find-update_where p (is_member_row x.project_id x.user_id) f
            (λ y _. ground (arith, keeps y)) ms)
          (rw h.0)

Unique-delete_where :
    (p : ProjectMembership → Bool) (ms : List ProjectMembership)
    → Unique ms
    → Unique (delete_where p ms)
unfolding delete_where
Unique-delete_where p [] h = tt
Unique-delete_where p (x ∷ ms) h = elim (Bool-cases (p x)) [
  | inl e ↦ rw e (Unique-delete_where p ms h.1)
  | inr e ↦ rw e (find-delete_where-none _ p ms h.0, Unique-delete_where p ms h.1)
]

pub add_membership-IsWellFormed :
    (db : Db) (p u : ℕ) (role : Role) (by : Option ℕ)
    → get_membership db p u ≡ none
    → IsWellFormed db
    → IsWellFormed (add_membership p u role by db)
unfolding add_membership
add_membership-IsWellFormed db p u role by e h = record {
  unique = Unique-append_one db.memberships _ h.unique e;
  ids_below = All-append _ db.memberships _ (weaken db.memberships h.ids_below) (omega arith, tt);
}
  where
    weaken :
        (ms : List ProjectMembership)
        → All (λ (m : ProjectMembership). m.id < db.next_membership_id) ms
        → All (λ (m : ProjectMembership). m.id < db.next_membership_id + 1) ms
    weaken [] k = tt
    weaken (m ∷ ms) k = (omega (arith, k.0), weaken ms k.1)

pub set_role-IsWellFormed :
    (db : Db) (p u : ℕ) (role : Role) → IsWellFormed db → IsWellFormed (set_role p u role db)
unfolding set_role
set_role-IsWellFormed db p u role h = record {
  unique = Unique-update_where _ _ (λ m. (refl, refl)) db.memberships h.unique;
  ids_below = All-update_where _ _ _ (λ m k _. k) db.memberships h.ids_below;
}

pub write_role-IsWellFormed :
    (db : Db) (p u : ℕ) (role : Role) (by : ℕ)
    → IsWellFormed db
    → IsWellFormed (write_role p u role by db)
unfolding write_role
write_role-IsWellFormed db p u role by h = record {
  unique = Unique-update_where _ _ (λ m. (refl, refl)) db.memberships h.unique;
  ids_below = All-update_where _ _ _ (λ m k _. k) db.memberships h.ids_below;
}

pub remove_membership-IsWellFormed :
    (db : Db) (p u : ℕ) → IsWellFormed db → IsWellFormed (remove_membership p u db)
unfolding remove_membership
remove_membership-IsWellFormed db p u h = record {
  unique = Unique-delete_where _ db.memberships h.unique;
  ids_below = All-delete_where _ _ db.memberships h.ids_below;
}
