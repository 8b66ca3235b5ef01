-- ===== src/Prediction/Resource/Plans.antt =====
-- Who may plan a change of capacity, and what the user interface is told of it, in
-- backend/services/capacityPredictionGovernanceService.py.
use disk_pulse.Prelude.{
  ℕ, String, ◌≡◌, ◌≢◌, ◌↔◌, refl, sym, ap, ◌∙◌, [], ◌∷◌, ◌++◌, inl, inr, true, false, Option, none,
  some, arith, Bool-cases, Option-cases,
}
use disk_pulse.Prelude.Exec.{Error, Result, ok, err, Result-cases}
use disk_pulse.Access.Db.{Role, reader, project_admin, User, Group, StorageUsage, is_super_admin}
use disk_pulse.Access.Db
use disk_pulse.Access.Service.{
  require_project_permission, require_group_permission, require_storage_usage_permission, group_of,
}
use disk_pulse.Access.Permission.{GroupGrants, require_storage_usage_permission_iff}
use disk_pulse.Prediction.Db.{
  Figure, Stamp, AssetType, storage_cluster, project, group, storage_usage, plan_asset_type,
  CapacityPredictionPlan, Store, add_plan,
}
use disk_pulse.Prediction.Resource.{
  resource, prediction_visible_to_user, require_prediction_visibility, readable,
  resource_prediction_access, plan_in, create_capacity_plan, globally_disabled, user_id,
}

project_permission-reader :
    (db : Db.Db) (user : Option User) (n : ℕ)
    → require_project_permission db user n project_admin ≡ ok tt
    → require_project_permission db user n reader ≡ ok tt
unfolding require_project_permission
project_permission-reader db none n h = cc h
project_permission-reader db (some u) n h = ground arith

group_permission-reader :
    (db : Db.Db) (user : Option User) (n : ℕ) (g : Group)
    → require_group_permission db user n project_admin ≡ ok g
    → require_group_permission db user n reader ≡ ok g
unfolding require_group_permission
group_permission-reader db user n g h = elim (Option-cases (Db.get_group db n)) [
  | inl e ↦ cc (rw (e, require_group_permission) at h)
  | inr (f, e) ↦ ground (arith, e, project_permission-reader db user f.project_id)
]

grants-reader :
    (db : Db.Db) (user : User) (o : Option Group)
    → GroupGrants db user project_admin o
    → GroupGrants db user reader o
grants-reader db user none h = h
grants-reader db user (some g) h = project_permission-reader db (some user) g.project_id h

usage_permission-reader :
    (db : Db.Db) (user : Option User) (n : ℕ) (u : StorageUsage)
    → require_storage_usage_permission db user n project_admin ≡ ok u
    → require_storage_usage_permission db user n reader ≡ ok u
unfolding require_storage_usage_permission
usage_permission-reader db none n u h = ground arith
usage_permission-reader db (some v) n u h =
    let (found, grants) = (require_storage_usage_permission_iff db v n project_admin u).0 h in
    (require_storage_usage_permission_iff db v n reader u).1
      (found, grants-reader db v (group_of db u) grants)

-- Whoever reaches a resource as an administrator of its project reaches it as a reader.
resource-reader :
    (s : Store) (user : Option User) (t : AssetType) (n : ℕ) (scope : Option ℕ)
    → resource s user t n project_admin ≡ ok scope
    → resource s user t n reader ≡ ok scope
unfolding resource
resource-reader s user storage_cluster n scope h = h
resource-reader s user project n scope h = ground (arith, project_permission-reader s.access user n)
resource-reader s user group n scope h =
    elim (Result-cases (require_group_permission s.access user n project_admin)) [
      | inl (e, f) ↦ cc (rw (f, resource) at h)
      | inr (g, f) ↦
          rw (group_permission-reader s.access user n g f, resource) (rw (f, resource) at h)
    ]
resource-reader s user storage_usage n scope h =
    elim (Result-cases (require_storage_usage_permission s.access user n project_admin)) [
      | inl (e, f) ↦ cc (rw (f, resource) at h)
      | inr (u, f) ↦
          rw (usage_permission-reader s.access user n u f, resource) (rw (f, resource) at h)
    ]

-- The plan is written: it is returned, the one row that is new in the store, and what was asked for, in
-- the project of the resource and by the user.
pub record IsPlanned (user : Option User) (t : AssetType) (n : ℕ) (at_time : Stamp) (delta : Figure)
    (why : String) (s : Store) : Type 0 where
  pub p : CapacityPredictionPlan
  pub written :
      create_capacity_plan user t n at_time delta why s
      ≡ (ok p, record s { plans = s.plans ++ p ∷ [] })
  pub asset_type : p.asset_type ≡ t
  pub asset_id : p.asset_id ≡ n
  pub project : resource s user t n project_admin ≡ ok (some p.project_id)
  pub effective_at : at_time ≡ some p.effective_at
  pub capacity_delta : p.capacity_delta ≡ delta
  pub reason : p.reason ≡ why
  pub created_by : user ≢ none → (u : User) × (user ≡ some u) × (p.created_by ≡ u.id)

visible_ok :
    (s : Store) (user : Option User)
    → prediction_visible_to_user s user ≡ true
    → require_prediction_visibility s user ≡ ok tt
unfolding require_prediction_visibility
visible_ok s user h = rw h refl

-- The user interface is told that a user manages the plans of a resource exactly if the predictions are
-- shown to the user and the user reaches the resource as an administrator of its project.
pub resource_prediction_access_iff :
    (s : Store) (user : Option User) (t : AssetType) (n : ℕ)
    → (resource_prediction_access s user t n ≡ ok true) ↔ (
        (prediction_visible_to_user s user ≡ true)
        × ((scope : Option ℕ) × (resource s user t n project_admin ≡ ok scope)))
unfolding resource_prediction_access readable require_prediction_visibility
resource_prediction_access_iff s user t n =
    elim (Result-cases (resource s user t n project_admin)) [
      | inr (scope, e) ↦
          let as_reader : resource s user t n reader ≡ ok scope =
            resource-reader s user t n scope e in
          (λ h. (ground arith, (scope, e)), λ h. ground arith)
      | inl (x, e) ↦ (λ h. ground arith, λ h. absurd (cc (sym e ∙ h.1.1)))
    ]

plan_row : Option User → AssetType → ℕ → ℕ → Figure → String → ℕ → CapacityPredictionPlan
plan_row user t n at_time delta reason m = record {
  asset_type = t;
  asset_id = n;
  project_id = m;
  effective_at = at_time;
  capacity_delta = delta;
  reason = reason;
  created_by = user_id user;
}

module _ (s : Store) (user : Option User) (t : AssetType) (n at_time : ℕ) (delta : Figure)
    (reason : String) where
  -- What the creation of a plan does, by what the two checks say.
  create-unreachable :
      (e : Error)
      → resource s user t n project_admin ≡ err e
      → create_capacity_plan user t n (some at_time) delta reason s ≡ (err e, s)
  unfolding create_capacity_plan
  create-unreachable e f = rw (f, create_capacity_plan) refl

  create-invisible :
      (scope : Option ℕ)
      → resource s user t n project_admin ≡ ok scope
      → prediction_visible_to_user s user ≡ false
      → (e : Error) × (create_capacity_plan user t n (some at_time) delta reason s ≡ (err e, s))
  unfolding create_capacity_plan require_prediction_visibility
  create-invisible scope f g =
      (globally_disabled, rw (f, g, create_capacity_plan, require_prediction_visibility) refl)

  create-visible :
      (scope : Option ℕ)
      → resource s user t n project_admin ≡ ok scope
      → prediction_visible_to_user s user ≡ true
      → create_capacity_plan user t n (some at_time) delta reason s
        ≡ plan_in user t n at_time delta reason scope s
  unfolding create_capacity_plan require_prediction_visibility
  create-visible scope f g = rw (f, g, create_capacity_plan, require_prediction_visibility) refl

  created_by_lem :
      (m : ℕ)
      → user ≢ none
      → (u : User) × (user ≡ some u)
        × ((plan_row user t n at_time delta reason m).created_by ≡ u.id)
  unfolding plan_row
  created_by_lem m h = elim (Option-cases user) [
    | inl e ↦ absurd (h e)
    | inr (u, e) ↦ (u, e, rw e refl)
  ]

  plan_in-IsPlanned :
      (m : ℕ)
      → plan_asset_type t ≡ true
      → resource s user t n project_admin ≡ ok (some m)
      → create_capacity_plan user t n (some at_time) delta reason s
        ≡ plan_in user t n at_time delta reason (some m) s
      → IsPlanned user t n (some at_time) delta reason s
  unfolding plan_in add_plan plan_row
  plan_in-IsPlanned m h f same = record {
    p = plan_row user t n at_time delta reason m;
    written = same ∙ rw (h, plan_in, add_plan) refl;
    asset_type = refl;
    asset_id = refl;
    project = f;
    effective_at = refl;
    capacity_delta = refl;
    reason = refl;
    created_by = created_by_lem m;
  }

naive :
    (s : Store) (user : Option User) (t : AssetType) (n : ℕ) (delta : Figure) (reason : String)
    (p : CapacityPredictionPlan)
    → (create_capacity_plan user t n none delta reason s).0 ≢ ok p
unfolding create_capacity_plan
naive s user t n delta reason p h = cc h

failed :
    {x : Result CapacityPredictionPlan × Store} {e : Error} {p : CapacityPredictionPlan}
    {s v : Store}
    → x ≡ (err e, s)
    → x ≢ (ok p, v)
failed f h = cc (ap (λ q. q.0) (sym f ∙ h))

-- Where the resource is a group, or a directory of a group, a plan is written exactly if its time has an
-- offset and the user interface is told that the user manages the plans of the resource. A written plan is
-- returned, it is the one row that the store gains, and it holds what was asked for, the project of the
-- resource and the user.
pub create_capacity_plan_iff :
    (s : Store) (user : Option User) (t : AssetType) (n : ℕ) (at_time : Stamp) (delta : Figure)
    (reason : String)
    → plan_asset_type t ≡ true
    → resource s user t n project_admin ≢ ok none
    → IsPlanned user t n at_time delta reason s
      ↔ ((at_time ≢ none) × (resource_prediction_access s user t n ≡ ok true))
create_capacity_plan_iff s user t n none delta reason h k = (
  λ p. absurd (naive s user t n delta reason p.p (ap (λ r. r.0) p.written)),
  λ q. absurd (q.0 refl),
)
create_capacity_plan_iff s user t n (some at_time) delta reason h k =
    let told = resource_prediction_access_iff s user t n in
    elim (Result-cases (resource s user t n project_admin)) [
      | inl (e, f) ↦ (
        λ p. absurd (failed (create-unreachable s user t n at_time delta reason e f) p.written),
        λ q. absurd (cc (sym f ∙ (told.0 q.1).1.1)),
      )
      | inr (none, f) ↦ absurd (k f)
      | inr (some m, f) ↦ elim (Bool-cases (prediction_visible_to_user s user)) [
        | inl g ↦ (
          λ p. (λ x. cc x, told.1 (g, (some m, f))),
          λ q.
              plan_in-IsPlanned s user t n at_time delta reason m h f
                (create-visible s user t n at_time delta reason (some m) f g),
        )
        | inr g ↦
            let (e, same) = create-invisible s user t n at_time delta reason (some m) f g in
            (λ p. absurd (failed same p.written), λ q. absurd (cc (sym g ∙ (told.0 q.1).0)))
      ]
    ]
