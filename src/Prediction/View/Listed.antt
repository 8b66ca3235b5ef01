-- ===== src/Prediction/View/Listed.antt =====
-- Which forecasts `list_latest_forecasts` of backend/crud/capacityPredictionCrud.py lists.
use disk_pulse.Prelude.{
  ℕ, zero, suc, ◌-◌, ◌*◌, ◌≡◌, ◌≢◌, ◌⊎◌, refl, ap, ◌∙◌, subst, inl, inr, Bool, true, false, not,
  ◌&&◌, ◌||◌, Option, some, List, [], ◌∷◌, arith, ◌==◌, any, select, All, Bool-cases, Option-cases,
  ==_refl,
}
use disk_pulse.Prelude.Exec.{ok}
use disk_pulse.Access.Db.{User}
use disk_pulse.Prediction.Db.{
  AssetType, storage_cluster, project, group, storage_usage, same_type, CapacityForecast, Store,
  newer_than, latest_forecast,
}
use disk_pulse.Prediction.Governance.Single.{Pairwise}
use disk_pulse.Prediction.Resource.{readable}
use disk_pulse.Prediction.View.{
  final_view, get_resource_prediction, current_resource_exists, newer_exists, created_after,
  insert_created, sort_created, offset, limit, list_latest_forecasts,
}

-- Two forecasts with different ids.
abbrev pub Other : CapacityForecast → CapacityForecast → Type 0
Other f g = f.id ≢ g.id

-- A listed forecast is the latest one of a resource that is there and visible, and whoever may read the
-- resource gets it by the query for the resource.
pub record IsShown (s : Store) (user : Option User) (visible : Option (List ℕ))
    (f : CapacityForecast) : Type 0 where
  pub kind : (f.asset_type ≡ group) ⊎ (f.asset_type ≡ storage_usage)
  pub there : current_resource_exists s visible f ≡ true
  pub latest : latest_forecast f.asset_type f.asset_id s.forecasts ≡ some f
  pub queried :
      (scope : Option ℕ)
      → readable s user f.asset_type f.asset_id ≡ ok scope
      → get_resource_prediction s user f.asset_type f.asset_id ≡ ok (final_view s f)

-- The forecast is one of the rows.
abbrev In : CapacityForecast → List CapacityForecast → Type 0
In f [] = ⊥
In f (g ∷ rows) = (f ≡ g) ⊎ In f rows

same_type_refl : (t : AssetType) → same_type t t ≡ true
same_type_refl storage_cluster = refl
same_type_refl project = refl
same_type_refl group = refl
same_type_refl storage_usage = refl

-- What is the latest is not newer than a row that no row is newer than.
latest-older :
    (f h : CapacityForecast) (rows : List CapacityForecast)
    → newer_exists rows f ≡ false
    → latest_forecast f.asset_type f.asset_id rows ≡ some h
    → newer_than h f ≡ false
unfolding newer_exists latest_forecast any
latest-older f h [] n e = cc e
latest-older f h (g ∷ rows) n e =
    elim (Option-cases (latest_forecast f.asset_type f.asset_id rows)) [
      | inl k ↦ ground (arith, k)
      | inr (m, k) ↦ ground (arith, k, latest-older f m rows (ground arith) k)
    ]

Other-In :
    (g f : CapacityForecast) (rows : List CapacityForecast)
    → All (Other g) rows
    → In f rows
    → g.id ≢ f.id
Other-In g f [] a i e = elim i [ ]
Other-In g f (h ∷ rows) a (inl same) e = a.0 (e ∙ ap (λ (k : CapacityForecast). k.id) same)
Other-In g f (h ∷ rows) a (inr i) e = Other-In g f rows a.1 i e

newer-total :
    (f g : CapacityForecast) → newer_than g f ≡ false → g.id ≢ f.id → newer_than f g ≡ true
newer-total f g n d = ground (arith, n, d)

newer_exists-tail :
    (f g : CapacityForecast) (rows : List CapacityForecast)
    → newer_exists (g ∷ rows) f ≡ false
    → newer_exists rows f ≡ false
unfolding newer_exists any
newer_exists-tail f g rows n = ground (arith, n)

newer_exists-head :
    (f g : CapacityForecast) (rows : List CapacityForecast)
    → newer_exists (g ∷ rows) f ≡ false
    → (same_type g.asset_type f.asset_type && g.asset_id == f.asset_id) ≡ true
    → newer_than g f ≡ false
unfolding newer_exists any
newer_exists-head f g rows n e = ground (arith, n, e)

latest-first :
    (f : CapacityForecast) (rows : List CapacityForecast)
    → newer_exists rows f ≡ false
    → latest_forecast f.asset_type f.asset_id (f ∷ rows) ≡ some f
unfolding latest_forecast
latest-first f rows n = elim (Option-cases (latest_forecast f.asset_type f.asset_id rows)) [
  | inl k ↦ rw (k, same_type_refl f.asset_type, ==_refl f.asset_id) refl
  | inr (m, k) ↦
      let old : newer_than m f ≡ false = latest-older f m rows n k in
      rw (k, same_type_refl f.asset_type, ==_refl f.asset_id, old) refl
]

latest-cons :
    (f g : CapacityForecast) (rows : List CapacityForecast)
    → latest_forecast f.asset_type f.asset_id rows ≡ some f
    → newer_exists (g ∷ rows) f ≡ false
    → g.id ≢ f.id
    → latest_forecast f.asset_type f.asset_id (g ∷ rows) ≡ some f
unfolding latest_forecast
latest-cons f g rows ih n d =
    elim (Bool-cases (same_type g.asset_type f.asset_type && g.asset_id == f.asset_id)) [
      | inl e ↦
          let newer : newer_than f g ≡ true = newer-total f g (newer_exists-head f g rows n e) d in
          rw (ih, e, newer) refl
      | inr e ↦ rw (ih, e) refl
    ]

In-latest :
    (f : CapacityForecast) (rows : List CapacityForecast)
    → In f rows
    → Pairwise Other rows
    → newer_exists rows f ≡ false
    → latest_forecast f.asset_type f.asset_id rows ≡ some f
In-latest f [] i d n = elim i [ ]
In-latest f (g ∷ rows) (inl same) d n =
    subst (λ (h : CapacityForecast). latest_forecast f.asset_type f.asset_id (h ∷ rows) ≡ some f)
      same (latest-first f rows (newer_exists-tail f g rows n))
In-latest f (g ∷ rows) (inr i) d n =
    latest-cons f g rows (In-latest f rows i d.1 (newer_exists-tail f g rows n)) n
      (Other-In g f rows d.0 i)

module _ (P : CapacityForecast → Type 0) where
  select-All :
      (p : CapacityForecast → Bool) (rows : List CapacityForecast)
      → ((f : CapacityForecast) → In f rows → p f ≡ true → P f)
      → All P (select p rows)
  unfolding select
  select-All p [] h = tt
  select-All p (f ∷ rows) h = elim (Bool-cases (p f)) [
    | inl e ↦ rw (e, select) (h f (inl refl) e, select-All p rows (λ g i. h g (inr i)))
    | inr e ↦ rw (e, select) (select-All p rows (λ g i. h g (inr i)))
  ]

  insert_created-All :
      (f : CapacityForecast) (rows : List CapacityForecast)
      → P f
      → All P rows
      → All P (insert_created f rows)
  unfolding insert_created
  insert_created-All f [] h a = (h, tt)
  insert_created-All f (g ∷ rows) h a = elim (Bool-cases (created_after f g)) [
    | inl e ↦ rw (e, insert_created) (h, a)
    | inr e ↦ rw (e, insert_created) (a.0, insert_created-All f rows h a.1)
  ]

  sort_created-All : (rows : List CapacityForecast) → All P rows → All P (sort_created rows)
  unfolding sort_created
  sort_created-All [] a = tt
  sort_created-All (f ∷ rows) a =
      insert_created-All f (sort_created rows) a.0 (sort_created-All rows a.1)

  offset-All : (n : ℕ) (rows : List CapacityForecast) → All P rows → All P (offset n rows)
  unfolding offset
  offset-All zero rows a = a
  offset-All (suc n) [] a = tt
  offset-All (suc n) (f ∷ rows) a = offset-All n rows a.1

  limit-All : (n : ℕ) (rows : List CapacityForecast) → All P rows → All P (limit n rows)
  unfolding limit
  limit-All zero rows a = tt
  limit-All (suc n) [] a = tt
  limit-All (suc n) (f ∷ rows) a = (a.0, limit-All n rows a.1)

listed_kind :
    (t : AssetType)
    → (same_type t group || same_type t storage_usage) ≡ true
    → (t ≡ group) ⊎ (t ≡ storage_usage)
listed_kind storage_cluster h = cc h
listed_kind project h = cc h
listed_kind group h = inl refl
listed_kind storage_usage h = inr refl

queried_lem :
    (s : Store) (user : Option User) (f : CapacityForecast) (scope : Option ℕ)
    → latest_forecast f.asset_type f.asset_id s.forecasts ≡ some f
    → readable s user f.asset_type f.asset_id ≡ ok scope
    → get_resource_prediction s user f.asset_type f.asset_id ≡ ok (final_view s f)
unfolding get_resource_prediction
queried_lem s user f scope latest may = rw (may, latest, get_resource_prediction) refl

pub listed-IsShown :
    (s : Store) (user : Option User) (visible : Option (List ℕ)) (page size : ℕ)
    → Pairwise Other s.forecasts
    → All (IsShown s user visible) (list_latest_forecasts s visible page size).0
unfolding list_latest_forecasts
listed-IsShown s user visible page size d =
    let p = λ (f : CapacityForecast).
      (same_type f.asset_type group || same_type f.asset_type storage_usage)
      && current_resource_exists s visible f
      && not (newer_exists s.forecasts f) in
    limit-All (IsShown s user visible) size
      (offset ((page - 1) * size) (sort_created (select p s.forecasts)))
      (offset-All (IsShown s user visible) ((page - 1) * size) (sort_created (select p s.forecasts))
        (sort_created-All (IsShown s user visible) (select p s.forecasts) (
          select-All (IsShown s user visible) p s.forecasts (λ f i h.
            let latest = In-latest f s.forecasts i d (ground (arith, h)) in
            record {
              kind = listed_kind f.asset_type (ground (arith, h));
              there = ground (arith, h);
              latest = latest;
              queried = λ scope may. queried_lem s user f scope latest may;
            }))))
