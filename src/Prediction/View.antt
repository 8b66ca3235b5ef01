-- ===== src/Prediction/View.antt =====
-- The final predictions: `_exhaustion_dates`, `_prediction_view`, `get_resource_prediction` and
-- `list_final_predictions` of backend/services/capacityPredictionGovernanceService.py, and
-- `list_latest_forecasts` of backend/crud/capacityPredictionCrud.py.
use mathlib.Core.Option
use disk_pulse.Prelude.{
  ℕ, zero, suc, ◌-◌, ◌*◌, String, Bool, true, false, not, ◌&&◌, ◌||◌, Option, none, some, List, [],
  ◌∷◌, map, ltb, leb, ◌==◌, ◌=?◌, if◌then◌else◌, any, select, length,
}
use disk_pulse.Prelude.Exec.{http_exception, Error, Result, ok, err}
use disk_pulse.Prelude.Time.{Instant}
use disk_pulse.Access.Db.{User, Group, StorageUsage}
use disk_pulse.Access.Service.{accessible_project_ids}
use disk_pulse.Prediction.Db.{
  AssetType, storage_cluster, project, group, storage_usage, same_type, Point, CurveSource,
  CapacityPredictionCandidate, CapacityForecast, CapacityPredictionCandidateForecast, Store,
  get_candidate, active_candidate, is_forecast, newer_than, latest_forecast,
  latest_active_candidate_forecast,
}
use disk_pulse.Prediction.Resource.{readable, require_prediction_visibility}
pub mod Agree
pub mod Listed

-- `next((observed_at for point in curve if point[quantile] >= hard_limit), None)`
unfoldable pub exhaustion : (Point → ℕ) → ℕ → List Point → Option Instant
exhaustion quantile limit [] = none
exhaustion quantile limit (p ∷ curve) =
    if leb limit (quantile p) then some p.observed_at else exhaustion quantile limit curve

-- The columns that tell where a prediction comes from stand beside the row.
pub record FinalPrediction : Type 0 where
  pub forecast : CapacityForecast
  pub prediction_source : Option CurveSource
  pub fallback_reason : Option String
  pub candidate_version : Option String

abbrev version_of : Option CapacityPredictionCandidate → Option String
version_of none = none
version_of (some c) = some c.version

-- `_exhaustion_dates` and the row with the curve of the candidate.
unfoldable pub with_curve : CapacityForecast → List Point → CapacityForecast
unfolding exhaustion
with_curve baseline curve = record baseline {
  curve = curve;
  p10_exhaustion = exhaustion (λ (p : Point). p.p10) baseline.hard_limit curve;
  p50_exhaustion = exhaustion (λ (p : Point). p.p50) baseline.hard_limit curve;
  p90_exhaustion = exhaustion (λ (p : Point). p.p90) baseline.hard_limit curve;
}

unfoldable pub prediction_view :
    CapacityForecast
    → Option CapacityPredictionCandidateForecast
    → Option CapacityPredictionCandidate
    → FinalPrediction
unfolding with_curve
prediction_view baseline none candidate = record {
  forecast = baseline;
  prediction_source = none;
  fallback_reason = none;
  candidate_version = none;
}
prediction_view baseline (some f) candidate = record {
  forecast = with_curve baseline f.curve;
  prediction_source = some f.source;
  fallback_reason = f.fallback_reason;
  candidate_version = version_of candidate;
}

-- The candidate of the forecast that is shown.
abbrev candidate_of_forecast :
    Store → Option CapacityPredictionCandidateForecast → Option CapacityPredictionCandidate
candidate_of_forecast s none = none
candidate_of_forecast s (some f) = get_candidate f.candidate_id s.candidates

unfoldable pub final_view : Store → CapacityForecast → FinalPrediction
final_view s f =
    let row =
      latest_active_candidate_forecast s.candidates f.asset_type f.asset_id f.training_end
        s.candidate_forecasts in
    prediction_view f row (candidate_of_forecast s row)

unfoldable pub get_resource_prediction :
    Store → Option User → AssetType → ℕ → Result FinalPrediction
unfolding final_view
get_resource_prediction s user t n = elim (readable s user t n) [
  | err e ↦ err e
  | ok _ ↦ elim (latest_forecast t n s.forecasts) [
    | none ↦ err (http_exception 404 "capacity prediction was not found")
    | some f ↦ ok (final_view s f)
  ]
]

-- The project is among the visible ones, or all are.
abbrev in_projects : Option (List ℕ) → ℕ → Bool
in_projects none n = true
in_projects (some ids) n = any (λ m. m == n) ids

-- The current group, or the current directory of a group, of the forecast is there and visible.
unfoldable pub current_resource_exists : Store → Option (List ℕ) → CapacityForecast → Bool
current_resource_exists s visible f =
    (same_type f.asset_type group
      && any (λ (g : Group). g.id == f.asset_id && in_projects visible g.project_id)
          s.access.groups)
    || (same_type f.asset_type storage_usage
        && any
            (λ (u : StorageUsage).
              u.id == f.asset_id
              && any (λ (g : Group). u.group_id =? g.id && in_projects visible g.project_id)
                  s.access.groups)
            s.access.storage_usages)

-- A row of the same asset that comes after the forecast.
unfoldable pub newer_exists : List CapacityForecast → CapacityForecast → Bool
newer_exists rows f =
    any
      (λ (g : CapacityForecast).
        same_type g.asset_type f.asset_type && g.asset_id == f.asset_id && newer_than g f)
      rows

abbrev created_after : CapacityForecast → CapacityForecast → Bool
created_after f g =
    if f.created_at == g.created_at then leb g.id f.id else leb g.created_at f.created_at

unfoldable pub insert_created : CapacityForecast → List CapacityForecast → List CapacityForecast
insert_created f [] = f ∷ []
insert_created f (g ∷ rows) =
    let rest = insert_created f rows in if created_after f g then f ∷ g ∷ rows else g ∷ rest

-- By the time of creation and the id, descending.
unfoldable pub sort_created : List CapacityForecast → List CapacityForecast
unfolding insert_created
sort_created [] = []
sort_created (f ∷ rows) = insert_created f (sort_created rows)

-- `.offset(n)` and `.limit(n)`
unfoldable pub offset : ℕ → List CapacityForecast → List CapacityForecast
offset zero rows = rows
offset (suc n) [] = []
offset (suc n) (f ∷ rows) = offset n rows

unfoldable pub limit : ℕ → List CapacityForecast → List CapacityForecast
limit zero rows = []
limit (suc n) [] = []
limit (suc n) (f ∷ rows) = f ∷ limit n rows

unfoldable pub list_latest_forecasts :
    Store → Option (List ℕ) → (page size : ℕ) → List CapacityForecast × ℕ
unfolding current_resource_exists newer_exists sort_created offset limit
list_latest_forecasts s visible page size =
    let rows =
      select
        (λ (f : CapacityForecast).
          (same_type f.asset_type group || same_type f.asset_type storage_usage)
          && current_resource_exists s visible f
          && not (newer_exists s.forecasts f))
        s.forecasts in
    (limit size (offset ((page - 1) * size) (sort_created rows)), length rows)

-- `list_candidate_forecasts_for_baselines`
unfoldable pub forecasts_for_baselines :
    ℕ
    → List CapacityForecast
    → List CapacityPredictionCandidateForecast
    → List CapacityPredictionCandidateForecast
forecasts_for_baselines n baselines rows =
    select
      (λ (r : CapacityPredictionCandidateForecast).
        r.candidate_id == n
        && any
            (λ (f : CapacityForecast).
              is_forecast r.candidate_id f.asset_type f.asset_id f.training_end r)
            baselines)
      rows

-- The value of a key in `candidate_by_asset`: of the rows with the key, the last.
unfoldable pub by_asset :
    CapacityForecast
    → List CapacityPredictionCandidateForecast
    → Option CapacityPredictionCandidateForecast
by_asset f [] = none
by_asset f (r ∷ rows) = elim (by_asset f rows) [
  | some last ↦ some last
  | none ↦
      if is_forecast r.candidate_id f.asset_type f.asset_id f.training_end r then some r else none
]

-- The rows of a page, each with the forecast of the candidate that is enabled.
unfoldable pub final_rows : Store → List CapacityForecast → List FinalPrediction
unfolding forecasts_for_baselines by_asset
final_rows s forecasts = elim (active_candidate s.candidates) [
  | none ↦ map (λ (f : CapacityForecast). prediction_view f none none) forecasts
  | some c ↦
      map
        (λ (f : CapacityForecast).
          prediction_view f
            (by_asset f (forecasts_for_baselines c.id forecasts s.candidate_forecasts)) (some c))
        forecasts
]

unfoldable pub list_final_predictions :
    Store → Option User → (page size : ℕ) → Result (List FinalPrediction × ℕ)
unfolding list_latest_forecasts final_rows
list_final_predictions s user page size = elim (require_prediction_visibility s user) [
  | err e ↦ err e
  | ok _ ↦
      let (forecasts, total) =
        list_latest_forecasts s (accessible_project_ids s.access user) page size in
      ok (final_rows s forecasts, total)
]
