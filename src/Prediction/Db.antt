-- ===== src/Prediction/Db.antt =====
-- The tables of backend/models.py about capacity predictions, and the queries of
-- backend/crud/capacityPredictionCrud.py.
-- A finite float is a whole number of the smallest positive float, which is exact. The id of an asset,
-- which some tables keep as text, is a number. A table is the list of its rows in the order of their ids.
use package.text.Mathlib.Text.{◌==◌ as str_eq}
use disk_pulse.Access.Db
use disk_pulse.Prelude.{
  ℕ, ◌+◌, String, Bool, true, false, ◌&&◌, Option, none, some, List, [], ◌∷◌, ◌++◌, ltb, leb, ◌==◌,
  if◌then◌else◌, is_some, any, find, select,
}
use disk_pulse.Prelude.Exec.{integrity_error, ok, err, Exec}
use disk_pulse.Prelude.Time.{Instant}

-- A float: `at n`, less than zero, or no finite number.
pub data Figure : Type 0 where
  at below : ℕ → Figure
  not_finite : Figure

-- A datetime: one without an offset is `none`.
abbrev pub Stamp : Type 0
Stamp = Option Instant

-- `PredictionAssetType`
pub data AssetType : Type 0 where
  storage_cluster project group storage_usage : AssetType

abbrev pub same_type : AssetType → AssetType → Bool
same_type storage_cluster storage_cluster = true
same_type project project = true
same_type group group = true
same_type storage_usage storage_usage = true
same_type _ _ = false

-- A point of a curve, as the service stores it.
pub record Point : Type 0 where
  pub observed_at : Instant
  pub p10 : ℕ
  pub p50 : ℕ
  pub p90 : ℕ

pub data CurveSource : Type 0 where
  ai_candidate baseline_fallback : CurveSource

pub record AiConfig : Type 0 where
  pub id : ℕ
  pub enabled : Bool

pub record CapacityPredictionCandidate : Type 0 where
  pub id : ℕ
  pub version : String
  pub enabled : Bool
  pub ai_model_id : ℕ

pub record CapacityPredictionEvaluation : Type 0 where
  pub candidate_id : ℕ
  pub baseline_mape : ℕ
  pub candidate_mape : ℕ
  pub risk_coverage_ok : Bool
  pub window_start : Instant
  pub window_end : Instant

pub record CapacityPredictionSettings : Type 0 where
  pub user_visible : Bool
  pub updated_by : Option ℕ

pub record CapacityPredictionPlan : Type 0 where
  pub asset_type : AssetType
  pub asset_id : ℕ
  pub project_id : ℕ
  pub effective_at : Instant
  pub capacity_delta : Figure
  pub reason : String
  pub created_by : ℕ

-- `status` is that of the column `input_quality`.
pub record CapacityForecast : Type 0 where
  pub id : ℕ
  pub asset_type : AssetType
  pub asset_id : ℕ
  pub training_end : Instant
  pub hard_limit : ℕ
  pub curve : List Point
  pub ready : Bool
  pub p10_exhaustion : Option Instant
  pub p50_exhaustion : Option Instant
  pub p90_exhaustion : Option Instant
  pub created_at : Instant

pub record CapacityPredictionCandidateForecast : Type 0 where
  pub id : ℕ
  pub candidate_id : ℕ
  pub asset_type : AssetType
  pub asset_id : ℕ
  pub project_id : Option ℕ
  pub forecast_start : Instant
  pub baseline_curve : List Point
  pub curve : List Point
  pub source : CurveSource
  pub fallback_reason : Option String

-- An audit row of the service.
pub record PredictionAudit : Type 0 where
  pub action : String
  pub resource_id : ℕ
  pub project_id : Option ℕ
  pub reason_code : Option String
  pub candidate_id : ℕ
  pub asset_type : AssetType
  pub asset_id : ℕ
  pub source : Option CurveSource

pub record Store : Type 0 where
  pub access : Db.Db
  pub clusters : List ℕ
  pub models : List AiConfig
  pub settings : Option CapacityPredictionSettings
  pub candidates : List CapacityPredictionCandidate
  -- the next value of the primary key's sequence
  pub next_candidate_id : ℕ
  pub evaluations : List CapacityPredictionEvaluation
  pub plans : List CapacityPredictionPlan
  pub forecasts : List CapacityForecast
  pub candidate_forecasts : List CapacityPredictionCandidateForecast
  pub next_forecast_id : ℕ
  pub audits : List PredictionAudit

-- The check constraint of the tables of plans and of forecasts of candidates.
abbrev pub plan_asset_type : AssetType → Bool
plan_asset_type group = true
plan_asset_type storage_usage = true
plan_asset_type _ = false

-- `db.get(AIConfig, id)`
abbrev pub get_model : Store → ℕ → Option AiConfig
get_model s n = find (λ (m : AiConfig). m.id == n) s.models

unfoldable pub get_candidate :
    ℕ → List CapacityPredictionCandidate → Option CapacityPredictionCandidate
get_candidate n rows = find (λ (c : CapacityPredictionCandidate). c.id == n) rows

unfoldable pub get_candidate_by_version :
    String → List CapacityPredictionCandidate → Option CapacityPredictionCandidate
get_candidate_by_version version rows =
    find (λ (c : CapacityPredictionCandidate). str_eq c.version version) rows

-- The row that is enabled and has the greatest id.
unfoldable pub active_candidate :
    List CapacityPredictionCandidate → Option CapacityPredictionCandidate
active_candidate [] = none
active_candidate (c ∷ rows) = elim (active_candidate rows) [
  | some later ↦ some later
  | none ↦ if c.enabled then some c else none
]

unfoldable pub disable_candidates :
    List CapacityPredictionCandidate → List CapacityPredictionCandidate
disable_candidates [] = []
disable_candidates (c ∷ rows) = (record c { enabled = false }) ∷ disable_candidates rows

-- A row goes before the first one whose window ends later.
unfoldable pub insert_by_end :
    CapacityPredictionEvaluation
    → List CapacityPredictionEvaluation
    → List CapacityPredictionEvaluation
insert_by_end x [] = x ∷ []
insert_by_end x (y ∷ ys) =
    let rest = insert_by_end x ys in if leb x.window_end y.window_end then x ∷ y ∷ ys else y ∷ rest

-- `sorted(..., key=window_end)`, and the order by the end of the window and the id: rows of one end
-- stay in their order.
unfoldable pub sort_by_end : List CapacityPredictionEvaluation → List CapacityPredictionEvaluation
unfolding insert_by_end
sort_by_end [] = []
sort_by_end (x ∷ xs) = insert_by_end x (sort_by_end xs)

unfoldable pub list_candidate_evaluations : ℕ → Store → List CapacityPredictionEvaluation
unfolding sort_by_end
list_candidate_evaluations n s =
    sort_by_end (select (λ (e : CapacityPredictionEvaluation). e.candidate_id == n) s.evaluations)

abbrev pub is_window : ℕ → Instant → Instant → CapacityPredictionEvaluation → Bool
is_window n start end e = e.candidate_id == n && (e.window_start == start && e.window_end == end)

unfoldable pub has_candidate_evaluation :
    ℕ → Instant → Instant → List CapacityPredictionEvaluation → Bool
has_candidate_evaluation n start end rows = any (is_window n start end) rows

-- A flush of a new row: the unique constraint of the table may refuse it.
unfoldable pub add_candidate_evaluation : CapacityPredictionEvaluation → Exec Store (Unit {0})
unfolding has_candidate_evaluation
add_candidate_evaluation e s =
    if has_candidate_evaluation e.candidate_id e.window_start e.window_end s.evaluations
    then (err integrity_error, s)
    else (ok tt, record s { evaluations = s.evaluations ++ e ∷ [] })

unfoldable pub add_candidate : String → ℕ → Exec Store CapacityPredictionCandidate
add_candidate version ai_model_id s =
    let row : CapacityPredictionCandidate = record {
      id = s.next_candidate_id;
      version = version;
      enabled = false;
      ai_model_id = ai_model_id;
    } in
    if is_some (get_candidate_by_version version s.candidates) then (err integrity_error, s) else (
      ok row,
      record s {
        candidates = s.candidates ++ row ∷ [];
        next_candidate_id = s.next_candidate_id + 1;
      },
    )

abbrev pub is_forecast : ℕ → AssetType → ℕ → Instant → CapacityPredictionCandidateForecast → Bool
is_forecast n t a start f =
    f.candidate_id == n
    && (same_type f.asset_type t && (f.asset_id == a && f.forecast_start == start))

unfoldable pub get_candidate_forecast :
    ℕ
    → AssetType
    → ℕ
    → Instant
    → List CapacityPredictionCandidateForecast
    → Option CapacityPredictionCandidateForecast
get_candidate_forecast n t a start rows = find (is_forecast n t a start) rows

-- A flush of a new row, with the id of the sequence: the check constraint of the type of the asset and
-- the unique constraint may refuse it.
unfoldable pub add_candidate_forecast :
    CapacityPredictionCandidateForecast → Exec Store CapacityPredictionCandidateForecast
unfolding get_candidate_forecast
add_candidate_forecast f s =
    let row : CapacityPredictionCandidateForecast = record f { id = s.next_forecast_id } in
    if plan_asset_type f.asset_type
    then (if is_some (
          get_candidate_forecast f.candidate_id f.asset_type f.asset_id f.forecast_start
            s.candidate_forecasts)
        then (err integrity_error, s)
        else (
          ok row,
          record s {
            candidate_forecasts = s.candidate_forecasts ++ row ∷ [];
            next_forecast_id = s.next_forecast_id + 1;
          },
        ))
    else (err integrity_error, s)

unfoldable pub add_plan : CapacityPredictionPlan → Exec Store CapacityPredictionPlan
add_plan p s =
    if plan_asset_type p.asset_type
    then (ok p, record s { plans = s.plans ++ p ∷ [] })
    else (err integrity_error, s)

-- A forecast `f` comes after `g` in the order of `latest_forecast`.
abbrev pub newer_than : CapacityForecast → CapacityForecast → Bool
newer_than f g =
    if f.training_end == g.training_end
    then (if f.created_at == g.created_at then ltb g.id f.id else ltb g.created_at f.created_at)
    else ltb g.training_end f.training_end

-- The first row by the end of the training, the time of creation and the id, each descending.
unfoldable pub latest_forecast : AssetType → ℕ → List CapacityForecast → Option CapacityForecast
latest_forecast t a [] = none
latest_forecast t a (f ∷ rows) =
    let rest = latest_forecast t a rows in
    if same_type f.asset_type t && f.asset_id == a
    then elim rest [ none ↦ some f | some g ↦ if newer_than g f then some g else some f ]
    else rest

-- The join of a forecast with an enabled candidate.
abbrev pub enabled_id : List CapacityPredictionCandidate → ℕ → Bool
enabled_id rows n = any (λ (c : CapacityPredictionCandidate). c.enabled && c.id == n) rows

-- The row of the greatest id: the forecasts have one start.
unfoldable pub latest_active_candidate_forecast :
    List CapacityPredictionCandidate
    → AssetType
    → ℕ
    → Instant
    → List CapacityPredictionCandidateForecast
    → Option CapacityPredictionCandidateForecast
latest_active_candidate_forecast candidates t a start [] = none
latest_active_candidate_forecast candidates t a start (f ∷ rows) =
    elim (latest_active_candidate_forecast candidates t a start rows) [
      | some later ↦ some later
      | none ↦
          if enabled_id candidates f.candidate_id && is_forecast f.candidate_id t a start f
          then some f
          else none
    ]
