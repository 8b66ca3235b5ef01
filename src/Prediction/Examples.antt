-- ===== src/Prediction/Examples.antt =====
-- The theorems about capacity predictions at concrete inputs.
use mathlib.Core.List.{Perm}
use disk_pulse.Prelude.{
  All, ℕ, zero, suc, ◌+◌, ◌*◌, ◌≡◌, ◌≢◌, ◌↔◌, ◌⊎◌, refl, true, Option, none, some, List, [], ◌∷◌,
  ◌++◌, map, length, arith, find, any, all, select, update_where,
}
use disk_pulse.Prelude.Exec.{Result, ok}
use disk_pulse.Prelude.Time.{hours}
use disk_pulse.Access.Db.{Role, User, is_super_admin}
use disk_pulse.Access.Db
use disk_pulse.Access.Service.{
  require_project_permission, require_group_permission, accessible_project_ids,
}
use disk_pulse.Prediction.Db.{
  at, AssetType, Point, CurveSource, CapacityPredictionEvaluation, CapacityForecast,
  CapacityPredictionCandidateForecast, AiConfig, Store, enabled_id, get_candidate,
  get_candidate_by_version, add_candidate, has_candidate_evaluation, add_candidate_evaluation,
  list_candidate_evaluations, sort_by_end, disable_candidates, get_candidate_forecast,
  add_candidate_forecast, active_candidate, latest_forecast,
}
use disk_pulse.Prediction.Gate.{candidate_meets_activation_gate}
use disk_pulse.Prediction.Gate.Recent.{
  AllApart, NoLater, IsBetter, candidate_meets_activation_gate-IsBetter,
}
use disk_pulse.Prediction.Governance.{
  activate_capacity_prediction_candidate, settings_visible, record_capacity_prediction_evaluation,
  create_capacity_prediction_candidate,
}
use disk_pulse.Prediction.Governance.Runs.{Call, create, evaluate, activate, run}
use disk_pulse.Prediction.Governance.Single.{IsGoverned, enabled_count, run-IsGoverned}
use disk_pulse.Prediction.Governance.History.{WasActivated, run-WasActivated}
use disk_pulse.Prediction.Curve.{
  RawPoint, utc_time, read, date, validate_ai_prediction_curve, answer, CandidateCurveResult,
  generate_candidate_curve_with_fallback, Prediction, persist_candidate_prediction,
}
use disk_pulse.Prediction.Curve.Daily.{
  AreRead, IsTaken, FallsBack, Raises, validate_ai_prediction_curve_iff,
  generate_candidate_curve_with_fallback-outcome,
}
use disk_pulse.Prediction.Curve.Stored.{persist_candidate_prediction_again}
use disk_pulse.Prediction.Resource.{
  resource, resource_prediction_access, prediction_visible_to_user, require_prediction_visibility,
}
use disk_pulse.Prediction.Resource.Plans.{IsPlanned, create_capacity_plan_iff}
use disk_pulse.Prediction.View.{
  FinalPrediction, final_view, prediction_view, list_latest_forecasts, list_final_predictions,
  with_curve,
}
use disk_pulse.Prediction.View.Listed.{IsShown}
use disk_pulse.Prediction.View.Agree.{list_final_predictions-agrees}
use disk_pulse.Prediction.Risk.{build_exhaustion_risk_summary}
use disk_pulse.Prediction.Risk.Horizon.{Concludes, build_exhaustion_risk_summary-Concludes}

abbrev alice : User
alice = record { id = 2; username = some "alice"; rd_username = none; email = none }

abbrev access : Db.Db
access = record {
  super_admin_usernames = "root" ∷ [];
  users = alice ∷ [];
  projects = record { id = 7; in_charge_user_id = some 2 } ∷ [];
  groups = record { id = 5; project_id = 7 } ∷ [];
  storage_usages = record { id = 9; group_id = some 5; user_id = none } ∷ [];
  memberships =
      record {
        id = 1;
        project_id = 7;
        user_id = 2;
        role = Role.project_admin;
        created_by = none;
        updated_by = none;
      }
      ∷ [];
  next_membership_id = 2;
  audits = [];
}

abbrev model : AiConfig
model = record { id = 1; enabled = true }

abbrev forecast : CapacityForecast
forecast = record {
  id = 1;
  asset_type = AssetType.group;
  asset_id = 5;
  training_end = hours 24;
  hard_limit = 90;
  curve = [];
  ready = true;
  p10_exhaustion = none;
  p50_exhaustion = none;
  p90_exhaustion = none;
  created_at = hours 24;
}

-- One model is configured, and there is no candidate yet.
abbrev new_store : Store
new_store = record {
  access = access;
  clusters = [];
  models = model ∷ [];
  settings = some (record { user_visible = true; updated_by = none });
  candidates = [];
  next_candidate_id = 1;
  evaluations = [];
  plans = [];
  forecasts = forecast ∷ [];
  candidate_forecasts = [];
  next_forecast_id = 1;
  audits = [];
}

-- Two candidates, three windows of the first, and its activation.
abbrev month : ℕ → Call
month k =
    evaluate [] 1 (at 100) (at 90) true (some (hours (720 * k)))
      (some (hours (720 * k) + hours 720))

abbrev prepare : List Call
prepare = create [] "v1" 1 ∷ create [] "v2" 1 ∷ month 1 ∷ month 2 ∷ month 3 ∷ []

abbrev calls : List Call
calls = prepare ++ activate 1 ∷ []

abbrev evaluation : ℕ → CapacityPredictionEvaluation
evaluation k = record {
  candidate_id = 1;
  baseline_mape = 100;
  candidate_mape = 90;
  risk_coverage_ok = true;
  window_start = hours (720 * k);
  window_end = hours (720 * k) + hours 720;
}

abbrev evaluations : List CapacityPredictionEvaluation
evaluations = evaluation 1 ∷ evaluation 2 ∷ evaluation 3 ∷ []

candidate_meets_activation_gate-IsBetter_example :
    AllApart evaluations
    × ((older : List CapacityPredictionEvaluation) × (recent : List CapacityPredictionEvaluation)
        × Perm (older ++ recent) evaluations
        × NoLater older recent
        × IsBetter recent)
unfolding candidate_meets_activation_gate any all sort_by_end
candidate_meets_activation_gate-IsBetter_example =
    candidate_meets_activation_gate-IsBetter evaluations refl

new_store-IsGoverned : IsGoverned new_store
unfolding enabled_count
new_store-IsGoverned = record { unlike = tt; below = tt; single = omega arith; windows = tt }

run-IsGoverned_example : IsGoverned (run calls new_store)
run-IsGoverned_example = run-IsGoverned calls new_store new_store-IsGoverned

run-WasActivated_example :
    (enabled_id new_store.candidates 1 ≡ true) ⊎ WasActivated 1 calls new_store
unfolding run any activate_capacity_prediction_candidate get_candidate find
    record_capacity_prediction_evaluation create_capacity_prediction_candidate
    get_candidate_by_version add_candidate has_candidate_evaluation add_candidate_evaluation
    candidate_meets_activation_gate list_candidate_evaluations select all update_where
    disable_candidates
run-WasActivated_example = run-WasActivated calls new_store 1 refl

-- An answer of thirty points, and its curve.
abbrev raw_points : ℕ → ℕ → List RawPoint
raw_points zero day = []
raw_points (suc n) day =
    record {
      observed_at = utc_time (hours (24 * day));
      p10 = read (at day);
      p50 = read (at (day + 1));
      p90 = read (at (day + 2));
    }
    ∷ raw_points n (day + 1)

abbrev points : ℕ → ℕ → List Point
points zero day = []
points (suc n) day =
    record { observed_at = hours (24 * day); p10 = day; p50 = day + 1; p90 = day + 2 }
    ∷ points n (day + 1)

validate_ai_prediction_curve_iff_example :
    (validate_ai_prediction_curve (raw_points 30 2) (some (hours 24)) ≡ ok (points 30 2)) ↔ (
      (length (raw_points 30 2) ≡ 30)
      × ((t : ℕ) × (◌≡◌ {A = Option ℕ} (some (hours 24)) (some t))
          × AreRead (date t + 1) (raw_points 30 2) (points 30 2)))
validate_ai_prediction_curve_iff_example =
    validate_ai_prediction_curve_iff (raw_points 30 2) (some (hours 24)) (points 30 2)

abbrev model_result : Result CandidateCurveResult
model_result =
    generate_candidate_curve_with_fallback (answer (some (raw_points 30 2))) (some (hours 24)) []

generate_candidate_curve_with_fallback-outcome_example :
    IsTaken (answer (some (raw_points 30 2))) (some (hours 24)) model_result
    ⊎ FallsBack (answer (some (raw_points 30 2))) (some (hours 24)) [] model_result
    ⊎ Raises (answer (some (raw_points 30 2))) model_result
generate_candidate_curve_with_fallback-outcome_example =
    generate_candidate_curve_with_fallback-outcome (answer (some (raw_points 30 2)))
      (some (hours 24)) []

-- A store with a candidate that is enabled.
abbrev serving : Store
serving = record new_store {
  candidates = record { id = 1; version = "v1"; enabled = true; ai_model_id = 1 } ∷ [];
  next_candidate_id = 2;
}

abbrev prediction : AssetType → ℕ → Prediction
prediction t n = record {
  candidate_id = 1;
  asset_type = t;
  asset_id = n;
  project_id = some 7;
  baseline_curve = [];
  result = record {
    curve = points 30 2;
    source = CurveSource.baseline_fallback;
    fallback_reason = some "timeout";
  };
}

abbrev group_row : CapacityPredictionCandidateForecast
group_row = record {
  id = 1;
  candidate_id = 1;
  asset_type = AssetType.group;
  asset_id = 5;
  project_id = some 7;
  forecast_start = hours 24;
  baseline_curve = [];
  curve = points 30 2;
  source = CurveSource.baseline_fallback;
  fallback_reason = some "timeout";
}

abbrev after_storing : Store
after_storing =
    (persist_candidate_prediction (prediction AssetType.group 5) (some (hours 24)) serving).1

persist_candidate_prediction_again_example :
    persist_candidate_prediction (prediction AssetType.group 5) (some (hours 24)) after_storing
    ≡ (ok group_row, after_storing)
unfolding persist_candidate_prediction get_candidate find get_candidate_forecast
    add_candidate_forecast
persist_candidate_prediction_again_example =
    persist_candidate_prediction_again (prediction AssetType.group 5) (some (hours 24)) serving
      group_row refl

create_capacity_plan_iff_example :
    IsPlanned (some alice) AssetType.group 5 (some (hours 48)) (at 3) "more" new_store ↔ (
      (◌≢◌ {A = Option ℕ} (some (hours 48)) none)
      × (resource_prediction_access new_store (some alice) AssetType.group 5 ≡ ok true))
unfolding resource require_group_permission require_project_permission is_super_admin any find
create_capacity_plan_iff_example =
    create_capacity_plan_iff new_store (some alice) AssetType.group 5 (some (hours 48)) (at 3)
      "more" refl (λ h. ground arith)

abbrev publishing : Store
publishing = record serving { candidate_forecasts = group_row ∷ []; next_forecast_id = 2 }

publishing-IsGoverned : IsGoverned publishing
unfolding enabled_count
publishing-IsGoverned = record {
  unlike = (tt, tt);
  below = (omega arith, tt);
  single = omega arith;
  windows = tt;
}

abbrev final : FinalPrediction
final = record {
  forecast = with_curve forecast (points 30 2);
  prediction_source = some CurveSource.baseline_fallback;
  fallback_reason = some "timeout";
  candidate_version = some "v1";
}

list_final_predictions-agrees_example :
    let visible = accessible_project_ids publishing.access (some alice) in
    let shown = (list_latest_forecasts publishing visible 1 20).0 in
    (final ∷ [] ≡ map (final_view publishing) shown)
    × All (IsShown publishing (some alice) visible) shown
unfolding list_final_predictions require_prediction_visibility prediction_visible_to_user
    is_super_admin any settings_visible active_candidate select accessible_project_ids
    prediction_view find require_project_permission latest_forecast
list_final_predictions-agrees_example =
    list_final_predictions-agrees publishing (some alice) 1 20 (final ∷ []) 1 publishing-IsGoverned
      (tt, tt) refl

build_exhaustion_risk_summary-Concludes_example :
    Concludes
      (build_exhaustion_risk_summary (with_curve forecast (points 30 2)) (hours 24)).level
      90
      (hours 24)
      (points 30 2)
unfolding validate_ai_prediction_curve
build_exhaustion_risk_summary-Concludes_example =
    build_exhaustion_risk_summary-Concludes forecast (raw_points 30 2) (some (hours 24))
      (points 30 2) (hours 24) refl refl
