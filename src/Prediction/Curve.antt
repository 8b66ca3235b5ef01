-- ===== src/Prediction/Curve.antt =====
-- The curve that an AI model answers, and what is stored of it: `validate_ai_prediction_curve`,
-- `generate_candidate_curve_with_fallback` and `persist_candidate_prediction` of
-- backend/services/capacityPredictionGovernanceService.py. What json, `datetime.fromisoformat` and `float`
-- make of the model's answer is an argument, and so is the outcome of the call of the model.
use disk_pulse.Prelude.{
  ℕ, ◌+◌, ◌/◌, String, Bool, true, false, not, ◌&&◌, Option, none, some, List, [], ◌∷◌, ◌++◌, leb,
  ◌==◌, if◌then◌else◌, is_some, length,
}
use disk_pulse.Prelude.Exec.{
  http_exception, value_error, overflow_error, Error, Result, ok, err, Exec,
}
use disk_pulse.Prelude.Time.{Instant, hours}
use disk_pulse.Prediction.Db.{
  Figure, at, below, not_finite, Stamp, AssetType, Point, CurveSource, ai_candidate,
  baseline_fallback, CapacityPredictionCandidateForecast, PredictionAudit, Store, get_candidate,
  get_candidate_forecast, add_candidate_forecast,
}
pub mod Daily
pub mod Stored

-- What `fromisoformat` makes of a value, and then `astimezone`: the first fails on a value that cannot be
-- read and on a missing key, the second on an instant before the first or after the last date.
pub data ReadTime : Type 0 where
  unreadable_time naive_time out_of_range : ReadTime
  utc_time : Instant → ReadTime

-- What `float` makes of a value: it raises an OverflowError for an integer beyond its range.
pub data ReadFigure : Type 0 where
  unreadable too_large : ReadFigure
  read : Figure → ReadFigure

-- A point of the answer. The dates of the thirty days after the start are taken to be representable.
pub record RawPoint : Type 0 where
  pub observed_at : ReadTime
  pub p10 : ReadFigure
  pub p50 : ReadFigure
  pub p90 : ReadFigure

-- `.date()` of a UTC datetime, as the number of the day.
abbrev pub date : Instant → ℕ
date t = t / hours 24

-- `p10 < 0 or p50 < 0 or p90 < 0 or not p10 <= p50 <= p90`, and before it whether all are finite.
unfoldable pub check_quantiles : Instant → Figure → Figure → Figure → Result Point
check_quantiles t not_finite _ _ = err (value_error "AI prediction quantiles must be finite")
check_quantiles t _ not_finite _ = err (value_error "AI prediction quantiles must be finite")
check_quantiles t _ _ not_finite = err (value_error "AI prediction quantiles must be finite")
check_quantiles t (at a) (at b) (at c) =
    if leb a b && leb b c
    then ok (record { observed_at = t; p10 = a; p50 = b; p90 = c })
    else err (value_error "AI prediction quantile order is invalid")
check_quantiles t _ _ _ = err (value_error "AI prediction quantile order is invalid")

invalid_point : Result Point
invalid_point = err (value_error "AI prediction point is invalid")

unfoldable pub check_date : ℕ → ReadTime → Figure → Figure → Figure → Result Point
unfolding check_quantiles invalid_point
check_date day unreadable_time a b c = invalid_point
check_date day naive_time a b c = err (value_error "AI prediction dates must be contiguous")
check_date day out_of_range a b c = err overflow_error
check_date day (utc_time t) a b c =
    if not (date t == day)
    then err (value_error "AI prediction dates must be contiguous")
    else check_quantiles t a b c

-- The three calls of `float`, in their order: the first that raises decides.
unfoldable pub validate_figures : ℕ → ReadTime → ReadFigure → ReadFigure → ReadFigure → Result Point
unfolding check_date invalid_point
validate_figures day t (read a) (read b) (read c) = check_date day t a b c
validate_figures day t (read a) (read b) unreadable = invalid_point
validate_figures day t (read a) (read b) too_large = err overflow_error
validate_figures day t (read a) unreadable c = invalid_point
validate_figures day t (read a) too_large c = err overflow_error
validate_figures day t unreadable b c = invalid_point
validate_figures day t too_large b c = err overflow_error

-- An OverflowError is not among those that the code turns into a ValueError.
unfoldable pub validate_point : ℕ → ReadTime → ReadFigure → ReadFigure → ReadFigure → Result Point
unfolding validate_figures invalid_point
validate_point day unreadable_time a b c = invalid_point
validate_point day naive_time a b c = validate_figures day naive_time a b c
validate_point day out_of_range a b c = validate_figures day out_of_range a b c
validate_point day (utc_time t) a b c = validate_figures day (utc_time t) a b c

-- The loop over the points, each a day after the one before.
unfoldable pub validate_points : ℕ → List RawPoint → Result (List Point)
unfolding validate_point
validate_points day [] = ok []
validate_points day (r ∷ raw) =
    let rest = validate_points (day + 1) raw in
    elim (validate_point day r.observed_at r.p10 r.p50 r.p90) [
      | err e ↦ err e
      | ok p ↦ elim rest [ err e ↦ err e | ok points ↦ ok (p ∷ points) ]
    ]

unfoldable pub validate_ai_prediction_curve : List RawPoint → Stamp → Result (List Point)
unfolding validate_points
validate_ai_prediction_curve raw start =
    if not (length raw == 30)
    then err (value_error "AI prediction must contain exactly 30 points")
    else elim start [
      | none ↦ err (value_error "forecast_start must include timezone")
      | some t ↦ validate_points (date t + 1) raw
    ]

-- `AIClientError`, with whether its text speaks of a timeout, an exception that the code does not catch, or
-- the answer: `none` where json or the look up of the curve raises one that it does, or the curve has no
-- length.
pub data Completion : Type 0 where
  client_error : Bool → Completion
  uncaught : Error → Completion
  answer : Option (List RawPoint) → Completion

pub record CandidateCurveResult : Type 0 where
  pub curve : List Point
  pub source : CurveSource
  pub fallback_reason : Option String

fall_back : List Point → String → CandidateCurveResult
fall_back baseline reason = record {
  curve = baseline;
  source = baseline_fallback;
  fallback_reason = some reason;
}

-- Every exception of the validation but an OverflowError is caught.
abbrev pub is_caught : Error → Bool
is_caught overflow_error = false
is_caught _ = true

unfoldable pub checked_curve : List Point → Result (List Point) → Result CandidateCurveResult
unfolding fall_back
checked_curve baseline (ok curve) =
    ok (record { curve = curve; source = ai_candidate; fallback_reason = none })
checked_curve baseline (err e) =
    if is_caught e then ok (fall_back baseline "invalid_output") else err e

unfoldable pub generate_candidate_curve_with_fallback :
    Completion → Stamp → List Point → Result CandidateCurveResult
unfolding fall_back checked_curve
generate_candidate_curve_with_fallback (client_error timeout) start baseline =
    ok (fall_back baseline (if timeout then "timeout" else "invalid_output"))
generate_candidate_curve_with_fallback (uncaught e) start baseline = err e
generate_candidate_curve_with_fallback (answer none) start baseline =
    ok (fall_back baseline "invalid_output")
generate_candidate_curve_with_fallback (answer (some raw)) start baseline =
    checked_curve baseline (validate_ai_prediction_curve raw start)

-- The audit rows of a stored forecast: a second one tells of a fallback.
unfoldable pub prediction_audits :
    CapacityPredictionCandidateForecast → CurveSource → List PredictionAudit
prediction_audits f source =
    let generated : PredictionAudit = record {
      action = "capacity_prediction.generate";
      resource_id = f.id;
      project_id = f.project_id;
      reason_code = none;
      candidate_id = f.candidate_id;
      asset_type = f.asset_type;
      asset_id = f.asset_id;
      source = some source;
    } in
    let fallback : PredictionAudit = record {
      action = "capacity_prediction.fallback";
      resource_id = f.id;
      project_id = f.project_id;
      reason_code = f.fallback_reason;
      candidate_id = f.candidate_id;
      asset_type = f.asset_type;
      asset_id = f.asset_id;
      source = none;
    } in
    elim source [ ai_candidate ↦ generated ∷ [] | baseline_fallback ↦ generated ∷ fallback ∷ [] ]

-- What is asked to be stored.
pub record Prediction : Type 0 where
  pub candidate_id : ℕ
  pub asset_type : AssetType
  pub asset_id : ℕ
  pub project_id : Option ℕ
  pub baseline_curve : List Point
  pub result : CandidateCurveResult

abbrev pub forecast_row : Prediction → Instant → CapacityPredictionCandidateForecast
forecast_row p start = record {
  id = 0;
  candidate_id = p.candidate_id;
  asset_type = p.asset_type;
  asset_id = p.asset_id;
  project_id = p.project_id;
  forecast_start = start;
  baseline_curve = p.baseline_curve;
  curve = p.result.curve;
  source = p.result.source;
  fallback_reason = p.result.fallback_reason;
}

-- The audit rows of the row that the insert returns.
unfoldable pub audit_stored :
    CurveSource
    → Result CapacityPredictionCandidateForecast × Store
    → Result CapacityPredictionCandidateForecast × Store
unfolding prediction_audits
audit_stored source (err e, s) = (err e, s)
audit_stored source (ok row, s) =
    (ok row, record s { audits = s.audits ++ prediction_audits row source })

unfoldable pub store_prediction :
    Prediction → Instant → Exec Store CapacityPredictionCandidateForecast
unfolding audit_stored
store_prediction p start s =
    audit_stored p.result.source (add_candidate_forecast (forecast_row p start) s)

unfoldable pub persist_candidate_prediction :
    Prediction → Stamp → Exec Store CapacityPredictionCandidateForecast
unfolding store_prediction
persist_candidate_prediction p forecast_start s =
    if not (is_some (get_candidate p.candidate_id s.candidates))
    then (err (http_exception 404 "capacity prediction candidate was not found"), s)
    else elim forecast_start [
      | none ↦ (err (http_exception 422 "forecast_start must include a UTC offset"), s)
      | some start ↦
          elim (get_candidate_forecast p.candidate_id p.asset_type p.asset_id start
            s.candidate_forecasts) [
              | some existing ↦ (ok existing, s)
              | none ↦ store_prediction p start s
            ]
    ]
