-- ===== src/Prediction/Curve/Daily.antt =====
-- Which answers of a model `validate_ai_prediction_curve` of
-- backend/services/capacityPredictionGovernanceService.py takes, and what the stored curve is like.
use disk_pulse.Prelude.{
  ℕ, ◌+◌, ◌≤◌, String, ◌≡◌, ap, sym, ◌∙◌, ◌⊎◌, ◌↔◌, inl, inr, refl, subst, Bool, true, false, none,
  some, List, [], ◌∷◌, arith, length, ◌||◌, ◌==◌, any, Bool-cases, ==_iff,
}
use disk_pulse.Prelude.Exec.{Error, overflow_error, Result, ok, err, Result-cases}
use disk_pulse.Prediction.Db.{at, Stamp, Point, ai_candidate, baseline_fallback}
use disk_pulse.Prediction.Curve.{
  ReadTime, unreadable_time, naive_time, out_of_range, utc_time, ReadFigure, unreadable, too_large,
  read, RawPoint, date, validate_point, validate_points, validate_ai_prediction_curve, Completion,
  client_error, uncaught, answer, CandidateCurveResult, is_caught, checked_curve,
  generate_candidate_curve_with_fallback,
}

-- The point is what the answer says, is of the day, and its quantiles are in order.
pub record IsRead (day : ℕ) (t : ReadTime) (a b c : ReadFigure) (p : Point) : Type 0 where
  pub seen : t ≡ utc_time p.observed_at
  pub of_day : date p.observed_at ≡ day
  pub low : a ≡ read (at p.p10)
  pub middle : b ≡ read (at p.p50)
  pub high : c ≡ read (at p.p90)
  pub low_le : p.p10 ≤ p.p50
  pub high_ge : p.p50 ≤ p.p90

-- The points are what the answer says, one a day.
abbrev pub AreRead : ℕ → List RawPoint → List Point → Type 0
AreRead day [] [] = Unit
AreRead day (r ∷ raw) (p ∷ points) =
    IsRead day r.observed_at r.p10 r.p50 r.p90 p × AreRead (day + 1) raw points
AreRead day _ _ = ⊥

validate_point-IsRead :
    (day : ℕ) (t : ReadTime) (a b c : ReadFigure) (p : Point)
    → validate_point day t a b c ≡ ok p
    → IsRead day t a b c p
unfolding validate_point
validate_point-IsRead day (utc_time t) (read a) (read b) (read c) p h = ground arith
validate_point-IsRead day (utc_time t) (read a) (read b) unreadable p h = cc h
validate_point-IsRead day (utc_time t) (read a) (read b) too_large p h = cc h
validate_point-IsRead day (utc_time t) (read a) unreadable c p h = cc h
validate_point-IsRead day (utc_time t) (read a) too_large c p h = cc h
validate_point-IsRead day (utc_time t) unreadable b c p h = cc h
validate_point-IsRead day (utc_time t) too_large b c p h = cc h
validate_point-IsRead day unreadable_time a b c p h = cc h
validate_point-IsRead day naive_time a b c p h = ground arith
validate_point-IsRead day out_of_range a b c p h = ground arith

IsRead-validate_point :
    (day : ℕ) (t : ReadTime) (a b c : ReadFigure) (p : Point)
    → IsRead day t a b c p
    → validate_point day t a b c ≡ ok p
unfolding validate_point
IsRead-validate_point day t a b c p h = rw (h.seen, h.low, h.middle, h.high) (ground arith)

validate_points-AreRead :
    (day : ℕ) (raw : List RawPoint) (points : List Point)
    → validate_points day raw ≡ ok points
    → AreRead day raw points
unfolding validate_points
validate_points-AreRead day [] [] h = tt
validate_points-AreRead day [] (p ∷ points) h = cc h
validate_points-AreRead day (r ∷ raw) points h =
    elim (Result-cases (validate_point day r.observed_at r.p10 r.p50 r.p90)) [
      | inl (e, f) ↦ absurd (ground arith)
      | inr (p, f) ↦ elim (Result-cases (validate_points (day + 1) raw)) [
        | inl (e, g) ↦ absurd (ground arith)
        | inr (rest, g) ↦
            let same : p ∷ rest ≡ points = ground arith in
            subst (AreRead day (r ∷ raw)) same (
              validate_point-IsRead day r.observed_at r.p10 r.p50 r.p90 p f,
              validate_points-AreRead (day + 1) raw rest g,
            )
      ]
    ]

AreRead-validate_points :
    (day : ℕ) (raw : List RawPoint) (points : List Point)
    → AreRead day raw points
    → validate_points day raw ≡ ok points
unfolding validate_points
AreRead-validate_points day [] [] h = refl
AreRead-validate_points day [] (p ∷ points) h = elim h [ ]
AreRead-validate_points day (r ∷ raw) [] h = elim h [ ]
AreRead-validate_points day (r ∷ raw) (p ∷ points) h =
    rw
      (
        IsRead-validate_point day r.observed_at r.p10 r.p50 r.p90 p h.0,
        AreRead-validate_points (day + 1) raw points h.1,
        validate_points,
      )
      refl

-- An answer is taken exactly if it has thirty points, the start has an offset, and the points are of the
-- thirty days after it, finite, not negative and in order; the curve holds what they say.
pub validate_ai_prediction_curve_iff :
    (raw : List RawPoint) (start : Stamp) (curve : List Point)
    → (validate_ai_prediction_curve raw start ≡ ok curve)
      ↔ ((length raw ≡ 30) × ((t : ℕ) × (start ≡ some t) × AreRead (date t + 1) raw curve))
unfolding validate_ai_prediction_curve
validate_ai_prediction_curve_iff raw none curve = (λ h. ground arith, λ h. ground arith)
validate_ai_prediction_curve_iff raw (some t) curve = (
  λ h.
      let many : length raw ≡ 30 = ground arith in
      (many, (t, refl, validate_points-AreRead (date t + 1) raw curve (ground arith))),
  λ h.
      let same : t ≡ h.1.0 = ground arith in
      let all_read : validate_points (date t + 1) raw ≡ ok curve =
        AreRead-validate_points (date t + 1) raw curve (rw same h.1.2) in
      ground arith,
)

-- The model answered, and its answer has a curve that is taken.
pub record CanTake (completion : Completion) (start : Stamp) (curve : List Point) : Type 0 where
  pub raw : List RawPoint
  pub from : ℕ
  pub answered : completion ≡ answer (some raw)
  pub started : start ≡ some from
  pub thirty : length raw ≡ 30
  pub points : AreRead (date from + 1) raw curve

-- The result is the model's curve.
pub record IsTaken (completion : Completion) (start : Stamp) (r : Result CandidateCurveResult)
    : Type 0 where
  pub curve : List Point
  pub returned : r ≡ ok (record { curve = curve; source = ai_candidate; fallback_reason = none })
  pub taken : CanTake completion start curve

abbrev pub reason_of : Completion → String
reason_of (client_error true) = "timeout"
reason_of _ = "invalid_output"

-- The result is the baseline, with the reason, and no curve can be taken.
pub record FallsBack (completion : Completion) (start : Stamp) (baseline : List Point)
    (r : Result CandidateCurveResult) : Type 0 where
  pub returned :
      r
      ≡ ok (record {
        curve = baseline;
        source = baseline_fallback;
        fallback_reason = some (reason_of completion);
      })
  pub untaken : ¬ ((points : List Point) × CanTake completion start points)

abbrev is_too_large : ReadFigure → Bool
is_too_large too_large = true
is_too_large _ = false

abbrev is_out_of_range : ReadTime → Bool
is_out_of_range out_of_range = true
is_out_of_range _ = false

-- A figure beyond the range of a float, or an instant beyond the range of a date.
abbrev pub overflows : RawPoint → Bool
overflows r =
    is_out_of_range r.observed_at || is_too_large r.p10 || is_too_large r.p50 || is_too_large r.p90

-- An exception leaves the code: one of the call of the model that it does not catch, or the overflow of an
-- answer with thirty points, one of which is beyond a range.
pub data Raises : Completion → Result CandidateCurveResult → Type 0 where
  by_call : (e : Error) → Raises (uncaught e) (err e)
  by_answer :
      (raw : List RawPoint)
      → length raw ≡ 30
      → any overflows raw ≡ true
      → Raises (answer (some raw)) (err overflow_error)

CanTake-validate :
    (raw : List RawPoint) (start : Stamp) (points : List Point)
    → CanTake (answer (some raw)) start points
    → validate_ai_prediction_curve raw start ≡ ok points
CanTake-validate raw start points c =
    let same : c.raw ≡ raw = cc c.answered in
    (validate_ai_prediction_curve_iff raw start points).1 (
      ap length (sym same) ∙ c.thirty,
      (c.from, c.started, subst (λ r. AreRead (date c.from + 1) r points) same c.points),
    )

validate_point-overflows :
    (day : ℕ) (r : RawPoint) (e : Error)
    → validate_point day r.observed_at r.p10 r.p50 r.p90 ≡ err e
    → is_caught e ≡ false
    → (e ≡ overflow_error) × (overflows r ≡ true)
unfolding validate_point
validate_point-overflows day r e h k = ground arith

validate_points-overflows :
    (day : ℕ) (raw : List RawPoint) (e : Error)
    → validate_points day raw ≡ err e
    → is_caught e ≡ false
    → (e ≡ overflow_error) × (any overflows raw ≡ true)
unfolding validate_points any
validate_points-overflows day [] e h k = cc h
validate_points-overflows day (r ∷ raw) e h k =
    elim (Result-cases (validate_point day r.observed_at r.p10 r.p50 r.p90)) [
      | inl (x, f) ↦
          let same : x ≡ e = ground arith in
          let (is, over) = validate_point-overflows day r x f (rw same k) in
          (sym same ∙ is, rw over refl)
      | inr (p, f) ↦ elim (Result-cases (validate_points (day + 1) raw)) [
        | inl (x, g) ↦
            let same : x ≡ e = ground arith in
            let (is, over) = validate_points-overflows (day + 1) raw x g (rw same k) in
            (sym same ∙ is, ground (arith, over))
        | inr (rest, g) ↦ absurd (ground arith)
      ]
    ]

validate-overflows :
    (raw : List RawPoint) (start : Stamp) (e : Error)
    → validate_ai_prediction_curve raw start ≡ err e
    → is_caught e ≡ false
    → (length raw ≡ 30) × (e ≡ overflow_error) × (any overflows raw ≡ true)
unfolding validate_ai_prediction_curve
validate-overflows raw none e h k = ground arith
validate-overflows raw (some t) e h k = elim (Bool-cases (length raw == 30)) [
  | inl m ↦
      let g : validate_points (date t + 1) raw ≡ err e = ground arith in
      let (is, over) = validate_points-overflows (date t + 1) raw e g k in
      ((==_iff (length raw) 30).0 m, is, over)
  | inr m ↦ absurd (ground arith)
]

-- What a request for a curve comes to: the curve of an answer that meets the conditions; or the baseline,
-- with the reason that the call timed out or that the answer is invalid, and then no curve of the answer
-- meets them; or an exception, which is one of the call that the code does not catch, or the overflow of
-- an answer of thirty points with a figure or an instant beyond the range of its type.
pub generate_candidate_curve_with_fallback-outcome :
    (completion : Completion) (start : Stamp) (baseline : List Point)
    → let r = generate_candidate_curve_with_fallback completion start baseline in
      IsTaken completion start r ⊎ FallsBack completion start baseline r ⊎ Raises completion r
unfolding generate_candidate_curve_with_fallback checked_curve
generate_candidate_curve_with_fallback-outcome (client_error true) start baseline =
    inr (inl (record { returned = refl; untaken = λ p. cc p.1.answered }))
generate_candidate_curve_with_fallback-outcome (client_error false) start baseline =
    inr (inl (record { returned = refl; untaken = λ p. cc p.1.answered }))
generate_candidate_curve_with_fallback-outcome (uncaught e) start baseline = inr (inr (by_call e))
generate_candidate_curve_with_fallback-outcome (answer none) start baseline =
    inr (inl (record { returned = refl; untaken = λ p. cc p.1.answered }))
generate_candidate_curve_with_fallback-outcome (answer (some raw)) start baseline =
    elim (Result-cases (validate_ai_prediction_curve raw start)) [
      | inl (e, f) ↦ elim (Bool-cases (is_caught e)) [
        | inl k ↦
            rw (f, generate_candidate_curve_with_fallback, checked_curve, k)
              (inr (
                inl (record {
                  returned = refl;
                  untaken = λ p. cc (sym f ∙ CanTake-validate raw start p.0 p.1);
                })))
        | inr k ↦
            let (many, is, over) = validate-overflows raw start e f k in
            rw (f, generate_candidate_curve_with_fallback, checked_curve, is)
              (inr (inr (by_answer raw many over)))
      ]
      | inr (curve, f) ↦
          let (many, (t, from, points)) = (validate_ai_prediction_curve_iff raw start curve).0 f in
          rw (f, generate_candidate_curve_with_fallback, checked_curve)
            (inl (record {
              curve = curve;
              returned = refl;
              taken = record {
                raw = raw;
                from = t;
                answered = refl;
                started = from;
                thirty = many;
                points = points;
              };
            }))
    ]
