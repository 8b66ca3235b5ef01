-- ===== src/Prediction/Risk/Horizon.antt =====
-- What the conclusion of backend/services/capacityPredictionGovernanceService.py means for the curve.
use disk_pulse.Prelude.{
  ℕ, ◌+◌, ◌*◌, ◌≤◌, ◌<◌, ◌≡◌, ◌↔◌, ◌⊎◌, refl, inl, inr, Bool, true, false, Option, none, some, List,
  [], ◌∷◌, arith, leb, Bool-cases, All,
}
use disk_pulse.Prelude.Exec.{ok}
use disk_pulse.Prelude.Time.{Instant, hours}
use disk_pulse.Prediction.Db.{Stamp, Point, CapacityForecast}
use disk_pulse.Prediction.Curve.{RawPoint, date, validate_ai_prediction_curve}
use disk_pulse.Prediction.Curve.Daily.{AreRead, validate_ai_prediction_curve_iff}
use disk_pulse.Prediction.View.{exhaustion, with_curve}
use disk_pulse.Prediction.Risk.{
  Level, critical, high, no_risk, within_days, risk_level, build_exhaustion_risk_summary,
}

-- Some point up to the time reaches the limit.
abbrev pub Reaches : (Point → ℕ) → ℕ → Instant → List Point → Type 0
Reaches quantile limit end [] = ⊥
Reaches quantile limit end (p ∷ curve) =
    (limit ≤ quantile p) × (p.observed_at ≤ end) ⊎ Reaches quantile limit end curve

-- The points come in the order of time.
abbrev pub IsOrdered : List Point → Type 0
IsOrdered [] = Unit
IsOrdered (p ∷ curve) = All (λ (q : Point). p.observed_at ≤ q.observed_at) curve × IsOrdered curve

-- The date is there and not after the time.
abbrev due : Instant → Option Instant → Bool
due end none = false
due end (some t) = leb t end

late :
    (quantile : Point → ℕ) (limit end : ℕ) (t : ℕ) (curve : List Point)
    → All (λ (q : Point). t ≤ q.observed_at) curve
    → Reaches quantile limit end curve
    → t ≤ end
late quantile limit end t [] a r = elim r [ ]
late quantile limit end t (p ∷ curve) a (inl r) = omega (arith, a.0, r.1)
late quantile limit end t (p ∷ curve) a (inr r) = late quantile limit end t curve a.1 r

tail :
    (quantile : Point → ℕ) (limit end : ℕ) (p : Point) (curve : List Point)
    → leb limit (quantile p) ≡ false
    → Reaches quantile limit end (p ∷ curve)
    → Reaches quantile limit end curve
tail quantile limit end p curve e (inl r) = absurd (ground arith)
tail quantile limit end p curve e (inr r) = r

-- The first point that reaches the limit is due exactly if some point does by then.
due-exhaustion :
    (quantile : Point → ℕ) (limit end : ℕ) (curve : List Point)
    → IsOrdered curve
    → (due end (exhaustion quantile limit curve) ≡ true) ↔ Reaches quantile limit end curve
unfolding exhaustion
due-exhaustion quantile limit end [] o = (λ h. cc h, λ r. elim r [ ])
due-exhaustion quantile limit end (p ∷ curve) o = elim (Bool-cases (leb limit (quantile p))) [
  | inl e ↦ (
    λ h. inl (ground arith, ground arith),
    λ r.
        let early : p.observed_at ≤ end =
          late quantile limit end p.observed_at (p ∷ curve) (omega arith, o.0) r in
        ground arith,
  )
  | inr e ↦ (
    λ h. inr ((due-exhaustion quantile limit end curve o.1).0 (rw e at h)),
    λ r.
        rw e
          ((due-exhaustion quantile limit end curve o.1).1 (tail quantile limit end p curve e r)),
  )
]

-- The ninetieth percentile is nowhere below the median.
abbrev pub Above : List Point → Type 0
Above curve = All (λ (p : Point). p.p50 ≤ p.p90) curve

Reaches-Above :
    (limit end : ℕ) (curve : List Point)
    → Above curve
    → Reaches (λ (p : Point). p.p50) limit end curve
    → Reaches (λ (p : Point). p.p90) limit end curve
Reaches-Above limit end [] a r = elim r [ ]
Reaches-Above limit end (p ∷ curve) a (inl r) = inl (omega (arith, a.0, r.0), r.1)
Reaches-Above limit end (p ∷ curve) a (inr r) = inr (Reaches-Above limit end curve a.1 r)

-- A curve that was taken from a model is one of days in their order.
AreRead-after :
    (day : ℕ) (raw : List RawPoint) (curve : List Point) (t : ℕ)
    → date t < day
    → AreRead day raw curve
    → All (λ (q : Point). t ≤ q.observed_at) curve
AreRead-after day [] [] t h a = tt
AreRead-after day [] (p ∷ curve) t h a = elim a [ ]
AreRead-after day (r ∷ raw) [] t h a = elim a [ ]
AreRead-after day (r ∷ raw) (p ∷ curve) t h a =
    (omega (arith, h, a.0.of_day), AreRead-after (day + 1) raw curve t (omega (arith, h)) a.1)

AreRead-IsOrdered :
    (day : ℕ) (raw : List RawPoint) (curve : List Point) → AreRead day raw curve → IsOrdered curve
AreRead-IsOrdered day [] [] a = tt
AreRead-IsOrdered day [] (p ∷ curve) a = elim a [ ]
AreRead-IsOrdered day (r ∷ raw) [] a = elim a [ ]
AreRead-IsOrdered day (r ∷ raw) (p ∷ curve) a = (
  AreRead-after (day + 1) raw curve p.observed_at (omega (arith, a.0.of_day)) a.1,
  AreRead-IsOrdered (day + 1) raw curve a.1,
)

AreRead-Above :
    (day : ℕ) (raw : List RawPoint) (curve : List Point) → AreRead day raw curve → Above curve
AreRead-Above day [] [] a = tt
AreRead-Above day [] (p ∷ curve) a = elim a [ ]
AreRead-Above day (r ∷ raw) [] a = elim a [ ]
AreRead-Above day (r ∷ raw) (p ∷ curve) a = (a.0.high_ge, AreRead-Above (day + 1) raw curve a.1)

level-cases :
    (p50 p90 : Option Instant) (now : ℕ)
    → let level = risk_level true p50 p90 now in
      ((level ≡ critical) ↔ (within_days 7 now p90 ≡ true))
      × ((level ≡ high) ↔ ((within_days 7 now p90 ≡ false) × (within_days 30 now p50 ≡ true)))
      × ((level ≡ no_risk) ↔ ((within_days 30 now p50 ≡ false) × (within_days 30 now p90 ≡ false)))
unfolding risk_level
level-cases none none now = (
  (λ h. ground arith, λ h. ground arith),
  (λ h. ground arith, λ h. ground arith),
  (λ h. ground arith, λ h. ground arith),
)
level-cases none (some t) now = (
  (λ h. ground arith, λ h. ground arith),
  (λ h. ground arith, λ h. ground arith),
  (λ h. ground arith, λ h. ground arith),
)
level-cases (some t) none now = (
  (λ h. ground arith, λ h. ground arith),
  (λ h. ground arith, λ h. ground arith),
  (λ h. ground arith, λ h. ground arith),
)
level-cases (some t) (some u) now = (
  (λ h. ground arith, λ h. ground arith),
  (λ h. ground arith, λ h. ground arith),
  (λ h. ground arith, λ h. ground arith),
)

within_days-due :
    (days now : ℕ) (o : Option Instant) → within_days days now o ≡ due (now + hours (days * 24)) o
within_days-due days now none = refl
within_days-due days now (some t) = refl

within_iff :
    (quantile : Point → ℕ) (limit days now : ℕ) (curve : List Point)
    → IsOrdered curve
    → (within_days days now (exhaustion quantile limit curve) ≡ true)
      ↔ Reaches quantile limit (now + hours (days * 24)) curve
within_iff quantile limit days now curve o =
    rw (within_days-due days now (exhaustion quantile limit curve))
      (due-exhaustion quantile limit (now + hours (days * 24)) curve o)

-- A test that is false, by what it being true means.
false_iff : {P : Type 0} (b : Bool) → ((b ≡ true) ↔ P) → (b ≡ false) ↔ (¬ P)
false_iff true e = (λ h. cc h, λ n. absurd (n (e.0 refl)))
false_iff false e = (λ h p. cc (e.1 p), λ n. refl)

-- What the level says of a curve.
abbrev pub Concludes : Level → ℕ → ℕ → List Point → Type 0
Concludes level limit now curve =
    ((level ≡ critical) ↔ Reaches (λ (p : Point). p.p90) limit (now + hours (7 * 24)) curve)
    × ((level ≡ high) ↔ (
        (¬ Reaches (λ (p : Point). p.p90) limit (now + hours (7 * 24)) curve)
        × Reaches (λ (p : Point). p.p50) limit (now + hours (30 * 24)) curve))
    × ((level ≡ no_risk) ↔ (¬ Reaches (λ (p : Point). p.p90) limit (now + hours (30 * 24)) curve))

level-Concludes :
    (ready : Bool) (limit now : ℕ) (curve : List Point)
    → ready ≡ true
    → IsOrdered curve
    → Above curve
    → Concludes
        (risk_level ready
          (exhaustion (λ (p : Point). p.p50) limit curve)
          (exhaustion (λ (p : Point). p.p90) limit curve)
          now)
        limit
        now
        curve
level-Concludes false limit now curve ready o a = cc ready
level-Concludes true limit now curve ready o a =
    let p50 = exhaustion (λ (p : Point). p.p50) limit curve in
    let p90 = exhaustion (λ (p : Point). p.p90) limit curve in
    let (is_critical, is_high, is_none) = level-cases p50 p90 now in
    let week = within_iff (λ (p : Point). p.p90) limit 7 now curve o in
    let month = within_iff (λ (p : Point). p.p90) limit 30 now curve o in
    let median = within_iff (λ (p : Point). p.p50) limit 30 now curve o in
    let no_week = false_iff (within_days 7 now p90) week in
    let no_month = false_iff (within_days 30 now p90) month in
    let no_median = false_iff (within_days 30 now p50) median in
    (
      (λ h. week.0 (is_critical.0 h), λ r. is_critical.1 (week.1 r)),
      (
        λ h. let (x, y) = is_high.0 h in (no_week.0 x, median.0 y),
        λ r. is_high.1 (no_week.1 r.0, median.1 r.1),
      ),
      (
        λ h. no_month.0 (is_none.0 h).1,
        λ n. is_none.1 (
          no_median.1 (λ r. n (Reaches-Above limit (now + hours (30 * 24)) curve a r)),
          no_month.1 n,
        ),
      ),
    )

-- For a forecast with enough data and a curve that was taken from a model, the level is critical exactly
-- if the ninetieth percentile reaches the hard limit on a point that is not later than seven days from
-- now, high exactly if it does not but the median does on a point not later than thirty days from now, and
-- none exactly if the ninetieth percentile does so on no point not later than thirty days from now. Points
-- of days that have passed count.
pub build_exhaustion_risk_summary-Concludes :
    (f : CapacityForecast) (raw : List RawPoint) (start : Stamp) (curve : List Point) (now : ℕ)
    → f.ready ≡ true
    → validate_ai_prediction_curve raw start ≡ ok curve
    → Concludes
        (build_exhaustion_risk_summary (with_curve f curve) now).level
        f.hard_limit
        now
        curve
unfolding build_exhaustion_risk_summary with_curve
build_exhaustion_risk_summary-Concludes f raw start curve now ready taken =
    let (many, (t, from, points)) = (validate_ai_prediction_curve_iff raw start curve).0 taken in
    level-Concludes f.ready f.hard_limit now curve ready
      (AreRead-IsOrdered (date t + 1) raw curve points)
      (AreRead-Above (date t + 1) raw curve points)
