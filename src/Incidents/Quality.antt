-- ===== src/Incidents/Quality.antt =====
-- `evaluate_telemetry_quality` of backend/services/forecastIncidentService.py. The coverage is a number of
-- ten-thousandths, to the nearest one.
use disk_pulse.Prelude.{
  ℕ, ◌+◌, ◌*◌, ◌/◌, ◌≤◌, String, ◌≡◌, ◌↔◌, true, Option, none, some, List, [], ◌∷◌, ◌++◌, arith,
  ltb, ◌==◌, if◌then◌else◌, is_some,
}
use disk_pulse.Prelude.Time.{Instant, seconds}

pub data Component : Type 0 where
  capacity vendor_events performance : Component

pub data QualityStatus : Type 0 where
  ready insufficient stale unknown : QualityStatus

pub record TelemetryQualityResult : Type 0 where
  pub status : QualityStatus
  pub coverage_ratio : ℕ
  pub latest_point_at : Option Instant
  pub data_gaps : List String

-- The seconds after which a success is too old.
abbrev pub stale_after : Component → ℕ
stale_after capacity = 150
stale_after vendor_events = 150
stale_after performance = 630

-- `MIN_COVERAGE`
abbrev pub min_coverage : ℕ
min_coverage = 8_000

unfoldable pub coverage : ℕ → ℕ → ℕ
coverage observed expected =
    if expected == 0 then 0 else (observed * 20_000 + expected) / (expected * 2)

-- The status and the gap that age and coverage give.
unfoldable pub measured : Component → Instant → ℕ → Instant → QualityStatus × List String
measured component latest_success_at ratio now =
    if ltb (latest_success_at + seconds (stale_after component)) now
    then (stale, "telemetry_stale" ∷ [])
    else if ltb ratio min_coverage
    then (insufficient, "coverage_insufficient" ∷ [])
    else (ready, [])

abbrev without_point : QualityStatus → QualityStatus
without_point ready = insufficient
without_point status = status

-- `if latest_point_at is None`
unfoldable pub pointed : Option Instant → QualityStatus × List String → QualityStatus × List String
pointed none (status, gaps) = (without_point status, gaps ++ "latest_point_missing" ∷ [])
pointed (some t) (status, gaps) = (status, gaps)

unfoldable pub evaluate_telemetry_quality :
    Component
    → (latest_success_at latest_point_at : Option Instant) → (observed_points expected_points : ℕ)
    → Instant
    → TelemetryQualityResult
unfolding coverage measured pointed
evaluate_telemetry_quality component none latest_point_at observed expected now = record {
  status = unknown;
  coverage_ratio = coverage observed expected;
  latest_point_at = latest_point_at;
  data_gaps = "telemetry_success_unknown" ∷ [];
}
evaluate_telemetry_quality component (some success) latest_point_at observed expected now =
    let ratio = coverage observed expected in
    let (status, gaps) = pointed latest_point_at (measured component success ratio now) in
    record {
      status = status;
      coverage_ratio = ratio;
      latest_point_at = latest_point_at;
      data_gaps = gaps;
    }

ready_status_iff :
    (component : Component) (success ratio now : ℕ) (point : Option Instant)
    → ((pointed point (measured component success ratio now)).0 ≡ ready) ↔ (
        (now ≤ success + seconds (stale_after component))
        × (min_coverage ≤ ratio)
        × (is_some point ≡ true))
unfolding pointed measured
ready_status_iff component success ratio now none = (λ h. ground (arith, h), λ h. ground (arith, h))
ready_status_iff component success ratio now (some t) =
    (λ h. ground (arith, h), λ h. ground (arith, h))

-- Telemetry whose last success is known is ready exactly if that is not too old for the component, the
-- coverage is four fifths or more, and there is a last point.
pub evaluate_telemetry_quality-ready :
    (component : Component) (success : Instant) (point : Option Instant) (observed expected : ℕ)
    (now : Instant)
    → (evaluate_telemetry_quality component (some success) point observed expected now).status
        ≡ ready
      ↔ ((now ≤ success + seconds (stale_after component))
          × (min_coverage ≤ coverage observed expected)
          × (is_some point ≡ true))
unfolding evaluate_telemetry_quality
evaluate_telemetry_quality-ready component success point observed expected now =
    ready_status_iff component success (coverage observed expected) now point
