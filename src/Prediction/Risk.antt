-- ===== src/Prediction/Risk.antt =====
-- The conclusion about the exhaustion of a resource: `build_exhaustion_risk_summary` and
-- `get_capacity_exhaustion_risk` of backend/services/capacityPredictionGovernanceService.py. The dates of
-- a stored forecast are already read: one that cannot be read is none.
use disk_pulse.Prelude.{
  ℕ, ◌+◌, ◌*◌, Bool, true, false, not, ◌&&◌, Option, none, some, List, ltb, leb, if◌then◌else◌,
}
use disk_pulse.Prelude.Exec.{Error, Result, ok, err}
use disk_pulse.Prelude.Time.{Instant, hours}
use disk_pulse.Access.Db.{User}
use disk_pulse.Prediction.Db.{AssetType, Point, CapacityForecast, Store}
use disk_pulse.Prediction.View.{FinalPrediction, get_resource_prediction}
pub mod Horizon

-- `RISK_LABELS`
pub data Level : Type 0 where
  insufficient critical high watch no_risk : Level

-- `date is not None and date <= now + timedelta(days=days)`
abbrev pub within_days : ℕ → Instant → Option Instant → Bool
within_days days now none = false
within_days days now (some t) = leb t (now + hours (days * 24))

unfoldable pub risk_level : Bool → Option Instant → Option Instant → Instant → Level
risk_level ready p50 p90 now =
    if not ready
    then insufficient
    else (if within_days 7 now p90
        then critical
        else (if within_days 30 now p50
            then high
            else (if within_days 30 now p90 then watch else no_risk)))

pub record RiskSummary : Type 0 where
  pub level : Level
  pub p50_exhaustion_at : Option Instant
  pub p90_exhaustion_at : Option Instant
  pub generated_at : Instant

unfoldable pub build_exhaustion_risk_summary : CapacityForecast → Instant → RiskSummary
unfolding risk_level
build_exhaustion_risk_summary f now = record {
  level = risk_level f.ready f.p50_exhaustion f.p90_exhaustion now;
  p50_exhaustion_at = f.p50_exhaustion;
  p90_exhaustion_at = f.p90_exhaustion;
  generated_at = f.created_at;
}

unfoldable pub get_capacity_exhaustion_risk :
    Store → Option User → AssetType → ℕ → Instant → Result RiskSummary
unfolding build_exhaustion_risk_summary
get_capacity_exhaustion_risk s user t n now = elim (get_resource_prediction s user t n) [
  | err e ↦ err e
  | ok v ↦ ok (build_exhaustion_risk_summary v.forecast now)
]
