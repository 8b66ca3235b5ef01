-- ===== src/Incidents/Admission.antt =====
-- `should_admit_incident` of backend/services/forecastIncidentService.py: which signals become
-- incidents. A signal holds what the function reads of an envelope; `exhaustion_p90` is what
-- `_forecast_exhaustion_at` makes of the value.
use text.Mathlib.Text.{◌==◌ as str_eq}
use text.Mathlib.TextEquality.{eq_iff}
use disk_pulse.Prelude.{
  ℕ, ◌+◌, ◌*◌, ◌≤◌, ◌≡◌, ◌⊎◌, inl, inr, refl, String, Bool, true, false, ◌&&◌, ◌||◌, Option, none,
  some, leb, arith, if◌then◌else◌, Bool-cases, Option-cases,
}
use disk_pulse.Prelude.Time.{Instant, hours}
use disk_pulse.Incidents.Db.{
  Category, capacity_pressure, device_fault, performance_contention, telemetry_blindspot,
}

-- The value of an envelope that is a dictionary. The association type may be absent or null.
pub record SignalValue : Type 0 where
  pub association_type : Option (Option String)
  pub metric : Option String
  pub incident_eligible : Bool
  pub exhaustion_p90 : Option Instant

pub record Signal : Type 0 where
  pub source : String
  pub severity : String
  pub value : Option SignalValue

abbrev pub incident_forecast_urgent_days : ℕ
incident_forecast_urgent_days = 7

abbrev known_or_fault : Option String → Bool
known_or_fault none = true
known_or_fault (some t) = str_eq t "fault_log" || str_eq t "unknown"

abbrev association_admitted : Option SignalValue → Bool
association_admitted none = true
association_admitted (some v) = elim v.association_type [ none ↦ true | some t ↦ known_or_fault t ]

abbrev is_text : Option String → String → Bool
is_text none text = false
is_text (some t) text = str_eq t text

abbrev latency_eligible : Option SignalValue → Bool
latency_eligible none = false
latency_eligible (some v) = is_text v.metric "latency" && v.incident_eligible

-- `timedelta(0) <= remaining <= timedelta(days=...)`
abbrev exhausts_soon : Option SignalValue → Instant → Bool
exhausts_soon none now = false
exhausts_soon (some v) now = elim v.exhaustion_p90 [
  | none ↦ false
  | some t ↦ leb now t && leb t (now + hours (24 * incident_forecast_urgent_days))
]

unfoldable pub should_admit_incident : Signal → Category → Instant → Bool
should_admit_incident signal device_fault now =
    str_eq signal.source "vendor_event"
    && str_eq signal.severity "critical"
    && association_admitted signal.value
should_admit_incident signal performance_contention now =
    str_eq signal.source "anomaly_observation"
    && str_eq signal.severity "critical"
    && latency_eligible signal.value
should_admit_incident signal telemetry_blindspot now = false
should_admit_incident signal capacity_pressure now =
    if str_eq signal.source "diskpulse_alert"
    then str_eq signal.severity "critical"
    else str_eq signal.source "capacity_forecast" && exhausts_soon signal.value now

exhausts_soon_lem :
    (value : Option SignalValue) (now : Instant)
    → exhausts_soon value now ≡ true
    → (v : SignalValue) × (t : Instant) × (value ≡ some v)
      × (v.exhaustion_p90 ≡ some t)
      × (now ≤ t)
      × (t ≤ now + hours (24 * incident_forecast_urgent_days))
exhausts_soon_lem none now h = ground arith
exhausts_soon_lem (some v) now h = elim (Option-cases v.exhaustion_p90) [
  | inl e ↦ ground (arith, e)
  | inr (t, e) ↦ (v, t, refl, e, ground (arith, e), ground (arith, e))
]

-- Only urgent signals are admitted: one is critical, or it forecasts that the capacity is exhausted
-- within the next seven days; and each comes from the one source, or for the capacity from one of the
-- two sources, of its category, of which gaps in the telemetry have none.
pub should_admit_incident_urgent :
    (signal : Signal) (category : Category) (now : Instant)
    → should_admit_incident signal category now ≡ true
    → (category ≡ device_fault) × (signal.source ≡ "vendor_event") × (signal.severity ≡ "critical")
      ⊎ (category ≡ performance_contention)
        × (signal.source ≡ "anomaly_observation")
        × (signal.severity ≡ "critical")
      ⊎ (category ≡ capacity_pressure)
        × (signal.source ≡ "diskpulse_alert")
        × (signal.severity ≡ "critical")
      ⊎ (category ≡ capacity_pressure)
        × (signal.source ≡ "capacity_forecast")
        × ((v : SignalValue) × (t : Instant) × (signal.value ≡ some v)
            × (v.exhaustion_p90 ≡ some t)
            × (now ≤ t)
            × (t ≤ now + hours (24 * incident_forecast_urgent_days)))
unfolding should_admit_incident
should_admit_incident_urgent signal device_fault now h = inl (
  refl,
  ground (arith, eq_iff signal.source "vendor_event"),
  ground (arith, eq_iff signal.severity "critical"),
)
should_admit_incident_urgent signal performance_contention now h = inr (
    inl (
      refl,
      ground (arith, eq_iff signal.source "anomaly_observation"),
      ground (arith, eq_iff signal.severity "critical"),
    ))
should_admit_incident_urgent signal telemetry_blindspot now h = ground arith
should_admit_incident_urgent signal capacity_pressure now h =
    elim (Bool-cases (str_eq signal.source "diskpulse_alert")) [
      | inl e ↦ inr (
          inr (
            inl (
              refl,
              (eq_iff signal.source "diskpulse_alert").0 e,
              ground (arith, e, eq_iff signal.severity "critical"),
            )))
      | inr e ↦ inr (
          inr (
            inr (
              refl,
              ground (arith, e, eq_iff signal.source "capacity_forecast"),
              exhausts_soon_lem signal.value now (ground (arith, e)),
            )))
    ]
