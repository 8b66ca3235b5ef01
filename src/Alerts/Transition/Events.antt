-- ===== src/Alerts/Transition/Events.antt =====
-- Which event a sample raises, in terms of the levels before and after it.
use text.Mathlib.TextEquality.{eq_iff}
use disk_pulse.Prelude.{
  ℕ, ◌+◌, ◌<◌, String, ◌≡◌, ◌↔◌, ◌⊎◌, Bool, true, false, Option, none, some, arith, ltb, leb, ◌==◌,
  if◌then◌else◌,
}
use disk_pulse.Prelude.Time.{Instant, hours}
use disk_pulse.Alerts.Rule.{StorageAlertRule, soft, Level, level, level_rule}
use disk_pulse.Alerts.Transition.{
  AlertState, EventType, trigger, escalation, repeat, recovery, Sample, transition_normalized,
}
use disk_pulse.Alerts.Transition.Invariant.{IsReached}

-- The table of events, over the rank of the level before and after the sample.
abbrev event_of : (before after : ℕ) (due : Bool) → Option EventType
event_of before after due =
    if before == 0
    then (if after == 0 then none else some trigger)
    else if after == 0
    then some recovery
    else if ltb before after
    then some escalation
    else if ltb after before
    then none
    else if due
    then some repeat
    else none

-- What an event tells of the ranks before and after the sample.
pub record Means (before after : ℕ) (due : Bool) (e : Option EventType) : Type 0 where
  pub triggers : (e ≡ some trigger) ↔ ((before ≡ 0) × (0 < after))
  pub escalates : (e ≡ some escalation) ↔ ((0 < before) × (before < after))
  pub recovers : (e ≡ some recovery) ↔ ((0 < before) × (after ≡ 0))
  pub repeats : (e ≡ some repeat) ↔ ((0 < before) × (before ≡ after) × (due ≡ true))
  pub lower : 0 < after → after < before → e ≡ none

-- The time since the last notification has reached the repeat interval of the active level.
abbrev due_at : StorageAlertRule → AlertState → Instant → Bool
due_at rule s now = elim s.current_level [
  | none ↦ false
  | some l ↦ elim s.last_notified_at [
    | none ↦ true
    | some t ↦ leb (t + hours (level_rule rule l).repeat_hours) now
  ]
]

abbrev pub current : Option AlertState → Option Level
current none = none
current (some s) = s.current_level

-- The last sample is not older than the state's, and at the same instant is stale too.
abbrev stale : Option AlertState → Sample → Bool
stale none x = false
stale (some s) x = elim s.last_observed_at [ none ↦ false | some t ↦ leb x.observed_at t ]

abbrev observed_by : Option AlertState → Option Instant
observed_by none = none
observed_by (some s) = s.last_observed_at

module _ (signature_of : StorageAlertRule → String) where
  -- Under an unchanged rule, an accepted sample makes the level of its ratio the active one if it is
  -- the second breach in a row or later; otherwise no level is active.
  pub current-transition :
      (s : AlertState) (rule : StorageAlertRule) (x : Sample) {t : Instant}
      → IsReached s
      → s.rule_signature ≡ signature_of rule
      → s.last_observed_at ≡ some t
      → leb x.observed_at t ≡ false
      → (rule.quota_basis ≡ soft → x.soft_limit_available ≡ true)
      → current (transition_normalized signature_of (some s) rule x).state
        ≡ (if leb 1 s.consecutive_breach_count then level rule x.use_ratio else none)
  unfolding transition_normalized
  current-transition s rule x h sig seen newer judged =
      ground (arith, eq_iff s.rule_signature (signature_of rule))

  -- A sample is skipped exactly when its rule goes by a soft limit that the target lacks, or when it
  -- is not newer than the last sample. What is skipped leaves the state as it was and raises no
  -- event; any other sample becomes the last one.
  pub skipped-transition :
      (state : Option AlertState) (rule : StorageAlertRule) (x : Sample)
      → let r = transition_normalized signature_of state rule x in
        ((r.skipped ≡ true)
          ↔ ((rule.quota_basis ≡ soft) × (x.soft_limit_available ≡ false) ⊎ (stale state x ≡ true)))
        × (r.skipped ≡ true → (r.state ≡ state) × (r.event_type ≡ none))
        × (r.skipped ≡ false → observed_by r.state ≡ some x.observed_at)
  unfolding transition_normalized
  skipped-transition none rule x =
      ((λ h. ground arith, λ h. ground arith), λ h. (ground arith, ground arith), λ h. ground arith)
  skipped-transition (some s) rule x =
      ((λ h. ground arith, λ h. ground arith), λ h. (ground arith, ground arith), λ h. ground arith)
