-- ===== src/Alerts/Transition.antt =====
-- `transition_alert_state` of backend/services/storageAlertRuleService.py: one sample of a target's
-- use ratio against the state kept for the target.
-- The state is a value here. `_evaluate_one` writes the returned fields back to the row, so it makes
-- no difference that `_copy_state` writes to a mapped object in place.
pub mod Invariant
pub mod Events
pub mod Repeats
pub mod Observed
use text.Mathlib.Text.{◌==◌ as str_eq}
use disk_pulse.Prelude.{
  ℕ, zero, suc, ◌+◌, String, Bool, true, false, not, ◌&&◌, Option, none, some, ltb, leb,
  if◌then◌else◌,
}
use disk_pulse.Prelude.Exec.{Result, ok, err}
use disk_pulse.Prelude.Time.{Instant, hours}
use disk_pulse.Alerts.Rule.{
  QuotaBasis, hard, soft, StorageAlertRule, rule_dict, Level, index, level_rule, level,
}

pub record AlertState : Type 0 where
  pub rule_signature : String
  pub consecutive_breach_count : ℕ
  pub current_level : Option Level
  pub last_use_ratio : Option ℕ
  pub last_observed_at : Option Instant
  pub last_notified_at : Option Instant

pub data EventType : Type 0 where
  trigger escalation repeat recovery : EventType

pub record TransitionResult : Type 0 where
  pub state : Option AlertState
  pub event_type : Option EventType
  pub level : Option Level
  pub previous_level : Option Level
  pub skipped : Bool

-- One sample of a target.
pub record Sample : Type 0 where
  pub use_ratio : ℕ
  pub observed_at : Instant
  pub soft_limit_available : Bool

abbrev is_soft : QuotaBasis → Bool
is_soft hard = false
is_soft soft = true

-- `observed_at <= _value(state, "last_observed_at")`
is_stale : Option AlertState → Instant → Bool
is_stale none now = false
is_stale (some s) now = elim s.last_observed_at [ none ↦ false | some t ↦ leb now t ]

abbrev skip : Option AlertState → TransitionResult
skip state = record {
  state = state;
  event_type = none;
  level = none;
  previous_level = none;
  skipped = true;
}

-- A result without an event, and one with an event.
abbrev quiet : AlertState → TransitionResult
quiet s = record {
  state = some s;
  event_type = none;
  level = none;
  previous_level = none;
  skipped = false;
}

abbrev event : AlertState → EventType → Level → TransitionResult
event s e l = record {
  state = some s;
  event_type = some e;
  level = some l;
  previous_level = none;
  skipped = false;
}

-- The state of a target that is new, or whose rule has changed.
fresh : String → Option Level → Sample → AlertState
fresh signature l x = record {
  rule_signature = signature;
  consecutive_breach_count = elim l [ none ↦ 0 | some _ ↦ 1 ];
  current_level = none;
  last_use_ratio = some x.use_ratio;
  last_observed_at = some x.observed_at;
  last_notified_at = none;
}

-- `_copy_state(state, **common)`
observed : AlertState → Sample → AlertState
observed s x = record s { last_use_ratio = some x.use_ratio; last_observed_at = some x.observed_at }

-- `level is None`
recovered : AlertState → Sample → TransitionResult
unfolding observed
recovered s x =
    let new_state = record (observed s x) { consecutive_breach_count = 0; current_level = none } in
    elim s.current_level [
      | none ↦ quiet new_state
      | some current ↦ record {
        state = some new_state;
        event_type = some recovery;
        level = none;
        previous_level = some current;
        skipped = false;
      }
    ]

-- `current is None`: the second breach in a row triggers.
pending : AlertState → Level → Sample → TransitionResult
unfolding observed
pending s l x =
    let count = s.consecutive_breach_count + 1 in
    let new_state = record (observed s x) { consecutive_breach_count = count } in
    if ltb count 2
    then quiet new_state
    else event (record new_state { current_level = some l; last_notified_at = some x.observed_at })
        trigger l

-- `last_notified is None or observed_at - last_notified >= repeat_after`
abbrev repeat_due : StorageAlertRule → Level → Option Instant → Instant → Bool
repeat_due rule l none now = true
repeat_due rule l (some t) now = leb (t + hours (level_rule rule l).repeat_hours) now

-- The current level against the level of the sample.
active : StorageAlertRule → AlertState → Level → Level → Sample → TransitionResult
unfolding observed
active rule s current l x =
    if ltb (index current) (index l)
    then event
        (record (observed s x) { current_level = some l; last_notified_at = some x.observed_at })
        escalation l
    else if ltb (index l) (index current)
    then quiet (record (observed s x) { current_level = some l })
    else if repeat_due rule l s.last_notified_at x.observed_at
    then event (record (observed s x) { last_notified_at = some x.observed_at }) repeat l
    else quiet (observed s x)

-- The same rule as at the last sample.
same_rule : StorageAlertRule → AlertState → Option Level → Sample → TransitionResult
unfolding recovered pending active
same_rule rule s none x = recovered s x
same_rule rule s (some l) x = elim s.current_level [
  | none ↦ pending s l x
  | some current ↦ active rule s current l x
]

abbrev compare_rule :
    String → StorageAlertRule → Option AlertState → Option Level → Sample → TransitionResult
unfolding same_rule fresh
compare_rule signature rule none l x = quiet (fresh signature l x)
compare_rule signature rule (some s) l x =
    if not (str_eq s.rule_signature signature)
    then quiet (fresh signature l x)
    else same_rule rule s l x

-- `signature_of` is the hex digest that json and hashlib make of a rule.
module _ (signature_of : StorageAlertRule → String) where
  -- The body behind `_rule_dict`.
  unfoldable pub transition_normalized :
      Option AlertState → StorageAlertRule → Sample → TransitionResult
  unfolding is_stale compare_rule
  transition_normalized state rule x =
      if is_soft rule.quota_basis && not x.soft_limit_available
      then skip state
      else if is_stale state x.observed_at
      then skip state
      else compare_rule (signature_of rule) rule state (level rule x.use_ratio) x

  unfoldable pub transition_alert_state :
      Option AlertState → StorageAlertRule → Sample → Result TransitionResult
  transition_alert_state state rule x = elim (rule_dict rule) [
    | ok normalized ↦ ok (transition_normalized state normalized x)
    | err e ↦ err e
  ]
