-- ===== src/Alerts/Transition/Invariant.antt =====
-- What holds of every state that the state machine of the alerts can reach.
use disk_pulse.Prelude.{
  ◌≡◌, Bool, true, false, Option, none, some, List, [], ◌∷◌, ℕ, arith, leb, is_some,
}
use disk_pulse.Prelude.Exec.{Result, ok, err}
use disk_pulse.Alerts.Rule.{StorageAlertRule, rule_dict}
use disk_pulse.Prelude.{String}
use disk_pulse.Alerts.Transition.{
  AlertState, TransitionResult, Sample, transition_normalized, transition_alert_state,
}

-- The first instant, where there is one, is not after the second.
abbrev pub in_order : Option ℕ → Option ℕ → Bool
in_order none t = true
in_order (some s) none = false
in_order (some s) (some t) = leb s t

pub record IsReached (s : AlertState) : Type 0 where
  -- A level is active exactly from the second breach in a row on.
  pub active_count : is_some s.current_level ≡ leb 2 s.consecutive_breach_count
  -- An active level has been notified.
  pub active_notified : is_some s.current_level ≡ true → is_some s.last_notified_at ≡ true
  pub sampled : is_some s.last_observed_at ≡ true
  pub notified_sampled : in_order s.last_notified_at s.last_observed_at ≡ true

abbrev pub Reached : Option AlertState → Type 0
Reached none = Unit
Reached (some s) = IsReached s

-- The state that is kept: an exception leaves the row as it was.
abbrev pub kept : Option AlertState → Result TransitionResult → Option AlertState
kept state (ok r) = r.state
kept state (err e) = state

module _ (signature_of : StorageAlertRule → String) where
  pub transition_normalized-Reached :
      (state : Option AlertState) (rule : StorageAlertRule) (x : Sample)
      → Reached state
      → Reached (transition_normalized signature_of state rule x).state
  unfolding transition_normalized
  transition_normalized-Reached none rule x h = ground arith
  transition_normalized-Reached (some s) rule x h = ground arith

  -- The state of one target after a history of samples, each under the rule of its time.
  unfoldable pub run : Option AlertState → List (StorageAlertRule × Sample) → Option AlertState
  run state [] = state
  run state ((rule, x) ∷ history) =
      run (kept state (transition_alert_state signature_of state rule x)) history

  step-Reached :
      (state : Option AlertState) (rule : StorageAlertRule) (x : Sample)
      → Reached state
      → Reached (kept state (transition_alert_state signature_of state rule x))
  unfolding transition_alert_state
  step-Reached state rule x h = split (rule_dict rule)
    where
      split :
          (r : Result StorageAlertRule)
          → Reached (
              kept state (elim r [
                | ok normalized ↦ ok (transition_normalized signature_of state normalized x)
                | err e ↦ err e
              ]))
      split (ok normalized) = transition_normalized-Reached state normalized x h
      split (err e) = h

  -- Whatever samples and rules a target has seen, its state is well formed: a level is active exactly
  -- from two breaches in a row on, an active level has been notified, and the notification is not
  -- later than the last sample.
  pub run-Reached :
      (state : Option AlertState) (history : List (StorageAlertRule × Sample))
      → Reached state
      → Reached (run state history)
  unfolding run
  run-Reached state [] h = h
  run-Reached state ((rule, x) ∷ history) h =
      run-Reached (kept state (transition_alert_state signature_of state rule x)) history
        (step-Reached state rule x h)
