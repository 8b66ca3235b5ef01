-- ===== src/Alerts/Transition/Repeats.antt =====
-- Targets whose rule does not change: a breach is notified only when it is confirmed, and repeated
-- notifications keep the interval of their level.
use text.Mathlib.TextEquality.{eq_iff}
use disk_pulse.Prelude.{
  ℕ, ◌+◌, ◌*◌, ◌≤◌, String, ◌≡◌, Bool, true, false, Option, none, some, List, [], ◌∷◌, arith, leb,
  is_some, refl, ◌⊎◌, inl, inr, All,
}
use disk_pulse.Prelude.Time.{Instant, hours}
use disk_pulse.Alerts.Rule.{StorageAlertRule, Level, level, level_rule}
use disk_pulse.Alerts.Transition.{
  AlertState, EventType, trigger, repeat, TransitionResult, Sample, transition_normalized,
}
use disk_pulse.Alerts.Transition.Invariant.{
  in_order, Reached, IsReached, transition_normalized-Reached,
}

module _ (signature_of : StorageAlertRule → String) (rule : StorageAlertRule) where
  abbrev step : Option AlertState → Sample → TransitionResult
  step state x = transition_normalized signature_of state rule x

  -- The state after a run of samples under the one rule.
  unfoldable pub watch : Option AlertState → List Sample → Option AlertState
  watch state [] = state
  watch state (x ∷ xs) = watch (step state x).state xs

  abbrev breaches : Option ℕ → Bool
  breaches none = false
  breaches (some ratio) = is_some (level rule ratio)

  -- The rule is the one of the state, and the count tells whether the last sample breached.
  abbrev Counted : Option AlertState → Type 0
  Counted none = Unit
  Counted (some s) =
      (s.rule_signature ≡ signature_of rule)
      × (breaches s.last_use_ratio ≡ leb 1 s.consecutive_breach_count)

  step-Counted :
      (state : Option AlertState) (x : Sample)
      → Reached state
      → Counted state
      → Counted (step state x).state
  unfolding transition_normalized
  step-Counted none x r h = ground arith
  step-Counted (some s) x r h = ground (arith, eq_iff s.rule_signature (signature_of rule))

  watch-Counted :
      (state : Option AlertState) (xs : List Sample)
      → Reached state
      → Counted state
      → Counted (watch state xs)
  unfolding watch
  watch-Counted state [] r h = h
  watch-Counted state (x ∷ xs) r h =
      watch-Counted (step state x).state xs
        (transition_normalized-Reached signature_of state rule x r) (step-Counted state x r h)

  trigger_needs :
      (state : Option AlertState) (x : Sample)
      → Counted state
      → (step state x).event_type ≡ some trigger
      → (s : AlertState) × (state ≡ some s)
        × (breaches s.last_use_ratio ≡ true)
        × (breaches (some x.use_ratio) ≡ true)
  unfolding transition_normalized
  trigger_needs none x h e = ground arith
  trigger_needs (some s) x h e = (s, refl, ground arith, ground arith)

  -- A first notification needs two breaches in a row: the sample that raises it reaches a threshold,
  -- and so did the last sample before it that was not skipped.
  pub trigger-two_breaches :
      (xs : List Sample) (x : Sample)
      → (step (watch none xs) x).event_type ≡ some trigger
      → (s : AlertState) × (watch none xs ≡ some s)
        × (breaches s.last_use_ratio ≡ true)
        × (breaches (some x.use_ratio) ≡ true)
  trigger-two_breaches xs x e = trigger_needs (watch none xs) x (watch-Counted none xs tt tt) e

  pub watch-Reached :
      (state : Option AlertState) (xs : List Sample) → Reached state → Reached (watch state xs)
  unfolding watch
  watch-Reached state [] h = h
  watch-Reached state (x ∷ xs) h =
      watch-Reached (step state x).state xs
        (transition_normalized-Reached signature_of state rule x h)

module _ (signature_of : StorageAlertRule → String) (rule : StorageAlertRule) (l : Level) where
  abbrev is_repeat : Option EventType → ℕ
  is_repeat (some repeat) = 1
  is_repeat _ = 0

  -- The number of repeated notifications that a run of samples sends.
  unfoldable pub repeats : Option AlertState → List Sample → ℕ
  repeats state [] = 0
  repeats state (x ∷ xs) =
      let r = transition_normalized signature_of state rule x in
      is_repeat r.event_type + repeats r.state xs

  -- The state while `l` stays active, notified last at `t`.
  record IsActive (s : AlertState) (t : Instant) : Type 0 where
    same_rule : s.rule_signature ≡ signature_of rule
    at_level : s.current_level ≡ some l
    notified : s.last_notified_at ≡ some t

  abbrev notified_at : Option AlertState → Option Instant
  notified_at none = none
  notified_at (some s) = s.last_notified_at

  abbrev seen : AlertState → Sample → AlertState
  seen s x = record s { last_use_ratio = some x.use_ratio; last_observed_at = some x.observed_at }

  -- What a sample at the level does: it is skipped, it is recorded, or it repeats the notification,
  -- and then the interval of the level has passed.
  step_cases :
      (s : AlertState) (t : Instant) (x : Sample)
      → IsActive s t
      → level rule x.use_ratio ≡ some l
      → let r = transition_normalized signature_of (some s) rule x in
        (r.state ≡ some s) × (is_repeat r.event_type ≡ 0)
        ⊎ (r.state ≡ some (seen s x)) × (is_repeat r.event_type ≡ 0)
        ⊎ (r.state ≡ some (record (seen s x) { last_notified_at = some x.observed_at }))
          × (is_repeat r.event_type ≡ 1)
          × (t + hours (level_rule rule l).repeat_hours ≤ x.observed_at)
  unfolding transition_normalized
  step_cases s t x h at = ground (arith, eq_iff s.rule_signature (signature_of rule))

  step-IsActive :
      (s : AlertState) (t : Instant) (x : Sample)
      → IsActive s t
      → level rule x.use_ratio ≡ some l
      → let r = transition_normalized signature_of (some s) rule x in
        (s' : AlertState) × (t' : Instant) × (r.state ≡ some s')
        × IsActive s' t'
        × (is_repeat r.event_type * hours (level_rule rule l).repeat_hours + t ≤ t')
  step-IsActive s t x h at = elim (step_cases s t x h at) [
    | inl (e, n) ↦ (s, t, e, h, rw n (omega arith))
    | inr (inl (e, n)) ↦ (seen s x, t, e, ground arith, rw n (omega arith))
    | inr (inr (e, n, due)) ↦ (
      record (seen s x) { last_notified_at = some x.observed_at },
      x.observed_at,
      e,
      ground arith,
      rw n (omega arith),
    )
  ]

  add_up : (a b h t t1 t2 : ℕ) → a * h + t ≤ t1 → b * h + t1 ≤ t2 → (a + b) * h + t ≤ t2
  add_up a b h t t1 t2 p q = grind arith

  repeats_bound :
      (xs : List Sample) (s : AlertState) (t : Instant)
      → IsActive s t
      → All (λ (x : Sample). level rule x.use_ratio ≡ some l) xs
      → (s' : AlertState) × (t' : Instant) × (watch signature_of rule (some s) xs ≡ some s')
        × IsActive s' t'
        × (repeats (some s) xs * hours (level_rule rule l).repeat_hours + t ≤ t')
  unfolding watch repeats
  repeats_bound [] s t h at = (s, t, refl, h, omega arith)
  repeats_bound (x ∷ xs) s t h (now, later) =
      let (s1, t1, e1, h1, b1) = step-IsActive s t x h now in
      let (s2, t2, e2, h2, b2) = repeats_bound xs s1 t1 h1 later in
      (s2, t2, rw e1 e2, h2, rw e1 (add_up _ _ _ t t1 t2 b1 b2))

  -- Where the level of the rule is active and notified, the rule is unchanged, and every sample of a run
  -- is at the level: the level stays active, and the repeated notifications of the run fit, each with a
  -- whole repeat interval, between the notification before the run and the last one behind it, which is
  -- not after the last sample.
  pub repeats-interval :
      (xs : List Sample) (s : AlertState) (t : Instant)
      → IsReached s
      → s.rule_signature ≡ signature_of rule
      → s.current_level ≡ some l
      → s.last_notified_at ≡ some t
      → All (λ (x : Sample). level rule x.use_ratio ≡ some l) xs
      → (s' : AlertState) × (watch signature_of rule (some s) xs ≡ some s')
        × (s'.current_level ≡ some l)
        × ((t' : Instant) × (s'.last_notified_at ≡ some t')
            × (repeats (some s) xs * hours (level_rule rule l).repeat_hours + t ≤ t')
            × (in_order (some t') s'.last_observed_at ≡ true))
  repeats-interval xs s t r sig cur notified at =
      let (s', t', e, h, b) = repeats_bound xs s t (ground arith) at in
      let r' : Reached (some s') = rw e at (watch-Reached signature_of rule (some s) xs r) in
      (s', e, h.at_level, (t', h.notified, b, rw (← h.notified) r'.notified_sampled))
