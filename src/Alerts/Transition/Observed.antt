-- ===== src/Alerts/Transition/Observed.antt =====
-- When `transition_alert_state` of backend/services/storageAlertRuleService.py skips a sample, and that it
-- keeps the time of one that it does not skip.
use disk_pulse.Prelude.{
  ℕ, String, ◌≡◌, ◌⊎◌, inl, inr, refl, sym, ap, ◌∙◌, Bool, true, false, not, ◌&&◌, Option, none,
  some, arith, leb, Bool-cases,
}
use disk_pulse.Prelude.Exec.{ok, Result-cases}
use disk_pulse.Alerts.Rule.{StorageAlertRule, rule_dict, Level, level}
use disk_pulse.Alerts.Transition.{
  AlertState, TransitionResult, Sample, is_soft, is_stale, skip, fresh, observed, recovered,
  pending, active, same_rule, compare_rule, transition_normalized, transition_alert_state,
}

-- The time of the last sample of a state.
abbrev pub seen_at : Option AlertState → Option ℕ
seen_at none = none
seen_at (some s) = s.last_observed_at

-- The state is of the time or of a later one.
abbrev pub seen_by : ℕ → Option ℕ → Bool
seen_by now none = false
seen_by now (some t) = leb now t

recovered-seen : (s : AlertState) (x : Sample) → seen_at (recovered s x).state ≡ some x.observed_at
unfolding recovered observed
recovered-seen s x = ground arith

pending-seen :
    (s : AlertState) (l : Level) (x : Sample) → seen_at (pending s l x).state ≡ some x.observed_at
unfolding pending observed
pending-seen s l x = ground arith

active-seen :
    (rule : StorageAlertRule) (s : AlertState) (current l : Level) (x : Sample)
    → seen_at (active rule s current l x).state ≡ some x.observed_at
unfolding active observed
active-seen rule s current l x = ground arith

same_rule-seen :
    (rule : StorageAlertRule) (s : AlertState) (o : Option Level) (x : Sample)
    → seen_at (same_rule rule s o x).state ≡ some x.observed_at
unfolding same_rule
same_rule-seen rule s none x = recovered-seen s x
same_rule-seen rule s (some l) x =
    ground (arith, pending-seen s l x, λ (c : Level). active-seen rule s c l x)

compare_rule-seen :
    (signature : String) (rule : StorageAlertRule) (o : Option AlertState) (l : Option Level)
    (x : Sample)
    → seen_at (compare_rule signature rule o l x).state ≡ some x.observed_at
unfolding compare_rule fresh
compare_rule-seen signature rule none l x = refl
compare_rule-seen signature rule (some s) l x = ground (arith, same_rule-seen rule s l x)

-- A comparison never skips.
compare_rule-unskipped :
    (signature : String) (rule : StorageAlertRule) (o : Option AlertState) (l : Option Level)
    (x : Sample)
    → (compare_rule signature rule o l x).skipped ≡ false
unfolding compare_rule same_rule recovered pending active
compare_rule-unskipped signature rule none l x = refl
compare_rule-unskipped signature rule (some s) none x = ground arith
compare_rule-unskipped signature rule (some s) (some l) x = ground arith

is_stale-seen : (s : AlertState) (now : ℕ) → is_stale (some s) now ≡ seen_by now s.last_observed_at
unfolding is_stale
is_stale-seen s now = ground arith

-- The sample is of no use under the rule.
abbrev pub no_soft : StorageAlertRule → Sample → Bool
no_soft rule x = is_soft rule.quota_basis && not x.soft_limit_available

stale_by : (o : Option AlertState) (now : ℕ) → is_stale o now ≡ seen_by now (seen_at o)
unfolding is_stale
stale_by none now = refl
stale_by (some s) now = is_stale-seen s now

rule_dict_same : (rule r : StorageAlertRule) → rule_dict rule ≡ ok r → rule ≡ r
unfolding rule_dict
rule_dict_same rule r h = ground arith

module _ (signature_of : StorageAlertRule → String) where
  -- The three ways through the body.
  normalized-skips :
      (o : Option AlertState) (rule : StorageAlertRule) (x : Sample)
      → (no_soft rule x ≡ true) ⊎ (seen_by x.observed_at (seen_at o) ≡ true)
      → transition_normalized signature_of o rule x ≡ skip o
  unfolding transition_normalized
  normalized-skips o rule x (inl h) = rw (h, transition_normalized) refl
  normalized-skips o rule x (inr h) = ground (arith, stale_by o x.observed_at)

  normalized-compares :
      (o : Option AlertState) (rule : StorageAlertRule) (x : Sample)
      → no_soft rule x ≡ false
      → seen_by x.observed_at (seen_at o) ≡ false
      → transition_normalized signature_of o rule x
        ≡ compare_rule (signature_of rule) rule o (level rule x.use_ratio) x
  unfolding transition_normalized
  normalized-compares o rule x h k = ground (arith, stale_by o x.observed_at)

  pub transition-normalized :
      (o : Option AlertState) (rule : StorageAlertRule) (x : Sample) (r : TransitionResult)
      → transition_alert_state signature_of o rule x ≡ ok r
      → (rule_dict rule ≡ ok rule) × (transition_normalized signature_of o rule x ≡ r)
  unfolding transition_alert_state
  transition-normalized o rule x r h = elim (Result-cases (rule_dict rule)) [
    | inl (e, f) ↦ cc (rw (f, transition_alert_state) at h)
    | inr (n, f) ↦
        let same : rule ≡ n = rule_dict_same rule n f in
        let got : transition_normalized signature_of o n x ≡ r =
          cc (rw (f, transition_alert_state) at h) in
        (f ∙ ap ok (sym same), ap (λ n. transition_normalized signature_of o n x) same ∙ got)
  ]

  -- A result that is not skipped has a state of the sample's time.
  pub transition-seen :
      (o : Option AlertState) (rule : StorageAlertRule) (x : Sample) (r : TransitionResult)
      → transition_alert_state signature_of o rule x ≡ ok r
      → r.skipped ≡ false
      → seen_at r.state ≡ some x.observed_at
  transition-seen o rule x r h k =
      let (valid, same) = transition-normalized o rule x r h in
      elim (Bool-cases (no_soft rule x)) [
        | inl e ↦ absurd (cc (ap (λ r. r.skipped) (sym (normalized-skips o rule x (inl e)) ∙ same)))
        | inr e ↦ elim (Bool-cases (seen_by x.observed_at (seen_at o))) [
          | inl f ↦
              absurd (cc (ap (λ r. r.skipped) (sym (normalized-skips o rule x (inr f)) ∙ same)))
          | inr f ↦
              ap (λ r. seen_at r.state) (sym same ∙ normalized-compares o rule x e f)
              ∙ compare_rule-seen (signature_of rule) rule o (level rule x.use_ratio) x
        ]
      ]

  -- A sample is skipped for want of a soft limit, or because the state is not older.
  pub transition-skipped :
      (o : Option AlertState) (rule : StorageAlertRule) (x : Sample) (r : TransitionResult)
      → transition_alert_state signature_of o rule x ≡ ok r
      → r.skipped ≡ true
      → (no_soft rule x ≡ true) ⊎ (seen_by x.observed_at (seen_at o) ≡ true)
  transition-skipped o rule x r h k =
      let (valid, same) = transition-normalized o rule x r h in
      elim (Bool-cases (no_soft rule x)) [
        | inl e ↦ inl e
        | inr e ↦ elim (Bool-cases (seen_by x.observed_at (seen_at o))) [
          | inl f ↦ inr f
          | inr f ↦ absurd (
              cc (
                sym k
                ∙ ap (λ r. r.skipped) (sym same ∙ normalized-compares o rule x e f)
                ∙ compare_rule-unskipped (signature_of rule) rule o (level rule x.use_ratio) x))
        ]
      ]

  -- And then it is skipped, with the state as it was.
  pub skipped-transition :
      (o : Option AlertState) (rule : StorageAlertRule) (x : Sample)
      → rule_dict rule ≡ ok rule
      → (no_soft rule x ≡ true) ⊎ (seen_by x.observed_at (seen_at o) ≡ true)
      → (r : TransitionResult) × (transition_alert_state signature_of o rule x ≡ ok r)
        × (r.skipped ≡ true)
        × (r.state ≡ o)
  unfolding transition_alert_state
  skipped-transition o rule x h k =
      (skip o, rw (h, transition_alert_state) (ap ok (normalized-skips o rule x k)), refl, refl)
