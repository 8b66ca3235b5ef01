-- ===== src/Alerts/Rule/Levels.antt =====
-- What a valid rule says of the level of a ratio.
use disk_pulse.Prelude.{ℕ, suc, ◌*◌, ◌≤◌, ◌<◌, ◌≡◌, ◌↔◌, Option, none, some, arith}
use disk_pulse.Prelude.Exec.{ok}
use disk_pulse.Alerts.Rule.{StorageAlertRule, rule_dict, Level, important, index, level_rule, level}

-- What validation establishes.
pub record IsValidRule (r : StorageAlertRule) : Type 0 where
  pub positive : 0 < r.important.threshold
  pub important_serious : r.important.threshold < r.serious.threshold
  pub serious_emergency : r.serious.threshold < r.emergency.threshold
  pub at_most : r.emergency.threshold ≤ 100
  pub important_repeats : 0 < r.important.repeat_hours
  pub serious_repeats : 0 < r.serious.repeat_hours
  pub emergency_repeats : 0 < r.emergency.repeat_hours

-- Validation accepts a rule exactly when it is valid, and returns it unchanged.
pub rule_dict-IsValidRule :
    (r s : StorageAlertRule) → (rule_dict r ≡ ok s) ↔ ((r ≡ s) × IsValidRule r)
unfolding rule_dict
rule_dict-IsValidRule r s = (λ h. (ground arith, ground arith), λ (e, v). rw e (ground arith))

-- 0 where no threshold is reached, and otherwise one more than the place of the level in `LEVELS`.
abbrev pub rank : Option Level → ℕ
rank none = 0
rank (some l) = suc (index l)

-- Under a valid rule the level of a ratio is `l` or above exactly when the ratio reaches the
-- threshold of `l`.
pub rank-level :
    (r : StorageAlertRule) (ratio : ℕ) (l : Level)
    → IsValidRule r
    → (index l < rank (level r ratio)) ↔ ((level_rule r l).threshold * 100 ≤ ratio)
unfolding level
rank-level r ratio important v = (λ h. ground arith, λ h. ground arith)
rank-level r ratio _ v = (λ h. ground arith, λ h. ground arith)
